-- ===== src/Wire/Voice.antt =====
-- A voice datagram on its way: client/src/net/voice_datagram.rs writes it,
-- server/media/voice_forwarder.rs parses it and writes the forwarded one, and `parse_voice_payload`
-- of client/src/main.rs reads that. Numbers are big-endian here. The uuid library is an argument.
pub mod Forwarding
use Prim.Native.Nat.{bit_and, min}
use tsod.Prelude.{
  ℕ, ◌+◌, ◌<◌, ◌^◌, Bool, true, false, not, Option, none, some, List, [], ◌∷◌, ◌++◌, if◌then◌else◌,
  ltb, leb, ◌==◌, length, get_or, take, drop, Bytes, to_be, from_be,
}
use tsod.Wire.Limits.{
  voice_version, client_voice_header_bytes, forwarded_voice_header_bytes, app_media_mtu,
}

unfoldable pub make_voice_datagram : ℕ → ℕ → ℕ → ℕ → Bool → Bytes → Bytes
make_voice_datagram channel_route_hash ssrc seq ts_ms vad payload =
    voice_version ∷ (if vad then 0x01 else 0x00) ∷ to_be 2 client_voice_header_bytes
    ++ (to_be 4 channel_route_hash ++ (to_be 4 ssrc ++ (to_be 4 seq ++ (to_be 4 ts_ms ++ payload))))

pub record VoicePacket : Type 0 where
  pub flags : ℕ
  pub channel_route : ℕ
  pub ssrc : ℕ
  pub seq : ℕ
  pub ts_ms : ℕ
  pub vad : Bool

-- `b[i]`; every index that is read is below the length that has been checked.
abbrev byte_at : Bytes → ℕ → ℕ
byte_at b i = get_or b i 0

abbrev be_u32 : Bytes → ℕ → ℕ
be_u32 b i = from_be (byte_at b i ∷ byte_at b (i + 1) ∷ byte_at b (i + 2) ∷ byte_at b (i + 3) ∷ [])

unfoldable pub parse_voice : Bytes → Option VoicePacket
parse_voice b =
    if ltb (length b) client_voice_header_bytes
    then none
    else if not (byte_at b 0 == 1)
    then none
    else if not (from_be (byte_at b 2 ∷ byte_at b 3 ∷ []) == client_voice_header_bytes)
    then none
    else some (record {
      flags = byte_at b 1;
      channel_route = be_u32 b 4;
      ssrc = be_u32 b 8;
      seq = be_u32 b 12;
      ts_ms = be_u32 b 16;
      vad = not (bit_and (byte_at b 1) 0x01 == 0);
    })

-- What is used of the uuid library: `as_bytes` and `Uuid::from_slice`.
pub record UuidLibrary (Uuid : Type 0) : Type 0 where
  pub as_bytes : Uuid → Bytes
  pub from_slice : Bytes → Option Uuid

pub record InboundVoice (Uuid : Type 0) : Type 0 where
  pub sender_user_id : Option Uuid
  pub channel_id : Option Uuid
  pub ssrc : ℕ
  pub seq : ℕ
  pub ts_ms : ℕ
  pub payload : Bytes

module _ {Uuid : Type 0} (uuids : UuidLibrary Uuid) where
  unfoldable pub forwarded : VoicePacket → Uuid → Uuid → Bytes → Bytes
  forwarded parsed sender channel payload =
      1 ∷ parsed.flags ∷ to_be 2 forwarded_voice_header_bytes
      ++ (to_be 4 parsed.channel_route
          ++ (to_be 4 parsed.ssrc
              ++ (to_be 4 parsed.seq
                  ++ (to_be 4 parsed.ts_ms
                      ++ (uuids.as_bytes sender ++ (uuids.as_bytes channel ++ payload))))))

  -- Its caller has parsed `datagram`, so that the slice does not panic.
  unfoldable pub build_forwarded_voice_datagram :
      ℕ → VoicePacket → Uuid → Uuid → Bytes → Option Bytes
  build_forwarded_voice_datagram max_wire parsed sender channel datagram =
      let payload = drop client_voice_header_bytes datagram in
      if ltb (min max_wire app_media_mtu) (forwarded_voice_header_bytes + length payload)
      then none
      else some (forwarded parsed sender channel payload)

  -- The match on the header's length.
  unfoldable pub inbound : Bytes → ℕ → Option (InboundVoice Uuid)
  inbound d hdr_len =
      if hdr_len == client_voice_header_bytes
      then some (record {
        sender_user_id = none;
        channel_id = none;
        ssrc = be_u32 d 8;
        seq = be_u32 d 12;
        ts_ms = be_u32 d 16;
        payload = drop hdr_len d;
      })
      else if hdr_len == forwarded_voice_header_bytes
      then some (record {
        sender_user_id = uuids.from_slice (take 16 (drop 20 d));
        channel_id = uuids.from_slice (take 16 (drop 36 d));
        ssrc = be_u32 d 8;
        seq = be_u32 d 12;
        ts_ms = be_u32 d 16;
        payload = drop hdr_len d;
      })
      else none

  unfoldable pub parse_voice_payload : Bytes → Option (InboundVoice Uuid)
  parse_voice_payload d =
      let hdr_len = from_be (byte_at d 2 ∷ byte_at d 3 ∷ []) in
      if ltb (length d) client_voice_header_bytes
      then none
      else if not (byte_at d 0 == voice_version)
      then none
      else if leb (length d) hdr_len
      then none
      else inbound d hdr_len
