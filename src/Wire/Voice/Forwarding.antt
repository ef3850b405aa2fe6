-- ===== src/Wire/Voice/Forwarding.antt =====
-- A voice datagram from the client that speaks through the gateway to a client that listens.
use Prim.Native.Nat.{min}
use tsod.Prelude.{
  ℕ, zero, suc, ◌+◌, ◌≤◌, ◌<◌, ◌^◌, ◌≡◌, refl, ap, ◌∙◌, Bool, true, false, Option, none, some, List,
  [], ◌∷◌, ◌++◌, if◌then◌else◌, arith, length, length-append, ◌↔◌, length-drop, get_or, take, drop,
  Bytes, from_be, from_be-to_be_4,
}
use tsod.Wire.Limits.{outbound_payload_fits, app_media_mtu}
use tsod.Wire.Voice.{
  make_voice_datagram, VoicePacket, parse_voice, UuidLibrary, InboundVoice, forwarded,
  build_forwarded_voice_datagram, inbound, parse_voice_payload,
}

-- What the client says is what the gateway parses.
parse_voice-make_voice_datagram :
    (route ssrc seq ts_ms : ℕ) (vad : Bool) (payload : Bytes)
    → route < 2 ^ 32
    → ssrc < 2 ^ 32
    → seq < 2 ^ 32
    → ts_ms < 2 ^ 32
    → parse_voice (make_voice_datagram route ssrc seq ts_ms vad payload)
      ≡ some (record {
        flags = if vad then 1 else 0;
        channel_route = route;
        ssrc = ssrc;
        seq = seq;
        ts_ms = ts_ms;
        vad = vad;
      })
unfolding parse_voice make_voice_datagram
parse_voice-make_voice_datagram route ssrc seq ts_ms true payload hr hs hq ht = ground (
  arith,
  from_be-to_be_4 route hr,
  from_be-to_be_4 ssrc hs,
  from_be-to_be_4 seq hq,
  from_be-to_be_4 ts_ms ht,
)
parse_voice-make_voice_datagram route ssrc seq ts_ms false payload hr hs hq ht = ground (
  arith,
  from_be-to_be_4 route hr,
  from_be-to_be_4 ssrc hs,
  from_be-to_be_4 seq hq,
  from_be-to_be_4 ts_ms ht,
)

take-of_append {ℓ} : {A : Type ℓ} (xs ys : List A) (n : ℕ) → length xs ≡ n → take n (xs ++ ys) ≡ xs
take-of_append [] ys zero h = refl
take-of_append [] ys (suc n) h = absurd (omega arith)
take-of_append (x ∷ xs) ys zero h = absurd (omega arith)
take-of_append (x ∷ xs) ys (suc n) h = ap (λ t. x ∷ t) (take-of_append xs ys n (omega arith))

drop-of_append {ℓ} :
    {A : Type ℓ} (xs ys : List A) (m n : ℕ) → length xs ≡ n → drop (n + m) (xs ++ ys) ≡ drop m ys
drop-of_append [] ys m zero h = ap (λ k. drop k ys) (omega arith)
drop-of_append [] ys m (suc n) h = absurd (omega arith)
drop-of_append (x ∷ xs) ys m zero h = absurd (omega arith)
drop-of_append (x ∷ xs) ys m (suc n) h =
    let shifted : suc n + m ≡ suc (n + m) = omega arith in
    ap (λ k. drop k (x ∷ (xs ++ ys))) shifted ∙ drop-of_append xs ys m n (omega arith)

-- An identifier is 16 bytes, from which it is read back.
pub record IsUuidLibrary {Uuid : Type 0} (uuids : UuidLibrary Uuid) : Type 0 where
  pub sixteen : (u : Uuid) → length (uuids.as_bytes u) ≡ 16
  pub reads_back : (u : Uuid) → uuids.from_slice (uuids.as_bytes u) ≡ some u

module _ {Uuid : Type 0} (uuids : UuidLibrary Uuid) (laws : IsUuidLibrary uuids) where
  length-forwarded :
      (p : VoicePacket) (sender channel : Uuid) (payload : Bytes)
      → length (forwarded uuids p sender channel payload) ≡ 52 + length payload
  unfolding forwarded
  length-forwarded p sender channel payload = omega (
    arith,
    length-append (uuids.as_bytes sender) (uuids.as_bytes channel ++ payload),
    length-append (uuids.as_bytes channel) payload,
    laws.sixteen sender,
    laws.sixteen channel,
  )

  inbound-forwarded :
      (p : VoicePacket) (sender channel : Uuid) (payload : Bytes)
      → p.ssrc < 2 ^ 32
      → p.seq < 2 ^ 32
      → p.ts_ms < 2 ^ 32
      → inbound uuids (forwarded uuids p sender channel payload) 52
        ≡ some (record {
          sender_user_id = some sender;
          channel_id = some channel;
          ssrc = p.ssrc;
          seq = p.seq;
          ts_ms = p.ts_ms;
          payload = payload;
        })
  unfolding inbound forwarded
  inbound-forwarded p sender channel payload hs hq ht =
      rw
        (
          take-of_append (uuids.as_bytes sender) (uuids.as_bytes channel ++ payload) 16
              (laws.sixteen sender),
          drop-of_append (uuids.as_bytes sender) (uuids.as_bytes channel ++ payload) 0 16
              (laws.sixteen sender),
          drop-of_append (uuids.as_bytes sender) (uuids.as_bytes channel ++ payload) 16 16
              (laws.sixteen sender),
          take-of_append (uuids.as_bytes channel) payload 16 (laws.sixteen channel),
          drop-of_append (uuids.as_bytes channel) payload 0 16 (laws.sixteen channel),
          laws.reads_back sender,
          laws.reads_back channel,
          from_be-to_be_4 p.ssrc hs,
          from_be-to_be_4 p.seq hq,
          from_be-to_be_4 p.ts_ms ht,
        )
        refl

outbound_payload_fits-le : (n : ℕ) → outbound_payload_fits n ≡ true → n ≤ 1100
unfolding outbound_payload_fits
outbound_payload_fits-le n h = ground arith

abbrev pub and_then {ℓ ℓ'} : {A : Type ℓ} {B : Type ℓ'} → Option A → (A → Option B) → Option B
and_then none f = none
and_then (some a) f = f a

-- A voice datagram of a client, as the gateway hands it on and a listening client reads it.
abbrev pub relay :
    {Uuid : Type 0} → UuidLibrary Uuid → ℕ → Uuid → Uuid → Bytes → Option (InboundVoice Uuid)
relay uuids max_wire sender channel d = and_then (parse_voice d) (λ p.
    and_then (build_forwarded_voice_datagram uuids max_wire p sender channel d)
      (parse_voice_payload uuids))

module _ {Uuid : Type 0} (uuids : UuidLibrary Uuid) (laws : IsUuidLibrary uuids) where
  forwarded_start :
      (p : VoicePacket) (sender channel : Uuid) (payload : Bytes)
      → let d = forwarded uuids p sender channel payload in
        (get_or d 0 0 ≡ 1) × (from_be (get_or d 2 0 ∷ get_or d 3 0 ∷ []) ≡ 52)
  unfolding forwarded
  forwarded_start p sender channel payload = (refl, refl)

  parse_voice_payload-forwarded :
      (p : VoicePacket) (sender channel : Uuid) (payload : Bytes)
      → 1 ≤ length payload
      → parse_voice_payload uuids (forwarded uuids p sender channel payload)
        ≡ inbound uuids (forwarded uuids p sender channel payload) 52
  unfolding parse_voice_payload
  parse_voice_payload-forwarded p sender channel payload h = ground (
    arith,
    length-forwarded uuids laws p sender channel payload,
    forwarded_start p sender channel payload,
  )

  build-make_voice_datagram :
      (max_wire : ℕ) (p : VoicePacket) (sender channel : Uuid) (route ssrc seq ts_ms : ℕ)
      (vad : Bool) (payload : Bytes)
      → length payload ≤ 1100
      → 52 + length payload ≤ max_wire
      → build_forwarded_voice_datagram uuids max_wire p sender channel
          (make_voice_datagram route ssrc seq ts_ms vad payload)
        ≡ some (forwarded uuids p sender channel payload)
  unfolding build_forwarded_voice_datagram make_voice_datagram
  build-make_voice_datagram max_wire p sender channel route ssrc seq ts_ms vad payload h w =
      ground arith

  -- What a client speaks is what another hears: where the uuid library reads 16-byte identifiers
  -- back, the numbers fit 32 bits, the payload is not empty and of at most 1100 bytes, and the
  -- forwarded datagram fits the listener's connection, the listener reads the speaker's identifier,
  -- the channel's, the same source, sequence number and time, and the payload.
  pub relay-make_voice_datagram :
      (max_wire : ℕ) (sender channel : Uuid) (route ssrc seq ts_ms : ℕ) (vad : Bool)
      (payload : Bytes)
      → route < 2 ^ 32
      → ssrc < 2 ^ 32
      → seq < 2 ^ 32
      → ts_ms < 2 ^ 32
      → 1 ≤ length payload
      → outbound_payload_fits (length payload) ≡ true
      → 52 + length payload ≤ max_wire
      → relay uuids max_wire sender channel (make_voice_datagram route ssrc seq ts_ms vad payload)
        ≡ some (record {
          sender_user_id = some sender;
          channel_id = some channel;
          ssrc = ssrc;
          seq = seq;
          ts_ms = ts_ms;
          payload = payload;
        })
  relay-make_voice_datagram max_wire sender channel route ssrc seq ts_ms vad payload hr hs hq ht ne
        fits w =
      rw
        (
          parse_voice-make_voice_datagram route ssrc seq ts_ms vad payload hr hs hq ht,
          build-make_voice_datagram max_wire _ sender channel route ssrc seq ts_ms vad payload
              (outbound_payload_fits-le (length payload) fits) w,
        )
        (parse_voice_payload-forwarded _ sender channel payload ne
          ∙ inbound-forwarded uuids laws _ sender channel payload hs hq ht)

  -- Of a datagram that holds a client header, with 16-byte identifiers, nothing is forwarded exactly
  -- where 32 bytes more would not fit the receiver's connection or the MTU of the application, and
  -- what is forwarded has 32 bytes more.
  pub build_forwarded_voice_datagram_fits :
      (max_wire : ℕ) (p : VoicePacket) (sender channel : Uuid) (d : Bytes)
      → 20 ≤ length d
      → let built = build_forwarded_voice_datagram uuids max_wire p sender channel d in
        ((built ≡ none) ↔ (min max_wire app_media_mtu < length d + 32))
        × ((out : Bytes) → built ≡ some out → length out ≡ length d + 32)
  unfolding build_forwarded_voice_datagram
  build_forwarded_voice_datagram_fits max_wire p sender channel d h =
      ground (arith, length-forwarded uuids laws p sender channel (drop 20 d), length-drop 20 d)
