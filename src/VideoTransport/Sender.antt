-- ===== src/VideoTransport/Sender.antt =====
-- `VideoStreamProfile`, `BufferPool` and `VideoSender` of client/src/net/video_transport.rs. The pacer,
-- which computes with floats and sleeps, is an argument: its type, and what `acquire` and `set_policy`
-- leave of it. A buffer is the list of its bytes; capacities have no counterpart.
pub mod Fragments
pub mod Success
use Prim.Native.Nat.{bit_or}
use tsod.Prelude.{
  ℕ, zero, suc, ◌+◌, ◌-◌, ◌*◌, ◌/◌, ◌%◌, ◌^◌, min, max, Bool, true, false, ◌&&◌, Option, none, some,
  List, [], ◌∷◌, ◌++◌, if◌then◌else◌, ltb, leb, ◌==◌, length, take, drop, replicate, Bytes,
}
use tsod.Wire.Limits.{
  video_flag_keyframe, video_flag_recovery, video_flag_end_of_frame, video_header_bytes,
  max_video_payload_bytes,
}
use tsod.Wire.Video.{VideoHeader, write_video_datagram_into}

pub data VideoSendError : Type 0 where
  frame_too_large : VideoSendError

pub data VideoStreamProfile : Type 0 where
  p1080p60 p1440p60 : VideoStreamProfile

pub record VideoTransportConfig : Type 0 where
  pub max_frags_per_frame : ℕ
  pub max_in_flight_frames : ℕ
  pub target_bps : ℕ
  pub initial_burst_packets : ℕ

unfoldable pub transport_config : VideoStreamProfile → VideoTransportConfig
transport_config p1080p60 = record {
  max_frags_per_frame = 512;
  max_in_flight_frames = 3;
  target_bps = 8_000_000;
  initial_burst_packets = 2;
}
transport_config p1440p60 = record {
  max_frags_per_frame = 1024;
  max_in_flight_frames = 4;
  target_bps = 14_000_000;
  initial_burst_packets = 2;
}

pub record BufferPool : Type 0 where
  pub pool : List Bytes
  pub max_pooled : ℕ

unfoldable pub new_pool : ℕ → BufferPool
new_pool max_pooled = record { pool = replicate max_pooled []; max_pooled = max_pooled }

-- The buffer is cleared, or new.
unfoldable pub get : BufferPool → Bytes × BufferPool
get p = ([], record p { pool = drop 1 p.pool })

unfoldable pub put : BufferPool → Bytes → BufferPool
put p buf = if ltb (length p.pool) p.max_pooled then record p { pool = p.pool ++ ([] ∷ []) } else p

pub record PacingPolicy : Type 0 where
  pub target_bps : ℕ
  pub max_burst_packets : ℕ

-- `Pacer::new`, `set_policy` and `acquire`.
pub record Pacing (Pacer : Type 0) : Type 0 where
  pub start : PacingPolicy → ℕ → Pacer
  pub set_policy : Pacer → PacingPolicy → ℕ → Pacer
  pub acquire : Pacer → ℕ → Pacer

pub record VideoSender (Pacer : Type 0) : Type 0 where
  pub stream_tag : ℕ
  pub layer_id : ℕ
  pub frame_seq : ℕ
  pub pool : BufferPool
  pub max_payload : ℕ
  pub max_frame_bytes : ℕ
  pub max_frags_per_frame : ℕ
  pub pacer : Pacer
  pub pacing_enabled : Bool
  pub force_recovery_next_frame : Bool
  pub last_recovery_request_at : Option ℕ

-- `chunks(size)`; with a size of at least 1 every chunk takes an element, so that as much fuel as
-- there are elements is enough.
unfoldable pub chunks_fuel : ℕ → ℕ → Bytes → List Bytes
chunks_fuel zero size xs = []
chunks_fuel (suc fuel) size [] = []
chunks_fuel (suc fuel) size (x ∷ xs) =
    take size (x ∷ xs) ∷ chunks_fuel fuel size (drop size (x ∷ xs))

unfoldable pub chunks : ℕ → Bytes → List Bytes
unfolding chunks_fuel
chunks size xs = chunks_fuel (length xs) size xs

-- The payloads of the fragments: one empty one for an empty frame.
unfoldable pub payloads : ℕ → Bytes → List Bytes
payloads size [] = [] ∷ []
payloads size (x ∷ xs) = chunks size (x ∷ xs)

-- The flags of the frame, and of fragment `frag_idx` of `frag_total`.
abbrev pub frame_flags : Bool → Bool → ℕ
frame_flags is_keyframe recovery =
    let flags = if is_keyframe then bit_or 0 video_flag_keyframe else 0 in
    if recovery then bit_or flags video_flag_recovery else flags

abbrev pub frag_flags : ℕ → ℕ → ℕ → ℕ
frag_flags flags frag_idx frag_total =
    if (frag_idx + 1) % 2 ^ 16 == frag_total then bit_or flags video_flag_end_of_frame else flags

module _ {Pacer : Type 0} (pacing : Pacing Pacer) where
  unfoldable pub new : ℕ → ℕ → VideoStreamProfile → ℕ → VideoSender Pacer
  unfolding transport_config new_pool
  new stream_tag layer_id profile mtu_bytes =
      let config = transport_config profile in
      let max_payload = max (min (mtu_bytes - video_header_bytes) max_video_payload_bytes) 1 in
      record {
        stream_tag = stream_tag;
        layer_id = layer_id;
        frame_seq = 0;
        pool = new_pool config.max_frags_per_frame;
        max_payload = max_payload;
        max_frame_bytes = config.max_frags_per_frame * max_payload;
        max_frags_per_frame = config.max_frags_per_frame;
        pacer =
            pacing.start
              (record {
                target_bps = config.target_bps;
                max_burst_packets = config.initial_burst_packets;
              })
              mtu_bytes;
        pacing_enabled = true;
        force_recovery_next_frame = false;
        last_recovery_request_at = none;
      }

  unfoldable pub set_pacing_policy : VideoSender Pacer → ℕ → ℕ → VideoSender Pacer
  set_pacing_policy s target_bps max_burst_packets = record s {
    pacer =
        pacing.set_policy s.pacer
          (record { target_bps = target_bps; max_burst_packets = max_burst_packets })
          (s.max_payload + video_header_bytes);
  }

  -- The header of fragment `i`.
  unfoldable pub header : VideoSender Pacer → ℕ → ℕ → ℕ → ℕ → ℕ → VideoHeader
  header s frame_seq flags frag_total ts_ms i = record {
    stream_tag = s.stream_tag;
    layer_id = s.layer_id;
    flags = frag_flags flags (i % 2 ^ 16) frag_total;
    frame_seq = frame_seq;
    frag_idx = i % 2 ^ 16;
    frag_total = frag_total;
    ts_ms = ts_ms;
  }

  -- The loop over the payloads from number `i` on: the sender, and what has been emitted.
  unfoldable pub emit_fragments :
      VideoSender Pacer → (ℕ → VideoHeader) → ℕ → List Bytes → VideoSender Pacer × List Bytes
  unfolding get put
  emit_fragments s hdr i [] = (s, [])
  emit_fragments s hdr i (chunk ∷ rest) =
      let pacer =
        if s.pacing_enabled
        then pacing.acquire s.pacer (video_header_bytes + length chunk)
        else s.pacer in
      let (buf, pool) = get s.pool in
      let (datagram, shell) = write_video_datagram_into buf (hdr i) chunk in
      let (s', emitted) =
        emit_fragments (record s { pacer = pacer; pool = put pool shell }) hdr (suc i) rest in
      (s', datagram ∷ emitted)

module _ {Pacer : Type 0} where
  unfoldable pub request_recovery : VideoSender Pacer → ℕ → ℕ → Bool × VideoSender Pacer
  request_recovery s now min_interval =
      let too_early : Bool = elim s.last_recovery_request_at [
        | none ↦ false
        | some prev ↦ ltb (now - prev) min_interval
      ] in
      if too_early then (false, s) else (
        true,
        record s { last_recovery_request_at = some now; force_recovery_next_frame = true },
      )

  unfoldable pub mark_next_frame_recovery : VideoSender Pacer → VideoSender Pacer
  mark_next_frame_recovery s = record s { force_recovery_next_frame = true }

  unfoldable pub set_pacing_enabled : VideoSender Pacer → Bool → VideoSender Pacer
  set_pacing_enabled s enabled = record s { pacing_enabled = enabled }

  unfoldable pub on_frame_too_large : VideoSender Pacer → VideoSender Pacer
  unfolding mark_next_frame_recovery
  on_frame_too_large s = mark_next_frame_recovery s

-- The error, or the datagrams that were emitted.
pub data SendResult : Type 0 where
  sent : List Bytes → SendResult
  failed : VideoSendError → SendResult

module _ {Pacer : Type 0} (pacing : Pacing Pacer) where
  unfoldable pub send_frame : VideoSender Pacer → ℕ → Bool → Bytes → VideoSender Pacer × SendResult
  unfolding on_frame_too_large
  send_frame s ts_ms is_keyframe encoded_frame =
      let numbered = record s { frame_seq = (s.frame_seq + 1) % 2 ^ 32 } in
      let frag_total =
        if length encoded_frame == 0
        then 1
        else (length encoded_frame + s.max_payload - 1) / s.max_payload in
      let flags = frame_flags is_keyframe s.force_recovery_next_frame in
      let started = record numbered { force_recovery_next_frame = false } in
      let (s', emitted) =
        emit_fragments pacing started
          (header pacing s s.frame_seq flags (frag_total % 2 ^ 16) ts_ms) 0
          (payloads s.max_payload encoded_frame) in
      if ltb s.max_frame_bytes (length encoded_frame)
      then (on_frame_too_large s, failed frame_too_large)
      else if ltb s.max_frags_per_frame frag_total
      then (on_frame_too_large numbered, failed frame_too_large)
      else (s', sent emitted)

  -- The async variant differs in how the pacer waits.
  unfoldable pub send_frame_async :
      VideoSender Pacer → ℕ → Bool → Bytes → VideoSender Pacer × SendResult
  unfolding send_frame
  send_frame_async s ts_ms is_keyframe encoded_frame = send_frame s ts_ms is_keyframe encoded_frame
