-- ===== src/VideoTransport/Sender/Success.antt =====
-- When a frame is sent.
use native.Mathlib.Nat.{div-lt_iff_lt-mul}
use tsod.Prelude.{
  ℕ, suc, ◌+◌, ◌-◌, ◌*◌, ◌/◌, ◌%◌, ◌^◌, ◌≤◌, ◌<◌, ◌≡◌, ◌⊎◌, refl, Bool, true, false, List, [], ◌∷◌,
  arith, if◌then◌else◌, ltb, ◌==◌, length, Bytes, All, Bool-cases, inl, inr,
}
use tsod.Wire.Video.{VideoHeader, write_video_datagram_into}
use tsod.VideoTransport.Sender.{
  payloads, Pacing, VideoSender, sent, failed, frame_too_large, emit_fragments, send_frame, header,
  frame_flags,
}
use tsod.VideoTransport.Sender.Fragments.{payloads-le, length-emit_fragments}

-- A frame within the bytes of all fragments needs no more fragments than allowed.
div_ceil-le : (n size most : ℕ) → 1 ≤ size → n ≤ most * size → (n + size - 1) / size ≤ most
div_ceil-le n size most h k =
    let below : n + size - 1 < suc most * size = grind arith in
    let few = (div-lt_iff_lt-mul {k = size} {x = n + size - 1} {y = suc most} h).1 below in
    omega (arith, few)

module _ {Pacer : Type 0} (pacing : Pacing Pacer) (hdr : ℕ → VideoHeader) (size : ℕ) where
  emit_fragments-le :
      (cs : List Bytes) (k : ℕ) (s : VideoSender Pacer)
      → All (λ c. length c ≤ size) cs
      → All (λ d. length d ≤ size + 24) (emit_fragments pacing s hdr k cs).1
  unfolding emit_fragments write_video_datagram_into
  emit_fragments-le [] k s h = tt
  emit_fragments-le (c ∷ cs) k s h = (omega (arith, h.0), emit_fragments-le cs (suc k) _ h.1)

-- A sender of at least one byte a fragment and one fragment a frame, whose maximal frame is its fragments'
-- payloads together, either sends the frame, which is then
-- no larger than that, in as many datagrams as there are payloads, none larger than a header and the
-- maximal payload; or it refuses the frame, which is then larger, with the sender unchanged but for the mark that the next frame is one of
-- recovery.
pub send_frame_outcome :
    {Pacer : Type 0} (pacing : Pacing Pacer) (s : VideoSender Pacer) (ts_ms : ℕ) (k : Bool)
    (frame : Bytes)
    → 1 ≤ s.max_payload
    → 1 ≤ s.max_frags_per_frame
    → s.max_frame_bytes ≡ s.max_frags_per_frame * s.max_payload
    → ((datagrams : List Bytes) × ((send_frame pacing s ts_ms k frame).1 ≡ sent datagrams)
        × (length frame ≤ s.max_frame_bytes)
        × (length datagrams ≡ length (payloads s.max_payload frame))
        × All (λ d. length d ≤ s.max_payload + 24) datagrams)
      ⊎ (((send_frame pacing s ts_ms k frame).1 ≡ failed frame_too_large)
          × (s.max_frame_bytes < length frame)
          × ((send_frame pacing s ts_ms k frame).0 ≡ record s { force_recovery_next_frame = true }))
unfolding send_frame
send_frame_outcome {Pacer} pacing s ts_ms k frame pos some_frags bytes =
    elim (Bool-cases (ltb s.max_frame_bytes (length frame))) [
      | inl large ↦ inr (rw large refl, ground arith, rw large refl)
      | inr small ↦
          let bound : length frame ≤ s.max_frags_per_frame * s.max_payload =
            omega (arith, not_larger small, bytes) in
          let fits = div_ceil-le (length frame) s.max_payload s.max_frags_per_frame pos bound in
          let few : ltb s.max_frags_per_frame (
                if length frame == 0 then 1 else (length frame + s.max_payload - 1) / s.max_payload)
              ≡ false =
            ground (arith, fits, some_frags) in
          inl (
            (emit_fragments pacing started hdr 0 (payloads s.max_payload frame)).1,
            rw (small, few) refl,
            not_larger small,
            length-emit_fragments pacing hdr (payloads s.max_payload frame) 0 started,
            emit_fragments-le pacing hdr s.max_payload (payloads s.max_payload frame) 0 started
                (payloads-le s.max_payload frame),
          )
    ]
  where
    not_larger : ltb s.max_frame_bytes (length frame) ≡ false → length frame ≤ s.max_frame_bytes
    not_larger e = ground (arith, e)

    hdr : ℕ → VideoHeader
    hdr =
        header pacing s s.frame_seq (frame_flags k s.force_recovery_next_frame)
          ((if length frame == 0 then 1 else (length frame + s.max_payload - 1) / s.max_payload)
            % 2 ^ 16)
          ts_ms

    started : VideoSender Pacer
    started = record s { frame_seq = (s.frame_seq + 1) % 2 ^ 32; force_recovery_next_frame = false }
