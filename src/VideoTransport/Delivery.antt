-- ===== src/VideoTransport/Delivery.antt =====
-- A frame from the sender to the receiver.
use Prim.Native.Nat.{bit_and, bit_or}
use tsod.Prelude.{
  ℕ, ◌+◌, ◌-◌, ◌/◌, ◌%◌, ◌^◌, not, ◌≤◌, ◌<◌, ◌≡◌, ◌≢◌, refl, ap, ◌∙◌, Bool, true, false, List, [],
  ◌∷◌, ◌++◌, arith, if◌then◌else◌, ◌==◌, length, get_or, Bytes, All, All-map, All-before, All-after,
  contains,
}
use tsod.Wire.Video.{VideoHeader, IsWellFormed, make_video_datagram, is_keyframe, is_recovery}
use tsod.VideoTransport.Sender.{
  payloads, Pacing, VideoSender, sent, emit_fragments, header, send_frame, frame_flags,
}
use tsod.VideoTransport.Sender.Fragments.{
  flatten-payloads, length-payloads, length-emit_fragments, emit_fragments-get_or,
}
use tsod.VideoTransport.Receiver.{VideoReceiver}
use tsod.VideoTransport.Receiver.Eviction.{Lacks}
use tsod.VideoTransport.Receiver.Progress.{Frame, IsFragment, whole, chunk}
use tsod.VideoTransport.Receiver.Reassembly.{
  receive_all, numbers, arrivals, Timely, receive_all-whole,
}

-- The numbers of a sender fit their fields, and a payload holds at least a byte.
pub record IsReady {Pacer : Type 0} (s : VideoSender Pacer) : Type 0 where
  pub tag_fits : s.stream_tag < 2 ^ 64
  pub layer_fits : s.layer_id < 2 ^ 8
  pub seq_fits : s.frame_seq < 2 ^ 32
  pub payload_pos : 1 ≤ s.max_payload
  pub within_cap : s.max_frags_per_frame ≤ 1024

flags_are :
    (hdr : VideoHeader) (v : ℕ)
    → hdr.flags ≡ v
    → v < 2 ^ 8
    → (is_keyframe hdr ≡ not (bit_and v 1 == 0))
      × (is_recovery hdr ≡ not (bit_and v 2 == 0))
      × (hdr.flags < 2 ^ 8)
unfolding is_keyframe is_recovery
flags_are hdr v e h =
    (ap (λ x. not (bit_and x 1 == 0)) e, ap (λ x. not (bit_and x 2 == 0)) e, omega (arith, e, h))

-- The marks that were set are the marks that are read, whether or not the fragment is the last.
frag_flags_read :
    (hdr : VideoHeader) (k r : Bool) (last : Bool)
    → hdr.flags ≡ (if last then bit_or (frame_flags k r) 4 else frame_flags k r)
    → (is_keyframe hdr ≡ k) × (is_recovery hdr ≡ r) × (hdr.flags < 2 ^ 8)
frag_flags_read hdr true true true e = flags_are hdr 7 e (omega arith)
frag_flags_read hdr true true false e = flags_are hdr 3 e (omega arith)
frag_flags_read hdr true false true e = flags_are hdr 5 e (omega arith)
frag_flags_read hdr true false false e = flags_are hdr 1 e (omega arith)
frag_flags_read hdr false true true e = flags_are hdr 6 e (omega arith)
frag_flags_read hdr false true false e = flags_are hdr 2 e (omega arith)
frag_flags_read hdr false false true e = flags_are hdr 4 e (omega arith)
frag_flags_read hdr false false false e = flags_are hdr 0 e (omega arith)

-- The frame as it is sent.
abbrev pub frame_sent : {Pacer : Type 0} → VideoSender Pacer → ℕ → Bool → Bytes → Frame
frame_sent s ts_ms k encoded_frame = record {
  key = record { stream_tag = s.stream_tag; frame_seq = s.frame_seq; layer_id = s.layer_id };
  ts_ms = ts_ms;
  is_keyframe = k;
  is_recovery = s.force_recovery_next_frame;
  chunks = payloads s.max_payload encoded_frame;
}

-- The datagrams that come, of those that were emitted: each with its time.
abbrev pub picked : List Bytes → List (ℕ × ℕ) → List (ℕ × Bytes)
picked datagrams [] = []
picked datagrams ((now, i) ∷ rest) = (now, get_or datagrams i []) ∷ picked datagrams rest

module _ {Pacer : Type 0} (pacing : Pacing Pacer) (s s' : VideoSender Pacer) (ts_ms : ℕ) (k : Bool)
    (encoded_frame : Bytes) {datagrams : List Bytes} (ready : IsReady s) (ts_fits : ts_ms < 2 ^ 32)
    (success : send_frame pacing s ts_ms k encoded_frame ≡ (s', sent datagrams)) where
  frag_total : ℕ
  frag_total =
      if length encoded_frame == 0
      then 1
      else (length encoded_frame + s.max_payload - 1) / s.max_payload

  hdr : ℕ → VideoHeader
  unfolding frag_total
  hdr =
      header pacing s s.frame_seq (frame_flags k s.force_recovery_next_frame) (frag_total % 2 ^ 16)
        ts_ms

  f : Frame
  f = frame_sent s ts_ms k encoded_frame

  total : length (payloads s.max_payload encoded_frame) ≡ frag_total
  unfolding frag_total
  total = length-payloads s.max_payload encoded_frame ready.payload_pos

  within : frag_total ≤ s.max_frags_per_frame
  unfolding frag_total send_frame
  within = ground (arith, success)

  started : VideoSender Pacer
  started = record s { frame_seq = (s.frame_seq + 1) % 2 ^ 32; force_recovery_next_frame = false }

  emitted :
      datagrams ≡ (emit_fragments pacing started hdr 0 (payloads s.max_payload encoded_frame)).1
  unfolding send_frame started hdr
  emitted = ground (arith, success)

  small : length (payloads s.max_payload encoded_frame) ≤ 1024
  small = omega (arith, total, within, ready.within_cap)

  hdr-IsFragment :
      (i : ℕ) → i < length (payloads s.max_payload encoded_frame) → IsFragment f i (hdr i)
  unfolding hdr header f
  hdr-IsFragment i h =
      let fit : i % 2 ^ 16 ≡ i = omega (arith, h, small) in
      let read =
        frag_flags_read (hdr i) k s.force_recovery_next_frame
          ((i % 2 ^ 16 + 1) % 2 ^ 16 == frag_total % 2 ^ 16) (ground arith) in
      record {
        key = refl;
        idx = fit;
        total = omega (arith, total, within, ready.within_cap);
        ts_ms = refl;
        keyframe = read.0;
        recovery = read.1;
      }

  hdr-IsWellFormed :
      (i : ℕ) → i < length (payloads s.max_payload encoded_frame) → IsWellFormed (hdr i)
  unfolding hdr header
  hdr-IsWellFormed i h =
      let read =
        frag_flags_read (hdr i) k s.force_recovery_next_frame
          ((i % 2 ^ 16 + 1) % 2 ^ 16 == frag_total % 2 ^ 16) (ground arith) in
      record {
        tag_fits = ready.tag_fits;
        layer_fits = ready.layer_fits;
        flags_fit = read.2;
        seq_fits = ready.seq_fits;
        ts_fits = ts_fits;
        has_fragments = omega (arith, total, within, ready.within_cap, h);
        within_cap = omega (arith, total, within, ready.within_cap);
        in_frame = omega (arith, total, within, ready.within_cap, h);
      }

  -- The arrivals are those of the frame.
  picked-arrivals :
      (order : List (ℕ × ℕ))
      → All (λ p. p.1 < length (payloads s.max_payload encoded_frame)) order
      → picked datagrams order ≡ arrivals hdr f order
  unfolding f
  picked-arrivals [] h = refl
  picked-arrivals ((now, i) ∷ rest) h =
      ap (λ d. (now, d) ∷ picked datagrams rest)
        (ap (λ ds. get_or ds i []) emitted
          ∙ emit_fragments-get_or pacing hdr (payloads s.max_payload encoded_frame) 0 i started h.0
          ∙ ap (λ j. make_video_datagram (hdr j) (chunk f i)) start)
      ∙ ap (λ ds. (now, make_video_datagram (hdr i) (chunk f i)) ∷ ds) (picked-arrivals rest h.1)
    where
      start : 0 + i ≡ i
      start = omega arith

  -- A frame that is sent arrives. The receiver holds nothing of it, takes that many fragments and gives
  -- a frame the time `allowed`; from the time `first` on, within that time, datagrams of the frame
  -- come in any order and any number of times, until with the last one, which had not come before,
  -- all have come. Then the receiver has returned exactly one frame, with the bytes that were
  -- encoded, the stream, the number, the time and the marks.
  pub receive_all-send_frame :
      (r : VideoReceiver) (first allowed : ℕ) (early : List (ℕ × ℕ)) (now i : ℕ)
      → r.incomplete_frame_timeout ≡ allowed
      → s.max_frags_per_frame ≤ r.max_frags_per_frame
      → Lacks (frame_sent s ts_ms k encoded_frame).key r.slots
      → All
          (λ p. (first ≤ p.0) × (p.0 < first + allowed) × (p.1 < length datagrams))
          (early ++ ((now, i) ∷ []))
      → contains (numbers early) i ≡ false
      → ((j : ℕ) → j < length datagrams → j ≢ i → contains (numbers early) j ≡ true)
      → (receive_all r (picked datagrams (early ++ ((now, i) ∷ [])))).1
        ≡ record {
          stream_tag = s.stream_tag;
          layer_id = s.layer_id;
          frame_seq = s.frame_seq;
          ts_ms = ts_ms;
          is_keyframe = k;
          is_recovery = s.force_recovery_next_frame;
          payload = encoded_frame;
          fragments = payloads s.max_payload encoded_frame;
        }
          ∷ []
  unfolding f
  receive_all-send_frame r first allowed early now i allows fits lacks timely last all =
      ap (λ arrived. (receive_all r arrived).1)
        (picked-arrivals (early ++ ((now, i) ∷ []))
          (All-map (λ p t. omega (arith, t, count)) (early ++ ((now, i) ∷ [])) timely))
      ∙ receive_all-whole f hdr first allowed r early now i
          (record {
            allows = allows;
            cap = small;
            fits = omega (arith, total, within, fits);
            well_formed = hdr-IsWellFormed;
            fragment = hdr-IsFragment;
          })
          lacks (All-map on_time early (All-before _ early ((now, i) ∷ []) timely))
          (on_time (now, i) (All-after _ early ((now, i) ∷ []) timely).0) last
          (λ j h other. all j (omega (arith, h, count)) other)
      ∙ ap (λ p. record (whole f) { payload = p } ∷ [])
          (flatten-payloads s.max_payload encoded_frame ready.payload_pos)
    where
      count : length datagrams ≡ length (payloads s.max_payload encoded_frame)
      count =
          ap length emitted
          ∙ length-emit_fragments pacing hdr (payloads s.max_payload encoded_frame) 0 started

      on_time :
          (p : ℕ × ℕ)
          → (first ≤ p.0) × (p.0 < first + allowed) × (p.1 < length datagrams)
          → Timely f hdr first allowed p
      on_time p t = (t.0, t.1, omega (arith, t.2, count))
