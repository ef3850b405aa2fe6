-- ===== src/VideoTransport/Receiver/Reassembly.antt =====
-- The fragments of one frame, delivered to a receiver in any order.
use tsod.Prelude.{
  ℕ, ◌+◌, ◌≤◌, ◌<◌, ◌≡◌, ◌≢◌, refl, sym, ap, ◌∙◌, true, false, ◌||◌, none, some, List, [], ◌∷◌,
  ◌++◌, arith, ltb, ◌==◌, length, drop, contains, Bytes, All, Bool-cases, inl, inr,
}
use tsod.Wire.Video.{VideoHeader, IsWellFormed, make_video_datagram}
use tsod.Wire.Video.RoundTrip.{parse-make_video_datagram, video_payload-eq-drop}
use tsod.VideoTransport.Receiver.{
  VideoReceiver, ReassembledFrame, receive, accept, evict_timed_out_incomplete_frames,
}
use tsod.VideoTransport.Receiver.Eviction.{Lacks, SameSettings, SameSettings-trans}
use tsod.VideoTransport.Receiver.Progress.{Frame, whole, chunk, IsFragment}
use tsod.VideoTransport.Receiver.Tracking.{
  Tracks, absent, evict-Tracks, accept_missing, accept_last,
}

-- Datagrams, each with the time at which it comes, and the frames that the receiver returns.
unfoldable pub receive_all :
    VideoReceiver → List (ℕ × Bytes) → VideoReceiver × List ReassembledFrame
receive_all r [] = (r, [])
receive_all r ((now, datagram) ∷ rest) =
    let (r1, frame) = receive r now datagram in
    let (r2, frames) = receive_all r1 rest in
    (r2, elim frame [ none ↦ frames | some x ↦ x ∷ frames ])

receive_all_skip :
    (r r' : VideoReceiver) (now : ℕ) (d : Bytes) (rest : List (ℕ × Bytes))
    → receive r now d ≡ (r', none)
    → (receive_all r ((now, d) ∷ rest)).1 ≡ (receive_all r' rest).1
unfolding receive_all
receive_all_skip r r' now d rest e = rw (e, receive_all) (ap (λ p. (receive_all p.0 rest).1) e)

receive_all_one :
    (r : VideoReceiver) (now : ℕ) (d : Bytes) {x : ReassembledFrame}
    → (receive r now d).1 ≡ some x
    → (receive_all r ((now, d) ∷ [])).1 ≡ x ∷ []
unfolding receive_all
receive_all_one r now d e = rw (e, receive_all) refl

-- The numbers of the fragments that come.
abbrev pub numbers : List (ℕ × ℕ) → List ℕ
numbers [] = []
numbers ((now, i) ∷ rest) = i ∷ numbers rest

-- Fragment `i` of the frame at each time.
abbrev pub arrivals : (ℕ → VideoHeader) → Frame → List (ℕ × ℕ) → List (ℕ × Bytes)
arrivals header f [] = []
arrivals header f ((now, i) ∷ rest) =
    (now, make_video_datagram (header i) (chunk f i)) ∷ arrivals header f rest

-- The fragments' headers are well formed and those of the frame, and the frame fits the receiver, which
-- gives each frame the time `allowed`.
pub record IsSent (f : Frame) (header : ℕ → VideoHeader) (allowed : ℕ) (r : VideoReceiver)
    : Type 0 where
  pub allows : r.incomplete_frame_timeout ≡ allowed
  pub cap : length f.chunks ≤ 1024
  pub fits : length f.chunks ≤ r.max_frags_per_frame
  pub well_formed : (i : ℕ) → i < length f.chunks → IsWellFormed (header i)
  pub fragment : (i : ℕ) → i < length f.chunks → IsFragment f i (header i)

IsSent-SameSettings :
    (f : Frame) (header : ℕ → VideoHeader) (allowed : ℕ) (r r' : VideoReceiver)
    → IsSent f header allowed r
    → SameSettings r r'
    → IsSent f header allowed r'
IsSent-SameSettings f header allowed r r' s same = record {
  allows = same.timeout ∙ s.allows;
  cap = s.cap;
  fits = omega (arith, s.fits, same.max_frags);
  well_formed = s.well_formed;
  fragment = s.fragment;
}

module _ (f : Frame) (header : ℕ → VideoHeader) (first allowed : ℕ) where
  -- Within the time that the receiver allows for the frame.
  abbrev pub Timely : ℕ × ℕ → Type 0
  Timely (now, i) = (first ≤ now) × (now < first + allowed) × (i < length f.chunks)

  receive-accept :
      (r : VideoReceiver) (now i : ℕ)
      → IsSent f header allowed r
      → i < length f.chunks
      → SameSettings r (evict_timed_out_incomplete_frames r now)
      → receive r now (make_video_datagram (header i) (chunk f i))
        ≡ accept (evict_timed_out_incomplete_frames r now) now (header i) (chunk f i)
  unfolding receive
  receive-accept r now i s inside same =
      let d = make_video_datagram (header i) (chunk f i) in
      let read = parse-make_video_datagram (header i) (chunk f i) (s.well_formed i inside) in
      let payload : drop 24 d ≡ chunk f i = sym (video_payload-eq-drop d) ∙ read.1 in
      let total = (s.fragment i inside).total in
      let small : ltb (evict_timed_out_incomplete_frames r now).max_frags_per_frame
            (header i).frag_total
          ≡ false =
        ground (arith, same.max_frags, s.fits, total) in
      rw (read.0, payload, receive) (rw small refl)

  receive_missing :
      (r : VideoReceiver) (now i : ℕ) (seen : List ℕ) (j : ℕ)
      → IsSent f header allowed r
      → Tracks f first r seen
      → Timely (now, i)
      → j < length f.chunks
      → contains (i ∷ seen) j ≡ false
      → (r' : VideoReceiver) × Tracks f first r' (i ∷ seen)
        × SameSettings r r'
        × (receive r now (make_video_datagram (header i) (chunk f i)) ≡ (r', none))
  receive_missing r now i seen j s t timely lt missing =
      let (t', same) =
        evict-Tracks f first now r seen t timely.0 (omega (arith, timely.1, s.allows)) in
      let (r', t'', same', e) =
        accept_missing f first i (header i) (s.fragment i timely.2) s.cap timely.2
          (evict_timed_out_incomplete_frames r now) now seen j t' timely.0 lt missing in
      (r', t'', SameSettings-trans same same', receive-accept r now i s timely.2 same ∙ e)

  receive_last :
      (r : VideoReceiver) (now i : ℕ) (seen : List ℕ)
      → IsSent f header allowed r
      → Tracks f first r seen
      → Timely (now, i)
      → contains seen i ≡ false
      → ((j : ℕ) → j < length f.chunks → contains (i ∷ seen) j ≡ true)
      → (receive r now (make_video_datagram (header i) (chunk f i))).1 ≡ some (whole f)
  receive_last r now i seen s t timely fresh all =
      let (t', same) =
        evict-Tracks f first now r seen t timely.0 (omega (arith, timely.1, s.allows)) in
      ap (λ p. p.1) (receive-accept r now i s timely.2 same)
      ∙ accept_last f first i (header i) (s.fragment i timely.2) s.cap timely.2
          (evict_timed_out_incomplete_frames r now) now seen t' fresh all

  -- From where some fragments have been seen, the rest of an arrival.
  receive_all-Tracks :
      (r : VideoReceiver) (early : List (ℕ × ℕ)) (now i : ℕ) (seen : List ℕ)
      → IsSent f header allowed r
      → Tracks f first r seen
      → All Timely early
      → Timely (now, i)
      → contains seen i ≡ false
      → contains (numbers early) i ≡ false
      → ((j : ℕ)
          → j < length f.chunks
          → j ≢ i
          → (contains seen j || contains (numbers early) j) ≡ true)
      → (receive_all r (arrivals header f (early ++ ((now, i) ∷ [])))).1 ≡ whole f ∷ []
  unfolding receive_all
  receive_all-Tracks r [] now i seen s t timely last fresh unseen all =
      receive_all_one r now (make_video_datagram (header i) (chunk f i))
        (receive_last r now i seen s t last fresh everywhere)
    where
      everywhere : (j : ℕ) → j < length f.chunks → contains (i ∷ seen) j ≡ true
      everywhere j h = elim (Bool-cases (j == i)) [
        | inl same ↦ rw same refl
        | inr other ↦ rw other (ground (arith, all j h (ground (arith, other))))
      ]
  receive_all-Tracks r ((at, k) ∷ early) now i seen s t timely last fresh unseen all =
      let missing : contains (k ∷ seen) i ≡ false = ground (arith, fresh, unseen) in
      let (r', t', same, e) = receive_missing r at k seen i s t timely.0 last.2 missing in
      receive_all_skip r r' at (make_video_datagram (header k) (chunk f k))
        (arrivals header f (early ++ ((now, i) ∷ []))) e
      ∙ receive_all-Tracks r' early now i (k ∷ seen)
          (IsSent-SameSettings f header allowed r r' s same) t' timely.1 last missing
          (ground (arith, unseen)) (λ j h other. ground (arith, all j h other))

  -- A frame is put together in whatever order its fragments come, and however often. From a
  -- receiver that holds nothing of the frame, fragments that come within the time allowed for a
  -- frame, of which the last is the first to complete the set, yield exactly the frame: its chunks in
  -- their order, with the time and the marks that its headers carry, and no frame before.
  pub receive_all-whole :
      (r : VideoReceiver) (early : List (ℕ × ℕ)) (now i : ℕ)
      → IsSent f header allowed r
      → Lacks f.key r.slots
      → All Timely early
      → Timely (now, i)
      → contains (numbers early) i ≡ false
      → ((j : ℕ) → j < length f.chunks → j ≢ i → contains (numbers early) j ≡ true)
      → (receive_all r (arrivals header f (early ++ ((now, i) ∷ [])))).1 ≡ whole f ∷ []
  receive_all-whole r early now i s lacks timely last unseen all =
      receive_all-Tracks r early now i [] s (absent refl lacks) timely last refl unseen all
