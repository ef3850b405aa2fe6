-- ===== src/ViewerQueue/Drops.antt =====
-- When `push` drops the incoming fragment, and what it reports.
use tsod.Prelude.{
  ℕ, ◌+◌, ◌≤◌, ◌≡◌, ◌↔◌, refl, sym, ap, ◌∙◌, inl, inr, true, false, none, some, List, [], ◌∷◌,
  arith, if◌then◌else◌, ◌==◌, leb, ltb, length, length-retain-le, retain, retain_ext, All,
  All-intro, Bytes,
}
use tsod.Wire.Video.{VideoHeader}
use tsod.ViewerQueue.{
  FrameInfo, QueuedFragment, ViewerQueue, track, queue_full, evicted_oldest_frame, other, make_room,
  push,
}
use tsod.ViewerQueue.Frames.{tracks}
use tsod.ViewerQueue.Invariant.{IsConsistent, Settled}
use tsod.ViewerQueue.Push.{of_frame, Pushed, push-Pushed, kept_of_frame}

-- Where only the current frame is listed, a frame is tracked exactly if it is the current one.
tracks_only :
    (cur t : ℕ) (frames : List FrameInfo)
    → All (λ (g : FrameInfo). other cur g ≡ false) frames
    → tracks cur frames ≡ true
    → tracks t frames ≡ (t == cur)
tracks_only cur t [] h e = cc
tracks_only cur t (fi ∷ rest) h e = ground (arith, h.0, tracks_others cur t rest h.1)
  where
    tracks_others :
        (cur t : ℕ) (frames : List FrameInfo)
        → All (λ (g : FrameInfo). other cur g ≡ false) frames
        → (t == cur) ≡ false
        → tracks t frames ≡ false
    tracks_others cur t [] h e = refl
    tracks_others cur t (fi ∷ rest) h e = ground (arith, h.0, tracks_others cur t rest h.1 e)

-- Tracking adds an entry for a frame that has none.
length-track :
    (hdr : VideoHeader) (frames : List FrameInfo)
    → length (track hdr frames) ≡ length frames + (if tracks hdr.frame_seq frames then 0 else 1)
unfolding track
length-track hdr [] = refl
length-track hdr (fi ∷ rest) = ground (arith, length-track hdr rest)

module _ (q : ViewerQueue) (datagram : Bytes) (hdr : VideoHeader) (v : IsConsistent q) where
  p : Pushed q datagram hdr (push q datagram hdr).0 (push q datagram hdr).1
  p = push-Pushed q datagram hdr v

  -- A full queue after the loop holds the current frame alone.
  own_frame_only :
      leb q.capacity (length (make_room q hdr).0.fragments) ≡ true
      → Settled hdr.frame_seq (make_room q hdr).0
      → (make_room q hdr).0.fragments ≡ of_frame hdr.frame_seq q
  own_frame_only full (inl e) = absurd (ground (arith, p.room_capacity))
  own_frame_only full (inr h) =
      p.room
      ∙ retain_ext _ _ q.fragments (
          All-intro _
            (λ (f : QueuedFragment).
              tracks_only hdr.frame_seq f.frame_seq (push q datagram hdr).0.frames
                (rw p.same_frames h) p.current)
            q.fragments)

  -- The fragments of the new fragment's frame all survive the loop.
  own_frame_kept : length (of_frame hdr.frame_seq q) ≤ length (make_room q hdr).0.fragments
  own_frame_kept = omega (
    arith,
    ap length p.room,
    ap length (kept_of_frame hdr.frame_seq (push q datagram hdr).0.frames q.fragments p.current),
    length-retain-le (λ f. f.frame_seq == hdr.frame_seq)
        (retain (λ f. tracks f.frame_seq (push q datagram hdr).0.frames) q.fragments),
  )

  -- On a consistent queue `push` drops the incoming fragment exactly where the fragments of its own frame already fill
  -- the queue, and reports a full queue then. It counts as evicted exactly the frames that it stops
  -- tracking: those from before, and the new fragment's if that was not yet tracked, are those still
  -- tracked and those counted. Where it keeps the fragment it reports an eviction if the count is not
  -- zero, and nothing otherwise.
  pub push_drops :
      let (q', o) = push q datagram hdr in
      ((o.dropped_incoming_fragment ≡ true) ↔ (q.capacity ≤ length (of_frame hdr.frame_seq q)))
      × (length q'.frames + o.evicted_frames
          ≡ length q.frames + (if tracks hdr.frame_seq q.frames then 0 else 1))
      × (o.drop_reason ≡ (
          if o.dropped_incoming_fragment
          then some queue_full
          else if ltb 0 o.evicted_frames
          then some evicted_oldest_frame
          else none))
  push_drops = ((to, from), omega (arith, p.count, length-track hdr q.frames), p.reason)
    where
      to :
          (push q datagram hdr).1.dropped_incoming_fragment ≡ true
          → q.capacity ≤ length (of_frame hdr.frame_seq q)
      to e =
          let full = sym p.dropped ∙ e in
          ground (arith, ap length (own_frame_only full p.settled), full)

      from :
          q.capacity ≤ length (of_frame hdr.frame_seq q)
          → (push q datagram hdr).1.dropped_incoming_fragment ≡ true
      from h = ground (arith, p.dropped, own_frame_kept)
