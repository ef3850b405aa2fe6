-- ===== src/ViewerQueue/Invariant.antt =====
-- The eviction loop ends with room or with nothing left to evict, and every operation of the queue
-- keeps its bounds.
use tsod.Prelude.{
  ℕ, zero, suc, ◌+◌, ◌≤◌, ◌<◌, ◌≡◌, refl, ◌∙◌, ◌⊎◌, inl, inr, true, false, some, List, [], ◌∷◌,
  arith, max, leb, length, length-snoc, length-retain-le, All, All-append, All-map, Bool-cases,
  Option-cases, Bytes,
}
use tsod.Wire.Video.{VideoHeader}
use tsod.ViewerQueue.{
  FrameInfo, QueuedFragment, ViewerQueue, new, update_frame_tracking, other, evict_one_frame,
  over_limit, evict_loop, make_room, queued, enqueue, push, drain,
}
use tsod.ViewerQueue.Frames.{tracks, Distinct, tracks-track, track-Distinct}
use tsod.ViewerQueue.Eviction.{
  IsTracked, Shrinks, Shrinks-refl, Shrinks-trans, Shrinks-IsTracked, Evicts,
  evict_one_frame-Evicts,
}

-- The loop stopped by its own test, or because only the current frame is left.
abbrev pub Settled : ℕ → ViewerQueue → Type 0
Settled cur q = (over_limit q ≡ false) ⊎ All (λ (g : FrameInfo). other cur g ≡ false) q.frames

-- What the loop has done to `q`, counting from `n`.
pub record Looped (cur : ℕ) (q : ViewerQueue) (n : ℕ) (out : ViewerQueue × ℕ) : Type 0 where
  pub shrinks : Shrinks cur q out.0
  pub settled : Settled cur out.0
  pub count : length q.frames + n ≡ length out.0.frames + out.1

-- With more fuel than tracked frames the loop ends by itself.
pub evict_loop-Looped :
    (fuel : ℕ) (q : ViewerQueue) (cur n : ℕ)
    → length q.frames < fuel
    → IsTracked q
    → Looped cur q n (evict_loop fuel q cur n)
unfolding evict_loop
evict_loop-Looped zero q cur n h t = absurd (omega arith)
evict_loop-Looped (suc fuel) q cur n h t = elim (Bool-cases (over_limit q)) [
  | inr e ↦
      rw (e, evict_loop) (record { shrinks = Shrinks-refl cur t; settled = inl e; count = refl })
  | inl e ↦
      rw (e, evict_loop)
        (elim (Option-cases (evict_one_frame q cur)) [
          | inl f ↦ rw f (record {
            shrinks = Shrinks-refl cur t;
            settled = inr (rw (f, Evicts) at (evict_one_frame-Evicts cur q t));
            count = refl;
          })
          | inr (q', f) ↦
              let one : Evicts cur q (some q') = rw f at (evict_one_frame-Evicts cur q t) in
              let later =
                evict_loop-Looped fuel q' cur (n + 1) (omega (arith, one.1))
                  (Shrinks-IsTracked one.0) in
              rw f (record {
                shrinks = Shrinks-trans one.0 later.shrinks;
                settled = later.settled;
                count = omega (arith, later.count, one.1);
              })
        ])
]

-- The bounds of the queue: never more fragments than the capacity, never more frames than
-- `max_frames` (one frame is always let in), no frame twice, and no fragment without its frame.
pub record IsConsistent (q : ViewerQueue) : Type 0 where
  pub bounded : length q.fragments ≤ q.capacity
  pub few : length q.frames ≤ max 1 q.max_frames
  pub tracked : IsTracked q

pub new-IsConsistent : (capacity max_frames : ℕ) → IsConsistent (new capacity max_frames)
unfolding new
new-IsConsistent capacity max_frames = record {
  bounded = omega arith;
  few = omega arith;
  tracked = record { distinct = tt; tracked = tt };
}

update_frame_tracking-IsTracked :
    (q : ViewerQueue) (hdr : VideoHeader) → IsTracked q → IsTracked (update_frame_tracking q hdr)
unfolding update_frame_tracking
update_frame_tracking-IsTracked q hdr t = record {
  distinct = track-Distinct hdr q.frames t.distinct;
  tracked =
      All-map (λ (f : QueuedFragment) h. ground (arith, tracks-track hdr f.frame_seq q.frames, h))
        q.fragments t.tracked;
}

-- `push` makes room as the loop does, from the queue that tracks the new fragment's frame.
pub make_room-Looped :
    (q : ViewerQueue) (hdr : VideoHeader)
    → IsTracked q
    → Looped hdr.frame_seq (update_frame_tracking q hdr) 0 (make_room q hdr)
unfolding make_room
make_room-Looped q hdr t =
    evict_loop-Looped _ (update_frame_tracking q hdr) hdr.frame_seq 0 (omega arith)
      (update_frame_tracking-IsTracked q hdr t)

-- Where only the current frame is left and none is listed twice, at most one frame is listed.
lone_frame_le :
    (cur : ℕ) (frames : List FrameInfo)
    → All (λ (g : FrameInfo). other cur g ≡ false) frames
    → Distinct frames
    → length frames ≤ 1
lone_frame_le cur [] h d = omega arith
lone_frame_le cur (fi ∷ []) h d = omega arith
lone_frame_le cur (fi ∷ gi ∷ rest) h d = absurd (ground (arith, h.0, h.1.0, d.0))

Settled-few :
    (cur : ℕ) (q : ViewerQueue)
    → Distinct q.frames
    → Settled cur q
    → length q.frames ≤ max 1 q.max_frames
Settled-few cur q d (inl e) = ground arith
Settled-few cur q d (inr h) = omega (arith, lone_frame_le cur q.frames h d)

enqueue-IsConsistent :
    (datagram : Bytes) (hdr : VideoHeader) (q : ViewerQueue) (n : ℕ)
    → length q.fragments ≤ q.capacity
    → length q.frames ≤ max 1 q.max_frames
    → tracks hdr.frame_seq q.frames ≡ true
    → IsTracked q
    → IsConsistent (enqueue datagram hdr (q, n)).0
unfolding enqueue
enqueue-IsConsistent datagram hdr q n bounded few current t =
    elim (Bool-cases (leb q.capacity (length q.fragments))) [
      | inl e ↦ rw (e, enqueue) (record { bounded = bounded; few = few; tracked = t })
      | inr e ↦
          rw (e, enqueue)
            (record {
              bounded = ground (arith, length-snoc q.fragments (queued datagram hdr));
              few = few;
              tracked = record {
                distinct = t.distinct;
                tracked = All-append _ q.fragments _ t.tracked (current, tt);
              };
            })
    ]

-- After the loop the current frame is tracked, and the queue is within its bounds.
pub record Roomy (q : ViewerQueue) (hdr : VideoHeader) (r : ViewerQueue) : Type 0 where
  pub bounded : length r.fragments ≤ r.capacity
  pub few : length r.frames ≤ max 1 r.max_frames
  pub current : tracks hdr.frame_seq r.frames ≡ true

pub make_room-Roomy :
    (q : ViewerQueue) (hdr : VideoHeader) → IsConsistent q → Roomy q hdr (make_room q hdr).0
unfolding update_frame_tracking
make_room-Roomy q hdr v = record {
  bounded =
      rw (l.shrinks.fragments, l.shrinks.same_capacity)
        (omega (arith, v.bounded, length-retain-le (λ f. tracks f.frame_seq r.frames) q.fragments));
  few = Settled-few hdr.frame_seq r l.shrinks.distinct l.settled;
  current = l.shrinks.current ∙ tracked_now;
}
  where
    r : ViewerQueue
    r = (make_room q hdr).0

    tracked_now : tracks hdr.frame_seq (update_frame_tracking q hdr).frames ≡ true
    tracked_now = ground (arith, tracks-track hdr hdr.frame_seq q.frames)

    l : Looped hdr.frame_seq (update_frame_tracking q hdr) 0 (make_room q hdr)
    l = make_room-Looped q hdr v.tracked

-- `push` keeps the queue within its bounds, whatever fragment arrives.
pub push-IsConsistent :
    (q : ViewerQueue) (datagram : Bytes) (hdr : VideoHeader)
    → IsConsistent q
    → IsConsistent (push q datagram hdr).0
unfolding push
push-IsConsistent q datagram hdr v =
    let room = make_room-Roomy q hdr v in
    enqueue-IsConsistent datagram hdr (make_room q hdr).0 (make_room q hdr).1 room.bounded room.few
      room.current (Shrinks-IsTracked (make_room-Looped q hdr v.tracked).shrinks)

-- `drain` hands out every queued datagram, oldest first, and leaves a valid empty queue.
pub drain-IsConsistent : (q : ViewerQueue) → IsConsistent (drain q).1
unfolding drain
drain-IsConsistent q = record {
  bounded = omega arith;
  few = omega arith;
  tracked = record { distinct = tt; tracked = tt };
}
