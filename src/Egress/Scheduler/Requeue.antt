-- ===== src/Egress/Scheduler/Requeue.antt =====
-- What becomes of a video fragment that the loop takes and, short of tokens, puts back.
use tsod.Prelude.{
  ◌≡◌, refl, sym, ap, subst, true, false, Option, some, List, [], ◌∷◌, ◌++◌, arith, Bytes,
}
use tsod.Prelude.Maps.{lookup, pair_key, pair_same, pair_same_iff, lookup-insert, lookup-remove}
use tsod.Egress.FrameQueue.{
  FrameKey, FrameBucket, VideoFrameQueue, video, EgressItem, push, fragments_of, pop_live,
  without_first, pop_front,
}
use tsod.Egress.FrameQueue.Consistent.{IsConsistent, push-IsConsistent}
use tsod.Egress.FrameQueue.Popping.{Popped, without_first-IsConsistent, without_first-counted}
use tsod.Egress.Scheduler.{EgressScheduler, requeue_front}

-- The item that is popped.
abbrev pub item_of : (q : VideoFrameQueue) → Popped q → EgressItem
item_of q p = record {
  kind = video;
  stream_tag = some (p.key.0);
  frame_seq = some (p.key.1);
  deadline = some (p.frame.deadline);
  bytes = p.bytes;
  is_keyframe = p.frame.is_keyframe;
}

-- Where the frame stands afterwards: at the end, if the fragment was its last one.
abbrev pub order_after : List Bytes → FrameKey → List FrameKey → List FrameKey
order_after [] key later = later ++ (key ∷ [])
order_after (b ∷ rest) key later = key ∷ later

pub record Requeued (q : VideoFrameQueue) (p : Popped q) (q' : VideoFrameQueue) : Type 0 where
  pub consistent : IsConsistent q'
  pub same_total : q'.total_frags ≡ q.total_frags
  pub to_the_end : fragments_of (lookup p.key q'.frames) ≡ p.rest ++ (p.bytes ∷ [])
  pub same_others :
      (k : FrameKey) → pair_same p.key k ≡ false → lookup k q'.frames ≡ lookup k q.frames
  pub order : q'.order ≡ order_after p.rest p.key p.later

module _ (q : VideoFrameQueue) (v : IsConsistent q) (p : Popped q) where
  same_key : pair_same p.key p.key ≡ true
  same_key = (pair_same_iff p.key p.key).1 refl

  abbrev taken : VideoFrameQueue
  taken = without_first q p.key p.frame p.rest

  abbrev pushed : VideoFrameQueue
  pushed = push taken p.key p.frame.is_keyframe p.frame.deadline p.bytes

  taken-fragments : fragments_of (lookup p.key taken.frames) ≡ p.rest
  unfolding without_first
  taken-fragments = left p.rest
    where
      left :
          (rest : List Bytes)
          → fragments_of (lookup p.key (without_first q p.key p.frame rest).frames) ≡ rest
      left [] = rw (lookup-remove p.key p.key q.frames, same_key) refl
      left (b ∷ rest) =
          rw
            (
              lookup-insert p.key p.key (record (p.frame) { fragments = b ∷ rest }) q.frames,
              same_key,
            )
            refl

  taken-others :
      (k : FrameKey) → pair_same p.key k ≡ false → lookup k taken.frames ≡ lookup k q.frames
  unfolding without_first
  taken-others k other = left p.rest
    where
      left :
          (rest : List Bytes)
          → lookup k (without_first q p.key p.frame rest).frames ≡ lookup k q.frames
      left [] = rw (lookup-remove p.key k q.frames, other) refl
      left (b ∷ rest) =
          rw (lookup-insert p.key k (record (p.frame) { fragments = b ∷ rest }) q.frames, other)
            refl

  pushed-order : pushed.order ≡ order_after p.rest p.key p.later
  unfolding push without_first
  pushed-order = left p.rest
    where
      left :
          (rest : List Bytes)
          → (push
              (without_first q p.key p.frame rest)
              p.key
              p.frame.is_keyframe
              p.frame.deadline
              p.bytes).order
            ≡ order_after rest p.key p.later
      left [] =
          let front_out : pop_front q.order ≡ p.later = ap pop_front p.order in
          rw (lookup-remove p.key p.key q.frames, same_key) (ap (λ o. o ++ (p.key ∷ [])) front_out)
      left (b ∷ rest) =
          rw
            (
              lookup-insert p.key p.key (record (p.frame) { fragments = b ∷ rest }) q.frames,
              same_key,
            )
            p.order

  abbrev bucket : FrameBucket
  bucket = record {
    deadline = p.frame.deadline;
    is_keyframe = p.frame.is_keyframe;
    fragments = fragments_of (lookup p.key taken.frames) ++ (p.bytes ∷ []);
  }

  pub pushed-Requeued : Requeued q p pushed
  unfolding push without_first
  pushed-Requeued = record {
    consistent =
        push-IsConsistent taken (without_first-IsConsistent q v p) p.key p.frame.is_keyframe
          p.frame.deadline p.bytes;
    same_total = omega (arith, without_first-counted q v p);
    to_the_end =
        rw (lookup-insert p.key p.key bucket taken.frames, same_key)
          (ap (λ fs. fs ++ (p.bytes ∷ [])) taken-fragments);
    same_others =
        λ k other. rw (lookup-insert p.key k bucket taken.frames, other) (taken-others k other);
    order = pushed-order;
  }

-- A fragment that is popped and put back is again in the queue, which stays consistent, with every other
-- frame as it was; but it stands behind the frame's other fragments, and where it was the last of its
-- frame the frame stands behind all others.
pub requeue_front-Requeued :
    (st : EgressScheduler) (v : IsConsistent st.video) (p : Popped st.video)
    → Requeued st.video p
        (requeue_front (record st { video = (pop_live st.video).0 }) (item_of st.video p)).video
unfolding requeue_front push
requeue_front-Requeued st v p =
    subst
      (λ (r : VideoFrameQueue × Option EgressItem).
        Requeued st.video p (requeue_front (record st { video = r.0 }) (item_of st.video p)).video)
      (sym p.popped) (pushed-Requeued st.video v p)
