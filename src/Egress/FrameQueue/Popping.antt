-- ===== src/Egress/FrameQueue/Popping.antt =====
-- What `pop_next_fragment` takes, and what it leaves.
use tsod.Prelude.{
  suc, ◌-◌, ◌≤◌, ◌≡◌, refl, sym, ap, subst, ◌∙◌, true, false, ◌⊎◌, none, some, List, [], ◌∷◌, arith,
  length, Option-cases, List-cases, inl, inr, Bytes,
}
use tsod.Prelude.Maps.{lookup, remove, pair_key, pair_same, pair_same_iff, lookup-All}
use tsod.Prelude.Keys.{Distinct, weight_of, weight-remove, present, member, without, without_absent}
use tsod.Egress.FrameQueue.{
  FrameKey, FrameBucket, VideoFrameQueue, video, fragments_of, drop_frame, front, pop_front,
  without_first, pop_fragment, pop_live,
}
use tsod.Egress.FrameQueue.Consistent.{
  frags, IsConsistent, drop_frame-IsConsistent, replace-IsConsistent,
}
use tsod.Egress.FrameQueue.Expiry.{front-member}

-- What is popped: the first fragment of the first frame.
pub record Popped (q : VideoFrameQueue) : Type 0 where
  pub key : FrameKey
  pub later : List FrameKey
  pub frame : FrameBucket
  pub bytes : Bytes
  pub rest : List Bytes
  pub order : q.order ≡ key ∷ later
  pub found : lookup key q.frames ≡ some frame
  pub fragments : frame.fragments ≡ bytes ∷ rest
  pub popped : pop_live q ≡ (
    without_first q key frame rest,
    some (record {
      kind = video;
      stream_tag = some (key.0);
      frame_seq = some (key.1);
      deadline = some frame.deadline;
      bytes = bytes;
      is_keyframe = frame.is_keyframe;
    }),
  )

pub pop_live-cases :
    (q : VideoFrameQueue) → IsConsistent q → ((q.order ≡ []) × (pop_live q ≡ (q, none))) ⊎ Popped q
unfolding pop_live pop_fragment
pop_live-cases q v = elim (List-cases q.order) [
  | inl nobody ↦
      let first : front q.order ≡ none = rw nobody refl in inl (nobody, rw (first, pop_live) refl)
  | inr (key, later, order) ↦
      let first : front q.order ≡ some key = ap front order in
      elim (Option-cases (lookup key q.frames)) [
        | inl absent ↦
            let listed = front-member q.order first in
            let missing : member key q.order ≡ false = v.listed key ∙ ap present absent in
            cc (listed, missing)
        | inr (frame, found) ↦
            let some_frags : 1 ≤ frags frame =
              lookup-All (λ (f : FrameBucket). 1 ≤ frags f) key q.frames frame v.filled found in
            elim (List-cases frame.fragments) [
              | inl empty ↦
                  let none_left : frags frame ≡ 0 = ap length empty in
                  absurd (omega (arith, none_left, some_frags))
              | inr (bytes, rest, fragments) ↦ inr (record {
                key = key;
                later = later;
                frame = frame;
                bytes = bytes;
                rest = rest;
                order = order;
                found = found;
                fragments = fragments;
                popped =
                    rw (first, pop_live)
                      (rw found (popped_of key frame bytes rest frame.fragments fragments));
              })
            ]
      ]
]
  where
    popped_of :
        (key : FrameKey) (frame : FrameBucket) (bytes : Bytes) (rest fragments : List Bytes)
        → fragments ≡ bytes ∷ rest
        → pop_fragment q key frame fragments ≡ (
          without_first q key frame rest,
          some (record {
            kind = video;
            stream_tag = some (key.0);
            frame_seq = some (key.1);
            deadline = some frame.deadline;
            bytes = bytes;
            is_keyframe = frame.is_keyframe;
          }),
        )
    popped_of key frame bytes rest fragments e = rw e refl

module _ (q : VideoFrameQueue) (v : IsConsistent q) (p : Popped q) where
  -- The frame's fragments are among those that are counted.
  pub frags-le : frags p.frame ≤ q.total_frags
  frags-le =
      let w = weight-remove frags p.key q.frames v.unique in
      let n : weight_of frags (lookup p.key q.frames) ≡ frags p.frame =
        ap (weight_of frags) p.found in
      omega (arith, w, n, v.counted)

  pub pop_front-without : pop_front q.order ≡ without p.key q.order
  unfolding without
  pop_front-without =
      let d : Distinct (p.key ∷ p.later) = subst Distinct p.order v.ordered in
      let same : pair_same p.key p.key ≡ true = (pair_same_iff p.key p.key).1 refl in
      let skip : without p.key (p.key ∷ p.later) ≡ p.later =
        rw (same, without) (without_absent p.key p.later d.0) in
      ap pop_front p.order ∙ sym skip ∙ ap (without p.key) (sym p.order)

  pub without_first-IsConsistent : IsConsistent (without_first q p.key p.frame p.rest)
  unfolding without_first drop_frame
  without_first-IsConsistent = left p.rest p.fragments
    where
      left :
          (rest : List Bytes)
          → p.frame.fragments ≡ p.bytes ∷ rest
          → IsConsistent (without_first q p.key p.frame rest)
      left [] e =
          let n : length (fragments_of (lookup p.key q.frames)) ≡ 1 =
            ap (λ o. length (fragments_of o)) p.found ∙ ap length e in
          subst
            (λ m. IsConsistent (record q {
              frames = remove p.key q.frames;
              order = pop_front q.order;
              total_frags = q.total_frags - m;
            }))
            n
            (subst
              (λ o. IsConsistent (record q {
                frames = remove p.key q.frames;
                order = o;
                total_frags = q.total_frags - length (fragments_of (lookup p.key q.frames));
              }))
              (sym pop_front-without) (drop_frame-IsConsistent q v p.key))
      left (b ∷ rest) e =
          let n : frags p.frame ≡ suc (suc (length rest)) = ap length e in
          replace-IsConsistent q v p.key p.frame (record (p.frame) { fragments = b ∷ rest })
            (q.total_frags - 1) p.found (omega arith) (omega (arith, n, frags-le))

  pub without_first-counted : suc (without_first q p.key p.frame p.rest).total_frags ≡ q.total_frags
  unfolding without_first
  without_first-counted = left p.rest
    where
      n : frags p.frame ≡ suc (length p.rest)
      n = ap length p.fragments

      left :
          (rest : List Bytes) → suc (without_first q p.key p.frame rest).total_frags ≡ q.total_frags
      left [] = omega (arith, n, frags-le)
      left (b ∷ rest) = omega (arith, n, frags-le)

-- A queue with a frame gives a fragment.
pub pop_live-found :
    (q : VideoFrameQueue) (key : FrameKey) (frame : FrameBucket)
    → IsConsistent q
    → lookup key q.frames ≡ some frame
    → Popped q
unfolding member
pop_live-found q key frame v found = elim (pop_live-cases q v) [
  | inr p ↦ p
  | inl (nobody, e) ↦
      let listed : member key q.order ≡ true = v.listed key ∙ ap present found in
      let missing : member key q.order ≡ false = ap (member key) nobody in cc (listed, missing)
]
