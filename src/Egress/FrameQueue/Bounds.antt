-- ===== src/Egress/FrameQueue/Bounds.antt =====
-- What `enforce_bounds` leaves, and what it reports.
use tsod.Prelude.{
  ℕ, zero, suc, ◌+◌, ◌≤◌, ◌≡◌, refl, sym, ap, ◌∙◌, true, false, none, some, List, [], ◌∷◌, arith,
  ◌==◌, length, Bool-cases, Option-cases, inl, inr,
}
use tsod.Prelude.Maps.{lookup, pair_key, pair_same, pair_same_iff, lookup-remove, lookup-All}
use tsod.Prelude.Keys.{present, weight, member}
use tsod.Egress.FrameQueue.{
  FrameKey, FrameBucket, Frames, VideoFrameQueue, BoundsReport, drop_frame, is_droppable,
  first_droppable, front, victim, over_bounds, report_drop, enforce_loop, enforce_bounds,
}
use tsod.Egress.FrameQueue.Consistent.{
  frags, IsConsistent, drop_frame-IsConsistent, drop_frame-total, drop_frame-order,
}

first_droppable-member :
    (frames : Frames) (order : List FrameKey) {k : FrameKey}
    → first_droppable frames order ≡ some k
    → member k order ≡ true
unfolding first_droppable member
first_droppable-member frames [] found = cc found
first_droppable-member frames (j ∷ order) {k} found =
    elim (Bool-cases (is_droppable (lookup j frames))) [
      | inl here ↦
          let at : some j ≡ some k = rw here at found in
          let same : pair_same j k ≡ true = (pair_same_iff j k).1 (cc at) in rw same refl
      | inr there ↦
          let later = first_droppable-member frames order (rw there at found) in
          ground (arith, later)
    ]

victim-member : (q : VideoFrameQueue) (k : FrameKey) → victim q ≡ some k → member k q.order ≡ true
unfolding victim member
victim-member q k found = elim (Option-cases (first_droppable q.frames q.order)) [
  | inl none_free ↦
      let at : front q.order ≡ some k = rw (none_free, victim) at found in front-member q.order at
  | inr (j, free) ↦
      let at : some j ≡ some k = rw (free, victim) at found in
      let same : j ≡ k = cc at in first_droppable-member q.frames q.order (free ∙ ap some same)
]
  where
    front-member : (order : List FrameKey) → front order ≡ some k → member k order ≡ true
    front-member [] e = cc e
    front-member (j ∷ order) e =
        let same : pair_same j k ≡ true = (pair_same_iff j k).1 (cc e) in rw (same, member) refl

victim-none : (q : VideoFrameQueue) → victim q ≡ none → q.order ≡ []
unfolding victim
victim-none q none_left = elim (Option-cases (first_droppable q.frames q.order)) [
  | inl none_free ↦ empty q.order (rw (none_free, victim) at none_left)
  | inr (j, free) ↦ let found : some j ≡ none = rw (free, victim) at none_left in cc found
]
  where
    empty : (order : List FrameKey) → front order ≡ none → order ≡ []
    empty [] e = refl
    empty (j ∷ order) e = cc e

weight-empty : (m : Frames) → length m ≡ 0 → weight frags m ≡ 0
unfolding weight
weight-empty [] e = refl
weight-empty (x ∷ m) e = absurd (omega (arith, e))

pub empty_within : (q : VideoFrameQueue) → IsConsistent q → q.order ≡ [] → over_bounds q ≡ false
empty_within q v e =
    let no_keys : length q.order ≡ 0 = rw e refl in
    let w = weight-empty q.frames (v.lengths ∙ no_keys) in
    ground (arith, v.lengths, no_keys, v.counted, w)

-- The report says of the inserted frame whether it is still there.
abbrev pub IsTold : FrameKey → VideoFrameQueue → BoundsReport → Type 0
IsTold inserted q report = present (lookup inserted q.frames) ≡ (report.dropped_inserted_frags == 0)

pub record Enforced (inserted : FrameKey) (q : VideoFrameQueue) (report : BoundsReport)
    (q' : VideoFrameQueue) (report' : BoundsReport) : Type 0 where
  pub consistent : IsConsistent q'
  pub within : over_bounds q' ≡ false
  pub same_frames : q'.max_frames ≡ q.max_frames
  pub same_frags : q'.max_frags ≡ q.max_frags
  pub all_reported :
      q'.total_frags + report'.dropped_total_frags ≡ q.total_frags + report.dropped_total_frags
  pub told : IsTold inserted q' report'

drop-IsTold :
    (inserted k : FrameKey) (q : VideoFrameQueue) (report : BoundsReport)
    → IsConsistent q
    → member k q.order ≡ true
    → IsTold inserted q report
    → IsTold inserted (drop_frame q k).0 (report_drop report inserted k (drop_frame q k).1)
unfolding drop_frame
drop-IsTold inserted k q report v listed told = elim (Bool-cases (pair_same k inserted)) [
  | inl here ↦ elim (Option-cases (lookup k q.frames)) [
    | inl absent ↦
        let missing : member k q.order ≡ false = v.listed k ∙ ap present absent in
        cc (listed, missing)
    | inr (frame, found) ↦
        let some_frags : 1 ≤ frags frame =
          lookup-All (λ (f : FrameBucket). 1 ≤ frags f) k q.frames frame v.filled found in
        rw (lookup-remove k inserted q.frames, here, found) (ground (arith, some_frags))
  ]
  | inr there ↦ rw (lookup-remove k inserted q.frames, there) told
]

enforce_loop-Enforced :
    (fuel : ℕ) (inserted : FrameKey) (q : VideoFrameQueue) (report : BoundsReport)
    → IsConsistent q
    → IsTold inserted q report
    → length q.order ≤ fuel
    → Enforced inserted q report
        (enforce_loop fuel q inserted report).0
        (enforce_loop fuel q inserted report).1
unfolding enforce_loop drop_frame
enforce_loop-Enforced zero inserted q report v told enough = record {
  consistent = v;
  within = empty_within q v (no_key q.order (omega (arith, enough)));
  same_frames = refl;
  same_frags = refl;
  all_reported = refl;
  told = told;
}
  where
    no_key : (order : List FrameKey) → length order ≡ 0 → order ≡ []
    no_key [] e = refl
    no_key (k ∷ order) e = absurd (omega (arith, e))
enforce_loop-Enforced (suc fuel) inserted q report v told enough =
    elim (Bool-cases (over_bounds q)) [
      | inr within ↦
          rw (within, enforce_loop)
            (record {
              consistent = v;
              within = within;
              same_frames = refl;
              same_frags = refl;
              all_reported = refl;
              told = told;
            })
      | inl over ↦ elim (Option-cases (victim q)) [
        | inl none_left ↦
            let within = empty_within q v (victim-none q none_left) in cc (within, over)
        | inr (k, chosen) ↦
            let listed = victim-member q k chosen in
            let q₁ = (drop_frame q k).0 in
            let shorter : length q₁.order ≤ fuel =
              omega (arith, drop_frame-order q v k listed, enough) in
            let ih =
              enforce_loop-Enforced fuel inserted q₁
                (report_drop report inserted k (drop_frame q k).1) (drop_frame-IsConsistent q v k)
                (drop-IsTold inserted k q report v listed told) shorter in
            rw (over, chosen, enforce_loop)
              (record {
                consistent = ih.consistent;
                within = ih.within;
                same_frames = ih.same_frames;
                same_frags = ih.same_frags;
                all_reported = omega (arith, ih.all_reported, drop_frame-total q v k);
                told = ih.told;
              })
      ]
    ]

-- After `enforce_bounds` the queue is within both bounds, every fragment that is gone has been
-- reported, and the inserted frame is gone exactly where fragments of it have been.
pub enforce_bounds-Enforced :
    (q : VideoFrameQueue) (inserted : FrameKey)
    → IsConsistent q
    → member inserted q.order ≡ true
    → Enforced inserted q
        (record { dropped_total_frags = 0; dropped_inserted_frags = 0 })
        (enforce_bounds q inserted).0
        (enforce_bounds q inserted).1
unfolding enforce_bounds
enforce_bounds-Enforced q inserted v there =
    enforce_loop-Enforced (length q.order) inserted q
      (record { dropped_total_frags = 0; dropped_inserted_frags = 0 }) v
      (sym (v.listed inserted) ∙ there) (omega arith)
