-- ===== src/Egress/FrameQueue/Keyframes.antt =====
-- Which frames `enforce_bounds` gives up first.
use tsod.Prelude.{
  ℕ, zero, suc, ◌≡◌, refl, sym, ap, ◌∙◌, true, false, Option, none, some, List, [], ◌∷◌, arith,
  length, Bool-cases, Option-cases, inl, inr, ◌⊎◌,
}
use tsod.Prelude.Maps.{lookup, pair_key, pair_same, pair_same_iff, lookup-remove}
use tsod.Prelude.Keys.{present, member}
use tsod.Egress.FrameQueue.{
  FrameKey, FrameBucket, Frames, VideoFrameQueue, BoundsReport, drop_frame, is_droppable,
  first_droppable, victim, over_bounds, report_drop, enforce_loop, enforce_bounds,
}
use tsod.Egress.FrameQueue.Consistent.{IsConsistent, drop_frame-IsConsistent}

-- No frame that is queued may be dropped before a keyframe.
abbrev pub OnlyKeyframes : VideoFrameQueue → Type 0
OnlyKeyframes q = (j : FrameKey) → is_droppable (lookup j q.frames) ≡ false

first_droppable-some :
    (frames : Frames) (order : List FrameKey) {k : FrameKey}
    → first_droppable frames order ≡ some k
    → is_droppable (lookup k frames) ≡ true
unfolding first_droppable
first_droppable-some frames [] found = cc found
first_droppable-some frames (j ∷ order) {k} found =
    elim (Bool-cases (is_droppable (lookup j frames))) [
      | inl here ↦
          let at : some j ≡ some k = rw here at found in
          let same : j ≡ k = cc at in ap (λ i. is_droppable (lookup i frames)) (sym same) ∙ here
      | inr there ↦ first_droppable-some frames order (rw there at found)
    ]

first_droppable-none :
    (frames : Frames) (order : List FrameKey) (k : FrameKey)
    → first_droppable frames order ≡ none
    → member k order ≡ true
    → is_droppable (lookup k frames) ≡ false
unfolding first_droppable member
first_droppable-none frames [] k none_free listed = cc listed
first_droppable-none frames (j ∷ order) k none_free listed =
    elim (Bool-cases (is_droppable (lookup j frames))) [
      | inl here ↦ let found : some j ≡ none = rw here at none_free in cc found
      | inr there ↦ elim (Bool-cases (pair_same j k)) [
        | inl same ↦
            ap (λ i. is_droppable (lookup i frames)) (sym ((pair_same_iff j k).0 same)) ∙ there
        | inr other ↦
            first_droppable-none frames order k (rw there at none_free)
              (ground (arith, listed, other))
      ]
    ]

no_droppable :
    (q : VideoFrameQueue)
    → IsConsistent q
    → first_droppable q.frames q.order ≡ none
    → OnlyKeyframes q
no_droppable q v none_free j = elim (Bool-cases (member j q.order)) [
  | inl listed ↦ first_droppable-none q.frames q.order j none_free listed
  | inr absent ↦ missing (lookup j q.frames) (sym (v.listed j) ∙ absent)
]
  where
    missing : (o : Option FrameBucket) → present o ≡ false → is_droppable o ≡ false
    missing none e = refl
    missing (some frame) e = cc e

drop-OnlyKeyframes :
    (q : VideoFrameQueue) (k : FrameKey) → OnlyKeyframes q → OnlyKeyframes (drop_frame q k).0
unfolding drop_frame
drop-OnlyKeyframes q k only j = elim (Bool-cases (pair_same k j)) [
  | inl here ↦ rw (lookup-remove k j q.frames, here) refl
  | inr there ↦ rw (lookup-remove k j q.frames, there) (only j)
]

-- Either the keyframe's bucket is as it was, or only keyframes are left.
abbrev Spared : FrameKey → VideoFrameQueue → VideoFrameQueue → Type 0
Spared k q q' = (lookup k q'.frames ≡ lookup k q.frames) ⊎ OnlyKeyframes q'

enforce_loop-OnlyKeyframes :
    (fuel : ℕ) (inserted : FrameKey) (q : VideoFrameQueue) (report : BoundsReport)
    → OnlyKeyframes q
    → OnlyKeyframes (enforce_loop fuel q inserted report).0
unfolding enforce_loop drop_frame
enforce_loop-OnlyKeyframes zero inserted q report only = only
enforce_loop-OnlyKeyframes (suc fuel) inserted q report only = elim (Bool-cases (over_bounds q)) [
  | inr within ↦ rw (within, enforce_loop) only
  | inl over ↦ elim (Option-cases (victim q)) [
    | inl none_left ↦ rw (over, none_left, enforce_loop) only
    | inr (k, chosen) ↦
        rw (over, chosen, enforce_loop)
          (enforce_loop-OnlyKeyframes fuel inserted (drop_frame q k).0
            (report_drop report inserted k (drop_frame q k).1) (drop-OnlyKeyframes q k only))
  ]
]

enforce_loop-Spared :
    (fuel : ℕ) (inserted key : FrameKey) (q : VideoFrameQueue) (report : BoundsReport)
    → IsConsistent q
    → is_droppable (lookup key q.frames) ≡ false
    → Spared key q (enforce_loop fuel q inserted report).0
unfolding enforce_loop drop_frame
enforce_loop-Spared zero inserted key q report v keyframe = inl refl
enforce_loop-Spared (suc fuel) inserted key q report v keyframe =
    elim (Bool-cases (over_bounds q)) [
      | inr within ↦ rw (within, enforce_loop) (inl refl)
      | inl over ↦ elim (Option-cases (first_droppable q.frames q.order)) [
        | inl none_free ↦
            let only =
              enforce_loop-OnlyKeyframes (suc fuel) inserted q report
                (no_droppable q v none_free) in
            inr only
        | inr (k, free) ↦
            let chosen : victim q ≡ some k = rw (free, victim) refl in
            let droppable = first_droppable-some q.frames q.order free in
            let other : pair_same k key ≡ false = elim (Bool-cases (pair_same k key)) [
              | inl same ↦
                  let both : is_droppable (lookup k q.frames) ≡ false =
                    ap (λ i. is_droppable (lookup i q.frames)) ((pair_same_iff k key).0 same)
                    ∙ keyframe in
                  cc (both, droppable)
              | inr other ↦ other
            ] in
            let q₁ = (drop_frame q k).0 in
            let stays : lookup key q₁.frames ≡ lookup key q.frames =
              rw (lookup-remove k key q.frames, other) refl in
            let ih =
              enforce_loop-Spared fuel inserted key q₁
                (report_drop report inserted k (drop_frame q k).1) (drop_frame-IsConsistent q v k)
                (ap is_droppable stays ∙ keyframe) in
            rw (over, chosen, enforce_loop)
              (elim ih [ inl kept ↦ inl (kept ∙ stays) | inr only ↦ inr only ])
      ]
    ]

-- A queued keyframe is left as it is by `enforce_bounds`, unless every frame that is left is a keyframe.
pub enforce_bounds-spares :
    (q : VideoFrameQueue) (inserted key : FrameKey)
    → IsConsistent q
    → is_droppable (lookup key q.frames) ≡ false
    → (lookup key (enforce_bounds q inserted).0.frames ≡ lookup key q.frames)
      ⊎ OnlyKeyframes (enforce_bounds q inserted).0
unfolding enforce_bounds
enforce_bounds-spares q inserted key v keyframe =
    enforce_loop-Spared (length q.order) inserted key q
      (record { dropped_total_frags = 0; dropped_inserted_frags = 0 }) v keyframe
