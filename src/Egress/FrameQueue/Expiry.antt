-- ===== src/Egress/FrameQueue/Expiry.antt =====
-- What `drop_expired` takes, and what it leaves.
use tsod.Prelude.{
  ℕ, zero, suc, ◌+◌, ◌≤◌, ◌<◌, ◌≡◌, refl, ap, ◌∙◌, true, false, none, some, List, [], ◌∷◌, arith,
  length, Bool-cases, Option-cases, inl, inr,
}
use tsod.Prelude.Maps.{lookup, pair_key, pair_same, pair_same_iff, lookup-remove}
use tsod.Prelude.Keys.{member}
use tsod.Egress.FrameQueue.{
  FrameKey, FrameBucket, VideoFrameQueue, drop_frame, front, is_expired, expire_loop, drop_expired,
}
use tsod.Egress.FrameQueue.Consistent.{
  IsConsistent, drop_frame-IsConsistent, drop_frame-total, drop_frame-order,
}

-- The first frame, if there is one, has not expired.
abbrev pub IsLive : ℕ → VideoFrameQueue → List FrameKey → Type 0
IsLive now q [] = Unit
IsLive now q (k ∷ order) = is_expired now (lookup k q.frames) ≡ false

pub record Expired (now : ℕ) (q : VideoFrameQueue) (dropped : ℕ) (r : VideoFrameQueue × ℕ)
    : Type 0 where
  pub consistent : IsConsistent r.0
  pub live : IsLive now r.0 r.0.order
  pub counted : r.0.total_frags + r.1 ≡ q.total_frags + dropped

pub front-member :
    (order : List FrameKey) {k : FrameKey} → front order ≡ some k → member k order ≡ true
unfolding member
front-member [] e = cc e
front-member (j ∷ order) {k} e =
    let same : pair_same j k ≡ true = (pair_same_iff j k).1 (cc e) in rw same refl

front-IsLive :
    (now : ℕ) (q : VideoFrameQueue) (order : List FrameKey) {k : FrameKey}
    → front order ≡ some k
    → is_expired now (lookup k q.frames) ≡ false
    → IsLive now q order
front-IsLive now q [] e live = tt
front-IsLive now q (j ∷ order) {k} e live =
    let same : j ≡ k = cc e in ap (λ i. is_expired now (lookup i q.frames)) same ∙ live

none-IsLive :
    (now : ℕ) (q : VideoFrameQueue) (order : List FrameKey)
    → front order ≡ none
    → IsLive now q order
none-IsLive now q [] e = tt
none-IsLive now q (j ∷ order) e = cc e

expire_loop-Expired :
    (fuel : ℕ) (q : VideoFrameQueue) (now dropped : ℕ)
    → IsConsistent q
    → length q.order ≤ fuel
    → Expired now q dropped (expire_loop fuel q now dropped)
unfolding expire_loop
expire_loop-Expired zero q now dropped v enough = record {
  consistent = v;
  live = none-IsLive now q q.order (empty q.order (omega (arith, enough)));
  counted = refl;
}
  where
    empty : (order : List FrameKey) → length order ≡ 0 → front order ≡ none
    empty [] e = refl
    empty (k ∷ order) e = absurd (omega (arith, e))
expire_loop-Expired (suc fuel) q now dropped v enough = elim (Option-cases (front q.order)) [
  | inl nobody ↦
      rw (nobody, expire_loop)
        (record { consistent = v; live = none-IsLive now q q.order nobody; counted = refl })
  | inr (k, first) ↦ elim (Bool-cases (is_expired now (lookup k q.frames))) [
    | inr live ↦
        rw (first, live, expire_loop)
          (record { consistent = v; live = front-IsLive now q q.order first live; counted = refl })
    | inl old ↦
        let shorter = drop_frame-order q v k (front-member q.order first) in
        let ih =
          expire_loop-Expired fuel (drop_frame q k).0 now (dropped + (drop_frame q k).1)
            (drop_frame-IsConsistent q v k) (omega (arith, shorter, enough)) in
        rw (first, old, expire_loop)
          (record {
            consistent = ih.consistent;
            live = ih.live;
            counted = omega (arith, ih.counted, drop_frame-total q v k);
          })
  ]
]

pub drop_expired-Expired :
    (q : VideoFrameQueue) (now : ℕ) → IsConsistent q → Expired now q 0 (drop_expired q now)
unfolding drop_expired
drop_expired-Expired q now v = expire_loop-Expired (length q.order) q now 0 v (omega arith)

-- A frame whose deadline lies ahead stays.
module _ (key : FrameKey) (frame : FrameBucket) (now : ℕ) (ahead : now < frame.deadline) where
  expire_loop-keeps :
      (fuel : ℕ) (q : VideoFrameQueue) (dropped : ℕ)
      → lookup key q.frames ≡ some frame
      → lookup key (expire_loop fuel q now dropped).0.frames ≡ some frame
  unfolding expire_loop drop_frame
  expire_loop-keeps zero q dropped found = found
  expire_loop-keeps (suc fuel) q dropped found = elim (Option-cases (front q.order)) [
    | inl nobody ↦ rw (nobody, expire_loop) found
    | inr (k, first) ↦ elim (Bool-cases (is_expired now (lookup k q.frames))) [
      | inr live ↦ rw (first, live, expire_loop) found
      | inl old ↦ elim (Bool-cases (pair_same k key)) [
        | inl here ↦
            let at : lookup k q.frames ≡ some frame =
              ap (λ j. lookup j q.frames) ((pair_same_iff k key).0 here) ∙ found in
            let expired : is_expired now (some frame) ≡ true = rw at at old in
            absurd (ground (arith, expired, ahead))
        | inr there ↦
            let left : lookup key (drop_frame q k).0.frames ≡ some frame =
              lookup-remove k key q.frames ∙ rw there found in
            rw (first, old, expire_loop)
              (expire_loop-keeps fuel (drop_frame q k).0 (dropped + (drop_frame q k).1) left)
      ]
    ]
  ]

  pub drop_expired-keeps :
      (q : VideoFrameQueue)
      → lookup key q.frames ≡ some frame
      → lookup key (drop_expired q now).0.frames ≡ some frame
  unfolding drop_expired
  drop_expired-keeps q found = expire_loop-keeps (length q.order) q 0 found
