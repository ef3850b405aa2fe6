-- ===== src/OverwriteQueue/Realtime.antt =====
-- What the consumer of voice packets delivers, drops and counts.
use tsod.Prelude.{
  ℕ, suc, ◌+◌, ◌-◌, ◌^◌, ◌<◌, ◌≡◌, refl, sym, ap, ◌∙◌, inl, inr, ◌&&◌, Option, none, some, List, [],
  ◌∷◌, ◌++◌, append_assoc, arith, ltb, length, length-append, take, take-append-drop,
  length-take_of_le, Bool-cases, saturating_add,
}
use tsod.OverwriteQueue.{
  StampedBytes, Limits, Locked, drop_stale, drain_to_latest, trigger_drain, select_front,
  take_front,
}

-- `rest` is `xs` without `n` packets of the front.
abbrev pub Dropped : List StampedBytes → List StampedBytes → ℕ → Type 0
Dropped xs rest n = (front : List StampedBytes) × (xs ≡ front ++ rest) × (length front ≡ n)

pub Dropped-trans :
    {xs ys zs : List StampedBytes} {m n : ℕ}
    → Dropped xs ys m
    → Dropped ys zs n
    → Dropped xs zs (m + n)
Dropped-trans {zs = zs} d e = (
  d.0 ++ e.0,
  d.1 ∙ ap (λ t. d.0 ++ t) e.1 ∙ sym (append_assoc d.0 e.0 zs),
  omega (arith, length-append d.0 e.0, d.2, e.2),
)

-- A sweep drops from the front, and adds the number to its count.
pub drop_stale-Dropped :
    (now max_age : ℕ) (xs : List StampedBytes) (count : ℕ)
    → count + length xs < 2 ^ 64
    → let (rest, n) = drop_stale now max_age xs count in
      (k : ℕ) × Dropped xs rest k × (n ≡ count + k)
unfolding drop_stale
drop_stale-Dropped now max_age [] count h = (0, ([], refl, refl), omega arith)
drop_stale-Dropped now max_age ((at, bytes) ∷ xs) count h =
    elim (Bool-cases (ltb max_age (now - at))) [
      | inr e ↦ rw e (0, ([], refl, refl), omega arith)
      | inl e ↦ rw e (
          let (k, (front, parts, size), counted) =
            drop_stale-Dropped now max_age xs (saturating_add (2 ^ 64 - 1) count 1)
              (ground arith) in
          (
            suc k,
            ((at, bytes) ∷ front, ap (λ t. (at, bytes) ∷ t) parts, ap suc size),
            ground (arith, counted, h),
          ))
    ]

drain_to_latest-Dropped :
    (l : Limits) (cap now : ℕ) (xs : List StampedBytes)
    → let (rest, n) = drain_to_latest l cap now xs in Dropped xs rest n
unfolding drain_to_latest
drain_to_latest-Dropped l cap now xs =
    elim (Bool-cases
      (ltb 0 l.keep_latest && trigger_drain l cap now xs && ltb l.keep_latest (length xs))) [
        | inl e ↦ rw e (
          take (length xs - l.keep_latest) xs,
          sym (take-append-drop (length xs - l.keep_latest) xs),
          length-take_of_le (length xs - l.keep_latest) xs (omega arith),
        )
        | inr e ↦ rw e ([], refl, refl)
      ]

-- The packet that is taken out, as a list.
abbrev pub held : Option StampedBytes → List StampedBytes
held none = []
held (some x) = x ∷ []

-- What the part under the lock keeps, and how many packets it drops.
pub record Selected (xs : List StampedBytes) (stale : ℕ) (k : Locked) : Type 0 where
  pub dropped : ℕ
  pub parts : Dropped xs (held k.item ++ k.rest) dropped
  pub counted : k.drops.stale_drops + k.drops.drain_drops ≡ stale + dropped
  pub emptied : k.item ≡ none → k.rest ≡ []

take_front-held :
    (xs : List StampedBytes) (stale drained : ℕ)
    → let k = take_front xs stale drained in
      (held k.item ++ k.rest ≡ xs)
      × (k.drops.stale_drops ≡ stale)
      × (k.drops.drain_drops ≡ drained)
      × (k.item ≡ none → k.rest ≡ [])
take_front-held [] stale drained = (refl, refl, refl, λ h. refl)
take_front-held (x ∷ xs) stale drained = (refl, refl, refl, λ h. cc)

pub select_front-Selected :
    (l : Limits) (cap now : ℕ) (xs : List StampedBytes) (stale : ℕ)
    → stale + length xs < 2 ^ 64
    → Selected xs stale (select_front l cap now xs stale)
unfolding select_front
select_front-Selected l cap now xs stale h = record {
  dropped = drained.1 + s.0;
  parts = rw front.0 (Dropped-trans d s.1);
  counted = omega (arith, front.1, front.2, s.2);
  emptied = front.3;
}
  where
    drained : List StampedBytes × ℕ
    drained = drain_to_latest l cap now xs

    d : Dropped xs drained.0 drained.1
    d = drain_to_latest-Dropped l cap now xs

    size : stale + length drained.0 < 2 ^ 64
    size = omega (arith, ap length d.1, length-append d.0 drained.0, h)

    swept : List StampedBytes × ℕ
    swept = drop_stale now l.max_age drained.0 stale

    s : (k : ℕ) × Dropped drained.0 swept.0 k × (swept.1 ≡ stale + k)
    s = drop_stale-Dropped now l.max_age drained.0 stale size

    front :
        let k = take_front swept.0 swept.1 drained.1 in
        (held k.item ++ k.rest ≡ swept.0)
        × (k.drops.stale_drops ≡ swept.1)
        × (k.drops.drain_drops ≡ drained.1)
        × (k.item ≡ none → k.rest ≡ [])
    front = take_front-held swept.0 swept.1 drained.1
