-- ===== src/OverwriteQueue/Push.antt =====
-- `push` keeps the latest items, at most `cap` of them.
use tsod.Prelude.{
  ℕ, ◌+◌, ◌-◌, ◌^◌, ◌≤◌, ◌<◌, ◌≡◌, refl, ap, ◌∙◌, false, List, [], ◌∷◌, ◌++◌, append-nil,
  append_assoc, arith, length, length-append, length-snoc, length-drop, drop, drop-append,
  drop-drop, Bool-cases, inl, inr,
}
use tsod.OverwriteQueue.{OverwriteQueue, add_u64, pop_front, push, push_all}

pub record IsWithinCap {ℓ} {T : Type ℓ} (s : OverwriteQueue T) : Type 0 where
  pub positive : 0 < s.cap
  pub bounded : length s.q ≤ s.cap
  pub count_fits : s.overflow_evictions_total < 2 ^ 64

module _ {ℓ} {T : Type ℓ} where
  pop_front-eq-drop : (xs : List T) → pop_front xs ≡ drop 1 xs
  pop_front-eq-drop [] = refl
  pop_front-eq-drop (x ∷ xs) = refl

  -- The last `n` items, all of them where there are fewer.
  abbrev pub latest : ℕ → List T → List T
  latest n xs = drop (length xs - n) xs

  -- One push on an open queue.
  record Pushed (s : OverwriteQueue T) (item : T) (s' : OverwriteQueue T) : Type ℓ where
    items : s'.q ≡ latest s.cap (s.q ++ (item ∷ []))
    same_cap : s'.cap ≡ s.cap
    still_open : s'.closed ≡ false
    evictions :
        s'.overflow_evictions_total ≡ add_u64 s.overflow_evictions_total (length s.q + 1 - s.cap)

  push-Pushed :
      (s : OverwriteQueue T) (item : T)
      → IsWithinCap s
      → s.closed ≡ false
      → Pushed s item (push s item).0
  unfolding push
  push-Pushed s item v o = record {
    items =
        ground (arith, pop_front-eq-drop s.q, drop-append 1 s.q (item ∷ []), length-snoc s.q item);
    same_cap = ground arith;
    still_open = ground arith;
    evictions = ground (arith, no_eviction s.overflow_evictions_total);
  }
    where
      no_eviction : (n : ℕ) → n < 2 ^ 64 → add_u64 n 0 ≡ n
      no_eviction n h = omega arith

  -- `push` keeps the queue within its capacity, open or closed.
  pub push-IsWithinCap :
      (s : OverwriteQueue T) (item : T) → IsWithinCap s → IsWithinCap (push s item).0
  unfolding push
  push-IsWithinCap s item v = elim (Bool-cases s.closed) [
    | inl c ↦ ground arith
    | inr o ↦ ground (
      arith,
      v,
      push-Pushed s item v o,
      pop_front-eq-drop s.q,
      length-drop 1 s.q,
      length-snoc (pop_front s.q) item,
      length-snoc s.q item,
    )
  ]

  -- The latest of a list from which older items have gone already.
  latest-drop : (n k : ℕ) (xs : List T) → k ≤ length xs - n → latest n (drop k xs) ≡ latest n xs
  latest-drop n k xs h =
      let total : k + (length (drop k xs) - n) ≡ length xs - n = omega (arith, length-drop k xs) in
      drop-drop (length (drop k xs) - n) k xs ∙ ap (λ j. drop j xs) total

  -- `out` holds the latest of all items, and has counted the others.
  abbrev pub Window : OverwriteQueue T → List T → OverwriteQueue T → Type ℓ
  Window s xs out =
      (out.q ≡ latest s.cap (s.q ++ xs))
      × (out.overflow_evictions_total
          ≡ add_u64 s.overflow_evictions_total (length (s.q ++ xs) - s.cap))

  Window-push :
      (s : OverwriteQueue T) (x : T) (xs : List T) (out : OverwriteQueue T)
      → IsWithinCap s
      → s.closed ≡ false
      → Window (push s x).0 xs out
      → Window s (x ∷ xs) out
  Window-push s x xs out v o ih = (
    ih.0 ∙ rw p.same_cap (ap (latest s.cap) joined ∙ latest-drop s.cap gone whole short),
    ih.1 ∙ counted,
  )
    where
      s' : OverwriteQueue T
      s' = (push s x).0

      p : Pushed s x s'
      p = push-Pushed s x v o

      whole : List T
      whole = s.q ++ (x ∷ xs)

      gone : ℕ
      gone = length (s.q ++ (x ∷ [])) - s.cap

      joined : s'.q ++ xs ≡ drop gone whole
      joined =
          ap (λ t. t ++ xs) p.items
          ∙ drop-append gone (s.q ++ (x ∷ [])) xs (omega arith)
          ∙ ap (drop gone) (append_assoc s.q (x ∷ []) xs)

      short : gone ≤ length whole - s.cap
      short = omega (arith, length-append s.q (x ∷ xs), length-snoc s.q x)

      counted :
          add_u64 s'.overflow_evictions_total (length (s'.q ++ xs) - s'.cap)
          ≡ add_u64 s.overflow_evictions_total (length whole - s.cap)
      counted =
          rw (p.evictions, p.same_cap)
            (omega (arith, ap length joined, length-drop gone whole, short, length-snoc s.q x))

  -- After any pushes an open queue holds the latest `cap` of all items, in their order, and every
  -- older item has been counted as an eviction, modulo 2 ^ 64.
  pub push_all-Window :
      (s : OverwriteQueue T) (xs : List T)
      → IsWithinCap s
      → s.closed ≡ false
      → Window s xs (push_all s xs)
  unfolding push_all
  push_all-Window s [] v o = rw append-nil (ground arith, omega arith)
  push_all-Window s (x ∷ xs) v o =
      Window-push s x xs (push_all (push s x).0 xs) v o
        (push_all-Window (push s x).0 xs (push-IsWithinCap s x v) (push-Pushed s x v o).still_open)
