-- ===== src/SendPolicy/Debounce.antt =====
-- Prune requests of one session are spaced.
use tsod.Prelude.{ℕ, ◌+◌, ◌-◌, ◌≤◌, List, [], ◌∷◌, arith, if◌then◌else◌, ltb, Bool-cases, inl, inr}
use tsod.SendPolicy.{prune_debounce_ms, should_prune}

-- The times at which `should_prune` lets a request through, of the times at which it is asked.
unfoldable pub grants : ℕ → List ℕ → List ℕ
unfolding should_prune
grants last [] = []
grants last (now ∷ times) =
    let (granted, last') = should_prune last now in
    let rest = grants last' times in if granted then now ∷ rest else rest

-- The first lies at least the debounce time after `last`, and each later one after the one before.
abbrev pub Spaced : ℕ → List ℕ → Type 0
Spaced last [] = Unit {0}
Spaced last (t ∷ ts) = (last + prune_debounce_ms ≤ t) × Spaced t ts

-- Whatever the times at which it is asked, also where the clock steps back, `should_prune` grants
-- requests only a debounce time apart.
pub grants-Spaced : (last : ℕ) (times : List ℕ) → Spaced last (grants last times)
unfolding grants
grants-Spaced last [] = tt
grants-Spaced last (now ∷ times) = elim (Bool-cases (ltb (now - last) prune_debounce_ms)) [
  | inl early ↦ rw (early, grants) (grants-Spaced last times)
  | inr late ↦ rw (late, grants) (ground arith, grants-Spaced now times)
]
