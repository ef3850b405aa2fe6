-- ===== src/Prelude/Maps.antt =====
-- A `HashMap` as a list of entries, over keys with a Boolean equality.
use Prim.Native.Nat.{ℕ}
use mathlib.Core.Path.{◌≡◌, refl, ap, sym, subst, ◌∙◌}
use mathlib.Core.Logic.{◌↔◌, inl, inr}
use mathlib.Core.Bool.{Bool, true, false, ◌&&◌}
use mathlib.Core.List.{List, [], ◌∷◌}
use mathlib.Core.Option.{Option, none, some}
use native.Mathlib.Omega.{arith}
use tsod.Prelude.Lists.{All}
use tsod.Prelude.Tests.{if◌then◌else◌, ◌==◌, ==_iff, Bool-cases}

pub record Key {ℓ} (K : Type ℓ) : Type ℓ where
  pub same : K → K → Bool
  pub same_iff : (a b : K) → (same a b ≡ true) ↔ (a ≡ b)

instance abbrev pub nat_key : Key ℕ
nat_key = record { same = λ a b. a == b; same_iff = ==_iff }

abbrev pub pair_same : ℕ × ℕ → ℕ × ℕ → Bool
pair_same (a, b) (c, d) = a == c && b == d

pub pair_same_iff : (p q : ℕ × ℕ) → (pair_same p q ≡ true) ↔ (p ≡ q)
pair_same_iff (a, b) (c, d) = ground arith

instance abbrev pub pair_key : Key (ℕ × ℕ)
pair_key = record { same = pair_same; same_iff = pair_same_iff }

module _ {ℓ} {K : Type ℓ} ⦃e : Key K⦄ where
  same_refl : (k : K) → e.same k k ≡ true
  same_refl k = (e.same_iff k k).1 refl

  -- What is the same as `k` is as much the same as `j` as `k` is.
  same_subst : (i k j : K) → e.same i k ≡ true → e.same i j ≡ e.same k j
  same_subst i k j h = ap (λ x. e.same x j) ((e.same_iff i k).0 h)

module _ {ℓ κ} {K : Type ℓ} {V : Type κ} ⦃e : Key K⦄ where
  unfoldable pub lookup : K → List (K × V) → Option V
  lookup k [] = none
  lookup k ((j, v) ∷ m) = if e.same j k then some v else lookup k m

  unfoldable pub remove : K → List (K × V) → List (K × V)
  remove k [] = []
  remove k ((j, v) ∷ m) = let rest = remove k m in if e.same j k then rest else (j, v) ∷ rest

  -- The new entry takes the place of an old one.
  unfoldable pub insert : K → V → List (K × V) → List (K × V)
  insert k v m = (k, v) ∷ remove k m

  -- `retain` on the keys.
  unfoldable pub retain_keys : (K → Bool) → List (K × V) → List (K × V)
  retain_keys p [] = []
  retain_keys p ((j, v) ∷ m) = let rest = retain_keys p m in if p j then (j, v) ∷ rest else rest

  pub lookup-remove :
      (k j : K) (m : List (K × V))
      → lookup j (remove k m) ≡ (if e.same k j then none else lookup j m)
  unfolding lookup remove
  lookup-remove k j [] = elim (Bool-cases (e.same k j)) [ inl h ↦ rw h refl | inr h ↦ rw h refl ]
  lookup-remove k j ((i, v) ∷ m) = elim (Bool-cases (e.same i k)) [
    | inl gone ↦
        rw (gone, same_subst i k j gone) (lookup-remove k j m ∙ dropped (e.same k j) v (lookup j m))
    | inr kept ↦ elim (Bool-cases (e.same i j)) [
      | inl here ↦
          let apart : e.same k j ≡ false = elim (Bool-cases (e.same k j)) [
            | inl both ↦
                absurd_same i k ((e.same_iff i j).0 here ∙ sym ((e.same_iff k j).0 both)) kept
            | inr apart ↦ apart
          ] in
          rw (kept, apart) (rw here refl)
      | inr there ↦ rw (kept, there) (lookup-remove k j m)
    ]
  ]
    where
      dropped :
          (b : Bool) (v : V) (o : Option V)
          → (if b then none else o) ≡ (if b then none else (if b then some v else o))
      dropped true v o = refl
      dropped false v o = refl

      absurd_same : (i k : K) → i ≡ k → e.same i k ≡ false → e.same k j ≡ false
      absurd_same i k p h = cc ((e.same_iff i k).1 p, h)

  pub lookup-insert :
      (k j : K) (v : V) (m : List (K × V))
      → lookup j (insert k v m) ≡ (if e.same k j then some v else lookup j m)
  unfolding lookup insert
  lookup-insert k j v m = elim (Bool-cases (e.same k j)) [
    | inl here ↦ rw here refl
    | inr there ↦ rw there (lookup-remove k j m ∙ rw there refl)
  ]

  pub lookup-retain_keys :
      (p : K → Bool) (j : K) (m : List (K × V))
      → lookup j (retain_keys p m) ≡ (if p j then lookup j m else none)
  unfolding lookup retain_keys
  lookup-retain_keys p j [] = elim (Bool-cases (p j)) [ inl h ↦ rw h refl | inr h ↦ rw h refl ]
  lookup-retain_keys p j ((i, v) ∷ m) = elim (Bool-cases (e.same i j)) [
    | inl here ↦
        let at : p i ≡ p j = ap p ((e.same_iff i j).0 here) in
        elim (Bool-cases (p j)) [
          | inl keep ↦ rw (at, keep) (rw here refl)
          | inr drop ↦ rw (at, drop) (lookup-retain_keys p j m ∙ rw drop refl)
        ]
    | inr there ↦ elim (Bool-cases (p i)) [
      | inl keep ↦ rw keep (rw there (lookup-retain_keys p j m))
      | inr drop ↦ rw (drop, there) (lookup-retain_keys p j m)
    ]
  ]

  -- No key twice.
  abbrev pub Unique : List (K × V) → Type κ
  Unique [] = Unit
  Unique ((k, v) ∷ m) = (lookup k m ≡ none) × Unique m

  pub remove-Unique : (k : K) (m : List (K × V)) → Unique m → Unique (remove k m)
  unfolding remove
  remove-Unique k [] u = tt
  remove-Unique k ((j, v) ∷ m) u = elim (Bool-cases (e.same j k)) [
    | inl gone ↦ rw gone (remove-Unique k m u.1)
    | inr kept ↦ rw kept (lookup-remove k j m ∙ still_none (e.same k j) u.0, remove-Unique k m u.1)
  ]
    where
      still_none : (b : Bool) {o : Option V} → o ≡ none → (if b then none else o) ≡ none
      still_none true h = refl
      still_none false h = h

  pub insert-Unique : (k : K) (v : V) (m : List (K × V)) → Unique m → Unique (insert k v m)
  unfolding insert
  insert-Unique k v m u =
      let gone : lookup k (remove k m) ≡ none = lookup-remove k k m ∙ rw (same_refl k) refl in
      (gone, remove-Unique k m u)

module _ {ℓ κ μ} {K : Type ℓ} {V : Type κ} ⦃e : Key K⦄ (P : V → Type μ) where
  pub remove-All : (k : K) (m : List (K × V)) → All (λ x. P x.1) m → All (λ x. P x.1) (remove k m)
  unfolding remove
  remove-All k [] a = tt
  remove-All k ((j, v) ∷ m) a = elim (Bool-cases (e.same j k)) [
    | inl gone ↦ rw gone (remove-All k m a.1)
    | inr kept ↦ rw kept (a.0, remove-All k m a.1)
  ]

  pub lookup-All :
      (k : K) (m : List (K × V)) (v : V) → All (λ x. P x.1) m → lookup k m ≡ some v → P v
  unfolding lookup
  lookup-All k [] v a found = cc found
  lookup-All k ((j, w) ∷ m) v a found = elim (Bool-cases (e.same j k)) [
    | inl here ↦ subst P (opened (rw (here, lookup) at found)) a.0
    | inr there ↦ lookup-All k m v a.1 (rw (there, lookup) at found)
  ]
    where
      opened : {x y : V} → some x ≡ some y → x ≡ y
      opened h = cc h
