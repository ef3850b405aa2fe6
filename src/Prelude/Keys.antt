-- ===== src/Prelude/Keys.antt =====
-- Lists of keys with no key twice, and the weight of a map's entries.
use Prim.Native.Nat.{ℕ, ◌+◌}
use mathlib.Core.Path.{◌≡◌, refl, ap, sym, ◌∙◌}
use mathlib.Core.Logic.{inl, inr}
use mathlib.Core.Bool.{Bool, true, false, not, ◌||◌}
use mathlib.Core.List.{List, [], ◌∷◌, ◌++◌}
use mathlib.Core.Option.{Option, none, some}
use native.Mathlib.Omega.{arith}
use tsod.Prelude.Lists.{length, retain}
use tsod.Prelude.Tests.{if◌then◌else◌, Bool-cases}
use tsod.Prelude.Maps.{Key, lookup, insert, remove, lookup-insert, lookup-remove, Unique}

abbrev pub present {ℓ} : {A : Type ℓ} → Option A → Bool
present none = false
present (some a) = true

abbrev pub weight_of {ℓ} : {A : Type ℓ} → (A → ℕ) → Option A → ℕ
weight_of w none = 0
weight_of w (some a) = w a

module _ {ℓ κ} {K : Type ℓ} {V : Type κ} ⦃e : Key K⦄ where
  -- The sum over the entries.
  unfoldable pub weight : (V → ℕ) → List (K × V) → ℕ
  weight w [] = 0
  weight w ((k, v) ∷ m) = w v + weight w m

  pub present-insert :
      (k j : K) (v : V) (m : List (K × V))
      → present (lookup j (insert k v m)) ≡ (e.same k j || present (lookup j m))
  present-insert k j v m = elim (Bool-cases (e.same k j)) [
    | inl here ↦ rw (lookup-insert k j v m, here) refl
    | inr there ↦ rw (lookup-insert k j v m, there) refl
  ]

  pub present-remove :
      (k j : K) (m : List (K × V))
      → present (lookup j (remove k m)) ≡ (if e.same k j then false else present (lookup j m))
  present-remove k j m = elim (Bool-cases (e.same k j)) [
    | inl here ↦ rw (lookup-remove k j m, here) refl
    | inr there ↦ rw (lookup-remove k j m, there) refl
  ]

  remove_absent : (k : K) (m : List (K × V)) → lookup k m ≡ none → remove k m ≡ m
  unfolding lookup remove
  remove_absent k [] absent = refl
  remove_absent k ((j, v) ∷ m) absent = elim (Bool-cases (e.same j k)) [
    | inl here ↦
        let found : lookup k ((j, v) ∷ m) ≡ some v = rw (here, lookup) refl in cc (found, absent)
    | inr there ↦ rw there (ap (◌∷◌ (j, v)) (remove_absent k m (rw (there, lookup) at absent)))
  ]

  pub weight-remove :
      (w : V → ℕ) (k : K) (m : List (K × V))
      → Unique m
      → weight w (remove k m) + weight_of w (lookup k m) ≡ weight w m
  unfolding weight remove lookup
  weight-remove w k [] u = refl
  weight-remove w k ((j, v) ∷ m) u = elim (Bool-cases (e.same j k)) [
    | inl here ↦
        let at : j ≡ k = (e.same_iff j k).0 here in
        let gone : remove k m ≡ m = remove_absent k m (ap (λ i. lookup i m) (sym at) ∙ u.0) in
        rw here (rw gone (omega arith))
    | inr there ↦ rw there (let ih = weight-remove w k m u.1 in omega (arith, ih))
  ]

  length-weight : (m : List (K × V)) → length m ≡ weight (λ v. 1) m
  unfolding weight
  length-weight [] = refl
  length-weight (x ∷ m) = omega (arith, length-weight m)

  pub length-remove :
      (k : K) (m : List (K × V))
      → Unique m
      → length (remove k m) + weight_of (λ v. 1) (lookup k m) ≡ length m
  length-remove k m u =
      omega (arith, length-weight m, length-weight (remove k m), weight-remove (λ v. 1) k m u)

module _ {ℓ} {K : Type ℓ} ⦃e : Key K⦄ where
  unfoldable pub member : K → List K → Bool
  member k [] = false
  member k (j ∷ ks) = e.same j k || member k ks

  -- `retain(|j| *j != k)`
  unfoldable pub without : K → List K → List K
  without k ks = retain (λ j. not (e.same j k)) ks

  abbrev pub Distinct : List K → Type 0
  Distinct [] = Unit
  Distinct (k ∷ ks) = (member k ks ≡ false) × Distinct ks

  same-same : (i j k : K) → e.same i j ≡ true → e.same i k ≡ e.same j k
  same-same i j k h = ap (λ x. e.same x k) ((e.same_iff i j).0 h)

  pub member-without :
      (k j : K) (ks : List K)
      → member j (without k ks) ≡ (if e.same k j then false else member j ks)
  unfolding member without
  member-without k j [] = elim (Bool-cases (e.same k j)) [ inl h ↦ rw h refl | inr h ↦ rw h refl ]
  member-without k j (i ∷ ks) = elim (Bool-cases (e.same i k)) [
    | inl gone ↦
        rw (gone, same-same i k j gone) (member-without k j ks ∙ skip (e.same k j) (member j ks))
    | inr kept ↦ elim (Bool-cases (e.same i j)) [
      | inl here ↦
          let apart : e.same k j ≡ false = elim (Bool-cases (e.same k j)) [
            | inl both ↦
                let ik : e.same i k ≡ true =
                  (e.same_iff i k).1 ((e.same_iff i j).0 here ∙ sym ((e.same_iff k j).0 both)) in
                cc (ik, kept)
            | inr apart ↦ apart
          ] in
          rw kept (rw (here, apart) refl)
      | inr there ↦ rw kept (rw there (member-without k j ks))
    ]
  ]
    where
      skip : (b c : Bool) → (if b then false else c) ≡ (if b then false else (b || c))
      skip true c = refl
      skip false c = refl

  pub without-Distinct : (k : K) (ks : List K) → Distinct ks → Distinct (without k ks)
  unfolding without
  without-Distinct k [] d = tt
  without-Distinct k (j ∷ ks) d = elim (Bool-cases (e.same j k)) [
    | inl gone ↦ rw gone (without-Distinct k ks d.1)
    | inr kept ↦
        let absent : member j (without k ks) ≡ false =
          member-without k j ks ∙ rw d.0 (both (e.same k j)) in
        rw kept (absent, without-Distinct k ks d.1)
  ]
    where
      both : (b : Bool) → (if b then false else false) ≡ false
      both true = refl
      both false = refl

  pub without_absent : (k : K) (ks : List K) → member k ks ≡ false → without k ks ≡ ks
  unfolding without member
  without_absent k [] absent = refl
  without_absent k (j ∷ ks) absent =
      let apart : e.same j k ≡ false = ground (arith, absent) in
      let later : member k ks ≡ false = ground (arith, absent) in
      rw apart (ap (◌∷◌ j) (without_absent k ks later))

  pub length-without :
      (k : K) (ks : List K)
      → Distinct ks
      → length (without k ks) + (if member k ks then 1 else 0) ≡ length ks
  unfolding without member
  length-without k [] d = refl
  length-without k (j ∷ ks) d = elim (Bool-cases (e.same j k)) [
    | inl gone ↦
        let at : j ≡ k = (e.same_iff j k).0 gone in
        let rest : without k ks ≡ ks = without_absent k ks (ap (λ i. member i ks) (sym at) ∙ d.0) in
        rw gone (rw rest (omega arith))
    | inr kept ↦ rw kept (let ih = length-without k ks d.1 in omega (arith, ih))
  ]

  pub member-append : (k : K) (a b : List K) → member k (a ++ b) ≡ (member k a || member k b)
  unfolding member
  member-append k [] b = refl
  member-append k (j ∷ a) b = ground (arith, member-append k a b)

  pub snoc-Distinct :
      (k : K) (ks : List K) → member k ks ≡ false → Distinct ks → Distinct (ks ++ (k ∷ []))
  unfolding member
  snoc-Distinct k [] absent d = (refl, tt)
  snoc-Distinct k (j ∷ ks) absent d =
      let apart : e.same j k ≡ false = ground (arith, absent) in
      let later : member k ks ≡ false = ground (arith, absent) in
      let other : e.same k j ≡ false = elim (Bool-cases (e.same k j)) [
        | inl both ↦
            let jk : e.same j k ≡ true = (e.same_iff j k).1 (sym ((e.same_iff k j).0 both)) in
            cc (jk, apart)
        | inr other ↦ other
      ] in
      let fresh : member j (ks ++ (k ∷ [])) ≡ false =
        member-append j ks (k ∷ []) ∙ rw (d.0, other) refl in
      (fresh, snoc-Distinct k ks later d.1)
