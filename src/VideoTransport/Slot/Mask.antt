-- ===== src/VideoTransport/Slot/Mask.antt =====
-- The received mask as a set of fragment numbers, and the fragments as a list where the first write
-- to a place stays.
use Prim.Native.Nat.{bit_or}
use tsod.Prelude.Bits.{bit, bit-zero, bit-bit_or-pow}
use tsod.Prelude.{
  ℕ, zero, suc, ◌+◌, ◌/◌, ◌%◌, ◌^◌, ◌≤◌, ◌<◌, ◌≡◌, refl, ap, ◌∙◌, Bool, true, false, Option, none,
  some, List, [], ◌∷◌, arith, if◌then◌else◌, ◌==◌, length, get_or, set, replicate, Bytes,
  Bool-cases, inl, inr,
}

pub length-set {ℓ} : {A : Type ℓ} (xs : List A) (i : ℕ) (v : A) → length (set xs i v) ≡ length xs
length-set [] i v = refl
length-set (x ∷ xs) zero v = refl
length-set (x ∷ xs) (suc i) v = omega (arith, length-set xs i v)

pub length-replicate {ℓ} : {A : Type ℓ} (n : ℕ) (a : A) → length (replicate n a) ≡ n
length-replicate zero a = refl
length-replicate (suc n) a = omega (arith, length-replicate n a)

get_or-set :
    (xs : List ℕ) (i j v : ℕ)
    → i < length xs
    → get_or (set xs i v) j 0 ≡ (if i == j then v else get_or xs j 0)
get_or-set [] i j v h = absurd (omega arith)
get_or-set (x ∷ xs) zero zero v h = refl
get_or-set (x ∷ xs) zero (suc j) v h = ground arith
get_or-set (x ∷ xs) (suc i) zero v h = ground arith
get_or-set (x ∷ xs) (suc i) (suc j) v h = get_or-set xs i j v (omega arith) ∙ ground arith

get_or-replicate : (n j : ℕ) → get_or {A = ℕ} (replicate n 0) j 0 ≡ 0
get_or-replicate zero j = refl
get_or-replicate (suc n) zero = refl
get_or-replicate (suc n) (suc j) = get_or-replicate n j

-- The digit of the mask for fragment `i`.
unfoldable pub mask_bit : List ℕ → ℕ → ℕ
mask_bit mask i = bit (i % 64) (get_or mask (i / 64) 0)

pub mask_bit-replicate : (n i : ℕ) → mask_bit (replicate n 0) i ≡ 0
unfolding mask_bit
mask_bit-replicate n i = ap (bit (i % 64)) (get_or-replicate n (i / 64)) ∙ bit-zero (i % 64)

pub mask_bit-set :
    (mask : List ℕ) (k i : ℕ)
    → k / 64 < length mask
    → mask_bit (set mask (k / 64) (bit_or (get_or mask (k / 64) 0) (2 ^ (k % 64)))) i
      ≡ (if i == k then 1 else mask_bit mask i)
unfolding mask_bit
mask_bit-set mask k i h =
    rw (get_or-set mask (k / 64) (i / 64) (bit_or (get_or mask (k / 64) 0) (2 ^ (k % 64))) h)
      (elim (Bool-cases (k / 64 == i / 64)) [
        | inl same ↦
            let word : k / 64 ≡ i / 64 = ground arith in
            rw same
              (bit-bit_or-pow (i % 64) (get_or mask (k / 64) 0) (k % 64) ∙ rw word (ground arith))
        | inr other ↦ rw other (ground arith)
      ])

-- 1 where place `i` holds a fragment.
unfoldable pub held : List (Option Bytes) → ℕ → ℕ
held [] i = 0
held (none ∷ xs) zero = 0
held (some p ∷ xs) zero = 1
held (x ∷ xs) (suc i) = held xs i

unfoldable pub held_count : List (Option Bytes) → ℕ
held_count [] = 0
held_count (none ∷ xs) = held_count xs
held_count (some p ∷ xs) = suc (held_count xs)

-- The first write to a place stays.
unfoldable pub place : List (Option Bytes) → ℕ → Bytes → List (Option Bytes)
place [] i p = []
place (none ∷ xs) zero p = some p ∷ xs
place (some q ∷ xs) zero p = some q ∷ xs
place (x ∷ xs) (suc i) p = x ∷ place xs i p

unfoldable pub is_complete : List (Option Bytes) → Bool
is_complete [] = true
is_complete (none ∷ xs) = false
is_complete (some p ∷ xs) = is_complete xs

pub held-replicate : (n i : ℕ) → held (replicate n none) i ≡ 0
unfolding held
held-replicate zero i = refl
held-replicate (suc n) zero = refl
held-replicate (suc n) (suc i) = held-replicate n i

pub held_count-replicate : (n : ℕ) → held_count (replicate n none) ≡ 0
unfolding held_count
held_count-replicate zero = refl
held_count-replicate (suc n) = held_count-replicate n

pub place-eq-set :
    (xs : List (Option Bytes)) (i : ℕ) (p : Bytes)
    → held xs i ≡ 0
    → place xs i p ≡ set xs i (some p)
unfolding held place
place-eq-set [] i p h = refl
place-eq-set (none ∷ xs) zero p h = refl
place-eq-set (some q ∷ xs) zero p h = absurd (omega arith)
place-eq-set (none ∷ xs) (suc i) p h = ap (λ t. none ∷ t) (place-eq-set xs i p h)
place-eq-set (some q ∷ xs) (suc i) p h = ap (λ t. some q ∷ t) (place-eq-set xs i p h)

pub place-eq_self :
    (xs : List (Option Bytes)) (i : ℕ) (p : Bytes) → 1 ≤ held xs i → place xs i p ≡ xs
unfolding held place
place-eq_self [] i p h = refl
place-eq_self (none ∷ xs) zero p h = absurd (omega arith)
place-eq_self (some q ∷ xs) zero p h = refl
place-eq_self (none ∷ xs) (suc i) p h = ap (λ t. none ∷ t) (place-eq_self xs i p h)
place-eq_self (some q ∷ xs) (suc i) p h = ap (λ t. some q ∷ t) (place-eq_self xs i p h)

pub place_outside :
    (xs : List (Option Bytes)) (i : ℕ) (p : Bytes) → length xs ≤ i → place xs i p ≡ xs
unfolding place
place_outside [] i p h = refl
place_outside (none ∷ xs) zero p h = absurd (omega arith)
place_outside (some q ∷ xs) zero p h = absurd (omega arith)
place_outside (none ∷ xs) (suc i) p h = ap (λ t. none ∷ t) (place_outside xs i p (omega arith))
place_outside (some q ∷ xs) (suc i) p h = ap (λ t. some q ∷ t) (place_outside xs i p (omega arith))

pub held-place :
    (xs : List (Option Bytes)) (i j : ℕ) (p : Bytes)
    → i < length xs
    → held (place xs i p) j ≡ (if j == i then 1 else held xs j)
unfolding held place
held-place [] i j p h = absurd (omega arith)
held-place (none ∷ xs) zero zero p h = refl
held-place (some q ∷ xs) zero zero p h = refl
held-place (none ∷ xs) zero (suc j) p h = ground arith
held-place (some q ∷ xs) zero (suc j) p h = ground arith
held-place (none ∷ xs) (suc i) zero p h = ground arith
held-place (some q ∷ xs) (suc i) zero p h = ground arith
held-place (none ∷ xs) (suc i) (suc j) p h = held-place xs i j p (omega arith) ∙ ground arith
held-place (some q ∷ xs) (suc i) (suc j) p h = held-place xs i j p (omega arith) ∙ ground arith

pub held_count-place :
    (xs : List (Option Bytes)) (i : ℕ) (p : Bytes)
    → i < length xs
    → held_count (place xs i p) + held xs i ≡ suc (held_count xs)
unfolding held held_count place
held_count-place [] i p h = absurd (omega arith)
held_count-place (none ∷ xs) zero p h = omega arith
held_count-place (some q ∷ xs) zero p h = omega arith
held_count-place (none ∷ xs) (suc i) p h = held_count-place xs i p (omega arith)
held_count-place (some q ∷ xs) (suc i) p h = omega (arith, held_count-place xs i p (omega arith))

pub held_count-le : (xs : List (Option Bytes)) → held_count xs ≤ length xs
unfolding held_count
held_count-le [] = omega arith
held_count-le (none ∷ xs) = omega (arith, held_count-le xs)
held_count-le (some p ∷ xs) = omega (arith, held_count-le xs)

-- All fragments have come exactly where as many are held as there are places.
pub is_complete-eq : (xs : List (Option Bytes)) → is_complete xs ≡ (held_count xs == length xs)
unfolding held_count is_complete
is_complete-eq [] = refl
is_complete-eq (none ∷ xs) = ground (arith, held_count-le xs)
is_complete-eq (some p ∷ xs) = is_complete-eq xs ∙ ground arith
