-- ===== src/Prelude/Bits.antt =====
-- The binary digits of `&` and `|`, and of a single bit `1 << k`.
use Prim.Native.Nat.{
  ℕ, zero, suc, ◌+◌, ◌*◌, ◌/◌, ◌%◌, ◌^◌, ◌≤◌, min, max, digits, bit_and, bit_or, bit_and-bitwise,
  bit_or-bitwise,
}
use mathlib.Core.Path.{◌≡◌, refl, ap, sym, ◌∙◌}
use mathlib.Core.Logic.{◌↔◌}
use native.Mathlib.Omega.{arith}
use native.Mathlib.Nat.{pow-suc}
use tsod.Prelude.Tests.{if◌then◌else◌, ◌==◌}

-- The digit of `w` at place `k`.
pub bit : ℕ → ℕ → ℕ
bit zero w = w % 2
bit (suc k) w = bit k (w / 2)

bit-le : (k w : ℕ) → bit k w ≤ 1
unfolding bit
bit-le zero w = omega arith
bit-le (suc k) w = bit-le k (w / 2)

pub bit-zero : (k : ℕ) → bit k 0 ≡ 0
unfolding bit
bit-zero zero = refl
bit-zero (suc k) = bit-zero k

-- Digit by digit, for an operation on digits that `rest` continues where `a` has none left.
module _ (rest : ℕ → ℕ) (f : ℕ → ℕ → ℕ) (continues : (k b : ℕ) → bit k (rest b) ≡ f 0 (bit k b))
    (on_digits : (x y : ℕ) → x ≤ 1 → y ≤ 1 → f x y ≤ 1) where
  bit-digits : (n k a b : ℕ) → a ≤ n → bit k (digits rest f n a b) ≡ f (bit k a) (bit k b)
  unfolding bit
  bit-digits zero k zero b h = continues k b ∙ ap (λ x. f x (bit k b)) (sym (bit-zero k))
  bit-digits zero k (suc a) b h = absurd (omega arith)
  bit-digits (suc n) k zero b h = continues k b ∙ ap (λ x. f x (bit k b)) (sym (bit-zero k))
  bit-digits (suc n) zero (suc a) b h =
      omega (arith, on_digits (suc a % 2) (b % 2) (omega arith) (omega arith))
  bit-digits (suc n) (suc k) (suc a) b h =
      let low = on_digits (suc a % 2) (b % 2) (omega arith) (omega arith) in
      let high : (digits rest f n (suc a / 2) (b / 2) * 2 + f (suc a % 2) (b % 2)) / 2
          ≡ digits rest f n (suc a / 2) (b / 2) =
        omega (arith, low) in
      ap (bit k) high ∙ bit-digits n k (suc a / 2) (b / 2) (omega arith)

pub bit-bit_and : (k a b : ℕ) → bit k (bit_and a b) ≡ min (bit k a) (bit k b)
bit-bit_and k a b =
    ap (bit k) (bit_and-bitwise a b)
    ∙ bit-digits (λ b. 0) min (λ k b. bit-zero k ∙ omega arith) (λ x y h l. omega arith) a k a b
        (omega arith)

pub bit-bit_or : (k a b : ℕ) → bit k (bit_or a b) ≡ max (bit k a) (bit k b)
bit-bit_or k a b =
    ap (bit k) (bit_or-bitwise a b)
    ∙ bit-digits (λ b. b) max (λ k b. omega arith) (λ x y h l. omega arith) a k a b (omega arith)

bit-one : (j : ℕ) → bit (suc j) 1 ≡ 0
unfolding bit
bit-one j = bit-zero j

pub bit-pow : (j k : ℕ) → bit j (2 ^ k) ≡ (if j == k then 1 else 0)
unfolding bit
bit-pow zero zero = refl
bit-pow (suc j) zero = bit-one j ∙ ground arith
bit-pow zero (suc k) = ground (arith, pow-suc 2 k)
bit-pow (suc j) (suc k) =
    let half : 2 ^ suc k / 2 ≡ 2 ^ k = omega (arith, pow-suc 2 k) in
    ap (bit j) half ∙ bit-pow j k ∙ ground arith

eq_zero_of_bits_fuel : (n w : ℕ) → w ≤ n → ((k : ℕ) → bit k w ≡ 0) → w ≡ 0
unfolding bit
eq_zero_of_bits_fuel zero w h z = omega arith
eq_zero_of_bits_fuel (suc n) zero h z = refl
eq_zero_of_bits_fuel (suc n) (suc w) h z =
    omega (arith, z 0, eq_zero_of_bits_fuel n (suc w / 2) (omega arith) (λ k. z (suc k)))

-- Testing a bit by a mask reads that digit.
pub bit_and-pow_eq_zero : (w k : ℕ) → (bit_and w (2 ^ k) ≡ 0) ↔ (bit k w ≡ 0)
bit_and-pow_eq_zero w k = (clear, zero_mask)
  where
    clear : bit_and w (2 ^ k) ≡ 0 → bit k w ≡ 0
    clear e =
        ground (arith, bit-bit_and k w (2 ^ k), bit-pow k k, ap (bit k) e, bit-zero k, bit-le k w)

    zero_mask : bit k w ≡ 0 → bit_and w (2 ^ k) ≡ 0
    zero_mask e =
        eq_zero_of_bits_fuel (bit_and w (2 ^ k)) (bit_and w (2 ^ k)) (omega arith)
          (λ j. ground (arith, e, bit-bit_and j w (2 ^ k), bit-pow j k))

-- Setting a bit changes that digit only.
pub bit-bit_or-pow : (j w k : ℕ) → bit j (bit_or w (2 ^ k)) ≡ (if j == k then 1 else bit j w)
bit-bit_or-pow j w k = ground (arith, bit-bit_or j w (2 ^ k), bit-pow j k, bit-le j w)

-- Numbers with the same digits are the same.
eq_of_bits_fuel : (n a b : ℕ) → a ≤ n → b ≤ n → ((k : ℕ) → bit k a ≡ bit k b) → a ≡ b
unfolding bit
eq_of_bits_fuel zero a b h l e = omega (arith, h, l)
eq_of_bits_fuel (suc n) a b h l e = omega (
  arith,
  e 0,
  eq_of_bits_fuel n (a / 2) (b / 2) (omega (arith, h)) (omega (arith, l)) (λ k. e (suc k)),
)

double_pow : (b k : ℕ) → b * 2 ^ suc k ≡ 2 * (b * 2 ^ k)
double_pow b k = ap (λ p. b * p) (pow-suc 2 k) ∙ omega arith

bit-add : (k j a b : ℕ) → suc a ≤ 2 ^ k → bit j (a + b * 2 ^ k) ≡ max (bit j a) (bit j (b * 2 ^ k))
unfolding bit
bit-add zero j a b h =
    let none_left : a ≡ 0 = omega (arith, h) in rw none_left (ground (arith, bit-zero j))
bit-add (suc k) zero a b h = let double = double_pow b k in omega (arith, double)
bit-add (suc k) (suc j) a b h =
    let double = double_pow b k in
    let half : b * 2 ^ suc k / 2 ≡ b * 2 ^ k = omega (arith, double) in
    let both : (a + b * 2 ^ suc k) / 2 ≡ a / 2 + b * 2 ^ k = omega (arith, double) in
    ap (bit j) both
    ∙ bit-add k j (a / 2) b (omega (arith, h, pow-suc 2 k))
    ∙ ap (λ w. max (bit j (a / 2)) (bit j w)) (sym half)

-- `|` of a number and one that is shifted above it is their sum.
pub bit_or-shifted : (k a b : ℕ) → suc a ≤ 2 ^ k → bit_or a (b * 2 ^ k) ≡ a + b * 2 ^ k
bit_or-shifted k a b h =
    let l = bit_or a (b * 2 ^ k) in
    eq_of_bits_fuel (l + (a + b * 2 ^ k)) l (a + b * 2 ^ k) (omega arith) (omega arith)
      (λ j. bit-bit_or j a (b * 2 ^ k) ∙ sym (bit-add k j a b h))
