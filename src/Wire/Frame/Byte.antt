-- ===== src/Wire/Frame/Byte.antt =====
-- What the masks do to a byte, by inspection of all 256.
use Prim.Native.Nat.{bit_and, bit_or}
use tsod.Prelude.{
  ℕ, zero, suc, ◌+◌, ◌%◌, ◌<◌, ◌≡◌, refl, Bool, true, ◌&&◌, arith, if◌then◌else◌, ltb, ◌==◌, ==_iff,
  Bool-cases, inl, inr,
}

-- The test holds below the bound.
all_below : (ℕ → Bool) → ℕ → Bool
all_below test zero = true
all_below test (suc n) = test n && all_below test n

all_below-true : (test : ℕ → Bool) (n c : ℕ) → all_below test n ≡ true → c < n → test c ≡ true
unfolding all_below
all_below-true test zero c all below = absurd (omega (arith, below))
all_below-true test (suc n) c all below = elim (Bool-cases (c == n)) [
  | inl here ↦
      let at = (==_iff c n).0 here in let last : test n ≡ true = ground (arith, all) in rw at last
  | inr there ↦
      let others : all_below test n ≡ true = ground (arith, all) in
      all_below-true test n c others (ground (arith, there, below))
]

abbrev is_masked : ℕ → Bool
is_masked c =
    (bit_and c 127 == c % 128)
    && ((if bit_and c 128 == 0 then ltb c 128 else ltb 127 c) && (bit_or c 128 == c % 128 + 128))

all_masked : all_below is_masked 256 ≡ true
unfolding all_below
all_masked = refl

masked : (c : ℕ) → c < 256 → is_masked c ≡ true
masked c below = all_below-true is_masked 256 c all_masked below

pub bit_and-low : (c : ℕ) → c < 256 → bit_and c 127 ≡ c % 128
bit_and-low c below =
    let m = masked c below in (==_iff (bit_and c 127) (c % 128)).0 (ground (arith, m))

pub bit_or-high : (c : ℕ) → c < 256 → bit_or c 128 ≡ c % 128 + 128
bit_or-high c below =
    let m = masked c below in (==_iff (bit_or c 128) (c % 128 + 128)).0 (ground (arith, m))

pub bit_and-high : (c : ℕ) → c < 256 → (bit_and c 128 == 0) ≡ ltb c 128
bit_and-high c below = let m = masked c below in ground (arith, m)
