-- ===== src/Prelude/Encoding.antt =====
-- Bytes as numbers below 256, and the fixed-width integers of a wire format. `to_le n v` and
-- `to_be n v` are the `n` bytes that `put_uN_le` and `put_uN` append for `v`, and `from_le` and
-- `from_be` the number that `from_le_bytes` and `from_be_bytes` read.
use Prim.Native.Nat.{ℕ, zero, suc, ◌+◌, ◌*◌, ◌/◌, ◌%◌, ◌^◌, ◌≤◌, ◌<◌}
use mathlib.Core.Path.{◌≡◌, refl, ap, ◌∙◌}
use mathlib.Core.List.{List, [], ◌∷◌, ◌++◌}
use native.Mathlib.Omega.{arith}
use tsod.Prelude.Lists.{length, length-append, get_or, drop, All}

abbrev pub Bytes : Type 0
Bytes = List ℕ

abbrev pub IsByte : ℕ → Type 0
IsByte b = b < 256

abbrev pub to_le : ℕ → ℕ → Bytes
to_le zero v = []
to_le (suc n) v = v % 256 ∷ to_le n (v / 256)

abbrev pub from_le : Bytes → ℕ
from_le [] = 0
from_le (b ∷ bs) = b + 256 * from_le bs

abbrev pub to_be : ℕ → ℕ → Bytes
to_be zero v = []
to_be (suc n) v = to_be n (v / 256) ++ (v % 256 ∷ [])

-- The bytes read so far are worth `acc`.
abbrev pub from_be_acc : ℕ → Bytes → ℕ
from_be_acc acc [] = acc
from_be_acc acc (b ∷ bs) = from_be_acc (acc * 256 + b) bs

abbrev pub from_be : Bytes → ℕ
from_be bs = from_be_acc 0 bs

pub from_le-to_le_2 : (v : ℕ) → v < 2 ^ 16 → from_le (to_le 2 v) ≡ v
from_le-to_le_2 v h = omega arith

pub from_le-to_le_4 : (v : ℕ) → v < 2 ^ 32 → from_le (to_le 4 v) ≡ v
from_le-to_le_4 v h = omega arith

pub from_le-to_le_8 : (v : ℕ) → v < 2 ^ 64 → from_le (to_le 8 v) ≡ v
from_le-to_le_8 v h = omega arith

pub from_be-to_be_2 : (v : ℕ) → v < 2 ^ 16 → from_be (to_be 2 v) ≡ v
from_be-to_be_2 v h = omega arith

pub from_be-to_be_4 : (v : ℕ) → v < 2 ^ 32 → from_be (to_be 4 v) ≡ v
from_be-to_be_4 v h = omega arith

pub length-to_le : (n v : ℕ) → length (to_le n v) ≡ n
length-to_le zero v = refl
length-to_le (suc n) v = omega (arith, length-to_le n (v / 256))

pub length-to_be : (n v : ℕ) → length (to_be n v) ≡ n
length-to_be zero v = refl
length-to_be (suc n) v =
    omega (arith, length-append (to_be n (v / 256)) (v % 256 ∷ []), length-to_be n (v / 256))

-- Bytes that are read as a number and written again are the same bytes.
pub to_le-from_le : (bs : Bytes) → All IsByte bs → to_le (length bs) (from_le bs) ≡ bs
to_le-from_le [] h = refl
to_le-from_le (b ∷ bs) h =
    let low : (b + 256 * from_le bs) % 256 ≡ b = omega (arith, h.0) in
    let high : (b + 256 * from_le bs) / 256 ≡ from_le bs = omega (arith, h.0) in
    rw (low, high) (ap (λ t. b ∷ t) (to_le-from_le bs h.1))

-- The bytes `buf[i .. i + n)`.
abbrev pub cells : ℕ → ℕ → Bytes → Bytes
cells i zero buf = []
cells i (suc n) buf = get_or buf i 0 ∷ cells (i + 1) n buf

drop-eq-cons :
    (i : ℕ) (buf : Bytes) → i < length buf → drop i buf ≡ get_or buf i 0 ∷ drop (suc i) buf
drop-eq-cons zero [] h = absurd (omega arith)
drop-eq-cons zero (x ∷ xs) h = refl
drop-eq-cons (suc i) [] h = absurd (omega arith)
drop-eq-cons (suc i) (x ∷ xs) h = drop-eq-cons i xs (omega arith)

pub drop-eq-cells :
    (n i : ℕ) (buf : Bytes) → i + n ≤ length buf → drop i buf ≡ cells i n buf ++ drop (i + n) buf
drop-eq-cells zero i buf h = ap (λ k. drop k buf) (omega arith)
drop-eq-cells (suc n) i buf h =
    drop-eq-cons i buf (omega arith)
    ∙ ap (λ t. get_or buf i 0 ∷ t)
        (ap (λ k. drop k buf) next ∙ drop-eq-cells n (i + 1) buf (omega arith))
    ∙ ap (λ k. get_or buf i 0 ∷ (cells (i + 1) n buf ++ drop k buf)) all
  where
    next : suc i ≡ i + 1
    next = omega arith

    all : i + 1 + n ≡ i + suc n
    all = omega arith

pub All-get_or : (buf : Bytes) (i : ℕ) → All IsByte buf → get_or buf i 0 < 256
All-get_or [] i h = omega arith
All-get_or (x ∷ xs) zero h = h.0
All-get_or (x ∷ xs) (suc i) h = All-get_or xs i h.1
