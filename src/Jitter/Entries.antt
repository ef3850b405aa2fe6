-- ===== src/Jitter/Entries.antt =====
-- `BTreeMap<u32, Vec<u8>>`: what client/src/audio/jitter.rs uses of it, on the list of its entries
-- in ascending order of their keys.
use tsod.Prelude.{
  ℕ, suc, ◌+◌, ◌≤◌, ◌<◌, ◌≡◌, refl, Bool, true, false, Option, none, some, List, [], ◌∷◌, arith,
  if◌then◌else◌, ltb, ◌==◌, length, Bytes,
}

abbrev pub SeqMap : Type 0
SeqMap = List (ℕ × Bytes)

abbrev pub is_empty : SeqMap → Bool
is_empty [] = true
is_empty (e ∷ m) = false

unfoldable pub lookup : ℕ → SeqMap → Option Bytes
lookup k [] = none
lookup k ((j, w) ∷ m) = if j == k then some w else lookup k m

unfoldable pub insert : ℕ → Bytes → SeqMap → SeqMap
insert k v [] = (k, v) ∷ []
insert k v ((j, w) ∷ m) =
    if ltb k j then (k, v) ∷ (j, w) ∷ m else if k == j then (k, v) ∷ m else (j, w) ∷ insert k v m

unfoldable pub remove : ℕ → SeqMap → SeqMap
remove k [] = []
remove k ((j, w) ∷ m) = if j == k then m else (j, w) ∷ remove k m

-- The key that `iter().next_back()` shows.
unfoldable pub last_key : SeqMap → Option ℕ
last_key [] = none
last_key ((j, w) ∷ m) = elim (last_key m) [ none ↦ some j | some k ↦ some k ]

-- The keys ascend, all at least `low` and below `high`.
abbrev pub Ascends : ℕ → ℕ → SeqMap → Type 0
Ascends low high [] = Unit {0}
Ascends low high ((j, w) ∷ m) = (low ≤ j) × (j < high) × Ascends (suc j) high m

pub Ascends-weaken :
    (low low' high : ℕ) (m : SeqMap) → low ≤ low' → Ascends low' high m → Ascends low high m
Ascends-weaken low low' high [] h a = tt
Ascends-weaken low low' high ((j, w) ∷ m) h a = (omega arith, a.1, a.2)

pub insert-Ascends :
    (low high k : ℕ) (v : Bytes) (m : SeqMap)
    → low ≤ k
    → k < high
    → Ascends low high m
    → Ascends low high (insert k v m)
unfolding insert
insert-Ascends low high k v [] h b a = ground arith
insert-Ascends low high k v ((j, w) ∷ m) h b a =
    ground (arith, insert-Ascends (suc j) high k v m, Ascends-weaken (suc k) (suc j) high m)

pub remove-Ascends :
    (low high k : ℕ) (m : SeqMap) → Ascends low high m → Ascends low high (remove k m)
unfolding remove
remove-Ascends low high k [] a = tt
remove-Ascends low high k ((j, w) ∷ m) a =
    ground (arith, remove-Ascends (suc j) high k m a.2, Ascends-weaken low (suc j) high m)

pub lookup_below : (low high k : ℕ) (m : SeqMap) → Ascends low high m → k < low → lookup k m ≡ none
unfolding lookup
lookup_below low high k [] a h = refl
lookup_below low high k ((j, w) ∷ m) a h = ground (arith, lookup_below (suc j) high k m a.2)

pub length-insert-le : (k : ℕ) (v : Bytes) (m : SeqMap) → length (insert k v m) ≤ length m + 1
unfolding insert
length-insert-le k v [] = omega arith
length-insert-le k v ((j, w) ∷ m) = ground (arith, length-insert-le k v m)

pub length-remove-le : (k : ℕ) (m : SeqMap) → length (remove k m) ≤ length m
unfolding remove
length-remove-le k [] = omega arith
length-remove-le k ((j, w) ∷ m) = ground (arith, length-remove-le k m)

pub last_key-none : (m : SeqMap) → last_key m ≡ none → m ≡ []
unfolding last_key
last_key-none [] e = refl
last_key-none ((j, w) ∷ m) e = absurd (ground arith)

-- The last key is there to be removed.
pub length-remove-last :
    (k : ℕ) (m : SeqMap) → last_key m ≡ some k → length (remove k m) + 1 ≡ length m
unfolding remove last_key
length-remove-last k [] e = cc
length-remove-last k ((j, w) ∷ m) e = ground (arith, length-remove-last k m, last_key-none m)
