-- ===== src/VideoTransport/Receiver/Filled.antt =====
-- The fragments of a slot, as the chunks of a frame of which some have been received.
use tsod.Prelude.{
  ℕ, zero, suc, ◌+◌, ◌<◌, ◌≡◌, refl, sym, ap, ◌∙◌, true, false, Option, none, some, List, [], ◌∷◌,
  map, arith, if◌then◌else◌, ◌==◌, length, get_or, replicate, contains, Bytes, Bool-cases, inl, inr,
}
use tsod.VideoTransport.Slot.Mask.{held, place, is_complete}
use tsod.VideoTransport.Receiver.{present}

-- The places from `k` on: a chunk where its number has been seen.
pub filled : ℕ → List ℕ → List Bytes → List (Option Bytes)
filled k seen [] = []
filled k seen (c ∷ cs) = (if contains seen k then some c else none) ∷ filled (suc k) seen cs

pub filled-nil : (k : ℕ) (cs : List Bytes) → filled k [] cs ≡ replicate (length cs) none
unfolding filled
filled-nil k [] = refl
filled-nil k (c ∷ cs) = ap (λ t. none ∷ t) (filled-nil (suc k) cs)

filled_below :
    (k x : ℕ) (seen : List ℕ) (cs : List Bytes) → x < k → filled k (x ∷ seen) cs ≡ filled k seen cs
unfolding filled
filled_below k x seen [] h = refl
filled_below k x seen (c ∷ cs) h =
    let other : (k == x) ≡ false = ground arith in
    rw other (
      ap (λ t. (if contains seen k then some c else none) ∷ t)
        (filled_below (suc k) x seen cs (omega arith)))

-- Putting a chunk to its place is having seen its number.
pub place-filled :
    (k i : ℕ) (seen : List ℕ) (cs : List Bytes)
    → i < length cs
    → place (filled k seen cs) i (get_or cs i []) ≡ filled k ((k + i) ∷ seen) cs
unfolding filled place
place-filled k i seen [] h = absurd (omega arith)
place-filled k zero seen (c ∷ cs) h =
    let here : (k == k + 0) ≡ true = ground arith in
    let below = filled_below (suc k) (k + 0) seen cs (omega arith) in
    elim (Bool-cases (contains seen k)) [
      | inl old ↦ rw (here, old) (ap (λ t. some c ∷ t) (sym below))
      | inr fresh ↦ rw (here, fresh) (ap (λ t. some c ∷ t) (sym below))
    ]
place-filled k (suc i) seen (c ∷ cs) h =
    let other : (k == k + suc i) ≡ false = ground arith in
    let shift : suc k + i ≡ k + suc i = omega arith in
    let rest =
      place-filled (suc k) i seen cs (omega arith) ∙ ap (λ x. filled (suc k) (x ∷ seen) cs) shift in
    elim (Bool-cases (contains seen k)) [
      | inl old ↦ rw (other, old) (ap (λ t. some c ∷ t) rest)
      | inr fresh ↦ rw (other, fresh) (ap (λ t. none ∷ t) rest)
    ]

pub held-filled :
    (k j : ℕ) (seen : List ℕ) (cs : List Bytes)
    → j < length cs
    → held (filled k seen cs) j ≡ (if contains seen (k + j) then 1 else 0)
unfolding filled held
held-filled k j seen [] h = absurd (omega arith)
held-filled k zero seen (c ∷ cs) h =
    let here : k + 0 ≡ k = omega arith in
    rw here (elim (Bool-cases (contains seen k)) [ inl e ↦ rw e refl | inr e ↦ rw e refl ])
held-filled k (suc j) seen (c ∷ cs) h =
    let shift : suc k + j ≡ k + suc j = omega arith in
    let rest =
      held-filled (suc k) j seen cs (omega arith)
      ∙ ap (λ x. if contains seen x then 1 else 0) shift in
    elim (Bool-cases (contains seen k)) [ inl e ↦ rw e rest | inr e ↦ rw e rest ]

-- A chunk is missing.
pub is_complete-filled_missing :
    (k j : ℕ) (seen : List ℕ) (cs : List Bytes)
    → j < length cs
    → contains seen (k + j) ≡ false
    → is_complete (filled k seen cs) ≡ false
unfolding filled is_complete
is_complete-filled_missing k j seen [] h e = absurd (omega arith)
is_complete-filled_missing k zero seen (c ∷ cs) h e =
    let here : k + 0 ≡ k = omega arith in
    let missing : contains seen k ≡ false = ap (contains seen) (sym here) ∙ e in rw missing refl
is_complete-filled_missing k (suc j) seen (c ∷ cs) h e =
    let shift : suc k + j ≡ k + suc j = omega arith in
    let rest =
      is_complete-filled_missing (suc k) j seen cs (omega arith) (ap (contains seen) shift ∙ e) in
    elim (Bool-cases (contains seen k)) [ inl old ↦ rw old rest | inr fresh ↦ rw fresh refl ]

-- Every chunk is there.
pub filled_all :
    (k : ℕ) (seen : List ℕ) (cs : List Bytes)
    → ((j : ℕ) → j < length cs → contains seen (k + j) ≡ true)
    → filled k seen cs ≡ map some cs
unfolding filled
filled_all k seen [] all = refl
filled_all k seen (c ∷ cs) all =
    let here : k + 0 ≡ k = omega arith in
    let first : contains seen k ≡ true = ap (contains seen) (sym here) ∙ all 0 (omega arith) in
    rw first (ap (λ t. some c ∷ t) (filled_all (suc k) seen cs (λ j h. later j h)))
  where
    later : (j : ℕ) → j < length cs → contains seen (suc k + j) ≡ true
    later j h =
        let shift : suc k + j ≡ k + suc j = omega arith in
        ap (contains seen) shift ∙ all (suc j) (omega arith)

pub is_complete-map-some : (cs : List Bytes) → is_complete (map some cs) ≡ true
unfolding is_complete
is_complete-map-some [] = refl
is_complete-map-some (c ∷ cs) = is_complete-map-some cs

pub present-map-some : (cs : List Bytes) → present (map some cs) ≡ cs
unfolding present
present-map-some [] = refl
present-map-some (c ∷ cs) = ap (λ t. c ∷ t) (present-map-some cs)
