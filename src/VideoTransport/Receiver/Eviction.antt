-- ===== src/VideoTransport/Receiver/Eviction.antt =====
-- What eviction and the search for a slot leave of a receiver's slots.
use tsod.Prelude.{
  ℕ, ◌-◌, ◌<◌, ◌≡◌, refl, ◌∙◌, true, false, none, some, List, [], ◌∷◌, ◌++◌, arith, ltb, leb,
  length, All, Bool-cases, inl, inr,
}
use tsod.VideoTransport.Slot.{ReassemblyKey, FrameSlot, key_eq}
use tsod.VideoTransport.Receiver.{
  VideoReceiver, IncompleteFrameEvictionReason, capacity, timeout, evict, evict_stale, find_slot,
  evict_for_room,
}

pub key_eq_refl : (key : ReassemblyKey) → key_eq key key ≡ true
key_eq_refl key = ground arith

-- No slot is for the frame of `key`.
abbrev pub Lacks : ReassemblyKey → List FrameSlot → Type 0
Lacks key slots = All (λ s. key_eq s.key key ≡ false) slots

pub find_slot-Lacks :
    (key : ReassemblyKey) (slots : List FrameSlot) → Lacks key slots → find_slot key slots ≡ none
unfolding find_slot
find_slot-Lacks key [] h = refl
find_slot-Lacks key (s ∷ rest) h = ground (arith, h.0, find_slot-Lacks key rest h.1)

pub find_slot_last :
    (key : ReassemblyKey) (before : List FrameSlot) (slot : FrameSlot)
    → Lacks key before
    → slot.key ≡ key
    → find_slot key (before ++ (slot ∷ [])) ≡ some (before, slot, [])
unfolding find_slot
find_slot_last key [] slot h e = rw (e, key_eq_refl key) refl
find_slot_last key (s ∷ rest) slot h e = ground (arith, h.0, find_slot_last key rest slot h.1 e)

-- The settings of a receiver, which nothing changes.
pub record SameSettings (r r' : VideoReceiver) : Type 0 where
  pub max_slots : r'.max_slots ≡ r.max_slots
  pub max_frags : r'.max_frags_per_frame ≡ r.max_frags_per_frame
  pub timeout : r'.incomplete_frame_timeout ≡ r.incomplete_frame_timeout

pub SameSettings-trans :
    {a b c : VideoReceiver} → SameSettings a b → SameSettings b c → SameSettings a c
SameSettings-trans p q = record {
  max_slots = q.max_slots ∙ p.max_slots;
  max_frags = q.max_frags ∙ p.max_frags;
  timeout = q.timeout ∙ p.timeout;
}

pub evict-SameSettings :
    (r : VideoReceiver) (s : FrameSlot) (reason : IncompleteFrameEvictionReason) (now : ℕ)
    → SameSettings r (evict r s reason now)
unfolding evict
evict-SameSettings r s reason now = record { max_slots = refl; max_frags = refl; timeout = refl }

pub evict_stale-SameSettings :
    (r : VideoReceiver) (slots : List FrameSlot) (now : ℕ)
    → SameSettings r (evict_stale r slots now)
unfolding evict_stale
evict_stale-SameSettings r [] now = record { max_slots = refl; max_frags = refl; timeout = refl }
evict_stale-SameSettings r (oldest ∷ rest) now =
    elim (Bool-cases (ltb (now - oldest.last_updated_at) r.incomplete_frame_timeout)) [
      | inl fresh ↦ rw fresh (record { max_slots = refl; max_frags = refl; timeout = refl })
      | inr stale ↦ rw stale (
          SameSettings-trans (evict-SameSettings r oldest timeout now)
            (evict_stale-SameSettings (evict r oldest timeout now) rest now))
    ]

-- What holds of every slot, holds of those that the timeouts leave.
pub evict_stale-All :
    (P : FrameSlot → Type 0) (r : VideoReceiver) (slots : List FrameSlot) (now : ℕ)
    → All P slots
    → All P (evict_stale r slots now).slots
unfolding evict_stale
evict_stale-All P r [] now h = tt
evict_stale-All P r (oldest ∷ rest) now h =
    elim (Bool-cases (ltb (now - oldest.last_updated_at) r.incomplete_frame_timeout)) [
      | inl fresh ↦ rw fresh h
      | inr stale ↦ rw stale (evict_stale-All P (evict r oldest timeout now) rest now h.1)
    ]

-- A fresh last slot stays, with some of the slots before it.
pub evict_stale_last :
    (key : ReassemblyKey) (r : VideoReceiver) (before : List FrameSlot) (slot : FrameSlot) (now : ℕ)
    → Lacks key before
    → now - slot.last_updated_at < r.incomplete_frame_timeout
    → (left : List FrameSlot) × Lacks key left
      × ((evict_stale r (before ++ (slot ∷ [])) now).slots ≡ left ++ (slot ∷ []))
unfolding evict_stale
evict_stale_last key r [] slot now h f =
    let fresh : ltb (now - slot.last_updated_at) r.incomplete_frame_timeout ≡ true = ground arith in
    ([], tt, rw fresh refl)
evict_stale_last key r (oldest ∷ rest) slot now h f =
    elim (Bool-cases (ltb (now - oldest.last_updated_at) r.incomplete_frame_timeout)) [
      | inl fresh ↦ (oldest ∷ rest, h, rw fresh refl)
      | inr stale ↦
          let same = evict-SameSettings r oldest timeout now in
          let (left, lacks, e) =
            evict_stale_last key (evict r oldest timeout now) rest slot now h.1
              (rw (same.timeout) f) in
          (left, lacks, rw stale e)
    ]

pub evict_for_room-SameSettings :
    (r : VideoReceiver) (now : ℕ) → SameSettings r (evict_for_room r now)
unfolding evict_for_room
evict_for_room-SameSettings r now = elim (Bool-cases (leb r.max_slots (length r.slots))) [
  | inl full ↦ rw full (evicts r.slots)
  | inr room ↦ rw room (record { max_slots = refl; max_frags = refl; timeout = refl })
]
  where
    evicts :
        (slots : List FrameSlot)
        → SameSettings r (elim slots [
          | [] ↦ r
          | oldest ∷ rest ↦ evict (record r { slots = rest }) oldest capacity now
        ])
    evicts [] = record { max_slots = refl; max_frags = refl; timeout = refl }
    evicts (oldest ∷ rest) = record { max_slots = refl; max_frags = refl; timeout = refl }

pub evict_for_room-All :
    (P : FrameSlot → Type 0) (r : VideoReceiver) (now : ℕ)
    → All P r.slots
    → All P (evict_for_room r now).slots
unfolding evict_for_room
evict_for_room-All P r now h = elim (Bool-cases (leb r.max_slots (length r.slots))) [
  | inl full ↦ rw full (evicts r.slots h)
  | inr room ↦ rw room h
]
  where
    evicts :
        (slots : List FrameSlot)
        → All P slots
        → All P
            (elim slots as (λ _. VideoReceiver) [
              | [] ↦ r
              | oldest ∷ rest ↦ evict (record r { slots = rest }) oldest capacity now
            ]).slots
    evicts [] k = h
    evicts (oldest ∷ rest) k = k.1
