-- ===== src/VideoTransport/Slot/Insert.antt =====
-- A slot's mask and count against the plain list of its fragments.
use Prim.Native.Nat.{bit_and, bit_or}
use tsod.Prelude.Bits.{bit_and-pow_eq_zero}
use tsod.Prelude.{
  ℕ, suc, ◌+◌, ◌/◌, ◌%◌, ◌^◌, ◌≤◌, ◌<◌, ◌≡◌, ◌≢◌, refl, sym, ap, ◌∙◌, Bool, false, ◌&&◌, none, some,
  arith, ltb, leb, ◌==◌, length, get_or, set, Bytes, Bool-cases, inl, inr,
}
use tsod.VideoTransport.Slot.{ReassemblyKey, FrameSlot, needed_words, new, insert, reset}
use tsod.VideoTransport.Slot.Mask.{
  mask_bit, mask_bit-replicate, mask_bit-set, held, held_count, place, is_complete, held-replicate,
  held_count-replicate, place-eq-set, place-eq_self, place_outside, held-place, held_count-place,
  held_count-le, is_complete-eq, length-set, length-replicate,
}

-- The mask and the count say which fragments are held, and how many.
pub record IsSound (s : FrameSlot) : Type 0 where
  pub within_cap : s.frag_total ≤ 1024
  pub sized : length s.fragments ≡ s.frag_total
  pub words : length s.received_mask ≡ needed_words s.frag_total
  pub counted : s.received_count ≡ held_count s.fragments
  pub marked : (i : ℕ) → i < s.frag_total → mask_bit s.received_mask i ≡ held s.fragments i

pub new-IsSound :
    (key : ReassemblyKey) (frag_total : ℕ) (k r : Bool) (ts now : ℕ)
    → frag_total ≤ 1024
    → IsSound (new key frag_total k r ts now)
unfolding new
new-IsSound key frag_total k r ts now h = record {
  within_cap = h;
  sized = length-replicate frag_total none;
  words = length-replicate (needed_words frag_total) 0;
  counted = sym (held_count-replicate frag_total);
  marked =
      λ i lt. mask_bit-replicate (needed_words frag_total) i ∙ sym (held-replicate frag_total i);
}

pub reset-eq-new :
    (s : FrameSlot) (key : ReassemblyKey) (frag_total : ℕ) (k r : Bool) (ts now : ℕ)
    → reset s key frag_total k r ts now ≡ new key frag_total k r ts now
unfolding reset new
reset-eq-new s key frag_total k r ts now = refl

-- What `insert` does, on its three branches.
insert_outside : (s : FrameSlot) (i : ℕ) (p : Bytes) → s.frag_total ≤ i → insert s i p ≡ (false, s)
unfolding insert
insert_outside s i p h = ground arith

insert_duplicate :
    (s : FrameSlot) (i : ℕ) (p : Bytes)
    → IsSound s
    → i < s.frag_total
    → 1 ≤ held s.fragments i
    → insert s i p ≡ (false, s)
unfolding insert mask_bit
insert_duplicate s i p v h d =
    let marked = v.marked i h in
    let test = bit_and-pow_eq_zero (get_or s.received_mask (i / 64) 0) (i % 64) in
    let set : bit_and (get_or s.received_mask (i / 64) 0) (2 ^ (i % 64)) ≢ 0 =
      λ e. absurd (omega (arith, test.0 e, marked, d)) in
    ground (arith, set)

insert_fresh :
    (s : FrameSlot) (i : ℕ) (p : Bytes)
    → IsSound s
    → i < s.frag_total
    → held s.fragments i ≡ 0
    → insert s i p ≡ (
      suc s.received_count == s.frag_total,
      record s {
        received_mask =
            set s.received_mask
              (i / 64)
              (bit_or (get_or s.received_mask (i / 64) 0) (2 ^ (i % 64)));
        received_count = suc s.received_count;
        fragments = set s.fragments i (some p);
      },
    )
unfolding insert mask_bit
insert_fresh s i p v h e =
    let test = bit_and-pow_eq_zero (get_or s.received_mask (i / 64) 0) (i % 64) in
    let clear : bit_and (get_or s.received_mask (i / 64) 0) (2 ^ (i % 64)) ≡ 0 =
      test.1 (v.marked i h ∙ e) in
    let next : (s.received_count + 1) % 2 ^ 16 ≡ suc s.received_count =
      omega (arith, v.within_cap, v.counted, v.sized, held_count-le s.fragments) in
    let inside : leb s.frag_total i ≡ false = ground arith in
    let capped : leb 1024 i ≡ false = ground (arith, v.within_cap) in
    rw (inside, capped, clear, next) refl

-- What an insertion has done.
pub record Inserted (s : FrameSlot) (i : ℕ) (p : Bytes) (done : Bool) (s' : FrameSlot)
    : Type 0 where
  pub sound : IsSound s'
  pub fragments : s'.fragments ≡ place s.fragments i p
  pub reported :
      done
      ≡ (ltb i s.frag_total && (held s.fragments i == 0 && is_complete (place s.fragments i p)))
  pub same_total : s'.frag_total ≡ s.frag_total
  pub same_key : s'.key ≡ s.key
  pub same_keyframe : s'.is_keyframe ≡ s.is_keyframe
  pub same_recovery : s'.is_recovery ≡ s.is_recovery
  pub same_time : s'.ts_ms ≡ s.ts_ms

unchanged :
    (s : FrameSlot) (i : ℕ) (p : Bytes)
    → IsSound s
    → place s.fragments i p ≡ s.fragments
    → (ltb i s.frag_total && (held s.fragments i == 0 && is_complete (place s.fragments i p)))
      ≡ false
    → Inserted s i p false s
unchanged s i p v e n = record {
  sound = v;
  fragments = sym e;
  reported = sym n;
  same_total = refl;
  same_key = refl;
  same_keyframe = refl;
  same_recovery = refl;
  same_time = refl;
}

written :
    (s : FrameSlot) (i : ℕ) (p : Bytes)
    → IsSound s
    → i < s.frag_total
    → held s.fragments i ≡ 0
    → Inserted s i p (suc s.received_count == s.frag_total) (record s {
      received_mask =
          set s.received_mask (i / 64) (bit_or (get_or s.received_mask (i / 64) 0) (2 ^ (i % 64)));
      received_count = suc s.received_count;
      fragments = set s.fragments i (some p);
    })
written s i p v h e = record {
  sound = record {
    within_cap = v.within_cap;
    sized = length-set s.fragments i (some p) ∙ v.sized;
    words = length-set s.received_mask (i / 64) _ ∙ v.words;
    counted =
        omega (arith, v.counted, ap held_count placed, held_count-place s.fragments i p inside, e);
    marked = marked;
  };
  fragments = sym placed;
  reported = ground (
    arith,
    h,
    e,
    is_complete-eq (place s.fragments i p),
    held_count-place s.fragments i p inside,
    v.counted,
    v.sized,
    ap length placed,
    length-set s.fragments i (some p),
  );
  same_total = refl;
  same_key = refl;
  same_keyframe = refl;
  same_recovery = refl;
  same_time = refl;
}
  where
    inside : i < length s.fragments
    inside = omega (arith, v.sized, h)

    placed : place s.fragments i p ≡ set s.fragments i (some p)
    placed = place-eq-set s.fragments i p e

    marked :
        (j : ℕ)
        → j < s.frag_total
        → mask_bit
            (set s.received_mask
              (i / 64)
              (bit_or (get_or s.received_mask (i / 64) 0) (2 ^ (i % 64))))
            j
          ≡ held (set s.fragments i (some p)) j
    marked j lt =
        mask_bit-set s.received_mask i j (omega (arith, v.words, h))
        ∙ ground (arith, v.marked j lt)
        ∙ sym (held-place s.fragments i j p inside)
        ∙ ap (λ t. held t j) placed

-- The bit mask and the count do what a plain list of fragments does: in a sound slot `insert` writes
-- the payload to its place unless that is taken or outside the frame, reports a complete frame exactly
-- where this write was the last missing one, and keeps the slot sound and its header fields as they
-- were.
pub insert-Inserted :
    (s : FrameSlot) (i : ℕ) (p : Bytes)
    → IsSound s
    → Inserted s i p (insert s i p).0 (insert s i p).1
insert-Inserted s i p v = elim (Bool-cases (ltb i s.frag_total)) [
  | inr outside ↦
      let beyond : s.frag_total ≤ i = ground arith in
      rw (insert_outside s i p beyond) (
        unchanged s i p v (place_outside s.fragments i p (omega (arith, v.sized)))
          (rw outside refl))
  | inl inside ↦
      let below : i < s.frag_total = ground arith in
      elim (Bool-cases (held s.fragments i == 0)) [
        | inl free ↦
            let empty : held s.fragments i ≡ 0 = ground arith in
            rw (insert_fresh s i p v below empty) (written s i p v below empty)
        | inr taken ↦
            let full : 1 ≤ held s.fragments i = ground arith in
            rw (insert_duplicate s i p v below full)
              (unchanged s i p v (place-eq_self s.fragments i p full) (rw (inside, taken) refl))
      ]
]
