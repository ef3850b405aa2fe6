-- ===== src/Jitter/Invariant.antt =====
-- The bounds of the jitter buffer, which every operation keeps.
use tsod.Prelude.{
  ℕ, suc, ◌-◌, ◌^◌, ◌≤◌, ◌<◌, max, ◌≡◌, ap, inl, inr, [], ◌∷◌, arith, if◌then◌else◌, leb, length,
  Bytes, Bool-cases, Option-cases,
}
use tsod.Jitter.{
  SeqMap, JitterBuffer, insert, lookup, last_key, new, drop_last, push, purge, skip_or_wait,
  pop_ready,
}
use tsod.Jitter.Entries.{
  Ascends, Ascends-weaken, insert-Ascends, remove-Ascends, length-insert-le, length-remove-le,
  length-remove-last, last_key-none,
}

-- The entries ascend and carry u32 keys, at most `max_frames` are held (one is always let in), and
-- what is expected is a u32.
pub record IsValid (j : JitterBuffer) : Type 0 where
  pub ascends : Ascends 0 (2 ^ 32) j.buf
  pub bounded : length j.buf ≤ max 1 j.max_frames
  pub expected_fits : j.expected_seq < 2 ^ 32

pub new-IsValid : (max_frames : ℕ) → IsValid (new max_frames)
unfolding new
new-IsValid max_frames = record { ascends = tt; bounded = omega arith; expected_fits = omega arith }

drop_last-Ascends : (high : ℕ) (m : SeqMap) → Ascends 0 high m → Ascends 0 high (drop_last m)
unfolding drop_last
drop_last-Ascends high m a = elim (Option-cases (last_key m)) [
  | inl e ↦ rw (e, drop_last) a
  | inr (k, e) ↦ rw (e, drop_last) (remove-Ascends 0 high k m a)
]

length-drop_last : (m : SeqMap) → length (drop_last m) ≡ length m - 1
unfolding drop_last
length-drop_last m = elim (Option-cases (last_key m)) [
  | inl e ↦ rw (e, drop_last) (omega (arith, ap length (last_key-none m e)))
  | inr (k, e) ↦ rw (e, drop_last) (omega (arith, length-remove-last k m e))
]

-- `push` of a 32-bit number keeps a valid jitter buffer valid: at most `max_frames` frames, or one,
-- with ascending numbers of 32 bits.
pub push-IsValid :
    (j : JitterBuffer) (seq : ℕ) (payload : Bytes)
    → seq < 2 ^ 32
    → IsValid j
    → IsValid (push j seq payload)
unfolding push
push-IsValid j seq payload fits v = record {
  ascends = ground (arith, inserted);
  bounded = ground (arith, v.bounded, length-insert-le seq payload kept, length-drop_last j.buf);
  expected_fits = ground (arith, v.expected_fits, fits);
}
  where
    kept : SeqMap
    kept = if leb j.max_frames (length j.buf) then drop_last j.buf else j.buf

    kept-Ascends : Ascends 0 (2 ^ 32) kept
    kept-Ascends = elim (Bool-cases (leb j.max_frames (length j.buf))) [
      | inl e ↦ rw e (drop_last-Ascends (2 ^ 32) j.buf v.ascends)
      | inr e ↦ rw e v.ascends
    ]

    inserted : Ascends 0 (2 ^ 32) (insert seq payload kept)
    inserted = insert-Ascends 0 (2 ^ 32) seq payload kept (omega arith) fits kept-Ascends

pub purge-Ascends :
    (expected low high : ℕ) (m : SeqMap) → Ascends low high m → Ascends low high (purge expected m)
unfolding purge
purge-Ascends expected low high [] a = tt
purge-Ascends expected low high ((s, p) ∷ m) a = ground (
  arith,
  purge-Ascends expected (suc s) high m a.2,
  Ascends-weaken low (suc s) high (purge expected m),
)

length-purge-le : (expected : ℕ) (m : SeqMap) → length (purge expected m) ≤ length m
unfolding purge
length-purge-le expected [] = omega arith
length-purge-le expected ((s, p) ∷ m) = ground (arith, length-purge-le expected m)

skip_or_wait-IsValid :
    (j : JitterBuffer) (now wait : ℕ) → IsValid j → IsValid (skip_or_wait j now wait).1
unfolding skip_or_wait
skip_or_wait-IsValid j now wait v = record {
  ascends = rw same_buf.0 v.ascends;
  bounded = rw same_buf.0 (rw same_buf.1 v.bounded);
  expected_fits = ground (arith, v.expected_fits);
}
  where
    same_buf :
        ((skip_or_wait j now wait).1.buf ≡ j.buf)
        × ((skip_or_wait j now wait).1.max_frames ≡ j.max_frames)
    same_buf = ground arith

-- `pop_ready` keeps a valid jitter buffer valid, at any time.
pub pop_ready-IsValid :
    (j : JitterBuffer) (now wait : ℕ) → IsValid j → IsValid (pop_ready j now wait).1
unfolding pop_ready
pop_ready-IsValid j now wait v = elim (Option-cases (lookup j.expected_seq purged)) [
  | inl e ↦
      rw (e, pop_ready) (skip_or_wait-IsValid (record j { buf = purged }) now wait purged-IsValid)
  | inr (p, e) ↦
      rw (e, pop_ready)
        (record {
          ascends = remove-Ascends 0 (2 ^ 32) j.expected_seq purged purged-IsValid.ascends;
          bounded = omega (arith, length-remove-le j.expected_seq purged, purged-IsValid.bounded);
          expected_fits = omega arith;
        })
]
  where
    purged : SeqMap
    purged = purge j.expected_seq j.buf

    purged-IsValid : IsValid (record j { buf = purged })
    purged-IsValid = record {
      ascends = purge-Ascends j.expected_seq 0 (2 ^ 32) j.buf v.ascends;
      bounded = omega (arith, length-purge-le j.expected_seq j.buf, v.bounded);
      expected_fits = v.expected_fits;
    }
