-- ===== src/Jitter/Runs.antt =====
-- Concrete runs of the jitter buffer, and the theorems at concrete inputs.
use tsod.Prelude.{◌≡◌, refl, none, List, [], ◌∷◌, arith, map, Bytes}
use tsod.Jitter.{
  JitterBuffer, frame, missing, pop_ready, purge, lookup, skip_or_wait, seq_before, set_expected,
}
use tsod.Jitter.Invariant.{IsValid}
use tsod.Jitter.Pop.{pop_ready_skips}
use tsod.Jitter.Stream.{push_all, pop_all, pop_all-push_all}

-- Frame 11 is expected, and frames 9 and 12 are held.
abbrev gap : JitterBuffer
gap = record {
  max_frames = 4;
  expected_seq = 11;
  expected_wait_started_ms = none;
  buf = (9, 9 ∷ []) ∷ (12, 2 ∷ []) ∷ [];
}

gap-IsValid : IsValid gap
gap-IsValid = omega arith

-- The first call after the gap appears already skips frame 11, although 40 ms may be waited.
gap_skipped : (pop_ready gap 1010 40).0 ≡ missing
unfolding pop_ready skip_or_wait purge lookup seq_before
gap_skipped = refl

abbrev ready : JitterBuffer
ready = record gap { expected_seq = 12 }

ready-IsValid : IsValid ready
ready-IsValid = omega arith

pop_ready_skips_example :
    ((pop_ready gap 1010 40).0 ≡ missing) × ((pop_ready gap 1010 40).1.expected_seq ≡ 12)
unfolding lookup purge seq_before
pop_ready_skips_example =
    pop_ready_skips gap 1010 40 {s = 12} {p = 2 ∷ []} {rest = []} gap-IsValid refl refl
      (omega arith)

abbrev frames : List Bytes
frames = (1 ∷ []) ∷ (2 ∷ []) ∷ (3 ∷ []) ∷ []

pop_all-push_all_example :
    pop_all 3 (push_all (set_expected gap 100) 100 frames) 0 40 ≡ map frame frames
pop_all-push_all_example =
    pop_all-push_all gap 100 0 40 frames (omega arith) (omega arith) (omega arith)
