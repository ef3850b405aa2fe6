-- ===== src/Jitter/Stream.antt =====
-- A stream that arrives in order comes out in order.
use tsod.Prelude.{
  ℕ, zero, suc, ◌+◌, ◌^◌, ◌≤◌, ◌<◌, ◌≡◌, refl, ap₂, subst, none, List, [], ◌∷◌, ◌++◌, append_assoc,
  append-nil, map, arith, length, length-snoc, Bytes,
}
use tsod.Jitter.{
  SeqMap, JitterBuffer, PopResult, frame, insert, lookup, remove, push, purge, pop_ready,
  set_expected, seq_before,
}

-- Payloads under the numbers from `n` on.
abbrev pub run : ℕ → List Bytes → SeqMap
run n [] = []
run n (p ∷ ps) = (n, p) ∷ run (n + 1) ps

length-run : (n : ℕ) (ps : List Bytes) → length (run n ps) ≡ length ps
length-run n [] = refl
length-run n (p ∷ ps) = omega (arith, length-run (n + 1) ps)

insert-run :
    (n k : ℕ) (q : Bytes) (ps : List Bytes)
    → k ≡ n + length ps
    → insert k q (run n ps) ≡ run n (ps ++ (q ∷ []))
unfolding insert
insert-run n k q [] e = ground arith
insert-run n k q (p ∷ ps) e = ground (arith, insert-run (n + 1) k q ps)

-- The buffer holds exactly the payloads `ps`, from the expected number on.
pub record Holds (j : JitterBuffer) (n : ℕ) (ps : List Bytes) : Type 0 where
  pub items : j.buf ≡ run n ps
  pub expected : j.expected_seq ≡ n

push-Holds :
    (j : JitterBuffer) (n : ℕ) (ps : List Bytes) (q : Bytes)
    → length ps < j.max_frames
    → n + length ps < 2 ^ 32
    → length ps ≤ 2 ^ 31
    → Holds j n ps
    → Holds (push j (n + length ps) q) n (ps ++ (q ∷ []))
unfolding push seq_before
push-Holds j n [] q room fits near h = ground (arith, insert-run n (n + 0) q [] refl)
push-Holds j n (p ∷ ps) q room fits near h =
    ground (arith, length-run n (p ∷ ps), insert-run n (n + length (p ∷ ps)) q (p ∷ ps) refl)

max_frames-push :
    (j : JitterBuffer) (seq : ℕ) (q : Bytes) → (push j seq q).max_frames ≡ j.max_frames
unfolding push
max_frames-push j seq q = ground arith

pop-Holds :
    (j : JitterBuffer) (n now wait : ℕ) (p : Bytes) (ps : List Bytes)
    → n + 1 < 2 ^ 32
    → Holds j n (p ∷ ps)
    → ((pop_ready j now wait).0 ≡ frame p) × Holds (pop_ready j now wait).1 (n + 1) ps
unfolding pop_ready seq_before purge lookup remove
pop-Holds j n now wait p ps fits h = ground (arith, h)

-- Frames pushed one after the other under consecutive numbers.
pub push_all : JitterBuffer → ℕ → List Bytes → JitterBuffer
push_all j n [] = j
push_all j n (p ∷ ps) = push_all (push j n p) (n + 1) ps

-- `k` calls of `pop_ready` at one time.
pub pop_all : ℕ → JitterBuffer → ℕ → ℕ → List PopResult
pop_all zero j now wait = []
pop_all (suc k) j now wait = let (r, j') = pop_ready j now wait in r ∷ pop_all k j' now wait

push_all-Holds :
    (j : JitterBuffer) (n k : ℕ) (ps qs : List Bytes)
    → k ≡ n + length ps
    → length ps + length qs ≤ j.max_frames
    → k + length qs < 2 ^ 32
    → length ps + length qs ≤ 2 ^ 31
    → Holds j n ps
    → Holds (push_all j k qs) n (ps ++ qs)
unfolding push_all
push_all-Holds j n k ps [] at room fits near h = rw append-nil h
push_all-Holds j n k ps (q ∷ qs) at room fits near h =
    subst (Holds (push_all (push j k q) (k + 1) qs) n) (append_assoc ps (q ∷ []) qs) (
      push_all-Holds (push j k q) n (k + 1) (ps ++ (q ∷ [])) qs (omega (arith, length-snoc ps q))
        (omega (arith, length-snoc ps q, max_frames-push j k q)) (omega arith)
        (omega (arith, length-snoc ps q))
        (rw at (push-Holds j n ps q (omega arith) (omega arith) (omega arith) h)))

pop_all-Holds :
    (j : JitterBuffer) (n now wait : ℕ) (ps : List Bytes)
    → n + length ps < 2 ^ 32
    → Holds j n ps
    → pop_all (length ps) j now wait ≡ map frame ps
unfolding pop_all
pop_all-Holds j n now wait [] fits h = refl
pop_all-Holds j n now wait (p ∷ ps) fits h =
    let step = pop-Holds j n now wait p ps (omega arith) h in
    ap₂ ◌∷◌ step.0 (pop_all-Holds (pop_ready j now wait).1 (n + 1) now wait ps (omega arith) step.1)

-- A stream pushed in order from the expected number on comes out complete and in order, one frame a
-- call, as long as it fits the buffer, has at most 2^31 frames, and no number wraps.
pub pop_all-push_all :
    (j : JitterBuffer) (n now wait : ℕ) (ps : List Bytes)
    → length ps ≤ j.max_frames
    → n + length ps < 2 ^ 32
    → length ps ≤ 2 ^ 31
    → pop_all (length ps) (push_all (set_expected j n) n ps) now wait ≡ map frame ps
unfolding set_expected
pop_all-push_all j n now wait ps room fits near =
    pop_all-Holds (push_all start n ps) n now wait ps fits (
      push_all-Holds start n n [] ps (omega arith) (omega arith) fits (omega arith)
        (record { items = refl; expected = refl }))
  where
    start : JitterBuffer
    start = record j { expected_seq = n; expected_wait_started_ms = none; buf = [] }
