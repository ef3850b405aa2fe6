-- ===== src/Jitter/Pop.antt =====
-- What `pop_ready` answers: the expected frame if it is there, or a skip as soon as a later frame is.
use tsod.Prelude.{ℕ, ◌+◌, ◌%◌, ◌^◌, ◌≡◌, ◌≢◌, refl, false, none, some, [], ◌∷◌, arith, Bytes}
use tsod.Jitter.{
  SeqMap, JitterBuffer, frame, missing, lookup, purge, skip_or_wait, pop_ready, next_seq,
  seq_before, half_range,
}
use tsod.Jitter.Order.{seq_before_order}
use tsod.Jitter.Entries.{Ascends}
use tsod.Jitter.Invariant.{IsValid, purge-Ascends}

-- The purge removes only what lies before the expected number.
lookup-purge :
    (expected : ℕ) (m : SeqMap)
    → seq_before expected expected ≡ false
    → lookup expected (purge expected m) ≡ lookup expected m
unfolding lookup purge
lookup-purge expected [] h = refl
lookup-purge expected ((s, p) ∷ m) h = ground (arith, lookup-purge expected m h)

purge_first :
    (expected : ℕ) (m : SeqMap) (s : ℕ) (p : Bytes) (rest : SeqMap)
    → purge expected m ≡ (s, p) ∷ rest
    → seq_before s expected ≡ false
unfolding purge
purge_first expected [] s p rest e = cc
purge_first expected ((t, w) ∷ m) s p rest e = ground (arith, purge_first expected m s p rest)

lookup-first : (k s : ℕ) (p : Bytes) (rest : SeqMap) → lookup k ((s, p) ∷ rest) ≡ none → k ≢ s
unfolding lookup
lookup-first k s p rest e h = ground arith

-- The expected frame is handed out at once, whatever older or later frames are held, and the next
-- number is expected.
pub pop_ready-frame :
    (j : JitterBuffer) (now wait : ℕ) {p : Bytes}
    → IsValid j
    → lookup j.expected_seq j.buf ≡ some p
    → ((pop_ready j now wait).0 ≡ frame p)
      × ((pop_ready j now wait).1.expected_seq ≡ next_seq j.expected_seq)
unfolding pop_ready
pop_ready-frame j now wait {p} v e = ground (
  arith,
  lookup-purge j.expected_seq j.buf,
  seq_before_order j.expected_seq j.expected_seq v.expected_fits v.expected_fits,
)

-- In a valid buffer where the expected frame is missing and the purge leaves another, the number is
-- given up at once, whatever `max_wait_ms` is and whenever it is asked, if the first frame left does
-- not lie exactly half the range away.
pub pop_ready_skips :
    (j : JitterBuffer) (now wait : ℕ) {s : ℕ} {p : Bytes} {rest : SeqMap}
    → IsValid j
    → lookup j.expected_seq j.buf ≡ none
    → purge j.expected_seq j.buf ≡ (s, p) ∷ rest
    → s ≢ (j.expected_seq + half_range) % 2 ^ 32
    → ((pop_ready j now wait).0 ≡ missing)
      × ((pop_ready j now wait).1.expected_seq ≡ next_seq j.expected_seq)
unfolding pop_ready skip_or_wait
pop_ready_skips j now wait {s} {p} {rest} v e first far = ground (
  arith,
  first,
  lookup-purge j.expected_seq j.buf,
  lookup-first j.expected_seq s p rest,
  purge_first j.expected_seq j.buf s p rest first,
  seq_before_order j.expected_seq j.expected_seq v.expected_fits v.expected_fits,
  seq_before_order s j.expected_seq fits.1 v.expected_fits,
)
  where
    fits : Ascends 0 (2 ^ 32) ((s, p) ∷ rest)
    fits = rw first at (purge-Ascends j.expected_seq 0 (2 ^ 32) j.buf v.ascends)
