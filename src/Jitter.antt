-- ===== src/Jitter.antt =====
-- client/src/audio/jitter.rs: the jitter buffer of received voice frames. Sequence numbers are
-- numbers below 2 ^ 32 with the wrap-around written out, and the BTreeMap is a list of keys and
-- values (`Jitter/Entries.antt`) whose keys ascend.
mod Entries
pub mod Order
pub mod Invariant
pub mod Pop
pub mod Stream
mod Runs
unfoldable pub use Entries.{insert, remove, lookup, last_key, is_empty}
pub use Entries.{SeqMap}
use tsod.Prelude.{
  ℕ, suc, ◌+◌, ◌-◌, ◌%◌, ◌^◌, Bool, true, false, not, ◌&&◌, ◌||◌, Option, none, some, List, [], ◌∷◌,
  if◌then◌else◌, ltb, leb, ◌==◌, length, Bytes,
}

pub data PopResult : Type 0 where
  frame : Bytes → PopResult
  missing waiting : PopResult

pub record JitterBuffer : Type 0 where
  pub max_frames : ℕ
  pub expected_seq : ℕ
  pub expected_wait_started_ms : Option ℕ
  pub buf : SeqMap

-- `b.wrapping_sub(a)` and `a.wrapping_add(1)` on u32
abbrev pub wrapping_sub : ℕ → ℕ → ℕ
wrapping_sub b a = (b + 2 ^ 32 - a) % 2 ^ 32

abbrev pub next_seq : ℕ → ℕ
next_seq a = (a + 1) % 2 ^ 32

abbrev pub half_range : ℕ
half_range = 2 ^ 31

unfoldable pub seq_before : ℕ → ℕ → Bool
seq_before a b = not (a == b) && ltb (wrapping_sub b a) half_range

unfoldable pub new : ℕ → JitterBuffer
new max_frames = record {
  max_frames = max_frames;
  expected_seq = 0;
  expected_wait_started_ms = none;
  buf = [];
}

-- The entry with the greatest key is dropped.
unfoldable pub drop_last : SeqMap → SeqMap
drop_last buf = elim (last_key buf) [ none ↦ buf | some last ↦ remove last buf ]

-- The first frame of an empty buffer sets what is expected.
abbrev pub start_at : ℕ → JitterBuffer → JitterBuffer
start_at seq j =
    if is_empty j.buf then record j { expected_seq = seq; expected_wait_started_ms = none } else j

unfoldable pub push : JitterBuffer → ℕ → Bytes → JitterBuffer
push j seq payload =
    if seq_before seq j.expected_seq
    then j
    else let started = start_at seq j in
      record started {
        buf =
            insert seq payload (if leb j.max_frames (length j.buf) then drop_last j.buf else j.buf);
      }

-- The loop that removes the first entry while it lies before what is expected.
unfoldable pub purge : ℕ → SeqMap → SeqMap
purge expected [] = []
purge expected ((seq, payload) ∷ rest) =
    let later = purge expected rest in
    if seq_before seq expected then later else (seq, payload) ∷ rest

-- No frame is there for the expected number: skip it, or wait.
unfoldable pub skip_or_wait : JitterBuffer → ℕ → ℕ → PopResult × JitterBuffer
skip_or_wait j now_ms max_wait_ms = elim j.buf [
  | [] ↦ (waiting, j)
  | (min_seq, _) ∷ _ ↦
      let timed_out : Bool = elim j.expected_wait_started_ms [
        | some start_ms ↦ leb max_wait_ms (now_ms - start_ms)
        | none ↦ false
      ] in
      let started : Option ℕ = elim j.expected_wait_started_ms [
        | some start_ms ↦ some start_ms
        | none ↦ some now_ms
      ] in
      if timed_out || seq_before j.expected_seq min_seq
      then (
        missing,
        record j { expected_seq = next_seq j.expected_seq; expected_wait_started_ms = some now_ms },
      )
      else (waiting, record j { expected_wait_started_ms = started })
]

unfoldable pub pop_ready : JitterBuffer → ℕ → ℕ → PopResult × JitterBuffer
pop_ready j now_ms max_wait_ms =
    let purged = purge j.expected_seq j.buf in
    elim (lookup j.expected_seq purged) [
      | some payload ↦ (
        frame payload,
        record j {
          expected_seq = next_seq j.expected_seq;
          expected_wait_started_ms = none;
          buf = remove j.expected_seq purged;
        },
      )
      | none ↦ skip_or_wait (record j { buf = purged }) now_ms max_wait_ms
    ]

pub depth : JitterBuffer → ℕ
depth j = length j.buf

unfoldable pub peek_expected : JitterBuffer → Option Bytes
peek_expected j = lookup j.expected_seq j.buf

unfoldable pub set_expected : JitterBuffer → ℕ → JitterBuffer
set_expected j seq = record j { expected_seq = seq; expected_wait_started_ms = none; buf = [] }
