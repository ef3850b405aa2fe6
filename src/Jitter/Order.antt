-- ===== src/Jitter/Order.antt =====
-- The wrap-around order of sequence numbers.
use tsod.Prelude.{ℕ, ◌+◌, ◌%◌, ◌^◌, ◌<◌, ◌≡◌, ◌≢◌, true, false, arith}
use tsod.Jitter.{seq_before, next_seq, half_range}

-- Of two different sequence numbers at most one comes before the other, and exactly one unless
-- they lie half the range apart; and no number comes before itself.
pub seq_before_order :
    (a b : ℕ)
    → a < 2 ^ 32
    → b < 2 ^ 32
    → (seq_before a a ≡ false)
      × (seq_before a b ≡ true → seq_before b a ≡ false)
      × (a ≢ b → a ≢ (b + half_range) % 2 ^ 32 → seq_before a b ≡ false → seq_before b a ≡ true)
unfolding seq_before
seq_before_order a b ha hb = (ground arith, ground arith, ground arith)

-- A number comes before its successor, also where the counter wraps.
pub seq_before-next_seq : (a : ℕ) → a < 2 ^ 32 → seq_before a (next_seq a) ≡ true
unfolding seq_before
seq_before-next_seq a h = ground arith
