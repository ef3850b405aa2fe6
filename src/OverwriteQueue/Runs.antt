-- ===== src/OverwriteQueue/Runs.antt =====
-- Concrete runs of the overwrite queue, and the theorems at concrete inputs.
use tsod.Prelude.{ℕ, ◌≡◌, ◌≢◌, refl, false, some, [], ◌∷◌, arith}
use tsod.OverwriteQueue.{
  OverwriteQueue, Limits, Voice, returns, repeats, push, push_all, voice_pass, voice_swept, deliver,
  select_front, drain_to_latest, drop_stale, pop_voice_realtime,
}
use tsod.OverwriteQueue.Push.{IsWithinCap, Window, push_all-Window}
use tsod.OverwriteQueue.Outcome.{Outcome, voice_pass-Outcome, pop_voice_realtime-ne-repeats}

abbrev two_slots : OverwriteQueue ℕ
two_slots = record { cap = 2; q = 1 ∷ []; closed = false; overflow_evictions_total = 0 }

two_slots-IsWithinCap : IsWithinCap two_slots
two_slots-IsWithinCap = omega arith

oldest_evicted : (push_all two_slots (2 ∷ 3 ∷ [])).q ≡ 2 ∷ 3 ∷ []
unfolding push_all push
oldest_evicted = refl

push_all-Window_example : Window two_slots (2 ∷ 3 ∷ []) (push_all two_slots (2 ∷ 3 ∷ []))
push_all-Window_example = push_all-Window two_slots (2 ∷ 3 ∷ []) two_slots-IsWithinCap refl

abbrev limits : Limits
limits = record { max_age = 250; keep_latest = 2; drain_trigger_age = 125 }

-- At 300 the packet of time 10 is stale, and the one of time 100 goes by the drain.
abbrev backlog : Voice
backlog = record {
  queue = record {
    cap = 8;
    q = (10, 1 ∷ []) ∷ (100, 2 ∷ []) ∷ (200, 3 ∷ []) ∷ (250, 4 ∷ []) ∷ [];
    closed = false;
    overflow_evictions_total = 0;
  };
  totals = record { stale_drops_total = 0; drain_drops_total = 0 };
}

delivered : (voice_pass limits 300 300 backlog).0 ≡ returns (some (3 ∷ []))
unfolding voice_pass voice_swept deliver select_front drain_to_latest drop_stale
delivered = refl

voice_pass-Outcome_example : Outcome limits 300 backlog (voice_pass limits 300 300 backlog)
voice_pass-Outcome_example = voice_pass-Outcome limits 300 300 backlog (omega arith)

pop_voice_realtime-ne-repeats_example :
    (pop_voice_realtime 5 (λ i. (300, 300)) limits backlog).0 ≢ repeats
pop_voice_realtime-ne-repeats_example =
    pop_voice_realtime-ne-repeats 5 (λ i. (300, 300)) limits backlog (omega arith) (omega arith)
