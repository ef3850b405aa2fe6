-- ===== src/VoiceForwarder/Runs.antt =====
-- A concrete channel and a concrete stream, and the theorems there.
use tsod.Prelude.{
  ℕ, ◌+◌, ◌*◌, ◌/◌, ◌≤◌, ◌≡◌, refl, true, false, none, some, [], ◌∷◌, arith, if◌then◌else◌, leb,
  ◌==◌, List, All, contains, Bytes,
}
use tsod.VoiceForwarder.{
  TalkerSet, seen_at, forget, touch, is_active, count_active, expire, prune_loop, prune,
  allow_talker,
}
use tsod.VoiceForwarder.{RateState, allow_rate_at}
use tsod.VoiceForwarder.{check_monotonic_ts, refill, is_far}
use tsod.Prelude.Maps.{lookup}
use tsod.Wire.Voice.{VoicePacket, parse_voice}
use tsod.VoiceForwarder.Incoming.{
  Surroundings, Session, VoiceForwarder, allow_rate, talk, fan_out, fan_out_to, sent_to,
  handle_resolved, handle_incoming,
}
use tsod.VoiceForwarder.Incoming.Fanout.{fan_out-built_for_each}
use tsod.VoiceForwarder.Rate.{IsLimited, allow_rate_at_budget}

-- Users 1 and 2 have talked, and the window is a second.
abbrev channel : TalkerSet
channel = record {
  window = 1000;
  seen = (1, 500) ∷ (2, 1900) ∷ [];
  order = (1, 500) ∷ (2, 1900) ∷ [];
}

-- User 3 may talk once user 1 has fallen silent, where two may talk.
talker_allowed : (allow_talker channel 2 3 2000 2001 2002 2003).0 ≡ true
unfolding allow_talker prune prune_loop expire forget seen_at is_active count_active touch
talker_allowed = refl

talker_refused : (allow_talker channel 1 3 2000 2001 2002 2003).0 ≡ false
unfolding allow_talker prune prune_loop expire forget seen_at is_active count_active touch
talker_refused = refl

-- Milliseconds of a limit per second.
abbrev gained_exactly : ℕ → ℕ → ℕ
gained_exactly elapsed limit = elapsed * limit / 1000

abbrev stream : RateState
stream = record {
  last = 1000;
  tokens_pkts = 3;
  tokens_bytes = 900;
  last_ts_ms = some 500;
  last_seen = 1000;
}

abbrev limited : IsLimited 100 20000 stream
limited = record { pkts = omega arith; bytes = omega arith }

allow_rate_at_budget_example :
    let (allowed, st') = allow_rate_at gained_exactly 100 20000 stream 400 520 1020 in
    IsLimited 100 20000 st'
    × (st'.tokens_pkts + (if allowed then 1 else 0) ≤ 3 + 2)
    × (st'.tokens_bytes + (if allowed then 400 else 0) ≤ 900 + 400)
allow_rate_at_budget_example =
    allow_rate_at_budget gained_exactly 100 20000 stream 400 520 1020 limited

abbrev spoken : Bytes
spoken = 1 ∷ 1 ∷ 0 ∷ 20 ∷ 0 ∷ 0 ∷ 0 ∷ 77 ∷ 0 ∷ 0 ∷ 0 ∷ 5 ∷ 0 ∷ 0 ∷ 0 ∷ 9 ∷ 0 ∷ 0 ∷ 0 ∷ 100 ∷ 42 ∷ []

abbrev packet : VoicePacket
packet = record { flags = 1; channel_route = 77; ssrc = 5; seq = 9; ts_ms = 100; vad = true }

-- Users 1, 2 and 3 are in channel 4, each with one session; user 3 has deafened itself.
abbrev surroundings : Surroundings
surroundings = record {
  resolve_channel_for_sender = λ sender route. some 4;
  list_members = λ channel. 1 ∷ 2 ∷ 3 ∷ [];
  is_muted = λ channel user. false;
  is_deafened = λ channel user. user == 3;
  max_talkers = λ channel. 2;
  get_sessions = λ user. record { session_id = user; max_datagram_size = some 1200 } ∷ [];
  uuids = record { as_bytes = λ u. []; from_slice = λ b. none };
  gained = λ elapsed limit. elapsed * limit / 1000;
  clock = λ i. 5000 + i;
}

abbrev gateway : VoiceForwarder
gateway = record {
  cfg = record {
    max_datagram_bytes = 1120;
    min_datagram_bytes = 20;
    sender_pps_limit = 200;
    sender_bps_limit = 524_288;
    talker_activity_window = 800;
    vad_required_for_talker = false;
  };
  talkers = [];
  rate = [];
}

parse-spoken : parse_voice spoken ≡ some packet
unfolding parse_voice
parse-spoken = refl

accepted :
    (handle_incoming gateway surroundings 1 spoken).0
    ≡ sent_to (fan_out_to surroundings 4 1 packet spoken)
unfolding handle_incoming handle_resolved parse_voice allow_rate allow_rate_at check_monotonic_ts
    refill is_far talk allow_talker prune prune_loop expire forget seen_at is_active count_active
    touch lookup
accepted = refl

-- Only user 2 is a member that is neither the sender nor deafened.
hearers :
    (u : ℕ)
    → contains (surroundings.list_members 4) u ≡ true
    → (u == 1) ≡ false
    → surroundings.is_deafened 4 u ≡ false
    → All (λ s. s.session_id ≡ 2) (surroundings.get_sessions u)
hearers u inside other hears = (ground (arith, inside, other, hears), tt)

-- Two listeners have the same limit, and the packet does not fit the third.
abbrev listeners : List Session
listeners =
    record { session_id = 2; max_datagram_size = some 1200 }
    ∷ record { session_id = 3; max_datagram_size = some 50 }
    ∷ record { session_id = 4; max_datagram_size = some 1200 }
    ∷ []

fan_out-built_for_each_example :
    fan_out (λ limit. if leb 60 limit then some spoken else none) [] listeners
    ≡ (record { session_id = 2; max_datagram_size = some 1200 }, spoken)
      ∷ (record { session_id = 4; max_datagram_size = some 1200 }, spoken)
      ∷ []
fan_out-built_for_each_example =
    fan_out-built_for_each (λ limit. if leb 60 limit then some spoken else none) listeners
