-- ===== src/VoiceForwarder.antt =====
-- `RateState`, `TalkerSet`, `allow_rate_at` and `allow_talker` of server/media/voice_forwarder.rs, for
-- one stream of a sender and for one channel: the entry of the map, which is there or just made by
-- `new`. A user is a number, an instant a count of milliseconds, a map the list of its entries, and
-- each reading of the clock an argument.
pub mod Talkers
pub mod Rate
pub mod Incoming
mod Runs
use Prim.Native.Nat.{min, max}
use tsod.Prelude.{
  ℕ, suc, ◌+◌, ◌-◌, ◌%◌, ◌^◌, Bool, true, false, not, ◌&&◌, ◌||◌, Option, none, some, List, [], ◌∷◌,
  ◌++◌, if◌then◌else◌, ltb, leb, ◌==◌,
}

abbrev pub refill_quantum : ℕ
refill_quantum = 10

abbrev pub stream_idle_reset : ℕ
stream_idle_reset = 10_000

pub record RateState : Type 0 where
  pub last : ℕ
  pub tokens_pkts : ℕ
  pub tokens_bytes : ℕ
  pub last_ts_ms : Option ℕ
  pub last_seen : ℕ

abbrev pub new_rate : ℕ → ℕ → ℕ → ℕ → RateState
new_rate pps_limit bps_limit now later = record {
  last = now;
  tokens_pkts = pps_limit;
  tokens_bytes = bps_limit;
  last_ts_ms = none;
  last_seen = later;
}

-- The test on the distance to the last timestamp, as a `u32`.
unfoldable pub is_far : Option ℕ → ℕ → Bool
is_far none ts = false
is_far (some prev) ts =
    let diff = (ts + 2 ^ 32 - prev) % 2 ^ 32 in ltb 10_000 diff && ltb diff (2 ^ 32 - 1 - 10_000)

unfoldable pub check_monotonic_ts : RateState → ℕ → ℕ → Bool × RateState
check_monotonic_ts st ts now =
    let last_ts_ms = if ltb stream_idle_reset (now - st.last_seen) then none else st.last_ts_ms in
    if is_far last_ts_ms ts
    then (false, record st { last_ts_ms = last_ts_ms })
    else (true, record st { last_ts_ms = some ts; last_seen = now })

-- `gained elapsed limit` is `(secs * limit as f32) as u32`; the sum is a `u32`.
unfoldable pub refill : (ℕ → ℕ → ℕ) → RateState → ℕ → ℕ → ℕ → RateState
refill gained st pps_limit bps_limit now =
    let elapsed = now - st.last in
    if ltb elapsed refill_quantum then st else record st {
      tokens_pkts = min ((st.tokens_pkts + gained elapsed pps_limit) % 2 ^ 32) pps_limit;
      tokens_bytes = min ((st.tokens_bytes + gained elapsed bps_limit) % 2 ^ 32) bps_limit;
      last = now;
    }

unfoldable pub allow_rate_at : (ℕ → ℕ → ℕ) → ℕ → ℕ → RateState → ℕ → ℕ → ℕ → Bool × RateState
unfolding check_monotonic_ts refill
allow_rate_at gained pps_limit bps_limit st bytes ts_ms now =
    let (monotonic, st') = check_monotonic_ts st ts_ms now in
    let st'' = refill gained st' pps_limit bps_limit now in
    if not monotonic
    then (false, st')
    else if st''.tokens_pkts == 0 || ltb st''.tokens_bytes bytes
    then (false, st'')
    else (
      true,
      record st'' { tokens_pkts = st''.tokens_pkts - 1; tokens_bytes = st''.tokens_bytes - bytes },
    )

pub record TalkerSet : Type 0 where
  pub window : ℕ
  pub seen : List (ℕ × ℕ)
  pub order : List (ℕ × ℕ)

abbrev pub new_talkers : ℕ → TalkerSet
new_talkers window = record { window = window; seen = []; order = [] }

-- `get` and `remove` of the map.
unfoldable pub seen_at : ℕ → List (ℕ × ℕ) → Option ℕ
seen_at user [] = none
seen_at user ((u, t) ∷ m) = if u == user then some t else seen_at user m

unfoldable pub forget : ℕ → List (ℕ × ℕ) → List (ℕ × ℕ)
forget user [] = []
forget user ((u, t) ∷ m) = let rest = forget user m in if u == user then rest else (u, t) ∷ rest

unfoldable pub touch : TalkerSet → ℕ → ℕ → TalkerSet
touch s user now = record s {
  seen = (user, now) ∷ forget user s.seen;
  order = s.order ++ ((user, now) ∷ []);
}

unfoldable pub is_active : TalkerSet → ℕ → ℕ → Bool
is_active s user now = elim (seen_at user s.seen) [ none ↦ false | some t ↦ leb (now - t) s.window ]

-- The entries of the map that are within the window.
unfoldable pub count_active : ℕ → ℕ → List (ℕ × ℕ) → ℕ
count_active window now [] = 0
count_active window now ((u, t) ∷ m) =
    let rest = count_active window now m in if leb (now - t) window then suc rest else rest

abbrev pub active_count : TalkerSet → ℕ → ℕ
active_count s now = count_active s.window now s.seen

-- The body of the loop, for the entry `(u, t)` that was popped.
unfoldable pub expire : ℕ → ℕ → ℕ → ℕ → List (ℕ × ℕ) → List (ℕ × ℕ)
expire window now u t m = elim (seen_at u m) [
  | none ↦ m
  | some cur ↦ if cur == t && ltb window (now - cur) then forget u m else m
]

-- The loop of `prune` on `order`, with the map.
unfoldable pub prune_loop : ℕ → ℕ → List (ℕ × ℕ) → List (ℕ × ℕ) → List (ℕ × ℕ) × List (ℕ × ℕ)
prune_loop window now [] m = ([], m)
prune_loop window now ((u, t) ∷ order) m = elim (leb (now - t) window) [
  | true ↦ ((u, t) ∷ order, m)
  | false ↦ prune_loop window now order (expire window now u t m)
]

unfoldable pub prune : TalkerSet → ℕ → TalkerSet
prune s now =
    let (order, seen) = prune_loop s.window now s.order s.seen in
    record s { order = order; seen = seen }

-- The clock is read by `prune`, `is_active`, `active_count` and `touch`, in this order.
unfoldable pub allow_talker : TalkerSet → ℕ → ℕ → ℕ → ℕ → ℕ → ℕ → Bool × TalkerSet
allow_talker s max_talkers sender at_prune at_test at_count at_touch =
    let pruned = prune s at_prune in
    if is_active pruned sender at_test
    then (true, touch pruned sender at_touch)
    else if leb (max max_talkers 1) (active_count pruned at_count)
    then (false, pruned)
    else (true, touch pruned sender at_touch)
