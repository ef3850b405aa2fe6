-- ===== src/OverwriteQueue.antt =====
-- server/gateway/src/overwrite_queue.rs: the bounded queue that overwrites its oldest item, and the
-- consumer of voice packets. The mutex makes each operation one step; times are numbers of one
-- unit, and the clock's readings are arguments. `Notify` belongs to tokio: that `notify_one` was
-- called is part of `push`'s result, and `Waits` is where a consumer sleeps until it is notified.
pub mod Push
pub mod Realtime
pub mod Outcome
mod Runs
use tsod.Prelude.{
  ℕ, zero, suc, ◌+◌, ◌-◌, ◌/◌, ◌%◌, ◌^◌, max, Bool, true, false, ◌&&◌, ◌||◌, Option, none, some,
  List, [], ◌∷◌, ◌++◌, if◌then◌else◌, ltb, leb, ◌==◌, saturating_add, length, drop, Bytes,
}

pub record OverwriteQueue {ℓ} (T : Type ℓ) : Type ℓ where
  pub cap : ℕ
  pub q : List T
  pub closed : Bool
  pub overflow_evictions_total : ℕ

-- `fetch_add` on an `AtomicU64`
abbrev pub add_u64 : ℕ → ℕ → ℕ
add_u64 a b = (a + b) % 2 ^ 64

module _ {ℓ} {T : Type ℓ} where
  -- `none` is the failed assertion on a capacity of 0.
  unfoldable pub new : ℕ → Option (OverwriteQueue T)
  new cap =
      if ltb 0 cap
      then some (record { cap = cap; q = []; closed = false; overflow_evictions_total = 0 })
      else none

  -- `pop_front`, which leaves an empty deque alone.
  abbrev pub pop_front : List T → List T
  pop_front [] = []
  pop_front (x ∷ xs) = xs

  abbrev pub is_empty : List T → Bool
  is_empty [] = true
  is_empty (x ∷ xs) = false

  -- The queue, and whether `notify_one` was called.
  unfoldable pub push : OverwriteQueue T → T → OverwriteQueue T × Bool
  push s item =
      if s.closed
      then (s, false)
      else if leb s.cap (length s.q)
      then (
        record s {
          q = pop_front s.q ++ (item ∷ []);
          overflow_evictions_total = add_u64 s.overflow_evictions_total 1;
        },
        is_empty s.q,
      )
      else (record s { q = s.q ++ (item ∷ []) }, is_empty s.q)

  -- Items pushed one after the other.
  unfoldable pub push_all : OverwriteQueue T → List T → OverwriteQueue T
  push_all s [] = s
  push_all s (x ∷ xs) = push_all (push s x).0 xs

  unfoldable pub close : OverwriteQueue T → OverwriteQueue T
  close s = record s { closed = true }

  pub is_closed : OverwriteQueue T → Bool
  is_closed s = s.closed

  pub len : OverwriteQueue T → ℕ
  len s = length s.q

  unfoldable pub overflow_evictions_swap : OverwriteQueue T → ℕ × OverwriteQueue T
  overflow_evictions_swap s =
      (s.overflow_evictions_total, record s { overflow_evictions_total = 0 })

-- What a pass of a consumer's loop comes to.
pub data Pass {ℓ} (T : Type ℓ) : Type ℓ where
  returns : Option T → Pass T
  waits : Pass T
  repeats : Pass T

module _ {ℓ} {T : Type ℓ} where
  -- One pass of `pop_wait`.
  unfoldable pub pop_wait_pass : OverwriteQueue T → Pass T × OverwriteQueue T
  pop_wait_pass s = elim s.q [
    | x ∷ rest ↦ (returns (some x), record s { q = rest })
    | [] ↦ if s.closed then (returns none, s) else (waits, s)
  ]

abbrev pub StampedBytes : Type 0
StampedBytes = ℕ × Bytes

-- The loop that drops stale packets from the front; `Instant::duration_since` stops at 0. The
-- number of packets dropped is added to the count so far.
unfoldable pub drop_stale : ℕ → ℕ → List StampedBytes → ℕ → List StampedBytes × ℕ
drop_stale now max_age [] count = ([], count)
drop_stale now max_age ((enqueued_at, bytes) ∷ rest) count =
    let dropped = drop_stale now max_age rest (saturating_add (2 ^ 64 - 1) count 1) in
    if ltb max_age (now - enqueued_at) then dropped else ((enqueued_at, bytes) ∷ rest, count)

-- The age of the front, `Duration::default()` without one.
abbrev pub oldest_age : ℕ → List StampedBytes → ℕ
oldest_age now [] = 0
oldest_age now ((enqueued_at, bytes) ∷ rest) = now - enqueued_at

pub record Limits : Type 0 where
  pub max_age : ℕ
  pub keep_latest : ℕ
  pub drain_trigger_age : ℕ

abbrev pub trigger_drain : Limits → ℕ → ℕ → List StampedBytes → Bool
trigger_drain l cap now q =
    leb (max cap 2 / 2) (length q) || ltb l.drain_trigger_age (oldest_age now q)

-- The drain to the latest packets, with the number of packets it drops.
unfoldable pub drain_to_latest : Limits → ℕ → ℕ → List StampedBytes → List StampedBytes × ℕ
drain_to_latest l cap now q =
    if ltb 0 l.keep_latest && trigger_drain l cap now q && ltb l.keep_latest (length q)
    then (drop (length q - l.keep_latest) q, length q - l.keep_latest)
    else (q, 0)

pub record Drops : Type 0 where
  pub stale_drops : ℕ
  pub drain_drops : ℕ

-- What a pass holds when it gives the lock back: the packet taken out, if any, and the drops.
pub record Locked : Type 0 where
  pub item : Option StampedBytes
  pub rest : List StampedBytes
  pub drops : Drops

-- `front` and `pop_front` of what is left.
abbrev pub take_front : List StampedBytes → ℕ → ℕ → Locked
take_front [] stale drained = record {
  item = none;
  rest = [];
  drops = record { stale_drops = stale; drain_drops = drained };
}
take_front (x ∷ rest) stale drained = record {
  item = some x;
  rest = rest;
  drops = record { stale_drops = stale; drain_drops = drained };
}

-- The two sweeps with the drain between them, then the pop, on what the first sweep left.
unfoldable pub select_front : Limits → ℕ → ℕ → List StampedBytes → ℕ → Locked
select_front l cap now q stale =
    let (latest, drained) = drain_to_latest l cap now q in
    let (fresh, stale') = drop_stale now l.max_age latest stale in take_front fresh stale' drained

-- The counters that outlive a call.
pub record Totals : Type 0 where
  pub stale_drops_total : ℕ
  pub drain_drops_total : ℕ

abbrev pub count_drops : Totals → Drops → Totals
count_drops t d = record {
  stale_drops_total =
      if ltb 0 d.stale_drops
      then add_u64 t.stale_drops_total d.stale_drops
      else t.stale_drops_total;
  drain_drops_total =
      if ltb 0 d.drain_drops
      then add_u64 t.drain_drops_total d.drain_drops
      else t.drain_drops_total;
}

pub record Voice : Type 0 where
  pub queue : OverwriteQueue StampedBytes
  pub totals : Totals

-- After the lock: a packet that has become stale meanwhile is dropped, and the loop goes on.
unfoldable pub deliver : Limits → ℕ → Locked → Voice → Pass Bytes × Voice
deliver l later k v = elim k.item [
  | none ↦ (repeats, v)
  | some (enqueued_at, bytes) ↦
      if ltb l.max_age (later - enqueued_at)
      then (
        repeats,
        record v {
          totals = record (v.totals) { stale_drops_total = add_u64 v.totals.stale_drops_total 1 };
        },
      )
      else (returns (some bytes), v)
]

-- What is left after the first sweep, with the stale packets that it dropped. On a closed queue
-- the call returns before it adds the drops to the counters.
unfoldable pub voice_swept : Limits → ℕ → ℕ → Voice → List StampedBytes × ℕ → Pass Bytes × Voice
voice_swept l now later v ([], stale) =
    if v.queue.closed then (returns none, record v { queue = record (v.queue) { q = [] } }) else (
      waits,
      record v {
        queue = record (v.queue) { q = [] };
        totals = count_drops v.totals (record { stale_drops = stale; drain_drops = 0 });
      },
    )
voice_swept l now later v (x ∷ fresh, stale) =
    let k = select_front l v.queue.cap now (x ∷ fresh) stale in
    deliver l later k
      (record { queue = record (v.queue) { q = k.rest }; totals = count_drops v.totals k.drops })

-- One pass of `pop_voice_realtime`. The clock reads `now` under the lock and `later` after it.
unfoldable pub voice_pass : Limits → ℕ → ℕ → Voice → Pass Bytes × Voice
unfolding voice_swept
voice_pass l now later v = elim v.queue.q [
  | [] ↦ if v.queue.closed then (returns none, v) else (waits, v)
  | x ∷ rest ↦ voice_swept l now later v (drop_stale now l.max_age v.queue.q 0)
]

-- What the loop does with the end of a pass.
abbrev pub continue_with : (Voice → Pass Bytes × Voice) → Pass Bytes × Voice → Pass Bytes × Voice
continue_with next (returns result, v') = (returns result, v')
continue_with next (waits, v') = (waits, v')
continue_with next (repeats, v') = next v'

-- `pop_voice_realtime` up to its return or its next wait, on fuel; `clock` gives the two readings
-- of each pass. `repeats` means that the fuel ran out.
unfoldable pub pop_voice_realtime : ℕ → (ℕ → ℕ × ℕ) → Limits → Voice → Pass Bytes × Voice
pop_voice_realtime zero clock l v = (repeats, v)
pop_voice_realtime (suc fuel) clock l v =
    continue_with (pop_voice_realtime fuel clock l) (voice_pass l (clock fuel).0 (clock fuel).1 v)
