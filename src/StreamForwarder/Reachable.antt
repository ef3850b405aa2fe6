-- ===== src/StreamForwarder/Reachable.antt =====
-- The steps of the viewer loops, and what holds of them after any number of steps.
use tsod.Prelude.{
  ℕ, ◌-◌, ◌≤◌, ◌≡◌, ◌↔◌, sym, ◌∙◌, Bool, true, false, some, List, [], ◌∷◌, ◌++◌, arith, leb, length,
  length-snoc, Bool-cases, Option-cases, inl, inr, All,
}
use tsod.Prelude.Maps.{
  lookup, insert, remove, pair_key, Unique, insert-Unique, remove-Unique, remove-All, lookup-All,
}
use tsod.ViewerQueue.{ViewerQueue, push}
use tsod.ViewerQueue.Invariant.{
  IsConsistent, new-IsConsistent, push-IsConsistent, drain-IsConsistent,
}
use tsod.StreamForwarder.Enqueue.{reuses}
use tsod.StreamForwarder.Cleanup.{fresh_iff, lookup-cleanup_stale_viewers}
use tsod.StreamForwarder.ViewerLoops.{
  StreamForwarderConfig, Loops, ViewerLoopEntry, EnqueuedFragment, EnqueueOutcome, enqueued,
  queue_full, viewer_loop_closed, channel_capacity, spawn_viewer_loop,
  get_or_spawn_viewer_loop_handle, attempt_send, enqueue_to_viewer, unregister_session, remove_all,
  stale_keys, cleanup_stale_viewers, retried, receive_all, take_fragment, on_fragment, on_tick,
}

-- `received` and `ticked` are steps of the running task behind an entry.
pub data Step (cfg : StreamForwarderConfig) : Loops → Loops → Type 0 where
  sent :
      (loops : Loops) (key : ℕ × ℕ) (fragment : EnqueuedFragment) (now_ms : ℕ) (dies : Bool × Bool)
      → Step cfg loops (enqueue_to_viewer cfg loops key fragment now_ms dies).1
  received :
      (loops : Loops) (key : ℕ × ℕ) (entry : ViewerLoopEntry) (now_ms : ℕ)
      → lookup key loops ≡ some entry
      → entry.closed ≡ false
      → Step cfg loops (insert key (on_fragment entry now_ms) loops)
  ticked :
      (loops : Loops) (key : ℕ × ℕ) (entry : ViewerLoopEntry) (now_ms can_send : ℕ)
      → lookup key loops ≡ some entry
      → entry.closed ≡ false
      → Step cfg loops (insert key (on_tick entry now_ms can_send).1 loops)
  unregistered : (loops : Loops) (key : ℕ × ℕ) → Step cfg loops (unregister_session loops key)
  cleaned :
      (loops : Loops) (now_ms max_idle_ms : ℕ)
      → Step cfg loops (cleanup_stale_viewers loops now_ms max_idle_ms)

pub data Reachable (cfg : StreamForwarderConfig) : Loops → Type 0 where
  start : Reachable cfg []
  next : (loops loops' : Loops) → Reachable cfg loops → Step cfg loops loops' → Reachable cfg loops'

-- The channel keeps its bound, and the queue is consistent.
pub record IsValid (cfg : StreamForwarderConfig) (entry : ViewerLoopEntry) : Type 0 where
  pub bounded : length entry.channel ≤ channel_capacity cfg
  pub consistent : IsConsistent entry.queue

pub record AllValid (cfg : StreamForwarderConfig) (loops : Loops) : Type 0 where
  pub unique : Unique loops
  pub valid : All (λ (x : (ℕ × ℕ) × ViewerLoopEntry). IsValid cfg x.1) loops

receive_all-IsConsistent :
    (channel : List EnqueuedFragment) (q : ViewerQueue)
    → IsConsistent q
    → IsConsistent (receive_all channel q)
unfolding receive_all
receive_all-IsConsistent [] q c = c
receive_all-IsConsistent (f ∷ rest) q c =
    receive_all-IsConsistent rest (push q f.datagram f.hdr).0
      (push-IsConsistent q f.datagram f.hdr c)

module _ (cfg : StreamForwarderConfig) where
  insert-AllValid :
      (key : ℕ × ℕ) (entry : ViewerLoopEntry) (loops : Loops)
      → IsValid cfg entry
      → AllValid cfg loops
      → AllValid cfg (insert key entry loops)
  unfolding insert
  insert-AllValid key entry loops v a = record {
    unique = insert-Unique key entry loops a.unique;
    valid = (v, remove-All (IsValid cfg) key loops a.valid);
  }

  remove-AllValid :
      (key : ℕ × ℕ) (loops : Loops) → AllValid cfg loops → AllValid cfg (remove key loops)
  remove-AllValid key loops a = record {
    unique = remove-Unique key loops a.unique;
    valid = remove-All (IsValid cfg) key loops a.valid;
  }

  remove_all-AllValid :
      (keys : List (ℕ × ℕ)) (loops : Loops)
      → AllValid cfg loops
      → AllValid cfg (remove_all keys loops)
  unfolding remove_all
  remove_all-AllValid [] loops a = a
  remove_all-AllValid (key ∷ keys) loops a =
      remove_all-AllValid keys (remove key loops) (remove-AllValid key loops a)

  spawn-IsValid : (now : ℕ) → IsValid cfg (spawn_viewer_loop cfg now)
  unfolding spawn_viewer_loop
  spawn-IsValid now = record {
    bounded = omega arith;
    consistent = new-IsConsistent cfg.per_viewer_queue_fragments cfg.per_viewer_max_frames;
  }

  take_fragment-IsValid :
      (entry : ViewerLoopEntry) (now : ℕ) (channel : List EnqueuedFragment)
      → IsValid cfg entry
      → length channel ≤ channel_capacity cfg
      → IsValid cfg (take_fragment entry now channel)
  take_fragment-IsValid entry now [] v bound = v
  take_fragment-IsValid entry now (f ∷ rest) v bound = record {
    bounded = omega (arith, bound);
    consistent = push-IsConsistent entry.queue f.datagram f.hdr v.consistent;
  }

  on_fragment-IsValid :
      (entry : ViewerLoopEntry) (now : ℕ) → IsValid cfg entry → IsValid cfg (on_fragment entry now)
  unfolding on_fragment
  on_fragment-IsValid entry now v = take_fragment-IsValid entry now entry.channel v v.bounded

  on_tick-IsValid :
      (entry : ViewerLoopEntry) (now can_send : ℕ)
      → IsValid cfg entry
      → IsValid cfg (on_tick entry now can_send).1
  unfolding on_tick
  on_tick-IsValid entry now can_send v = record {
    bounded = omega arith;
    consistent = elim (Bool-cases (leb 1 (length filled.fragments))) [
      | inl some_queued ↦ rw some_queued (drain-IsConsistent filled)
      | inr nothing ↦ rw nothing (receive_all-IsConsistent entry.channel entry.queue v.consistent)
    ];
  }
    where
      filled : ViewerQueue
      filled = receive_all entry.channel entry.queue

  -- The handle and the loops with it.
  handle-AllValid :
      (loops : Loops) (key : ℕ × ℕ) (now : ℕ)
      → AllValid cfg loops
      → IsValid cfg (get_or_spawn_viewer_loop_handle cfg loops key now).0
        × AllValid cfg (get_or_spawn_viewer_loop_handle cfg loops key now).1
  unfolding get_or_spawn_viewer_loop_handle
  handle-AllValid loops key now a =
      let spawned =
        insert-AllValid key (spawn_viewer_loop cfg now) (remove key loops) (spawn-IsValid now)
          (remove-AllValid key loops a) in
      elim (Option-cases (lookup key loops)) [
        | inl absent ↦ rw (absent, get_or_spawn_viewer_loop_handle) (spawn-IsValid now, spawned)
        | inr (entry, found) ↦ elim (Bool-cases entry.closed) [
          | inl ended ↦
              rw (found, get_or_spawn_viewer_loop_handle) (rw ended (spawn-IsValid now, spawned))
          | inr running ↦
              rw (reuses cfg loops key now entry found running)
                (lookup-All (IsValid cfg) key loops entry a.valid found, a)
        ]
      ]

  offered-IsValid :
      (entry : ViewerLoopEntry) (fragment : EnqueuedFragment)
      → leb (channel_capacity cfg) (length entry.channel) ≡ false
      → IsValid cfg entry
      → IsValid cfg (record entry { channel = entry.channel ++ (fragment ∷ []) })
  offered-IsValid entry fragment room v = record {
    bounded = ground (arith, length-snoc entry.channel fragment, room);
    consistent = v.consistent;
  }

  attempt_send-AllValid :
      (loops : Loops) (key : ℕ × ℕ) (fragment : EnqueuedFragment) (now : ℕ) (dies : Bool)
      → AllValid cfg loops
      → AllValid cfg (attempt_send cfg loops key fragment now dies).1
  unfolding attempt_send
  attempt_send-AllValid loops key fragment now true a =
      remove-AllValid key (get_or_spawn_viewer_loop_handle cfg loops key now).1
        (handle-AllValid loops key now a).1
  attempt_send-AllValid loops key fragment now false a =
      let h = get_or_spawn_viewer_loop_handle cfg loops key now in
      let v = handle-AllValid loops key now a in
      elim (Bool-cases (leb (channel_capacity cfg) (length h.0.channel))) [
        | inl full ↦ rw (full, attempt_send) v.1
        | inr room ↦
            rw (room, attempt_send)
              (insert-AllValid key (record (h.0) { channel = h.0.channel ++ (fragment ∷ []) }) h.1
                (offered-IsValid h.0 fragment room v.0) v.1)
      ]

  settled :
      (o : EnqueueOutcome) (loops : Loops) (second : EnqueueOutcome × Loops)
      → AllValid cfg loops
      → AllValid cfg second.1
      → AllValid cfg (retried (o, loops) second).1
  settled enqueued loops second a b = a
  settled queue_full loops second a b = a
  settled viewer_loop_closed loops second a b = b

  pub enqueue-AllValid :
      (loops : Loops) (key : ℕ × ℕ) (fragment : EnqueuedFragment) (now : ℕ) (dies : Bool × Bool)
      → AllValid cfg loops
      → AllValid cfg (enqueue_to_viewer cfg loops key fragment now dies).1
  unfolding enqueue_to_viewer
  enqueue-AllValid loops key fragment now dies a =
      let first = attempt_send cfg loops key fragment now dies.0 in
      let a' = attempt_send-AllValid loops key fragment now dies.0 a in
      settled first.0 first.1 (attempt_send cfg first.1 key fragment now dies.1) a'
        (attempt_send-AllValid first.1 key fragment now dies.1 a')

  Step-AllValid :
      {loops loops' : Loops} → Step cfg loops loops' → AllValid cfg loops → AllValid cfg loops'
  unfolding unregister_session cleanup_stale_viewers
  Step-AllValid (sent loops key fragment now dies) a =
      enqueue-AllValid loops key fragment now dies a
  Step-AllValid (received loops key entry now found running) a =
      insert-AllValid key (on_fragment entry now) loops
        (on_fragment-IsValid entry now (lookup-All (IsValid cfg) key loops entry a.valid found)) a
  Step-AllValid (ticked loops key entry now can_send found running) a =
      insert-AllValid key (on_tick entry now can_send).1 loops
        (on_tick-IsValid entry now can_send
          (lookup-All (IsValid cfg) key loops entry a.valid found))
        a
  Step-AllValid (unregistered loops key) a = remove-AllValid key loops a
  Step-AllValid (cleaned loops now idle) a = remove_all-AllValid (stale_keys now idle loops) loops a

  pub Reachable-AllValid : (loops : Loops) → Reachable cfg loops → AllValid cfg loops
  Reachable-AllValid _ start = record { unique = tt; valid = tt }
  Reachable-AllValid _ (next loops loops' r s) = Step-AllValid s (Reachable-AllValid loops r)

-- Whatever steps the viewer loops have made, an entry that is found has a channel within its capacity,
-- and its queue is within its capacity and its frame limit and tracks the frame of every fragment.
pub Reachable-IsValid :
    (cfg : StreamForwarderConfig) (loops : Loops) (key : ℕ × ℕ) (entry : ViewerLoopEntry)
    → Reachable cfg loops
    → lookup key loops ≡ some entry
    → IsValid cfg entry
Reachable-IsValid cfg loops key entry r found =
    lookup-All (IsValid cfg) key loops entry (Reachable-AllValid cfg loops r).valid found

-- Whatever steps the viewer loops have made, an entry is found after `cleanup_stale_viewers` exactly if it
-- was found before, has been idle for no longer than the given time, and its task has neither finished
-- nor closed its channel.
pub reachable_cleaned :
    (cfg : StreamForwarderConfig) (loops : Loops) (now_ms max_idle_ms : ℕ) (key : ℕ × ℕ)
    (entry : ViewerLoopEntry)
    → Reachable cfg loops
    → (lookup key (cleanup_stale_viewers loops now_ms max_idle_ms) ≡ some entry) ↔ (
        (lookup key loops ≡ some entry)
        × (now_ms - entry.last_activity_ms ≤ max_idle_ms)
        × (entry.finished ≡ false)
        × (entry.closed ≡ false))
reachable_cleaned cfg loops now_ms max_idle_ms key entry r =
    let left =
      lookup-cleanup_stale_viewers loops now_ms max_idle_ms key
        (Reachable-AllValid cfg loops r).unique in
    let kept = fresh_iff now_ms max_idle_ms entry (lookup key loops) in
    (λ found. kept.0 (sym left ∙ found), λ h. left ∙ kept.1 h)
