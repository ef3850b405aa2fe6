-- ===== src/StreamForwarder/Enqueue.antt =====
-- What a fragment for one session does to all the viewer loops.
use tsod.Prelude.{
  ℕ, ◌≡◌, ◌≢◌, refl, sym, ap, subst, ◌∙◌, Bool, true, false, Option, none, some, List, [], ◌∷◌,
  ◌++◌, if◌then◌else◌, leb, length, Bool-cases, Option-cases, inl, inr,
}
use tsod.Prelude.Maps.{
  lookup, insert, remove, pair_key, pair_same, pair_same_iff, lookup-insert, lookup-remove,
}
use tsod.StreamForwarder.ViewerLoops.{
  StreamForwarderConfig, Loops, ViewerLoopEntry, EnqueuedFragment, EnqueueOutcome, enqueued,
  queue_full, viewer_loop_closed, channel_capacity, spawn_viewer_loop,
  get_or_spawn_viewer_loop_handle, attempt_send, retried, enqueue_to_viewer,
}

-- What waits for the task of a session: nothing, where it has none or it has ended.
unfoldable pub waiting : Option ViewerLoopEntry → List EnqueuedFragment
waiting none = []
waiting (some entry) = if entry.closed then [] else entry.channel

abbrev pub waits : Loops → ℕ × ℕ → List EnqueuedFragment
waits loops key = waiting (lookup key loops)

-- The channel after one more fragment, which does not fit a full one.
abbrev pub offered :
    StreamForwarderConfig → EnqueuedFragment → List EnqueuedFragment → List EnqueuedFragment
offered cfg fragment channel =
    if leb (channel_capacity cfg) (length channel) then channel else channel ++ (fragment ∷ [])

spawned_waits :
    (cfg : StreamForwarderConfig) (loops : Loops) (key key' : ℕ × ℕ) (now : ℕ)
    → waits loops key ≡ []
    → waits (insert key (spawn_viewer_loop cfg now) (remove key loops)) key' ≡ waits loops key'
unfolding waiting spawn_viewer_loop
spawned_waits cfg loops key key' now none_waits =
    let found = lookup-insert key key' (spawn_viewer_loop cfg now) (remove key loops) in
    let others = lookup-remove key key' loops in
    elim (Bool-cases (pair_same key key')) [
      | inl here ↦
          let at : key ≡ key' = (pair_same_iff key key').0 here in
          rw (found, here) (sym none_waits ∙ ap (waits loops) at)
      | inr there ↦ rw (found, there) (rw (others, there) refl)
    ]

pub reuses :
    (cfg : StreamForwarderConfig) (loops : Loops) (key : ℕ × ℕ) (now : ℕ) (entry : ViewerLoopEntry)
    → lookup key loops ≡ some entry
    → entry.closed ≡ false
    → get_or_spawn_viewer_loop_handle cfg loops key now ≡ (entry, loops)
unfolding get_or_spawn_viewer_loop_handle
reuses cfg loops key now entry found running =
    rw (found, get_or_spawn_viewer_loop_handle) (rw running refl)

-- The handle is of a running task, and nothing waits elsewhere or is lost by it.
record Handle (cfg : StreamForwarderConfig) (loops : Loops) (key : ℕ × ℕ)
    (h : ViewerLoopEntry × Loops) : Type 0 where
  channel : h.0.channel ≡ waits loops key
  running : h.0.closed ≡ false
  others : (key' : ℕ × ℕ) → waits h.1 key' ≡ waits loops key'

get_or_spawn_viewer_loop_handle-Handle :
    (cfg : StreamForwarderConfig) (loops : Loops) (key : ℕ × ℕ) (now : ℕ)
    → Handle cfg loops key (get_or_spawn_viewer_loop_handle cfg loops key now)
unfolding get_or_spawn_viewer_loop_handle waiting
get_or_spawn_viewer_loop_handle-Handle cfg loops key now = elim (Option-cases (lookup key loops)) [
  | inl absent ↦
      let idle : waits loops key ≡ [] = rw absent refl in
      rw (absent, get_or_spawn_viewer_loop_handle)
        (record {
          channel = sym idle;
          running = refl;
          others = λ key'. spawned_waits cfg loops key key' now idle;
        })
  | inr (entry, found) ↦ elim (Bool-cases entry.closed) [
    | inl ended ↦
        let idle : waits loops key ≡ [] = rw found (rw ended refl) in
        rw (found, get_or_spawn_viewer_loop_handle)
          (rw ended (record {
            channel = sym idle;
            running = refl;
            others = λ key'. spawned_waits cfg loops key key' now idle;
          }))
    | inr running ↦ rw (reuses cfg loops key now entry found running) (record {
      channel = sym (rw found (rw running refl));
      running = running;
      others = λ key'. refl;
    })
  ]
]

-- With a task that runs on, the fragment is offered to the session's channel and to no other.
pub record Offered (cfg : StreamForwarderConfig) (fragment : EnqueuedFragment) (loops : Loops)
    (key : ℕ × ℕ) (r : EnqueueOutcome × Loops) : Type 0 where
  pub outcome :
      r.0 ≡ (if leb (channel_capacity cfg) (length (waits loops key)) then queue_full else enqueued)
  pub waiting_at :
      (key' : ℕ × ℕ)
      → waits r.1 key'
        ≡ (if pair_same key key' then offered cfg fragment (waits loops key') else waits loops key')

attempt_send-Offered :
    (cfg : StreamForwarderConfig) (loops : Loops) (key : ℕ × ℕ) (fragment : EnqueuedFragment)
    (now : ℕ)
    → Offered cfg fragment loops key (attempt_send cfg loops key fragment now false)
unfolding attempt_send waiting
attempt_send-Offered cfg loops key fragment now =
    elim (Bool-cases (leb (channel_capacity cfg) (length entry.channel))) [
      | inl full ↦ rw full (record {
        outcome = rw (← h.channel) (rw full refl);
        waiting_at = λ key'. unchanged key' full;
      })
      | inr room ↦ rw room (record {
        outcome = rw (← h.channel) (rw room refl);
        waiting_at = λ key'. appended key' room;
      })
    ]
  where
    h : Handle cfg loops key (get_or_spawn_viewer_loop_handle cfg loops key now)
    h = get_or_spawn_viewer_loop_handle-Handle cfg loops key now

    entry : ViewerLoopEntry
    entry = (get_or_spawn_viewer_loop_handle cfg loops key now).0

    loops' : Loops
    loops' = (get_or_spawn_viewer_loop_handle cfg loops key now).1

    same : (key' : ℕ × ℕ) → pair_same key key' ≡ true → waits loops key' ≡ entry.channel
    same key' here = ap (waits loops) (sym ((pair_same_iff key key').0 here)) ∙ sym h.channel

    unchanged :
        (key' : ℕ × ℕ)
        → leb (channel_capacity cfg) (length entry.channel) ≡ true
        → waits loops' key' ≡ (
            if pair_same key key'
            then offered cfg fragment (waits loops key')
            else waits loops key')
    unchanged key' full = elim (Bool-cases (pair_same key key')) [
      | inl here ↦ rw here (h.others key' ∙ rw (same key' here) (rw full refl))
      | inr there ↦ rw there (h.others key')
    ]

    now_waits :
        waiting (some (record entry { channel = entry.channel ++ (fragment ∷ []) }))
        ≡ entry.channel ++ (fragment ∷ [])
    now_waits = rw (h.running, waiting) refl

    appended :
        (key' : ℕ × ℕ)
        → leb (channel_capacity cfg) (length entry.channel) ≡ false
        → waits
            (insert key (record entry { channel = entry.channel ++ (fragment ∷ []) }) loops')
            key'
          ≡ (if pair_same key key'
              then offered cfg fragment (waits loops key')
              else waits loops key')
    appended key' room =
        let found =
          lookup-insert key key' (record entry { channel = entry.channel ++ (fragment ∷ []) })
            loops' in
        elim (Bool-cases (pair_same key key')) [
          | inl here ↦ rw here (rw (found, here) (now_waits ∙ rw (same key' here) (rw room refl)))
          | inr there ↦ rw there (rw (found, there) (h.others key'))
        ]

kept :
    (o : EnqueueOutcome) (loops : Loops) (second : EnqueueOutcome × Loops)
    → o ≢ viewer_loop_closed
    → (o, loops) ≡ retried (o, loops) second
kept enqueued loops second h = refl
kept queue_full loops second h = refl
kept viewer_loop_closed loops second h = absurd (h refl)

-- With a task that runs on, one attempt is enough.
open_channel :
    (full : Bool) {o : EnqueueOutcome}
    → o ≡ (if full then queue_full else enqueued)
    → o ≢ viewer_loop_closed
open_channel true e c = cc (e, c)
open_channel false e c = cc (e, c)

pub enqueue_to_viewer-Offered :
    (cfg : StreamForwarderConfig) (loops : Loops) (key : ℕ × ℕ) (fragment : EnqueuedFragment)
    (now : ℕ)
    → Offered cfg fragment loops key (enqueue_to_viewer cfg loops key fragment now (false, false))
unfolding enqueue_to_viewer
enqueue_to_viewer-Offered cfg loops key fragment now =
    let o = attempt_send-Offered cfg loops key fragment now in
    let first = attempt_send cfg loops key fragment now false in
    let second = attempt_send cfg first.1 key fragment now false in
    let full = leb (channel_capacity cfg) (length (waits loops key)) in
    subst (Offered cfg fragment loops key)
      (kept first.0 first.1 second (open_channel full o.outcome)) o
