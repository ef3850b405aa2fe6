-- ===== src/StreamForwarder/ViewerLoops.antt =====
-- The viewer loops of server/media/stream_forwarder.rs: a bounded channel for each session of a
-- viewer, and the task behind it, which queues and sends. A task that has ended has closed its
-- channel.
use tsod.Prelude.{
  ℕ, zero, suc, ◌-◌, max, Bool, true, false, ◌||◌, none, some, List, [], ◌∷◌, ◌++◌, if◌then◌else◌,
  ltb, leb, length, Bytes,
}
use tsod.Prelude.Maps.{lookup, insert, remove, pair_key}
use tsod.Wire.Video.{VideoHeader}
use tsod.ViewerQueue.{ViewerQueue, StreamDropReason, push, drain, len}
use tsod.ViewerQueue

pub record StreamForwarderConfig : Type 0 where
  pub max_datagram_bytes : ℕ
  pub per_viewer_queue_fragments : ℕ
  pub per_viewer_max_frames : ℕ

pub record EnqueuedFragment : Type 0 where
  pub datagram : Bytes
  pub hdr : VideoHeader
  pub codec : ℕ

-- `channel` is what has been sent to the task and not yet been received.
pub record ViewerLoopEntry : Type 0 where
  pub channel : List EnqueuedFragment
  pub closed : Bool
  pub finished : Bool
  pub queue : ViewerQueue
  pub last_activity_ms : ℕ
  pub last_sent_ms : ℕ

pub data EnqueueOutcome : Type 0 where
  enqueued queue_full viewer_loop_closed : EnqueueOutcome

-- By user and session.
abbrev pub Loops : Type 0
Loops = List ((ℕ × ℕ) × ViewerLoopEntry)

abbrev pub channel_capacity : StreamForwarderConfig → ℕ
channel_capacity cfg = max cfg.per_viewer_queue_fragments 1024

unfoldable pub spawn_viewer_loop : StreamForwarderConfig → ℕ → ViewerLoopEntry
unfolding ViewerQueue.new
spawn_viewer_loop cfg now_ms = record {
  channel = [];
  closed = false;
  finished = false;
  queue = ViewerQueue.new cfg.per_viewer_queue_fragments cfg.per_viewer_max_frames;
  last_activity_ms = now_ms;
  last_sent_ms = now_ms;
}

-- The entry that is used, and the loops with it. The second look under the write lock sees what the
-- first has seen, as nothing runs in between.
unfoldable pub get_or_spawn_viewer_loop_handle :
    StreamForwarderConfig → Loops → ℕ × ℕ → ℕ → ViewerLoopEntry × Loops
unfolding spawn_viewer_loop
get_or_spawn_viewer_loop_handle cfg loops key now_ms =
    let spawned = spawn_viewer_loop cfg now_ms in
    elim (lookup key loops) [
      | none ↦ (spawned, insert key spawned (remove key loops))
      | some entry ↦
          if entry.closed then (spawned, insert key spawned (remove key loops)) else (entry, loops)
    ]

-- One attempt of `enqueue_to_viewer`. With `dies` the task ends between the look-up and `try_send`,
-- which then finds the channel closed, and the stale entry is removed.
unfoldable pub attempt_send :
    StreamForwarderConfig → Loops → ℕ × ℕ → EnqueuedFragment → ℕ → Bool → EnqueueOutcome × Loops
unfolding get_or_spawn_viewer_loop_handle
attempt_send cfg loops key fragment now_ms dies =
    let (entry, loops') = get_or_spawn_viewer_loop_handle cfg loops key now_ms in
    if dies
    then (viewer_loop_closed, remove key loops')
    else if leb (channel_capacity cfg) (length entry.channel)
    then (queue_full, loops')
    else (enqueued, insert key (record entry { channel = entry.channel ++ (fragment ∷ []) }) loops')

-- The outcome of the first attempt, or of the second if the first found the channel closed.
abbrev pub retried : EnqueueOutcome × Loops → EnqueueOutcome × Loops → EnqueueOutcome × Loops
retried (viewer_loop_closed, loops) second = second
retried (queue_full, loops) second = (queue_full, loops)
retried (enqueued, loops) second = (enqueued, loops)

-- `dies` says for each of the two attempts whether the task ends during it.
unfoldable pub enqueue_to_viewer :
    StreamForwarderConfig
    → Loops
    → ℕ × ℕ
    → EnqueuedFragment
    → ℕ
    → Bool × Bool
    → EnqueueOutcome × Loops
unfolding attempt_send
enqueue_to_viewer cfg loops key fragment now_ms dies =
    let first = attempt_send cfg loops key fragment now_ms dies.0 in
    retried first (attempt_send cfg first.1 key fragment now_ms dies.1)

unfoldable pub unregister_session : Loops → ℕ × ℕ → Loops
unregister_session loops key = remove key loops

abbrev pub is_stale : ℕ → ℕ → ViewerLoopEntry → Bool
is_stale now_ms max_idle_ms entry =
    ltb max_idle_ms (now_ms - entry.last_activity_ms) || (entry.finished || entry.closed)

unfoldable pub stale_keys : ℕ → ℕ → Loops → List (ℕ × ℕ)
stale_keys now_ms max_idle_ms [] = []
stale_keys now_ms max_idle_ms ((key, entry) ∷ rest) =
    let keys = stale_keys now_ms max_idle_ms rest in
    if is_stale now_ms max_idle_ms entry then key ∷ keys else keys

unfoldable pub remove_all : List (ℕ × ℕ) → Loops → Loops
remove_all [] loops = loops
remove_all (key ∷ keys) loops = remove_all keys (remove key loops)

unfoldable pub cleanup_stale_viewers : Loops → ℕ → ℕ → Loops
unfolding stale_keys remove_all
cleanup_stale_viewers loops now_ms max_idle_ms =
    remove_all (stale_keys now_ms max_idle_ms loops) loops

-- The inner loop of a tick: all that the channel holds goes to the queue.
unfoldable pub receive_all : List EnqueuedFragment → ViewerQueue → ViewerQueue
receive_all [] q = q
receive_all (fragment ∷ rest) q = receive_all rest (push q fragment.datagram fragment.hdr).0

-- What the task receives while it waits for a tick.
abbrev pub take_fragment : ViewerLoopEntry → ℕ → List EnqueuedFragment → ViewerLoopEntry
take_fragment entry now_ms [] = entry
take_fragment entry now_ms (fragment ∷ rest) = record entry {
  channel = rest;
  queue = (push entry.queue fragment.datagram fragment.hdr).0;
  last_activity_ms = now_ms;
}

unfoldable pub on_fragment : ViewerLoopEntry → ℕ → ViewerLoopEntry
on_fragment entry now_ms = take_fragment entry now_ms entry.channel

-- Sends until one fails: the datagrams that were sent, and whether all were. `can_send` says how many
-- the connection still takes.
unfoldable pub send_burst : ℕ → List Bytes → List Bytes × Bool
send_burst can_send [] = ([], true)
send_burst zero (d ∷ rest) = ([], false)
send_burst (suc can_send) (d ∷ rest) = let (done, all) = send_burst can_send rest in (d ∷ done, all)

-- A tick of the running task at `now_ms`: the channel goes to the queue, and the queue to the
-- connection, if there is something in it. A failed send ends the task; it also ends when its entry has been removed.
unfoldable pub on_tick : ViewerLoopEntry → ℕ → ℕ → List Bytes × ViewerLoopEntry
unfolding receive_all send_burst drain
on_tick entry now_ms can_send =
    let filled = receive_all entry.channel entry.queue in
    let (datagrams, emptied) =
      if leb 1 (length filled.fragments) then drain filled else ([], filled) in
    let (sent, all) = send_burst can_send datagrams in
    let active = if leb 1 (length entry.channel) then now_ms else entry.last_activity_ms in
    (
      sent,
      record entry {
        channel = [];
        queue = emptied;
        closed = if all then entry.closed else true;
        finished = if all then entry.finished else true;
        last_activity_ms = active;
        last_sent_ms = if leb 1 (length sent) then now_ms else entry.last_sent_ms;
      },
    )
