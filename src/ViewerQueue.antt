-- ===== src/ViewerQueue.antt =====
-- The frame-aware bounded queue of one viewer session, `ViewerQueue` of
-- server/media/stream_forwarder.rs. A datagram is its bytes; the deques are lists, oldest first.
pub mod Frames
pub mod Invariant
pub mod Eviction
pub mod Push
pub mod Drops
mod Runs
use tsod.Prelude.{
  ℕ, zero, suc, ◌+◌, Bool, true, false, not, ◌&&◌, ◌||◌, Option, none, some, List, [], ◌∷◌, ◌++◌,
  map, if◌then◌else◌, ltb, leb, ◌==◌, saturating_add, length, retain, Bytes,
}
use tsod.Wire.Video.{VideoHeader, is_priority}

pub data StreamDropReason : Type 0 where
  queue_full viewer_loop_closed evicted_oldest_frame malformed unauthorized : StreamDropReason

pub record QueuedFragment : Type 0 where
  pub datagram : Bytes
  pub frame_seq : ℕ
  pub is_priority : Bool

pub record FrameInfo : Type 0 where
  pub frame_seq : ℕ
  pub is_priority : Bool
  pub fragment_count : ℕ

pub record PushOutcome : Type 0 where
  pub evicted_frames : ℕ
  pub dropped_incoming_fragment : Bool
  pub drop_reason : Option StreamDropReason

pub record ViewerQueue : Type 0 where
  pub fragments : List QueuedFragment
  pub frames : List FrameInfo
  pub capacity : ℕ
  pub max_frames : ℕ

unfoldable pub new : ℕ → ℕ → ViewerQueue
new capacity max_frames = record {
  fragments = [];
  frames = [];
  capacity = capacity;
  max_frames = max_frames;
}

abbrev u16_max : ℕ
u16_max = 65535

-- The scan of `update_frame_tracking`: the first entry of the frame is updated, and where there is
-- none a new entry goes to the back.
unfoldable pub track : VideoHeader → List FrameInfo → List FrameInfo
track hdr [] =
    record { frame_seq = hdr.frame_seq; is_priority = is_priority hdr; fragment_count = 1 } ∷ []
track hdr (fi ∷ rest) =
    if fi.frame_seq == hdr.frame_seq
    then record fi {
      fragment_count = saturating_add u16_max fi.fragment_count 1;
      is_priority = if is_priority hdr then true else fi.is_priority;
    }
      ∷ rest
    else fi ∷ track hdr rest

unfoldable pub update_frame_tracking : ViewerQueue → VideoHeader → ViewerQueue
unfolding track
update_frame_tracking q hdr = record q { frames = track hdr q.frames }

-- The first entry that passes the test, with the entries that `remove` at its index leaves.
unfoldable pub take_first {ℓ} : {A : Type ℓ} → (A → Bool) → List A → Option (A × List A)
take_first p [] = none
take_first p (x ∷ xs) =
    if p x
    then some (x, xs)
    else elim (take_first p xs) [ none ↦ none | some (y, ys) ↦ some (y, x ∷ ys) ]

-- Not the frame that is being pushed.
abbrev pub other : ℕ → FrameInfo → Bool
other current_frame_seq fi = not (fi.frame_seq == current_frame_seq)

-- The oldest non-priority frame that is not the current one, or else the oldest frame that is not.
unfoldable pub victim : ℕ → List FrameInfo → Option (FrameInfo × List FrameInfo)
unfolding take_first
victim current_frame_seq frames =
    elim (take_first (λ fi. other current_frame_seq fi && not fi.is_priority) frames) [
      | some choice ↦ some choice
      | none ↦ take_first (other current_frame_seq) frames
    ]

-- `none` is the answer `false`, with the queue unchanged.
unfoldable pub evict_one_frame : ViewerQueue → ℕ → Option ViewerQueue
unfolding victim
evict_one_frame q current_frame_seq = elim (victim current_frame_seq q.frames) [
  | none ↦ none
  | some (evicted, rest) ↦ some (record q {
    frames = rest;
    fragments = retain (λ f. not (f.frame_seq == evicted.frame_seq)) q.fragments;
  })
]

-- The condition of the eviction loop.
abbrev pub over_limit : ViewerQueue → Bool
over_limit q = leb q.capacity (length q.fragments) || ltb q.max_frames (length q.frames)

-- The eviction loop, with the count of evicted frames. Each round takes one entry off `frames`, so
-- their number is enough fuel.
unfoldable pub evict_loop : ℕ → ViewerQueue → ℕ → ℕ → ViewerQueue × ℕ
evict_loop zero q current_frame_seq evicted = (q, evicted)
evict_loop (suc fuel) q current_frame_seq evicted = elim (over_limit q) [
  | false ↦ (q, evicted)
  | true ↦ elim (evict_one_frame q current_frame_seq) [
    | none ↦ (q, evicted)
    | some q' ↦ evict_loop fuel q' current_frame_seq (evicted + 1)
  ]
]

abbrev pub queued : Bytes → VideoHeader → QueuedFragment
queued datagram hdr = record {
  datagram = datagram;
  frame_seq = hdr.frame_seq;
  is_priority = is_priority hdr;
}

-- What `push` does once the loop has ended.
unfoldable pub enqueue : Bytes → VideoHeader → ViewerQueue × ℕ → ViewerQueue × PushOutcome
enqueue datagram hdr (q, evicted) =
    if leb q.capacity (length q.fragments)
    then (
      q,
      record {
        evicted_frames = evicted;
        dropped_incoming_fragment = true;
        drop_reason = some queue_full;
      },
    )
    else (
      record q { fragments = q.fragments ++ (queued datagram hdr ∷ []) },
      record {
        evicted_frames = evicted;
        dropped_incoming_fragment = false;
        drop_reason = if ltb 0 evicted then some evicted_oldest_frame else none;
      },
    )

-- The queue after the frame has been tracked and the loop has ended.
unfoldable pub make_room : ViewerQueue → VideoHeader → ViewerQueue × ℕ
unfolding update_frame_tracking
make_room q hdr =
    let tracked = update_frame_tracking q hdr in
    evict_loop (suc (length tracked.frames)) tracked hdr.frame_seq 0

unfoldable pub push : ViewerQueue → Bytes → VideoHeader → ViewerQueue × PushOutcome
push q datagram hdr = enqueue datagram hdr (make_room q hdr)

-- The datagrams that are sent, and the queue that is left.
unfoldable pub drain : ViewerQueue → List Bytes × ViewerQueue
drain q = (map (λ f. f.datagram) q.fragments, record q { frames = []; fragments = [] })

pub len : ViewerQueue → ℕ
len q = length q.fragments
