-- ===== src/ViewerQueue/Runs.antt =====
-- Concrete runs of the queue, and the theorems at concrete inputs.
use tsod.Prelude.{
  ℕ, ◌≤◌, ◌≡◌, ◌≢◌, ◌↔◌, refl, ◌⊎◌, Bool, true, false, none, some, [], ◌∷◌, ◌++◌, arith,
  if◌then◌else◌, ltb, ◌+◌, length,
}
use tsod.Wire.Video.{VideoHeader, is_priority}
use tsod.ViewerQueue.{
  QueuedFragment, ViewerQueue, queue_full, evicted_oldest_frame, push, make_room, evict_loop,
  evict_one_frame, enqueue,
}
use tsod.ViewerQueue.Invariant.{IsConsistent, push-IsConsistent}
use tsod.ViewerQueue.Push.{of_frame, added, push_whole_frames}
use tsod.ViewerQueue.Drops.{push_drops}

abbrev header : ℕ → ℕ → VideoHeader
header flags frame_seq = record {
  stream_tag = 1;
  layer_id = 0;
  flags = flags;
  frame_seq = frame_seq;
  frag_idx = 0;
  frag_total = 2;
  ts_ms = 1000;
}

abbrev fragment : ℕ → Bool → QueuedFragment
fragment s p = record { datagram = s ∷ []; frame_seq = s; is_priority = p }

-- A keyframe 1 and two fragments of frame 2, in a queue for three fragments.
abbrev full : ViewerQueue
full = record {
  fragments = fragment 1 true ∷ fragment 2 false ∷ fragment 2 false ∷ [];
  frames =
      record { frame_seq = 1; is_priority = true; fragment_count = 1 }
      ∷ record { frame_seq = 2; is_priority = false; fragment_count = 2 }
      ∷ [];
  capacity = 3;
  max_frames = 8;
}

full-IsConsistent : IsConsistent full
full-IsConsistent = ground arith

-- Frame 2 makes room for frame 3, and the older keyframe stays.
push_evicts :
    (push full (3 ∷ []) (header 0 3)).0.fragments ≡ fragment 1 true ∷ fragment 3 false ∷ []
unfolding push make_room evict_loop evict_one_frame enqueue is_priority
push_evicts = refl

push-IsConsistent_example : IsConsistent (push full (3 ∷ []) (header 0 3)).0
push-IsConsistent_example = push-IsConsistent full (3 ∷ []) (header 0 3) full-IsConsistent

push_whole_frames_example :
    let (q', o) = push full (3 ∷ []) (header 0 3) in
    ((s : ℕ) → s ≢ 3 → (of_frame s q' ≡ of_frame s full) ⊎ (of_frame s q' ≡ []))
    × (of_frame 3 q' ≡ of_frame 3 full ++ added (3 ∷ []) (header 0 3) o)
push_whole_frames_example = push_whole_frames full (3 ∷ []) (header 0 3) full-IsConsistent

push_drops_example :
    let (q', o) = push full (3 ∷ []) (header 0 3) in
    ((o.dropped_incoming_fragment ≡ true) ↔ (3 ≤ 0))
    × (length q'.frames + o.evicted_frames ≡ 3)
    × (o.drop_reason ≡ (
        if o.dropped_incoming_fragment
        then some queue_full
        else if ltb 0 o.evicted_frames
        then some evicted_oldest_frame
        else none))
push_drops_example = push_drops full (3 ∷ []) (header 0 3) full-IsConsistent
