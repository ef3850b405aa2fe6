-- ===== src/VideoTransport/Receiver.antt =====
-- `VideoReceiver` of client/src/net/video_transport.rs, with the fields that only its tests have left
-- out. The clock's reading is an argument; `free_slots`, of which only the end is used, starts with
-- its last element here.
pub mod Filled
pub mod Eviction
pub mod Progress
pub mod Tracking
pub mod Reassembly
use tsod.Prelude.{
  ℕ, ◌+◌, ◌-◌, ◌*◌, ◌^◌, min, max, Bool, true, false, Option, none, some, List, [], ◌∷◌, ◌++◌,
  if◌then◌else◌, ltb, leb, length, drop, Bytes, saturating_add,
}
use tsod.Wire.Limits.{video_header_bytes}
use tsod.Wire.Video.{VideoHeader, parse, is_keyframe, is_recovery}
use tsod.VideoTransport.Slot.{ReassemblyKey, FrameSlot, key_eq, insert, take_fragments, reset}
use tsod.VideoTransport.Slot

pub data IncompleteFrameEvictionReason : Type 0 where
  capacity timeout : IncompleteFrameEvictionReason

pub record IncompleteFrameEviction : Type 0 where
  pub stream_tag : ℕ
  pub layer_id : ℕ
  pub frame_seq : ℕ
  pub received_fragments : ℕ
  pub expected_fragments : ℕ
  pub reason : IncompleteFrameEvictionReason

pub record VideoReceiverStats : Type 0 where
  pub incomplete_evictions_capacity : ℕ
  pub incomplete_evictions_timeout : ℕ

pub record ReassembledFrame : Type 0 where
  pub stream_tag : ℕ
  pub layer_id : ℕ
  pub frame_seq : ℕ
  pub ts_ms : ℕ
  pub is_keyframe : Bool
  pub is_recovery : Bool
  pub payload : Bytes
  pub fragments : List Bytes

unfoldable pub flatten_fragments : List Bytes → Bytes
flatten_fragments [] = []
flatten_fragments (fragment ∷ rest) = fragment ++ flatten_fragments rest

-- `into_iter().flatten().collect()`
unfoldable pub present : List (Option Bytes) → List Bytes
present [] = []
present (none ∷ rest) = present rest
present (some fragment ∷ rest) = fragment ∷ present rest

pub record VideoReceiver : Type 0 where
  pub slots : List FrameSlot
  pub free_slots : List FrameSlot
  pub max_slots : ℕ
  pub max_frags_per_frame : ℕ
  pub incomplete_frame_timeout : ℕ
  pub stats : VideoReceiverStats
  pub recent_incomplete_evictions : List IncompleteFrameEviction

unfoldable pub with_incomplete_timeout : ℕ → ℕ → ℕ → VideoReceiver
with_incomplete_timeout max_in_flight_frames max_frags_per_frame incomplete_frame_timeout = record {
  slots = [];
  free_slots = [];
  max_slots = max_in_flight_frames;
  max_frags_per_frame = max_frags_per_frame;
  incomplete_frame_timeout = incomplete_frame_timeout;
  stats = record { incomplete_evictions_capacity = 0; incomplete_evictions_timeout = 0 };
  recent_incomplete_evictions = [];
}

unfoldable pub new : ℕ → ℕ → VideoReceiver
unfolding with_incomplete_timeout
new max_in_flight_frames max_frags_per_frame =
    with_incomplete_timeout max_in_flight_frames max_frags_per_frame 750

-- `self.max_slots.saturating_mul(4).max(8)`
abbrev pub max_events : ℕ → ℕ
max_events max_slots = max (min (max_slots * 4) (2 ^ 64 - 1)) 8

unfoldable pub push_incomplete_eviction :
    VideoReceiver → FrameSlot → IncompleteFrameEvictionReason → VideoReceiver
push_incomplete_eviction r slot reason =
    let event : IncompleteFrameEviction = record {
      stream_tag = slot.key.stream_tag;
      layer_id = slot.key.layer_id;
      frame_seq = slot.key.frame_seq;
      received_fragments = slot.received_count;
      expected_fragments = slot.frag_total;
      reason = reason;
    } in
    let events = r.recent_incomplete_evictions in
    record r {
      recent_incomplete_evictions =
          (if leb (max_events r.max_slots) (length events) then drop 1 events else events)
          ++ (event ∷ []);
    }

abbrev pub count_eviction : IncompleteFrameEvictionReason → VideoReceiverStats → VideoReceiverStats
count_eviction capacity stats = record stats {
  incomplete_evictions_capacity = saturating_add (2 ^ 64 - 1) stats.incomplete_evictions_capacity 1;
}
count_eviction timeout stats = record stats {
  incomplete_evictions_timeout = saturating_add (2 ^ 64 - 1) stats.incomplete_evictions_timeout 1;
}

-- What both evictions do with the slot that they have popped.
unfoldable pub evict : VideoReceiver → FrameSlot → IncompleteFrameEvictionReason → ℕ → VideoReceiver
unfolding push_incomplete_eviction reset
evict r evicted reason now =
    let counted =
      push_incomplete_eviction (record r { stats = count_eviction reason r.stats }) evicted
        reason in
    let emptied =
      reset evicted evicted.key evicted.frag_total evicted.is_keyframe evicted.is_recovery
        evicted.ts_ms now in
    record counted { free_slots = emptied ∷ counted.free_slots }

-- The loop, with the slots from the front on.
unfoldable pub evict_stale : VideoReceiver → List FrameSlot → ℕ → VideoReceiver
evict_stale r [] now = record r { slots = [] }
evict_stale r (oldest ∷ rest) now =
    let evicted = evict_stale (evict r oldest timeout now) rest now in
    if ltb (now - oldest.last_updated_at) r.incomplete_frame_timeout
    then record r { slots = oldest ∷ rest }
    else evicted

unfoldable pub evict_timed_out_incomplete_frames : VideoReceiver → ℕ → VideoReceiver
unfolding evict_stale
evict_timed_out_incomplete_frames r now = evict_stale r r.slots now

-- The first slot with the key, with the slots before and after it.
unfoldable pub find_slot :
    ReassemblyKey → List FrameSlot → Option (List FrameSlot × FrameSlot × List FrameSlot)
find_slot key [] = none
find_slot key (s ∷ rest) =
    if key_eq s.key key then some ([], s, rest) else elim (find_slot key rest) [
      | none ↦ none
      | some (before, slot, after) ↦ some (s ∷ before, slot, after)
    ]

abbrev pub key_of : VideoHeader → ReassemblyKey
key_of hdr = record {
  stream_tag = hdr.stream_tag;
  frame_seq = hdr.frame_seq;
  layer_id = hdr.layer_id;
}

unfoldable pub frame_of : ReassemblyKey → FrameSlot → ReassembledFrame
unfolding flatten_fragments present
frame_of key slot =
    let fragments = present (take_fragments slot).0 in
    record {
      stream_tag = key.stream_tag;
      layer_id = key.layer_id;
      frame_seq = key.frame_seq;
      ts_ms = slot.ts_ms;
      is_keyframe = slot.is_keyframe;
      is_recovery = slot.is_recovery;
      payload = flatten_fragments fragments;
      fragments = fragments;
    }

-- `slot.reset` for the header at hand.
abbrev pub reset_for : FrameSlot → VideoHeader → ℕ → FrameSlot
reset_for slot hdr now =
    reset slot (key_of hdr) hdr.frag_total (is_keyframe hdr) (is_recovery hdr) hdr.ts_ms now

-- What both branches do with the slot that holds the frame, which lies between `before` and `after`.
unfoldable pub add_fragment :
    VideoReceiver
    → ℕ
    → VideoHeader
    → Bytes
    → List FrameSlot
    → FrameSlot
    → List FrameSlot
    → VideoReceiver × Option ReassembledFrame
unfolding take_fragments frame_of
add_fragment r now hdr payload before slot after =
    let (complete, slot') = insert slot hdr.frag_idx payload in
    let updated = record slot' { last_updated_at = now } in
    if complete
    then (
      record r {
        slots = before ++ after;
        free_slots = reset_for (take_fragments updated).1 hdr now ∷ r.free_slots;
      },
      some (frame_of (key_of hdr) updated),
    )
    else (record r { slots = before ++ (updated ∷ after) }, none)

-- A new frame evicts the oldest where no slot is left.
unfoldable pub evict_for_room : VideoReceiver → ℕ → VideoReceiver
unfolding evict
evict_for_room r now =
    if leb r.max_slots (length r.slots)
    then elim r.slots [
      | [] ↦ r
      | oldest ∷ rest ↦ evict (record r { slots = rest }) oldest capacity now
    ]
    else r

unfoldable pub take_slot : VideoReceiver → VideoHeader → ℕ → FrameSlot × VideoReceiver
unfolding reset Slot.new
take_slot r hdr now = elim r.free_slots [
  | [] ↦ (Slot.new (key_of hdr) hdr.frag_total (is_keyframe hdr) (is_recovery hdr) hdr.ts_ms now, r)
  | reused ∷ rest ↦ (reset_for reused hdr now, record r { free_slots = rest })
]

unfoldable pub accept :
    VideoReceiver → ℕ → VideoHeader → Bytes → VideoReceiver × Option ReassembledFrame
accept r now hdr payload = elim (find_slot (key_of hdr) r.slots) [
  | some (before, slot, after) ↦ add_fragment r now hdr payload before slot after
  | none ↦
      let (slot, r') = take_slot (evict_for_room r now) hdr now in
      add_fragment r' now hdr payload r'.slots slot []
]

unfoldable pub receive : VideoReceiver → ℕ → Bytes → VideoReceiver × Option ReassembledFrame
receive r now datagram =
    let r' = evict_timed_out_incomplete_frames r now in
    elim (parse datagram) [
      | none ↦ (r', none)
      | some hdr ↦
          if ltb r'.max_frags_per_frame hdr.frag_total
          then (r', none)
          else accept r' now hdr (drop video_header_bytes datagram)
    ]

unfoldable pub in_flight : VideoReceiver → ℕ
in_flight r = length r.slots

unfoldable pub take_incomplete_evictions :
    VideoReceiver → List IncompleteFrameEviction × VideoReceiver
take_incomplete_evictions r =
    (r.recent_incomplete_evictions, record r { recent_incomplete_evictions = [] })
