-- ===== src/VideoTransport/Slot.antt =====
-- `ReassemblyKey` and `FrameSlot` of client/src/net/video_transport.rs: the fragments of one frame
-- with a bit mask of those that have come. An instant is a count of milliseconds.
pub mod Mask
pub mod Insert
use Prim.Native.Nat.{bit_and, bit_or}
use tsod.Prelude.{
  ℕ, suc, ◌+◌, ◌*◌, ◌/◌, ◌%◌, ◌^◌, Bool, true, false, not, ◌&&◌, ◌||◌, Option, none, some, List, [],
  ◌∷◌, if◌then◌else◌, leb, ◌==◌, get_or, set, replicate, Bytes,
}
use tsod.Wire.Limits.{max_frags_per_frame}

pub record ReassemblyKey : Type 0 where
  pub stream_tag : ℕ
  pub frame_seq : ℕ
  pub layer_id : ℕ

-- The derived equality.
abbrev pub key_eq : ReassemblyKey → ReassemblyKey → Bool
key_eq a b =
    a.stream_tag == b.stream_tag && (a.frame_seq == b.frame_seq && a.layer_id == b.layer_id)

pub record FrameSlot : Type 0 where
  pub key : ReassemblyKey
  pub frag_total : ℕ
  pub received_mask : List ℕ
  pub received_count : ℕ
  pub fragments : List (Option Bytes)
  pub is_keyframe : Bool
  pub is_recovery : Bool
  pub ts_ms : ℕ
  pub last_updated_at : ℕ

-- The word and the bit in it.
abbrev pub bit_index : ℕ → ℕ × ℕ
bit_index frag_idx = (frag_idx / 64, 2 ^ (frag_idx % 64))

-- `div_ceil(64)`
abbrev pub needed_words : ℕ → ℕ
needed_words frag_total = (frag_total + 63) / 64

unfoldable pub new : ReassemblyKey → ℕ → Bool → Bool → ℕ → ℕ → FrameSlot
new key frag_total is_keyframe is_recovery ts_ms now = record {
  key = key;
  frag_total = frag_total;
  received_mask = replicate (needed_words frag_total) 0;
  received_count = 0;
  fragments = replicate frag_total none;
  is_keyframe = is_keyframe;
  is_recovery = is_recovery;
  ts_ms = ts_ms;
  last_updated_at = now;
}

-- The new slot, and whether the frame is now complete.
unfoldable pub insert : FrameSlot → ℕ → Bytes → Bool × FrameSlot
insert s frag_idx payload =
    let (word, mask) = bit_index frag_idx in
    let old = get_or s.received_mask word 0 in
    let count = (s.received_count + 1) % 2 ^ 16 in
    if leb s.frag_total frag_idx || leb max_frags_per_frame frag_idx
    then (false, s)
    else if not (bit_and old mask == 0)
    then (false, s)
    else (
      count == s.frag_total,
      record s {
        received_mask = set s.received_mask word (bit_or old mask);
        received_count = count;
        fragments = set s.fragments frag_idx (some payload);
      },
    )

unfoldable pub take_fragments : FrameSlot → List (Option Bytes) × FrameSlot
take_fragments s = (s.fragments, record s { fragments = [] })

unfoldable pub reset : FrameSlot → ReassemblyKey → ℕ → Bool → Bool → ℕ → ℕ → FrameSlot
reset s key frag_total is_keyframe is_recovery ts_ms now = record s {
  key = key;
  frag_total = frag_total;
  received_mask = replicate (needed_words frag_total) 0;
  received_count = 0;
  is_keyframe = is_keyframe;
  is_recovery = is_recovery;
  ts_ms = ts_ms;
  last_updated_at = now;
  fragments = replicate frag_total none;
}
