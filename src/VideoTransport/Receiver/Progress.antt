-- ===== src/VideoTransport/Receiver/Progress.antt =====
-- One frame on its way: what a fragment of it does to the slot that gathers it.
use tsod.Prelude.{
  ℕ, ◌+◌, ◌≤◌, ◌<◌, ◌≡◌, refl, sym, ap, ◌∙◌, Bool, true, false, none, some, List, [], ◌∷◌, ◌++◌,
  map, arith, if◌then◌else◌, ltb, length, get_or, contains, Bytes,
}
use tsod.Wire.Video.{VideoHeader, is_keyframe, is_recovery}
use tsod.VideoTransport.Slot.{ReassemblyKey, FrameSlot, insert, new}
use tsod.VideoTransport.Slot.Mask.{held, place, is_complete}
use tsod.VideoTransport.Slot.Insert.{IsSound, Inserted, insert-Inserted, new-IsSound}
use tsod.VideoTransport.Receiver.{
  VideoReceiver, ReassembledFrame, add_fragment, flatten_fragments, present, key_of,
}
use tsod.VideoTransport.Receiver.Filled.{
  filled, filled-nil, place-filled, held-filled, is_complete-filled_missing, filled_all,
  is_complete-map-some, present-map-some,
}

-- What the fragments of one frame have in common, and the chunks that they carry.
pub record Frame : Type 0 where
  pub key : ReassemblyKey
  pub ts_ms : ℕ
  pub is_keyframe : Bool
  pub is_recovery : Bool
  pub chunks : List Bytes

-- What the receiver makes of all the fragments.
abbrev pub whole : Frame → ReassembledFrame
whole f = record {
  stream_tag = f.key.stream_tag;
  layer_id = f.key.layer_id;
  frame_seq = f.key.frame_seq;
  ts_ms = f.ts_ms;
  is_keyframe = f.is_keyframe;
  is_recovery = f.is_recovery;
  payload = flatten_fragments f.chunks;
  fragments = f.chunks;
}

abbrev pub chunk : Frame → ℕ → Bytes
chunk f i = get_or f.chunks i []

-- `hdr` is the header of fragment `i`.
pub record IsFragment (f : Frame) (i : ℕ) (hdr : VideoHeader) : Type 0 where
  pub key : key_of hdr ≡ f.key
  pub idx : hdr.frag_idx ≡ i
  pub total : hdr.frag_total ≡ length f.chunks
  pub ts_ms : hdr.ts_ms ≡ f.ts_ms
  pub keyframe : is_keyframe hdr ≡ f.is_keyframe
  pub recovery : is_recovery hdr ≡ f.is_recovery

-- The slot has gathered the fragments whose numbers have been seen.
pub record Gathers (f : Frame) (seen : List ℕ) (slot : FrameSlot) : Type 0 where
  pub sound : IsSound slot
  pub key : slot.key ≡ f.key
  pub total : slot.frag_total ≡ length f.chunks
  pub fragments : slot.fragments ≡ filled 0 seen f.chunks
  pub ts_ms : slot.ts_ms ≡ f.ts_ms
  pub keyframe : slot.is_keyframe ≡ f.is_keyframe
  pub recovery : slot.is_recovery ≡ f.is_recovery

pub new-Gathers :
    (f : Frame) (i : ℕ) (hdr : VideoHeader) (now : ℕ)
    → length f.chunks ≤ 1024
    → IsFragment f i hdr
    → Gathers f []
        (new (key_of hdr) hdr.frag_total (is_keyframe hdr) (is_recovery hdr) hdr.ts_ms now)
unfolding new
new-Gathers f i hdr now cap m = record {
  sound =
      new-IsSound (key_of hdr) hdr.frag_total (is_keyframe hdr) (is_recovery hdr) hdr.ts_ms now
        (omega (arith, m.total, cap));
  key = m.key;
  total = m.total;
  fragments = rw m.total (sym (filled-nil 0 f.chunks));
  ts_ms = m.ts_ms;
  keyframe = m.keyframe;
  recovery = m.recovery;
}

module _ (f : Frame) (seen : List ℕ) (slot : FrameSlot) (i : ℕ) (g : Gathers f seen slot)
    (inside : i < length f.chunks) where
  inserted : Inserted slot i (chunk f i) (insert slot i (chunk f i)).0 (insert slot i (chunk f i)).1
  inserted = insert-Inserted slot i (chunk f i) g.sound

  placed : place slot.fragments i (chunk f i) ≡ filled 0 (i ∷ seen) f.chunks
  placed =
      let start : 0 + i ≡ i = omega arith in
      ap (λ t. place t i (chunk f i)) g.fragments
      ∙ place-filled 0 i seen f.chunks inside
      ∙ ap (λ x. filled 0 (x ∷ seen) f.chunks) start

  insert-Gathers : Gathers f (i ∷ seen) (insert slot i (chunk f i)).1
  insert-Gathers = record {
    sound = inserted.sound;
    key = inserted.same_key ∙ g.key;
    total = inserted.same_total ∙ g.total;
    fragments = inserted.fragments ∙ placed;
    ts_ms = inserted.same_time ∙ g.ts_ms;
    keyframe = inserted.same_keyframe ∙ g.keyframe;
    recovery = inserted.same_recovery ∙ g.recovery;
  }

  -- A fragment that leaves another one missing completes nothing.
  insert_missing :
      (j : ℕ)
      → j < length f.chunks
      → contains (i ∷ seen) j ≡ false
      → (insert slot i (chunk f i)).0 ≡ false
  insert_missing j h e =
      let at : contains (i ∷ seen) (0 + j) ≡ false =
        let start : 0 + j ≡ j = omega arith in ap (contains (i ∷ seen)) start ∙ e in
      let missing = is_complete-filled_missing 0 j (i ∷ seen) f.chunks h at in
      ground (arith, inserted.reported, ap is_complete placed, missing)

  -- The last missing fragment completes the frame.
  insert_last :
      contains seen i ≡ false
      → ((j : ℕ) → j < length f.chunks → contains (i ∷ seen) j ≡ true)
      → ((insert slot i (chunk f i)).0 ≡ true)
        × ((insert slot i (chunk f i)).1.fragments ≡ map some f.chunks)
  insert_last fresh all =
      let start : 0 + i ≡ i = omega arith in
      let all_filled = filled_all 0 (i ∷ seen) f.chunks everywhere in
      let free : held slot.fragments i ≡ 0 =
        ap (λ t. held t i) g.fragments
        ∙ held-filled 0 i seen f.chunks inside
        ∙ ap (λ x. if contains seen x then 1 else 0) start
        ∙ rw fresh refl in
      let complete : is_complete (place slot.fragments i (chunk f i)) ≡ true =
        ap is_complete (placed ∙ all_filled) ∙ is_complete-map-some f.chunks in
      let below : ltb i slot.frag_total ≡ true = ground (arith, g.total, inside) in
      (
        inserted.reported ∙ rw (below, free, complete) refl,
        inserted.fragments ∙ placed ∙ all_filled,
      )
    where
      everywhere : (j : ℕ) → j < length f.chunks → contains (i ∷ seen) (0 + j) ≡ true
      everywhere j h =
          let start : 0 + j ≡ j = omega arith in ap (contains (i ∷ seen)) start ∙ all j h

  -- The same of `add_fragment`, for the header of fragment `i`.
  module _ (r : VideoReceiver) (now : ℕ) (hdr : VideoHeader) (before after : List FrameSlot)
      (m : IsFragment f i hdr) where
    pub add_fragment_missing :
        (j : ℕ)
        → j < length f.chunks
        → contains (i ∷ seen) j ≡ false
        → (slot' : FrameSlot) × Gathers f (i ∷ seen) slot'
          × (slot'.last_updated_at ≡ now)
          × (add_fragment r now hdr (chunk f i) before slot after
              ≡ (record r { slots = before ++ (slot' ∷ after) }, none))
    unfolding add_fragment
    add_fragment_missing j h e =
        let v = insert-Gathers in
        (
          record ((insert slot i (chunk f i)).1) { last_updated_at = now },
          record {
            sound = record {
              within_cap = v.sound.within_cap;
              sized = v.sound.sized;
              words = v.sound.words;
              counted = v.sound.counted;
              marked = v.sound.marked;
            };
            key = v.key;
            total = v.total;
            fragments = v.fragments;
            ts_ms = v.ts_ms;
            keyframe = v.keyframe;
            recovery = v.recovery;
          },
          refl,
          rw (m.idx, insert_missing j h e) refl,
        )

    pub add_fragment_last :
        contains seen i ≡ false
        → ((j : ℕ) → j < length f.chunks → contains (i ∷ seen) j ≡ true)
        → (add_fragment r now hdr (chunk f i) before slot after).1 ≡ some (whole f)
    unfolding add_fragment
    add_fragment_last fresh all =
        let done = insert_last fresh all in
        let v = insert-Gathers in
        let chunks : present (insert slot i (chunk f i)).1.fragments ≡ f.chunks =
          ap present done.1 ∙ present-map-some f.chunks in
        let tag : hdr.stream_tag ≡ f.key.stream_tag = ap (λ k. k.stream_tag) m.key in
        let seq : hdr.frame_seq ≡ f.key.frame_seq = ap (λ k. k.frame_seq) m.key in
        let layer : hdr.layer_id ≡ f.key.layer_id = ap (λ k. k.layer_id) m.key in
        rw (m.idx, done.0, tag, seq, layer, v.ts_ms, v.keyframe, v.recovery, chunks) refl
