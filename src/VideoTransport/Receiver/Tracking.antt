-- ===== src/VideoTransport/Receiver/Tracking.antt =====
-- Where a frame stands in a receiver, and what one more fragment of it does there.
use tsod.Prelude.{
  ℕ, ◌+◌, ◌≤◌, ◌<◌, ◌≡◌, refl, ap, ◌∙◌, true, false, none, some, List, [], ◌∷◌, ◌++◌, arith, length,
  contains,
}
use tsod.Wire.Video.{VideoHeader, is_keyframe, is_recovery}
use tsod.VideoTransport.Slot.{FrameSlot, new, key_eq}
use tsod.VideoTransport.Slot.Insert.{reset-eq-new}
use tsod.VideoTransport.Receiver.{
  VideoReceiver, accept, take_slot, evict_for_room, find_slot, evict_stale,
  evict_timed_out_incomplete_frames, key_of, reset_for,
}
use tsod.VideoTransport.Receiver.Eviction.{
  Lacks, find_slot-Lacks, find_slot_last, SameSettings, SameSettings-trans,
  evict_stale-SameSettings, evict_stale-All, evict_stale_last, evict_for_room-SameSettings,
  evict_for_room-All,
}
use tsod.VideoTransport.Receiver.Progress.{
  Frame, whole, chunk, IsFragment, Gathers, new-Gathers, add_fragment_missing, add_fragment_last,
}

take_slot-new :
    (r : VideoReceiver) (hdr : VideoHeader) (now : ℕ)
    → ((take_slot r hdr now).0
        ≡ new (key_of hdr) hdr.frag_total (is_keyframe hdr) (is_recovery hdr) hdr.ts_ms now)
      × ((take_slot r hdr now).1.slots ≡ r.slots)
      × SameSettings r (take_slot r hdr now).1
unfolding take_slot
take_slot-new r hdr now = taken r.free_slots
  where
    taken :
        (free : List FrameSlot)
        → let t : FrameSlot × VideoReceiver = elim free [
          | [] ↦
              (new (key_of hdr) hdr.frag_total (is_keyframe hdr) (is_recovery hdr) hdr.ts_ms now, r)
          | reused ∷ rest ↦ (reset_for reused hdr now, record r { free_slots = rest })
        ] in
          (t.0 ≡ new (key_of hdr) hdr.frag_total (is_keyframe hdr) (is_recovery hdr) hdr.ts_ms now)
          × (t.1.slots ≡ r.slots)
          × SameSettings r t.1
    taken [] = (refl, refl, record { max_slots = refl; max_frags = refl; timeout = refl })
    taken (reused ∷ rest) = (
      reset-eq-new reused (key_of hdr) hdr.frag_total (is_keyframe hdr) (is_recovery hdr) hdr.ts_ms
          now,
      refl,
      record { max_slots = refl; max_frags = refl; timeout = refl },
    )

-- Where the frame stands in the receiver: nothing of it has come, or its slot is the last one and was
-- updated at `first` or later.
pub data Tracks (f : Frame) (first : ℕ) (r : VideoReceiver) (seen : List ℕ) : Type 0 where
  absent : seen ≡ [] → Lacks f.key r.slots → Tracks f first r seen
  gathering :
      (before : List FrameSlot) (slot : FrameSlot)
      → r.slots ≡ before ++ (slot ∷ [])
      → Lacks f.key before
      → Gathers f seen slot
      → first ≤ slot.last_updated_at
      → Tracks f first r seen

pub evict-Tracks :
    (f : Frame) (first now : ℕ) (r : VideoReceiver) (seen : List ℕ)
    → Tracks f first r seen
    → first ≤ now
    → now < first + r.incomplete_frame_timeout
    → Tracks f first (evict_timed_out_incomplete_frames r now) seen
      × SameSettings r (evict_timed_out_incomplete_frames r now)
unfolding evict_timed_out_incomplete_frames
evict-Tracks f first now r seen (absent e h) start soon = (
  absent e (evict_stale-All (λ s. key_eq s.key f.key ≡ false) r r.slots now h),
  evict_stale-SameSettings r r.slots now,
)
evict-Tracks f first now r seen (gathering before slot e h g late) start soon =
    let (left, lacks, kept) =
      evict_stale_last f.key r before slot now h (omega (arith, start, soon, late)) in
    (
      gathering left slot (ap (λ s. (evict_stale r s now).slots) e ∙ kept) lacks g late,
      evict_stale-SameSettings r r.slots now,
    )

module _ (f : Frame) (first : ℕ) (i : ℕ) (hdr : VideoHeader) (m : IsFragment f i hdr)
    (cap : length f.chunks ≤ 1024) (inside : i < length f.chunks) where
  pub accept_missing :
      (r : VideoReceiver) (now : ℕ) (seen : List ℕ) (j : ℕ)
      → Tracks f first r seen
      → first ≤ now
      → j < length f.chunks
      → contains (i ∷ seen) j ≡ false
      → (r' : VideoReceiver) × Tracks f first r' (i ∷ seen)
        × SameSettings r r'
        × (accept r now hdr (chunk f i) ≡ (r', none))
  unfolding accept
  accept_missing r now seen j (absent e h) late lt missing =
      let q = (take_slot (evict_for_room r now) hdr now).1 in
      let t = take_slot-new (evict_for_room r now) hdr now in
      let room = evict_for_room-All (λ s. key_eq s.key f.key ≡ false) r now h in
      let (slot', g, at, e') =
        add_fragment_missing f seen (take_slot (evict_for_room r now) hdr now).0 i
          (rw (t.0, e) (new-Gathers f i hdr now cap m)) inside q now hdr q.slots [] m j lt
          missing in
      let lost : find_slot (key_of hdr) r.slots ≡ none =
        rw m.key (find_slot-Lacks f.key r.slots h) in
      (
        record q { slots = q.slots ++ (slot' ∷ []) },
        gathering q.slots slot' refl (rw t.1 room) g (rw at late),
        record {
          max_slots = (SameSettings-trans (evict_for_room-SameSettings r now) t.2).max_slots;
          max_frags = (SameSettings-trans (evict_for_room-SameSettings r now) t.2).max_frags;
          timeout = (SameSettings-trans (evict_for_room-SameSettings r now) t.2).timeout;
        },
        rw (lost, accept) e',
      )
  accept_missing r now seen j (gathering before slot e h g soon) late lt missing =
      let (slot', g', at, e') =
        add_fragment_missing f seen slot i g inside r now hdr before [] m j lt missing in
      let found : find_slot (key_of hdr) r.slots ≡ some (before, slot, []) =
        rw m.key (ap (find_slot f.key) e ∙ find_slot_last f.key before slot h g.key) in
      (
        record r { slots = before ++ (slot' ∷ []) },
        gathering before slot' refl h g' (rw at late),
        record { max_slots = refl; max_frags = refl; timeout = refl },
        rw (found, accept) e',
      )

  pub accept_last :
      (r : VideoReceiver) (now : ℕ) (seen : List ℕ)
      → Tracks f first r seen
      → contains seen i ≡ false
      → ((j : ℕ) → j < length f.chunks → contains (i ∷ seen) j ≡ true)
      → (accept r now hdr (chunk f i)).1 ≡ some (whole f)
  unfolding accept
  accept_last r now seen (absent e h) fresh all =
      let q = (take_slot (evict_for_room r now) hdr now).1 in
      let t = take_slot-new (evict_for_room r now) hdr now in
      let lost : find_slot (key_of hdr) r.slots ≡ none =
        rw m.key (find_slot-Lacks f.key r.slots h) in
      rw (lost, accept)
        (add_fragment_last f seen (take_slot (evict_for_room r now) hdr now).0 i
          (rw (t.0, e) (new-Gathers f i hdr now cap m)) inside q now hdr q.slots [] m fresh all)
  accept_last r now seen (gathering before slot e h g soon) fresh all =
      let found : find_slot (key_of hdr) r.slots ≡ some (before, slot, []) =
        rw m.key (ap (find_slot f.key) e ∙ find_slot_last f.key before slot h g.key) in
      rw (found, accept) (add_fragment_last f seen slot i g inside r now hdr before [] m fresh all)
