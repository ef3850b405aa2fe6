-- ===== src/Egress/Scheduler/Fairness.antt =====
-- How `next_item` shares the connection between voice and video.
use tsod.Prelude.{
  ℕ, suc, ◌-◌, ◌≤◌, ◌<◌, ◌≡◌, refl, sym, ap, subst, ◌∙◌, Bool, true, false, ◌||◌, Option, none,
  some, List, [], ◌∷◌, arith, ltb, ◌==◌, length, Bool-cases, inl, inr, ◌⊎◌, All, Bytes,
}
use tsod.Prelude.Maps.{lookup, pair_key}
use tsod.Egress.FrameQueue.{
  FrameKey, FrameBucket, VideoFrameQueue, voice, video, control, EgressItem, drop_expired,
  pop_next_fragment,
}
use tsod.Egress.FrameQueue.Consistent.{IsConsistent}
use tsod.Egress.FrameQueue.Expiry.{drop_expired-Expired, drop_expired-keeps}
use tsod.Egress.FrameQueue.Popping.{pop_live-found}
use tsod.Egress.Scheduler.{
  EgressScheduler, enqueue_voice, voice_burst_limit, take_video, take, next_item, add,
}

-- A call of `next_item`: the voice that is queued before it, and its two readings of the clock.
pub record Call : Type 0 where
  pub spoken : List Bytes
  pub expire_at : ℕ
  pub pop_at : ℕ

unfoldable pub enqueue_all : EgressScheduler → List Bytes → EgressScheduler
unfolding enqueue_voice
enqueue_all st [] = st
enqueue_all st (b ∷ bs) = enqueue_all (enqueue_voice st b).0 bs

unfoldable pub is_video : Option EgressItem → Bool
is_video none = false
is_video (some item) = elim item.kind [ voice ↦ false | video ↦ true | control ↦ false ]

unfoldable pub step : EgressScheduler → Call → EgressScheduler × Option EgressItem
unfolding next_item enqueue_all
step st call = next_item (enqueue_all st call.spoken) call.expire_at call.pop_at

-- One of the calls takes a video fragment.
unfoldable pub video_comes : EgressScheduler → List Call → Bool
unfolding step is_video
video_comes st [] = false
video_comes st (call ∷ calls) =
    let (st', next) = step st call in is_video next || video_comes st' calls

-- Every reading of the clock lies before the deadline.
abbrev pub AllBefore : ℕ → List Call → Type 0
AllBefore deadline calls =
    All (λ (call : Call). (call.expire_at < deadline) × (call.pop_at < deadline)) calls

enqueue_voice-video : (st : EgressScheduler) (b : Bytes) → (enqueue_voice st b).0.video ≡ st.video
unfolding enqueue_voice
enqueue_voice-video st b = elim (Bool-cases (st.cfg.max_queue_voice == 0)) [
  | inl h ↦ rw (h, enqueue_voice) refl
  | inr h ↦ rw (h, enqueue_voice) refl
]

enqueue_voice-burst :
    (st : EgressScheduler) (b : Bytes) → (enqueue_voice st b).0.voice_burst ≡ st.voice_burst
unfolding enqueue_voice
enqueue_voice-burst st b = elim (Bool-cases (st.cfg.max_queue_voice == 0)) [
  | inl h ↦ rw (h, enqueue_voice) refl
  | inr h ↦ rw (h, enqueue_voice) refl
]

enqueue_all-video : (st : EgressScheduler) (bs : List Bytes) → (enqueue_all st bs).video ≡ st.video
unfolding enqueue_all
enqueue_all-video st [] = refl
enqueue_all-video st (b ∷ bs) =
    enqueue_all-video (enqueue_voice st b).0 bs ∙ enqueue_voice-video st b

enqueue_all-burst :
    (st : EgressScheduler) (bs : List Bytes) → (enqueue_all st bs).voice_burst ≡ st.voice_burst
unfolding enqueue_all
enqueue_all-burst st [] = refl
enqueue_all-burst st (b ∷ bs) =
    enqueue_all-burst (enqueue_voice st b).0 bs ∙ enqueue_voice-burst st b

-- Voice goes first, which it does only while the burst lasts.
pub record GivesWay (q : VideoFrameQueue) (burst : ℕ) (r : EgressScheduler × Option EgressItem)
    : Type 0 where
  pub same_video : r.0.video ≡ q
  pub counted : r.0.voice_burst ≡ suc burst
  pub below : burst < voice_burst_limit

module _ (key : FrameKey) (frame : FrameBucket) where
  pop_next_fragment-video :
      (st : EgressScheduler) (pop_at : ℕ)
      → IsConsistent st.video
      → lookup key st.video.frames ≡ some frame
      → pop_at < frame.deadline
      → is_video (take_video st (pop_next_fragment st.video pop_at)).1 ≡ true
  unfolding is_video pop_next_fragment
  pop_next_fragment-video st pop_at v found ahead =
      let left : VideoFrameQueue = (drop_expired st.video pop_at).0 in
      let p =
        pop_live-found left key frame (drop_expired-Expired st.video pop_at v).consistent
          (drop_expired-keeps key frame pop_at ahead st.video found) in
      ap (λ r. is_video (take_video st r).1) p.popped

  take-GivesWay :
      (st : EgressScheduler) (queue : List Bytes) (pop_at : ℕ)
      → IsConsistent st.video
      → lookup key st.video.frames ≡ some frame
      → pop_at < frame.deadline
      → (is_video (take st queue pop_at).1 ≡ true)
        ⊎ GivesWay st.video st.voice_burst (take st queue pop_at)
  take-GivesWay st [] pop_at v found ahead = inl (pop_next_fragment-video st pop_at v found ahead)
  take-GivesWay st (b ∷ queue) pop_at v found ahead =
      elim (Bool-cases (ltb st.voice_burst voice_burst_limit)) [
        | inl below ↦ rw below (
            inr
              (record { same_video = refl; counted = omega arith; below = ground (arith, below) }))
        | inr above ↦ rw above (inl (pop_next_fragment-video st pop_at v found ahead))
      ]

  next_item-GivesWay :
      (st : EgressScheduler) (expire_at pop_at : ℕ)
      → IsConsistent st.video
      → lookup key st.video.frames ≡ some frame
      → expire_at < frame.deadline
      → pop_at < frame.deadline
      → (is_video (next_item st expire_at pop_at).1 ≡ true)
        ⊎ GivesWay
            (drop_expired st.video expire_at).0
            st.voice_burst
            (next_item st expire_at pop_at)
  unfolding next_item
  next_item-GivesWay st expire_at pop_at v found early ahead =
      let r = drop_expired st.video expire_at in
      take-GivesWay
        (record st {
          video = r.0;
          stats = record (st.stats) { drop_deadline_video = add r.1 st.stats.drop_deadline_video };
        })
        st.voice pop_at (drop_expired-Expired st.video expire_at v).consistent
        (drop_expired-keeps key frame expire_at early st.video found) ahead

-- However much voice is queued before each call, a frame of a consistent video queue whose deadline lies after every reading
-- of the clock keeps video from being starved, wherever it stands in the queue: with the voice that the
-- burst still allows first, one of the calls takes a video fragment.
pub video_comes-burst :
    (st : EgressScheduler) (calls : List Call) (key : FrameKey) (frame : FrameBucket)
    → IsConsistent st.video
    → lookup key st.video.frames ≡ some frame
    → AllBefore frame.deadline calls
    → suc (voice_burst_limit - st.voice_burst) ≤ length calls
    → video_comes st calls ≡ true
unfolding video_comes step
video_comes-burst st [] key frame v found before enough = absurd (omega (arith, enough))
video_comes-burst st (call ∷ calls) key frame v found before enough =
    let queued : EgressScheduler = enqueue_all st call.spoken in
    let same : queued.video ≡ st.video = enqueue_all-video st call.spoken in
    let burst = enqueue_all-burst st call.spoken in
    let left : VideoFrameQueue = (drop_expired st.video call.expire_at).0 in
    let given : (is_video (step st call).1 ≡ true)
        ⊎ GivesWay (drop_expired queued.video call.expire_at).0 queued.voice_burst (step st call) =
      next_item-GivesWay key frame queued call.expire_at call.pop_at
        (subst (λ q. IsConsistent q) (sym same) v)
        (ap (λ (q : VideoFrameQueue). lookup key q.frames) same ∙ found) before.0.0 before.0.1 in
    elim given [
      | inl comes ↦ rw comes refl
      | inr g ↦
          let still : (step st call).0.video ≡ left =
            g.same_video ∙ ap (λ q. (drop_expired q call.expire_at).0) same in
          let later =
            video_comes-burst (step st call).0 calls key frame
              (subst (λ q. IsConsistent q) (sym still)
                (drop_expired-Expired st.video call.expire_at v).consistent)
              (ap (λ (q : VideoFrameQueue). lookup key q.frames) still
                ∙ drop_expired-keeps key frame call.expire_at before.0.0 st.video found)
              before.1 (omega (arith, g.counted, g.below, burst, enough)) in
          rw later (ground arith)
    ]
