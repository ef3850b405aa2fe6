-- ===== src/Egress/Scheduler/Enqueue.antt =====
-- What the two enqueue operations do to the queues, and what they answer.
use tsod.Prelude.{
  ℕ, ◌+◌, ◌-◌, ◌%◌, ◌^◌, if◌then◌else◌, ltb, sym, ap, ◌≤◌, ◌<◌, ◌≡◌, ◌↔◌, refl, ◌∙◌, Bool, true,
  false, Option, none, some, List, [], ◌∷◌, ◌++◌, arith, leb, ◌==◌, length, length-snoc, Bool-cases,
  inl, inr, Bytes,
}
use tsod.Prelude.Maps.{lookup, pair_key, pair_same, pair_same_iff}
use tsod.Prelude.Keys.{present, present-insert, member}
use tsod.Egress.FrameQueue.{
  FrameKey, VideoFrameQueue, BoundsReport, fragments_of, push, over_bounds, enforce_bounds,
}
use tsod.Egress.FrameQueue.Consistent.{IsConsistent, push-IsConsistent}
use tsod.Egress.FrameQueue.Bounds.{Enforced, enforce_bounds-Enforced}
use tsod.Egress.Scheduler.{
  EgressScheduler, DropReason, DroppedDatagrams, EnqueueResult, accepted, refused,
  rejected_video_bounds, queue_full_video, queue_full_voice, u32_max, reported, make_room,
  enqueue_voice, enqueue_video_fragment,
}

abbrev pub dropped_count : Option DroppedDatagrams → ℕ
dropped_count none = 0
dropped_count (some d) = d.count

-- What an answer counts as dropped, with the number as the machine keeps it; a refusal gives no number.
abbrev pub Accounts : (ℕ → ℕ) → EnqueueResult → ℕ → ℕ → Type 0
Accounts kept (accepted d) after before =
    (after ≤ before + 1) × (dropped_count d ≡ kept (before + 1 - after))
Accounts kept (refused reason) after before = Unit

abbrev pub truncated : ℕ → ℕ
truncated n = n % 2 ^ 32

abbrev pub saturated : ℕ → ℕ
saturated n = if ltb u32_max n then u32_max else n

dropped_count-reported :
    (reason : DropReason) (n count : ℕ)
    → (n ≡ 0 → count ≡ 0)
    → dropped_count (reported reason n count) ≡ count
dropped_count-reported reason n count nil = elim (Bool-cases (leb 1 n)) [
  | inl some_dropped ↦ rw some_dropped refl
  | inr nothing ↦ rw nothing (sym (nil (ground (arith, nothing))))
]

push-member :
    (q : VideoFrameQueue) (key : FrameKey) (is_keyframe : Bool) (deadline : ℕ) (bytes : Bytes)
    → IsConsistent q
    → member key (push q key is_keyframe deadline bytes).order ≡ true
unfolding push
push-member q key is_keyframe deadline bytes v =
    let same : pair_same key key ≡ true = (pair_same_iff key key).1 refl in
    (push-IsConsistent q v key is_keyframe deadline bytes).listed key
    ∙ present-insert key key
        (record {
          deadline = deadline;
          is_keyframe = is_keyframe;
          fragments = fragments_of (lookup key q.frames) ++ (bytes ∷ []);
        })
        q.frames
    ∙ rw same refl

pub record VideoEnqueued (st : EgressScheduler) (key : FrameKey)
    (r : EgressScheduler × EnqueueResult) : Type 0 where
  pub consistent : IsConsistent r.0.video
  pub within : over_bounds r.0.video ≡ false
  pub rejected_iff :
      (r.1 ≡ refused rejected_video_bounds) ↔ (present (lookup key r.0.video.frames) ≡ false)
  pub accounts : Accounts truncated r.1 r.0.video.total_frags st.video.total_frags
  pub same_voice : r.0.voice ≡ st.voice

-- A fragment whose deadline lies ahead leaves a consistent video queue consistent and within both bounds; it is
-- rejected exactly where its frame is then not in the queue, and where it is accepted the number reported
-- as dropped is that of the fragments from before and the new one which are no longer queued, truncated
-- to 32 bits.
pub enqueue_video_fragment-VideoEnqueued :
    (st : EgressScheduler) (stream_tag frame_seq : ℕ) (is_keyframe : Bool) (capture_ts : ℕ)
    (bytes : Bytes) (now : ℕ)
    → IsConsistent st.video
    → now < capture_ts + st.cfg.frame_deadline_ms
    → VideoEnqueued st
        (stream_tag, frame_seq)
        (enqueue_video_fragment st stream_tag frame_seq is_keyframe capture_ts bytes now)
unfolding enqueue_video_fragment push
enqueue_video_fragment-VideoEnqueued st stream_tag frame_seq is_keyframe capture_ts bytes now v
      ahead =
    elim (Bool-cases (leb 1 report.dropped_inserted_frags)) [
      | inl gone ↦
          let absent : present (lookup key bounded.frames) ≡ false =
            e.told ∙ ground (arith, gone) in
          rw (timely, gone, enqueue_video_fragment)
            (record {
              consistent = e.consistent;
              within = e.within;
              rejected_iff = (λ _. absent, λ _. refl);
              accounts = tt;
              same_voice = refl;
            })
      | inr stays ↦
          let there : present (lookup key bounded.frames) ≡ true = e.told ∙ ground (arith, stays) in
          rw (timely, stays, enqueue_video_fragment)
            (record {
              consistent = e.consistent;
              within = e.within;
              rejected_iff = (λ r. cc r, λ absent. cc (absent, there));
              accounts = (omega (arith, e.all_reported), counted ∙ ap truncated all_gone);
              same_voice = refl;
            })
    ]
  where
    key : FrameKey
    key = (stream_tag, frame_seq)

    pushed : VideoFrameQueue
    pushed = push st.video key is_keyframe (capture_ts + st.cfg.frame_deadline_ms) bytes

    bounded : VideoFrameQueue
    bounded = (enforce_bounds pushed key).0

    report : BoundsReport
    report = (enforce_bounds pushed key).1

    e :
        Enforced key pushed
          (record { dropped_total_frags = 0; dropped_inserted_frags = 0 })
          bounded
          report
    e =
        enforce_bounds-Enforced pushed key
          (push-IsConsistent st.video v key is_keyframe (capture_ts + st.cfg.frame_deadline_ms)
            bytes)
          (push-member st.video key is_keyframe (capture_ts + st.cfg.frame_deadline_ms) bytes v)

    all_gone : report.dropped_total_frags ≡ st.video.total_frags + 1 - bounded.total_frags
    all_gone = omega (arith, e.all_reported)

    counted :
        dropped_count (
          reported queue_full_video report.dropped_total_frags
            (truncated report.dropped_total_frags))
        ≡ truncated report.dropped_total_frags
    counted =
        dropped_count-reported queue_full_video report.dropped_total_frags
          (truncated report.dropped_total_frags) (λ nothing. ap truncated nothing)

    timely : leb (capture_ts + st.cfg.frame_deadline_ms) now ≡ false
    timely = ground (arith, ahead)

-- The newest that leave one place free, and the number of the others.
make_room-length :
    (max_queue : ℕ) (queue : List Bytes)
    → 1 ≤ max_queue
    → (length (make_room max_queue queue).0 < max_queue)
      × (length (make_room max_queue queue).0 ≤ length queue)
      × ((make_room max_queue queue).1
          ≡ saturated (length queue - length (make_room max_queue queue).0))
unfolding make_room
make_room-length max_queue [] some_place = (omega (arith, some_place), omega arith, refl)
make_room-length max_queue (b ∷ queue) some_place =
    let ih = make_room-length max_queue queue some_place in
    elim (Bool-cases (leb max_queue (length (b ∷ queue)))) [
      | inl full ↦ rw (full, make_room) (ih.0, omega (arith, ih.1), ground (arith, ih.1, ih.2))
      | inr room ↦ rw (room, make_room) (ground (arith, room), omega arith, ground arith)
    ]

-- With a voice queue for at least one datagram, `enqueue_voice` accepts, keeps the queue within its
-- bound, and reports how many datagrams it drops, at most the greatest `u32`.
pub enqueue_voice-bounded :
    (st : EgressScheduler) (bytes : Bytes)
    → 1 ≤ st.cfg.max_queue_voice
    → (length (enqueue_voice st bytes).0.voice ≤ st.cfg.max_queue_voice)
      × Accounts saturated
          (enqueue_voice st bytes).1
          (length (enqueue_voice st bytes).0.voice)
          (length st.voice)
      × ((enqueue_voice st bytes).0.video ≡ st.video)
unfolding enqueue_voice
enqueue_voice-bounded st bytes some_place =
    let open_queue : (st.cfg.max_queue_voice == 0) ≡ false = ground (arith, some_place) in
    let room = make_room-length st.cfg.max_queue_voice st.voice some_place in
    let made = make_room st.cfg.max_queue_voice st.voice in
    let one_more = length-snoc made.0 bytes in
    let gone : length st.voice - length made.0
        ≡ length st.voice + 1 - length (made.0 ++ (bytes ∷ [])) =
      omega (arith, one_more, room.1) in
    rw (open_queue, enqueue_voice)
      (
        omega (arith, one_more, room.0),
        (
          omega (arith, one_more, room.1),
          dropped_count-reported queue_full_voice made.1 made.1 (λ nothing. nothing)
              ∙ room.2
              ∙ ap saturated gone,
        ),
        refl,
      )
