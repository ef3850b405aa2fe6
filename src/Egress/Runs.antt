-- ===== src/Egress/Runs.antt =====
-- Concrete runs of the client's scheduler, and the theorems at concrete inputs.
use tsod.Prelude.{◌≡◌, refl, true, false, List, [], ◌∷◌, ◌⊎◌, arith}
use tsod.Prelude.Maps.{lookup, insert, remove, pair_key}
use tsod.Egress.FrameQueue.{
  FrameKey, FrameBucket, VideoFrameQueue, EgressItem, video, voice, push, enforce_bounds,
  drop_expired, expire_loop, pop_live, pop_fragment, pop_next_fragment, drop_frame, victim,
  first_droppable, enforce_loop,
}
use tsod.Egress.FrameQueue
use tsod.Egress.FrameQueue.Consistent.{IsConsistent, new-IsConsistent, push-IsConsistent}
use tsod.Egress.FrameQueue.Keyframes.{enforce_bounds-spares, OnlyKeyframes}
use tsod.Egress.FrameQueue.Popping.{Popped}
use tsod.Egress.Scheduler.{
  EgressScheduler, default_config, new, enqueue_video_fragment, requeue_front,
}
use tsod.Egress.Scheduler.Enqueue.{VideoEnqueued, enqueue_video_fragment-VideoEnqueued}
use tsod.Egress.Scheduler.Fairness.{Call, video_comes, video_comes-burst}
use tsod.Egress.Scheduler.Requeue.{Requeued, item_of, requeue_front-Requeued}

-- Two frames of two fragments, the second a keyframe, whose deadlines lie at 100 ms.
abbrev two_frames : VideoFrameQueue
two_frames =
    let q₁ : VideoFrameQueue = push (FrameQueue.new 8 2048) (1, 7) false 100 (1 ∷ []) in
    push (push q₁ (1, 8) true 100 (2 ∷ [])) (1, 7) false 100 (3 ∷ [])

two_frames-IsConsistent : IsConsistent two_frames
two_frames-IsConsistent =
    let v₁ =
      push-IsConsistent (FrameQueue.new 8 2048) (new-IsConsistent 8 2048) (1, 7) false 100
        (1 ∷ []) in
    let v₂ =
      push-IsConsistent (push (FrameQueue.new 8 2048) (1, 7) false 100 (1 ∷ [])) v₁ (1, 8) true 100
        (2 ∷ []) in
    push-IsConsistent
      (push (push (FrameQueue.new 8 2048) (1, 7) false 100 (1 ∷ [])) (1, 8) true 100 (2 ∷ [])) v₂
      (1, 7) false 100 (3 ∷ [])

abbrev busy : EgressScheduler
busy = record (new default_config) { video = two_frames; voice = (9 ∷ []) ∷ []; voice_burst = 4 }

enqueue_video_fragment-VideoEnqueued_example :
    VideoEnqueued busy (1, 9) (enqueue_video_fragment busy 1 9 false 50 (4 ∷ []) 60)
unfolding new
enqueue_video_fragment-VideoEnqueued_example =
    enqueue_video_fragment-VideoEnqueued busy 1 9 false 50 (4 ∷ []) 60 two_frames-IsConsistent
      (omega arith)

enforce_bounds-spares_example :
    (lookup (1, 8) (enforce_bounds two_frames (1, 7)).0.frames ≡ lookup (1, 8) two_frames.frames)
    ⊎ OnlyKeyframes (enforce_bounds two_frames (1, 7)).0
unfolding FrameQueue.new push lookup insert remove
enforce_bounds-spares_example =
    enforce_bounds-spares two_frames (1, 7) (1, 8) two_frames-IsConsistent refl

-- The first frame has expired when the calls begin, the second has not.
abbrev late_first : VideoFrameQueue
late_first = push (push (FrameQueue.new 8 2048) (1, 7) false 40 (1 ∷ [])) (1, 8) true 100 (2 ∷ [])

late_first-IsConsistent : IsConsistent late_first
late_first-IsConsistent =
    push-IsConsistent (push (FrameQueue.new 8 2048) (1, 7) false 40 (1 ∷ []))
      (push-IsConsistent (FrameQueue.new 8 2048) (new-IsConsistent 8 2048) (1, 7) false 40 (1 ∷ []))
      (1, 8) true 100 (2 ∷ [])

abbrev late : EgressScheduler
late = record busy { video = late_first }

-- Voice is queued before each of the three calls.
abbrev calls : List Call
calls =
    record { spoken = (1 ∷ []) ∷ []; expire_at = 50; pop_at = 51 }
    ∷ record { spoken = (2 ∷ []) ∷ []; expire_at = 52; pop_at = 53 }
    ∷ record { spoken = (3 ∷ []) ∷ []; expire_at = 54; pop_at = 55 }
    ∷ []

video_comes-burst_example : video_comes late calls ≡ true
unfolding new FrameQueue.new push lookup insert remove
video_comes-burst_example =
    video_comes-burst late calls (1, 8)
      (record { deadline = 100; is_keyframe = true; fragments = (2 ∷ []) ∷ [] })
      late_first-IsConsistent refl
      ((omega arith, omega arith), ((omega arith, omega arith), ((omega arith, omega arith), tt)))
      (omega arith)

abbrev first_popped : Popped two_frames
unfolding FrameQueue.new push lookup insert remove pop_live pop_fragment FrameQueue.without_first
first_popped = record {
  key = (1, 7);
  later = (1, 8) ∷ [];
  frame = record { deadline = 100; is_keyframe = false; fragments = (1 ∷ []) ∷ (3 ∷ []) ∷ [] };
  bytes = 1 ∷ [];
  rest = (3 ∷ []) ∷ [];
  order = refl;
  found = refl;
  fragments = refl;
  popped = refl;
}

requeue_front-Requeued_example :
    Requeued two_frames first_popped
      (requeue_front
        (record busy { video = (pop_live two_frames).0 })
        (item_of two_frames first_popped)).video
requeue_front-Requeued_example = requeue_front-Requeued busy two_frames-IsConsistent first_popped
