-- ===== src/Egress/Scheduler.antt =====
-- `EgressScheduler` of client/src/net/egress.rs. The mutex makes each operation one step; the
-- connection's answers, the readings of the clock and the pacer's token bucket, which computes with
-- f64, are arguments. Lines for the log are left out.
pub mod Enqueue
pub mod Fairness
pub mod Requeue
pub mod Loop
use tsod.Prelude.{
  ℕ, zero, suc, ◌+◌, ◌%◌, ◌^◌, Bool, true, false, not, ◌&&◌, Option, none, some, List, [], ◌∷◌,
  ◌++◌, if◌then◌else◌, ltb, leb, ◌==◌, length, Bytes, saturating_add,
}
use tsod.Egress.FrameQueue.{
  VideoFrameQueue, DatagramKind, voice, video, control, EgressItem, push, enforce_bounds,
  drop_expired, pop_next_fragment,
}
use tsod.Egress.FrameQueue

pub record EgressConfig : Type 0 where
  pub mtu_bytes : ℕ
  pub video_target_bitrate_bps : ℕ
  pub video_max_burst_datagrams : ℕ
  pub max_queue_voice : ℕ
  pub max_queue_video_frames : ℕ
  pub max_queue_video_frags : ℕ
  pub frame_deadline_ms : ℕ

abbrev pub default_config : EgressConfig
default_config = record {
  mtu_bytes = 1200;
  video_target_bitrate_bps = 8_000_000;
  video_max_burst_datagrams = 8;
  max_queue_voice = 512;
  max_queue_video_frames = 8;
  max_queue_video_frags = 2048;
  frame_deadline_ms = 80;
}

pub data DropReason : Type 0 where
  queue_full_voice queue_full_video deadline_video rejected_video_bounds voice_queue_disabled :
      DropReason

pub record DroppedDatagrams : Type 0 where
  pub reason : DropReason
  pub count : ℕ

-- `Result<EnqueueReport, DropReason>`
pub data EnqueueResult : Type 0 where
  accepted : Option DroppedDatagrams → EnqueueResult
  refused : DropReason → EnqueueResult

pub record EgressStats : Type 0 where
  pub tx_datagrams : ℕ
  pub tx_bytes : ℕ
  pub tx_voice : ℕ
  pub tx_video : ℕ
  pub tx_control : ℕ
  pub blocked_events : ℕ
  pub drop_queue_full_voice : ℕ
  pub drop_queue_full_video : ℕ
  pub drop_voice_queue_disabled : ℕ
  pub drop_rejected_video_bounds : ℕ
  pub drop_deadline_video : ℕ
  pub drop_too_large_voice : ℕ
  pub drop_too_large_video : ℕ
  pub fatal_errors : ℕ

abbrev pub no_stats : EgressStats
no_stats = record {
  tx_datagrams = 0;
  tx_bytes = 0;
  tx_voice = 0;
  tx_video = 0;
  tx_control = 0;
  blocked_events = 0;
  drop_queue_full_voice = 0;
  drop_queue_full_video = 0;
  drop_voice_queue_disabled = 0;
  drop_rejected_video_bounds = 0;
  drop_deadline_video = 0;
  drop_too_large_voice = 0;
  drop_too_large_video = 0;
  fatal_errors = 0;
}

-- `fetch_add` on a counter of 64 bits.
abbrev pub add : ℕ → ℕ → ℕ
add n count = (count + n) % 2 ^ 64

pub record EgressScheduler : Type 0 where
  pub cfg : EgressConfig
  pub voice : List Bytes
  pub video : VideoFrameQueue
  pub stats : EgressStats
  pub voice_burst : ℕ

unfoldable pub new : EgressConfig → EgressScheduler
unfolding FrameQueue.new
new cfg = record {
  cfg = cfg;
  voice = [];
  video = FrameQueue.new cfg.max_queue_video_frames cfg.max_queue_video_frags;
  stats = no_stats;
  voice_burst = 0;
}

abbrev pub u32_max : ℕ
u32_max = 4_294_967_295

-- The loop that makes room: the queue, and how many were dropped, as a saturating `u32`.
unfoldable pub make_room : ℕ → List Bytes → List Bytes × ℕ
make_room max_queue [] = ([], 0)
make_room max_queue (b ∷ queue) =
    let (kept, dropped) = make_room max_queue queue in
    if leb max_queue (length (b ∷ queue))
    then (kept, saturating_add u32_max dropped 1)
    else (b ∷ queue, 0)

-- The report where something was dropped, with its number as a `u32`.
abbrev pub reported : DropReason → ℕ → ℕ → Option DroppedDatagrams
reported reason dropped count =
    if leb 1 dropped then some (record { reason = reason; count = count }) else none

unfoldable pub enqueue_voice : EgressScheduler → Bytes → EgressScheduler × EnqueueResult
unfolding make_room
enqueue_voice st bytes =
    let (queue, dropped) = make_room st.cfg.max_queue_voice st.voice in
    if st.cfg.max_queue_voice == 0
    then (
      record st {
        stats = record (st.stats) {
          drop_voice_queue_disabled = add 1 st.stats.drop_voice_queue_disabled;
        };
      },
      refused voice_queue_disabled,
    )
    else (
      record st {
        voice = queue ++ (bytes ∷ []);
        stats = record (st.stats) {
          drop_queue_full_voice = add dropped st.stats.drop_queue_full_voice;
        };
      },
      accepted (reported queue_full_voice dropped dropped),
    )

-- `now` is the reading of the clock.
unfoldable pub enqueue_video_fragment :
    EgressScheduler → ℕ → ℕ → Bool → ℕ → Bytes → ℕ → EgressScheduler × EnqueueResult
unfolding push enforce_bounds
enqueue_video_fragment st stream_tag frame_seq is_keyframe capture_ts bytes now =
    let deadline = capture_ts + st.cfg.frame_deadline_ms in
    let inserted : ℕ × ℕ = (stream_tag, frame_seq) in
    let (bounded, bounds) =
      enforce_bounds (push st.video inserted is_keyframe deadline bytes) inserted in
    let rejected = leb 1 bounds.dropped_inserted_frags in
    if leb deadline now
    then (
      record st {
        stats = record (st.stats) { drop_deadline_video = add 1 st.stats.drop_deadline_video };
      },
      refused deadline_video,
    )
    else (
      record st {
        video = bounded;
        stats = record (st.stats) {
          drop_queue_full_video = add bounds.dropped_total_frags st.stats.drop_queue_full_video;
          drop_rejected_video_bounds =
              add bounds.dropped_inserted_frags st.stats.drop_rejected_video_bounds;
        };
      },
      if rejected
          then refused rejected_video_bounds
          else accepted (
              reported queue_full_video bounds.dropped_total_frags
                (bounds.dropped_total_frags % 2 ^ 32)),
    )

abbrev pub voice_burst_limit : ℕ
voice_burst_limit = 6

abbrev pub voice_item : Bytes → EgressItem
voice_item bytes = record {
  kind = voice;
  stream_tag = none;
  frame_seq = none;
  deadline = none;
  bytes = bytes;
  is_keyframe = false;
}

-- After the voice queue has been passed over, or was empty.
abbrev pub take_voice : EgressScheduler → List Bytes → EgressScheduler × Option EgressItem
take_voice st [] = (st, none)
take_voice st (bytes ∷ rest) = (
  record st {
    voice = rest;
    voice_burst = (if leb voice_burst_limit st.voice_burst then 0 else st.voice_burst) + 1;
  },
  some (voice_item bytes),
)

abbrev pub take_video :
    EgressScheduler → VideoFrameQueue × Option EgressItem → EgressScheduler × Option EgressItem
take_video st (q, some item) = (record st { video = q; voice_burst = 0 }, some item)
take_video st (q, none) = take_voice (record st { video = q }) st.voice

abbrev pub take : EgressScheduler → List Bytes → ℕ → EgressScheduler × Option EgressItem
take st [] pop_at = take_video st (pop_next_fragment st.video pop_at)
take st (bytes ∷ rest) pop_at =
    if ltb st.voice_burst voice_burst_limit
    then (record st { voice = rest; voice_burst = st.voice_burst + 1 }, some (voice_item bytes))
    else take_video st (pop_next_fragment st.video pop_at)

-- The clock is read for the expiry and again for the video queue.
unfoldable pub next_item : EgressScheduler → ℕ → ℕ → EgressScheduler × Option EgressItem
unfolding drop_expired pop_next_fragment
next_item st expire_at pop_at =
    let (live, expired) = drop_expired st.video expire_at in
    let st' = record st {
      video = live;
      stats = record (st.stats) { drop_deadline_video = add expired st.stats.drop_deadline_video };
    } in
    take st' st.voice pop_at

unfoldable pub requeue_front : EgressScheduler → EgressItem → EgressScheduler
unfolding push
requeue_front st item = elim item.kind [
  | voice ↦ record st { voice = item.bytes ∷ st.voice }
  | control ↦ record st { voice = item.bytes ∷ st.voice }
  | video ↦ elim item.stream_tag [
    | none ↦ st
    | some stream_tag ↦ elim item.frame_seq [
      | none ↦ st
      | some frame_seq ↦ elim item.deadline [
        | none ↦ st
        | some deadline ↦ record st {
          video = push st.video (stream_tag, frame_seq) item.is_keyframe deadline item.bytes;
        }
      ]
    ]
  ]
]
