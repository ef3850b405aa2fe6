-- ===== src/Egress/FrameQueue.antt =====
-- `VideoFrameQueue` of client/src/net/egress.rs. An instant is a count of milliseconds, the frames'
-- HashMap the list of its entries, and a VecDeque a list.
pub mod Consistent
pub mod Bounds
pub mod Expiry
pub mod Popping
pub mod Keyframes
use tsod.Prelude.{
  ℕ, zero, suc, ◌+◌, ◌-◌, Bool, true, false, not, ◌||◌, Option, none, some, List, [], ◌∷◌, ◌++◌,
  if◌then◌else◌, ltb, leb, length, Bytes,
}
use tsod.Prelude.Maps.{lookup, insert, remove, pair_key, pair_same}
use tsod.Prelude.Keys.{present, without}

-- The stream's tag and the frame's number.
abbrev pub FrameKey : Type 0
FrameKey = ℕ × ℕ

pub record FrameBucket : Type 0 where
  pub deadline : ℕ
  pub is_keyframe : Bool
  pub fragments : List Bytes

abbrev pub Frames : Type 0
Frames = List (FrameKey × FrameBucket)

pub record VideoFrameQueue : Type 0 where
  pub frames : Frames
  pub order : List FrameKey
  pub total_frags : ℕ
  pub max_frames : ℕ
  pub max_frags : ℕ

pub record BoundsReport : Type 0 where
  pub dropped_total_frags : ℕ
  pub dropped_inserted_frags : ℕ

unfoldable pub new : ℕ → ℕ → VideoFrameQueue
new max_frames max_frags = record {
  frames = [];
  order = [];
  total_frags = 0;
  max_frames = max_frames;
  max_frags = max_frags;
}

-- The fragments that are there, none for a frame that is just made.
abbrev pub fragments_of : Option FrameBucket → List Bytes
fragments_of none = []
fragments_of (some frame) = frame.fragments

unfoldable pub push : VideoFrameQueue → FrameKey → Bool → ℕ → Bytes → VideoFrameQueue
push q key is_keyframe deadline bytes =
    let found = lookup key q.frames in
    record q {
      order = if present found then q.order else q.order ++ (key ∷ []);
      frames =
          insert key
            (record {
              deadline = deadline;
              is_keyframe = is_keyframe;
              fragments = fragments_of found ++ (bytes ∷ []);
            })
            q.frames;
      total_frags = q.total_frags + 1;
    }

unfoldable pub drop_frame : VideoFrameQueue → FrameKey → VideoFrameQueue × ℕ
unfolding without
drop_frame q key =
    let n = length (fragments_of (lookup key q.frames)) in
    (
      record q {
        order = without key q.order;
        frames = remove key q.frames;
        total_frags = q.total_frags - n;
      },
      n,
    )

abbrev pub is_droppable : Option FrameBucket → Bool
is_droppable none = false
is_droppable (some frame) = not frame.is_keyframe

-- `find` on the order.
unfoldable pub first_droppable : Frames → List FrameKey → Option FrameKey
first_droppable frames [] = none
first_droppable frames (k ∷ order) =
    let rest = first_droppable frames order in
    if is_droppable (lookup k frames) then some k else rest

abbrev pub front : List FrameKey → Option FrameKey
front [] = none
front (k ∷ order) = some k

unfoldable pub victim : VideoFrameQueue → Option FrameKey
unfolding first_droppable
victim q = elim (first_droppable q.frames q.order) [ some k ↦ some k | none ↦ front q.order ]

abbrev pub over_bounds : VideoFrameQueue → Bool
over_bounds q = ltb q.max_frames (length q.frames) || ltb q.max_frags q.total_frags

abbrev pub report_drop : BoundsReport → FrameKey → FrameKey → ℕ → BoundsReport
report_drop report inserted k n = record {
  dropped_total_frags = report.dropped_total_frags + n;
  dropped_inserted_frags =
      if pair_same k inserted
      then report.dropped_inserted_frags + n
      else report.dropped_inserted_frags;
}

-- The loop, on fuel: a round takes a frame off the order.
unfoldable pub enforce_loop :
    ℕ → VideoFrameQueue → FrameKey → BoundsReport → VideoFrameQueue × BoundsReport
unfolding victim drop_frame
enforce_loop zero q inserted report = (q, report)
enforce_loop (suc fuel) q inserted report = elim (over_bounds q) [
  | false ↦ (q, report)
  | true ↦ elim (victim q) [
    | none ↦ (q, report)
    | some k ↦
        enforce_loop fuel (drop_frame q k).0 inserted
          (report_drop report inserted k (drop_frame q k).1)
  ]
]

unfoldable pub enforce_bounds : VideoFrameQueue → FrameKey → VideoFrameQueue × BoundsReport
unfolding enforce_loop
enforce_bounds q inserted =
    enforce_loop (length q.order) q inserted
      (record { dropped_total_frags = 0; dropped_inserted_frags = 0 })

abbrev pub is_expired : ℕ → Option FrameBucket → Bool
is_expired now none = true
is_expired now (some frame) = leb frame.deadline now

-- The loop, on fuel: a round takes a frame off the order.
unfoldable pub expire_loop : ℕ → VideoFrameQueue → ℕ → ℕ → VideoFrameQueue × ℕ
unfolding drop_frame
expire_loop zero q now dropped = (q, dropped)
expire_loop (suc fuel) q now dropped = elim (front q.order) [
  | none ↦ (q, dropped)
  | some key ↦ elim (is_expired now (lookup key q.frames)) [
    | false ↦ (q, dropped)
    | true ↦ expire_loop fuel (drop_frame q key).0 now (dropped + (drop_frame q key).1)
  ]
]

unfoldable pub drop_expired : VideoFrameQueue → ℕ → VideoFrameQueue × ℕ
unfolding expire_loop
drop_expired q now = expire_loop (length q.order) q now 0

pub data DatagramKind : Type 0 where
  voice video control : DatagramKind

pub record EgressItem : Type 0 where
  pub kind : DatagramKind
  pub stream_tag : Option ℕ
  pub frame_seq : Option ℕ
  pub deadline : Option ℕ
  pub bytes : Bytes
  pub is_keyframe : Bool

abbrev pub pop_front {ℓ} : {A : Type ℓ} → List A → List A
pop_front [] = []
pop_front (x ∷ xs) = xs

-- The frame once its first fragment is out.
unfoldable pub without_first :
    VideoFrameQueue → FrameKey → FrameBucket → List Bytes → VideoFrameQueue
without_first q key frame [] = record q {
  frames = remove key q.frames;
  order = pop_front q.order;
  total_frags = q.total_frags - 1;
}
without_first q key frame (b ∷ rest) = record q {
  frames = insert key (record frame { fragments = b ∷ rest }) q.frames;
  total_frags = q.total_frags - 1;
}

unfoldable pub pop_fragment :
    VideoFrameQueue → FrameKey → FrameBucket → List Bytes → VideoFrameQueue × Option EgressItem
unfolding without_first
pop_fragment q key frame [] = (q, none)
pop_fragment q key frame (bytes ∷ rest) = (
  without_first q key frame rest,
  some (record {
    kind = video;
    stream_tag = some (key.0);
    frame_seq = some (key.1);
    deadline = some frame.deadline;
    bytes = bytes;
    is_keyframe = frame.is_keyframe;
  }),
)

-- From the expiry on.
unfoldable pub pop_live : VideoFrameQueue → VideoFrameQueue × Option EgressItem
unfolding pop_fragment
pop_live q = elim (front q.order) [
  | none ↦ (q, none)
  | some key ↦ elim (lookup key q.frames) [
    | none ↦ (q, none)
    | some frame ↦ pop_fragment q key frame frame.fragments
  ]
]

unfoldable pub pop_next_fragment : VideoFrameQueue → ℕ → VideoFrameQueue × Option EgressItem
unfolding drop_expired pop_live
pop_next_fragment q now = pop_live (drop_expired q now).0
