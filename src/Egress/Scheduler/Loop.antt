-- ===== src/Egress/Scheduler/Loop.antt =====
-- A round of `egress_loop`, on the connection's answers and the token bucket's.
use tsod.Prelude.{ℕ, Bool, false, Option, none, some, if◌then◌else◌, ltb, length}
use tsod.Egress.FrameQueue.{DatagramKind, voice, video, control, EgressItem}
use tsod.Egress.Scheduler.{EgressStats, EgressScheduler, add, next_item, requeue_front}

-- The connection's answer; a fatal one is UnsupportedByPeer, Disabled or ConnectionLost.
pub data SendResult : Type 0 where
  ok too_large fatal : SendResult

-- What a round of the loop meets: `is_short` says that the bucket holds fewer tokens than the item needs.
pub record Surroundings : Type 0 where
  pub expire_at : ℕ
  pub pop_at : ℕ
  pub is_short : Bool
  pub send_at : ℕ
  pub buffer_space : ℕ
  pub send_result : SendResult

pub data Round : Type 0 where
  waits goes_on exits : Round
  sends : EgressItem → Round

unfoldable pub count_sent : DatagramKind → ℕ → EgressStats → EgressStats
count_sent kind n s =
    let s' = record s { tx_datagrams = add 1 s.tx_datagrams; tx_bytes = add n s.tx_bytes } in
    elim kind [
      | voice ↦ record s' { tx_voice = add 1 s.tx_voice }
      | video ↦ record s' { tx_video = add 1 s.tx_video }
      | control ↦ record s' { tx_control = add 1 s.tx_control }
    ]

unfoldable pub count_too_large : DatagramKind → EgressStats → EgressStats
count_too_large kind s = elim kind [
  | voice ↦ record s { drop_too_large_voice = add 1 s.drop_too_large_voice }
  | video ↦ record s { drop_too_large_video = add 1 s.drop_too_large_video }
  | control ↦ s
]

-- From the test of the send buffer on.
unfoldable pub send : EgressScheduler → Surroundings → EgressItem → EgressScheduler × Round
unfolding count_sent count_too_large
send st env item =
    let n = length item.bytes in
    let blocked = if ltb env.buffer_space n then 1 else 0 in
    let s = record (st.stats) { blocked_events = add blocked st.stats.blocked_events } in
    elim env.send_result [
      | ok ↦ (record st { stats = count_sent item.kind n s }, sends item)
      | too_large ↦ (record st { stats = count_too_large item.kind s }, goes_on)
      | fatal ↦ (record st { stats = record s { fatal_errors = add 1 s.fatal_errors } }, exits)
    ]

abbrev pub is_late : ℕ → Option ℕ → Bool
is_late now none = false
is_late now (some deadline) = ltb deadline now

-- The body of `egress_loop`.
unfoldable pub egress_round : EgressScheduler → Surroundings → EgressScheduler × Round
unfolding next_item requeue_front send
egress_round st env =
    let (st', next) = next_item st env.expire_at env.pop_at in
    elim next [
      | none ↦ (st', waits)
      | some item ↦ elim item.kind [
        | video ↦
            if env.is_short
            then (requeue_front st' item, goes_on)
            else if is_late env.send_at item.deadline
            then (
              record st' {
                stats = record (st'.stats) {
                  drop_deadline_video = add 1 st'.stats.drop_deadline_video;
                };
              },
              goes_on,
            )
            else send st' env item
        | voice ↦ send st' env item
        | control ↦ send st' env item
      ]
    ]
