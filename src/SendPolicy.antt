-- ===== src/SendPolicy.antt =====
-- server/media/datagram_send_policy.rs: sending a datagram to a session, and asking for the session
-- to be pruned. `user_id`, `session_id` and `conn` do not change and are left out of the state; what
-- the connection answers and whether the wake channel takes a message are arguments, times are
-- milliseconds, and each function runs without interruption (`SendPolicy/Race.antt` interleaves).
pub mod Pruner
pub mod Requests
pub mod Debounce
pub mod Race
mod Runs
use tsod.Prelude.{
  ℕ, ◌+◌, ◌-◌, ◌%◌, ◌^◌, Bool, true, false, not, ◌&&◌, Option, none, some, List, [], ◌∷◌, ◌++◌,
  if◌then◌else◌, ltb, leb, ◌==◌, saturating_add, length, Bytes,
}

abbrev pub prune_debounce_ms : ℕ
prune_debounce_ms = 1000

abbrev pub video_headroom : ℕ
video_headroom = 1200

pub data PruneReason : Type 0 where
  backpressure protocol_error heartbeat_timeout transport_closed : PruneReason

-- `reason as u8`
abbrev pub as_u8 : PruneReason → ℕ
as_u8 backpressure = 1
as_u8 protocol_error = 2
as_u8 heartbeat_timeout = 3
as_u8 transport_closed = 4

unfoldable pub is_definitive : PruneReason → Bool
is_definitive heartbeat_timeout = true
is_definitive transport_closed = true
is_definitive _ = false

pub record PruneState : Type 0 where
  pub pending : Bool
  pub reason : ℕ
  pub epoch : ℕ
  pub suspect_since_ms : ℕ
  pub last_log_ms : ℕ

unfoldable pub default_prune : PruneState
default_prune = record {
  pending = false;
  reason = as_u8 backpressure;
  epoch = 0;
  suspect_since_ms = 0;
  last_log_ms = 0;
}

pub record SendCtx : Type 0 where
  pub last_prune_ms : ℕ
  pub prune : PruneState

unfoldable pub new : SendCtx
unfolding default_prune
new = record { last_prune_ms = 0; prune = default_prune }

-- What a call does beyond the state: a datagram handed over, a message on the wake channel, and the
-- counters.
pub data Effect : Type 0 where
  sent : Bytes → Effect
  woken no_datagrams oversize_drop conn_lost send_err_other prune_evt_dropped : Effect
  video_dropped_due_to_space : Effect

-- What `send_datagram` of the connection answers.
pub data SendResult : Type 0 where
  accepted too_large connection_lost other_error : SendResult

-- What the connection and the wake channel answer during a call.
pub record Environment : Type 0 where
  pub max_datagram_size : Option ℕ
  pub send_buffer_space : ℕ
  pub send_result : SendResult
  pub wake_accepted : Bool

-- The reason only rises.
abbrev pub raise : ℕ → PruneReason → ℕ
raise current reason = if leb (as_u8 reason) current then current else as_u8 reason

unfoldable pub request_prune : PruneState → ℕ → PruneReason → Bool → PruneState × List Effect
request_prune p now_ms reason wake_accepted = (
  record p {
    pending = true;
    reason = raise p.reason reason;
    epoch = (p.epoch + 1) % 2 ^ 64;
    last_log_ms = if leb 10000 (now_ms - p.last_log_ms) then now_ms else p.last_log_ms;
  },
  if p.pending then [] else if wake_accepted then woken ∷ [] else prune_evt_dropped ∷ [],
)

-- The answer, and `last_prune_ms` after it.
unfoldable pub should_prune : ℕ → ℕ → Bool × ℕ
should_prune last now_ms =
    if ltb (now_ms - last) prune_debounce_ms then (false, last) else (true, now_ms)

unfoldable pub maybe_prune : SendCtx → ℕ → PruneReason → Bool → SendCtx × List Effect
maybe_prune ctx now_ms reason wake_accepted =
    let (granted, last) = should_prune ctx.last_prune_ms now_ms in
    let (p, effects) = request_prune ctx.prune now_ms reason wake_accepted in
    if granted then (record { last_prune_ms = last; prune = p }, effects) else (ctx, [])

-- The match on the answer of `send_datagram`.
unfoldable pub after_send : SendCtx → ℕ → Bytes → Environment → SendResult → SendCtx × List Effect
after_send ctx now_ms pkt env accepted = (ctx, sent pkt ∷ [])
after_send ctx now_ms pkt env too_large = (ctx, oversize_drop ∷ [])
after_send ctx now_ms pkt env connection_lost =
    let (ctx', effects) = maybe_prune ctx now_ms transport_closed env.wake_accepted in
    (ctx', conn_lost ∷ effects)
after_send ctx now_ms pkt env other_error =
    let (ctx', effects) = maybe_prune ctx now_ms backpressure env.wake_accepted in
    (ctx', send_err_other ∷ effects)

unfoldable pub send_inner : SendCtx → ℕ → Bytes → Environment → SendCtx × List Effect
send_inner ctx now_ms pkt env = elim env.max_datagram_size [
  | none ↦ (ctx, no_datagrams ∷ [])
  | some limit ↦
      if ltb limit (length pkt)
      then (ctx, oversize_drop ∷ [])
      else after_send ctx now_ms pkt env env.send_result
]

unfoldable pub send_voice : SendCtx → ℕ → Bytes → Environment → SendCtx × List Effect
unfolding send_inner
send_voice ctx now_ms pkt env = send_inner ctx now_ms pkt env

unfoldable pub send_video_best_effort : SendCtx → ℕ → Bytes → Environment → SendCtx × List Effect
unfolding send_inner
send_video_best_effort ctx now_ms pkt env =
    if ltb env.send_buffer_space (saturating_add (2 ^ 64 - 1) (length pkt) video_headroom)
    then (ctx, video_dropped_due_to_space ∷ [])
    else send_inner ctx now_ms pkt env
