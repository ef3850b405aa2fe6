-- ===== src/SharePolicy/Recovery.antt =====
-- client/src/screen_share/policy/recovery.rs: when a viewer asks for a keyframe or a recovery.
pub mod Requests
use tsod.Prelude.{
  ℕ, ◌+◌, ◌-◌, ◌^◌, min, Bool, true, false, ◌&&◌, Option, none, some, List, [], ◌∷◌, if◌then◌else◌,
  ltb, leb,
}
use tsod.Prelude.Maps.{lookup, insert, remove, nat_key}
use tsod.SharePolicy.{has_passed}

pub record RecoveryPolicyConfig : Type 0 where
  pub freeze_threshold : ℕ
  pub keyframe_cooldown : ℕ
  pub recovery_cooldown : ℕ
  pub recovery_escalation_intervals : ℕ

pub record StreamRecoveryState : Type 0 where
  pub last_frame_received_at : ℕ
  pub last_keyframe_request_at : Option ℕ
  pub last_recovery_request_at : Option ℕ
  pub consecutive_freeze_intervals : ℕ
  pub unanswered_keyframe_requests : ℕ

unfoldable pub new_recovery : ℕ → StreamRecoveryState
new_recovery now = record {
  last_frame_received_at = now;
  last_keyframe_request_at = none;
  last_recovery_request_at = none;
  consecutive_freeze_intervals = 0;
  unanswered_keyframe_requests = 0;
}

pub record RecoveryTickActions : Type 0 where
  pub request_keyframe : Bool
  pub request_recovery : Bool

pub record ViewerRecoveryPolicy : Type 0 where
  pub cfg : RecoveryPolicyConfig
  pub streams : List (ℕ × StreamRecoveryState)

-- `or_insert_with` on an entry of the map.
abbrev pub or_new : ℕ → Option StreamRecoveryState → StreamRecoveryState
or_new now none = new_recovery now
or_new now (some s) = s

unfoldable pub register_stream : ViewerRecoveryPolicy → ℕ → ℕ → ViewerRecoveryPolicy
unfolding new_recovery
register_stream p stream_tag now = record p {
  streams = insert stream_tag (or_new now (lookup stream_tag p.streams)) p.streams;
}

unfoldable pub unregister_stream : ViewerRecoveryPolicy → ℕ → ViewerRecoveryPolicy
unregister_stream p stream_tag = record p { streams = remove stream_tag p.streams }

unfoldable pub on_frame_received : ViewerRecoveryPolicy → ℕ → ℕ → ViewerRecoveryPolicy
unfolding new_recovery
on_frame_received p stream_tag now =
    let state = or_new now (lookup stream_tag p.streams) in
    let state' : StreamRecoveryState = record state {
      last_frame_received_at = now;
      consecutive_freeze_intervals = 0;
      unanswered_keyframe_requests = 0;
    } in
    record p { streams = insert stream_tag state' p.streams }

-- `saturating_add(1)` on a `u32`.
abbrev pub one_more : ℕ → ℕ
one_more n = min (n + 1) (2 ^ 32 - 1)

-- On the state of the stream.
unfoldable pub evaluate_state :
    RecoveryPolicyConfig → StreamRecoveryState → ℕ → RecoveryTickActions × StreamRecoveryState
evaluate_state cfg s now =
    let frozen = one_more s.consecutive_freeze_intervals in
    let keyframe = has_passed s.last_keyframe_request_at cfg.keyframe_cooldown now in
    let unanswered =
      if keyframe
      then one_more s.unanswered_keyframe_requests
      else s.unanswered_keyframe_requests in
    let should_escalate = leb 1 unanswered && leb cfg.recovery_escalation_intervals frozen in
    let recovery =
      has_passed s.last_recovery_request_at cfg.recovery_cooldown now && should_escalate in
    if ltb (now - s.last_frame_received_at) cfg.freeze_threshold
    then (
      record { request_keyframe = false; request_recovery = false },
      record s { consecutive_freeze_intervals = 0 },
    )
    else (
      record { request_keyframe = keyframe; request_recovery = recovery },
      record s {
        last_keyframe_request_at = if keyframe then some now else s.last_keyframe_request_at;
        last_recovery_request_at = if recovery then some now else s.last_recovery_request_at;
        consecutive_freeze_intervals = frozen;
        unanswered_keyframe_requests = unanswered;
      },
    )

unfoldable pub evaluate_stream :
    ViewerRecoveryPolicy → ℕ → ℕ → RecoveryTickActions × ViewerRecoveryPolicy
unfolding evaluate_state new_recovery
evaluate_stream p stream_tag now =
    let (actions, state) = evaluate_state p.cfg (or_new now (lookup stream_tag p.streams)) now in
    (actions, record p { streams = insert stream_tag state p.streams })
