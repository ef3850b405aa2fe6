-- ===== src/SendPolicy/Pruner.antt =====
-- `process_one` of server/gateway/src/prune.rs, without interruption.
use tsod.Prelude.{ℕ, Bool, true, false, List, [], ◌∷◌, if◌then◌else◌, ◌==◌}
use tsod.SendPolicy.{
  PruneReason, backpressure, protocol_error, heartbeat_timeout, transport_closed, as_u8,
  is_definitive, PruneState,
}

unfoldable pub prune_reason_from_u8 : ℕ → PruneReason
prune_reason_from_u8 v =
    if v == 4
    then transport_closed
    else if v == 3
    then heartbeat_timeout
    else if v == 2
    then protocol_error
    else backpressure

-- What the pruner does to a session: its viewer loop is removed, or the session itself too.
pub data Action : Type 0 where
  unregister_viewer unregister_session : Action

-- The match on the reason. A backpressured session stays, and is marked as suspect once.
unfoldable pub act : PruneState → PruneReason → ℕ → PruneState × List Action
act p backpressure now = (
  record p { suspect_since_ms = if p.suspect_since_ms == 0 then now else p.suspect_since_ms },
  unregister_viewer ∷ [],
)
act p _ now = (record p { suspect_since_ms = 0 }, unregister_viewer ∷ unregister_session ∷ [])

-- `reason.is_definitive() || reason == PruneReason::ProtocolError`
unfoldable pub resets : PruneReason → Bool
unfolding is_definitive
resets protocol_error = true
resets reason = is_definitive reason

-- The end of `process_one`: `e0` is the epoch that was read at its start.
unfoldable pub finish : PruneState → PruneReason → ℕ → PruneState
finish p reason e0 =
    if p.epoch == e0
    then if resets reason
      then record p { pending = false; reason = as_u8 backpressure; suspect_since_ms = 0 }
      else record p { pending = false }
    else p

unfoldable pub process_one : PruneState → ℕ → PruneState × List Action
unfolding act finish prune_reason_from_u8 resets
process_one p now =
    let reason = prune_reason_from_u8 p.reason in
    let (acted, actions) = act p reason now in (finish acted reason p.epoch, actions)
