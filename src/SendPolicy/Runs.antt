-- ===== src/SendPolicy/Runs.antt =====
-- Concrete runs of the send policy and the pruner, and the theorems at concrete inputs.
use tsod.Prelude.{
  ℕ, ◌≡◌, refl, Bool, true, false, some, List, [], ◌∷◌, arith, if◌then◌else◌, leb, ◌==◌,
}
use tsod.SendPolicy.{
  PruneState, Environment, backpressure, protocol_error, transport_closed, connection_lost,
  conn_lost, woken, as_u8, default_prune, new, PruneReason, send_video_best_effort, send_inner,
  after_send, maybe_prune, should_prune, request_prune,
}
use tsod.SendPolicy.Pruner.{process_one, unregister_viewer, unregister_session}
use tsod.SendPolicy.Requests.{request_all, strongest, process_one-request_all}
use tsod.SendPolicy.Race.{Reach, start, waiting, lost, lost_request}

abbrev lost_connection : Environment
lost_connection = record {
  max_datagram_size = some 1200;
  send_buffer_space = 5000;
  send_result = connection_lost;
  wake_accepted = true;
}

-- A fragment sent into a lost connection asks once for the session to be pruned.
send_video_lost :
    (send_video_best_effort new 1500 (7 ∷ []) lost_connection).1 ≡ conn_lost ∷ woken ∷ []
unfolding send_video_best_effort send_inner after_send maybe_prune should_prune request_prune new
    default_prune
send_video_lost = refl

-- In the first second the request is held back.
send_video_early : (send_video_best_effort new 900 (7 ∷ []) lost_connection).1 ≡ conn_lost ∷ []
unfolding send_video_best_effort send_inner after_send maybe_prune should_prune request_prune new
    default_prune
send_video_early = refl

abbrev idle_session : PruneState
idle_session = record {
  pending = false;
  reason = 1;
  epoch = 0;
  suspect_since_ms = 0;
  last_log_ms = 0;
}

abbrev three_requests : List (ℕ × PruneReason × Bool)
three_requests =
    (10, backpressure, true) ∷ (20, transport_closed, true) ∷ (30, protocol_error, false) ∷ []

process_one-request_all_example :
    let decided = strongest idle_session.reason three_requests in
    let (p', actions) = process_one (request_all idle_session three_requests) 50 in
    (actions ≡ (
      if leb decided 1
      then unregister_viewer ∷ []
      else unregister_viewer ∷ unregister_session ∷ []))
    × (p'.pending ≡ false)
    × (p'.reason ≡ (if leb decided 1 then decided else as_u8 backpressure))
process_one-request_all_example =
    process_one-request_all idle_session three_requests 50 (omega arith)

lost_request_example :
    Reach transport_closed
      (start (waiting 5 0 0))
      (lost transport_closed 5 (if 0 == 0 then 70 else 0) 0)
lost_request_example = lost_request transport_closed 5 0 0 70 (λ e. ground (e, arith))
