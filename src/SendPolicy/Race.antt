-- ===== src/SendPolicy/Race.antt =====
-- One request and the pruner, interleaved at their atomic accesses: `request_prune` of
-- server/media/datagram_send_policy.rs and `process_one` of server/gateway/src/prune.rs.
use tsod.Prelude.{
  ℕ, suc, ◌+◌, ◌%◌, ◌^◌, ◌≡◌, ◌≢◌, refl, true, false, List, [], ◌∷◌, ◌++◌, if◌then◌else◌, ◌==◌,
}
use tsod.SendPolicy.{
  PruneReason, backpressure, protocol_error, heartbeat_timeout, transport_closed, PruneState, as_u8,
  raise,
}
use tsod.SendPolicy.Pruner.{Action, unregister_viewer, prune_reason_from_u8, act, resets}

-- Where the pruner stands: it has read the epoch and the reason, has acted, has seen the epoch
-- unchanged, or has cleared `pending`.
pub data PrunerAt : Type 0 where
  idle : PrunerAt
  loaded : ℕ → PruneReason → PrunerAt
  acted : ℕ → PruneReason → PrunerAt
  passed : PruneReason → PrunerAt
  cleared : PruneReason → PrunerAt

-- Where the request stands: it has raised the reason, has bumped the epoch, or has swapped `pending`.
pub data RequestAt : Type 0 where
  before raised bumped done : RequestAt

pub record World : Type 0 where
  pub prune : PruneState
  pub pruner : PrunerAt
  pub request : RequestAt
  pub wakes : ℕ
  pub actions : List Action

module _ (r : PruneReason) where
  -- One atomic access of the request for the reason `r`, or of the pruner.
  pub data Step : World → World → Type 0 where
    raise_reason :
        (w : World)
        → w.request ≡ before
        → Step w (record w {
          prune = record (w.prune) { reason = raise w.prune.reason r };
          request = raised;
        })
    bump_epoch :
        (w : World)
        → w.request ≡ raised
        → Step w (record w {
          prune = record (w.prune) { epoch = (w.prune.epoch + 1) % 2 ^ 64 };
          request = bumped;
        })
    swap_pending :
        (w : World)
        → w.request ≡ bumped
        → Step w (record w {
          prune = record (w.prune) { pending = true };
          request = done;
          wakes = if w.prune.pending then w.wakes else suc w.wakes;
        })
    load :
        (w : World)
        → w.pruner ≡ idle
        → w.prune.pending ≡ true
        → Step w (record w { pruner = loaded w.prune.epoch (prune_reason_from_u8 w.prune.reason) })
    perform :
        (w : World) (e0 : ℕ) (reason : PruneReason) (now : ℕ)
        → w.pruner ≡ loaded e0 reason
        → Step w (record w {
          prune = (act w.prune reason now).0;
          pruner = acted e0 reason;
          actions = w.actions ++ (act w.prune reason now).1;
        })
    check_same :
        (w : World) (e0 : ℕ) (reason : PruneReason)
        → w.pruner ≡ acted e0 reason
        → w.prune.epoch ≡ e0
        → Step w (record w { pruner = passed reason })
    check_changed :
        (w : World) (e0 : ℕ) (reason : PruneReason)
        → w.pruner ≡ acted e0 reason
        → w.prune.epoch ≢ e0
        → Step w (record w { pruner = idle })
    clear_pending :
        (w : World) (reason : PruneReason)
        → w.pruner ≡ passed reason
        → Step w
            (record w { prune = record (w.prune) { pending = false }; pruner = cleared reason })
    keep_reason :
        (w : World) (reason : PruneReason)
        → w.pruner ≡ cleared reason
        → resets reason ≡ false
        → Step w (record w { pruner = idle })
    reset_reason :
        (w : World) (reason : PruneReason)
        → w.pruner ≡ cleared reason
        → resets reason ≡ true
        → Step w (record w {
          prune = record (w.prune) { reason = as_u8 backpressure; suspect_since_ms = 0 };
          pruner = idle;
        })

  pub data Reach (w : World) : World → Type 0 where
    here : Reach w w
    next : {u v : World} → Reach w u → Step u v → Reach w v

-- The session as the pruner finds it, with no action taken yet.
abbrev pub start : PruneState → World
start p = record { prune = p; pruner = idle; request = before; wakes = 0; actions = [] }

-- A session that waits to be handled for backpressure.
abbrev pub waiting : ℕ → ℕ → ℕ → PruneState
waiting epoch suspect log = record {
  pending = true;
  reason = as_u8 backpressure;
  epoch = epoch;
  suspect_since_ms = suspect;
  last_log_ms = log;
}

-- The world a lost request leaves.
abbrev pub lost : PruneReason → ℕ → ℕ → ℕ → World
lost r epoch suspect log = record {
  prune = record {
    pending = false;
    reason = as_u8 r;
    epoch = (epoch + 1) % 2 ^ 64;
    suspect_since_ms = suspect;
    last_log_ms = log;
  };
  pruner = idle;
  request = done;
  wakes = 0;
  actions = unregister_viewer ∷ [];
}

-- A request can be lost: while the pruner handles backpressure, a request for a stronger reason may
-- fall between its epoch check and its clearing of `pending`. The request is then complete and the
-- pruner idle; the reason is recorded, but nothing is pending, no wake was sent and the session has
-- not been unregistered.
pub lost_request :
    (r : PruneReason) (epoch suspect log now : ℕ)
    → r ≢ backpressure
    → Reach r
        (start (waiting epoch suspect log))
        (lost r epoch (if suspect == 0 then now else suspect) log)
unfolding act prune_reason_from_u8 resets
lost_request backpressure epoch suspect log now stronger = absurd (stronger refl)
lost_request protocol_error epoch suspect log now stronger =
    next
      (next
        (next
          (next
            (next
              (next (next (next here (load _ refl refl)) (perform _ epoch backpressure now refl))
                (check_same _ epoch backpressure refl refl))
              (raise_reason _ refl))
            (bump_epoch _ refl))
          (swap_pending _ refl))
        (clear_pending _ backpressure refl))
      (keep_reason _ backpressure refl refl)
lost_request heartbeat_timeout epoch suspect log now stronger =
    next
      (next
        (next
          (next
            (next
              (next (next (next here (load _ refl refl)) (perform _ epoch backpressure now refl))
                (check_same _ epoch backpressure refl refl))
              (raise_reason _ refl))
            (bump_epoch _ refl))
          (swap_pending _ refl))
        (clear_pending _ backpressure refl))
      (keep_reason _ backpressure refl refl)
lost_request transport_closed epoch suspect log now stronger =
    next
      (next
        (next
          (next
            (next
              (next (next (next here (load _ refl refl)) (perform _ epoch backpressure now refl))
                (check_same _ epoch backpressure refl refl))
              (raise_reason _ refl))
            (bump_epoch _ refl))
          (swap_pending _ refl))
        (clear_pending _ backpressure refl))
      (keep_reason _ backpressure refl refl)
