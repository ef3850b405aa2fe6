-- ===== src/SharePolicy/Cooldown.antt =====
-- What the cooldowns of layer switches promise.
use tsod.Prelude.{
  ℕ, suc, ◌-◌, ◌≤◌, ◌<◌, ◌≡◌, ◌≢◌, ◌↔◌, ◌^◌, Bool, true, arith, Bool-cases, inl, inr,
}
use tsod.Prelude.Maps.{pair_key}
use tsod.SharePolicy.{
  ViewerLayerSelectionPolicy, ViewerLayerSignals, evaluate, evaluate_target,
  ideal_layer_from_signals, has_passed, upshift_cooldown,
}

-- Down at once, up by one layer at most and only after the cooldown, not past the target.
pub record IsStep (p : ViewerLayerSelectionPolicy) (now target : ℕ) (layer : ℕ) (keyframe : Bool)
    : Type 0 where
  pub down : target < p.current_layer_id → layer ≡ target
  pub up :
      p.current_layer_id < layer
      → (layer ≡ suc p.current_layer_id)
        × (layer ≤ target)
        × (has_passed p.last_upshift_at upshift_cooldown now ≡ true)
  pub even : target ≡ p.current_layer_id → layer ≡ target
  pub keyframe_iff : (keyframe ≡ true) ↔ (layer ≢ p.current_layer_id)

evaluate_target-IsStep :
    (p : ViewerLayerSelectionPolicy) (now target : ℕ)
    → p.current_layer_id < 2 ^ 32 - 1
    → IsStep p now target
        (evaluate_target p now target).0.preferred_layer_id
        (evaluate_target p now target).0.request_keyframe
unfolding evaluate_target
evaluate_target-IsStep p now target small =
    elim (Bool-cases (has_passed p.last_upshift_at upshift_cooldown now)) [
      | inl passed ↦
          rw (passed, evaluate_target)
            (record {
              down = ground (arith, small);
              up = ground (arith, small);
              even = ground (arith, small);
              keyframe_iff = ground (arith, small);
            })
      | inr early ↦
          rw (early, evaluate_target)
            (record {
              down = ground (arith, small);
              up = ground (arith, small);
              even = ground (arith, small);
              keyframe_iff = ground (arith, small);
            })
    ]

-- A tick of the viewer's layer selection goes down at once and up by one layer at most, up only when
-- the cooldown since the last upshift has passed, never up past the layer that the signals ask for, and
-- asks for a keyframe exactly when the layer changes; the layer number does not reach the end of its type.
pub evaluate-IsStep :
    (p : ViewerLayerSelectionPolicy) (now : ℕ) (signals : ViewerLayerSignals)
    → p.current_layer_id < 2 ^ 32 - 1
    → IsStep p now
        (ideal_layer_from_signals signals)
        (evaluate p now signals).0.preferred_layer_id
        (evaluate p now signals).0.request_keyframe
unfolding evaluate
evaluate-IsStep p now signals small =
    evaluate_target-IsStep p now (ideal_layer_from_signals signals) small
