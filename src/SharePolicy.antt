-- ===== src/SharePolicy.antt =====
-- The policies on simulcast layers and recovery of a screen share: `ScreenSharePolicy` of
-- server/gateway/src/screenshare_policy.rs, and client/src/screen_share/policy/layer_selection.rs.
-- Streams and viewers are numbers, an instant a count of milliseconds.
pub mod Layers
pub mod Cooldown
pub mod Recovery
mod Runs
use tsod.Prelude.{
  ℕ, ◌+◌, ◌-◌, ◌*◌, ◌^◌, min, max, Bool, true, false, not, ◌&&◌, ◌||◌, Option, none, some, List, [],
  ◌∷◌, if◌then◌else◌, ltb, leb, ◌==◌, contains, retain,
}
use tsod.Prelude.Maps.{lookup, insert, pair_key}

-- `max` and `min` of an iterator.
abbrev pub max_with : ℕ → Option ℕ → Option ℕ
max_with l none = some l
max_with l (some m) = some (max l m)

abbrev pub min_with : ℕ → Option ℕ → Option ℕ
min_with l none = some l
min_with l (some m) = some (min l m)

unfoldable pub greatest : List ℕ → Option ℕ
greatest [] = none
greatest (l ∷ rest) = max_with l (greatest rest)

unfoldable pub least : List ℕ → Option ℕ
least [] = none
least (l ∷ rest) = min_with l (least rest)

unfoldable pub select_active_share_layer : ℕ → List ℕ → Option ℕ
unfolding greatest least
select_active_share_layer requested layers =
    if contains layers requested
    then some requested
    else elim (greatest (retain (λ l. leb l requested) layers)) [
      | some l ↦ some l
      | none ↦ least layers
    ]

abbrev pub layer_switch_cooldown : ℕ
layer_switch_cooldown = 350

-- Both maps by stream and viewer.
pub record ScreenSharePolicy : Type 0 where
  pub last_switch_at : List ((ℕ × ℕ) × ℕ)
  pub last_selected_layer : List ((ℕ × ℕ) × ℕ)

pub data Resolution : Type 0 where
  invalid_argument failed_precondition : Resolution
  resolved : ℕ → Resolution

-- The layer that a switch within the cooldown holds on to.
unfoldable pub held : ScreenSharePolicy → ℕ × ℕ → ℕ → Option ℕ
held p key now = elim (lookup key p.last_switch_at) [
  | none ↦ none
  | some last ↦
      if ltb (now - last) layer_switch_cooldown then lookup key p.last_selected_layer else none
]

unfoldable pub active_layer : ℕ → List ℕ → ℕ
unfolding greatest least
active_layer requested layers =
    if contains layers requested
    then requested
    else elim (greatest (retain (λ l. leb l requested) layers)) [
      | some l ↦ l
      | none ↦ elim (least layers) [ some l ↦ l | none ↦ 0 ]
    ]

abbrev pub switch : ScreenSharePolicy → ℕ × ℕ → ℕ → ℕ → ScreenSharePolicy
switch p key layer now = record {
  last_switch_at = insert key now p.last_switch_at;
  last_selected_layer = insert key layer p.last_selected_layer;
}

unfoldable pub resolve_layer :
    ScreenSharePolicy → ℕ → ℕ → ℕ → List ℕ → ℕ → Resolution × ScreenSharePolicy
unfolding held active_layer
resolve_layer p stream viewer requested [] now =
    if ltb 2 requested then (invalid_argument, p) else (failed_precondition, p)
resolve_layer p stream viewer requested (l ∷ rest) now =
    let key : ℕ × ℕ = (stream, viewer) in
    let active = active_layer requested (l ∷ rest) in
    if ltb 2 requested then (invalid_argument, p) else elim (held p key now) [
      | some previous ↦ (resolved previous, p)
      | none ↦ (resolved active, switch p key active now)
    ]

abbrev pub upshift_cooldown : ℕ
upshift_cooldown = 3_000

pub record ViewerLayerSelectionPolicy : Type 0 where
  pub current_layer_id : ℕ
  pub last_upshift_at : Option ℕ

-- The layer and whether a keyframe is requested.
pub record LayerSelectionTick : Type 0 where
  pub preferred_layer_id : ℕ
  pub request_keyframe : Bool

abbrev pub has_passed : Option ℕ → ℕ → ℕ → Bool
has_passed none cooldown now = true
has_passed (some at) cooldown now = leb cooldown (now - at)

unfoldable pub new_selection : ℕ → ViewerLayerSelectionPolicy
new_selection initial_layer_id = record {
  current_layer_id = initial_layer_id;
  last_upshift_at = none;
}

-- The two rates as tests of the float against 0.08 and against 0.03.
pub record ViewerLayerSignals : Type 0 where
  pub viewport_width : ℕ
  pub viewport_height : ℕ
  pub loss_at_least_8 : Bool
  pub loss_at_least_3 : Bool
  pub errors_at_least_8 : Bool
  pub errors_at_least_3 : Bool

unfoldable pub ideal_layer_from_signals : ViewerLayerSignals → ℕ
ideal_layer_from_signals s =
    let pixels = min (s.viewport_width * s.viewport_height) (2 ^ 32 - 1) in
    let layer =
      if leb (2_560 * 1_440) pixels then 2 else if leb (1_280 * 720) pixels then 1 else 0 in
    if s.loss_at_least_8 || s.errors_at_least_8
    then 0
    else if s.loss_at_least_3 || s.errors_at_least_3
    then min layer 1
    else layer

-- From the target layer on.
unfoldable pub evaluate_target :
    ViewerLayerSelectionPolicy → ℕ → ℕ → LayerSelectionTick × ViewerLayerSelectionPolicy
evaluate_target p now target_layer =
    let current = p.current_layer_id in
    let can_upshift = has_passed p.last_upshift_at upshift_cooldown now in
    let upshift = ltb current target_layer && can_upshift in
    let next_layer =
      if ltb target_layer current
      then target_layer
      else if upshift
      then min (min (current + 1) (2 ^ 32 - 1)) target_layer
      else current in
    (
      record { preferred_layer_id = next_layer; request_keyframe = not (next_layer == current) },
      record {
        current_layer_id = next_layer;
        last_upshift_at = if upshift then some now else p.last_upshift_at;
      },
    )

unfoldable pub evaluate :
    ViewerLayerSelectionPolicy
    → ℕ
    → ViewerLayerSignals
    → LayerSelectionTick × ViewerLayerSelectionPolicy
unfolding evaluate_target ideal_layer_from_signals
evaluate p now signals = evaluate_target p now (ideal_layer_from_signals signals)
