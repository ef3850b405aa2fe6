-- ===== src/SharePolicy/Runs.antt =====
-- Runs of the policies on concrete streams.
use tsod.Prelude.{ℕ, ◌≡◌, ◌≢◌, some, List, [], ◌∷◌, false}
use tsod.SharePolicy.{
  select_active_share_layer, ScreenSharePolicy, ViewerLayerSelectionPolicy, ViewerLayerSignals,
}
use tsod.SharePolicy.Layers.{IsBest, select_active_share_layer-IsBest}
use tsod.SharePolicy.Recovery.{ViewerRecoveryPolicy}
use tsod.SharePolicy.Recovery.Requests.{Event, registered, frame, evaluated}

abbrev layers : List ℕ
layers = 0 ∷ 2 ∷ []

layers_nonempty : layers ≢ []
layers_nonempty e = cc e

select_active_share_layer-IsBest_example :
    (l : ℕ) × (select_active_share_layer 1 layers ≡ some l) × IsBest 1 layers l
select_active_share_layer-IsBest_example = select_active_share_layer-IsBest 1 layers layers_nonempty

abbrev no_switches : ScreenSharePolicy
no_switches = record { last_switch_at = []; last_selected_layer = [] }

abbrev selection : ViewerLayerSelectionPolicy
selection = record { current_layer_id = 0; last_upshift_at = some 1000 }

abbrev good : ViewerLayerSignals
good = record {
  viewport_width = 2560;
  viewport_height = 1440;
  loss_at_least_8 = false;
  loss_at_least_3 = false;
  errors_at_least_8 = false;
  errors_at_least_3 = false;
}

abbrev recovery : ViewerRecoveryPolicy
recovery = record {
  cfg = record {
    freeze_threshold = 200;
    keyframe_cooldown = 500;
    recovery_cooldown = 1750;
    recovery_escalation_intervals = 2;
  };
  streams = [];
}

abbrev events : List Event
events =
    registered 7 0
    ∷ evaluated 7 300
    ∷ evaluated 7 550
    ∷ frame 7 560
    ∷ evaluated 7 800
    ∷ evaluated 7 1300
    ∷ []
