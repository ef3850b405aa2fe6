-- ===== src/Gateway/Share.antt =====
-- server/gateway/src/screenshare.rs: who may start, end and watch a share, and the layer that a viewer
-- gets. Of an error its kind is kept.
pub mod Selected
use tsod.Prelude.{
  ℕ, Bool, true, false, not, Option, none, some, List, [], ◌∷◌, if◌then◌else◌, ◌==◌, contains,
}
use tsod.Prelude.Maps.{lookup, nat_key}
use tsod.SharePolicy.{
  ScreenSharePolicy, Resolution, invalid_argument, failed_precondition, resolved, resolve_layer,
}
use tsod.Gateway.Streams.{
  StreamSessionOwnership, StreamSessionRegistry, tags, set_viewer_preferred_layer,
}

pub data Verdict : Type 0 where
  allowed permission_denied unknown_stream : Verdict

abbrev pub is_member : Option (List ℕ) → ℕ → Bool
is_member none user = false
is_member (some members) user = contains members user

unfoldable pub validate_start_share_authorization : ℕ → Option (List ℕ) → Verdict
validate_start_share_authorization user channel_members =
    if is_member channel_members user then allowed else permission_denied

unfoldable pub should_request_keyframe_on_layer_change : Option ℕ → ℕ → Bool
should_request_keyframe_on_layer_change none active_layer = true
should_request_keyframe_on_layer_change (some previous) active_layer =
    not (previous == active_layer)

-- The layer or the error, the tags to signal, and the two states.
pub record Selection (Layer : Type 0) : Type 0 where
  pub resolution : Resolution
  pub stream_tags : List ℕ
  pub registry : StreamSessionRegistry Layer
  pub policy : ScreenSharePolicy

module _ {Layer : Type 0} where
  unfoldable pub validate_owner_action : StreamSessionRegistry Layer → ℕ → ℕ → Verdict
  validate_owner_action reg stream_id user = elim (lookup stream_id reg.sessions_by_stream_id) [
    | none ↦ unknown_stream
    | some ownership ↦ if ownership.owner_user_id == user then allowed else permission_denied
  ]

  unfoldable pub validate_viewer_access :
      StreamSessionRegistry Layer → ℕ → ℕ → Option (List ℕ) → Verdict
  validate_viewer_access reg stream_id viewer channel_members =
      elim (lookup stream_id reg.sessions_by_stream_id) [
        | none ↦ unknown_stream
        | some ownership ↦
            if ownership.owner_user_id == viewer
            then allowed
            else if is_member channel_members viewer
            then allowed
            else permission_denied
      ]

  abbrev pub persist :
      StreamSessionRegistry Layer
      → ℕ
      → ℕ
      → StreamSessionOwnership Layer
      → Resolution × ScreenSharePolicy
      → Selection Layer
  persist reg stream_id viewer ownership (resolved active_layer, policy) = record {
    resolution = resolved active_layer;
    stream_tags = tags ownership;
    registry = set_viewer_preferred_layer reg stream_id viewer active_layer;
    policy = policy;
  }
  persist reg stream_id viewer ownership (refused, policy) = record {
    resolution = refused;
    stream_tags = [];
    registry = reg;
    policy = policy;
  }

  unfoldable pub select_and_persist_layer :
      StreamSessionRegistry Layer → ScreenSharePolicy → ℕ → ℕ → ℕ → ℕ → Selection Layer
  unfolding resolve_layer
  select_and_persist_layer reg policy stream_id viewer preferred_layer_id now =
      elim (lookup stream_id reg.sessions_by_stream_id) [
        | none ↦ record {
          resolution = invalid_argument;
          stream_tags = [];
          registry = reg;
          policy = policy;
        }
        | some ownership ↦ persist reg stream_id viewer ownership (
            resolve_layer policy stream_id viewer preferred_layer_id ownership.active_layer_ids now)
      ]
