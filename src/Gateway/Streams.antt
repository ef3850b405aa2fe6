-- ===== src/Gateway/Streams.antt =====
-- `StreamSessionRegistry` of server/gateway/src/state.rs: the screen shares, by their ids and by the tags
-- of their streams. An instant is a count of milliseconds; the type of a simulcast layer, which is
-- generated, is a parameter.
pub mod Tags
pub mod Consistent
pub mod Register
pub mod History
pub mod Throttle
use tsod.Prelude.{
  ℕ, zero, suc, ◌+◌, ◌-◌, ◌%◌, ◌^◌, min, Bool, true, false, not, Option, none, some, List, [], ◌∷◌,
  ◌++◌, if◌then◌else◌, leb, ◌==◌, length,
}
use tsod.Prelude.Maps.{lookup, insert, remove, retain_keys, nat_key, pair_key}
use tsod.Prelude.Keys.{present}

pub record ShareMetadata (Layer : Type 0) : Type 0 where
  pub codec : ℕ
  pub layers : List Layer
  pub has_audio : Bool

pub record StreamSessionOwnership (Layer : Type 0) : Type 0 where
  pub primary_tag : ℕ
  pub fallback_tag : Option ℕ
  pub owner_user_id : ℕ
  pub channel_id : ℕ
  pub active_layer_ids : List ℕ
  pub metadata : ShareMetadata Layer

pub record StreamTeardown : Type 0 where
  pub stream_id : ℕ
  pub removed_tags : List ℕ
  pub removed_orphan_tags : ℕ

pub record StreamSessionRegistry (Layer : Type 0) : Type 0 where
  pub sessions_by_stream_id : List (ℕ × StreamSessionOwnership Layer)
  pub stream_id_by_tag : List (ℕ × ℕ)
  pub viewer_preferred_layers : List ((ℕ × ℕ) × ℕ)
  pub recovery_forwarded_at : List (ℕ × ℕ)
  pub recovery_forwards : ℕ
  pub keyframe_requests : ℕ
  pub orphan_cleanup_count : ℕ

abbrev pub recovery_throttle : ℕ
recovery_throttle = 500

-- The primary tag and the fallback's, if there is one.
abbrev pub with_fallback : ℕ → Option ℕ → List ℕ
with_fallback primary none = primary ∷ []
with_fallback primary (some tag) = primary ∷ tag ∷ []

-- The loop over the removed tags, with the number of those that no stream had.
unfoldable pub forget_tags : List ℕ → List (ℕ × ℕ) → List (ℕ × ℕ) × ℕ
forget_tags [] by_tag = (by_tag, 0)
forget_tags (tag ∷ removed) by_tag =
    let (left, orphans) = forget_tags removed (remove tag by_tag) in
    (left, if present (lookup tag by_tag) then orphans else orphans + 1)

unfoldable pub forget_recoveries : List ℕ → List (ℕ × ℕ) → List (ℕ × ℕ)
forget_recoveries [] forwarded_at = forwarded_at
forget_recoveries (tag ∷ removed) forwarded_at = forget_recoveries removed (remove tag forwarded_at)

abbrev pub route_fallback : Option ℕ → ℕ → List (ℕ × ℕ) → List (ℕ × ℕ)
route_fallback none stream_id by_tag = by_tag
route_fallback (some tag) stream_id by_tag = insert tag stream_id by_tag

-- `duration_since` is zero where `now` is earlier.
abbrev pub is_due : ℕ → Option ℕ → Bool
is_due now none = true
is_due now (some at) = leb recovery_throttle (now - at)

module _ {Layer : Type 0} where
  unfoldable pub new : StreamSessionRegistry Layer
  new = record {
    sessions_by_stream_id = [];
    stream_id_by_tag = [];
    viewer_preferred_layers = [];
    recovery_forwarded_at = [];
    recovery_forwards = 0;
    keyframe_requests = 0;
    orphan_cleanup_count = 0;
  }

  unfoldable pub active_among :
      ℕ → List (ℕ × StreamSessionOwnership Layer) → List (ℕ × StreamSessionOwnership Layer)
  active_among channel [] = []
  active_among channel ((sid, o) ∷ sessions) =
      let rest = active_among channel sessions in
      if o.channel_id == channel then (sid, o) ∷ rest else rest

  unfoldable pub active_sessions_for_channel :
      StreamSessionRegistry Layer → ℕ → List (ℕ × StreamSessionOwnership Layer)
  unfolding active_among
  active_sessions_for_channel reg channel = active_among channel reg.sessions_by_stream_id

  abbrev pub tags : StreamSessionOwnership Layer → List ℕ
  tags o = with_fallback o.primary_tag o.fallback_tag

  abbrev pub tags_of : Option (StreamSessionOwnership Layer) → List ℕ
  tags_of none = []
  tags_of (some o) = tags o

  unfoldable pub teardown :
      StreamSessionRegistry Layer → ℕ → StreamSessionRegistry Layer × StreamTeardown
  unfolding forget_tags forget_recoveries
  teardown reg stream_id =
      let removed = tags_of (lookup stream_id reg.sessions_by_stream_id) in
      let (by_tag, orphans) = forget_tags removed reg.stream_id_by_tag in
      (
        record reg {
          sessions_by_stream_id = remove stream_id reg.sessions_by_stream_id;
          stream_id_by_tag = by_tag;
          recovery_forwarded_at = forget_recoveries removed reg.recovery_forwarded_at;
          orphan_cleanup_count = (reg.orphan_cleanup_count + orphans) % 2 ^ 64;
          viewer_preferred_layers =
              retain_keys (λ key. not (key.0 == stream_id)) reg.viewer_preferred_layers;
        },
        record { stream_id = stream_id; removed_tags = removed; removed_orphan_tags = orphans },
      )

  unfoldable pub register :
      StreamSessionRegistry Layer
      → ℕ
      → StreamSessionOwnership Layer
      → StreamSessionRegistry Layer × StreamTeardown
  unfolding teardown
  register reg stream_id ownership =
      let (reg', torn) = teardown reg stream_id in
      (
        record reg' {
          stream_id_by_tag =
              route_fallback ownership.fallback_tag stream_id
                (insert ownership.primary_tag stream_id reg'.stream_id_by_tag);
          sessions_by_stream_id = insert stream_id ownership reg'.sessions_by_stream_id;
        },
        record torn { stream_id = stream_id },
      )

  abbrev pub with_id :
      ℕ → Option (StreamSessionOwnership Layer) → Option (ℕ × StreamSessionOwnership Layer)
  with_id stream_id none = none
  with_id stream_id (some o) = some (stream_id, o)

  unfoldable pub ownership_by_stream_tag :
      StreamSessionRegistry Layer → ℕ → Option (ℕ × StreamSessionOwnership Layer)
  ownership_by_stream_tag reg tag = elim (lookup tag reg.stream_id_by_tag) [
    | none ↦ none
    | some stream_id ↦ with_id stream_id (lookup stream_id reg.sessions_by_stream_id)
  ]

  unfoldable pub set_viewer_preferred_layer :
      StreamSessionRegistry Layer → ℕ → ℕ → ℕ → StreamSessionRegistry Layer
  set_viewer_preferred_layer reg stream_id viewer layer_id = record reg {
    viewer_preferred_layers = insert (stream_id, viewer) layer_id reg.viewer_preferred_layers;
  }

  unfoldable pub viewer_preferred_layer : StreamSessionRegistry Layer → ℕ → ℕ → Option ℕ
  viewer_preferred_layer reg stream_id viewer =
      lookup (stream_id, viewer) reg.viewer_preferred_layers

  unfoldable pub primary_tag_for_stream_id : StreamSessionRegistry Layer → ℕ → Option ℕ
  primary_tag_for_stream_id reg stream_id = elim (lookup stream_id reg.sessions_by_stream_id) [
    | none ↦ none
    | some o ↦ some o.primary_tag
  ]

  unfoldable pub note_keyframe_request : StreamSessionRegistry Layer → StreamSessionRegistry Layer
  note_keyframe_request reg = record reg {
    keyframe_requests = min (reg.keyframe_requests + 1) (2 ^ 64 - 1);
  }

  unfoldable pub should_forward_recovery :
      StreamSessionRegistry Layer → ℕ → ℕ → Bool × StreamSessionRegistry Layer
  should_forward_recovery reg tag now =
      if is_due now (lookup tag reg.recovery_forwarded_at)
      then (
        true,
        record reg {
          recovery_forwarded_at = insert tag now reg.recovery_forwarded_at;
          recovery_forwards = min (reg.recovery_forwards + 1) (2 ^ 64 - 1);
        },
      )
      else (false, reg)

  unfoldable pub active_sessions : StreamSessionRegistry Layer → ℕ
  active_sessions reg = length reg.sessions_by_stream_id

  unfoldable pub active_stream_tags : StreamSessionRegistry Layer → ℕ
  active_stream_tags reg = length reg.stream_id_by_tag
