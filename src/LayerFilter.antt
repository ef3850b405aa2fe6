-- ===== src/LayerFilter.antt =====
-- server/media/layer_filter.rs: which simulcast layer a viewer wants of a stream. Users are numbers.
pub mod Preferences
use tsod.Prelude.{ℕ, Bool, not, ◌||◌, Option, none, some, List, [], ◌==◌}
use tsod.Prelude.Maps.{lookup, insert, retain_keys, pair_key}

pub record LayerFilter : Type 0 where
  pub preferred_by_viewer : List ((ℕ × ℕ) × ℕ)

unfoldable pub default_filter : LayerFilter
default_filter = record { preferred_by_viewer = [] }

unfoldable pub set_preferred_layer : LayerFilter → ℕ → ℕ → ℕ → LayerFilter
set_preferred_layer f stream_tag viewer layer_id = record {
  preferred_by_viewer = insert (stream_tag, viewer) layer_id f.preferred_by_viewer;
}

unfoldable pub remove_stream : LayerFilter → ℕ → LayerFilter
remove_stream f stream_tag = record {
  preferred_by_viewer = retain_keys (λ key. not (key.0 == stream_tag)) f.preferred_by_viewer;
}

unfoldable pub preferred_layer : LayerFilter → ℕ → ℕ → Option ℕ
preferred_layer f stream_tag viewer = lookup (stream_tag, viewer) f.preferred_by_viewer

-- A viewer with no preference gets layer 0.
unfoldable pub should_forward : LayerFilter → ℕ → ℕ → ℕ → Bool → Bool
should_forward f stream_tag viewer datagram_layer_id is_priority =
    let preferred : ℕ = elim (preferred_layer f stream_tag viewer) [ none ↦ 0 | some l ↦ l ] in
    datagram_layer_id == preferred || is_priority
