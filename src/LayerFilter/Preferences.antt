-- ===== src/LayerFilter/Preferences.antt =====
-- What a preference, and the end of a stream, mean for the fragments that are forwarded.
use tsod.Prelude.{ℕ, ◌≡◌, refl, Bool, not, ◌&&◌, ◌||◌, if◌then◌else◌, ◌==◌, Bool-cases, inl, inr}
use tsod.Prelude.Maps.{pair_key, lookup-insert, lookup-retain_keys}
use tsod.LayerFilter.{
  LayerFilter, set_preferred_layer, remove_stream, preferred_layer, should_forward,
}

-- After `set_preferred_layer` the viewer gets of that stream the datagrams of that layer and the priority
-- datagrams, and what is forwarded of other streams or to other viewers is as before.
pub should_forward-set_preferred_layer :
    (f : LayerFilter) (tag viewer layer tag' viewer' datagram_layer : ℕ) (priority : Bool)
    → should_forward (set_preferred_layer f tag viewer layer) tag' viewer' datagram_layer priority
      ≡ (if tag == tag' && viewer == viewer'
          then datagram_layer == layer || priority
          else should_forward f tag' viewer' datagram_layer priority)
unfolding should_forward set_preferred_layer preferred_layer
should_forward-set_preferred_layer f tag viewer layer tag' viewer' datagram_layer priority =
    let found = lookup-insert (tag, viewer) (tag', viewer') layer f.preferred_by_viewer in
    elim (Bool-cases (tag == tag' && viewer == viewer')) [
      | inl same ↦ rw (found, same) refl
      | inr other ↦ rw (found, other) refl
    ]

-- After `remove_stream` every viewer gets of that stream the datagrams of layer 0 and the priority
-- datagrams, and what is forwarded of other streams is as before.
pub should_forward-remove_stream :
    (f : LayerFilter) (tag tag' viewer datagram_layer : ℕ) (priority : Bool)
    → should_forward (remove_stream f tag) tag' viewer datagram_layer priority ≡ (
        if tag' == tag
        then datagram_layer == 0 || priority
        else should_forward f tag' viewer datagram_layer priority)
unfolding should_forward remove_stream preferred_layer
should_forward-remove_stream f tag tag' viewer datagram_layer priority =
    let found =
      lookup-retain_keys (λ key. not (key.0 == tag)) (tag', viewer) f.preferred_by_viewer in
    elim (Bool-cases (tag' == tag)) [
      | inl same ↦ rw (found, same) refl
      | inr other ↦ rw (found, other) refl
    ]
