-- ===== src/Gateway/Share/Selected.antt =====
-- What a selection of a layer leaves in the registry.
use tsod.Prelude.{ℕ, List, ◌≡◌, refl, ap, ◌∙◌, true, some, Option-cases, inl, inr}
use tsod.Prelude.Maps.{lookup, nat_key, pair_key, pair_same, pair_same_iff, lookup-insert}
use tsod.Prelude.Keys.{member}
use tsod.SharePolicy.{
  ScreenSharePolicy, Resolution, invalid_argument, failed_precondition, resolved, resolve_layer,
}
use tsod.Gateway.Streams.{
  StreamSessionOwnership, StreamSessionRegistry, tags, new, set_viewer_preferred_layer,
  viewer_preferred_layer, ownership_by_stream_tag,
}
use tsod.Gateway.Streams.History.{
  Call, run, AreFresh, Holds, run-Holds, prefers-Holds, IsConsistent-ownership,
}
use tsod.Gateway.Share.{Selection, persist, select_and_persist_layer}

module _ {Layer : Type 0} where
  -- The viewer's layer is stored, and each tag finds the stream.
  pub record Selected (stream_id viewer active_layer : ℕ) (s : Selection Layer) : Type 0 where
    pub stored : viewer_preferred_layer s.registry stream_id viewer ≡ some active_layer
    pub owner : StreamSessionOwnership Layer
    pub all_tags : s.stream_tags ≡ tags owner
    pub routed :
        (tag : ℕ)
        → member tag s.stream_tags ≡ true
        → ownership_by_stream_tag s.registry tag ≡ some (stream_id, owner)

  persist-Selected :
      (reg : StreamSessionRegistry Layer) (stream_id viewer active_layer : ℕ)
      (o : StreamSessionOwnership Layer) (r : Resolution × ScreenSharePolicy)
      → Holds reg
      → lookup stream_id reg.sessions_by_stream_id ≡ some o
      → (persist reg stream_id viewer o r).resolution ≡ resolved active_layer
      → Selected stream_id viewer active_layer (persist reg stream_id viewer o r)
  unfolding set_viewer_preferred_layer viewer_preferred_layer
  persist-Selected reg stream_id viewer active_layer o (resolved layer, policy) h found chosen =
      let same : pair_same (stream_id, viewer) (stream_id, viewer) ≡ true =
        (pair_same_iff (stream_id, viewer) (stream_id, viewer)).1 refl in
      let at : layer ≡ active_layer = cc chosen in
      record {
        stored =
            lookup-insert (stream_id, viewer) (stream_id, viewer) layer reg.viewer_preferred_layers
            ∙ rw same (ap some at);
        owner = o;
        all_tags = refl;
        routed = λ tag listed.
            (IsConsistent-ownership (set_viewer_preferred_layer reg stream_id viewer layer)
                (prefers-Holds reg stream_id viewer layer h).consistent tag stream_id o).1
              (found, listed);
      }
  persist-Selected reg stream_id viewer active_layer o (invalid_argument, policy) h found chosen =
      cc chosen
  persist-Selected reg stream_id viewer active_layer o (failed_precondition, policy) h found
        chosen =
      cc chosen

  -- After any calls on a new registry of which every registration brings tags that differ and that no other
  -- stream has at that time, which `register` does not check: a selection that gives a layer stores it for
  -- the viewer, and gives the tags of the stream, the fallback's among them, each of which finds the stream.
  pub select_and_persist_layer-Selected :
      (calls : List (Call Layer)) (policy : ScreenSharePolicy)
      (stream_id viewer preferred now active_layer : ℕ)
      → AreFresh new calls
      → (select_and_persist_layer (run new calls) policy stream_id viewer preferred now).resolution
        ≡ resolved active_layer
      → Selected stream_id viewer active_layer
          (select_and_persist_layer (run new calls) policy stream_id viewer preferred now)
  unfolding select_and_persist_layer
  select_and_persist_layer-Selected calls policy stream_id viewer preferred now active_layer fresh
        chosen =
      elim (Option-cases (lookup stream_id (run new calls).sessions_by_stream_id)) [
        | inl absent ↦
            let refused : invalid_argument ≡ resolved active_layer =
              rw (absent, select_and_persist_layer) at chosen in
            cc refused
        | inr (o, found) ↦
            let r = resolve_layer policy stream_id viewer preferred o.active_layer_ids now in
            let known : (persist (run new calls) stream_id viewer o r).resolution
                ≡ resolved active_layer =
              rw (found, select_and_persist_layer) at chosen in
            rw (found, select_and_persist_layer)
              (persist-Selected (run new calls) stream_id viewer active_layer o r
                (run-Holds calls fresh) found known)
      ]
