-- ===== src/Gateway/Streams/History.antt =====
-- Sequences of calls on the registry, and what a tag finds after them.
use tsod.Prelude.{
  ℕ, ◌+◌, ◌-◌, ◌%◌, ◌^◌, List, [], ◌∷◌, min, ◌≡◌, ◌↔◌, refl, sym, ap, ◌∙◌, true, none, some,
  Bool-cases, Option-cases, inl, inr,
}
use tsod.Prelude.Maps.{lookup, insert, nat_key, pair_key}
use tsod.Prelude.Keys.{member}
use tsod.Gateway.Streams.{
  StreamSessionOwnership, StreamSessionRegistry, tags, new, teardown, register,
  ownership_by_stream_tag,
}
use tsod.Gateway.Streams.{
  note_keyframe_request, set_viewer_preferred_layer, should_forward_recovery, is_due,
}
use tsod.Gateway.Streams.Consistent.{
  Owns, IsConsistent, new-IsConsistent, teardown-none, teardown-IsConsistent,
}
use tsod.Gateway.Streams.Register.{IsFresh, register-IsConsistent}

-- A call on the registry.
pub data Call (Layer : Type 0) : Type 0 where
  registers : ℕ → StreamSessionOwnership Layer → Call Layer
  tears : ℕ → Call Layer
  prefers : ℕ → ℕ → ℕ → Call Layer
  notes : Call Layer
  recovers : ℕ → ℕ → Call Layer

-- A count to which nothing is added.
none_added : {count orphans : ℕ} → orphans ≡ 0 → count ≡ 0 → (count + orphans) % 2 ^ 64 ≡ 0
none_added no_orphans nothing = rw (no_orphans, nothing) refl

module _ {Layer : Type 0} where
  unfoldable pub apply : StreamSessionRegistry Layer → Call Layer → StreamSessionRegistry Layer
  unfolding register teardown set_viewer_preferred_layer note_keyframe_request
      should_forward_recovery
  apply reg (registers stream_id o) = (register reg stream_id o).0
  apply reg (tears stream_id) = (teardown reg stream_id).0
  apply reg (prefers stream_id viewer layer_id) =
      set_viewer_preferred_layer reg stream_id viewer layer_id
  apply reg notes = note_keyframe_request reg
  apply reg (recovers tag now) = (should_forward_recovery reg tag now).1

  unfoldable pub run : StreamSessionRegistry Layer → List (Call Layer) → StreamSessionRegistry Layer
  unfolding apply
  run reg [] = reg
  run reg (call ∷ calls) = run (apply reg call) calls

  -- What `register` takes for granted and does not check: the tags of the share differ, and none is at that
  -- time another stream's.
  abbrev pub IsCallFresh : StreamSessionRegistry Layer → Call Layer → Type 0
  IsCallFresh reg (registers stream_id o) = IsFresh reg stream_id o
  IsCallFresh reg (tears stream_id) = Unit {0}
  IsCallFresh reg (prefers stream_id viewer layer_id) = Unit {0}
  IsCallFresh reg notes = Unit {0}
  IsCallFresh reg (recovers tag now) = Unit {0}

  -- It holds at each of the calls.
  abbrev pub AreFresh : StreamSessionRegistry Layer → List (Call Layer) → Type 0
  AreFresh reg [] = Unit {0}
  AreFresh reg (call ∷ calls) = IsCallFresh reg call × AreFresh (apply reg call) calls

  pub record Holds (reg : StreamSessionRegistry Layer) : Type 0 where
    pub consistent : IsConsistent reg
    pub no_orphan : reg.orphan_cleanup_count ≡ 0

  kept-Holds :
      (reg reg' : StreamSessionRegistry Layer)
      → reg'.sessions_by_stream_id ≡ reg.sessions_by_stream_id
      → reg'.stream_id_by_tag ≡ reg.stream_id_by_tag
      → reg'.orphan_cleanup_count ≡ reg.orphan_cleanup_count
      → Holds reg
      → Holds reg'
  kept-Holds reg reg' sessions by_tag count h = record {
    consistent = record {
      routed = λ tag sid e.
          let w = h.consistent.routed tag sid (ap (λ m. lookup tag m) (sym by_tag) ∙ e) in
          record {
            session = w.session;
            found = ap (λ m. lookup sid m) sessions ∙ w.found;
            tagged = w.tagged;
          };
      owned = λ tag sid w.
          ap (λ m. lookup tag m) by_tag
          ∙ h.consistent.owned tag sid (record {
            session = w.session;
            found = ap (λ m. lookup sid m) (sym sessions) ∙ w.found;
            tagged = w.tagged;
          });
      apart = λ sid o e. h.consistent.apart sid o (ap (λ m. lookup sid m) (sym sessions) ∙ e);
    };
    no_orphan = count ∙ h.no_orphan;
  }

  pub prefers-Holds :
      (reg : StreamSessionRegistry Layer) (stream_id viewer layer_id : ℕ)
      → Holds reg
      → Holds (set_viewer_preferred_layer reg stream_id viewer layer_id)
  unfolding set_viewer_preferred_layer
  prefers-Holds reg stream_id viewer layer_id h =
      kept-Holds reg (set_viewer_preferred_layer reg stream_id viewer layer_id) refl refl refl h

  recovers-Holds :
      (reg : StreamSessionRegistry Layer) (tag now : ℕ)
      → Holds reg
      → Holds (should_forward_recovery reg tag now).1
  unfolding should_forward_recovery
  recovers-Holds reg tag now h =
      elim (Bool-cases (is_due now (lookup tag reg.recovery_forwarded_at))) [
        | inl due ↦ rw due (kept-Holds reg (forwarded reg tag now) refl refl refl h)
        | inr soon ↦ rw soon h
      ]
    where
      forwarded : StreamSessionRegistry Layer → ℕ → ℕ → StreamSessionRegistry Layer
      forwarded reg tag now = record reg {
        recovery_forwarded_at = insert tag now reg.recovery_forwarded_at;
        recovery_forwards = min (reg.recovery_forwards + 1) (2 ^ 64 - 1);
      }

  apply-Holds :
      (reg : StreamSessionRegistry Layer) (call : Call Layer)
      → IsCallFresh reg call
      → Holds reg
      → Holds (apply reg call)
  unfolding apply register teardown note_keyframe_request
  apply-Holds reg (registers stream_id o) fresh h = record {
    consistent = register-IsConsistent reg h.consistent stream_id o fresh;
    no_orphan = none_added (teardown-none reg h.consistent stream_id) h.no_orphan;
  }
  apply-Holds reg (tears stream_id) fresh h = record {
    consistent = teardown-IsConsistent reg h.consistent stream_id;
    no_orphan = none_added (teardown-none reg h.consistent stream_id) h.no_orphan;
  }
  apply-Holds reg (prefers stream_id viewer layer_id) fresh h =
      prefers-Holds reg stream_id viewer layer_id h
  apply-Holds reg notes fresh h = kept-Holds reg (note_keyframe_request reg) refl refl refl h
  apply-Holds reg (recovers tag now) fresh h = recovers-Holds reg tag now h

  stays-Holds :
      (reg : StreamSessionRegistry Layer) (calls : List (Call Layer))
      → AreFresh reg calls
      → Holds reg
      → Holds (run reg calls)
  unfolding run
  stays-Holds reg [] fresh h = h
  stays-Holds reg (call ∷ calls) fresh h =
      stays-Holds (apply reg call) calls fresh.1 (apply-Holds reg call fresh.0 h)

  -- After any calls on a new registry of which every registration brings tags that differ and that no other
  -- stream has at that time, which `register` does not check: the maps of streams and tags agree, and no
  -- orphaned tag has ever been counted.
  pub run-Holds : (calls : List (Call Layer)) → AreFresh new calls → Holds (run new calls)
  unfolding new
  run-Holds calls fresh =
      stays-Holds new calls fresh (record { consistent = new-IsConsistent; no_orphan = refl })

  pub IsConsistent-ownership :
      (reg : StreamSessionRegistry Layer) (v : IsConsistent reg) (tag stream_id : ℕ)
      (o : StreamSessionOwnership Layer)
      → (ownership_by_stream_tag reg tag ≡ some (stream_id, o))
        ↔ ((lookup stream_id reg.sessions_by_stream_id ≡ some o) × (member tag (tags o) ≡ true))
  unfolding ownership_by_stream_tag
  IsConsistent-ownership reg v tag stream_id o =
      (there, λ h. found_by (v.owned tag stream_id (owns h)) h.0)
    where
      owns :
          (lookup stream_id reg.sessions_by_stream_id ≡ some o) × (member tag (tags o) ≡ true)
          → Owns reg tag stream_id
      owns h = record { session = o; found = h.0; tagged = h.1 }

      found_by :
          {sid : ℕ} {x : StreamSessionOwnership Layer}
          → lookup tag reg.stream_id_by_tag ≡ some sid
          → lookup sid reg.sessions_by_stream_id ≡ some x
          → ownership_by_stream_tag reg tag ≡ some (sid, x)
      found_by routed found = rw (routed, ownership_by_stream_tag) (rw found refl)

      there :
          ownership_by_stream_tag reg tag ≡ some (stream_id, o)
          → (lookup stream_id reg.sessions_by_stream_id ≡ some o) × (member tag (tags o) ≡ true)
      there e = elim (Option-cases (lookup tag reg.stream_id_by_tag)) [
        | inl nowhere ↦
            let none_there : ownership_by_stream_tag reg tag ≡ none =
              rw (nowhere, ownership_by_stream_tag) refl in
            cc (none_there, e)
        | inr (sid, routed) ↦
            let w = v.routed tag sid routed in
            let known = found_by routed w.found in
            let at : sid ≡ stream_id = cc (known, e) in
            let same : w.session ≡ o = cc (known, e) in
            (
              ap (λ j. lookup j reg.sessions_by_stream_id) (sym at) ∙ w.found ∙ ap some same,
              ap (λ x. member tag (tags x)) (sym same) ∙ w.tagged,
            )
      ]

  -- After any calls on a new registry of which every registration brings tags that differ and that no other
  -- stream has at that time, which `register` does not check: a tag finds a share exactly where the share
  -- is registered with that tag.
  pub ownership_by_stream_tag_iff :
      (calls : List (Call Layer)) (tag stream_id : ℕ) (o : StreamSessionOwnership Layer)
      → AreFresh new calls
      → (ownership_by_stream_tag (run new calls) tag ≡ some (stream_id, o)) ↔ (
          (lookup stream_id (run new calls).sessions_by_stream_id ≡ some o)
          × (member tag (tags o) ≡ true))
  ownership_by_stream_tag_iff calls tag stream_id o fresh =
      IsConsistent-ownership (run new calls) (run-Holds calls fresh).consistent tag stream_id o
