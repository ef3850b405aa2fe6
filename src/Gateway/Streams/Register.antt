-- ===== src/Gateway/Streams/Register.antt =====
-- What `register` does to the maps, and what every tag then finds.
use tsod.Prelude.{
  ℕ, ◌≡◌, refl, sym, ap, subst, ◌∙◌, Bool, true, false, Option, none, some, if◌then◌else◌, ◌==◌,
  ==_iff, Bool-cases, Option-cases, inl, inr, ◌⊎◌,
}
use tsod.Prelude.Maps.{lookup, nat_key, pair_key, lookup-insert}
use tsod.Prelude.Keys.{member, Distinct}
use tsod.Gateway.Streams.{
  StreamSessionOwnership, StreamSessionRegistry, tags, tags_of, teardown, register,
}
use tsod.Gateway.Streams.Tags.{lookup-route_fallback}
use tsod.Gateway.Streams.Consistent.{
  IsConsistent, lookup-teardown_tags, lookup-teardown_sessions, teardown-IsConsistent,
}

-- No other stream has the tag.
abbrev pub IsFree : ℕ → Option ℕ → Type 0
IsFree stream_id none = Unit
IsFree stream_id (some sid) = sid ≡ stream_id

module _ {Layer : Type 0} where
  -- The tags of a share are apart, and of no other stream.
  pub record IsFresh (reg : StreamSessionRegistry Layer) (stream_id : ℕ)
      (o : StreamSessionOwnership Layer) : Type 0 where
    pub distinct : Distinct (tags o)
    pub free :
        (tag : ℕ) → member tag (tags o) ≡ true → IsFree stream_id (lookup tag reg.stream_id_by_tag)

  module _ (reg : StreamSessionRegistry Layer) (v : IsConsistent reg) (stream_id : ℕ)
      (o : StreamSessionOwnership Layer) where
    abbrev torn : StreamSessionRegistry Layer
    torn = (teardown reg stream_id).0

    abbrev after : StreamSessionRegistry Layer
    after = (register reg stream_id o).0

    torn-free :
        IsFresh reg stream_id o
        → (tag : ℕ) → member tag (tags o) ≡ true
        → lookup tag torn.stream_id_by_tag ≡ none
    torn-free fresh tag listed = elim (Option-cases (lookup tag reg.stream_id_by_tag)) [
      | inl nowhere ↦
          lookup-teardown_tags reg v stream_id tag
          ∙ ap (λ x. if gone tag then none else x) nowhere
          ∙ always (gone tag)
      | inr (sid, there) ↦
          let at : sid ≡ stream_id =
            subst (λ x. IsFree stream_id x) there (fresh.free tag listed) in
          let w = v.routed tag stream_id (there ∙ ap some at) in
          let mine : gone tag ≡ true = ap (λ x. member tag (tags_of x)) w.found ∙ w.tagged in
          lookup-teardown_tags reg v stream_id tag ∙ rw mine refl
    ]
      where
        gone : ℕ → Bool
        gone tag = member tag (tags_of (lookup stream_id reg.sessions_by_stream_id))

        always : (b : Bool) → if◌then◌else◌ {A = Option ℕ} b none none ≡ none
        always true = refl
        always false = refl

    lookup-register_tags :
        (tag : ℕ)
        → lookup tag after.stream_id_by_tag
          ≡ (if member tag (tags o) then some stream_id else lookup tag torn.stream_id_by_tag)
    unfolding register
    lookup-register_tags tag =
        lookup-route_fallback tag o.primary_tag o.fallback_tag stream_id torn.stream_id_by_tag

    lookup-register_sessions :
        (sid : ℕ)
        → lookup sid after.sessions_by_stream_id
          ≡ (if stream_id == sid then some o else lookup sid torn.sessions_by_stream_id)
    unfolding register
    lookup-register_sessions sid = lookup-insert stream_id sid o torn.sessions_by_stream_id

    -- A stream that is there afterwards is the new one, or was there after the teardown.
    registered :
        (sid : ℕ) (x : StreamSessionOwnership Layer)
        → lookup sid after.sessions_by_stream_id ≡ some x
        → ((stream_id ≡ sid) × (o ≡ x))
          ⊎ ((stream_id == sid ≡ false) × (lookup sid torn.sessions_by_stream_id ≡ some x))
    registered sid x e = elim (Bool-cases (stream_id == sid)) [
      | inl same ↦
          let here : lookup sid after.sessions_by_stream_id ≡ some o =
            lookup-register_sessions sid ∙ rw same refl in
          inl ((==_iff stream_id sid).0 same, cc (here, e))
      | inr apart ↦ inr (apart, sym (lookup-register_sessions sid ∙ rw apart refl) ∙ e)
    ]

    pub register-IsConsistent : IsFresh reg stream_id o → IsConsistent after
    register-IsConsistent fresh = record {
      routed = λ tag sid e. elim (Bool-cases (member tag (tags o))) [
        | inl mine ↦
            let here : lookup tag after.stream_id_by_tag ≡ some stream_id =
              lookup-register_tags tag ∙ rw mine refl in
            let at : stream_id ≡ sid = cc (here, e) in
            let same : (stream_id == sid) ≡ true = (==_iff stream_id sid).1 at in
            record {
              session = o;
              found = lookup-register_sessions sid ∙ rw same refl;
              tagged = mine;
            }
        | inr other ↦
            let w =
              (teardown-IsConsistent reg v stream_id).routed tag sid
                (sym (lookup-register_tags tag ∙ rw other refl) ∙ e) in
            elim (Bool-cases (stream_id == sid)) [
              | inl same ↦
                  let gone : lookup sid torn.sessions_by_stream_id ≡ none =
                    lookup-teardown_sessions reg v stream_id sid ∙ rw same refl in
                  let there = w.found in cc (gone, there)
              | inr apart ↦ record {
                session = w.session;
                found = lookup-register_sessions sid ∙ rw apart w.found;
                tagged = w.tagged;
              }
            ]
      ];
      owned = λ tag sid w. elim (registered sid w.session w.found) [
        | inl (at, same) ↦
            let mine : member tag (tags o) ≡ true = ap (λ x. member tag (tags x)) same ∙ w.tagged in
            lookup-register_tags tag ∙ rw mine (ap some at)
        | inr (apart, there) ↦
            let theirs =
              (teardown-IsConsistent reg v stream_id).owned tag sid
                (record { session = w.session; found = there; tagged = w.tagged }) in
            elim (Bool-cases (member tag (tags o))) [
              | inl mine ↦ let nowhere = torn-free fresh tag mine in cc (nowhere, theirs)
              | inr other ↦ lookup-register_tags tag ∙ rw other theirs
            ]
      ];
      apart = λ sid x e. elim (registered sid x e) [
        | inl (at, same) ↦ subst (λ y. Distinct (tags y)) same fresh.distinct
        | inr (apart, there) ↦ (teardown-IsConsistent reg v stream_id).apart sid x there
      ];
    }
