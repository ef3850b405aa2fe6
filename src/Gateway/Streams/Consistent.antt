-- ===== src/Gateway/Streams/Consistent.antt =====
-- The maps of streams and tags agree while no stream is given another one's tag.
use tsod.Prelude.{
  ℕ, ◌≡◌, refl, sym, ap, subst, ◌∙◌, true, false, none, some, List, if◌then◌else◌, ◌==◌, ==_iff,
  Bool-cases, Option-cases, inl, inr, ◌⊎◌,
}
use tsod.Prelude.Maps.{lookup, nat_key, pair_key, lookup-remove}
use tsod.Prelude.Keys.{present, member, Distinct}
use tsod.Gateway.Streams.{
  StreamSessionOwnership, StreamSessionRegistry, tags, tags_of, new, teardown,
}
use tsod.Gateway.Streams.Tags.{lookup-forget_tags, forget_tags-none}

module _ {Layer : Type 0} where
  pub record Owns (reg : StreamSessionRegistry Layer) (tag stream_id : ℕ) : Type 0 where
    pub session : StreamSessionOwnership Layer
    pub found : lookup stream_id reg.sessions_by_stream_id ≡ some session
    pub tagged : member tag (tags session) ≡ true

  pub record IsConsistent (reg : StreamSessionRegistry Layer) : Type 0 where
    pub routed :
        (tag stream_id : ℕ)
        → lookup tag reg.stream_id_by_tag ≡ some stream_id
        → Owns reg tag stream_id
    pub owned :
        (tag stream_id : ℕ)
        → Owns reg tag stream_id
        → lookup tag reg.stream_id_by_tag ≡ some stream_id
    pub apart :
        (stream_id : ℕ) (o : StreamSessionOwnership Layer)
        → lookup stream_id reg.sessions_by_stream_id ≡ some o
        → Distinct (tags o)

  pub new-IsConsistent : IsConsistent (new {Layer = Layer})
  unfolding new lookup
  new-IsConsistent = record {
    routed = λ tag stream_id e. cc e;
    owned = λ tag stream_id w. let e = w.found in cc e;
    apart = λ stream_id o e. cc e;
  }

  module _ (reg : StreamSessionRegistry Layer) (v : IsConsistent reg) (stream_id : ℕ) where
    -- The tags that a teardown removes.
    abbrev pub removed : List ℕ
    removed = tags_of (lookup stream_id reg.sessions_by_stream_id)

    pub removed-Owns : (tag : ℕ) → member tag removed ≡ true → Owns reg tag stream_id
    unfolding member
    removed-Owns tag listed = elim (Option-cases (lookup stream_id reg.sessions_by_stream_id)) [
      | inl absent ↦
          let e : member tag (tags_of {Layer = Layer} none) ≡ true = rw absent at listed in cc e
      | inr (o, found) ↦ record { session = o; found = found; tagged = rw found at listed }
    ]

    pub lookup-teardown_tags :
        (tag : ℕ)
        → lookup tag (teardown reg stream_id).0.stream_id_by_tag
          ≡ (if member tag removed then none else lookup tag reg.stream_id_by_tag)
    unfolding teardown
    lookup-teardown_tags tag = lookup-forget_tags tag removed reg.stream_id_by_tag

    pub lookup-teardown_sessions :
        (sid : ℕ)
        → lookup sid (teardown reg stream_id).0.sessions_by_stream_id
          ≡ (if stream_id == sid then none else lookup sid reg.sessions_by_stream_id)
    unfolding teardown
    lookup-teardown_sessions sid = lookup-remove stream_id sid reg.sessions_by_stream_id

    pub teardown-none : (teardown reg stream_id).1.removed_orphan_tags ≡ 0
    unfolding teardown
    teardown-none =
        forget_tags-none removed reg.stream_id_by_tag
          (distinct (Option-cases (lookup stream_id reg.sessions_by_stream_id)))
          (λ tag listed. ap present (v.owned tag stream_id (removed-Owns tag listed)))
      where
        distinct :
            (lookup stream_id reg.sessions_by_stream_id ≡ none)
              ⊎ ((o : StreamSessionOwnership Layer) × (lookup stream_id reg.sessions_by_stream_id
                    ≡ some o))
            → Distinct removed
        distinct (inl absent) = subst (λ o. Distinct (tags_of o)) (sym absent) tt
        distinct (inr (o, found)) =
            subst (λ o. Distinct (tags_of o)) (sym found) (v.apart stream_id o found)

    -- A stream that is there after the teardown was there before, and is another one.
    survivor :
        (sid : ℕ) (o : StreamSessionOwnership Layer)
        → lookup sid (teardown reg stream_id).0.sessions_by_stream_id ≡ some o
        → (stream_id == sid ≡ false) × (lookup sid reg.sessions_by_stream_id ≡ some o)
    survivor sid o e = elim (Bool-cases (stream_id == sid)) [
      | inl same ↦
          let gone : lookup sid (teardown reg stream_id).0.sessions_by_stream_id ≡ none =
            lookup-teardown_sessions sid ∙ rw same refl in
          cc (gone, e)
      | inr other ↦ (other, sym (lookup-teardown_sessions sid ∙ rw other refl) ∙ e)
    ]

    other_tag :
        (tag sid : ℕ) → stream_id == sid ≡ false → Owns reg tag sid → member tag removed ≡ false
    other_tag tag sid other w = elim (Bool-cases (member tag removed)) [
      | inr kept ↦ kept
      | inl gone ↦
          let mine = v.owned tag stream_id (removed-Owns tag gone) in
          let theirs = v.owned tag sid w in
          let same : stream_id ≡ sid = cc (mine, theirs) in
          let yes : (stream_id == sid) ≡ true = (==_iff stream_id sid).1 same in cc (yes, other)
    ]

    pub teardown-IsConsistent : IsConsistent (teardown reg stream_id).0
    teardown-IsConsistent = record {
      routed = λ tag sid e. elim (Bool-cases (member tag removed)) [
        | inl gone ↦
            let nowhere : lookup tag (teardown reg stream_id).0.stream_id_by_tag ≡ none =
              lookup-teardown_tags tag ∙ rw gone refl in
            cc (nowhere, e)
        | inr kept ↦
            let w = v.routed tag sid (sym (lookup-teardown_tags tag ∙ rw kept refl) ∙ e) in
            elim (Bool-cases (stream_id == sid)) [
              | inl same ↦
                  let at : lookup stream_id reg.sessions_by_stream_id ≡ some w.session =
                    ap (λ j. lookup j reg.sessions_by_stream_id) ((==_iff stream_id sid).0 same)
                    ∙ w.found in
                  let listed : member tag removed ≡ true =
                    ap (λ o. member tag (tags_of o)) at ∙ w.tagged in
                  cc (listed, kept)
              | inr other ↦ record {
                session = w.session;
                found = lookup-teardown_sessions sid ∙ rw other w.found;
                tagged = w.tagged;
              }
            ]
      ];
      owned = λ tag sid w.
          let (other, there) = survivor sid w.session w.found in
          let before : Owns reg tag sid = record {
            session = w.session;
            found = there;
            tagged = w.tagged;
          } in
          lookup-teardown_tags tag ∙ rw (other_tag tag sid other before) (v.owned tag sid before);
      apart = λ sid o e. v.apart sid o (survivor sid o e).1;
    }
