-- ===== src/Gateway/Streams/Tags.antt =====
-- The two loops over a stream's tags.
use tsod.Prelude.{
  ℕ, ◌≡◌, refl, sym, ap, ◌∙◌, Bool, true, false, ◌||◌, Option, none, some, List, [], ◌∷◌,
  if◌then◌else◌, ◌==◌, ==_iff, Bool-cases, inl, inr, ◌⊎◌,
}
use tsod.Prelude.Maps.{lookup, insert, remove, nat_key, pair_key, lookup-insert, lookup-remove}
use tsod.Prelude.Keys.{present, member, Distinct}
use tsod.Gateway.Streams.{with_fallback, forget_tags, route_fallback}

pub lookup-forget_tags :
    (tag : ℕ) (removed : List ℕ) (by_tag : List (ℕ × ℕ))
    → lookup tag (forget_tags removed by_tag).0
      ≡ (if member tag removed then none else lookup tag by_tag)
unfolding forget_tags member
lookup-forget_tags tag [] by_tag = refl
lookup-forget_tags tag (t ∷ removed) by_tag =
    lookup-forget_tags tag removed (remove t by_tag)
    ∙ ap (λ o. if member tag removed then none else o) (lookup-remove t tag by_tag)
    ∙ either (t == tag) (member tag removed) (lookup tag by_tag)
  where
    either :
        (here there : Bool) (o : Option ℕ)
        → (if there then none else (if here then none else o)) ≡ (if here || there then none else o)
    either true true o = refl
    either true false o = refl
    either false true o = refl
    either false false o = refl

-- With every tag there, and none twice, no orphan is counted.
pub forget_tags-none :
    (removed : List ℕ) (by_tag : List (ℕ × ℕ))
    → Distinct removed
    → ((tag : ℕ) → member tag removed ≡ true → present (lookup tag by_tag) ≡ true)
    → (forget_tags removed by_tag).1 ≡ 0
unfolding forget_tags member
forget_tags-none [] by_tag d there = refl
forget_tags-none (t ∷ removed) by_tag d there =
    let same : (t == t) ≡ true = (==_iff t t).1 refl in
    let here : present (lookup t by_tag) ≡ true = there t (rw same refl) in
    let ih =
      forget_tags-none removed (remove t by_tag) d.1
        (λ tag listed. stays tag listed (Bool-cases (t == tag))) in
    rw here ih
  where
    stays :
        (tag : ℕ)
        → member tag removed ≡ true
        → (t == tag ≡ true) ⊎ (t == tag ≡ false)
        → present (lookup tag (remove t by_tag)) ≡ true
    stays tag listed (inl same) =
        let absent : member tag removed ≡ false =
          ap (λ j. member j removed) (sym ((==_iff t tag).0 same)) ∙ d.0 in
        cc (listed, absent)
    stays tag listed (inr other) =
        ap present (lookup-remove t tag by_tag ∙ rw other refl) ∙ there tag (rw other listed)

single {ℓ} :
    {A : Type ℓ} (x o : A) (b : Bool) → (if b then x else o) ≡ (if b || false then x else o)
single x o true = refl
single x o false = refl

both {ℓ} :
    {A : Type ℓ} (x o : A) (b c : Bool)
    → (if b then x else (if c then x else o)) ≡ (if c || (b || false) then x else o)
both x o true true = refl
both x o true false = refl
both x o false true = refl
both x o false false = refl

pub lookup-route_fallback :
    (tag primary : ℕ) (fallback : Option ℕ) (stream_id : ℕ) (by_tag : List (ℕ × ℕ))
    → lookup tag (route_fallback fallback stream_id (insert primary stream_id by_tag))
      ≡ (if member tag (with_fallback primary fallback) then some stream_id else lookup tag by_tag)
unfolding member
lookup-route_fallback tag primary none stream_id by_tag =
    lookup-insert primary tag stream_id by_tag
    ∙ single (some stream_id) (lookup tag by_tag) (primary == tag)
lookup-route_fallback tag primary (some t) stream_id by_tag =
    lookup-insert t tag stream_id (insert primary stream_id by_tag)
    ∙ ap (λ o. if t == tag then some stream_id else o) (lookup-insert primary tag stream_id by_tag)
    ∙ both (some stream_id) (lookup tag by_tag) (t == tag) (primary == tag)
