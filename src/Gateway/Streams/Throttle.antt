-- ===== src/Gateway/Streams/Throttle.antt =====
-- Requests for recovery that are forwarded to the owner of a stream are spaced.
use tsod.Prelude.{
  ℕ, ◌+◌, ◌-◌, ◌^◌, ◌≤◌, ◌≡◌, min, refl, sym, ap, subst, ◌∙◌, true, Option, none, some, List, [],
  ◌∷◌, arith, if◌then◌else◌, ◌==◌, ==_iff, Bool-cases, inl, inr,
}
use tsod.Prelude.Maps.{lookup, insert, nat_key, lookup-insert}
use tsod.Gateway.Streams.{StreamSessionRegistry, recovery_throttle, is_due, should_forward_recovery}

-- The first lies at least the throttle's time after `last`, if that is there, and each later one after the
-- one before.
abbrev pub Spaced : Option ℕ → List ℕ → Type 0
Spaced last [] = Unit {0}
Spaced none (t ∷ ts) = Spaced (some t) ts
Spaced (some last) (t ∷ ts) = (last + recovery_throttle ≤ t) × Spaced (some t) ts

Spaced-cons :
    (last : Option ℕ) (t : ℕ) (ts : List ℕ)
    → is_due t last ≡ true
    → Spaced (some t) ts
    → Spaced last (t ∷ ts)
Spaced-cons none t ts due later = later
Spaced-cons (some last) t ts due later = (ground (arith, due), later)

module _ {Layer : Type 0} where
  -- The times at which a request for the tag is forwarded, of requests for many tags.
  unfoldable pub forwards : StreamSessionRegistry Layer → List (ℕ × ℕ) → ℕ → List ℕ
  unfolding should_forward_recovery
  forwards reg [] tag = []
  forwards reg ((t, now) ∷ asked) tag =
      let (forwarded, reg') = should_forward_recovery reg t now in
      let rest = forwards reg' asked tag in
      if forwarded then if t == tag then now ∷ rest else rest else rest

  -- Whatever the order of the requests and their times, also where the clock steps back, the requests for
  -- one tag that are forwarded lie half a second apart, and half a second after the last one before.
  pub forwards-Spaced :
      (reg : StreamSessionRegistry Layer) (asked : List (ℕ × ℕ)) (tag : ℕ)
      → Spaced (lookup tag reg.recovery_forwarded_at) (forwards reg asked tag)
  unfolding forwards should_forward_recovery
  forwards-Spaced reg [] tag = tt
  forwards-Spaced reg ((t, now) ∷ asked) tag =
      elim (Bool-cases (is_due now (lookup t reg.recovery_forwarded_at))) [
        | inr soon ↦ rw (soon, forwards) (forwards-Spaced reg asked tag)
        | inl due ↦
            let ih = forwards-Spaced (noted reg t now) asked tag in
            let at = lookup-insert t tag now reg.recovery_forwarded_at in
            let later = forwards (noted reg t now) asked tag in
            elim (Bool-cases (t == tag)) [
              | inl here ↦
                  let due_here : is_due now (lookup tag reg.recovery_forwarded_at) ≡ true =
                    ap (λ j. is_due now (lookup j reg.recovery_forwarded_at))
                      (sym ((==_iff t tag).0 here))
                    ∙ due in
                  let first =
                    Spaced-cons (lookup tag reg.recovery_forwarded_at) now later due_here
                      (subst (λ last. Spaced last later) (at ∙ rw here refl) ih) in
                  rw (due, forwards) (rw here first)
              | inr other ↦
                  let same = subst (λ last. Spaced last later) (at ∙ rw other refl) ih in
                  rw (due, forwards) (rw other same)
            ]
      ]
    where
      noted : StreamSessionRegistry Layer → ℕ → ℕ → StreamSessionRegistry Layer
      noted reg t now = record reg {
        recovery_forwarded_at = insert t now reg.recovery_forwarded_at;
        recovery_forwards = min (reg.recovery_forwards + 1) (2 ^ 64 - 1);
      }
