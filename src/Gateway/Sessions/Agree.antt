-- ===== src/Gateway/Sessions/Agree.antt =====
-- The map of sessions and the index by users agree, so that `get_sessions` gives what is registered.
use tsod.Prelude.{
  ℕ, ◌≡◌, refl, sym, ap, subst, ◌∙◌, Bool, true, false, ◌||◌, none, some, List, [], ◌∷◌, arith,
  if◌then◌else◌, ◌==◌, ==_iff, length, Bool-cases, Option-cases, inl, inr, ◌⊎◌,
}
use tsod.Prelude.Maps.{lookup, insert, remove, nat_key, pair_key, lookup-insert, lookup-remove}
use tsod.Prelude.Keys.{
  present, present-insert, present-remove, member, without, Distinct, member-append, member-without,
  without-Distinct, snoc-Distinct,
}
use tsod.SendPolicy.{SendCtx}
use tsod.Gateway.Sessions.{
  SessionMap, new, ids_of, add_id, index_session, register, take_id, remove_from_user_index,
  unregister, unregister_all,
}

-- The ids that the index has for a user.
abbrev pub indexed : SessionMap → ℕ → List ℕ
indexed m user = ids_of (lookup user m.user_index)

pub record IsIndexed (m : SessionMap) : Type 0 where
  pub listed : (user sid : ℕ) → member sid (indexed m user) ≡ present (lookup (user, sid) m.inner)
  pub distinct : (user : ℕ) → Distinct (indexed m user)

pub new-IsIndexed : IsIndexed new
unfolding new lookup member
new-IsIndexed = record { listed = λ user sid. refl; distinct = λ user. tt }

member-add_id : (k sid : ℕ) (ids : List ℕ) → member k (add_id sid ids) ≡ (sid == k || member k ids)
unfolding add_id member
member-add_id k sid ids = elim (Bool-cases (member sid ids)) [
  | inl there ↦ rw there (known (Bool-cases (sid == k)) there)
  | inr absent ↦ rw absent (ground (arith, member-append k ids (sid ∷ [])))
]
  where
    known :
        (sid == k ≡ true) ⊎ (sid == k ≡ false)
        → member sid ids ≡ true
        → member k ids ≡ (sid == k || member k ids)
    known (inl same) there =
        let k_there : member k ids ≡ true =
          ap (λ j. member j ids) (sym ((==_iff sid k).0 same)) ∙ there in
        rw (k_there, same) refl
    known (inr other) there = rw other refl

add_id-Distinct : (sid : ℕ) (ids : List ℕ) → Distinct ids → Distinct (add_id sid ids)
unfolding add_id
add_id-Distinct sid ids d = elim (Bool-cases (member sid ids)) [
  | inl there ↦ rw there d
  | inr absent ↦ rw absent (snoc-Distinct sid ids absent d)
]

indexed-register :
    (m : SessionMap) (user sid : ℕ) (tx : SendCtx) (u : ℕ)
    → indexed (register m user sid tx) u
      ≡ (if user == u then add_id sid (indexed m user) else indexed m u)
unfolding register index_session
indexed-register m user sid tx u = elim (Bool-cases (user == u)) [
  | inl here ↦ rw (lookup-insert user u (add_id sid (indexed m user)) m.user_index, here) refl
  | inr there ↦ rw (lookup-insert user u (add_id sid (indexed m user)) m.user_index, there) refl
]

take_id-none :
    (index : List (ℕ × List ℕ)) (user sid : ℕ)
    → lookup user index ≡ none
    → take_id index user sid ≡ (index, false)
unfolding take_id
take_id-none index user sid absent = rw (absent, take_id) refl

pub take_id-some :
    (index : List (ℕ × List ℕ)) (user sid : ℕ) (ids : List ℕ)
    → lookup user index ≡ some ids
    → take_id index user sid ≡ (insert user (without sid ids) index, length (without sid ids) == 0)
unfolding take_id
take_id-some index user sid ids there = rw (there, take_id) refl

no_ids : (ids : List ℕ) → (length ids == 0) ≡ true → ids ≡ []
no_ids [] e = refl
no_ids (sid ∷ ids) e = absurd (ground (arith, e))

-- Whether the entry goes or is left empty makes no difference to the ids.
indexed-unregister :
    (m : SessionMap) (user sid u : ℕ)
    → indexed (unregister m user sid) u
      ≡ (if user == u then without sid (indexed m user) else indexed m u)
unfolding unregister remove_from_user_index
indexed-unregister m user sid u = elim (Option-cases (lookup user m.user_index)) [
  | inl absent ↦
      ap (λ r. left_ids r) (take_id-none m.user_index user sid absent)
      ∙ unlisted absent (Bool-cases (user == u))
  | inr (ids, there) ↦
      ap (λ r. left_ids r) (take_id-some m.user_index user sid ids there)
      ∙ left_of (without sid ids) (Bool-cases (user == u))
          (Bool-cases (length (without sid ids) == 0))
      ∙ ap (λ o. if user == u then without sid (ids_of o) else indexed m u) (sym there)
]
  where
    left_ids : List (ℕ × List ℕ) × Bool → List ℕ
    left_ids r = ids_of (lookup u (if r.1 then remove user r.0 else r.0))

    unlisted :
        lookup user m.user_index ≡ none
        → (user == u ≡ true) ⊎ (user == u ≡ false)
        → indexed m u ≡ (if user == u then without sid (indexed m user) else indexed m u)
    unlisted absent (inl here) =
        let at : indexed m u ≡ [] =
          ap (λ j. indexed m j) (sym ((==_iff user u).0 here)) ∙ ap ids_of absent in
        at ∙ sym (rw here (ap (λ o. without sid (ids_of o)) absent))
    unlisted absent (inr there) = rw there refl

    left_of :
        (left : List ℕ)
        → (user == u ≡ true) ⊎ (user == u ≡ false)
        → (length left == 0 ≡ true) ⊎ (length left == 0 ≡ false)
        → left_ids (insert user left m.user_index, length left == 0)
          ≡ (if user == u then left else indexed m u)
    left_of left (inl here) (inl empty) = rw empty (
        ap ids_of (lookup-remove user u (insert user left m.user_index))
        ∙ rw here (sym (no_ids left empty)))
    left_of left (inr other) (inl empty) = rw empty (
        ap ids_of (lookup-remove user u (insert user left m.user_index))
        ∙ rw other (ap ids_of (lookup-insert user u left m.user_index) ∙ rw other refl))
    left_of left (inl here) (inr some_left) =
        rw some_left (ap ids_of (lookup-insert user u left m.user_index) ∙ rw here refl)
    left_of left (inr other) (inr some_left) =
        rw some_left (ap ids_of (lookup-insert user u left m.user_index) ∙ rw other refl)

pub register-IsIndexed :
    (m : SessionMap) (user sid : ℕ) (tx : SendCtx)
    → IsIndexed m
    → IsIndexed (register m user sid tx)
unfolding register
register-IsIndexed m user sid tx v = record {
  listed = λ u s. elim (Bool-cases (user == u)) [
    | inl here ↦
        ap (λ ids. member s ids) (indexed-register m user sid tx u ∙ rw here refl)
        ∙ member-add_id s sid (indexed m user)
        ∙ ap (λ b. sid == s || b) (v.listed user s)
        ∙ ap (λ j. sid == s || present (lookup (j, s) m.inner)) ((==_iff user u).0 here)
        ∙ sym (present-insert (user, sid) (u, s) tx m.inner ∙ rw here refl)
    | inr there ↦
        ap (λ ids. member s ids) (indexed-register m user sid tx u ∙ rw there refl)
        ∙ v.listed u s
        ∙ sym (present-insert (user, sid) (u, s) tx m.inner ∙ rw there refl)
  ];
  distinct = λ u. elim (Bool-cases (user == u)) [
    | inl here ↦
        subst Distinct (sym (indexed-register m user sid tx u ∙ rw here refl))
          (add_id-Distinct sid (indexed m user) (v.distinct user))
    | inr there ↦
        subst Distinct (sym (indexed-register m user sid tx u ∙ rw there refl)) (v.distinct u)
  ];
}

pub unregister-IsIndexed :
    (m : SessionMap) (user sid : ℕ) → IsIndexed m → IsIndexed (unregister m user sid)
unfolding unregister
unregister-IsIndexed m user sid v = record {
  listed = λ u s. elim (Bool-cases (user == u)) [
    | inl here ↦
        ap (λ ids. member s ids) (indexed-unregister m user sid u ∙ rw here refl)
        ∙ member-without sid s (indexed m user)
        ∙ ap (λ b. if sid == s then false else b) (v.listed user s)
        ∙ ap (λ j. if sid == s then false else present (lookup (j, s) m.inner))
            ((==_iff user u).0 here)
        ∙ sym (present-remove (user, sid) (u, s) m.inner ∙ rw here refl)
    | inr there ↦
        ap (λ ids. member s ids) (indexed-unregister m user sid u ∙ rw there refl)
        ∙ v.listed u s
        ∙ sym (present-remove (user, sid) (u, s) m.inner ∙ rw there refl)
  ];
  distinct = λ u. elim (Bool-cases (user == u)) [
    | inl here ↦
        subst Distinct (sym (indexed-unregister m user sid u ∙ rw here refl))
          (without-Distinct sid (indexed m user) (v.distinct user))
    | inr there ↦
        subst Distinct (sym (indexed-unregister m user sid u ∙ rw there refl)) (v.distinct u)
  ];
}

pub unregister_all-IsIndexed :
    (m : SessionMap) (keys : List (ℕ × ℕ)) → IsIndexed m → IsIndexed (unregister_all m keys)
unfolding unregister_all
unregister_all-IsIndexed m [] v = v
unregister_all-IsIndexed m ((user, sid) ∷ keys) v =
    unregister_all-IsIndexed (unregister m user sid) keys (unregister-IsIndexed m user sid v)
