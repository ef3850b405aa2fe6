-- ===== src/Gateway/Sessions/Interleaved.antt =====
-- A registration between two steps of `unregister`: the entry's lock is given back before an entry that
-- has become empty is removed.
use tsod.Prelude.{
  ℕ, ◌≡◌, refl, ap, ◌∙◌, Bool, true, none, some, List, [], ◌∷◌, if◌then◌else◌, ◌==◌, ==_iff, length,
  Bool-cases, inl, inr,
}
use tsod.Prelude.Maps.{
  lookup, insert, remove, nat_key, pair_key, pair_same, pair_same_iff, lookup-insert, lookup-remove,
}
use tsod.Prelude.Keys.{without}
use tsod.SendPolicy.{SendCtx}
use tsod.Gateway.Sessions.{
  SessionMap, ids_of, register, index_session, take_id, remove_from_user_index, unregister,
  sessions_of, get_sessions,
}
use tsod.Gateway.Sessions.Agree.{take_id-some}

-- `unregister` with what happens before the removal of an entry that was seen empty.
unfoldable pub unregister_around : SessionMap → ℕ → ℕ → (SessionMap → SessionMap) → SessionMap
unfolding take_id
unregister_around m user sid between =
    let (left, is_empty) = take_id m.user_index user sid in
    let m' = between (record { inner = remove (user, sid) m.inner; user_index = left }) in
    if is_empty then record m' { user_index = remove user m'.user_index } else m'

unregister_around_nothing :
    (m : SessionMap) (user sid : ℕ) → unregister_around m user sid (λ m. m) ≡ unregister m user sid
unfolding unregister_around unregister remove_from_user_index
unregister_around_nothing m user sid = elim (Bool-cases (take_id m.user_index user sid).1) [
  | inl empty ↦ rw empty refl
  | inr some_left ↦ rw some_left refl
]

-- Where a user's only session is unregistered and another one is registered just before the entry is
-- removed, the new session stays in the map of sessions but `get_sessions` gives none for the user.
pub get_sessions-unregister_around :
    (m : SessionMap) (user old fresh : ℕ) (tx : SendCtx)
    → lookup user m.user_index ≡ some (old ∷ [])
    → (lookup (user, fresh) (unregister_around m user old (λ m'. register m' user fresh tx)).inner
        ≡ some tx)
      × (get_sessions (unregister_around m user old (λ m'. register m' user fresh tx)) user ≡ [])
unfolding unregister_around register get_sessions sessions_of
get_sessions-unregister_around m user old fresh tx only =
    let same : (old == old) ≡ true = (==_iff old old).1 refl in
    let last : without old (old ∷ []) ≡ [] = rw (same, without) refl in
    let taken : take_id m.user_index user old ≡ (insert user [] m.user_index, true) =
      take_id-some m.user_index user old (old ∷ []) only
      ∙ ap (λ (ids : List ℕ). (insert user ids m.user_index, length ids == 0)) last in
    let key_same : pair_same (user, fresh) (user, fresh) ≡ true =
      (pair_same_iff (user, fresh) (user, fresh)).1 refl in
    let user_same : (user == user) ≡ true = (==_iff user user).1 refl in
    let index = index_session (insert user [] m.user_index) user fresh in
    let gone : lookup user (remove user index) ≡ none =
      lookup-remove user user index ∙ rw user_same refl in
    (
      ap (λ r. lookup (user, fresh) (after r).inner) taken
          ∙ lookup-insert (user, fresh) (user, fresh) tx (remove (user, old) m.inner)
          ∙ rw key_same refl,
      ap (λ r. get_sessions (after r) user) taken
          ∙ ap (λ o. sessions_of (after (insert user [] m.user_index, true)).inner user (ids_of o))
              gone,
    )
  where
    after : List (ℕ × List ℕ) × Bool → SessionMap
    after r =
        let m' =
          register (record { inner = remove (user, old) m.inner; user_index = r.0 }) user fresh
            tx in
        if r.1 then record m' { user_index = remove user m'.user_index } else m'
