-- ===== src/Gateway/Push.antt =====
-- `PushHub` and `VoiceTelemetryCache` of server/gateway/src/state.rs. What carries a session's messages
-- is a parameter; what `send_to` sends is the list of the carriers that it hands the message to.
use tsod.Prelude.{
  ℕ, ◌≡◌, refl, sym, ap, ◌∙◌, Bool, true, false, not, ◌&&◌, List, [], ◌∷◌, arith, if◌then◌else◌,
  leb, ◌==◌, ==_iff, length, Bool-cases, inl, inr,
}
use tsod.Prelude.Maps.{insert, remove, nat_key, pair_key}
use tsod.Prelude.Keys.{member, Distinct}

abbrev pub PushHub : Type 0 → Type 0
PushHub Carrier = List ((ℕ × ℕ) × Carrier)

-- A sample holds an f32, and is a parameter.
abbrev pub VoiceTelemetryCache : Type 0 → Type 0
VoiceTelemetryCache Sample = List (ℕ × Sample)

unfoldable pub upsert :
    {Sample : Type 0} → VoiceTelemetryCache Sample → ℕ → Sample → VoiceTelemetryCache Sample
upsert cache user_id sample = insert user_id sample cache

unfoldable pub remove_sample :
    {Sample : Type 0} → VoiceTelemetryCache Sample → ℕ → VoiceTelemetryCache Sample
remove_sample cache user_id = remove user_id cache

module _ {Carrier : Type 0} where
  unfoldable pub register : PushHub Carrier → ℕ → ℕ → Carrier → PushHub Carrier
  register hub user session_id tx = insert (user, session_id) tx hub

  unfoldable pub unregister : PushHub Carrier → ℕ → ℕ → PushHub Carrier
  unregister hub user session_id = remove (user, session_id) hub

  unfoldable pub send_to : PushHub Carrier → ℕ → List Carrier
  send_to [] user = []
  send_to (((u, s), tx) ∷ hub) user =
      let rest = send_to hub user in if u == user then tx ∷ rest else rest

  -- The users that are not in `seen`, the set of those found before.
  unfoldable pub users_unseen : PushHub Carrier → List ℕ → List ℕ
  users_unseen [] seen = []
  users_unseen (((u, s), tx) ∷ hub) seen =
      let rest = users_unseen hub (if member u seen then seen else u ∷ seen) in
      if member u seen then rest else u ∷ rest

  unfoldable pub connected_users : PushHub Carrier → List ℕ
  unfolding users_unseen
  connected_users hub = users_unseen hub []

  -- A message reaches the user.
  abbrev pub reaches : PushHub Carrier → ℕ → Bool
  reaches hub user = leb 1 (length (send_to hub user))

  users_unseen-seen :
      (hub : PushHub Carrier) (seen : List ℕ) (user : ℕ)
      → member user (users_unseen hub seen) ≡ (not (member user seen) && reaches hub user)
  unfolding users_unseen send_to member
  users_unseen-seen [] seen user = ground arith
  users_unseen-seen (((u, s), tx) ∷ hub) seen user =
      let same_seen = by_key u in
      elim (Bool-cases (member u seen)) [
        | inl old ↦
            let ih = users_unseen-seen hub seen user in rw old (ground (arith, ih, same_seen, old))
        | inr fresh ↦
            let ih = users_unseen-seen hub (u ∷ seen) user in
            rw fresh (ground (arith, ih, same_seen, fresh))
      ]
    where
      by_key : (u : ℕ) → u == user ≡ true → member user seen ≡ member u seen
      by_key u e = ap (λ j. member j seen) (sym ((==_iff u user).0 e))

  users_unseen-Distinct : (hub : PushHub Carrier) (seen : List ℕ) → Distinct (users_unseen hub seen)
  unfolding users_unseen member
  users_unseen-Distinct [] seen = tt
  users_unseen-Distinct (((u, s), tx) ∷ hub) seen = elim (Bool-cases (member u seen)) [
    | inl old ↦ rw old (users_unseen-Distinct hub seen)
    | inr fresh ↦
        let same : (u == u) ≡ true = (==_iff u u).1 refl in
        let absent : member u (users_unseen hub (u ∷ seen)) ≡ false =
          users_unseen-seen hub (u ∷ seen) u ∙ rw same refl in
        rw fresh (absent, users_unseen-Distinct hub (u ∷ seen))
  ]

  -- `connected_users` lists a user exactly where a message would reach a session of that user, and no
  -- user twice.
  pub connected_users-reaches :
      (hub : PushHub Carrier)
      → Distinct (connected_users hub)
        × ((user : ℕ) → member user (connected_users hub) ≡ reaches hub user)
  unfolding connected_users member
  connected_users-reaches hub =
      (users_unseen-Distinct hub [], λ user. users_unseen-seen hub [] user)
