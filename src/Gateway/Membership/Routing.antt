-- ===== src/Gateway/Membership/Routing.antt =====
-- What a sender's datagrams resolve to, after whatever was done to the cache.
use tsod.Prelude.{
  ℕ, ◌≡◌, ◌↔◌, refl, sym, ap, subst, ◌∙◌, Bool, true, Option, none, some, List, [], ◌∷◌, ◌==◌,
  ==_iff, contains, Bool-cases, Option-cases, inl, inr,
}
use tsod.Prelude.Maps.{lookup, insert, remove, nat_key, lookup-insert, lookup-remove}
use tsod.Wire.Voice.{UuidLibrary}
use tsod.Gateway.Membership.{
  UserPresence, MembershipCache, channel_route_key, new, set_channel, update_voice_state, set_user,
  remove_user, add_channel_member, remove_channel_member, set_media_capabilities, update_mute,
  update_deafen, resolve_channel_for_sender, muted_or_not, deafened_or_not,
}

-- The calls that change the cache.
pub data Call (Caps : Type 0) : Type 0 where
  sets_channel : ℕ → ℕ → List ℕ → Call Caps
  sets_user : ℕ → ℕ → Bool → Bool → Call Caps
  removes_user : ℕ → Call Caps
  adds_member removes_member : ℕ → ℕ → Call Caps
  sets_media : ℕ → Caps → Call Caps
  mutes deafens : ℕ → ℕ → Bool → Call Caps

-- Each user's route is that of the user's channel.
abbrev pub IsRouted : UuidLibrary ℕ → List (ℕ × UserPresence) → Type 0
IsRouted uuids users =
    (user : ℕ) (u : UserPresence)
    → lookup user users ≡ some u
    → u.route ≡ channel_route_key uuids u.channel

abbrev pub channel_in : Option UserPresence → Option ℕ
channel_in none = none
channel_in (some u) = some u.channel

-- The channel that a user is in, if there is one.
abbrev pub channel_of : {Caps : Type 0} → MembershipCache Caps → ℕ → Option ℕ
channel_of m user = channel_in (lookup user m.users)

pub new-IsRouted :
    (Caps : Type 0) (uuids : UuidLibrary ℕ) → IsRouted uuids (new {Caps = Caps}).users
unfolding new lookup
new-IsRouted Caps uuids k u e = cc e

module _ {Caps : Type 0} (uuids : UuidLibrary ℕ) where
  unfoldable pub apply : MembershipCache Caps → Call Caps → MembershipCache Caps
  unfolding set_channel set_user remove_user add_channel_member remove_channel_member
      set_media_capabilities update_mute update_deafen
  apply m (sets_channel channel max members) = set_channel m channel max members
  apply m (sets_user user channel muted deafened) = set_user uuids m user channel muted deafened
  apply m (removes_user user) = remove_user m user
  apply m (adds_member channel user) = add_channel_member m channel user
  apply m (removes_member channel user) = remove_channel_member m channel user
  apply m (sets_media user caps) = set_media_capabilities m user caps
  apply m (mutes user channel muted) = update_mute uuids m user channel muted
  apply m (deafens user channel deafened) = update_deafen uuids m user channel deafened

  unfoldable pub run : MembershipCache Caps → List (Call Caps) → MembershipCache Caps
  unfolding apply
  run m [] = m
  run m (call ∷ calls) = run (apply m call) calls

  update_voice_state-IsRouted :
      (m : MembershipCache Caps) (user channel : ℕ) (muted deafened : Bool)
      → IsRouted uuids m.users
      → IsRouted uuids (update_voice_state uuids m user channel muted deafened).users
  unfolding update_voice_state
  update_voice_state-IsRouted m user channel muted deafened h k u e =
      elim (Bool-cases (user == k)) [
        | inl here ↦
            let first : lookup k (insert user made m.users) ≡ some made =
              lookup-insert user k made m.users ∙ rw here refl in
            let same : made ≡ u = cc (first, e) in
            subst (λ (x : UserPresence). x.route ≡ channel_route_key uuids x.channel) same refl
        | inr there ↦ h k u (sym (lookup-insert user k made m.users ∙ rw there refl) ∙ e)
      ]
    where
      made : UserPresence
      made = record {
        channel = channel;
        route = channel_route_key uuids channel;
        muted = muted;
        deafened = deafened;
      }

  add_channel_member-users :
      (m : MembershipCache Caps) (channel user : ℕ)
      → (add_channel_member m channel user).users ≡ m.users
  unfolding add_channel_member
  add_channel_member-users m channel user = elim (Option-cases (lookup channel m.channels)) [
    | inl absent ↦ rw (absent, add_channel_member) refl
    | inr (runtime, there) ↦ elim (Bool-cases (contains runtime.members user)) [
      | inl listed ↦ rw (there, add_channel_member) (rw listed refl)
      | inr fresh ↦ rw (there, add_channel_member) (rw fresh refl)
    ]
  ]

  remove_channel_member-users :
      (m : MembershipCache Caps) (channel user : ℕ)
      → (remove_channel_member m channel user).users ≡ m.users
  unfolding remove_channel_member
  remove_channel_member-users m channel user = elim (Option-cases (lookup channel m.channels)) [
    | inl absent ↦ rw (absent, remove_channel_member) refl
    | inr (runtime, there) ↦ rw (there, remove_channel_member) refl
  ]

  apply-IsRouted :
      (m : MembershipCache Caps) (call : Call Caps)
      → IsRouted uuids m.users
      → IsRouted uuids (apply m call).users
  unfolding apply set_channel set_user remove_user set_media_capabilities update_mute update_deafen
  apply-IsRouted m (sets_channel channel max members) h = h
  apply-IsRouted m (sets_user user channel muted deafened) h =
      update_voice_state-IsRouted m user channel muted deafened h
  apply-IsRouted m (removes_user user) h = λ k u e. elim (Bool-cases (user == k)) [
    | inl here ↦
        let gone : lookup k (remove user m.users) ≡ none =
          lookup-remove user k m.users ∙ rw here refl in
        cc (gone, e)
    | inr there ↦ h k u (sym (lookup-remove user k m.users ∙ rw there refl) ∙ e)
  ]
  apply-IsRouted m (adds_member channel user) h =
      subst (λ us. IsRouted uuids us) (sym (add_channel_member-users m channel user)) h
  apply-IsRouted m (removes_member channel user) h =
      subst (λ us. IsRouted uuids us) (sym (remove_channel_member-users m channel user)) h
  apply-IsRouted m (sets_media user caps) h = h
  apply-IsRouted m (mutes user channel muted) h =
      update_voice_state-IsRouted m user channel muted (deafened_or_not (lookup user m.users)) h
  apply-IsRouted m (deafens user channel deafened) h =
      update_voice_state-IsRouted m user channel (muted_or_not (lookup user m.users)) deafened h

  pub run-IsRouted :
      (m : MembershipCache Caps) (calls : List (Call Caps))
      → IsRouted uuids m.users
      → IsRouted uuids (run m calls).users
  unfolding run
  run-IsRouted m [] h = h
  run-IsRouted m (call ∷ calls) h = run-IsRouted (apply m call) calls (apply-IsRouted m call h)

  resolve_of :
      (m : MembershipCache Caps) (sender route channel : ℕ)
      → IsRouted uuids m.users
      → (resolve_channel_for_sender m sender route ≡ some channel)
        ↔ ((channel_of m sender ≡ some channel) × (channel_route_key uuids channel ≡ route))
  unfolding resolve_channel_for_sender
  resolve_of m sender route channel h = elim (Option-cases (lookup sender m.users)) [
    | inl nobody ↦
        let unresolved : resolve_channel_for_sender m sender route ≡ none =
          rw (nobody, resolve_channel_for_sender) refl in
        let nowhere : channel_of m sender ≡ none = ap (λ o. channel_in o) nobody in
        (λ e. cc (unresolved, e), λ both. let e = both.0 in cc (nowhere, e))
    | inr (u, there) ↦
        let routed = h sender u there in
        let inside : channel_of m sender ≡ some u.channel = ap (λ o. channel_in o) there in
        elim (Bool-cases (u.route == route)) [
          | inl same ↦
              let at = (==_iff u.route route).0 same in
              let resolved : resolve_channel_for_sender m sender route ≡ some u.channel =
                rw (there, resolve_channel_for_sender) (rw same refl) in
              (
                λ e. (
                  inside ∙ sym resolved ∙ e,
                  ap (λ c. channel_route_key uuids c) (opened (sym e ∙ resolved)) ∙ sym routed ∙ at,
                ),
                λ both. resolved ∙ sym inside ∙ both.0,
              )
          | inr other ↦
              let unresolved : resolve_channel_for_sender m sender route ≡ none =
                rw (there, resolve_channel_for_sender) (rw other refl) in
              (
                λ e. cc (unresolved, e),
                λ both.
                    let at : (u.route == route) ≡ true = (==_iff u.route route).1 (
                      routed
                      ∙ ap (λ c. channel_route_key uuids c) (opened (sym inside ∙ both.0))
                      ∙ both.1) in
                    cc (at, other),
              )
        ]
  ]
    where
      opened : {a b : ℕ} → some a ≡ some b → a ≡ b
      opened e = cc e

  -- Whatever was done to the cache, a sender's route resolves to a channel exactly where the sender is in
  -- that channel and the route is the hash of the channel's uuid.
  pub resolve_channel_for_sender-run :
      (calls : List (Call Caps)) (sender route channel : ℕ)
      → (resolve_channel_for_sender (run new calls) sender route ≡ some channel) ↔ (
          (channel_of (run new calls) sender ≡ some channel)
          × (channel_route_key uuids channel ≡ route))
  resolve_channel_for_sender-run calls sender route channel =
      resolve_of (run new calls) sender route channel
        (run-IsRouted new calls (new-IsRouted Caps uuids))
