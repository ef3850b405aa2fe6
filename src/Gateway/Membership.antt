-- ===== src/Gateway/Membership.antt =====
-- `MembershipCache` of server/gateway/src/state.rs. The uuid library is a parameter, and so are the
-- generated capabilities of a client, with their lists of codec numbers, and the codecs' `try_from`.
pub mod Routing
pub mod Voice
use tsod.Prelude.{
  ℕ, Bool, true, false, not, Option, none, some, List, [], ◌∷◌, ◌++◌, if◌then◌else◌, ◌==◌, contains,
  retain,
}
use tsod.Prelude.Maps.{lookup, insert, remove, nat_key}
use tsod.Wire.Voice.{UuidLibrary}
use tsod.Gateway.RouteHash.{channel_route_hash}

pub record UserPresence : Type 0 where
  pub channel : ℕ
  pub route : ℕ
  pub muted : Bool
  pub deafened : Bool

pub record ChannelRuntime : Type 0 where
  pub max_talkers : ℕ
  pub members : List ℕ

pub record MembershipCache (Caps : Type 0) : Type 0 where
  pub users : List (ℕ × UserPresence)
  pub channels : List (ℕ × ChannelRuntime)
  pub media_caps : List (ℕ × Caps)

unfoldable pub channel_route_key : UuidLibrary ℕ → ℕ → ℕ
unfolding channel_route_hash
channel_route_key uuids channel_id = channel_route_hash uuids channel_id

-- `filter_map(|c| VideoCodec::try_from(c).ok())`
unfoldable pub known_codecs : {Codec : Type 0} → (ℕ → Option Codec) → List ℕ → List Codec
known_codecs try_from [] = []
known_codecs try_from (c ∷ cs) =
    let rest = known_codecs try_from cs in
    elim (try_from c) [ none ↦ rest | some codec ↦ codec ∷ rest ]

abbrev pub members_or_none : Option ChannelRuntime → List ℕ
members_or_none none = []
members_or_none (some runtime) = runtime.members

abbrev pub muted_or_not : Option UserPresence → Bool
muted_or_not none = false
muted_or_not (some u) = u.muted

abbrev pub deafened_or_not : Option UserPresence → Bool
deafened_or_not none = false
deafened_or_not (some u) = u.deafened

module _ {Caps : Type 0} where
  unfoldable pub new : MembershipCache Caps
  new = record { users = []; channels = []; media_caps = [] }

  unfoldable pub set_channel : MembershipCache Caps → ℕ → ℕ → List ℕ → MembershipCache Caps
  set_channel m channel max_talkers members = record m {
    channels = insert channel (record { max_talkers = max_talkers; members = members }) m.channels;
  }

  unfoldable pub update_voice_state :
      UuidLibrary ℕ → MembershipCache Caps → ℕ → ℕ → Bool → Bool → MembershipCache Caps
  unfolding channel_route_key
  update_voice_state uuids m user channel muted deafened = record m {
    users =
        insert user
          (record {
            channel = channel;
            route = channel_route_key uuids channel;
            muted = muted;
            deafened = deafened;
          })
          m.users;
  }

  -- Its body is that of `update_voice_state`.
  unfoldable pub set_user :
      UuidLibrary ℕ → MembershipCache Caps → ℕ → ℕ → Bool → Bool → MembershipCache Caps
  unfolding update_voice_state
  set_user uuids m user channel muted deafened =
      update_voice_state uuids m user channel muted deafened

  unfoldable pub remove_user : MembershipCache Caps → ℕ → MembershipCache Caps
  remove_user m user = record m {
    users = remove user m.users;
    media_caps = remove user m.media_caps;
  }

  unfoldable pub add_channel_member : MembershipCache Caps → ℕ → ℕ → MembershipCache Caps
  add_channel_member m channel user = elim (lookup channel m.channels) [
    | none ↦ m
    | some runtime ↦ if contains runtime.members user then m else record m {
      channels =
          insert channel (record runtime { members = runtime.members ++ (user ∷ []) }) m.channels;
    }
  ]

  unfoldable pub remove_channel_member : MembershipCache Caps → ℕ → ℕ → MembershipCache Caps
  remove_channel_member m channel user = elim (lookup channel m.channels) [
    | none ↦ m
    | some runtime ↦ record m {
      channels =
          insert channel
            (record runtime { members = retain (λ member. not (member == user)) runtime.members })
            m.channels;
    }
  ]

  unfoldable pub set_media_capabilities : MembershipCache Caps → ℕ → Caps → MembershipCache Caps
  set_media_capabilities m user caps = record m { media_caps = insert user caps m.media_caps }

  unfoldable pub media_capabilities : MembershipCache Caps → ℕ → Option Caps
  media_capabilities m user = lookup user m.media_caps

  -- `viewer_decode_codecs` and `streamer_encode_codecs`, by the list that they read.
  unfoldable pub codecs_of :
      {Codec : Type 0}
      → (Caps → List ℕ)
      → (ℕ → Option Codec)
      → MembershipCache Caps
      → ℕ
      → List Codec
  unfolding media_capabilities known_codecs
  codecs_of listed try_from m user = elim (media_capabilities m user) [
    | none ↦ []
    | some caps ↦ known_codecs try_from (listed caps)
  ]

  unfoldable pub capabilities_among : MembershipCache Caps → List ℕ → List (ℕ × Caps)
  unfolding media_capabilities
  capabilities_among m [] = []
  capabilities_among m (uid ∷ members) =
      let rest = capabilities_among m members in
      elim (media_capabilities m uid) [ none ↦ rest | some caps ↦ insert uid caps rest ]

  unfoldable pub channel_member_capabilities : MembershipCache Caps → ℕ → List (ℕ × Caps)
  unfolding capabilities_among
  channel_member_capabilities m channel =
      capabilities_among m (members_or_none (lookup channel m.channels))

  unfoldable pub update_mute :
      UuidLibrary ℕ → MembershipCache Caps → ℕ → ℕ → Bool → MembershipCache Caps
  unfolding update_voice_state
  update_mute uuids m user channel muted =
      update_voice_state uuids m user channel muted (deafened_or_not (lookup user m.users))

  unfoldable pub update_deafen :
      UuidLibrary ℕ → MembershipCache Caps → ℕ → ℕ → Bool → MembershipCache Caps
  unfolding update_voice_state
  update_deafen uuids m user channel deafened =
      update_voice_state uuids m user channel (muted_or_not (lookup user m.users)) deafened

  unfoldable pub members_of : MembershipCache Caps → ℕ → Option (List ℕ)
  members_of m channel = elim (lookup channel m.channels) [ none ↦ none | some e ↦ some e.members ]

  unfoldable pub max_talkers_of : MembershipCache Caps → ℕ → Option ℕ
  max_talkers_of m channel = elim (lookup channel m.channels) [
    | none ↦ none
    | some e ↦ some e.max_talkers
  ]

  unfoldable pub resolve_channel_for_sender : MembershipCache Caps → ℕ → ℕ → Option ℕ
  resolve_channel_for_sender m sender route_key = elim (lookup sender m.users) [
    | none ↦ none
    | some u ↦ if u.route == route_key then some u.channel else none
  ]

  unfoldable pub list_members : MembershipCache Caps → ℕ → List ℕ
  list_members m channel = members_or_none (lookup channel m.channels)

  unfoldable pub is_muted : MembershipCache Caps → ℕ → ℕ → Bool
  is_muted m channel sender = muted_or_not (lookup sender m.users)

  unfoldable pub is_deafened : MembershipCache Caps → ℕ → ℕ → Bool
  is_deafened m channel user = deafened_or_not (lookup user m.users)

  unfoldable pub max_talkers : MembershipCache Caps → ℕ → ℕ
  max_talkers m channel = elim (lookup channel m.channels) [ none ↦ 4 | some e ↦ e.max_talkers ]

  unfoldable pub list_viewers : MembershipCache Caps → ℕ → ℕ → List ℕ
  list_viewers m channel exclude_sender =
      retain (λ u. not (u == exclude_sender)) (members_or_none (lookup channel m.channels))
