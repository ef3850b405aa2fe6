-- ===== src/Gateway/Membership/Voice.antt =====
-- The voice forwarder on the gateway's own state: who hears a packet.
use tsod.Prelude.{ℕ, ◌≡◌, true, false, Option, some, List, [], ◌∷◌, ◌==◌, contains}
use tsod.Prelude.Maps.{lookup, nat_key, pair_key}
use tsod.SendPolicy.{SendCtx}
use tsod.Wire.Voice.{UuidLibrary}
use tsod.VoiceForwarder.Incoming.{VoiceForwarder, Session, Surroundings}
use tsod.Gateway.Sessions.{SessionMap, get_sessions}
use tsod.Gateway.Membership.{
  MembershipCache, new, resolve_channel_for_sender, list_members, is_muted, is_deafened,
  max_talkers,
}
use tsod.Gateway.Membership.Routing.{Call, run}

-- The connection's limit by user and session id.
abbrev pub Limits : Type 0
Limits = ℕ → ℕ → Option ℕ

-- The sessions as the forwarder sees them.
abbrev pub as_seen : Limits → ℕ → List (ℕ × SendCtx) → List Session
as_seen limits user [] = []
as_seen limits user ((sid, ctx) ∷ sessions) =
    record { session_id = sid; max_datagram_size = limits user sid } ∷ as_seen limits user sessions

unfoldable pub surroundings :
    {Caps : Type 0}
    → UuidLibrary ℕ
    → (ℕ → ℕ → ℕ)
    → (ℕ → ℕ)
    → Limits
    → MembershipCache Caps
    → SessionMap
    → Surroundings
unfolding resolve_channel_for_sender list_members is_muted is_deafened max_talkers get_sessions
surroundings uuids gained clock limits m s = record {
  resolve_channel_for_sender = λ sender route. resolve_channel_for_sender m sender route;
  list_members = λ channel. list_members m channel;
  is_muted = λ channel user. is_muted m channel user;
  is_deafened = λ channel user. is_deafened m channel user;
  max_talkers = λ channel. max_talkers m channel;
  get_sessions = λ user. as_seen limits user (get_sessions s user);
  uuids = uuids;
  gained = gained;
  clock = clock;
}

-- A registered session of a member of the channel who is neither the sender nor deafened.
pub record Hears {Caps : Type 0} (m : MembershipCache Caps) (s : SessionMap) (channel sender : ℕ)
    (session : Session) : Type 0 where
  pub user : ℕ
  pub ctx : SendCtx
  pub is_member : contains (list_members m channel) user ≡ true
  pub other : (user == sender) ≡ false
  pub undeafened : is_deafened m channel user ≡ false
  pub registered : lookup (user, session.session_id) s.inner ≡ some ctx

module _ {Caps : Type 0} (uuids : UuidLibrary ℕ) (gained : ℕ → ℕ → ℕ) (clock : ℕ → ℕ)
    (limits : Limits) (calls : List (Call Caps)) (s : SessionMap) where
  abbrev cache : MembershipCache Caps
  cache = run uuids new calls
