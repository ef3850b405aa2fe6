-- ===== src/Gateway/Runs.antt =====
-- Concrete runs of the gateway's state, and the theorems at concrete inputs.
use tsod.Prelude.{
  ℕ, ◌+◌, ◌*◌, ◌/◌, ◌≡◌, ◌↔◌, refl, true, false, Option, none, some, List, [], ◌∷◌, Bytes,
}
use tsod.Prelude.Maps.{lookup, insert, remove, Unique, pair_key, nat_key}
use tsod.Prelude.Keys.{member}
use tsod.SendPolicy.{SendCtx}
use tsod.SendPolicy
use tsod.Wire.Voice.{UuidLibrary, VoicePacket}
use tsod.VoiceForwarder.Incoming.{VoiceForwarder}
use tsod.Gateway.Sessions.{SessionMap, register, get_sessions}
use tsod.Gateway.Sessions
use tsod.Gateway.Sessions.Registered.{connects, disconnects, closes, changed, get_sessions-run}
use tsod.Gateway.Sessions.Registered
use tsod.Gateway.Sessions.Interleaved.{unregister_around, get_sessions-unregister_around}
use tsod.Gateway.Streams.{
  StreamSessionOwnership, StreamSessionRegistry, tags, ownership_by_stream_tag,
}
use tsod.Gateway.Streams
use tsod.Gateway.Streams.Throttle.{Spaced, forwards, forwards-Spaced}
use tsod.Gateway.Streams.History.{
  registers, tears, prefers, AreFresh, Holds, run-Holds, ownership_by_stream_tag_iff,
}
use tsod.Gateway.Streams.History
use tsod.SharePolicy.{ScreenSharePolicy, resolved, resolve_layer}
use tsod.SharePolicy
use tsod.Gateway.Share.{select_and_persist_layer}
use tsod.Gateway.Share.Selected.{Selected, select_and_persist_layer-Selected}
use tsod.Gateway.RouteHash.{fnv}
use tsod.Gateway.Membership.{MembershipCache, channel_route_key, resolve_channel_for_sender}
use tsod.Gateway.Membership
use tsod.Gateway.Membership.Routing.{
  sets_channel, sets_user, adds_member, channel_of, resolve_channel_for_sender-run,
}
use tsod.Gateway.Membership.Routing

-- The hash that the source's test expects of the uuid 123e4567-e89b-12d3-a456-426614174000.
known_hash :
    fnv 2_166_136_261
      (18 ∷ 62 ∷ 69 ∷ 103 ∷ 232 ∷ 155 ∷ 18 ∷ 211 ∷ 164 ∷ 86 ∷ 66 ∷ 102 ∷ 20 ∷ 23 ∷ 64 ∷ 0 ∷ [])
    ≡ 3_313_897_728
unfolding fnv
known_hash = refl

abbrev ctx : SendCtx
ctx = SendPolicy.new

-- User 1 comes with sessions 10 and 11 and leaves with session 10.
abbrev session_calls : List Registered.Call
session_calls = connects 1 10 ctx ∷ connects 1 11 ctx ∷ disconnects 1 10 ∷ []

get_sessions-run_example :
    Unique (get_sessions (Registered.run Sessions.new session_calls) 1)
    × ((sid : ℕ)
        → lookup sid (get_sessions (Registered.run Sessions.new session_calls) 1)
          ≡ changed (λ u s. none) session_calls 1 sid)
get_sessions-run_example = get_sessions-run session_calls 1

abbrev one_session : SessionMap
one_session = record { inner = ((1, 10), ctx) ∷ []; user_index = (1, 10 ∷ []) ∷ [] }

get_sessions-unregister_around_example :
    (lookup (1, 11) (unregister_around one_session 1 10 (λ m. register m 1 11 ctx)).inner
      ≡ some ctx)
    × (get_sessions (unregister_around one_session 1 10 (λ m. register m 1 11 ctx)) 1 ≡ [])
unfolding lookup
get_sessions-unregister_around_example = get_sessions-unregister_around one_session 1 10 11 ctx refl

abbrev share : StreamSessionOwnership ℕ
share = record {
  primary_tag = 10;
  fallback_tag = some 11;
  owner_user_id = 1;
  channel_id = 4;
  active_layer_ids = 1 ∷ [];
  metadata = record { codec = 2; layers = []; has_audio = false };
}

abbrev shared : StreamSessionRegistry ℕ
shared = (Streams.register Streams.new 7 share).0

-- The share is registered, and user 2 prefers its layer 1.
abbrev share_calls : List (History.Call ℕ)
share_calls = registers 7 share ∷ prefers 7 2 1 ∷ []

abbrev preferred : StreamSessionRegistry ℕ
preferred = History.run Streams.new share_calls

share_calls-AreFresh : AreFresh Streams.new share_calls
unfolding Streams.new lookup member
share_calls-AreFresh = (record { distinct = (refl, (refl, tt)); free = λ tag listed. tt }, (tt, tt))

run-Holds_example : Holds preferred
run-Holds_example = run-Holds share_calls share_calls-AreFresh

ownership_by_stream_tag_iff_example :
    (ownership_by_stream_tag preferred 11 ≡ some (7, share))
    ↔ ((lookup 7 preferred.sessions_by_stream_id ≡ some share) × (member 11 (tags share) ≡ true))
ownership_by_stream_tag_iff_example =
    ownership_by_stream_tag_iff share_calls 11 7 share share_calls-AreFresh

-- Where two streams are given the same tags, those of the second find nothing once the first is torn down.
tag_collision :
    ownership_by_stream_tag
      (History.run Streams.new (registers 7 share ∷ registers 8 share ∷ tears 7 ∷ []))
      10
    ≡ none
unfolding ownership_by_stream_tag History.run History.apply Streams.register Streams.teardown
    Streams.new Streams.forget_tags Streams.forget_recoveries lookup insert remove
tag_collision = refl

forwards-Spaced_example :
    Spaced
      (lookup 10 shared.recovery_forwarded_at)
      (forwards shared ((10, 100) ∷ (11, 200) ∷ (10, 400) ∷ (10, 700) ∷ []) 10)
forwards-Spaced_example =
    forwards-Spaced shared ((10, 100) ∷ (11, 200) ∷ (10, 400) ∷ (10, 700) ∷ []) 10

abbrev policy : ScreenSharePolicy
policy = record { last_switch_at = []; last_selected_layer = [] }

layer_selected : (select_and_persist_layer preferred policy 7 2 1 1000).resolution ≡ resolved 1
unfolding select_and_persist_layer resolve_layer SharePolicy.held SharePolicy.active_layer
    History.run History.apply Streams.register Streams.teardown Streams.new
    Streams.set_viewer_preferred_layer lookup insert
layer_selected = refl

select_and_persist_layer-Selected_example :
    Selected 7 2 1 (select_and_persist_layer preferred policy 7 2 1 1000)
select_and_persist_layer-Selected_example =
    select_and_persist_layer-Selected share_calls policy 7 2 1 1000 1 share_calls-AreFresh
      layer_selected

-- An id is its own one byte.
abbrev uuids : UuidLibrary ℕ
uuids = record { as_bytes = λ u. u ∷ []; from_slice = λ b. none }

-- Users 1 and 2 are in channel 4.
abbrev calls : List (Routing.Call ℕ)
calls =
    sets_channel 4 2 (1 ∷ [])
    ∷ sets_user 1 4 false false
    ∷ sets_user 2 4 false false
    ∷ adds_member 4 2
    ∷ []

abbrev cache : MembershipCache ℕ
cache = Routing.run uuids Membership.new calls

resolve_channel_for_sender-run_example :
    (resolve_channel_for_sender cache 1 17_585_875 ≡ some 4)
    ↔ ((channel_of cache 1 ≡ some 4) × (channel_route_key uuids 4 ≡ 17_585_875))
resolve_channel_for_sender-run_example = resolve_channel_for_sender-run uuids calls 1 17_585_875 4

abbrev spoken : Bytes
spoken =
    1 ∷ 1 ∷ 0 ∷ 20 ∷ 1 ∷ 12 ∷ 86 ∷ 211 ∷ 0 ∷ 0 ∷ 0 ∷ 5 ∷ 0 ∷ 0 ∷ 0 ∷ 9 ∷ 0 ∷ 0 ∷ 0 ∷ 100 ∷ 42 ∷ []

abbrev packet : VoicePacket
packet = record {
  flags = 1;
  channel_route = 17_585_875;
  ssrc = 5;
  seq = 9;
  ts_ms = 100;
  vad = true;
}

abbrev gateway : VoiceForwarder
gateway = record {
  cfg = record {
    max_datagram_bytes = 1120;
    min_datagram_bytes = 20;
    sender_pps_limit = 200;
    sender_bps_limit = 524_288;
    talker_activity_window = 800;
    vad_required_for_talker = false;
  };
  talkers = [];
  rate = [];
}

-- User 2 has session 20.
abbrev sessions : SessionMap
sessions = register Sessions.new 2 20 ctx

abbrev gained : ℕ → ℕ → ℕ
gained elapsed limit = elapsed * limit / 1000

abbrev clock : ℕ → ℕ
clock i = 5000 + i

abbrev limits : ℕ → ℕ → Option ℕ
limits user sid = some 1200
