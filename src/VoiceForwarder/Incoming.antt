-- ===== src/VoiceForwarder/Incoming.antt =====
-- `handle_incoming` of server/media/voice_forwarder.rs: the checks on a datagram and its way to the
-- members of the channel. Users and channels are numbers, and the calls of the metrics are left out.
pub mod Fanout
use tsod.Prelude.{
  ℕ, ◌%◌, ◌^◌, Bool, true, false, not, ◌&&◌, ◌||◌, Option, none, some, List, [], ◌∷◌, ◌++◌,
  if◌then◌else◌, ltb, ◌==◌, length, Bytes,
}
use tsod.Prelude.Maps.{lookup, insert, nat_key, pair_key}
use tsod.Wire.Limits.{quic_max_datagram_bytes}
use tsod.Wire.Voice.{UuidLibrary, VoicePacket, parse_voice, build_forwarded_voice_datagram}
use tsod.VoiceForwarder.{RateState, new_rate, allow_rate_at, TalkerSet, new_talkers, allow_talker}

pub record VoiceForwarderConfig : Type 0 where
  pub max_datagram_bytes : ℕ
  pub min_datagram_bytes : ℕ
  pub sender_pps_limit : ℕ
  pub sender_bps_limit : ℕ
  pub talker_activity_window : ℕ
  pub vad_required_for_talker : Bool

pub record VoiceForwarder : Type 0 where
  pub cfg : VoiceForwarderConfig
  pub talkers : List (ℕ × TalkerSet)
  pub rate : List ((ℕ × ℕ) × RateState)

pub record Session : Type 0 where
  pub session_id : ℕ
  pub max_datagram_size : Option ℕ

-- The two providers, the uuid library, the gain of a refill, and the clock as its readings in order.
pub record Surroundings : Type 0 where
  pub resolve_channel_for_sender : ℕ → ℕ → Option ℕ
  pub list_members : ℕ → List ℕ
  pub is_muted : ℕ → ℕ → Bool
  pub is_deafened : ℕ → ℕ → Bool
  pub max_talkers : ℕ → ℕ
  pub get_sessions : ℕ → List Session
  pub uuids : UuidLibrary ℕ
  pub gained : ℕ → ℕ → ℕ
  pub clock : ℕ → ℕ

abbrev or_rate : RateState → Option RateState → RateState
or_rate fresh none = fresh
or_rate fresh (some st) = st

unfoldable pub allow_rate : VoiceForwarder → Surroundings → ℕ → ℕ → ℕ → ℕ → Bool × VoiceForwarder
unfolding allow_rate_at
allow_rate v env sender ssrc bytes ts_ms =
    let (pps, bps) : ℕ × ℕ = (v.cfg.sender_pps_limit, v.cfg.sender_bps_limit) in
    let st =
      or_rate (new_rate pps bps (env.clock 1) (env.clock 2)) (lookup (sender, ssrc) v.rate) in
    let (allowed, st') = allow_rate_at env.gained pps bps st bytes ts_ms (env.clock 0) in
    (allowed, record v { rate = insert (sender, ssrc) st' v.rate })

abbrev or_talkers : TalkerSet → Option TalkerSet → TalkerSet
or_talkers fresh none = fresh
or_talkers fresh (some set) = set

unfoldable pub talk : VoiceForwarder → Surroundings → ℕ → ℕ → Bool × VoiceForwarder
unfolding allow_talker
talk v env channel sender =
    let set = or_talkers (new_talkers v.cfg.talker_activity_window) (lookup channel v.talkers) in
    let (allowed, set') =
      allow_talker set (env.max_talkers channel) sender (env.clock 3) (env.clock 4) (env.clock 5)
        (env.clock 6) in
    (allowed, record v { talkers = insert channel set' v.talkers })

-- The sessions of the members but the sender and the deafened.
unfoldable pub recipients : Surroundings → ℕ → ℕ → List ℕ → List Session
recipients env channel sender [] = []
recipients env channel sender (uid ∷ members) =
    let rest = recipients env channel sender members in
    if uid == sender || env.is_deafened channel uid then rest else env.get_sessions uid ++ rest

abbrev pub max_wire : Session → ℕ
max_wire s = elim s.max_datagram_size [ none ↦ quic_max_datagram_bytes | some n ↦ n ]

-- `packet_by_wire_max`
abbrev pub Cache : Type 0
Cache = List (ℕ × Option Bytes)

abbrev pub cached : Option Bytes → Option (Option Bytes) → Option Bytes
cached built none = built
cached built (some outbound) = outbound

abbrev pub delivered : Session → Option Bytes → List (Session × Bytes) → List (Session × Bytes)
delivered session none rest = rest
delivered session (some outbound) rest = (session, outbound) ∷ rest

-- The loop over the recipients; `build` makes the datagram for a limit. The calls of `send_voice`, in
-- order.
unfoldable pub fan_out : (ℕ → Option Bytes) → Cache → List Session → List (Session × Bytes)
fan_out build cache [] = []
fan_out build cache (session ∷ rest) =
    let limit = max_wire session in
    let outbound = cached (build limit) (lookup limit cache) in
    delivered session outbound (fan_out build (insert limit outbound cache) rest)

pub data Outcome : Type 0 where
  drop_invalid drop_rate_limited drop_not_member drop_muted drop_talker_limit : Outcome
  sent_to : List (Session × Bytes) → Outcome

-- The way of a packet from the membership test on.
unfoldable pub fan_out_to : Surroundings → ℕ → ℕ → VoicePacket → Bytes → List (Session × Bytes)
unfolding recipients fan_out
fan_out_to env channel sender parsed datagram =
    fan_out (λ limit. build_forwarded_voice_datagram env.uuids limit parsed sender channel datagram)
      [] (recipients env channel sender (env.list_members channel))

unfoldable pub handle_resolved :
    VoiceForwarder → Surroundings → ℕ → ℕ → VoicePacket → Bytes → Outcome × VoiceForwarder
unfolding talk fan_out_to
handle_resolved v env channel sender parsed datagram =
    let vad_ok = not v.cfg.vad_required_for_talker || parsed.vad in
    let (allowed, v') = talk v env channel sender in
    let heard = sent_to (fan_out_to env channel sender parsed datagram) in
    if env.is_muted channel sender || env.is_deafened channel sender
    then (drop_muted, v)
    else if not vad_ok
    then (heard, v)
    else if allowed
    then (heard, v')
    else (drop_talker_limit, v')

unfoldable pub handle_incoming :
    VoiceForwarder → Surroundings → ℕ → Bytes → Outcome × VoiceForwarder
unfolding allow_rate handle_resolved
handle_incoming v env sender datagram =
    if ltb (length datagram) v.cfg.min_datagram_bytes
      || ltb v.cfg.max_datagram_bytes (length datagram)
    then (drop_invalid, v)
    else elim (parse_voice datagram) [
      | none ↦ (drop_invalid, v)
      | some parsed ↦
          let (allowed, v') =
            allow_rate v env sender parsed.ssrc (length datagram % 2 ^ 32) parsed.ts_ms in
          if not allowed
          then (drop_rate_limited, v')
          else elim (env.resolve_channel_for_sender sender parsed.channel_route) [
            | none ↦ (drop_not_member, v')
            | some channel ↦ handle_resolved v' env channel sender parsed datagram
          ]
    ]
