-- ===== src/VoiceForwarder/Incoming/Fanout.antt =====
-- Who hears a packet, and what the cache of built datagrams is worth.
use tsod.Prelude.{
  ℕ, ◌%◌, ◌^◌, ◌≡◌, refl, sym, ap, subst, ◌∙◌, true, false, not, ◌||◌, Option, some, List, [], ◌∷◌,
  arith, ltb, ◌==◌, ==_iff, contains, length, Bool-cases, Option-cases, inl, inr, All, All-append,
  Bytes,
}
use tsod.Prelude.Maps.{lookup, insert, nat_key, lookup-insert}
use tsod.Wire.Voice.{VoicePacket, parse_voice, build_forwarded_voice_datagram}
use tsod.VoiceForwarder.Incoming.{
  VoiceForwarder, Surroundings, Session, recipients, max_wire, Cache, cached, delivered, fan_out,
  fan_out_to, drop_invalid, drop_rate_limited, drop_muted, drop_talker_limit, sent_to, talk,
  allow_rate, handle_resolved, handle_incoming,
}

-- Each datagram built anew.
abbrev pub built_for_each : (ℕ → Option Bytes) → List Session → List (Session × Bytes)
built_for_each build [] = []
built_for_each build (session ∷ rest) =
    delivered session (build (max_wire session)) (built_for_each build rest)

-- What is in the cache is what would be built.
abbrev IsCacheOf : (ℕ → Option Bytes) → Cache → Type 0
IsCacheOf build cache = (limit : ℕ) → cached (build limit) (lookup limit cache) ≡ build limit

insert-IsCacheOf :
    (build : ℕ → Option Bytes) (cache : Cache) (limit : ℕ)
    → IsCacheOf build cache
    → IsCacheOf build (insert limit (cached (build limit) (lookup limit cache)) cache)
insert-IsCacheOf build cache limit c other =
    let found = lookup-insert limit other (cached (build limit) (lookup limit cache)) cache in
    elim (Bool-cases (limit == other)) [
      | inl here ↦ rw (found, here) (c limit ∙ ap build ((==_iff limit other).0 here))
      | inr there ↦ rw (found, there) (c other)
    ]

fan_out-cached :
    (build : ℕ → Option Bytes) (cache : Cache) (sessions : List Session)
    → IsCacheOf build cache
    → fan_out build cache sessions ≡ built_for_each build sessions
unfolding fan_out
fan_out-cached build cache [] c = refl
fan_out-cached build cache (session ∷ rest) c =
    let limit = max_wire session in
    let outbound = cached (build limit) (lookup limit cache) in
    ap (delivered session outbound) (
      fan_out-cached build (insert limit outbound cache) rest
        (insert-IsCacheOf build cache limit c))
    ∙ ap (λ o. delivered session o (built_for_each build rest)) (c limit)

-- The cache by datagram limit changes nothing: every recipient gets what would be built for it alone.
pub fan_out-built_for_each :
    (build : ℕ → Option Bytes) (sessions : List Session)
    → fan_out build [] sessions ≡ built_for_each build sessions
unfolding lookup
fan_out-built_for_each build sessions = fan_out-cached build [] sessions (λ limit. refl)

module _ (env : Surroundings) (channel sender : ℕ) (P : Session → Type 0) where
  recipients-All :
      (members : List ℕ)
      → ((u : ℕ)
          → contains members u ≡ true
          → (u == sender) ≡ false
          → env.is_deafened channel u ≡ false
          → All P (env.get_sessions u))
      → All P (recipients env channel sender members)
  unfolding recipients
  recipients-All [] h = tt
  recipients-All (uid ∷ members) h =
      let others = recipients-All members (λ u inside. h u (ground (arith, inside))) in
      let listed : contains (uid ∷ members) uid ≡ true = ground arith in
      elim (Bool-cases (uid == sender || env.is_deafened channel uid)) [
        | inl skipped ↦ rw (skipped, recipients) others
        | inr heard ↦
            let other : (uid == sender) ≡ false = ground (arith, heard) in
            let hears : env.is_deafened channel uid ≡ false = ground (arith, heard) in
            rw (heard, recipients)
              (All-append P (env.get_sessions uid) (recipients env channel sender members)
                (h uid listed other hears) others)
      ]

  built-All :
      (build : ℕ → Option Bytes) (sessions : List Session)
      → All P sessions
      → All (λ d. P d.0 × (build (max_wire d.0) ≡ some d.1)) (built_for_each build sessions)
  built-All build [] a = tt
  built-All build (session ∷ rest) a = elim (Option-cases (build (max_wire session))) [
    | inl nothing ↦ rw nothing (built-All build rest a.1)
    | inr (outbound, built) ↦ rw built ((a.0, built), built-All build rest a.1)
  ]

-- A packet that goes on has passed every check.
resolved_of :
    (v : VoiceForwarder) (env : Surroundings) (sender : ℕ) (datagram : Bytes) (parsed : VoicePacket)
    (channel : ℕ) (ds : List (Session × Bytes))
    → parse_voice datagram ≡ some parsed
    → env.resolve_channel_for_sender sender parsed.channel_route ≡ some channel
    → (handle_incoming v env sender datagram).0 ≡ sent_to ds
    → (v' : VoiceForwarder) × ((handle_resolved v' env channel sender parsed datagram).0
        ≡ sent_to ds)
unfolding handle_incoming
resolved_of v env sender datagram parsed channel ds reads member h =
    elim (Bool-cases (
      ltb (length datagram) v.cfg.min_datagram_bytes
      || ltb v.cfg.max_datagram_bytes (length datagram))) [
        | inl out ↦
            let dropped : (handle_incoming v env sender datagram).0 ≡ drop_invalid =
              rw (out, handle_incoming) refl in
            cc (dropped, h)
        | inr sized ↦
            let r = allow_rate v env sender parsed.ssrc (length datagram % 2 ^ 32) parsed.ts_ms in
            elim (Bool-cases r.0) [
              | inl allowed ↦
                  let goes_on : (handle_incoming v env sender datagram).0
                      ≡ (handle_resolved r.1 env channel sender parsed datagram).0 =
                    rw (sized, reads, handle_incoming) (rw (allowed, member) refl) in
                  (r.1, sym goes_on ∙ h)
              | inr limited ↦
                  let dropped : (handle_incoming v env sender datagram).0 ≡ drop_rate_limited =
                    rw (sized, reads, handle_incoming) (rw limited refl) in
                  cc (dropped, h)
            ]
      ]

resolved_sent :
    (v : VoiceForwarder) (env : Surroundings) (channel sender : ℕ) (parsed : VoicePacket)
    (datagram : Bytes) (ds : List (Session × Bytes))
    → (handle_resolved v env channel sender parsed datagram).0 ≡ sent_to ds
    → (env.is_muted channel sender ≡ false)
      × (env.is_deafened channel sender ≡ false)
      × (ds ≡ fan_out_to env channel sender parsed datagram)
unfolding handle_resolved
resolved_sent v env channel sender parsed datagram ds h =
    elim (Bool-cases (env.is_muted channel sender || env.is_deafened channel sender)) [
      | inl silenced ↦
          let dropped : (handle_resolved v env channel sender parsed datagram).0 ≡ drop_muted =
            rw (silenced, handle_resolved) refl in
          cc (dropped, h)
      | inr heard ↦ (
        ground (arith, heard),
        ground (arith, heard),
        elim (Bool-cases (not v.cfg.vad_required_for_talker || parsed.vad)) [
          | inl vad ↦ elim (Bool-cases (talk v env channel sender).0) [
            | inl allowed ↦ same (rw (heard, vad, handle_resolved) (rw allowed refl))
            | inr refused ↦
                let dropped : (handle_resolved v env channel sender parsed datagram).0
                    ≡ drop_talker_limit =
                  rw (heard, vad, handle_resolved) (rw refused refl) in
                cc (dropped, h)
          ]
          | inr quiet ↦ same (rw (heard, quiet, handle_resolved) refl)
        ],
      )
    ]
  where
    same :
        (handle_resolved v env channel sender parsed datagram).0
          ≡ sent_to (fan_out_to env channel sender parsed datagram)
        → ds ≡ fan_out_to env channel sender parsed datagram
    same e = cc (e, h)

-- What `handle_incoming` sends on, once the packet is read and its sender's channel resolved, comes from a
-- sender that the channel has neither muted nor deafened, and goes only to sessions of members of the
-- channel that are not deafened and not the sender, each with the datagram built for that session's
-- limit: `P` is any property that holds of all those sessions.
pub handle_incoming-sent_to :
    (v : VoiceForwarder) (env : Surroundings) (sender : ℕ) (datagram : Bytes) (parsed : VoicePacket)
    (channel : ℕ) (ds : List (Session × Bytes)) (P : Session → Type 0)
    → parse_voice datagram ≡ some parsed
    → env.resolve_channel_for_sender sender parsed.channel_route ≡ some channel
    → ((u : ℕ)
        → contains (env.list_members channel) u ≡ true
        → (u == sender) ≡ false
        → env.is_deafened channel u ≡ false
        → All P (env.get_sessions u))
    → (handle_incoming v env sender datagram).0 ≡ sent_to ds
    → (env.is_muted channel sender ≡ false)
      × (env.is_deafened channel sender ≡ false)
      × All
          (λ d.
            P d.0
            × (build_forwarded_voice_datagram env.uuids
                  (max_wire d.0)
                  parsed
                  sender
                  channel
                  datagram
                ≡ some d.1))
          ds
unfolding fan_out_to
handle_incoming-sent_to v env sender datagram parsed channel ds P reads member hearers h =
    let resolved = resolved_of v env sender datagram parsed channel ds reads member h in
    let passed = resolved_sent resolved.0 env channel sender parsed datagram ds resolved.1 in
    let build : ℕ → Option Bytes =
      λ limit. build_forwarded_voice_datagram env.uuids limit parsed sender channel datagram in
    let sessions = recipients env channel sender (env.list_members channel) in
    let each : built_for_each build sessions ≡ ds =
      sym (passed.2 ∙ fan_out-built_for_each build sessions) in
    (
      passed.0,
      passed.1,
      subst (All (λ d. P d.0 × (build (max_wire d.0) ≡ some d.1))) each (
          built-All env channel sender P build sessions
            (recipients-All env channel sender P (env.list_members channel) hearers)),
    )
