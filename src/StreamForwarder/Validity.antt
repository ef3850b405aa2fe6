-- ===== src/StreamForwarder/Validity.antt =====
-- A datagram keeps the viewer loops valid, also where tasks end meanwhile.
use tsod.Prelude.{
  ℕ, sym, subst, List, [], ◌∷◌, Bool-cases, Option-cases, List-cases, inl, inr, Bytes,
}
use tsod.Wire.Video.{VideoHeader, parse, is_priority}
use tsod.LayerFilter.{LayerFilter, should_forward}
use tsod.StreamForwarder.ViewerLoops.{
  StreamForwarderConfig, Loops, EnqueuedFragment, enqueue_to_viewer,
}
use tsod.StreamForwarder.Reachable.{AllValid, enqueue-AllValid}
use tsod.StreamForwarder.Forwarding.{handle_outcome, handle_unauthorized}
use tsod.StreamForwarder.{
  StreamForwarder, StreamRegistration, Providers, Counters, count_outcome, count_sessions,
  forward_sessions, forward_viewers, forward, viewer_ids, handle_incoming_datagram,
}

module _ (cfg : StreamForwarderConfig) (env : Providers) (now : ℕ)
    (fragment : EnqueuedFragment) where
  forward_sessions-AllValid :
      (viewer : ℕ) (sessions : List ℕ) (loops : Loops) (c : Counters)
      → AllValid cfg loops
      → AllValid cfg (forward_sessions cfg env now fragment viewer sessions (loops, c)).0
  unfolding forward_sessions
  forward_sessions-AllValid viewer [] loops c r = r
  forward_sessions-AllValid viewer (session ∷ rest) loops c r =
      let key : ℕ × ℕ = (viewer, session) in
      let o = enqueue_to_viewer cfg loops key fragment now (env.dies key) in
      forward_sessions-AllValid viewer rest o.1 (count_outcome o.0 c)
        (enqueue-AllValid cfg loops key fragment now (env.dies key) r)

  forward_viewers-AllValid :
      (filter : LayerFilter) (viewers : List ℕ) (s : Loops × Counters)
      → AllValid cfg s.0
      → AllValid cfg (forward_viewers cfg env filter now fragment viewers s).0
  unfolding forward_viewers
  forward_viewers-AllValid filter [] s r = r
  forward_viewers-AllValid filter (viewer ∷ rest) s r =
      let hdr = fragment.hdr in
      let sessions = env.get_sessions viewer in
      let c = count_sessions sessions s.1 in
      let s' = forward_sessions cfg env now fragment viewer sessions (s.0, c) in
      elim (Bool-cases
        (should_forward filter hdr.stream_tag viewer hdr.layer_id (is_priority hdr))) [
          | inl wanted ↦
              rw (wanted, forward_viewers)
                (forward_viewers-AllValid filter rest s'
                  (forward_sessions-AllValid viewer sessions s.0 c r))
          | inr unwanted ↦ rw (unwanted, forward_viewers) (forward_viewers-AllValid filter rest s r)
        ]

forward-AllValid :
    (st : StreamForwarder) (env : Providers) (sender now_ms : ℕ) (datagram : Bytes)
    (hdr : VideoHeader) (reg : StreamRegistration)
    → AllValid st.cfg st.viewer_loops
    → AllValid st.cfg (forward st env sender now_ms datagram hdr reg).viewer_loops
unfolding forward
forward-AllValid st env sender now_ms datagram hdr reg r =
    let fragment : EnqueuedFragment = record {
      datagram = datagram;
      hdr = hdr;
      codec = reg.codec;
    } in
    elim (List-cases (viewer_ids st env sender reg hdr.stream_tag)) [
      | inl nobody ↦ rw (nobody, forward) r
      | inr (viewer, rest, some_viewer) ↦
          rw (some_viewer, forward)
            (forward_viewers-AllValid st.cfg env now_ms fragment st.layer_filter (viewer ∷ rest)
              (st.viewer_loops, st.counters) r)
    ]

-- Whatever the datagram and its sender, and whichever tasks end while it is forwarded:
-- `handle_incoming_datagram` keeps one entry for each session, every channel within its capacity, and every
-- queue within its capacity and its frame limit with the frame of each of its fragments tracked.
pub handle_incoming_datagram-AllValid :
    (st : StreamForwarder) (env : Providers) (sender : ℕ) (datagram : Bytes) (now_ms now_sec : ℕ)
    → AllValid st.cfg st.viewer_loops
    → AllValid st.cfg (handle_incoming_datagram st env sender datagram now_ms now_sec).viewer_loops
handle_incoming_datagram-AllValid st env sender datagram now_ms now_sec r =
    elim (Option-cases (parse datagram)) [
      | inl malformed ↦
          let same =
            handle_unauthorized st env sender datagram now_ms now_sec
              (λ hdr parsed. cc (malformed, parsed)) in
          subst (AllValid st.cfg) (sym same) r
      | inr (hdr, parsed) ↦ elim (handle_outcome st env sender datagram now_ms now_sec hdr parsed) [
        | inl same ↦ subst (AllValid st.cfg) (sym same) r
        | inr (reg, registered, mine, forwarded) ↦
            subst (AllValid st.cfg) (sym forwarded)
              (forward-AllValid st env sender now_ms datagram hdr reg r)
      ]
    ]
