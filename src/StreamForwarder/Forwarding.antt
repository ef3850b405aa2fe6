-- ===== src/StreamForwarder/Forwarding.antt =====
-- `handle_incoming_datagram`: whose datagrams are forwarded, and to whom.
use tsod.Prelude.{
  ℕ, ◌≤◌, ◌≡◌, ◌≢◌, refl, sym, ap, ◌∙◌, false, none, some, ◌∷◌, arith, ltb, ◌==◌, ◌||◌, ==-refl,
  ==_iff, ◌⊎◌, length, Bool-cases, Option-cases, List-cases, inl, inr, Bytes,
}
use tsod.Prelude.Maps.{lookup, remove, nat_key, lookup-remove}
use tsod.Wire.Limits.{video_header_bytes}
use tsod.Wire.Video.{VideoHeader, parse}
use tsod.StreamForwarder.Enqueue.{waits}
use tsod.StreamForwarder.Fanout.{
  filled, addressed, times, RunOn, Reaches, forward_viewers-Reaches, Reaches-none, filled_none,
}
use tsod.StreamForwarder.{
  StreamForwarder, StreamRegistration, Providers, viewer_ids, forward, handle_incoming_datagram,
  drop_malformed, drop_unauthorized, maybe_log_forwarding_rates, sender_for_stream,
  unregister_stream,
}

log_keeps :
    (st : StreamForwarder) (now : ℕ)
    → (maybe_log_forwarding_rates st now).viewer_loops ≡ st.viewer_loops
unfolding maybe_log_forwarding_rates
log_keeps st now = ground arith

-- What `forward` offers, and to whom.
forward-Reaches :
    (st : StreamForwarder) (env : Providers) (sender now_ms : ℕ) (datagram : Bytes)
    (hdr : VideoHeader) (reg : StreamRegistration)
    → RunOn env
    → Reaches st.cfg
        (record { datagram = datagram; hdr = hdr; codec = reg.codec })
        (addressed env st.layer_filter hdr (viewer_ids st env sender reg hdr.stream_tag))
        st.viewer_loops
        (forward st env sender now_ms datagram hdr reg).viewer_loops
unfolding forward addressed
forward-Reaches st env sender now_ms datagram hdr reg run =
    elim (List-cases (viewer_ids st env sender reg hdr.stream_tag)) [
      | inl nobody ↦ rw (nobody, forward) (Reaches-none _ _)
      | inr (viewer, rest, some_viewer) ↦
          rw (some_viewer, forward)
            (forward_viewers-Reaches st.cfg
              (record { datagram = datagram; hdr = hdr; codec = reg.codec }) env now_ms run
              st.layer_filter (viewer ∷ rest) (st.viewer_loops, st.counters))
    ]

parse-length :
    (buf : Bytes) (hdr : VideoHeader) → parse buf ≡ some hdr → video_header_bytes ≤ length buf
unfolding parse
parse-length buf hdr parsed = elim (Bool-cases (ltb (length buf) video_header_bytes)) [
  | inl short ↦ let nothing : parse buf ≡ none = rw (short, parse) refl in cc (nothing, parsed)
  | inr whole ↦ ground (arith, whole)
]

accepted :
    (st : StreamForwarder) (env : Providers) (datagram : Bytes) (now_ms now_sec : ℕ)
    (hdr : VideoHeader) (reg : StreamRegistration)
    → parse datagram ≡ some hdr
    → length datagram ≤ st.cfg.max_datagram_bytes
    → lookup hdr.stream_tag st.streams ≡ some reg
    → handle_incoming_datagram st env reg.sender_id datagram now_ms now_sec
      ≡ maybe_log_forwarding_rates (forward st env reg.sender_id now_ms datagram hdr reg) now_sec
unfolding handle_incoming_datagram
accepted st env datagram now_ms now_sec hdr reg parsed fits registered =
    let whole = parse-length datagram hdr parsed in
    let sized : (ltb (length datagram) video_header_bytes
          || ltb st.cfg.max_datagram_bytes (length datagram))
        ≡ false =
      ground (arith, whole, fits) in
    rw (sized, parsed, handle_incoming_datagram) (rw registered (rw (==-refl reg.sender_id) refl))

pub handle_delivers :
    (st : StreamForwarder) (env : Providers) (datagram : Bytes) (now_ms now_sec : ℕ)
    (hdr : VideoHeader) (reg : StreamRegistration)
    → RunOn env
    → parse datagram ≡ some hdr
    → length datagram ≤ st.cfg.max_datagram_bytes
    → lookup hdr.stream_tag st.streams ≡ some reg
    → (key : ℕ × ℕ)
    → waits (handle_incoming_datagram st env reg.sender_id datagram now_ms now_sec).viewer_loops key
      ≡ filled st.cfg
          (record { datagram = datagram; hdr = hdr; codec = reg.codec })
          (times key (
            addressed env st.layer_filter hdr (viewer_ids st env reg.sender_id reg hdr.stream_tag)))
          (waits st.viewer_loops key)
unfolding handle_incoming_datagram
handle_delivers st env datagram now_ms now_sec hdr reg run parsed fits registered key =
    rw (accepted st env datagram now_ms now_sec hdr reg parsed fits registered) (
      ap (λ loops. waits loops key)
        (log_keeps (forward st env reg.sender_id now_ms datagram hdr reg) now_sec)
      ∙ (forward-Reaches st env reg.sender_id now_ms datagram hdr reg run).at key)

-- A datagram with a header either changes no viewer loop, or its stream is the sender's.
pub handle_outcome :
    (st : StreamForwarder) (env : Providers) (sender : ℕ) (datagram : Bytes) (now_ms now_sec : ℕ)
    (hdr : VideoHeader)
    → parse datagram ≡ some hdr
    → ((handle_incoming_datagram st env sender datagram now_ms now_sec).viewer_loops
        ≡ st.viewer_loops)
      ⊎ ((reg : StreamRegistration) × (lookup hdr.stream_tag st.streams ≡ some reg)
          × (reg.sender_id ≡ sender)
          × ((handle_incoming_datagram st env sender datagram now_ms now_sec).viewer_loops
              ≡ (forward st env sender now_ms datagram hdr reg).viewer_loops))
unfolding handle_incoming_datagram
handle_outcome st env sender datagram now_ms now_sec hdr parsed =
    elim (Bool-cases (
      ltb (length datagram) video_header_bytes
      || ltb st.cfg.max_datagram_bytes (length datagram))) [
        | inl out ↦ inl (rw (out, handle_incoming_datagram) (log_keeps (drop_malformed st) now_sec))
        | inr sized ↦ elim (Option-cases (lookup hdr.stream_tag st.streams)) [
          | inl unknown ↦ inl (
              rw (sized, parsed, handle_incoming_datagram)
                (rw unknown (log_keeps (drop_unauthorized st) now_sec)))
          | inr (reg, registered) ↦ elim (Bool-cases (reg.sender_id == sender)) [
            | inl mine ↦ inr (
              reg,
              registered,
              (==_iff reg.sender_id sender).0 mine,
              rw (sized, parsed, handle_incoming_datagram)
                  (rw registered
                    (rw mine (log_keeps (forward st env sender now_ms datagram hdr reg) now_sec))),
            )
            | inr foreign ↦ inl (
                rw (sized, parsed, handle_incoming_datagram)
                  (rw registered (rw foreign (log_keeps (drop_unauthorized st) now_sec))))
          ]
        ]
      ]

-- A datagram whose header names no stream that its sender has registered, or that has no valid header,
-- changes no viewer loop.
pub handle_unauthorized :
    (st : StreamForwarder) (env : Providers) (sender : ℕ) (datagram : Bytes) (now_ms now_sec : ℕ)
    → ((hdr : VideoHeader)
        → parse datagram ≡ some hdr
        → sender_for_stream st hdr.stream_tag ≢ some sender)
    → (handle_incoming_datagram st env sender datagram now_ms now_sec).viewer_loops
      ≡ st.viewer_loops
unfolding handle_incoming_datagram sender_for_stream
handle_unauthorized st env sender datagram now_ms now_sec stranger =
    elim (Option-cases (parse datagram)) [
      | inl malformed ↦
          elim (Bool-cases (
            ltb (length datagram) video_header_bytes
            || ltb st.cfg.max_datagram_bytes (length datagram))) [
              | inl out ↦ rw (out, handle_incoming_datagram) (log_keeps (drop_malformed st) now_sec)
              | inr sized ↦
                  rw (sized, malformed, handle_incoming_datagram)
                    (log_keeps (drop_malformed st) now_sec)
            ]
      | inr (hdr, parsed) ↦ elim (handle_outcome st env sender datagram now_ms now_sec hdr parsed) [
        | inl same ↦ same
        | inr (reg, registered, mine, forwarded) ↦
            let known : sender_for_stream st hdr.stream_tag ≡ some sender =
              rw (registered, sender_for_stream) (ap some mine) in
            absurd (stranger hdr parsed known)
      ]
    ]

-- After `unregister_stream` no datagram of that stream changes a viewer loop, whoever sends it.
pub unregistered_silent :
    (st : StreamForwarder) (env : Providers) (sender : ℕ) (datagram : Bytes) (now_ms now_sec : ℕ)
    (hdr : VideoHeader)
    → parse datagram ≡ some hdr
    → (handle_incoming_datagram
        (unregister_stream st hdr.stream_tag)
        env
        sender
        datagram
        now_ms
        now_sec).viewer_loops
      ≡ st.viewer_loops
unfolding unregister_stream
unregistered_silent st env sender datagram now_ms now_sec hdr parsed =
    elim (handle_outcome (unregister_stream st hdr.stream_tag) env sender datagram now_ms now_sec
      hdr parsed) [
        | inl same ↦ same
        | inr (reg, registered, mine, forwarded) ↦
            let gone : lookup hdr.stream_tag (remove hdr.stream_tag st.streams) ≡ none =
              lookup-remove hdr.stream_tag hdr.stream_tag st.streams
              ∙ rw (==-refl hdr.stream_tag) refl in
            cc (gone, registered)
      ]

-- A session that the fragment is not for gets nothing.
pub handle_skips :
    (st : StreamForwarder) (env : Providers) (sender : ℕ) (datagram : Bytes) (now_ms now_sec : ℕ)
    (hdr : VideoHeader) (key : ℕ × ℕ)
    → RunOn env
    → parse datagram ≡ some hdr
    → ((reg : StreamRegistration)
        → times key
            (addressed env st.layer_filter hdr (viewer_ids st env sender reg hdr.stream_tag))
          ≡ 0)
    → waits (handle_incoming_datagram st env sender datagram now_ms now_sec).viewer_loops key
      ≡ waits st.viewer_loops key
handle_skips st env sender datagram now_ms now_sec hdr key run parsed not_for =
    elim (handle_outcome st env sender datagram now_ms now_sec hdr parsed) [
      | inl same ↦ ap (λ loops. waits loops key) same
      | inr (reg, registered, mine, forwarded) ↦
          ap (λ loops. waits loops key) forwarded
          ∙ (forward-Reaches st env sender now_ms datagram hdr reg run).at key
          ∙ ap
              (λ n.
                filled st.cfg (record { datagram = datagram; hdr = hdr; codec = reg.codec }) n
                  (waits st.viewer_loops key))
              (not_for reg)
          ∙ sym (
              filled_none st.cfg (record { datagram = datagram; hdr = hdr; codec = reg.codec })
                (waits st.viewer_loops key))
    ]
