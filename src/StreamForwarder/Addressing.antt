-- ===== src/StreamForwarder/Addressing.antt =====
-- Which sessions a fragment is for, after `unsubscribe_viewer`, `set_viewer_preferred_layer` and
-- `set_stream_subscribers`.
use tsod.Prelude.{
  ℕ, ◌≡◌, ◌≢◌, refl, ap, ◌∙◌, false, not, some, List, [], ◌∷◌, map, arith, ◌==◌, ==-refl, ==-comm,
  ==_iff, contains, retain, Bool-cases, inl, inr, Bytes,
}
use tsod.Prelude.Maps.{lookup, insert, nat_key, lookup-insert}
use tsod.Wire.Video.{VideoHeader, is_priority, parse}
use tsod.LayerFilter.{LayerFilter, should_forward}
use tsod.LayerFilter.Preferences.{should_forward-set_preferred_layer}
use tsod.StreamForwarder.Enqueue.{waits}
use tsod.StreamForwarder.Fanout.{addressed, times, times-append, RunOn}
use tsod.StreamForwarder.Forwarding.{handle_skips}
use tsod.StreamForwarder.{
  StreamForwarder, Providers, viewer_ids, handle_incoming_datagram, unsubscribe_viewer,
  set_viewer_preferred_layer,
}

-- No session of another viewer is the key's.
times_other :
    (viewer other session : ℕ) (sessions : List ℕ)
    → (other == viewer) ≡ false
    → times (viewer, session) (map (λ s. (other, s)) sessions) ≡ 0
unfolding times
times_other viewer other session [] apart = refl
times_other viewer other session (s ∷ sessions) apart =
    rw apart (times_other viewer other session sessions apart)

module _ (env : Providers) (filter : LayerFilter) (hdr : VideoHeader) (viewer session : ℕ) where
  -- The head of the list adds nothing for a key of another viewer.
  pub times-addressed_other :
      (v : ℕ) (rest : List ℕ)
      → (v == viewer) ≡ false
      → times (viewer, session) (addressed env filter hdr (v ∷ rest))
        ≡ times (viewer, session) (addressed env filter hdr rest)
  unfolding addressed
  times-addressed_other v rest apart =
      let none_here = times_other viewer v session (env.get_sessions v) apart in
      elim (Bool-cases (should_forward filter hdr.stream_tag v hdr.layer_id (is_priority hdr))) [
        | inl wanted ↦
            rw (wanted, addressed)
              (times-append (viewer, session) (map (λ s. (v, s)) (env.get_sessions v))
                  (addressed env filter hdr rest)
                ∙ rw none_here (omega arith))
        | inr unwanted ↦ rw (unwanted, addressed) refl
      ]

  pub times_absent :
      (viewers : List ℕ)
      → contains viewers viewer ≡ false
      → times (viewer, session) (addressed env filter hdr viewers) ≡ 0
  unfolding addressed times
  times_absent [] absent = refl
  times_absent (v ∷ rest) absent =
      let apart : (v == viewer) ≡ false = ground (arith, absent) in
      let later : contains rest viewer ≡ false = ground (arith, absent) in
      times-addressed_other v rest apart ∙ times_absent rest later

  pub times_refused :
      (viewers : List ℕ)
      → should_forward filter hdr.stream_tag viewer hdr.layer_id (is_priority hdr) ≡ false
      → times (viewer, session) (addressed env filter hdr viewers) ≡ 0
  unfolding addressed times
  times_refused [] refused = refl
  times_refused (v ∷ rest) refused = elim (Bool-cases (v == viewer)) [
    | inl here ↦
        let unwanted : should_forward filter hdr.stream_tag v hdr.layer_id (is_priority hdr)
            ≡ false =
          ap (λ u. should_forward filter hdr.stream_tag u hdr.layer_id (is_priority hdr))
            ((==_iff v viewer).0 here)
          ∙ refused in
        rw (unwanted, addressed) (times_refused rest refused)
    | inr apart ↦ times-addressed_other v rest apart ∙ times_refused rest refused
  ]

contains_removed :
    (viewer : ℕ) (set : List ℕ)
    → contains (retain (λ user. not (user == viewer)) set) viewer ≡ false
contains_removed viewer [] = refl
contains_removed viewer (user ∷ set) = elim (Bool-cases (user == viewer)) [
  | inl gone ↦ rw gone (contains_removed viewer set)
  | inr kept ↦
      let apart : (viewer == user) ≡ false = ==-comm viewer user ∙ kept in
      rw kept (rw apart (contains_removed viewer set))
]

-- After `unsubscribe_viewer` from a stream that has subscribers, a datagram of the stream puts nothing
-- into the channel of any session of that viewer, where no viewer loop ends meanwhile.
pub unsubscribed_skipped :
    (st : StreamForwarder) (env : Providers) (sender : ℕ) (datagram : Bytes) (now_ms now_sec : ℕ)
    (hdr : VideoHeader) (viewer session : ℕ) (set : List ℕ)
    → RunOn env
    → parse datagram ≡ some hdr
    → lookup hdr.stream_tag st.subscriptions ≡ some set
    → waits
        (handle_incoming_datagram
          (unsubscribe_viewer st viewer hdr.stream_tag)
          env
          sender
          datagram
          now_ms
          now_sec).viewer_loops
        (viewer, session)
      ≡ waits st.viewer_loops (viewer, session)
unfolding unsubscribe_viewer
unsubscribed_skipped st env sender datagram now_ms now_sec hdr viewer session set run parsed found =
    let left = retain (λ user. not (user == viewer)) set in
    let st' = record st { subscriptions = insert hdr.stream_tag left st.subscriptions } in
    let subscribers : lookup hdr.stream_tag st'.subscriptions ≡ some left =
      lookup-insert hdr.stream_tag hdr.stream_tag left st.subscriptions
      ∙ rw (==-refl hdr.stream_tag) refl in
    rw (found, unsubscribe_viewer)
      (handle_skips st' env sender datagram now_ms now_sec hdr (viewer, session) run parsed
        (λ reg.
          rw (subscribers, viewer_ids)
            (times_absent env st.layer_filter hdr viewer session left
              (contains_removed viewer set))))

-- After `set_viewer_preferred_layer`, a datagram of another layer that is not a priority fragment puts
-- nothing into the channel of any session of that viewer, where no viewer loop ends meanwhile.
pub other_layer_skipped :
    (st : StreamForwarder) (env : Providers) (sender : ℕ) (datagram : Bytes) (now_ms now_sec : ℕ)
    (hdr : VideoHeader) (viewer session layer_id : ℕ)
    → RunOn env
    → parse datagram ≡ some hdr
    → hdr.layer_id ≢ layer_id
    → is_priority hdr ≡ false
    → waits
        (handle_incoming_datagram
          (set_viewer_preferred_layer st hdr.stream_tag viewer layer_id)
          env
          sender
          datagram
          now_ms
          now_sec).viewer_loops
        (viewer, session)
      ≡ waits st.viewer_loops (viewer, session)
unfolding set_viewer_preferred_layer
other_layer_skipped st env sender datagram now_ms now_sec hdr viewer session layer_id run parsed
      other plain =
    let st' = set_viewer_preferred_layer st hdr.stream_tag viewer layer_id in
    let apart : (hdr.layer_id == layer_id) ≡ false = ground (arith, other) in
    let refused : should_forward st'.layer_filter hdr.stream_tag viewer hdr.layer_id
          (is_priority hdr)
        ≡ false =
      should_forward-set_preferred_layer st.layer_filter hdr.stream_tag viewer layer_id
        hdr.stream_tag viewer hdr.layer_id (is_priority hdr)
      ∙ rw (==-refl hdr.stream_tag, ==-refl viewer) (rw (apart, plain) refl) in
    handle_skips st' env sender datagram now_ms now_sec hdr (viewer, session) run parsed
      (λ reg.
        times_refused env st'.layer_filter hdr viewer session
          (viewer_ids st' env sender reg hdr.stream_tag) refused)
