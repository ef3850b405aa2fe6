-- ===== src/StreamForwarder/Subscribers.antt =====
-- The fan-out of a stream whose subscribers `set_stream_subscribers` has set.
use tsod.Prelude.{
  ℕ, suc, ◌≤◌, ◌≡◌, refl, sym, ap, ◌∙◌, true, false, ◌&&◌, ◌||◌, some, List, [], ◌∷◌, map, arith,
  if◌then◌else◌, ◌==◌, ==-refl, ==-comm, ==_iff, contains, length, Bool-cases, inl, inr, Bytes,
}
use tsod.Prelude.Maps.{lookup, insert, nat_key, lookup-insert}
use tsod.Wire.Video.{VideoHeader, is_priority, parse}
use tsod.LayerFilter.{LayerFilter, should_forward}
use tsod.StreamForwarder.ViewerLoops.{EnqueuedFragment}
use tsod.StreamForwarder.Enqueue.{waits}
use tsod.StreamForwarder.Fanout.{addressed, times, times-append, filled, RunOn}
use tsod.StreamForwarder.Forwarding.{handle_delivers}
use tsod.StreamForwarder.Addressing.{times-addressed_other, times_absent, times_refused}
use tsod.StreamForwarder.{
  StreamForwarder, StreamRegistration, Providers, viewer_ids, handle_incoming_datagram, add_user,
  to_set, set_stream_subscribers,
}

abbrev pub count : ℕ → List ℕ → ℕ
count a [] = 0
count a (x ∷ xs) = if x == a then suc (count a xs) else count a xs

abbrev pub IsDistinct : List ℕ → Type 0
IsDistinct [] = Unit
IsDistinct (x ∷ xs) = (contains xs x ≡ false) × IsDistinct xs

contains-to_set : (users : List ℕ) (v : ℕ) → contains (to_set users) v ≡ contains users v
unfolding to_set add_user
contains-to_set [] v = refl
contains-to_set (user ∷ rest) v = elim (Bool-cases (contains (to_set rest) user)) [
  | inl known ↦ rw known (elim (Bool-cases (v == user)) [
    | inl here ↦ rw (here, (==_iff v user).0 here) known
    | inr apart ↦ rw apart (contains-to_set rest v)
  ])
  | inr new ↦ rw new (ap (λ b. v == user || b) (contains-to_set rest v))
]

to_set-IsDistinct : (users : List ℕ) → IsDistinct (to_set users)
unfolding to_set add_user
to_set-IsDistinct [] = tt
to_set-IsDistinct (user ∷ rest) = elim (Bool-cases (contains (to_set rest) user)) [
  | inl known ↦ rw known (to_set-IsDistinct rest)
  | inr new ↦ rw new (new, to_set-IsDistinct rest)
]

times-map :
    (viewer session : ℕ) (sessions : List ℕ)
    → times (viewer, session) (map (λ s. (viewer, s)) sessions) ≡ count session sessions
unfolding times
times-map viewer session [] = refl
times-map viewer session (s ∷ sessions) = elim (Bool-cases (s == session)) [
  | inl here ↦ rw (==-refl viewer, here) (ap suc (times-map viewer session sessions))
  | inr apart ↦ rw (==-refl viewer, apart) (times-map viewer session sessions)
]

module _ (env : Providers) (filter : LayerFilter) (hdr : VideoHeader) (viewer session : ℕ) where
  -- A wanted fragment goes to every session of a viewer in the list, once.
  times_wanted :
      (viewers : List ℕ)
      → IsDistinct viewers
      → should_forward filter hdr.stream_tag viewer hdr.layer_id (is_priority hdr) ≡ true
      → times (viewer, session) (addressed env filter hdr viewers)
        ≡ (if contains viewers viewer then count session (env.get_sessions viewer) else 0)
  unfolding addressed times
  times_wanted [] distinct wanted = refl
  times_wanted (v ∷ rest) distinct wanted = elim (Bool-cases (v == viewer)) [
    | inl here ↦
        let at : v ≡ viewer = (==_iff v viewer).0 here in
        let found : (viewer == v) ≡ true = ==-comm viewer v ∙ here in
        let wanted' : should_forward filter hdr.stream_tag v hdr.layer_id (is_priority hdr) ≡ true =
          ap (λ u. should_forward filter hdr.stream_tag u hdr.layer_id (is_priority hdr)) at
          ∙ wanted in
        let once : contains rest viewer ≡ false = ap (contains rest) (sym at) ∙ distinct.0 in
        rw (wanted', addressed, found)
          (times-append (viewer, session) (map (λ s. (v, s)) (env.get_sessions v))
              (addressed env filter hdr rest)
            ∙ rw (times_absent env filter hdr viewer session rest once, at)
                (rw (times-map viewer session (env.get_sessions viewer)) (omega arith)))
    | inr apart ↦
        let other : (viewer == v) ≡ false = ==-comm viewer v ∙ apart in
        times-addressed_other env filter hdr viewer session v rest apart
        ∙ times_wanted rest distinct.1 wanted
        ∙ rw other refl
  ]

  times_set :
      (users : List ℕ)
      → times (viewer, session) (addressed env filter hdr (to_set users)) ≡ (
          if contains users viewer
            && should_forward filter hdr.stream_tag viewer hdr.layer_id (is_priority hdr)
          then count session (env.get_sessions viewer)
          else 0)
  times_set users =
      let member = contains-to_set users viewer in
      elim (Bool-cases
        (should_forward filter hdr.stream_tag viewer hdr.layer_id (is_priority hdr))) [
          | inl wanted ↦
              let sent = times_wanted (to_set users) (to_set-IsDistinct users) wanted in
              elim (Bool-cases (contains users viewer)) [
                | inl inside ↦ sent ∙ rw (member, inside, wanted) refl
                | inr outside ↦ sent ∙ rw (member, outside) refl
              ]
          | inr refused ↦
              let skipped = times_refused env filter hdr viewer session (to_set users) refused in
              elim (Bool-cases (contains users viewer)) [
                | inl inside ↦ skipped ∙ rw (inside, refused) refl
                | inr outside ↦ skipped ∙ rw outside refl
              ]
        ]

-- After `set_stream_subscribers`, a datagram of the stream's registered sender, not longer than the
-- limit, is appended to the channel of a session once for each time the session stands among the
-- sessions of its viewer, as far as the channel's capacity allows, if the viewer is one of the
-- subscribers and the layer filter wants it, and else not at all; no viewer loop ends meanwhile.
pub subscribers_served :
    (st : StreamForwarder) (env : Providers) (datagram : Bytes) (now_ms now_sec : ℕ)
    (hdr : VideoHeader) (reg : StreamRegistration) (users : List ℕ) (viewer session : ℕ)
    → RunOn env
    → parse datagram ≡ some hdr
    → length datagram ≤ st.cfg.max_datagram_bytes
    → lookup hdr.stream_tag st.streams ≡ some reg
    → waits
        (handle_incoming_datagram
          (set_stream_subscribers st hdr.stream_tag users)
          env
          reg.sender_id
          datagram
          now_ms
          now_sec).viewer_loops
        (viewer, session)
      ≡ filled st.cfg
          (record { datagram = datagram; hdr = hdr; codec = reg.codec })
          (if contains users viewer
              && should_forward st.layer_filter hdr.stream_tag viewer hdr.layer_id (is_priority hdr)
            then count session (env.get_sessions viewer)
            else 0)
          (waits st.viewer_loops (viewer, session))
unfolding set_stream_subscribers
subscribers_served st env datagram now_ms now_sec hdr reg users viewer session run parsed fits
      registered =
    let st' = record st { subscriptions = insert hdr.stream_tag (to_set users) st.subscriptions } in
    let fragment : EnqueuedFragment = record {
      datagram = datagram;
      hdr = hdr;
      codec = reg.codec;
    } in
    let subscribers : viewer_ids st' env reg.sender_id reg hdr.stream_tag ≡ to_set users =
      rw (lookup-insert hdr.stream_tag hdr.stream_tag (to_set users) st.subscriptions, viewer_ids)
        (rw (==-refl hdr.stream_tag) refl) in
    handle_delivers st' env datagram now_ms now_sec hdr reg run parsed fits registered
      (viewer, session)
    ∙ ap (λ n. filled st.cfg fragment n (waits st.viewer_loops (viewer, session)))
        (ap (λ l. times (viewer, session) (addressed env st.layer_filter hdr l)) subscribers
          ∙ times_set env st.layer_filter hdr viewer session users)
