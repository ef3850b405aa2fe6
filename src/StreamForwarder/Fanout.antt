-- ===== src/StreamForwarder/Fanout.antt =====
-- The way of one fragment to the sessions of the viewers of its stream, with viewer loops that run on.
use tsod.Prelude.{
  ℕ, zero, suc, ◌+◌, ◌-◌, min, ◌≡◌, refl, sym, ap, ◌∙◌, false, List, [], ◌∷◌, ◌++◌, map,
  append_assoc, append-nil, arith, if◌then◌else◌, leb, length, replicate, length-append, Bool-cases,
  inl, inr,
}
use tsod.Prelude.Maps.{pair_key, pair_same}
use tsod.Wire.Video.{VideoHeader, is_priority}
use tsod.LayerFilter.{LayerFilter, should_forward}
use tsod.StreamForwarder.ViewerLoops.{
  StreamForwarderConfig, Loops, EnqueuedFragment, EnqueueOutcome, channel_capacity,
  enqueue_to_viewer,
}
use tsod.StreamForwarder.Enqueue.{waits, offered, Offered, enqueue_to_viewer-Offered}
use tsod.StreamForwarder.{
  Providers, Counters, count_sessions, forward_sessions, forward_viewers, count_outcome,
}

-- A channel after `n` more of the same fragment: those that fit.
abbrev pub filled :
    StreamForwarderConfig → EnqueuedFragment → ℕ → List EnqueuedFragment → List EnqueuedFragment
filled cfg fragment n channel =
    channel ++ replicate (min n (channel_capacity cfg - length channel)) fragment

-- The sessions a stream's fragment is for, viewer by viewer.
unfoldable pub addressed : Providers → LayerFilter → VideoHeader → List ℕ → List (ℕ × ℕ)
addressed env filter hdr [] = []
addressed env filter hdr (viewer ∷ rest) =
    let wanted = should_forward filter hdr.stream_tag viewer hdr.layer_id (is_priority hdr) in
    let others = addressed env filter hdr rest in
    if wanted
    then map (λ session. (viewer, session)) (env.get_sessions viewer) ++ others
    else others

-- How often a key stands in a list.
unfoldable pub times : ℕ × ℕ → List (ℕ × ℕ) → ℕ
times key [] = 0
times key (k ∷ rest) = if pair_same k key then suc (times key rest) else times key rest

pub times-append :
    (key : ℕ × ℕ) (a b : List (ℕ × ℕ)) → times key (a ++ b) ≡ times key a + times key b
unfolding times
times-append key [] b = omega arith
times-append key (k ∷ a) b = elim (Bool-cases (pair_same k key)) [
  | inl here ↦ rw here (ap suc (times-append key a b) ∙ omega arith)
  | inr there ↦ rw there (times-append key a b)
]

replicate-add {ℓ} :
    {A : Type ℓ} (m n : ℕ) (a : A) → replicate m a ++ replicate n a ≡ replicate (m + n) a
replicate-add zero n a = ap (λ k. replicate k a) {y = 0 + n} (omega arith)
replicate-add (suc m) n a =
    ap (◌∷◌ a) (replicate-add m n a)
    ∙ ap (λ k. replicate k a) {x = suc (m + n)} {y = suc m + n} (omega arith)

length-replicate {ℓ} : {A : Type ℓ} (n : ℕ) (a : A) → length (replicate n a) ≡ n
length-replicate zero a = refl
length-replicate (suc n) a = ap suc (length-replicate n a)

module _ (cfg : StreamForwarderConfig) (fragment : EnqueuedFragment) where
  offered-filled :
      (channel : List EnqueuedFragment)
      → offered cfg fragment channel ≡ filled cfg fragment 1 channel
  offered-filled channel = elim (Bool-cases (leb (channel_capacity cfg) (length channel))) [
    | inl full ↦
        let none_fits : min 1 (channel_capacity cfg - length channel) ≡ 0 = ground (arith, full) in
        rw (full, none_fits) (sym (append-nil channel))
    | inr room ↦
        let one_fits : min 1 (channel_capacity cfg - length channel) ≡ 1 = ground (arith, room) in
        rw (room, one_fits) refl
  ]

  filled-filled :
      (m n : ℕ) (channel : List EnqueuedFragment)
      → filled cfg fragment n (filled cfg fragment m channel) ≡ filled cfg fragment (m + n) channel
  filled-filled m n channel =
      let room = channel_capacity cfg - length channel in
      let grown : length (filled cfg fragment m channel) ≡ length channel + min m room =
        length-append channel (replicate (min m room) fragment)
        ∙ ap (λ k. length channel + k) (length-replicate (min m room) fragment) in
      let total : min m room + min n (channel_capacity cfg - length (filled cfg fragment m channel))
          ≡ min (m + n) room =
        rw grown (omega arith) in
      append_assoc channel (replicate (min m room) fragment)
        (replicate (min n (channel_capacity cfg - length (filled cfg fragment m channel))) fragment)
      ∙ ap (λ l. channel ++ l)
          (replicate-add (min m room)
            (min n (channel_capacity cfg - length (filled cfg fragment m channel))) fragment)
      ∙ ap (λ k. channel ++ replicate k fragment) total

-- Every session was offered the fragment as often as it stands in `keys`.
pub record Reaches (cfg : StreamForwarderConfig) (fragment : EnqueuedFragment) (keys : List (ℕ × ℕ))
    (loops loops' : Loops) : Type 0 where
  pub at : (key : ℕ × ℕ) → waits loops' key ≡ filled cfg fragment (times key keys) (waits loops key)

-- The task of no session ends.
abbrev pub RunOn : Providers → Type 0
RunOn env = (key : ℕ × ℕ) → env.dies key ≡ (false, false)

module _ (cfg : StreamForwarderConfig) (fragment : EnqueuedFragment) where
  Reaches-trans :
      (a b : List (ℕ × ℕ)) {l l' l'' : Loops}
      → Reaches cfg fragment a l l'
      → Reaches cfg fragment b l' l''
      → Reaches cfg fragment (a ++ b) l l''
  Reaches-trans a b {l} f g = record {
    at = λ key.
        g.at key
        ∙ ap (filled cfg fragment (times key b)) (f.at key)
        ∙ filled-filled cfg fragment (times key a) (times key b) (waits l key)
        ∙ ap (λ n. filled cfg fragment n (waits l key)) (sym (times-append key a b));
  }

  pub filled_none : (channel : List EnqueuedFragment) → channel ≡ filled cfg fragment 0 channel
  filled_none channel =
      let none_new : min 0 (channel_capacity cfg - length channel) ≡ 0 = omega arith in
      rw none_new (sym (append-nil channel))

  pub Reaches-none : {l : Loops} → Reaches cfg fragment [] l l
  unfolding times
  Reaches-none {l} = record { at = λ key. filled_none (waits l key) }

  Offered-Reaches :
      {l : Loops} (k : ℕ × ℕ) {r : EnqueueOutcome × Loops}
      → Offered cfg fragment l k r
      → Reaches cfg fragment (k ∷ []) l r.1
  unfolding times
  Offered-Reaches {l} k o = record {
    at = λ key. elim (Bool-cases (pair_same k key)) [
      | inl here ↦ rw here (o.waiting_at key ∙ rw here (offered-filled cfg fragment (waits l key)))
      | inr there ↦ rw there (o.waiting_at key ∙ rw there (filled_none (waits l key)))
    ];
  }

  module _ (env : Providers) (now : ℕ) (run : RunOn env) where
    forward_sessions-Reaches :
        (viewer : ℕ) (sessions : List ℕ) (loops : Loops) (c : Counters)
        → Reaches cfg fragment
            (map (λ session. (viewer, session)) sessions)
            loops
            (forward_sessions cfg env now fragment viewer sessions (loops, c)).0
    unfolding forward_sessions
    forward_sessions-Reaches viewer [] loops c = Reaches-none
    forward_sessions-Reaches viewer (session ∷ rest) loops c =
        let key : ℕ × ℕ = (viewer, session) in
        let r = enqueue_to_viewer cfg loops key fragment now (false, false) in
        let first = Offered-Reaches key (enqueue_to_viewer-Offered cfg loops key fragment now) in
        let others = forward_sessions-Reaches viewer rest r.1 (count_outcome r.0 c) in
        rw (run key, forward_sessions)
          (Reaches-trans (key ∷ []) (map (λ s. (viewer, s)) rest) first others)

    pub forward_viewers-Reaches :
        (filter : LayerFilter) (viewers : List ℕ) (s : Loops × Counters)
        → Reaches cfg fragment
            (addressed env filter fragment.hdr viewers)
            s.0
            (forward_viewers cfg env filter now fragment viewers s).0
    unfolding forward_viewers addressed
    forward_viewers-Reaches filter [] s = Reaches-none
    forward_viewers-Reaches filter (viewer ∷ rest) s =
        let hdr = fragment.hdr in
        let sessions = env.get_sessions viewer in
        let keys : List (ℕ × ℕ) = map (λ session. (viewer, session)) sessions in
        let s' =
          forward_sessions cfg env now fragment viewer sessions
            (s.0, count_sessions sessions s.1) in
        elim (Bool-cases
          (should_forward filter hdr.stream_tag viewer hdr.layer_id (is_priority hdr))) [
            | inl wanted ↦
                rw (wanted, forward_viewers)
                  (Reaches-trans keys (addressed env filter hdr rest)
                    (forward_sessions-Reaches viewer sessions s.0 (count_sessions sessions s.1))
                    (forward_viewers-Reaches filter rest s'))
            | inr unwanted ↦ rw (unwanted, forward_viewers) (forward_viewers-Reaches filter rest s)
          ]
