-- ===== src/StreamForwarder.antt =====
-- `StreamForwarder` of server/media/stream_forwarder.rs: registered streams, their subscribers, and
-- the way of a datagram to the sessions of the viewers. Users, channels and sessions are numbers; the
-- session registry and the viewer provider are arguments; the calls of the metrics trait, which keep
-- no state here, are left out. A call runs without interruption, but for viewer loops that end.
pub mod ViewerLoops
pub mod Enqueue
pub mod Fanout
pub mod Forwarding
pub mod Addressing
pub mod Subscribers
pub mod Cleanup
pub mod Reachable
pub mod Validity
mod Runs
use tsod.Prelude.{
  ℕ, suc, ◌+◌, ◌%◌, ◌^◌, Bool, true, false, not, ◌||◌, Option, none, some, List, [], ◌∷◌, ◌++◌,
  if◌then◌else◌, ltb, leb, ◌==◌, length, contains, retain, Bytes,
}
use tsod.Prelude.Maps.{lookup, insert, remove, nat_key}
use tsod.Wire.Limits.{video_header_bytes}
use tsod.Wire.Video.{VideoHeader, parse, is_priority}
use tsod.LayerFilter.{LayerFilter, default_filter, should_forward}
use tsod.LayerFilter
use tsod.StreamForwarder.ViewerLoops.{
  StreamForwarderConfig, Loops, EnqueuedFragment, EnqueueOutcome, enqueued, queue_full,
  viewer_loop_closed, enqueue_to_viewer,
}

pub record StreamRegistration : Type 0 where
  pub sender_id : ℕ
  pub channel_id : ℕ
  pub codec : ℕ

pub record Counters : Type 0 where
  pub forwarded_fragments : ℕ
  pub dropped_queue_full : ℕ
  pub dropped_malformed : ℕ
  pub dropped_unauthorized : ℕ
  pub dropped_viewer_loop_closed : ℕ
  pub dropped_viewer_ids_empty : ℕ
  pub dropped_sessions_empty_for_viewer : ℕ

abbrev pub no_counts : Counters
no_counts = record {
  forwarded_fragments = 0;
  dropped_queue_full = 0;
  dropped_malformed = 0;
  dropped_unauthorized = 0;
  dropped_viewer_loop_closed = 0;
  dropped_viewer_ids_empty = 0;
  dropped_sessions_empty_for_viewer = 0;
}

-- `last_logged_sec` is the static of `maybe_log_forwarding_rates`.
pub record StreamForwarder : Type 0 where
  pub cfg : StreamForwarderConfig
  pub streams : List (ℕ × StreamRegistration)
  pub subscriptions : List (ℕ × List ℕ)
  pub viewer_loops : Loops
  pub layer_filter : LayerFilter
  pub counters : Counters
  pub last_logged_sec : ℕ

unfoldable pub new : StreamForwarderConfig → ℕ → StreamForwarder
unfolding default_filter
new cfg last_logged_sec = record {
  cfg = cfg;
  streams = [];
  subscriptions = [];
  viewer_loops = [];
  layer_filter = default_filter;
  counters = no_counts;
  last_logged_sec = last_logged_sec;
}

unfoldable pub register_stream : StreamForwarder → ℕ → StreamRegistration → StreamForwarder
register_stream st stream_tag reg = record st { streams = insert stream_tag reg st.streams }

-- A set of users as a list with no user twice.
unfoldable pub add_user : ℕ → List ℕ → List ℕ
add_user user set = if contains set user then set else user ∷ set

unfoldable pub to_set : List ℕ → List ℕ
unfolding add_user
to_set [] = []
to_set (user ∷ rest) = add_user user (to_set rest)

unfoldable pub set_stream_subscribers : StreamForwarder → ℕ → List ℕ → StreamForwarder
unfolding to_set
set_stream_subscribers st stream_tag viewers = record st {
  subscriptions = insert stream_tag (to_set viewers) st.subscriptions;
}

abbrev pub subscribers : Option (List ℕ) → List ℕ
subscribers none = []
subscribers (some set) = set

unfoldable pub subscribe_viewer : StreamForwarder → ℕ → ℕ → StreamForwarder
unfolding add_user
subscribe_viewer st viewer stream_tag = record st {
  subscriptions =
      insert stream_tag (add_user viewer (subscribers (lookup stream_tag st.subscriptions)))
        st.subscriptions;
}

unfoldable pub unsubscribe_viewer : StreamForwarder → ℕ → ℕ → StreamForwarder
unsubscribe_viewer st viewer stream_tag = elim (lookup stream_tag st.subscriptions) [
  | none ↦ st
  | some set ↦ record st {
    subscriptions = insert stream_tag (retain (λ user. not (user == viewer)) set) st.subscriptions;
  }
]

unfoldable pub sender_for_stream : StreamForwarder → ℕ → Option ℕ
sender_for_stream st stream_tag = elim (lookup stream_tag st.streams) [
  | none ↦ none
  | some reg ↦ some reg.sender_id
]

unfoldable pub codec_for_stream : StreamForwarder → ℕ → Option ℕ
codec_for_stream st stream_tag = elim (lookup stream_tag st.streams) [
  | none ↦ none
  | some reg ↦ some reg.codec
]

unfoldable pub subscribers_for_stream : StreamForwarder → ℕ → List ℕ
subscribers_for_stream st stream_tag = subscribers (lookup stream_tag st.subscriptions)

unfoldable pub set_viewer_preferred_layer : StreamForwarder → ℕ → ℕ → ℕ → StreamForwarder
set_viewer_preferred_layer st stream_tag viewer layer_id = record st {
  layer_filter = LayerFilter.set_preferred_layer st.layer_filter stream_tag viewer layer_id;
}

unfoldable pub unregister_stream : StreamForwarder → ℕ → StreamForwarder
unregister_stream st stream_tag = record st {
  streams = remove stream_tag st.streams;
  subscriptions = remove stream_tag st.subscriptions;
  layer_filter = LayerFilter.remove_stream st.layer_filter stream_tag;
}

-- The counters start over when a second has passed since they were logged.
unfoldable pub maybe_log_forwarding_rates : StreamForwarder → ℕ → StreamForwarder
maybe_log_forwarding_rates st now_sec =
    if leb now_sec st.last_logged_sec
    then st
    else record st { counters = no_counts; last_logged_sec = now_sec }

-- `fetch_add(1)` on a counter of 64 bits.
abbrev pub bump : ℕ → ℕ
bump n = (n + 1) % 2 ^ 64

unfoldable pub count_outcome : EnqueueOutcome → Counters → Counters
count_outcome enqueued c = record c { forwarded_fragments = bump c.forwarded_fragments }
count_outcome queue_full c = record c { dropped_queue_full = bump c.dropped_queue_full }
count_outcome viewer_loop_closed c = record c {
  dropped_viewer_loop_closed = bump c.dropped_viewer_loop_closed;
}

-- What the forwarder asks of others, and which viewer loops end while it sends to them.
pub record Providers : Type 0 where
  pub get_sessions : ℕ → List ℕ
  pub list_viewers : ℕ → ℕ → List ℕ
  pub dies : ℕ × ℕ → Bool × Bool

-- The loop over the sessions of a viewer.
unfoldable pub forward_sessions :
    StreamForwarderConfig
    → Providers
    → ℕ
    → EnqueuedFragment
    → ℕ
    → List ℕ
    → Loops × Counters
    → Loops × Counters
unfolding enqueue_to_viewer count_outcome
forward_sessions cfg env now_ms fragment viewer [] (loops, c) = (loops, c)
forward_sessions cfg env now_ms fragment viewer (session ∷ rest) (loops, c) =
    let key : ℕ × ℕ = (viewer, session) in
    let (outcome, loops') = enqueue_to_viewer cfg loops key fragment now_ms (env.dies key) in
    forward_sessions cfg env now_ms fragment viewer rest (loops', count_outcome outcome c)

abbrev pub is_empty : List ℕ → Bool
is_empty [] = true
is_empty (x ∷ rest) = false

-- A viewer that is to have the fragment but has no session is counted.
abbrev pub count_sessions : List ℕ → Counters → Counters
count_sessions sessions c =
    if is_empty sessions
    then record c { dropped_sessions_empty_for_viewer = bump c.dropped_sessions_empty_for_viewer }
    else c

-- The loop over the viewers.
unfoldable pub forward_viewers :
    StreamForwarderConfig
    → Providers
    → LayerFilter
    → ℕ
    → EnqueuedFragment
    → List ℕ
    → Loops × Counters
    → Loops × Counters
unfolding forward_sessions should_forward
forward_viewers cfg env filter now_ms fragment [] (loops, c) = (loops, c)
forward_viewers cfg env filter now_ms fragment (viewer ∷ rest) (loops, c) =
    let hdr = fragment.hdr in
    let wanted = should_forward filter hdr.stream_tag viewer hdr.layer_id (is_priority hdr) in
    let sessions = env.get_sessions viewer in
    forward_viewers cfg env filter now_ms fragment rest (
      if wanted
      then forward_sessions cfg env now_ms fragment viewer sessions
          (loops, count_sessions sessions c)
      else (loops, c))

-- The subscribers of the stream; a stream that never had any goes to the viewers of its channel.
abbrev pub viewer_ids : StreamForwarder → Providers → ℕ → StreamRegistration → ℕ → List ℕ
viewer_ids st env sender reg stream_tag = elim (lookup stream_tag st.subscriptions) [
  | some set ↦ set
  | none ↦ env.list_viewers reg.channel_id sender
]

-- From the authorised registration on.
unfoldable pub forward :
    StreamForwarder → Providers → ℕ → ℕ → Bytes → VideoHeader → StreamRegistration → StreamForwarder
unfolding forward_viewers
forward st env sender now_ms datagram hdr reg =
    let viewers = viewer_ids st env sender reg hdr.stream_tag in
    let fragment : EnqueuedFragment = record {
      datagram = datagram;
      hdr = hdr;
      codec = reg.codec;
    } in
    let c = st.counters in
    let (loops, counters) =
      forward_viewers st.cfg env st.layer_filter now_ms fragment viewers (st.viewer_loops, c) in
    if is_empty viewers
    then record st {
      counters = record c { dropped_viewer_ids_empty = bump c.dropped_viewer_ids_empty };
    }
    else record st { viewer_loops = loops; counters = counters }

abbrev pub drop_malformed : StreamForwarder → StreamForwarder
drop_malformed st = record st {
  counters = record (st.counters) { dropped_malformed = bump st.counters.dropped_malformed };
}

abbrev pub drop_unauthorized : StreamForwarder → StreamForwarder
drop_unauthorized st = record st {
  counters = record (st.counters) { dropped_unauthorized = bump st.counters.dropped_unauthorized };
}

unfoldable pub handle_incoming_datagram :
    StreamForwarder → Providers → ℕ → Bytes → ℕ → ℕ → StreamForwarder
unfolding forward maybe_log_forwarding_rates
handle_incoming_datagram st env sender datagram now_ms now_sec =
    if ltb (length datagram) video_header_bytes || ltb st.cfg.max_datagram_bytes (length datagram)
    then maybe_log_forwarding_rates (drop_malformed st) now_sec
    else elim (parse datagram) [
      | none ↦ maybe_log_forwarding_rates (drop_malformed st) now_sec
      | some hdr ↦ elim (lookup hdr.stream_tag st.streams) [
        | none ↦ maybe_log_forwarding_rates (drop_unauthorized st) now_sec
        | some reg ↦
            if reg.sender_id == sender
            then maybe_log_forwarding_rates (forward st env sender now_ms datagram hdr reg) now_sec
            else maybe_log_forwarding_rates (drop_unauthorized st) now_sec
      ]
    ]
