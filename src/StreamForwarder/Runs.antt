-- ===== src/StreamForwarder/Runs.antt =====
-- Runs of the forwarder on a concrete stream, and the theorems at concrete inputs.
use tsod.Prelude.{sym, ap, ◌∙◌, ◌-◌, ◌≤◌, ◌↔◌, ◌≡◌, ◌≢◌, refl, false, some, [], ◌∷◌, arith, Bytes}
use tsod.Prelude.Maps.{lookup, insert, nat_key, pair_key}
use tsod.Wire.Video.{VideoHeader, parse, read_header, is_priority}
use tsod.LayerFilter.{should_forward, preferred_layer}
use tsod.StreamForwarder.ViewerLoops.{
  StreamForwarderConfig, Loops, ViewerLoopEntry, EnqueuedFragment, spawn_viewer_loop,
  enqueue_to_viewer, cleanup_stale_viewers, attempt_send, get_or_spawn_viewer_loop_handle,
}
use tsod.StreamForwarder.Enqueue.{waits}
use tsod.StreamForwarder.Fanout.{filled}
use tsod.StreamForwarder.Forwarding.{handle_unauthorized}
use tsod.StreamForwarder.Addressing.{unsubscribed_skipped}
use tsod.StreamForwarder.Subscribers.{subscribers_served}
use tsod.StreamForwarder.Reachable.{
  Reachable, start, next, sent, IsValid, AllValid, Reachable-IsValid, reachable_cleaned,
}
use tsod.StreamForwarder.Validity.{handle_incoming_datagram-AllValid}
use tsod.StreamForwarder.{
  StreamRegistration, StreamForwarder, Providers, no_counts, sender_for_stream,
  set_stream_subscribers, unsubscribe_viewer, handle_incoming_datagram,
}

abbrev cfg : StreamForwarderConfig
cfg = record {
  max_datagram_bytes = 1200;
  per_viewer_queue_fragments = 8;
  per_viewer_max_frames = 4;
}

-- User 9 sends stream 1, which user 5 has subscribed to.
abbrev reg : StreamRegistration
reg = record { sender_id = 9; channel_id = 3; codec = 2 }

abbrev forwarder : StreamForwarder
forwarder = record {
  cfg = cfg;
  streams = (1, reg) ∷ [];
  subscriptions = (1, 5 ∷ 6 ∷ []) ∷ [];
  viewer_loops = [];
  layer_filter = record { preferred_by_viewer = [] };
  counters = no_counts;
  last_logged_sec = 0;
}

-- Every user has two sessions.
abbrev env : Providers
env = record {
  get_sessions = λ user. 100 ∷ 101 ∷ [];
  list_viewers = λ channel sender. [];
  dies = λ key. (false, false);
}

abbrev hdr : VideoHeader
hdr = record {
  stream_tag = 1;
  layer_id = 0;
  flags = 0;
  frame_seq = 7;
  frag_idx = 0;
  frag_total = 2;
  ts_ms = 1000;
}

abbrev datagram : Bytes
datagram =
    2 ∷ 2 ∷ 1 ∷ 0 ∷ 0 ∷ 0 ∷ 0 ∷ 0 ∷ 0 ∷ 0 ∷ 0 ∷ 0 ∷ 7 ∷ 0 ∷ 0 ∷ 0 ∷ 0 ∷ 0 ∷ 2 ∷ 0 ∷ 232 ∷ 3 ∷ 0 ∷ 0
    ∷ 42 ∷ []

parse-datagram : parse datagram ≡ some hdr
unfolding parse read_header
parse-datagram = refl

abbrev fragment : EnqueuedFragment
fragment = record { datagram = datagram; hdr = hdr; codec = 2 }

registered : lookup 1 forwarder.streams ≡ some reg
unfolding lookup
registered = refl

subscribers_served_example :
    waits
      (handle_incoming_datagram
        (set_stream_subscribers forwarder 1 (5 ∷ []))
        env
        9
        datagram
        0
        0).viewer_loops
      (5, 100)
    ≡ filled cfg fragment 1 (waits forwarder.viewer_loops (5, 100))
unfolding should_forward preferred_layer lookup is_priority
subscribers_served_example =
    subscribers_served forwarder env datagram 0 0 hdr reg (5 ∷ []) 5 100 (λ key. refl)
      parse-datagram (omega arith) registered

stranger :
    (h : VideoHeader) → parse datagram ≡ some h → sender_for_stream forwarder h.stream_tag ≢ some 4
unfolding sender_for_stream lookup
stranger h parsed known =
    let same : some hdr ≡ some h = sym parse-datagram ∙ parsed in
    let at : hdr ≡ h = cc same in
    let owner : some reg.sender_id ≡ some 4 =
      ap (λ x. sender_for_stream forwarder x.stream_tag) at ∙ known in
    let nine_is_four : reg.sender_id ≡ 4 = cc owner in omega (arith, nine_is_four)

handle_unauthorized_example :
    (handle_incoming_datagram forwarder env 4 datagram 0 0).viewer_loops ≡ []
handle_unauthorized_example = handle_unauthorized forwarder env 4 datagram 0 0 stranger

subscribed : lookup 1 forwarder.subscriptions ≡ some (5 ∷ 6 ∷ [])
unfolding lookup
subscribed = refl

unsubscribed_skipped_example :
    waits
      (handle_incoming_datagram (unsubscribe_viewer forwarder 5 1) env 9 datagram 0 0).viewer_loops
      (5, 100)
    ≡ waits forwarder.viewer_loops (5, 100)
unsubscribed_skipped_example =
    unsubscribed_skipped forwarder env 9 datagram 0 0 hdr 5 100 (5 ∷ 6 ∷ []) (λ key. refl)
      parse-datagram subscribed

plain : is_priority hdr ≡ false
unfolding is_priority
plain = refl

-- One fragment has been enqueued for session 100 of user 5.
abbrev one_loop : Loops
one_loop = (enqueue_to_viewer cfg [] (5, 100) fragment 10 (false, false)).1

one_loop-Reachable : Reachable cfg one_loop
one_loop-Reachable = next [] one_loop start (sent [] (5, 100) fragment 10 (false, false))

abbrev entry : ViewerLoopEntry
entry = record (spawn_viewer_loop cfg 10) { channel = fragment ∷ [] }

found : lookup (5, 100) one_loop ≡ some entry
unfolding enqueue_to_viewer attempt_send get_or_spawn_viewer_loop_handle lookup insert
    spawn_viewer_loop
found = refl

Reachable-IsValid_example : IsValid cfg entry
Reachable-IsValid_example = Reachable-IsValid cfg one_loop (5, 100) entry one_loop-Reachable found

reachable_cleaned_example :
    (lookup (5, 100) (cleanup_stale_viewers one_loop 1000 500) ≡ some entry) ↔ (
      (lookup (5, 100) one_loop ≡ some entry)
      × (1000 - entry.last_activity_ms ≤ 500)
      × (entry.finished ≡ false)
      × (entry.closed ≡ false))
reachable_cleaned_example =
    reachable_cleaned cfg one_loop 1000 500 (5, 100) entry one_loop-Reachable

handle_incoming_datagram-AllValid_example :
    AllValid cfg (handle_incoming_datagram forwarder env 9 datagram 20 0).viewer_loops
handle_incoming_datagram-AllValid_example =
    handle_incoming_datagram-AllValid forwarder env 9 datagram 20 0
      (record { unique = tt; valid = tt })
