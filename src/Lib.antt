-- ===== src/Lib.antt =====
-- Models and theorems of TSOD, a voice and screen-share client with its gateway servers.
--
-- A sender cuts an encoded video frame into datagrams; the gateway's media layer checks each header
-- and queues the fragment for every viewer session, from which a task sends in bursts; the receiver
-- puts frames together again. Voice packets pass a bounded overwrite queue in the gateway, whose
-- consumer drops what has become stale, and a jitter buffer in the client, which hands frames to
-- the decoder by their sequence numbers.
--
-- - Prelude: names passed on from the libraries, Boolean tests, lists over native numbers, byte
--   encodings of fixed width; Maps has a `HashMap` as a list of entries, Keys
--   lists of keys with no key twice.
-- - Wire.Limits: shared/voice/src/lib.rs, its constants in lower case.
-- - Wire.Video: client/src/net/video_datagram.rs, and the header parser of
--   server/media/stream_forwarder.rs, which reads the same bytes by the same checks. A `Bytes` or
--   `BytesMut` is the list of its bytes. RoundTrip and Exact relate writer and parser.
-- - Wire.Voice: client/src/net/voice_datagram.rs, `VoicePacket::parse` and
--   `build_forwarded_voice_datagram` of server/media/voice_forwarder.rs, `parse_voice_payload` of
--   client/src/main.rs. The uuid library is an argument, with its laws in Forwarding.
-- - Wire.Frame: server/gateway/src/frame.rs and client/src/net/frame.rs, messages behind a varint of
--   their length. The loops take the ten places of the buffer as fuel, enough for 64 bits.
-- - VideoTransport: client/src/net/video_transport.rs. Sender is the packetizer, whose pacer is an
--   argument; Slot the reassembly slot of a frame with its bit mask; Receiver the bounded set of
--   slots, its loop a recursion on them. Delivery composes sender, wire format and receiver.
-- - ViewerQueue: `ViewerQueue` of server/media/stream_forwarder.rs, one function for each method;
--   the loop of `push` is `evict_loop` on fuel, one more than the tracked frames, of which every
--   round removes one. Frames and Eviction hold the lemmas, Invariant, Push and Drops the results.
-- - LayerFilter: server/media/layer_filter.rs.
-- - StreamForwarder: `StreamForwarder` of server/media/stream_forwarder.rs. ViewerLoops holds the
--   entries of the viewer loops, their channels and tasks; which tasks end, the sessions and the
--   viewers are arguments. Enqueue and Fanout follow a fragment, Reachable has the steps of the
--   viewer loops as a relation, Validity has the invariant for a whole datagram.
-- - OverwriteQueue: server/gateway/src/overwrite_queue.rs. An operation under the mutex is one step;
--   `voice_pass` is one pass of the loop of `pop_voice_realtime`, which takes fuel; more fuel than
--   queued packets is enough, as a pass that repeats has dropped one. The clock's readings are
--   arguments.
-- - VoiceForwarder: the rate buckets and the talker sets of server/media/voice_forwarder.rs, for one
--   stream and one channel; Incoming is `handle_incoming`, with the maps of both. What a refill gains
--   is computed in floats and is an argument, as are membership, sessions and the clock.
-- - SharePolicy: server/gateway/src/screenshare_policy.rs and
--   client/src/screen_share/policy/layer_selection.rs; Recovery is recovery.rs beside it. The tests
--   of float rates are arguments.
-- - SendPolicy: server/media/datagram_send_policy.rs, and Pruner `process_one` of
--   server/gateway/src/prune.rs. What the connection answers is an argument. Race interleaves a
--   request with the pruner as a step relation on their atomic accesses.
-- - Jitter: client/src/audio/jitter.rs. The BTreeMap is the list of its entries (Jitter/Entries).
-- - Egress: client/src/net/egress.rs. FrameQueue is its `VideoFrameQueue`, whose loops take fuel, the
--   number of frames in the order, of which every round removes one; Scheduler is `EgressScheduler`,
--   with a round of `egress_loop` as a function of what the connection, the clock and the token
--   bucket say. The queue of server/gateway/src/egress.rs is a near copy of it.
-- - Gateway: what the gateway's tasks share, server/gateway/src/state.rs, and
--   shared/route-hash/src/lib.rs. Sessions is `SessionMap` (Interleaved puts a registration between two
--   steps of `unregister`), Membership `MembershipCache`, whose Voice gives it to the voice forwarder,
--   Streams `StreamSessionRegistry`, Push `PushHub`, RouteHash the hash of a channel's uuid, Share
--   server/gateway/src/screenshare.rs.
-- - A module Runs holds concrete runs, and the results applied to concrete inputs.
--
-- Integers are natural numbers, with wrap-around and saturation written out where the source has
-- them; a count of what is in memory, a `usize`, is exact. Not modelled: the network, tokio's scheduler and its `Notify`, codecs, devices and the user
-- interface, and the other parts of the media and control servers.
pub mod Prelude
pub mod Wire
pub mod SendPolicy
pub mod VideoTransport
pub mod ViewerQueue
pub mod LayerFilter
pub mod StreamForwarder
pub mod VoiceForwarder
pub mod SharePolicy
pub mod OverwriteQueue
pub mod Jitter
pub mod Egress
pub mod Gateway
