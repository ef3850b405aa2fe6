-- ===== src/VideoTransport/Runs.antt =====
-- A frame sent and received on concrete input, and the theorems at concrete inputs.
use tsod.Prelude.{
  ℕ, zero, suc, ◌+◌, ◌≤◌, ◌<◌, ◌≡◌, ◌≢◌, refl, true, false, none, List, [], ◌∷◌, ◌++◌, arith,
  contains, length, All, Bytes, ◌⊎◌,
}
use tsod.Wire.Video.{make_video_datagram, write_video_datagram_into}
use tsod.VideoTransport.Sender.{
  Pacing, VideoSender, send_frame, sent, failed, frame_too_large, emit_fragments, header, payloads,
  chunks, chunks_fuel,
}
use tsod.VideoTransport.Receiver.{VideoReceiver}
use tsod.VideoTransport.Slot.{FrameSlot, insert}
use tsod.VideoTransport.Slot
use tsod.VideoTransport.Slot.Insert.{Inserted, insert-Inserted, new-IsSound}
use tsod.VideoTransport.Sender.Success.{send_frame_outcome}
use tsod.VideoTransport.Receiver.Reassembly.{receive_all, numbers}
use tsod.VideoTransport.Delivery.{IsReady, picked, receive_all-send_frame}

-- A pacer that counts the bytes.
abbrev counting : Pacing ℕ
counting = record {
  start = λ policy mtu. 0;
  set_policy = λ pacer policy mtu. pacer;
  acquire = λ pacer bytes. pacer + bytes;
}

-- Two bytes of payload go into a datagram.
abbrev sender : VideoSender ℕ
sender = record {
  stream_tag = 7;
  layer_id = 1;
  frame_seq = 41;
  pool = record { pool = []; max_pooled = 4 };
  max_payload = 2;
  max_frame_bytes = 1024;
  max_frags_per_frame = 512;
  pacer = 0;
  pacing_enabled = true;
  force_recovery_next_frame = true;
  last_recovery_request_at = none;
}

abbrev encoded : Bytes
encoded = 10 ∷ 20 ∷ 30 ∷ 40 ∷ 50 ∷ []

after : VideoSender ℕ
unfolding send_frame emit_fragments header payloads chunks_fuel
after = (send_frame counting sender 1000 true encoded).0

abbrev receiver : VideoReceiver
receiver = record {
  slots = [];
  free_slots = [];
  max_slots = 2;
  max_frags_per_frame = 512;
  incomplete_frame_timeout = 750;
  stats = record { incomplete_evictions_capacity = 0; incomplete_evictions_timeout = 0 };
  recent_incomplete_evictions = [];
}

abbrev fragment : ℕ → ℕ → Bytes → Bytes
fragment flags i chunk =
    make_video_datagram
      (record {
        stream_tag = 7;
        layer_id = 1;
        flags = flags;
        frame_seq = 41;
        frag_idx = i;
        frag_total = 3;
        ts_ms = 1000;
      })
      chunk

abbrev datagrams : List Bytes
datagrams = fragment 3 0 (10 ∷ 20 ∷ []) ∷ fragment 3 1 (30 ∷ 40 ∷ []) ∷ fragment 7 2 (50 ∷ []) ∷ []

sender_sends : send_frame counting sender 1000 true encoded ≡ (after, sent datagrams)
unfolding send_frame emit_fragments header payloads chunks_fuel after write_video_datagram_into
    make_video_datagram chunks
sender_sends = refl

sender-IsReady : IsReady sender
sender-IsReady = omega arith

-- The last fragment comes first, the first one twice.
abbrev early : List (ℕ × ℕ)
early = (500, 2) ∷ (510, 0) ∷ (900, 0) ∷ []

others_came : (j : ℕ) → j < 3 → j ≢ 1 → contains (numbers early) j ≡ true
others_came zero h o = refl
others_came (suc zero) h o = absurd (o refl)
others_came (suc (suc zero)) h o = refl
others_came (suc (suc (suc j))) h o = absurd (omega arith)

receive_all-send_frame_example :
    (receive_all receiver (picked datagrams (early ++ ((1200, 1) ∷ [])))).1
    ≡ record {
      stream_tag = 7;
      layer_id = 1;
      frame_seq = 41;
      ts_ms = 1000;
      is_keyframe = true;
      is_recovery = true;
      payload = encoded;
      fragments = payloads 2 encoded;
    }
      ∷ []
receive_all-send_frame_example =
    receive_all-send_frame counting sender after 1000 true encoded sender-IsReady (omega arith)
      sender_sends receiver 500 750 early 1200 1 refl (omega arith) tt (omega arith) refl
      others_came

abbrev empty_slot : FrameSlot
unfolding Slot.new
empty_slot =
    Slot.new (record { stream_tag = 7; frame_seq = 41; layer_id = 1 }) 70 true false 1000 500

-- Fragment 65 stands in the second word of the mask.
second_word : (insert empty_slot 65 (9 ∷ [])).1.received_mask ≡ 0 ∷ 2 ∷ []
unfolding insert empty_slot
second_word = refl

insert-Inserted_example :
    Inserted empty_slot 65
      (9 ∷ [])
      (insert empty_slot 65 (9 ∷ [])).0
      (insert empty_slot 65 (9 ∷ [])).1
unfolding empty_slot
insert-Inserted_example = insert-Inserted empty_slot 65 (9 ∷ []) (
    new-IsSound (record { stream_tag = 7; frame_seq = 41; layer_id = 1 }) 70 true false 1000 500
      (omega arith))

send_frame_outcome_example :
    ((datagrams : List Bytes) × ((send_frame counting sender 1000 true encoded).1 ≡ sent datagrams)
      × (length encoded ≤ 1024)
      × (length datagrams ≡ length (payloads 2 encoded))
      × All (λ d. length d ≤ 2 + 24) datagrams)
    ⊎ (((send_frame counting sender 1000 true encoded).1 ≡ failed frame_too_large)
        × (1024 < length encoded)
        × ((send_frame counting sender 1000 true encoded).0
            ≡ record sender { force_recovery_next_frame = true }))
send_frame_outcome_example =
    send_frame_outcome counting sender 1000 true encoded (omega arith) (omega arith) refl
