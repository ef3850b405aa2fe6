-- ===== src/Wire/Runs.antt =====
-- Concrete datagrams, and the theorems on the formats at concrete inputs.
use tsod.Prelude.{
  ℕ, ◌+◌, ◌++◌, replicate, ◌≤◌, ◌≡◌, refl, true, Option, none, some, [], ◌∷◌, arith, length, Bytes,
}
use tsod.Wire.Limits.{outbound_payload_fits}
use tsod.Wire.Voice.{UuidLibrary, VoicePacket, make_voice_datagram}
use tsod.Wire.Voice.Forwarding.{IsUuidLibrary, relay, relay-make_voice_datagram}
use tsod.Wire.Frame.{read_delimited, write_delimited}
use tsod.Wire.Frame.Delimited.{read_delimited-write_delimited}
use tsod.Wire.Video.{
  VideoHeader, IsWellFormed, parse, read_header, make_video_datagram, video_payload,
}
use tsod.Wire.Video.RoundTrip.{parse-make_video_datagram}
use tsod.Wire.Video.Exact.{make_video_datagram-parse}

abbrev keyframe : VideoHeader
keyframe = record {
  stream_tag = 0xDEADBEEF_CAFEBABE;
  layer_id = 2;
  flags = 5;
  frame_seq = 42;
  frag_idx = 0;
  frag_total = 3;
  ts_ms = 12345;
}

abbrev hello : Bytes
hello = 104 ∷ 101 ∷ 108 ∷ 108 ∷ 111 ∷ []

parse-keyframe : parse (make_video_datagram keyframe hello) ≡ some keyframe
unfolding parse read_header make_video_datagram
parse-keyframe = refl

parse-make_video_datagram_example :
    (parse (make_video_datagram keyframe hello) ≡ some keyframe)
    × (video_payload (make_video_datagram keyframe hello) ≡ hello)
    × (length (make_video_datagram keyframe hello) ≡ 24 + 5)
parse-make_video_datagram_example = parse-make_video_datagram keyframe hello (omega arith)

abbrev datagram : Bytes
datagram =
    2 ∷ 2 ∷ 7 ∷ 0 ∷ 0 ∷ 0 ∷ 0 ∷ 0 ∷ 0 ∷ 0 ∷ 1 ∷ 4 ∷ 9 ∷ 0 ∷ 0 ∷ 0 ∷ 2 ∷ 0 ∷ 3 ∷ 0 ∷ 100 ∷ 0 ∷ 0 ∷ 0
    ∷ 255 ∷ []

abbrev last_fragment : VideoHeader
last_fragment = record {
  stream_tag = 7;
  layer_id = 1;
  flags = 4;
  frame_seq = 9;
  frag_idx = 2;
  frag_total = 3;
  ts_ms = 100;
}

parse-datagram : parse datagram ≡ some last_fragment
unfolding parse read_header
parse-datagram = refl

make_video_datagram-parse_example :
    IsWellFormed last_fragment
    × (make_video_datagram last_fragment (video_payload datagram) ≡ datagram)
make_video_datagram-parse_example = make_video_datagram-parse datagram (omega arith) parse-datagram

-- Identifiers of sixteen bytes.
record SixteenBytes : Type 0 where
  b0 : ℕ
  b1 : ℕ
  b2 : ℕ
  b3 : ℕ
  b4 : ℕ
  b5 : ℕ
  b6 : ℕ
  b7 : ℕ
  b8 : ℕ
  b9 : ℕ
  b10 : ℕ
  b11 : ℕ
  b12 : ℕ
  b13 : ℕ
  b14 : ℕ
  b15 : ℕ

abbrev sixteen_from_slice : Bytes → Option SixteenBytes
sixteen_from_slice
      (b0 ∷ b1 ∷ b2 ∷ b3 ∷ b4 ∷ b5 ∷ b6 ∷ b7 ∷ b8 ∷ b9 ∷ b10 ∷ b11 ∷ b12 ∷ b13 ∷ b14 ∷ b15 ∷ []) =
    some (record {
      b0 = b0;
      b1 = b1;
      b2 = b2;
      b3 = b3;
      b4 = b4;
      b5 = b5;
      b6 = b6;
      b7 = b7;
      b8 = b8;
      b9 = b9;
      b10 = b10;
      b11 = b11;
      b12 = b12;
      b13 = b13;
      b14 = b14;
      b15 = b15;
    })
sixteen_from_slice _ = none

abbrev sixteen_bytes : UuidLibrary SixteenBytes
sixteen_bytes = record {
  as_bytes = λ u.
      u.b0 ∷ u.b1 ∷ u.b2 ∷ u.b3 ∷ u.b4 ∷ u.b5 ∷ u.b6 ∷ u.b7 ∷ u.b8 ∷ u.b9 ∷ u.b10 ∷ u.b11 ∷ u.b12
      ∷ u.b13 ∷ u.b14 ∷ u.b15 ∷ [];
  from_slice = sixteen_from_slice;
}

sixteen_bytes-IsUuidLibrary : IsUuidLibrary sixteen_bytes
sixteen_bytes-IsUuidLibrary = record { sixteen = λ u. refl; reads_back = λ u. refl }

abbrev speaker : SixteenBytes
speaker = record {
  b0 = 0;
  b1 = 1;
  b2 = 2;
  b3 = 3;
  b4 = 4;
  b5 = 5;
  b6 = 6;
  b7 = 7;
  b8 = 8;
  b9 = 9;
  b10 = 10;
  b11 = 11;
  b12 = 12;
  b13 = 13;
  b14 = 14;
  b15 = 15;
}

abbrev room : SixteenBytes
room = record {
  b0 = 255;
  b1 = 254;
  b2 = 253;
  b3 = 252;
  b4 = 251;
  b5 = 250;
  b6 = 249;
  b7 = 248;
  b8 = 247;
  b9 = 246;
  b10 = 245;
  b11 = 244;
  b12 = 243;
  b13 = 242;
  b14 = 241;
  b15 = 240;
}

hello_fits : outbound_payload_fits (length hello) ≡ true
unfolding outbound_payload_fits
hello_fits = refl

spoken_length : 20 ≤ length (make_voice_datagram 77 5 9 100 true hello)
unfolding make_voice_datagram
spoken_length = omega arith

relay-make_voice_datagram_example :
    relay sixteen_bytes 1200 speaker room (make_voice_datagram 77 5 9 4_000_000_000 true hello)
    ≡ some (record {
      sender_user_id = some speaker;
      channel_id = some room;
      ssrc = 5;
      seq = 9;
      ts_ms = 4_000_000_000;
      payload = hello;
    })
relay-make_voice_datagram_example =
    relay-make_voice_datagram sixteen_bytes sixteen_bytes-IsUuidLibrary 1200 speaker room 77 5 9
      4_000_000_000 true hello (omega arith) (omega arith) (omega arith) (omega arith) (omega arith)
      hello_fits (omega arith)

abbrev spoken : VoicePacket
spoken = record { flags = 1; channel_route = 77; ssrc = 5; seq = 9; ts_ms = 100; vad = true }

-- A message is its own bytes, of which there are two hundred.
abbrev long_message : Bytes
long_message = replicate 200 7

read_delimited-write_delimited_example :
    (written : Bytes) × (write_delimited (λ m. m) long_message ≡ some written)
    × (length written ≤ 10 + length long_message)
    × (read_delimited some 1000 (written ++ (5 ∷ [])) ≡ some (long_message, 5 ∷ []))
read_delimited-write_delimited_example =
    read_delimited-write_delimited (λ m. m) some (λ m. refl) 1000 long_message (5 ∷ [])
      (omega arith) (omega arith) (omega arith)
