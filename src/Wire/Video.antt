-- ===== src/Wire/Video.antt =====
-- client/src/net/video_datagram.rs, and the header parser of server/media/stream_forwarder.rs:
-- the 24-byte header of a video fragment. A field of n bits is a number, below 2 ^ n in what
-- `parse` returns.
pub mod RoundTrip
pub mod Exact
use Prim.Native.Nat.{bit_and}
use tsod.Prelude.{
  ℕ, ◌+◌, ◌≤◌, ◌<◌, ◌^◌, Bool, true, false, not, ◌||◌, Option, none, some, List, [], ◌∷◌, ◌++◌,
  if◌then◌else◌, ltb, leb, ◌==◌, length, get_or, drop, Bytes, to_le, from_le,
}
use tsod.Wire.Limits.{
  video_version, datagram_kind_video, max_frags_per_frame, video_header_bytes, video_flag_keyframe,
  video_flag_recovery, video_flag_end_of_frame, max_video_payload_bytes,
}

unfoldable pub video_payload_fits : ℕ → Bool
video_payload_fits payload_len = leb payload_len max_video_payload_bytes

pub record VideoHeader : Type 0 where
  pub stream_tag : ℕ
  pub layer_id : ℕ
  pub flags : ℕ
  pub frame_seq : ℕ
  pub frag_idx : ℕ
  pub frag_total : ℕ
  pub ts_ms : ℕ

has_flag : ℕ → VideoHeader → Bool
has_flag flag hdr = not (bit_and hdr.flags flag == 0)

unfoldable pub is_keyframe : VideoHeader → Bool
unfolding has_flag
is_keyframe hdr = has_flag video_flag_keyframe hdr

unfoldable pub is_recovery : VideoHeader → Bool
unfolding has_flag
is_recovery hdr = has_flag video_flag_recovery hdr

unfoldable pub is_end_of_frame : VideoHeader → Bool
unfolding has_flag
is_end_of_frame hdr = has_flag video_flag_end_of_frame hdr

unfoldable pub is_priority : VideoHeader → Bool
unfolding is_keyframe is_recovery
is_priority hdr = is_keyframe hdr || is_recovery hdr

-- `buf[i]`; every index that `parse` reads is below the length that it has checked.
abbrev at : Bytes → ℕ → ℕ
at buf i = get_or buf i 0

-- The fields of a header, as they lie in the first 24 bytes.
unfoldable pub read_header : Bytes → VideoHeader
read_header buf = record {
  stream_tag =
      from_le (
        at buf 2 ∷ at buf 3 ∷ at buf 4 ∷ at buf 5 ∷ at buf 6 ∷ at buf 7 ∷ at buf 8 ∷ at buf 9 ∷ []);
  layer_id = at buf 10;
  flags = at buf 11;
  frame_seq = from_le (at buf 12 ∷ at buf 13 ∷ at buf 14 ∷ at buf 15 ∷ []);
  frag_idx = from_le (at buf 16 ∷ at buf 17 ∷ []);
  frag_total = from_le (at buf 18 ∷ at buf 19 ∷ []);
  ts_ms = from_le (at buf 20 ∷ at buf 21 ∷ at buf 22 ∷ at buf 23 ∷ []);
}

-- The validation of the fragment fields.
fragment_is_invalid : VideoHeader → Bool
fragment_is_invalid hdr =
    hdr.frag_total == 0 || ltb max_frags_per_frame hdr.frag_total || leb hdr.frag_total hdr.frag_idx

unfoldable pub parse : Bytes → Option VideoHeader
unfolding fragment_is_invalid
parse buf =
    if ltb (length buf) video_header_bytes
    then none
    else if not (at buf 0 == video_version)
    then none
    else if not (at buf 1 == datagram_kind_video)
    then none
    else if fragment_is_invalid (read_header buf)
    then none
    else some (read_header buf)

-- `write_header_into` appends to `buf`.
unfoldable pub write_header_into : Bytes → VideoHeader → Bytes
write_header_into buf hdr =
    buf
    ++ (video_version ∷ datagram_kind_video ∷ to_le 8 hdr.stream_tag
        ++ (hdr.layer_id ∷ hdr.flags ∷ to_le 4 hdr.frame_seq
            ++ (to_le 2 hdr.frag_idx ++ (to_le 2 hdr.frag_total ++ to_le 4 hdr.ts_ms))))

unfoldable pub make_video_datagram : VideoHeader → Bytes → Bytes
unfolding write_header_into
make_video_datagram hdr payload = write_header_into [] hdr ++ payload

-- `buf.clear()`
clear : Bytes → Bytes
clear buf = []

-- The datagram, and the buffer that `split` leaves behind for reuse.
unfoldable pub write_video_datagram_into : Bytes → VideoHeader → Bytes → Bytes × Bytes
unfolding write_header_into clear
write_video_datagram_into buf hdr payload = (write_header_into (clear buf) hdr ++ payload, [])

unfoldable pub video_payload : Bytes → Bytes
video_payload buf = if leb (length buf) video_header_bytes then [] else drop video_header_bytes buf

-- What a sender may put into a header: each field fits its width, and the fragment lies in its
-- frame.
pub record IsWellFormed (hdr : VideoHeader) : Type 0 where
  pub tag_fits : hdr.stream_tag < 2 ^ 64
  pub layer_fits : hdr.layer_id < 2 ^ 8
  pub flags_fit : hdr.flags < 2 ^ 8
  pub seq_fits : hdr.frame_seq < 2 ^ 32
  pub ts_fits : hdr.ts_ms < 2 ^ 32
  pub has_fragments : 1 ≤ hdr.frag_total
  pub within_cap : hdr.frag_total ≤ max_frags_per_frame
  pub in_frame : hdr.frag_idx < hdr.frag_total
