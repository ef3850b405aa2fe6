-- ===== src/Wire/Video/RoundTrip.antt =====
-- What the client writes as a video datagram, read back.
use tsod.Prelude.{
  ℕ, zero, suc, ◌+◌, ◌≤◌, ◌≡◌, refl, ◌∙◌, some, [], ◌∷◌, arith, length, get_or, drop, Bytes,
  from_le-to_le_2, from_le-to_le_4, from_le-to_le_8,
}
use tsod.Wire.Video.{VideoHeader, IsWellFormed, parse, make_video_datagram, video_payload}
use tsod.Wire.Video

-- The reader of the fields undoes the writer of the fields.
read_header-make_video_datagram :
    (hdr : VideoHeader) (payload : Bytes)
    → IsWellFormed hdr
    → Video.read_header (make_video_datagram hdr payload) ≡ hdr
unfolding Video.read_header make_video_datagram
read_header-make_video_datagram hdr payload w = ground (
  arith,
  from_le-to_le_8 hdr.stream_tag w.tag_fits,
  from_le-to_le_4 hdr.frame_seq w.seq_fits,
  from_le-to_le_4 hdr.ts_ms w.ts_fits,
  from_le-to_le_2 hdr.frag_idx (omega arith),
  from_le-to_le_2 hdr.frag_total (omega arith),
)

length-make_video_datagram :
    (hdr : VideoHeader) (payload : Bytes)
    → length (make_video_datagram hdr payload) ≡ 24 + length payload
unfolding make_video_datagram
length-make_video_datagram hdr payload = omega arith

make_video_datagram_tags :
    (hdr : VideoHeader) (payload : Bytes)
    → (get_or (make_video_datagram hdr payload) 0 0 ≡ 2)
      × (get_or (make_video_datagram hdr payload) 1 0 ≡ 2)
unfolding make_video_datagram
make_video_datagram_tags hdr payload = (refl, refl)

drop-make_video_datagram :
    (hdr : VideoHeader) (payload : Bytes) → drop 24 (make_video_datagram hdr payload) ≡ payload
unfolding make_video_datagram
drop-make_video_datagram hdr payload = refl

-- No payload at all: `video_payload` then answers with the empty slice before it would index.
drop_all : (n : ℕ) (buf : Bytes) → length buf ≤ n → drop n buf ≡ []
drop_all zero [] h = refl
drop_all zero (x ∷ xs) h = absurd (omega arith)
drop_all (suc n) [] h = refl
drop_all (suc n) (x ∷ xs) h = drop_all n xs (omega arith)

pub video_payload-eq-drop : (buf : Bytes) → video_payload buf ≡ drop 24 buf
unfolding video_payload
video_payload-eq-drop buf = ground (arith, drop_all 24 buf)

-- A well-formed header and any payload, made into a datagram, parse back to that header and that
-- payload; the datagram is 24 bytes longer than the payload.
pub parse-make_video_datagram :
    (hdr : VideoHeader) (payload : Bytes)
    → IsWellFormed hdr
    → (parse (make_video_datagram hdr payload) ≡ some hdr)
      × (video_payload (make_video_datagram hdr payload) ≡ payload)
      × (length (make_video_datagram hdr payload) ≡ 24 + length payload)
unfolding parse
parse-make_video_datagram hdr payload w = (
  ground (
    arith,
    length-make_video_datagram hdr payload,
    make_video_datagram_tags hdr payload,
    read_header-make_video_datagram hdr payload w,
  ),
  video_payload-eq-drop _ ∙ drop-make_video_datagram hdr payload,
  length-make_video_datagram hdr payload,
)
