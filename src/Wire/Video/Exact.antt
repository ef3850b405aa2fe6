-- ===== src/Wire/Video/Exact.antt =====
-- What `parse` accepts is exactly what a sender can write.
use tsod.Prelude.{
  ℕ, ◌≤◌, ◌<◌, ◌^◌, ◌≡◌, sym, ap, ◌∙◌, some, [], ◌∷◌, ◌++◌, arith, length, get_or, All, Bytes,
  IsByte, to_le, from_le, to_le-from_le, cells, drop-eq-cells, All-get_or,
}
use tsod.Wire.Video.{
  VideoHeader, IsWellFormed, read_header, parse, make_video_datagram, video_payload,
}
use tsod.Wire.Video.RoundTrip.{video_payload-eq-drop}

-- Writing the fields that were read gives back the 24 bytes of the header.
make_video_datagram-read_header :
    (buf payload : Bytes)
    → All IsByte buf
    → get_or buf 0 0 ≡ 2
    → get_or buf 1 0 ≡ 2
    → make_video_datagram (read_header buf) payload ≡ cells 0 24 buf ++ payload
unfolding make_video_datagram read_header
make_video_datagram-read_header buf payload h v k = λ i.
    sym v i
      ∷ sym k i
      ∷ (tag i ++ (get_or buf 10 0 ∷ get_or buf 11 0 ∷ seq i ++ (idx i ++ (total i ++ ts i))))
    ++ payload
  where
    byte : (i : ℕ) → get_or buf i 0 < 256
    byte i = All-get_or buf i h

    tag :
        to_le 8 (
          from_le (
            get_or buf 2 0
            ∷ get_or buf 3 0
            ∷ get_or buf 4 0
            ∷ get_or buf 5 0
            ∷ get_or buf 6 0
            ∷ get_or buf 7 0
            ∷ get_or buf 8 0
            ∷ get_or buf 9 0
            ∷ []))
        ≡ get_or buf 2 0
          ∷ get_or buf 3 0
          ∷ get_or buf 4 0
          ∷ get_or buf 5 0
          ∷ get_or buf 6 0
          ∷ get_or buf 7 0
          ∷ get_or buf 8 0
          ∷ get_or buf 9 0
          ∷ []
    tag =
        to_le-from_le _
          (byte 2, (byte 3, (byte 4, (byte 5, (byte 6, (byte 7, (byte 8, (byte 9, tt))))))))

    seq :
        to_le 4
          (from_le (get_or buf 12 0 ∷ get_or buf 13 0 ∷ get_or buf 14 0 ∷ get_or buf 15 0 ∷ []))
        ≡ get_or buf 12 0 ∷ get_or buf 13 0 ∷ get_or buf 14 0 ∷ get_or buf 15 0 ∷ []
    seq = to_le-from_le _ (byte 12, (byte 13, (byte 14, (byte 15, tt))))

    idx :
        to_le 2 (from_le (get_or buf 16 0 ∷ get_or buf 17 0 ∷ []))
        ≡ get_or buf 16 0 ∷ get_or buf 17 0 ∷ []
    idx = to_le-from_le _ (byte 16, (byte 17, tt))

    total :
        to_le 2 (from_le (get_or buf 18 0 ∷ get_or buf 19 0 ∷ []))
        ≡ get_or buf 18 0 ∷ get_or buf 19 0 ∷ []
    total = to_le-from_le _ (byte 18, (byte 19, tt))

    ts :
        to_le 4
          (from_le (get_or buf 20 0 ∷ get_or buf 21 0 ∷ get_or buf 22 0 ∷ get_or buf 23 0 ∷ []))
        ≡ get_or buf 20 0 ∷ get_or buf 21 0 ∷ get_or buf 22 0 ∷ get_or buf 23 0 ∷ []
    ts = to_le-from_le _ (byte 20, (byte 21, (byte 22, (byte 23, tt))))

-- What an accepted buffer is known to hold.
record Accepts (buf : Bytes) (hdr : VideoHeader) : Type 0 where
  whole : 24 ≤ length buf
  version : get_or buf 0 0 ≡ 2
  kind : get_or buf 1 0 ≡ 2
  read : read_header buf ≡ hdr
  has_fragments : 1 ≤ hdr.frag_total
  within_cap : hdr.frag_total ≤ 1024
  in_frame : hdr.frag_idx < hdr.frag_total

parse-Accepts : (buf : Bytes) {hdr : VideoHeader} → parse buf ≡ some hdr → Accepts buf hdr
unfolding parse
parse-Accepts buf e = ground arith

read_header_fits :
    (buf : Bytes)
    → All IsByte buf
    → let hdr = read_header buf in
      (hdr.stream_tag < 2 ^ 64)
      × (hdr.layer_id < 2 ^ 8)
      × (hdr.flags < 2 ^ 8)
      × (hdr.frame_seq < 2 ^ 32)
      × (hdr.ts_ms < 2 ^ 32)
unfolding read_header
read_header_fits buf h = omega (
  arith,
  byte 2,
  byte 3,
  byte 4,
  byte 5,
  byte 6,
  byte 7,
  byte 8,
  byte 9,
  byte 10,
  byte 11,
  byte 12,
  byte 13,
  byte 14,
  byte 15,
  byte 20,
  byte 21,
  byte 22,
  byte 23,
)
  where
    byte : (i : ℕ) → get_or buf i 0 < 256
    byte i = All-get_or buf i h

-- A buffer of bytes that `parse` accepts carries a well-formed header, and is byte for byte the
-- datagram that a sender makes of that header and the rest of the buffer.
pub make_video_datagram-parse :
    (buf : Bytes) {hdr : VideoHeader}
    → All IsByte buf
    → parse buf ≡ some hdr
    → IsWellFormed hdr × (make_video_datagram hdr (video_payload buf) ≡ buf)
make_video_datagram-parse buf {hdr} h e =
    let a = parse-Accepts buf e in
    (
      ground (arith, a, read_header_fits buf h),
      rw (← a.read) (
          make_video_datagram-read_header buf (video_payload buf) h a.version a.kind
          ∙ ap (λ t. cells 0 24 buf ++ t) (video_payload-eq-drop buf)
          ∙ sym (drop-eq-cells 24 0 buf a.whole)),
    )
