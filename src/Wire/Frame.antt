-- ===== src/Wire/Frame.antt =====
-- server/gateway/src/frame.rs and client/src/net/frame.rs: messages on a stream, each after its length as
-- a varint. What the stream delivers is the list of its bytes, whose end is an error; the protobuf
-- library's encoder and decoder are arguments.
pub mod Byte
pub mod Delimited
use Prim.Native.Nat.{bit_and, bit_or}
use tsod.Prelude.{
  ℕ, zero, suc, ◌+◌, ◌*◌, ◌/◌, ◌%◌, ◌^◌, Bool, true, false, ◌||◌, Option, none, some, List, [], ◌∷◌,
  ◌++◌, if◌then◌else◌, ltb, leb, ◌==◌, length, take, drop, Bytes,
}

abbrev pub cons_to : ℕ → Option Bytes → Option Bytes
cons_to b none = none
cons_to b (some bytes) = some (b ∷ bytes)

-- The loop that fills the buffer, of which `places` are left; a full one would be a panic.
unfoldable pub write_varint_loop : ℕ → ℕ → Option Bytes
write_varint_loop zero v = none
write_varint_loop (suc places) v =
    let rest = write_varint_loop places (v / 2 ^ 7) in
    if leb 128 v then cons_to (bit_or (v % 256) 128) rest else some (v % 256 ∷ [])

unfoldable pub write_varint_u64 : ℕ → Option Bytes
unfolding write_varint_loop
write_varint_u64 v = write_varint_loop 10 v

-- `<<` on 64 bits.
abbrev pub or_shifted : ℕ → ℕ → ℕ → ℕ
or_shifted result byte shift = bit_or result (bit_and byte 127 * 2 ^ shift % 2 ^ 64)

-- The loop, of which `rounds` are left.
unfoldable pub read_varint_loop : ℕ → ℕ → ℕ → Bytes → Option (ℕ × Bytes)
read_varint_loop zero result shift stream = none
read_varint_loop (suc rounds) result shift [] = none
read_varint_loop (suc rounds) result shift (byte ∷ stream) =
    let rest = read_varint_loop rounds (or_shifted result byte shift) (shift + 7) stream in
    if bit_and byte 128 == 0 then some (or_shifted result byte shift, stream) else rest

unfoldable pub read_varint_u64 : Bytes → Option (ℕ × Bytes)
unfolding read_varint_loop
read_varint_u64 stream = read_varint_loop 10 0 0 stream

abbrev pub append_to : Bytes → Option Bytes → Option Bytes
append_to body none = none
append_to body (some bytes) = some (bytes ++ body)

module _ {M : Type 0} where
  abbrev pub with_rest : Bytes → Option M → Option (M × Bytes)
  with_rest stream none = none
  with_rest stream (some msg) = some (msg, stream)

  unfoldable pub read_delimited : (Bytes → Option M) → ℕ → Bytes → Option (M × Bytes)
  unfolding read_varint_u64
  read_delimited decode max_size stream = elim (read_varint_u64 stream) [
    | none ↦ none
    | some (len, body) ↦
        if len == 0 || ltb max_size len
        then none
        else if ltb (length body) len
        then none
        else with_rest (drop len body) (decode (take len body))
  ]

  unfoldable pub write_delimited : (M → Bytes) → M → Option Bytes
  unfolding write_varint_u64
  write_delimited encode msg = append_to (encode msg) (write_varint_u64 (length (encode msg)))
