-- ===== src/Gateway/RouteHash.antt =====
-- shared/route-hash/src/lib.rs: the FNV-1a hash of a channel's uuid, by which datagrams name the channel.
use tsod.Prelude.{ℕ, ◌*◌, ◌%◌, ◌^◌, [], ◌∷◌, Bytes}
use Prim.Native.Nat.{bit_xor}
use tsod.Wire.Voice.{UuidLibrary}

abbrev pub fnv_offset_basis : ℕ
fnv_offset_basis = 2_166_136_261

abbrev pub fnv_prime : ℕ
fnv_prime = 16_777_619

-- The loop over the bytes, from the accumulator `h`.
unfoldable pub fnv : ℕ → Bytes → ℕ
fnv h [] = h
fnv h (b ∷ bytes) = fnv (bit_xor h b * fnv_prime % 2 ^ 32) bytes

unfoldable pub channel_route_hash : {Uuid : Type 0} → UuidLibrary Uuid → Uuid → ℕ
unfolding fnv
channel_route_hash uuids channel_id = fnv fnv_offset_basis (uuids.as_bytes channel_id)
