-- ===== src/Wire/Frame/Delimited.antt =====
-- What is written on a stream is read from it.
use Prim.Native.Nat.{bit_and, bit_or}
use native.Mathlib.Nat.{pow-suc, mul-le-mul_right}
use tsod.Prelude.{
  ℕ, zero, suc, ◌+◌, ◌*◌, ◌/◌, ◌%◌, ◌^◌, ◌≤◌, ◌<◌, ◌≡◌, refl, sym, ap, subst, ◌∙◌, true, false,
  ◌||◌, Option, some, [], ◌∷◌, ◌++◌, arith, ltb, leb, ◌==◌, length, length-append, drop,
  take-append_left, drop-append_left, Bool-cases, inl, inr, append_assoc, Bytes,
}
use tsod.Prelude.Bits.{bit_or-shifted}
use tsod.Wire.Frame.{
  cons_to, write_varint_loop, write_varint_u64, or_shifted, read_varint_loop, read_varint_u64,
  with_rest, read_delimited, append_to, write_delimited,
}
use tsod.Wire.Frame.Byte.{bit_and-low, bit_or-high, bit_and-high}

or_shifted-add :
    (result byte shift : ℕ)
    → byte < 256
    → result < 2 ^ shift
    → byte % 128 * 2 ^ shift < 2 ^ 64
    → or_shifted result byte shift ≡ result + byte % 128 * 2 ^ shift
or_shifted-add result byte shift small below fits =
    let low : bit_and byte 127 * 2 ^ shift % 2 ^ 64 ≡ byte % 128 * 2 ^ shift =
      ap (λ b. b * 2 ^ shift % 2 ^ 64) (bit_and-low byte small) ∙ omega (arith, fits) in
    ap (bit_or result) low ∙ bit_or-shifted shift result (byte % 128) below

-- A step of the loop, where 7 digits of `v` are read.
pow_seven : (shift : ℕ) → 2 ^ (shift + 7) ≡ 128 * 2 ^ shift
pow_seven shift =
    let at : shift + 7 ≡ suc (suc (suc (suc (suc (suc (suc shift)))))) = omega arith in
    ap (λ n. 2 ^ n) at
    ∙ omega (
      arith,
      pow-suc 2 shift,
      pow-suc 2 (suc shift),
      pow-suc 2 (suc (suc shift)),
      pow-suc 2 (suc (suc (suc shift))),
      pow-suc 2 (suc (suc (suc (suc shift)))),
      pow-suc 2 (suc (suc (suc (suc (suc shift))))),
      pow-suc 2 (suc (suc (suc (suc (suc (suc shift)))))),
    )

spread : (m q t : ℕ) → (m + 128 * q) * t ≡ m * t + q * (128 * t)
spread m q t = omega arith

split_low : (v t : ℕ) → v * t ≡ v % 128 * t + v / 128 * (128 * t)
split_low v t =
    let parts : v ≡ v % 128 + 128 * (v / 128) = omega arith in
    ap (λ x. x * t) parts ∙ spread (v % 128) (v / 128) t

-- What is written of `v`, and what is read of it after `result`.
record Written (places v result shift : ℕ) (rest : Bytes) : Type 0 where
  pub bytes : Bytes
  pub wrote : write_varint_loop places v ≡ some bytes
  pub reads :
      read_varint_loop places result shift (bytes ++ rest) ≡ some (result + v * 2 ^ shift, rest)
  pub fits : length bytes ≤ places

needs_more : (places v : ℕ) → v < 128 ^ suc places → 128 ≤ v → 1 ≤ places
needs_more zero v small large = absurd (omega (arith, small, large, pow-suc 128 zero))
needs_more (suc places) v small large = omega arith

write_varint_loop-Written :
    (places v result shift : ℕ) (rest : Bytes)
    → 1 ≤ places
    → v < 128 ^ places
    → result < 2 ^ shift
    → v * 2 ^ shift < 2 ^ 64
    → Written places v result shift rest
unfolding write_varint_loop read_varint_loop
write_varint_loop-Written zero v result shift rest some_place small below fits =
    absurd (omega (arith, some_place))
write_varint_loop-Written (suc places) v result shift rest some_place small below fits =
    elim (Bool-cases (leb 128 v)) [
      | inr last ↦
          let short : v < 128 = ground (arith, last) in
          let same : v % 256 % 128 ≡ v = omega (arith, short) in
          let stop : (bit_and (v % 256) 128 == 0) ≡ true =
            bit_and-high (v % 256) (omega arith) ∙ ground (arith, short) in
          let value =
            or_shifted-add result (v % 256) shift (omega arith) below
              (subst (λ x. x * 2 ^ shift < 2 ^ 64) (sym same) fits) in
          record {
            bytes = v % 256 ∷ [];
            wrote = rw (last, write_varint_loop) refl;
            reads =
                rw (stop, read_varint_loop)
                  (ap (λ x. some (x, rest)) (value ∙ ap (λ x. result + x * 2 ^ shift) same));
            fits = omega arith;
          }
      | inl more ↦
          let large : 128 ≤ v = ground (arith, more) in
          let c = bit_or (v % 256) 128 in
          let high : c ≡ v % 128 + 128 = bit_or-high (v % 256) (omega arith) ∙ omega arith in
          let byte : c < 256 = omega (arith, high) in
          let low : c % 128 ≡ v % 128 = omega (arith, high) in
          let go_on : (bit_and c 128 == 0) ≡ false = bit_and-high c byte ∙ ground (arith, high) in
          let spread_v = split_low v (2 ^ shift) in
          let value : or_shifted result c shift ≡ result + v % 128 * 2 ^ shift =
            or_shifted-add result c shift byte below
              (subst (λ x. x * 2 ^ shift < 2 ^ 64) (sym low) (omega (arith, spread_v, fits)))
            ∙ ap (λ x. result + x * 2 ^ shift) low in
          let pow = pow_seven shift in
          let step : v / 2 ^ 7 * 2 ^ (shift + 7) ≡ v / 128 * (128 * 2 ^ shift) =
            ap (λ p. v / 128 * p) pow in
          let digits : v % 128 ≤ 127 = omega arith in
          let low_le : v % 128 * 2 ^ shift ≤ 127 * 2 ^ shift =
            mul-le-mul_right (2 ^ shift) digits in
          let sum : result + v % 128 * 2 ^ shift + v / 2 ^ 7 * 2 ^ (shift + 7)
              ≡ result + v * 2 ^ shift =
            omega (arith, step, spread_v) in
          let w : Written places (v / 2 ^ 7) (result + v % 128 * 2 ^ shift) (shift + 7) rest =
            write_varint_loop-Written places (v / 2 ^ 7) (result + v % 128 * 2 ^ shift) (shift + 7)
              rest (needs_more places v small large) (omega (arith, small, pow-suc 128 places))
              (omega (arith, low_le, pow, below)) (omega (arith, step, spread_v, fits)) in
          record {
            bytes = c ∷ w.bytes;
            wrote = rw (more, write_varint_loop) (ap (cons_to c) w.wrote);
            reads =
                rw (go_on, read_varint_loop)
                  (ap (λ r. read_varint_loop places r (shift + 7) (w.bytes ++ rest)) value
                    ∙ w.reads
                    ∙ ap (λ x. some (x, rest)) sum);
            fits = omega (arith, w.fits);
          }
    ]

module _ {M : Type 0} (encode : M → Bytes) (decode : Bytes → Option M)
    (decodes : (msg : M) → decode (encode msg) ≡ some msg) where
  -- A message that is neither empty nor too large is written behind at most ten bytes of its length, and
  -- what reads the stream next gets the message and is left with what follows.
  pub read_delimited-write_delimited :
      (max_size : ℕ) (msg : M) (rest : Bytes)
      → 1 ≤ length (encode msg)
      → length (encode msg) ≤ max_size
      → length (encode msg) < 2 ^ 64
      → (written : Bytes) × (write_delimited encode msg ≡ some written)
        × (length written ≤ 10 + length (encode msg))
        × (read_delimited decode max_size (written ++ rest) ≡ some (msg, rest))
  unfolding write_delimited read_delimited write_varint_u64 read_varint_u64
  read_delimited-write_delimited max_size msg rest filled fits small =
      let body : Bytes = encode msg in
      let w =
        write_varint_loop-Written 10 (length body) 0 0 (body ++ rest) (omega arith)
          (omega (arith, small)) (omega arith) (omega (arith, small)) in
      let read : read_varint_loop 10 0 0 (w.bytes ++ (body ++ rest))
          ≡ some (length body, body ++ rest) =
        w.reads ∙ ap (λ n. some (n, body ++ rest)) (omega arith) in
      (
        w.bytes ++ body,
        ap (append_to body) w.wrote,
        omega (arith, length-append w.bytes body, w.fits),
        ap (read_delimited decode max_size) (append_assoc w.bytes body rest)
            ∙ accepted (w.bytes ++ (body ++ rest)) read,
      )
    where
      accepted :
          (stream : Bytes)
          → read_varint_loop 10 0 0 stream ≡ some (length (encode msg), encode msg ++ rest)
          → read_delimited decode max_size stream ≡ some (msg, rest)
      accepted stream read =
          let body : Bytes = encode msg in
          let sized : (length body == 0 || ltb max_size (length body)) ≡ false =
            ground (arith, filled, fits) in
          let whole : ltb (length (body ++ rest)) (length body) ≡ false =
            ground (arith, length-append body rest) in
          rw (read, read_delimited)
            (rw sized (
              rw whole (
                ap (λ b. with_rest (drop (length body) (body ++ rest)) (decode b))
                  (take-append_left body rest)
                ∙ ap (λ o. with_rest (drop (length body) (body ++ rest)) o) (decodes msg)
                ∙ ap (λ r. some (msg, r)) (drop-append_left body rest))))
