-- ===== src/VideoTransport/Sender/Fragments.antt =====
-- How a frame is cut, and what is emitted for it.
use native.Mathlib.Nat.{div-eq-sub-div, div-eq_of_lt}
use tsod.Prelude.{
  ℕ, zero, suc, ◌+◌, ◌-◌, ◌/◌, ◌≤◌, ◌<◌, ◌≡◌, refl, sym, ap, ◌∙◌, List, [], ◌∷◌, ◌++◌, arith,
  if◌then◌else◌, ltb, ◌==◌, length, length-drop, take, drop, take-append-drop, get_or, Bytes, All,
  Bool-cases, inl, inr,
}
use tsod.Wire.Video.{VideoHeader, make_video_datagram, write_video_datagram_into}
use tsod.VideoTransport.Sender.{chunks_fuel, chunks, payloads, Pacing, VideoSender, emit_fragments}
use tsod.VideoTransport.Receiver.{flatten_fragments}

flatten-chunks_fuel :
    (fuel size : ℕ) (xs : Bytes)
    → 1 ≤ size
    → length xs ≤ fuel
    → flatten_fragments (chunks_fuel fuel size xs) ≡ xs
unfolding chunks_fuel flatten_fragments
flatten-chunks_fuel zero size [] h k = refl
flatten-chunks_fuel zero size (x ∷ xs) h k = absurd (omega arith)
flatten-chunks_fuel (suc fuel) size [] h k = refl
flatten-chunks_fuel (suc fuel) size (x ∷ xs) h k =
    ap (λ t. take size (x ∷ xs) ++ t)
      (flatten-chunks_fuel fuel size (drop size (x ∷ xs)) h
        (omega (arith, length-drop size (x ∷ xs))))
    ∙ take-append-drop size (x ∷ xs)

-- Put together, the fragments' payloads are the frame.
pub flatten-payloads :
    (size : ℕ) (xs : Bytes) → 1 ≤ size → flatten_fragments (payloads size xs) ≡ xs
unfolding payloads chunks flatten_fragments
flatten-payloads size [] h = refl
flatten-payloads size (x ∷ xs) h =
    flatten-chunks_fuel (length (x ∷ xs)) size (x ∷ xs) h (omega arith)

-- One chunk less, `size` bytes less.
div_ceil-step :
    (n size : ℕ) → 1 ≤ size → (suc n + size - 1) / size ≡ suc ((suc n - size + size - 1) / size)
div_ceil-step n size h = elim (Bool-cases (ltb n size)) [
  | inl short ↦
      let below : n < size = ground arith in
      let one_more : (suc n + size - 1) / size ≡ (suc n + size - 1 - size) / size + 1 =
        div-eq-sub-div (omega arith) (omega arith) in
      let rest : suc n + size - 1 - size ≡ n = omega arith in
      let last : suc n - size + size - 1 < size = omega (arith, below) in
      let left : n / size ≡ 0 = div-eq_of_lt below in
      let right : (suc n - size + size - 1) / size ≡ 0 = div-eq_of_lt last in
      one_more ∙ rw (rest, left, right) refl
  | inr long ↦
      let above : size ≤ n = ground arith in
      let one_more : (suc n + size - 1) / size ≡ (suc n + size - 1 - size) / size + 1 =
        div-eq-sub-div (omega arith) (omega arith) in
      let rest : suc n + size - 1 - size ≡ suc n - size + size - 1 = omega (arith, above) in
      one_more ∙ rw rest (omega arith)
]

length-chunks_fuel :
    (fuel size : ℕ) (xs : Bytes)
    → 1 ≤ size
    → length xs ≤ fuel
    → length (chunks_fuel fuel size xs) ≡ (length xs + size - 1) / size
unfolding chunks_fuel
length-chunks_fuel zero size [] h k = sym (div-eq_of_lt (omega arith))
length-chunks_fuel zero size (x ∷ xs) h k = absurd (omega arith)
length-chunks_fuel (suc fuel) size [] h k = sym (div-eq_of_lt (omega arith))
length-chunks_fuel (suc fuel) size (x ∷ xs) h k =
    ap suc (
      length-chunks_fuel fuel size (drop size (x ∷ xs)) h (omega (arith, length-drop size (x ∷ xs)))
      ∙ ap (λ n. (n + size - 1) / size) (length-drop size (x ∷ xs)))
    ∙ sym (div_ceil-step (length xs) size h)

-- As many fragments as the header says.
pub length-payloads :
    (size : ℕ) (xs : Bytes)
    → 1 ≤ size
    → length (payloads size xs) ≡ (if length xs == 0 then 1 else (length xs + size - 1) / size)
unfolding payloads chunks
length-payloads size [] h = refl
length-payloads size (x ∷ xs) h =
    length-chunks_fuel (length (x ∷ xs)) size (x ∷ xs) h (omega arith) ∙ ground arith

length-take-le {ℓ} : {A : Type ℓ} (n : ℕ) (xs : List A) → length (take n xs) ≤ n
length-take-le zero xs = omega arith
length-take-le (suc n) [] = omega arith
length-take-le (suc n) (x ∷ xs) = omega (arith, length-take-le n xs)

chunks_fuel-le :
    (fuel size : ℕ) (xs : Bytes) → All (λ c. length c ≤ size) (chunks_fuel fuel size xs)
unfolding chunks_fuel
chunks_fuel-le zero size xs = tt
chunks_fuel-le (suc fuel) size [] = tt
chunks_fuel-le (suc fuel) size (x ∷ xs) =
    (length-take-le size (x ∷ xs), chunks_fuel-le fuel size (drop size (x ∷ xs)))

-- No payload is larger than the maximal payload.
pub payloads-le : (size : ℕ) (xs : Bytes) → All (λ c. length c ≤ size) (payloads size xs)
unfolding payloads chunks
payloads-le size [] = (omega arith, tt)
payloads-le size (x ∷ xs) = chunks_fuel-le (length (x ∷ xs)) size (x ∷ xs)

module _ {Pacer : Type 0} (pacing : Pacing Pacer) (hdr : ℕ → VideoHeader) where
  pub length-emit_fragments :
      (cs : List Bytes) (k : ℕ) (s : VideoSender Pacer)
      → length (emit_fragments pacing s hdr k cs).1 ≡ length cs
  unfolding emit_fragments
  length-emit_fragments [] k s = refl
  length-emit_fragments (c ∷ cs) k s = ap suc (length-emit_fragments cs (suc k) _)

  -- Whatever the pacer and the pool do, datagram `i` is that of header and payload `i`.
  pub emit_fragments-get_or :
      (cs : List Bytes) (k i : ℕ) (s : VideoSender Pacer)
      → i < length cs
      → get_or (emit_fragments pacing s hdr k cs).1 i []
        ≡ make_video_datagram (hdr (k + i)) (get_or cs i [])
  unfolding emit_fragments write_video_datagram_into make_video_datagram
  emit_fragments-get_or [] k i s h = absurd (omega arith)
  emit_fragments-get_or (c ∷ cs) k zero s h =
      let first : k ≡ k + 0 = omega arith in ap (λ j. make_video_datagram (hdr j) c) first
  emit_fragments-get_or (c ∷ cs) k (suc i) s h =
      let shift : suc k + i ≡ k + suc i = omega arith in
      emit_fragments-get_or cs (suc k) i _ (omega arith)
      ∙ ap (λ j. make_video_datagram (hdr j) (get_or cs i [])) shift
