-- ===== src/ViewerQueue/Frames.antt =====
-- The frame list: which frames it tracks, and what the selection of a frame does to it.
use tsod.Prelude.{
  ℕ, ◌+◌, ◌≡◌, refl, inl, inr, Bool, true, false, ◌||◌, Option, none, some, List, [], ◌∷◌, arith,
  ◌==◌, length, All, Bool-cases, Option-cases,
}
use tsod.Wire.Video.{VideoHeader}
use tsod.ViewerQueue.{FrameInfo, track, take_first}

-- `frames` has an entry for frame `s`.
abbrev pub tracks : ℕ → List FrameInfo → Bool
tracks s [] = false
tracks s (fi ∷ rest) = (fi.frame_seq == s) || tracks s rest

-- No frame has two entries.
abbrev pub Distinct : List FrameInfo → Type 0
Distinct [] = Unit {0}
Distinct (fi ∷ rest) = (tracks fi.frame_seq rest ≡ false) × Distinct rest

pub tracks-track :
    (hdr : VideoHeader) (s : ℕ) (frames : List FrameInfo)
    → tracks s (track hdr frames) ≡ ((hdr.frame_seq == s) || tracks s frames)
unfolding track
tracks-track hdr s [] = ground arith
tracks-track hdr s (fi ∷ rest) = ground (arith, tracks-track hdr s rest)

pub track-Distinct :
    (hdr : VideoHeader) (frames : List FrameInfo) → Distinct frames → Distinct (track hdr frames)
unfolding track
track-Distinct hdr [] d = ground arith
track-Distinct hdr (fi ∷ rest) d =
    ground (arith, track-Distinct hdr rest d.1, tracks-track hdr fi.frame_seq rest)

-- What `take_first` has found in a frame list: an entry that passes the test, and the others in
-- their order.
pub record Takes (p : FrameInfo → Bool) (frames rest : List FrameInfo) (fi : FrameInfo)
    : Type 0 where
  pub passes : p fi ≡ true
  pub fewer : length frames ≡ length rest + 1
  pub others : (s : ℕ) → tracks s frames ≡ ((fi.frame_seq == s) || tracks s rest)
  pub gone : Distinct frames → tracks fi.frame_seq rest ≡ false
  pub distinct : Distinct frames → Distinct rest

-- What is known of the answer of `take_first p frames`.
abbrev pub Found :
    (FrameInfo → Bool) → List FrameInfo → Option (FrameInfo × List FrameInfo) → Type 0
Found p frames none = All (λ fi. p fi ≡ false) frames
Found p frames (some (fi, rest)) = Takes p frames rest fi

module _ (p : FrameInfo → Bool) (x : FrameInfo) where
  Found-here : (xs : List FrameInfo) → p x ≡ true → Found p (x ∷ xs) (some (x, xs))
  Found-here xs h = record {
    passes = h;
    fewer = omega arith;
    others = λ s. refl;
    gone = λ d. d.0;
    distinct = λ d. d.1;
  }

  Found-later :
      {xs ys : List FrameInfo} {y : FrameInfo}
      → Found p xs (some (y, ys))
      → Found p (x ∷ xs) (some (y, x ∷ ys))
  Found-later {xs} {ys} {y} t = record {
    passes = t.passes;
    fewer = omega (arith, t.fewer);
    others = λ s. ground (arith, t.others s);
    gone = λ d. ground (arith, t.gone d.1, t.others x.frame_seq, d.0);
    distinct = λ d. ground (arith, t.distinct d.1, t.others x.frame_seq, d.0);
  }

pub take_first-Found :
    (p : FrameInfo → Bool) (frames : List FrameInfo) → Found p frames (take_first p frames)
unfolding take_first
take_first-Found p [] = tt
take_first-Found p (x ∷ xs) = elim (Bool-cases (p x)) [
  | inl h ↦ rw h (Found-here p x xs h)
  | inr h ↦ rw h (elim (Option-cases (take_first p xs)) [
    | inl e ↦ rw e (h, rw e at (take_first-Found p xs))
    | inr ((y, ys), e) ↦ rw e (Found-later p x (rw e at (take_first-Found p xs)))
  ])
]
