-- ===== src/ViewerQueue/Eviction.antt =====
-- `evict_one_frame` and the eviction loop: which frames go, and what goes with them.
use tsod.Prelude.{
  ℕ, ◌+◌, ◌≡◌, refl, sym, ap, ◌∙◌, inl, inr, Bool, true, false, not, ◌&&◌, Option, none, some, List,
  arith, ◌==◌, length, retain, retain-retain, retain_ext, retain_id, retain-All, All, All-intro,
  All-map, Option-cases,
}
use tsod.ViewerQueue.{
  FrameInfo, QueuedFragment, ViewerQueue, take_first, other, victim, evict_one_frame,
}
use tsod.ViewerQueue.Frames.{tracks, Distinct, Takes, take_first-Found}

-- The frame that is chosen: never the current one, and a priority frame only where no other frame
-- is without priority.
pub record IsVictim (cur : ℕ) (frames rest : List FrameInfo) (fi : FrameInfo) : Type 0 where
  pub takes : Takes (other cur) frames rest fi
  pub last_resort :
      fi.is_priority ≡ true
      → All (λ (g : FrameInfo). (other cur g && not g.is_priority) ≡ false) frames

abbrev pub Chosen : ℕ → List FrameInfo → Option (FrameInfo × List FrameInfo) → Type 0
Chosen cur frames none = All (λ (g : FrameInfo). other cur g ≡ false) frames
Chosen cur frames (some (fi, rest)) = IsVictim cur frames rest fi

normal-IsVictim :
    (cur : ℕ) {frames rest : List FrameInfo} {fi : FrameInfo}
    → Takes (λ g. other cur g && not g.is_priority) frames rest fi
    → IsVictim cur frames rest fi
normal-IsVictim cur t = record {
  takes = record {
    passes = ground (arith, t.passes);
    fewer = t.fewer;
    others = t.others;
    gone = t.gone;
    distinct = t.distinct;
  };
  last_resort = λ p. absurd (ground (arith, t.passes, p));
}

pub victim-Chosen : (cur : ℕ) (frames : List FrameInfo) → Chosen cur frames (victim cur frames)
unfolding victim
victim-Chosen cur frames = elim (Option-cases (take_first normal frames)) [
  | inr ((fi, rest), e) ↦
      rw (e, Chosen) (normal-IsVictim cur (rw e at (take_first-Found normal frames)))
  | inl e ↦ rw (e, Chosen) (second (rw e at (take_first-Found normal frames)))
]
  where
    normal : FrameInfo → Bool
    normal g = other cur g && not g.is_priority

    second :
        All (λ (g : FrameInfo). normal g ≡ false) frames
        → Chosen cur frames (take_first (other cur) frames)
    second h = elim (Option-cases (take_first (other cur) frames)) [
      | inl e ↦ rw (e, Chosen) (rw e at (take_first-Found (other cur) frames))
      | inr ((fi, rest), e) ↦
          rw (e, Chosen)
            (record { takes = rw e at (take_first-Found (other cur) frames); last_resort = λ p. h })
    ]

-- Every queued fragment belongs to a tracked frame, and no frame is tracked twice.
pub record IsTracked (q : ViewerQueue) : Type 0 where
  pub distinct : Distinct q.frames
  pub tracked : All (λ (f : QueuedFragment). tracks f.frame_seq q.frames ≡ true) q.fragments

-- `q'` is `q` without some frames other than `cur`, and without exactly their fragments.
pub record Shrinks (cur : ℕ) (q q' : ViewerQueue) : Type 0 where
  pub same_capacity : q'.capacity ≡ q.capacity
  pub same_max : q'.max_frames ≡ q.max_frames
  pub current : tracks cur q'.frames ≡ tracks cur q.frames
  pub subset : (s : ℕ) → tracks s q'.frames ≡ true → tracks s q.frames ≡ true
  pub distinct : Distinct q'.frames
  pub fragments : q'.fragments ≡ retain (λ f. tracks f.frame_seq q'.frames) q.fragments

pub Shrinks-refl : (cur : ℕ) {q : ViewerQueue} → IsTracked q → Shrinks cur q q
Shrinks-refl cur {q} t = record {
  same_capacity = refl;
  same_max = refl;
  current = refl;
  subset = λ s h. h;
  distinct = t.distinct;
  fragments = sym (retain_id _ q.fragments t.tracked);
}

pub Shrinks-IsTracked : {cur : ℕ} {q q' : ViewerQueue} → Shrinks cur q q' → IsTracked q'
Shrinks-IsTracked {q = q} {q' = q'} h = record {
  distinct = h.distinct;
  tracked = rw h.fragments (retain-All (λ f. tracks f.frame_seq q'.frames) q.fragments);
}

and_of_implies : (b c : Bool) → (c ≡ true → b ≡ true) → (b && c) ≡ c
and_of_implies true c h = refl
and_of_implies false true h = h refl
and_of_implies false false h = refl

pub Shrinks-trans :
    {cur : ℕ} {q r s : ViewerQueue} → Shrinks cur q r → Shrinks cur r s → Shrinks cur q s
Shrinks-trans {q = q} {r = r} {s = s} h k = record {
  same_capacity = k.same_capacity ∙ h.same_capacity;
  same_max = k.same_max ∙ h.same_max;
  current = k.current ∙ h.current;
  subset = λ t m. h.subset t (k.subset t m);
  distinct = k.distinct;
  fragments =
      k.fragments
      ∙ ap (retain (λ f. tracks f.frame_seq s.frames)) h.fragments
      ∙ retain-retain _ _ q.fragments
      ∙ retain_ext _ _ q.fragments
          (All-intro _ (λ f. and_of_implies _ _ (k.subset f.frame_seq)) q.fragments);
}

-- The queue without the frame of the entry `fi`.
abbrev without : FrameInfo → List FrameInfo → ViewerQueue → ViewerQueue
without fi rest q = record q {
  frames = rest;
  fragments = retain (λ f. not (f.frame_seq == fi.frame_seq)) q.fragments;
}

without-Shrinks :
    (cur : ℕ) (q : ViewerQueue) (fi : FrameInfo) (rest : List FrameInfo)
    → IsTracked q
    → IsVictim cur q.frames rest fi
    → Shrinks cur q (without fi rest q)
without-Shrinks cur q fi rest t v = record {
  same_capacity = refl;
  same_max = refl;
  current = ground (arith, v.takes.passes, v.takes.others cur);
  subset = λ s h. ground (arith, v.takes.others s, h);
  distinct = v.takes.distinct t.distinct;
  fragments =
      retain_ext _ _ q.fragments
        (All-map (λ (f : QueuedFragment) h. kept f.frame_seq h) q.fragments t.tracked);
}
  where
    kept : (s : ℕ) → tracks s q.frames ≡ true → not (s == fi.frame_seq) ≡ tracks s rest
    kept s h = ground (arith, v.takes.others s, v.takes.gone t.distinct)

-- `evict_one_frame` fails only where no frame but the current one is tracked; otherwise it takes
-- one frame, which is chosen as `IsVictim` says, with all its fragments.
abbrev pub Evicts : ℕ → ViewerQueue → Option ViewerQueue → Type 0
Evicts cur q none = All (λ (g : FrameInfo). other cur g ≡ false) q.frames
Evicts cur q (some q') = Shrinks cur q q' × (length q.frames ≡ length q'.frames + 1)

pub evict_one_frame-Evicts :
    (cur : ℕ) (q : ViewerQueue) → IsTracked q → Evicts cur q (evict_one_frame q cur)
unfolding evict_one_frame
evict_one_frame-Evicts cur q t = elim (Option-cases (victim cur q.frames)) [
  | inl e ↦ rw (e, Evicts) (rw (e, Chosen) at (victim-Chosen cur q.frames))
  | inr ((fi, rest), e) ↦
      let v : IsVictim cur q.frames rest fi = rw (e, Chosen) at (victim-Chosen cur q.frames) in
      rw (e, Evicts) (without-Shrinks cur q fi rest t v, v.takes.fewer)
]
