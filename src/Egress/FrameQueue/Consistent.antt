-- ===== src/Egress/FrameQueue/Consistent.antt =====
-- What the frame queue keeps: its order, its map and its count of fragments agree.
use tsod.Prelude.{
  ℕ, suc, ◌+◌, ◌≤◌, ◌≡◌, refl, sym, ap, ◌∙◌, Bool, true, false, ◌||◌, Option, none, some, [], ◌∷◌,
  ◌++◌, arith, if◌then◌else◌, length, length-snoc, Bool-cases, Option-cases, inl, inr, All, Bytes,
}
use tsod.Prelude.Maps.{
  lookup, insert, pair_key, pair_same, pair_same_iff, Unique, lookup-remove, insert-Unique,
  remove-Unique, remove-All,
}
use tsod.Prelude.Keys.{
  present, present-insert, weight_of, weight, weight-remove, length-remove, member, Distinct,
  member-without, without-Distinct, length-without, member-append, snoc-Distinct,
}
use tsod.Egress.FrameQueue.{
  FrameKey, FrameBucket, VideoFrameQueue, new, fragments_of, push, drop_frame,
}

abbrev pub frags : FrameBucket → ℕ
frags frame = length frame.fragments

pub record IsConsistent (q : VideoFrameQueue) : Type 0 where
  pub unique : Unique q.frames
  pub ordered : Distinct q.order
  pub listed : (k : FrameKey) → member k q.order ≡ present (lookup k q.frames)
  pub lengths : length q.frames ≡ length q.order
  pub filled : All (λ (x : FrameKey × FrameBucket). 1 ≤ frags x.1) q.frames
  pub counted : q.total_frags ≡ weight frags q.frames

pub new-IsConsistent : (max_frames max_frags : ℕ) → IsConsistent (new max_frames max_frags)
unfolding new weight member lookup
new-IsConsistent max_frames max_frags = record {
  unique = tt;
  ordered = tt;
  listed = λ k. refl;
  lengths = refl;
  filled = tt;
  counted = refl;
}

length-fragments_of : (o : Option FrameBucket) → length (fragments_of o) ≡ weight_of frags o
length-fragments_of none = refl
length-fragments_of (some frame) = refl

abbrev one_if : Bool → ℕ
one_if b = if b then 1 else 0

weight_of-present : (o : Option FrameBucket) → weight_of (λ v. 1) o ≡ (if present o then 1 else 0)
weight_of-present none = refl
weight_of-present (some frame) = refl

module _ (q : VideoFrameQueue) (v : IsConsistent q) (key : FrameKey) where
  pub drop_frame-IsConsistent : IsConsistent (drop_frame q key).0
  unfolding drop_frame
  drop_frame-IsConsistent = record {
    unique = remove-Unique key q.frames v.unique;
    ordered = without-Distinct key q.order v.ordered;
    listed = λ k.
        member-without key k q.order ∙ gone k ∙ sym (ap present (lookup-remove key k q.frames));
    lengths =
        let m = length-remove key q.frames v.unique in
        let o = length-without key q.order v.ordered in
        let w = weight_of-present (lookup key q.frames) in
        let l : (if member key q.order then 1 else 0)
            ≡ (if present (lookup key q.frames) then 1 else 0) =
          ap (λ b. one_if b) (v.listed key) in
        omega (arith, m, o, w, l, v.lengths);
    filled = remove-All (λ (f : FrameBucket). 1 ≤ frags f) key q.frames v.filled;
    counted =
        let w = weight-remove frags key q.frames v.unique in
        let n = length-fragments_of (lookup key q.frames) in omega (arith, w, n, v.counted);
  }
    where
      gone :
          (k : FrameKey)
          → (if pair_same key k then false else member k q.order)
            ≡ present (if pair_same key k then none else lookup k q.frames)
      gone k = elim (Bool-cases (pair_same key k)) [
        | inl here ↦ rw here refl
        | inr there ↦ rw there (v.listed k)
      ]

  -- What is dropped is what was there.
  pub drop_frame-total : (drop_frame q key).0.total_frags + (drop_frame q key).1 ≡ q.total_frags
  unfolding drop_frame
  drop_frame-total =
      let w = weight-remove frags key q.frames v.unique in
      let n = length-fragments_of (lookup key q.frames) in omega (arith, w, n, v.counted)

  pub drop_frame-order :
      member key q.order ≡ true → suc (length (drop_frame q key).0.order) ≡ length q.order
  unfolding drop_frame
  drop_frame-order listed = ground (arith, length-without key q.order v.ordered, listed)

  -- Another bucket for a frame that is there.
  pub replace-IsConsistent :
      (old frame : FrameBucket) (total : ℕ)
      → lookup key q.frames ≡ some old
      → 1 ≤ frags frame
      → total + frags old ≡ q.total_frags + frags frame
      → IsConsistent (record q { frames = insert key frame q.frames; total_frags = total })
  unfolding insert weight
  replace-IsConsistent old frame total found some_left sum = record {
    unique = insert-Unique key frame q.frames v.unique;
    ordered = v.ordered;
    listed = λ k. elim (Bool-cases (pair_same key k)) [
      | inl here ↦
          let at : key ≡ k = (pair_same_iff key k).0 here in
          let inside : member k q.order ≡ true =
            ap (λ j. member j q.order) (sym at) ∙ v.listed key ∙ ap present found in
          inside ∙ sym (present-insert key k frame q.frames ∙ rw here refl)
      | inr there ↦ v.listed k ∙ sym (present-insert key k frame q.frames ∙ rw there refl)
    ];
    lengths =
        let m = length-remove key q.frames v.unique in
        let w : weight_of (λ v. 1) (lookup key q.frames) ≡ 1 = rw found refl in
        omega (arith, m, w, v.lengths);
    filled = (some_left, remove-All (λ (f : FrameBucket). 1 ≤ frags f) key q.frames v.filled);
    counted =
        let m = weight-remove frags key q.frames v.unique in
        let w : weight_of frags (lookup key q.frames) ≡ frags old = rw found refl in
        omega (arith, m, w, sum, v.counted);
  }

  pub add-IsConsistent :
      (frame : FrameBucket)
      → lookup key q.frames ≡ none
      → frags frame ≡ 1
      → IsConsistent (record q {
        frames = insert key frame q.frames;
        order = q.order ++ (key ∷ []);
        total_frags = q.total_frags + 1;
      })
  unfolding insert weight member
  add-IsConsistent frame absent single = record {
    unique = insert-Unique key frame q.frames v.unique;
    ordered = snoc-Distinct key q.order (v.listed key ∙ ap present absent) v.ordered;
    listed = λ k.
        member-append k q.order (key ∷ [])
        ∙ ap (λ b. b || (pair_same key k || false)) (v.listed k)
        ∙ swap (present (lookup k q.frames)) (pair_same key k)
        ∙ sym (present-insert key k frame q.frames);
    lengths =
        let m = length-remove key q.frames v.unique in
        let w : weight_of (λ v. 1) (lookup key q.frames) ≡ 0 = rw absent refl in
        omega (arith, m, w, v.lengths, length-snoc q.order key);
    filled = (
      omega (arith, single),
      remove-All (λ (f : FrameBucket). 1 ≤ frags f) key q.frames v.filled,
    );
    counted =
        let m = weight-remove frags key q.frames v.unique in
        let w : weight_of frags (lookup key q.frames) ≡ 0 = rw absent refl in
        omega (arith, m, w, single, v.counted);
  }
    where
      swap : (a b : Bool) → (a || (b || false)) ≡ (b || a)
      swap a b = ground arith

  pub push-IsConsistent :
      (is_keyframe : Bool) (deadline : ℕ) (bytes : Bytes)
      → IsConsistent (push q key is_keyframe deadline bytes)
  unfolding push
  push-IsConsistent is_keyframe deadline bytes = elim (Option-cases (lookup key q.frames)) [
    | inl absent ↦
        rw (absent, push)
          (add-IsConsistent
            (record { deadline = deadline; is_keyframe = is_keyframe; fragments = bytes ∷ [] })
            absent refl)
    | inr (old, found) ↦
        rw (found, push)
          (replace-IsConsistent old
            (record {
              deadline = deadline;
              is_keyframe = is_keyframe;
              fragments = old.fragments ++ (bytes ∷ []);
            })
            (q.total_frags + 1) found (omega (arith, length-snoc old.fragments bytes))
            (omega (arith, length-snoc old.fragments bytes)))
  ]
