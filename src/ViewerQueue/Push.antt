-- ===== src/ViewerQueue/Push.antt =====
-- What `push` keeps and what it gives up: whole frames, and its own fragment only where the frame
-- of that fragment fills the queue by itself.
use tsod.Prelude.{
  ℕ, ◌+◌, ◌≡◌, ◌≢◌, sym, ap, ap₂, ◌∙◌, ◌⊎◌, inl, inr, true, false, ◌&&◌, none, some, List, [], ◌∷◌,
  ◌++◌, append-nil, arith, if◌then◌else◌, ◌==◌, leb, ltb, length, retain, retain-retain,
  retain-append, retain_ext, retain_none, All-intro, Bool-cases, Bytes,
}
use tsod.Wire.Video.{VideoHeader}
use tsod.ViewerQueue.{
  FrameInfo, QueuedFragment, ViewerQueue, PushOutcome, queue_full, evicted_oldest_frame, track,
  update_frame_tracking, make_room, queued, enqueue, push,
}
use tsod.ViewerQueue.Frames.{tracks, tracks-track}
use tsod.ViewerQueue.Invariant.{Settled, Looped, make_room-Looped, IsConsistent, make_room-Roomy}

-- The queued fragments of frame `s`, in order.
abbrev pub of_frame : ℕ → ViewerQueue → List QueuedFragment
of_frame s q = retain (λ f. f.frame_seq == s) q.fragments

-- What `push` adds.
abbrev pub added : Bytes → VideoHeader → PushOutcome → List QueuedFragment
added datagram hdr o = if o.dropped_incoming_fragment then [] else queued datagram hdr ∷ []

record Enqueued (datagram : Bytes) (hdr : VideoHeader) (r : ViewerQueue) (n : ℕ) (q' : ViewerQueue)
    (o : PushOutcome) : Type 0 where
  fragments : q'.fragments ≡ r.fragments ++ added datagram hdr o
  frames : q'.frames ≡ r.frames
  capacity : q'.capacity ≡ r.capacity
  dropped : o.dropped_incoming_fragment ≡ leb r.capacity (length r.fragments)
  evicted : o.evicted_frames ≡ n
  reason : o.drop_reason ≡ (
      if o.dropped_incoming_fragment
      then some queue_full
      else if ltb 0 o.evicted_frames
      then some evicted_oldest_frame
      else none)

enqueue-Enqueued :
    (datagram : Bytes) (hdr : VideoHeader) (room : ViewerQueue × ℕ)
    → Enqueued datagram hdr room.0 room.1
        (enqueue datagram hdr room).0
        (enqueue datagram hdr room).1
unfolding enqueue
enqueue-Enqueued datagram hdr (r, n) = ground (arith, append-nil r.fragments)

-- The queue after `push`, the outcome, and what the loop before has done.
pub record Pushed (q : ViewerQueue) (datagram : Bytes) (hdr : VideoHeader) (q' : ViewerQueue)
    (o : PushOutcome) : Type 0 where
  pub fragments :
      q'.fragments ≡ retain (λ f. tracks f.frame_seq q'.frames) q.fragments ++ added datagram hdr o
  pub room : (make_room q hdr).0.fragments ≡ retain (λ f. tracks f.frame_seq q'.frames) q.fragments
  pub room_capacity : (make_room q hdr).0.capacity ≡ q.capacity
  pub same_capacity : q'.capacity ≡ q.capacity
  pub dropped : o.dropped_incoming_fragment ≡ leb q.capacity (length (make_room q hdr).0.fragments)
  pub settled : Settled hdr.frame_seq (make_room q hdr).0
  pub same_frames : q'.frames ≡ (make_room q hdr).0.frames
  pub current : tracks hdr.frame_seq q'.frames ≡ true
  pub subset :
      (s : ℕ) → tracks s q'.frames ≡ true → (s ≡ hdr.frame_seq) ⊎ (tracks s q.frames ≡ true)
  pub reason : o.drop_reason ≡ (
      if o.dropped_incoming_fragment
      then some queue_full
      else if ltb 0 o.evicted_frames
      then some evicted_oldest_frame
      else none)
  pub count : length (track hdr q.frames) ≡ length q'.frames + o.evicted_frames

pub push-Pushed :
    (q : ViewerQueue) (datagram : Bytes) (hdr : VideoHeader)
    → IsConsistent q
    → Pushed q datagram hdr (push q datagram hdr).0 (push q datagram hdr).1
unfolding push update_frame_tracking
push-Pushed q datagram hdr v = record {
  fragments = f.fragments ∙ ap (λ t. t ++ added datagram hdr (push q datagram hdr).1) kept;
  room = kept;
  room_capacity = l.shrinks.same_capacity;
  same_capacity = f.capacity ∙ l.shrinks.same_capacity;
  dropped = f.dropped ∙ ap (λ c. leb c (length r.fragments)) l.shrinks.same_capacity;
  settled = l.settled;
  same_frames = f.frames;
  current = rw f.frames (make_room-Roomy q hdr v).current;
  subset = λ s h. tracked_before s (l.shrinks.subset s (rw f.frames at h));
  reason = f.reason;
  count = omega (arith, l.count, f.evicted, ap length f.frames);
}
  where
    r : ViewerQueue
    r = (make_room q hdr).0

    l : Looped hdr.frame_seq (update_frame_tracking q hdr) 0 (make_room q hdr)
    l = make_room-Looped q hdr v.tracked

    f : Enqueued datagram hdr r (make_room q hdr).1 (push q datagram hdr).0 (push q datagram hdr).1
    f = enqueue-Enqueued datagram hdr (make_room q hdr)

    kept : r.fragments ≡ retain (λ f. tracks f.frame_seq (push q datagram hdr).0.frames) q.fragments
    kept =
        l.shrinks.fragments
        ∙ ap (λ fr. retain (λ f. tracks f.frame_seq fr) q.fragments) (sym f.frames)

    tracked_before :
        (s : ℕ)
        → tracks s (track hdr q.frames) ≡ true
        → (s ≡ hdr.frame_seq) ⊎ (tracks s q.frames ≡ true)
    tracked_before s h = ground (arith, tracks-track hdr s q.frames)

-- The test for frame `s` on what is left of the queue.
module _ (s : ℕ) (frames : List FrameInfo) (fragments : List QueuedFragment) where
  pub kept_of_frame :
      tracks s frames ≡ true
      → retain (λ f. f.frame_seq == s) (retain (λ f. tracks f.frame_seq frames) fragments)
        ≡ retain (λ f. f.frame_seq == s) fragments
  kept_of_frame h =
      retain-retain _ _ fragments
      ∙ retain_ext _ _ fragments (All-intro _ (λ (f : QueuedFragment). same f.frame_seq) fragments)
    where
      same : (t : ℕ) → (tracks t frames && (t == s)) ≡ (t == s)
      same t = ground arith

  gone_of_frame :
      tracks s frames ≡ false
      → retain (λ f. f.frame_seq == s) (retain (λ f. tracks f.frame_seq frames) fragments) ≡ []
  gone_of_frame h =
      retain-retain _ _ fragments
      ∙ retain_none _ fragments
          (All-intro _ (λ (f : QueuedFragment). none_left f.frame_seq) fragments)
    where
      none_left : (t : ℕ) → (tracks t frames && (t == s)) ≡ false
      none_left t = ground arith

added_elsewhere :
    (s : ℕ) (datagram : Bytes) (hdr : VideoHeader) (o : PushOutcome)
    → s ≢ hdr.frame_seq
    → retain (λ f. f.frame_seq == s) (added datagram hdr o) ≡ []
added_elsewhere s datagram hdr o h = ground arith

added_here :
    (datagram : Bytes) (hdr : VideoHeader) (o : PushOutcome)
    → retain (λ f. f.frame_seq == hdr.frame_seq) (added datagram hdr o) ≡ added datagram hdr o
added_here datagram hdr o = ground arith

-- Under pressure a frame is dropped whole or not at all: of every other frame `push` keeps all
-- queued fragments in their order or none, and of the new fragment's own frame it keeps all, with
-- the new fragment last unless that is dropped.
pub push_whole_frames :
    (q : ViewerQueue) (datagram : Bytes) (hdr : VideoHeader)
    → IsConsistent q
    → let (q', o) = push q datagram hdr in
      ((s : ℕ) → s ≢ hdr.frame_seq → (of_frame s q' ≡ of_frame s q) ⊎ (of_frame s q' ≡ []))
      × (of_frame hdr.frame_seq q' ≡ of_frame hdr.frame_seq q ++ added datagram hdr o)
push_whole_frames q datagram hdr v = (others, own)
  where
    p : Pushed q datagram hdr (push q datagram hdr).0 (push q datagram hdr).1
    p = push-Pushed q datagram hdr v

    q' : ViewerQueue
    q' = (push q datagram hdr).0

    o : PushOutcome
    o = (push q datagram hdr).1

    -- frame `s` in the queue after `push`
    parts :
        (s : ℕ)
        → of_frame s q'
          ≡ retain (λ f. f.frame_seq == s) (retain (λ f. tracks f.frame_seq q'.frames) q.fragments)
            ++ retain (λ f. f.frame_seq == s) (added datagram hdr o)
    parts s =
        ap (retain (λ f. f.frame_seq == s)) p.fragments
        ∙ retain-append (λ f. f.frame_seq == s)
            (retain (λ f. tracks f.frame_seq q'.frames) q.fragments) (added datagram hdr o)

    others : (s : ℕ) → s ≢ hdr.frame_seq → (of_frame s q' ≡ of_frame s q) ⊎ (of_frame s q' ≡ [])
    others s ne = elim (Bool-cases (tracks s q'.frames)) [
      | inl h ↦ inl (
          parts s
          ∙ rw (kept_of_frame s q'.frames q.fragments h, added_elsewhere s datagram hdr o ne)
              (append-nil _))
      | inr h ↦ inr (
          parts s
          ∙ rw (gone_of_frame s q'.frames q.fragments h, added_elsewhere s datagram hdr o ne))
    ]

    own : of_frame hdr.frame_seq q' ≡ of_frame hdr.frame_seq q ++ added datagram hdr o
    own =
        parts hdr.frame_seq
        ∙ ap₂ ◌++◌ (kept_of_frame hdr.frame_seq q'.frames q.fragments p.current)
            (added_here datagram hdr o)
