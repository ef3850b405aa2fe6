-- ===== src/OverwriteQueue/Outcome.antt =====
-- What a pass of the consumer of voice packets comes to, and that the consumer does not spin.
use tsod.Prelude.{
  ℕ, zero, suc, ◌+◌, ◌-◌, ◌%◌, ◌^◌, ◌≤◌, ◌<◌, ◌≡◌, ◌≢◌, refl, sym, ap, subst, ◌∙◌, inl, inr, true,
  false, none, some, List, [], ◌∷◌, ◌++◌, append-nil, append_assoc, arith, if◌then◌else◌, ltb,
  length, length-append, length-snoc, Bytes, Bool-cases, Option-cases, List-cases,
}
use tsod.OverwriteQueue.{
  StampedBytes, Limits, Drops, Locked, Voice, Pass, returns, waits, repeats, drop_stale,
  count_drops, select_front, deliver, voice_swept, voice_pass, continue_with, pop_voice_realtime,
}
use tsod.OverwriteQueue.Realtime.{
  Dropped, Dropped-trans, held, Selected, select_front-Selected, drop_stale-Dropped,
}

-- The counters of `v'` are those of `v` and `n` more, modulo 2 ^ 64.
abbrev pub Counted : Voice → Voice → ℕ → Type 0
Counted v v' n =
    (v'.totals.stale_drops_total + v'.totals.drain_drops_total) % 2 ^ 64
    ≡ (v.totals.stale_drops_total + v.totals.drain_drops_total + n) % 2 ^ 64

-- What a pass from `v` may come to, with the voice state after it.
abbrev pub Outcome : Limits → ℕ → Voice → Pass Bytes × Voice → Type 0
Outcome l later v (returns (some bytes), v') =
    (at n : ℕ) × Dropped v.queue.q ((at, bytes) ∷ v'.queue.q) n
    × (later - at ≤ l.max_age)
    × Counted v v' n
Outcome l later v (returns none, v') = (v.queue.closed ≡ true) × (v'.queue.q ≡ [])
Outcome l later v (waits, v') =
    (v.queue.closed ≡ false) × (v'.queue.q ≡ []) × Counted v v' (length v.queue.q)
Outcome l later v (repeats, v') =
    (n : ℕ) × Dropped v.queue.q v'.queue.q n × (0 < n) × Counted v v' n

Dropped-snoc :
    {xs rest : List StampedBytes} {x : StampedBytes} {m : ℕ}
    → Dropped xs (x ∷ rest) m
    → Dropped xs rest (suc m)
Dropped-snoc {rest = rest} {x = x} d = (
  d.0 ++ (x ∷ []),
  d.1 ∙ sym (append_assoc d.0 (x ∷ []) rest),
  omega (arith, length-snoc d.0 x, d.2),
)

module _ (l : Limits) (later : ℕ) (v w : Voice) (k : Locked) (m : ℕ) where
  deliver-Outcome :
      Dropped v.queue.q (held k.item ++ k.rest) m
      → (k.item ≡ none → k.rest ≡ [])
      → 0 < length v.queue.q
      → w.queue.q ≡ k.rest
      → Counted v w m
      → Outcome l later v (deliver l later k w)
  unfolding deliver
  deliver-Outcome d emptied some_queued rest counted = elim (Option-cases k.item) [
    | inl e ↦
        rw (e, deliver)
          (let d' : Dropped v.queue.q k.rest m = rw e at d in
            (
              m,
              rw rest d',
              omega (arith, ap length d'.1, length-append d'.0 k.rest, ap length (emptied e), d'.2),
              counted,
            ))
    | inr ((at, bytes), e) ↦
        rw (e, deliver)
          (let d' : Dropped v.queue.q ((at, bytes) ∷ k.rest) m = rw e at d in
            elim (Bool-cases (ltb l.max_age (later - at))) [
              | inl old ↦ rw old (suc m, rw rest (Dropped-snoc d'), omega arith, omega arith)
              | inr fresh ↦ rw fresh (at, m, rw rest d', ground arith, counted)
            ])
  ]

count_drops-Counted :
    (v w : Voice) (d : Drops)
    → w.totals ≡ count_drops v.totals d
    → Counted v w (d.stale_drops + d.drain_drops)
count_drops-Counted v w d e = rw e (ground arith)

-- A pass from a queue that is not empty, on what the first sweep left.
voice_swept-Outcome :
    (l : Limits) (now later : ℕ) (v : Voice) (swept : List StampedBytes × ℕ)
    → length v.queue.q < 2 ^ 64
    → 0 < length v.queue.q
    → Dropped v.queue.q swept.0 swept.1
    → Outcome l later v (voice_swept l now later v swept)
unfolding voice_swept
voice_swept-Outcome l now later v ([], stale) h some_queued d = elim (Bool-cases v.queue.closed) [
  | inl c ↦ rw (c, voice_swept) (refl, refl)
  | inr o ↦ rw (o, voice_swept) (refl, refl, ground (arith, ap length d.1, append-nil d.0, d.2))
]
voice_swept-Outcome l now later v (x ∷ fresh, stale) h some_queued d =
    deliver-Outcome l later v w k (stale + sel.dropped) (Dropped-trans d sel.parts) sel.emptied
      some_queued refl (omega (arith, count_drops-Counted v w k.drops refl, sel.counted))
  where
    k : Locked
    k = select_front l v.queue.cap now (x ∷ fresh) stale

    w : Voice
    w = record { queue = record (v.queue) { q = k.rest }; totals = count_drops v.totals k.drops }

    sel : Selected (x ∷ fresh) stale k
    sel =
        select_front-Selected l v.queue.cap now (x ∷ fresh) stale
          (omega (arith, h, ap length d.1, length-append d.0 (x ∷ fresh), d.2))

module _ (l : Limits) (now later : ℕ) (v : Voice) where
  voice_pass_cons :
      {x : StampedBytes} {rest : List StampedBytes}
      → v.queue.q ≡ x ∷ rest
      → voice_pass l now later v ≡ voice_swept l now later v (drop_stale now l.max_age v.queue.q 0)
  unfolding voice_pass
  voice_pass_cons e = ground arith

  voice_pass_nil :
      v.queue.q ≡ []
      → voice_pass l now later v ≡ (if v.queue.closed then (returns none, v) else (waits, v))
  unfolding voice_pass
  voice_pass_nil e = ground arith

  idle-Outcome :
      v.queue.q ≡ [] → Outcome l later v (if v.queue.closed then (returns none, v) else (waits, v))
  idle-Outcome e = elim (Bool-cases v.queue.closed) [
    | inl c ↦
        subst (λ b. Outcome l later v (if b then (returns none, v) else (waits, v))) (sym c) (c, e)
    | inr o ↦
        subst (λ b. Outcome l later v (if b then (returns none, v) else (waits, v))) (sym o)
          (o, e, ground (arith, ap length e))
  ]

  busy-Outcome :
      length v.queue.q < 2 ^ 64
      → 0 < length v.queue.q
      → Outcome l later v (voice_swept l now later v (drop_stale now l.max_age v.queue.q 0))
  busy-Outcome h some_queued =
      let (k, kept, counted) = drop_stale-Dropped now l.max_age v.queue.q 0 (omega arith) in
      voice_swept-Outcome l now later v (drop_stale now l.max_age v.queue.q 0) h some_queued
        (kept.0, kept.1, omega (arith, kept.2, counted))

-- Every pass of the consumer comes to one of four ends. It returns a packet that is no older than
-- `max_age` at the last reading of the clock, having dropped all packets before it; or it repeats,
-- having dropped some packets; or it waits on an open queue whose packets it has all dropped; or it
-- ends on a closed queue that it has emptied. In the first three each dropped packet is counted.
pub voice_pass-Outcome :
    (l : Limits) (now later : ℕ) (v : Voice)
    → length v.queue.q < 2 ^ 64
    → Outcome l later v (voice_pass l now later v)
voice_pass-Outcome l now later v h = elim (List-cases v.queue.q) [
  | inl e ↦
      subst (Outcome l later v) (sym (voice_pass_nil l now later v e))
        (idle-Outcome l now later v e)
  | inr (x, rest, e) ↦
      subst (Outcome l later v) (sym (voice_pass_cons l now later v e))
        (busy-Outcome l now later v h (omega (arith, ap length e)))
]

-- A pass that repeats has shortened the queue.
repeats-shorter :
    (l : Limits) (later : ℕ) (v : Voice) (out : Pass Bytes × Voice)
    → Outcome l later v out
    → out.0 ≡ repeats
    → length out.1.queue.q < length v.queue.q
repeats-shorter l later v (repeats, v') o e =
    let d = o.1 in omega (arith, ap length d.1, length-append d.0 v'.queue.q, d.2, o.2)
repeats-shorter l later v (waits, v') o e = cc
repeats-shorter l later v (returns (some b), v') o e = cc
repeats-shorter l later v (returns none, v') o e = cc

continue_with-ne-repeats :
    (next : Voice → Pass Bytes × Voice) (out : Pass Bytes × Voice)
    → (out.0 ≡ repeats → (next out.1).0 ≢ repeats)
    → (continue_with next out).0 ≢ repeats
continue_with-ne-repeats next (returns r, v') h e = cc
continue_with-ne-repeats next (waits, v') h e = cc
continue_with-ne-repeats next (repeats, v') h e = h refl e

-- With more fuel than queued packets the consumer returns or waits: it does not spin.
pub pop_voice_realtime-ne-repeats :
    (fuel : ℕ) (clock : ℕ → ℕ × ℕ) (l : Limits) (v : Voice)
    → length v.queue.q < 2 ^ 64
    → length v.queue.q < fuel
    → (pop_voice_realtime fuel clock l v).0 ≢ repeats
unfolding pop_voice_realtime
pop_voice_realtime-ne-repeats zero clock l v h f = absurd (omega arith)
pop_voice_realtime-ne-repeats (suc fuel) clock l v h f =
    continue_with-ne-repeats (pop_voice_realtime fuel clock l) out (λ e.
      let less =
        repeats-shorter l (clock fuel).1 v out
          (voice_pass-Outcome l (clock fuel).0 (clock fuel).1 v h) e in
      pop_voice_realtime-ne-repeats fuel clock l out.1 (omega (arith, less)) (omega (arith, less)))
  where
    out : Pass Bytes × Voice
    out = voice_pass l (clock fuel).0 (clock fuel).1 v
