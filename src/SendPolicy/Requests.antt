-- ===== src/SendPolicy/Requests.antt =====
-- Several requests before the pruner comes: the strongest reason decides.
use tsod.Prelude.{
  ℕ, ◌≤◌, max, ◌≡◌, refl, ap, ◌∙◌, Bool, false, List, [], ◌∷◌, arith, if◌then◌else◌, leb,
}
use tsod.SendPolicy.{PruneReason, PruneState, backpressure, as_u8, request_prune}
use tsod.SendPolicy.Pruner.{unregister_viewer, unregister_session, process_one}

-- Requests one after the other: each a time, a reason and the wake channel's answer.
pub request_all : PruneState → List (ℕ × PruneReason × Bool) → PruneState
request_all p [] = p
request_all p ((now, reason, wake) ∷ rest) = request_all (request_prune p now reason wake).0 rest

-- The greatest of `n` and the reasons.
abbrev pub strongest : ℕ → List (ℕ × PruneReason × Bool) → ℕ
strongest n [] = n
strongest n ((now, reason, wake) ∷ rest) = strongest (max n (as_u8 reason)) rest

raise-max : (n r : ℕ) → (if leb r n then n else r) ≡ max n r
raise-max n r = ground arith

-- After any requests the recorded reason is the greatest of all, in whatever order they came.
request_all-strongest :
    (p : PruneState) (rs : List (ℕ × PruneReason × Bool))
    → (request_all p rs).reason ≡ strongest p.reason rs
unfolding request_all request_prune
request_all-strongest p [] = refl
request_all-strongest p ((now, reason, wake) ∷ rest) =
    request_all-strongest (request_prune p now reason wake).0 rest
    ∙ ap (λ n. strongest n rest) (raise-max p.reason (as_u8 reason))

as_u8-le : (r : PruneReason) → as_u8 r ≤ 4
as_u8-le r = ground arith

strongest-le : (n : ℕ) (rs : List (ℕ × PruneReason × Bool)) → n ≤ 4 → strongest n rs ≤ 4
strongest-le n [] h = h
strongest-le n ((now, reason, wake) ∷ rest) h =
    strongest-le (max n (as_u8 reason)) rest (omega (arith, as_u8-le reason))

process_one_decides :
    (p : PruneState) (now : ℕ)
    → p.reason ≤ 4
    → ((process_one p now).1 ≡ (
        if leb p.reason 1
        then unregister_viewer ∷ []
        else unregister_viewer ∷ unregister_session ∷ []))
      × ((process_one p now).0.pending ≡ false)
      × ((process_one p now).0.reason ≡ (if leb p.reason 1 then p.reason else as_u8 backpressure))
unfolding process_one
process_one_decides p now h = ground arith

-- Where the recorded reason is at most the greatest of the four: however many requests came before the
-- pruner, and in whatever order, the strongest reason decides. The pruner unregisters the session
-- exactly where some recorded or requested reason is above backpressure, and the reason then starts
-- over; nothing stays pending.
pub process_one-request_all :
    (p : PruneState) (rs : List (ℕ × PruneReason × Bool)) (now : ℕ)
    → p.reason ≤ 4
    → let decided = strongest p.reason rs in
      let (p', actions) = process_one (request_all p rs) now in
      (actions ≡ (
        if leb decided 1
        then unregister_viewer ∷ []
        else unregister_viewer ∷ unregister_session ∷ []))
      × (p'.pending ≡ false)
      × (p'.reason ≡ (if leb decided 1 then decided else as_u8 backpressure))
process_one-request_all p rs now h = rw (← request_all-strongest p rs) (
    process_one_decides (request_all p rs) now
      (rw (request_all-strongest p rs) (strongest-le p.reason rs h)))
