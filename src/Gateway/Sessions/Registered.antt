-- ===== src/Gateway/Sessions/Registered.antt =====
-- What is registered: whatever was registered and unregistered, `get_sessions` finds it.
use tsod.Prelude.{
  ℕ, ◌≡◌, refl, sym, ap, ◌∙◌, Bool, true, false, ◌&&◌, ◌||◌, Option, none, some, List, [], ◌∷◌,
  arith, if◌then◌else◌, ◌==◌, ==_iff, Bool-cases, Option-cases, inl, inr,
}
use tsod.Prelude.Maps.{
  lookup, nat_key, pair_key, pair_same, pair_same_iff, Unique, lookup-insert, lookup-remove,
}
use tsod.Prelude.Keys.{present, member, Distinct}
use tsod.SendPolicy.{SendCtx}
use tsod.Gateway.Sessions.{
  SessionMap, new, register, unregister, keys_with, unregister_all, unregister_by_session_id,
  sessions_of, get_sessions,
}
use tsod.Gateway.Sessions.Agree.{
  indexed, IsIndexed, new-IsIndexed, register-IsIndexed, unregister-IsIndexed,
  unregister_all-IsIndexed,
}

lookup-unregister_all :
    (m : SessionMap) (keys : List (ℕ × ℕ)) (key : ℕ × ℕ)
    → lookup key (unregister_all m keys).inner
      ≡ (if member key keys then none else lookup key m.inner)
unfolding unregister_all member unregister
lookup-unregister_all m [] key = refl
lookup-unregister_all m ((user, sid) ∷ keys) key =
    lookup-unregister_all (unregister m user sid) keys key
    ∙ ap (λ o. if member key keys then none else o) (lookup-remove (user, sid) key m.inner)
    ∙ either (pair_same (user, sid) key) (member key keys)
  where
    either :
        (here there : Bool)
        → (if there then none else (if here then none else lookup key m.inner))
          ≡ (if here || there then none else lookup key m.inner)
    either true true = refl
    either true false = refl
    either false true = refl
    either false false = refl

member-keys_with :
    (sid : ℕ) (inner : List ((ℕ × ℕ) × SendCtx)) (user s : ℕ)
    → member (user, s) (keys_with sid inner) ≡ (s == sid && present (lookup (user, s) inner))
unfolding keys_with member lookup
member-keys_with sid [] user s = ground arith
member-keys_with sid ((key, ctx) ∷ inner) user s =
    let ih = member-keys_with sid inner user s in
    elim (Bool-cases (pair_same key (user, s))) [
      | inl here ↦
          let at : (key.1 == sid) ≡ (s == sid) =
            ap (λ (k : ℕ × ℕ). k.1 == sid) ((pair_same_iff key (user, s)).0 here) in
          elim (Bool-cases (s == sid)) [
            | inl wanted ↦ rw (at, wanted, here) refl
            | inr other ↦ rw (at, other) (ih ∙ rw other refl)
          ]
      | inr there ↦ elim (Bool-cases (key.1 == sid)) [
        | inl taken ↦ rw (taken, there) ih
        | inr other ↦ rw (other, there) ih
      ]
    ]

pub lookup-unregister_by_session_id :
    (m : SessionMap) (sid user s : ℕ)
    → lookup (user, s) (unregister_by_session_id m sid).inner
      ≡ (if s == sid then none else lookup (user, s) m.inner)
unfolding unregister_by_session_id
lookup-unregister_by_session_id m sid user s =
    lookup-unregister_all m (keys_with sid m.inner) (user, s)
    ∙ ap (λ b. if b then none else lookup (user, s) m.inner) (member-keys_with sid m.inner user s)
    ∙ gone (s == sid) (lookup (user, s) m.inner)
  where
    gone :
        (b : Bool) (o : Option SendCtx)
        → (if b && present o then none else o) ≡ (if b then none else o)
    gone true none = refl
    gone true (some ctx) = refl
    gone false o = refl

sessions_of_absent :
    (inner : List ((ℕ × ℕ) × SendCtx)) (user sid : ℕ) (ids : List ℕ)
    → member sid ids ≡ false
    → lookup sid (sessions_of inner user ids) ≡ none
unfolding sessions_of member lookup
sessions_of_absent inner user sid [] absent = refl
sessions_of_absent inner user sid (i ∷ ids) absent =
    let other : (i == sid) ≡ false = ground (arith, absent) in
    let later : member sid ids ≡ false = ground (arith, absent) in
    let ih = sessions_of_absent inner user sid ids later in
    elim (Option-cases (lookup (user, i) inner)) [
      | inl none_there ↦ rw none_there ih
      | inr (ctx, there) ↦ rw (there, other) ih
    ]

lookup-sessions_of :
    (inner : List ((ℕ × ℕ) × SendCtx)) (user sid : ℕ) (ids : List ℕ)
    → Distinct ids
    → member sid ids ≡ true
    → lookup sid (sessions_of inner user ids) ≡ lookup (user, sid) inner
unfolding sessions_of member lookup
lookup-sessions_of inner user sid [] d there = cc there
lookup-sessions_of inner user sid (i ∷ ids) d there = elim (Bool-cases (i == sid)) [
  | inl here ↦
      let at : i ≡ sid = (==_iff i sid).0 here in
      let absent : member sid ids ≡ false = ap (λ j. member j ids) (sym at) ∙ d.0 in
      let same : lookup (user, i) inner ≡ lookup (user, sid) inner =
        ap (λ j. lookup (user, j) inner) at in
      elim (Option-cases (lookup (user, i) inner)) [
        | inl none_there ↦
            rw none_there (sessions_of_absent inner user sid ids absent ∙ sym none_there ∙ same)
        | inr (ctx, found_there) ↦ rw (found_there, here) (sym found_there ∙ same)
      ]
  | inr other ↦
      let later : member sid ids ≡ true = ground (arith, there, other) in
      let ih = lookup-sessions_of inner user sid ids d.1 later in
      elim (Option-cases (lookup (user, i) inner)) [
        | inl none_there ↦ rw none_there ih
        | inr (ctx, found_there) ↦ rw (found_there, other) ih
      ]
]

sessions_of-Unique :
    (inner : List ((ℕ × ℕ) × SendCtx)) (user : ℕ) (ids : List ℕ)
    → Distinct ids
    → Unique (sessions_of inner user ids)
unfolding sessions_of
sessions_of-Unique inner user [] d = tt
sessions_of-Unique inner user (i ∷ ids) d = elim (Option-cases (lookup (user, i) inner)) [
  | inl none_there ↦ rw none_there (sessions_of-Unique inner user ids d.1)
  | inr (ctx, there) ↦
      rw there (sessions_of_absent inner user i ids d.0, sessions_of-Unique inner user ids d.1)
]

pub lookup-get_sessions :
    (m : SessionMap) (user sid : ℕ)
    → IsIndexed m
    → lookup sid (get_sessions m user) ≡ lookup (user, sid) m.inner
unfolding get_sessions
lookup-get_sessions m user sid v = elim (Bool-cases (member sid (indexed m user))) [
  | inl listed ↦ lookup-sessions_of m.inner user sid (indexed m user) (v.distinct user) listed
  | inr absent ↦
      sessions_of_absent m.inner user sid (indexed m user) absent
      ∙ sym (missing (lookup (user, sid) m.inner) (sym (v.listed user sid) ∙ absent))
]
  where
    missing : (o : Option SendCtx) → present o ≡ false → o ≡ none
    missing none e = refl
    missing (some ctx) e = cc e

-- The calls that change the sessions.
pub data Call : Type 0 where
  connects : ℕ → ℕ → SendCtx → Call
  disconnects : ℕ → ℕ → Call
  closes : ℕ → Call

unfoldable pub apply : SessionMap → Call → SessionMap
unfolding register unregister unregister_by_session_id
apply m (connects user sid ctx) = register m user sid ctx
apply m (disconnects user sid) = unregister m user sid
apply m (closes sid) = unregister_by_session_id m sid

unfoldable pub run : SessionMap → List Call → SessionMap
unfolding apply
run m [] = m
run m (call ∷ calls) = run (apply m call) calls

-- The abstract view: the session of a user under an id, if there is one.
abbrev pub Registered : Type 0
Registered = ℕ → ℕ → Option SendCtx

unfoldable pub change : Registered → Call → Registered
change reg (connects user sid ctx) u s = if pair_same (user, sid) (u, s) then some ctx else reg u s
change reg (disconnects user sid) u s = if pair_same (user, sid) (u, s) then none else reg u s
change reg (closes sid) u s = if s == sid then none else reg u s

unfoldable pub changed : Registered → List Call → Registered
unfolding change
changed reg [] = reg
changed reg (call ∷ calls) = changed (change reg call) calls

-- Keeps to the abstract view.
pub record Shows (m : SessionMap) (reg : Registered) : Type 0 where
  pub agrees : IsIndexed m
  pub shown : (user sid : ℕ) → lookup (user, sid) m.inner ≡ reg user sid

apply-Shows :
    (m : SessionMap) (reg : Registered) (call : Call)
    → Shows m reg
    → Shows (apply m call) (change reg call)
unfolding apply change register unregister unregister_by_session_id
apply-Shows m reg (connects user sid ctx) h = record {
  agrees = register-IsIndexed m user sid ctx h.agrees;
  shown = λ u s.
      lookup-insert (user, sid) (u, s) ctx m.inner
      ∙ ap (λ o. if pair_same (user, sid) (u, s) then some ctx else o) (h.shown u s);
}
apply-Shows m reg (disconnects user sid) h = record {
  agrees = unregister-IsIndexed m user sid h.agrees;
  shown = λ u s.
      lookup-remove (user, sid) (u, s) m.inner
      ∙ ap (λ o. if pair_same (user, sid) (u, s) then none else o) (h.shown u s);
}
apply-Shows m reg (closes sid) h = record {
  agrees = closed;
  shown = λ u s.
      lookup-unregister_by_session_id m sid u s
      ∙ ap (λ o. if s == sid then none else o) (h.shown u s);
}
  where
    closed : IsIndexed (unregister_by_session_id m sid)
    closed = unregister_all-IsIndexed m (keys_with sid m.inner) h.agrees

run-Shows :
    (m : SessionMap) (reg : Registered) (calls : List Call)
    → Shows m reg
    → Shows (run m calls) (changed reg calls)
unfolding run changed
run-Shows m reg [] h = h
run-Shows m reg (call ∷ calls) h =
    run-Shows (apply m call) (change reg call) calls (apply-Shows m reg call h)

-- Whatever sessions are registered, unregistered and closed, `get_sessions` gives each session that the
-- user then has, by its id, once and with its latest context, and no other.
pub get_sessions-run :
    (calls : List Call) (user : ℕ)
    → Unique (get_sessions (run new calls) user)
      × ((sid : ℕ)
          → lookup sid (get_sessions (run new calls) user) ≡ changed (λ u s. none) calls user sid)
unfolding get_sessions new lookup
get_sessions-run calls user =
    let h =
      run-Shows new (λ u s. none) calls
        (record { agrees = new-IsIndexed; shown = λ u s. empty u s }) in
    (
      sessions_of-Unique (run new calls).inner user (indexed (run new calls) user)
          (h.agrees.distinct user),
      λ sid. lookup-get_sessions (run new calls) user sid h.agrees ∙ h.shown user sid,
    )
  where
    empty : (u s : ℕ) → lookup (u, s) new.inner ≡ none
    empty u s = refl
