-- ===== src/StreamForwarder/Cleanup.antt =====
-- `cleanup_stale_viewers`: which viewer loops stay.
use tsod.Prelude.{
  ℕ, ◌-◌, ◌≤◌, ◌↔◌, arith, ◌≡◌, refl, sym, ap, ◌∙◌, Bool, true, false, ◌||◌, Option, none, some,
  List, [], ◌∷◌, if◌then◌else◌, Bool-cases, Option-cases, inl, inr,
}
use tsod.Prelude.Maps.{lookup, remove, pair_key, pair_same, pair_same_iff, lookup-remove, Unique}
use tsod.StreamForwarder.ViewerLoops.{
  Loops, ViewerLoopEntry, is_stale, stale_keys, remove_all, cleanup_stale_viewers,
}

unfoldable listed : ℕ × ℕ → List (ℕ × ℕ) → Bool
listed key [] = false
listed key (k ∷ rest) = pair_same k key || listed key rest

lookup-remove_all :
    (key : ℕ × ℕ) (keys : List (ℕ × ℕ)) (loops : Loops)
    → lookup key (remove_all keys loops) ≡ (if listed key keys then none else lookup key loops)
unfolding remove_all listed
lookup-remove_all key [] loops = refl
lookup-remove_all key (k ∷ keys) loops = elim (Bool-cases (pair_same k key)) [
  | inl here ↦ rw here (
      lookup-remove_all key keys (remove k loops)
      ∙ rw (lookup-remove k key loops, here) (either (listed key keys)))
  | inr there ↦
      rw there (
        lookup-remove_all key keys (remove k loops)
        ∙ rw (lookup-remove k key loops) (rw there refl))
]
  where
    either : (b : Bool) {o : Option ViewerLoopEntry} → (if b then o else o) ≡ o
    either true = refl
    either false = refl

module _ (now_ms max_idle_ms : ℕ) where
  listed-none :
      (key : ℕ × ℕ) (loops : Loops)
      → lookup key loops ≡ none
      → listed key (stale_keys now_ms max_idle_ms loops) ≡ false
  unfolding stale_keys listed lookup
  listed-none key [] absent = refl
  listed-none key ((k, entry) ∷ rest) absent = elim (Bool-cases (pair_same k key)) [
    | inl here ↦
        let found : lookup key ((k, entry) ∷ rest) ≡ some entry = rw (here, lookup) refl in
        cc (found, absent)
    | inr there ↦
        let later = listed-none key rest (rw (there, lookup) at absent) in
        elim (Bool-cases (is_stale now_ms max_idle_ms entry)) [
          | inl stale ↦ rw stale (rw there later)
          | inr fresh ↦ rw fresh later
        ]
  ]

  listed-some :
      (key : ℕ × ℕ) (loops : Loops) (e : ViewerLoopEntry)
      → Unique loops
      → lookup key loops ≡ some e
      → listed key (stale_keys now_ms max_idle_ms loops) ≡ is_stale now_ms max_idle_ms e
  unfolding stale_keys listed lookup
  listed-some key [] e u found = cc found
  listed-some key ((k, entry) ∷ rest) e u found = elim (Bool-cases (pair_same k key)) [
    | inl here ↦
        let opened : some entry ≡ some e = rw (here, lookup) at found in
        let same : entry ≡ e = cc opened in
        let alone : lookup key rest ≡ none =
          ap (λ j. lookup j rest) (sym ((pair_same_iff k key).0 here)) ∙ u.0 in
        elim (Bool-cases (is_stale now_ms max_idle_ms entry)) [
          | inl stale ↦ rw stale (rw here (sym stale ∙ ap (is_stale now_ms max_idle_ms) same))
          | inr fresh ↦
              rw fresh
                (listed-none key rest alone ∙ sym fresh ∙ ap (is_stale now_ms max_idle_ms) same)
        ]
    | inr there ↦
        let later = listed-some key rest e u.1 (rw (there, lookup) at found) in
        elim (Bool-cases (is_stale now_ms max_idle_ms entry)) [
          | inl stale ↦ rw stale (rw there later)
          | inr fresh ↦ rw fresh later
        ]
  ]

-- An entry that is not stale.
abbrev pub fresh : ℕ → ℕ → Option ViewerLoopEntry → Option ViewerLoopEntry
fresh now_ms max_idle_ms none = none
fresh now_ms max_idle_ms (some entry) =
    if is_stale now_ms max_idle_ms entry then none else some entry

-- An entry that is not stale has been active lately and its task runs.
pub fresh_iff :
    (now_ms max_idle_ms : ℕ) (entry : ViewerLoopEntry) (o : Option ViewerLoopEntry)
    → (fresh now_ms max_idle_ms o ≡ some entry) ↔ (
        (o ≡ some entry)
        × (now_ms - entry.last_activity_ms ≤ max_idle_ms)
        × (entry.finished ≡ false)
        × (entry.closed ≡ false))
fresh_iff now_ms max_idle_ms entry none = (λ e. cc e, λ h. cc (h.0))
fresh_iff now_ms max_idle_ms entry (some e) = (to, from)
  where
    running :
        is_stale now_ms max_idle_ms entry ≡ false
        → (now_ms - entry.last_activity_ms ≤ max_idle_ms)
          × (entry.finished ≡ false)
          × (entry.closed ≡ false)
    running f = (ground (arith, f), ground (arith, f), ground (arith, f))

    to :
        fresh now_ms max_idle_ms (some e) ≡ some entry
        → (some e ≡ some entry)
          × (now_ms - entry.last_activity_ms ≤ max_idle_ms)
          × (entry.finished ≡ false)
          × (entry.closed ≡ false)
    to kept = elim (Bool-cases (is_stale now_ms max_idle_ms e)) [
      | inl stale ↦ let gone : none ≡ some entry = rw stale at kept in cc gone
      | inr active ↦
          let same : some e ≡ some entry = rw active at kept in
          let at : e ≡ entry = cc same in
          let (lately, unfinished, unclosed) =
            running (ap (is_stale now_ms max_idle_ms) (sym at) ∙ active) in
          (same, lately, unfinished, unclosed)
    ]

    from :
        (some e ≡ some entry)
          × (now_ms - entry.last_activity_ms ≤ max_idle_ms)
          × (entry.finished ≡ false)
          × (entry.closed ≡ false)
        → fresh now_ms max_idle_ms (some e) ≡ some entry
    from (same, lately, unfinished, unclosed) =
        let at : e ≡ entry = cc same in
        let active : is_stale now_ms max_idle_ms entry ≡ false =
          ground (arith, lately, unfinished, unclosed) in
        let here : is_stale now_ms max_idle_ms e ≡ false =
          ap (is_stale now_ms max_idle_ms) at ∙ active in
        rw here same

pub lookup-cleanup_stale_viewers :
    (loops : Loops) (now_ms max_idle_ms : ℕ) (key : ℕ × ℕ)
    → Unique loops
    → lookup key (cleanup_stale_viewers loops now_ms max_idle_ms)
      ≡ fresh now_ms max_idle_ms (lookup key loops)
unfolding cleanup_stale_viewers
lookup-cleanup_stale_viewers loops now_ms max_idle_ms key u =
    let removed = lookup-remove_all key (stale_keys now_ms max_idle_ms loops) loops in
    elim (Option-cases (lookup key loops)) [
      | inl absent ↦ removed ∙ rw (listed-none now_ms max_idle_ms key loops absent) (rw absent refl)
      | inr (e, found) ↦
          removed ∙ rw (listed-some now_ms max_idle_ms key loops e u found) (rw found refl)
    ]
