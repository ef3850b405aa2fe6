-- ===== src/SharePolicy/Layers.antt =====
-- The layer that is chosen among those a share has.
use tsod.Prelude.{
  ℕ, ◌≤◌, ◌<◌, min, max, ◌≡◌, ◌≢◌, refl, ap, subst, ◌∙◌, Bool, true, false, Option, none, some,
  List, [], ◌∷◌, arith, leb, ◌==◌, ==_iff, contains, retain, Bool-cases, Option-cases, inl, inr,
}
use tsod.SharePolicy.{greatest, least, max_with, min_with, select_active_share_layer, active_layer}

-- `l` is among the layers, and the greatest that is not above the request; if all are above it, the
-- least.
pub record IsBest (requested : ℕ) (layers : List ℕ) (l : ℕ) : Type 0 where
  pub member : contains layers l ≡ true
  pub below : (m : ℕ) → contains layers m ≡ true → m ≤ requested → (m ≤ l) × (l ≤ requested)
  pub above : requested < l → (m : ℕ) → contains layers m ≡ true → l ≤ m

abbrev Greatest : (ℕ → Bool) → List ℕ → Option ℕ → Type 0
Greatest p layers none = (m : ℕ) → contains layers m ≡ true → p m ≡ false
Greatest p layers (some l) =
    (contains layers l ≡ true)
    × (p l ≡ true)
    × ((m : ℕ) → contains layers m ≡ true → p m ≡ true → m ≤ l)

Greatest-max_with :
    (p : ℕ → Bool) (l : ℕ) (rest : List ℕ) (o : Option ℕ)
    → p l ≡ true
    → Greatest p rest o
    → Greatest p (l ∷ rest) (max_with l o)
Greatest-max_with p l rest none pl g =
    (ground arith, pl, λ m inside pm. let h = g m in ground (arith, h, inside, pm))
Greatest-max_with p l rest (some k) pl (inside, pk, most) = elim (Bool-cases (leb l k)) [
  | inl up ↦
      let top : max l k ≡ k = ground (arith, up) in
      rw top (
        ground (arith, inside),
        pk,
        λ m found pm. let h = most m in ground (arith, h, found, pm, up),
      )
  | inr down ↦
      let top : max l k ≡ l = ground (arith, down) in
      rw top (ground arith, pl, λ m found pm. let h = most m in ground (arith, h, found, pm, down))
]

Greatest-skip :
    (p : ℕ → Bool) (l : ℕ) (rest : List ℕ) (o : Option ℕ)
    → p l ≡ false
    → Greatest p rest o
    → Greatest p (l ∷ rest) o
Greatest-skip p l rest none pl g = λ m inside. elim (Bool-cases (m == l)) [
  | inl here ↦ rw ((==_iff m l).0 here) pl
  | inr there ↦ g m (ground (arith, inside, there))
]
Greatest-skip p l rest (some k) pl (inside, pk, most) = (
  ground (arith, inside),
  pk,
  λ m found pm. elim (Bool-cases (m == l)) [
    | inl here ↦ let both : p m ≡ false = ap p ((==_iff m l).0 here) ∙ pl in cc (both, pm)
    | inr there ↦ most m (ground (arith, found, there)) pm
  ],
)

greatest-Greatest :
    (p : ℕ → Bool) (layers : List ℕ) → Greatest p layers (greatest (retain p layers))
unfolding greatest
greatest-Greatest p [] = λ m h. absurd (ground arith)
greatest-Greatest p (l ∷ rest) = elim (Bool-cases (p l)) [
  | inl kept ↦
      rw (kept, greatest)
        (Greatest-max_with p l rest (greatest (retain p rest)) kept (greatest-Greatest p rest))
  | inr gone ↦
      rw gone (Greatest-skip p l rest (greatest (retain p rest)) gone (greatest-Greatest p rest))
]

abbrev Least : List ℕ → Option ℕ → Type 0
Least layers none = layers ≡ []
Least layers (some l) = (contains layers l ≡ true) × ((m : ℕ) → contains layers m ≡ true → l ≤ m)

Least-min_with :
    (l : ℕ) (rest : List ℕ) (o : Option ℕ) → Least rest o → Least (l ∷ rest) (min_with l o)
Least-min_with l rest none nobody = (
  ground arith,
  λ m found.
      let h : contains rest m ≡ false = ap (λ ls. contains ls m) nobody in ground (arith, found, h),
)
Least-min_with l rest (some k) (inside, lowest) = elim (Bool-cases (leb l k)) [
  | inl down ↦
      let low : min l k ≡ l = ground (arith, down) in
      rw low (ground arith, λ m found. let h = lowest m in ground (arith, h, found, down))
  | inr up ↦
      let low : min l k ≡ k = ground (arith, up) in
      rw low (ground (arith, inside), λ m found. let h = lowest m in ground (arith, h, found, up))
]

least-Least : (layers : List ℕ) → Least layers (least layers)
unfolding least
least-Least [] = refl
least-Least (l ∷ rest) = Least-min_with l rest (least rest) (least-Least rest)

-- A share that has layers always has one selected, and it is the requested layer if the share has it,
-- else the greatest below, else the least of all.
pub select_active_share_layer-IsBest :
    (requested : ℕ) (layers : List ℕ)
    → layers ≢ []
    → (l : ℕ) × (select_active_share_layer requested layers ≡ some l) × IsBest requested layers l
unfolding select_active_share_layer
select_active_share_layer-IsBest requested layers nonempty =
    elim (Bool-cases (contains layers requested)) [
      | inl exact ↦ (
        requested,
        rw exact refl,
        record {
          member = exact;
          below = λ m inside under. (under, omega arith);
          above = λ over m inside. absurd (omega (arith, over));
        },
      )
      | inr missing ↦ elim (Option-cases (greatest (retain under layers))) [
        | inl none_below ↦ elim (Option-cases (least layers)) [
          | inl no_least ↦ absurd (nonempty (subst (Least layers) no_least (least-Least layers)))
          | inr (k, lowest) ↦
              let low = subst (Least layers) lowest (least-Least layers) in
              let over =
                subst (Greatest under layers) none_below (greatest-Greatest under layers) in
              (
                k,
                rw missing (rw none_below lowest),
                record {
                  member = low.0;
                  below = λ m inside u. let h = over m inside in absurd (ground (arith, h, u));
                  above = λ o m inside. low.1 m inside;
                },
              )
        ]
        | inr (k, highest) ↦
            let high = subst (Greatest under layers) highest (greatest-Greatest under layers) in
            (
              k,
              rw missing (rw highest refl),
              record {
                member = high.0;
                below = λ m inside u.
                    let h = high.2 m inside in let f = high.1 in ground (arith, h, u, f);
                above = λ o m inside. let f = high.1 in absurd (ground (arith, f, o));
              },
            )
      ]
    ]
  where
    under : ℕ → Bool
    under l = leb l requested

-- The gateway's choice among a share's layers is the client's.
pub active_layer-select_active_share_layer :
    (requested : ℕ) (layers : List ℕ)
    → layers ≢ []
    → select_active_share_layer requested layers ≡ some (active_layer requested layers)
unfolding select_active_share_layer active_layer
active_layer-select_active_share_layer requested layers nonempty =
    elim (Bool-cases (contains layers requested)) [
      | inl exact ↦ rw exact refl
      | inr missing ↦ elim (Option-cases (greatest (retain (λ l. leb l requested) layers))) [
        | inl none_below ↦ elim (Option-cases (least layers)) [
          | inl no_least ↦ absurd (nonempty (subst (Least layers) no_least (least-Least layers)))
          | inr (k, lowest) ↦ rw missing (rw none_below (rw lowest refl))
        ]
        | inr (k, highest) ↦ rw missing (rw highest refl)
      ]
    ]
