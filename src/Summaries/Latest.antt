-- ===== src/Summaries/Latest.antt =====
-- Which summary of a window is the latest one.
use panoptic.Common.{
  ℕ, ◌+◌, ◌≤◌, ◌≡◌, refl, ap, ◌∙◌, true, false, Option, none, some, some-injective, List, [], ◌∷◌,
  ◌++◌, if◌then◌else◌, ◌==◌, ==_refl, Bool-cases, inl, inr, arith, All, subst,
}
use mathlib.Core.Option
use panoptic.Float.{Float}
use panoptic.Summaries.{
  SummaryWindow, window_eq, SummaryRecord, is_latest_in, find_latest, has_summary, set_superseded,
  supersede,
}
use panoptic.Summaries.Windows.{window_eq→≡}

module _ (F : Float) where
  -- How many rows of the window are the latest one, and how many rows have the id.
  abbrev pub latest_count : SummaryWindow → List (SummaryRecord F) → ℕ
  latest_count w [] = 0
  latest_count w (r ∷ rows) = (if is_latest_in F w r then 1 else 0) + latest_count w rows

  abbrev pub id_count : ℕ → List (SummaryRecord F) → ℕ
  id_count k [] = 0
  id_count k (r ∷ rows) = (if r.summary_id == k then 1 else 0) + id_count k rows

  -- The ids are distinct, and no window has two latest rows.
  pub record IsSound (rows : List (SummaryRecord F)) : Type 0 where
    pub ids : (k : ℕ) → id_count k rows ≤ 1
    pub latest : (w : SummaryWindow) → latest_count w rows ≤ 1

  -- The id of the latest row of a window.
  abbrev pub latest_id : SummaryWindow → List (SummaryRecord F) → Option ℕ
  latest_id w rows = Option.map (λ r. r.summary_id) (find_latest F w rows)

  pub latest_count-append :
      (w : SummaryWindow) (xs ys : List (SummaryRecord F))
      → latest_count w (xs ++ ys) ≡ latest_count w xs + latest_count w ys
  latest_count-append w [] ys = omega arith
  latest_count-append w (x ∷ xs) ys = omega (arith, latest_count-append w xs ys)

  pub id_count-append :
      (k : ℕ) (xs ys : List (SummaryRecord F))
      → id_count k (xs ++ ys) ≡ id_count k xs + id_count k ys
  id_count-append k [] ys = omega arith
  id_count-append k (x ∷ xs) ys = omega (arith, id_count-append k xs ys)

  pub id_count-unknown :
      (k : ℕ) (rows : List (SummaryRecord F)) → has_summary F k rows ≡ false → id_count k rows ≡ 0
  unfolding has_summary
  id_count-unknown k [] h = refl
  id_count-unknown k (x ∷ rows) h = ground (arith, id_count-unknown k rows)

  pub none_latest :
      (w : SummaryWindow) (rows : List (SummaryRecord F))
      → find_latest F w rows ≡ none
      → latest_count w rows ≡ 0
  unfolding find_latest
  none_latest w [] h = refl
  none_latest w (x ∷ rows) h = ground (arith, none_latest w rows)

  pub find_latest-none :
      (w : SummaryWindow) (rows : List (SummaryRecord F))
      → latest_count w rows ≡ 0
      → find_latest F w rows ≡ none
  unfolding find_latest
  find_latest-none w [] h = refl
  find_latest-none w (x ∷ rows) h = ground (arith, find_latest-none w rows)

  pub find_latest-append :
      (w : SummaryWindow) (xs ys : List (SummaryRecord F))
      → latest_count w xs ≡ 0
      → find_latest F w (xs ++ ys) ≡ find_latest F w ys
  unfolding find_latest
  find_latest-append w [] ys h = refl
  find_latest-append w (x ∷ xs) ys h = ground (arith, find_latest-append w xs ys)

  module _ (now new_id old_id : ℕ) where
    pub supersede-append :
        (xs ys : List (SummaryRecord F))
        → supersede F now new_id old_id (xs ++ ys)
          ≡ supersede F now new_id old_id xs ++ supersede F now new_id old_id ys
    unfolding supersede
    supersede-append [] ys = refl
    supersede-append (x ∷ xs) ys =
        ap (λ l. (if x.summary_id == old_id then set_superseded F now new_id x else x) ∷ l)
          (supersede-append xs ys)

    pub id_count-supersede :
        (k : ℕ) (rows : List (SummaryRecord F))
        → id_count k (supersede F now new_id old_id rows) ≡ id_count k rows
    unfolding supersede
    id_count-supersede k [] = refl
    id_count-supersede k (x ∷ rows) = ground (arith, id_count-supersede k rows)

    pub superseded_not_latest :
        (w : SummaryWindow) (x : SummaryRecord F)
        → is_latest_in F w (set_superseded F now new_id x) ≡ false
    unfolding is_latest_in
    superseded_not_latest w x = ground arith

    pub latest_count-supersede-le :
        (w : SummaryWindow) (rows : List (SummaryRecord F))
        → latest_count w (supersede F now new_id old_id rows) ≤ latest_count w rows
    unfolding supersede
    latest_count-supersede-le w [] = omega arith
    latest_count-supersede-le w (x ∷ rows) = elim (Bool-cases (x.summary_id == old_id)) [
      | inl e ↦ rw (e, superseded_not_latest w x) (omega (arith, latest_count-supersede-le w rows))
      | inr e ↦ rw e (omega (arith, latest_count-supersede-le w rows))
    ]

    -- The row that is superseded was the only latest one.
    pub latest_count-supersede :
        (w : SummaryWindow) (rows : List (SummaryRecord F)) (s : SummaryRecord F)
        → latest_count w rows ≤ 1
        → find_latest F w rows ≡ some s
        → s.summary_id ≡ old_id
        → latest_count w (supersede F now new_id old_id rows) ≡ 0
    unfolding find_latest supersede
    latest_count-supersede w [] s one found same = cc
    latest_count-supersede w (x ∷ rows) s one found same = elim (Bool-cases (is_latest_in F w x)) [
      | inl e ↦
          let own : x ≡ s = some-injective _ _ (rw e at found) in
          let it : (x.summary_id == old_id) ≡ true =
            ap (λ (y : SummaryRecord F). y.summary_id == old_id) own
            ∙ ap (λ i. i == old_id) same
            ∙ ==_refl old_id in
          rw (it, superseded_not_latest w x)
            (omega (arith, latest_count-supersede-le w rows, rw e at one))
      | inr e ↦
          let few : latest_count w rows ≤ 1 = omega (arith, rw e at one) in
          let rest = latest_count-supersede w rows s few (rw e at found) same in
          elim (Bool-cases (x.summary_id == old_id)) [
            | inl it ↦ rw (it, superseded_not_latest w x) (omega arith)
            | inr other ↦ rw (other, e) (omega arith)
          ]
    ]

    -- Rows of another id keep their place.
    pub find_latest-supersede :
        (w : SummaryWindow) (rows : List (SummaryRecord F))
        → All (λ x. (x.summary_id == old_id) ≡ true → is_latest_in F w x ≡ false) rows
        → find_latest F w (supersede F now new_id old_id rows) ≡ find_latest F w rows
    unfolding find_latest supersede
    find_latest-supersede w [] h = refl
    find_latest-supersede w (x ∷ rows) h = elim (Bool-cases (x.summary_id == old_id)) [
      | inl e ↦ rw (e, superseded_not_latest w x, h.0 e) (find_latest-supersede w rows h.1)
      | inr e ↦ rw (e, find_latest-supersede w rows h.1) refl
    ]

  pub find_latest-mem :
      (w : SummaryWindow) (rows : List (SummaryRecord F)) (s : SummaryRecord F)
      → find_latest F w rows ≡ some s
      → (1 ≤ id_count s.summary_id rows) × (is_latest_in F w s ≡ true)
  unfolding find_latest
  find_latest-mem w [] s h = cc
  find_latest-mem w (x ∷ rows) s h = elim (Bool-cases (is_latest_in F w x)) [
    | inl e ↦
        let own : x ≡ s = some-injective _ _ (rw e at h) in
        subst (λ y. (1 ≤ id_count y.summary_id (x ∷ rows)) × (is_latest_in F w y ≡ true)) own
          (rw (==_refl x.summary_id) (omega arith), e)
    | inr e ↦ let (n, l) = find_latest-mem w rows s (rw e at h) in (omega (arith, n), l)
  ]

  -- A row of one window is in no other.
  pub other_window :
      (v w : SummaryWindow) (x : SummaryRecord F)
      → is_latest_in F v x ≡ true
      → window_eq v w ≡ false
      → is_latest_in F w x ≡ false
  unfolding is_latest_in
  other_window v w x h k =
      let there : window_eq x.window v ≡ true = ground arith in
      rw (ap (λ u. window_eq u w) (window_eq→≡ x.window v there) ∙ k) refl

  pub absent_id :
      (k : ℕ) (P : SummaryRecord F → Type 0) (rows : List (SummaryRecord F))
      → id_count k rows ≡ 0
      → All (λ x. (x.summary_id == k) ≡ true → P x) rows
  absent_id k P [] h = tt
  absent_id k P (x ∷ rows) h =
      (λ e. absurd (omega (arith, rw e at h)), absent_id k P rows (omega arith))

  -- Elsewhere no latest row has the id of this window's latest row.
  pub only_there :
      (v w : SummaryWindow) (rows : List (SummaryRecord F)) (s : SummaryRecord F)
      → id_count s.summary_id rows ≤ 1
      → find_latest F v rows ≡ some s
      → window_eq v w ≡ false
      → All (λ x. (x.summary_id == s.summary_id) ≡ true → is_latest_in F w x ≡ false) rows
  unfolding find_latest
  only_there v w [] s one found apart = tt
  only_there v w (x ∷ rows) s one found apart = elim (Bool-cases (is_latest_in F v x)) [
    | inl e ↦
        let own : x ≡ s = some-injective _ _ (rw e at found) in
        let it : (x.summary_id == s.summary_id) ≡ true =
          ap (λ (y : SummaryRecord F). y.summary_id == s.summary_id) own ∙ ==_refl s.summary_id in
        (
          λ _. other_window v w x e apart,
          absent_id s.summary_id (λ y. is_latest_in F w y ≡ false) rows
              (omega (arith, rw it at one)),
        )
    | inr e ↦
        let (n, _) = find_latest-mem v rows s (rw e at found) in
        (
          λ it. absurd (omega (arith, rw it at one, n)),
          only_there v w rows s (omega (arith, one)) (rw e at found) apart,
        )
  ]

  pub find_latest-last :
      (w : SummaryWindow) (rows : List (SummaryRecord F)) (x : SummaryRecord F)
      → is_latest_in F w x ≡ false
      → find_latest F w (rows ++ x ∷ []) ≡ find_latest F w rows
  unfolding find_latest
  find_latest-last w [] x h = rw h refl
  find_latest-last w (y ∷ rows) x h = ground (arith, find_latest-last w rows x h)
