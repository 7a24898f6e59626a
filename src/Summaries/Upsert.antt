-- ===== src/Summaries/Upsert.antt =====
-- What upsert_summary does to the latest rows.
use panoptic.Common.{
  ℕ, ◌+◌, ◌≤◌, ◌≡◌, refl, sym, ap, ◌∙◌, Bool, true, false, Option, none, some, List, [], ◌∷◌, ◌++◌,
  if◌then◌else◌, ◌==◌, ==_iff, Bool-cases, inl, inr, arith, subst,
}
use panoptic.Float.{Float}
use panoptic.Summaries.{
  SummaryWindow, window_eq, SummaryRecord, is_latest_in, find_latest, has_summary, stored,
  insert_summary, supersede, upsert_found, upsert_summary,
}
use panoptic.Summaries.Latest.{
  latest_count, id_count, IsSound, latest_count-append, id_count-append, id_count-unknown,
  none_latest, find_latest-none, find_latest-append, supersede-append, id_count-supersede,
  latest_count-supersede-le, latest_count-supersede, find_latest-supersede, only_there,
  find_latest-last,
}
use panoptic.Summaries.Windows.{window_eq_refl, window_eq→≡}

module _ (F : Float) (now : ℕ) (r : SummaryRecord F) where
  -- The latest row of the record's window after the upsert, by whether the table has the record's id
  -- and by the latest row before.
  abbrev pub latest_after : Bool → Option (SummaryRecord F) → Option (SummaryRecord F)
  latest_after true none = none
  latest_after false none = some (stored F now 1 r)
  latest_after known (some s) =
      if s.summary_id == r.summary_id
      then some s
      else if known
      then none
      else some (stored F now (s.version + 1) r)

  stored-latest :
      (v : ℕ) (w : SummaryWindow) → is_latest_in F w (stored F now v r) ≡ window_eq r.window w
  unfolding is_latest_in stored
  stored-latest v w = ground arith

  stored-id : (v : ℕ) → (stored F now v r).summary_id ≡ r.summary_id
  unfolding stored
  stored-id v = refl

  module _ (v : ℕ) (rows : List (SummaryRecord F)) (new : has_summary F r.summary_id rows ≡ false)
      (sound : IsSound F rows) where
    -- A new row, in a window without a latest one.
    insert_last-IsSound :
        (before : List (SummaryRecord F))
        → ((k : ℕ) → id_count F k before ≡ id_count F k rows)
        → ((w : SummaryWindow) → latest_count F w before ≤ 1)
        → latest_count F r.window before ≡ 0
        → IsSound F (before ++ stored F now v r ∷ [])
    insert_last-IsSound before same few free = record {
      ids = λ k. elim (Bool-cases (r.summary_id == k)) [
        | inl e ↦
            let absent : id_count F k rows ≡ 0 =
              id_count-unknown F k rows
                (subst (λ i. has_summary F i rows ≡ false) ((==_iff r.summary_id k).0 e) new) in
            rw (id_count-append F k before (stored F now v r ∷ []), stored-id v, e)
              (omega (arith, same k))
        | inr e ↦
            rw (id_count-append F k before (stored F now v r ∷ []), stored-id v, e)
              (omega (arith, same k, sound.ids k))
      ];
      latest = λ w. elim (Bool-cases (window_eq r.window w)) [
        | inl e ↦
            let none_there : latest_count F w before ≡ 0 =
              subst (λ u. latest_count F u before ≡ 0) (window_eq→≡ r.window w e) free in
            rw (latest_count-append F w before (stored F now v r ∷ []), stored-latest v w, e)
              (omega arith)
        | inr e ↦
            rw (latest_count-append F w before (stored F now v r ∷ []), stored-latest v w, e)
              (omega (arith, few w))
      ];
    }

    supersede_last :
        (old_id : ℕ)
        → (r.summary_id == old_id) ≡ false
        → supersede F now r.summary_id old_id (stored F now v r ∷ []) ≡ stored F now v r ∷ []
    unfolding supersede stored
    supersede_last old_id e = rw e refl

    -- The row of the old id is superseded once the new row is there.
    supersede_inserted :
        (old_id : ℕ)
        → (r.summary_id == old_id) ≡ false
        → supersede F now r.summary_id old_id (insert_summary F now v r rows)
          ≡ supersede F now r.summary_id old_id rows ++ stored F now v r ∷ []
    unfolding insert_summary
    supersede_inserted old_id e =
        rw (new, supersede-append F now r.summary_id old_id rows (stored F now v r ∷ []))
          (ap (λ l. supersede F now r.summary_id old_id rows ++ l) (supersede_last old_id e))

    find_last :
        (before : List (SummaryRecord F))
        → latest_count F r.window before ≡ 0
        → find_latest F r.window (before ++ stored F now v r ∷ []) ≡ some (stored F now v r)
    unfolding find_latest
    find_last before free =
        rw
          (
            find_latest-append F r.window before (stored F now v r ∷ []) free,
            stored-latest v r.window,
            window_eq_refl r.window,
          )
          refl

    find_elsewhere :
        (before : List (SummaryRecord F)) (w : SummaryWindow)
        → window_eq r.window w ≡ false
        → find_latest F w (before ++ stored F now v r ∷ []) ≡ find_latest F w before
    find_elsewhere before w apart =
        find_latest-last F w before (stored F now v r) (stored-latest v w ∙ apart)

  -- What becomes of a table: it stays sound, the record's window gets its latest row, and the latest
  -- rows of the other windows are as they were.
  record Upserts (rows after : List (SummaryRecord F)) : Type 0 where
    sound : IsSound F after
    own :
        find_latest F r.window after
        ≡ latest_after (has_summary F r.summary_id rows) (find_latest F r.window rows)
    others :
        (w : SummaryWindow)
        → window_eq r.window w ≡ false
        → find_latest F w after ≡ find_latest F w rows

  module _ (rows : List (SummaryRecord F)) (sound : IsSound F rows) where
    unchanged :
        latest_after (has_summary F r.summary_id rows) (find_latest F r.window rows)
          ≡ find_latest F r.window rows
        → Upserts rows rows
    unchanged same = record { sound = sound; own = sym same; others = λ w apart. refl }

    inserted :
        find_latest F r.window rows ≡ none
        → has_summary F r.summary_id rows ≡ false
        → Upserts rows (rows ++ stored F now 1 r ∷ [])
    inserted free new =
        let empty = none_latest F r.window rows free in
        record {
          sound = insert_last-IsSound 1 rows new sound rows (λ k. refl) sound.latest empty;
          own = rw (new, free) (find_last 1 rows new sound rows empty);
          others = find_elsewhere 1 rows new sound rows;
        }

    module _ (s : SummaryRecord F) (found : find_latest F r.window rows ≡ some s)
        (apart : (s.summary_id == r.summary_id) ≡ false) where
      superseded : List (SummaryRecord F)
      superseded = supersede F now r.summary_id s.summary_id rows

      free : latest_count F r.window superseded ≡ 0
      unfolding superseded
      free =
          latest_count-supersede F now r.summary_id s.summary_id r.window rows s
            (sound.latest r.window) found refl

      same_ids : (k : ℕ) → id_count F k superseded ≡ id_count F k rows
      unfolding superseded
      same_ids = λ k. id_count-supersede F now r.summary_id s.summary_id k rows

      few : (w : SummaryWindow) → latest_count F w superseded ≤ 1
      unfolding superseded
      few = λ w.
          omega (
            arith,
            latest_count-supersede-le F now r.summary_id s.summary_id w rows,
            sound.latest w,
          )

      elsewhere :
          (w : SummaryWindow)
          → window_eq r.window w ≡ false
          → find_latest F w superseded ≡ find_latest F w rows
      unfolding superseded
      elsewhere w other =
          find_latest-supersede F now r.summary_id s.summary_id w rows
            (only_there F r.window w rows s (sound.ids s.summary_id) found other)

      -- The record's id is in the table already: the INSERT does nothing, and the UPDATE goes on.
      known_superseded : has_summary F r.summary_id rows ≡ true → Upserts rows superseded
      known_superseded known = record {
        sound = record { ids = λ k. omega (arith, same_ids k, sound.ids k); latest = few };
        own = rw (known, found, apart) (find_latest-none F r.window superseded free);
        others = elsewhere;
      }

      new_superseded :
          has_summary F r.summary_id rows ≡ false
          → Upserts rows (superseded ++ stored F now (s.version + 1) r ∷ [])
      new_superseded new = record {
        sound = insert_last-IsSound (s.version + 1) rows new sound superseded same_ids few free;
        own = rw (new, found, apart) (find_last (s.version + 1) rows new sound superseded free);
        others = λ w other.
            find_elsewhere (s.version + 1) rows new sound superseded w other ∙ elsewhere w other;
      }

      superseded_lem :
          Upserts rows (
            supersede F now r.summary_id s.summary_id (insert_summary F now (s.version + 1) r rows))
      unfolding insert_summary superseded
      superseded_lem = elim (Bool-cases (has_summary F r.summary_id rows)) [
        | inl known ↦ rw known (known_superseded known)
        | inr new ↦
            subst (Upserts rows)
              (sym (supersede_inserted (s.version + 1) rows new sound s.summary_id (ground arith)))
              (new_superseded new)
      ]

    upsert_found-Upserts :
        (o : Option (SummaryRecord F))
        → find_latest F r.window rows ≡ o
        → Upserts rows (upsert_found F now r o rows).0
    unfolding upsert_found insert_summary
    upsert_found-Upserts none found = elim (Bool-cases (has_summary F r.summary_id rows)) [
      | inl known ↦ rw known (unchanged (rw (known, found) refl))
      | inr new ↦ rw new (inserted found new)
    ]
    upsert_found-Upserts (some s) found = elim (Bool-cases (s.summary_id == r.summary_id)) [
      | inl own ↦ rw own (unchanged (rw found (rw own refl)))
      | inr apart ↦ rw apart (superseded_lem s found apart)
    ]

    upsert-Upserts : Upserts rows (upsert_summary F now r rows).0
    unfolding upsert_summary
    upsert-Upserts = upsert_found-Upserts (find_latest F r.window rows) refl

    -- On a table with distinct ids and at most one latest row for each window, upsert_summary keeps
    -- both. The latest rows of other windows stay as they are. In the record's own window the latest
    -- row is the same as before, if it has the record's id; and otherwise the record, stored with the
    -- next version, if the table did not have its id; but if an older row has that id, no row of the
    -- window is the latest one any more.
    pub upsert_summary_latest :
        (w : SummaryWindow)
        → IsSound F (upsert_summary F now r rows).0
          × (find_latest F w (upsert_summary F now r rows).0 ≡ (
              if window_eq r.window w
              then latest_after (has_summary F r.summary_id rows) (find_latest F r.window rows)
              else find_latest F w rows))
    upsert_summary_latest w = elim (Bool-cases (window_eq r.window w)) [
      | inl e ↦ (
        upsert-Upserts.sound,
        rw e (
            ap (λ u. find_latest F u (upsert_summary F now r rows).0)
              (sym (window_eq→≡ r.window w e))
            ∙ upsert-Upserts.own),
      )
      | inr e ↦ (upsert-Upserts.sound, rw e (upsert-Upserts.others w e))
    ]
