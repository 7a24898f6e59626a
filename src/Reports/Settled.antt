-- ===== src/Reports/Settled.antt =====
-- How a report_generate job leaves its row.
use panoptic.Common.{
  ℕ, ◌≡◌, refl, sym, ap, ◌∙◌, ◌⊎◌, ◌++◌, codes, subst, Bool, true, false, Option, none, some, List,
  [], ◌∷◌, if◌then◌else◌, ◌==◌, ==_refl, take, Bool-cases, inl, inr, arith,
}
use panoptic.Jobs.Model.{Text}
use panoptic.Summaries.Frames.{option_map}
use panoptic.Reports.Job.{
  ReportStatus, ReportKind, daily, weekly, other, pending, running, success, failed, ReportRow,
  ReportJobState, succeeded, ReportCalls, ReportRun, report_raises, report_ends, report_fails,
  after_mark, after_release, write_success, failed_terminal, Generated, written, raised,
  find_report, update_report, set_status, mark_status, set_success, is_successful, generate,
  finish_report, run_found, run_report_generate_job,
}

find_report-update :
    (id k : ℕ) (f : ReportRow → ReportRow) (rows : List ReportRow)
    → ((r : ReportRow) → (f r).report_id ≡ r.report_id)
    → find_report k (update_report id f rows)
      ≡ (if k == id then option_map f (find_report k rows) else find_report k rows)
unfolding find_report update_report
find_report-update id k f [] keeps = ground arith
find_report-update id k f (r ∷ rows) keeps =
    ground (arith, keeps r, find_report-update id k f rows keeps)

abbrev pub is_failed : ReportStatus → Bool
is_failed failed = true
is_failed pending = false
is_failed running = false
is_failed success = false

-- The row of another id.
abbrev pub other_row : ℕ → ℕ → List ReportRow → Option ReportRow
other_row id k rows = if k == id then none else find_report k rows

module _ (id : ℕ) (f : ReportRow → ReportRow)
    (keeps : (r : ReportRow) → (f r).report_id ≡ r.report_id) where
  find_own :
      (rows : List ReportRow) (r : ReportRow)
      → find_report id rows ≡ some r
      → find_report id (update_report id f rows) ≡ some (f r)
  find_own rows r h = find_report-update id id f rows keeps ∙ rw (==_refl id) (ap (option_map f) h)

  find_other :
      (k : ℕ) (rows : List ReportRow)
      → other_row id k (update_report id f rows) ≡ other_row id k rows
  find_other k rows = elim (Bool-cases (k == id)) [
    | inl e ↦ rw e refl
    | inr e ↦ rw e (find_report-update id k f rows keeps ∙ rw e refl)
  ]

-- The row's status agrees with the state that the job returned: a success that was committed leaves a
-- successful row, and a failure a failed row or none. After an exception, or a success that was rolled
-- back, the row is as it was, or it is running.
abbrev pub IsLeft : Option ReportJobState → Bool → Option ReportRow → Option ReportRow → Type 0
IsLeft (some succeeded) true before after =
    (r : ReportRow) × (after ≡ some r) × (is_successful r.status ≡ true)
IsLeft (some failed_terminal) committed before after =
    (after ≡ none) ⊎ ((r : ReportRow) × (after ≡ some r) × (is_failed r.status ≡ true))
IsLeft (some succeeded) false before after =
    (after ≡ before) ⊎ (after ≡ option_map (set_status running none) before)
IsLeft none committed before after =
    (after ≡ before) ⊎ (after ≡ option_map (set_status running none) before)

-- After a run that left a committed success a further one has nothing to do.
abbrev pub HasNoMore : ReportCalls → ℕ → Option ReportJobState → Bool → List ReportRow → Type 0
HasNoMore C id (some succeeded) true rows =
    run_report_generate_job C (some id) rows
    ≡ (if C.select_up then report_ends succeeded rows else report_raises rows)
HasNoMore C id (some succeeded) false rows = Unit
HasNoMore C id (some failed_terminal) committed rows = Unit
HasNoMore C id none committed rows = Unit

again_done :
    (id : ℕ) (rows : List ReportRow) (r : ReportRow)
    → find_report id rows ≡ some r
    → is_successful r.status ≡ true
    → (C : ReportCalls) → HasNoMore C id (some succeeded) true rows
unfolding run_report_generate_job run_found
again_done id rows r found done C =
    ap (λ x. if C.select_up then x else report_raises rows)
      (ap (λ o. run_found C id o rows) found ∙ rw done refl)

-- Nothing was written for the worker to commit.
released_same :
    (id : ℕ) (committed : Bool) (run : ReportRun)
    → run.written_path ≡ none
    → after_release id committed run ≡ run.rows
unfolding after_release write_success
released_same id true run e = rw e refl
released_same id false run e = refl

module _ (id k : ℕ) (D : ReportCalls) (rows : List ReportRow) where
  pub record Ends (committed : Bool) (run : ReportRun) : Type 0 where
    pub own :
        IsLeft run.state committed
          (find_report id rows)
          (find_report id (after_release id committed run))
    pub others : other_row id k (after_release id committed run) ≡ other_row id k rows
    pub again : HasNoMore D id run.state committed (after_release id committed run)

  -- The report was there already.
  done-Ends :
      (committed : Bool) (r : ReportRow)
      → find_report id rows ≡ some r
      → is_successful r.status ≡ true
      → Ends committed (report_ends succeeded rows)
  unfolding report_ends after_release write_success
  done-Ends true r found done = record {
    own = (r, found, done);
    others = refl;
    again = again_done id rows r found done D;
  }
  done-Ends false r found done = record { own = inl refl; others = refl; again = tt }

  module _ (r : ReportRow) (found : find_report id rows ≡ some r) where
    abbrev marked : List ReportRow
    marked = update_report id (set_status running none) rows

    marked-own : find_report id marked ≡ some (set_status running none r)
    marked-own = find_own id (set_status running none) (λ x. refl) rows r found

    marked-others : other_row id k marked ≡ other_row id k rows
    marked-others = find_other id (set_status running none) (λ x. refl) k rows

    marked-left : find_report id marked ≡ option_map (set_status running none) (find_report id rows)
    marked-left = marked-own ∙ ap (option_map (set_status running none)) (sym found)

    -- The report was written.
    written-Ends :
        (committed : Bool) (path : ℕ)
        → Ends committed
            (record { state = some succeeded; rows = marked; written_path = some path })
    unfolding after_release write_success
    written-Ends true path =
        let there =
          find_own id (set_success path) (λ x. refl) marked (set_status running none r)
            marked-own in
        record {
          own = (_, there, refl);
          others = find_other id (set_success path) (λ x. refl) k marked ∙ marked-others;
          again = again_done id _ _ there refl D;
        }
    written-Ends false path = record { own = inr marked-left; others = marked-others; again = tt }

  module _ (committed : Bool) where
    if-Ends :
        (b : Bool) (x y : ReportRun)
        → (b ≡ true → Ends committed x)
        → (b ≡ false → Ends committed y)
        → Ends committed (if b then x else y)
    if-Ends true x y hx hy = hx refl
    if-Ends false x y hx hy = hy refl

    mark-Ends :
        (up : Bool) (status : ReportStatus) (error : Option Text) (rows' : List ReportRow)
        (next : List ReportRow → ReportRun) (lost : ReportRun)
        → Ends committed (next (update_report id (set_status status error) rows'))
        → Ends committed lost
        → Ends committed (after_mark (mark_status up id status error rows') next lost)
    unfolding mark_status after_mark
    mark-Ends true status error rows' next lost there raises = there
    mark-Ends false status error rows' next lost there raises = raises

    raises-Ends :
        (rows' : List ReportRow)
        → IsLeft none committed (find_report id rows) (find_report id rows')
        → other_row id k rows' ≡ other_row id k rows
        → Ends committed (report_raises rows')
    unfolding report_raises
    raises-Ends rows' own others =
        let same = released_same id committed (report_raises rows') refl in
        record {
          own =
              subst (λ x. IsLeft none committed (find_report id rows) (find_report id x)) (sym same)
                own;
          others = ap (other_row id k) same ∙ others;
          again = tt;
        }

    failed-Ends :
        (rows' : List ReportRow)
        → IsLeft (some failed_terminal) committed (find_report id rows) (find_report id rows')
        → other_row id k rows' ≡ other_row id k rows
        → Ends committed (report_ends failed_terminal rows')
    unfolding report_ends
    failed-Ends rows' own others =
        let same = released_same id committed (report_ends failed_terminal rows') refl in
        record {
          own =
              subst
                (λ x.
                  IsLeft (some failed_terminal) committed (find_report id rows) (find_report id x))
                (sym same) own;
          others = ap (other_row id k) same ∙ others;
          again = tt;
        }

    module _ (C : ReportCalls) (r : ReportRow) (found : find_report id rows ≡ some r) where
      raises_marked : Ends committed (report_raises (marked r found))
      raises_marked =
          raises-Ends (marked r found) (inr (marked-left r found)) (marked-others r found)

      fail_marked :
          (error : Option Text)
          → Ends committed (
              report_ends failed_terminal
                (update_report id (set_status failed error) (marked r found)))
      fail_marked error =
          failed-Ends _
            (inr (
              _,
              find_own id (set_status failed error) (λ x. refl) (marked r found) _
                  (marked-own r found),
              refl,
            ))
            (find_other id (set_status failed error) (λ x. refl) k (marked r found)
              ∙ marked-others r found)

      report_fails-Ends : (error : Text) → Ends committed (report_fails C id error (marked r found))
      unfolding report_fails
      report_fails-Ends error =
          mark-Ends C.failed_up failed (some (take 1000 error)) (marked r found)
            (report_ends failed_terminal) (report_raises (marked r found))
            (fail_marked (some (take 1000 error))) raises_marked

      finish_report-Ends : (g : Generated) → Ends committed (finish_report C id g (marked r found))
      unfolding finish_report
      finish_report-Ends (raised error) = report_fails-Ends error
      finish_report-Ends (written path) =
          if-Ends C.update_up _ _ (λ _. written-Ends r found committed path) (λ _. raises_marked)

      generate-Ends : (kind : ReportKind) → Ends committed (generate C id r kind (marked r found))
      unfolding generate
      generate-Ends daily = finish_report-Ends (C.daily_of r)
      generate-Ends weekly = finish_report-Ends (C.weekly_of r)
      generate-Ends (other shown) =
          mark-Ends C.unknown_up failed (some (codes "unknown report kind " ++ shown))
            (marked r found) (report_ends failed_terminal)
            (report_fails C id C.unknown_error (marked r found))
            (fail_marked (some (codes "unknown report kind " ++ shown)))
            (report_fails-Ends C.unknown_error)

    run_found-Ends :
        (C : ReportCalls) (o : Option ReportRow)
        → find_report id rows ≡ o
        → Ends committed (run_found C id o rows)
    unfolding run_found
    run_found-Ends C none found = failed-Ends rows (inl found) refl
    run_found-Ends C (some r) found =
        if-Ends (is_successful r.status) _ _ (done-Ends committed r found) (λ _.
          mark-Ends C.running_up running none rows (generate C id r r.kind) (report_raises rows)
            (generate-Ends C r found r.kind) (raises-Ends rows (inl refl) refl))

    job-Ends : (C : ReportCalls) → Ends committed (run_report_generate_job C (some id) rows)
    unfolding run_report_generate_job
    job-Ends C =
        if-Ends C.select_up _ _ (λ _. run_found-Ends C (find_report id rows) refl)
          (λ _. raises-Ends rows (inl refl) refl)

-- What a report_generate job leaves after the worker's commit or rollback, whichever of its statements
-- raise: after a success that was committed the row is successful, and a further run, with any
-- calls, writes nothing and succeeds if its SELECT goes through; after failed_terminal the row, if
-- there is one, is failed; and after an exception, or a success that was rolled back, the row is as it
-- was or running. The rows of other reports stay as they are.
pub report_job_settles :
    (C D : ReportCalls) (id k : ℕ) (committed : Bool) (rows : List ReportRow)
    → let run = run_report_generate_job C (some id) rows in
      let after = after_release id committed run in
      IsLeft run.state committed (find_report id rows) (find_report id after)
      × (other_row id k after ≡ other_row id k rows)
      × HasNoMore D id run.state committed after
report_job_settles C D id k committed rows =
    let ends = job-Ends id k D rows committed C in (ends.own, ends.others, ends.again)
