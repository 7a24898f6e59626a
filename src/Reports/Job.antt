-- ===== src/Reports/Job.antt =====
-- run_report_generate_job and _mark_status (services/panoptic_report_generator/executor.py) on the rows
-- of panoptic_reports. The generation of a report, which returns the path of its file or raises, is a
-- parameter. _mark_status commits in a transaction of its own, while the UPDATE of a success waits for
-- the worker's commit.
use panoptic.Common.{
  ℕ, Bool, true, false, Option, none, some, List, [], ◌∷◌, ◌++◌, if◌then◌else◌, ◌==◌, map, take,
  codes,
}
use panoptic.Jobs.Model.{Text}

pub data ReportKind : Type 0 where
  daily weekly : ReportKind
  -- another text, as repr shows it
  other : Text → ReportKind

pub data ReportStatus : Type 0 where
  pending running success failed : ReportStatus

pub record ReportRow : Type 0 where
  pub report_id : ℕ
  pub serial_number : ℕ
  pub kind : ReportKind
  pub window_start_utc : ℕ
  pub window_end_utc : ℕ
  pub status : ReportStatus
  pub storage_path : Option ℕ
  pub last_error : Option Text

pub data ReportJobState : Type 0 where
  succeeded failed_terminal : ReportJobState

pub data Generated : Type 0 where
  written : ℕ → Generated
  raised : Text → Generated

unfoldable pub find_report : ℕ → List ReportRow → Option ReportRow
find_report id [] = none
find_report id (r ∷ rows) = if r.report_id == id then some r else find_report id rows

-- UPDATE panoptic_reports SET ... WHERE report_id = :report_id
unfoldable pub update_report : ℕ → (ReportRow → ReportRow) → List ReportRow → List ReportRow
update_report id f rows = map (λ r. if r.report_id == id then f r else r) rows

abbrev pub set_status : ReportStatus → Option Text → ReportRow → ReportRow
set_status status error r = record r { status = status; last_error = error }

-- In a transaction of its own: the rows as committed, or none where it raises.
unfoldable pub mark_status :
    Bool → ℕ → ReportStatus → Option Text → List ReportRow → Option (List ReportRow)
mark_status up id status error rows =
    if up then some (update_report id (set_status status error) rows) else none

abbrev pub set_success : ℕ → ReportRow → ReportRow
set_success path r = record r { status = success; storage_path = some path; last_error = none }

abbrev pub is_successful : ReportStatus → Bool
is_successful success = true
is_successful pending = false
is_successful running = false
is_successful failed = false

-- What the executor calls: the generations, and the statements that go through; the others raise and
-- change nothing. `unknown_error` is the text of the error where marking an unknown kind raises.
pub record ReportCalls : Type 0 where
  pub daily_of : ReportRow → Generated
  pub weekly_of : ReportRow → Generated
  pub select_up : Bool
  pub running_up : Bool
  pub unknown_up : Bool
  pub unknown_error : Text
  pub failed_up : Bool
  pub update_up : Bool

-- The state that the job returns, none for an exception; the rows as they are committed; and the path
-- that the UPDATE of a success has written, still to be committed.
pub record ReportRun : Type 0 where
  pub state : Option ReportJobState
  pub rows : List ReportRow
  pub written_path : Option ℕ

unfoldable pub report_raises : List ReportRow → ReportRun
report_raises rows = record { state = none; rows = rows; written_path = none }

unfoldable pub report_ends : ReportJobState → List ReportRow → ReportRun
report_ends s rows = record { state = some s; rows = rows; written_path = none }

-- What follows a _mark_status, on the rows that it committed, or where it raised.
unfoldable pub after_mark :
    Option (List ReportRow) → (List ReportRow → ReportRun) → ReportRun → ReportRun
after_mark none next lost = lost
after_mark (some rows) next lost = next rows

module _ (C : ReportCalls) (id : ℕ) where
  -- The except branch.
  unfoldable pub report_fails : Text → List ReportRow → ReportRun
  report_fails error rows =
      after_mark (mark_status C.failed_up id failed (some (take 1000 error)) rows)
        (report_ends failed_terminal) (report_raises rows)

  unfoldable pub finish_report : Generated → List ReportRow → ReportRun
  finish_report (written path) rows =
      if C.update_up
      then record { state = some succeeded; rows = rows; written_path = some path }
      else report_raises rows
  finish_report (raised error) rows = report_fails error rows

  unfoldable pub generate : ReportRow → ReportKind → List ReportRow → ReportRun
  generate r daily rows = finish_report (C.daily_of r) rows
  generate r weekly rows = finish_report (C.weekly_of r) rows
  generate r (other shown) rows =
      after_mark
        (mark_status C.unknown_up id failed (some (codes "unknown report kind " ++ shown)) rows)
        (report_ends failed_terminal) (report_fails C.unknown_error rows)

  unfoldable pub run_found : Option ReportRow → List ReportRow → ReportRun
  run_found none rows = report_ends failed_terminal rows
  run_found (some r) rows =
      if is_successful r.status
      then report_ends succeeded rows
      else after_mark (mark_status C.running_up id running none rows) (generate r r.kind)
          (report_raises rows)

-- On the payload's report_id.
unfoldable pub run_report_generate_job : ReportCalls → Option ℕ → List ReportRow → ReportRun
run_report_generate_job C none rows = report_ends failed_terminal rows
run_report_generate_job C (some id) rows =
    if C.select_up then run_found C id (find_report id rows) rows else report_raises rows

-- The UPDATE of a success.
unfoldable pub write_success : ℕ → Option ℕ → List ReportRow → List ReportRow
write_success id none rows = rows
write_success id (some path) rows = update_report id (set_success path) rows

-- The rows after the worker's commit or rollback.
unfoldable pub after_release : ℕ → Bool → ReportRun → List ReportRow
after_release id true run = write_success id run.written_path run.rows
after_release id false run = run.rows
