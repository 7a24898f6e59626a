-- ===== src/Tests/Reports.antt =====
-- The theorems on reports at concrete inputs.
use panoptic.Common.{
  ℕ, ◌*◌, ◌≤◌, ◌≡◌, refl, true, false, not, ◌&&◌, none, some, List, [], ◌∷◌, if◌then◌else◌, ◌==◌,
  any, All, codes, sort_by,
}
use panoptic.Float.{milli}
use panoptic.Reports.{
  ReportImage, dedup_images, dedup_ordered, keep_first, keep_at, is_earlier, is_shown_before,
}
use panoptic.Reports.Apart.{AllApart}
use panoptic.Reports.Rounds.{covers}
use panoptic.Reports.Covered.{dedup_images_lem}
use panoptic.Reports.Synthesis.{Writer}
use panoptic.Reports.Named.{IsSupported}
use panoptic.Reports.Daily.{Queries, generate_daily}
use panoptic.Reports.Cited.{IsCited, generate_daily-IsCited}
use panoptic.Reports.Job.{
  ReportCalls, after_release, daily, pending, running, ReportRow, written, raised, find_report,
  run_report_generate_job,
}
use panoptic.Reports.Settled.{IsLeft, HasNoMore, other_row, report_job_settles}

abbrev alert_at : ℕ → ℕ → ReportImage
alert_at id t = record { image_id = id; trigger = codes "alert"; bucket_start = some t }

abbrev baseline_at : ℕ → ℕ → ReportImage
baseline_at id t = record { image_id = id; trigger = codes "baseline"; bucket_start = some t }

abbrev four_images : List ReportImage
four_images = alert_at 1 1000 ∷ alert_at 2 1299 ∷ baseline_at 3 1100 ∷ alert_at 4 1300 ∷ []

-- The alert of 1299 seconds is near the one of 1000, and the one of 1300 is not.
kept_three : dedup_images four_images ≡ alert_at 4 1300 ∷ alert_at 1 1000 ∷ baseline_at 3 1100 ∷ []
unfolding dedup_images dedup_ordered keep_first keep_at is_earlier is_shown_before sort_by
kept_three = refl

dedup_images_lem_example :
    AllApart (dedup_images four_images)
    × All (λ x. any (covers x) (dedup_images four_images) ≡ true) four_images
    × ((any (λ i. i.image_id == 2) (dedup_images four_images)
          && not (any (λ i. i.image_id == 2) four_images))
        ≡ false)
dedup_images_lem_example = dedup_images_lem four_images (λ i. i.image_id == 2)

-- A model that cites the first image of a camera, one that it does not have, and two cameras.
abbrev writer : Writer milli
writer = record {
  call_camera = λ e. some [];
  call_fusion = λ cs. some [];
  call_weekly = λ ds. none;
  parse_camera = λ raw. some (record {
    headline = codes "quiet";
    summary = codes "A quiet day.";
    summary_labels = [];
    image_labels = (0 ∷ []) ∷ (9 ∷ []) ∷ (0 ∷ []) ∷ [];
    event_labels = [];
    confidence = 700;
  });
  parse_fusion = λ raw. some (record {
    headline = codes "quiet";
    summary = codes "A quiet day.";
    supporting_ids = 1 ∷ 8 ∷ 1 ∷ [];
    confidence = 700;
  });
  sum_name = λ n. n ∷ [];
  img_name = λ n. n ∷ [];
  evt_name = λ n. n ∷ [];
}

abbrev queries : Queries milli
queries = record {
  fetch_summaries = λ cam. [];
  fetch_images = λ cam. if cam == 1 then four_images else [];
  fetch_events = λ cam. if cam == 2 then 70 ∷ [] else [];
}

generate_daily-IsCited_example :
    let d = generate_daily milli writer queries (1 ∷ 2 ∷ 3 ∷ []) in
    All
      (IsCited milli writer d.cited_camera_ids d.cited_summary_ids d.cited_image_ids
        d.cited_event_ids)
      d.narratives
    × IsSupported milli d.cited_camera_ids 160 900 d.overall
    × (d.image_count ≤ 6 * d.cameras_with_data)
generate_daily-IsCited_example = generate_daily-IsCited milli writer queries (1 ∷ 2 ∷ 3 ∷ [])

abbrev two_reports : List ReportRow
two_reports =
    record {
      report_id = 5;
      serial_number = 7;
      kind = daily;
      window_start_utc = 0;
      window_end_utc = 86400;
      status = pending;
      storage_path = none;
      last_error = none;
    }
    ∷ record {
      report_id = 6;
      serial_number = 7;
      kind = daily;
      window_start_utc = 86400;
      window_end_utc = 172800;
      status = running;
      storage_path = none;
      last_error = none;
    }
    ∷ []

-- Every statement goes through.
abbrev calls : ReportCalls
calls = record {
  daily_of = λ r. written 40;
  weekly_of = λ r. raised [];
  select_up = true;
  running_up = true;
  unknown_up = true;
  unknown_error = [];
  failed_up = true;
  update_up = true;
}

-- A report that is written, and whose worker loses the lease.
report_job_settles_example :
    let run = run_report_generate_job calls (some 5) two_reports in
    let after = after_release 5 false run in
    IsLeft run.state false (find_report 5 two_reports) (find_report 5 after)
    × (other_row 5 6 after ≡ other_row 5 6 two_reports)
    × HasNoMore calls 5 run.state false after
report_job_settles_example = report_job_settles calls calls 5 6 false two_reports
