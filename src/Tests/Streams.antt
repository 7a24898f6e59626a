-- ===== src/Tests/Streams.antt =====
-- The streams at concrete inputs.
use panoptic.Common.{
  ℕ, ◌-◌, ◌+◌, ◌<◌, ◌≡◌, ◌≢◌, Bool, not, ◌==◌, some, List, [], ◌∷◌, length, arith, ltb,
  if◌then◌else◌,
}
use panoptic.Jobs.Model.{bucket_summary, image_caption}
use panoptic.Jobs.Reclaim.{ReclaimedJob}
use panoptic.Streams.{Page, autoclaim_and_ack_stale}
use panoptic.Streams.Cleanup.{Scans, autoclaim_acks_scan}

-- Redis gives three pages, at the cursors 0, 10 and 20.
abbrev pages : ℕ → Page
pages c = record { next_id = if ltb c 20 then c + 10 else 0; entry_ids = (c + 1) ∷ (c + 2) ∷ [] }

abbrev pages_left : ℕ → ℕ
pages_left c = 30 - c

autoclaim_acks_scan_example :
    (ids : List ℕ) × Scans pages 0 ids
    × (autoclaim_and_ack_stale pages 31 0 ([], 0) ≡ some (ids, length ids))
autoclaim_acks_scan_example = autoclaim_acks_scan pages pages_left falls 31 (omega arith)
  where
    falls : (c : ℕ) → (pages c).next_id ≢ 0 → pages_left (pages c).next_id < pages_left c
    falls c ne = ground arith

abbrev two_reset : List ReclaimedJob
two_reset =
    record { job_id = 7; job_type = bucket_summary; serial_number = 1422 }
    ∷ record { job_id = 8; job_type = image_caption; serial_number = 1422 }
    ∷ []

abbrev redis_up : ReclaimedJob → Bool
redis_up job = not (job.job_id == 8)
