-- ===== src/Streams.antt =====
-- The routing tables of the Redis streams, the producer, and the clean-up of stale pending entries
-- (shared/utils/streams.py). Redis itself is a parameter: a stream is the list of entries added to
-- it, and XAUTOCLAIM a function from a cursor to a page.
pub mod Routing
pub mod Cleanup
use Prim.Native.String.{String}
use text.Mathlib.Text.{◌==◌ as str_eq}
use panoptic.Common.{
  ℕ, zero, suc, ◌+◌, Bool, true, false, Option, none, some, List, [], ◌∷◌, ◌++◌, length,
  if◌then◌else◌, ◌==◌, map,
}
use panoptic.Jobs.Model.{
  JobType, bucket_summary, rollup_summary, embedding_upsert, recompute_summary, image_caption,
  caption_embed, image_embed, event_produce, report_generate,
}
use panoptic.Jobs.Reclaim.{ReclaimedJob}

unfoldable pub stream_for_job_type : JobType → String
stream_for_job_type bucket_summary = "panoptic:jobs:bucket_summary"
stream_for_job_type rollup_summary = "panoptic:jobs:rollup_summary"
stream_for_job_type embedding_upsert = "panoptic:jobs:embedding_upsert"
stream_for_job_type recompute_summary = "panoptic:jobs:recompute"
stream_for_job_type image_caption = "panoptic:jobs:image_caption"
stream_for_job_type caption_embed = "panoptic:jobs:caption_embed"
stream_for_job_type image_embed = "panoptic:jobs:image_embed"
stream_for_job_type event_produce = "panoptic:jobs:event_produce"
stream_for_job_type report_generate = "panoptic:jobs:report_generate"

unfoldable pub dlq_for_job_type : JobType → String
dlq_for_job_type bucket_summary = "panoptic:dlq:bucket_summary"
dlq_for_job_type rollup_summary = "panoptic:dlq:rollup_summary"
dlq_for_job_type embedding_upsert = "panoptic:dlq:embedding_upsert"
dlq_for_job_type recompute_summary = "panoptic:dlq:recompute"
dlq_for_job_type image_caption = "panoptic:dlq:image_caption"
dlq_for_job_type caption_embed = "panoptic:dlq:caption_embed"
dlq_for_job_type image_embed = "panoptic:dlq:image_embed"
dlq_for_job_type event_produce = "panoptic:dlq:event_produce"
dlq_for_job_type report_generate = "panoptic:dlq:report_generate"

abbrev pub consumer_group_for_stream : List (String × String)
consumer_group_for_stream =
    ("panoptic:jobs:bucket_summary", "panoptic-summary-workers")
    ∷ ("panoptic:jobs:rollup_summary", "panoptic-summary-workers")
    ∷ ("panoptic:jobs:embedding_upsert", "panoptic-embedding-workers")
    ∷ ("panoptic:jobs:recompute", "panoptic-recompute-workers")
    ∷ ("panoptic:jobs:image_caption", "panoptic-image-caption-workers")
    ∷ ("panoptic:jobs:caption_embed", "panoptic-caption-embed-workers")
    ∷ ("panoptic:jobs:image_embed", "panoptic-image-embed-workers")
    ∷ ("panoptic:jobs:event_produce", "panoptic-event-producer-workers")
    ∷ ("panoptic:jobs:report_generate", "panoptic-report-generator-workers")
    ∷ []

-- A dict's subscript; `none` is the KeyError.
unfoldable pub subscript : String → List (String × String) → Option String
subscript k [] = none
subscript k ((j, v) ∷ d) = if str_eq j k then some v else subscript k d

unfoldable pub group_for_job_type : JobType → Option String
group_for_job_type t = subscript (stream_for_job_type t) consumer_group_for_stream

pub data Priority : Type 0 where
  high normal low : Priority

pub record StreamEntry : Type 0 where
  pub stream : String
  pub job_id : ℕ
  pub job_type : JobType
  pub serial_number : ℕ
  pub priority : Priority

-- The entry that enqueue_job adds.
unfoldable pub enqueue_job : JobType → ℕ → ℕ → StreamEntry
enqueue_job t job_id serial_number = record {
  stream = stream_for_job_type t;
  job_id = job_id;
  job_type = t;
  serial_number = serial_number;
  priority = normal;
}

-- The reclaimer's loop over `stats.reset_jobs` (services/panoptic_reclaimer/worker.py): the entries
-- added, and `re_enqueued`. `up` says for which jobs the XADD goes through.
unfoldable pub re_enqueue :
    (ReclaimedJob → Bool) → List ReclaimedJob → List StreamEntry × ℕ → List StreamEntry × ℕ
re_enqueue up [] acc = acc
re_enqueue up (job ∷ jobs) (added, n) = re_enqueue up jobs (
    if up job
    then (added ++ enqueue_job job.job_type job.job_id job.serial_number ∷ [], n + 1)
    else (added, n))

-- One page of XAUTOCLAIM: the next cursor, 0 for "0-0", and the ids of the entries claimed.
pub record Page : Type 0 where
  pub next_id : ℕ
  pub entry_ids : List ℕ

-- The loop of autoclaim_and_ack_stale, with fuel: `none` means that the fuel ran out. The result is
-- the ids acknowledged and total_acked.
unfoldable pub autoclaim_and_ack_stale : (ℕ → Page) → ℕ → ℕ → List ℕ × ℕ → Option (List ℕ × ℕ)
autoclaim_and_ack_stale scan zero start_id acc = none
autoclaim_and_ack_stale scan (suc fuel) start_id (acked, total_acked) =
    let page = scan start_id in
    let acc' : List ℕ × ℕ = (acked ++ page.entry_ids, total_acked + length page.entry_ids) in
    let rest = autoclaim_and_ack_stale scan fuel page.next_id acc' in
    if page.next_id == 0 then some acc' else rest
