-- ===== src/Streams/Routing.antt =====
-- The routing tables fit together.
use Prim.Native.String.{String}
use text.Mathlib.Text.{◌==◌ as str_eq}
use mathlib.Core.List.{append_assoc, append-nil}
use panoptic.Common.{
  ℕ, ◌+◌, ◌≡◌, refl, sym, ap, ◌∙◌, Bool, Option, none, some, some-injective, List, [], ◌∷◌, ◌++◌,
  map, select, length, arith, if◌then◌else◌, Bool-cases, inl, inr,
}
use panoptic.Jobs.Model.{
  JobType, bucket_summary, rollup_summary, embedding_upsert, recompute_summary, image_caption,
  caption_embed, image_embed, event_produce, report_generate,
}
use panoptic.Jobs.Reclaim.{ReclaimedJob}
use panoptic.Streams.{
  stream_for_job_type, dlq_for_job_type, subscript, consumer_group_for_stream, group_for_job_type,
  StreamEntry, enqueue_job, re_enqueue,
}

abbrev job_types : List JobType
job_types =
    bucket_summary ∷ rollup_summary ∷ embedding_upsert ∷ recompute_summary ∷ image_caption
    ∷ caption_embed ∷ image_embed ∷ event_produce ∷ report_generate ∷ []

-- The first type whose name, by `f`, is the given one.
type_named : (JobType → String) → String → List JobType → Option JobType
type_named f s [] = none
type_named f s (t ∷ ts) = if str_eq (f t) s then some t else type_named f s ts

stream-type :
    (t : JobType) → type_named stream_for_job_type (stream_for_job_type t) job_types ≡ some t
unfolding stream_for_job_type type_named
stream-type bucket_summary = refl
stream-type rollup_summary = refl
stream-type embedding_upsert = refl
stream-type recompute_summary = refl
stream-type image_caption = refl
stream-type caption_embed = refl
stream-type image_embed = refl
stream-type event_produce = refl
stream-type report_generate = refl

dlq-type : (t : JobType) → type_named dlq_for_job_type (dlq_for_job_type t) job_types ≡ some t
unfolding dlq_for_job_type type_named
dlq-type bucket_summary = refl
dlq-type rollup_summary = refl
dlq-type embedding_upsert = refl
dlq-type recompute_summary = refl
dlq-type image_caption = refl
dlq-type caption_embed = refl
dlq-type image_embed = refl
dlq-type event_produce = refl
dlq-type report_generate = refl

abbrev IsConsumed : JobType → Type 0
IsConsumed t =
    ((g : String) × (group_for_job_type t ≡ some g))
    × (subscript (dlq_for_job_type t) consumer_group_for_stream ≡ none)

consumed : (t : JobType) → IsConsumed t
unfolding group_for_job_type stream_for_job_type dlq_for_job_type subscript
consumed bucket_summary = ((_, refl), refl)
consumed rollup_summary = ((_, refl), refl)
consumed embedding_upsert = ((_, refl), refl)
consumed recompute_summary = ((_, refl), refl)
consumed image_caption = ((_, refl), refl)
consumed caption_embed = ((_, refl), refl)
consumed image_embed = ((_, refl), refl)
consumed event_produce = ((_, refl), refl)
consumed report_generate = ((_, refl), refl)

-- Every job type has a stream that a consumer group reads and a dead-letter stream that none reads,
-- and two job types share neither.
pub routing_lem :
    ((t : JobType)
      → ((g : String) × (group_for_job_type t ≡ some g))
        × (subscript (dlq_for_job_type t) consumer_group_for_stream ≡ none))
    × ((a b : JobType) → stream_for_job_type a ≡ stream_for_job_type b → a ≡ b)
    × ((a b : JobType) → dlq_for_job_type a ≡ dlq_for_job_type b → a ≡ b)
routing_lem = (
  consumed,
  (λ a b e. some-injective _ _ (
      sym (stream-type a)
      ∙ ap (λ (s : String). type_named stream_for_job_type s job_types) e
      ∙ stream-type b)),
  λ a b e. some-injective _ _ (
      sym (dlq-type a)
      ∙ ap (λ (s : String). type_named dlq_for_job_type s job_types) e
      ∙ dlq-type b),
)

abbrev pub entry_for : ReclaimedJob → StreamEntry
entry_for job = enqueue_job job.job_type job.job_id job.serial_number

-- The reclaimer's re-enqueueing loop adds, in order, one entry for each reset job whose XADD goes
-- through, to its job type's stream and with normal priority, and counts exactly those.
pub re_enqueue_lem :
    (up : ReclaimedJob → Bool) (jobs : List ReclaimedJob) (added : List StreamEntry) (n : ℕ)
    → re_enqueue up jobs (added, n)
      ≡ (added ++ map entry_for (select up jobs), n + length (select up jobs))
unfolding re_enqueue
re_enqueue_lem up [] added n = ground (arith, append-nil added)
re_enqueue_lem up (job ∷ jobs) added n = elim (Bool-cases (up job)) [
  | inl e ↦ rw e (
      re_enqueue_lem up jobs _ _
      ∙ ground (arith, append_assoc added (entry_for job ∷ []) (map entry_for (select up jobs))))
  | inr e ↦ rw e (re_enqueue_lem up jobs added n)
]
