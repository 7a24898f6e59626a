-- ===== src/Tests/Ingest.antt =====
-- The history and the ingestion of a bucket, and the same bucket again.
use panoptic.Common.{◌≤◌, ◌≡◌, refl, Bool, true, false, some, [], ◌∷◌, arith}
use panoptic.Jobs.Model.{JobType}
use panoptic.Float.{milli}
use panoptic.Buckets.{identity_of}
use panoptic.History.{fetch_bucket_history}
use panoptic.History.Past.{IsHourIfAny, fetch_bucket_history_lem}
use panoptic.Ingest.{Store, Ingested, prepared, ingest_prepared, ingest_bucket}
use panoptic.Ingest.Rerun.{Holds, IsDuplicate, ingest_of_id, ingest_bucket_again}
use panoptic.Ingest.Created.{Creates, ingest_bucket_jobs}
use panoptic.Tests.Buckets.{mean, stdev, digest, bucket}

-- Two tables that differ in a bucket that is not before the time.
fetch_bucket_history_lem_example :
    let h = fetch_bucket_history milli mean stdev 1422 2 3600 (bucket 900 7 ∷ bucket 3600 9 ∷ []) in
    (h ≡ fetch_bucket_history milli mean stdev 1422 2 3600 (bucket 900 7 ∷ []))
    × (h.rolling_bucket_sample_size ≤ 96)
    × (h.recent_quiet_run_minutes ≤ 1440)
    × IsHourIfAny h.typical_first_active_hour_utc
fetch_bucket_history_lem_example =
    fetch_bucket_history_lem milli mean stdev 1422 2 3600 (bucket 900 7 ∷ bucket 3600 9 ∷ [])
      (bucket 900 7 ∷ []) refl

abbrev both : JobType → Bool
both t = true

abbrev lost : JobType → Bool
lost t = false

abbrev empty_store : Store milli
empty_store = record { buckets = []; jobs = [] }

abbrev first_delivery : Ingested milli
first_delivery =
    ingest_prepared milli mean stdev digest 1 1 3 lost 10 11
      (prepared milli mean stdev digest 1 1 3 (bucket 900 7) []) empty_store

right_id : digest (identity_of milli (bucket 900 7)) ≡ (bucket 900 7).bucket_id
unfolding identity_of
right_id = refl

first_ingested :
    ingest_bucket milli mean stdev digest 1 1 3 lost 10 11 (bucket 900 7) empty_store
    ≡ some first_delivery
first_ingested =
    ingest_of_id milli mean stdev digest 1 1 3 lost 10 11 (bucket 900 7) empty_store right_id

ingest_bucket_jobs_example : Creates lost [] first_delivery.store.jobs first_delivery.added
ingest_bucket_jobs_example =
    ingest_bucket_jobs milli mean stdev digest 1 1 3 lost 10 11 (bucket 900 7) empty_store
      first_delivery (omega arith) first_ingested

ingest_bucket_again_example :
    (digest (identity_of milli (bucket 900 7)) ≡ (bucket 900 7).bucket_id)
    × Holds milli mean stdev digest 1 1 3 (bucket 900 7) first_delivery.store
    × ((out : Ingested milli) × (ingest_bucket milli mean stdev digest 1 1 3 both 20 21
            (bucket 900 7)
            first_delivery.store
          ≡ some out)
        × IsDuplicate milli mean stdev digest 1 1 3 first_delivery.store out)
ingest_bucket_again_example =
    ingest_bucket_again milli mean stdev digest 1 1 3 lost both 10 11 20 21 (bucket 900 7)
      empty_store first_delivery.store first_delivery refl first_ingested (λ h. h)
