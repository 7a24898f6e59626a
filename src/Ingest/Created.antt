-- ===== src/Ingest/Created.antt =====
-- The jobs that ingest_bucket creates.
use panoptic.Common.{
  ℕ, ◌<◌, ◌≡◌, refl, sym, Bool, true, false, ◌||◌, some, List, [], ◌∷◌, ◌++◌, if◌then◌else◌, All,
  All-append, All-map, subst, arith, Bool-cases, inl, inr,
}
use mathlib.Core.List.{append-nil, append_assoc}
use panoptic.Jobs.Model.{JobType, bucket_summary, event_produce}
use panoptic.Jobs.System.Steps.{IsNew}
use panoptic.Streams.{StreamEntry, enqueue_job}
use panoptic.Float.{Float}
use panoptic.Buckets.{BucketIdentity, BucketRecord}
use panoptic.Ingest.Tables.{
  JobKey, KeyedJob, pending_job, has_key, insert_job, BucketAction, bucket_action, job_key_eq,
}
use panoptic.Ingest.{
  Store, Ingested, is_duplicate, is_empty, enqueue_new, prepared, summary_job, event_job,
  insert_event_job, ingest_prepared, ingest_bucket,
}
use panoptic.Ingest.Rerun.{ingest_accepted}

-- The messages for the jobs whose XADD goes through.
abbrev pub sent : (JobType → Bool) → List KeyedJob → List StreamEntry
sent up [] = []
sent up (k ∷ ks) =
    (if up k.job.job_type
      then enqueue_job k.job.job_type k.job.job_id k.job.serial_number ∷ []
      else [])
    ++ sent up ks

-- A job that may enter the queue, under a key that the table does not hold.
abbrev pub IsCreated : List KeyedJob → KeyedJob → Type 0
IsCreated jobs k = IsNew k.job × (has_key k.job_key jobs ≡ false)

abbrev pub Creates : (JobType → Bool) → List KeyedJob → List KeyedJob → List StreamEntry → Type 0
Creates up before after added =
    (created : List KeyedJob) × (after ≡ before ++ created)
    × (added ≡ sent up created)
    × All (IsCreated before) created

pub pending_job-IsNew :
    (id : ℕ) (t : JobType) (serial m : ℕ) → 0 < m → IsNew (pending_job id t serial m)
unfolding pending_job
pending_job-IsNew id t serial m h = record {
  state = refl;
  owner = refl;
  expiry = refl;
  attempts = refl;
  allowed = h;
}

module _ (up : JobType → Bool) where
  pub Creates-nil : (jobs : List KeyedJob) → Creates up jobs jobs []
  Creates-nil jobs = ([], sym (append-nil jobs), refl, tt)

  pub insert_job-Creates :
      (j : KeyedJob) (jobs : List KeyedJob)
      → IsNew j.job
      → Creates up jobs
          (insert_job j jobs).0
          (enqueue_new (insert_job j jobs).1 up j.job.job_type j.job.job_id j.job.serial_number)
  unfolding insert_job enqueue_new
  insert_job-Creates j jobs n = elim (Bool-cases (has_key j.job_key jobs)) [
    | inl e ↦ rw e (Creates-nil jobs)
    | inr e ↦ elim (Bool-cases (up j.job.job_type)) [
      | inl u ↦ rw (e, u) (j ∷ [], refl, rw u refl, ((n, e), tt))
      | inr u ↦ rw (e, u) (j ∷ [], refl, rw u refl, ((n, e), tt))
    ]
  ]

  sent-append : (xs ys : List KeyedJob) → sent up (xs ++ ys) ≡ sent up xs ++ sent up ys
  sent-append [] ys = refl
  sent-append (x ∷ xs) ys = rw (sent-append xs ys) (sym (append_assoc _ (sent up xs) (sent up ys)))

  not_before :
      (jobs xs : List KeyedJob) (k : JobKey)
      → has_key k (jobs ++ xs) ≡ false
      → has_key k jobs ≡ false
  not_before [] xs k h = refl
  not_before (j ∷ jobs) xs k h = elim (Bool-cases (job_key_eq j.job_key k)) [
    | inl e ↦ absurd (impossible e)
    | inr e ↦ rw e (not_before jobs xs k (rw e at h))
  ]
    where
      impossible : job_key_eq j.job_key k ≡ true → ⊥
      impossible e = ground arith

  pub Creates-append :
      (a b c : List KeyedJob) (s t : List StreamEntry)
      → Creates up a b s
      → Creates up b c t
      → Creates up a c (s ++ t)
  Creates-append a b c s t (xs, hb, hs, nx) (ys, hc, ht, ny) = (
    xs ++ ys,
    (rw (hc, hb) (append_assoc a xs ys)),
    rw (hs, ht) (sym (sent-append xs ys)),
    All-append (IsCreated a) xs ys nx (
        All-map (IsCreated b) (IsCreated a) (λ k h. (h.0, not_before a xs k.job_key (rw hb at h.1)))
          ys ny),
  )

module _ (F : Float) (mean stdev : List F.Num → F.Num) (digest : BucketIdentity → ℕ)
    (profile version max_attempts : ℕ) (up : JobType → Bool) where
  insert_event_job-Creates :
      (e : ℕ) (p : BucketRecord F) (a : BucketAction) (jobs : List KeyedJob)
      → 0 < max_attempts
      → Creates up jobs
          (insert_event_job F mean stdev digest profile version max_attempts e p a jobs).0
          (enqueue_new
            (insert_event_job F mean stdev digest profile version max_attempts e p a jobs).1
            up
            event_produce
            e
            p.serial_number)
  unfolding insert_event_job enqueue_new event_job pending_job
  insert_event_job-Creates e p a jobs m =
      elim (Bool-cases (is_empty p.event_markers || is_duplicate a)) [
        | inl q ↦ rw q (Creates-nil up jobs)
        | inr q ↦ rw q (
            insert_job-Creates up (event_job F mean stdev digest profile version max_attempts e p)
              jobs (pending_job-IsNew e event_produce p.serial_number max_attempts m))
      ]

  insert_summary_job-Creates :
      (j : ℕ) (p : BucketRecord F) (jobs : List KeyedJob)
      → 0 < max_attempts
      → Creates up jobs
          (insert_job (summary_job F mean stdev digest profile version max_attempts j p) jobs).0
          (enqueue_new
            (insert_job (summary_job F mean stdev digest profile version max_attempts j p) jobs).1
            up
            bucket_summary
            j
            p.serial_number)
  unfolding summary_job pending_job
  insert_summary_job-Creates j p jobs m =
      insert_job-Creates up (summary_job F mean stdev digest profile version max_attempts j p) jobs
        (pending_job-IsNew j bucket_summary p.serial_number max_attempts m)

  prepared-Creates :
      (j e : ℕ) (p : BucketRecord F) (st : Store F)
      → 0 < max_attempts
      → Creates up st.jobs
          (ingest_prepared F mean stdev digest profile version max_attempts up j e p st).store.jobs
          (ingest_prepared F mean stdev digest profile version max_attempts up j e p st).added
  unfolding ingest_prepared
  prepared-Creates j e p st m =
      Creates-append up _ _ _ _ _ (insert_summary_job-Creates j p st.jobs m)
        (insert_event_job-Creates e p (bucket_action F p st.buckets) _ m)

  -- What ingest_bucket adds to panoptic_jobs stands behind the rows that are there: rows that may
  -- enter the queue (pending, unleased, no attempt made, one allowed), each under a job_key that the
  -- table does not hold; and the messages are one for each new row whose XADD goes through, in
  -- order, with that row's type, id and serial number.
  pub ingest_bucket_jobs :
      (j e : ℕ) (b : BucketRecord F) (st : Store F) (out : Ingested F)
      → 0 < max_attempts
      → ingest_bucket F mean stdev digest profile version max_attempts up j e b st ≡ some out
      → Creates up st.jobs out.store.jobs out.added
  ingest_bucket_jobs j e b st out m h =
      let (id, done) =
        ingest_accepted F mean stdev digest profile version max_attempts up j e b st out h in
      subst (λ (o : Ingested F). Creates up st.jobs o.store.jobs o.added) done
        (prepared-Creates j e
          (prepared F mean stdev digest profile version max_attempts b st.buckets) st m)
