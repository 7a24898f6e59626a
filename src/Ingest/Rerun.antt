-- ===== src/Ingest/Rerun.antt =====
-- A payload that is delivered again.
use panoptic.Common.{
  ℕ, ◌≡◌, refl, Bool, true, false, ◌||◌, none, some, some-injective, List, [], ◌∷◌, ◌++◌, ◌==◌, map,
  ==_refl, ==_iff, any, Bool-cases, inl, inr, arith, subst,
}
use panoptic.Jobs.Model.{JobType}
use panoptic.Float.{Float}
use panoptic.Buckets.{BucketIdentity, BucketRecord, identity_of}
use panoptic.Ingest.Tables.{
  JobKey, bucket_summary_key, event_produce_bucket_key, image_caption_key, event_produce_image_key,
  job_key_eq, KeyedJob, has_key, insert_job, BucketAction, duplicate, is_late, has_bucket,
  overwrite, bucket_action, upsert_bucket,
}
use panoptic.Ingest.{
  Store, Ingested, is_duplicate, is_empty, enqueue_new, prepared, summary_job, event_job,
  insert_event_job, ingest_prepared, ingest_bucket,
}

module _ {ℓ} {A : Type ℓ} where
  pub any-append : (p : A → Bool) (xs ys : List A) → any p (xs ++ ys) ≡ (any p xs || any p ys)
  any-append p [] ys = refl
  any-append p (x ∷ xs) ys = elim (Bool-cases (p x)) [
    | inl e ↦ rw e refl
    | inr e ↦ rw e (any-append p xs ys)
  ]

  pub any_last : (p : A → Bool) (xs : List A) (x : A) → p x ≡ true → any p (xs ++ x ∷ []) ≡ true
  any_last p [] x e = rw e refl
  any_last p (y ∷ xs) x e = elim (Bool-cases (p y)) [
    | inl h ↦ rw h refl
    | inr h ↦ rw h (any_last p xs x e)
  ]

pub job_key_eq_refl : (k : JobKey) → job_key_eq k k ≡ true
job_key_eq_refl (bucket_summary_key b m v) = rw (==_refl b, ==_refl m, ==_refl v) refl
job_key_eq_refl (event_produce_bucket_key b) = ==_refl b
job_key_eq_refl (image_caption_key i) = ==_refl i
job_key_eq_refl (event_produce_image_key i) = ==_refl i

-- After an insert its key is there, and the keys that were there are.
pub insert_job-own :
    (j : KeyedJob) (jobs : List KeyedJob) → has_key j.job_key (insert_job j jobs).0 ≡ true
unfolding insert_job
insert_job-own j jobs = elim (Bool-cases (has_key j.job_key jobs)) [
  | inl e ↦ rw e e
  | inr e ↦ rw e (any_last (λ x. job_key_eq x.job_key j.job_key) jobs j (job_key_eq_refl j.job_key))
]

pub insert_job-keeps :
    (k : JobKey) (j : KeyedJob) (jobs : List KeyedJob)
    → has_key k jobs ≡ true
    → has_key k (insert_job j jobs).0 ≡ true
unfolding insert_job
insert_job-keeps k j jobs h = elim (Bool-cases (has_key j.job_key jobs)) [
  | inl e ↦ rw e h
  | inr e ↦ rw (e, any-append (λ x. job_key_eq x.job_key k) jobs (j ∷ []), h) refl
]

pub insert_job_present :
    (j : KeyedJob) (jobs : List KeyedJob)
    → has_key j.job_key jobs ≡ true
    → insert_job j jobs ≡ (jobs, false)
unfolding insert_job
insert_job_present j jobs h = rw h refl

module _ (F : Float) where
  upsert-own :
      (b : BucketRecord F) (rows : List (BucketRecord F))
      → has_bucket F b.bucket_id (upsert_bucket F b (bucket_action F b rows) rows) ≡ true
  unfolding upsert_bucket bucket_action
  upsert-own b rows = elim (Bool-cases (has_bucket F b.bucket_id rows)) [
    | inl e ↦ elim (Bool-cases (is_late b.bucket_status)) [
      | inl l ↦ rw (e, l) (overwritten rows e)
      | inr l ↦ rw (e, l) e
    ]
    | inr e ↦ rw e (any_last (λ x. x.bucket_id == b.bucket_id) rows b (==_refl b.bucket_id))
  ]
    where
      overwritten :
          (xs : List (BucketRecord F))
          → has_bucket F b.bucket_id xs ≡ true
          → has_bucket F b.bucket_id (map (overwrite F b) xs) ≡ true
      overwritten [] h = h
      overwritten (x ∷ xs) h = elim (Bool-cases (x.bucket_id == b.bucket_id)) [
        | inl e ↦ rw (e, e) refl
        | inr e ↦ rw (e, e) (overwritten xs (rw e at h))
      ]

  bucket_action_duplicate :
      (b : BucketRecord F) (rows : List (BucketRecord F))
      → has_bucket F b.bucket_id rows ≡ true
      → is_late b.bucket_status ≡ false
      → bucket_action F b rows ≡ duplicate
  unfolding bucket_action
  bucket_action_duplicate b rows h l = rw (h, l) refl

module _ (F : Float) (mean stdev : List F.Num → F.Num) (digest : BucketIdentity → ℕ)
    (profile version max_attempts : ℕ) where
  -- The tables hold the bucket and its summary job.
  abbrev pub Holds : BucketRecord F → Store F → Type 0
  Holds b st =
      (has_bucket F b.bucket_id st.buckets ≡ true)
      × (has_key (bucket_summary_key b.bucket_id profile version) st.jobs ≡ true)

  -- The delivery is a duplicate that changes nothing and enqueues nothing.
  abbrev pub IsDuplicate : Store F → Ingested F → Type 0
  IsDuplicate st out =
      (out.store ≡ st)
      × (out.added ≡ [])
      × (out.result.bucket_action ≡ duplicate)
      × (out.result.job_id ≡ none)
      × (out.result.was_duplicate_job ≡ true)

  no_event_job :
      (j : ℕ) (b : BucketRecord F) (jobs : List KeyedJob)
      → insert_event_job F mean stdev digest profile version max_attempts j b duplicate jobs
        ≡ (jobs, false)
  unfolding insert_event_job
  no_event_job j b jobs = elim (Bool-cases (is_empty b.event_markers)) [
    | inl e ↦ rw e refl
    | inr e ↦ rw e refl
  ]

  module _ (up : JobType → Bool) (j e : ℕ) where
    prepared-IsDuplicate :
        (p : BucketRecord F) (st : Store F)
        → Holds p st
        → is_late p.bucket_status ≡ false
        → IsDuplicate st
            (ingest_prepared F mean stdev digest profile version max_attempts up j e p st)
    unfolding ingest_prepared upsert_bucket enqueue_new summary_job
    prepared-IsDuplicate p st h l =
        let known =
          insert_job_present (summary_job F mean stdev digest profile version max_attempts j p)
            st.jobs h.1 in
        let action = bucket_action_duplicate F p st.buckets h.0 l in
        rw (known, action, no_event_job e p st.jobs) (refl, refl, refl, refl, refl)

  -- A payload that is accepted has the id that is computed from its fields.
  pub ingest_accepted :
      (up : JobType → Bool) (j e : ℕ) (b : BucketRecord F) (st : Store F) (out : Ingested F)
      → ingest_bucket F mean stdev digest profile version max_attempts up j e b st ≡ some out
      → (digest (identity_of F b) ≡ b.bucket_id)
        × (ingest_prepared F mean stdev digest profile version max_attempts up j e
              (prepared F mean stdev digest profile version max_attempts b st.buckets)
              st
            ≡ out)
  unfolding ingest_bucket
  ingest_accepted up j e b st out h = elim (Bool-cases (digest (identity_of F b) == b.bucket_id)) [
    | inl k ↦ ((==_iff _ _).0 k, some-injective _ _ (rw k at h))
    | inr k ↦ absurd (rejected k)
  ]
    where
      rejected : (digest (identity_of F b) == b.bucket_id) ≡ false → ⊥
      rejected k = ground arith

  own_key :
      (j : ℕ) (p : BucketRecord F) (jobs : List KeyedJob)
      → has_key
          (bucket_summary_key p.bucket_id profile version)
          (insert_job (summary_job F mean stdev digest profile version max_attempts j p) jobs).0
        ≡ true
  unfolding summary_job
  own_key j p jobs =
      insert_job-own (summary_job F mean stdev digest profile version max_attempts j p) jobs

  event_keeps :
      (k : JobKey) (e : ℕ) (p : BucketRecord F) (a : BucketAction) (jobs : List KeyedJob)
      → has_key k jobs ≡ true
      → has_key k (insert_event_job F mean stdev digest profile version max_attempts e p a jobs).0
        ≡ true
  unfolding insert_event_job
  event_keeps k e p a jobs h = elim (Bool-cases (is_empty p.event_markers || is_duplicate a)) [
    | inl q ↦ rw q h
    | inr q ↦
        rw q (
          insert_job-keeps k (event_job F mean stdev digest profile version max_attempts e p) jobs
            h)
  ]

  prepared-Holds :
      (up : JobType → Bool) (j e : ℕ) (p : BucketRecord F) (st : Store F)
      → Holds p (ingest_prepared F mean stdev digest profile version max_attempts up j e p st).store
  unfolding ingest_prepared
  prepared-Holds up j e p st = (
    upsert-own F p st.buckets,
    event_keeps (bucket_summary_key p.bucket_id profile version) e p (bucket_action F p st.buckets)
        _ (own_key j p st.jobs),
  )

  pub ingest_of_id :
      (up : JobType → Bool) (j e : ℕ) (b : BucketRecord F) (st : Store F)
      → digest (identity_of F b) ≡ b.bucket_id
      → ingest_bucket F mean stdev digest profile version max_attempts up j e b st
        ≡ some (
            ingest_prepared F mean stdev digest profile version max_attempts up j e
              (prepared F mean stdev digest profile version max_attempts b st.buckets)
              st)
  unfolding ingest_bucket
  ingest_of_id up j e b st id = rw (id, ==_refl b.bucket_id) refl

  -- A bucket that is not late_finalized and that was ingested can be delivered again, to tables that
  -- still hold the bucket's and the jobs' keys: it is a duplicate, and no row is written and no
  -- message is sent. Its id is the one that is computed from its fields.
  pub ingest_bucket_again :
      (up up' : JobType → Bool) (j e j' e' : ℕ) (b : BucketRecord F) (st st' : Store F)
      (out : Ingested F)
      → is_late b.bucket_status ≡ false
      → ingest_bucket F mean stdev digest profile version max_attempts up j e b st ≡ some out
      → (Holds b out.store → Holds b st')
      → (digest (identity_of F b) ≡ b.bucket_id)
        × Holds b out.store
        × ((out' : Ingested F) × (ingest_bucket F mean stdev digest profile version max_attempts up'
                j' e' b st'
              ≡ some out')
            × IsDuplicate st' out')
  unfolding prepared
  ingest_bucket_again up up' j e j' e' b st st' out l h keeps =
      let (id, done) = ingest_accepted up j e b st out h in
      let held : Holds b out.store =
        subst (λ (o : Ingested F). Holds b o.store) done
          (prepared-Holds up j e
            (prepared F mean stdev digest profile version max_attempts b st.buckets) st) in
      let p' = prepared F mean stdev digest profile version max_attempts b st'.buckets in
      (
        id,
        held,
        (
          ingest_prepared F mean stdev digest profile version max_attempts up' j' e' p' st',
          ingest_of_id up' j' e' b st' id,
          prepared-IsDuplicate up' j' e' p' st' (keeps held) l,
        ),
      )
