-- ===== src/Summaries/Rollup.antt =====
-- insert_embedding_job and upsert_rollup_state_and_maybe_enqueue
-- (services/panoptic_summary_agent/summary_db.py) on the tables panoptic_jobs and
-- panoptic_rollup_state, with the keys of shared/schemas/job.py and compute_child_set_hash of
-- shared/utils/hashing.py, whose SHA-256 is a parameter. The ids of summaries are hexadecimal texts of
-- one length, so their order is that of the numbers. The source joins the parts of a key by colons.
use panoptic.Common.{
  ℕ, ◌+◌, ◌-◌, ◌*◌, ◌/◌, ◌%◌, max, Bool, false, ◌&&◌, Option, none, some, List, [], ◌∷◌, ◌++◌,
  if◌then◌else◌, ltb, leb, ◌==◌, any, map, select,
}
use panoptic.Float.{Float, py_min}
use panoptic.Jobs.Model.{Job, embedding_upsert, rollup_summary}
use panoptic.Ingest.Tables.{pending_job}
use panoptic.Summaries.{camera, level_eq, scope_eq, SummaryRecord}

pub data SummaryJobKey : Type 0 where
  embedding_upsert_key : ℕ → SummaryJobKey
  rollup_summary_key : ℕ × ℕ → ℕ → ℕ → ℕ → ℕ → SummaryJobKey

unfoldable pub summary_key_eq : SummaryJobKey → SummaryJobKey → Bool
summary_key_eq (embedding_upsert_key s) (embedding_upsert_key s') = s == s'
summary_key_eq (rollup_summary_key c w m v h) (rollup_summary_key c' w' m' v' h') =
    scope_eq c c' && (w == w' && (m == m' && (v == v' && h == h')))
summary_key_eq _ _ = false

pub record RollupPayload : Type 0 where
  pub serial_number : ℕ
  pub camera_id : ℕ
  pub window_start : ℕ
  pub window_end : ℕ
  pub child_ids : List ℕ
  pub child_set_hash : ℕ
  pub model_profile : ℕ
  pub prompt_version : ℕ

pub data SummaryPayload : Type 0 where
  embedding_payload : ℕ → ℕ → SummaryPayload
  rollup_payload : RollupPayload → SummaryPayload

-- A row of panoptic_jobs of the two types, with its key and its payload.
pub record SummaryJob : Type 0 where
  pub job_key : SummaryJobKey
  pub job : Job
  pub payload : SummaryPayload

unfoldable pub has_job : SummaryJobKey → List SummaryJob → Bool
has_job k jobs = any (λ j. summary_key_eq j.job_key k) jobs

-- INSERT ... ON CONFLICT (job_key) DO NOTHING RETURNING job_id
unfoldable pub insert_summary_job : SummaryJob → List SummaryJob → List SummaryJob × Option ℕ
insert_summary_job j jobs =
    if has_job j.job_key jobs then (jobs, none) else (jobs ++ j ∷ [], some j.job.job_id)

unfoldable pub embedding_job : ℕ → ℕ → ℕ → SummaryJob
embedding_job job_id summary_id serial = record {
  job_key = embedding_upsert_key summary_id;
  job = pending_job job_id embedding_upsert serial 3;
  payload = embedding_payload summary_id serial;
}

unfoldable pub insert_embedding_job : ℕ → ℕ → ℕ → List SummaryJob → List SummaryJob × Option ℕ
insert_embedding_job job_id summary_id serial jobs =
    insert_summary_job (embedding_job job_id summary_id serial) jobs

abbrev pub buckets_per_hour : ℕ
buckets_per_hour = 4

-- round(a / b), half to even
abbrev pub round_ratio : ℕ → ℕ → ℕ
round_ratio a b =
    let q = a / b in
    if ltb (2 * (a % b)) b then q else if ltb b (2 * (a % b)) then q + 1 else q + q % 2

unfoldable pub expected_children : ℕ → ℕ → ℕ
expected_children start end =
    if ltb start end then max 1 (round_ratio 3600 (end - start)) else buckets_per_hour

unfoldable pub hour_start : ℕ → ℕ
hour_start t = t / 3600 * 3600

-- The parts of parent_key.
pub record ParentKey : Type 0 where
  pub serial_number : ℕ
  pub camera_id : ℕ
  pub window_start : ℕ

unfoldable pub parent_eq : ParentKey → ParentKey → Bool
parent_eq p q =
    p.serial_number == q.serial_number
    && (p.camera_id == q.camera_id && p.window_start == q.window_start)

-- sorted
abbrev pub insert_id : ℕ → List ℕ → List ℕ
insert_id i [] = i ∷ []
insert_id i (j ∷ js) = if leb i j then i ∷ j ∷ js else j ∷ insert_id i js

unfoldable pub sort_ids : List ℕ → List ℕ
sort_ids [] = []
sort_ids (i ∷ is) = insert_id i (sort_ids is)

unfoldable pub compute_child_set_hash : (List ℕ → ℕ) → List ℕ → ℕ
compute_child_set_hash digest ids = digest (sort_ids ids)

-- The arguments of the call.
pub record RollupTarget : Type 0 where
  pub serial_number : ℕ
  pub camera_id : ℕ
  pub bucket_start_utc : ℕ
  pub bucket_end_utc : ℕ
  pub model_profile : ℕ
  pub prompt_version : ℕ

unfoldable pub parent_key : RollupTarget → ParentKey
parent_key t = record {
  serial_number = t.serial_number;
  camera_id = t.camera_id;
  window_start = hour_start t.bucket_start_utc;
}

module _ (F : Float) where
  pub record RollupState : Type 0 where
    pub parent_key : ParentKey
    pub window_end : ℕ
    pub expected_children : ℕ
    pub present_children : ℕ
    pub coverage_ratio : F.Num

  unfoldable pub find_state : ParentKey → List RollupState → Option RollupState
  find_state k [] = none
  find_state k (s ∷ states) = if parent_eq s.parent_key k then some s else find_state k states

  unfoldable pub new_state : RollupTarget → RollupState
  unfolding parent_key
  new_state t =
      let expected = expected_children t.bucket_start_utc t.bucket_end_utc in
      record {
        parent_key = parent_key t;
        window_end = hour_start t.bucket_start_utc + 3600;
        expected_children = expected;
        present_children = 1;
        coverage_ratio = F.div (F.literal 1 0) (F.of_nat expected);
      }

  -- ON CONFLICT ... DO UPDATE SET
  unfoldable pub count_child : RollupState → RollupState
  count_child s = record s {
    present_children = s.present_children + 1;
    coverage_ratio =
        py_min F
          (F.div (F.add (F.of_nat s.present_children) (F.literal 1 0))
            (F.of_nat s.expected_children))
          (F.literal 1 0);
  }

  unfoldable pub put_state : RollupTarget → Option RollupState → List RollupState → List RollupState
  put_state t none states = states ++ new_state t ∷ []
  put_state t (some _) states =
      map (λ s. if parent_eq s.parent_key (parent_key t) then count_child s else s) states

  -- RETURNING
  unfoldable pub put_row : RollupTarget → Option RollupState → RollupState
  put_row t none = new_state t
  put_row t (some s) = count_child s

  -- The SELECT of the latest camera summaries that start within the hour. It compares a scope id, which
  -- is the text of the serial number and the camera id, with the camera id alone.
  unfoldable pub is_child : RollupTarget → SummaryRecord F → Bool
  is_child t r =
      let w = r.window in
      let start = hour_start t.bucket_start_utc in
      w.serial_number == t.serial_number
      && (level_eq w.level camera
          && (w.scope_id == t.camera_id
              && (leb start w.start_time && (ltb w.start_time (start + 3600) && r.is_latest))))

  unfoldable pub child_ids : RollupTarget → List (SummaryRecord F) → List ℕ
  child_ids t rows = sort_ids (map (λ r. r.summary_id) (select (is_child t) rows))

  -- The tables that the summary executors read and write.
  pub record SummaryStore : Type 0 where
    pub summaries : List (SummaryRecord F)
    pub states : List RollupState
    pub jobs : List SummaryJob

  module _ (children_digest : List ℕ → ℕ) where
    unfoldable pub rollup_job : ℕ → RollupTarget → List ℕ → SummaryJob
    rollup_job job_id t ids =
        let start = hour_start t.bucket_start_utc in
        let hash = compute_child_set_hash children_digest ids in
        record {
          job_key =
              rollup_summary_key (t.serial_number, t.camera_id) start t.model_profile
                t.prompt_version hash;
          job = pending_job job_id rollup_summary t.serial_number 3;
          payload = rollup_payload (record {
            serial_number = t.serial_number;
            camera_id = t.camera_id;
            window_start = start;
            window_end = start + 3600;
            child_ids = ids;
            child_set_hash = hash;
            model_profile = t.model_profile;
            prompt_version = t.prompt_version;
          });
        }

    unfoldable pub insert_rollup_job :
        ℕ → RollupTarget → List ℕ → List SummaryJob → List SummaryJob × Option ℕ
    insert_rollup_job job_id t [] jobs = (jobs, none)
    insert_rollup_job job_id t (i ∷ ids) jobs =
        insert_summary_job (rollup_job job_id t (i ∷ ids)) jobs

    -- The tables, and the id of the new rollup job.
    unfoldable pub upsert_rollup_state_and_maybe_enqueue :
        ℕ → RollupTarget → SummaryStore → SummaryStore × Option ℕ
    upsert_rollup_state_and_maybe_enqueue job_id t st =
        let found = find_state (parent_key t) st.states in
        let states = put_state t found st.states in
        if F.lt (put_row t found).coverage_ratio (F.literal 5 1)
        then (record st { states = states }, none)
        else (let new_jobs = insert_rollup_job job_id t (child_ids t st.summaries) st.jobs in
            (record st { states = states; jobs = new_jobs.0 }, new_jobs.1))
