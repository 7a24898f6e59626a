-- ===== src/Jobs/System/Steps.antt =====
-- The steps that the processes take, and the tables that they reach.
use panoptic.Common.{ℕ, ◌<◌, ◌≡◌, ◌≢◌, Bool, Option, none, some, List, [], ◌∷◌, All}
use panoptic.Jobs.Model.{Text, pending, Job, Db}
use panoptic.Jobs.Table.{IsFresh}
use panoptic.Jobs.Lease.{NewState, claim_job, renew_lease, mark_running, release_job}
use panoptic.Jobs.Reclaim.{reclaim_row, select_expired}

-- The table, and the rows that the reclaimer has selected and not yet reset.
pub record World : Type 0 where
  pub db : Db
  pub selected : List Job

abbrev pub new_world : World
new_world = record { db = record { jobs = []; history = [] }; selected = [] }

-- The columns of a row as the INSERT statements write them.
pub record IsNew (j : Job) : Type 0 where
  pub state : j.state ≡ pending
  pub owner : j.lease_owner ≡ none
  pub expiry : j.lease_expires_at ≡ none
  pub attempts : j.attempt_count ≡ 0
  pub allowed : 0 < j.max_attempts

pub data Step (w : World) : World → Type 0 where
  inserts :
      (j : Job)
      → IsNew j
      → IsFresh j.job_id w.db.jobs
      → All (λ r. r.job_id ≢ j.job_id) w.selected
      → Step w (record w { db = record (w.db) { jobs = j ∷ w.db.jobs } })
  claims : (now k o : ℕ) → Step w (record w { db = (claim_job now k o w.db).0 })
  renews : (now k o : ℕ) → Step w (record w { db = (renew_lease now k o w.db).0 })
  runs : (k o : ℕ) → Step w (record w { db = mark_running k o w.db })
  releases :
      (now k o : ℕ) (s : NewState) (error : Option Text) (db' : Db) (done : Bool)
      → release_job now k o s error w.db ≡ some (db', done)
      → Step w (record w { db = db' })
  selects : (now : ℕ) → w.selected ≡ [] → Step w (record w { selected = select_expired now w.db })
  reclaims :
      (row : Job) (rows : List Job)
      → w.selected ≡ row ∷ rows
      → Step w (record { db = reclaim_row row w.db; selected = rows })

pub data Reach : World → Type 0 where
  starts : Reach new_world
  steps : {w u : World} → Reach w → Step w u → Reach u
