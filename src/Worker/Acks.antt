-- ===== src/Worker/Acks.antt =====
-- When a worker acknowledges a message, and what it has committed by then.
use panoptic.Common.{
  ℕ, ◌≡◌, ◌≢◌, refl, ◌⊎◌, inl, inr, Bool, true, false, Option, none, some, [], ◌∷◌, ◌++◌,
  if◌then◌else◌, Bool-cases,
}
use mathlib.Core.Option.{none-ne-some}
use panoptic.Jobs.Model.{Job, Db, find_job}
use panoptic.Jobs.Lease.{ClaimResult, claim_job, release_job}
use panoptic.Worker.{
  Surroundings, StreamMessage, ExecState, claim_committed, results_committed, acked, Handled,
  completed, crashed, crash, dead_letters, attempted_state, attempted_error, new_state_of,
  after_commit, finish_message, execute_message, select_message, claimed_message, start_message,
  process_message,
}

module _ {W : Type 0} (m : StreamMessage) (worker_id : ℕ) (env : Surroundings W) where
  -- The results were committed: from the row that the claim leased, through a release that kept the
  -- lease, to the commit; only then came the dead letter of a job that failed for good, and then the ACK.
  abbrev pub Commits : Db → Handled W → Type 0
  Commits db h =
      (claim : ClaimResult) × (claimed_db : Db) × (row : Job) × (claim_job env.claim_time m.job_id
          worker_id db
        ≡ (claimed_db, some claim))
      × (find_job m.job_id (env.before_select claimed_db).jobs ≡ some row)
      × (env.heartbeat_valid ≡ true)
      × (release_job env.release_time m.job_id worker_id
            (new_state_of row (attempted_state row env.attempt)) (attempted_error env.attempt)
            (env.while_executing (env.before_select claimed_db))
          ≡ some (h.db, true))
      × (h.effects
          ≡ claim_committed
            ∷ results_committed (attempted_state row env.attempt) env.writes
            ∷ (dead_letters m worker_id env claim (attempted_state row env.attempt)
                ++ (if env.ack_up then acked m.entry_id ∷ [] else [])))
      × (h.ending ≡ (if env.ack_up then completed else crashed))

  -- Nothing was written but, perhaps, the claim.
  abbrev pub LeavesPending : Handled W → Type 0
  LeavesPending h = (h.ending ≢ completed) × ((h.effects ≡ []) ⊎ (h.effects ≡ claim_committed ∷ []))

  -- The table is as it was, or as the claim and the other processes left it.
  abbrev pub LeftAlone : Db → Handled W → Type 0
  LeftAlone db h =
      let d = (claim_job env.claim_time m.job_id worker_id db).0 in
      (h.db ≡ db)
      ⊎ (h.db ≡ d)
      ⊎ (h.db ≡ env.before_select d)
      ⊎ (h.db ≡ env.while_executing (env.before_select d))

  finish_cases :
      (claim : ClaimResult) (s : ExecState) (db : Db) (r : Option (Db × Bool))
      → let h = finish_message m worker_id env claim s db r in
        ((env.heartbeat_valid ≡ true)
          × (r ≡ some (h.db, true))
          × (h.effects
              ≡ claim_committed
                ∷ results_committed s env.writes
                ∷ (dead_letters m worker_id env claim s
                    ++ (if env.ack_up then acked m.entry_id ∷ [] else [])))
          × (h.ending ≡ (if env.ack_up then completed else crashed)))
        ⊎ (LeavesPending h × (h.db ≡ db))
  unfolding finish_message crash after_commit
  finish_cases claim s db none = inr (((λ e. cc), inr refl), refl)
  finish_cases claim s db (some (d, false)) = inr (((λ e. cc), inr refl), refl)
  finish_cases claim s db (some (d, true)) = elim (Bool-cases env.heartbeat_valid) [
    | inl v ↦ elim (Bool-cases env.commit_up) [
      | inl c ↦ inl (rw (v, c) (refl, refl, refl, refl))
      | inr c ↦ inr (rw (v, c) (((λ e. cc), inr refl), refl))
    ]
    | inr v ↦ inr (rw v (((λ e. cc), inr refl), refl))
  ]

  -- A call that went through gave its result.
  went_through :
      (b : Bool) (o : Option (Db × Bool)) (d : Db × Bool)
      → (if b then o else none) ≡ some d
      → o ≡ some d
  went_through true o d h = h
  went_through false o d h = absurd (none-ne-some d h)

  execute_cases :
      (db claimed_db : Db) (claim : ClaimResult) (o : Option Job)
      → claim_job env.claim_time m.job_id worker_id db ≡ (claimed_db, some claim)
      → find_job m.job_id (env.before_select claimed_db).jobs ≡ o
      → let h = execute_message m worker_id env claim (env.before_select claimed_db) o in
        Commits db h ⊎ (LeavesPending h × LeftAlone db h)
  unfolding execute_message
  execute_cases db claimed_db claim none e f =
      inr (((λ e. cc), inr refl), inr (inr (inl (rw e refl))))
  execute_cases db claimed_db claim (some row) e f =
      elim (finish_cases claim (attempted_state row env.attempt)
        (env.while_executing (env.before_select claimed_db))
        (if env.release_up
          then release_job env.release_time m.job_id worker_id
              (new_state_of row (attempted_state row env.attempt)) (attempted_error env.attempt)
              (env.while_executing (env.before_select claimed_db))
          else none)) [
            | inl (valid, released, effects, ending) ↦ inl (
              claim,
              claimed_db,
              row,
              e,
              f,
              valid,
              went_through env.release_up _ _ released,
              effects,
              ending,
            )
            | inr (left, same) ↦ inr (left, inr (inr (inr (rw e same))))
          ]

  select_cases :
      (up : Bool) (db d : Db) (claim : ClaimResult)
      → claim_job env.claim_time m.job_id worker_id db ≡ (d, some claim)
      → let h = select_message m worker_id env up claim (env.before_select d) in
        Commits db h ⊎ (LeavesPending h × LeftAlone db h)
  unfolding select_message crash
  select_cases true db d claim e = execute_cases db d claim _ e refl
  select_cases false db d claim e = inr (((λ e. cc), inr refl), inr (inr (inl (rw e refl))))

  claimed_cases :
      (db : Db) (c : Db × Option ClaimResult)
      → claim_job env.claim_time m.job_id worker_id db ≡ c
      → let h = claimed_message m worker_id env c in
        Commits db h ⊎ (LeavesPending h × LeftAlone db h)
  unfolding claimed_message
  claimed_cases db (d, none) e = inr (((λ e. cc), inl refl), inr (inl (rw e refl)))
  claimed_cases db (d, some claim) e = select_cases env.select_up db d claim e

  start_cases :
      (up : Bool) (db : Db)
      → let h = start_message m worker_id env up db in
        Commits db h ⊎ (LeavesPending h × LeftAlone db h)
  unfolding start_message crash
  start_cases true db = claimed_cases db _ refl
  start_cases false db = inr (((λ e. cc), inl refl), inl refl)

  -- Either the results are committed: the worker claimed the job, kept the lease up to its release and
  -- committed the results with it, then sent the dead letter, if the job failed for good and the XADD
  -- goes through, and then the ACK, which completes the message; but where the ACK raises the message
  -- stays unacknowledged. Or nothing is: then no result is committed, no dead letter is sent, the
  -- message is not acknowledged, and of the worker's own writes the table holds at most the claim.
  pub process_message_cases :
      (db : Db)
      → let h = process_message m worker_id env db in
        Commits db h ⊎ (LeavesPending h × LeftAlone db h)
  unfolding process_message
  process_message_cases db = start_cases env.claim_up db
