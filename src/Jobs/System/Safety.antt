-- ===== src/Jobs/System/Safety.antt =====
-- What holds of every table that the steps reach.
use panoptic.Common.{sym, ◌∷◌, arith, All, All-map₂}
use panoptic.Jobs.Model.{Job, Db}
use panoptic.Jobs.Table.{IsFresh, IsUnique}
use panoptic.Jobs.Lease.{renew_lease}
use panoptic.Jobs.Invariant.{
  IsValid, claim-IsValid, renew-IsValid, mark_running-IsValid, release-IsValid,
}
use panoptic.Jobs.System.Snapshot.{CanReset, select_expired-IsUnique, select_expired-CanReset}
use panoptic.Jobs.System.Steps.{
  World, new_world, IsNew, Step, inserts, claims, renews, runs, releases, selects, reclaims, Reach,
  starts, steps,
}
use panoptic.Jobs.System.Resets.{
  CanReset-update, renew-HasRoom, claim-CanReset, mark_running-CanReset, release-CanReset,
  reclaim_row-IsValid, reclaim_row-CanReset,
}

pub record IsSafe (w : World) : Type 0 where
  pub valid : IsValid w.db
  pub distinct : IsUnique w.selected
  pub resettable : All (CanReset w.db.jobs) w.selected

new-IsSafe : IsSafe new_world
new-IsSafe = record {
  valid = record { unique = tt; consistent = tt; within = tt };
  distinct = tt;
  resettable = tt;
}

insert-IsValid :
    (j : Job) (db : Db)
    → IsNew j
    → IsFresh j.job_id db.jobs
    → IsValid db
    → IsValid (record db { jobs = j ∷ db.jobs })
insert-IsValid j db n fresh v = record {
  unique = (fresh, v.unique);
  consistent = (
    record { owner = ground (arith, n.owner, n.state); expiry = ground (arith, n.expiry, n.state) },
    v.consistent,
  );
  within = (
    record {
      bounded = ground (arith, n.attempts);
      one_left = λ _. ground (arith, n.attempts, n.allowed);
    },
    v.within,
  );
}

Step-IsSafe : {w u : World} → Step w u → IsSafe w → IsSafe u
Step-IsSafe {w} (inserts j n fresh apart) s = record {
  valid = insert-IsValid j w.db n fresh s.valid;
  distinct = s.distinct;
  resettable =
      All-map₂ _ _ _ (λ r ne h. ((λ left e. absurd (ne (sym e))), h)) w.selected apart s.resettable;
}
Step-IsSafe {w} (claims now k o) s = record {
  valid = claim-IsValid now k o w.db s.valid;
  distinct = s.distinct;
  resettable = claim-CanReset now k o w.db w.selected s.resettable;
}
Step-IsSafe {w} (renews now k o) s = record {
  valid = renew-IsValid now k o w.db s.valid;
  distinct = s.distinct;
  resettable =
      unfold renew_lease in
      CanReset-update k _ _ (renew-HasRoom now o) w.db.jobs w.selected s.resettable;
}
Step-IsSafe {w} (runs k o) s = record {
  valid = mark_running-IsValid k o w.db s.valid;
  distinct = s.distinct;
  resettable = mark_running-CanReset k o w.db w.selected s.resettable;
}
Step-IsSafe {w} (releases now k o t error db' done e) s = record {
  valid = release-IsValid now k o t error w.db db' done e s.valid;
  distinct = s.distinct;
  resettable = release-CanReset now k o t error w.db db' done w.selected e s.resettable;
}
Step-IsSafe {w} (selects now e) s = record {
  valid = s.valid;
  distinct = select_expired-IsUnique now w.db s.valid;
  resettable = select_expired-CanReset now w.db s.valid;
}
Step-IsSafe {w} (reclaims row rows e) s =
    let d : IsUnique (row ∷ rows) = rw e at (s.distinct) in
    let r : All (CanReset w.db.jobs) (row ∷ rows) = rw e at (s.resettable) in
    record {
      valid = reclaim_row-IsValid row w.db r.0 s.valid;
      distinct = d.1;
      resettable = reclaim_row-CanReset row w.db rows d.0 r.1;
    }

Reach-IsSafe : {w : World} → Reach w → IsSafe w
Reach-IsSafe starts = new-IsSafe
Reach-IsSafe (steps r st) = Step-IsSafe st (Reach-IsSafe r)

-- Whatever workers, producers and the one reclaimer do, and in whatever order, in every table that
-- they reach the job ids are distinct, a row has an owner exactly while it is leased or running and
-- an expiry exactly while it is leased, running or waiting for its retry, no row has more attempts
-- than its max_attempts, and a pending row has an attempt left.
pub Reach-IsValid : {w : World} → Reach w → IsValid w.db
Reach-IsValid r = (Reach-IsSafe r).valid
