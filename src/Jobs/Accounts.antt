-- ===== src/Jobs/Accounts.antt =====
-- What a tick of the reclaimer reports: its counters, the jobs it hands on for re-enqueueing, and
-- the dead-letter entries.
use mathlib.Core.List.{append-nil, append_assoc}
use panoptic.Common.{
  ℕ, ◌+◌, ◌≤◌, ◌≡◌, refl, sym, ◌∙◌, ap, Bool, not, ◌&&◌, Option, none, some, List, [], ◌∷◌, ◌++◌,
  map, arith, select, length, length-take-le, length-map,
}
use panoptic.Jobs.Model.{Job, Db}
use panoptic.Jobs.Reclaim.{
  reclaim_limit, is_exhausted, reclaim_one, reclaim_rows, select_expired, Tick, DlqEntry, dlq_entry,
  reclaimed_job, clean_pels, reclaim_expired_leases, ReclaimStats, no_stats,
}

abbrev pub has_attempt_left : Job → Bool
has_attempt_left row = not (is_exhausted row)

-- What a list of rows adds to the tick.
pub record Adds (up : Job → Bool) (rows : List Job) (t u : Tick) : Type 0 where
  pub reset :
      u.stats.reset_to_pending ≡ t.stats.reset_to_pending + length (select has_attempt_left rows)
  pub sent : u.stats.sent_to_dlq ≡ t.stats.sent_to_dlq + length (select is_exhausted rows)
  pub handed_on :
      u.stats.reset_jobs ≡ t.stats.reset_jobs ++ map reclaimed_job (select has_attempt_left rows)
  pub dead : u.dlq ≡ t.dlq ++ map dlq_entry (select (λ r. is_exhausted r && up r) rows)

one-Adds :
    (up : Job → Bool) (row : Job) (rows : List Job) (t u : Tick)
    → Adds up rows (reclaim_one up row t) u
    → Adds up (row ∷ rows) t u
unfolding reclaim_one
one-Adds up row rows t u a = record {
  reset = ground (arith, a.reset);
  sent = ground (arith, a.sent);
  handed_on = ground (
    arith,
    a.handed_on,
    append_assoc t.stats.reset_jobs (reclaimed_job row ∷ [])
        (map reclaimed_job (select has_attempt_left rows)),
  );
  dead = ground (
    arith,
    a.dead,
    append_assoc t.dlq (dlq_entry row ∷ [])
        (map dlq_entry (select (λ r. is_exhausted r && up r) rows)),
  );
}

rows-Adds : (up : Job → Bool) (rows : List Job) (t : Tick) → Adds up rows t (reclaim_rows up rows t)
unfolding reclaim_rows
rows-Adds up [] t = record {
  reset = omega arith;
  sent = omega arith;
  handed_on = sym (append-nil _);
  dead = sym (append-nil _);
}
rows-Adds up (row ∷ rows) t = one-Adds up row rows t _ (rows-Adds up rows (reclaim_one up row t))

clean_pels_keeps :
    (acks : List (Option ℕ)) (s : ReclaimStats)
    → ((clean_pels acks s).reset_to_pending ≡ s.reset_to_pending)
      × ((clean_pels acks s).sent_to_dlq ≡ s.sent_to_dlq)
      × ((clean_pels acks s).reset_jobs ≡ s.reset_jobs)
unfolding clean_pels
clean_pels_keeps [] s = (refl, refl, refl)
clean_pels_keeps (none ∷ acks) s = clean_pels_keeps acks s
clean_pels_keeps (some n ∷ acks) s = clean_pels_keeps acks _

length-split :
    (rows : List Job)
    → length (select has_attempt_left rows) + length (select is_exhausted rows) ≡ length rows
length-split [] = refl
length-split (row ∷ rows) = ground (arith, length-split rows)

-- A tick handles at most 100 rows, and each of them once: those with an attempt left are counted as
-- reset and handed on for re-enqueueing in the order of their selection, the others are counted as
-- sent to the dead-letter streams, and those of them whose write goes through are appended there.
pub reclaim_accounts :
    (now : ℕ) (up : Job → Bool) (acks : List (Option ℕ)) (db : Db) (dlq : List DlqEntry)
    → let t = reclaim_expired_leases now up acks db dlq in
      let rows = select_expired now db in
      (t.stats.reset_to_pending + t.stats.sent_to_dlq ≡ length rows)
      × (length rows ≤ 100)
      × (t.stats.reset_to_pending ≡ length t.stats.reset_jobs)
      × (t.stats.reset_jobs ≡ map reclaimed_job (select has_attempt_left rows))
      × (t.dlq ≡ dlq ++ map dlq_entry (select (λ r. is_exhausted r && up r) rows))
unfolding reclaim_expired_leases select_expired
reclaim_accounts now up acks db dlq =
    let rows = select_expired now db in
    let start : Tick = record { db = db; dlq = dlq; stats = no_stats } in
    let a = rows-Adds up rows start in
    let k = clean_pels_keeps acks (reclaim_rows up rows start).stats in
    (
      omega (arith, k.0, k.1, a.reset, a.sent, length-split rows),
      length-take-le reclaim_limit _,
      omega (
        arith,
        k.0,
        a.reset,
        ap length (k.2 ∙ a.handed_on),
        length-map reclaimed_job (select has_attempt_left rows),
      ),
      k.2 ∙ a.handed_on,
      a.dead,
    )
