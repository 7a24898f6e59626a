-- ===== src/Streams/Cleanup.antt =====
-- The clean-up loop ends and acknowledges every entry that the scan claims.
use mathlib.Core.List.{append_assoc}
use panoptic.Common.{
  ℕ, zero, suc, ◌+◌, ◌<◌, ◌≡◌, ◌≢◌, refl, ◌∙◌, Option, some, List, [], ◌++◌, arith, length,
  length-append, ==_iff, ◌==◌, Bool-cases, inl, inr,
}
use panoptic.Streams.{Page, autoclaim_and_ack_stale}

-- The entries that a scan from a cursor claims, page by page up to the cursor 0.
pub data Scans (scan : ℕ → Page) : ℕ → List ℕ → Type 0 where
  last : (c : ℕ) → (scan c).next_id ≡ 0 → Scans scan c (scan c).entry_ids
  more :
      (c : ℕ) (ids : List ℕ)
      → (scan c).next_id ≢ 0
      → Scans scan (scan c).next_id ids
      → Scans scan c ((scan c).entry_ids ++ ids)

regroup :
    (a b c : List ℕ) (n : ℕ)
    → ◌≡◌ {A = Option (List ℕ × ℕ)}
        (some ((a ++ b) ++ c, n + length b + length c))
        (some (a ++ (b ++ c), n + length (b ++ c)))
regroup a b c n = ground (arith, append_assoc a b c, length-append b c)

module _ (scan : ℕ → Page) (rank : ℕ → ℕ)
    (falls : (c : ℕ) → (scan c).next_id ≢ 0 → rank (scan c).next_id < rank c) where
  loop :
      (fuel c : ℕ) (acked : List ℕ) (total : ℕ)
      → rank c < fuel
      → (ids : List ℕ) × Scans scan c ids
        × (autoclaim_and_ack_stale scan fuel c (acked, total)
            ≡ some (acked ++ ids, total + length ids))
  unfolding autoclaim_and_ack_stale
  loop zero c acked total h = absurd (omega arith)
  loop (suc fuel) c acked total h = elim (Bool-cases ((scan c).next_id == 0)) [
    | inl e ↦ ((scan c).entry_ids, last c ((==_iff _ _).0 e), rw e refl)
    | inr e ↦
        let ne : (scan c).next_id ≢ 0 = ground arith in
        let (ids, scans, result) =
          loop fuel (scan c).next_id (acked ++ (scan c).entry_ids)
            (total + length (scan c).entry_ids) (omega (arith, falls c ne)) in
        (
          (scan c).entry_ids ++ ids,
          more c ids ne scans,
          rw e (result ∙ regroup acked (scan c).entry_ids ids total),
        )
  ]

  -- Where each page but the last leaves fewer entries to scan, the loop, started at the cursor 0 with
  -- fuel for as many pages, ends: it has acknowledged exactly the entries that the scan claimed, page
  -- by page, and returns their number.
  pub autoclaim_acks_scan :
      (fuel : ℕ)
      → rank 0 < fuel
      → (ids : List ℕ) × Scans scan 0 ids
        × (autoclaim_and_ack_stale scan fuel 0 ([], 0) ≡ some (ids, length ids))
  autoclaim_acks_scan fuel h =
      let (ids, scans, result) = loop fuel 0 [] 0 h in (ids, scans, result ∙ ground arith)
