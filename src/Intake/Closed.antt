-- ===== src/Intake/Closed.antt =====
-- A window that was finalized, and the deliveries and scans after it.
use mathlib.Core.Path.{fun_ext}
use mathlib.Core.Bool.{true≢false}
use mathlib.Core.Option.{none-ne-some}
use panoptic.Common.{
  ℕ, ◌+◌, ◌<◌, ◌≤◌, ◌-◌, ◌≡◌, refl, sym, ap, ◌∙◌, subst, true, false, Option, none, some,
  some-injective, List, [], ◌∷◌, ltb, lt→ltb, map, Bool-cases, Option-cases, inl, inr, arith,
}
use panoptic.Float.{Float}
use panoptic.Buckets.{BucketRecord}
use panoptic.Intake.Transform.{BucketData}
use panoptic.Intake.{
  Window, window_eq, set_at, Hash, Redis, Payload, window_of, is_done, live_hash, fields_of,
  visible, store_fragment, clean_up, close_window, finish_one, finalize_fragments, finalize_one,
  caught, scan_hash, scan_keys, scan_and_finalize,
}
use panoptic.Intake.View.{closed, view, window_eq_sound, set_at_own}

module _ (F : Float) where
  -- The window has no hash, and its done marker lives until `until` at least.
  abbrev pub IsClosed : ℕ → Window → Redis F → Type 0
  IsClosed until w r =
      (r.hashes w ≡ none) × ((expires : ℕ) × (r.done w ≡ some expires) × (until ≤ expires))

  closed-is_done :
      (until now : ℕ) (w : Window) (r : Redis F)
      → IsClosed until w r
      → now < until
      → is_done F now w r ≡ true
  closed-is_done until now w r (h, (e, d, le)) lt = rw d (lt→ltb now e (omega (arith, le, lt)))

  close_window-IsClosed :
      (now : ℕ) (w : Window) (r : Redis F) → IsClosed (now + 3600) w (close_window F now w r)
  unfolding close_window clean_up
  close_window-IsClosed now w r =
      rw (set_at_own w none r.hashes, set_at_own w (some (now + 3600)) r.done)
        (refl, (now + 3600, refl, omega arith))

  close_window-view :
      (now : ℕ) (w : Window) (r : Redis F)
      → view F now (close_window F now w r) ≡ set_at w closed (view F now r)
  unfolding close_window clean_up view
  close_window-view now w r = fun_ext (λ v. elim (Bool-cases (window_eq v w)) [
    | inl e ↦ rw (e, lt→ltb now (now + 3600) (omega arith)) refl
    | inr e ↦ rw e refl
  ])

  store_fragment-IsClosed :
      (until now : ℕ) (w : Window) (p : Payload F) (r : Redis F)
      → IsClosed until w r
      → now < until
      → IsClosed until w (store_fragment F now p r).0
  unfolding store_fragment
  store_fragment-IsClosed until now w p r c lt =
      elim (Bool-cases (is_done F now (window_of F p) r)) [
        | inl d ↦ rw d c
        | inr d ↦ elim (Bool-cases (window_eq w (window_of F p))) [
          | inl e ↦ absurd (true≢false (sym (same e) ∙ d))
          | inr e ↦ rw (d, e) c
        ]
      ]
    where
      same : window_eq w (window_of F p) ≡ true → is_done F now (window_of F p) r ≡ true
      same e =
          subst (λ v. is_done F now v r ≡ true) (window_eq_sound w (window_of F p) e)
            (closed-is_done until now w r c lt)

  clean_up-IsClosed :
      (until : ℕ) (w v : Window) (r : Redis F)
      → IsClosed until w r
      → IsClosed until w (clean_up F v r)
  unfolding clean_up
  clean_up-IsClosed until w v r (h, rest) = elim (Bool-cases (window_eq w v)) [
    | inl e ↦ rw e (refl, rest)
    | inr e ↦ rw e (h, rest)
  ]

  close_window_keeps :
      (until now : ℕ) (w v : Window) (r : Redis F)
      → IsClosed until w r
      → window_eq w v ≡ false
      → IsClosed until w (close_window F now v r)
  unfolding close_window clean_up
  close_window_keeps until now w v r (h, rest) e = rw e (h, rest)

  live_hash_closed :
      (until now : ℕ) (w v : Window) (r : Redis F) (h : Hash F)
      → IsClosed until w r
      → live_hash F now v r ≡ some h
      → window_eq w v ≡ false
  live_hash_closed until now w v r h (n, rest) live = elim (Bool-cases (window_eq w v)) [
    | inl e ↦ absurd (none-ne-some h (sym (gone e) ∙ live))
    | inr e ↦ e
  ]
    where
      gone : window_eq w v ≡ true → live_hash F now v r ≡ none
      gone e = subst (λ u. live_hash F now u r ≡ none) (window_eq_sound w v e) (rw n refl)

  module _ {S : Type 0} (transform : BucketData F → List (BucketData F) → ℕ → ℕ → BucketRecord F)
      (ingest : BucketRecord F → S → Option S) (until now : ℕ) (w : Window) where
    finish_one-IsClosed :
        (v : Window) (r : Redis F) (s : S) (o : Option S)
        → IsClosed until w r
        → window_eq w v ≡ false
        → IsClosed until w
            (caught F transform ingest r s (finish_one F transform ingest now v r o)).0
    unfolding caught finish_one
    finish_one-IsClosed v r s none c e = c
    finish_one-IsClosed v r s (some s') c e = close_window_keeps until now w v r c e

    fragments-IsClosed :
        (v : Window) (fs : List (BucketData F)) (r : Redis F) (s : S)
        → IsClosed until w r
        → window_eq w v ≡ false
        → IsClosed until w
            (caught F transform ingest r s (finalize_fragments F transform ingest now v fs r s)).0
    unfolding finalize_fragments caught
    fragments-IsClosed v [] r s c e = clean_up-IsClosed until w v r c
    fragments-IsClosed v (f ∷ fs) r s c e =
        finish_one-IsClosed v r s (ingest (transform f fs v.serial_number v.camera_id) s) c e

    scan_hash-IsClosed :
        (v : Window) (h : Option (Hash F)) (r : Redis F) (s : S)
        → live_hash F now v r ≡ h
        → IsClosed until w r
        → IsClosed until w (scan_hash F transform ingest now v h r s).0
    unfolding scan_hash finalize_one
    scan_hash-IsClosed v none r s l c = c
    scan_hash-IsClosed v (some h) r s l c = elim (Bool-cases (ltb (now - h.updated_at) 30)) [
      | inl q ↦ rw q c
      | inr q ↦ rw q (fragments-IsClosed v _ r s c (live_hash_closed until now w v r h c l))
    ]

    scan_keys-IsClosed :
        (keys : List Window) (r : Redis F) (s : S) (n : ℕ)
        → IsClosed until w r
        → IsClosed until w (scan_keys F transform ingest now keys r s n).0
    unfolding scan_keys
    scan_keys-IsClosed [] r s n c = c
    scan_keys-IsClosed (v ∷ keys) r s n c =
        scan_keys-IsClosed keys _ _ _ (scan_hash-IsClosed v (live_hash F now v r) r s refl c)

module _ (F : Float) {S : Type 0}
    (transform : BucketData F → List (BucketData F) → ℕ → ℕ → BucketRecord F)
    (ingest : BucketRecord F → S → Option S) where
  -- Deliveries and scans, all of them before `limit`.
  pub data Run (limit : ℕ) : Redis F → S → Redis F → S → Type 0 where
    rests : (r : Redis F) (s : S) → Run limit r s r s
    delivers :
        (now : ℕ) (p : Payload F) (r : Redis F) (s : S) (r' : Redis F) (s' : S)
        → now < limit
        → Run limit (store_fragment F now p r).0 s r' s'
        → Run limit r s r' s'
    scans :
        (now : ℕ) (r : Redis F) (s : S) (r' : Redis F) (s' : S)
        → now < limit
        → Run limit
            (scan_and_finalize F transform ingest now r s).0
            (scan_and_finalize F transform ingest now r s).1
            r'
            s'
        → Run limit r s r' s'

  Run-IsClosed :
      (limit : ℕ) (w : Window) {r r' : Redis F} {s s' : S}
      → Run limit r s r' s'
      → IsClosed F limit w r
      → IsClosed F limit w r'
  unfolding scan_and_finalize
  Run-IsClosed limit w (rests r s) c = c
  Run-IsClosed limit w (delivers now p r s r' s' lt run) c =
      Run-IsClosed limit w run (store_fragment-IsClosed F limit now w p r c lt)
  Run-IsClosed limit w (scans now r s r' s' lt run) c =
      Run-IsClosed limit w run (scan_keys-IsClosed F transform ingest limit now w r.active r s 0 c)

  -- The fragments that the finalizer reads back.
  abbrev pub fragments_of : ℕ → Window → Redis F → List (BucketData F)
  fragments_of now w r = map (λ e. e.1) (visible F (fields_of F (live_hash F now w r)))

  finalized :
      (now : ℕ) (w : Window) (r r' : Redis F) (s s' : S) (f : BucketData F)
      (fs : List (BucketData F))
      → fragments_of now w r ≡ f ∷ fs
      → finalize_one F transform ingest now w r s ≡ some (r', s')
      → (ingest (transform f fs w.serial_number w.camera_id) s ≡ some s')
        × (close_window F now w r ≡ r')
  unfolding finalize_one finalize_fragments finish_one
  finalized now w r r' s s' f fs h done =
      elim (Option-cases (ingest (transform f fs w.serial_number w.camera_id) s)) [
        | inl e ↦ absurd (none-ne-some (r', s') (rw (h, e) at done))
        | inr (t, e) ↦
            let q = some-injective _ _ (rw (h, e) at done) in
            (e ∙ ap (λ (x : Redis F × S). some x.1) q, ap (λ (x : Redis F × S). x.0) q)
      ]

  store_fragment_refused :
      (now : ℕ) (p : Payload F) (r : Redis F)
      → is_done F now (window_of F p) r ≡ true
      → store_fragment F now p r ≡ (r, false)
  unfolding store_fragment
  store_fragment_refused now p r d = rw d refl

  -- When _finalize_one returns for a window that has fragments, the record made of them was ingested,
  -- and on the map of phases that window has become closed and no other has changed. It stays closed
  -- for an hour: after any deliveries and scans within that hour its hash is gone, and a delivery to
  -- it within the hour changes nothing and returns False.
  pub finalized_window_refuses :
      (now later : ℕ) (w : Window) (r r' r'' : Redis F) (s s' s'' : S) (f : BucketData F)
      (fs : List (BucketData F)) (p : Payload F)
      → fragments_of now w r ≡ f ∷ fs
      → finalize_one F transform ingest now w r s ≡ some (r', s')
      → Run (now + 3600) r' s' r'' s''
      → later < now + 3600
      → window_of F p ≡ w
      → (ingest (transform f fs w.serial_number w.camera_id) s ≡ some s')
        × (view F now r' ≡ set_at w closed (view F now r))
        × (store_fragment F later p r'' ≡ (r'', false))
        × (r''.hashes w ≡ none)
  finalized_window_refuses now later w r r' r'' s s' s'' f fs p h done run lt same =
      let (ingested, shut) = finalized now w r r' s s' f fs h done in
      let c =
        Run-IsClosed (now + 3600) w run
          (subst (λ x. IsClosed F (now + 3600) w x) shut (close_window-IsClosed F now w r)) in
      (
        ingested,
        ap (view F now) (sym shut) ∙ close_window-view F now w r,
        store_fragment_refused later p r'' (
            subst (λ v. is_done F later v r'' ≡ true) (sym same)
              (closed-is_done F (now + 3600) later w r'' c lt)),
        c.0,
      )
