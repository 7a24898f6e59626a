-- ===== src/Intake/View.antt =====
-- The intake as a map from windows to phases: a window is closed, or it collects one fragment for
-- each object type. Expiry, the keys and the order of a hash's fields are forgotten.
use panoptic.Common.{
  ℕ, ◌+◌, ◌≡◌, refl, sym, ap, ◌∙◌, Bool, true, false, not, ◌&&◌, Option, none, some, List, [], ◌∷◌,
  if◌then◌else◌, lt→ltb, ==_iff, ==_refl, ◌==◌, Bool-cases, inl, inr, arith,
}
use mathlib.Core.Path.{fun_ext}
use panoptic.Jobs.Model.{Text}
use panoptic.Auth.{text_eq}
use panoptic.Auth.Laws.{text_eq→≡, text_eq_refl}
use panoptic.Float.{Float}
use panoptic.Intake.Transform.{BucketData, put}
use panoptic.Intake.{
  Window, window_eq, set_at, Hash, Redis, Payload, window_of, is_done, live_hash, fields_of,
  is_internal, visible, store_fragment,
}

pub data Phase (F : Float) : Type 0 where
  closed : Phase F
  collecting : (Text → Option (BucketData F)) → Phase F

abbrev pub lookup {ℓ} : {A : Type ℓ} → Text → List (Text × A) → Option A
lookup t [] = none
lookup t (e ∷ es) = if text_eq e.0 t then some e.1 else lookup t es

module _ (F : Float) where
  abbrev pub gathered : List (Text × BucketData F) → Phase F
  gathered es = collecting (λ t. lookup t (visible F es))

  abbrev pub phase_of : Bool → Option (Hash F) → Phase F
  phase_of true h = closed
  phase_of false h = gathered (fields_of F h)

  unfoldable pub view : ℕ → Redis F → Window → Phase F
  view now r w = phase_of (is_done F now w r) (live_hash F now w r)

  abbrev pub collect :
      Text → BucketData F → (Text → Option (BucketData F)) → Text → Option (BucketData F)
  collect k x f t = if text_eq k t then some x else f t

  -- A field whose name begins with an underscore is not read back.
  abbrev pub accept : BucketData F → Phase F → Phase F
  accept x closed = closed
  accept x (collecting f) =
      if is_internal F x.object_type then collecting f else collecting (collect x.object_type x f)

  abbrev pub is_open : Phase F → Bool
  is_open closed = false
  is_open (collecting f) = true

  -- What a delivery does to the map.
  unfoldable pub store_spec : Payload F → (Window → Phase F) → Window → Phase F
  store_spec p v = set_at (window_of F p) (accept p.bucket (v (window_of F p))) v

lookup-put {ℓ} :
    {A : Type ℓ} (k : Text) (x : A) (es : List (Text × A)) (t : Text)
    → lookup t (put k x es) ≡ (if text_eq k t then some x else lookup t es)
lookup-put k x [] t = refl
lookup-put k x (e ∷ es) t = elim (Bool-cases (text_eq k e.0)) [
  | inl q ↦ rw (q, sym (text_eq→≡ k e.0 q)) (if_twice (text_eq k t))
  | inr q ↦ elim (Bool-cases (text_eq e.0 t)) [
    | inl u ↦ rw (q, u, sym (text_eq→≡ e.0 t u), q) refl
    | inr u ↦ rw (q, u) (lookup-put k x es t)
  ]
]
  where
    if_twice :
        (b : Bool)
        → (if b then some x else lookup t es)
          ≡ (if b then some x else if b then some e.1 else lookup t es)
    if_twice true = refl
    if_twice false = refl

both_hold : (a b : Bool) → (a && b) ≡ true → (a ≡ true) × (b ≡ true)
both_hold true b h = (refl, h)
both_hold false b h = ground arith

pub window_eq_sound : (v w : Window) → window_eq v w ≡ true → v ≡ w
window_eq_sound v w h =
    let (a, rest) = both_hold (v.serial_number == w.serial_number) _ h in
    let (b, c) = both_hold (v.camera_id == w.camera_id) _ rest in
    let p = (==_iff _ _).0 a in
    let q = (==_iff _ _).0 b in
    let r = (==_iff _ _).0 c in
    λ i. record { serial_number = p i; camera_id = q i; bucket_start = r i }

pub window_eq_refl : (w : Window) → window_eq w w ≡ true
window_eq_refl w = rw (==_refl w.serial_number, ==_refl w.camera_id, ==_refl w.bucket_start) refl

module _ {ℓ} {A : Type ℓ} where
  pub set_at_own : (w : Window) (x : A) (m : Window → A) → set_at w x m w ≡ x
  set_at_own w x m = rw (window_eq_refl w) refl

  pub set_at_kept :
      (w : Window) (x : A) (m : Window → A) → x ≡ m w → (v : Window) → set_at w x m v ≡ m v
  set_at_kept w x m h v = elim (Bool-cases (window_eq v w)) [
    | inl e ↦ rw (e, h, window_eq_sound v w e) refl
    | inr e ↦ rw e refl
  ]

module _ (F : Float) where
  visible-put :
      (k : Text) (x : BucketData F) (es : List (Text × BucketData F))
      → is_internal F k ≡ false
      → visible F (put k x es) ≡ put k x (visible F es)
  visible-put k x [] h = rw h refl
  visible-put k x (e ∷ es) h = elim (Bool-cases (text_eq k e.0)) [
    | inl q ↦ rw (q, sym (text_eq→≡ k e.0 q), h, text_eq_refl k) refl
    | inr q ↦ elim (Bool-cases (is_internal F e.0)) [
      | inl u ↦ rw (q, u) (visible-put k x es h)
      | inr u ↦ rw (q, u, q) (ap (λ rest. e ∷ rest) (visible-put k x es h))
    ]
  ]

  visible-put_internal :
      (k : Text) (x : BucketData F) (es : List (Text × BucketData F))
      → is_internal F k ≡ true
      → visible F (put k x es) ≡ visible F es
  visible-put_internal k x [] h = rw h refl
  visible-put_internal k x (e ∷ es) h = elim (Bool-cases (text_eq k e.0)) [
    | inl q ↦ rw (q, sym (text_eq→≡ k e.0 q), h) refl
    | inr q ↦ rw q (
        ap (λ rest. if not (is_internal F e.0) then e ∷ rest else rest)
          (visible-put_internal k x es h))
  ]

  phase-put :
      (x : BucketData F) (es : List (Text × BucketData F))
      → gathered F (put x.object_type x es) ≡ accept F x (gathered F es)
  phase-put x es = elim (Bool-cases (is_internal F x.object_type)) [
    | inl h ↦ rw (h, visible-put_internal x.object_type x es h) refl
    | inr h ↦
        rw (h, visible-put x.object_type x es h)
          (ap (λ f. collecting f) (fun_ext (lookup-put x.object_type x (visible F es))))
  ]

  stored-view :
      (now : ℕ) (p : Payload F) (r : Redis F)
      → is_done F now (window_of F p) r ≡ false
      → view F now (store_fragment F now p r).0 (window_of F p)
        ≡ accept F p.bucket (view F now r (window_of F p))
  unfolding store_fragment view
  stored-view now p r d =
      rw (d, set_at_own (window_of F p), d, lt→ltb now (now + 3600) (omega arith))
        (phase-put p.bucket (fields_of F (live_hash F now (window_of F p) r)))

  stored_elsewhere :
      (now : ℕ) (p : Payload F) (r : Redis F) (w : Window)
      → window_eq w (window_of F p) ≡ false
      → view F now (store_fragment F now p r).0 w ≡ view F now r w
  unfolding store_fragment view
  stored_elsewhere now p r w e = elim (Bool-cases (is_done F now (window_of F p) r)) [
    | inl d ↦ rw d refl
    | inr d ↦ rw (d, e) refl
  ]

  refused-view :
      (now : ℕ) (p : Payload F) (r : Redis F)
      → is_done F now (window_of F p) r ≡ true
      → view F now (store_fragment F now p r).0 (window_of F p)
        ≡ accept F p.bucket (view F now r (window_of F p))
  unfolding store_fragment view
  refused-view now p r d = rw (d, d) refl

  stored_here :
      (now : ℕ) (p : Payload F) (r : Redis F)
      → view F now (store_fragment F now p r).0 (window_of F p)
        ≡ accept F p.bucket (view F now r (window_of F p))
  stored_here now p r = elim (Bool-cases (is_done F now (window_of F p) r)) [
    | inl d ↦ refused-view now p r d
    | inr d ↦ stored-view now p r d
  ]

  -- store_fragment does to the map of phases what the abstract delivery does: a closed window refuses
  -- the fragment, an open one keeps it as the one of its object type (a name that begins with an
  -- underscore aside), and no other window changes; and the value returned says whether the window
  -- was open.
  pub store_fragment-refines :
      (now : ℕ) (p : Payload F) (r : Redis F)
      → (view F now (store_fragment F now p r).0 ≡ store_spec F p (view F now r))
        × ((store_fragment F now p r).1 ≡ is_open F (view F now r (window_of F p)))
  unfolding store_fragment view store_spec
  store_fragment-refines now p r = (fun_ext phases, answer)
    where
      phases :
          (w : Window) → view F now (store_fragment F now p r).0 w ≡ store_spec F p (view F now r) w
      phases w = elim (Bool-cases (window_eq w (window_of F p))) [
        | inl e ↦
            rw (window_eq_sound w _ e)
              (stored_here now p r ∙ sym (set_at_own (window_of F p) _ (view F now r)))
        | inr e ↦ stored_elsewhere now p r w e ∙ rw e refl
      ]

      answer : (store_fragment F now p r).1 ≡ is_open F (view F now r (window_of F p))
      answer = elim (Bool-cases (is_done F now (window_of F p) r)) [
        | inl d ↦ rw d refl
        | inr d ↦ rw d refl
      ]
