-- ===== src/Citations/Known.antt =====
-- The ids that a marker resolves to are known.
use panoptic.Common.{
  ◌≡◌, refl, sym, subst, inl, inr, Bool, true, false, not, ◌&&◌, Option, none, some, some-injective,
  List, [], ◌∷◌, if◌then◌else◌, select, every, length, take, ltb, leb, ◌==◌, Bool-cases,
}
use mathlib.Core.Option.{none-ne-some}
use panoptic.Jobs.Model.{Text}
use panoptic.Auth.{text_eq, contains}
use panoptic.Auth.Laws.{text_eq_refl}
use panoptic.Webhook.Middleware.{starts_with}
use panoptic.Citations.{is_lower_hex, lower, only, resolve_lowered, resolve}

contains_cons : (t x : Text) (xs : List Text) → contains t xs ≡ true → contains t (x ∷ xs) ≡ true
unfolding contains
contains_cons t x xs h = elim (Bool-cases (text_eq t x)) [ inl e ↦ rw e refl | inr e ↦ rw e h ]

contains_own : (t : Text) (xs : List Text) → contains t (t ∷ xs) ≡ true
unfolding contains
contains_own t xs = rw (text_eq_refl t) refl

only_head : (x : Text) (rest : List Text) (k : Text) → only (x ∷ rest) ≡ some k → x ≡ k
only_head x [] k h = some-injective _ _ h
only_head x (y ∷ rest) k h = absurd (none-ne-some k h)

only-known :
    (p : Text → Bool) (xs : List Text) (k : Text)
    → only (select p xs) ≡ some k
    → contains k xs ≡ true
only-known p [] k h = absurd (none-ne-some k h)
only-known p (x ∷ xs) k h = elim (Bool-cases (p x)) [
  | inl e ↦
      subst (λ t. contains t (x ∷ xs) ≡ true) (only_head x (select p xs) k (rw e at h))
        (contains_own x xs)
  | inr e ↦ contains_cons k x xs (only-known p xs k (rw e at h))
]

if_known :
    (b : Bool) (t k : Text) (known : List Text)
    → b ≡ contains t known
    → (if b then some t else none) ≡ some k
    → contains k known ≡ true
if_known true t k known e h = subst (λ u. contains u known ≡ true) (some-injective _ _ h) (sym e)
if_known false t k known e h = absurd (none-ne-some k h)

long_known :
    (a b : Bool) (t m k : Text) (known : List Text)
    → (if a
        then none
        else if b
        then (if contains t known then some t else none)
        else only (select (λ x. starts_with x m) known))
      ≡ some k
    → contains k known ≡ true
long_known true b t m k known h = absurd (none-ne-some k h)
long_known false true t m k known h = if_known (contains t known) t k known refl h
long_known false false t m k known h = only-known (λ x. starts_with x m) known k h

full_known :
    (a : Bool) (m k : Text) (known : List Text) (rest : Option Text)
    → (if a && contains m known then some m else rest) ≡ some k
    → (rest ≡ some k → contains k known ≡ true)
    → contains k known ≡ true
full_known false m k known rest h f = f h
full_known true m k known rest h f = elim (Bool-cases (contains m known)) [
  | inl e ↦ subst (λ u. contains u known ≡ true) (some-injective _ _ (rw e at h)) e
  | inr e ↦ f (rw e at h)
]

not_none :
    (a : Bool) (k : Text) (known : List Text) (rest : Option Text)
    → (if a then none else rest) ≡ some k
    → (rest ≡ some k → contains k known ≡ true)
    → contains k known ≡ true
not_none true k known rest h f = absurd (none-ne-some k h)
not_none false k known rest h f = f h

pub resolve-known :
    (m : Text) (known : List Text) (k : Text) → resolve m known ≡ some k → contains k known ≡ true
unfolding resolve resolve_lowered
resolve-known m known k h =
    let t = lower m in
    not_none (not (every is_lower_hex t && leb 6 (length t) && leb (length t) 70)) k known _ h
      (λ h'.
        full_known (length t == 64) t k known _ h'
          (λ h''. long_known (ltb (length t) 6) (ltb 64 (length t)) (take 64 t) t k known h''))
