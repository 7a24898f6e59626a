-- ===== src/Reports/Grounded.antt =====
-- The ids that a synthesis names.
use panoptic.Common.{
  ℕ, suc, ◌≡◌, refl, ap, ◌∙◌, true, false, Option, none, some, some-injective, List, [], ◌∷◌, ◌++◌,
  if◌then◌else◌, ◌==◌, ==_refl, leb, every, Bool-cases, inl, inr, arith,
}
use panoptic.Jobs.Model.{Text}
use panoptic.Auth.{text_eq}
use panoptic.Summaries.Rollup.{insert_id, sort_ids}
use panoptic.Summaries.Triggered.{has_id-insert_id, has_id-sort_ids}
use panoptic.Reports.{is_seen, find_label, add_real, translate_loop, translate_labels}
use panoptic.Reports.Synthesis.{labels_from, add_id, keep_known, set_of}

-- All different.
abbrev pub AllDifferent : List ℕ → Type 0
AllDifferent [] = Unit
AllDifferent (i ∷ is) = (is_seen i is ≡ false) × AllDifferent is

-- Known ones only, and each of them once.
abbrev pub IsGrounded : List ℕ → List ℕ → Type 0
IsGrounded known ids = (every (λ i. is_seen i known) ids ≡ true) × AllDifferent ids

every-last :
    (known ids : List ℕ) (i : ℕ)
    → every (λ j. is_seen j known) ids ≡ true
    → is_seen i known ≡ true
    → every (λ j. is_seen j known) (ids ++ i ∷ []) ≡ true
every-last known [] i h k = rw k refl
every-last known (j ∷ ids) i h k = ground (arith, every-last known ids i)

pub is_seen-last :
    (k i : ℕ) (ids : List ℕ) → is_seen k (ids ++ i ∷ []) ≡ (if is_seen k ids then true else i == k)
is_seen-last k i [] = ground arith
is_seen-last k i (j ∷ ids) = ground (arith, is_seen-last k i ids)

AllDifferent-last :
    (ids : List ℕ) (i : ℕ) → AllDifferent ids → is_seen i ids ≡ false → AllDifferent (ids ++ i ∷ [])
AllDifferent-last [] i d h = (refl, tt)
AllDifferent-last (j ∷ ids) i d h =
    (ground (arith, is_seen-last j i ids), AllDifferent-last ids i d.1 (ground arith))

add_id-IsGrounded :
    (known ids : List ℕ) (i : ℕ)
    → IsGrounded known ids
    → is_seen i known ≡ true
    → IsGrounded known (add_id i ids)
add_id-IsGrounded known ids i g h = elim (Bool-cases (is_seen i ids)) [
  | inl e ↦ rw e g
  | inr e ↦ rw e (every-last known ids i g.0 h, AllDifferent-last ids i g.1 e)
]

pub keep_known-IsGrounded :
    (known ids out : List ℕ) → IsGrounded known out → IsGrounded known (keep_known known ids out)
unfolding keep_known
keep_known-IsGrounded known [] out g = g
keep_known-IsGrounded known (i ∷ ids) out g = elim (Bool-cases (is_seen i known)) [
  | inl e ↦
      rw e (keep_known-IsGrounded known ids (add_id i out) (add_id-IsGrounded known out i g e))
  | inr e ↦ rw e (keep_known-IsGrounded known ids out g)
]

-- The ids that a list of ids holds.
pub is_seen_self : (i : ℕ) (ids : List ℕ) → is_seen i (i ∷ ids) ≡ true
is_seen_self i ids = rw (==_refl i) refl

abbrev pub Subset : List ℕ → List ℕ → Type 0
Subset ids known = (k : ℕ) → is_seen k ids ≡ true → is_seen k known ≡ true

set_of-IsGrounded :
    (known ids out : List ℕ)
    → Subset ids known
    → IsGrounded known out
    → IsGrounded known (set_of ids out)
unfolding set_of
set_of-IsGrounded known [] out sub g = g
set_of-IsGrounded known (i ∷ ids) out sub g =
    set_of-IsGrounded known ids (add_id i out) (λ k h. sub k (ground arith))
      (add_id-IsGrounded known out i g (sub i (is_seen_self i ids)))

insert_id-IsGrounded :
    (known ids : List ℕ) (i : ℕ)
    → is_seen i known ≡ true
    → is_seen i ids ≡ false
    → IsGrounded known ids
    → IsGrounded known (insert_id i ids)
insert_id-IsGrounded known [] i h new g = (rw h refl, (refl, tt))
insert_id-IsGrounded known (j ∷ js) i h new g = elim (Bool-cases (leb i j)) [
  | inl e ↦ rw e (rw h g.0, (new, g.1))
  | inr e ↦
      let old : is_seen j known ≡ true = ground arith in
      let rest : every (λ k. is_seen k known) js ≡ true = ground arith in
      let (all, apart) = insert_id-IsGrounded known js i h (ground arith) (rest, g.1.1) in
      rw e (rw old all, (ground (arith, has_id-insert_id j i js, g.1.0), apart))
]

sort_ids-IsGrounded : (known ids : List ℕ) → IsGrounded known ids → IsGrounded known (sort_ids ids)
unfolding sort_ids
sort_ids-IsGrounded known [] g = g
sort_ids-IsGrounded known (i ∷ is) g =
    let own : is_seen i known ≡ true = ground arith in
    let rest : every (λ k. is_seen k known) is ≡ true = ground arith in
    insert_id-IsGrounded known (sort_ids is) i own (has_id-sort_ids i is ∙ g.1.0)
      (sort_ids-IsGrounded known is (rest, g.1.1))

pub all_known : (known : List ℕ) → IsGrounded known (sort_ids (set_of known []))
all_known known =
    sort_ids-IsGrounded known (set_of known [])
      (set_of-IsGrounded known known [] (λ k h. h) (refl, tt))

-- A label stands for an id that has it.
labels_from-known :
    (name : ℕ → Text) (n : ℕ) (l : Text) (ids : List ℕ) (id : ℕ)
    → find_label l (labels_from name n ids) ≡ some id
    → is_seen id ids ≡ true
unfolding labels_from
labels_from-known name n l [] id h = cc
labels_from-known name n l (i ∷ ids) id h = elim (Bool-cases (text_eq (name n) l)) [
  | inl e ↦ rw (ap (λ k. k == id) (some-injective _ _ (rw e at h)) ∙ ==_refl id) refl
  | inr e ↦ (let it = labels_from-known name (suc n) l ids id (rw e at h) in ground arith)
]

add_real-IsGrounded :
    (known out : List ℕ) (o : Option ℕ)
    → ((id : ℕ) → o ≡ some id → is_seen id known ≡ true)
    → IsGrounded known out
    → IsGrounded known (add_real o out)
add_real-IsGrounded known out none h g = g
add_real-IsGrounded known out (some id) h g = add_id-IsGrounded known out id g (h id refl)

translate_loop-IsGrounded :
    (name : ℕ → Text) (known : List ℕ) (ls : List Text) (out : List ℕ)
    → IsGrounded known out
    → IsGrounded known (translate_loop (labels_from name 0 known) ls out)
unfolding translate_loop
translate_loop-IsGrounded name known [] out g = g
translate_loop-IsGrounded name known (l ∷ ls) out g = translate_loop-IsGrounded name known ls _ (
    add_real-IsGrounded known out (find_label l (labels_from name 0 known))
      (labels_from-known name 0 l known) g)

pub translate_labels-IsGrounded :
    (name : ℕ → Text) (known : List ℕ) (ls : List Text)
    → IsGrounded known (translate_labels ls (labels_from name 0 known))
unfolding translate_labels
translate_labels-IsGrounded name known ls = translate_loop-IsGrounded name known ls [] (refl, tt)
