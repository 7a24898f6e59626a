-- ===== src/Citations/Sound.antt =====
-- What the cited ids and the unverified markers are.
use panoptic.Common.{
  ◌≡◌, refl, sym, ap, ◌∙◌, ◌⊎◌, inl, inr, Bool, true, false, Option, none, some, List, [], ◌∷◌,
  ◌++◌, if◌then◌else◌, All, All-append, All-map, Bool-cases, arith,
}
use mathlib.Core.Option.{none-ne-some}
use mathlib.Core.Bool.{true≢false}
use panoptic.Jobs.Model.{Text}
use panoptic.Auth.{text_eq, contains}
use panoptic.Auth.Laws.{text_eq_refl, text_eq→≡}
use panoptic.Ingest.Rerun.{any-append, any_last}
use panoptic.Citations.Known.{resolve-known}
use panoptic.Citations.{
  Json, lower, resolve, place, build_outputs, add_once, cite_artifact, resolve_artifact,
  collect_known_ids, markers_of, Answer, verify_citations,
}

text_eq_comm : (s t : Text) → text_eq s t ≡ false → text_eq t s ≡ false
text_eq_comm s t h = elim (Bool-cases (text_eq t s)) [
  | inl e ↦ absurd (impossible (text_eq→≡ t s e))
  | inr e ↦ e
]
  where
    impossible : t ≡ s → ⊥
    impossible q = true≢false (sym (text_eq_refl s) ∙ sym (ap (text_eq s) q) ∙ h)

split_false : (a b : Bool) → (if a then true else b) ≡ false → (a ≡ false) × (b ≡ false)
split_false true b h = ground arith
split_false false b h = (refl, h)

-- All different.
abbrev pub Distinct : List Text → Type 0
Distinct [] = Unit
Distinct (t ∷ ts) = (contains t ts ≡ false) × Distinct ts

contains-last :
    (t u : Text) (ts : List Text)
    → contains t ts ≡ false
    → text_eq t u ≡ false
    → contains t (ts ++ u ∷ []) ≡ false
unfolding contains
contains-last t u ts h e = rw (any-append (text_eq t) ts (u ∷ []), h, e) refl

Distinct-last :
    (ts : List Text) (u : Text) → Distinct ts → contains u ts ≡ false → Distinct (ts ++ u ∷ [])
unfolding contains
Distinct-last [] u d h = (refl, tt)
Distinct-last (t ∷ ts) u d h =
    let (e, rest) = split_false (text_eq u t) (contains u ts) h in
    (contains-last t u ts d.0 (text_eq_comm u t e), Distinct-last ts u d.1 rest)

add_once-Distinct : (u : Text) (ts : List Text) → Distinct ts → Distinct (add_once u ts)
add_once-Distinct u ts d = elim (Bool-cases (contains u ts)) [
  | inl e ↦ rw e d
  | inr e ↦ rw e (Distinct-last ts u d e)
]

add_once-own : (u : Text) (ts : List Text) → contains u (add_once u ts) ≡ true
unfolding contains
add_once-own u ts = elim (Bool-cases (contains u ts)) [
  | inl e ↦ rw e e
  | inr e ↦ rw e (any_last (text_eq u) ts u (text_eq_refl u))
]

add_once_keeps :
    (k u : Text) (ts : List Text) → contains k ts ≡ true → contains k (add_once u ts) ≡ true
unfolding contains
add_once_keeps k u ts h = elim (Bool-cases (contains u ts)) [
  | inl e ↦ rw e h
  | inr e ↦ rw (e, any-append (text_eq k) ts (u ∷ []), h) refl
]

add_once-All :
    (P : Text → Type 0) (u : Text) (ts : List Text) → P u → All P ts → All P (add_once u ts)
add_once-All P u ts p h = elim (Bool-cases (contains u ts)) [
  | inl e ↦ rw e h
  | inr e ↦ rw e (All-append P ts (u ∷ []) h (p, tt))
]

module _ (known : List Text) where
  -- Each cited id is known, none is cited twice, and no unverified marker has a resolution.
  abbrev pub IsSound : List Text × List Text → Type 0
  IsSound out =
      All (λ k. contains k known ≡ true) out.0
      × Distinct out.0
      × All (λ raw. resolve raw known ≡ none) out.1

  -- The marker's id is cited, or the marker is reported.
  abbrev pub IsAccounted : List Text × List Text → Text → Type 0
  IsAccounted out raw =
      ((k : Text) × (resolve raw known ≡ some k) × (contains k out.0 ≡ true))
      ⊎ ((resolve raw known ≡ none) × (contains raw out.1 ≡ true))

  place-IsSound :
      (raw : Text) (o : Option Text) (out : List Text × List Text)
      → resolve raw known ≡ o
      → IsSound out
      → IsSound (place o raw out)
  unfolding place
  place-IsSound raw (some k) (cited, un) h (a, d, u) = (
    add_once-All (λ x. contains x known ≡ true) k cited (resolve-known raw known k h) a,
    add_once-Distinct k cited d,
    u,
  )
  place-IsSound raw none (cited, un) h (a, d, u) =
      (a, d, add_once-All (λ x. resolve x known ≡ none) raw un h u)

  build_outputs-IsSound :
      (raws : List Text) (out : List Text × List Text)
      → IsSound out
      → IsSound (build_outputs known raws out)
  unfolding build_outputs
  build_outputs-IsSound [] out s = s
  build_outputs-IsSound (raw ∷ raws) out s =
      build_outputs-IsSound raws _ (place-IsSound raw (resolve raw known) out refl s)

  abbrev Keeps : List Text × List Text → List Text × List Text → Type 0
  Keeps out out' =
      ((k : Text) → contains k out.0 ≡ true → contains k out'.0 ≡ true)
      × ((k : Text) → contains k out.1 ≡ true → contains k out'.1 ≡ true)

  place-Keeps :
      (raw : Text) (o : Option Text) (out : List Text × List Text) → Keeps out (place o raw out)
  unfolding place
  place-Keeps raw (some full) (cited, un) = (λ k h. add_once_keeps k full cited h, λ k h. h)
  place-Keeps raw none (cited, un) = (λ k h. h, λ k h. add_once_keeps k raw un h)

  build_outputs-Keeps :
      (raws : List Text) (out : List Text × List Text) → Keeps out (build_outputs known raws out)
  unfolding build_outputs
  build_outputs-Keeps [] out = (λ k h. h, λ k h. h)
  build_outputs-Keeps (raw ∷ raws) out =
      let (f, g) = place-Keeps raw (resolve raw known) out in
      let (f', g') = build_outputs-Keeps raws (place (resolve raw known) raw out) in
      (λ k h. f' k (f k h), λ k h. g' k (g k h))

  IsAccounted-Keeps :
      (out out' : List Text × List Text) (raw : Text)
      → Keeps out out'
      → IsAccounted out raw
      → IsAccounted out' raw
  IsAccounted-Keeps out out' raw (f, g) (inl (k, r, h)) = inl (k, r, f k h)
  IsAccounted-Keeps out out' raw (f, g) (inr (r, h)) = inr (r, g raw h)

  place-IsAccounted :
      (raw : Text) (o : Option Text) (out : List Text × List Text)
      → resolve raw known ≡ o
      → IsAccounted (place o raw out) raw
  unfolding place
  place-IsAccounted raw (some k) (cited, un) h = inl (k, h, add_once-own k cited)
  place-IsAccounted raw none (cited, un) h = inr (h, add_once-own raw un)

  build_outputs-IsAccounted :
      (raws : List Text) (out : List Text × List Text)
      → All (IsAccounted (build_outputs known raws out)) raws
  unfolding build_outputs
  build_outputs-IsAccounted [] out = tt
  build_outputs-IsAccounted (raw ∷ raws) out =
      let next = place (resolve raw known) raw out in
      (
        IsAccounted-Keeps next (build_outputs known raws next) raw (build_outputs-Keeps raws next)
            (place-IsAccounted raw (resolve raw known) out refl),
        build_outputs-IsAccounted raws next,
      )

  cite-IsSound :
      (o : Option Text) (out : List Text × List Text)
      → ((k : Text) → o ≡ some k → contains k known ≡ true)
      → IsSound out
      → IsSound (cite_artifact o out.0, out.1)
  cite-IsSound none out h s = s
  cite-IsSound (some k) out h (a, d, u) = (
    add_once-All (λ x. contains x known ≡ true) k out.0 (h k refl) a,
    add_once-Distinct k out.0 d,
    u,
  )

  cite-Keeps :
      (o : Option Text) (out : List Text × List Text) → Keeps out (cite_artifact o out.0, out.1)
  cite-Keeps none out = (λ k h. h, λ k h. h)
  cite-Keeps (some full) out = (λ k h. add_once_keeps k full out.0 h, λ k h. h)

  artifact_known :
      (id : Option Text) (k : Text) → resolve_artifact id known ≡ some k → contains k known ≡ true
  artifact_known none k h = absurd (none-ne-some k h)
  artifact_known (some id) k h = resolve-known (lower id) known k h

-- Every id that verify_citations cites stands in the outputs of the trace's tool calls and is cited
-- once; every marker that it reports as unverified has no resolution; and every marker of the
-- answer's texts is either cited by its full id or reported.
pub verify_citations-IsSound :
    (a : Answer) (calls : List (Option Json))
    → IsSound
        (collect_known_ids calls [])
        ((verify_citations a calls).cited, (verify_citations a calls).unverified_citations)
      × All
          (IsAccounted
            (collect_known_ids calls [])
            ((verify_citations a calls).cited, (verify_citations a calls).unverified_citations))
          (markers_of a)
unfolding verify_citations
verify_citations-IsSound a calls =
    let known = collect_known_ids calls [] in
    let out = build_outputs known (markers_of a) ([], []) in
    let o = resolve_artifact a.artifact_id known in
    (
      cite-IsSound known o out (artifact_known known a.artifact_id)
          (build_outputs-IsSound known (markers_of a) ([], []) (tt, tt, tt)),
      All-map (IsAccounted known out) (IsAccounted known (cite_artifact o out.0, out.1))
          (λ raw h. IsAccounted-Keeps known out _ raw (cite-Keeps known o out) h) (markers_of a)
          (build_outputs-IsAccounted known (markers_of a) ([], [])),
    )
