-- ===== src/Citations.antt =====
-- The citation post-processor (services/panoptic_agent/citations.py): the known ids of a trace, the
-- markers of an answer, and which of them are verified. A text is the list of its code points. The
-- rewriting of the answer's texts is not modelled, nor is the artifact's URL.
pub mod Known
pub mod Sound
use panoptic.Common.{
  ℕ, zero, suc, ◌+◌, Bool, true, false, not, ◌&&◌, ◌||◌, Option, none, some, List, [], ◌∷◌, ◌++◌,
  if◌then◌else◌, ltb, leb, ◌==◌, map, select, length, take, every,
}
use panoptic.Jobs.Model.{Text}
use panoptic.Auth.{text_eq, contains, is_hex_digit}
use panoptic.Webhook.Middleware.{starts_with}

-- str.lower on a hexadecimal digit
abbrev pub lower_digit : ℕ → ℕ
lower_digit c = if leb 65 c && leb c 90 then c + 32 else c

abbrev pub lower : Text → Text
lower t = map lower_digit t

abbrev pub drop : ℕ → Text → Text
drop zero t = t
drop (suc n) [] = []
drop (suc n) (c ∷ t) = drop n t

-- The longest runs of hexadecimal digits, with the one that is being read.
unfoldable pub hex_runs : Text → Text → List Text
hex_runs run [] = run ∷ []
hex_runs run (c ∷ t) = if is_hex_digit c then hex_runs (run ++ c ∷ []) t else run ∷ hex_runs [] t

-- The matches of [0-9a-fA-F]{lo,hi} in one run, from the left, each as long as can be.
unfoldable pub chunks : ℕ → ℕ → ℕ → Text → List Text
chunks lo hi zero run = []
chunks lo hi (suc fuel) run =
    if ltb (length run) lo then [] else take hi run ∷ chunks lo hi fuel (drop hi run)

abbrev pub chunks_of_runs : ℕ → ℕ → List Text → List Text
chunks_of_runs lo hi [] = []
chunks_of_runs lo hi (run ∷ runs) = chunks lo hi (length run) run ++ chunks_of_runs lo hi runs

-- re.finditer
abbrev pub find_all : ℕ → ℕ → Text → List Text
find_all lo hi t = chunks_of_runs lo hi (hex_runs [] t)

mutual
  pub data Json : Type 0 where
    text : Text → Json
    items : JsonList → Json
    scalar : Json

  -- The elements of a list, or the values of a dict.
  pub data JsonList : Type 0 where
    nil : JsonList
    cons : Json → JsonList → JsonList

abbrev pub add_all : List Text → List Text → List Text
add_all [] known = known
add_all (t ∷ ts) known =
    add_all ts (if contains (lower t) known then known else known ++ lower t ∷ [])

abbrev mutual
  -- _walk_and_collect
  pub walk_and_collect : Json → List Text → List Text
  walk_and_collect (text t) known = add_all (find_all 64 64 t) known
  walk_and_collect (items js) known = walk_items js known
  walk_and_collect scalar known = known

  pub walk_items : JsonList → List Text → List Text
  walk_items nil known = known
  walk_items (cons j js) known = walk_items js (walk_and_collect j known)

-- _collect_known_ids_from_trace, for the outputs of the tool calls
abbrev pub collect_known_ids : List (Option Json) → List Text → List Text
collect_known_ids [] known = known
collect_known_ids (none ∷ calls) known = collect_known_ids calls known
collect_known_ids (some j ∷ calls) known = collect_known_ids calls (walk_and_collect j known)

-- [0-9a-f]
abbrev pub is_lower_hex : ℕ → Bool
is_lower_hex c = (leb 48 c && leb c 57) || (leb 97 c && leb c 102)

abbrev pub only : List Text → Option Text
only (k ∷ []) = some k
only _ = none

unfoldable pub resolve_lowered : Text → List Text → Option Text
resolve_lowered m known =
    if not (every is_lower_hex m && leb 6 (length m) && leb (length m) 70)
    then none
    else if length m == 64 && contains m known
    then some m
    else if ltb (length m) 6
    then none
    else if ltb 64 (length m)
    then (if contains (take 64 m) known then some (take 64 m) else none)
    else only (select (λ k. starts_with k m) known)

unfoldable pub resolve : Text → List Text → Option Text
resolve marker known = resolve_lowered (lower marker) known

-- raw_markers_in_order
abbrev pub add_new : List Text → List Text → List Text
add_new [] raws = raws
add_new (t ∷ ts) raws = add_new ts (if contains (lower t) raws then raws else raws ++ lower t ∷ [])

abbrev pub raw_markers : List Text → List Text → List Text
raw_markers [] raws = raws
raw_markers (t ∷ ts) raws = raw_markers ts (add_new (find_all 6 70 t) raws)

abbrev pub add_once : Text → List Text → List Text
add_once t ts = if contains t ts then ts else ts ++ t ∷ []

unfoldable pub place : Option Text → Text → List Text × List Text → List Text × List Text
place (some full) raw (cited, unverified) = (add_once full cited, unverified)
place none raw (cited, unverified) = (cited, add_once raw unverified)

-- The loop that builds the outputs: the cited ids and the unverified markers.
unfoldable pub build_outputs : List Text → List Text → List Text × List Text → List Text × List Text
build_outputs known [] out = out
build_outputs known (raw ∷ raws) out = build_outputs known raws (place (resolve raw known) raw out)

abbrev pub cite_artifact : Option Text → List Text → List Text
cite_artifact none cited = cited
cite_artifact (some full) cited = add_once full cited

abbrev pub resolve_artifact : Option Text → List Text → Option Text
resolve_artifact none known = none
resolve_artifact (some aid) known = resolve (lower aid) known

-- The answer: the narrative, the bullets that are texts, and the id of next_artifact.
pub record Answer : Type 0 where
  pub narrative : Text
  pub evidence_bullets : List Text
  pub artifact_id : Option Text

pub record Citations : Type 0 where
  pub cited : List Text
  pub unverified_citations : List Text

unfoldable pub markers_of : Answer → List Text
markers_of a = raw_markers (a.narrative ∷ a.evidence_bullets) []

unfoldable pub verify_citations : Answer → List (Option Json) → Citations
verify_citations a calls =
    let known = collect_known_ids calls [] in
    let out = build_outputs known (markers_of a) ([], []) in
    record {
      cited = cite_artifact (resolve_artifact a.artifact_id known) out.0;
      unverified_citations = out.1;
    }
