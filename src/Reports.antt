-- ===== src/Reports.antt =====
-- dedup_images and translate_labels of shared/report/synthesis.py. An image carries the time that
-- parse_iso reads from its bucket_start, which may fail. Labels are texts, ids are numbers.
pub mod Apart
pub mod Rounds
pub mod Covered
pub mod Synthesis
pub mod Grounded
pub mod Named
pub mod Daily
pub mod Cited
pub mod Job
pub mod Settled
use panoptic.Common.{
  ℕ, ◌+◌, Bool, true, false, not, ◌&&◌, ◌||◌, Option, none, some, List, [], ◌∷◌, ◌++◌,
  if◌then◌else◌, ltb, leb, ◌==◌, any, codes, insert_by, sort_by,
}
use panoptic.Jobs.Model.{Text}
use panoptic.Auth.{text_eq}

-- In seconds.
abbrev pub image_dedup_window : ℕ
image_dedup_window = 300

-- A missing trigger is the empty text.
pub record ReportImage : Type 0 where
  pub image_id : ℕ
  pub trigger : Text
  pub bucket_start : Option ℕ

-- By time, and the images without one, at datetime.min, first.
abbrev pub starts_before : Option ℕ → Option ℕ → Bool
starts_before none _ = true
starts_before (some t) none = false
starts_before (some t) (some u) = leb t u

unfoldable pub is_earlier : ReportImage → ReportImage → Bool
is_earlier x y = starts_before x.bucket_start y.bucket_start

-- last_by_trigger
abbrev pub last_of : Text → List (Text × ℕ) → Option ℕ
last_of trigger [] = none
last_of trigger ((t, n) ∷ last) = if text_eq t trigger then some n else last_of trigger last

-- prev is not None and (ts - prev) < IMAGE_DEDUP_WINDOW
abbrev pub is_near : ℕ → Option ℕ → Bool
is_near ts none = false
is_near ts (some prev) = ltb ts (prev + image_dedup_window)

-- One round of the loop, at the image's time; the source's assignment to a key is the new pair in front.
unfoldable pub keep_at :
    ReportImage
    → List (Text × ℕ)
    → Option ℕ
    → (List (Text × ℕ) → List ReportImage)
    → List ReportImage
keep_at x last none rest = x ∷ rest last
keep_at x last (some ts) rest =
    if is_near ts (last_of x.trigger last) then rest last else x ∷ rest ((x.trigger, ts) ∷ last)

-- The loop over the ordered images.
unfoldable pub keep_first : List (Text × ℕ) → List ReportImage → List ReportImage
keep_first last [] = []
keep_first last (x ∷ xs) = keep_at x last x.bucket_start (λ l. keep_first l xs)

abbrev pub priority : Text → ℕ
priority trigger =
    if text_eq trigger (codes "alert")
    then 3
    else if text_eq trigger (codes "anomaly")
    then 2
    else if text_eq trigger (codes "baseline")
    then 1
    else 0

-- 0.0 where there is no time
abbrev pub epoch : Option ℕ → ℕ
epoch none = 0
epoch (some t) = t

-- The key of the second sort: by priority, and then by time, both descending.
unfoldable pub is_shown_before : ReportImage → ReportImage → Bool
is_shown_before x y =
    ltb (priority y.trigger) (priority x.trigger)
    || (priority x.trigger == priority y.trigger
        && leb (epoch y.bucket_start) (epoch x.bucket_start))

unfoldable pub dedup_ordered : List ReportImage → List ReportImage
dedup_ordered images = sort_by is_shown_before (keep_first [] (sort_by is_earlier images))

unfoldable pub dedup_images : List ReportImage → List ReportImage
dedup_images [] = []
dedup_images (x ∷ []) = x ∷ []
dedup_images (x ∷ y ∷ xs) = dedup_ordered (x ∷ y ∷ xs)

-- label_map.get(label)
abbrev pub find_label : Text → List (Text × ℕ) → Option ℕ
find_label label [] = none
find_label label ((l, id) ∷ labels) = if text_eq l label then some id else find_label label labels

abbrev pub is_seen : ℕ → List ℕ → Bool
is_seen id ids = any (λ i. i == id) ids

abbrev pub add_real : Option ℕ → List ℕ → List ℕ
add_real none out = out
add_real (some real) out = if is_seen real out then out else out ++ real ∷ []

-- The loop: what is seen is what was put out.
unfoldable pub translate_loop : List (Text × ℕ) → List Text → List ℕ → List ℕ
translate_loop labels [] out = out
translate_loop labels (l ∷ ls) out = translate_loop labels ls (add_real (find_label l labels) out)

unfoldable pub translate_labels : List Text → List (Text × ℕ) → List ℕ
translate_labels ls labels = translate_loop labels ls []
