-- ===== src/Summaries/Frames.antt =====
-- The bucket's candidates and the frames that are fetched for them, up to the mode of the summary
-- (services/panoptic_summary_agent/executor.py), and is_usable_frame (shared/clients/keyframe.py). What
-- a client of frames answers is a parameter.
use panoptic.Common.{
  ℕ, Bool, true, not, ◌&&◌, Option, none, some, List, [], ◌∷◌, ◌++◌, if◌then◌else◌, ltb, leb, map,
}
use panoptic.Float.{Float}
use panoptic.Jobs.Model.{Text}
use panoptic.Signals.{MarkerKey}
use panoptic.Summaries.{SummaryMode, full, partial, metadata_only}

-- The columns of a row of panoptic_buckets that the executor reads; of a marker its event_type.
pub record SummaryBucket : Type 0 where
  pub bucket_id : ℕ
  pub bucket_start_utc : ℕ
  pub bucket_end_utc : ℕ
  pub baseline_ts : Option ℕ
  pub peak_ts : Option ℕ
  pub change_ts : Option ℕ
  pub event_markers : List MarkerKey

pub record SummaryTask : Type 0 where
  pub bucket_id : ℕ
  pub serial_number : ℕ
  pub camera_id : ℕ
  pub model_profile : ℕ
  pub prompt_version : ℕ

abbrev pub present : Option ℕ → List ℕ
present none = []
present (some t) = t ∷ []

unfoldable pub resolve_candidates : SummaryBucket → List ℕ
resolve_candidates b = present b.baseline_ts ++ (present b.peak_ts ++ present b.change_ts)

abbrev pub target_frames : ℕ
target_frames = 3

unfoldable pub decide_summary_mode : ℕ → SummaryMode
decide_summary_mode n =
    if leb target_frames n then full else if ltb 0 n then partial else metadata_only

-- What a client of frames does; both clients' other exceptions leave the executor.
pub data Fetched {ℓ} (A : Type ℓ) : Type ℓ where
  frame : A → Fetched A
  missing network_error raised : Fetched A

pub record ContinuumFrame : Type 0 where
  pub requested_ts : ℕ
  pub data_uri : Text

abbrev pub add_frame {ℓ} : {A : Type ℓ} → A → Option (List A) → Option (List A)
add_frame f none = none
add_frame f (some fs) = some (f ∷ fs)

abbrev pub add_fetched {ℓ} :
    {A : Type ℓ} → (A → Bool) → Fetched A → Option (List A) → Option (List A)
add_fetched ok (frame f) rest = if ok f then add_frame f rest else rest
add_fetched ok missing rest = rest
add_fetched ok network_error rest = rest
add_fetched ok raised rest = none

-- The loop over the candidates, which both clients share.
unfoldable pub fetch_frames {ℓ} :
    {A : Type ℓ} → (A → Bool) → (ℕ → Fetched A) → List ℕ → Option (List A)
fetch_frames ok fetch [] = some []
fetch_frames ok fetch (t ∷ ts) = add_fetched ok (fetch t) (fetch_frames ok fetch ts)

unfoldable pub fetch_continuum_frames :
    (ℕ → Fetched ContinuumFrame) → List ℕ → Option (List ContinuumFrame)
fetch_continuum_frames = fetch_frames (λ _. true)

abbrev pub option_map {ℓ κ} : {A : Type ℓ} {B : Type κ} → (A → B) → Option A → Option B
option_map f none = none
option_map f (some a) = some (f a)

module _ (F : Float) where
  pub record FrameResponse : Type 0 where
    pub uri : Text
    pub actual_ts : ℕ
    pub blur : F.Num
    pub brightness : F.Num
    pub occluded : Bool

  unfoldable pub is_usable_frame : FrameResponse → Bool
  is_usable_frame f =
      F.le f.blur (F.literal 7 1) && (F.le (F.literal 2 1) f.brightness && not f.occluded)

  unfoldable pub fetch_usable_frames :
      (ℕ → Fetched FrameResponse) → List ℕ → Option (List FrameResponse)
  fetch_usable_frames = fetch_frames is_usable_frame

  -- The frames that were fetched, by their times and uris, and the usable ones that the prompt lists.
  pub record Frames : Type 0 where
    pub timestamps : List ℕ
    pub uris : List Text
    pub listed : List FrameResponse

  abbrev pub no_frames : Frames
  no_frames = record { timestamps = []; uris = []; listed = [] }

  unfoldable pub continuum_frames : List ContinuumFrame → Frames
  continuum_frames fs = record {
    timestamps = map (λ f. f.requested_ts) fs;
    uris = map (λ f. f.data_uri) fs;
    listed = [];
  }

  unfoldable pub keyframe_frames : List FrameResponse → Frames
  keyframe_frames fs = record {
    timestamps = map (λ f. f.actual_ts) fs;
    uris = map (λ f. f.uri) fs;
    listed = fs;
  }

  unfoldable pub fetch_with :
      Option (ℕ → ℕ → ℕ → Fetched ContinuumFrame)
      → Option (ℕ → ℕ → Fetched FrameResponse)
      → SummaryTask
      → List ℕ
      → Option Frames
  fetch_with continuum keyframe task [] = some no_frames
  fetch_with (some fetch) keyframe task (t ∷ ts) =
      option_map continuum_frames
        (fetch_continuum_frames (fetch task.serial_number task.camera_id) (t ∷ ts))
  fetch_with none (some fetch) task (t ∷ ts) =
      option_map keyframe_frames (fetch_usable_frames (fetch task.camera_id) (t ∷ ts))
  fetch_with none none task (t ∷ ts) = some no_frames
