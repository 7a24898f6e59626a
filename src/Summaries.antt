-- ===== src/Summaries.antt =====
-- The rows of panoptic_summaries (shared/schemas/summary.py) and upsert_summary
-- (services/panoptic_summary_agent/summary_db.py). Ids are opaque strings that are only compared, so
-- they are numbers, and so are the profile of the model and the version of the prompt; a scope id is
-- the number of the text that a parameter of the executors joins from the serial number and the camera. Of a key event only its label is kept. The columns
-- metrics and schema_version, which nothing reads, are left out.
pub mod Windows
pub mod Latest
pub mod Upsert
pub mod Rollup
pub mod Llm
pub mod Frames
pub mod Execute
pub mod Hourly
pub mod Embed
pub mod Confirmed
pub mod Triggered
pub mod FrameCounts
pub mod Outcome
pub mod Again
pub mod Embedded
pub mod Chain
pub mod Children
pub mod Unrolled
use panoptic.Common.{
  ℕ, ◌+◌, Bool, true, false, ◌&&◌, Option, none, some, List, [], ◌∷◌, ◌++◌, if◌then◌else◌, ◌==◌,
  any, map,
}
use panoptic.Jobs.Model.{Text}
use panoptic.Float.{Float}

pub data Level : Type 0 where
  camera hour day site : Level

pub data SummaryMode : Type 0 where
  full partial metadata_only : SummaryMode

-- The values that the schema allows, and the one that the embedding worker writes.
pub data EmbeddingStatus : Type 0 where
  pending success failed complete : EmbeddingStatus

-- A dict with a text as its label, one without the key, with its str(), one whose label is null, a number
-- or a Boolean, and one whose label is a list or a dict, which no set can hold.
pub data KeyEvent : Type 0 where
  labelled : Text → KeyEvent
  unlabelled : Text → KeyEvent
  mislabelled unhashable : KeyEvent

-- What generate_summary_id hashes; summary_schema_version is 1 in each of its calls.
pub record SummaryIdentity : Type 0 where
  pub child_set_hash : ℕ
  pub level : Level
  pub model_profile : ℕ
  pub prompt_version : ℕ
  pub scope_id : ℕ
  pub serial_number : ℕ
  pub window_end : ℕ
  pub window_start : ℕ

abbrev pub level_eq : Level → Level → Bool
level_eq camera camera = true
level_eq hour hour = true
level_eq day day = true
level_eq site site = true
level_eq _ _ = false

abbrev pub scope_eq : ℕ × ℕ → ℕ × ℕ → Bool
scope_eq (serial, cam) (serial', cam') = serial == serial' && cam == cam'

-- The columns of the WHERE clause.
pub record SummaryWindow : Type 0 where
  pub serial_number : ℕ
  pub level : Level
  pub scope_id : ℕ
  pub start_time : ℕ
  pub end_time : ℕ

unfoldable pub window_eq : SummaryWindow → SummaryWindow → Bool
window_eq v w =
    v.serial_number == w.serial_number
    && (level_eq v.level w.level
        && (v.scope_id == w.scope_id && (v.start_time == w.start_time && v.end_time == w.end_time)))

module _ (F : Float) where
  pub record SummaryCoverage : Type 0 where
    pub expected : ℕ
    pub present : ℕ
    pub ratio : F.Num
    pub missing : List ℕ

  pub record SummaryRecord : Type 0 where
    pub summary_id : ℕ
    pub window : SummaryWindow
    pub summary : Text
    pub key_events : List KeyEvent
    pub coverage : SummaryCoverage
    pub summary_mode : SummaryMode
    pub frames_used : ℕ
    pub frame_timestamps : List ℕ
    pub confidence : F.Num
    pub embedding_status : EmbeddingStatus
    pub version : ℕ
    pub is_latest : Bool
    pub superseded_by : Option ℕ
    pub model_profile : ℕ
    pub prompt_version : ℕ
    pub source_refs : List ℕ
    pub created_at : ℕ
    pub updated_at : ℕ

  -- The condition of the SELECT.
  unfoldable pub is_latest_in : SummaryWindow → SummaryRecord → Bool
  is_latest_in w r = window_eq r.window w && r.is_latest

  -- ... fetchone
  unfoldable pub find_latest : SummaryWindow → List SummaryRecord → Option SummaryRecord
  find_latest w [] = none
  find_latest w (r ∷ rows) = if is_latest_in w r then some r else find_latest w rows

  unfoldable pub has_summary : ℕ → List SummaryRecord → Bool
  has_summary id rows = any (λ r. r.summary_id == id) rows

  -- The columns that the INSERT writes.
  unfoldable pub stored : ℕ → ℕ → SummaryRecord → SummaryRecord
  stored now version r = record r {
    version = version;
    is_latest = true;
    superseded_by = none;
    created_at = now;
    updated_at = now;
  }

  -- INSERT ... ON CONFLICT (summary_id) DO NOTHING
  unfoldable pub insert_summary : ℕ → ℕ → SummaryRecord → List SummaryRecord → List SummaryRecord
  insert_summary now version r rows =
      if has_summary r.summary_id rows then rows else rows ++ stored now version r ∷ []

  abbrev pub set_superseded : ℕ → ℕ → SummaryRecord → SummaryRecord
  set_superseded now new_id r = record r {
    superseded_by = some new_id;
    is_latest = false;
    updated_at = now;
  }

  -- UPDATE ... WHERE summary_id = :old_id
  unfoldable pub supersede : ℕ → ℕ → ℕ → List SummaryRecord → List SummaryRecord
  supersede now new_id old_id rows =
      map (λ r. if r.summary_id == old_id then set_superseded now new_id r else r) rows

  unfoldable pub upsert_found :
      ℕ → SummaryRecord → Option SummaryRecord → List SummaryRecord → List SummaryRecord × Bool
  upsert_found now r none rows = (insert_summary now 1 r rows, true)
  upsert_found now r (some existing) rows =
      if existing.summary_id == r.summary_id then (rows, false) else (
        supersede now r.summary_id existing.summary_id
            (insert_summary now (existing.version + 1) r rows),
        true,
      )

  -- The rows, and was_new.
  unfoldable pub upsert_summary : ℕ → SummaryRecord → List SummaryRecord → List SummaryRecord × Bool
  upsert_summary now r rows = upsert_found now r (find_latest r.window rows) rows
