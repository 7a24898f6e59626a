-- ===== src/Intake.antt =====
-- The trailer intake (shared/clients/trailer_intake.py): the Redis hashes that gather a window's
-- fragments, the set of active keys, the done markers, and the finalizer. A key is its three parts;
-- the source joins them by colons, so no serial number and no camera id has one. Every Redis command
-- of one call sees the same clock, in whole seconds. A fragment is read back as it was written.
-- The ingest is a parameter: `none` where it raises, which rolls its transaction back.
pub mod Transform
pub mod Order
pub mod View
pub mod Closed
use panoptic.Common.{
  ℕ, ◌+◌, ◌-◌, Bool, true, false, not, ◌&&◌, Option, none, some, List, [], ◌∷◌, if◌then◌else◌, ltb,
  ◌==◌, select, any, map,
}
use panoptic.Jobs.Model.{Text}
use panoptic.Float.{Float}
use panoptic.Buckets.{BucketRecord}
use panoptic.Intake.Transform.{BucketData, put}

abbrev pub finalize_quiet_seconds : ℕ
finalize_quiet_seconds = 30

abbrev pub agg_hash_ttl : ℕ
agg_hash_ttl = 3600

abbrev pub done_marker_ttl : ℕ
done_marker_ttl = 3600

pub record Window : Type 0 where
  pub serial_number : ℕ
  pub camera_id : ℕ
  pub bucket_start : ℕ

abbrev pub window_eq : Window → Window → Bool
window_eq v w =
    v.serial_number == w.serial_number
    && (v.camera_id == w.camera_id && v.bucket_start == w.bucket_start)

abbrev pub set_at {ℓ} : {A : Type ℓ} → Window → A → (Window → A) → Window → A
set_at w x m v = if window_eq v w then x else m v

-- SADD and SREM
abbrev pub add_key : Window → List Window → List Window
add_key w keys = if any (window_eq w) keys then keys else w ∷ keys

abbrev pub remove_key : Window → List Window → List Window
remove_key w keys = select (λ k. not (window_eq w k)) keys

module _ (F : Float) where
  -- The hash of a window: its fields, the field _updated_at, and when it expires.
  pub record Hash : Type 0 where
    pub fields : List (Text × BucketData F)
    pub updated_at : ℕ
    pub expires_at : ℕ

  pub record Redis : Type 0 where
    pub done : Window → Option ℕ
    pub hashes : Window → Option Hash
    pub active : List Window

  pub record Payload : Type 0 where
    pub serial_number : ℕ
    pub camera_id : ℕ
    pub bucket : BucketData F

  abbrev pub window_of : Payload → Window
  window_of p = record {
    serial_number = p.serial_number;
    camera_id = p.camera_id;
    bucket_start = p.bucket.bucket_start;
  }

  abbrev pub lives : ℕ → Option ℕ → Bool
  lives now none = false
  lives now (some expires_at) = ltb now expires_at

  -- EXISTS of the done marker
  abbrev pub is_done : ℕ → Window → Redis → Bool
  is_done now w r = lives now (r.done w)

  abbrev pub unexpired : ℕ → Option Hash → Option Hash
  unexpired now none = none
  unexpired now (some h) = if ltb now h.expires_at then some h else none

  -- The hash that HGET and HGETALL read.
  abbrev pub live_hash : ℕ → Window → Redis → Option Hash
  live_hash now w r = unexpired now (r.hashes w)

  abbrev pub fields_of : Option Hash → List (Text × BucketData F)
  fields_of none = []
  fields_of (some h) = h.fields

  -- field_str.startswith("_")
  abbrev pub is_internal : Text → Bool
  is_internal [] = false
  is_internal (c ∷ t) = c == 95

  abbrev pub visible : List (Text × BucketData F) → List (Text × BucketData F)
  visible fields = select (λ e. not (is_internal e.0)) fields

  unfoldable pub store_fragment : ℕ → Payload → Redis → Redis × Bool
  store_fragment now p r =
      let key = window_of p in
      if is_done now key r then (r, false) else (
        record r {
          hashes =
              set_at key
                (some (record {
                  fields = put p.bucket.object_type p.bucket (fields_of (live_hash now key r));
                  updated_at = now;
                  expires_at = now + agg_hash_ttl;
                }))
                r.hashes;
          active = add_key key r.active;
        },
        true,
      )

  -- DEL of the hash and SREM of its key
  unfoldable pub clean_up : Window → Redis → Redis
  clean_up w r = record r { hashes = set_at w none r.hashes; active = remove_key w r.active }

  -- SET of the done marker, and the clean-up
  unfoldable pub close_window : ℕ → Window → Redis → Redis
  close_window now w r =
      clean_up w (record r { done = set_at w (some (now + done_marker_ttl)) r.done })

  module _ {S : Type 0} (transform : BucketData F → List (BucketData F) → ℕ → ℕ → BucketRecord F)
      (ingest : BucketRecord F → S → Option S) where
    unfoldable pub finish_one : ℕ → Window → Redis → Option S → Option (Redis × S)
    finish_one now w r none = none
    finish_one now w r (some s) = some (close_window now w r, s)

    -- _finalize_one on the fragments of the key; `none` where it raises
    unfoldable pub finalize_fragments :
        ℕ → Window → List (BucketData F) → Redis → S → Option (Redis × S)
    finalize_fragments now w [] r s = some (clean_up w r, s)
    finalize_fragments now w (first ∷ rest) r s =
        finish_one now w r (ingest (transform first rest w.serial_number w.camera_id) s)

    unfoldable pub finalize_one : ℕ → Window → Redis → S → Option (Redis × S)
    finalize_one now w r s =
        finalize_fragments now w (map (λ e. e.1) (visible (fields_of (live_hash now w r)))) r s

    -- The try statement of the loop
    unfoldable pub caught : Redis → S → Option (Redis × S) → Redis × S × ℕ
    caught r s none = (r, s, 0)
    caught r s (some (r', s')) = (r', s', 1)

    -- The body of the loop for a key whose hash is read.
    unfoldable pub scan_hash : ℕ → Window → Option Hash → Redis → S → Redis × S × ℕ
    scan_hash now w none r s = (record r { active = remove_key w r.active }, s, 0)
    scan_hash now w (some h) r s =
        if ltb (now - h.updated_at) finalize_quiet_seconds
        then (r, s, 0)
        else caught r s (finalize_one now w r s)

    unfoldable pub scan_keys : ℕ → List Window → Redis → S → ℕ → Redis × S × ℕ
    scan_keys now [] r s finalized = (r, s, finalized)
    scan_keys now (w ∷ keys) r s finalized =
        let (r', s', n) = scan_hash now w (live_hash now w r) r s in
        scan_keys now keys r' s' (finalized + n)

    unfoldable pub scan_and_finalize : ℕ → Redis → S → Redis × S × ℕ
    scan_and_finalize now r s = scan_keys now r.active r s 0
