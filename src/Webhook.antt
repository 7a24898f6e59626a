-- ===== src/Webhook.antt =====
-- The trailer webhook (services/trailer_webhook): the middleware that authenticates the requests,
-- and receive_bucket of app.py. A request's body is one that its schema accepts, where a handler
-- takes a payload.
pub mod Middleware
pub mod Gate
pub mod Images
pub mod Stored
use panoptic.Common.{ℕ, ◌+◌, Bool, true, false, Option, none, some, if◌then◌else◌, ltb, ◌==◌}
use panoptic.Float.{Float}
use panoptic.Intake.{Redis, Payload, store_fragment, lives}

abbrev pub dedup_ttl_seconds : ℕ
dedup_ttl_seconds = 86400

pub data BucketResponse : Type 0 where
  invalid_json validation_failed duplicate late_fragment_discarded accepted : BucketResponse

-- request.json() and model_validate: a body that is no JSON, JSON that is no payload, or an event id
-- and a payload.
pub data Parsed (F : Float) : Type 0 where
  no_json no_payload : Parsed F
  valid : ℕ → Payload F → Parsed F

module _ (F : Float) where
  -- The intake's keys, and for each event id when its key panoptic:webhook:seen:<event_id> expires.
  pub record Received : Type 0 where
    pub seen : ℕ → Option ℕ
    pub intake : Redis F

  abbrev pub set_seen : ℕ → ℕ → (ℕ → Option ℕ) → ℕ → Option ℕ
  set_seen event_id expires_at seen k = if k == event_id then some expires_at else seen k

  unfoldable pub receive_new : ℕ → Payload F → Received → Received × BucketResponse
  receive_new now p st =
      let (intake, stored) = store_fragment F now p st.intake in
      (record st { intake = intake }, if stored then accepted else late_fragment_discarded)

  unfoldable pub receive_bucket : ℕ → Parsed F → Received → Received × BucketResponse
  receive_bucket now no_json st = (st, invalid_json)
  receive_bucket now no_payload st = (st, validation_failed)
  receive_bucket now (valid event_id p) st =
      if lives F now (st.seen event_id)
      then (st, duplicate)
      else receive_new now p
          (record st { seen = set_seen event_id (now + dedup_ttl_seconds) st.seen })
