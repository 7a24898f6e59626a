-- ===== src/Tests.antt =====
-- The theorems at concrete inputs, component by component.
mod Jobs
mod Lease
mod Worker
mod Signals
mod Streams
mod Auth
mod Events
mod Buckets
mod Ingest
mod Intake
mod Webhook
mod Health
mod Captions
mod Agent
mod Summaries
mod Executors
mod Reports
