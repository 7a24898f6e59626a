-- ===== src/Lib.antt =====
-- Panoptic receives buckets of detections and images from camera trailers, stores them in Postgres,
-- and lets workers derive summaries, captions, embeddings, events and reports from them. A webhook
-- authenticates the trailers' requests; ingestion inserts rows of panoptic_jobs and adds a message to
-- a Redis stream for each; workers read the streams, lease the jobs in Postgres, execute them and
-- release them; a reclaimer resets the jobs whose leases have expired and puts them on the streams
-- again.
--
-- The files and the code that they model, with paths from the repository's root:
--   Jobs: shared/utils/leases.py and shared/schemas/job.py. Model has the tables of jobs and of their
--     history, Lease has claim_job, renew_lease, mark_running, release_job and compute_retry_delay,
--     and Reclaim has reclaim_expired_leases. A function is one transaction over the tables, with the
--     clock as an argument; the order of its arguments is the time, the job, the worker, the rest.
--     System has the steps of the processes and the tables that they reach: the reclaimer's SELECT and
--     the UPDATE of each row it selected are steps of their own, since the code commits in between.
--   Streams: shared/utils/streams.py and the loop of services/panoptic_reclaimer/worker.py.
--   Worker: _process_message of services/panoptic_image_embed_worker/worker.py, which the other
--     workers repeat. What others commit while it runs enters as two functions on the tables.
--   Auth: shared/auth/hmac_auth.py.
--   Events: shared/events/build.py, shared/canonical/camera.py and
--     services/panoptic_event_producer/executor.py.
--   Signals: shared/signals/derive.py. History: shared/signals/history.py, whose queries are functions
--     of the rows of panoptic_buckets.
--   Activity: shared/utils/activity.py and _raw_activity_score of shared/clients/cognia.py.
--   Buckets: shared/schemas/bucket.py. Ingest: ingest_bucket and _get_camera_stats of
--     shared/clients/cognia.py; Tables has its statements on the tables of buckets and jobs.
--   Intake: shared/clients/trailer_intake.py. A Redis key is its three parts, a hash a list of fields
--     with its expiry; Transform has transform_to_bucket_record, and the ingest is a parameter.
--   Webhook: receive_bucket of services/trailer_webhook/app.py, with receive_image in Images and
--     services/trailer_webhook/middleware.py in Middleware.
--   Captions: the executors of services/panoptic_image_caption_worker, panoptic_caption_embed_worker and
--     panoptic_image_embed_worker, on the rows that receive_image inserts.
--   Agent: services/panoptic_agent/agent.py and tools.py, with the model and the search API as
--     parameters. Citations: services/panoptic_agent/citations.py.
--   Summaries: panoptic_summaries and upsert_summary of services/panoptic_summary_agent/summary_db.py.
--     Rollup has that file's other two operations; Llm, Frames and Execute have the executor beside it,
--     Hourly that of services/panoptic_rollup_worker and Embed that of
--     services/panoptic_embedding_worker. An executor returns none where it raises.
--   Reports: dedup_images and translate_labels of shared/report/synthesis.py, with the rest of its
--     synthesis in Synthesis; Daily and Job have services/panoptic_report_generator/executor.py.
--   Health: shared/health/state.py.
--   Float: Python's floats as an interface, with the laws of IEEE 754 that the proofs use.
--   Common: what the other files share. Tests: the theorems at concrete inputs.
--
-- Bounds and fuel: natural numbers stand for Python's non-negative integers, without a bound, as there.
-- Times are whole seconds. The clean-up loop of Streams runs on fuel; any fuel above the rank of its
-- first cursor is enough, where each page leaves a smaller rank, as XAUTOCLAIM's cursor does on a
-- finite list. The middleware's reading of a request runs on fuel; more than the number of messages
-- that the server delivers is enough. The matches in a run of digits are found with the run's length
-- as fuel, since each match is not empty. All other loops are recursion on a list.
--
-- Parameters are what is not in the repository: Redis as the replay cache uses it, the digests,
-- Python's conversions, sums and statistics, and the executors' calls of models. A call that can raise is a switch or an answer of its caller's
-- surroundings. Not modelled: logging,
-- health endpoints, the heartbeat's thread (its verdict is a Boolean of the worker's surroundings), the
-- endless polling loops, the validation by the schemas, the descriptions and metadata of event rows,
-- the rewriting of an answer's texts, the texts of prompts, the queries, aggregates, pages and weekly
-- generation of the reports, and the parts of the program that no file above names: the search API, the
-- operator's pages, the clients and the scripts.
pub mod Common
pub mod Jobs
pub mod Streams
pub mod Worker
pub mod Float
pub mod Signals
pub mod Activity
pub mod Auth
pub mod Events
pub mod Buckets
pub mod History
pub mod Ingest
pub mod Intake
pub mod Webhook
pub mod Health
pub mod Citations
pub mod Captions
pub mod Agent
pub mod Summaries
pub mod Reports
pub mod Tests
