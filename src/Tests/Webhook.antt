-- ===== src/Tests/Webhook.antt =====
-- A signed request through the middleware, and an image that is uploaded.
use panoptic.Common.{
  ℕ, ◌≡◌, refl, Bool, true, false, Option, none, some, List, [], ◌∷◌, ◌++◌, arith,
}
use panoptic.Jobs.Model.{Text, JobType}
use panoptic.Auth.{
  Server, is_hex_digit, verify_request, verify_credentials, check_headers, check_present,
  check_formats, check_timestamp_format, check_signature_format, verify_time, skew, observe,
  verify_replay, verify_registry, verify_signature, matches_secret, compute_signature, is_active,
  maybe_refresh, contains, force_refresh, kept_registry, canonical_signing_string,
  is_active_on_miss, replay_key, replay_prefix,
}
use panoptic.Webhook.Middleware.{
  http_request, Receive, delivered, replayed, receive, read_message, read_chunks, read_body, Scope,
  is_protected, header_serial, header_timestamp, header_signature, headers_of, request_of, runs_app,
  answer, verify_body, call,
}
use panoptic.Webhook.Gate.{Verified, call-Verified, call_answers}
use panoptic.Webhook.Images.{
  ImageIdentity, alert, Upload, Images, receive_image, ImageCalls, written,
}
use panoptic.Webhook.Stored.{Ends, receive_image-cases}
use panoptic.Tests.Auth.{python, redis, config, letters, moment, new_server, client_serial}

abbrev lower : Text → Text
lower t = t

-- "/v1/trailer/x"
abbrev path : Text
path = 47 ∷ 118 ∷ 49 ∷ 47 ∷ 116 ∷ 114 ∷ 97 ∷ 105 ∷ 108 ∷ 101 ∷ 114 ∷ 47 ∷ 120 ∷ []

abbrev scope : Scope
scope = record {
  is_http = true;
  path = some path;
  method = some (80 ∷ []);
  headers =
      (header_serial, client_serial)
      ∷ (header_timestamp, 97 ∷ letters 303)
      ∷ (header_signature, letters 64)
      ∷ [];
}

-- The body arrives in two chunks.
abbrev in_chunks : Receive
in_chunks =
    delivered (http_request (some (1 ∷ [])) (some true) ∷ http_request (some (2 ∷ [])) none ∷ [])

-- The server after the request: its key is in the replay cache, and its registry has looked again.
abbrev passed_server : Server python redis config
passed_server = record {
  store = (replay_prefix ++ client_serial ++ 58 ∷ 97 ∷ letters 303 ++ 58 ∷ letters 16, 603) ∷ [];
  registry = record { last_refresh = 43; active = client_serial ∷ [] };
}

runs :
    call python redis config lower 3 scope in_chunks (moment 3) new_server
    ≡ runs_app passed_server (replayed (1 ∷ 2 ∷ []) false)
unfolding call verify_body answer read_body read_chunks read_message receive request_of headers_of
    is_protected verify_request verify_credentials check_headers check_present check_formats
    check_timestamp_format check_signature_format verify_time skew observe verify_replay
    verify_registry verify_signature matches_secret compute_signature is_active maybe_refresh
    contains force_refresh kept_registry canonical_signing_string is_active_on_miss is_hex_digit
    replay_key
runs = refl

protected : is_protected path ≡ true
unfolding is_protected
protected = refl

call-Verified_example :
    Verified python redis config lower 3 scope in_chunks
      (moment 3)
      new_server
      passed_server
      (replayed (1 ∷ 2 ∷ []) false)
call-Verified_example =
    call-Verified python redis config lower 3 scope in_chunks (replayed (1 ∷ 2 ∷ []) false)
      (moment 3) new_server passed_server refl refl protected runs

call_answers_example :
    call python redis config lower 3 scope in_chunks (moment 3) new_server
    ≡ answer python redis config lower (1 ∷ 2 ∷ []) (
        verify_request python redis config
          (request_of python redis config lower scope (1 ∷ 2 ∷ []))
          (moment 3)
          new_server)
call_answers_example =
    call_answers python redis config lower 3 scope
      (http_request (some (1 ∷ [])) (some true) ∷ http_request (some (2 ∷ [])) none ∷ [])
      (1 ∷ 2 ∷ []) (moment 3) new_server refl refl protected (omega arith) refl

abbrev digest : ImageIdentity → ℕ
digest i = i.bucket_start

abbrev dimensions_of : List ℕ → Option (ℕ × ℕ)
dimensions_of bytes = none

abbrev upload : Upload
upload = record {
  metadata = some (
      some (record {
        event_id = 1;
        serial_number = 1422;
        camera_id = 2;
        bucket_start = 900;
        bucket_end = 1800;
        trigger = alert;
        timestamp_ms = some 7;
        captured_at_utc = none;
        selection_policy_version = 1;
        context = 0;
      }));
  is_jpeg = true;
  bytes = 255 ∷ 216 ∷ [];
}

abbrev no_images : Images
no_images = record { rows = []; jobs = []; files = [] }

abbrev every_type : JobType → Bool
every_type t = true

-- The file is written, and the jobs' commit raises.
abbrev half_stored : ImageCalls
half_stored = record { insert_up = true; write = written; delete_up = true; jobs_up = false }

receive_image-cases_example :
    Ends digest dimensions_of 100 3 every_type half_stored 10 11 upload no_images
      (receive_image digest dimensions_of 100 3 every_type half_stored 10 11 upload no_images)
receive_image-cases_example =
    receive_image-cases digest dimensions_of 100 3 every_type half_stored 10 11 upload no_images
      (omega arith)
