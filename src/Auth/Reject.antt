-- ===== src/Auth/Reject.antt =====
-- How a rejected request is answered.
use panoptic.Common.{
  ℕ, ◌≡◌, refl, Bool, true, false, not, Option, none, some, [], ◌∷◌, Bool-cases, inl, inr,
  if◌then◌else◌, ltb, every, length, ◌==◌, ◌&&◌,
}
use panoptic.Jobs.Model.{Text}
use panoptic.Auth.{
  ℤ, Python, Redis, Config, Category, missing_header, bad_format, stale_timestamp,
  replay_cache_unavailable, replayed, unknown_serial, bad_signature, AuthFailure, ErrorBody,
  invalid_trailer, invalid_auth, Request, Moment, Registry, Credentials, Checked, rejects, passes,
  auth_failure, body_of, check_headers, check_present, check_formats, check_timestamp_format,
  check_signature_format, is_hex_digit, is_active, matches_secret, canonical_signing_string, Server,
  observe, verify_signature, verify_registry, verify_replay, verify_time, verify_credentials,
  verify_request, skew,
}

-- The status and the body that the failures of a category are to have.
abbrev pub status_of : Category → ℕ
status_of unknown_serial = 403
status_of replay_cache_unavailable = 503
status_of _ = 401

abbrev pub error_of : Category → ErrorBody
error_of unknown_serial = invalid_trailer
error_of _ = invalid_auth

abbrev pub IsAnswered : AuthFailure → Type 0
IsAnswered f = (f.http_status ≡ status_of f.category) × (body_of f ≡ error_of f.category)

abbrev pub IsAnsweredIfAny : Option AuthFailure → Type 0
IsAnsweredIfAny none = Unit
IsAnsweredIfAny (some f) = IsAnswered f

failure-IsAnswered : (k : Category) (s : Option Text) → IsAnswered (auth_failure k (status_of k) s)
unfolding auth_failure body_of
failure-IsAnswered missing_header s = (refl, refl)
failure-IsAnswered bad_format s = (refl, refl)
failure-IsAnswered stale_timestamp s = (refl, refl)
failure-IsAnswered replay_cache_unavailable s = (refl, refl)
failure-IsAnswered replayed s = (refl, refl)
failure-IsAnswered unknown_serial s = (refl, refl)
failure-IsAnswered bad_signature s = (refl, refl)

-- The failure of a check is answered.
abbrev IsAnsweredCheck : {A : Type 0} → Checked A → Type 0
IsAnsweredCheck (rejects f) = IsAnswered f
IsAnsweredCheck (passes a) = Unit

check_formats-IsAnswered : (P : Python) (c : Credentials) → IsAnsweredCheck (check_formats P c)
unfolding check_formats check_timestamp_format check_signature_format
check_formats-IsAnswered P c = elim (Bool-cases (every P.is_space c.serial)) [
  | inl e ↦ rw e (failure-IsAnswered bad_format (some c.serial))
  | inr e ↦ rw e (parsed (P.parse_int c.timestamp))
]
  where
    parsed : (o : Option ℤ) → IsAnsweredCheck (check_timestamp_format P c o)
    parsed none = failure-IsAnswered bad_format (some c.serial)
    parsed (some ts) =
        elim (Bool-cases (length c.signature == 64 && every is_hex_digit c.signature)) [
          | inl e ↦ rw e tt
          | inr e ↦ rw e (failure-IsAnswered bad_format (some c.serial))
        ]

check_present-IsAnswered :
    (P : Python) (s t g : Option Text) → IsAnsweredCheck (check_present P s t g)
unfolding check_present
check_present-IsAnswered P none t g = failure-IsAnswered missing_header none
check_present-IsAnswered P (some []) t g = failure-IsAnswered missing_header (some [])
check_present-IsAnswered P (some (x ∷ s)) none g = failure-IsAnswered missing_header (some (x ∷ s))
check_present-IsAnswered P (some (x ∷ s)) (some []) g =
    failure-IsAnswered missing_header (some (x ∷ s))
check_present-IsAnswered P (some (x ∷ s)) (some (y ∷ t)) none =
    failure-IsAnswered missing_header (some (x ∷ s))
check_present-IsAnswered P (some (x ∷ s)) (some (y ∷ t)) (some []) =
    failure-IsAnswered missing_header (some (x ∷ s))
check_present-IsAnswered P (some (x ∷ s)) (some (y ∷ t)) (some (z ∷ g)) = tt

module _ (P : Python) (D : Redis) (C : Config) where
  verify_signature-IsAnswered :
      (r : Request) (c : Credentials) (st : Server P D C)
      → IsAnsweredIfAny (verify_signature P D C r c st).1
  unfolding verify_signature
  verify_signature-IsAnswered r c st =
      let text = canonical_signing_string P c.serial c.timestamp r.method r.path r.body in
      three (matches_secret P D C C.secret_active text c.signature)
        (matches_secret P D C C.secret_previous text c.signature)
    where
      three :
          (a b : Bool)
          → (let out : Server P D C × Option AuthFailure =
                if a
                then (st, none)
                else (if b
                    then (st, none)
                    else (st, some (auth_failure bad_signature 401 (some c.serial)))) in
              IsAnsweredIfAny out.1)
      three true b = tt
      three false true = tt
      three false false = failure-IsAnswered bad_signature (some c.serial)

  verify_registry-IsAnswered :
      (r : Request) (c : Credentials) (store : D.Store) (found : Registry × Bool)
      → IsAnsweredIfAny (verify_registry P D C r c store found).1
  unfolding verify_registry
  verify_registry-IsAnswered r c store (registry, false) =
      failure-IsAnswered unknown_serial (some c.serial)
  verify_registry-IsAnswered r c store (registry, true) = verify_signature-IsAnswered r c _

  verify_replay-IsAnswered :
      (r : Request) (e : Moment) (c : Credentials) (st : Server P D C) (o : Option (D.Store × Bool))
      → IsAnsweredIfAny (verify_replay P D C r e c st o).1
  unfolding verify_replay
  verify_replay-IsAnswered r e c st none =
      failure-IsAnswered replay_cache_unavailable (some c.serial)
  verify_replay-IsAnswered r e c st (some (store, false)) =
      failure-IsAnswered replayed (some c.serial)
  verify_replay-IsAnswered r e c st (some (store, true)) =
      verify_registry-IsAnswered r c store (is_active C e c.serial st.registry)

  verify_time-IsAnswered :
      (r : Request) (e : Moment) (c : Credentials) (st : Server P D C) (k : Checked ℤ)
      → IsAnsweredCheck k
      → IsAnsweredIfAny (verify_time P D C r e c st k).1
  unfolding verify_time
  verify_time-IsAnswered r e c st (rejects f) h = h
  verify_time-IsAnswered r e c st (passes ts) h =
      elim (Bool-cases (ltb C.max_skew_sec (skew e.now ts))) [
        | inl late ↦ rw late (failure-IsAnswered stale_timestamp (some c.serial))
        | inr near ↦ rw near (verify_replay-IsAnswered r e c st (observe P D C c e.now st.store))
      ]

  verify_credentials-IsAnswered :
      (r : Request) (e : Moment) (st : Server P D C) (k : Checked Credentials)
      → IsAnsweredCheck k
      → IsAnsweredIfAny (verify_credentials P D C r e st k).1
  unfolding verify_credentials
  verify_credentials-IsAnswered r e st (rejects f) h = h
  verify_credentials-IsAnswered r e st (passes c) h =
      verify_time-IsAnswered r e c st (check_formats P c) (check_formats-IsAnswered P c)

  -- Every failure has the status and the body of its category, whatever the request, the server, the
  -- database and Redis are like: 403 and invalid_trailer for an unknown serial, 503 where the replay
  -- cache is unavailable, 401 for all others, and invalid_auth for all but the unknown serial.
  pub verify_request-IsAnswered :
      (r : Request) (e : Moment) (st : Server P D C)
      → IsAnsweredIfAny (verify_request P D C r e st).1
  unfolding verify_request check_headers
  verify_request-IsAnswered r e st = split (not C.auth_enabled) _ (
      verify_credentials-IsAnswered r e st _
        (check_present-IsAnswered P r.headers.serial r.headers.timestamp r.headers.signature))
    where
      split :
          (b : Bool) (out : Server P D C × Option AuthFailure)
          → IsAnsweredIfAny out.1
          → IsAnsweredIfAny (if b then (st, none) else out).1
      split true out h = tt
      split false out h = h
