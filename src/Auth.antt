-- ===== src/Auth.antt =====
-- Signed requests (shared/auth/hmac_auth.py): the signing string, the headers that a client sends,
-- the registry of active trailers, the replay cache and the verification of a request.
-- The digests, str(int) and int(str), and Redis are parameters; a text is the list of its code
-- points and a body the list of its bytes. Times are whole seconds.
pub mod Laws
pub mod Formats
pub mod Accept
pub mod Sign
pub mod Replay
pub mod Reject
use panoptic.Common.{
  ℕ, ◌+◌, ◌-◌, suc, Bool, true, false, not, ◌&&◌, Option, none, some, List, [], ◌∷◌, ◌++◌,
  if◌then◌else◌, ltb, leb, ◌==◌, any, every, length, take,
}
use panoptic.Jobs.Model.{Text}

-- Python's int.
pub data ℤ : Type 0 where
  pos : ℕ → ℤ
  negsuc : ℕ → ℤ

-- abs(now - ts)
unfoldable pub skew : ℕ → ℤ → ℕ
skew now (pos n) = now - n + (n - now)
skew now (negsuc n) = now + suc n

abbrev pub text_eq : Text → Text → Bool
text_eq [] [] = true
text_eq (c ∷ s) (d ∷ t) = if c == d then text_eq s t else false
text_eq _ _ = false

pub record Python : Type 0 where
  pub upper : Text → Text
  pub is_space : ℕ → Bool
  pub show_int : ℕ → Text
  pub parse_int : Text → Option ℤ
  pub sha256 : List ℕ → Text
  pub hmac_sha256 : Text → Text → Text

-- SET key "1" NX EX ttl at a time: none where Redis is unavailable, and false where the key is there.
pub record Redis : Type 1 where
  pub Store : Type 0
  pub set_nx : Text → ℕ → ℕ → Store → Option (Store × Bool)

pub record Config : Type 0 where
  pub auth_enabled : Bool
  pub max_skew_sec : ℕ
  pub replay_ttl_sec : ℕ
  pub registry_refresh_sec : ℕ
  pub secret_active : Text
  pub secret_previous : Text

pub data Category : Type 0 where
  missing_header bad_format stale_timestamp replay_cache_unavailable : Category
  replayed unknown_serial bad_signature : Category

pub record AuthFailure : Type 0 where
  pub category : Category
  pub serial : Option Text
  pub http_status : ℕ

pub data ErrorBody : Type 0 where
  invalid_trailer invalid_auth : ErrorBody

unfoldable pub body_of : AuthFailure → ErrorBody
body_of f = if f.http_status == 403 then invalid_trailer else invalid_auth

-- _fail
unfoldable pub auth_failure : Category → ℕ → Option Text → AuthFailure
auth_failure category status serial = record {
  category = category;
  serial = serial;
  http_status = status;
}

pub record Headers : Type 0 where
  pub serial : Option Text
  pub timestamp : Option Text
  pub signature : Option Text

pub record Request : Type 0 where
  pub method : Text
  pub path : Text
  pub headers : Headers
  pub body : List ℕ

pub record Registry : Type 0 where
  pub last_refresh : ℕ
  pub active : List Text

-- What verify_request meets outside: the clock, the registry's monotonic clock, and the answers of
-- the database to the two SELECTs that the registry may make, none where it raises.
pub record Moment : Type 0 where
  pub now : ℕ
  pub monotonic : ℕ
  pub refresh_rows : Option (List Text)
  pub miss_rows : Option (List Text)

-- The headers after the check that all three are there and none is empty.
pub record Credentials : Type 0 where
  pub serial : Text
  pub timestamp : Text
  pub signature : Text

pub data Checked (A : Type 0) : Type 0 where
  rejects : AuthFailure → Checked A
  passes : A → Checked A

unfoldable pub is_hex_digit : ℕ → Bool
is_hex_digit c =
    if leb 48 c && leb c 57
    then true
    else (if leb 65 c && leb c 70 then true else leb 97 c && leb c 102)

unfoldable pub contains : Text → List Text → Bool
contains t ts = any (text_eq t) ts

-- TrailerRegistry.force_refresh, none where the SELECT raises
unfoldable pub force_refresh : ℕ → Option (List Text) → Registry → Option Registry
force_refresh monotonic none registry = none
force_refresh monotonic (some rows) registry =
    some (record { last_refresh = monotonic; active = rows })

unfoldable pub kept_registry : Registry → Option Registry → Registry
kept_registry registry none = registry
kept_registry registry (some refreshed) = refreshed

module _ (C : Config) where
  -- TrailerRegistry._maybe_refresh
  unfoldable pub maybe_refresh : Moment → Registry → Registry
  maybe_refresh e registry =
      if leb C.registry_refresh_sec (e.monotonic - registry.last_refresh)
      then kept_registry registry (force_refresh e.monotonic e.refresh_rows registry)
      else registry

  unfoldable pub is_active_on_miss : Text → Registry → Option Registry → Registry × Bool
  is_active_on_miss serial registry none = (registry, false)
  is_active_on_miss serial registry (some refreshed) = (refreshed, contains serial refreshed.active)

  -- TrailerRegistry.is_active
  unfoldable pub is_active : Moment → Text → Registry → Registry × Bool
  is_active e serial registry =
      let fresh = maybe_refresh e registry in
      if contains serial fresh.active
      then (fresh, true)
      else is_active_on_miss serial fresh (force_refresh e.monotonic e.miss_rows fresh)

module _ (P : Python) where
  unfoldable pub canonical_signing_string : Text → Text → Text → Text → List ℕ → Text
  canonical_signing_string serial timestamp method path body =
      serial ++ 124 ∷ timestamp ++ 124 ∷ P.upper method ++ 124 ∷ path ++ 124 ∷ P.sha256 body

  unfoldable pub compute_signature : Text → Text → Text
  compute_signature secret signing_string = P.hmac_sha256 secret signing_string

  unfoldable pub sign_headers : Text → Text → Text → Text → List ℕ → ℕ → Headers
  sign_headers secret serial method path body timestamp =
      let ts = P.show_int timestamp in
      record {
        serial = some serial;
        timestamp = some ts;
        signature =
            some (compute_signature secret (canonical_signing_string serial ts method path body));
      }

  -- Step 1: `not serial or not ts_header or not sig_header`
  unfoldable pub check_present : Option Text → Option Text → Option Text → Checked Credentials
  check_present (some (c ∷ s)) (some (d ∷ t)) (some (x ∷ g)) =
      passes (record { serial = c ∷ s; timestamp = d ∷ t; signature = x ∷ g })
  check_present serial timestamp signature = rejects (auth_failure missing_header 401 serial)

  unfoldable pub check_headers : Headers → Checked Credentials
  check_headers h = check_present h.serial h.timestamp h.signature

  -- Step 2, of the signature and then of all three
  unfoldable pub check_signature_format : Credentials → ℤ → Checked ℤ
  check_signature_format c ts =
      if length c.signature == 64 && every is_hex_digit c.signature
      then passes ts
      else rejects (auth_failure bad_format 401 (some c.serial))

  unfoldable pub check_timestamp_format : Credentials → Option ℤ → Checked ℤ
  check_timestamp_format c none = rejects (auth_failure bad_format 401 (some c.serial))
  check_timestamp_format c (some ts) = check_signature_format c ts

  unfoldable pub check_formats : Credentials → Checked ℤ
  check_formats c =
      if every P.is_space c.serial
      then rejects (auth_failure bad_format 401 (some c.serial))
      else check_timestamp_format c (P.parse_int c.timestamp)

-- The key of the replay cache: panoptic:replay:<serial>:<timestamp>:<sig[:16]>
abbrev pub replay_prefix : Text
replay_prefix =
    112 ∷ 97 ∷ 110 ∷ 111 ∷ 112 ∷ 116 ∷ 105 ∷ 99 ∷ 58 ∷ 114 ∷ 101 ∷ 112 ∷ 108 ∷ 97 ∷ 121 ∷ 58 ∷ []

unfoldable pub replay_key : Credentials → Text
replay_key c = replay_prefix ++ c.serial ++ 58 ∷ c.timestamp ++ 58 ∷ take 16 c.signature

module _ (P : Python) (D : Redis) (C : Config) where
  open D use {Store, set_nx}

  pub record Server : Type 0 where
    pub store : Store
    pub registry : Registry

  -- ReplayCache.observe
  unfoldable pub observe : Credentials → ℕ → Store → Option (Store × Bool)
  observe c now store = set_nx (replay_key c) C.replay_ttl_sec now store

  unfoldable pub matches_secret : Text → Text → Text → Bool
  matches_secret [] signing_string signature = false
  matches_secret (c ∷ secret) signing_string signature =
      text_eq signature (compute_signature P (c ∷ secret) signing_string)

  -- Steps 6 to 8
  unfoldable pub verify_signature : Request → Credentials → Server → Server × Option AuthFailure
  verify_signature r c st =
      let signing_string = canonical_signing_string P c.serial c.timestamp r.method r.path r.body in
      if matches_secret C.secret_active signing_string c.signature
      then (st, none)
      else (if matches_secret C.secret_previous signing_string c.signature
          then (st, none)
          else (st, some (auth_failure bad_signature 401 (some c.serial))))

  -- Step 5
  unfoldable pub verify_registry :
      Request → Credentials → Store → Registry × Bool → Server × Option AuthFailure
  verify_registry r c store (registry, false) = (
    record { store = store; registry = registry },
    some (auth_failure unknown_serial 403 (some c.serial)),
  )
  verify_registry r c store (registry, true) =
      verify_signature r c (record { store = store; registry = registry })

  -- Step 4
  unfoldable pub verify_replay :
      Request → Moment → Credentials → Server → Option (Store × Bool) → Server × Option AuthFailure
  verify_replay r e c st none =
      (st, some (auth_failure replay_cache_unavailable 503 (some c.serial)))
  verify_replay r e c st (some (store, false)) =
      (record st { store = store }, some (auth_failure replayed 401 (some c.serial)))
  verify_replay r e c st (some (store, true)) =
      verify_registry r c store (is_active C e c.serial st.registry)

  -- Step 3
  unfoldable pub verify_time :
      Request → Moment → Credentials → Server → Checked ℤ → Server × Option AuthFailure
  verify_time r e c st (rejects f) = (st, some f)
  verify_time r e c st (passes ts) =
      if ltb C.max_skew_sec (skew e.now ts)
      then (st, some (auth_failure stale_timestamp 401 (some c.serial)))
      else verify_replay r e c st (observe c e.now st.store)

  unfoldable pub verify_credentials :
      Request → Moment → Server → Checked Credentials → Server × Option AuthFailure
  verify_credentials r e st (rejects f) = (st, some f)
  verify_credentials r e st (passes c) = verify_time r e c st (check_formats P c)

  unfoldable pub verify_request : Request → Moment → Server → Server × Option AuthFailure
  verify_request r e st =
      if not C.auth_enabled
      then (st, none)
      else verify_credentials r e st (check_headers P r.headers)
