-- ===== src/Webhook/Middleware.antt =====
-- TrailerAuthMiddleware (services/trailer_webhook/middleware.py). The ASGI server is the list of the
-- messages that it still delivers; a `receive` after the last of them waits. The application behind
-- the middleware appears as what it is called with. str.lower is a parameter.
use panoptic.Common.{
  ℕ, zero, suc, Bool, true, false, not, ◌||◌, Option, none, some, List, [], ◌∷◌, ◌++◌,
  if◌then◌else◌, any, ◌==◌,
}
use panoptic.Jobs.Model.{Text}
use panoptic.Auth.{
  text_eq, Python, Redis, Config, AuthFailure, Headers, Request, Moment, Server, verify_request,
}

pub data Message : Type 0 where
  http_disconnect : Message
  http_request : Option (List ℕ) → Option Bool → Message
  other_message : Message

-- What `receive` reads from: the server, or the buffered body of _replay_body and its flag `done`.
pub data Receive : Type 0 where
  delivered : List Message → Receive
  replayed : List ℕ → Bool → Receive

unfoldable pub receive : Receive → Option (Message × Receive)
receive (delivered []) = none
receive (delivered (m ∷ ms)) = some (m, delivered ms)
receive (replayed body false) = some (http_request (some body) (some false), replayed body true)
receive (replayed body true) = some (http_disconnect, replayed body true)

abbrev pub body_or_empty : Option (List ℕ) → List ℕ
body_or_empty none = []
body_or_empty (some body) = body

abbrev pub more_or_false : Option Bool → Bool
more_or_false none = false
more_or_false (some b) = b

-- One turn of the loop of _read_body, with the turns after it.
unfoldable pub read_message :
    (List ℕ → Receive → Option (List ℕ × Receive))
    → List ℕ
    → Option (Message × Receive)
    → Option (List ℕ × Receive)
read_message turns chunks none = none
read_message turns chunks (some (http_disconnect, rc)) = some (chunks, rc)
read_message turns chunks (some (http_request body more, rc)) =
    if more_or_false more
    then turns (chunks ++ body_or_empty body) rc
    else some (chunks ++ body_or_empty body, rc)
read_message turns chunks (some (other_message, rc)) = turns chunks rc

-- The loop, with fuel; `none` is also a `receive` that waits.
unfoldable pub read_chunks : ℕ → List ℕ → Receive → Option (List ℕ × Receive)
read_chunks zero chunks rc = none
read_chunks (suc n) chunks rc = read_message (read_chunks n) chunks (receive rc)

unfoldable pub read_body : ℕ → Receive → Option (List ℕ × Receive)
read_body n rc = read_chunks n [] rc

-- The ASGI scope.
pub record Scope : Type 0 where
  pub is_http : Bool
  pub path : Option Text
  pub method : Option Text
  pub headers : List (Text × Text)

abbrev pub text_or_empty : Option Text → Text
text_or_empty none = []
text_or_empty (some t) = t

abbrev pub starts_with : Text → Text → Bool
starts_with t [] = true
starts_with [] (c ∷ p) = false
starts_with (d ∷ t) (c ∷ p) = if d == c then starts_with t p else false

-- "/v1/trailer/"
abbrev pub protected_prefixes : List Text
protected_prefixes = (47 ∷ 118 ∷ 49 ∷ 47 ∷ 116 ∷ 114 ∷ 97 ∷ 105 ∷ 108 ∷ 101 ∷ 114 ∷ 47 ∷ []) ∷ []

unfoldable pub is_protected : Text → Bool
is_protected path = any (starts_with path) protected_prefixes

-- "x-panoptic-"
abbrev pub header_prefix : Text
header_prefix = 120 ∷ 45 ∷ 112 ∷ 97 ∷ 110 ∷ 111 ∷ 112 ∷ 116 ∷ 105 ∷ 99 ∷ 45 ∷ []

-- "serial", "timestamp" and "signature" after it
abbrev pub header_serial : Text
header_serial = header_prefix ++ 115 ∷ 101 ∷ 114 ∷ 105 ∷ 97 ∷ 108 ∷ []

abbrev pub header_timestamp : Text
header_timestamp = header_prefix ++ 116 ∷ 105 ∷ 109 ∷ 101 ∷ 115 ∷ 116 ∷ 97 ∷ 109 ∷ 112 ∷ []

abbrev pub header_signature : Text
header_signature = header_prefix ++ 115 ∷ 105 ∷ 103 ∷ 110 ∷ 97 ∷ 116 ∷ 117 ∷ 114 ∷ 101 ∷ []

module _ (lower : Text → Text) where
  -- headers.get(name) of the dict made from the scope's pairs, in which a later pair wins
  abbrev pub header_from : Option Text → Text → List (Text × Text) → Option Text
  header_from found name [] = found
  header_from found name (h ∷ hs) =
      header_from (if text_eq (lower h.0) name then some h.1 else found) name hs

  unfoldable pub headers_of : List (Text × Text) → Headers
  headers_of hs = record {
    serial = header_from none header_serial hs;
    timestamp = header_from none header_timestamp hs;
    signature = header_from none header_signature hs;
  }

module _ (P : Python) (D : Redis) (C : Config) (lower : Text → Text) where
  unfoldable pub request_of : Scope → List ℕ → Request
  request_of scope body = record {
    method = P.upper (text_or_empty scope.method);
    path = text_or_empty scope.path;
    headers = headers_of lower scope.headers;
    body = body;
  }

  pub data Outcome : Type 0 where
    waits : Outcome
    runs_app : Server P D C → Receive → Outcome
    sends_failure : Server P D C → AuthFailure → Outcome

  unfoldable pub answer : List ℕ → Server P D C × Option AuthFailure → Outcome
  answer body (st, none) = runs_app st (replayed body false)
  answer body (st, some f) = sends_failure st f

  unfoldable pub verify_body : Scope → Moment → Server P D C → Option (List ℕ × Receive) → Outcome
  verify_body scope e st none = waits
  verify_body scope e st (some (body, rc)) =
      answer body (verify_request P D C (request_of scope body) e st)

  -- __call__
  unfoldable pub call : ℕ → Scope → Receive → Moment → Server P D C → Outcome
  call fuel scope rc e st =
      if not scope.is_http || not (is_protected (text_or_empty scope.path)) || not C.auth_enabled
      then runs_app st rc
      else verify_body scope e st (read_body fuel rc)
