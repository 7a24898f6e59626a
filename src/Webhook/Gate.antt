-- ===== src/Webhook/Gate.antt =====
-- The middleware as a gate before the application.
use mathlib.Core.Option.{none-ne-some}
use mathlib.Core.List.{append-nil, append_assoc}
use panoptic.Common.{
  some-injective, subst, ℕ, zero, suc, ◌<◌, ◌≡◌, refl, sym, ap, ◌∙◌, Bool, true, false, not, ◌||◌,
  Option, none, some, List, [], ◌∷◌, ◌++◌, if◌then◌else◌, Bool-cases, Option-cases, inl, inr,
  length, arith,
}
use panoptic.Jobs.Model.{Text}
use panoptic.Auth.{Python, Redis, Config, AuthFailure, Moment, Server, verify_request}
use panoptic.Auth.Accept.{Accepts, verify_request-Accepts}
use panoptic.Webhook.Middleware.{
  Message, http_disconnect, http_request, other_message, Receive, delivered, replayed, receive,
  read_message, read_chunks, read_body, more_or_false, body_or_empty, Scope, text_or_empty,
  is_protected, request_of, Outcome, waits, runs_app, sends_failure, answer, verify_body, call,
}

-- The application reads from the replayed `receive` the body that was verified.
read_body-replayed :
    (n : ℕ) (body : List ℕ)
    → read_body (suc n) (replayed body false) ≡ some (body, replayed body true)
unfolding read_body read_chunks read_message receive
read_body-replayed n body = refl

-- The body that the server delivers, if one of its messages is the last of the request.
abbrev pub prepend : List ℕ → Option (List ℕ) → Option (List ℕ)
prepend chunk none = none
prepend chunk (some body) = some (chunk ++ body)

abbrev pub whole_body : List Message → Option (List ℕ)
whole_body [] = none
whole_body (http_disconnect ∷ ms) = some []
whole_body (other_message ∷ ms) = whole_body ms
whole_body (http_request body more ∷ ms) =
    if more_or_false more
    then prepend (body_or_empty body) (whole_body ms)
    else some (body_or_empty body)

prepended :
    (chunk body : List ℕ) (o : Option (List ℕ))
    → prepend chunk o ≡ some body
    → (b : List ℕ) × (o ≡ some b) × (chunk ++ b ≡ body)
prepended chunk body none h = absurd (none-ne-some body h)
prepended chunk body (some b) h = (b, refl, some-injective _ _ h)

-- More fuel than the server has messages is enough to read such a body.
read_chunks-whole_body :
    (n : ℕ) (chunks body : List ℕ) (ms : List Message)
    → length ms < n
    → whole_body ms ≡ some body
    → (rest : Receive) × (read_chunks n chunks (delivered ms) ≡ some (chunks ++ body, rest))
unfolding read_chunks read_message receive
read_chunks-whole_body zero chunks body ms h w = ground arith
read_chunks-whole_body (suc n) chunks body [] h w = absurd (none-ne-some body w)
read_chunks-whole_body (suc n) chunks body (http_disconnect ∷ ms) h w =
    (delivered ms, rw (sym (some-injective _ _ w), append-nil chunks) refl)
read_chunks-whole_body (suc n) chunks body (other_message ∷ ms) h w =
    read_chunks-whole_body n chunks body ms (omega (arith, h)) w
read_chunks-whole_body (suc n) chunks body (http_request chunk more ∷ ms) h w =
    elim (Bool-cases (more_or_false more)) [
      | inl q ↦
          let (b, e, same) = prepended (body_or_empty chunk) body (whole_body ms) (rw q at w) in
          let (rest, read) =
            read_chunks-whole_body n (chunks ++ body_or_empty chunk) b ms (omega (arith, h)) e in
          (rest, rw (q, read, append_assoc chunks (body_or_empty chunk) b, same) refl)
      | inr q ↦ (delivered ms, rw (q, some-injective _ _ (rw q at w)) refl)
    ]

guarded :
    {A : Type 0} (a b c : Bool) (x y : A)
    → a ≡ true
    → b ≡ true
    → c ≡ true
    → (if not a || not b || not c then x else y) ≡ y
guarded a b c x y p q r = rw (p, q, r) refl

module _ (P : Python) (D : Redis) (C : Config) (lower : Text → Text) where
  -- What the application may rely on when it runs behind the gate.
  abbrev pub Verified :
      ℕ → Scope → Receive → Moment → Server P D C → Server P D C → Receive → Type 0
  Verified fuel scope rc e st st' rc' =
      (body : List ℕ) × (rest : Receive) × (read_body fuel rc ≡ some (body, rest))
      × Accepts P D C (request_of P D C lower scope body) e st (st', none)
      × ((n : ℕ) → read_body (suc n) rc' ≡ some (body, replayed body true))

  runs_app_with : Outcome P D C lower → Option (Server P D C × Receive)
  runs_app_with (runs_app st rc) = some (st, rc)
  runs_app_with waits = none
  runs_app_with (sends_failure st f) = none

  answer-runs_app :
      (body : List ℕ) (o : Server P D C × Option AuthFailure) (st' : Server P D C) (rc' : Receive)
      → answer P D C lower body o ≡ runs_app st' rc'
      → (o ≡ (st', none)) × (replayed body false ≡ rc')
  unfolding answer runs_app_with
  answer-runs_app body (st, none) st' rc' h =
      let q = some-injective _ _ (ap runs_app_with h) in
      (
        ap (λ (x : Server P D C × Receive). (x.0, none)) q,
        ap (λ (x : Server P D C × Receive). x.1) q,
      )
  answer-runs_app body (st, some f) st' rc' h =
      absurd (none-ne-some (st', rc') (ap runs_app_with h))

  verify_body-Verified :
      (fuel : ℕ) (scope : Scope) (rc rc' : Receive) (e : Moment) (st st' : Server P D C)
      (body : List ℕ) (rest : Receive)
      → C.auth_enabled ≡ true
      → read_body fuel rc ≡ some (body, rest)
      → answer P D C lower body (verify_request P D C (request_of P D C lower scope body) e st)
        ≡ runs_app st' rc'
      → Verified fuel scope rc e st st' rc'
  verify_body-Verified fuel scope rc rc' e st st' body rest on read h =
      let (accepted, same) = answer-runs_app body _ st' rc' h in
      (
        body,
        rest,
        read,
        subst (λ o. Accepts P D C (request_of P D C lower scope body) e st o) accepted
            (verify_request-Accepts P D C (request_of P D C lower scope body) e st on
              (ap (λ o. o.1) accepted)),
        λ n.
            subst (λ r. read_body (suc n) r ≡ some (body, replayed body true)) same
              (read_body-replayed n body),
      )

  -- With authentication enabled, on an HTTP request whose path is protected, the application runs
  -- only if the whole body was read and verify_request accepted the request with that body, so that
  -- all it asks for holds; and what the application then reads is that same body, once.
  pub call-Verified :
      (fuel : ℕ) (scope : Scope) (rc rc' : Receive) (e : Moment) (st st' : Server P D C)
      → C.auth_enabled ≡ true
      → scope.is_http ≡ true
      → is_protected (text_or_empty scope.path) ≡ true
      → call P D C lower fuel scope rc e st ≡ runs_app st' rc'
      → Verified fuel scope rc e st st' rc'
  unfolding call verify_body runs_app_with request_of
  call-Verified fuel scope rc rc' e st st' on http path h =
      elim (Option-cases (read_body fuel rc)) [
        | inl none_read ↦
            absurd
              (none-ne-some (st', rc') (ap runs_app_with (rw (http, path, on, none_read) at h)))
        | inr ((body, rest), read) ↦
            verify_body-Verified fuel scope rc rc' e st st' body rest on read
              (rw (http, path, on, read) at h)
      ]

  -- With authentication enabled, on an HTTP request whose path is protected, the middleware answers as
  -- verify_request decides on the whole body, if the server delivers it and the fuel is more than the
  -- number of its messages.
  pub call_answers :
      (fuel : ℕ) (scope : Scope) (ms : List Message) (body : List ℕ) (e : Moment)
      (st : Server P D C)
      → C.auth_enabled ≡ true
      → scope.is_http ≡ true
      → is_protected (text_or_empty scope.path) ≡ true
      → length ms < fuel
      → whole_body ms ≡ some body
      → call P D C lower fuel scope (delivered ms) e st
        ≡ answer P D C lower body (verify_request P D C (request_of P D C lower scope body) e st)
  unfolding call verify_body read_body request_of
  call_answers fuel scope ms body e st on http path enough whole =
      let (rest, read) = read_chunks-whole_body fuel [] body ms enough whole in
      guarded scope.is_http (is_protected (text_or_empty scope.path)) C.auth_enabled
        (runs_app st (delivered ms)) _ http path on
      ∙ ap (verify_body P D C lower scope e st) read
