-- ===== src/Auth/Sign.antt =====
-- The headers that a client signs are accepted by the server.
use panoptic.Common.{
  ℕ, ◌≤◌, ◌≡◌, ◌≢◌, refl, sym, ◌⊎◌, inl, inr, Bool, true, false, Option, none, some, List, [], ◌∷◌,
  every, length, if◌then◌else◌, ltb, arith, ap, not,
}
use panoptic.Jobs.Model.{Text}
use panoptic.Auth.{
  pos, skew, Python, is_hex_digit, AuthFailure, Registry, auth_failure, bad_signature, Redis,
  Config, Request, Moment, Credentials, passes, is_active, canonical_signing_string,
  compute_signature, sign_headers, check_headers, check_present, check_formats,
  check_timestamp_format, check_signature_format, Server, observe, matches_secret, verify_signature,
  verify_registry, verify_replay, verify_time, verify_credentials, verify_request,
}
use panoptic.Auth.Laws.{PythonLaws, text_eq_refl}

module _ (P : Python) (L : PythonLaws P) where
  -- What the server reads out of the signed headers.
  abbrev pub signed_credentials : Text → Text → Text → Text → List ℕ → ℕ → Credentials
  signed_credentials secret serial method path body t = record {
    serial = serial;
    timestamp = P.show_int t;
    signature =
        compute_signature P secret
          (canonical_signing_string P serial (P.show_int t) method path body);
  }

  check_present_parts :
      (s t g : Text)
      → s ≢ []
      → t ≢ []
      → g ≢ []
      → check_present P (some s) (some t) (some g)
        ≡ passes (record { serial = s; timestamp = t; signature = g })
  unfolding check_present
  check_present_parts [] t g hs ht hg = absurd (hs refl)
  check_present_parts (x ∷ s) [] g hs ht hg = absurd (ht refl)
  check_present_parts (x ∷ s) (y ∷ t) [] hs ht hg = absurd (hg refl)
  check_present_parts (x ∷ s) (y ∷ t) (z ∷ g) hs ht hg = refl

  check_formats_parts :
      (c : Credentials) (t : ℕ)
      → every P.is_space c.serial ≡ false
      → P.parse_int c.timestamp ≡ some (pos t)
      → length c.signature ≡ 64
      → every is_hex_digit c.signature ≡ true
      → check_formats P c ≡ passes (pos t)
  unfolding check_formats check_timestamp_format check_signature_format
  check_formats_parts c t named parsed long hex = rw (named, parsed, long, hex) refl

  not_empty : (s : Text) → every P.is_space s ≡ false → s ≢ []
  not_empty [] h e = ground arith
  not_empty (x ∷ s) h e = ground arith

  shown_not_empty : (t : ℕ) → P.show_int t ≢ []
  shown_not_empty t e = let (c, s, parts) = L.show_parts t in cc

  signature_not_empty : (k t : Text) → compute_signature P k t ≢ []
  unfolding compute_signature
  signature_not_empty k t e = no_digits (P.hmac_sha256 k t) e (L.hmac_length k t)
    where
      no_digits : (s : Text) → s ≡ [] → length s ≡ 64 → ⊥
      no_digits [] h long = omega (arith, long)
      no_digits (x ∷ s) h long = ground arith

  signature_long : (k t : Text) → length (compute_signature P k t) ≡ 64
  unfolding compute_signature
  signature_long k t = L.hmac_length k t

  signature_hex : (k t : Text) → every is_hex_digit (compute_signature P k t) ≡ true
  unfolding compute_signature
  signature_hex k t = L.hmac_hex k t

module _ (P : Python) (L : PythonLaws P) (D : Redis) (C : Config) where
  -- One of the two secrets of the server.
  abbrev pub IsServerSecret : Text → Type 0
  IsServerSecret secret =
      ((secret ≡ C.secret_active) ⊎ (secret ≡ C.secret_previous)) × (secret ≢ [])

  matches_own :
      (secret text : Text)
      → secret ≢ []
      → matches_secret P D C secret text (compute_signature P secret text) ≡ true
  unfolding matches_secret
  matches_own [] text h = absurd (h refl)
  matches_own (x ∷ secret) text h = text_eq_refl (compute_signature P (x ∷ secret) text)

  verify_signature_own :
      (r : Request) (c : Credentials) (st : Server P D C) (secret : Text)
      → IsServerSecret secret
      → c.signature
        ≡ compute_signature P secret
            (canonical_signing_string P c.serial c.timestamp r.method r.path r.body)
      → verify_signature P D C r c st ≡ (st, none)
  unfolding verify_signature
  verify_signature_own r c st secret (which, nonempty) signed = elim which [
    | inl e ↦ second_or_first active previous (st, none) refused (inl (matches e))
    | inr e ↦ second_or_first active previous (st, none) refused (inr (matches e))
  ]
    where
      text : Text
      text = canonical_signing_string P c.serial c.timestamp r.method r.path r.body

      active : Bool
      active = matches_secret P D C C.secret_active text c.signature

      previous : Bool
      previous = matches_secret P D C C.secret_previous text c.signature

      refused : Server P D C × Option AuthFailure
      refused = (st, some (auth_failure bad_signature 401 (some c.serial)))

      matches : {s : Text} → secret ≡ s → matches_secret P D C s text c.signature ≡ true
      matches {s} e = rw (signed, sym e) (matches_own secret text nonempty)

      second_or_first :
          {A : Type 0} (a b : Bool) (x y : A)
          → (a ≡ true) ⊎ (b ≡ true)
          → (if a then x else (if b then x else y)) ≡ x
      second_or_first true b x y h = refl
      second_or_first false true x y h = refl
      second_or_first false false x y h = ground arith

  verify_registry_own :
      (r : Request) (c : Credentials) (store : D.Store) (found : Registry × Bool) (secret : Text)
      → IsServerSecret secret
      → c.signature
        ≡ compute_signature P secret
            (canonical_signing_string P c.serial c.timestamp r.method r.path r.body)
      → found.1 ≡ true
      → (verify_registry P D C r c store found).1 ≡ none
  unfolding verify_registry
  verify_registry_own r c store (registry, false) secret own signed active = ground arith
  verify_registry_own r c store (registry, true) secret own signed active =
      ap (λ x. x.1)
        (verify_signature_own r c (record { store = store; registry = registry }) secret own signed)

  verify_time_own :
      (r : Request) (e : Moment) (c : Credentials) (st : Server P D C) (store : D.Store) (t : ℕ)
      (secret : Text)
      → IsServerSecret secret
      → c.signature
        ≡ compute_signature P secret
            (canonical_signing_string P c.serial c.timestamp r.method r.path r.body)
      → skew e.now (pos t) ≤ C.max_skew_sec
      → observe P D C c e.now st.store ≡ some (store, true)
      → (is_active C e c.serial st.registry).1 ≡ true
      → (verify_time P D C r e c st (passes (pos t))).1 ≡ none
  unfolding verify_time verify_replay
  verify_time_own r e c st store t secret own signed near new active =
      rw (in_window, new) (verify_registry_own r c store _ secret own signed active)
    where
      in_window : ltb C.max_skew_sec (skew e.now (pos t)) ≡ false
      in_window = ground arith

  either_accepted :
      {S : Type 0} (b : Bool) (st : S) (out : S × Option AuthFailure)
      → out.1 ≡ none
      → (if b then (st, none) else out).1 ≡ none
  either_accepted true st out h = refl
  either_accepted false st out h = h

  signed_again :
      (secret serial ts method m path : Text) (body : List ℕ)
      → P.upper m ≡ P.upper method
      → compute_signature P secret (canonical_signing_string P serial ts method path body)
        ≡ compute_signature P secret (canonical_signing_string P serial ts m path body)
  unfolding canonical_signing_string
  signed_again secret serial ts method m path body same = rw same refl

  -- A request with the headers that sign_headers makes with either secret of the server, for the
  -- same path and body and a method equal up to case, is accepted when its serial is not blank, its
  -- time is within max_skew_sec of the server's clock, the replay cache takes its key as new and the
  -- registry finds its serial active.
  pub signed_request_accepted :
      (secret serial method path : Text) (body : List ℕ) (t : ℕ)
      → IsServerSecret secret
      → (m : Text) → P.upper m ≡ P.upper method
      → every P.is_space serial ≡ false
      → (e : Moment) (st : Server P D C) (store : D.Store) → skew e.now (pos t) ≤ C.max_skew_sec
      → observe P D C (signed_credentials P L secret serial method path body t) e.now st.store
        ≡ some (store, true)
      → (is_active C e serial st.registry).1 ≡ true
      → (verify_request P D C
          (record {
            method = m;
            path = path;
            headers = sign_headers P secret serial method path body t;
            body = body;
          })
          e
          st).1
        ≡ none
  unfolding sign_headers verify_request verify_credentials check_headers
  signed_request_accepted secret serial method path body t own m same named e st store near new
        active =
      let c = signed_credentials P L secret serial method path body t in
      let text = canonical_signing_string P serial (P.show_int t) method path body in
      let there =
        check_present_parts P L serial (P.show_int t) (compute_signature P secret text)
          (not_empty P L serial named) (shown_not_empty P L t)
          (signature_not_empty P L secret text) in
      let formed =
        check_formats_parts P L c t named (L.parse_show t) (signature_long P L secret text)
          (signature_hex P L secret text) in
      let r : Request = record {
        method = m;
        path = path;
        headers = sign_headers P secret serial method path body t;
        body = body;
      } in
      let onward : (verify_credentials P D C r e st (check_headers P r.headers)).1 ≡ none =
        rw (there, formed)
          (verify_time_own r e c st store t secret own
            (signed_again secret serial (P.show_int t) method m path body same) near new active) in
      either_accepted (not C.auth_enabled) st
        (verify_credentials P D C r e st (check_headers P r.headers)) onward
