-- ===== src/Tests/Auth.antt =====
-- Signed requests at concrete inputs, with a Python and a Redis for which the laws hold.
use panoptic.Common.{
  ℕ, zero, suc, ◌+◌, ◌*◌, ◌≤◌, ◌≡◌, refl, sym, ap, ◌⊎◌, ◌∙◌, subst, inl, inr, Bool, true, false,
  ◌&&◌, Option, none, some, some-injective, List, [], ◌∷◌, ◌==◌, ltb, length, arith, if◌then◌else◌,
  Bool-cases, lt→ltb,
}
use panoptic.Jobs.Model.{Text}
use panoptic.Auth.{
  ℤ, pos, skew, Python, Redis, Config, AuthFailure, Request, Moment, Server, Credentials, text_eq,
  is_hex_digit, sign_headers, verify_request, verify_credentials, check_headers, check_present,
  check_formats, check_timestamp_format, check_signature_format, verify_time, observe,
  verify_replay, verify_registry, verify_signature, matches_secret, compute_signature, is_active,
  maybe_refresh, contains, force_refresh, kept_registry, canonical_signing_string, replay_key,
  is_active_on_miss,
}
use panoptic.Auth.Laws.{PythonLaws, RedisLaws, text_eq_refl}
use panoptic.Auth.Accept.{Accepts, verify_request-Accepts}
use panoptic.Auth.Sign.{signed_credentials, signed_request_accepted}
use panoptic.Auth.Reject.{IsAnsweredIfAny, verify_request-IsAnswered}
use panoptic.Auth.Replay.{verify_all, accepted_again_window}

-- The letter a, n times.
abbrev pub letters : ℕ → Text
letters zero = []
letters (suc n) = 97 ∷ letters n

length-letters : (n : ℕ) → length (letters n) ≡ n
length-letters zero = refl
length-letters (suc n) = ap suc (length-letters n)

-- A number is shown as so many letters after a first one.
abbrev parse_letters : Text → Option ℤ
parse_letters [] = none
parse_letters (c ∷ s) = some (pos (length s))

abbrev pub python : Python
python = record {
  upper = λ t. t;
  is_space = λ c. c == 32;
  show_int = λ n. 97 ∷ letters n;
  parse_int = parse_letters;
  sha256 = λ body. body;
  hmac_sha256 = λ k t. letters 64;
}

python-PythonLaws : PythonLaws python
unfolding is_hex_digit
python-PythonLaws = record {
  parse_show = λ n. ap (λ (i : ℕ). some (pos i)) (length-letters n);
  show_parts = λ n. (97, letters n, refl);
  hmac_length = λ k t. refl;
  hmac_hex = λ k t. refl;
}

-- The keys and when they expire.
abbrev Keys : Type 0
Keys = List (Text × ℕ)

abbrev held : Keys → Text → ℕ → Bool
held [] k t = false
held ((key, expiry) ∷ s) k t = if text_eq key k && ltb t expiry then true else held s k t

abbrev pub redis : Redis
redis = record {
  Store = Keys;
  set_nx = λ k ttl now s. if held s k now then some (s, false) else some ((k, now + ttl) ∷ s, true);
}

module _ (k : Text) (ttl now : ℕ) (s s' : Keys) where
  set_cases :
      (b : Bool)
      → redis.set_nx k ttl now s ≡ some (s', b)
      → ((held s k now ≡ true) × (s ≡ s') × (b ≡ false))
        ⊎ ((held s k now ≡ false) × ((k, now + ttl) ∷ s ≡ s') × (b ≡ true))
  set_cases b e = elim (Bool-cases (held s k now)) [
    | inl h ↦
        let q = some-injective _ _ (rw h at e) in
        inl (h, ap (λ (x : Keys × Bool). x.0) q, sym (ap (λ (x : Keys × Bool). x.1) q))
    | inr h ↦
        let q = some-injective _ _ (rw h at e) in
        inr (h, ap (λ (x : Keys × Bool). x.0) q, sym (ap (λ (x : Keys × Bool). x.1) q))
  ]

redis-RedisLaws : RedisLaws redis
redis-RedisLaws = record {
  holds = held;
  set_new = λ k ttl now t s s' e soon. elim (set_cases k ttl now s s' true e) [
    | inl (_, _, denied) ↦ absurd (no_truth denied)
    | inr (_, same, _) ↦
        subst (λ (x : Keys). held x k t ≡ true) same
          (rw (text_eq_refl k, lt→ltb t (now + ttl) soon) refl)
  ];
  set_old = λ k ttl now s s' b there e. elim (set_cases k ttl now s s' b e) [
    | inl (_, _, denied) ↦ denied
    | inr (gone, _, _) ↦ absurd (no_truth (sym there ∙ gone))
  ];
  set_keeps = λ k k' ttl now t s s' b there early e. elim (set_cases k' ttl now s s' b e) [
    | inl (_, same, _) ↦ subst (λ (x : Keys). held x k t ≡ true) same there
    | inr (_, same, _) ↦
        subst (λ (x : Keys). held x k t ≡ true) same
          (either (text_eq k' k && ltb t (now + ttl)) (held s k t) there)
  ];
}
  where
    no_truth : true ≡ false → ⊥
    no_truth e = ground arith

    either : (a b : Bool) → b ≡ true → (if a then true else b) ≡ true
    either true b h = refl
    either false b h = h

abbrev pub config : Config
config = record {
  auth_enabled = true;
  max_skew_sec = 300;
  replay_ttl_sec = 600;
  registry_refresh_sec = 30;
  secret_active = 115 ∷ [];
  secret_previous = [];
}

-- A client whose clock is 300 seconds ahead signs at its time 303; the server verifies at time 3,
-- and its registry has to look again.
abbrev pub client_serial : Text
client_serial = 84 ∷ 49 ∷ []

abbrev signed : Request
signed = record {
  method = 80 ∷ [];
  path = 47 ∷ [];
  headers = sign_headers python (115 ∷ []) client_serial (80 ∷ []) (47 ∷ []) (1 ∷ 2 ∷ []) 303;
  body = 1 ∷ 2 ∷ [];
}

abbrev pub moment : ℕ → Moment
moment t = record {
  now = t;
  monotonic = t + 40;
  refresh_rows = none;
  miss_rows = some (client_serial ∷ []);
}

abbrev pub new_server : Server python redis config
new_server = record { store = []; registry = record { last_refresh = 0; active = [] } }

abbrev credentials : Credentials
credentials =
    signed_credentials python python-PythonLaws (115 ∷ []) client_serial (80 ∷ []) (47 ∷ [])
      (1 ∷ 2 ∷ []) 303

abbrev used_server : Server python redis config
used_server = record {
  store = (replay_key credentials, 603) ∷ [];
  registry = record { last_refresh = 43; active = client_serial ∷ [] };
}

new_active : (is_active config (moment 3) client_serial new_server.registry).1 ≡ true
unfolding is_active maybe_refresh is_active_on_miss force_refresh contains kept_registry
new_active = refl

used_active : (is_active config (moment 603) client_serial used_server.registry).1 ≡ true
unfolding is_active maybe_refresh is_active_on_miss force_refresh contains kept_registry
used_active = refl

within_skew : (t : ℕ) → 3 ≤ t → t ≤ 603 → skew t (pos 303) ≤ 300
unfolding skew
within_skew t h k = omega arith

signed_request_accepted_example :
    (verify_request python redis config signed (moment 3) new_server).1 ≡ none
unfolding observe
signed_request_accepted_example =
    signed_request_accepted python python-PythonLaws redis config (115 ∷ []) client_serial (80 ∷ [])
      (47 ∷ []) (1 ∷ 2 ∷ []) 303 (inl refl, λ e. ground arith) (80 ∷ []) refl refl (moment 3)
      new_server used_server.store (within_skew 3 (omega arith) (omega arith)) refl new_active

accepted_once :
    (verify_request python redis config signed (moment 3) new_server) ≡ (used_server, none)
unfolding sign_headers verify_request verify_credentials check_headers check_present check_formats
    check_timestamp_format check_signature_format verify_time skew observe verify_replay
    verify_registry verify_signature matches_secret compute_signature is_active maybe_refresh
    contains force_refresh kept_registry canonical_signing_string is_active_on_miss is_hex_digit
accepted_once = refl

accepted_twice : (verify_request python redis config signed (moment 603) used_server).1 ≡ none
unfolding sign_headers verify_request verify_credentials check_headers check_present check_formats
    check_timestamp_format check_signature_format verify_time skew observe verify_replay
    verify_registry verify_signature matches_secret compute_signature is_active maybe_refresh
    contains force_refresh kept_registry canonical_signing_string replay_key is_active_on_miss
    is_hex_digit
accepted_twice = refl

verify_request-Accepts_example :
    Accepts python redis config signed
      (moment 3)
      new_server
      (verify_request python redis config signed (moment 3) new_server)
verify_request-Accepts_example =
    verify_request-Accepts python redis config signed (moment 3) new_server refl
      (ap (λ (x : Server python redis config × Option AuthFailure). x.1) accepted_once)

-- With no request in between, the second acceptance is 600 seconds after the first.
accepted_again_window_example : (3 + 600 ≤ 603) × (603 ≤ 3 + 2 * 300)
unfolding verify_all
accepted_again_window_example =
    accepted_again_window python redis config redis-RedisLaws refl signed signed (moment 3)
      (moment 603) new_server [] refl tt
      (ap (λ (x : Server python redis config × Option AuthFailure). x.1) accepted_once)
      (ap
          (λ (x : Server python redis config × Option AuthFailure).
            (verify_request python redis config signed (moment 603) x.0).1)
          accepted_once
        ∙ accepted_twice)

-- The request is sent again while its key is in the replay cache.
verify_request-IsAnswered_example :
    IsAnsweredIfAny (verify_request python redis config signed (moment 4) used_server).1
verify_request-IsAnswered_example =
    verify_request-IsAnswered python redis config signed (moment 4) used_server
