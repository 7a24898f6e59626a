-- ===== src/Auth/Replay.antt =====
-- The replay cache against a request that is sent again.
use panoptic.Common.{
  ℕ, ◌+◌, ◌*◌, ◌≤◌, ◌≡◌, refl, sym, ◌⊎◌, inl, inr, Bool, true, false, not, Option, none, some, List,
  [], ◌∷◌, All, Bool-cases, if◌then◌else◌, ltb, leb→le, leb, arith, ◌∙◌, ap, some-injective, subst,
}
use panoptic.Jobs.Model.{Text}
use panoptic.Auth.{
  ℤ, pos, negsuc, skew, Python, Redis, Config, AuthFailure, Headers, Request, Moment, Registry,
  Credentials, Checked, rejects, passes, is_active, check_headers, check_formats, Server, observe,
  replay_key, verify_signature, verify_registry, verify_replay, verify_time, verify_credentials,
  verify_request, matches_secret, canonical_signing_string, auth_failure, bad_signature,
}
use panoptic.Auth.Laws.{RedisLaws}
use panoptic.Auth.Formats.{IsPresented}
use panoptic.Auth.Accept.{verify_request-Accepts}

module _ (P : Python) (D : Redis) (C : Config) where
  -- The store is as it was, or as one call of observe at the time left it.
  abbrev pub Observes : Moment → Server P D C → Server P D C → Type 0
  Observes e st st' =
      (st'.store ≡ st.store)
      ⊎ ((c : Credentials) × (b : Bool) × (observe P D C c e.now st.store ≡ some (st'.store, b)))

  verify_signature-keeps :
      (r : Request) (c : Credentials) (st : Server P D C) → (verify_signature P D C r c st).0 ≡ st
  unfolding verify_signature
  verify_signature-keeps r c st =
      let text = canonical_signing_string P c.serial c.timestamp r.method r.path r.body in
      three (matches_secret P D C C.secret_active text c.signature)
        (matches_secret P D C C.secret_previous text c.signature)
        (auth_failure bad_signature 401 (some c.serial))
    where
      three :
          (a b : Bool) (f : AuthFailure)
          → (let out : Server P D C × Option AuthFailure =
                if a then (st, none) else (if b then (st, none) else (st, some f)) in
              out.0 ≡ st)
      three true b f = refl
      three false true f = refl
      three false false f = refl

  verify_registry-keeps :
      (r : Request) (c : Credentials) (store : D.Store) (found : Registry × Bool)
      → (verify_registry P D C r c store found).0.store ≡ store
  unfolding verify_registry
  verify_registry-keeps r c store (registry, false) = refl
  verify_registry-keeps r c store (registry, true) =
      ap (λ (st : Server P D C). st.store)
        (verify_signature-keeps r c (record { store = store; registry = registry }))

  verify_replay-Observes :
      (r : Request) (e : Moment) (c : Credentials) (st : Server P D C) (o : Option (D.Store × Bool))
      → observe P D C c e.now st.store ≡ o
      → Observes e st (verify_replay P D C r e c st o).0
  unfolding verify_replay
  verify_replay-Observes r e c st none h = inl refl
  verify_replay-Observes r e c st (some (store, false)) h = inr (c, false, h)
  verify_replay-Observes r e c st (some (store, true)) h =
      inr (c, true, rw (verify_registry-keeps r c store (is_active C e c.serial st.registry)) h)

  verify_time-Observes :
      (r : Request) (e : Moment) (c : Credentials) (st : Server P D C) (k : Checked ℤ)
      → Observes e st (verify_time P D C r e c st k).0
  unfolding verify_time
  verify_time-Observes r e c st (rejects f) = inl refl
  verify_time-Observes r e c st (passes ts) =
      elim (Bool-cases (ltb C.max_skew_sec (skew e.now ts))) [
        | inl late ↦ rw late (inl refl)
        | inr near ↦ rw near (verify_replay-Observes r e c st _ refl)
      ]

  verify_credentials-Observes :
      (r : Request) (e : Moment) (st : Server P D C) (k : Checked Credentials)
      → Observes e st (verify_credentials P D C r e st k).0
  unfolding verify_credentials
  verify_credentials-Observes r e st (rejects f) = inl refl
  verify_credentials-Observes r e st (passes c) = verify_time-Observes r e c st (check_formats P c)

  verify_request-Observes :
      (r : Request) (e : Moment) (st : Server P D C) → Observes e st (verify_request P D C r e st).0
  unfolding verify_request
  verify_request-Observes r e st =
      split (not C.auth_enabled) _ (verify_credentials-Observes r e st (check_headers P r.headers))
    where
      split :
          (b : Bool) (out : Server P D C × Option AuthFailure)
          → Observes e st out.0
          → Observes e st (if b then (st, none) else out).0
      split true out h = inl refl
      split false out h = h

  -- The server after it has verified the requests, each at its moment.
  unfoldable pub verify_all : List (Request × Moment) → Server P D C → Server P D C
  verify_all [] st = st
  verify_all ((r, e) ∷ requests) st = verify_all requests (verify_request P D C r e st).0

  module _ (L : RedisLaws D) where
    verify_request-holds :
        (r : Request) (e : Moment) (st : Server P D C) (k : Text) (t : ℕ)
        → e.now ≤ t
        → L.holds st.store k t ≡ true
        → L.holds (verify_request P D C r e st).0.store k t ≡ true
    unfolding observe
    verify_request-holds r e st k t early h = elim (verify_request-Observes r e st) [
      | inl same ↦ rw same h
      | inr (c, b, new) ↦
          L.set_keeps k (replay_key c) C.replay_ttl_sec e.now t st.store _ b h early new
    ]

    verify_all-holds :
        (requests : List (Request × Moment)) (st : Server P D C) (k : Text) (t : ℕ)
        → All (λ (x : Request × Moment). x.1.now ≤ t) requests
        → L.holds st.store k t ≡ true
        → L.holds (verify_all requests st).store k t ≡ true
    unfolding verify_all
    verify_all-holds [] st k t early h = h
    verify_all-holds ((r, e) ∷ requests) st k t early h =
        verify_all-holds requests (verify_request P D C r e st).0 k t early.1
          (verify_request-holds r e st k t early.0 h)

    in_both_windows :
        (now₁ now₂ : ℕ) (ts : ℤ) (m : ℕ) → skew now₁ ts ≤ m → skew now₂ ts ≤ m → now₂ ≤ now₁ + 2 * m
    unfolding skew
    in_both_windows now₁ now₂ (pos n) m h k = omega arith
    in_both_windows now₁ now₂ (negsuc n) m h k = omega arith

    same_key :
        (c₁ c₂ : Credentials)
        → c₂.serial ≡ c₁.serial
        → c₂.timestamp ≡ c₁.timestamp
        → c₂.signature ≡ c₁.signature
        → replay_key c₁ ≡ replay_key c₂
    unfolding replay_key
    same_key c₁ c₂ a b d = rw (a, b, d) refl

    same_credentials :
        (h₁ h₂ : Headers) (c₁ c₂ : Credentials) (ts₁ ts₂ : ℤ)
        → h₂ ≡ h₁
        → IsPresented P h₁ c₁ ts₁
        → IsPresented P h₂ c₂ ts₂
        → (replay_key c₁ ≡ replay_key c₂) × (ts₂ ≡ ts₁)
    same_credentials h₁ h₂ c₁ c₂ ts₁ ts₂ same (s₁, t₁, g₁, _, p₁, _, _) (s₂, t₂, g₂, _, p₂, _, _) =
        let serial = some-injective _ _ (sym s₂ ∙ ap (λ (h : Headers). h.serial) same ∙ s₁) in
        let timestamp = some-injective _ _ (sym t₂ ∙ ap (λ (h : Headers). h.timestamp) same ∙ t₁) in
        let signature = some-injective _ _ (sym g₂ ∙ ap (λ (h : Headers). h.signature) same ∙ g₁) in
        (
          same_key c₁ c₂ serial timestamp signature,
          some-injective _ _ (sym p₂ ∙ ap P.parse_int timestamp ∙ p₁),
        )

    -- A key taken at one time and taken as new at another was let go in between.
    taken_twice :
        (c₁ c₂ : Credentials) (now₁ now₂ : ℕ) (s s₁ s₂ s₃ : D.Store)
        → replay_key c₁ ≡ replay_key c₂
        → observe P D C c₁ now₁ s ≡ some (s₁, true)
        → (L.holds s₁ (replay_key c₁) now₂ ≡ true → L.holds s₂ (replay_key c₁) now₂ ≡ true)
        → observe P D C c₂ now₂ s₂ ≡ some (s₃, true)
        → now₁ + C.replay_ttl_sec ≤ now₂
    unfolding observe
    taken_twice c₁ c₂ now₁ now₂ s s₁ s₂ s₃ key first kept again =
        elim (Bool-cases (leb (now₁ + C.replay_ttl_sec) now₂)) [
          | inl late ↦ leb→le _ _ late
          | inr soon ↦
              let held =
                kept (
                  L.set_new (replay_key c₁) C.replay_ttl_sec now₁ now₂ s s₁ first (ground arith)) in
              let old : true ≡ false =
                L.set_old (replay_key c₂) C.replay_ttl_sec now₂ s₂ s₃ true (rw (sym key) held)
                  again in
              ground arith
        ]

    -- With authentication enabled, a request whose headers were accepted before is accepted again
    -- at most at times from replay_ttl_sec after the first acceptance to twice max_skew_sec after it,
    -- whatever requests the server verified in between: before, the replay cache refuses it, and
    -- after, its timestamp is stale.
    pub accepted_again_window :
        C.auth_enabled ≡ true
        → (r₁ r₂ : Request) (e₁ e₂ : Moment) (st : Server P D C) (between : List (Request × Moment))
        → r₂.headers ≡ r₁.headers
        → All (λ (x : Request × Moment). x.1.now ≤ e₂.now) between
        → (verify_request P D C r₁ e₁ st).1 ≡ none
        → (verify_request P D C r₂ e₂ (verify_all between (verify_request P D C r₁ e₁ st).0)).1
          ≡ none
        → (e₁.now + C.replay_ttl_sec ≤ e₂.now) × (e₂.now ≤ e₁.now + 2 * C.max_skew_sec)
    accepted_again_window on r₁ r₂ e₁ e₂ st between same early h₁ h₂ =
        let st₁ = (verify_request P D C r₁ e₁ st).0 in
        let (c₁, ts₁, s₁, (shown₁, near₁, new₁, _, _), kept₁) =
          verify_request-Accepts P D C r₁ e₁ st on h₁ in
        let (c₂, ts₂, s₂, (shown₂, near₂, new₂, _, _), _) =
          verify_request-Accepts P D C r₂ e₂ (verify_all between st₁) on h₂ in
        let (key, stamp) =
          same_credentials r₁.headers r₂.headers c₁ c₂ ts₁ ts₂ same shown₁ shown₂ in
        (
          taken_twice c₁ c₂ e₁.now e₂.now st.store s₁ (verify_all between st₁).store s₂ key new₁
              (λ h. verify_all-holds between st₁ (replay_key c₁) e₂.now early (rw kept₁ h)) new₂,
          in_both_windows e₁.now e₂.now ts₁ C.max_skew_sec near₁
              (subst (λ ts. skew e₂.now ts ≤ C.max_skew_sec) stamp near₂),
        )
