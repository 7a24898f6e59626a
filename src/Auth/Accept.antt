-- ===== src/Auth/Accept.antt =====
-- What an accepted request has shown.
use panoptic.Common.{
  ◌≤◌, ◌≡◌, refl, sym, ap, ◌⊎◌, inl, inr, Bool, true, false, Option, none, some, if◌then◌else◌, ltb,
  arith, ◌∙◌, not,
}
use panoptic.Auth.{
  ℤ, skew, Python, Redis, Config, AuthFailure, Request, Registry, Moment, Credentials, Checked,
  rejects, passes, is_active, canonical_signing_string, check_headers, check_formats, Server,
  observe, matches_secret, verify_signature, verify_registry, verify_replay, verify_time,
  verify_credentials, verify_request,
}
use panoptic.Auth.Formats.{
  IsPresented, IsSigned, check_headers-presented, check_formats-presented, matches_secret-signed,
}

module _ (P : Python) (D : Redis) (C : Config) where
  either_matches :
      {S : Type 0} (a b : Bool) (st : S) (f : AuthFailure) (out : S × Option AuthFailure)
      → out ≡ (if a then (st, none) else (if b then (st, none) else (st, some f)))
      → out.1 ≡ none
      → ((a ≡ true) ⊎ (b ≡ true)) × (out.0 ≡ st)
  either_matches true b st f out e h = (inl refl, ap (λ x. x.0) e)
  either_matches false true st f out e h = (inr refl, ap (λ x. x.0) e)
  either_matches false false st f out e h = ground arith

  verify_signature-IsSigned :
      (r : Request) (c : Credentials) (st : Server P D C)
      → (verify_signature P D C r c st).1 ≡ none
      → IsSigned P C r c × ((verify_signature P D C r c st).0 ≡ st)
  unfolding verify_signature
  verify_signature-IsSigned r c st h =
      let text = canonical_signing_string P c.serial c.timestamp r.method r.path r.body in
      let (which, kept) =
        either_matches (matches_secret P D C C.secret_active text c.signature)
          (matches_secret P D C C.secret_previous text c.signature) st _ _ refl h in
      (
        elim which [
          | inl e ↦
              let (nonempty, same) =
                matches_secret-signed P D C C.secret_active text c.signature e in
              (C.secret_active, inl refl, nonempty, same)
          | inr e ↦
              let (nonempty, same) =
                matches_secret-signed P D C C.secret_previous text c.signature e in
              (C.secret_previous, inr refl, nonempty, same)
        ],
        kept,
      )

  verify_registry-active :
      (r : Request) (c : Credentials) (store : D.Store) (found : Registry × Bool)
      → (verify_registry P D C r c store found).1 ≡ none
      → (found.1 ≡ true)
        × IsSigned P C r c
        × ((verify_registry P D C r c store found).0.store ≡ store)
  unfolding verify_registry
  verify_registry-active r c store (registry, false) h = ground arith
  verify_registry-active r c store (registry, true) h =
      let (signed, kept) = verify_signature-IsSigned r c _ h in
      (refl, signed, ap (λ (st : Server P D C). st.store) kept)

  -- All that a request shows before it is accepted.
  abbrev pub IsAccepted : Request → Moment → Server P D C → Credentials → ℤ → D.Store → Type 0
  IsAccepted r e st c ts store =
      IsPresented P r.headers c ts
      × (skew e.now ts ≤ C.max_skew_sec)
      × (observe P D C c e.now st.store ≡ some (store, true))
      × ((is_active C e c.serial st.registry).1 ≡ true)
      × IsSigned P C r c

  verify_replay-new :
      (r : Request) (e : Moment) (c : Credentials) (st : Server P D C) (o : Option (D.Store × Bool))
      → (verify_replay P D C r e c st o).1 ≡ none
      → (store : D.Store) × (o ≡ some (store, true))
        × ((is_active C e c.serial st.registry).1 ≡ true)
        × IsSigned P C r c
        × ((verify_replay P D C r e c st o).0.store ≡ store)
  unfolding verify_replay
  verify_replay-new r e c st none h = ground arith
  verify_replay-new r e c st (some (store, false)) h = ground arith
  verify_replay-new r e c st (some (store, true)) h =
      let (active, signed, kept) = verify_registry-active r c store _ h in
      (store, refl, active, signed, kept)

  in_time :
      {S : Type 0} (late : Bool) (st : S) (f : AuthFailure) (out onward : S × Option AuthFailure)
      → out ≡ (if late then (st, some f) else onward)
      → out.1 ≡ none
      → (late ≡ false) × (out ≡ onward)
  in_time true st f out onward e h = ground arith
  in_time false st f out onward e h = (refl, e)

  verify_time-accepts :
      (r : Request) (e : Moment) (c : Credentials) (ts : ℤ) (st : Server P D C)
      → (verify_time P D C r e c st (passes ts)).1 ≡ none
      → (store : D.Store) × (skew e.now ts ≤ C.max_skew_sec)
        × (observe P D C c e.now st.store ≡ some (store, true))
        × ((is_active C e c.serial st.registry).1 ≡ true)
        × IsSigned P C r c
        × ((verify_time P D C r e c st (passes ts)).0.store ≡ store)
  unfolding verify_time
  verify_time-accepts r e c ts st h =
      let o = observe P D C c e.now st.store in
      let onward = verify_replay P D C r e c st o in
      let (early, same) = in_time (ltb C.max_skew_sec (skew e.now ts)) st _ _ onward refl h in
      let (store, new, active, signed, kept) =
        verify_replay-new r e c st o (sym (ap (λ x. x.1) same) ∙ h) in
      (store, ground arith, new, active, signed, ap (λ x. x.0.store) same ∙ kept)

  -- The request was accepted with the outcome.
  abbrev pub Accepts : Request → Moment → Server P D C → Server P D C × Option AuthFailure → Type 0
  Accepts r e st out =
      (c : Credentials) × (ts : ℤ) × (store : D.Store) × IsAccepted r e st c ts store
      × (out.0.store ≡ store)

  verify_time-Accepts :
      (r : Request) (e : Moment) (c : Credentials) (st : Server P D C) (k : Checked ℤ)
      → check_formats P c ≡ k
      → r.headers.serial ≡ some c.serial
      → r.headers.timestamp ≡ some c.timestamp
      → r.headers.signature ≡ some c.signature
      → (verify_time P D C r e c st k).1 ≡ none
      → Accepts r e st (verify_time P D C r e c st k)
  unfolding verify_time
  verify_time-Accepts r e c st (rejects f) ok a b d h = ground arith
  verify_time-Accepts r e c st (passes ts) ok a b d h =
      let (named, parsed, long, hex) = check_formats-presented P c ts ok in
      let (store, near, new, active, signed, kept) = verify_time-accepts r e c ts st h in
      (c, ts, store, ((a, b, d, named, parsed, long, hex), near, new, active, signed), kept)

  verify_credentials-Accepts :
      (r : Request) (e : Moment) (st : Server P D C)
      → (verify_credentials P D C r e st (check_headers P r.headers)).1 ≡ none
      → Accepts r e st (verify_credentials P D C r e st (check_headers P r.headers))
  unfolding verify_credentials
  verify_credentials-Accepts r e st = elim (check_headers-presented P r.headers) [
    | inl (f, k) ↦ rw k (λ h. ground arith)
    | inr (c, k, a, b, d) ↦
        rw k (λ h. verify_time-Accepts r e c st (check_formats P c) refl a b d h)
  ]

  verify_request_enabled :
      (r : Request) (e : Moment) (st : Server P D C)
      → C.auth_enabled ≡ true
      → verify_request P D C r e st ≡ verify_credentials P D C r e st (check_headers P r.headers)
  unfolding verify_request
  verify_request_enabled r e st = enabled C.auth_enabled _ _
    where
      enabled : {A : Type 0} (on : Bool) (x y : A) → on ≡ true → (if not on then x else y) ≡ y
      enabled true x y h = refl
      enabled false x y h = ground arith

  -- With authentication enabled, an accepted request carries all three headers in the right format,
  -- a timestamp within max_skew_sec of the clock, a key that the replay cache had not seen and now
  -- stores, a serial that the registry finds active, and a signature over its serial, timestamp,
  -- method, path and body by the active or the previous secret, which is not empty.
  pub verify_request-Accepts :
      (r : Request) (e : Moment) (st : Server P D C)
      → C.auth_enabled ≡ true
      → (verify_request P D C r e st).1 ≡ none
      → Accepts r e st (verify_request P D C r e st)
  verify_request-Accepts r e st on =
      rw (verify_request_enabled r e st on) (verify_credentials-Accepts r e st)
