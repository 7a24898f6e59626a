-- ===== src/Auth/Formats.antt =====
-- The checks of the headers and their formats, and what passing them shows.
use panoptic.Common.{
  ◌≡◌, ◌≢◌, refl, ap, ◌⊎◌, inl, inr, Bool, true, false, Option, none, some, [], ◌∷◌, every, length,
  if◌then◌else◌, arith, ◌==◌, ◌&&◌, ◌∙◌,
}
use panoptic.Jobs.Model.{Text}
use panoptic.Auth.{
  ℤ, Python, Redis, Config, AuthFailure, Headers, Request, Credentials, Checked, rejects, passes,
  is_hex_digit, canonical_signing_string, compute_signature, check_present, check_headers,
  check_signature_format, check_timestamp_format, check_formats, matches_secret,
}
use panoptic.Auth.Laws.{text_eq→≡}

module _ {A : Type 0} where
  passes-unless :
      (b : Bool) (f : AuthFailure) (x : Checked A) (a : A)
      → (if b then rejects f else x) ≡ passes a
      → (b ≡ false) × (x ≡ passes a)
  passes-unless true f x a h = ground arith
  passes-unless false f x a h = (refl, h)

  passes-if :
      (b : Bool) (f : AuthFailure) (x : Checked A) (a : A)
      → (if b then x else rejects f) ≡ passes a
      → (b ≡ true) × (x ≡ passes a)
  passes-if true f x a h = (refl, h)
  passes-if false f x a h = ground arith

  passes-injective : (a b : A) → passes a ≡ passes b → a ≡ b
  passes-injective a b h = cc

module _ (P : Python) where
  -- The headers hold the credentials, and their formats are right.
  abbrev pub IsPresented : Headers → Credentials → ℤ → Type 0
  IsPresented h c ts =
      (h.serial ≡ some c.serial)
      × (h.timestamp ≡ some c.timestamp)
      × (h.signature ≡ some c.signature)
      × (every P.is_space c.serial ≡ false)
      × (P.parse_int c.timestamp ≡ some ts)
      × (length c.signature ≡ 64)
      × (every is_hex_digit c.signature ≡ true)

  pub check_headers-presented :
      (h : Headers)
      → ((f : AuthFailure) × (check_headers P h ≡ rejects f))
        ⊎ ((c : Credentials) × (check_headers P h ≡ passes c)
            × (h.serial ≡ some c.serial)
            × (h.timestamp ≡ some c.timestamp)
            × (h.signature ≡ some c.signature))
  unfolding check_headers check_present
  check_headers-presented h = split h.serial h.timestamp h.signature
    where
      split :
          (s t g : Option Text)
          → ((f : AuthFailure) × (check_present P s t g ≡ rejects f))
            ⊎ ((c : Credentials) × (check_present P s t g ≡ passes c)
                × (s ≡ some c.serial)
                × (t ≡ some c.timestamp)
                × (g ≡ some c.signature))
      split none t g = inl (_, refl)
      split (some []) t g = inl (_, refl)
      split (some (x ∷ s)) none g = inl (_, refl)
      split (some (x ∷ s)) (some []) g = inl (_, refl)
      split (some (x ∷ s)) (some (y ∷ t)) none = inl (_, refl)
      split (some (x ∷ s)) (some (y ∷ t)) (some []) = inl (_, refl)
      split (some (x ∷ s)) (some (y ∷ t)) (some (z ∷ g)) = inr (_, refl, refl, refl, refl)

  pub check_formats-presented :
      (c : Credentials) (ts : ℤ)
      → check_formats P c ≡ passes ts
      → (every P.is_space c.serial ≡ false)
        × (P.parse_int c.timestamp ≡ some ts)
        × (length c.signature ≡ 64)
        × (every is_hex_digit c.signature ≡ true)
  unfolding check_formats check_timestamp_format check_signature_format
  check_formats-presented c ts h =
      let (named, h₁) = passes-unless (every P.is_space c.serial) _ _ ts h in
      parsed named (P.parse_int c.timestamp) refl h₁
    where
      parsed :
          every P.is_space c.serial ≡ false
          → (o : Option ℤ) → P.parse_int c.timestamp ≡ o
          → check_timestamp_format P c o ≡ passes ts
          → (every P.is_space c.serial ≡ false)
            × (P.parse_int c.timestamp ≡ some ts)
            × (length c.signature ≡ 64)
            × (every is_hex_digit c.signature ≡ true)
      parsed named none e k = ground arith
      parsed named (some n) e k =
          let (shaped, k₁) =
            passes-if (length c.signature == 64 && every is_hex_digit c.signature) _ _ ts k in
          (named, e ∙ ap some (passes-injective n ts k₁), ground arith, ground arith)

  -- The signature is one by a configured secret over the request.
  abbrev pub IsSigned : Config → Request → Credentials → Type 0
  IsSigned C r c =
      (secret : Text) × ((secret ≡ C.secret_active) ⊎ (secret ≡ C.secret_previous))
      × (secret ≢ [])
      × (c.signature
          ≡ compute_signature P secret
              (canonical_signing_string P c.serial c.timestamp r.method r.path r.body))

  pub matches_secret-signed :
      (D : Redis) (C : Config) (secret text signature : Text)
      → matches_secret P D C secret text signature ≡ true
      → (secret ≢ []) × (signature ≡ compute_signature P secret text)
  unfolding matches_secret
  matches_secret-signed D C [] text signature h = ground arith
  matches_secret-signed D C (x ∷ secret) text signature h = ((λ e. ground arith), text_eq→≡ _ _ h)
