-- ===== src/Auth/Laws.antt =====
-- What the proofs rely on of Python and of Redis, and the comparison of two texts.
use panoptic.Common.{
  ℕ, ◌+◌, ◌≤◌, ◌<◌, ◌≡◌, refl, sym, Bool, true, false, some, [], ◌∷◌, every, length, ==_iff,
  ==_refl, if◌then◌else◌, ◌==◌, arith,
}
use panoptic.Jobs.Model.{Text}
use panoptic.Auth.{pos, Python, Redis, text_eq, is_hex_digit}

pub record PythonLaws (P : Python) : Type 0 where
  -- int(str(n)) is n, and str(n) is not empty
  pub parse_show : (n : ℕ) → P.parse_int (P.show_int n) ≡ some (pos n)
  pub show_parts : (n : ℕ) → (c : ℕ) × (s : Text) × (P.show_int n ≡ c ∷ s)
  -- hexdigest of SHA-256
  pub hmac_length : (k t : Text) → length (P.hmac_sha256 k t) ≡ 64
  pub hmac_hex : (k t : Text) → every is_hex_digit (P.hmac_sha256 k t) ≡ true

pub record RedisLaws (D : Redis) : Type 0 where
  -- The key is there at the time, if nobody touches it until then.
  pub holds : D.Store → Text → ℕ → Bool
  pub set_new :
      (k : Text) (ttl now t : ℕ) (s s' : D.Store)
      → D.set_nx k ttl now s ≡ some (s', true)
      → t < now + ttl
      → holds s' k t ≡ true
  pub set_old :
      (k : Text) (ttl now : ℕ) (s s' : D.Store) (b : Bool)
      → holds s k now ≡ true
      → D.set_nx k ttl now s ≡ some (s', b)
      → b ≡ false
  pub set_keeps :
      (k k' : Text) (ttl now t : ℕ) (s s' : D.Store) (b : Bool)
      → holds s k t ≡ true
      → now ≤ t
      → D.set_nx k' ttl now s ≡ some (s', b)
      → holds s' k t ≡ true

pub both_true : (a b : Bool) → (if a then b else false) ≡ true → (a ≡ true) × (b ≡ true)
both_true true b h = (refl, h)
both_true false b h = ground arith

pub text_eq→≡ : (s t : Text) → text_eq s t ≡ true → s ≡ t
text_eq→≡ [] [] h = refl
text_eq→≡ [] (d ∷ t) h = ground arith
text_eq→≡ (c ∷ s) [] h = ground arith
text_eq→≡ (c ∷ s) (d ∷ t) h =
    let (e, rest) = both_true (c == d) (text_eq s t) h in
    rw (sym ((==_iff c d).0 e), sym (text_eq→≡ s t rest)) refl

pub text_eq_refl : (s : Text) → text_eq s s ≡ true
text_eq_refl [] = refl
text_eq_refl (c ∷ s) = rw (==_refl c) (text_eq_refl s)
