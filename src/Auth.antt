-- ===== src/Auth.antt =====
-- backend/app/security.py, services/captcha_service.py and services/auth_service.py: passwords,
-- access tokens and captchas. bcrypt, PyJWT and SHA-256 are parameters, with what they document.
pub mod Tokens
pub mod Captcha
pub mod Sample
mod Tests
use sql_monitor.Base.{
  ℕ, zero, suc, ◌+◌, ◌*◌, ◌/◌, ◌%◌, ◌≡◌, Bool, true, false, not, ◌&&◌, ◌||◌, Option, none, some,
  List, [], ◌∷◌, ◌++◌, ltb, nat_beq, if◌then◌else◌, ◌==◌, nat_eq, string_eq, pair_eq, is_some,
  length, contains, int_eq, Text, codes, list_eq, Unicode, Dict, lookup, insert,
}

abbrev pub Uuid : Type 0
Uuid = ℕ

-- microseconds since the epoch
abbrev pub Time : Type 0
Time = ℕ

abbrev pub seconds : ℕ → Time
seconds n = n * 1000000

-- a claim of a token: a text, or a time, which PyJWT keeps in whole seconds, rounded down
pub data Claim : Type 0 where
  text : Text → Claim
  time : ℕ → Claim

abbrev pub numeric_date : Time → ℕ
numeric_date t = t / 1000000

abbrev pub Claims : Type 0
Claims = Dict Text Claim

abbrev pub has_all : List Text → Claims → Bool
has_all [] c = true
has_all (r ∷ rs) c = is_some (lookup r c) && has_all rs c

-- `exp` is there and lies after `now`
abbrev pub is_fresh : Time → Claims → Bool
is_fresh now c = elim (lookup (codes "exp") c) [
  | some (time t) ↦ ltb now (seconds t)
  | some (text s) ↦ false
  | none ↦ false
]

-- PyJWT accepts a subject only if it is a text.
abbrev pub sub_is_text : Claims → Bool
sub_is_text c = elim (lookup (codes "sub") c) [
  | some (text s) ↦ true
  | some (time t) ↦ false
  | none ↦ true
]

-- The claims that PyJWT checks by itself, beside `exp` and `sub`: an audience, for instance, is refused
-- where `decode` is given none.
abbrev pub registered_claims : List Text
registered_claims = codes "iss" ∷ codes "aud" ∷ codes "nbf" ∷ codes "iat" ∷ codes "jti" ∷ []

abbrev pub has_registered : Claims → Bool
has_registered [] = false
has_registered ((k, v) ∷ c) = contains k registered_claims || has_registered c

-- What the code relies on of bcrypt, PyJWT (HS256) and `hashlib.sha256`. `none` is an exception.
pub record Crypto : Type 0 where
  pub hashpw : Text → ℕ → Option Text
  pub checkpw : Text → Text → Option Bool
  pub encode : Claims → Text → Text
  pub decode : Text → Text → Time → List Text → Option Claims
  pub sha256 : Text → Text
  -- a password matches its own hash
  pub checkpw-hashpw :
      (p : Text) (salt : ℕ) (h : Text) → hashpw p salt ≡ some h → checkpw p h ≡ some true
  -- a token decodes to nothing but the claims that were signed
  pub decode_authentic :
      (c c' : Claims) (key : Text) (now : Time) (required : List Text)
      → decode (encode c key) key now required ≡ some c'
      → c' ≡ c
  -- and it does decode, under its key, before it expires, if it has no other claims that are checked
  pub decode-encode :
      (c : Claims) (key : Text) (now : Time) (required : List Text)
      → is_fresh now c ≡ true
      → has_all required c ≡ true
      → sub_is_text c ≡ true
      → has_registered c ≡ false
      → decode (encode c key) key now required ≡ some c
  -- an accepted token has the claims that are required, and its time has not come
  pub decode_required :
      (token key : Text) (now : Time) (required : List Text) (c : Claims)
      → decode token key now required ≡ some c
      → has_all required c ≡ true
  pub decode_fresh :
      (token key : Text) (now : Time) (required : List Text) (c : Claims)
      → decode token key now required ≡ some c
      → is_fresh now c ≡ true

abbrev pub access_token_expire_minutes : ℕ
access_token_expire_minutes = 60

abbrev pub captcha_expire_seconds : ℕ
captcha_expire_seconds = 300

abbrev pub reserved_access_token_claims : List Text
reserved_access_token_claims = codes "exp" ∷ codes "sub" ∷ codes "type" ∷ []

-- `RESERVED_ACCESS_TOKEN_CLAIMS.intersection(additional_claims)`
unfoldable pub conflicts : Claims → Bool
conflicts [] = false
conflicts ((k, v) ∷ c) = contains k reserved_access_token_claims || conflicts c

-- `dict.update`
pub update : Claims → Claims → Claims
update payload [] = payload
update payload ((k, v) ∷ c) = update (insert k v payload) c

-- `expires_delta or timedelta(minutes=60)`: a zero delta is falsy. A delta is not negative here.
unfoldable pub lifetime : Option Time → Time
lifetime none = seconds (access_token_expire_minutes * 60)
lifetime (some zero) = seconds (access_token_expire_minutes * 60)
lifetime (some (suc d)) = suc d

pub access_payload : Text → Text → Claims → Option Time → Time → Claims
unfolding update lifetime
access_payload subject role additional expires_delta now =
    update
      ((codes "sub", text subject)
        ∷ (codes "role", text role)
        ∷ (codes "type", text (codes "access"))
        ∷ (codes "exp", time (numeric_date (now + lifetime expires_delta)))
        ∷ [])
      additional

module _ (x : Crypto) where
  -- `none` is the `ValueError` of `bcrypt`
  unfoldable pub hash_password : Text → ℕ → Option Text
  hash_password password salt = x.hashpw password salt

  unfoldable pub verify_password : Text → Text → Bool
  verify_password password password_hash = elim (x.checkpw password password_hash) [
    | none ↦ false
    | some b ↦ b
  ]

  -- `none` is the `ValueError` on a reserved claim
  unfoldable pub create_access_token :
      Text → Text → Claims → Option Time → Text → Time → Option Text
  unfolding conflicts access_payload
  create_access_token subject role additional expires_delta secret_key now =
      if conflicts additional
      then none
      else some (x.encode (access_payload subject role additional expires_delta now) secret_key)

  -- a text that is not empty
  subject_of : Option Claim → Option Text
  subject_of (some (text (c ∷ s))) = some (c ∷ s)
  subject_of (some (text [])) = none
  subject_of (some (time t)) = none
  subject_of none = none

  is_access : Option Claim → Bool
  is_access (some (text s)) = s == codes "access"
  is_access (some (time t)) = false
  is_access none = false

  check_payload : Claims → Option Claims
  unfolding subject_of is_access
  check_payload payload =
      if is_some (subject_of (lookup (codes "sub") payload))
      then if is_access (lookup (codes "type") payload) then some payload else none
      else none

  -- `none` is the `ValueError` that all three failures end in
  unfoldable pub decode_access_token : Text → Text → Time → Option Claims
  unfolding check_payload
  decode_access_token token secret_key now =
      elim (x.decode token secret_key now (codes "exp" ∷ codes "sub" ∷ codes "type" ∷ [])) [
        | none ↦ none
        | some payload ↦ check_payload payload
      ]

  -- `_captcha_hash`
  pub captcha_hash : Text → Text → Text → Text
  captcha_hash code nonce secret_key =
      x.sha256 (code ++ (codes ":" ++ (nonce ++ (codes ":" ++ secret_key))))

  pub captcha_payload : Text → Text → Text → Time → Claims
  unfolding captcha_hash
  captcha_payload code nonce secret_key now =
      (codes "type", text (codes "captcha"))
      ∷ (codes "captcha_hash", text (captcha_hash code nonce secret_key))
      ∷ (codes "nonce", text nonce)
      ∷ (codes "exp", time (numeric_date (now + seconds captcha_expire_seconds)))
      ∷ []

  -- the token of `create_captcha_challenge`; the nonce is `secrets.token_hex(16)`
  unfoldable pub create_captcha_challenge : Text → Text → Text → Time → Text
  unfolding captcha_payload
  create_captcha_challenge code nonce secret_key now =
      x.encode (captcha_payload code nonce secret_key now) secret_key

-- `generate_captcha_code` for the number that `secrets.randbelow(1_000_000)` draws: its six digits
digit : ℕ → ℕ
digit n = 48 + n % 10

pub generate_captcha_code : ℕ → Text
unfolding digit
generate_captcha_code n =
    digit (n / 100000)
    ∷ digit (n / 10000)
    ∷ digit (n / 1000)
    ∷ digit (n / 100)
    ∷ digit (n / 10)
    ∷ digit n
    ∷ []

-- `str.isdigit`
pub is_digits : Unicode → Text → Bool
is_digits u [] = false
is_digits u (c ∷ []) = u.is_digit c
is_digits u (c ∷ d ∷ s) = u.is_digit c && is_digits u (d ∷ s)

module _ (u : Unicode) (x : Crypto) where
  is_captcha : Option Claim → Bool
  is_captcha (some (text s)) = s == codes "captcha"
  is_captcha (some (time t)) = false
  is_captcha none = false

  compare_hash : Text → Text → Option Claim → Option Claim → Bool
  unfolding captcha_hash
  compare_hash code secret_key (some (text expected)) (some (text nonce)) =
      captcha_hash x code nonce secret_key == expected
  compare_hash code secret_key _ _ = false

  check_captcha : Text → Text → Claims → Bool
  unfolding is_captcha compare_hash
  check_captcha code secret_key payload =
      if is_captcha (lookup (codes "type") payload)
      then compare_hash code secret_key (lookup (codes "captcha_hash") payload)
          (lookup (codes "nonce") payload)
      else false

  unfoldable pub verify_captcha : Text → Text → Text → Time → Bool
  unfolding is_digits check_captcha
  verify_captcha token code secret_key now =
      if not (nat_beq (length code) 6) || not (is_digits u code)
      then false
      else elim (x.decode token secret_key now
          (codes "exp" ∷ codes "type" ∷ codes "captcha_hash" ∷ codes "nonce" ∷ [])) [
            | none ↦ false
            | some payload ↦ check_captcha code secret_key payload
          ]
