-- ===== src/Auth/Tests.antt =====
-- Concrete tokens and captchas.
use sql_monitor.Base.{
  ◌+◌, ◌≡◌, refl, true, false, none, some, [], ◌∷◌, arith, nat_eq, string_eq, pair_eq, int_eq, Text,
  codes, list_eq, ascii, lookup,
}
use sql_monitor.Auth.{
  numeric_date, text, time, Claims, lifetime, create_access_token, decode_access_token,
  create_captcha_challenge, generate_captcha_code, verify_captcha,
}
use sql_monitor.Auth.Sample.{toy_crypto, encode, decode}
use sql_monitor.Auth.Tokens.{decode-create_access_token}
use sql_monitor.Auth.Captcha.{
  HasDigits, verify-create_captcha_challenge, decode_access_token-captcha,
}

abbrev key : Text
key = codes "dev-secret-key"

abbrev extra : Claims
extra = (codes "username", text (codes "alice")) ∷ []

abbrev token : Text
token =
    encode
      ((codes "sub", text (codes "7"))
        ∷ (codes "role", text (codes "dba"))
        ∷ (codes "type", text (codes "access"))
        ∷ (codes "exp", time 3600)
        ∷ (codes "username", text (codes "alice"))
        ∷ [])
      key

token_made : create_access_token toy_crypto (codes "7") (codes "dba") extra none key 5 ≡ some token
unfolding create_access_token lifetime
token_made = refl

decode-create_access_token_example :
    (payload : Claims) × (decode_access_token toy_crypto token key 1000 ≡ some payload)
    × (lookup (codes "sub") payload ≡ some (text (codes "7")))
    × (lookup (codes "type") payload ≡ some (text (codes "access")))
    × (lookup (codes "exp") payload ≡ some (time (numeric_date (5 + lifetime none))))
decode-create_access_token_example =
    decode-create_access_token toy_crypto 55 [] (codes "dba") extra none key token 5 1000 token_made
      refl (unfold lifetime in omega arith)

ascii_digits : HasDigits ascii
ascii_digits n h = ground arith

verify-create_captcha_challenge_example :
    verify_captcha ascii toy_crypto
      (create_captcha_challenge toy_crypto (generate_captcha_code 42) (codes "ab") key 5)
      (generate_captcha_code 42)
      key
      1000
    ≡ true
verify-create_captcha_challenge_example =
    verify-create_captcha_challenge ascii toy_crypto 42 (codes "ab") key 5 1000 ascii_digits
      (omega arith)

decode_access_token-captcha_example :
    decode_access_token toy_crypto
      (create_captcha_challenge toy_crypto (codes "000042") (codes "ab") key 5)
      key
      1000
    ≡ none
decode_access_token-captcha_example =
    decode_access_token-captcha toy_crypto (codes "000042") (codes "ab") key 5 1000

captcha_digits : generate_captcha_code 42 ≡ codes "000042"
unfolding generate_captcha_code
captcha_digits = refl

-- a captcha is refused once its time has come
captcha_expires :
    verify_captcha ascii toy_crypto
      (create_captcha_challenge toy_crypto (codes "000042") (codes "ab") key 5)
      (codes "000042")
      key
      300000000
    ≡ false
unfolding verify_captcha decode create_captcha_challenge encode
captcha_expires = refl

-- a reserved claim is refused
reserved_refused :
    create_access_token toy_crypto
      (codes "7")
      (codes "dba")
      ((codes "sub", text (codes "1")) ∷ [])
      none
      key
      5
    ≡ none
unfolding create_access_token
reserved_refused = refl
