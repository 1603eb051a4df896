-- ===== src/Auth/Captcha.antt =====
-- Captchas: a challenge accepts its own code, and its tokens are no access tokens, nor the other
-- way round.
use sql_monitor.Base.{
  ℕ, ◌+◌, ◌/◌, ◌%◌, ◌≤◌, ◌<◌, ◌≡◌, refl, sym, subst, inl, inr, true, false, false≢true, Option,
  none, some, none≢some, List, [], ◌∷◌, arith, nat_eq, string_eq, pair_eq, beq_refl, Bool-cases,
  Option-cases, int_eq, Text, codes, list_eq, Unicode, lookup,
}
use sql_monitor.Auth.{
  Time, seconds, text, Claims, Crypto, captcha_expire_seconds, conflicts, access_payload,
  create_access_token, decode_access_token, has_all, captcha_hash, captcha_payload,
  create_captcha_challenge, digit, generate_captcha_code, is_digits, verify_captcha, check_captcha,
}
use sql_monitor.Auth.Tokens.{payload_type}

-- the characters from `0` to `9`
abbrev pub HasDigits : Unicode → Type 0
HasDigits u = (n : ℕ) → n < 10 → u.is_digit (48 + n) ≡ true

digit-is_digit : (u : Unicode) → HasDigits u → (n : ℕ) → u.is_digit (digit n) ≡ true
unfolding digit
digit-is_digit u h n = h (n % 10) (omega arith)

generate_captcha_code-is_digits :
    (u : Unicode) → HasDigits u → (n : ℕ) → is_digits u (generate_captcha_code n) ≡ true
unfolding generate_captcha_code is_digits
generate_captcha_code-is_digits u h n = rw (
  digit-is_digit u h (n / 100000),
  digit-is_digit u h (n / 10000),
  digit-is_digit u h (n / 1000),
  digit-is_digit u h (n / 100),
  digit-is_digit u h (n / 10),
  digit-is_digit u h n,
)

module _ (u : Unicode) (x : Crypto) where
  check_own :
      (code nonce key : Text) (now : Time)
      → check_captcha u x code key (captcha_payload x code nonce key now) ≡ true
  unfolding check_captcha captcha_payload
  check_own code nonce key now = beq_refl (captcha_hash x code nonce key)

  -- If the digits of ASCII count as digits, the challenge that is made for a drawn number accepts
  -- the six digits of that number, under the same key and until a second before it expires.
  pub verify-create_captcha_challenge :
      (n : ℕ) (nonce key : Text) (now later : Time)
      → HasDigits u
      → later + seconds 1 ≤ now + seconds captcha_expire_seconds
      → verify_captcha u x
          (create_captcha_challenge x (generate_captcha_code n) nonce key now)
          (generate_captcha_code n)
          key
          later
        ≡ true
  unfolding verify_captcha create_captcha_challenge generate_captcha_code
  verify-create_captcha_challenge n nonce key now later h fresh =
      rw
        (
          generate_captcha_code-is_digits u h n,
          x.decode-encode (captcha_payload x (generate_captcha_code n) nonce key now) key later
              (codes "exp" ∷ codes "type" ∷ codes "captcha_hash" ∷ codes "nonce" ∷ [])
              (unfold captcha_payload in ground arith) (unfold captcha_payload in refl)
              (unfold captcha_payload in refl) (unfold captcha_payload in refl),
          verify_captcha,
        )
        (check_own (generate_captcha_code n) nonce key now)

module _ (x : Crypto) where
  abbrev access_required : List Text
  access_required = codes "exp" ∷ codes "sub" ∷ codes "type" ∷ []

  captcha_not_decoded :
      (code nonce key : Text) (now later : Time) (c : Claims)
      → x.decode (create_captcha_challenge x code nonce key now) key later access_required ≡ some c
      → ⊥
  unfolding create_captcha_challenge captcha_payload
  captcha_not_decoded code nonce key now later c e =
      let payload = captcha_payload x code nonce key now in
      let same : c ≡ payload = x.decode_authentic payload c key later access_required e in
      let all : has_all access_required payload ≡ true =
        subst (λ (y : Claims). has_all access_required y ≡ true) same
          (x.decode_required (x.encode payload key) key later access_required c e) in
      false≢true all

  -- No captcha token, whenever it is read, is accepted as an access token.
  pub decode_access_token-captcha :
      (code nonce key : Text) (now later : Time)
      → decode_access_token x (create_captcha_challenge x code nonce key now) key later ≡ none
  unfolding decode_access_token
  decode_access_token-captcha code nonce key now later =
      elim (Option-cases
        (x.decode (create_captcha_challenge x code nonce key now) key later access_required)) [
          | inl e ↦ rw (e, decode_access_token)
          | inr (c, e) ↦ absurd (captcha_not_decoded code nonce key now later c e)
        ]

module _ (u : Unicode) (x : Crypto) where
  abbrev captcha_required : List Text
  captcha_required = codes "exp" ∷ codes "type" ∷ codes "captcha_hash" ∷ codes "nonce" ∷ []

  check_access :
      (code key : Text) (c : Claims)
      → lookup (codes "type") c ≡ some (text (codes "access"))
      → check_captcha u x code key c ≡ false
  unfolding check_captcha
  check_access code key c e = rw (e, check_captcha)

  access_token_refused :
      (token code key : Text) (later : Time)
      → ((c : Claims)
          → x.decode token key later captcha_required ≡ some c
          → check_captcha u x code key c ≡ false)
      → verify_captcha u x token code key later ≡ false
  unfolding verify_captcha
  access_token_refused token code key later h =
      elim (Option-cases (x.decode token key later captcha_required)) [
        | inl e ↦ rw (e, verify_captcha) (ground arith)
        | inr (c, e) ↦ rw (e, verify_captcha) (ground (arith, h c e))
      ]

  -- No access token, whatever its additional claims, is accepted as the token of a captcha.
  pub verify_captcha-access :
      (subject role : Text) (additional : Claims) (delta : Option Time) (key token code : Text)
      (now later : Time)
      → create_access_token x subject role additional delta key now ≡ some token
      → verify_captcha u x token code key later ≡ false
  unfolding create_access_token
  verify_captcha-access subject role additional delta key token code now later made =
      elim (Bool-cases (conflicts additional)) [
        | inl bad ↦ absurd (none≢some (rw bad at made))
        | inr good ↦
            let payload = access_payload subject role additional delta now in
            let made' : some (x.encode payload key) ≡ some token = rw good at made in
            let same : token ≡ x.encode payload key = cc made' in
            access_token_refused token code key later (λ c e. check_access code key c (
              subst (λ (y : Claims). lookup (codes "type") y ≡ some (text (codes "access")))
                (sym (x.decode_authentic payload c key later captcha_required (rw same at e)))
                (payload_type subject role additional delta now good)))
      ]
