-- ===== src/Auth/Tokens.antt =====
-- Access tokens: what is signed is what is read back, and reserved claims cannot be overridden.
use sql_monitor.Base.{
  ℕ, ◌+◌, ◌≤◌, ◌<◌, ◌≡◌, refl, sym, ◌∙◌, subst, inl, inr, Bool, true, false, ◌||◌, false≢true,
  Option, some, none≢some, [], ◌∷◌, arith, ◌==◌, nat_eq, string_eq, pair_eq, Bool-cases, contains,
  int_eq, Text, codes, list_beq_iff, list_eq, lookup, insert, lookup-insert,
}
use sql_monitor.Auth.{
  Time, seconds, numeric_date, Claim, text, time, Claims, Crypto, conflicts,
  reserved_access_token_claims, update, lifetime, access_payload, create_access_token,
  decode_access_token, check_payload, has_all, is_fresh, sub_is_text, has_registered,
  registered_claims,
}

left_false : (a b : Bool) → (a || b) ≡ false → a ≡ false
left_false a b q = ground arith

right_false : (a b : Bool) → (a || b) ≡ false → b ≡ false
right_false a b q = ground arith

different :
    (j k : Text)
    → contains k reserved_access_token_claims ≡ true
    → contains j reserved_access_token_claims ≡ false
    → (j == k) ≡ false
different j k r h = elim (Bool-cases (j == k)) [
  | inl same ↦ absurd (
      false≢true (
        sym h
        ∙ subst (λ x. contains x reserved_access_token_claims ≡ true)
            (sym ((list_beq_iff j k).0 same)) r))
  | inr other ↦ other
]

other_key :
    (j k : Text) (v : Claim) (c : Claims) → (j == k) ≡ false → lookup k (insert j v c) ≡ lookup k c
other_key j k v c h = rw (lookup-insert, h)

fresh_of :
    (c : Claims) (t now : ℕ)
    → lookup (codes "exp") c ≡ some (time t)
    → now < seconds t
    → is_fresh now c ≡ true
fresh_of c t now e h = rw (e, is_fresh) (ground arith)

-- A claim that the additional claims may not hold keeps its value.
lookup-update :
    (k : Text) (payload additional : Claims)
    → contains k reserved_access_token_claims ≡ true
    → conflicts additional ≡ false
    → lookup k (update payload additional) ≡ lookup k payload
unfolding update conflicts
lookup-update k payload [] r h = refl
lookup-update k payload ((j, v) ∷ additional) r h =
    lookup-update k (insert j v payload) additional r (right_false _ _ h)
    ∙ other_key j k v payload (different j k r (left_false _ _ h))

module _ (subject role : Text) (additional : Claims) (delta : Option Time) (now : Time)
    (h : conflicts additional ≡ false) where
  payload_sub :
      lookup (codes "sub") (access_payload subject role additional delta now) ≡ some (text subject)
  unfolding access_payload
  payload_sub = lookup-update (codes "sub") _ additional refl h

  pub payload_type :
      lookup (codes "type") (access_payload subject role additional delta now)
      ≡ some (text (codes "access"))
  unfolding access_payload
  payload_type = lookup-update (codes "type") _ additional refl h

  payload_exp :
      lookup (codes "exp") (access_payload subject role additional delta now)
      ≡ some (time (numeric_date (now + lifetime delta)))
  unfolding access_payload
  payload_exp = lookup-update (codes "exp") _ additional refl h

registered-insert :
    (k : Text) (v : Claim) (c : Claims)
    → contains k registered_claims ≡ false
    → has_registered c ≡ false
    → has_registered (insert k v c) ≡ false
registered-insert k v [] h g = rw (h) refl
registered-insert k v ((j, w) ∷ c) h g = ground (arith, registered-insert k v c h, h, g)

registered-update :
    (payload additional : Claims)
    → has_registered payload ≡ false
    → has_registered additional ≡ false
    → has_registered (update payload additional) ≡ false
unfolding update
registered-update payload [] h g = h
registered-update payload ((k, v) ∷ additional) h g =
    registered-update (insert k v payload) additional
      (registered-insert k v payload (left_false _ _ g) h) (right_false _ _ g)

payload-registered :
    (subject role : Text) (additional : Claims) (delta : Option Time) (now : Time)
    → has_registered additional ≡ false
    → has_registered (access_payload subject role additional delta now) ≡ false
unfolding access_payload
payload-registered subject role additional delta now h = registered-update _ additional refl h

check_payload_ok :
    (c : Claims) (x : ℕ) (s : Text)
    → lookup (codes "sub") c ≡ some (text (x ∷ s))
    → lookup (codes "type") c ≡ some (text (codes "access"))
    → (y : Crypto) → check_payload y c ≡ some c
unfolding check_payload
check_payload_ok c x s hs ht y = rw (hs, ht)

module _ (x : Crypto) where
  -- A token that `create_access_token` has made for a subject that is not empty is accepted by
  -- `decode_access_token`, under the same key and until a second before its lifetime is over; the
  -- payload that comes back has that subject, the type `access`, and the expiry that was set, in
  -- whole seconds. The additional claims are any others but those that PyJWT checks by itself: `iss`,
  -- `aud`, `nbf`, `iat` and `jti`.
  pub decode-create_access_token :
      (c : ℕ) (s role : Text) (additional : Claims) (delta : Option Time) (key token : Text)
      (now later : Time)
      → create_access_token x (c ∷ s) role additional delta key now ≡ some token
      → has_registered additional ≡ false
      → later + seconds 1 ≤ now + lifetime delta
      → (payload : Claims) × (decode_access_token x token key later ≡ some payload)
        × (lookup (codes "sub") payload ≡ some (text (c ∷ s)))
        × (lookup (codes "type") payload ≡ some (text (codes "access")))
        × (lookup (codes "exp") payload ≡ some (time (numeric_date (now + lifetime delta))))
  unfolding create_access_token decode_access_token
  decode-create_access_token c s role additional delta key token now later made plain fresh =
      elim (Bool-cases (conflicts additional)) [
        | inl bad ↦ absurd (none≢some (rw bad at made))
        | inr good ↦
            let payload = access_payload (c ∷ s) role additional delta now in
            let sub = payload_sub (c ∷ s) role additional delta now good in
            let type = payload_type (c ∷ s) role additional delta now good in
            let exp = payload_exp (c ∷ s) role additional delta now good in
            let made' : some (x.encode payload key) ≡ some token = rw good at made in
            let same : x.encode payload key ≡ token = cc made' in
            let read =
              x.decode-encode payload key later (codes "exp" ∷ codes "sub" ∷ codes "type" ∷ [])
                (fresh_of payload (numeric_date (now + lifetime delta)) later exp (omega arith))
                (rw (exp, sub, type, has_all)) (rw (sub, sub_is_text))
                (payload-registered (c ∷ s) role additional delta now plain) in
            (
              payload,
              rw (← same, read, decode_access_token) (check_payload_ok payload c s sub type x),
              sub,
              type,
              exp,
            )
      ]
