-- ===== src/Auth/Sample.antt =====
-- A toy in place of bcrypt, PyJWT and SHA-256 that keeps all that `Crypto` asks for, so that the
-- theorems can be applied. A token is the key and the claims, each text behind its length.
use sql_monitor.Base.{
  ℕ, zero, suc, ◌<◌, ◌≡◌, refl, sym, ap, subst, inl, inr, Bool, true, false, ◌&&◌, Option, none,
  some, none≢some, List, [], ◌∷◌, ◌++◌, arith, nat_beq, if◌then◌else◌, ◌==◌, nat_eq, string_eq,
  pair_eq, beq_refl, Bool-cases, length, take, drop, length-append, int_eq, Text, list_eq, some-eq,
}
use sql_monitor.Auth.{
  Time, Claim, text, time, Claims, Crypto, has_all, is_fresh, sub_is_text, has_registered,
}

take-append_length : (s r : Text) → take (length s) (s ++ r) ≡ s
take-append_length [] r = refl
take-append_length (c ∷ s) r = ap (λ l. c ∷ l) (take-append_length s r)

drop-append_length : (s r : Text) → drop (length s) (s ++ r) ≡ r
drop-append_length [] r = refl
drop-append_length (c ∷ s) r = drop-append_length s r

write : Claims → Text
write [] = 0 ∷ []
write ((k, text s) ∷ c) = 1 ∷ length k ∷ (k ++ (length s ∷ (s ++ write c)))
write ((k, time t) ∷ c) = 2 ∷ length k ∷ (k ++ (t ∷ write c))

abbrev put_front : Text × Claim → Option Claims → Option Claims
put_front entry none = none
put_front entry (some c) = some (entry ∷ c)

-- what follows the key of a claim
read_value : (Text → Option Claims) → ℕ → Text → Text → Option Claims
read_value again tag key [] = none
read_value again tag key (n ∷ r) =
    if nat_beq tag 1
    then put_front (key, text (take n r)) (again (drop n r))
    else put_front (key, time n) (again r)

read : ℕ → Text → Option Claims
unfolding read_value
read zero s = none
read (suc fuel) [] = none
read (suc fuel) (tag ∷ []) = some []
read (suc fuel) (tag ∷ n ∷ r) = read_value (read fuel) tag (take n r) (drop n r)

read-write : (c : Claims) (fuel : ℕ) → length c < fuel → read fuel (write c) ≡ some c
unfolding read write
read-write c zero h = elim h [ ]
read-write [] (suc fuel) h = refl
read-write ((k, text s) ∷ c) (suc fuel) h = rw (
  take-append_length k (length s ∷ (s ++ write c)),
  drop-append_length k (length s ∷ (s ++ write c)),
  take-append_length s (write c),
  drop-append_length s (write c),
  read-write c fuel (omega arith),
)
read-write ((k, time t) ∷ c) (suc fuel) h = rw (
  take-append_length k (t ∷ write c),
  drop-append_length k (t ∷ write c),
  read-write c fuel (omega arith),
)

length-write : (c : Claims) → length c < length (write c)
unfolding write
length-write [] = omega arith
length-write ((k, text s) ∷ c) =
    ground (
      arith,
      length-write c,
      length-append k (length s ∷ (s ++ write c)),
      length-append s (write c),
    )
length-write ((k, time t) ∷ c) = ground (arith, length-write c, length-append k (t ∷ write c))

abbrev acceptable : Time → List Text → Claims → Bool
acceptable now required c = is_fresh now c && (has_all required c && sub_is_text c)

accept : Time → List Text → Option Claims → Option Claims
accept now required none = none
accept now required (some c) = if acceptable now required c then some c else none

unlock : Text → Text → Option Claims
unfolding read
unlock key [] = none
unlock key (n ∷ r) = if take n r == key then read (length (drop n r)) (drop n r) else none

unfoldable pub encode : Claims → Text → Text
unfolding write
encode c key = length key ∷ (key ++ write c)

unfoldable pub decode : Text → Text → Time → List Text → Option Claims
unfolding unlock accept
decode token key now required = accept now required (unlock key token)

unlock-encode : (c : Claims) (key : Text) → unlock key (encode c key) ≡ some c
unfolding unlock encode
unlock-encode c key =
    rw (take-append_length key (write c), drop-append_length key (write c), beq_refl key)
      (read-write c (length (write c)) (length-write c))

accept_same :
    (now : Time) (required : List Text) (c c' : Claims)
    → accept now required (some c) ≡ some c'
    → (c' ≡ c) × (acceptable now required c' ≡ true)
unfolding accept
accept_same now required c c' h = elim (Bool-cases (acceptable now required c)) [
  | inl good ↦
      let q : some c ≡ some c' = rw good at h in
      (
        sym (some-eq c c' q),
        subst (λ (x : Claims). acceptable now required x ≡ true) (some-eq c c' q) good,
      )
  | inr bad ↦ absurd (none≢some (rw bad at h))
]

accepted :
    (now : Time) (required : List Text) (o : Option Claims) (c : Claims)
    → accept now required o ≡ some c
    → acceptable now required c ≡ true
unfolding accept
accepted now required none c h = absurd (none≢some h)
accepted now required (some d) c h = (accept_same now required d c h).1

unfoldable pub checkpw : Text → Text → Option Bool
checkpw p [] = none
checkpw p (salt ∷ h) = some (p == h)

pub checkpw_own :
    (p : Text) (salt : ℕ) (h : Text) → some (salt ∷ p) ≡ some h → checkpw p h ≡ some true
unfolding checkpw
checkpw_own p salt h e = rw (← some-eq (salt ∷ p) h e, beq_refl p)

all_parts : (a b c : Bool) → (a && (b && c)) ≡ true → (a ≡ true) × (b ≡ true) × (c ≡ true)
all_parts a b c h = ground arith

pub decode_authentic_lem :
    (c c' : Claims) (key : Text) (now : Time) (required : List Text)
    → decode (encode c key) key now required ≡ some c'
    → c' ≡ c
unfolding decode
decode_authentic_lem c c' key now required h =
    (accept_same now required c c' (rw (unlock-encode c key) at h)).0

pub decode-encode_lem :
    (c : Claims) (key : Text) (now : Time) (required : List Text)
    → is_fresh now c ≡ true
    → has_all required c ≡ true
    → sub_is_text c ≡ true
    → has_registered c ≡ false
    → decode (encode c key) key now required ≡ some c
unfolding decode accept
decode-encode_lem c key now required f a s plain = rw (unlock-encode c key, f, a, s)

module _ (token key : Text) (now : Time) (required : List Text) (c : Claims)
    (h : decode token key now required ≡ some c) where
  decode_checks : acceptable now required c ≡ true
  unfolding decode
  decode_checks = accepted now required (unlock key token) c h

  pub decode_required_lem : has_all required c ≡ true
  decode_required_lem =
      (all_parts (is_fresh now c) (has_all required c) (sub_is_text c) decode_checks).1

  pub decode_fresh_lem : is_fresh now c ≡ true
  decode_fresh_lem =
      (all_parts (is_fresh now c) (has_all required c) (sub_is_text c) decode_checks).0

abbrev pub toy_crypto : Crypto
toy_crypto = record {
  hashpw = λ p salt. some (salt ∷ p);
  checkpw = checkpw;
  encode = encode;
  decode = decode;
  sha256 = λ s. s;
  checkpw-hashpw = checkpw_own;
  decode_authentic = decode_authentic_lem;
  decode-encode = decode-encode_lem;
  decode_required = decode_required_lem;
  decode_fresh = decode_fresh_lem;
}
