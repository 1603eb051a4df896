-- ===== src/Instances/Connection.antt =====
-- A connection string read back, by ODBC's rule for values in braces.
use sql_monitor.Base.{
  ℕ, zero, suc, ◌≡◌, refl, ap, ◌∙◌, Bool, true, false, not, Option, none, some, [], ◌∷◌, ◌++◌,
  append_assoc, arith, nat_beq, if◌then◌else◌, nat_eq, string_eq, pair_eq, int_eq, Text, codes,
  list_eq, text_or, Dict,
}
use sql_monitor.Instances.{decimal, double_brace, odbc_brace, build_sql_auth_connection_string}

abbrev put : ℕ → Option (Text × Text) → Option (Text × Text)
put c none = none
put c (some (v, rest)) = some (c ∷ v, rest)

-- The rest of a value after its opening brace: two closing braces stand for one, and one ends it. The
-- flag says that a closing brace has just been read.
pub read_value : Bool → Text → Option (Text × Text)
read_value false [] = none
read_value true [] = some ([], [])
read_value false (c ∷ s) =
    let closed = read_value true s in
    let next = read_value false s in if nat_beq c 125 then closed else put c next
read_value true (c ∷ s) =
    let next = read_value false s in if nat_beq c 125 then put 125 next else some ([], c ∷ s)

abbrev ends_value : Text → Bool
ends_value [] = true
ends_value (c ∷ s) = not (nat_beq c 125)

read_value-double_brace :
    (v rest : Text)
    → ends_value rest ≡ true
    → read_value false (double_brace v ++ 125 ∷ rest) ≡ some (v, rest)
unfolding read_value
read_value-double_brace [] [] h = refl
read_value-double_brace [] (d ∷ rest) h = ground arith
read_value-double_brace (c ∷ v) rest h = ground (arith, read_value-double_brace v rest h)

pub read_braced : Text → Option (Text × Text)
unfolding read_value
read_braced [] = none
read_braced (c ∷ s) = if nat_beq c 123 then read_value false s else none

read_braced-odbc_brace :
    (v rest : Text) → ends_value rest ≡ true → read_braced (odbc_brace v ++ rest) ≡ some (v, rest)
unfolding read_braced odbc_brace
read_braced-odbc_brace v rest h =
    ap (read_value false) (append_assoc (double_brace v) (125 ∷ []) rest)
    ∙ read_value-double_brace v rest h

-- A key up to its equals sign
read_key : Text → Option (Text × Text)
read_key [] = none
read_key (c ∷ s) = let next = read_key s in if nat_beq c 61 then some ([], s) else put c next

-- A plain value up to its semicolon
read_plain : Text → Option (Text × Text)
read_plain [] = none
read_plain (c ∷ s) =
    let next = read_plain s in if nat_beq c 59 then some ([], c ∷ s) else put c next

abbrev read_any : Text → Option (Text × Text)
read_any [] = none
read_any (c ∷ s) = if nat_beq c 123 then read_braced (c ∷ s) else read_plain (c ∷ s)

abbrev and_then {ℓ κ} : {A : Type ℓ} {B : Type κ} → Option A → (A → Option B) → Option B
and_then none f = none
and_then (some a) f = f a

abbrev after_semicolon : Text → Option Text
after_semicolon [] = none
after_semicolon (c ∷ s) = if nat_beq c 59 then some s else none

-- The attributes of a connection string, in their order; the fuel bounds their number.
unfoldable pub read_attributes : ℕ → Text → Option (Dict Text Text)
unfolding read_key read_plain read_braced
read_attributes n [] = some []
read_attributes zero (c ∷ s) = none
read_attributes (suc n) (c ∷ s) = and_then (read_key (c ∷ s)) (λ (key : Text × Text).
    and_then (read_any key.1) (λ (value : Text × Text).
      and_then (after_semicolon value.1)
        (λ rest. and_then (read_attributes n rest) (λ more. some ((key.0, value.0) ∷ more)))))

-- The connection string that is built reads back, by ODBC's rule for values in braces, as exactly its
-- seven attributes with the driver, the server and its port, the database (`master` for an empty
-- name), the account and the password: no character of a password, a name or a host ends its value
-- and adds an attribute.
pub read_attributes-build_sql_auth_connection_string :
    (driver host : Text) (port : ℕ) (username password database_name : Text)
    → read_attributes 7
        (build_sql_auth_connection_string driver host port username password database_name)
      ≡ some (
          (codes "Driver", driver)
          ∷ (codes "Server", host ++ (codes "," ++ decimal port))
          ∷ (codes "Database", text_or database_name (codes "master"))
          ∷ (codes "UID", username)
          ∷ (codes "PWD", password)
          ∷ (codes "Encrypt", codes "yes")
          ∷ (codes "TrustServerCertificate", codes "yes")
          ∷ [])
unfolding read_attributes build_sql_auth_connection_string
read_attributes-build_sql_auth_connection_string driver host port username password database_name =
    let r5 = codes ";Encrypt=yes;TrustServerCertificate=yes;" in
    let r4 = codes ";PWD=" ++ (odbc_brace password ++ r5) in
    let r3 = codes ";UID=" ++ (odbc_brace username ++ r4) in
    let r2 = codes ";Database=" ++ (odbc_brace (text_or database_name (codes "master")) ++ r3) in
    let r1 = codes ";Server=" ++ (odbc_brace (host ++ (codes "," ++ decimal port)) ++ r2) in
    let server = host ++ (codes "," ++ decimal port) in
    let database = text_or database_name (codes "master") in
    rw (read_braced-odbc_brace driver r1 refl) (
      rw (read_braced-odbc_brace server r2 refl) (
        rw (read_braced-odbc_brace database r3 refl) (
          rw (read_braced-odbc_brace username r4 refl)
            (rw (read_braced-odbc_brace password r5 refl) refl))))
