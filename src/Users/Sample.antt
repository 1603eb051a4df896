-- ===== src/Users/Sample.antt =====
-- Two accounts, an administrator and a viewer, with a toy environment.
use sql_monitor.Base.{
  refl, ◌≢◌, true, Option, none, some, List, [], ◌∷◌, nat_eq, string_eq, pair_eq, int_eq, Text,
  codes, list_eq, ascii,
}
use sql_monitor.Auth.{Uuid, text, time}
use sql_monitor.Auth.Sample.{toy_crypto, encode}
use sql_monitor.Users.{Role, viewer, admin, User, active, Env}

abbrev parse : Text → Option Uuid
parse [] = none
parse (c ∷ s) = some c

pub not_empty : (id : Uuid) → ◌≢◌ {A = Text} (id ∷ []) []
not_empty id h = cc h

abbrev pub env : Env
env = record {
  crypto = toy_crypto;
  unicode = ascii;
  secret_key = codes "dev-secret-key";
  collate = λ a b. true;
  uuid_str = λ id. id ∷ [];
  parse_uuid = parse;
  parse-str = λ id. refl;
  str_not_empty = not_empty;
}

abbrev pub account : Uuid → Text → Role → User
account id name role = record {
  id = id;
  username = name;
  password_hash = 3 ∷ codes "password";
  display_name = none;
  role = role;
  status = active;
}

abbrev pub users : List User
users = account 1 (codes "root") admin ∷ account 2 (codes "eve") viewer ∷ []

abbrev pub token : Text
token =
    encode
      ((codes "sub", text (1 ∷ []))
        ∷ (codes "role", text (codes "admin"))
        ∷ (codes "type", text (codes "access"))
        ∷ (codes "exp", time 3600)
        ∷ (codes "username", text (codes "root"))
        ∷ [])
      (codes "dev-secret-key")
