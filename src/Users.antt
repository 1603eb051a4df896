-- ===== src/Users.antt =====
-- backend/app/services/user_service.py, services/auth_service.py and api/deps.py: the accounts and who
-- may act. The table is a list of rows; its
-- columns `created_at` and `updated_at`, which the database fills in, are left out. A commit that
-- breaks no constraint succeeds.
mod Table
mod Change
pub mod Routes
pub mod Login
pub mod Invariant
pub mod Sessions
pub mod Sample
mod Tests
use sql_monitor.Base.{
  ℕ, ◌≡◌, ◌≢◌, Bool, true, false, not, ◌||◌, Option, none, some, List, [], ◌∷◌, ◌++◌, if◌then◌else◌,
  ◌==◌, nat_eq, string_eq, pair_eq, is_some, int_eq, Text, codes, list_eq, Unicode, lookup,
}
use sql_monitor.Auth.{
  Uuid, Time, Claim, text, Claims, Crypto, hash_password, verify_password, decode_access_token,
}

pub data Role : Type 0 where
  viewer developer dba admin : Role

pub data UserStatus : Type 0 where
  active disabled : UserStatus

pub record User : Type 0 where
  pub id : Uuid
  pub username : Text
  pub password_hash : Text
  pub display_name : Option Text
  pub role : Role
  pub status : UserStatus

abbrev pub is_active : User → Bool
is_active u = elim u.status [ active ↦ true | disabled ↦ false ]

abbrev pub is_admin : Role → Bool
is_admin admin = true
is_admin _ = false

abbrev pub is_disabled : UserStatus → Bool
is_disabled active = false
is_disabled disabled = true

-- `session.get(User, user_id)`, and the row written back
pub get_user : Uuid → List User → Option User
get_user id [] = none
get_user id (u ∷ users) = let rest = get_user id users in if u.id == id then some u else rest

pub put_user : User → List User → List User
put_user v [] = []
put_user v (u ∷ users) = let rest = put_user v users in if u.id == v.id then v ∷ users else u ∷ rest

-- `select(User).where(User.username == username)`
pub user_named : Text → List User → Option User
user_named name [] = none
user_named name (u ∷ users) =
    let rest = user_named name users in if u.username == name then some u else rest

-- What a handler answers: a value, an `HTTPException` with its status code, or an exception that
-- nothing catches.
pub data Response {ℓ} (A : Type ℓ) : Type ℓ where
  answer : A → Response A
  http_error : ℕ → Response A
  uncaught : Response A

-- What the handlers rely on beside the database.
pub record Env : Type 0 where
  pub crypto : Crypto
  pub unicode : Unicode
  pub secret_key : Text
  -- the order of names in the database's collation
  pub collate : Text → Text → Bool
  pub uuid_str : Uuid → Text
  pub parse_uuid : Text → Option Uuid
  pub parse-str : (id : Uuid) → parse_uuid (uuid_str id) ≡ some id
  pub str_not_empty : (id : Uuid) → uuid_str id ≢ []

-- How `create_user` ends: `IntegrityError` is a name or an id that is taken.
pub data Created : Type 0 where
  created : User → List User → Created
  integrity_error : Created
  value_error : Created

module _ (env : Env) where
  insert_user : User → List User → Created
  unfolding user_named get_user
  insert_user user users =
      if is_some (user_named user.username users) || is_some (get_user user.id users)
      then integrity_error
      else created user (users ++ user ∷ [])

  -- `new_id` is the `uuid.uuid4()` and `salt` the `bcrypt.gensalt()` that are drawn
  pub create_user : Uuid → ℕ → Text → Text → Option Text → Role → List User → Created
  unfolding hash_password insert_user
  create_user new_id salt username password display_name role users =
      elim (hash_password env.crypto password salt) [
        | none ↦ value_error
        | some h ↦
            insert_user
              (record {
                id = new_id;
                username = username;
                password_hash = h;
                display_name = display_name;
                role = role;
                status = active;
              })
              users
      ]

  -- `None` and the table as it was, or the row and the table with it
  pub update_user : Uuid → Option Text → Role → UserStatus → List User → Option User × List User
  unfolding get_user put_user
  update_user user_id display_name role status users = elim (get_user user_id users) [
    | none ↦ (none, users)
    | some user ↦
        let changed = record user { display_name = display_name; role = role; status = status } in
        (some changed, put_user changed users)
  ]

  pub disable_user : Uuid → Uuid → List User → Option User × List User
  unfolding get_user put_user
  disable_user user_id operator_user_id users = elim (get_user user_id users) [
    | none ↦ (none, users)
    | some user ↦
        if user.id == operator_user_id
        then (none, users)
        else let changed = record user { status = disabled } in
          (some changed, put_user changed users)
  ]

  -- `none` in front is the `ValueError` of bcrypt
  pub reset_user_password : Uuid → Text → ℕ → List User → Option (Option User) × List User
  unfolding get_user put_user hash_password
  reset_user_password user_id password salt users = elim (get_user user_id users) [
    | none ↦ (some none, users)
    | some user ↦ elim (hash_password env.crypto password salt) [
      | none ↦ (none, users)
      | some h ↦
          let changed = record user { password_hash = h } in
          (some (some changed), put_user changed users)
    ]
  ]

  pub authenticate_user : Text → Text → List User → Option User
  unfolding user_named verify_password
  authenticate_user username password users = elim (user_named username users) [
    | none ↦ none
    | some user ↦
        if not (is_active user)
        then none
        else if not (verify_password env.crypto password user.password_hash)
        then none
        else some user
  ]

  -- `uuid.UUID(str(payload.get("sub")))`
  subject_id : Option Claim → Option Uuid
  subject_id (some (text s)) = env.parse_uuid s
  subject_id _ = none

  active_only : Option User → Option User
  active_only none = none
  active_only (some user) = if is_active user then some user else none

  -- `none` is the `credentials_error`, 401
  unfoldable pub current_user : Text → Time → List User → Option User
  unfolding decode_access_token subject_id active_only get_user
  current_user token now users = elim (decode_access_token env.crypto token env.secret_key now) [
    | none ↦ none
    | some payload ↦ elim (subject_id (lookup (codes "sub") payload)) [
      | none ↦ none
      | some id ↦ active_only (get_user id users)
    ]
  ]
