-- ===== src/Users/Tests.antt =====
-- Requests and logins of an administrator and a viewer.
use sql_monitor.Base.{
  ◌≡◌, refl, ◌⊎◌, true, none, some, [], ◌∷◌, ◌++◌, arith, nat_eq, string_eq, pair_eq, int_eq, Text,
  codes, list_eq,
}
use sql_monitor.Auth.{
  create_access_token, create_captcha_challenge, decode_access_token, verify_captcha,
  verify_password, lifetime,
}
use sql_monitor.Auth.Sample.{toy_crypto, encode, decode, checkpw}
use sql_monitor.Users.{
  viewer, admin, User, active, disabled, is_active, created, create_user, reset_user_password,
  authenticate_user, current_user, answer, http_error,
}
use sql_monitor.Users.Sample.{env, account, users, token}
use sql_monitor.Users.Table.{IsTable}
use sql_monitor.Users.Routes.{create, update, disable, handle, handle_all}
use sql_monitor.Users.Login.{LoginRequest, LoginResponse, login, captcha_passes}
use sql_monitor.Users.Invariant.{handle_authorized, handle_all-IsTable, handle_keeps_operator}
use sql_monitor.Users.Sessions.{authenticate-create_user, login_opens_session}

users-IsTable : IsTable users
users-IsTable = record { ids = (refl, (refl, tt)); names = (refl, (refl, tt)) }

root_known : current_user env token 1000 users ≡ some (account 1 (codes "root") admin)
unfolding current_user decode_access_token decode encode
root_known = refl

-- an administrator cannot disable itself, and can disable another account
self_disable : (handle env token 1000 (disable 1) users).0 ≡ http_error 400
unfolding handle decode_access_token decode encode
self_disable = refl

other_disabled : handle env token 1000 (disable 2) users ≡ (
  answer (record (account 2 (codes "eve") viewer) { status = disabled } ∷ []),
  account 1 (codes "root") admin
      ∷ record (account 2 (codes "eve") viewer) { status = disabled }
      ∷ [],
)
unfolding handle decode_access_token decode encode
other_disabled = refl

handle_authorized_example :
    ((handle env token 1000 (disable 2) users).1 ≡ users)
    ⊎ ((op : User) × (current_user env token 1000 users ≡ some op) × (op.role ≡ admin))
handle_authorized_example = handle_authorized env token 1000 (disable 2) users

handle_all-IsTable_example : IsTable (
    handle_all env
      ((token, 1000, create 9 3 (codes "bob") (codes "password") none viewer)
        ∷ (token, 1001, disable 2)
        ∷ [])
      users)
handle_all-IsTable_example =
    handle_all-IsTable env
      ((token, 1000, create 9 3 (codes "bob") (codes "password") none viewer)
        ∷ (token, 1001, disable 2)
        ∷ [])
      users users-IsTable

handle_keeps_operator_example :
    (op' : User) × (current_user env token 1000
        (handle env token 1000 (update 1 none viewer active) users).1
      ≡ some op')
    × (op'.id ≡ 1)
handle_keeps_operator_example =
    handle_keeps_operator env token 1000 (update 1 none viewer active) users
      (account 1 (codes "root") admin) root_known

bob_created :
    create_user env 9 3 (codes "bob") (codes "password") none viewer users
    ≡ created (account 9 (codes "bob") viewer) (users ++ account 9 (codes "bob") viewer ∷ [])
unfolding create_user
bob_created = refl

authenticate-create_user_example :
    authenticate_user env
      (codes "bob")
      (codes "password")
      (users ++ account 9 (codes "bob") viewer ∷ [])
    ≡ some (account 9 (codes "bob") viewer)
authenticate-create_user_example =
    authenticate-create_user env 9 3 (codes "bob") (codes "password") none viewer users
      (users ++ account 9 (codes "bob") viewer ∷ []) (account 9 (codes "bob") viewer) bob_created

abbrev eve : User
eve = record (account 2 (codes "eve") viewer) { password_hash = 5 ∷ codes "new-password" }

eve_reset : (reset_user_password env 2 (codes "new-password") 5 users).0 ≡ some (some eve)
unfolding reset_user_password
eve_reset = refl

abbrev request : LoginRequest
request = record {
  username = codes "root";
  password = codes "password";
  captcha_token = some (
      create_captcha_challenge toy_crypto (codes "000042") (codes "ab") (codes "dev-secret-key") 4);
  captcha_code = some (codes "000042");
}

abbrev session : LoginResponse
session = record {
  access_token = token;
  user_id = 1 ∷ [];
  username = codes "root";
  display_name = none;
  role = admin;
}

root_logs_in : login env request 5 users ≡ answer session
unfolding login create_access_token verify_captcha decode encode create_captcha_challenge
    verify_password checkpw lifetime
root_logs_in = refl

login_opens_session_example :
    (user : User) × (captcha_passes env request 5 ≡ true)
    × (user.username ≡ codes "root")
    × (is_active user ≡ true)
    × (verify_password toy_crypto (codes "password") user.password_hash ≡ true)
    × (◌≡◌ {A = Text} (1 ∷ []) (user.id ∷ []))
    × (current_user env token 1000 users ≡ some user)
login_opens_session_example =
    login_opens_session env request 5 1000 users session users-IsTable root_logs_in (omega arith)
