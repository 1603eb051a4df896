-- ===== src/Users/Login.antt =====
-- backend/app/api/routes/auth.py: the login.
use sql_monitor.Base.{
  Bool, true, false, not, ◌||◌, Option, none, some, List, [], ◌∷◌, if◌then◌else◌, nat_eq, string_eq,
  pair_eq, or_else, int_eq, Text, codes, list_eq,
}
use sql_monitor.Auth.{Time, text, create_access_token, verify_captcha}
use sql_monitor.Users.{
  Role, viewer, developer, dba, admin, User, Response, answer, http_error, uncaught, Env,
  authenticate_user,
}

pub record LoginRequest : Type 0 where
  pub username : Text
  pub password : Text
  pub captcha_token : Option Text
  pub captcha_code : Option Text

pub record LoginResponse : Type 0 where
  pub access_token : Text
  pub user_id : Text
  pub username : Text
  pub display_name : Option Text
  pub role : Role

unfoldable pub role_name : Role → Text
role_name viewer = codes "viewer"
role_name developer = codes "developer"
role_name dba = codes "dba"
role_name admin = codes "admin"

module _ (env : Env) where
  -- a text that is there and not empty
  abbrev pub given : Option Text → Bool
  given none = false
  given (some []) = false
  given (some (c ∷ s)) = true

  unfoldable pub captcha_passes : LoginRequest → Time → Bool
  unfolding verify_captcha
  captcha_passes request now =
      if not (given request.captcha_token) || not (given request.captcha_code)
      then false
      else verify_captcha env.unicode env.crypto (or_else request.captcha_token [])
          (or_else request.captcha_code []) env.secret_key now

  unfoldable pub open_session : Time → User → Response LoginResponse
  unfolding role_name
  open_session now user =
      elim (create_access_token env.crypto (env.uuid_str user.id) (role_name user.role)
        ((codes "username", text user.username) ∷ []) none env.secret_key now) [
          | none ↦ uncaught
          | some token ↦ answer (record {
            access_token = token;
            user_id = env.uuid_str user.id;
            username = user.username;
            display_name = user.display_name;
            role = user.role;
          })
        ]

  unfoldable pub login : LoginRequest → Time → List User → Response LoginResponse
  unfolding captcha_passes authenticate_user open_session
  login request now users =
      if not (captcha_passes request now)
      then http_error 400
      else elim (authenticate_user env request.username request.password users) [
        | none ↦ http_error 401
        | some user ↦ open_session now user
      ]
