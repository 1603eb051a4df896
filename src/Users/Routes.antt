-- ===== src/Users/Routes.antt =====
-- backend/app/api/routes/users.py: the requests of an administrator, with their guards.
use sql_monitor.Base.{
  ℕ, Bool, true, not, ◌&&◌, Option, none, some, List, [], ◌∷◌, leb, if◌then◌else◌, ◌==◌, nat_eq,
  string_eq, pair_eq, length, int_eq, Text, list_eq, sort,
}
use sql_monitor.Auth.{Uuid, Time}
use sql_monitor.Users.{
  Role, UserStatus, User, is_admin, is_disabled, Response, answer, http_error, uncaught, Env,
  Created, created, integrity_error, value_error, create_user, update_user, disable_user,
  reset_user_password, current_user,
}

-- The requests of the users router, with what is drawn while they are served.
pub data UserRequest : Type 0 where
  list_users : UserRequest
  create : Uuid → ℕ → Text → Text → Option Text → Role → UserRequest
  update : Uuid → Option Text → Role → UserStatus → UserRequest
  disable : Uuid → UserRequest
  reset_password : Uuid → Text → ℕ → UserRequest

abbrev pub within : ℕ → ℕ → Text → Bool
within lo hi s = leb lo (length s) && leb (length s) hi

abbrev fits : Option Text → Bool
fits none = true
fits (some s) = leb (length s) 128

-- the `Field` bounds of `UserCreate`, `UserUpdate` and `UserPasswordReset`
unfoldable pub is_valid : UserRequest → Bool
is_valid list_users = true
is_valid (create id salt username password display_name role) =
    within 1 128 username && within 8 256 password && fits display_name
is_valid (update id display_name role status) = fits display_name
is_valid (disable id) = true
is_valid (reset_password id password salt) = within 8 256 password

module _ (env : Env) where
  -- a changed row, or 404
  unfoldable pub or_not_found : Option User × List User → Response (List User) × List User
  or_not_found (none, users) = (http_error 404, users)
  or_not_found (some user, users) = (answer (user ∷ []), users)

  unfoldable pub on_created : List User → Created → Response (List User) × List User
  on_created users (created user users') = (answer (user ∷ []), users')
  on_created users integrity_error = (http_error 409, users)
  on_created users value_error = (uncaught, users)

  unfoldable pub on_reset : Option (Option User) × List User → Response (List User) × List User
  unfolding or_not_found
  on_reset (none, users) = (uncaught, users)
  on_reset (some found, users) = or_not_found (found, users)

  -- The bodies of the five routes; `current` is the operator.
  unfoldable pub run_request : User → UserRequest → List User → Response (List User) × List User
  unfolding sort create_user update_user disable_user reset_user_password on_created on_reset
  run_request current list_users users =
      (answer (sort (λ (a b : User). env.collate a.username b.username) users), users)
  run_request current (create id salt username password display_name role) users =
      on_created users (create_user env id salt username password display_name role users)
  run_request current (update user_id display_name role status) users =
      if user_id == current.id && is_disabled status
      then (http_error 400, users)
      else or_not_found (update_user env user_id display_name role status users)
  run_request current (disable user_id) users =
      if user_id == current.id
      then (http_error 400, users)
      else or_not_found (disable_user env user_id current.id users)
  run_request current (reset_password user_id password salt) users =
      on_reset (reset_user_password env user_id password salt users)

  -- `Depends(require_roles(["admin"]))` and the validation of the body, then the route
  unfoldable pub handle : Text → Time → UserRequest → List User → Response (List User) × List User
  unfolding current_user run_request is_valid
  handle token now request users = elim (current_user env token now users) [
    | none ↦ (http_error 401, users)
    | some current ↦
        if not (is_admin current.role)
        then (http_error 403, users)
        else if not (is_valid request)
        then (http_error 422, users)
        else run_request current request users
  ]

  -- requests one after another, each with its token and time
  unfoldable pub handle_all : List (Text × Time × UserRequest) → List User → List User
  unfolding handle
  handle_all [] users = users
  handle_all ((token, now, request) ∷ rest) users =
      handle_all rest (handle token now request users).1
