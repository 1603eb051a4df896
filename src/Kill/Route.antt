-- ===== src/Kill/Route.antt =====
-- The route of a kill, backend/app/api/routes/kill.py.
use sql_monitor.Base.{
  Bool, true, false, not, ◌&&◌, none, some, List, leb, if◌then◌else◌, nat_eq, string_eq, pair_eq,
  length, contains, ℤ, pos, int_eq, leb_ℤ, Text, list_eq,
}
use sql_monitor.Auth.{Uuid, Time}
use sql_monitor.Users.{
  Role, developer, dba, admin, viewer, User, Env, Response, answer, http_error, current_user,
}
use sql_monitor.Snapshots.{Tables}
use sql_monitor.Kill.{
  KillResponse, KillState, kill_session, audit_rejected_kill_request, noop_kill_executor,
}
use sql_monitor.Kill.Target.{build_kill_target}

pub record KillRequest : Type 0 where
  pub instance_id : Uuid
  pub session_id : ℤ
  pub reason : Text

-- the `Field` bounds of `KillRequest`
unfoldable pub is_valid_request : KillRequest → Bool
is_valid_request r = leb_ℤ (pos 1) r.session_id && leb 1 (length r.reason)

-- `require_roles(["dba", "admin"])`
abbrev pub may_kill : Role → Bool
may_kill dba = true
may_kill admin = true
may_kill viewer = false
may_kill developer = false

module _ (env : Env) (min_killable_session_id : ℤ) where
  -- `instances` are the ids in the table of instances; `audit_id` is drawn.
  unfoldable pub post_kill :
      Tables → List Uuid → Uuid → KillRequest → User → KillState → Response KillResponse × KillState
  unfolding build_kill_target audit_rejected_kill_request kill_session noop_kill_executor
  post_kill t instances audit_id request user s =
      if not (contains request.instance_id instances)
      then (http_error 404, s)
      else elim (build_kill_target t request.instance_id request.session_id) [
        | none ↦ (
          http_error 404,
          (audit_rejected_kill_request env audit_id request.instance_id request.session_id
              request.reason user "SESSION_NOT_FOUND" s).1,
        )
        | some target ↦
            let (response, s') =
              kill_session env audit_id target request.reason user noop_kill_executor
                min_killable_session_id s in
            (answer response, s')
      ]

  -- the token and the roles, the validation of the body, and the route
  unfoldable pub handle_kill :
      Tables
      → List Uuid
      → List User
      → Text
      → Time
      → Uuid
      → KillRequest
      → KillState
      → Response KillResponse × KillState
  unfolding current_user post_kill is_valid_request
  handle_kill t instances users token now audit_id request s =
      elim (current_user env token now users) [
        | none ↦ (http_error 401, s)
        | some user ↦
            if not (may_kill user.role)
            then (http_error 403, s)
            else if not (is_valid_request request)
            then (http_error 422, s)
            else post_kill t instances audit_id request user s
      ]
