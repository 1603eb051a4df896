-- ===== src/Views.antt =====
-- The routes that only read: backend/app/api/routes/dashboard.py, sessions.py, sqls.py, blocking.py,
-- replay.py and audits.py. A request is read by a token and its route; the query's bounds stand in
-- the routes. The tables and the audits are those that the services read.
pub mod Guarded
mod Tests
use sql_monitor.Base.{
  ℕ, Bool, true, not, ◌&&◌, Option, none, some, List, leb, if◌then◌else◌, nat_eq, string_eq,
  pair_eq, ℤ, int_eq, Text, list_eq,
}
use sql_monitor.Auth.{Uuid, Time}
use sql_monitor.Users.{Role, User, Env, Response, answer, http_error, current_user}
use sql_monitor.Snapshots.{Tables, FrameRef}
use sql_monitor.Snapshots.Repository.{get_latest_frame}
use sql_monitor.Sessions.{
  SessionQuery, SortOrder, SessionListItem, SessionListOut, list_sessions, get_session_detail,
}
use sql_monitor.Sqls.{SqlSortBy, SqlListItem, SqlListOut, list_sqls, get_sql_detail}
use sql_monitor.Blocking.{BlockingOut, get_blocking_chains}
use sql_monitor.Dashboard.{DashboardOut, get_dashboard}
use sql_monitor.Replay.{ReplayFrameOut, get_replay_frame}
use sql_monitor.Kill.{KillAudit, KillState, list_kill_audits}
use sql_monitor.Kill.Route.{may_kill}

pub data ViewRequest : Type 0 where
  get_dashboard_route : (instance_id : Uuid) (metrics_window_minutes : ℕ) → ViewRequest
  get_sessions_route :
      (instance_id : Uuid) (query : SessionQuery) (page page_size : ℕ) → ViewRequest
  get_session_route : (session_id : ℤ) (instance_id : Uuid) → ViewRequest
  get_sqls_route :
      (instance_id : Uuid) (page page_size : ℕ) (sort_by : SqlSortBy) (sort_order : SortOrder)
      → ViewRequest
  get_sql_route : (sql_hash : Text) (instance_id : Uuid) → ViewRequest
  get_blocking_route : (instance_id : Uuid) → ViewRequest
  get_replay_route : (instance_id : Uuid) (requested_time : Time) → ViewRequest
  get_kill_audits : (limit : ℕ) → ViewRequest

pub data View : Type 0 where
  dashboard : DashboardOut → View
  session_list : SessionListOut → View
  session_detail : SessionListItem → View
  sql_list : SqlListOut → View
  sql_detail : SqlListItem → View
  blocking : BlockingOut → View
  replay : ReplayFrameOut → View
  kill_audits : List KillAudit → View

-- `Query(ge=..., le=...)`
abbrev pub within : ℕ → ℕ → ℕ → Bool
within low high n = leb low n && leb n high

-- the bounds of the query's parameters
unfoldable pub is_valid_view : ViewRequest → Bool
is_valid_view (get_dashboard_route i minutes) = within 1 1440 minutes
is_valid_view (get_sessions_route i query page page_size) = leb 1 page && within 1 1000 page_size
is_valid_view (get_sqls_route i page page_size sort_by sort_order) =
    leb 1 page && within 1 1000 page_size
is_valid_view (get_kill_audits limit) = within 1 500 limit
is_valid_view _ = true

-- `require_roles(["dba", "admin"])` for the audits; the other routes take any account
abbrev pub may_view : ViewRequest → Role → Bool
may_view (get_kill_audits limit) role = may_kill role
may_view _ role = true

-- a result, or an error with a status code
abbrev pub or_error {ℓ} : {A : Type ℓ} → ℕ → (A → View) → Option A → Response View
or_error code view none = http_error code
or_error code view (some a) = answer (view a)

-- a detail of the latest frame, which must be there
abbrev pub of_latest {ℓ} :
    {A : Type ℓ} → Option FrameRef → (A → View) → (FrameRef → Option A) → Response View
of_latest none view detail = http_error 409
of_latest (some ref) view detail = or_error 404 view (detail ref)

-- `get_dashboard_route`
unfoldable pub view_dashboard : Tables → Time → Uuid → ℕ → Response View
unfolding get_dashboard
view_dashboard t now i minutes = or_error 409 dashboard (get_dashboard t i none 5 minutes now)

-- `get_sessions_route`
unfoldable pub view_sessions : Tables → Time → Uuid → SessionQuery → ℕ → ℕ → Response View
unfolding list_sessions
view_sessions t now i query page page_size =
    or_error 409 session_list (list_sessions t i query page page_size none now)

-- `get_session_route`
unfoldable pub view_session : Tables → ℤ → Uuid → Response View
unfolding get_latest_frame get_session_detail
view_session t session_id i =
    of_latest (get_latest_frame t i) session_detail
      (λ ref. get_session_detail t i session_id (some ref))

-- `get_sqls_route`
unfoldable pub view_sqls : Tables → Time → Uuid → ℕ → ℕ → SqlSortBy → SortOrder → Response View
unfolding list_sqls
view_sqls t now i page page_size sort_by sort_order =
    or_error 409 sql_list (list_sqls t i page page_size sort_by sort_order none now)

-- `get_sql_route`
unfoldable pub view_sql : Tables → Text → Uuid → Response View
unfolding get_latest_frame get_sql_detail
view_sql t sql_hash i =
    of_latest (get_latest_frame t i) sql_detail (λ ref. get_sql_detail t i sql_hash (some ref))

-- `get_blocking_route`
unfoldable pub view_blocking : Tables → Time → Uuid → Response View
unfolding get_blocking_chains
view_blocking t now i = or_error 409 blocking (get_blocking_chains t i none now)

-- `get_replay_route`
unfoldable pub view_replay : Tables → Time → Uuid → Time → Response View
unfolding get_replay_frame
view_replay t now i requested_time =
    or_error 409 replay (get_replay_frame t i requested_time 10 now)

-- `get_kill_audits`
unfoldable pub view_kill_audits : KillState → ℕ → Response View
unfolding list_kill_audits
view_kill_audits s limit = answer (kill_audits (list_kill_audits s limit))

-- the router
unfoldable pub run_view : Tables → KillState → Time → ViewRequest → Response View
unfolding view_dashboard view_sessions view_session view_sqls view_sql view_blocking view_replay
    view_kill_audits
run_view t s now (get_dashboard_route i minutes) = view_dashboard t now i minutes
run_view t s now (get_sessions_route i query page page_size) =
    view_sessions t now i query page page_size
run_view t s now (get_session_route session_id i) = view_session t session_id i
run_view t s now (get_sqls_route i page page_size sort_by sort_order) =
    view_sqls t now i page page_size sort_by sort_order
run_view t s now (get_sql_route sql_hash i) = view_sql t sql_hash i
run_view t s now (get_blocking_route i) = view_blocking t now i
run_view t s now (get_replay_route i requested_time) = view_replay t now i requested_time
run_view t s now (get_kill_audits limit) = view_kill_audits s limit

-- the token and the role, the bounds of the query, and the route
unfoldable pub handle_view :
    Env → List User → Tables → KillState → Text → Time → ViewRequest → Response View
unfolding current_user run_view is_valid_view
handle_view env users t s token now request = elim (current_user env token now users) [
  | none ↦ http_error 401
  | some user ↦
      if not (may_view request user.role)
      then http_error 403
      else if not (is_valid_view request)
      then http_error 422
      else run_view t s now request
]
