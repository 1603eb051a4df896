-- ===== src/Kill.antt =====
-- backend/app/services/kill_service.py, schemas/kill.py and api/routes/kill.py: killing a session of
-- a monitored server, with an audit. The executor is a parameter, as the service takes it; what is
-- done is recorded in the log of its calls and in the table of audits, whose column `created_at` the
-- database fills in and is left out.
pub mod Target
pub mod Audit
pub mod Guards
pub mod Route
mod Tests
use sql_monitor.Base.{
  ℕ, String, Bool, false, ◌||◌, Option, none, some, List, [], ◌∷◌, ◌++◌, reverse, ltb,
  if◌then◌else◌, nat_eq, string_eq, pair_eq, or_else, length, take, contains, ℤ, pos, int_eq, leb_ℤ,
  Text, codes, list_eq, Unicode, is_infix, strip, text_or, Dict,
}
use sql_monitor.Auth.{Uuid, Time}
use sql_monitor.Users.{
  Role, developer, dba, admin, viewer, User, Env, Response, answer, http_error, current_user,
}
use sql_monitor.Snapshots.{BlockingSnapshot, Tables, FrameRef}
use sql_monitor.Snapshots.Repository as Repo
use sql_monitor.Sessions.{SessionListItem, get_session_detail}

pub record KillTarget : Type 0 where
  pub instance_id : Uuid
  pub session_id : ℤ
  pub login_name : Option Text
  pub status : Option Text
  pub open_transaction_count : ℕ
  pub blocking_impact_count : ℕ
  pub host_name : Option Text
  pub program_name : Option Text
  pub database_name : Option Text
  pub current_sql_hash : Option Text
  pub current_sql_preview : Option Text
  pub wait_type : Option Text
  pub wait_time_ms : Option ℕ
  pub cpu_time : Option ℕ
  pub reads : Option ℕ
  pub writes : Option ℕ
  pub logical_reads : Option ℕ

-- a value of the JSON object that an audit keeps
pub data Json : Type 0 where
  null : Json
  int : ℤ → Json
  str : Text → Json

abbrev json_text : Option Text → Json
json_text none = null
json_text (some s) = str s

abbrev json_nat : Option ℕ → Json
json_nat none = null
json_nat (some n) = int (pos n)

-- the keys of `before_snapshot`, in their order
unfoldable pub before_snapshot : KillTarget → Dict String Json
before_snapshot t =
    ("session_id", int t.session_id)
    ∷ ("login_name", json_text t.login_name)
    ∷ ("status", json_text t.status)
    ∷ ("open_transaction_count", int (pos t.open_transaction_count))
    ∷ ("blocking_impact_count", int (pos t.blocking_impact_count))
    ∷ ("host_name", json_text t.host_name)
    ∷ ("program_name", json_text t.program_name)
    ∷ ("database_name", json_text t.database_name)
    ∷ ("current_sql_hash", json_text t.current_sql_hash)
    ∷ ("current_sql_preview", json_text t.current_sql_preview)
    ∷ ("wait_type", json_text t.wait_type)
    ∷ ("wait_time_ms", json_nat t.wait_time_ms)
    ∷ ("cpu_time", json_nat t.cpu_time)
    ∷ ("reads", json_nat t.reads)
    ∷ ("writes", json_nat t.writes)
    ∷ ("logical_reads", json_nat t.logical_reads)
    ∷ []

pub data KillResult : Type 0 where
  success failed rejected : KillResult

pub record KillAudit : Type 0 where
  pub id : Uuid
  pub operator_user_id : Option Uuid
  pub operator_name : Text
  pub instance_id : Uuid
  pub session_id : ℤ
  pub reason : Text
  pub before_snapshot : Dict String Json
  pub result : KillResult
  pub error_message : Option String

pub record KillResponse : Type 0 where
  pub audit_id : Uuid
  pub instance_id : Uuid
  pub session_id : ℤ
  pub result : KillResult
  pub error_message : Option String

-- what a kill changes: the table of audits, and the calls that the executor has got
pub record KillState : Type 0 where
  pub audits : List KillAudit
  pub calls : List (Uuid × ℤ)

-- how a call of `KillExecutor.kill` ends: it returns, or raises a `KillRejectedError`, or another exception
pub data Executed : Type 0 where
  returned raised : Executed
  kill_rejected : String → Executed

abbrev pub KillExecutor : Type 0
KillExecutor = Uuid → ℤ → Executed

-- `NoopKillExecutor`
unfoldable pub noop_kill_executor : KillExecutor
noop_kill_executor instance_id session_id = returned

abbrev pub min_reason_length : ℕ
min_reason_length = 10

abbrev pub platform_login_names : List Text
platform_login_names = codes "sqlmon_collect" ∷ codes "sqlmon_kill" ∷ []

abbrev pub terminal_status_parts : List Text
terminal_status_parts = codes "KILLED" ∷ codes "ROLLBACK" ∷ []

abbrev pub safe_execution_error_message : String
safe_execution_error_message = "KILL_EXECUTION_FAILED"

-- `any(part in status for part in parts)`
abbrev pub any_part : List Text → Text → Bool
any_part [] status = false
any_part (part ∷ parts) status = is_infix part status || any_part parts status

-- `(target.login_name or "").strip().lower()` and `(target.status or "").upper()`
abbrev pub login_of : Unicode → KillTarget → Text
login_of u target = u.lower (strip u (or_else target.login_name []))

abbrev pub status_of : Unicode → KillTarget → Text
status_of u target = u.upper (or_else target.status [])

-- The code of the `KillRejectedError` that is raised, if one is.
unfoldable pub validate_kill_target : Unicode → KillTarget → Text → ℤ → Option String
validate_kill_target u target reason min_killable_session_id =
    if ltb (length (strip u reason)) min_reason_length
    then some "REASON_TOO_SHORT"
    else if leb_ℤ target.session_id min_killable_session_id
    then some "SYSTEM_SESSION"
    else if contains (login_of u target) platform_login_names
    then some "PLATFORM_ACCOUNT"
    else if any_part terminal_status_parts (status_of u target)
    then some "SESSION_TERMINATING"
    else none

-- `_operator_name` of a user: the username, or the display name, or the id
unfoldable pub operator_name : Env → User → Text
operator_name env operator =
    text_or operator.username
      (text_or (or_else operator.display_name []) (env.uuid_str operator.id))

-- `write_kill_audit`, whose `uuid.uuid4()` is an argument
unfoldable pub write_kill_audit : KillAudit → KillState → KillState
write_kill_audit audit s = record s { audits = s.audits ++ audit ∷ [] }

-- The result and message after the executor was called
unfoldable pub on_executed : Executed → KillResult × Option String
on_executed returned = (success, none)
on_executed (kill_rejected code) = (rejected, some code)
on_executed raised = (failed, some safe_execution_error_message)

-- the `try` of `kill_session`: a rejection comes before the executor's call
unfoldable pub attempt :
    KillExecutor → KillTarget → Option String → KillState → KillResult × Option String × KillState
unfolding on_executed
attempt executor target (some code) s = (rejected, some code, s)
attempt executor target none s =
    let (result, message) = on_executed (executor target.instance_id target.session_id) in
    (result, message, record s { calls = s.calls ++ (target.instance_id, target.session_id) ∷ [] })

module _ (env : Env) where
  unfoldable pub audit_of : Uuid → User → KillTarget → Text → KillResult → Option String → KillAudit
  unfolding operator_name before_snapshot
  audit_of audit_id operator target reason result message = record {
    id = audit_id;
    operator_user_id = some operator.id;
    operator_name = operator_name env operator;
    instance_id = target.instance_id;
    session_id = target.session_id;
    reason = reason;
    before_snapshot = before_snapshot target;
    result = result;
    error_message = message;
  }

  unfoldable pub response_to : Uuid → KillTarget → KillResult → Option String → KillResponse
  response_to audit_id target result message = record {
    audit_id = audit_id;
    instance_id = target.instance_id;
    session_id = target.session_id;
    result = result;
    error_message = message;
  }

  unfoldable pub kill_session :
      Uuid → KillTarget → Text → User → KillExecutor → ℤ → KillState → KillResponse × KillState
  unfolding validate_kill_target attempt write_kill_audit audit_of response_to
  kill_session audit_id target reason operator executor min_id s =
      let (result, message, s') =
        attempt executor target (validate_kill_target env.unicode target reason min_id) s in
      (
        response_to audit_id target result message,
        write_kill_audit (audit_of audit_id operator target reason result message) s',
      )

  unfoldable pub unknown_target : Uuid → ℤ → KillTarget
  unknown_target instance_id session_id = record {
    instance_id = instance_id;
    session_id = session_id;
    login_name = none;
    status = none;
    open_transaction_count = 0;
    blocking_impact_count = 0;
    host_name = none;
    program_name = none;
    database_name = none;
    current_sql_hash = none;
    current_sql_preview = none;
    wait_type = none;
    wait_time_ms = none;
    cpu_time = none;
    reads = none;
    writes = none;
    logical_reads = none;
  }

  unfoldable pub audit_rejected_kill_request :
      Uuid → Uuid → ℤ → Text → User → String → KillState → KillResponse × KillState
  unfolding write_kill_audit audit_of response_to unknown_target
  audit_rejected_kill_request audit_id instance_id session_id reason operator error_message s =
      let target = unknown_target instance_id session_id in
      (
        response_to audit_id target rejected (some error_message),
        write_kill_audit (audit_of audit_id operator target reason rejected (some error_message)) s,
      )

-- `order_by(created_at.desc()).limit(limit)`: the audits are written in the order of their time.
unfoldable pub list_kill_audits : KillState → ℕ → List KillAudit
list_kill_audits s limit = take limit (reverse s.audits)
