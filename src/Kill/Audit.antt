-- ===== src/Kill/Audit.antt =====
-- What a kill leaves in the table of audits.
use sql_monitor.Base.{
  ◌≡◌, ◌⊎◌, some, [], ◌∷◌, ◌++◌, nat_eq, string_eq, pair_eq, ℤ, int_eq, Text, list_eq,
}
use sql_monitor.Auth.{Uuid}
use sql_monitor.Users.{User, Response, answer, http_error}
use sql_monitor.Kill.{rejected, KillState, KillResponse, KillAudit}
use sql_monitor.Kill.Route.{KillRequest}

-- an audit that tells of the operator, the target and the reason
pub record Tells (operator : User) (server : Uuid) (session : ℤ) (why : Text) (a : KillAudit)
    : Type 0 where
  pub operator_user_id : a.operator_user_id ≡ some operator.id
  pub instance_id : a.instance_id ≡ server
  pub session_id : a.session_id ≡ session
  pub reason : a.reason ≡ why

-- an audit that tells what a response says
pub record Agrees (r : KillResponse) (a : KillAudit) : Type 0 where
  pub id : a.id ≡ r.audit_id
  pub result : a.result ≡ r.result
  pub error_message : a.error_message ≡ r.error_message

-- One audit has been added, which tells of the request and its operator: either the target was not
-- found, or the answer agrees with the audit.
abbrev pub Outcome :
    User → KillRequest → KillState → Response KillResponse × KillState → KillAudit → Type 0
Outcome operator request s (response, s') a =
    (s'.audits ≡ s.audits ++ a ∷ [])
    × Tells operator request.instance_id request.session_id request.reason a
    × (((response ≡ http_error 404) × (a.result ≡ rejected) × (s'.calls ≡ s.calls))
        ⊎ ((r : KillResponse) × (response ≡ answer r) × Agrees r a))
