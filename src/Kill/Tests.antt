-- ===== src/Kill/Tests.antt =====
-- Kills of the sessions of the sample frame.
use sql_monitor.Base.{
  ◌≡◌, refl, ◌⊎◌, none, some, [], ◌∷◌, nat_eq, string_eq, pair_eq, pos, int_eq, Text, codes,
  list_eq, ascii,
}
use sql_monitor.Auth.{decode_access_token}
use sql_monitor.Auth.Sample.{decode, encode}
use sql_monitor.Users.{User, admin, answer, http_error}
use sql_monitor.Users.Sample.{env, account, users, token}
use sql_monitor.Sessions.Sample.{tables}
use sql_monitor.Kill.{
  KillTarget, KillState, KillExecutor, returned, raised, success, failed, rejected, kill_session,
  unknown_target, validate_kill_target,
}
use sql_monitor.Kill.Guards.{IsKillable, kill_session-IsKillable}
use sql_monitor.Kill.Route.{KillRequest, handle_kill}

abbrev empty : KillState
empty = record { audits = []; calls = [] }

abbrev target : KillTarget
target = record (unknown_target env 7 (pos 60)) {
  login_name = some (codes "app");
  status = some (codes "running");
}

abbrev why : Text
why = codes "blocks the payroll"

abbrev root : User
root = account 1 (codes "root") admin

abbrev killer : KillExecutor
killer server session = returned

abbrev breaker : KillExecutor
breaker server session = raised

killed : (kill_session env 9 target why root killer (pos 50) empty).0 ≡ record {
  audit_id = 9;
  instance_id = 7;
  session_id = pos 60;
  result = success;
  error_message = none;
}
unfolding kill_session unknown_target
killed = refl

broken : (kill_session env 9 target why root breaker (pos 50) empty).0 ≡ record {
  audit_id = 9;
  instance_id = 7;
  session_id = pos 60;
  result = failed;
  error_message = some "KILL_EXECUTION_FAILED";
}
unfolding kill_session unknown_target
broken = refl

too_short :
    (kill_session env 9 target (codes "   because   ") root killer (pos 50) empty).0 ≡ record {
      audit_id = 9;
      instance_id = 7;
      session_id = pos 60;
      result = rejected;
      error_message = some "REASON_TOO_SHORT";
    }
unfolding kill_session unknown_target
too_short = refl

platform_spared :
    validate_kill_target ascii
      (record target { login_name = some (codes " SqlMon_Kill ") })
      why
      (pos 50)
    ≡ some "PLATFORM_ACCOUNT"
unfolding validate_kill_target unknown_target
platform_spared = refl

rollback_spared :
    validate_kill_target ascii
      (record target { status = some (codes "killed/rollback") })
      why
      (pos 50)
    ≡ some "SESSION_TERMINATING"
unfolding validate_kill_target unknown_target
rollback_spared = refl

kill_session-IsKillable_example :
    (((kill_session env 9 target why root killer (pos 50) empty).1.calls ≡ [])
      × ((kill_session env 9 target why root killer (pos 50) empty).0.result ≡ rejected))
    ⊎ (((kill_session env 9 target why root killer (pos 50) empty).1.calls ≡ (7, pos 60) ∷ [])
        × IsKillable ascii target why (pos 50))
unfolding unknown_target
kill_session-IsKillable_example =
    kill_session-IsKillable env 9 target why root killer (pos 50) empty

abbrev request : KillRequest
request = record { instance_id = 7; session_id = pos 60; reason = why }

answered :
    (handle_kill env (pos 50) tables (7 ∷ []) users token 1000 9 request empty).0
    ≡ answer (record {
      audit_id = 9;
      instance_id = 7;
      session_id = pos 60;
      result = success;
      error_message = none;
    })
unfolding handle_kill decode_access_token decode encode
answered = refl

not_found :
    (handle_kill env
      (pos 50)
      tables
      (7 ∷ [])
      users
      token
      1000
      9
      (record request { session_id = pos 99 })
      empty).0
    ≡ http_error 404
unfolding handle_kill decode_access_token decode encode
not_found = refl
