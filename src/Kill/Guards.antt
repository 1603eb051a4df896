-- ===== src/Kill/Guards.antt =====
-- What the guards of a kill admit.
use sql_monitor.Base.{
  ◌≤◌, String, ◌≡◌, refl, sym, ap, ◌∙◌, ◌≢◌, ◌↔◌, ◌⊎◌, inl, inr, true, false, false≢true, Option,
  none, some, [], ◌∷◌, ◌++◌, arith, ◌==◌, nat_eq, string_eq, pair_eq, Option-cases, length,
  contains, ℤ, int_eq, leb_ℤ, ◌≤ℤ◌, Text, codes, list_beq_iff, list_eq, Unicode, starts_with,
  is_infix, strip,
}
use sql_monitor.Auth.{Uuid}
use sql_monitor.Users.{User, Env}
use sql_monitor.Kill.{
  KillTarget, success, rejected, KillState, Executed, returned, raised, kill_rejected, KillExecutor,
  any_part, terminal_status_parts, platform_login_names, login_of, status_of, validate_kill_target,
  attempt, on_executed, kill_session, response_to, write_kill_audit,
}

starts_with-append : (p rest : Text) → starts_with p (p ++ rest) ≡ true
starts_with-append [] rest = refl
starts_with-append (c ∷ p) rest = ground (arith, starts_with-append p rest)

is_infix-append : (before p after : Text) → is_infix p (before ++ (p ++ after)) ≡ true
is_infix-append [] [] [] = refl
is_infix-append [] [] (d ∷ after) = refl
is_infix-append [] (c ∷ p) after = ground (arith, starts_with-append p after)
is_infix-append (b ∷ before) p after = ground (arith, is_infix-append before p after)

-- no part of the text is `part`
abbrev pub Lacks : Text → Text → Type 0
Lacks part status = (before after : Text) → status ≢ before ++ (part ++ after)

not_infix : (part status : Text) → is_infix part status ≡ false → Lacks part status
not_infix part status h before after e =
    false≢true (sym h ∙ (ap (is_infix part) e ∙ is_infix-append before part after))

-- What may be killed, and with which reason.
pub record IsKillable (u : Unicode) (target : KillTarget) (reason : Text) (min_id : ℤ)
    : Type 0 where
  pub reason_long : 10 ≤ length (strip u reason)
  pub user_session : target.session_id ≤ℤ min_id → ⊥
  pub not_collector : login_of u target ≢ codes "sqlmon_collect"
  pub not_killer : login_of u target ≢ codes "sqlmon_kill"
  pub not_killed : Lacks (codes "KILLED") (status_of u target)
  pub not_rolling_back : Lacks (codes "ROLLBACK") (status_of u target)

not_equal : (a b : Text) → (a == b) ≡ false → a ≢ b
not_equal a b h e = false≢true (sym h ∙ (list_beq_iff a b).1 e)

validated-IsKillable :
    (u : Unicode) (target : KillTarget) (reason : Text) (min_id : ℤ)
    → validate_kill_target u target reason min_id ≡ none
    → IsKillable u target reason min_id
unfolding validate_kill_target
validated-IsKillable u target reason min_id h =
    let long : 10 ≤ length (strip u reason) = ground arith in
    let above : leb_ℤ target.session_id min_id ≡ false = ground arith in
    let logins : contains (login_of u target) platform_login_names ≡ false = ground arith in
    let parts : any_part terminal_status_parts (status_of u target) ≡ false = ground arith in
    record {
      reason_long = long;
      user_session = λ le. ground arith;
      not_collector = not_equal (login_of u target) (codes "sqlmon_collect") (ground arith);
      not_killer = not_equal (login_of u target) (codes "sqlmon_kill") (ground arith);
      not_killed = not_infix (codes "KILLED") (status_of u target) (ground arith);
      not_rolling_back = not_infix (codes "ROLLBACK") (status_of u target) (ground arith);
    }

-- A kill calls the executor at most once, on the target, and only for a target and a reason that
-- are admissible: the reason has ten characters or more without the spaces around it, the
-- session's id is above the system's, the login, stripped and in lower case, is neither of the
-- platform's, and the status in upper case contains neither KILLED nor ROLLBACK. Where it does
-- not call the executor, it answers that the kill was rejected.
pub kill_session-IsKillable :
    (env : Env) (audit_id : Uuid) (target : KillTarget) (reason : Text) (operator : User)
    (executor : KillExecutor) (min_id : ℤ) (s : KillState)
    → (((kill_session env audit_id target reason operator executor min_id s).1.calls ≡ s.calls)
        × ((kill_session env audit_id target reason operator executor min_id s).0.result
            ≡ rejected))
      ⊎ (((kill_session env audit_id target reason operator executor min_id s).1.calls
            ≡ s.calls ++ (target.instance_id, target.session_id) ∷ [])
          × IsKillable env.unicode target reason min_id)
unfolding kill_session attempt response_to write_kill_audit
kill_session-IsKillable env audit_id target reason operator executor min_id s =
    elim (Option-cases (validate_kill_target env.unicode target reason min_id)) [
      | inl ok ↦ inr (rw ok refl, validated-IsKillable env.unicode target reason min_id ok)
      | inr (code, bad) ↦ inl (rw bad (refl, refl))
    ]

on_executed_success : (e : Executed) → (on_executed e).0 ≡ success → e ≡ returned
unfolding on_executed
on_executed_success returned h = refl
on_executed_success raised h = cc h
on_executed_success (kill_rejected code) h = cc h

attempt_succeeds :
    (executor : KillExecutor) (target : KillTarget) (v : Option String) (s : KillState)
    → ((attempt executor target v s).0 ≡ success)
      ↔ ((v ≡ none) × (executor target.instance_id target.session_id ≡ returned))
unfolding attempt on_executed
attempt_succeeds executor target (some code) s = (λ h. cc h, λ h. cc (h.0))
attempt_succeeds executor target none s = (
  λ h. (refl, on_executed_success (executor target.instance_id target.session_id) h),
  λ h. ap (λ e. (on_executed e).0) h.1,
)

-- A kill answers with success exactly if the target passes the guards and the executor, called on
-- it, returns.
pub kill_session_succeeds :
    (env : Env) (audit_id : Uuid) (target : KillTarget) (reason : Text) (operator : User)
    (executor : KillExecutor) (min_id : ℤ) (s : KillState)
    → ((kill_session env audit_id target reason operator executor min_id s).0.result ≡ success) ↔ (
        (validate_kill_target env.unicode target reason min_id ≡ none)
        × (executor target.instance_id target.session_id ≡ returned))
unfolding kill_session response_to
kill_session_succeeds env audit_id target reason operator executor min_id s =
    attempt_succeeds executor target (validate_kill_target env.unicode target reason min_id) s
