-- ===== src/Indexes/Routes/Guarded.antt =====
-- What a request for indexes may have executed by a server, backend/app/api/routes/indexes.py with its
-- background tasks.
use sql_monitor.Base.{
  ◌≡◌, refl, sym, ap, ◌∙◌, subst, ◌⊎◌, inl, inr, true, none, some, List, [], ◌∷◌, ◌++◌, map, nat_eq,
  string_eq, pair_eq, Bool-cases, Option-cases, int_eq, Text, list_eq,
}
use sql_monitor.Auth.{Uuid, Time}
use sql_monitor.Users.{User, Env, Response, answer, current_user}
use sql_monitor.Instances.Records.{Instance}
use sql_monitor.Collector.IndexStore.{IndexTables}
use sql_monitor.Indexes.Audit.{
  MissingIndexAudit, IndexState, Accepted, accepted, lookup_error, value_error, name_conflict,
  get_audit, create_missing_index,
}
use sql_monitor.Indexes.Maintenance.{execute_fragmentation_action}
use sql_monitor.Indexes.Routes.{
  IndexRequest, IndexAnswer, Task, Sources, operated, run_index_request, handle_index, run_task,
  serve_index, missing_index_ddl_task, fragmentation_ddl_task, on_accepted, task_of, audit_response,
  may_change_indexes, may_ask_index, is_valid_index_request, get_index_audit_route,
  get_index_databases, get_missing_index_list, get_index_fragmentation_list, post_index,
  post_index_fragmentation_action,
}
use sql_monitor.Indexes.Routes.Added.{
  Adds, create-Adds, execute-Adds, get_audit-append, SendsFor, run_ddl-SendsFor,
}

-- What a request has executed: nothing, or one statement, which is that of the audit that it is
-- answered with.
abbrev pub Sends : IndexState → Response IndexAnswer × IndexState → Type 0
Sends s (r, s') =
    (s'.executed ≡ s.executed)
    ⊎ ((a : MissingIndexAudit) × (connection : Text) × (r ≡ answer (audit_response a))
        × (s'.executed ≡ s.executed ++ (connection, a.ddl_summary) ∷ []))

module _ (o : Sources) (instances : List Instance) (t : IndexTables) (id : Uuid) (user : User)
    (now : Time) (s : IndexState) (fresh : get_audit id s.audits ≡ none) where
  posted-Sends :
      (result : Accepted × IndexState) (task : Uuid → Task)
      → ((a : MissingIndexAudit) (s' : IndexState)
          → get_audit a.id s'.audits ≡ some a
          → SendsFor a s'.executed (run_task o instances t (task a.id) s').executed)
      → Adds id s result
      → Sends s (on_accepted result.0, run_task o instances t (task_of task result.0) result.1)
  unfolding run_task
  posted-Sends (accepted a, s') task sends (same, added) =
      let (own, rows) = added a refl in
      let found : get_audit a.id s'.audits ≡ some a =
        subst (λ xs. get_audit a.id xs ≡ some a) (sym rows)
          (subst (λ k. get_audit k (s.audits ++ a ∷ []) ≡ some a) (sym own)
            (get_audit-append id s.audits a fresh own)) in
      elim (sends a s' found) [
        | inl k ↦ inl (k ∙ same)
        | inr (connection, k) ↦
            inr (a, connection, refl, k ∙ ap (λ xs. xs ++ (connection, a.ddl_summary) ∷ []) same)
      ]
  posted-Sends (lookup_error, s') task sends (same, added) = inl same
  posted-Sends (value_error, s') task sends (same, added) = inl same
  posted-Sends (name_conflict, s') task sends (same, added) = inl same
  posted-Sends (Accepted.uncaught, s') task sends (same, added) = inl same

  run-Sends :
      (request : IndexRequest)
      → may_ask_index request user.role ≡ true
      → (may_change_indexes user.role ≡ true
          × Sends s (
              let r = run_index_request o instances t id user now request s in
              (r.0, run_task o instances t r.1.0 r.1.1)))
        ⊎ (let r = run_index_request o instances t id user now request s in
            (run_task o instances t r.1.0 r.1.1).executed ≡ s.executed)
  unfolding run_index_request run_task
  run-Sends (get_index_audit_route i) h = inr refl
  run-Sends (get_index_databases i) h = inr refl
  run-Sends (get_missing_index_list i d page page_size) h = inr refl
  run-Sends (get_index_fragmentation_list i d page page_size) h = inr refl
  run-Sends (post_index i d) h = inl (
    h,
    posted-Sends (create_missing_index o.server (map operated instances) id i d user s)
        missing_index_ddl_task
        (λ a s' found. run_ddl-SendsFor o.server _ _ (map operated instances) a.id s' a found)
        (create-Adds o.server id user s i d (map operated instances)),
  )
  run-Sends (post_index_fragmentation_action d) h = inl (
    h,
    posted-Sends (execute_fragmentation_action o.server (map operated instances) id d user s)
        fragmentation_ddl_task
        (λ a s' found. run_ddl-SendsFor o.server _ _ (map operated instances) a.id s' a found)
        (execute-Adds o.server id user s d (map operated instances)),
  )

-- A request of the index routes, with the task that it leaves, has no statement executed by
-- `client.execute`, beside the queries that only read, or exactly one: then its token is that of an account that may sign in, which is a DBA or an
-- administrator, its body is within the bounds, and the statement is the one of the audit that it is
-- answered with. The id drawn for an audit is a new one.
pub serve_index-IsGuarded :
    (o : Sources) (instances : List Instance) (t : IndexTables) (env : Env) (users : List User)
    (token : Text) (id : Uuid) (now : Time) (request : IndexRequest) (s : IndexState)
    → get_audit id s.audits ≡ none
    → ((serve_index o instances t env users token id now request s).1.executed ≡ s.executed)
      ⊎ ((user : User) × (a : MissingIndexAudit) × (connection : Text) × (current_user env token now
              users
            ≡ some user)
          × (may_change_indexes user.role ≡ true)
          × (is_valid_index_request request ≡ true)
          × ((serve_index o instances t env users token id now request s).0
              ≡ answer (audit_response a))
          × ((serve_index o instances t env users token id now request s).1.executed
              ≡ s.executed ++ (connection, a.ddl_summary) ∷ []))
unfolding serve_index handle_index run_task
serve_index-IsGuarded o instances t env users token id now request s fresh =
    elim (Option-cases (current_user env token now users)) [
      | inl q ↦ rw (serve_index, handle_index, q) (inl refl)
      | inr (user, q) ↦ elim (Bool-cases (may_ask_index request user.role)) [
        | inr k ↦ rw (serve_index, handle_index, q, k) (inl refl)
        | inl k ↦ elim (Bool-cases (is_valid_index_request request)) [
          | inr l ↦ rw (serve_index, handle_index, q, k, l) (inl refl)
          | inl l ↦
              rw (serve_index, handle_index, q, k, l)
                (elim (run-Sends o instances t id user now s fresh request k) [
                  | inr m ↦ inl m
                  | inl (may, inl m) ↦ inl m
                  | inl (may, inr (a, connection, m, n)) ↦
                      inr (user, a, connection, refl, may, refl, m, n)
                ])
        ]
      ]
    ]
