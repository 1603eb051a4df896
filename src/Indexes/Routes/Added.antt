-- ===== src/Indexes/Routes/Added.antt =====
-- The audits that the requests of backend/app/services/index_service.py add, and the statements that
-- its background tasks execute.
use sql_monitor.Base.{
  String, ◌≡◌, refl, sym, ap, ◌⊎◌, inl, inr, Bool, ◌&&◌, Option, none, some, List, [], ◌∷◌, ◌++◌,
  arith, nat_eq, string_eq, pair_eq, beq_refl, Bool-cases, Option-cases, contains, int_eq, Text,
  list_eq,
}
use sql_monitor.Auth.{Uuid}
use sql_monitor.Users.{User}
use sql_monitor.Indexes.{
  CreateIndex, validate_identifier, build_create_index_sql, build_index_maintenance_sql,
}
use sql_monitor.Indexes.Audit as Audit
use sql_monitor.Indexes.Audit.{
  MissingIndexAudit, Server, IndexState, Accepted, accepted, lookup_error, value_error,
  name_conflict, get_audit, create_audit, add_audit, accept_create, check_names, with_connection,
  create_missing_index, get_instance, operation_connection_string, run_ddl, send_ddl, mark_finished,
}
use sql_monitor.Indexes.Maintenance.{
  FragmentationActionRequestData, fragmentation_audit, accept_action, build_action, online_used_of,
  execute_fragmentation_action,
}

-- A request executes nothing, and if it is accepted, it adds the audit of its id.
abbrev pub Adds : Uuid → IndexState → Accepted × IndexState → Type 0
Adds id s (r, s') =
    (s'.executed ≡ s.executed)
    × ((a : MissingIndexAudit) → r ≡ accepted a → (a.id ≡ id) × (s'.audits ≡ s.audits ++ a ∷ []))

abbrev id_of : Accepted → MissingIndexAudit → MissingIndexAudit
id_of (accepted a) b = a
id_of _ b = b

module _ (server : Server) (id : Uuid) (user : User) (s : IndexState) where
  module _ (i : Uuid) (d : CreateIndex) where
    accept_create-Adds : (ddl : Option Text) → Adds id s (accept_create server id i d user ddl s)
    unfolding accept_create add_audit create_audit
    accept_create-Adds none = (refl, λ a h. cc h)
    accept_create-Adds (some ddl) = (
      refl,
      λ a h.
          let q : id_of (accepted _) a ≡ id_of (accepted a) a = ap (λ r. id_of r a) h in
          (sym (ap (λ (b : MissingIndexAudit). b.id) q), ap (λ b. s.audits ++ b ∷ []) q),
    )

    check_names-Adds :
        (names : Option (List Text)) → Adds id s (check_names server id i d user names s)
    unfolding check_names add_audit
    check_names-Adds none = (refl, λ a h. cc h)
    check_names-Adds (some existing) = elim (Bool-cases (contains d.index_name existing)) [
      | inl k ↦ rw (check_names, k) (refl, λ a h. cc h)
      | inr k ↦ rw (check_names, k) (accept_create-Adds (build_create_index_sql d))
    ]

    with_connection-Adds :
        (connection : Option Text) → Adds id s (with_connection server id i d user connection s)
    unfolding with_connection
    with_connection-Adds none = (refl, λ a h. cc h)
    with_connection-Adds (some connection) =
        elim (Bool-cases (
          validate_identifier d.database_name
          && (validate_identifier d.schema_name && validate_identifier d.table_name))) [
            | inr k ↦ rw (with_connection, k) (refl, λ a h. cc h)
            | inl k ↦
                rw (with_connection, k)
                  (check_names-Adds (
                    server.existing_index_names connection d.database_name d.schema_name
                      d.table_name))
          ]

    pub create-Adds :
        (instances : List Audit.Instance)
        → Adds id s (create_missing_index server instances id i d user s)
    unfolding create_missing_index
    create-Adds instances = elim (Option-cases (get_instance i instances)) [
      | inl k ↦ rw (create_missing_index, k) (refl, λ a h. cc h)
      | inr (row, k) ↦
          rw (create_missing_index, k)
            (with_connection-Adds (operation_connection_string server row))
    ]

  module _ (d : FragmentationActionRequestData) where
    accept_action-Adds :
        (online_used : Bool) (ddl : Option Text)
        → Adds id s (accept_action server id d user online_used ddl s)
    unfolding accept_action add_audit fragmentation_audit
    accept_action-Adds online_used none = (refl, λ a h. cc h)
    accept_action-Adds online_used (some ddl) = (
      refl,
      λ a h.
          let q : id_of (accepted _) a ≡ id_of (accepted a) a = ap (λ r. id_of r a) h in
          (sym (ap (λ (b : MissingIndexAudit). b.id) q), ap (λ b. s.audits ++ b ∷ []) q),
    )

    build_action-Adds :
        (online_used : Option Bool) → Adds id s (build_action server id d user online_used s)
    unfolding build_action
    build_action-Adds none = (refl, λ a h. cc h)
    build_action-Adds (some online_used) = accept_action-Adds online_used (
        build_index_maintenance_sql d.database_name d.schema_name d.table_name d.index_name d.action
          online_used)

    pub execute-Adds :
        (instances : List Audit.Instance)
        → Adds id s (execute_fragmentation_action server instances id d user s)
    unfolding execute_fragmentation_action
    execute-Adds instances = elim (Option-cases (get_instance d.instance_id instances)) [
      | inl k ↦ rw (execute_fragmentation_action, k) (refl, λ a h. cc h)
      | inr (row, k) ↦ elim (Option-cases (operation_connection_string server row)) [
        | inl l ↦ rw (execute_fragmentation_action, k, l) (refl, λ a h. cc h)
        | inr (connection, l) ↦
            rw (execute_fragmentation_action, k, l)
              (build_action-Adds (online_used_of d.action (server.online_supported connection)))
      ]
    ]

pub get_audit-append :
    (id : Uuid) (audits : List MissingIndexAudit) (a : MissingIndexAudit)
    → get_audit id audits ≡ none
    → a.id ≡ id
    → get_audit id (audits ++ a ∷ []) ≡ some a
unfolding get_audit
get_audit-append id [] a h q = rw (q, beq_refl id) refl
get_audit-append id (b ∷ audits) a h q = ground (arith, h, get_audit-append id audits a, q)

-- The statements that were executed: as before, or one more, which is that of the audit.
abbrev pub SendsFor : MissingIndexAudit → List (Text × Text) → List (Text × Text) → Type 0
SendsFor a old new =
    (new ≡ old) ⊎ ((connection : Text) × (new ≡ old ++ (connection, a.ddl_summary) ∷ []))

pub run_ddl-SendsFor :
    (server : Server) (timeout_code failed_code : String) (instances : List Audit.Instance)
    (id : Uuid) (s : IndexState) (a : MissingIndexAudit)
    → get_audit id s.audits ≡ some a
    → SendsFor a s.executed (run_ddl server timeout_code failed_code instances id s).executed
unfolding run_ddl send_ddl mark_finished
run_ddl-SendsFor server timeout_code failed_code instances id s a found =
    elim (Option-cases (get_instance a.instance_id instances)) [
      | inl k ↦ rw (run_ddl, found, k) (inl refl)
      | inr (i, k) ↦ elim (Option-cases (operation_connection_string server i)) [
        | inl l ↦ rw (run_ddl, found, k, l) (inl refl)
        | inr (connection, l) ↦ rw (run_ddl, found, k, l) (inr (connection, refl))
      ]
    ]
