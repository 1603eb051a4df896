-- ===== src/Indexes/Audit/Created.antt =====
-- What a request to create an index leaves.
use sql_monitor.Base.{
  true, false, ◌≡◌, refl, ◌≢◌, ◌⊎◌, inl, inr, ◌&&◌, Option, none, some, List, [], ◌∷◌, ◌++◌, nat_eq,
  string_eq, pair_eq, Bool-cases, Option-cases, contains, int_eq, Text, list_eq,
}
use sql_monitor.Auth.{Uuid}
use sql_monitor.Users.{User}
use sql_monitor.Indexes.{validate_identifier, CreateIndex, build_create_index_sql}
use sql_monitor.Indexes.Audit.{
  Instance, running, rejected, MissingIndexAudit, Server, IndexState, Accepted, accepted,
  name_conflict, get_instance, operation_connection_string, create_audit, add_audit, accept_create,
  check_names, with_connection, create_missing_index,
}

-- the audit of a refusal, of a name that is taken, or of a statement that is to be run
abbrev pub IsCreated : CreateIndex → List Text → Accepted → MissingIndexAudit → Type 0
IsCreated d names r a =
    ((contains d.index_name names ≡ true)
      × (r ≡ name_conflict)
      × (a.result ≡ rejected)
      × (a.ddl_summary ≡ []))
    ⊎ ((contains d.index_name names ≡ false)
        × (r ≡ accepted a)
        × (a.result ≡ running)
        × (build_create_index_sql d ≡ some a.ddl_summary))

-- the names of the table's indexes, as the server of the instance answers them
abbrev pub AreNames : Server → List Instance → Uuid → CreateIndex → List Text → Type 0
AreNames server instances instance_id d names =
    (i : Instance) × (connection : Text) × (get_instance instance_id instances ≡ some i)
    × (operation_connection_string server i ≡ some connection)
    × (server.existing_index_names connection d.database_name d.schema_name d.table_name
        ≡ some names)

-- Nothing changes, or an audit is added, by the names of the table's indexes.
abbrev pub Leaves : (List Text → Type 0) → CreateIndex → IndexState → Accepted × IndexState → Type 0
Leaves answered d s (r, s') =
    ((s' ≡ s) × ((a : MissingIndexAudit) → r ≢ accepted a) × (r ≢ name_conflict))
    ⊎ ((a : MissingIndexAudit) × (s'.audits ≡ s.audits ++ a ∷ [])
        × (s'.executed ≡ s.executed)
        × ((names : List Text) × answered names × IsCreated d names r a))

module _ (server : Server) (audit_id instance_id : Uuid) (d : CreateIndex) (operator : User)
    (s : IndexState) where
  accept_create-Leaves :
      (answered : List Text → Type 0) (names : List Text) (ddl : Option Text)
      → answered names
      → contains d.index_name names ≡ false
      → build_create_index_sql d ≡ ddl
      → Leaves answered d s (accept_create server audit_id instance_id d operator ddl s)
  unfolding accept_create add_audit create_audit
  accept_create-Leaves answered names none known free e = inl (refl, λ a h. cc h, λ h. cc h)
  accept_create-Leaves answered names (some ddl) known free e = inr (
    create_audit server audit_id instance_id d operator ddl running none,
    refl,
    refl,
    (names, known, inr (free, refl, refl, e)),
  )

  check_names-Leaves :
      (answered : List Text → Type 0) (names : Option (List Text))
      → ((existing : List Text) → names ≡ some existing → answered existing)
      → Leaves answered d s (check_names server audit_id instance_id d operator names s)
  unfolding check_names add_audit create_audit
  check_names-Leaves answered none known = inl (refl, λ a h. cc h, λ h. cc h)
  check_names-Leaves answered (some existing) known =
      elim (Bool-cases (contains d.index_name existing)) [
        | inl taken ↦
            rw (taken, check_names)
              (inr (
                create_audit server audit_id instance_id d operator [] rejected
                    (some "INDEX_NAME_CONFLICT"),
                refl,
                refl,
                (existing, known existing refl, inl (taken, refl, refl, refl)),
              ))
        | inr fresh ↦
            rw (fresh, check_names)
              (accept_create-Leaves answered existing (build_create_index_sql d)
                (known existing refl) fresh refl)
      ]

  with_connection-Leaves :
      (answered : List Text → Type 0) (connection : Option Text)
      → ((c : Text) (existing : List Text)
          → connection ≡ some c
          → server.existing_index_names c d.database_name d.schema_name d.table_name ≡ some existing
          → answered existing)
      → Leaves answered d s (with_connection server audit_id instance_id d operator connection s)
  unfolding with_connection
  with_connection-Leaves answered none known = inl (refl, λ a h. cc h, λ h. cc h)
  with_connection-Leaves answered (some connection) known =
      elim (Bool-cases (
        validate_identifier d.database_name
        && (validate_identifier d.schema_name && validate_identifier d.table_name))) [
          | inr bad ↦ rw (bad, with_connection) (inl (refl, λ a h. cc h, λ h. cc h))
          | inl ok ↦
              rw (ok, with_connection)
                (check_names-Leaves answered
                  (server.existing_index_names connection d.database_name d.schema_name
                    d.table_name)
                  (λ existing e. known connection existing refl e))
        ]

  known-Leaves :
      (answered : List Text → Type 0) (instances : List Instance)
      → ((i : Instance) (c : Text) (existing : List Text)
          → get_instance instance_id instances ≡ some i
          → operation_connection_string server i ≡ some c
          → server.existing_index_names c d.database_name d.schema_name d.table_name ≡ some existing
          → answered existing)
      → Leaves answered d s
          (create_missing_index server instances audit_id instance_id d operator s)
  unfolding create_missing_index
  known-Leaves answered instances known = elim (Option-cases (get_instance instance_id instances)) [
    | inl e ↦ rw (e, create_missing_index) (inl (refl, λ a h. cc h, λ h. cc h))
    | inr (i, e) ↦
        rw (e, create_missing_index)
          (with_connection-Leaves answered (operation_connection_string server i)
            (λ c existing k l. known i c existing e k l))
  ]

  -- A request to create an index changes nothing and is refused, or the server of the instance answers
  -- the names of the table's indexes, and the request adds exactly one audit and executes nothing: if
  -- the new index has one of the names, the audit is rejected, without a statement, and the answer is
  -- the conflict; and else it is running and holds the statement that the request builds, and is the
  -- answer.
  pub create_missing_index-Leaves :
      (instances : List Instance)
      → Leaves
          (AreNames server instances instance_id d)
          d
          s
          (create_missing_index server instances audit_id instance_id d operator s)
  create_missing_index-Leaves instances =
      known-Leaves (AreNames server instances instance_id d) instances
        (λ i c existing e k l. (i, c, e, k, l))
