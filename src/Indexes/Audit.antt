-- ===== src/Indexes/Audit.antt =====
-- The audits of index operations, backend/app/services/index_service.py: a request builds a statement
-- and an audit that says it is running, and a background task runs the statement and finishes the
-- audit. The server's answers are arguments; the statements that it was to execute are noted.
pub mod Created
pub mod Finished
mod Tests
use sql_monitor.Base.{
  ℕ, String, Bool, false, not, ◌&&◌, ◌||◌, Option, none, some, List, [], ◌∷◌, ◌++◌, if◌then◌else◌,
  ◌==◌, nat_eq, string_eq, pair_eq, contains, int_eq, Text, codes, list_eq, is_infix,
}
use sql_monitor.Auth.{Uuid}
use sql_monitor.Users.{User}
use sql_monitor.Indexes.{
  validate_identifier, CreateIndex, build_create_index_sql, Action, rebuild, reorganize,
  action_name, build_index_maintenance_sql,
}

-- the columns of an instance that an index operation reads
pub record Instance : Type 0 where
  pub id : Uuid
  pub encrypted_kill_dsn : Option Text
  pub encrypted_collect_dsn : Text

pub data IndexResult : Type 0 where
  running success failed rejected : IndexResult

pub record MissingIndexAudit : Type 0 where
  pub id : Uuid
  pub operator_user_id : Option Uuid
  pub operator_name : Text
  pub instance_id : Uuid
  pub database_name : Text
  pub schema_name : Text
  pub table_name : Text
  pub index_name : Text
  pub key_columns : List Text
  pub include_columns : List Text
  pub action : Text
  pub partition_number : Option ℕ
  pub online_used : Option Bool
  pub fragmentation_percent : Option ℕ
  pub page_count : Option ℕ
  pub ddl_summary : Text
  pub result : IndexResult
  pub error_message : Option String

-- how `client.execute` ends; the text is that of the exception
pub data Ddl : Type 0 where
  returned : Ddl
  raised : Text → Ddl

-- What the operations rely on: decryption
-- (`none` is an exception, a `ValueError` of base64 or UTF-8), the names of a table's indexes (`none` is an exception),
-- the support of online rebuilds, and the execution of a statement, all by connection string.
pub record Server : Type 0 where
  pub decrypt_connection_string : Text → Option Text
  pub existing_index_names : Text → Text → Text → Text → Option (List Text)
  pub online_supported : Text → Option Bool
  pub execute : Text → Text → Ddl
  pub lower : Text → Text

-- The table of audits, and the statements that `client.execute` was given, by connection string; the
-- queries that only read are answers of the server and are not noted.
pub record IndexState : Type 0 where
  pub audits : List MissingIndexAudit
  pub executed : List (Text × Text)

-- how a request ends: with the audit's row, or with the exception that the route turns into an error
pub data Accepted : Type 0 where
  accepted : MissingIndexAudit → Accepted
  lookup_error value_error name_conflict uncaught : Accepted

unfoldable pub get_instance : Uuid → List Instance → Option Instance
get_instance id [] = none
get_instance id (i ∷ instances) =
    let rest = get_instance id instances in if i.id == id then some i else rest

unfoldable pub get_audit : Uuid → List MissingIndexAudit → Option MissingIndexAudit
get_audit id [] = none
get_audit id (a ∷ audits) = let rest = get_audit id audits in if a.id == id then some a else rest

-- the row written back
pub put_audit : MissingIndexAudit → List MissingIndexAudit → List MissingIndexAudit
put_audit b [] = []
put_audit b (a ∷ audits) =
    let rest = put_audit b audits in if a.id == b.id then b ∷ audits else a ∷ rest

-- `a or b` for an optional text, of which the empty one is falsy
abbrev pub dsn_or : Option Text → Option Text → Option Text
dsn_or (some (c ∷ s)) d = some (c ∷ s)
dsn_or _ (some (c ∷ s)) = some (c ∷ s)
dsn_or _ _ = none

module _ (server : Server) where
  -- `_operation_connection_string`: `none` is its `ValueError`
  unfoldable pub operation_connection_string : Instance → Option Text
  operation_connection_string i =
      elim (dsn_or i.encrypted_kill_dsn (some i.encrypted_collect_dsn)) [
        | none ↦ none
        | some dsn ↦ server.decrypt_connection_string dsn
      ]

  -- `_write_index_audit`
  unfoldable pub create_audit :
      Uuid → Uuid → CreateIndex → User → Text → IndexResult → Option String → MissingIndexAudit
  create_audit audit_id instance_id d operator ddl result message = record {
    id = audit_id;
    operator_user_id = some operator.id;
    operator_name = operator.username;
    instance_id = instance_id;
    database_name = d.database_name;
    schema_name = d.schema_name;
    table_name = d.table_name;
    index_name = d.index_name;
    key_columns = d.key_columns;
    include_columns = d.include_columns;
    action = codes "CREATE";
    partition_number = none;
    online_used = none;
    fragmentation_percent = none;
    page_count = none;
    ddl_summary = ddl;
    result = result;
    error_message = message;
  }

  unfoldable pub add_audit : MissingIndexAudit → IndexState → IndexState
  add_audit a s = record s { audits = s.audits ++ a ∷ [] }

  -- the statement, and the audit that says that it is running
  unfoldable pub accept_create :
      Uuid → Uuid → CreateIndex → User → Option Text → IndexState → Accepted × IndexState
  unfolding create_audit add_audit
  accept_create audit_id instance_id d operator none s = (value_error, s)
  accept_create audit_id instance_id d operator (some ddl) s =
      let a = create_audit audit_id instance_id d operator ddl running none in
      (accepted a, add_audit a s)

  -- from the answer of `_existing_index_names` on
  unfoldable pub check_names :
      Uuid → Uuid → CreateIndex → User → Option (List Text) → IndexState → Accepted × IndexState
  unfolding accept_create build_create_index_sql
  check_names audit_id instance_id d operator none s = (uncaught, s)
  check_names audit_id instance_id d operator (some existing) s =
      if contains d.index_name existing
      then (
        name_conflict,
        add_audit
            (create_audit audit_id instance_id d operator [] rejected (some "INDEX_NAME_CONFLICT"))
            s,
      )
      else accept_create audit_id instance_id d operator (build_create_index_sql d) s

  unfoldable pub with_connection :
      Uuid → Uuid → CreateIndex → User → Option Text → IndexState → Accepted × IndexState
  unfolding check_names
  with_connection audit_id instance_id d operator none s = (value_error, s)
  with_connection audit_id instance_id d operator (some connection) s =
      if not (
        validate_identifier d.database_name
        && (validate_identifier d.schema_name && validate_identifier d.table_name))
      then (value_error, s)
      else check_names audit_id instance_id d operator
          (server.existing_index_names connection d.database_name d.schema_name d.table_name) s

  -- `create_missing_index`; `audit_id` is drawn
  unfoldable pub create_missing_index :
      List Instance → Uuid → Uuid → CreateIndex → User → IndexState → Accepted × IndexState
  unfolding with_connection get_instance operation_connection_string
  create_missing_index instances audit_id instance_id d operator s =
      elim (get_instance instance_id instances) [
        | none ↦ (lookup_error, s)
        | some i ↦ with_connection audit_id instance_id d operator (operation_connection_string i) s
      ]

  abbrev pub timeout_markers : List Text
  timeout_markers =
      codes "timeout"
      ∷ codes "timed out"
      ∷ codes "query timeout"
      ∷ codes "login timeout"
      ∷ codes "hyt00"
      ∷ codes "hyt01"
      ∷ codes "超时"
      ∷ []

  abbrev any_marker : List Text → Text → Bool
  any_marker [] s = false
  any_marker (m ∷ ms) s = is_infix m s || any_marker ms s

  -- the result and the message of an audit once the statement was run; `_is_timeout_error`
  unfoldable pub on_ddl : String → String → Ddl → IndexResult × Option String
  on_ddl timeout_code failed_code returned = (success, none)
  on_ddl timeout_code failed_code (raised text) = (
    failed,
    some (if any_marker timeout_markers (server.lower text) then timeout_code else failed_code),
  )

  -- `_mark_index_audit_finished`
  unfoldable pub mark_finished :
      MissingIndexAudit → IndexResult × Option String → IndexState → IndexState
  unfolding put_audit
  mark_finished a (result, message) s = record s {
    audits = put_audit (record a { result = result; error_message = message }) s.audits;
  }

  -- An exception before the statement is sent leaves the audit as it is.
  unfoldable pub send_ddl :
      String → String → MissingIndexAudit → Option Text → IndexState → IndexState
  unfolding mark_finished on_ddl
  send_ddl timeout_code failed_code a none s = s
  send_ddl timeout_code failed_code a (some connection) s =
      mark_finished a (on_ddl timeout_code failed_code (server.execute connection a.ddl_summary))
        (record s { executed = s.executed ++ (connection, a.ddl_summary) ∷ [] })

  -- the two background tasks differ in the codes of their errors
  unfoldable pub run_ddl : String → String → List Instance → Uuid → IndexState → IndexState
  unfolding send_ddl get_audit get_instance operation_connection_string
  run_ddl timeout_code failed_code instances audit_id s = elim (get_audit audit_id s.audits) [
    | none ↦ s
    | some a ↦ elim (get_instance a.instance_id instances) [
      | none ↦ mark_finished a (failed, some "INSTANCE_NOT_FOUND") s
      | some i ↦ send_ddl timeout_code failed_code a (operation_connection_string i) s
    ]
  ]

  abbrev pub run_missing_index_ddl : List Instance → Uuid → IndexState → IndexState
  run_missing_index_ddl = run_ddl "INDEX_CREATE_TIMEOUT" "INDEX_CREATE_FAILED"

  abbrev pub run_fragmentation_ddl : List Instance → Uuid → IndexState → IndexState
  run_fragmentation_ddl = run_ddl "INDEX_MAINTENANCE_TIMEOUT" "INDEX_MAINTENANCE_FAILED"
