-- ===== src/Indexes/Routes.antt =====
-- The routes of backend/app/api/routes/indexes.py with the bounds of backend/app/schemas/indexes.py,
-- and the background task that a request leaves, which runs once it is answered.
pub mod Added
pub mod Guarded
mod Tests
use sql_monitor.Base.{
  ℕ, zero, suc, ◌+◌, ◌-◌, ◌*◌, ◌/◌, ◌%◌, ◌≤◌, ◌<◌, min, max, String, ◌≡◌, refl, sym, ap, ◌∙◌, subst,
  ◌≢◌, ◌↔◌, ◌⊎◌, inl, inr, Bool, true, false, not, ◌&&◌, ◌||◌, false≢true, Option, none, some,
  none≢some, List, [], ◌∷◌, ◌++◌, map, reverse, Perm, map-append, append_assoc, append-nil,
  reverse-cons, arith, ltb, leb, nat_beq, nat_beq_iff, if◌then◌else◌, Eq, ◌==◌, nat_eq, string_eq,
  pair_eq, pair_beq, pair_beq_iff, beq_refl, Bool-cases, Option-cases, is_some, or_else, length,
  take, drop, keep, find, length-append, length-keep, length-take, length-drop, slice, take-drop,
  take_all, contains, contains-append, contains-append_last, contains-reverse, Distinct,
  Distinct-snoc, All-reverse, All, All-append, All-left, All-right, All-keep, All-map, All-contains,
  All-of_keep, All-slice, All-of_map, keep-passes, sum, maximum, sum-append, maximum-append, ℤ, pos,
  negsuc, int_eq, int_beq, int_beq_iff, ltb_ℤ, leb_ℤ, ◌≤ℤ◌, sub_ℕ, Text, codes, list_beq,
  list_beq_iff, list_eq, Unicode, starts_with, is_infix, lstrip, rstrip, strip, length-lstrip,
  text_or, ascii, Dict, lookup, insert, erase, lookup-insert, lookup-erase, keys, values, IsDict,
  insert-IsDict, AllEntries, AllEntries-insert, AllEntries-lookup, some-eq, AllEntries-map,
  AllEntries-values, All-values, IsDict-lookup, length-keys, contains-keys, sort, sort-perm,
  length-sort, IsSorted, sort-IsSorted, IsSorted-slice, IsSorted-map, All-of_sort, All-sort, row_of,
  upsert, row_of-upsert, replace, replace_own, replace_other, keep_all, keep_nothing, keep-append,
  keys-Distinct, contains-map-sort, Distinct-map-sort, sort-coarse,
}
use sql_monitor.Auth.{Uuid, Time}
use sql_monitor.Users.{
  User, Role, developer, dba, admin, Env, Response, answer, http_error, uncaught, current_user,
}
use sql_monitor.Instances.Records.{Instance, Base64}
use sql_monitor.Instances.Requests.{sized}
use sql_monitor.Collector.IndexStore.{
  MissingIndexCandidate, IndexFragmentationItem, MissingIndexSnapshot, IndexFragmentationSnapshot,
  IndexTables,
}
use sql_monitor.Indexes.{CreateIndex}
use sql_monitor.Indexes.Audit as Audit
use sql_monitor.Indexes.Audit.{
  IndexResult, MissingIndexAudit, Server, IndexState, Accepted, accepted, lookup_error, value_error,
  name_conflict,
}
use sql_monitor.Indexes.Maintenance.{FragmentationActionRequestData, execute_fragmentation_action}
use sql_monitor.Indexes.Stored.{
  IndexSnapshotPage, Paged, no_instance, system_database, page_of, get_missing_indexes,
  get_index_fragmentation, get_user_databases,
}

pub data IndexRequest : Type 0 where
  get_index_audit_route : (audit_id : Uuid) → IndexRequest
  get_index_databases : (instance_id : Uuid) → IndexRequest
  get_missing_index_list :
      (instance_id : Uuid) (database_name : Text) (page page_size : ℕ) → IndexRequest
  get_index_fragmentation_list :
      (instance_id : Uuid) (database_name : Text) (page page_size : ℕ) → IndexRequest
  post_index : (instance_id : Uuid) (request : CreateIndex) → IndexRequest
  post_index_fragmentation_action : (request : FragmentationActionRequestData) → IndexRequest

pub record IndexAuditOut : Type 0 where
  pub audit_id : Uuid
  pub instance_id : Uuid
  pub database_name : Text
  pub schema_name : Text
  pub table_name : Text
  pub index_name : Text
  pub action : Text
  pub result : IndexResult
  pub error_message : Option String

pub data IndexAnswer : Type 0 where
  audit_out : IndexAuditOut → IndexAnswer
  database_list : List Text → IndexAnswer
  missing_list : IndexSnapshotPage MissingIndexCandidate → IndexAnswer
  fragmentation_list :
      (online_rebuild_supported : Bool) → IndexSnapshotPage IndexFragmentationItem → IndexAnswer
  audit_response : MissingIndexAudit → IndexAnswer

-- the task that is left to run after the answer
pub data Task : Type 0 where
  no_task : Task
  missing_index_ddl_task : (audit_id : Uuid) → Task
  fragmentation_ddl_task : (audit_id : Uuid) → Task

abbrev pub may_change_indexes : Role → Bool
may_change_indexes dba = true
may_change_indexes admin = true
may_change_indexes _ = false

abbrev pub may_read_indexes : Role → Bool
may_read_indexes developer = true
may_read_indexes role = may_change_indexes role

abbrev pub is_post : IndexRequest → Bool
is_post (post_index i d) = true
is_post (post_index_fragmentation_action d) = true
is_post _ = false

abbrev pub may_ask_index : IndexRequest → Role → Bool
may_ask_index (post_index i d) role = may_change_indexes role
may_ask_index (post_index_fragmentation_action d) role = may_change_indexes role
may_ask_index _ role = may_read_indexes role

abbrev pub is_page : ℕ → ℕ → Bool
is_page page page_size = leb 1 page && (leb 1 page_size && leb page_size 500)

-- the bounds of the queries and the bodies
unfoldable pub is_valid_index_request : IndexRequest → Bool
is_valid_index_request (get_missing_index_list i d page page_size) = is_page page page_size
is_valid_index_request (get_index_fragmentation_list i d page page_size) = is_page page page_size
is_valid_index_request (post_index i d) =
    (sized 1 128 d.database_name && sized 1 128 d.schema_name)
    && ((sized 1 128 d.table_name && sized 1 128 d.index_name) && leb 1 (length d.key_columns))
is_valid_index_request (post_index_fragmentation_action d) =
    (sized 1 128 d.database_name && sized 1 128 d.schema_name)
    && ((sized 1 128 d.table_name && sized 1 128 d.index_name) && leb 1 d.partition_number)
is_valid_index_request _ = true

-- `get_index_audit`
unfoldable pub get_index_audit : Uuid → List MissingIndexAudit → Option IndexAuditOut
unfolding Audit.get_audit
get_index_audit audit_id audits = elim (Audit.get_audit audit_id audits) [
  | none ↦ none
  | some a ↦ some (record {
    audit_id = a.id;
    instance_id = a.instance_id;
    database_name = a.database_name;
    schema_name = a.schema_name;
    table_name = a.table_name;
    index_name = a.index_name;
    action = a.action;
    result = a.result;
    error_message = a.error_message;
  })
]

abbrev pub any_online : List IndexFragmentationItem → Bool
any_online [] = false
any_online (item ∷ items) = item.online_rebuild_supported || any_online items

abbrev pub on_found : {A : Type 0} → (A → IndexAnswer) → Option A → Response IndexAnswer
on_found view none = http_error 404
on_found view (some a) = answer (view a)

abbrev pub on_paged :
    {A : Type 0} → (IndexSnapshotPage A → IndexAnswer) → Paged A → Response IndexAnswer
on_paged view no_instance = http_error 404
on_paged view system_database = http_error 400
on_paged view (page_of p) = answer (view p)

-- `IndexNameConflictError` is a `ValueError` that is caught first
abbrev pub on_accepted : Accepted → Response IndexAnswer
on_accepted (accepted a) = answer (audit_response a)
on_accepted lookup_error = http_error 404
on_accepted name_conflict = http_error 409
on_accepted value_error = http_error 400
on_accepted _ = uncaught

-- `background_tasks.add_task` stands after the call that may raise
abbrev pub task_of : (Uuid → Task) → Accepted → Task
task_of task (accepted a) = task a.id
task_of task _ = no_task

abbrev pub operated : Instance → Audit.Instance
operated i = record {
  id = i.id;
  encrypted_kill_dsn = i.encrypted_kill_dsn;
  encrypted_collect_dsn = i.encrypted_collect_dsn;
}

-- What the routes rely on: the servers, the order of the snapshots' ids, and the names of databases
-- that a server answers, by connection string.
pub record Sources : Type 0 where
  pub unicode : Unicode
  pub base64 : Base64
  pub server : Server
  pub missing_by_id : MissingIndexSnapshot → MissingIndexSnapshot → Bool
  pub fragmentation_by_id : IndexFragmentationSnapshot → IndexFragmentationSnapshot → Bool
  pub databases : Text → Option (List Text)

module _ (o : Sources) (instances : List Instance) (t : IndexTables) where
  -- the bodies of the routes; `audit_id` and `now` are drawn
  unfoldable pub run_index_request :
      Uuid → User → Time → IndexRequest → IndexState → Response IndexAnswer × (Task × IndexState)
  unfolding get_missing_indexes get_index_fragmentation get_user_databases get_index_audit
      Audit.create_missing_index execute_fragmentation_action
  run_index_request audit_id user now (get_index_audit_route id) s =
      (on_found audit_out (get_index_audit id s.audits), (no_task, s))
  run_index_request audit_id user now (get_index_databases i) s = (
    on_found database_list (get_user_databases o.unicode o.base64 o.databases instances t i),
    (no_task, s),
  )
  run_index_request audit_id user now (get_missing_index_list i d page page_size) s = (
    on_paged missing_list
        (get_missing_indexes o.unicode o.missing_by_id instances t i d page page_size now),
    (no_task, s),
  )
  run_index_request audit_id user now (get_index_fragmentation_list i d page page_size) s = (
    on_paged (λ p. fragmentation_list (any_online p.items) p)
        (get_index_fragmentation o.unicode o.fragmentation_by_id instances t i d page page_size
          now),
    (no_task, s),
  )
  run_index_request audit_id user now (post_index i d) s =
      let r = Audit.create_missing_index o.server (map operated instances) audit_id i d user s in
      (on_accepted r.0, (task_of missing_index_ddl_task r.0, r.1))
  run_index_request audit_id user now (post_index_fragmentation_action d) s =
      let r = execute_fragmentation_action o.server (map operated instances) audit_id d user s in
      (on_accepted r.0, (task_of fragmentation_ddl_task r.0, r.1))

  -- the token and the role, the bounds, and the route
  unfoldable pub handle_index :
      Env
      → List User
      → Text
      → Uuid
      → Time
      → IndexRequest
      → IndexState
      → Response IndexAnswer × (Task × IndexState)
  unfolding current_user is_valid_index_request run_index_request
  handle_index env users token audit_id now request s = elim (current_user env token now users) [
    | none ↦ (http_error 401, (no_task, s))
    | some user ↦
        if not (may_ask_index request user.role)
        then (http_error 403, (no_task, s))
        else if not (is_valid_index_request request)
        then (http_error 422, (no_task, s))
        else run_index_request audit_id user now request s
  ]

  -- `_run_missing_index_ddl_task` and `_run_fragmentation_ddl_task`
  unfoldable pub run_task : Task → IndexState → IndexState
  unfolding Audit.run_ddl
  run_task no_task s = s
  run_task (missing_index_ddl_task id) s =
      Audit.run_missing_index_ddl o.server (map operated instances) id s
  run_task (fragmentation_ddl_task id) s =
      Audit.run_fragmentation_ddl o.server (map operated instances) id s

  -- a request, then its task
  unfoldable pub serve_index :
      Env
      → List User
      → Text
      → Uuid
      → Time
      → IndexRequest
      → IndexState
      → Response IndexAnswer × IndexState
  unfolding handle_index run_task
  serve_index env users token audit_id now request s =
      let r = handle_index env users token audit_id now request s in (r.0, run_task r.1.0 r.1.1)
