-- ===== src/Indexes/Maintenance.antt =====
-- The requests to maintain an index, backend/app/services/index_service.py, and what
-- backend/app/schemas/indexes.py has of them. The percentage of a request is a float, in units of
-- 10^-12.
mod Tests
use sql_monitor.Base.{
  numeric, two_places, ℕ, zero, suc, ◌+◌, ◌-◌, ◌*◌, ◌/◌, ◌%◌, ◌≤◌, ◌<◌, min, max, String, ◌≡◌, refl,
  sym, ap, ◌∙◌, subst, ◌≢◌, ◌↔◌, ◌⊎◌, inl, inr, Bool, true, false, not, ◌&&◌, ◌||◌, false≢true,
  Option, none, some, none≢some, List, [], ◌∷◌, ◌++◌, map, reverse, Perm, map-append, append_assoc,
  append-nil, reverse-cons, arith, ltb, leb, nat_beq, nat_beq_iff, if◌then◌else◌, Eq, ◌==◌, nat_eq,
  string_eq, pair_eq, pair_beq, pair_beq_iff, beq_refl, Bool-cases, Option-cases, is_some, or_else,
  length, take, drop, keep, find, length-append, length-keep, length-take, length-drop, slice,
  take-drop, take_all, contains, contains-append, contains-append_last, contains-reverse, Distinct,
  Distinct-snoc, All-reverse, All, All-append, All-left, All-right, All-keep, All-map, All-contains,
  All-of_keep, All-slice, All-of_map, keep-passes, sum, maximum, sum-append, maximum-append, ℤ, pos,
  negsuc, int_eq, int_beq, int_beq_iff, ltb_ℤ, leb_ℤ, ◌≤ℤ◌, sub_ℕ, Text, codes, list_beq,
  list_beq_iff, list_eq, Unicode, starts_with, is_infix, lstrip, rstrip, strip, length-lstrip,
  text_or, ascii, Dict, lookup, insert, erase, lookup-insert, lookup-erase, keys, values, IsDict,
  insert-IsDict, AllEntries, AllEntries-insert, AllEntries-lookup, some-eq, AllEntries-map,
  AllEntries-values, All-values, IsDict-lookup, length-keys, contains-keys, sort, sort-perm,
  length-sort, IsSorted, sort-IsSorted, IsSorted-slice, IsSorted-map, All-of_sort, All-sort, row_of,
  upsert, row_of-upsert, replace, replace_own, replace_other, keep_all, keep_nothing, keep-append,
  keys-Distinct, contains-map-sort, Distinct-map-sort, sort-coarse,
}
use sql_monitor.Auth.{Uuid}
use sql_monitor.Users.{User}
use sql_monitor.Indexes.{Action, rebuild, reorganize, action_name, build_index_maintenance_sql}
use sql_monitor.Indexes.Audit.{
  Instance, IndexResult, running, MissingIndexAudit, Server, IndexState, Accepted, accepted,
  lookup_error, value_error, uncaught, get_instance, operation_connection_string, add_audit,
}

-- `FragmentationActionRequestData`; the schema of the request admits the two actions only
pub record FragmentationActionRequestData : Type 0 where
  pub instance_id : Uuid
  pub database_name : Text
  pub schema_name : Text
  pub table_name : Text
  pub index_name : Text
  pub partition_number : ℕ
  pub action : Action
  pub avg_fragmentation_in_percent : ℕ
  pub page_count : ℕ

-- `_write_fragmentation_audit`
unfoldable pub fragmentation_audit :
    Uuid
    → FragmentationActionRequestData
    → User
    → Text
    → Bool
    → IndexResult
    → Option String
    → MissingIndexAudit
unfolding action_name
fragmentation_audit audit_id d operator ddl online_used result message = record {
  id = audit_id;
  operator_user_id = some operator.id;
  operator_name = operator.username;
  instance_id = d.instance_id;
  database_name = d.database_name;
  schema_name = d.schema_name;
  table_name = d.table_name;
  index_name = d.index_name;
  key_columns = [];
  include_columns = [];
  action = action_name d.action;
  partition_number = some d.partition_number;
  online_used = some online_used;
  fragmentation_percent = some (numeric two_places d.avg_fragmentation_in_percent);
  page_count = some d.page_count;
  ddl_summary = ddl;
  result = result;
  error_message = message;
}

-- `data.action == "REBUILD" and supports_online_index_rebuild(client)`: the server is asked only for
-- a rebuild; `none` is its exception
abbrev pub online_used_of : Action → Option Bool → Option Bool
online_used_of rebuild supported = supported
online_used_of reorganize supported = some false

module _ (server : Server) where
  unfoldable pub accept_action :
      Uuid
      → FragmentationActionRequestData
      → User
      → Bool
      → Option Text
      → IndexState
      → Accepted × IndexState
  unfolding fragmentation_audit add_audit
  accept_action audit_id d operator online_used none s = (value_error, s)
  accept_action audit_id d operator online_used (some ddl) s =
      let a = fragmentation_audit audit_id d operator ddl online_used running none in
      (accepted a, add_audit server a s)

  -- from the answer on the support of online rebuilds on
  unfoldable pub build_action :
      Uuid
      → FragmentationActionRequestData
      → User
      → Option Bool
      → IndexState
      → Accepted × IndexState
  unfolding accept_action build_index_maintenance_sql
  build_action audit_id d operator none s = (uncaught, s)
  build_action audit_id d operator (some online_used) s =
      accept_action audit_id d operator online_used
        (build_index_maintenance_sql d.database_name d.schema_name d.table_name d.index_name
          d.action online_used)
        s

  unfoldable pub execute_fragmentation_action :
      List Instance
      → Uuid
      → FragmentationActionRequestData
      → User
      → IndexState
      → Accepted × IndexState
  unfolding build_action get_instance operation_connection_string
  execute_fragmentation_action instances audit_id d operator s =
      elim (get_instance d.instance_id instances) [
        | none ↦ (lookup_error, s)
        | some i ↦ elim (operation_connection_string server i) [
          | none ↦ (value_error, s)
          | some connection ↦
              build_action audit_id d operator
                (online_used_of d.action (server.online_supported connection)) s
        ]
      ]
