-- ===== src/Indexes/Maintenance/Tests.antt =====
-- A rebuild of an index.
use sql_monitor.Base.{
  ◌≡◌, refl, true, none, some, List, [], ◌∷◌, map, nat_eq, string_eq, pair_eq, int_eq, Text, codes,
  list_eq, ascii,
}
use sql_monitor.Users.{admin}
use sql_monitor.Users.Sample.{account}
use sql_monitor.Indexes.{rebuild}
use sql_monitor.Indexes.Audit.{returned, Server, IndexState, MissingIndexAudit, lookup_error}
use sql_monitor.Indexes.Maintenance.{FragmentationActionRequestData, execute_fragmentation_action}

abbrev server : Server
server = record {
  decrypt_connection_string = λ dsn. some dsn;
  existing_index_names = λ connection database schema table. some [];
  online_supported = λ connection. some true;
  execute = λ connection ddl. returned;
  lower = ascii.lower;
}

abbrev request : FragmentationActionRequestData
request = record {
  instance_id = 7;
  database_name = codes "Sales";
  schema_name = codes "dbo";
  table_name = codes "t";
  index_name = codes "IX_t";
  partition_number = 1;
  action = rebuild;
  avg_fragmentation_in_percent = 40000000000000;
  page_count = 2000;
}

abbrev empty : IndexState
empty = record { audits = []; executed = [] }

abbrev ddls : IndexState → List Text
ddls s = map (λ (a : MissingIndexAudit). a.ddl_summary) s.audits

rebuilt :
    ddls
      (execute_fragmentation_action server
        (record { id = 7; encrypted_kill_dsn = none; encrypted_collect_dsn = codes "dsn" } ∷ [])
        9
        request
        (account 1 (codes "root") admin)
        empty).1
    ≡ codes "ALTER INDEX [IX_t] ON [Sales].[dbo].[t] REBUILD WITH (ONLINE = ON)" ∷ []
unfolding execute_fragmentation_action
rebuilt = refl

unknown_instance :
    execute_fragmentation_action server [] 9 request (account 1 (codes "root") admin) empty
    ≡ (lookup_error, empty)
unfolding execute_fragmentation_action
unknown_instance = refl
