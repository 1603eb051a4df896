-- ===== src/Indexes/Stored/Tests.antt =====
-- A collection's result on its page, a page of a system database, and the list of databases.
use sql_monitor.Base.{
  ℕ, ◌+◌, ◌≤◌, ◌≡◌, refl, Bool, true, false, none, some, List, [], ◌∷◌, arith, nat_eq, string_eq,
  pair_eq, or_else, int_eq, Text, codes, list_eq, ascii,
}
use sql_monitor.Auth.{seconds}
use sql_monitor.Instances.Sample.{base64, sample_instance}
use sql_monitor.Instances.Records.{Instance, decrypt_connection_string}
use sql_monitor.Collector.IndexStore.{
  MissingIndexCandidate, IndexFragmentationItem, IndexTables, DatabaseResult, missing_snapshot,
  persist_result,
}
use sql_monitor.Indexes.Stored.{
  system_database, get_missing_indexes, get_index_fragmentation, get_user_databases,
}
use sql_monitor.Indexes.Stored.ReadBack.{
  IsMissingShown, IsFragmentationShown, get_indexes-persist_result,
}
use sql_monitor.Indexes.Stored.Shown.{Shows}

abbrev candidate : Text → ℕ → MissingIndexCandidate
candidate table cost = record {
  database_name = codes "erp";
  schema_name = codes "dbo";
  table_name = table;
  equality_columns = codes "id" ∷ [];
  inequality_columns = [];
  include_columns = [];
  user_seeks = 3;
  user_scans = 1;
  avg_total_user_cost = cost;
  avg_user_impact = 9000;
  recommended_index_name = codes "idx_id";
  create_enabled = true;
  error_message = none;
}

abbrev fragment : IndexFragmentationItem
fragment = record {
  database_name = codes "erp";
  schema_name = codes "dbo";
  table_name = codes "orders";
  index_name = codes "ix_id";
  index_type = codes "NONCLUSTERED";
  partition_number = 1;
  avg_fragmentation_in_percent = 4000;
  page_count = 2000;
  recommended_action = codes "REBUILD";
  action_enabled = true;
  online_rebuild_supported = false;
  error_message = none;
}

abbrev result : DatabaseResult
result = record {
  database_name = codes "erp";
  missing_items = some (candidate (codes "orders") 10 ∷ candidate (codes "items") 20 ∷ []);
  missing_error = none;
  fragmentation_items = some (fragment ∷ []);
  fragmentation_scanned = 1;
  fragmentation_error = none;
}

abbrev tables : IndexTables
tables = record {
  missing = missing_snapshot 7 50 (candidate (codes "old") 30) ∷ [];
  fragmentation = [];
  statuses = [];
}

abbrev any_id : {A : Type 0} → A → A → Bool
any_id a b = true

abbrev instances : List Instance
instances = sample_instance ∷ []

system_refused :
    get_missing_indexes ascii any_id instances tables 7 (codes "Master") 1 20 100 ≡ system_database
unfolding get_missing_indexes
system_refused = refl

-- the stored databases; without them, those of the server that are not the system's
listed_from_server :
    get_user_databases ascii base64
      (λ dsn. some (codes "tempdb" ∷ codes "erp" ∷ codes "crm" ∷ []))
      instances
      tables
      7
    ≡ some (codes "crm" ∷ codes "erp" ∷ [])
unfolding get_user_databases decrypt_connection_string
listed_from_server = refl

get_indexes-persist_result_example :
    (result.missing_error ≡ none
      → 200 ≤ 100 + seconds sample_instance.missing_index_collect_interval_seconds
      → Shows IsMissingShown
          (λ m. m.avg_total_user_cost)
          (or_else result.missing_items [])
          100
          (get_missing_indexes ascii any_id instances
            (persist_result 7 result true true 100 tables)
            7
            result.database_name
            1
            20
            200))
    × (result.fragmentation_error ≡ none
        → 200 ≤ 100 + seconds sample_instance.index_fragmentation_collect_interval_seconds
        → Shows IsFragmentationShown
            (λ m. m.avg_fragmentation_in_percent)
            (or_else result.fragmentation_items [])
            100
            (get_index_fragmentation ascii any_id instances
              (persist_result 7 result true true 100 tables)
              7
              result.database_name
              1
              20
              200))
get_indexes-persist_result_example =
    get_indexes-persist_result ascii any_id any_id instances sample_instance 7 result true 100 200
      20 tables refl refl ((refl, (refl, refl)), ((refl, (refl, refl)), tt))
      ((refl, (refl, (refl, (refl, refl)))), tt) (omega arith) (omega arith)
