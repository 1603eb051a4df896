-- ===== src/Collector/IndexStore/Tests.antt =====
-- The stored indexes of a database: a result, a failure, and a server that does not answer.
use sql_monitor.Base.{
  ℕ, ◌≡◌, refl, true, false, none, some, [], ◌∷◌, map, arith, nat_eq, string_eq, pair_eq, or_else,
  int_eq, Text, codes, list_eq,
}
use sql_monitor.Instances.Sample.{base64, sample_instance, decoded}
use sql_monitor.Collector.Pool.{Try}
use sql_monitor.Collector.IndexStore.{
  MissingIndexCandidate, IndexTables, DatabaseResult, missing_snapshot, fragmentation_snapshot,
  persist_result,
}
use sql_monitor.Collector.IndexStore.Due.{
  status_values, load_index_collection_statuses, index_collection_due,
}
use sql_monitor.Collector.IndexStore.Collect.{Server, run_index_collection_for_instance}
use sql_monitor.Collector.IndexStore.Kept.{run_index_collection_for_instance_unlisted}
use sql_monitor.Collector.IndexStore.Success.{
  IsReplaced, missing_place, fragmentation_place, persist_result-IsReplaced,
}
use sql_monitor.Collector.IndexStore.Interval.{persist_result_not_due}

abbrev candidate : Text → MissingIndexCandidate
candidate table = record {
  database_name = codes "erp";
  schema_name = codes "dbo";
  table_name = table;
  equality_columns = codes "id" ∷ [];
  inequality_columns = [];
  include_columns = [];
  user_seeks = 3;
  user_scans = 1;
  avg_total_user_cost = 20000;
  avg_user_impact = 9000;
  recommended_index_name = codes "idx_id";
  create_enabled = true;
  error_message = none;
}

abbrev result : DatabaseResult
result = record {
  database_name = codes "erp";
  missing_items = some (candidate (codes "orders") ∷ []);
  missing_error = none;
  fragmentation_items = none;
  fragmentation_scanned = 0;
  fragmentation_error = none;
}

abbrev refused : DatabaseResult
refused = record result {
  missing_items = none;
  missing_error = some (codes "timeout");
  fragmentation_error = some (codes "timeout");
}

abbrev tables : IndexTables
tables = record {
  missing = missing_snapshot 7 50 (candidate (codes "old")) ∷ [];
  fragmentation = [];
  statuses = [];
}

abbrev silent : Server
silent = record {
  Client = ℕ;
  base64 = base64;
  client_factory = λ s. Try.raised (codes "no route");
  list_user_databases = λ c. Try.ok [];
  list_missing_indexes = λ c d. Try.ok [];
  list_index_fragmentation = λ c d. Try.ok [];
  timeout_message = codes "timeout";
  concurrency = 2;
  limits = λ b. record { monotonic = λ n. n; done = λ n. []; timeout = 1 };
  rounds = λ b. 9;
}

-- the old row is gone, the status is new
stored_names :
    map (λ r. r.table_name) (persist_result 7 result true false 100 tables).missing
    ≡ codes "orders" ∷ []
unfolding persist_result
stored_names = refl

stored_counts :
    map (λ s. s.item_count) (persist_result 7 result true false 100 tables).statuses ≡ 1 ∷ []
unfolding persist_result
stored_counts = refl

persist_result-IsReplaced_example :
    (result.missing_error ≡ none
      → IsReplaced missing_place
          (7, result.database_name)
          (map (missing_snapshot 7 100) (or_else result.missing_items []))
          tables.missing
          (persist_result 7 result true false 100 tables).missing)
    × (result.fragmentation_error ≡ none
        → IsReplaced fragmentation_place
            (7, result.database_name)
            (map (fragmentation_snapshot 7 100) (or_else result.fragmentation_items []))
            tables.fragmentation
            (persist_result 7 result false true 100 tables).fragmentation)
persist_result-IsReplaced_example =
    persist_result-IsReplaced 7 result false 100 tables (refl, tt) tt

persist_result_not_due_example :
    (result.missing_error ≡ none
      → index_collection_due
          (status_values
            (load_index_collection_statuses 7 (persist_result 7 result true false 100 tables)))
          "missing"
          200
          600
        ≡ false)
    × (result.fragmentation_error ≡ none
        → index_collection_due
            (status_values
              (load_index_collection_statuses 7 (persist_result 7 result false true 100 tables)))
            "fragmentation"
            200
            600
          ≡ false)
persist_result_not_due_example =
    persist_result_not_due 7 result false 100 200 600 tables refl (omega arith)

run_index_collection_for_instance_unlisted_example :
    run_index_collection_for_instance silent (sample_instance ∷ []) 7 100 tables ≡ tables
run_index_collection_for_instance_unlisted_example =
    run_index_collection_for_instance_unlisted silent (sample_instance ∷ []) 7 sample_instance
      (codes "dsn") (codes "no route") 100 tables refl decoded refl
