-- ===== src/Collector/IndexStore.antt =====
-- How backend/app/collector/real_instance_collector.py stores what it reads about indexes: when a
-- collection is due, how its results replace the snapshots of a database, and the status rows. An
-- item has its numbers as floats, in units of 10^-12, and a row has them as its decimal columns do, in
-- units of their last place.
pub mod Due
pub mod Collect
pub mod Kept
pub mod Succeeded
pub mod Interval
pub mod Success
mod Tests
use sql_monitor.Base.{
  numeric, four_places, two_places, ℕ, String, Bool, ◌&&◌, Option, none, some, List, [], ◌∷◌, map,
  if◌then◌else◌, ◌==◌, nat_eq, string_eq, pair_eq, or_else, length, int_eq, Text, list_eq, row_of,
  upsert, replace,
}
use sql_monitor.Auth.{Uuid, Time, seconds}
use sql_monitor.Collector.Pool.{IndexDatabaseCollectionResult}

pub record MissingIndexCandidate : Type 0 where
  pub database_name : Text
  pub schema_name : Text
  pub table_name : Text
  pub equality_columns : List Text
  pub inequality_columns : List Text
  pub include_columns : List Text
  pub user_seeks : ℕ
  pub user_scans : ℕ
  pub avg_total_user_cost : ℕ
  pub avg_user_impact : ℕ
  pub recommended_index_name : Text
  pub create_enabled : Bool
  pub error_message : Option Text

pub record IndexFragmentationItem : Type 0 where
  pub database_name : Text
  pub schema_name : Text
  pub table_name : Text
  pub index_name : Text
  pub index_type : Text
  pub partition_number : ℕ
  pub avg_fragmentation_in_percent : ℕ
  pub page_count : ℕ
  pub recommended_action : Text
  pub action_enabled : Bool
  pub online_rebuild_supported : Bool
  pub error_message : Option Text

pub record MissingIndexSnapshot : Type 0 where
  pub instance_id : Uuid
  pub database_name : Text
  pub schema_name : Text
  pub table_name : Text
  pub equality_columns : List Text
  pub inequality_columns : List Text
  pub include_columns : List Text
  pub user_seeks : ℕ
  pub user_scans : ℕ
  pub avg_total_user_cost : ℕ
  pub avg_user_impact : ℕ
  pub recommended_index_name : Text
  pub collected_at : Time

pub record IndexFragmentationSnapshot : Type 0 where
  pub instance_id : Uuid
  pub database_name : Text
  pub schema_name : Text
  pub table_name : Text
  pub index_name : Text
  pub index_type : Text
  pub partition_number : ℕ
  pub avg_fragmentation_in_percent : ℕ
  pub page_count : ℕ
  pub recommended_action : Text
  pub online_rebuild_supported : Bool
  pub collected_at : Time

pub record IndexCollectionStatus : Type 0 where
  pub instance_id : Uuid
  pub database_name : Text
  pub index_type : String
  pub last_success_at : Option Time
  pub last_failure_at : Option Time
  pub status : String
  pub error_message : Option Text
  pub item_count : ℕ
  pub updated_at : Time

pub record IndexTables : Type 0 where
  pub missing : List MissingIndexSnapshot
  pub fragmentation : List IndexFragmentationSnapshot
  pub statuses : List IndexCollectionStatus

-- the key of a status: the instance, the database and the kind of indexes
abbrev pub Key : Type 0
Key = Uuid × (Text × String)

abbrev pub key_of : IndexCollectionStatus → Key
key_of s = (s.instance_id, (s.database_name, s.index_type))

abbrev pub status_of : Key → List IndexCollectionStatus → Option IndexCollectionStatus
status_of key statuses = row_of key_of key statuses

abbrev pub new_status : Time → Key → IndexCollectionStatus
new_status at (instance_id, (database_name, index_type)) = record {
  instance_id = instance_id;
  database_name = database_name;
  index_type = index_type;
  last_success_at = none;
  last_failure_at = none;
  status = "unknown";
  error_message = none;
  item_count = 0;
  updated_at = at;
}

-- `_get_or_create_index_collection_status`, and the change of the row that it answers
unfoldable pub change_status :
    Time
    → Key
    → (IndexCollectionStatus → IndexCollectionStatus)
    → List IndexCollectionStatus
    → List IndexCollectionStatus
change_status at key change statuses = upsert key_of key (new_status at key) change statuses

abbrev pub succeeded : ℕ → Time → IndexCollectionStatus → IndexCollectionStatus
succeeded item_count collected_at s = record s {
  status = "success";
  last_success_at = some collected_at;
  error_message = none;
  item_count = item_count;
  updated_at = collected_at;
}

abbrev pub failed : Text → Time → IndexCollectionStatus → IndexCollectionStatus
failed error_message failed_at s = record s {
  status = "failed";
  last_failure_at = some failed_at;
  error_message = some error_message;
  updated_at = failed_at;
}

unfoldable pub mark_index_collection_success : Key → ℕ → Time → IndexTables → IndexTables
unfolding change_status
mark_index_collection_success key item_count collected_at t = record t {
  statuses = change_status collected_at key (succeeded item_count collected_at) t.statuses;
}

unfoldable pub mark_index_collection_failed : Key → Text → Time → IndexTables → IndexTables
unfolding change_status
mark_index_collection_failed key error_message failed_at t = record t {
  statuses = change_status failed_at key (failed error_message failed_at) t.statuses;
}

abbrev pub missing_snapshot : Uuid → Time → MissingIndexCandidate → MissingIndexSnapshot
missing_snapshot instance_id collected_at item = record {
  instance_id = instance_id;
  database_name = item.database_name;
  schema_name = item.schema_name;
  table_name = item.table_name;
  equality_columns = item.equality_columns;
  inequality_columns = item.inequality_columns;
  include_columns = item.include_columns;
  user_seeks = item.user_seeks;
  user_scans = item.user_scans;
  avg_total_user_cost = numeric four_places item.avg_total_user_cost;
  avg_user_impact = numeric two_places item.avg_user_impact;
  recommended_index_name = item.recommended_index_name;
  collected_at = collected_at;
}

abbrev pub fragmentation_snapshot :
    Uuid → Time → IndexFragmentationItem → IndexFragmentationSnapshot
fragmentation_snapshot instance_id collected_at item = record {
  instance_id = instance_id;
  database_name = item.database_name;
  schema_name = item.schema_name;
  table_name = item.table_name;
  index_name = item.index_name;
  index_type = item.index_type;
  partition_number = item.partition_number;
  avg_fragmentation_in_percent = numeric two_places item.avg_fragmentation_in_percent;
  page_count = item.page_count;
  recommended_action = item.recommended_action;
  online_rebuild_supported = item.online_rebuild_supported;
  collected_at = collected_at;
}

abbrev pub missing_of : Uuid → Text → MissingIndexSnapshot → Bool
missing_of instance_id database_name r =
    r.instance_id == instance_id && r.database_name == database_name

abbrev pub fragmentation_of : Uuid → Text → IndexFragmentationSnapshot → Bool
fragmentation_of instance_id database_name r =
    r.instance_id == instance_id && r.database_name == database_name

unfoldable pub replace_missing_index_snapshots :
    Uuid → Text → List MissingIndexCandidate → Time → IndexTables → IndexTables
replace_missing_index_snapshots instance_id database_name items collected_at t = record t {
  missing =
      replace (missing_of instance_id database_name)
        (map (missing_snapshot instance_id collected_at) items) t.missing;
}

unfoldable pub replace_index_fragmentation_snapshots :
    Uuid → Text → List IndexFragmentationItem → Time → IndexTables → IndexTables
replace_index_fragmentation_snapshots instance_id database_name items collected_at t = record t {
  fragmentation =
      replace (fragmentation_of instance_id database_name)
        (map (fragmentation_snapshot instance_id collected_at) items) t.fragmentation;
}

abbrev pub DatabaseResult : Type 0
DatabaseResult = IndexDatabaseCollectionResult MissingIndexCandidate IndexFragmentationItem

-- the branch of missing indexes: a message that is not empty, or the items
unfoldable pub persist_missing :
    Uuid → DatabaseResult → Option Text → Time → IndexTables → IndexTables
unfolding mark_index_collection_failed mark_index_collection_success replace_missing_index_snapshots
persist_missing instance_id result (some (c ∷ message)) collected_at t =
    mark_index_collection_failed (instance_id, (result.database_name, "missing")) (c ∷ message)
      collected_at t
persist_missing instance_id result _ collected_at t =
    let items = or_else result.missing_items [] in
    mark_index_collection_success (instance_id, (result.database_name, "missing")) (length items)
      collected_at
      (replace_missing_index_snapshots instance_id result.database_name items collected_at t)

unfoldable pub persist_fragmentation :
    Uuid → DatabaseResult → Option Text → Time → IndexTables → IndexTables
unfolding mark_index_collection_failed mark_index_collection_success
    replace_index_fragmentation_snapshots
persist_fragmentation instance_id result (some (c ∷ message)) collected_at t =
    mark_index_collection_failed (instance_id, (result.database_name, "fragmentation"))
      (c ∷ message) collected_at t
persist_fragmentation instance_id result _ collected_at t =
    let items = or_else result.fragmentation_items [] in
    mark_index_collection_success (instance_id, (result.database_name, "fragmentation"))
      (length items) collected_at
      (replace_index_fragmentation_snapshots instance_id result.database_name items collected_at t)

-- `_persist_index_database_collection_result`
unfoldable pub persist_result :
    Uuid → DatabaseResult → Bool → Bool → Time → IndexTables → IndexTables
unfolding persist_missing persist_fragmentation
persist_result instance_id result missing_due fragmentation_due collected_at t =
    let t' =
      if missing_due
      then persist_missing instance_id result result.missing_error collected_at t
      else t in
    if fragmentation_due
    then persist_fragmentation instance_id result result.fragmentation_error collected_at t'
    else t'
