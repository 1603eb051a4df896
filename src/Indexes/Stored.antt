-- ===== src/Indexes/Stored.antt =====
-- The pages of stored indexes of backend/app/services/index_service.py, and the databases of an
-- instance that have some. The ids of the snapshots are drawn, so that their order is a parameter; an
-- item has its numbers as floats, in units of 10^-12, and a row has them as its decimal columns do, in
-- units of their last place.
pub mod Shown
pub mod ReadBack
mod Tests
use sql_monitor.Base.{
  from_numeric, four_places, two_places, ℕ, zero, suc, ◌+◌, ◌-◌, ◌*◌, ◌/◌, ◌%◌, ◌≤◌, ◌<◌, min, max,
  String, ◌≡◌, refl, sym, ap, ◌∙◌, subst, ◌≢◌, ◌↔◌, ◌⊎◌, inl, inr, Bool, true, false, not, ◌&&◌,
  ◌||◌, false≢true, Option, none, some, none≢some, List, [], ◌∷◌, ◌++◌, map, reverse, Perm,
  map-append, append_assoc, append-nil, reverse-cons, arith, ltb, leb, nat_beq, nat_beq_iff,
  if◌then◌else◌, Eq, ◌==◌, nat_eq, string_eq, pair_eq, pair_beq, pair_beq_iff, beq_refl, Bool-cases,
  Option-cases, is_some, or_else, length, take, drop, keep, find, length-append, length-keep,
  length-take, length-drop, slice, take-drop, take_all, contains, contains-append,
  contains-append_last, contains-reverse, Distinct, Distinct-snoc, All-reverse, All, All-append,
  All-left, All-right, All-keep, All-map, All-contains, All-of_keep, All-slice, All-of_map,
  keep-passes, sum, maximum, sum-append, maximum-append, ℤ, pos, negsuc, int_eq, int_beq,
  int_beq_iff, ltb_ℤ, leb_ℤ, ◌≤ℤ◌, sub_ℕ, Text, codes, list_beq, list_beq_iff, list_eq, Unicode,
  starts_with, is_infix, lstrip, rstrip, strip, length-lstrip, text_or, ascii, Dict, lookup, insert,
  erase, lookup-insert, lookup-erase, keys, values, IsDict, insert-IsDict, AllEntries,
  AllEntries-insert, AllEntries-lookup, some-eq, AllEntries-map, AllEntries-values, All-values,
  IsDict-lookup, length-keys, contains-keys, sort, sort-perm, length-sort, IsSorted, sort-IsSorted,
  IsSorted-slice, IsSorted-map, All-of_sort, All-sort, row_of, upsert, row_of-upsert, replace,
  replace_own, replace_other, keep_all, keep_nothing, keep-append, keys-Distinct, contains-map-sort,
  Distinct-map-sort,
}
use sql_monitor.Auth.{Uuid, Time, seconds}
use sql_monitor.Instances.Records.{Instance, Base64, get_instance, decrypt_connection_string}
use sql_monitor.Collector.IndexStore.{
  MissingIndexCandidate, IndexFragmentationItem, MissingIndexSnapshot, IndexFragmentationSnapshot,
  IndexCollectionStatus, IndexTables, Key, status_of, missing_of, fragmentation_of,
}
use sql_monitor.Collector.IndexStore.Due.{later}

pub record IndexSnapshotPage (A : Type 0) : Type 0 where
  pub items : List A
  pub total : ℕ
  pub checked_at : Option Time
  pub collection_status : String
  pub collection_error : Option Text
  pub stale : Bool

-- what the services answer: no instance, their `ValueError`, or a page
pub data Paged (A : Type 0) : Type 0 where
  no_instance : Paged A
  system_database : Paged A
  page_of : IndexSnapshotPage A → Paged A

abbrev pub system_databases : List Text
system_databases = codes "master" ∷ codes "model" ∷ codes "msdb" ∷ codes "tempdb" ∷ []

-- `name.lower() in SYSTEM_DATABASES`
abbrev pub is_system : Unicode → Text → Bool
is_system u name = contains (u.lower name) system_databases

-- `_latest_collected_at`
unfoldable pub latest_collected_at : List Time → Option Time
latest_collected_at [] = none
latest_collected_at (at ∷ times) = later (some at) (latest_collected_at times)

-- `_snapshot_stale`
unfoldable pub snapshot_stale : Option Time → Time → ℕ → Bool
snapshot_stale none now interval_seconds = true
snapshot_stale (some checked_at) now interval_seconds =
    ltb (checked_at + seconds interval_seconds) now

unfoldable pub missing_snapshot_item : MissingIndexSnapshot → MissingIndexCandidate
missing_snapshot_item s = record {
  database_name = s.database_name;
  schema_name = s.schema_name;
  table_name = s.table_name;
  equality_columns = s.equality_columns;
  inequality_columns = s.inequality_columns;
  include_columns = s.include_columns;
  user_seeks = s.user_seeks;
  user_scans = s.user_scans;
  avg_total_user_cost = from_numeric four_places s.avg_total_user_cost;
  avg_user_impact = from_numeric two_places s.avg_user_impact;
  recommended_index_name = s.recommended_index_name;
  create_enabled = true;
  error_message = none;
}

-- `str(snapshot.recommended_action or "NONE")`
abbrev pub action_or_none : Text → Text
action_or_none [] = codes "NONE"
action_or_none (c ∷ s) = c ∷ s

abbrev pub or_one : ℕ → ℕ
or_one zero = 1
or_one (suc n) = suc n

unfoldable pub fragmentation_snapshot_item : IndexFragmentationSnapshot → IndexFragmentationItem
fragmentation_snapshot_item s = record {
  database_name = s.database_name;
  schema_name = s.schema_name;
  table_name = s.table_name;
  index_name = s.index_name;
  index_type = s.index_type;
  partition_number = or_one s.partition_number;
  avg_fragmentation_in_percent = from_numeric two_places s.avg_fragmentation_in_percent;
  page_count = s.page_count;
  recommended_action = action_or_none s.recommended_action;
  action_enabled =
      contains (action_or_none s.recommended_action) (codes "REORGANIZE" ∷ codes "REBUILD" ∷ []);
  online_rebuild_supported = s.online_rebuild_supported;
  error_message = none;
}

-- `ORDER BY value DESC, id ASC`
abbrev pub descending : {A : Type 0} → (A → ℕ) → (A → A → Bool) → A → A → Bool
descending value by_id a b = ltb (value b) (value a) || (value a == value b && by_id a b)

-- `status.last_success_at if status else _latest_collected_at(snapshots)`
abbrev pub checked_at_of : Option IndexCollectionStatus → List Time → Option Time
checked_at_of none times = latest_collected_at times
checked_at_of (some s) times = s.last_success_at

abbrev pub status_or_unknown : Option IndexCollectionStatus → String
status_or_unknown none = "unknown"
status_or_unknown (some s) = s.status

abbrev pub error_of : Option IndexCollectionStatus → Option Text
error_of none = none
error_of (some s) = s.error_message

-- The page of the rows, which are those of the instance and the database; the two services differ in
-- the table, the item, the kind of the status and the interval.
module _ {A B : Type 0} (item : A → B) (collected_at : A → Time) (before : A → A → Bool) where
  unfoldable pub snapshot_page :
      List A → Option IndexCollectionStatus → ℕ → ℕ → Time → ℕ → IndexSnapshotPage B
  unfolding snapshot_stale latest_collected_at
  snapshot_page rows status page page_size now interval =
      let snapshots = slice ((page - 1) * page_size) page_size (sort before rows) in
      let checked_at = checked_at_of status (map collected_at snapshots) in
      record {
        items = map item snapshots;
        total = length rows;
        checked_at = checked_at;
        collection_status = status_or_unknown status;
        collection_error = error_of status;
        stale = snapshot_stale checked_at now interval;
      }

unfoldable pub get_missing_indexes :
    Unicode
    → (MissingIndexSnapshot → MissingIndexSnapshot → Bool)
    → List Instance
    → IndexTables
    → Uuid
    → Text
    → ℕ
    → ℕ
    → Time
    → Paged MissingIndexCandidate
unfolding snapshot_page missing_snapshot_item
get_missing_indexes u by_id instances t instance_id database_name page page_size now =
    elim (get_instance instance_id instances) [
      | none ↦ no_instance
      | some i ↦
          if is_system u database_name
          then system_database
          else page_of (
              snapshot_page missing_snapshot_item (λ s. s.collected_at)
                (descending (λ s. s.avg_total_user_cost) by_id)
                (keep (missing_of instance_id database_name) t.missing)
                (status_of (instance_id, (database_name, "missing")) t.statuses) page page_size now
                i.missing_index_collect_interval_seconds)
    ]

unfoldable pub get_index_fragmentation :
    Unicode
    → (IndexFragmentationSnapshot → IndexFragmentationSnapshot → Bool)
    → List Instance
    → IndexTables
    → Uuid
    → Text
    → ℕ
    → ℕ
    → Time
    → Paged IndexFragmentationItem
unfolding snapshot_page fragmentation_snapshot_item
get_index_fragmentation u by_id instances t instance_id database_name page page_size now =
    elim (get_instance instance_id instances) [
      | none ↦ no_instance
      | some i ↦
          if is_system u database_name
          then system_database
          else page_of (
              snapshot_page fragmentation_snapshot_item (λ s. s.collected_at)
                (descending (λ s. s.avg_fragmentation_in_percent) by_id)
                (keep (fragmentation_of instance_id database_name) t.fragmentation)
                (status_of (instance_id, (database_name, "fragmentation")) t.statuses) page
                page_size now i.index_fragmentation_collect_interval_seconds)
    ]

-- the names of a set, each once
abbrev pub add_name : Text → List Text → List Text
add_name name names = if contains name names then names else name ∷ names

abbrev pub as_set : List Text → List Text
as_set [] = []
as_set (name ∷ names) = add_name name (as_set names)

-- `list_user_databases`, of the names in the rows that the server answers
abbrev pub is_user_database : Unicode → Text → Bool
is_user_database u [] = false
is_user_database u (c ∷ name) = not (is_system u (c ∷ name))

unfoldable pub list_user_databases : Unicode → List Text → List Text
list_user_databases u rows = keep (is_user_database u) rows

-- the names of the statuses, or else those of the server; an exception leaves none
unfoldable pub listed_databases :
    Unicode → Base64 → (Text → Option (List Text)) → Instance → List Text → List Text
unfolding list_user_databases decrypt_connection_string
listed_databases u base64 query i (name ∷ names) = name ∷ names
listed_databases u base64 query i [] =
    elim (decrypt_connection_string base64 i.encrypted_collect_dsn) [
      | none ↦ []
      | some dsn ↦ elim (query dsn) [ none ↦ [] | some rows ↦ list_user_databases u rows ]
    ]

abbrev pub add_configured : Unicode → Option Text → List Text → List Text
add_configured u none names = names
add_configured u (some name) names = if is_user_database u name then name ∷ names else names

-- the order of texts by their characters
abbrev pub text_leb : Text → Text → Bool
text_leb [] t = true
text_leb (c ∷ s) [] = false
text_leb (c ∷ s) (d ∷ t) = ltb c d || (nat_beq c d && text_leb s t)

-- `query` is the answer of the server to the query for its databases, by connection string.
unfoldable pub get_user_databases :
    Unicode
    → Base64
    → (Text → Option (List Text))
    → List Instance
    → IndexTables
    → Uuid
    → Option (List Text)
unfolding listed_databases sort
get_user_databases u base64 query instances t instance_id =
    elim (get_instance instance_id instances) [
      | none ↦ none
      | some i ↦
          let named =
            map (λ (s : IndexCollectionStatus). s.database_name)
              (keep
                (λ (s : IndexCollectionStatus).
                  s.instance_id == instance_id && not (s.database_name == codes "*"))
                t.statuses) in
          some (
            sort text_leb (
              as_set (
                add_configured u i.database_name
                  (listed_databases u base64 query i (as_set named)))))
    ]
