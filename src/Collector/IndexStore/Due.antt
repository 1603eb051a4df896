-- ===== src/Collector/IndexStore/Due.antt =====
-- When a collection of indexes is due: the statuses and `_index_collection_due` of
-- backend/app/collector/real_instance_collector.py.
use sql_monitor.Base.{
  ℕ, ◌+◌, max, String, Bool, true, not, ◌&&◌, Option, none, some, List, [], ◌∷◌, map, leb,
  if◌then◌else◌, ◌==◌, nat_eq, string_eq, pair_eq, keep, int_eq, Text, codes, list_eq,
}
use sql_monitor.Auth.{Uuid, Time, seconds}
use sql_monitor.Collector.IndexStore.{IndexCollectionStatus, IndexTables}

-- `IndexCollectionStatusValue`
pub record StatusValue : Type 0 where
  pub database_name : Text
  pub index_type : String
  pub last_success_at : Option Time

-- `_load_index_collection_statuses`, then `_index_collection_status_values`
unfoldable pub status_values : List IndexCollectionStatus → List StatusValue
status_values statuses =
    map
      (λ (s : IndexCollectionStatus). record {
        database_name = s.database_name;
        index_type = s.index_type;
        last_success_at = s.last_success_at;
      })
      statuses

unfoldable pub load_index_collection_statuses : Uuid → IndexTables → List IndexCollectionStatus
load_index_collection_statuses instance_id t =
    keep (λ (s : IndexCollectionStatus). s.instance_id == instance_id) t.statuses

-- the greater of two times, where there are two
abbrev pub later : Option Time → Option Time → Option Time
later none b = b
later (some a) none = some a
later (some a) (some b) = some (max a b)

-- a status of the kind, of one database
abbrev pub counts : String → StatusValue → Bool
counts index_type s = s.index_type == index_type && not (s.database_name == codes "*")

-- `max((status.last_success_at for ...), default=None)`
unfoldable pub latest_success : String → List StatusValue → Option Time
latest_success index_type [] = none
latest_success index_type (s ∷ statuses) =
    let rest = latest_success index_type statuses in
    if counts index_type s then later s.last_success_at rest else rest

unfoldable pub index_collection_due : List StatusValue → String → Time → ℕ → Bool
unfolding latest_success
index_collection_due statuses index_type now_value interval_seconds =
    elim (latest_success index_type statuses) [
      | none ↦ true
      | some latest ↦ leb (latest + seconds interval_seconds) now_value
    ]
