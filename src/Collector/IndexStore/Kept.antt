-- ===== src/Collector/IndexStore/Kept.antt =====
-- What a failed collection of indexes keeps: backend/app/collector/real_instance_collector.py.
use sql_monitor.Base.{
  true, false, ◌&&◌, ℕ, ◌≡◌, refl, inl, inr, Bool, ◌||◌, Option, none, some, List, arith, ◌==◌,
  nat_eq, string_eq, pair_eq, Bool-cases, int_eq, Text, list_eq,
}
use sql_monitor.Auth.{Uuid, Time}
use sql_monitor.Instances.Records.{Instance, decrypt_connection_string, get_instance}
use sql_monitor.Collector.Pool.{Try}
use sql_monitor.Collector.IndexStore.{IndexCollectionStatus, IndexTables, Key, status_of}
use sql_monitor.Collector.IndexStore.Due.{
  StatusValue, status_values, load_index_collection_statuses, index_collection_due,
}
use sql_monitor.Collector.IndexStore.Collect.{
  rollback, Server, Session, databases_of, collect_databases, collect_if_due,
  collect_index_snapshots_if_due, collect_instance, collect_index_snapshots_for_instance,
  run_index_collection_for_instance,
}

-- what a status says of the last success: its time and its number of items
abbrev pub success_of : Option IndexCollectionStatus → Option Time × ℕ
success_of none = (none, 0)
success_of (some s) = (s.last_success_at, s.item_count)

-- the two tables of snapshots, and what all statuses say of their last success, are the same
abbrev pub IsKept : IndexTables → IndexTables → Type 0
IsKept t t' =
    (t'.missing ≡ t.missing)
    × (t'.fragmentation ≡ t.fragmentation)
    × ((key : Key) → success_of (status_of key t'.statuses) ≡ success_of (status_of key t.statuses))

-- the row notes a failure: its time and its message
abbrev pub IsNoted : Time → Text → Option IndexCollectionStatus → Type 0
IsNoted at message none = ⊥
IsNoted at message (some s) =
    (s.status ≡ "failed")
    × (s.last_failure_at ≡ some at)
    × (s.error_message ≡ some message)
    × (s.updated_at ≡ at)

-- Exactly the kinds that are due have their failures noted, of one database of an instance.
abbrev pub NotesFailures :
    Uuid → Text → Bool → Bool → Time → Text → Text → IndexTables → IndexTables → Type 0
NotesFailures i d missing_due fragmentation_due at m n t t' =
    (missing_due ≡ true → IsNoted at m (status_of (i, (d, "missing")) t'.statuses))
    × (fragmentation_due ≡ true → IsNoted at n (status_of (i, (d, "fragmentation")) t'.statuses))
    × ((key : Key)
        → (missing_due && ((i, (d, "missing")) == key)) ≡ false
        → (fragmentation_due && ((i, (d, "fragmentation")) == key)) ≡ false
        → status_of key t'.statuses ≡ status_of key t.statuses)

module _ (server : Server) where
  -- marks, which are not committed
  collect_databases-stored :
      (id : Uuid) (connection_string message : Text) (missing_due fragmentation_due : Bool)
      (at : Time) (s : Session)
      → (collect_databases server id connection_string
          (Try.raised message)
          missing_due
          fragmentation_due
          at
          s).stored
        ≡ s.stored
  unfolding collect_databases
  collect_databases-stored id connection_string message missing_due fragmentation_due at s =
      ground arith

  collect_if_due-stored :
      (i : Instance) (connection_string message : Text) (at : Time) (statuses : List StatusValue)
      (s : Session)
      → databases_of server (server.client_factory connection_string) ≡ Try.raised message
      → (collect_if_due server i connection_string at statuses s).stored ≡ s.stored
  unfolding collect_if_due
  collect_if_due-stored i connection_string message at statuses s h =
      let md =
        index_collection_due statuses "missing" at i.missing_index_collect_interval_seconds in
      let fd =
        index_collection_due statuses "fragmentation" at
          i.index_fragmentation_collect_interval_seconds in
      rw h (elim (Bool-cases (md || fd)) [
        | inl q ↦ rw q (collect_databases-stored i.id connection_string message md fd at s)
        | inr q ↦ rw q refl
      ])

  -- When no client can be opened or the databases cannot be listed, the background task of an
  -- instance stores nothing: the failures that it marks with the database `*` are not committed.
  pub run_index_collection_for_instance_unlisted :
      (instances : List Instance) (instance_id : Uuid) (i : Instance)
      (connection_string message : Text) (now : Time) (t : IndexTables)
      → get_instance instance_id instances ≡ some i
      → decrypt_connection_string server.base64 i.encrypted_collect_dsn ≡ some connection_string
      → databases_of server (server.client_factory connection_string) ≡ Try.raised message
      → run_index_collection_for_instance server instances instance_id now t ≡ t
  unfolding run_index_collection_for_instance collect_index_snapshots_for_instance collect_instance
      collect_index_snapshots_if_due rollback
  run_index_collection_for_instance_unlisted instances id i connection_string message now t h k l =
      rw (run_index_collection_for_instance, collect_index_snapshots_for_instance, h, k)
        (elim (Bool-cases (i.status == "disabled")) [
          | inl q ↦ rw q refl
          | inr q ↦ rw q (
              collect_if_due-stored i connection_string message now
                (status_values (load_index_collection_statuses i.id t))
                (record { stored = t; current = t }) l)
        ])
