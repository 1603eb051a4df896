-- ===== src/Collector/IndexStore/Collect.antt =====
-- `_collect_index_snapshots_if_due` of backend/app/collector/real_instance_collector.py and its
-- callers. The client, what it lists, and the clock of the threads are arguments; the database takes
-- every write.
use sql_monitor.Base.{
  ℕ, String, Bool, true, false, ◌||◌, Option, none, some, List, [], ◌∷◌, if◌then◌else◌, ◌==◌,
  nat_eq, string_eq, pair_eq, int_eq, Text, codes, list_eq,
}
use sql_monitor.Auth.{Uuid, Time}
use sql_monitor.Instances.Records.{Instance, Base64, decrypt_connection_string, get_instance}
use sql_monitor.Collector.Pool.{Try, Source, Limits, collect_concurrently}
use sql_monitor.Collector.IndexStore.{
  MissingIndexCandidate, IndexFragmentationItem, IndexCollectionStatus, IndexTables, DatabaseResult,
  mark_index_collection_failed, persist_result,
}
use sql_monitor.Collector.IndexStore.Due.{
  StatusValue, status_values, load_index_collection_statuses, index_collection_due,
}

-- What the collection of an instance is given beside its row: the client, and for each of the two
-- groups of threads their limits and the number of rounds.
pub record Server : Type 1 where
  pub Client : Type 0
  pub base64 : Base64
  pub client_factory : Text → Try Client
  pub list_user_databases : Client → Try (List Text)
  pub list_missing_indexes : Client → Text → Try (List MissingIndexCandidate)
  pub list_index_fragmentation : Client → Text → Try (List IndexFragmentationItem)
  pub timeout_message : Text
  pub concurrency : ℕ
  pub limits : Bool → Limits
  pub rounds : Bool → ℕ

-- a database session: what is committed, and what the session sees
pub record Session : Type 0 where
  pub stored : IndexTables
  pub current : IndexTables

unfoldable pub commit : Session → Session
commit s = record { stored = s.current; current = s.current }

unfoldable pub rollback : Session → Session
rollback s = record { stored = s.stored; current = s.stored }

module _ (server : Server) where
  abbrev pub source_of : Bool → Bool → Source
  source_of missing_due fragmentation_due = record {
    Missing = MissingIndexCandidate;
    Fragmentation = IndexFragmentationItem;
    Client = server.Client;
    action_enabled = λ (i : IndexFragmentationItem). i.action_enabled;
    client_factory = server.client_factory;
    list_missing_indexes = server.list_missing_indexes;
    list_index_fragmentation = server.list_index_fragmentation;
    missing_due = missing_due;
    fragmentation_due = fragmentation_due;
    timeout_message = server.timeout_message;
  }

  -- the databases listed by a new client
  abbrev pub databases_of : Try server.Client → Try (List Text)
  databases_of (Try.raised message) = Try.raised message
  databases_of (Try.ok client) = server.list_user_databases client

  -- the results of a group in the order in which they come, each persisted and committed
  unfoldable pub persist_all : Uuid → List DatabaseResult → Bool → Bool → Time → Session → Session
  unfolding persist_result commit
  persist_all instance_id [] missing_due fragmentation_due at s = s
  persist_all instance_id (r ∷ results) missing_due fragmentation_due at s =
      persist_all instance_id results missing_due fragmentation_due at (
        commit (record s {
          current = persist_result instance_id r missing_due fragmentation_due at s.current;
        }))

  -- one of the `collection_groups`, by its two flags
  unfoldable pub collect_group : Uuid → Text → List Text → Bool → Bool → Time → Session → Session
  unfolding collect_concurrently persist_all
  collect_group instance_id connection_string databases missing_due fragmentation_due at s =
      let pool =
        collect_concurrently (source_of missing_due fragmentation_due) connection_string
          (server.limits missing_due) server.concurrency databases (server.rounds missing_due) in
      persist_all instance_id pool.yielded missing_due fragmentation_due at s

  -- the mark of a failure that concerns all databases, without a commit
  abbrev pub mark_if : Bool → Uuid → String → Text → Time → Session → Session
  mark_if due instance_id index_type message at s =
      if due
      then record s {
        current =
            mark_index_collection_failed (instance_id, (codes "*", index_type)) message at
              s.current;
      }
      else s

  -- the databases, or the failure to list them
  unfoldable pub collect_databases :
      Uuid → Text → Try (List Text) → Bool → Bool → Time → Session → Session
  unfolding mark_index_collection_failed collect_group
  collect_databases id connection_string (Try.raised message) missing_due fragmentation_due at s =
      mark_if fragmentation_due id "fragmentation" message at
        (mark_if missing_due id "missing" message at s)
  collect_databases id connection_string (Try.ok []) missing_due fragmentation_due at s = s
  collect_databases id connection_string (Try.ok (d ∷ ds)) missing_due fragmentation_due at s =
      let s' =
        if missing_due then collect_group id connection_string (d ∷ ds) true false at s else s in
      if fragmentation_due then collect_group id connection_string (d ∷ ds) false true at s' else s'

  -- from the statuses on
  unfoldable pub collect_if_due : Instance → Text → Time → List StatusValue → Session → Session
  unfolding index_collection_due collect_databases
  collect_if_due i connection_string collected_at statuses s =
      let missing_due =
        index_collection_due statuses "missing" collected_at
          i.missing_index_collect_interval_seconds in
      let fragmentation_due =
        index_collection_due statuses "fragmentation" collected_at
          i.index_fragmentation_collect_interval_seconds in
      if missing_due || fragmentation_due
      then collect_databases i.id connection_string
          (databases_of (server.client_factory connection_string)) missing_due fragmentation_due
          collected_at s
      else s

  -- `_collect_index_snapshots_if_due`; the statuses are those given, or else those stored
  unfoldable pub collect_index_snapshots_if_due :
      Instance → Text → Time → Option (List IndexCollectionStatus) → Session → Session
  unfolding load_index_collection_statuses status_values collect_if_due rollback
  collect_index_snapshots_if_due i connection_string collected_at (some given) s =
      collect_if_due i connection_string collected_at (status_values given) s
  collect_index_snapshots_if_due i connection_string collected_at none s =
      collect_if_due i connection_string collected_at
        (status_values (load_index_collection_statuses i.id s.current)) (rollback s)

  -- an instance that is not disabled, with the connection string that is read
  unfoldable pub collect_instance : Instance → Option Text → Time → Session → Session
  unfolding collect_index_snapshots_if_due
  collect_instance i none now s = s
  collect_instance i (some connection_string) now s =
      collect_index_snapshots_if_due i connection_string now none s

  -- `collect_index_snapshots_for_instance`; a string that cannot be read raises
  unfoldable pub collect_index_snapshots_for_instance :
      List Instance → Uuid → Time → Session → Session
  unfolding collect_instance decrypt_connection_string
  collect_index_snapshots_for_instance instances instance_id now s =
      elim (get_instance instance_id instances) [
        | none ↦ s
        | some i ↦
            let collected =
              collect_instance i (decrypt_connection_string server.base64 i.encrypted_collect_dsn)
                now s in
            if i.status == "disabled" then s else collected
      ]

-- `_run_index_collection_for_instance` of collector/main.py: a session of its own, which is closed
-- without a commit
unfoldable pub run_index_collection_for_instance :
    Server → List Instance → Uuid → Time → IndexTables → IndexTables
unfolding collect_index_snapshots_for_instance
run_index_collection_for_instance server instances instance_id now t =
    let s : Session = record { stored = t; current = t } in
    (collect_index_snapshots_for_instance server instances instance_id now s).stored
