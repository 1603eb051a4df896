-- ===== src/Collector/Snapshot/Store.antt =====
-- `collect_instance_snapshot` of backend/app/collector/real_instance_collector.py: one frame of one
-- instance, stored as a whole or not at all. The commit that notes a failure is taken to succeed, and
-- what is printed is left out.
use sql_monitor.Base.{
  ℕ, suc, String, true, not, Option, none, some, List, [], ◌∷◌, ◌++◌, map, leb, if◌then◌else◌, ◌==◌,
  nat_eq, string_eq, pair_eq, length, keep, int_eq, Text, list_eq, sort, upsert,
}
use sql_monitor.Auth.{Uuid, Time}
use sql_monitor.Snapshots.{Tables}
use sql_monitor.Instances.Records.{Instance, InstanceCollectStatus, decrypt_connection_string}
use sql_monitor.Collector.IndexStore.{IndexTables}
use sql_monitor.Collector.IndexStore.Collect.{Server, Session, collect_index_snapshots_if_due}
use sql_monitor.Collector.Snapshot.{persist_sql_texts}
use sql_monitor.Collector.Snapshot.Collect.{Surroundings, Frame, duration_ms, build_frame}

pub record Database : Type 0 where
  pub tables : Tables
  pub instances : List Instance
  pub statuses : List InstanceCollectStatus
  pub indexes : IndexTables

-- the counts of a success, or a failure
pub data CollectInstanceResult : Type 0 where
  collected : (frame_id : Uuid) (sessions requests waits blocking_edges : ℕ) → CollectInstanceResult
  not_collected : CollectInstanceResult

-- the rows of a frame, added to the tables
unfoldable pub add_frame : Frame → Tables → Tables
unfolding persist_sql_texts
add_frame f t = record {
  frames = t.frames ++ f.frame ∷ [];
  sessions = t.sessions ++ f.sessions;
  requests = t.requests ++ f.requests;
  waits = t.waits ++ f.waits;
  blocking_rows = t.blocking_rows ++ f.blocking_rows;
  sql_texts = persist_sql_texts f.sql_texts t.sql_texts;
}

-- `_get_or_create_collect_status`: a row that is created
abbrev pub new_collect_status : Time → Uuid → InstanceCollectStatus
new_collect_status at instance_id = record {
  instance_id = instance_id;
  last_success_at = none;
  last_failure_at = none;
  last_duration_ms = none;
  consecutive_failures = 0;
  status = "unknown";
  error_code = none;
  error_message = none;
  capabilities = none;
  updated_at = at;
}

abbrev pub succeeded : Frame → InstanceCollectStatus → InstanceCollectStatus
succeeded f s = record s {
  status = "success";
  last_success_at = some f.frame.snapshot_time;
  last_duration_ms = some f.frame.collect_duration_ms;
  consecutive_failures = 0;
  error_code = none;
  error_message = none;
  capabilities = some (record {
    sessions = true;
    requests = true;
    waits = true;
    blocking = true;
    resources = f.resource_available;
  });
  updated_at = f.frame.snapshot_time;
}

-- `_mark_collect_failed`, of the status
unfoldable pub failed : Time → Time → InstanceCollectStatus → InstanceCollectStatus
unfolding duration_ms
failed snapshot_time now s = record s {
  status = "failed";
  last_failure_at = some snapshot_time;
  last_duration_ms = some (duration_ms snapshot_time now);
  consecutive_failures = suc s.consecutive_failures;
  error_code = some "COLLECT_FAILED";
  error_message = some "采集失败";
  updated_at = snapshot_time;
}

abbrev pub status_key : InstanceCollectStatus → Uuid
status_key s = s.instance_id

-- a change of the rows of an instance, where there are any
abbrev pub set_status : String → Uuid → List Instance → List Instance
set_status status id instances =
    map (λ (i : Instance). if i.id == id then record i { status = status } else i) instances

abbrev pub change_known :
    Uuid
    → (InstanceCollectStatus → InstanceCollectStatus)
    → List InstanceCollectStatus
    → List InstanceCollectStatus
change_known id change statuses =
    map (λ (s : InstanceCollectStatus). if s.instance_id == id then change s else s) statuses

-- what the commit of a frame stores
unfoldable pub store_frame : Instance → Frame → Database → Database
unfolding add_frame
store_frame i f d = record d {
  tables = add_frame f d.tables;
  instances = set_status "online" i.id d.instances;
  statuses =
      upsert status_key i.id (new_collect_status f.frame.snapshot_time i.id) (succeeded f)
        d.statuses;
}

-- What is stored after the rollback of a failure: a status that was only added goes with it.
unfoldable pub mark_collect_failed : Instance → Time → Time → Database → Database
unfolding failed
mark_collect_failed i snapshot_time now d = record d {
  instances = set_status "collect_error" i.id d.instances;
  statuses = change_known i.id (failed snapshot_time now) d.statuses;
}

-- the collection of indexes after the commit; it does not change the result, whatever it meets
unfoldable pub then_indexes :
    Option Server → Surroundings → Instance → Option Text → Database → Database
unfolding collect_index_snapshots_if_due
then_indexes none e i dsn d = d
then_indexes (some server) e i none d = d
then_indexes (some server) e i (some connection_string) d =
    let s : Session = record { stored = d.indexes; current = d.indexes } in
    let after = collect_index_snapshots_if_due server i connection_string e.started_at none s in
    record d { indexes = after.stored }

abbrev pub result_of : Frame → CollectInstanceResult
result_of f =
    collected f.frame.id (length f.sessions) (length f.requests) (length f.waits)
      (length f.blocking_rows)

-- `collect_instance_snapshot`; `indexes` is the server for the collection of indexes, if
-- `collect_indexes` is set
unfoldable pub collect_instance_snapshot :
    Option Server → Surroundings → Instance → Database → CollectInstanceResult × Database
unfolding build_frame store_frame mark_collect_failed then_indexes decrypt_connection_string
collect_instance_snapshot indexes e i d = elim (build_frame e i) [
  | none ↦ (not_collected, mark_collect_failed i e.started_at e.finished_at d)
  | some f ↦ (
    result_of f,
    then_indexes indexes e i (decrypt_connection_string e.base64 i.encrypted_collect_dsn)
        (store_frame i f d),
  )
]

-- `list_collectable_instances`, without the statuses
unfoldable pub list_collectable_instances : List Instance → List Instance
unfolding sort
list_collectable_instances instances =
    sort (λ (a b : Instance). leb a.created_at b.created_at)
      (keep (λ (i : Instance). not (i.status == "disabled")) instances)
