-- ===== src/Snapshots.antt =====
-- backend/app/db/models.py and the repository of services/dashboard_service.py: the frames that the
-- collector stores, and the queries on them. A table is a list of its rows; the columns `id` and
-- `created_at`, which the code writes and never reads, are left out, and a percentage stands in
-- hundredths, as its column does. Where a query orders by equal values, the table's order decides.
pub mod Repository
use sql_monitor.Base.{
  ℕ, String, Bool, Option, List, nat_eq, string_eq, pair_eq, ℤ, int_eq, Text, list_eq,
}
use sql_monitor.Auth.{Uuid, Time}

pub record SnapshotFrame : Type 0 where
  pub id : Uuid
  pub instance_id : Uuid
  pub snapshot_time : Time
  pub collect_duration_ms : ℕ
  pub status : Text
  pub cpu_load_percent : Option ℕ
  pub memory_usage_percent : Option ℕ
  pub network_bytes_sent_total : Option ℕ
  pub network_bytes_received_total : Option ℕ

pub record SessionSnapshot : Type 0 where
  pub frame_id : Uuid
  pub instance_id : Uuid
  pub snapshot_time : Time
  pub session_id : ℤ
  pub login_name : Option Text
  pub host_name : Option Text
  pub program_name : Option Text
  pub database_name : Option Text
  pub status : Option Text
  pub open_transaction_count : ℕ
  pub login_time : Option Time
  pub last_request_start_time : Option Time
  pub last_request_end_time : Option Time
  pub cpu_time : Option ℕ
  pub reads : Option ℕ
  pub writes : Option ℕ
  pub logical_reads : Option ℕ
  pub current_sql_hash : Option Text

pub record RequestSnapshot : Type 0 where
  pub frame_id : Uuid
  pub instance_id : Uuid
  pub snapshot_time : Time
  pub session_id : ℤ
  pub request_id : Option ℕ
  pub database_name : Option Text
  pub status : Option Text
  pub command : Option Text
  pub start_time : Option Time
  pub duration_ms : Option ℕ
  pub cpu_time_ms : Option ℕ
  pub total_elapsed_time_ms : Option ℕ
  pub reads : Option ℕ
  pub writes : Option ℕ
  pub logical_reads : Option ℕ
  pub row_count : Option ℕ
  pub wait_type : Option Text
  pub wait_time_ms : Option ℕ
  pub blocking_session_id : Option ℤ
  pub percent_complete : Option ℕ
  pub sql_hash : Option Text
  pub normalized_sql_hash : Option Text
  pub plan_handle : Option Text
  pub statement_start_offset : Option ℤ
  pub statement_end_offset : Option ℤ

pub record WaitSnapshot : Type 0 where
  pub frame_id : Uuid
  pub instance_id : Uuid
  pub snapshot_time : Time
  pub wait_type : Text
  pub wait_category : String
  pub waiting_tasks_count : ℕ
  pub total_wait_time_ms : ℕ
  pub max_wait_time_ms : ℕ

pub record BlockingSnapshot : Type 0 where
  pub frame_id : Uuid
  pub instance_id : Uuid
  pub snapshot_time : Time
  pub root_session_id : Option ℤ
  pub blocking_session_id : Option ℤ
  pub blocked_session_id : ℤ
  pub chain_depth : ℕ
  pub blocked_count : ℕ
  pub max_wait_time_ms : Option ℕ
  pub wait_type : Option Text
  pub resource_description : Option Text
  pub cycle_detected : Bool
  pub special_blocker_code : Option ℤ

pub record SqlText : Type 0 where
  pub sql_hash : Text
  pub normalized_sql_hash : Option Text
  pub sql_text : Text
  pub sql_preview : Option Text
  pub first_seen_at : Time
  pub last_seen_at : Time

-- the tables that the snapshot services read
pub record Tables : Type 0 where
  pub frames : List SnapshotFrame
  pub sessions : List SessionSnapshot
  pub requests : List RequestSnapshot
  pub waits : List WaitSnapshot
  pub blocking_rows : List BlockingSnapshot
  pub sql_texts : List SqlText

pub record FrameRef : Type 0 where
  pub frame_id : Uuid
  pub instance_id : Uuid
  pub snapshot_time : Time
  pub collect_duration_ms : ℕ
  pub status : Text
  pub cpu_load_percent : Option ℕ
  pub memory_usage_percent : Option ℕ
  pub network_bytes_sent_total : Option ℕ
  pub network_bytes_received_total : Option ℕ

-- `frame_ref` of a row
unfoldable pub frame_ref : SnapshotFrame → FrameRef
frame_ref f = record {
  frame_id = f.id;
  instance_id = f.instance_id;
  snapshot_time = f.snapshot_time;
  collect_duration_ms = f.collect_duration_ms;
  status = f.status;
  cpu_load_percent = f.cpu_load_percent;
  memory_usage_percent = f.memory_usage_percent;
  network_bytes_sent_total = f.network_bytes_sent_total;
  network_bytes_received_total = f.network_bytes_received_total;
}
