-- ===== src/Collector/Snapshot/Collect.antt =====
-- The `try` of `collect_instance_snapshot` of backend/app/collector/real_instance_collector.py: the
-- frame of one instance, or an exception. The server's answers, the clock, the new id and whether the
-- database takes the frame are arguments.
use sql_monitor.Base.{
  ℕ, ◌-◌, ◌/◌, Bool, Option, none, some, List, map, if◌then◌else◌, nat_eq, string_eq, pair_eq,
  int_eq, Text, codes, list_eq, values,
}
use sql_monitor.Auth.{Uuid, Time}
use sql_monitor.Snapshots.{
  SnapshotFrame, SessionSnapshot, RequestSnapshot, WaitSnapshot, BlockingSnapshot, SqlText,
}
use sql_monitor.Instances.Records.{Instance, Base64, decrypt_connection_string}
use sql_monitor.Collector.Frame.{WaitRow, build_wait_snapshots, build_blocking_snapshots}
use sql_monitor.Collector.Snapshot.{
  ServerRow, session_row, Hashing, Built, build_session_and_request_snapshots, ResourceRow,
  collect_resource_metrics,
}

-- The answers of a server to the three queries. `none` is a query that raises.
pub record Answers : Type 0 where
  pub session_request_rows : Option (List ServerRow)
  pub wait_rows : Option (List WaitRow)
  pub resource_rows : Option (List ResourceRow)

-- What one collection meets: its new id, the clock at its start and at its end, the client that the
-- connection string opens, and whether the partitions, the new rows and the commit are accepted.
pub record Surroundings : Type 0 where
  pub hashing : Hashing
  pub frame_id : Uuid
  pub started_at : Time
  pub finished_at : Time
  pub base64 : Base64
  pub connect : Text → Option Answers
  pub accepted : Bool

-- `_duration_ms`, from microseconds; a clock that went back counts as no time
unfoldable pub duration_ms : Time → Time → ℕ
duration_ms started_at finished_at = (finished_at - started_at) / 1000

-- all that is stored of a frame
pub record Frame : Type 0 where
  pub frame : SnapshotFrame
  pub sessions : List SessionSnapshot
  pub requests : List RequestSnapshot
  pub waits : List WaitSnapshot
  pub blocking_rows : List BlockingSnapshot
  pub sql_texts : List SqlText
  pub resource_available : Bool

infixl 5 ◌>>=◌
abbrev pub ◌>>=◌ {ℓ κ} : {A : Type ℓ} {B : Type κ} → Option A → (A → Option B) → Option B
none >>= f = none
some a >>= f = f a

module _ (e : Surroundings) where
  -- the frame from the rows of the three queries
  unfoldable pub frame_of :
      Uuid → Built → List WaitSnapshot → List BlockingSnapshot → ResourceRow × Bool → Frame
  unfolding duration_ms
  frame_of instance_id (sessions, requests, sql_texts) waits blocking_rows (metrics, available) =
      record {
        frame = record {
          id = e.frame_id;
          instance_id = instance_id;
          snapshot_time = e.started_at;
          collect_duration_ms = duration_ms e.started_at e.finished_at;
          status = codes "success";
          cpu_load_percent = metrics.cpu_load_percent;
          memory_usage_percent = metrics.memory_usage_percent;
          network_bytes_sent_total = metrics.network_bytes_sent_total;
          network_bytes_received_total = metrics.network_bytes_received_total;
        };
        sessions = sessions;
        requests = requests;
        waits = waits;
        blocking_rows = blocking_rows;
        sql_texts = values sql_texts;
        resource_available = available;
      }

  -- the `try`, up to the commit: `none` is any exception
  unfoldable pub build_frame : Instance → Option Frame
  unfolding decrypt_connection_string frame_of build_session_and_request_snapshots
      build_wait_snapshots build_blocking_snapshots collect_resource_metrics
  build_frame i = do
    connection_string ← decrypt_connection_string e.base64 i.encrypted_collect_dsn
    answers ← e.connect connection_string
    rows ← answers.session_request_rows
    wait_rows ← answers.wait_rows
    built ← build_session_and_request_snapshots e.hashing e.frame_id i.id e.started_at rows
    blocking_rows ←
        build_blocking_snapshots e.frame_id i.id e.started_at (map session_row rows) wait_rows
    if e.accepted
        then some (
            frame_of i.id built
              (build_wait_snapshots e.hashing.unicode e.frame_id i.id e.started_at wait_rows)
              blocking_rows (collect_resource_metrics answers.resource_rows))
        else none
