-- ===== src/Sessions/Sample.antt =====
-- A frame with three sessions, one of them blocked.
use sql_monitor.Base.{
  ℕ, Option, none, some, [], ◌∷◌, nat_eq, string_eq, pair_eq, ℤ, pos, int_eq, codes, list_eq,
}
use sql_monitor.Auth.{seconds}
use sql_monitor.Snapshots.{SnapshotFrame, SessionSnapshot, RequestSnapshot, Tables, SqlText}

abbrev pub session : ℤ → ℕ → Option ℕ → SessionSnapshot
session id transactions cpu = record {
  frame_id = 1;
  instance_id = 7;
  snapshot_time = seconds 100;
  session_id = id;
  login_name = some (codes "app");
  host_name = none;
  program_name = none;
  database_name = none;
  status = some (codes "running");
  open_transaction_count = transactions;
  login_time = none;
  last_request_start_time = none;
  last_request_end_time = none;
  cpu_time = cpu;
  reads = none;
  writes = none;
  logical_reads = none;
  current_sql_hash = none;
}

abbrev pub request : ℤ → Option ℤ → RequestSnapshot
request id blocker = record {
  frame_id = 1;
  instance_id = 7;
  snapshot_time = seconds 100;
  session_id = id;
  request_id = some 0;
  database_name = none;
  status = none;
  command = none;
  start_time = none;
  duration_ms = none;
  cpu_time_ms = none;
  total_elapsed_time_ms = none;
  reads = none;
  writes = none;
  logical_reads = none;
  row_count = none;
  wait_type = some (codes "LCK_M_X");
  wait_time_ms = some 40;
  blocking_session_id = blocker;
  percent_complete = none;
  sql_hash = some (codes "h");
  normalized_sql_hash = none;
  plan_handle = none;
  statement_start_offset = none;
  statement_end_offset = none;
}

abbrev pub frame : SnapshotFrame
frame = record {
  id = 1;
  instance_id = 7;
  snapshot_time = seconds 100;
  collect_duration_ms = 5;
  status = codes "success";
  cpu_load_percent = none;
  memory_usage_percent = none;
  network_bytes_sent_total = none;
  network_bytes_received_total = none;
}

abbrev text_row : SqlText
text_row = record {
  sql_hash = codes "h";
  normalized_sql_hash = none;
  sql_text = codes "select 1";
  sql_preview = none;
  first_seen_at = 0;
  last_seen_at = 0;
}

abbrev pub tables : Tables
tables = record {
  frames = frame ∷ [];
  sessions =
      session (pos 60) 0 (some 5) ∷ session (pos 55) 1 none ∷ session (pos 52) 2 (some 9) ∷ [];
  requests = request (pos 55) (some (pos 60)) ∷ [];
  waits = [];
  blocking_rows = [];
  sql_texts = text_row ∷ [];
}
