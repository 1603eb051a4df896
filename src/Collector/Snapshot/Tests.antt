-- ===== src/Collector/Snapshot/Tests.antt =====
-- A small collection, that succeeds and that fails.
use sql_monitor.Base.{
  length, ◌++◌, ℕ, ◌≡◌, refl, true, false, Option, none, some, List, [], ◌∷◌, map, leb, nat_eq,
  string_eq, pair_eq, or_else, ℤ, pos, int_eq, leb_ℤ, Text, codes, list_eq, ascii, sort,
}
use sql_monitor.Auth.{Uuid}
use sql_monitor.Auth.Sample.{toy_crypto}
use sql_monitor.Snapshots.{SessionSnapshot, WaitSnapshot, Tables, frame_ref}
use sql_monitor.Snapshots.Repository.{
  list_sessions, list_requests, request_order, list_waits, list_blocking_rows, blocking_order,
}
use sql_monitor.BlockingGraph.{normalize_blocker, build_blocking_edges}
use sql_monitor.Instances.Sample.{base64, sample_instance}
use sql_monitor.Collector.Snapshot.{ServerRow}
use sql_monitor.Collector.Snapshot.Collect.{Answers, Surroundings, Frame, build_frame}
use sql_monitor.Collector.Snapshot.Store.{
  Database, collected, add_frame, new_collect_status, collect_instance_snapshot,
}
use sql_monitor.Collector.Snapshot.ReadBack.{add_frame-read}
use sql_monitor.Collector.Snapshot.Outcome.{collect_instance_snapshot-read}
use sql_monitor.Collector.Snapshot.Counting.{
  Collection, after, counter_of, failures_since, after-failures_since,
}

abbrev row : ℤ → Option ℕ → Option Text → ServerRow
row session_id request_id sql_text = record {
  session_id = some session_id;
  login_name = none;
  host_name = none;
  program_name = none;
  database_name = none;
  session_status = none;
  open_transaction_count = none;
  login_time = none;
  last_request_start_time = none;
  last_request_end_time = none;
  session_cpu_time = none;
  session_reads = none;
  session_writes = none;
  session_logical_reads = none;
  request_id = request_id;
  request_status = none;
  command = none;
  start_time = none;
  request_cpu_time_ms = none;
  total_elapsed_time_ms = none;
  request_reads = none;
  request_writes = none;
  request_logical_reads = none;
  row_count = none;
  wait_type = none;
  wait_time_ms = none;
  blocking_session_id = none;
  percent_complete = none;
  plan_handle = none;
  statement_start_offset = none;
  statement_end_offset = none;
  sql_text = sql_text;
}

abbrev answers : Answers
answers = record {
  session_request_rows =
      some (row (pos 60) none none ∷ row (pos 55) (some 0) (some (codes "SELECT 1")) ∷ []);
  wait_rows = some [];
  resource_rows = none;
}

abbrev meets : Uuid → Option Answers → Surroundings
meets frame_id answer = record {
  hashing = record {
    unicode = ascii;
    literals = record { sub_strings = λ s. s; sub_numbers = λ s. s };
    crypto = toy_crypto;
  };
  frame_id = frame_id;
  started_at = 100;
  finished_at = 5100;
  base64 = base64;
  connect = λ s. answer;
  accepted = true;
}

abbrev empty : Tables
empty = record {
  frames = [];
  sessions = [];
  requests = [];
  waits = [];
  blocking_rows = [];
  sql_texts = [];
}

abbrev database : Database
database = record {
  tables = empty;
  instances = sample_instance ∷ [];
  statuses = new_collect_status 1 7 ∷ [];
  indexes = record { missing = []; fragmentation = []; statuses = [] };
}

abbrev frame : Option Frame
frame = build_frame (meets 3 (some answers)) sample_instance

abbrev built : Frame
built = or_else frame (record {
  frame = record {
    id = 0;
    instance_id = 0;
    snapshot_time = 0;
    collect_duration_ms = 0;
    status = [];
    cpu_load_percent = none;
    memory_usage_percent = none;
    network_bytes_sent_total = none;
    network_bytes_received_total = none;
  };
  sessions = [];
  requests = [];
  waits = [];
  blocking_rows = [];
  sql_texts = [];
  resource_available = false;
})

sorted_sessions :
    map
      (λ (s : SessionSnapshot). s.session_id)
      (list_sessions (add_frame built empty) (frame_ref built.frame))
    ≡ pos 55 ∷ pos 60 ∷ []
unfolding list_sessions add_frame build_frame frame_ref build_blocking_edges normalize_blocker
sorted_sessions = refl

counts_of :
    (collect_instance_snapshot none (meets 3 (some answers)) sample_instance database).0
    ≡ collected 3 2 1 0 0
unfolding collect_instance_snapshot build_blocking_edges normalize_blocker
counts_of = refl

add_frame-read_example :
    (list_sessions (add_frame built empty) (frame_ref built.frame)
      ≡ sort (λ (a b : SessionSnapshot). leb_ℤ a.session_id b.session_id) built.sessions)
    × (list_requests (add_frame built empty) (frame_ref built.frame)
        ≡ sort request_order built.requests)
    × (list_waits (add_frame built empty) (frame_ref built.frame)
        ≡ sort (λ (a b : WaitSnapshot). leb b.total_wait_time_ms a.total_wait_time_ms) built.waits)
    × (list_blocking_rows (add_frame built empty) (frame_ref built.frame)
        ≡ sort blocking_order built.blocking_rows)
unfolding build_frame build_blocking_edges frame_ref normalize_blocker
add_frame-read_example =
    add_frame-read (meets 3 (some answers)) sample_instance built empty refl (tt, tt, tt, tt)

abbrev fails : Surroundings
fails = meets 4 none

collect_instance_snapshot-read_example :
    let after = collect_instance_snapshot none (meets 3 (some answers)) sample_instance database in
    let ref = frame_ref built.frame in
    (after.0
      ≡ collected built.frame.id
          (length (list_sessions after.1.tables ref))
          (length (list_requests after.1.tables ref))
          (length (list_waits after.1.tables ref))
          (length (list_blocking_rows after.1.tables ref)))
    × (after.1.tables.frames ≡ database.tables.frames ++ built.frame ∷ [])
unfolding build_frame build_blocking_edges frame_ref normalize_blocker
collect_instance_snapshot-read_example =
    collect_instance_snapshot-read none (meets 3 (some answers)) sample_instance database built refl
      (tt, tt, tt, tt)

-- two failures after a success
abbrev history : List Collection
history =
    (none, fails, sample_instance)
    ∷ (none, fails, sample_instance)
    ∷ (none, meets 3 (some answers), sample_instance)
    ∷ []

two_failures : failures_since 7 5 history ≡ 2
unfolding build_frame build_blocking_edges normalize_blocker
two_failures = refl

after-failures_since_example :
    counter_of 7 (after history database) ≡ some (failures_since 7 0 history)
after-failures_since_example = after-failures_since 7 0 history database refl
