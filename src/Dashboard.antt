-- ===== src/Dashboard.antt =====
-- `get_dashboard` of backend/app/services/dashboard_service.py and schemas/dashboard.py: the figures
-- of a frame, its top lists and the trend of its resources. The service reads the tables through
-- `SnapshotRepository`. A rate is the pair of a number of bytes and a number of microseconds.
mod Tests
use sql_monitor.Base.{
  ℕ, ◌-◌, ◌*◌, max, String, Bool, Option, none, some, List, [], ◌∷◌, map, ltb, leb, if◌then◌else◌,
  nat_eq, string_eq, pair_eq, is_some, or_else, length, take, keep, maximum, ℤ, int_eq, Text,
  list_eq, Dict, sort,
}
use sql_monitor.Auth.{Uuid, Time, seconds}
use sql_monitor.Snapshots.{
  SessionSnapshot, RequestSnapshot, WaitSnapshot, BlockingSnapshot, Tables, FrameRef,
}
use sql_monitor.Snapshots.Repository.{
  list_sessions, list_requests, list_waits, list_blocking_rows, list_resource_frames,
  get_resource_frame_before,
}
use sql_monitor.Sessions.{given_frame, sql_preview_map, preview_get, collect_delay_seconds}
use sql_monitor.Sqls.{sql_text_map, text_given}
use sql_monitor.Blocking.{distinct, blocked_ids}

pub record DashboardMetrics : Type 0 where
  pub session_count : ℕ
  pub active_request_count : ℕ
  pub blocked_session_count : ℕ
  pub root_blocker_count : ℕ
  pub max_blocking_duration_ms : ℕ
  pub waiting_request_count : ℕ

pub record TopWait : Type 0 where
  pub wait_type : Text
  pub wait_category : String
  pub waiting_tasks_count : ℕ
  pub total_wait_time_ms : ℕ
  pub max_wait_time_ms : ℕ

pub record TopSql : Type 0 where
  pub session_id : ℤ
  pub request_id : Option ℕ
  pub database_name : Option Text
  pub status : Option Text
  pub command : Option Text
  pub duration_ms : Option ℕ
  pub cpu_time_ms : Option ℕ
  pub logical_reads : Option ℕ
  pub reads : Option ℕ
  pub writes : Option ℕ
  pub wait_type : Option Text
  pub wait_time_ms : Option ℕ
  pub blocking_session_id : Option ℤ
  pub sql_hash : Option Text
  pub normalized_sql_hash : Option Text
  pub sql_preview : Option Text
  pub sql_text : Option Text

-- bytes per microseconds
abbrev pub Rate : Type 0
Rate = ℕ × ℕ

pub record ResourceTrendPoint : Type 0 where
  pub snapshot_time : Time
  pub cpu_load_percent : Option ℕ
  pub memory_usage_percent : Option ℕ
  pub network_send_rate : Option Rate
  pub network_receive_rate : Option Rate

pub record DashboardOut : Type 0 where
  pub instance_id : Uuid
  pub frame_id : Uuid
  pub snapshot_time : Time
  pub collect_delay_seconds : ℕ
  pub metrics_window_minutes : ℕ
  pub metrics : DashboardMetrics
  pub resource_trends : List ResourceTrendPoint
  pub top_waits : List TopWait
  pub top_cpu_sqls : List TopSql
  pub top_io_sqls : List TopSql

-- `_coalesce` of two values
abbrev pub coalesce {ℓ} : {A : Type ℓ} → Option A → Option A → Option A
coalesce none b = b
coalesce (some a) b = some a

-- a root that is not `None`, as a list
abbrev pub roots_of : List BlockingSnapshot → List ℤ
roots_of [] = []
roots_of (r ∷ rows) =
    let rest = roots_of rows in elim r.root_session_id [ none ↦ rest | some root ↦ root ∷ rest ]

-- a wait type that is not empty
abbrev pub is_waiting : RequestSnapshot → Bool
is_waiting r = is_some (text_given r.wait_type)

unfoldable pub metrics_of :
    List SessionSnapshot → List RequestSnapshot → List BlockingSnapshot → DashboardMetrics
metrics_of sessions requests blocking_rows = record {
  session_count = length sessions;
  active_request_count = length requests;
  blocked_session_count = length (distinct (blocked_ids blocking_rows));
  root_blocker_count = length (distinct (roots_of blocking_rows));
  max_blocking_duration_ms =
      maximum (map (λ (r : BlockingSnapshot). or_else r.max_wait_time_ms 0) blocking_rows);
  waiting_request_count = length (keep is_waiting requests);
}

-- `_to_top_wait`
unfoldable pub to_top_wait : WaitSnapshot → TopWait
to_top_wait w = record {
  wait_type = w.wait_type;
  wait_category = w.wait_category;
  waiting_tasks_count = w.waiting_tasks_count;
  total_wait_time_ms = w.total_wait_time_ms;
  max_wait_time_ms = w.max_wait_time_ms;
}

-- `_to_top_sql`
unfoldable pub to_top_sql : Dict Text Text → Dict Text Text → RequestSnapshot → TopSql
to_top_sql previews texts r = record {
  session_id = r.session_id;
  request_id = r.request_id;
  database_name = r.database_name;
  status = r.status;
  command = r.command;
  duration_ms = coalesce r.duration_ms r.total_elapsed_time_ms;
  cpu_time_ms = r.cpu_time_ms;
  logical_reads = r.logical_reads;
  reads = r.reads;
  writes = r.writes;
  wait_type = r.wait_type;
  wait_time_ms = r.wait_time_ms;
  blocking_session_id = r.blocking_session_id;
  sql_hash = r.sql_hash;
  normalized_sql_hash = r.normalized_sql_hash;
  sql_preview = preview_get r.sql_hash previews;
  sql_text = text_given (preview_get r.sql_hash texts);
}

-- `sorted(rows, key=..., reverse=True)[:limit]`
abbrev pub top {ℓ} : {A : Type ℓ} → ℕ → (A → ℕ) → List A → List A
top limit value rows = take limit (sort (λ a b. leb (value b) (value a)) rows)

abbrev pub cpu_value : RequestSnapshot → ℕ
cpu_value r = or_else r.cpu_time_ms 0

abbrev pub io_value : RequestSnapshot → ℕ
io_value r = or_else (coalesce r.logical_reads r.reads) 0

-- `_network_rate` of two counters that are there
abbrev pub rate_between : Time → Time → ℕ → ℕ → Option Rate
rate_between before after previous_bytes current_bytes =
    if leb after before
    then none
    else if ltb current_bytes previous_bytes
    then some (0, 1)
    else some (current_bytes - previous_bytes, after - before)

-- `_network_rate`
unfoldable pub network_rate : Option FrameRef → FrameRef → (FrameRef → Option ℕ) → Option Rate
network_rate none current counter = none
network_rate (some previous) current counter = elim (counter previous) [
  | none ↦ none
  | some previous_bytes ↦ elim (counter current) [
    | none ↦ none
    | some current_bytes ↦
        rate_between previous.snapshot_time current.snapshot_time previous_bytes current_bytes
  ]
]

unfoldable pub trend_point : Option FrameRef → FrameRef → ResourceTrendPoint
unfolding network_rate
trend_point previous f = record {
  snapshot_time = f.snapshot_time;
  cpu_load_percent = f.cpu_load_percent;
  memory_usage_percent = f.memory_usage_percent;
  network_send_rate = network_rate previous f (λ x. x.network_bytes_sent_total);
  network_receive_rate = network_rate previous f (λ x. x.network_bytes_received_total);
}

-- the loop over the frames, each with the one before it
unfoldable pub trend_points : Option FrameRef → List FrameRef → List ResourceTrendPoint
unfolding trend_point
trend_points previous [] = []
trend_points previous (f ∷ frames) = trend_point previous f ∷ trend_points (some f) frames

-- `_resource_trends`; the window has a minute at least, and times before the epoch are not reached
unfoldable pub resource_trends : Tables → Uuid → FrameRef → ℕ → List ResourceTrendPoint
unfolding list_resource_frames get_resource_frame_before trend_points sort
resource_trends t instance_id ref metrics_window_minutes =
    let since_time = ref.snapshot_time - seconds (60 * max metrics_window_minutes 1) in
    let frames =
      sort (λ (a b : FrameRef). leb a.snapshot_time b.snapshot_time)
        (list_resource_frames t instance_id since_time) in
    trend_points (get_resource_frame_before t instance_id since_time) frames

unfoldable pub get_dashboard : Tables → Uuid → Option FrameRef → ℕ → ℕ → Time → Option DashboardOut
unfolding given_frame list_sessions list_requests list_waits list_blocking_rows sql_preview_map
    sql_text_map resource_trends metrics_of to_top_wait to_top_sql sort
get_dashboard t instance_id frame top_limit metrics_window_minutes now =
    elim (given_frame t instance_id frame) [
      | none ↦ none
      | some ref ↦
          let requests = list_requests t ref in
          let to_sql = to_top_sql (sql_preview_map t requests) (sql_text_map t requests) in
          some (record {
            instance_id = instance_id;
            frame_id = ref.frame_id;
            snapshot_time = ref.snapshot_time;
            collect_delay_seconds = collect_delay_seconds now ref.snapshot_time;
            metrics_window_minutes = metrics_window_minutes;
            metrics = metrics_of (list_sessions t ref) requests (list_blocking_rows t ref);
            resource_trends = resource_trends t instance_id ref metrics_window_minutes;
            top_waits =
                map to_top_wait
                  (top top_limit (λ (w : WaitSnapshot). w.total_wait_time_ms) (list_waits t ref));
            top_cpu_sqls = map to_sql (top top_limit cpu_value requests);
            top_io_sqls = map to_sql (top top_limit io_value requests);
          })
    ]
