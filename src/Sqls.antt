-- ===== src/Sqls.antt =====
-- backend/app/services/sql_service.py and schemas/sqls.py: the list of a frame's requests with their
-- statements, sorted and in pages, and one request. The service reads the tables through
-- `SnapshotRepository`; the clock is an argument.
use sql_monitor.Base.{
  ℕ, zero, suc, ◌-◌, ◌*◌, Bool, true, false, Option, none, some, List, [], ◌∷◌, map, leb, nat_eq,
  string_eq, pair_eq, length, slice, ℤ, int_eq, Text, list_eq, Dict, sort,
}
use sql_monitor.Auth.{Uuid, Time}
use sql_monitor.Snapshots.{RequestSnapshot, Tables, FrameRef}
use sql_monitor.Snapshots.Repository.{list_requests, get_request_by_sql_hash, get_sql_text_map}
use sql_monitor.Sessions.{
  SortOrder, asc, desc, given_frame, sql_preview_map, preview_get, collect_delay_seconds,
}

pub data SqlSortBy : Type 0 where
  by_duration_ms by_cpu_time_ms by_logical_reads by_reads by_writes by_wait_time_ms : SqlSortBy

pub record SqlListItem : Type 0 where
  pub session_id : ℤ
  pub request_id : Option ℕ
  pub database_name : Option Text
  pub status : Option Text
  pub command : Option Text
  pub duration_ms : Option ℕ
  pub cpu_time_ms : Option ℕ
  pub logical_reads : Option ℕ
  pub reads : Option ℕ
  pub writes : Option ℕ
  pub wait_type : Option Text
  pub wait_time_ms : Option ℕ
  pub blocking_session_id : Option ℤ
  pub sql_hash : Option Text
  pub normalized_sql_hash : Option Text
  pub sql_preview : Option Text
  pub sql_text : Option Text

pub record SqlListOut : Type 0 where
  pub instance_id : Uuid
  pub frame_id : Uuid
  pub snapshot_time : Time
  pub collect_delay_seconds : ℕ
  pub page : ℕ
  pub page_size : ℕ
  pub total : ℕ
  pub items : List SqlListItem

-- `a or b`, where `None` and zero are falsy
abbrev pub number_or : Option ℕ → Option ℕ → Option ℕ
number_or none b = b
number_or (some zero) b = b
number_or (some (suc n)) b = some (suc n)

-- `sql_text_map.get(sql_hash) or None`: a request's row has no text of its own
abbrev pub text_given : Option Text → Option Text
text_given none = none
text_given (some []) = none
text_given (some (c ∷ s)) = some (c ∷ s)

-- `_sql_text_map` of backend/app/services/dashboard_service.py
unfoldable pub sql_text_map : Tables → List RequestSnapshot → Dict Text Text
unfolding get_sql_text_map
sql_text_map t requests = get_sql_text_map t (map (λ (r : RequestSnapshot). r.sql_hash) requests)

-- `_to_item`, from the maps of the previews and the texts
unfoldable pub to_item : Dict Text Text → Dict Text Text → RequestSnapshot → SqlListItem
to_item previews texts r = record {
  session_id = r.session_id;
  request_id = r.request_id;
  database_name = r.database_name;
  status = r.status;
  command = r.command;
  duration_ms = number_or r.duration_ms r.total_elapsed_time_ms;
  cpu_time_ms = r.cpu_time_ms;
  logical_reads = r.logical_reads;
  reads = r.reads;
  writes = r.writes;
  wait_type = r.wait_type;
  wait_time_ms = r.wait_time_ms;
  blocking_session_id = r.blocking_session_id;
  sql_hash = r.sql_hash;
  normalized_sql_hash = r.normalized_sql_hash;
  sql_preview = preview_get r.sql_hash previews;
  sql_text = text_given (preview_get r.sql_hash texts);
}

abbrev pub column : SqlSortBy → RequestSnapshot → Option ℕ
column by_duration_ms r = r.duration_ms
column by_cpu_time_ms r = r.cpu_time_ms
column by_logical_reads r = r.logical_reads
column by_reads r = r.reads
column by_writes r = r.writes
column by_wait_time_ms r = r.wait_time_ms

-- `_sort_value` compared: a missing value sorts as -1, below every number
abbrev pub value_leb : Option ℕ → Option ℕ → Bool
value_leb none b = true
value_leb (some a) none = false
value_leb (some a) (some b) = leb a b

-- which of two requests `requests.sort(key=..., reverse=...)` may put first; both sorts are stable
unfoldable pub before : SqlSortBy → SortOrder → RequestSnapshot → RequestSnapshot → Bool
before sort_by asc a b = value_leb (column sort_by a) (column sort_by b)
before sort_by desc a b = value_leb (column sort_by b) (column sort_by a)

-- Pages count from 1; a page below it is read as the first.
unfoldable pub list_sqls :
    Tables → Uuid → ℕ → ℕ → SqlSortBy → SortOrder → Option FrameRef → Time → Option SqlListOut
unfolding given_frame list_requests sql_preview_map sql_text_map to_item before sort
list_sqls t instance_id page page_size sort_by sort_order frame now =
    elim (given_frame t instance_id frame) [
      | none ↦ none
      | some ref ↦
          let requests = list_requests t ref in
          let item = to_item (sql_preview_map t requests) (sql_text_map t requests) in
          some (record {
            instance_id = instance_id;
            frame_id = ref.frame_id;
            snapshot_time = ref.snapshot_time;
            collect_delay_seconds = collect_delay_seconds now ref.snapshot_time;
            page = page;
            page_size = page_size;
            total = length requests;
            items = map item (
                slice ((page - 1) * page_size) page_size
                  (sort (before sort_by sort_order) requests));
          })
    ]

unfoldable pub get_sql_detail : Tables → Uuid → Text → Option FrameRef → Option SqlListItem
unfolding given_frame get_request_by_sql_hash sql_preview_map sql_text_map to_item
get_sql_detail t instance_id sql_hash frame = elim (given_frame t instance_id frame) [
  | none ↦ none
  | some ref ↦ elim (get_request_by_sql_hash t ref sql_hash) [
    | none ↦ none
    | some r ↦ some (to_item (sql_preview_map t (r ∷ [])) (sql_text_map t (r ∷ [])) r)
  ]
]
