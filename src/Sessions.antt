-- ===== src/Sessions.antt =====
-- backend/app/services/session_service.py and schemas/sessions.py: the list of a frame's sessions,
-- filtered, sorted and in pages, and one session. The services' parameter `frame` and the clock are
-- arguments; the service reads the tables through `SnapshotRepository`.
pub mod Pages
pub mod Filters
pub mod Sample
mod Tests
use sql_monitor.Base.{
  ℕ, ◌-◌, ◌*◌, ◌/◌, Bool, true, false, not, ◌&&◌, ◌||◌, Option, none, some, List, [], ◌∷◌, map, ltb,
  ◌==◌, nat_eq, string_eq, pair_eq, is_some, length, keep, slice, ℤ, pos, negsuc, int_eq, leb_ℤ,
  Text, list_eq, Dict, lookup, insert, sort,
}
use sql_monitor.Auth.{Uuid, Time}
use sql_monitor.Snapshots.{SessionSnapshot, RequestSnapshot, Tables, FrameRef}
use sql_monitor.Snapshots.Repository as Repo

pub data SessionSortBy : Type 0 where
  by_session_id by_cpu_time by_reads by_writes by_logical_reads : SessionSortBy

pub data SortOrder : Type 0 where
  asc desc : SortOrder

pub record SessionListItem : Type 0 where
  pub session_id : ℤ
  pub login_name : Option Text
  pub host_name : Option Text
  pub program_name : Option Text
  pub database_name : Option Text
  pub status : Option Text
  pub open_transaction_count : ℕ
  pub cpu_time : Option ℕ
  pub reads : Option ℕ
  pub writes : Option ℕ
  pub logical_reads : Option ℕ
  pub wait_type : Option Text
  pub wait_time_ms : Option ℕ
  pub blocking_session_id : Option ℤ
  pub current_sql_hash : Option Text
  pub current_sql_preview : Option Text

pub record SessionListOut : Type 0 where
  pub instance_id : Uuid
  pub frame_id : Uuid
  pub snapshot_time : Time
  pub collect_delay_seconds : ℕ
  pub page : ℕ
  pub page_size : ℕ
  pub total : ℕ
  pub items : List SessionListItem

-- the parameters of a query beside the page
pub record SessionQuery : Type 0 where
  pub status : Option Text
  pub only_blocked : Bool
  pub only_open_transaction : Bool
  pub sort_by : SessionSortBy
  pub sort_order : SortOrder

-- `max(int((now - snapshot_time).total_seconds()), 0)`: ℕ's subtraction stops at 0.
abbrev pub collect_delay_seconds : Time → Time → ℕ
collect_delay_seconds now snapshot_time = (now - snapshot_time) / 1000000

-- `x or y` where `None` and the empty text are falsy
abbrev pub hash_or : Option Text → Option Text → Option Text
hash_or (some (c ∷ s)) d = some (c ∷ s)
hash_or (some []) d = d
hash_or none d = d

-- a field of a request that may be `None`
abbrev pub of_request {ℓ} :
    {A : Type ℓ} → Option RequestSnapshot → (RequestSnapshot → Option A) → Option A
of_request none field = none
of_request (some r) field = field r

-- `preview_map.get(sql_hash)`
abbrev pub preview_get : Option Text → Dict Text Text → Option Text
preview_get none previews = none
preview_get (some h) previews = lookup h previews

-- `_to_item`
unfoldable pub to_item : SessionSnapshot → Option RequestSnapshot → Dict Text Text → SessionListItem
to_item session request previews =
    let sql_hash = hash_or session.current_sql_hash (of_request request (λ r. r.sql_hash)) in
    record {
      session_id = session.session_id;
      login_name = session.login_name;
      host_name = session.host_name;
      program_name = session.program_name;
      database_name = session.database_name;
      status = session.status;
      open_transaction_count = session.open_transaction_count;
      cpu_time = session.cpu_time;
      reads = session.reads;
      writes = session.writes;
      logical_reads = session.logical_reads;
      wait_type = of_request request (λ r. r.wait_type);
      wait_time_ms = of_request request (λ r. r.wait_time_ms);
      blocking_session_id = of_request request (λ r. r.blocking_session_id);
      current_sql_hash = sql_hash;
      current_sql_preview = preview_get sql_hash previews;
    }

-- `_sql_preview_map` of backend/app/services/dashboard_service.py
unfoldable pub sql_preview_map : Tables → List RequestSnapshot → Dict Text Text
unfolding Repo.get_sql_preview_map
sql_preview_map t requests =
    Repo.get_sql_preview_map t (map (λ (r : RequestSnapshot). r.sql_hash) requests)

-- `{request.session_id: request for request in requests}`: the last request of a session stays.
unfoldable pub request_by_session :
    List RequestSnapshot → Dict ℤ RequestSnapshot → Dict ℤ RequestSnapshot
request_by_session [] d = d
request_by_session (r ∷ requests) d = request_by_session requests (insert r.session_id r d)

abbrev pub counter : Option ℕ → ℤ
counter none = negsuc 0
counter (some n) = pos n

-- `_sort_value`: a missing value sorts as -1
unfoldable pub sort_value : SessionSortBy → SessionSnapshot → ℤ
sort_value by_session_id s = s.session_id
sort_value by_cpu_time s = counter s.cpu_time
sort_value by_reads s = counter s.reads
sort_value by_writes s = counter s.writes
sort_value by_logical_reads s = counter s.logical_reads

-- which of two rows `filtered.sort(key=..., reverse=...)` may put first; both sorts are stable
unfoldable pub before :
    SessionSortBy
    → SortOrder
    → SessionSnapshot × Option RequestSnapshot
    → SessionSnapshot × Option RequestSnapshot
    → Bool
unfolding sort_value
before sort_by asc (a, r) (b, q) = leb_ℤ (sort_value sort_by a) (sort_value sort_by b)
before sort_by desc (a, r) (b, q) = leb_ℤ (sort_value sort_by b) (sort_value sort_by a)

abbrev pub status_is : Option Text → Option Text → Bool
status_is none status = true
status_is (some wanted) none = false
status_is (some wanted) (some status) = status == wanted

-- the three conditions of the loop that `continue` on the others
unfoldable pub is_listed : SessionQuery → SessionSnapshot × Option RequestSnapshot → Bool
is_listed query (session, request) =
    status_is query.status session.status
    && ((not query.only_blocked || is_some (of_request request (λ r. r.blocking_session_id)))
        && (not query.only_open_transaction || ltb 0 session.open_transaction_count))

-- every session of the frame with its request
unfoldable pub with_requests : Tables → FrameRef → List (SessionSnapshot × Option RequestSnapshot)
unfolding request_by_session Repo.list_sessions Repo.list_requests
with_requests t ref =
    let requests = request_by_session (Repo.list_requests t ref) [] in
    map (λ (s : SessionSnapshot). (s, lookup s.session_id requests)) (Repo.list_sessions t ref)

-- `filtered`, sorted
unfoldable pub listed :
    Tables → FrameRef → SessionQuery → List (SessionSnapshot × Option RequestSnapshot)
unfolding sort before is_listed with_requests
listed t ref query =
    sort (before query.sort_by query.sort_order) (keep (is_listed query) (with_requests t ref))

-- `frame or await repository.get_latest_frame(instance_id)`
unfoldable pub given_frame : Tables → Uuid → Option FrameRef → Option FrameRef
unfolding Repo.get_latest_frame
given_frame t instance_id none = Repo.get_latest_frame t instance_id
given_frame t instance_id (some ref) = some ref

-- Pages count from 1; a page below it is read as the first.
unfoldable pub list_sessions :
    Tables → Uuid → SessionQuery → ℕ → ℕ → Option FrameRef → Time → Option SessionListOut
unfolding given_frame listed sql_preview_map to_item Repo.list_requests
list_sessions t instance_id query page page_size frame now =
    elim (given_frame t instance_id frame) [
      | none ↦ none
      | some ref ↦
          let filtered = listed t ref query in
          let previews = sql_preview_map t (Repo.list_requests t ref) in
          some (record {
            instance_id = instance_id;
            frame_id = ref.frame_id;
            snapshot_time = ref.snapshot_time;
            collect_delay_seconds = collect_delay_seconds now ref.snapshot_time;
            page = page;
            page_size = page_size;
            total = length filtered;
            items =
                map (λ (p : SessionSnapshot × Option RequestSnapshot). to_item p.0 p.1 previews)
                  (slice ((page - 1) * page_size) page_size filtered);
          })
    ]

abbrev pub to_list {ℓ} : {A : Type ℓ} → Option A → List A
to_list none = []
to_list (some a) = a ∷ []

unfoldable pub get_session_detail : Tables → Uuid → ℤ → Option FrameRef → Option SessionListItem
unfolding given_frame sql_preview_map to_item Repo.get_session Repo.get_request_by_session
get_session_detail t instance_id session_id frame = elim (given_frame t instance_id frame) [
  | none ↦ none
  | some ref ↦ elim (Repo.get_session t ref session_id) [
    | none ↦ none
    | some session ↦
        let request = Repo.get_request_by_session t ref session_id in
        some (to_item session request (sql_preview_map t (to_list request)))
  ]
]
