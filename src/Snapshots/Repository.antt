-- ===== src/Snapshots/Repository.antt =====
-- `SnapshotRepository` of backend/app/services/dashboard_service.py: every query as a filter and an
-- order on a table.
pub mod Latest
mod Tests
use sql_monitor.Base.{
  ℕ, ◌+◌, Bool, true, false, ◌&&◌, Option, none, some, List, [], ◌∷◌, map, ltb, leb, if◌then◌else◌,
  Eq, ◌==◌, nat_eq, string_eq, pair_eq, keep, contains, ℤ, int_eq, leb_ℤ, Text, list_eq, text_or,
  Dict, insert, sort,
}
use sql_monitor.Auth.{Uuid, Time, seconds}
use sql_monitor.Snapshots.{
  SnapshotFrame, SessionSnapshot, RequestSnapshot, WaitSnapshot, BlockingSnapshot, SqlText, Tables,
  FrameRef, frame_ref,
}

-- `result.scalars().first()`
abbrev pub first {ℓ} : {A : Type ℓ} → List A → Option A
first [] = none
first (x ∷ xs) = some x

abbrev ref_of : Option SnapshotFrame → Option FrameRef
ref_of none = none
ref_of (some f) = some (frame_ref f)

-- `order_by(snapshot_time.desc())` and `.asc()`
abbrev pub newer : SnapshotFrame → SnapshotFrame → Bool
newer a b = leb b.snapshot_time a.snapshot_time

abbrev pub older : SnapshotFrame → SnapshotFrame → Bool
older a b = leb a.snapshot_time b.snapshot_time

unfoldable pub get_latest_frame : Tables → Uuid → Option FrameRef
unfolding sort frame_ref
get_latest_frame t instance_id =
    ref_of
      (first (sort newer (keep (λ (f : SnapshotFrame). f.instance_id == instance_id) t.frames)))

-- the condition of `get_frame_before`: not after the target, and at most the delay before it
abbrev pub in_reach : Uuid → Time → ℕ → SnapshotFrame → Bool
in_reach instance_id target_time max_delay_seconds f =
    f.instance_id == instance_id
    && (leb f.snapshot_time target_time
        && leb target_time (f.snapshot_time + seconds max_delay_seconds))

unfoldable pub get_frame_before : Tables → Uuid → Time → ℕ → Option FrameRef
unfolding sort frame_ref
get_frame_before t instance_id target_time max_delay_seconds =
    ref_of (first (sort newer (keep (in_reach instance_id target_time max_delay_seconds) t.frames)))

-- the condition on `instance_id`, `frame_id` and `snapshot_time` that all frame tables share
abbrev pub of_frame : FrameRef → Uuid → Uuid → Time → Bool
of_frame ref instance_id frame_id snapshot_time =
    instance_id == ref.instance_id
    && (frame_id == ref.frame_id && snapshot_time == ref.snapshot_time)

abbrev pub sessions_of : FrameRef → SessionSnapshot → Bool
sessions_of ref r = of_frame ref r.instance_id r.frame_id r.snapshot_time

abbrev pub requests_of : FrameRef → RequestSnapshot → Bool
requests_of ref r = of_frame ref r.instance_id r.frame_id r.snapshot_time

unfoldable pub list_sessions : Tables → FrameRef → List SessionSnapshot
unfolding sort
list_sessions t ref =
    sort (λ (a b : SessionSnapshot). leb_ℤ a.session_id b.session_id)
      (keep (sessions_of ref) t.sessions)

unfoldable pub get_session : Tables → FrameRef → ℤ → Option SessionSnapshot
get_session t ref session_id =
    first
      (keep (λ (r : SessionSnapshot). sessions_of ref r && r.session_id == session_id) t.sessions)

-- ascending, and `NULL` last
abbrev pub nulls_last : Option ℕ → Option ℕ → Bool
nulls_last a none = true
nulls_last none (some b) = false
nulls_last (some a) (some b) = leb a b

-- `order_by(session_id.asc(), request_id.asc())`
abbrev pub request_order : RequestSnapshot → RequestSnapshot → Bool
request_order a b =
    if a.session_id == b.session_id
    then nulls_last a.request_id b.request_id
    else leb_ℤ a.session_id b.session_id

unfoldable pub list_requests : Tables → FrameRef → List RequestSnapshot
unfolding sort
list_requests t ref = sort request_order (keep (requests_of ref) t.requests)

-- SQL's `=` is never true of `NULL`
abbrev pub sql_eq {ℓ} : {A : Type ℓ} ⦃e : Eq A⦄ → Option A → A → Bool
sql_eq none b = false
sql_eq (some a) b = a == b

unfoldable pub get_request_by_sql_hash : Tables → FrameRef → Text → Option RequestSnapshot
get_request_by_sql_hash t ref sql_hash =
    first
      (keep (λ (r : RequestSnapshot). requests_of ref r && sql_eq r.sql_hash sql_hash) t.requests)

unfoldable pub get_request_by_session : Tables → FrameRef → ℤ → Option RequestSnapshot
unfolding sort
get_request_by_session t ref session_id = first (
    sort (λ (a b : RequestSnapshot). nulls_last a.request_id b.request_id)
      (keep (λ (r : RequestSnapshot). requests_of ref r && r.session_id == session_id) t.requests))

unfoldable pub list_waits : Tables → FrameRef → List WaitSnapshot
unfolding sort
list_waits t ref =
    sort (λ (a b : WaitSnapshot). leb b.total_wait_time_ms a.total_wait_time_ms)
      (keep (λ (r : WaitSnapshot). of_frame ref r.instance_id r.frame_id r.snapshot_time) t.waits)

abbrev nulls_last_ℤ : Option ℤ → Option ℤ → Bool
nulls_last_ℤ a none = true
nulls_last_ℤ none (some b) = false
nulls_last_ℤ (some a) (some b) = leb_ℤ a b

abbrev same_root : Option ℤ → Option ℤ → Bool
same_root none none = true
same_root (some a) (some b) = a == b
same_root _ _ = false

-- `order_by(root_session_id.asc(), chain_depth.asc())`
abbrev pub blocking_order : BlockingSnapshot → BlockingSnapshot → Bool
blocking_order a b =
    if same_root a.root_session_id b.root_session_id
    then leb a.chain_depth b.chain_depth
    else nulls_last_ℤ a.root_session_id b.root_session_id

unfoldable pub list_blocking_rows : Tables → FrameRef → List BlockingSnapshot
unfolding sort
list_blocking_rows t ref = sort blocking_order (
    keep (λ (r : BlockingSnapshot). of_frame ref r.instance_id r.frame_id r.snapshot_time)
      t.blocking_rows)

-- `{value for value in sql_hashes if value}`; a set only decides membership
pub given_hashes : List (Option Text) → List Text
given_hashes [] = []
given_hashes (none ∷ hs) = given_hashes hs
given_hashes (some [] ∷ hs) = given_hashes hs
given_hashes (some (c ∷ s) ∷ hs) = (c ∷ s) ∷ given_hashes hs

abbrev preview_of : SqlText → Text
preview_of r = elim r.sql_preview [ none ↦ r.sql_text | some p ↦ text_or p r.sql_text ]

-- a dict comprehension over the rows
dict_by_hash : (SqlText → Text) → List SqlText → Dict Text Text → Dict Text Text
dict_by_hash value [] d = d
dict_by_hash value (r ∷ rows) d = dict_by_hash value rows (insert r.sql_hash (value r) d)

unfoldable pub get_sql_preview_map : Tables → List (Option Text) → Dict Text Text
unfolding given_hashes dict_by_hash
get_sql_preview_map t sql_hashes =
    dict_by_hash preview_of
      (keep (λ (r : SqlText). contains r.sql_hash (given_hashes sql_hashes)) t.sql_texts) []

unfoldable pub get_sql_text_map : Tables → List (Option Text) → Dict Text Text
unfolding given_hashes dict_by_hash
get_sql_text_map t sql_hashes =
    dict_by_hash (λ (r : SqlText). r.sql_text)
      (keep (λ (r : SqlText). contains r.sql_hash (given_hashes sql_hashes)) t.sql_texts) []

unfoldable pub list_resource_frames : Tables → Uuid → Time → List FrameRef
unfolding sort frame_ref
list_resource_frames t instance_id since_time = map frame_ref (
    sort older (
      keep (λ (f : SnapshotFrame). f.instance_id == instance_id && leb since_time f.snapshot_time)
        t.frames))

unfoldable pub get_resource_frame_before : Tables → Uuid → Time → Option FrameRef
unfolding sort frame_ref
get_resource_frame_before t instance_id before_time = ref_of (
    first (
      sort newer (
        keep
          (λ (f : SnapshotFrame). f.instance_id == instance_id && ltb f.snapshot_time before_time)
          t.frames)))
