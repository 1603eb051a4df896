-- ===== src/Collector/Frame.antt =====
-- The parts of a frame that backend/app/collector/real_instance_collector.py computes from the rows
-- of a server: the waits by type, with the categories of collectors/wait_collector.py, and the
-- blocking edges. The ids of the new rows are left out, as in the tables.
pub mod Waits
pub mod Blocking
mod Tests
use sql_monitor.Base.{
  ℕ, String, Bool, false, ◌||◌, Option, none, some, List, [], ◌∷◌, ◌++◌, map, if◌then◌else◌, ◌==◌,
  nat_eq, string_eq, pair_eq, or_else, length, keep, contains, sum, maximum, ℤ, pos, negsuc, int_eq,
  Text, codes, list_eq, Unicode, starts_with, Dict, lookup, insert,
}
use sql_monitor.Auth.{Uuid, Time}
use sql_monitor.Snapshots.{WaitSnapshot, BlockingSnapshot}
use sql_monitor.BlockingGraph.{BlockingInput, BlockingEdge, build_blocking_edges}

-- what is read of a row of the waits
pub record WaitRow : Type 0 where
  pub session_id : Option ℤ
  pub wait_type : Option Text
  pub wait_duration_ms : Option ℕ
  pub resource_description : Option Text

-- what is read of a row of the sessions and requests
pub record SessionRow : Type 0 where
  pub session_id : Option ℤ
  pub blocking_session_id : Option ℤ
  pub wait_type : Option Text
  pub wait_time_ms : Option ℕ

-- a text that starts with one of the prefixes
abbrev any_prefix : List Text → Text → Bool
any_prefix [] s = false
any_prefix (p ∷ ps) s = starts_with p s || any_prefix ps s

-- `categorize_wait` of a wait type that is not empty, in upper case
unfoldable pub category_of : Text → String
category_of w =
    if any_prefix (codes "LCK_" ∷ []) w
    then "LOCK"
    else if any_prefix
        (codes "PAGEIOLATCH_" ∷ codes "IO_COMPLETION" ∷ codes "ASYNC_IO_COMPLETION" ∷ []) w
    then "IO"
    else if contains w (codes "WRITELOG" ∷ codes "LOGBUFFER" ∷ [])
        || any_prefix (codes "LOG_RATE_" ∷ []) w
    then "LOG"
    else if contains w (codes "SOS_SCHEDULER_YIELD" ∷ codes "THREADPOOL" ∷ [])
    then "CPU"
    else if any_prefix (codes "CXPACKET" ∷ codes "CXCONSUMER" ∷ codes "EXCHANGE" ∷ []) w
    then "PARALLELISM"
    else if any_prefix (codes "RESOURCE_SEMAPHORE" ∷ []) w
        || contains w (codes "MEMORY_ALLOCATION_EXT" ∷ codes "CMEMTHREAD" ∷ [])
    then "MEMORY"
    else if any_prefix (codes "PAGELATCH_" ∷ []) w
    then "TEMPDB"
    else if contains w (codes "ASYNC_NETWORK_IO" ∷ codes "NET_WAITFOR_PACKET" ∷ [])
    then "NETWORK"
    else "OTHER"

unfoldable pub categorize_wait : Unicode → Option Text → String
unfolding category_of
categorize_wait u none = "OTHER"
categorize_wait u (some []) = "OTHER"
categorize_wait u (some (c ∷ s)) = category_of (u.upper (c ∷ s))

abbrev pub Grouped : Type 0
Grouped = Dict Text (List ℕ)

-- `grouped.setdefault(wait_type, []).append(duration)`
unfoldable pub append_to : Text → ℕ → Grouped → Grouped
append_to wait_type duration grouped =
    insert wait_type (or_else (lookup wait_type grouped) [] ++ duration ∷ []) grouped

-- one row of the loop: a missing or empty type is skipped
unfoldable pub group_row : Option Text → ℕ → Grouped → Grouped
unfolding append_to
group_row none duration grouped = grouped
group_row (some []) duration grouped = grouped
group_row (some (c ∷ s)) duration grouped = append_to (c ∷ s) duration grouped

unfoldable pub group_waits : List WaitRow → Grouped → Grouped
unfolding group_row
group_waits [] grouped = grouped
group_waits (row ∷ rows) grouped =
    group_waits rows (group_row row.wait_type (or_else row.wait_duration_ms 0) grouped)

module _ (u : Unicode) (frame_id instance_id : Uuid) (snapshot_time : Time) where
  abbrev pub wait_snapshot : Text × List ℕ → WaitSnapshot
  wait_snapshot (wait_type, durations) = record {
    frame_id = frame_id;
    instance_id = instance_id;
    snapshot_time = snapshot_time;
    wait_type = wait_type;
    wait_category = categorize_wait u (some wait_type);
    waiting_tasks_count = length durations;
    total_wait_time_ms = sum durations;
    max_wait_time_ms = maximum durations;
  }

  -- `_build_wait_snapshots`
  unfoldable pub build_wait_snapshots : List WaitRow → List WaitSnapshot
  unfolding group_waits categorize_wait
  build_wait_snapshots rows = map wait_snapshot (group_waits rows [])

-- `resource_by_session`, whose last row of a session stays
unfoldable pub resource_by_session : List WaitRow → Dict ℤ (Option Text) → Dict ℤ (Option Text)
resource_by_session [] d = d
resource_by_session (row ∷ rows) d = elim row.session_id [
  | none ↦ resource_by_session rows d
  | some session ↦ resource_by_session rows (insert session row.resource_description d)
]

-- the collector's own `_normalize_blocker`
unfoldable pub normalize_row_blocker : Option ℤ → Option ℤ
normalize_row_blocker none = none
normalize_row_blocker (some b) = if b == pos 0 then none else some b

-- `blocking_inputs`
unfoldable pub blocking_inputs : Dict ℤ (Option Text) → List SessionRow → List BlockingInput
unfolding normalize_row_blocker
blocking_inputs resources [] = []
blocking_inputs resources (row ∷ rows) =
    let rest = blocking_inputs resources rows in
    elim row.session_id [
      | none ↦ rest
      | some session ↦
          record {
            session_id = session;
            blocker_session_id = normalize_row_blocker row.blocking_session_id;
            wait_type = row.wait_type;
            wait_duration_ms = row.wait_time_ms;
            resource_description = or_else (lookup session resources) none;
          }
          ∷ rest
    ]

-- `Counter(edge.root_session_id for edge in edges)[root]`
abbrev pub count_root : ℤ → List BlockingEdge → ℕ
count_root root edges = length (keep (λ (e : BlockingEdge). e.root_session_id == root) edges)

abbrev pub special_code : ℤ → Option ℤ
special_code (pos n) = none
special_code (negsuc n) = some (negsuc n)

module _ (frame_id instance_id : Uuid) (snapshot_time : Time) where
  unfoldable pub blocking_snapshot : List BlockingEdge → BlockingEdge → BlockingSnapshot
  blocking_snapshot edges edge = record {
    frame_id = frame_id;
    instance_id = instance_id;
    snapshot_time = snapshot_time;
    root_session_id = some edge.root_session_id;
    blocking_session_id = some edge.blocker_session_id;
    blocked_session_id = edge.blocked_session_id;
    chain_depth = edge.chain_depth;
    blocked_count = count_root edge.root_session_id edges;
    max_wait_time_ms = edge.wait_duration_ms;
    wait_type = edge.wait_type;
    resource_description = edge.resource_description;
    cycle_detected = edge.cycle_detected;
    special_blocker_code = special_code edge.blocker_session_id;
  }

  -- `_build_blocking_snapshots`; `none` would be an exception
  unfoldable pub build_blocking_snapshots :
      List SessionRow → List WaitRow → Option (List BlockingSnapshot)
  unfolding resource_by_session blocking_inputs blocking_snapshot
  build_blocking_snapshots rows wait_rows =
      elim (build_blocking_edges (blocking_inputs (resource_by_session wait_rows []) rows)) [
        | none ↦ none
        | some edges ↦ some (map (blocking_snapshot edges) edges)
      ]
