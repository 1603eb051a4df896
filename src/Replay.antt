-- ===== src/Replay.antt =====
-- backend/app/services/replay_service.py and schemas/replay.py: all the views of the frame that stands
-- before a time. The service reads the tables through `SnapshotRepository`; the clock is an argument.
pub mod Whole
use sql_monitor.Base.{
  ℕ, false, Option, none, some, List, nat_eq, string_eq, pair_eq, int_eq, list_eq,
}
use sql_monitor.Auth.{Uuid, Time}
use sql_monitor.Snapshots.{Tables, FrameRef}
use sql_monitor.Snapshots.Repository.{get_frame_before}
use sql_monitor.Sessions.{
  SessionQuery, by_session_id, SortOrder, asc, desc, SessionListItem, SessionListOut, list_sessions,
}
use sql_monitor.Sqls.{SqlSortBy, by_cpu_time_ms, SqlListItem, SqlListOut, list_sqls}
use sql_monitor.Blocking.{BlockingChain, BlockingOut, get_blocking_chains}
use sql_monitor.Dashboard.{TopWait, DashboardOut, get_dashboard}

pub record ReplayFrameOut : Type 0 where
  pub instance_id : Uuid
  pub requested_time : Time
  pub snapshot_time : Time
  pub frame_id : Uuid
  pub dashboard : DashboardOut
  pub sessions : List SessionListItem
  pub sqls : List SqlListItem
  pub blocking : List BlockingChain
  pub waits : List TopWait

-- the defaults of `list_sessions`
abbrev pub all_sessions : SessionQuery
all_sessions = record {
  status = none;
  only_blocked = false;
  only_open_transaction = false;
  sort_by = by_session_id;
  sort_order = asc;
}

-- the four views, all of which must be there
unfoldable pub replay_of :
    Uuid
    → Time
    → FrameRef
    → Option DashboardOut
    → Option SessionListOut
    → Option SqlListOut
    → Option BlockingOut
    → Option ReplayFrameOut
replay_of instance_id requested_time ref (some d) (some s) (some q) (some b) = some (record {
  instance_id = instance_id;
  requested_time = requested_time;
  snapshot_time = ref.snapshot_time;
  frame_id = ref.frame_id;
  dashboard = d;
  sessions = s.items;
  sqls = q.items;
  blocking = b.chains;
  waits = d.top_waits;
})
replay_of instance_id requested_time ref _ _ _ _ = none

unfoldable pub get_replay_frame : Tables → Uuid → Time → ℕ → Time → Option ReplayFrameOut
unfolding get_frame_before get_dashboard list_sessions list_sqls get_blocking_chains replay_of
get_replay_frame t instance_id requested_time max_delay_seconds now =
    elim (get_frame_before t instance_id requested_time max_delay_seconds) [
      | none ↦ none
      | some ref ↦
          replay_of instance_id requested_time ref (get_dashboard t instance_id (some ref) 5 5 now)
            (list_sessions t instance_id all_sessions 1 10000 (some ref) now)
            (list_sqls t instance_id 1 10000 by_cpu_time_ms desc (some ref) now)
            (get_blocking_chains t instance_id (some ref) now)
    ]
