-- ===== src/Views/Guarded.antt =====
-- What stands in front of the routes that read, and when they have no answer.
use sql_monitor.Base.{ℕ, ◌≡◌, false, ◌==◌, nat_eq, string_eq, pair_eq, All, int_eq, list_eq}
use sql_monitor.Users.{Response, answer, http_error, uncaught}
use sql_monitor.Snapshots.{Tables}
use sql_monitor.Views.{ViewRequest, View}
use sql_monitor.Snapshots.{SnapshotFrame}
use sql_monitor.Snapshots.Repository.{in_reach}
use sql_monitor.Views.{
  get_dashboard_route, get_sessions_route, get_session_route, get_sqls_route, get_sql_route,
  get_blocking_route, get_replay_route, get_kill_audits,
}

-- The instance of a request has no frame; for a replay, no frame within reach of the time.
abbrev pub LacksFrame : Tables → ViewRequest → Type 0
LacksFrame t (get_dashboard_route i minutes) =
    All (λ (f : SnapshotFrame). (f.instance_id == i) ≡ false) t.frames
LacksFrame t (get_sessions_route i query page page_size) =
    All (λ (f : SnapshotFrame). (f.instance_id == i) ≡ false) t.frames
LacksFrame t (get_session_route session_id i) =
    All (λ (f : SnapshotFrame). (f.instance_id == i) ≡ false) t.frames
LacksFrame t (get_sqls_route i page page_size sort_by sort_order) =
    All (λ (f : SnapshotFrame). (f.instance_id == i) ≡ false) t.frames
LacksFrame t (get_sql_route sql_hash i) =
    All (λ (f : SnapshotFrame). (f.instance_id == i) ≡ false) t.frames
LacksFrame t (get_blocking_route i) =
    All (λ (f : SnapshotFrame). (f.instance_id == i) ≡ false) t.frames
LacksFrame t (get_replay_route i at) =
    All (λ (f : SnapshotFrame). in_reach i at 10 f ≡ false) t.frames
LacksFrame t (get_kill_audits limit) = ⊥

abbrev code_of : Response View → ℕ
code_of (answer v) = 0
code_of (http_error n) = n
code_of uncaught = 0
