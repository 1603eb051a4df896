-- ===== src/Replay/Whole.antt =====
-- A replay is of one frame, in all its parts: backend/app/services/replay_service.py.
mod Tests
use sql_monitor.Base.{
  ℕ, min, ◌≡◌, refl, ap, ◌∙◌, ◌⊎◌, inl, inr, false, Option, none, some, List, [], ◌∷◌, map, arith,
  nat_eq, string_eq, pair_eq, Option-cases, length, take, keep, length-take, slice, All, int_eq,
  list_eq, sort, length-sort,
}
use sql_monitor.Auth.{Uuid, Time}
use sql_monitor.Snapshots.{SnapshotFrame, SessionSnapshot, RequestSnapshot, Tables, FrameRef}
use sql_monitor.Snapshots.Repository as Repo
use sql_monitor.Snapshots.Repository.{in_reach, get_frame_before}
use sql_monitor.Snapshots.Repository.Latest.{get_frame_before-none}
use sql_monitor.Sessions.{
  given_frame, asc, desc, with_requests, is_listed, before, listed, SessionListOut, list_sessions,
  request_by_session,
}
use sql_monitor.Sqls.{by_cpu_time_ms, SqlListOut, list_sqls}
use sql_monitor.Sqls as Sqls
use sql_monitor.Blocking.{BlockingOut, chains_of, get_blocking_chains}
use sql_monitor.Dashboard.{DashboardOut, metrics_of, get_dashboard}
use sql_monitor.Replay.{ReplayFrameOut, all_sessions, replay_of, get_replay_frame}

length-map : {A B : Type 0} (f : A → B) (xs : List A) → length (map f xs) ≡ length xs
length-map f [] = refl
length-map f (x ∷ xs) = omega (arith, length-map f xs)

length-first_page :
    {A B : Type 0} (f : A → B) (n : ℕ) (xs : List A)
    → length (map f (slice 0 n xs)) ≡ min n (length xs)
length-first_page f n xs = length-map f (take n xs) ∙ length-take n xs

keep_listed :
    (xs : List (SessionSnapshot × Option RequestSnapshot)) → keep (is_listed all_sessions) xs ≡ xs
unfolding is_listed
keep_listed [] = refl
keep_listed (x ∷ xs) = ap (λ ys. x ∷ ys) (keep_listed xs)

length-listed :
    (t : Tables) (ref : FrameRef)
    → length (listed t ref all_sessions) ≡ length (Repo.list_sessions t ref)
unfolding listed with_requests
length-listed t ref =
    length-sort (before all_sessions.sort_by all_sessions.sort_order)
      (keep (is_listed all_sessions) (with_requests t ref))
    ∙ (ap length (keep_listed (with_requests t ref)) ∙ length-map _ (Repo.list_sessions t ref))

-- what a replay is of: one frame, its key in all parts, and lists as long as the figures say, up to
-- the size of a page
abbrev pub IsReplay : Tables → Uuid → Time → ReplayFrameOut → FrameRef → Type 0
IsReplay t instance_id requested_time r ref =
    (r.frame_id ≡ ref.frame_id)
    × (r.snapshot_time ≡ ref.snapshot_time)
    × (r.requested_time ≡ requested_time)
    × (r.dashboard.frame_id ≡ ref.frame_id)
    × (length r.sessions ≡ min 10000 r.dashboard.metrics.session_count)
    × (length r.sqls ≡ min 10000 r.dashboard.metrics.active_request_count)
    × (r.blocking ≡ chains_of (Repo.list_blocking_rows t ref))
    × (r.waits ≡ r.dashboard.top_waits)

replay_of-IsReplay :
    (t : Tables) (instance_id : Uuid) (requested_time now : Time) (ref : FrameRef)
    → (r : ReplayFrameOut) × (replay_of instance_id requested_time ref
          (get_dashboard t instance_id (some ref) 5 5 now)
          (list_sessions t instance_id all_sessions 1 10000 (some ref) now)
          (list_sqls t instance_id 1 10000 by_cpu_time_ms desc (some ref) now)
          (get_blocking_chains t instance_id (some ref) now)
        ≡ some r)
      × IsReplay t instance_id requested_time r ref
unfolding replay_of get_dashboard list_sessions list_sqls get_blocking_chains metrics_of
replay_of-IsReplay t instance_id requested_time now ref = (
  _,
  refl,
  (
    refl,
    refl,
    refl,
    refl,
    length-first_page _ 10000 (listed t ref all_sessions) ∙ ap (min 10000) (length-listed t ref),
    length-first_page _ 10000 (sort (Sqls.before by_cpu_time_ms desc) (Repo.list_requests t ref))
        ∙ ap (min 10000) (length-sort (Sqls.before by_cpu_time_ms desc) (Repo.list_requests t ref)),
    refl,
    refl,
  ),
)

-- A replay fails only if the instance has no frame within reach of the time; else it is of the one
-- frame that `get_frame_before` finds: its key and the dashboard's are that frame's, its sessions and
-- statements are as many as the dashboard counts, up to 10,000, its chains are those of the frame's
-- rows, and its waits are the dashboard's.
pub get_replay_frame-IsReplay :
    (t : Tables) (instance_id : Uuid) (requested_time : Time) (max_delay_seconds : ℕ) (now : Time)
    → ((get_replay_frame t instance_id requested_time max_delay_seconds now ≡ none)
        × All
            (λ (f : SnapshotFrame). in_reach instance_id requested_time max_delay_seconds f ≡ false)
            t.frames)
      ⊎ ((r : ReplayFrameOut) × (ref : FrameRef) × (get_frame_before t instance_id requested_time
              max_delay_seconds
            ≡ some ref)
          × (get_replay_frame t instance_id requested_time max_delay_seconds now ≡ some r)
          × IsReplay t instance_id requested_time r ref)
unfolding get_replay_frame
get_replay_frame-IsReplay t instance_id requested_time max_delay_seconds now =
    elim (Option-cases (get_frame_before t instance_id requested_time max_delay_seconds)) [
      | inl h ↦ inl (
        rw (get_replay_frame, h) refl,
        get_frame_before-none t instance_id requested_time max_delay_seconds h,
      )
      | inr (ref, h) ↦
          let (r, k, l) = replay_of-IsReplay t instance_id requested_time now ref in
          inr (r, ref, h, rw (get_replay_frame, h) k, l)
    ]
