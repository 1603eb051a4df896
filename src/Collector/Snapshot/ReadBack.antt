-- ===== src/Collector/Snapshot/ReadBack.antt =====
-- What the repository of backend/app/services/dashboard_service.py reads of a frame is what
-- backend/app/collector/real_instance_collector.py collected for it.
use sql_monitor.Base.{
  ◌≡◌, refl, ap, Bool, true, false, some, List, ◌++◌, leb, nat_eq, string_eq, pair_eq, keep, All,
  int_eq, leb_ℤ, list_eq, sort, keep_all, keep_nothing, keep-append,
}
use sql_monitor.Snapshots.{
  SessionSnapshot, WaitSnapshot, BlockingSnapshot, Tables, FrameRef, frame_ref,
}
use sql_monitor.Snapshots.Repository.{
  of_frame, sessions_of, requests_of, list_sessions, list_requests, request_order, list_waits,
  list_blocking_rows, blocking_order,
}
use sql_monitor.Instances.Records.{Instance}
use sql_monitor.Collector.Snapshot.Collect.{Surroundings, Frame, build_frame}
use sql_monitor.Collector.Snapshot.Store.{add_frame}
use sql_monitor.Collector.Snapshot.Belongs.{build_frame-IsFrame}

-- no row of a frame's table has the key of the frame
abbrev pub IsFresh : FrameRef → Tables → Type 0
IsFresh ref t =
    All (λ r. sessions_of ref r ≡ false) t.sessions
    × All (λ r. requests_of ref r ≡ false) t.requests
    × All (λ (w : WaitSnapshot). of_frame ref w.instance_id w.frame_id w.snapshot_time ≡ false)
        t.waits
    × All (λ (b : BlockingSnapshot). of_frame ref b.instance_id b.frame_id b.snapshot_time ≡ false)
        t.blocking_rows

keep_new :
    {A : Type 0} (p : A → Bool) (old new : List A)
    → All (λ x. p x ≡ false) old
    → All (λ x. p x ≡ true) new
    → keep p (old ++ new) ≡ new
keep_new p old new h k = rw (keep-append p old new, keep_nothing p old h, keep_all p new k) refl

-- Once a frame is built and its rows are added, to tables that have no rows of it, the repository
-- reads for that frame exactly the sessions, requests, waits and blocking rows that were built, each
-- list in its order.
pub add_frame-read :
    (e : Surroundings) (i : Instance) (f : Frame) (t : Tables)
    → build_frame e i ≡ some f
    → IsFresh (frame_ref f.frame) t
    → (list_sessions (add_frame f t) (frame_ref f.frame)
        ≡ sort (λ (a b : SessionSnapshot). leb_ℤ a.session_id b.session_id) f.sessions)
      × (list_requests (add_frame f t) (frame_ref f.frame) ≡ sort request_order f.requests)
      × (list_waits (add_frame f t) (frame_ref f.frame)
          ≡ sort (λ (a b : WaitSnapshot). leb b.total_wait_time_ms a.total_wait_time_ms) f.waits)
      × (list_blocking_rows (add_frame f t) (frame_ref f.frame)
          ≡ sort blocking_order f.blocking_rows)
unfolding add_frame list_sessions list_requests list_waits list_blocking_rows
add_frame-read e i f t h fresh =
    let own = build_frame-IsFrame e i f h in
    let ref = frame_ref f.frame in
    (
      ap (sort (λ (a b : SessionSnapshot). leb_ℤ a.session_id b.session_id))
          (keep_new (sessions_of ref) t.sessions f.sessions fresh.0 own.0),
      ap (sort request_order) (keep_new (requests_of ref) t.requests f.requests fresh.1 own.1),
      ap (sort (λ (a b : WaitSnapshot). leb b.total_wait_time_ms a.total_wait_time_ms)) (
          keep_new (λ (w : WaitSnapshot). of_frame ref w.instance_id w.frame_id w.snapshot_time)
            t.waits f.waits fresh.2 own.2),
      ap (sort blocking_order) (
          keep_new (λ (b : BlockingSnapshot). of_frame ref b.instance_id b.frame_id b.snapshot_time)
            t.blocking_rows f.blocking_rows fresh.3 own.3),
    )
