-- ===== src/Collector/Snapshot/Outcome.antt =====
-- What a collection of backend/app/collector/real_instance_collector.py answers, and what the repository
-- then reads.
use sql_monitor.Base.{
  [], ◌∷◌, ◌++◌, length, leb, leb_ℤ, length-sort, ◌≡◌, refl, Option, none, some, nat_eq, string_eq,
  pair_eq, int_eq, Text, list_eq,
}
use sql_monitor.Instances.Records.{Instance, decrypt_connection_string}
use sql_monitor.Collector.IndexStore.Collect.{Server}
use sql_monitor.Collector.Snapshot.Collect.{Surroundings, Frame, build_frame}
use sql_monitor.Snapshots.{SessionSnapshot, WaitSnapshot, frame_ref}
use sql_monitor.Snapshots.Repository.{
  list_sessions, list_requests, request_order, list_waits, list_blocking_rows, blocking_order,
}
use sql_monitor.Collector.Snapshot.ReadBack.{IsFresh, add_frame-read}
use sql_monitor.Collector.Snapshot.Store.{
  collected, Database, add_frame, store_frame, then_indexes, collect_instance_snapshot,
}

pub then_indexes-keeps :
    (indexes : Option Server) (e : Surroundings) (i : Instance) (dsn : Option Text) (d : Database)
    → ((then_indexes indexes e i dsn d).tables ≡ d.tables)
      × ((then_indexes indexes e i dsn d).statuses ≡ d.statuses)
unfolding then_indexes
then_indexes-keeps none e i dsn d = (refl, refl)
then_indexes-keeps (some server) e i none d = (refl, refl)
then_indexes-keeps (some server) e i (some s) d = (refl, refl)

-- When a frame is built, and no stored row has its key, the collection answers the frame's id and
-- exactly the numbers of sessions, requests, waits and blocking rows that the repository then reads for
-- it, whatever the collection of indexes meets afterwards, and one frame is added.
pub collect_instance_snapshot-read :
    (indexes : Option Server) (e : Surroundings) (i : Instance) (d : Database) (f : Frame)
    → build_frame e i ≡ some f
    → IsFresh (frame_ref f.frame) d.tables
    → let after = collect_instance_snapshot indexes e i d in
      let ref = frame_ref f.frame in
      (after.0
        ≡ collected f.frame.id
            (length (list_sessions after.1.tables ref))
            (length (list_requests after.1.tables ref))
            (length (list_waits after.1.tables ref))
            (length (list_blocking_rows after.1.tables ref)))
      × (after.1.tables.frames ≡ d.tables.frames ++ f.frame ∷ [])
unfolding collect_instance_snapshot store_frame add_frame
collect_instance_snapshot-read indexes e i d f built fresh =
    let kept =
      (then_indexes-keeps indexes e i (decrypt_connection_string e.base64 i.encrypted_collect_dsn)
        (store_frame i f d)).0 in
    let read = add_frame-read e i f d.tables built fresh in
    rw (collect_instance_snapshot, built, kept, read.0, read.1, read.2, read.3)
      (
        rw
            (
              length-sort (λ (a b : SessionSnapshot). leb_ℤ a.session_id b.session_id) f.sessions,
              length-sort request_order f.requests,
              length-sort (λ (a b : WaitSnapshot). leb b.total_wait_time_ms a.total_wait_time_ms)
                  f.waits,
              length-sort blocking_order f.blocking_rows,
            )
            refl,
        refl,
      )
