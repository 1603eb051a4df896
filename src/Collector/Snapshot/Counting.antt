-- ===== src/Collector/Snapshot/Counting.antt =====
-- How the failures of the collections of an instance are counted:
-- backend/app/collector/real_instance_collector.py.
use sql_monitor.Base.{
  ℕ, suc, ◌≡◌, refl, inl, inr, Option, none, some, none≢some, List, [], ◌∷◌, arith, if◌then◌else◌,
  ◌==◌, nat_eq, string_eq, pair_eq, Option-cases, is_some, int_eq, list_eq, some-eq, row_of,
  row_of-upsert,
}
use sql_monitor.Auth.{Uuid, Time}
use sql_monitor.Instances.Records.{Instance, InstanceCollectStatus, decrypt_connection_string}
use sql_monitor.Collector.IndexStore.Collect.{Server}
use sql_monitor.Collector.Snapshot.Collect.{Surroundings, Frame, build_frame}
use sql_monitor.Collector.Snapshot.Store.{
  Database, new_collect_status, succeeded, failed, status_key, change_known, store_frame,
  mark_collect_failed, collect_instance_snapshot,
}
use sql_monitor.Collector.Snapshot.Outcome.{then_indexes-keeps}

-- one collection: the server for its indexes, if any, what it meets, and the instance
abbrev pub Collection : Type 1
Collection = Option Server × Surroundings × Instance

-- the database after collections of any instances, the latest first
unfoldable pub after : List Collection → Database → Database
unfolding collect_instance_snapshot
after [] d = d
after ((indexes, e, i) ∷ earlier) d = (collect_instance_snapshot indexes e i (after earlier d)).1

-- The specification: how many collections of an instance have failed since one succeeded, or in all
-- beside a number that was there, the latest collection first.
abbrev pub failures_since : Uuid → ℕ → List Collection → ℕ
failures_since id n [] = n
failures_since id n ((indexes, e, i) ∷ earlier) =
    let before = failures_since id n earlier in
    if i.id == id then (if is_some (build_frame e i) then 0 else suc before) else before

abbrev pub counted : Option InstanceCollectStatus → Option ℕ
counted none = none
counted (some s) = some s.consecutive_failures

-- the counter of an instance that has a status
abbrev pub counter_of : Uuid → Database → Option ℕ
counter_of id d = counted (row_of status_key id d.statuses)

row_of-change_known :
    (id other : Uuid) (at now : Time) (statuses : List InstanceCollectStatus)
    → row_of status_key other (change_known id (failed at now) statuses)
      ≡ elim (row_of status_key other statuses) [
        | none ↦ none
        | some s ↦ some (if id == other then failed at now s else s)
      ]
unfolding failed
row_of-change_known id other at now [] = refl
row_of-change_known id other at now (s ∷ statuses) =
    ground (arith, row_of-change_known id other at now statuses)

counter-failed :
    (i : Instance) (id : Uuid) (at now : Time) (n : ℕ) (d : Database)
    → counter_of id d ≡ some n
    → counter_of id (mark_collect_failed i at now d) ≡ some (if i.id == id then suc n else n)
unfolding mark_collect_failed failed
counter-failed i id at now n d h = elim (Option-cases (row_of status_key id d.statuses)) [
  | inl q ↦ absurd (none≢some (rw (counter_of, q) at h))
  | inr (s, q) ↦
      let k : s.consecutive_failures ≡ n =
        some-eq s.consecutive_failures n (rw (counter_of, q) at h) in
      rw (counter_of, row_of-change_known i.id id at now d.statuses, q) (ground (arith, k))
]

counter-stored :
    (i : Instance) (id : Uuid) (f : Frame) (n : ℕ) (d : Database)
    → counter_of id d ≡ some n
    → counter_of id (store_frame i f d) ≡ some (if i.id == id then 0 else n)
unfolding store_frame
counter-stored i id f n d h =
    rw
      (
        counter_of,
        row_of-upsert status_key i.id id (new_collect_status f.frame.snapshot_time i.id)
            (succeeded f) (λ s. refl) refl d.statuses,
      )
      (ground (arith, h))

-- Over any collections of any instances, successful or not and with or without indexes, the counter
-- `consecutive_failures` of an instance that has a status implements the specification: it is the
-- number of that instance's failures since its last success, or beside the number that was there.
pub after-failures_since :
    (id : Uuid) (n : ℕ) (history : List Collection) (d : Database)
    → counter_of id d ≡ some n
    → counter_of id (after history d) ≡ some (failures_since id n history)
unfolding after
after-failures_since id n [] d h = h
after-failures_since id n ((indexes, e, i) ∷ earlier) d h =
    let before = failures_since id n earlier in
    let IH = after-failures_since id n earlier d h in
    elim (Option-cases (build_frame e i)) [
      | inl q ↦
          rw (after, collect_instance_snapshot, q)
            (counter-failed i id e.started_at e.finished_at before (after earlier d) IH)
      | inr (f, q) ↦
          rw (after, collect_instance_snapshot, q)
            (rw
              ((then_indexes-keeps indexes e i
                (decrypt_connection_string e.base64 i.encrypted_collect_dsn)
                (store_frame i f (after earlier d))).1)
              (counter-stored i id f before (after earlier d) IH))
    ]
