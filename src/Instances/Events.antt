-- ===== src/Instances/Events.antt =====
-- The instances over a history of requests to the routes of backend/app/api/routes/instances.py and of
-- collections of backend/app/collector/real_instance_collector.py, in any order.
mod Tests
use sql_monitor.Base.{
  String, ◌≡◌, refl, inl, inr, true, Option, none, some, List, [], ◌∷◌, map, map-append, arith,
  if◌then◌else◌, ◌==◌, nat_eq, string_eq, pair_eq, Bool-cases, Option-cases, is_some, contains,
  Distinct-snoc, All-append, int_eq, Text, list_eq,
}
use sql_monitor.Auth.{Uuid, Time}
use sql_monitor.Users.{User, Env, Response, answer, current_user}
use sql_monitor.Instances.Records.{Instance, get_instance, decrypt_connection_string}
use sql_monitor.Instances.Requests.{
  InstanceCreate, InstanceUpdate, InstanceOut, instance_statuses, is_valid_create, is_valid_update,
}
use sql_monitor.Instances.Service.{
  InstanceTables, Means, create_instance, new_instance, list_instances, listed_instances,
  to_instance_out, status_row,
}
use sql_monitor.Instances.Change.{
  updated, put_instance, update_instance, delete_instance, tested, run_connection_test,
  test_existing_instance_connection,
}
use sql_monitor.Instances.Routes as Routes
use sql_monitor.Instances.Routes.{
  InstanceRequest, InstanceAnswer, no_content, may_ask, is_valid_body, run_instance_request,
  handle_instance, get_instances, post_instance, post_instance_connection_test,
  delete_instance_route, post_existing_instance_connection_test,
}
use sql_monitor.Instances.Statuses.{
  valid_create-status, IfSome, IsRow, updated-IsRow, tested-IsRow, IsInstances, IsInstances-map,
  get_instance-IsRow, put_instance-IsInstances, get_instance-none,
}
use sql_monitor.Collector.IndexStore.Collect.{Server}
use sql_monitor.Collector.Snapshot.Collect.{Surroundings, Frame, build_frame}
use sql_monitor.Collector.Snapshot.Store.{
  Database, set_status, store_frame, mark_collect_failed, then_indexes, collect_instance_snapshot,
  list_collectable_instances,
}

-- a request with its token, the id and the time that it draws, or a collection of an instance
pub data Event : Type 1 where
  requested : (token : Text) (new_id : Uuid) (now : Time) (request : InstanceRequest) → Event
  collection : (indexes : Option Server) (e : Surroundings) (i : Instance) → Event

module _ (m : Means) (env : Env) (users : List User) where
  pub step : Event → Database → Database
  unfolding handle_instance collect_instance_snapshot
  step (requested token new_id now request) d =
      let t : InstanceTables = record { instances = d.instances; statuses = d.statuses } in
      let t' = (handle_instance m env users token new_id now request t).1 in
      record d { instances = t'.instances; statuses = t'.statuses }
  step (collection indexes e i) d = (collect_instance_snapshot indexes e i d).1

  pub run_events : List Event → Database → Database
  unfolding step
  run_events [] d = d
  run_events (e ∷ events) d = run_events events (step e d)

  create-IsInstances :
      (id : Uuid) (now : Time) (d : InstanceCreate) (t : InstanceTables)
      → is_valid_create d ≡ true
      → IsInstances t.instances
      → IsInstances (create_instance m id now d t).1.instances
  unfolding create_instance new_instance
  create-IsInstances id now d t v h = elim (Bool-cases (is_some (get_instance id t.instances))) [
    | inl q ↦ rw q h
    | inr q ↦
        let ids = map (λ (i : Instance). i.id) t.instances in
        rw q (
          rw (map-append (λ (i : Instance). i.id) t.instances (new_instance m id now d ∷ []))
              (Distinct-snoc id ids h.0 (get_instance-none id t.instances q)),
          All-append (λ (i : Instance). contains i.status instance_statuses ≡ true) t.instances
              (new_instance m id now d ∷ []) h.1 (valid_create-status d v, tt),
        )
  ]

  update-IsInstances :
      (id : Uuid) (d : InstanceUpdate) (t : InstanceTables)
      → is_valid_update d ≡ true
      → IsInstances t.instances
      → IsInstances (update_instance m id d t).1.instances
  unfolding update_instance
  update-IsInstances id d t v h = elim (Option-cases (get_instance id t.instances)) [
    | inl q ↦ rw (update_instance, q) h
    | inr (i, q) ↦
        let k = updated-IsRow m id d i v (get_instance-IsRow id i t.instances h.1 q) in
        elim (Option-cases (updated m d i)) [
          | inl l ↦ rw (update_instance, q, l) h
          | inr (j, l) ↦
              rw (update_instance, q, l) (put_instance-IsInstances id j t.instances (rw l at k) h)
        ]
  ]

  delete-IsInstances :
      (id : Uuid) (t : InstanceTables)
      → IsInstances t.instances
      → IsInstances (delete_instance m id t).1.instances
  unfolding delete_instance
  delete-IsInstances id t h = elim (Option-cases (get_instance id t.instances)) [
    | inl q ↦ rw (delete_instance, q) h
    | inr (i, q) ↦
        rw (delete_instance, q)
          (put_instance-IsInstances id (record i { status = "disabled" }) t.instances
            ((get_instance-IsRow id i t.instances h.1 q).0, refl) h)
  ]

  test-IsInstances :
      (id : Uuid) (t : InstanceTables)
      → IsInstances t.instances
      → IsInstances (test_existing_instance_connection m id t).1.instances
  unfolding test_existing_instance_connection
  test-IsInstances id t h = elim (Option-cases (get_instance id t.instances)) [
    | inl q ↦ rw (test_existing_instance_connection, q) h
    | inr (i, q) ↦
        elim (Option-cases (decrypt_connection_string m.base64 i.encrypted_collect_dsn)) [
          | inl l ↦ rw (test_existing_instance_connection, q, l) h
          | inr (s, l) ↦
              rw (test_existing_instance_connection, q, l)
                (put_instance-IsInstances id (tested (run_connection_test m s) i) t.instances
                  (tested-IsRow m id (run_connection_test m s) i
                    (get_instance-IsRow id i t.instances h.1 q))
                  h)
        ]
  ]

  run-IsInstances :
      (id : Uuid) (now : Time) (request : InstanceRequest) (t : InstanceTables)
      → is_valid_body request ≡ true
      → IsInstances t.instances
      → IsInstances (run_instance_request m id now request t).1.instances
  unfolding run_instance_request is_valid_body
  run-IsInstances id now get_instances t v h = h
  run-IsInstances id now (post_instance d) t v h = create-IsInstances id now d t v h
  run-IsInstances id now (post_instance_connection_test d) t v h = h
  run-IsInstances id now (Routes.put_instance i d) t v h = update-IsInstances i d t v h
  run-IsInstances id now (delete_instance_route i) t v h = delete-IsInstances i t h
  run-IsInstances id now (post_existing_instance_connection_test i) t v h = test-IsInstances i t h

  handle-IsInstances :
      (token : Text) (id : Uuid) (now : Time) (request : InstanceRequest) (t : InstanceTables)
      → IsInstances t.instances
      → IsInstances (handle_instance m env users token id now request t).1.instances
  unfolding handle_instance
  handle-IsInstances token id now request t h =
      elim (Option-cases (current_user env token now users)) [
        | inl q ↦ rw (handle_instance, q) h
        | inr (user, q) ↦ elim (Bool-cases (may_ask request user.role)) [
          | inr k ↦ rw (handle_instance, q, k) h
          | inl k ↦ elim (Bool-cases (is_valid_body request)) [
            | inr l ↦ rw (handle_instance, q, k, l) h
            | inl l ↦ rw (handle_instance, q, k, l) (run-IsInstances id now request t l h)
          ]
        ]
      ]

  set_status-IsInstances :
      (status : String) (id : Uuid) (xs : List Instance)
      → contains status instance_statuses ≡ true
      → IsInstances xs
      → IsInstances (set_status status id xs)
  set_status-IsInstances status id xs known h =
      IsInstances-map (λ (i : Instance). if i.id == id then record i { status = status } else i)
        (λ i. same i) (λ i c. kept i c) xs h
    where
      same : (i : Instance) → (if i.id == id then record i { status = status } else i).id ≡ i.id
      same i = ground arith

      kept :
          (i : Instance)
          → contains i.status instance_statuses ≡ true
          → contains
              (if i.id == id then record i { status = status } else i).status
              instance_statuses
            ≡ true
      kept i c = elim (Bool-cases (i.id == id)) [ inl q ↦ rw q known | inr q ↦ rw q c ]

  then_indexes-instances :
      (indexes : Option Server) (e : Surroundings) (i : Instance) (dsn : Option Text) (d : Database)
      → (then_indexes indexes e i dsn d).instances ≡ d.instances
  unfolding then_indexes
  then_indexes-instances none e i dsn d = refl
  then_indexes-instances (some server) e i none d = refl
  then_indexes-instances (some server) e i (some s) d = refl

  collect-IsInstances :
      (indexes : Option Server) (e : Surroundings) (i : Instance) (d : Database)
      → IsInstances d.instances
      → IsInstances (collect_instance_snapshot indexes e i d).1.instances
  unfolding collect_instance_snapshot store_frame mark_collect_failed
  collect-IsInstances indexes e i d h = elim (Option-cases (build_frame e i)) [
    | inl q ↦
        rw (collect_instance_snapshot, q)
          (set_status-IsInstances "collect_error" i.id d.instances refl h)
    | inr (f, q) ↦
        rw (collect_instance_snapshot, q)
          (rw
            (then_indexes-instances indexes e i
              (decrypt_connection_string e.base64 i.encrypted_collect_dsn) (store_frame i f d))
            (set_status-IsInstances "online" i.id d.instances refl h))
  ]

  -- Whatever requests are sent to the routes of instances, with whatever tokens, and whatever the
  -- collector collects in between: if no two instances have the same id and each has a status that the
  -- database's constraint admits, then this stays so.
  pub run_events-IsInstances :
      (events : List Event) (d : Database)
      → IsInstances d.instances
      → IsInstances (run_events events d).instances
  unfolding run_events step
  run_events-IsInstances [] d h = h
  run_events-IsInstances (requested token id now request ∷ events) d h =
      run_events-IsInstances events (step (requested token id now request) d) (
        handle-IsInstances token id now request
          (record { instances = d.instances; statuses = d.statuses }) h)
  run_events-IsInstances (collection indexes e i ∷ events) d h =
      run_events-IsInstances events (step (collection indexes e i) d)
        (collect-IsInstances indexes e i d h)
