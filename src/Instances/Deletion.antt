-- ===== src/Instances/Deletion.antt =====
-- A deleted instance is not shown and not collected: backend/app/services/instance_service.py and
-- `list_collectable_instances` of backend/app/collector/real_instance_collector.py.
use sql_monitor.Base.{
  ◌≡◌, refl, ◌≢◌, ◌⊎◌, inl, inr, Bool, true, false, not, some, List, [], ◌∷◌, leb, ◌==◌, nat_eq,
  string_eq, pair_eq, Bool-cases, Option-cases, keep, All, All-keep, All-of_map, int_eq, Text,
  list_eq, sort, All-sort,
}
use sql_monitor.Auth.{Uuid, Time}
use sql_monitor.Users.{User, Env, answer, current_user, is_admin}
use sql_monitor.Instances.Records.{Instance, get_instance}
use sql_monitor.Instances.Requests.{InstanceOut}
use sql_monitor.Instances.Service.{
  InstanceTables, Means, list_instances, listed_instances, to_instance_out, status_row,
}
use sql_monitor.Instances.Change.{put_instance, delete_instance}
use sql_monitor.Instances.Routes.{
  no_content, is_valid_body, run_instance_request, handle_instance, delete_instance_route,
}
use sql_monitor.Collector.Snapshot.Store.{list_collectable_instances}

abbrev enabled : Instance → Bool
enabled i = not (i.status == "disabled")

-- another instance, or a disabled one
abbrev IsHidden : Uuid → Instance → Type 0
IsHidden id i = (enabled i ≡ false) ⊎ ((i.id == id) ≡ false)

keep-not_hidden :
    (id : Uuid) (xs : List Instance)
    → All (IsHidden id) xs
    → All (λ (i : Instance). (i.id == id) ≡ false) (keep enabled xs)
keep-not_hidden id [] h = tt
keep-not_hidden id (x ∷ xs) (inl q, h) = rw q (keep-not_hidden id xs h)
keep-not_hidden id (x ∷ xs) (inr q, h) = elim (Bool-cases (enabled x)) [
  | inl k ↦ rw k (q, keep-not_hidden id xs h)
  | inr k ↦ rw k (keep-not_hidden id xs h)
]

put_instance-IsHidden :
    (id : Uuid) (j : Instance) (xs : List Instance)
    → enabled j ≡ false
    → All (IsHidden id) (put_instance id j xs)
put_instance-IsHidden id j [] h = tt
put_instance-IsHidden id j (x ∷ xs) h = elim (Bool-cases (x.id == id)) [
  | inl q ↦ rw q (inl h, put_instance-IsHidden id j xs h)
  | inr q ↦ rw q (inr q, put_instance-IsHidden id j xs h)
]

list_instances-IsHidden :
    (id : Uuid) (t : InstanceTables)
    → All (IsHidden id) t.instances
    → All (λ (o : InstanceOut). (o.id == id) ≡ false) (list_instances t)
unfolding list_instances listed_instances to_instance_out
list_instances-IsHidden id t h =
    let newest = λ (a b : Instance). leb b.created_at a.created_at in
    All-of_map (λ (o : InstanceOut). (o.id == id) ≡ false)
      (λ (i : Instance). to_instance_out i (status_row i.id t.statuses))
      (keep enabled (sort newest (keep enabled t.instances)))
      (All-keep (λ (i : Instance). (i.id == id) ≡ false) enabled
        (sort newest (keep enabled t.instances))
        (All-sort newest (λ (i : Instance). (i.id == id) ≡ false) (keep enabled t.instances)
          (keep-not_hidden id t.instances h)))

list_collectable-IsHidden :
    (id : Uuid) (xs : List Instance)
    → All (IsHidden id) xs
    → All (λ (i : Instance). (i.id == id) ≡ false) (list_collectable_instances xs)
unfolding list_collectable_instances
list_collectable-IsHidden id xs h =
    All-sort (λ (a b : Instance). leb a.created_at b.created_at)
      (λ (i : Instance). (i.id == id) ≡ false) (keep enabled xs) (keep-not_hidden id xs h)

module _ (m : Means) (env : Env) (users : List User) (token : Text) (new_id : Uuid) (now : Time)
    (id : Uuid) (t : InstanceTables) where
  -- A deletion that answers without content was asked with an administrator's token, and afterwards
  -- the instance is neither in the list of instances nor among those that the collector collects; and
  -- a deletion that does not answer so leaves the tables as they were.
  pub delete_instance-IsHidden :
      (((handle_instance m env users token new_id now (delete_instance_route id) t).0
          ≡ answer no_content)
        × ((user : User) × (current_user env token now users ≡ some user)
            × (is_admin user.role ≡ true))
        × All
            (λ (o : InstanceOut). (o.id == id) ≡ false)
            (list_instances
              (handle_instance m env users token new_id now (delete_instance_route id) t).1)
        × All
            (λ (i : Instance). (i.id == id) ≡ false)
            (list_collectable_instances
              (handle_instance m env users token new_id now
                (delete_instance_route id)
                t).1.instances))
      ⊎ (((handle_instance m env users token new_id now (delete_instance_route id) t).0
            ≢ answer no_content)
          × ((handle_instance m env users token new_id now (delete_instance_route id) t).1 ≡ t))
  unfolding handle_instance is_valid_body run_instance_request delete_instance
  delete_instance-IsHidden = elim (Option-cases (current_user env token now users)) [
    | inl q ↦ rw (handle_instance, q) (inr (λ h. cc h, refl))
    | inr (user, q) ↦ elim (Bool-cases (is_admin user.role)) [
      | inr k ↦ rw (handle_instance, q, k) (inr (λ h. cc h, refl))
      | inl k ↦ elim (Option-cases (get_instance id t.instances)) [
        | inl l ↦ rw (handle_instance, q, k, delete_instance, l) (inr (λ h. cc h, refl))
        | inr (i, l) ↦
            let j : Instance = record i { status = "disabled" } in
            let h = put_instance-IsHidden id j t.instances refl in
            rw (handle_instance, q, k, delete_instance, l)
              (inl (
                refl,
                (user, refl, k),
                list_instances-IsHidden id (record t { instances = put_instance id j t.instances })
                    h,
                list_collectable-IsHidden id (put_instance id j t.instances) h,
              ))
      ]
    ]
  ]
