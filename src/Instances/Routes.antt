-- ===== src/Instances/Routes.antt =====
-- The routes of backend/app/api/routes/instances.py: who may change the instances. The list is for any
-- account, the rest for administrators.
use sql_monitor.Base.{
  Bool, true, false, not, ◌&&◌, Option, none, some, List, leb, if◌then◌else◌, nat_eq, string_eq,
  pair_eq, length, int_eq, Text, list_eq,
}
use sql_monitor.Auth.{Uuid, Time}
use sql_monitor.Users.{
  User, Role, Env, Response, answer, http_error, uncaught, is_admin, current_user,
}
use sql_monitor.Instances.Requests.{
  InstanceCreate, InstanceUpdate, InstanceOut, InstanceConnectionTestRequest,
  InstanceConnectionTestOut, within, sized, if_some, is_valid_create, is_valid_update,
}
use sql_monitor.Instances.Service.{InstanceTables, Means, list_instances, create_instance}
use sql_monitor.Instances.Change.{
  Updated, not_found, integrity_error, updated_to, update_instance, delete_instance,
  test_new_instance_connection, test_existing_instance_connection,
}

pub data InstanceRequest : Type 0 where
  get_instances : InstanceRequest
  post_instance : (request : InstanceCreate) → InstanceRequest
  post_instance_connection_test : (request : InstanceConnectionTestRequest) → InstanceRequest
  put_instance : (instance_id : Uuid) (request : InstanceUpdate) → InstanceRequest
  delete_instance_route : (instance_id : Uuid) → InstanceRequest
  post_existing_instance_connection_test : (instance_id : Uuid) → InstanceRequest

pub data InstanceAnswer : Type 0 where
  instance_list : List InstanceOut → InstanceAnswer
  instance_out : InstanceOut → InstanceAnswer
  test_out : InstanceConnectionTestOut → InstanceAnswer
  no_content : InstanceAnswer

abbrev pub may_ask : InstanceRequest → Role → Bool
may_ask get_instances role = true
may_ask _ role = is_admin role

-- the bounds of the bodies
unfoldable pub is_valid_body : InstanceRequest → Bool
unfolding is_valid_create is_valid_update
is_valid_body (post_instance d) = is_valid_create d
is_valid_body (put_instance id d) = is_valid_update d
is_valid_body (post_instance_connection_test d) =
    (sized 1 255 d.host && within 1 65535 d.port)
    && (if_some (sized 0 128) d.database_name
        && (sized 1 128 d.username && leb 1 (length d.password)))
is_valid_body _ = true

abbrev pub on_created : Option InstanceOut → Response InstanceAnswer
on_created none = uncaught
on_created (some out) = answer (instance_out out)

abbrev pub on_updated : Updated → Response InstanceAnswer
on_updated not_found = http_error 404
on_updated integrity_error = uncaught
on_updated (updated_to out) = answer (instance_out out)

abbrev pub on_deleted : Bool → Response InstanceAnswer
on_deleted true = answer no_content
on_deleted false = http_error 404

abbrev pub on_tested : Option (Option InstanceConnectionTestOut) → Response InstanceAnswer
on_tested none = uncaught
on_tested (some none) = http_error 404
on_tested (some (some out)) = answer (test_out out)

module _ (m : Means) where
  -- the bodies of the routes; `new_id` and `now` are drawn
  unfoldable pub run_instance_request :
      Uuid → Time → InstanceRequest → InstanceTables → Response InstanceAnswer × InstanceTables
  unfolding list_instances create_instance update_instance delete_instance
      test_new_instance_connection test_existing_instance_connection
  run_instance_request new_id now get_instances t = (answer (instance_list (list_instances t)), t)
  run_instance_request new_id now (post_instance d) t =
      let r = create_instance m new_id now d t in (on_created r.0, r.1)
  run_instance_request new_id now (post_instance_connection_test d) t =
      (answer (test_out (test_new_instance_connection m d)), t)
  run_instance_request new_id now (put_instance id d) t =
      let r = update_instance m id d t in (on_updated r.0, r.1)
  run_instance_request new_id now (delete_instance_route id) t =
      let r = delete_instance m id t in (on_deleted r.0, r.1)
  run_instance_request new_id now (post_existing_instance_connection_test id) t =
      let r = test_existing_instance_connection m id t in (on_tested r.0, r.1)

  -- the token and the role, the bounds of the body, and the route
  unfoldable pub handle_instance :
      Env
      → List User
      → Text
      → Uuid
      → Time
      → InstanceRequest
      → InstanceTables
      → Response InstanceAnswer × InstanceTables
  unfolding current_user is_valid_body run_instance_request
  handle_instance env users token new_id now request t = elim (current_user env token now users) [
    | none ↦ (http_error 401, t)
    | some user ↦
        if not (may_ask request user.role)
        then (http_error 403, t)
        else if not (is_valid_body request)
        then (http_error 422, t)
        else run_instance_request new_id now request t
  ]
