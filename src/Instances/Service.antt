-- ===== src/Instances/Service.antt =====
-- The operations on instances of backend/app/services/instance_service.py: the list, creation, change,
-- deletion and the test of a connection. The driver's name, `base64`, new ids, the clock and the
-- answers of a server are arguments.
use sql_monitor.Base.{
  ℕ, zero, suc, Bool, true, false, not, Option, none, some, List, [], ◌∷◌, ◌++◌, map, leb,
  if◌then◌else◌, ◌==◌, nat_eq, string_eq, pair_eq, is_some, or_else, keep, int_eq, Text, codes,
  list_eq, text_or, sort, row_of,
}
use sql_monitor.Auth.{Uuid, Time}
use sql_monitor.Instances.{build_sql_auth_connection_string}
use sql_monitor.Instances.Records.{
  Instance, InstanceCollectStatus, Base64, encrypt_connection_string, get_instance,
}
use sql_monitor.Instances.Requests.{InstanceCreate, InstanceOut}

pub record InstanceTables : Type 0 where
  pub instances : List Instance
  pub statuses : List InstanceCollectStatus

-- a row that CONNECTION_TEST_SQL answers
pub record TestRow : Type 0 where
  pub sqlserver_version : Option Text
  pub database_name : Option Text
  pub available_database_name : Option Text

-- What the service works with. `query` opens a client and sends the test; `none` is an exception.
pub record Means : Type 0 where
  pub driver : Text
  pub base64 : Base64
  pub query : Text → Option (List TestRow)

-- `a or b` for numbers
abbrev pub positive_or : ℕ → ℕ → ℕ
positive_or zero d = d
positive_or (suc n) d = suc n

abbrev pub of_status {ℓ} :
    {A : Type ℓ} → Option InstanceCollectStatus → (InstanceCollectStatus → Option A) → Option A
of_status none field = none
of_status (some s) field = field s

-- `bool(text)`
abbrev pub is_given : Text → Bool
is_given [] = false
is_given (c ∷ s) = true

-- `_to_instance_out`
unfoldable pub to_instance_out : Instance → Option InstanceCollectStatus → InstanceOut
to_instance_out i status = record {
  id = i.id;
  name = i.name;
  host = i.host;
  port = i.port;
  database_name = i.database_name;
  environment = i.environment;
  has_collect_dsn = is_given i.encrypted_collect_dsn;
  has_kill_dsn = is_some i.encrypted_kill_dsn;
  status = i.status;
  collect_interval_seconds = i.collect_interval_seconds;
  missing_index_collect_interval_seconds = positive_or i.missing_index_collect_interval_seconds 600;
  index_fragmentation_collect_interval_seconds =
      positive_or i.index_fragmentation_collect_interval_seconds 600;
  index_operation_timeout_seconds = positive_or i.index_operation_timeout_seconds 1800;
  retention_days = i.retention_days;
  business_owner = i.business_owner;
  dba_owner = i.dba_owner;
  sqlserver_version = i.sqlserver_version;
  collect_status = of_status status (λ s. some s.status);
  last_success_at = of_status status (λ s. s.last_success_at);
  last_failure_at = of_status status (λ s. s.last_failure_at);
  last_duration_ms = of_status status (λ s. s.last_duration_ms);
  consecutive_failures = or_else (of_status status (λ s. some s.consecutive_failures)) 0;
  collect_error_message = of_status status (λ s. s.error_message);
  created_at = i.created_at;
  updated_at = i.updated_at;
}

abbrev pub status_row : Uuid → List InstanceCollectStatus → Option InstanceCollectStatus
status_row id statuses = row_of (λ (s : InstanceCollectStatus). s.instance_id) id statuses

-- the instances of the query, which are not disabled, the newest first
unfoldable pub listed_instances : List Instance → List Instance
unfolding sort
listed_instances instances =
    keep (λ (i : Instance). not (i.status == "disabled"))
      (sort (λ (a b : Instance). leb b.created_at a.created_at)
        (keep (λ (i : Instance). not (i.status == "disabled")) instances))

unfoldable pub list_instances : InstanceTables → List InstanceOut
unfolding listed_instances to_instance_out
list_instances t =
    map (λ (i : Instance). to_instance_out i (status_row i.id t.statuses))
      (listed_instances t.instances)

-- `a or b` for texts that may be `None`
abbrev pub given_or : Option Text → Text → Text
given_or none d = d
given_or (some s) d = text_or s d

abbrev pub encrypt_given : Base64 → Option Text → Option Text
encrypt_given b none = none
encrypt_given b (some []) = none
encrypt_given b (some (c ∷ s)) = some (encrypt_connection_string b (c ∷ s))

module _ (m : Means) where
  -- the connection string that an instance is created with
  unfoldable pub collect_dsn_of : InstanceCreate → Text
  unfolding build_sql_auth_connection_string
  collect_dsn_of d = given_or d.collect_dsn (
      build_sql_auth_connection_string m.driver d.host d.port (given_or d.username [])
        (given_or d.password []) (given_or d.database_name (codes "master")))

  unfoldable pub new_instance : Uuid → Time → InstanceCreate → Instance
  unfolding collect_dsn_of encrypt_connection_string
  new_instance new_id now d = record {
    id = new_id;
    name = d.name;
    host = d.host;
    port = d.port;
    database_name = d.database_name;
    environment = d.environment;
    encrypted_collect_dsn = encrypt_connection_string m.base64 (collect_dsn_of d);
    encrypted_kill_dsn = encrypt_given m.base64 d.kill_dsn;
    status = d.status;
    collect_interval_seconds = d.collect_interval_seconds;
    missing_index_collect_interval_seconds = d.missing_index_collect_interval_seconds;
    index_fragmentation_collect_interval_seconds = d.index_fragmentation_collect_interval_seconds;
    index_operation_timeout_seconds = d.index_operation_timeout_seconds;
    retention_days = d.retention_days;
    business_owner = d.business_owner;
    dba_owner = d.dba_owner;
    sqlserver_version = d.sqlserver_version;
    created_at = now;
    updated_at = now;
  }

  abbrev pub unknown_status : Uuid → Time → InstanceCollectStatus
  unknown_status id now = record {
    instance_id = id;
    last_success_at = none;
    last_failure_at = none;
    last_duration_ms = none;
    consecutive_failures = 0;
    status = "unknown";
    error_code = none;
    error_message = none;
    capabilities = none;
    updated_at = now;
  }

  -- `none` is the `IntegrityError` of an id that is taken
  unfoldable pub create_instance :
      Uuid → Time → InstanceCreate → InstanceTables → Option InstanceOut × InstanceTables
  unfolding new_instance to_instance_out
  create_instance new_id now d t =
      let i = new_instance new_id now d in
      if is_some (get_instance new_id t.instances) then (none, t) else (
        some (to_instance_out i none),
        record {
          instances = t.instances ++ i ∷ [];
          statuses = t.statuses ++ unknown_status new_id now ∷ [];
        },
      )
