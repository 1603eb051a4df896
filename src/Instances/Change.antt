-- ===== src/Instances/Change.antt =====
-- The change, the deletion and the connection test of an instance of
-- backend/app/services/instance_service.py.
use sql_monitor.Base.{
  Bool, true, false, ◌&&◌, Option, none, some, List, [], ◌∷◌, ◌++◌, map, if◌then◌else◌, ◌==◌,
  nat_eq, string_eq, pair_eq, contains, int_eq, Text, codes, list_eq,
}
use sql_monitor.Auth.{Uuid}
use sql_monitor.Instances.{build_sql_auth_connection_string}
use sql_monitor.Instances.Records.{
  Instance, encrypt_connection_string, decrypt_connection_string, get_instance,
}
use sql_monitor.Instances.Requests.{
  Field, unset, given, InstanceUpdate, InstanceOut, InstanceConnectionTestRequest,
  InstanceConnectionTestOut, is_text,
}
use sql_monitor.Instances.Service.{InstanceTables, TestRow, Means, given_or, to_instance_out}

-- the value of a column that may not be `NULL`; `none` is the error of its constraint
abbrev pub set_value {ℓ} : {A : Type ℓ} → Field A → A → Option A
set_value unset old = some old
set_value (given a) old = a

-- the value of a column that may be
abbrev pub set_option {ℓ} : {A : Type ℓ} → Field A → Option A → Option A
set_option unset old = old
set_option (given a) old = a

infixl 5 ◌>>=◌
abbrev pub ◌>>=◌ {ℓ κ} : {A : Type ℓ} {B : Type κ} → Option A → (A → Option B) → Option B
none >>= f = none
some a >>= f = f a

-- the loop of `setattr`
unfoldable pub set_fields : InstanceUpdate → Instance → Option Instance
set_fields d i = do
  name ← set_value d.name i.name
  host ← set_value d.host i.host
  port ← set_value d.port i.port
  environment ← set_value d.environment i.environment
  status ← set_value d.status i.status
  interval ← set_value d.collect_interval_seconds i.collect_interval_seconds
  missing ←
      set_value d.missing_index_collect_interval_seconds i.missing_index_collect_interval_seconds
  fragmentation ←
      set_value d.index_fragmentation_collect_interval_seconds
        i.index_fragmentation_collect_interval_seconds
  timeout ← set_value d.index_operation_timeout_seconds i.index_operation_timeout_seconds
  retention ← set_value d.retention_days i.retention_days
  some (record i {
    name = name;
    host = host;
    port = port;
    database_name = set_option d.database_name i.database_name;
    environment = environment;
    status = status;
    collect_interval_seconds = interval;
    missing_index_collect_interval_seconds = missing;
    index_fragmentation_collect_interval_seconds = fragmentation;
    index_operation_timeout_seconds = timeout;
    retention_days = retention;
    business_owner = set_option d.business_owner i.business_owner;
    dba_owner = set_option d.dba_owner i.dba_owner;
    sqlserver_version = set_option d.sqlserver_version i.sqlserver_version;
  })

module _ (m : Means) where
  -- the new connection string, if there is one; the row has its new fields by then
  unfoldable pub new_collect_dsn : InstanceUpdate → Field Text → Instance → Option Text
  unfolding build_sql_auth_connection_string
  new_collect_dsn d (given dsn) i = dsn
  new_collect_dsn d unset i =
      if is_text d.username && is_text d.password
      then some (
          build_sql_auth_connection_string m.driver i.host i.port (given_or d.username [])
            (given_or d.password []) (given_or i.database_name (codes "master")))
      else none

  abbrev pub set_collect_dsn : Option Text → Instance → Instance
  set_collect_dsn none i = i
  set_collect_dsn (some dsn) i = record i {
    encrypted_collect_dsn = encrypt_connection_string m.base64 dsn;
  }

  abbrev pub set_kill_dsn : Field Text → Instance → Instance
  set_kill_dsn unset i = i
  set_kill_dsn (given none) i = record i { encrypted_kill_dsn = none }
  set_kill_dsn (given (some dsn)) i = record i {
    encrypted_kill_dsn = some (encrypt_connection_string m.base64 dsn);
  }

  -- the row after an update; `none` is the `IntegrityError`
  unfoldable pub updated : InstanceUpdate → Instance → Option Instance
  unfolding set_fields new_collect_dsn encrypt_connection_string
  updated d i = do
    j ← set_fields d i
    some (set_kill_dsn d.kill_dsn (set_collect_dsn (new_collect_dsn d d.collect_dsn j) j))

abbrev pub put_instance : Uuid → Instance → List Instance → List Instance
put_instance id j instances = map (λ (i : Instance). if i.id == id then j else i) instances

-- the first value that is not empty
abbrev pub first_text : Option Text → Option Text → Option Text
first_text (some found) value = some found
first_text none (some (c ∷ s)) = some (c ∷ s)
first_text none _ = none

-- a name that is not empty and not known yet
abbrev pub add_database : Option Text → List Text → List Text
add_database none databases = databases
add_database (some []) databases = databases
add_database (some (c ∷ s)) databases =
    if contains (c ∷ s) databases then databases else databases ++ (c ∷ s) ∷ []

-- the loop over the rows
unfoldable pub read_rows :
    List TestRow → Option Text → Option Text → List Text → Option Text × Option Text × List Text
read_rows [] version database databases = (version, database, databases)
read_rows (r ∷ rows) version database databases =
    read_rows rows (first_text version r.sqlserver_version) (first_text database r.database_name)
      (add_database r.available_database_name databases)

abbrev pub or_master : List Text → Option Text → List Text
or_master [] database = given_or database (codes "master") ∷ []
or_master (d ∷ ds) database = d ∷ ds

-- `if new: row.column = new`
abbrev pub new_or {ℓ} : {A : Type ℓ} → Option A → Option A → Option A
new_or none old = old
new_or (some new) old = some new

-- the row after a test
unfoldable pub tested : InstanceConnectionTestOut → Instance → Instance
tested result i =
    if result.success
    then record i {
      status = "online";
      sqlserver_version = new_or result.sqlserver_version i.sqlserver_version;
      database_name = new_or result.database_name i.database_name;
    }
    else record i { status = "offline" }

-- how an update ends: no such instance, an `IntegrityError`, or the instance
pub data Updated : Type 0 where
  not_found integrity_error : Updated
  updated_to : InstanceOut → Updated

module _ (m : Means) where
  unfoldable pub update_instance : Uuid → InstanceUpdate → InstanceTables → Updated × InstanceTables
  unfolding updated to_instance_out
  update_instance instance_id d t = elim (get_instance instance_id t.instances) [
    | none ↦ (not_found, t)
    | some i ↦ elim (updated m d i) [
      | none ↦ (integrity_error, t)
      | some j ↦ (
        updated_to (to_instance_out j none),
        record t { instances = put_instance instance_id j t.instances },
      )
    ]
  ]

  unfoldable pub delete_instance : Uuid → InstanceTables → Bool × InstanceTables
  delete_instance instance_id t = elim (get_instance instance_id t.instances) [
    | none ↦ (false, t)
    | some i ↦ (
      true,
      record t {
        instances = put_instance instance_id (record i { status = "disabled" }) t.instances;
      },
    )
  ]

  -- `_run_connection_test`
  unfoldable pub run_connection_test : Text → InstanceConnectionTestOut
  unfolding read_rows
  run_connection_test connection_string = elim (m.query connection_string) [
    | none ↦ record {
      success = false;
      sqlserver_version = none;
      database_name = none;
      databases = [];
      instance = none;
    }
    | some rows ↦
        let read = read_rows rows none none [] in
        record {
          success = true;
          sqlserver_version = read.0;
          database_name = read.1;
          databases = or_master read.2 read.1;
          instance = none;
        }
  ]

  unfoldable pub test_new_instance_connection :
      InstanceConnectionTestRequest → InstanceConnectionTestOut
  unfolding run_connection_test build_sql_auth_connection_string
  test_new_instance_connection d = run_connection_test (
      build_sql_auth_connection_string m.driver d.host d.port d.username d.password
        (given_or d.database_name (codes "master")))

  -- How a test ends: no such instance, an exception from the stored string, or the result.
  unfoldable pub test_existing_instance_connection :
      Uuid → InstanceTables → Option (Option InstanceConnectionTestOut) × InstanceTables
  unfolding decrypt_connection_string run_connection_test tested to_instance_out
  test_existing_instance_connection instance_id t = elim (get_instance instance_id t.instances) [
    | none ↦ (some none, t)
    | some i ↦ elim (decrypt_connection_string m.base64 i.encrypted_collect_dsn) [
      | none ↦ (none, t)
      | some connection_string ↦
          let result = run_connection_test connection_string in
          let j = tested result i in
          (
            some (some (record result { instance = some (to_instance_out j none) })),
            record t { instances = put_instance instance_id j t.instances },
          )
    ]
  ]
