-- ===== src/Instances/Events/Tests.antt =====
-- A deletion, a change and a collection of the sample's instance.
use sql_monitor.Base.{
  ◌≡◌, ◌≢◌, refl, ◌⊎◌, true, false, none, some, List, [], ◌∷◌, map, ◌==◌, nat_eq, string_eq,
  pair_eq, All, int_eq, Text, codes, list_eq, ascii,
}
use sql_monitor.Auth.{seconds}
use sql_monitor.Auth.Sample.{toy_crypto, encode, decode}
use sql_monitor.Users.{User, answer, current_user, is_admin}
use sql_monitor.Users.Sample.{env, users, token}
use sql_monitor.Instances.Records.{Instance}
use sql_monitor.Instances.Requests.{InstanceOut, InstanceUpdate, unset, given}
use sql_monitor.Instances.Sample.{base64, sample_instance}
use sql_monitor.Instances.Service.{InstanceTables, Means, TestRow, list_instances}
use sql_monitor.Instances.Change.{run_connection_test}
use sql_monitor.Instances.Routes.{no_content, handle_instance, delete_instance_route, put_instance}
use sql_monitor.Instances.Statuses.{IsInstances}
use sql_monitor.Instances.Events.{Event, requested, collection, run_events, run_events-IsInstances}
use sql_monitor.Instances.Deletion.{delete_instance-IsHidden}
use sql_monitor.Collector.Snapshot.Collect.{Surroundings}
use sql_monitor.Collector.Snapshot.Store.{Database, list_collectable_instances}

abbrev test_row : Text → TestRow
test_row name = record {
  sqlserver_version = some (codes "16");
  database_name = some (codes "master");
  available_database_name = some name;
}

abbrev means : Means
means = record {
  driver = codes "ODBC";
  base64 = base64;
  query = λ s. some (test_row (codes "erp") ∷ test_row (codes "crm") ∷ test_row (codes "erp") ∷ []);
}

abbrev tables : InstanceTables
tables = record { instances = sample_instance ∷ []; statuses = [] }

abbrev database : Database
database = record {
  tables = record {
    frames = [];
    sessions = [];
    requests = [];
    waits = [];
    blocking_rows = [];
    sql_texts = [];
  };
  instances = sample_instance ∷ [];
  statuses = [];
  indexes = record { missing = []; fragmentation = []; statuses = [] };
}

-- a server that cannot be reached
abbrev unreachable : Surroundings
unreachable = record {
  hashing = record {
    unicode = ascii;
    literals = record { sub_strings = λ s. s; sub_numbers = λ s. s };
    crypto = toy_crypto;
  };
  frame_id = 1;
  started_at = 100;
  finished_at = 200;
  base64 = base64;
  connect = λ s. none;
  accepted = true;
}

abbrev renamed : InstanceUpdate
renamed = record {
  name = given (some (codes "sales"));
  host = unset;
  port = unset;
  database_name = unset;
  environment = unset;
  collect_dsn = unset;
  kill_dsn = unset;
  username = none;
  password = none;
  status = unset;
  collect_interval_seconds = unset;
  missing_index_collect_interval_seconds = unset;
  index_fragmentation_collect_interval_seconds = unset;
  index_operation_timeout_seconds = unset;
  retention_days = unset;
  business_owner = unset;
  dba_owner = unset;
  sqlserver_version = unset;
}

databases : (run_connection_test means (codes "dsn")).databases ≡ codes "erp" ∷ codes "crm" ∷ []
unfolding run_connection_test
databases = refl

renamed_only :
    map {B = Text × Text}
      (λ (o : InstanceOut). (o.name, o.host))
      (list_instances
        (handle_instance means env users token 9 (seconds 100) (put_instance 7 renamed) tables).1)
    ≡ (codes "sales", codes "db1") ∷ []
unfolding handle_instance list_instances decode encode
renamed_only = refl

abbrev events : List Event
events =
    collection none unreachable sample_instance
    ∷ requested token 9 (seconds 100) (put_instance 7 renamed)
    ∷ requested [] 9 (seconds 101) (delete_instance_route 7)
    ∷ []

run_events-IsInstances_example : IsInstances (run_events means env users events database).instances
run_events-IsInstances_example =
    run_events-IsInstances means env users events database ((refl, tt), (refl, tt))

delete_instance-IsHidden_example :
    (((handle_instance means env users token 9 (seconds 100) (delete_instance_route 7) tables).0
        ≡ answer no_content)
      × ((user : User) × (current_user env token (seconds 100) users ≡ some user)
          × (is_admin user.role ≡ true))
      × All
          (λ (o : InstanceOut). (o.id == 7) ≡ false)
          (list_instances
            (handle_instance means env users token 9
              (seconds 100)
              (delete_instance_route 7)
              tables).1)
      × All
          (λ (i : Instance). (i.id == 7) ≡ false)
          (list_collectable_instances
            (handle_instance means env users token 9
              (seconds 100)
              (delete_instance_route 7)
              tables).1.instances))
    ⊎ (((handle_instance means env users token 9 (seconds 100) (delete_instance_route 7) tables).0
          ≢ answer no_content)
        × ((handle_instance means env users token 9
              (seconds 100)
              (delete_instance_route 7)
              tables).1
            ≡ tables))
delete_instance-IsHidden_example =
    delete_instance-IsHidden means env users token 9 (seconds 100) 7 tables
