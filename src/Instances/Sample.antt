-- ===== src/Instances/Sample.antt =====
-- An instance, with a toy encoding of its connection strings.
use sql_monitor.Base.{◌≡◌, refl, none, some, nat_eq, string_eq, pair_eq, int_eq, codes, list_eq}
use sql_monitor.Instances.Records.{Instance, Base64, decrypt_connection_string}

abbrev pub base64 : Base64
base64 = record { b64encode = λ s. s; b64decode = λ s. some s; b64decode-b64encode = λ s. refl }

abbrev pub sample_instance : Instance
sample_instance = record {
  id = 7;
  name = codes "erp";
  host = codes "db1";
  port = 1433;
  database_name = none;
  environment = codes "prod";
  encrypted_collect_dsn = codes "dsn";
  encrypted_kill_dsn = none;
  status = "online";
  collect_interval_seconds = 5;
  missing_index_collect_interval_seconds = 600;
  index_fragmentation_collect_interval_seconds = 600;
  index_operation_timeout_seconds = 1800;
  retention_days = 7;
  business_owner = none;
  dba_owner = none;
  sqlserver_version = none;
  created_at = 1;
  updated_at = 1;
}

pub decoded : decrypt_connection_string base64 (codes "dsn") ≡ some (codes "dsn")
unfolding decrypt_connection_string
decoded = refl
