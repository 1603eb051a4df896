-- ===== src/Instances/Records.antt =====
-- The rows of instances of backend/app/db/models.py, and how services/instance_service.py keeps
-- their connection strings. `base64` is a parameter.
use sql_monitor.Base.{
  ℕ, String, ◌≡◌, Bool, Option, some, List, ◌==◌, nat_eq, string_eq, pair_eq, find, int_eq, Text,
  list_eq,
}
use sql_monitor.Auth.{Uuid, Time}

pub record Instance : Type 0 where
  pub id : Uuid
  pub name : Text
  pub host : Text
  pub port : ℕ
  pub database_name : Option Text
  pub environment : Text
  pub encrypted_collect_dsn : Text
  pub encrypted_kill_dsn : Option Text
  pub status : String
  pub collect_interval_seconds : ℕ
  pub missing_index_collect_interval_seconds : ℕ
  pub index_fragmentation_collect_interval_seconds : ℕ
  pub index_operation_timeout_seconds : ℕ
  pub retention_days : ℕ
  pub business_owner : Option Text
  pub dba_owner : Option Text
  pub sqlserver_version : Option Text
  pub created_at : Time
  pub updated_at : Time

-- the capabilities of an instance, which the code writes as a dict of flags
pub record Capabilities : Type 0 where
  pub sessions : Bool
  pub requests : Bool
  pub waits : Bool
  pub blocking : Bool
  pub resources : Bool

pub record InstanceCollectStatus : Type 0 where
  pub instance_id : Uuid
  pub last_success_at : Option Time
  pub last_failure_at : Option Time
  pub last_duration_ms : Option ℕ
  pub consecutive_failures : ℕ
  pub status : String
  pub error_code : Option String
  pub error_message : Option String
  pub capabilities : Option Capabilities
  pub updated_at : Time

-- What the code relies on of `base64` and UTF-8. `none` is an exception.
pub record Base64 : Type 0 where
  pub b64encode : Text → Text
  pub b64decode : Text → Option Text
  pub b64decode-b64encode : (s : Text) → b64decode (b64encode s) ≡ some s

module _ (b : Base64) where
  unfoldable pub encrypt_connection_string : Text → Text
  encrypt_connection_string connection_string = b.b64encode connection_string

  unfoldable pub decrypt_connection_string : Text → Option Text
  decrypt_connection_string encrypted_connection_string = b.b64decode encrypted_connection_string

abbrev pub get_instance : Uuid → List Instance → Option Instance
get_instance id instances = find (λ (i : Instance). i.id == id) instances
