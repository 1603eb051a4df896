-- ===== src/Instances/Requests.antt =====
-- backend/app/schemas/instances.py: what the routes of instances are asked and what they answer.
use sql_monitor.Base.{
  ℕ, String, Bool, true, false, ◌&&◌, ◌||◌, Option, none, some, List, [], ◌∷◌, leb, nat_eq,
  string_eq, pair_eq, length, contains, int_eq, Text, list_eq,
}
use sql_monitor.Auth.{Uuid, Time}

pub record InstanceCreate : Type 0 where
  pub name : Text
  pub host : Text
  pub port : ℕ
  pub database_name : Option Text
  pub environment : Text
  pub collect_dsn : Option Text
  pub kill_dsn : Option Text
  pub username : Option Text
  pub password : Option Text
  pub status : String
  pub collect_interval_seconds : ℕ
  pub missing_index_collect_interval_seconds : ℕ
  pub index_fragmentation_collect_interval_seconds : ℕ
  pub index_operation_timeout_seconds : ℕ
  pub retention_days : ℕ
  pub business_owner : Option Text
  pub dba_owner : Option Text
  pub sqlserver_version : Option Text

-- A field of an update: not in `model_fields_set`, or set, to a value or to `None`.
pub data Field {ℓ} (A : Type ℓ) : Type ℓ where
  unset : Field A
  given : Option A → Field A

-- The name and the password are read as attributes, which are `None` where they are not set.
pub record InstanceUpdate : Type 0 where
  pub name : Field Text
  pub host : Field Text
  pub port : Field ℕ
  pub database_name : Field Text
  pub environment : Field Text
  pub collect_dsn : Field Text
  pub kill_dsn : Field Text
  pub username : Option Text
  pub password : Option Text
  pub status : Field String
  pub collect_interval_seconds : Field ℕ
  pub missing_index_collect_interval_seconds : Field ℕ
  pub index_fragmentation_collect_interval_seconds : Field ℕ
  pub index_operation_timeout_seconds : Field ℕ
  pub retention_days : Field ℕ
  pub business_owner : Field Text
  pub dba_owner : Field Text
  pub sqlserver_version : Field Text

pub record InstanceOut : Type 0 where
  pub id : Uuid
  pub name : Text
  pub host : Text
  pub port : ℕ
  pub database_name : Option Text
  pub environment : Text
  pub has_collect_dsn : Bool
  pub has_kill_dsn : Bool
  pub status : String
  pub collect_interval_seconds : ℕ
  pub missing_index_collect_interval_seconds : ℕ
  pub index_fragmentation_collect_interval_seconds : ℕ
  pub index_operation_timeout_seconds : ℕ
  pub retention_days : ℕ
  pub business_owner : Option Text
  pub dba_owner : Option Text
  pub sqlserver_version : Option Text
  pub collect_status : Option String
  pub last_success_at : Option Time
  pub last_failure_at : Option Time
  pub last_duration_ms : Option ℕ
  pub consecutive_failures : ℕ
  pub collect_error_message : Option String
  pub created_at : Time
  pub updated_at : Time

pub record InstanceConnectionTestRequest : Type 0 where
  pub host : Text
  pub port : ℕ
  pub database_name : Option Text
  pub username : Text
  pub password : Text

pub record InstanceConnectionTestOut : Type 0 where
  pub success : Bool
  pub sqlserver_version : Option Text
  pub database_name : Option Text
  pub databases : List Text
  pub instance : Option InstanceOut

-- `InstanceStatus`
abbrev pub instance_statuses : List String
instance_statuses = "online" ∷ "offline" ∷ "collect_error" ∷ "disabled" ∷ []

abbrev pub within : ℕ → ℕ → ℕ → Bool
within low high n = leb low n && leb n high

-- `Field(min_length=..., max_length=...)`
abbrev pub sized : ℕ → ℕ → Text → Bool
sized low high s = within low high (length s)

-- a test of a value, where there is one
abbrev pub if_some {ℓ} : {A : Type ℓ} → (A → Bool) → Option A → Bool
if_some p none = true
if_some p (some a) = p a

abbrev pub if_given {ℓ} : {A : Type ℓ} → (A → Bool) → Field A → Bool
if_given p unset = true
if_given p (given a) = if_some p a

abbrev pub is_text : Option Text → Bool
is_text none = false
is_text (some []) = false
is_text (some (c ∷ s)) = true

abbrev not_empty : Text → Bool
not_empty s = leb 1 (length s)

-- the bounds of `InstanceCreate`, and `require_collect_dsn_or_sql_auth`
unfoldable pub is_valid_create : InstanceCreate → Bool
is_valid_create d =
    (sized 1 128 d.name && (sized 1 255 d.host && within 1 65535 d.port))
    && ((if_some (sized 0 128) d.database_name && sized 1 32 d.environment)
        && ((if_some not_empty d.collect_dsn
              && (if_some (sized 1 128) d.username && if_some not_empty d.password))
            && ((contains d.status instance_statuses && leb 1 d.collect_interval_seconds)
                && ((leb 60 d.missing_index_collect_interval_seconds
                      && leb 60 d.index_fragmentation_collect_interval_seconds)
                    && ((within 30 7200 d.index_operation_timeout_seconds && leb 1 d.retention_days)
                        && ((if_some (sized 0 128) d.business_owner
                              && (if_some (sized 0 128) d.dba_owner
                                  && if_some (sized 0 128) d.sqlserver_version))
                            && (is_text d.collect_dsn
                                || (is_text d.username && is_text d.password))))))))

-- the bounds of `InstanceUpdate`
unfoldable pub is_valid_update : InstanceUpdate → Bool
is_valid_update d =
    (if_given (sized 1 128) d.name
      && (if_given (sized 1 255) d.host && if_given (within 1 65535) d.port))
    && ((if_given (sized 0 128) d.database_name && if_given (sized 1 32) d.environment)
        && ((if_given not_empty d.collect_dsn
              && (if_some (sized 1 128) d.username && if_some not_empty d.password))
            && ((if_given (λ s. contains s instance_statuses) d.status
                  && if_given (leb 1) d.collect_interval_seconds)
                && ((if_given (leb 60) d.missing_index_collect_interval_seconds
                      && if_given (leb 60) d.index_fragmentation_collect_interval_seconds)
                    && ((if_given (within 30 7200) d.index_operation_timeout_seconds
                          && if_given (leb 1) d.retention_days)
                        && (if_given (sized 0 128) d.business_owner
                            && (if_given (sized 0 128) d.dba_owner
                                && if_given (sized 0 128) d.sqlserver_version)))))))
