-- ===== src/Indexes/Audit/Tests.antt =====
-- An index is created on a table, and its statement is run.
use sql_monitor.Base.{
  String, ◌≡◌, refl, false, Option, none, some, List, [], ◌∷◌, map, nat_eq, string_eq, pair_eq,
  int_eq, codes, list_eq, ascii,
}
use sql_monitor.Users.{User, admin}
use sql_monitor.Users.Sample.{account}
use sql_monitor.Indexes.{CreateIndex}
use sql_monitor.Indexes.Audit.{
  Instance, IndexResult, running, failed, MissingIndexAudit, raised, Server, IndexState, accepted,
  name_conflict, create_audit, create_missing_index, get_audit, get_instance,
  operation_connection_string, run_missing_index_ddl, run_ddl,
}
use sql_monitor.Indexes.Audit.Created.{AreNames, Leaves, create_missing_index-Leaves}
use sql_monitor.Indexes.Audit.Finished.{IsFinished, run_ddl-IsFinished}

abbrev index : CreateIndex
index = record {
  database_name = codes "Sales";
  schema_name = codes "dbo";
  table_name = codes "t";
  index_name = codes "IX_t_a";
  key_columns = codes "a" ∷ [];
  include_columns = [];
}

abbrev server : Server
server = record {
  decrypt_connection_string = λ dsn. some dsn;
  existing_index_names = λ connection database schema table. some (codes "PK_t" ∷ []);
  online_supported = λ connection. some false;
  execute = λ connection ddl. raised (codes "Query Timeout expired");
  lower = ascii.lower;
}

abbrev instance_row : Instance
instance_row = record { id = 7; encrypted_kill_dsn = none; encrypted_collect_dsn = codes "dsn" }

abbrev instances : List Instance
instances = instance_row ∷ []

abbrev empty : IndexState
empty = record { audits = []; executed = [] }

abbrev root : User
root = account 1 (codes "root") admin

abbrev audit : MissingIndexAudit
audit =
    create_audit server 9 7 index root (codes "CREATE INDEX [IX_t_a] ON [Sales].[dbo].[t] ([a])")
      running none

abbrev after_create : IndexState
after_create = record { audits = audit ∷ []; executed = [] }

created :
    create_missing_index server instances 9 7 index root empty ≡ (accepted audit, after_create)
unfolding create_missing_index create_audit
created = refl

conflict :
    (create_missing_index server instances 9 7
      (record index { index_name = codes "PK_t" })
      root
      empty).0
    ≡ name_conflict
unfolding create_missing_index
conflict = refl

create_missing_index-Leaves_example :
    Leaves
      (AreNames server instances 7 index)
      index
      empty
      (create_missing_index server instances 9 7 index root empty)
create_missing_index-Leaves_example =
    create_missing_index-Leaves server 9 7 index root empty instances

found : get_audit 9 (after_create.audits) ≡ some audit
unfolding get_audit create_audit
found = refl

known : get_instance (audit.instance_id) instances ≡ some instance_row
unfolding get_instance create_audit
known = refl

connects : operation_connection_string server instance_row ≡ some (codes "dsn")
unfolding operation_connection_string
connects = refl

run_ddl-IsFinished_example :
    ((run_ddl server "INDEX_CREATE_TIMEOUT" "INDEX_CREATE_FAILED" instances 9 after_create).executed
      ≡ (codes "dsn", audit.ddl_summary) ∷ [])
    × ((b : MissingIndexAudit) × (get_audit 9
            (run_ddl server "INDEX_CREATE_TIMEOUT" "INDEX_CREATE_FAILED" instances 9
              after_create).audits
          ≡ some b)
        × IsFinished server "INDEX_CREATE_TIMEOUT" "INDEX_CREATE_FAILED" audit
            (raised (codes "Query Timeout expired"))
            b)
run_ddl-IsFinished_example =
    run_ddl-IsFinished server "INDEX_CREATE_TIMEOUT" "INDEX_CREATE_FAILED" instances 9 after_create
      audit instance_row (codes "dsn") found known connects

timed_out :
    map {B = IndexResult × Option String}
      (λ (a : MissingIndexAudit). (a.result, a.error_message))
      (run_missing_index_ddl server instances 9 after_create).audits
    ≡ (failed, some "INDEX_CREATE_TIMEOUT") ∷ []
unfolding run_ddl create_audit
timed_out = refl
