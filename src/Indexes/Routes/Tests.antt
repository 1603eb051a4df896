-- ===== src/Indexes/Routes/Tests.antt =====
-- An index is created over the route, by an administrator and by a token that is none.
use sql_monitor.Base.{
  ◌≡◌, refl, ◌⊎◌, true, false, none, some, List, [], ◌∷◌, nat_eq, string_eq, pair_eq, int_eq, Text,
  codes, list_eq, ascii,
}
use sql_monitor.Auth.{seconds}
use sql_monitor.Auth.Sample.{decode, encode}
use sql_monitor.Users.{User, answer, current_user}
use sql_monitor.Users.Sample.{env, users, token}
use sql_monitor.Instances.Records.{Instance}
use sql_monitor.Instances.Sample.{base64, sample_instance}
use sql_monitor.Collector.IndexStore.{IndexTables}
use sql_monitor.Indexes.Audit.{MissingIndexAudit, returned, IndexState, get_audit}
use sql_monitor.Indexes.Routes.{
  IndexRequest, post_index, Sources, may_change_indexes, is_valid_index_request, audit_response,
  serve_index,
}
use sql_monitor.Indexes.Routes.Guarded.{serve_index-IsGuarded}

abbrev sources : Sources
sources = record {
  unicode = ascii;
  base64 = base64;
  server = record {
    decrypt_connection_string = λ dsn. some dsn;
    existing_index_names = λ connection database schema table. some [];
    online_supported = λ connection. some false;
    execute = λ connection ddl. returned;
    lower = ascii.lower;
  };
  missing_by_id = λ a b. true;
  fragmentation_by_id = λ a b. true;
  databases = λ dsn. none;
}

abbrev instances : List Instance
instances = sample_instance ∷ []

abbrev tables : IndexTables
tables = record { missing = []; fragmentation = []; statuses = [] }

abbrev empty : IndexState
empty = record { audits = []; executed = [] }

abbrev request : IndexRequest
request = post_index 7 (record {
  database_name = codes "Sales";
  schema_name = codes "dbo";
  table_name = codes "t";
  index_name = codes "IX_t_a";
  key_columns = codes "a" ∷ [];
  include_columns = [];
})

sent :
    (serve_index sources instances tables env users token 9 (seconds 100) request empty).1.executed
    ≡ (codes "dsn", codes "CREATE INDEX [IX_t_a] ON [Sales].[dbo].[t] ([a])") ∷ []
unfolding serve_index decode encode
sent = refl

not_sent :
    (serve_index sources instances tables env users [] 9 (seconds 100) request empty).1.executed
    ≡ []
unfolding serve_index decode encode
not_sent = refl

serve_index-IsGuarded_example :
    ((serve_index sources instances tables env users token 9 (seconds 100) request empty).1.executed
      ≡ [])
    ⊎ ((user : User) × (a : MissingIndexAudit) × (connection : Text) × (current_user env token
            (seconds 100)
            users
          ≡ some user)
        × (may_change_indexes user.role ≡ true)
        × (is_valid_index_request request ≡ true)
        × ((serve_index sources instances tables env users token 9 (seconds 100) request empty).0
            ≡ answer (audit_response a))
        × ((serve_index sources instances tables env users token 9
              (seconds 100)
              request
              empty).1.executed
            ≡ (connection, a.ddl_summary) ∷ []))
unfolding get_audit
serve_index-IsGuarded_example =
    serve_index-IsGuarded sources instances tables env users token 9 (seconds 100) request empty
      refl
