-- ===== src/Instances/Tests.antt =====
-- A password with the characters that a connection string gives a meaning to.
use sql_monitor.Base.{
  ◌≡◌, refl, some, [], ◌∷◌, ◌++◌, nat_eq, string_eq, pair_eq, int_eq, codes, list_eq,
}
use sql_monitor.Instances.{decimal, build_sql_auth_connection_string, odbc_brace}
use sql_monitor.Instances.Connection.{
  read_attributes, read_attributes-build_sql_auth_connection_string,
}

port_written : decimal 1433 ≡ codes "1433"
unfolding decimal
port_written = refl

braces_doubled : odbc_brace (codes "a}b") ≡ codes "{a}}b}"
unfolding odbc_brace
braces_doubled = refl

read_attributes-build_sql_auth_connection_string_example :
    read_attributes 7 (
      build_sql_auth_connection_string
        (codes "ODBC Driver 18 for SQL Server")
        (codes "db1")
        1433
        (codes "sa")
        (codes "p};UID={x")
        [])
    ≡ some (
        (codes "Driver", codes "ODBC Driver 18 for SQL Server")
        ∷ (codes "Server", codes "db1" ++ (codes "," ++ decimal 1433))
        ∷ (codes "Database", codes "master")
        ∷ (codes "UID", codes "sa")
        ∷ (codes "PWD", codes "p};UID={x")
        ∷ (codes "Encrypt", codes "yes")
        ∷ (codes "TrustServerCertificate", codes "yes")
        ∷ [])
read_attributes-build_sql_auth_connection_string_example =
    read_attributes-build_sql_auth_connection_string (codes "ODBC Driver 18 for SQL Server")
      (codes "db1") 1433 (codes "sa") (codes "p};UID={x") []
