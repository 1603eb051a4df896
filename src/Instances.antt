-- ===== src/Instances.antt =====
-- backend/app/services/instance_service.py: the connection string of a monitored instance. The name
-- of the driver, which the code looks up in pyodbc, is an argument.
pub mod Connection
pub mod Records
pub mod Service
pub mod Change
pub mod Statuses
pub mod Events
pub mod Deletion
pub mod Routes
pub mod Requests
pub mod Sample
mod Tests
use sql_monitor.Base.{
  ℕ, zero, suc, ◌+◌, ◌/◌, ◌%◌, [], ◌∷◌, ◌++◌, ltb, nat_beq, if◌then◌else◌, nat_eq, string_eq,
  pair_eq, int_eq, Text, codes, list_eq, text_or,
}

-- `str(port)`: the digits of a number, on fuel; a number has fewer digits than its successor counts
digits : ℕ → ℕ → Text → Text
digits zero n acc = acc
digits (suc fuel) n acc =
    let rest = digits fuel (n / 10) ((48 + n % 10) ∷ acc) in
    if ltb n 10 then (48 + n) ∷ acc else rest

unfoldable pub decimal : ℕ → Text
unfolding digits
decimal n = digits (suc n) n []

-- `value.replace("}", "}}")`
abbrev pub double_brace : Text → Text
double_brace [] = []
double_brace (c ∷ s) =
    let rest = double_brace s in if nat_beq c 125 then 125 ∷ 125 ∷ rest else c ∷ rest

-- `_odbc_brace`
unfoldable pub odbc_brace : Text → Text
odbc_brace value = 123 ∷ (double_brace value ++ 125 ∷ [])

-- `build_sql_auth_connection_string`
unfoldable pub build_sql_auth_connection_string : Text → Text → ℕ → Text → Text → Text → Text
unfolding odbc_brace decimal
build_sql_auth_connection_string driver host port username password database_name =
    codes "Driver="
    ++ (odbc_brace driver
        ++ (codes ";Server="
            ++ (odbc_brace (host ++ (codes "," ++ decimal port))
                ++ (codes ";Database="
                    ++ (odbc_brace (text_or database_name (codes "master"))
                        ++ (codes ";UID="
                            ++ (odbc_brace username
                                ++ (codes ";PWD="
                                    ++ (odbc_brace password
                                        ++ codes ";Encrypt=yes;TrustServerCertificate=yes;")))))))))
