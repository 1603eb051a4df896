-- ===== src/Indexes.antt =====
-- backend/app/services/index_service.py: identifiers, the names of new indexes, and the statements
-- that create and maintain indexes. What SQL Server answers is an argument. The percentage of
-- fragmentation stands in hundredths, as the column that stores it has two decimals.
pub mod Sql
pub mod Names
pub mod Audit
pub mod Stored
pub mod Maintenance
pub mod Routes
mod Tests
use sql_monitor.Base.{
  ℕ, Bool, true, false, not, ◌&&◌, ◌||◌, Option, none, some, List, [], ◌∷◌, ◌++◌, ltb, leb, nat_beq,
  if◌then◌else◌, nat_eq, string_eq, pair_eq, int_eq, Text, codes, list_eq, Unicode, is_infix,
}

-- the characters that `IDENTIFIER_PATTERN` excludes: a dot, the brackets and NUL
abbrev pub is_plain : ℕ → Bool
is_plain c = not (nat_beq c 46 || (nat_beq c 91 || (nat_beq c 93 || nat_beq c 0)))

abbrev pub all_plain : Text → Bool
all_plain [] = true
all_plain (c ∷ s) = is_plain c && all_plain s

-- `_validate_identifier`: `false` is its `ValueError`
abbrev pub validate_identifier : Text → Bool
validate_identifier [] = false
validate_identifier (c ∷ s) = all_plain (c ∷ s)

-- `value.replace(']', ']]')`
abbrev pub double_bracket : Text → Text
double_bracket [] = []
double_bracket (c ∷ s) =
    let rest = double_bracket s in if nat_beq c 93 then 93 ∷ 93 ∷ rest else c ∷ rest

-- `_quote_identifier`, once the value is validated
unfoldable pub quoted : Text → Text
quoted value = 91 ∷ (double_bracket value ++ 93 ∷ [])

-- `_quote_columns`
unfoldable pub quote_columns : List Text → Text
unfolding quoted
quote_columns [] = []
quote_columns (column ∷ []) = quoted column
quote_columns (column ∷ next ∷ columns) =
    quoted column ++ (codes ", " ++ quote_columns (next ∷ columns))

pub record CreateIndex : Type 0 where
  pub database_name : Text
  pub schema_name : Text
  pub table_name : Text
  pub index_name : Text
  pub key_columns : List Text
  pub include_columns : List Text

abbrev pub all_valid : List Text → Bool
all_valid [] = true
all_valid (s ∷ ss) = validate_identifier s && all_valid ss

-- ` INCLUDE (...)`, where there are such columns
unfoldable pub include_clause : List Text → Text
unfolding quote_columns
include_clause [] = []
include_clause (column ∷ columns) =
    codes " INCLUDE (" ++ (quote_columns (column ∷ columns) ++ codes ")")

abbrev pub is_empty {ℓ} : {A : Type ℓ} → List A → Bool
is_empty [] = true
is_empty (x ∷ xs) = false

-- `build_create_index_sql`: `none` is a `ValueError`
unfoldable pub build_create_index_sql : CreateIndex → Option Text
unfolding quoted quote_columns include_clause
build_create_index_sql d =
    if is_empty d.key_columns
    then none
    else if not (
        all_valid (
          d.database_name
          ∷ d.schema_name
          ∷ d.table_name
          ∷ d.index_name
          ∷ (d.key_columns ++ d.include_columns)))
    then none
    else some (
        codes "CREATE INDEX "
        ++ (quoted d.index_name
            ++ (codes " ON "
                ++ (quoted d.database_name
                    ++ (codes "."
                        ++ (quoted d.schema_name
                            ++ (codes "."
                                ++ (quoted d.table_name
                                    ++ (codes " ("
                                        ++ (quote_columns d.key_columns
                                            ++ (codes ")"
                                                ++ include_clause d.include_columns)))))))))))

pub data Action : Type 0 where
  reorganize rebuild : Action

unfoldable pub action_name : Action → Text
action_name reorganize = codes "REORGANIZE"
action_name rebuild = codes "REBUILD"

abbrev pub online_clause : Action → Bool → Text
online_clause rebuild true = codes " WITH (ONLINE = ON)"
online_clause rebuild false = []
online_clause reorganize online = []

-- `build_index_maintenance_sql`; the schema of the request admits the two actions only
unfoldable pub build_index_maintenance_sql : Text → Text → Text → Text → Action → Bool → Option Text
unfolding quoted action_name
build_index_maintenance_sql database_name schema_name table_name index_name action online_rebuild =
    if not (all_valid (database_name ∷ schema_name ∷ table_name ∷ index_name ∷ []))
    then none
    else some (
        codes "ALTER INDEX "
        ++ (quoted index_name
            ++ (codes " ON "
                ++ (quoted database_name
                    ++ (codes "."
                        ++ (quoted schema_name
                            ++ (codes "."
                                ++ (quoted table_name
                                    ++ (codes " "
                                        ++ (action_name action
                                            ++ online_clause action online_rebuild))))))))))

-- `recommend_fragmentation_action`: `none` is "NONE"
unfoldable pub recommend_fragmentation_action : ℕ → ℕ → Option Action
recommend_fragmentation_action fragmentation_percent page_count =
    if ltb page_count 1000
    then none
    else if ltb 3000 fragmentation_percent
    then some rebuild
    else if leb 500 fragmentation_percent
    then some reorganize
    else none

-- What `supports_online_index_rebuild` reads of a row; a missing value is the empty text or 0.
unfoldable pub supports_online_index_rebuild : Unicode → Text → ℕ → ℕ → Bool
supports_online_index_rebuild u edition engine_edition major_version =
    if nat_beq engine_edition 5 || nat_beq engine_edition 8
    then true
    else if is_infix (codes "enterprise") (u.lower edition)
        || is_infix (codes "developer") (u.lower edition)
    then true
    else leb 15 major_version
