-- ===== src/Indexes/Tests.antt =====
-- An index on two columns of a table.
use sql_monitor.Base.{
  ◌≡◌, refl, true, none, some, List, [], ◌∷◌, arith, nat_eq, string_eq, pair_eq, int_eq, Text,
  codes, list_eq,
}
use sql_monitor.Indexes.{
  CreateIndex, build_create_index_sql, build_index_maintenance_sql, rebuild,
  recommend_fragmentation_action,
}
use sql_monitor.Indexes.Sql.{read_create, read_create-build_create_index_sql}
use sql_monitor.Indexes.Names.{
  named, build_default_index_name, IsFree, build_default_index_name-IsFree, name_part,
}

abbrev index : CreateIndex
index = record {
  database_name = codes "Sales";
  schema_name = codes "dbo";
  table_name = codes "Order Lines";
  index_name = codes "IX_Lines";
  key_columns = codes "OrderId" ∷ codes "Line" ∷ [];
  include_columns = codes "Price" ∷ [];
}

abbrev sql : Text
sql =
    codes
      "CREATE INDEX [IX_Lines] ON [Sales].[dbo].[Order Lines] ([OrderId], [Line]) INCLUDE ([Price])"

index_built : build_create_index_sql index ≡ some sql
unfolding build_create_index_sql
index_built = refl

read_create-build_create_index_sql_example : read_create 2 sql ≡ some index
read_create-build_create_index_sql_example =
    read_create-build_create_index_sql 2 index sql index_built (omega arith) (omega arith)

bracket_refused : build_create_index_sql (record index { table_name = codes "t] DROP" }) ≡ none
unfolding build_create_index_sql
bracket_refused = refl

online :
    build_index_maintenance_sql (codes "Sales") (codes "dbo") (codes "t") (codes "i") rebuild true
    ≡ some (codes "ALTER INDEX [i] ON [Sales].[dbo].[t] REBUILD WITH (ONLINE = ON)")
unfolding build_index_maintenance_sql
online = refl

rebuilt : recommend_fragmentation_action 3001 1000 ≡ some rebuild
unfolding recommend_fragmentation_action
rebuilt = refl

part_named : name_part (codes "_Order--Lines$") ≡ codes "Order_Lines"
unfolding name_part
part_named = refl

abbrev taken : List Text
taken = codes "IX_t_a" ∷ codes "IX_t_a_001" ∷ []

third_name :
    build_default_index_name taken (codes "Sales") (codes "dbo") (codes "t") (codes "a" ∷ [])
    ≡ named (codes "IX_t_a_002")
unfolding build_default_index_name
third_name = refl

build_default_index_name-IsFree_example : IsFree taken (codes "IX_t_a_002")
build_default_index_name-IsFree_example =
    build_default_index_name-IsFree taken (codes "Sales") (codes "dbo") (codes "t") (codes "a" ∷ [])
      (codes "IX_t_a_002") third_name
