-- ===== src/SqlTexts/Preview/Tests.antt =====
-- Previews of small statements.
use sql_monitor.Base.{
  ◌≡◌, refl, some, ◌∷◌, ◌++◌, nat_eq, string_eq, pair_eq, int_eq, Text, codes, list_eq, ascii,
}
use sql_monitor.SqlTexts.{preview_sql}

abbrev statement : Text
statement = codes " SELECT" ++ (10 ∷ 9 ∷ codes "1 ")

collapsed : preview_sql ascii (some statement) 8 ≡ codes "SELECT 1"
unfolding preview_sql
collapsed = refl

cut : preview_sql ascii (some statement) 7 ≡ codes "SELE..."
unfolding preview_sql
cut = refl

dots_only : preview_sql ascii (some statement) 2 ≡ codes ".."
unfolding preview_sql
dots_only = refl
