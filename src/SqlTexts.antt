-- ===== src/SqlTexts.antt =====
-- backend/app/collector/sql_text.py: previews and hashes of SQL statements. `hashlib` is the
-- `sha256` of the parameter `Crypto`; the two patterns for literals of `re` are parameters too.
pub mod Preview
use sql_monitor.Base.{
  ℕ, ◌-◌, Bool, true, false, Option, none, some, [], ◌∷◌, ◌++◌, leb, if◌then◌else◌, nat_eq,
  string_eq, pair_eq, length, take, int_eq, Text, codes, list_eq, Unicode, rstrip, strip,
}
use sql_monitor.Auth.{Crypto}

-- `_WHITESPACE_RE.sub(" ", text)`; the flag says that the character before was whitespace
unfoldable pub sub_whitespace : Unicode → Bool → Text → Text
sub_whitespace u in_run [] = []
sub_whitespace u in_run (c ∷ s) =
    let in_space = sub_whitespace u true s in
    let in_word = sub_whitespace u false s in
    if u.is_space c then (if in_run then in_space else 32 ∷ in_space) else c ∷ in_word

unfoldable pub collapse_whitespace : Unicode → Text → Text
unfolding sub_whitespace
collapse_whitespace u s = strip u (sub_whitespace u false s)

-- `preview_sql` of a text that is not empty, whitespace collapsed
unfoldable pub cut_preview : Unicode → Text → ℕ → Text
cut_preview u preview max_length =
    if leb (length preview) max_length
    then preview
    else if leb max_length 3
    then take max_length (codes "...")
    else rstrip u (take (max_length - 3) preview) ++ codes "..."

unfoldable pub preview_sql : Unicode → Option Text → ℕ → Text
unfolding collapse_whitespace cut_preview
preview_sql u none max_length = []
preview_sql u (some []) max_length = []
preview_sql u (some (c ∷ s)) max_length = cut_preview u (collapse_whitespace u (c ∷ s)) max_length

-- `_SINGLE_QUOTED_STRING_RE.sub("?", text)` and `_NUMERIC_LITERAL_RE.sub("?", text)`
pub record Literals : Type 0 where
  pub sub_strings : Text → Text
  pub sub_numbers : Text → Text

module _ (u : Unicode) (literals : Literals) (x : Crypto) where
  unfoldable pub normalize_sql : Option Text → Text
  unfolding collapse_whitespace
  normalize_sql none = []
  normalize_sql (some []) = []
  normalize_sql (some (c ∷ s)) =
      collapse_whitespace u
        (literals.sub_numbers (literals.sub_strings (collapse_whitespace u (u.lower (c ∷ s)))))

  unfoldable pub sql_hash : Option Text → Text
  sql_hash none = x.sha256 []
  sql_hash (some s) = x.sha256 s

  unfoldable pub normalized_sql_hash : Option Text → Text
  unfolding normalize_sql
  normalized_sql_hash s = x.sha256 (normalize_sql s)
