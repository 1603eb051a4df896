-- ===== src/Indexes/Sql.antt =====
-- The statements that create an index, read back: what T-SQL takes a bracketed identifier to be.
use sql_monitor.Base.{
  ℕ, zero, suc, ◌≤◌, ◌<◌, ◌≡◌, refl, sym, ap, ◌∙◌, inl, inr, Bool, true, false, not, Option, none,
  some, none≢some, List, [], ◌∷◌, ◌++◌, append_assoc, arith, nat_beq, if◌then◌else◌, nat_eq,
  string_eq, pair_eq, Bool-cases, length, int_eq, Text, codes, list_eq, some-eq,
}
use sql_monitor.Indexes.{
  double_bracket, quoted, quote_columns, CreateIndex, all_valid, include_clause,
  build_create_index_sql,
}

abbrev put : ℕ → Option (Text × Text) → Option (Text × Text)
put c none = none
put c (some (v, rest)) = some (c ∷ v, rest)

-- The rest of an identifier after its opening bracket: two closing brackets stand for one, and one
-- ends it. The flag says that a closing bracket has just been read.
pub read_rest : Bool → Text → Option (Text × Text)
read_rest false [] = none
read_rest true [] = some ([], [])
read_rest false (c ∷ s) =
    let closed = read_rest true s in
    let next = read_rest false s in if nat_beq c 93 then closed else put c next
read_rest true (c ∷ s) =
    let next = read_rest false s in if nat_beq c 93 then put 93 next else some ([], c ∷ s)

pub read_identifier : Text → Option (Text × Text)
unfolding read_rest
read_identifier [] = none
read_identifier (c ∷ s) = if nat_beq c 91 then read_rest false s else none

-- what may follow an identifier
abbrev pub ends_identifier : Text → Bool
ends_identifier [] = true
ends_identifier (c ∷ s) = not (nat_beq c 93)

read_rest-double_bracket :
    (v rest : Text)
    → ends_identifier rest ≡ true
    → read_rest false (double_bracket v ++ 93 ∷ rest) ≡ some (v, rest)
unfolding read_rest
read_rest-double_bracket [] [] h = refl
read_rest-double_bracket [] (d ∷ rest) h = ground arith
read_rest-double_bracket (c ∷ v) rest h = ground (arith, read_rest-double_bracket v rest h)

read_identifier-quoted :
    (v rest : Text)
    → ends_identifier rest ≡ true
    → read_identifier (quoted v ++ rest) ≡ some (v, rest)
unfolding read_identifier quoted
read_identifier-quoted v rest h =
    ap (read_rest false) (append_assoc (double_bracket v) (93 ∷ []) rest)
    ∙ read_rest-double_bracket v rest h

-- `p` in front is taken off
abbrev pub expect : Text → Text → Option Text
expect [] s = some s
expect (c ∷ p) [] = none
expect (c ∷ p) (d ∷ s) = let rest = expect p s in if nat_beq c d then rest else none

abbrev pub and_then {ℓ κ} : {A : Type ℓ} {B : Type κ} → Option A → (A → Option B) → Option B
and_then none f = none
and_then (some a) f = f a

-- At most as many identifiers as the fuel says, with commas between them
pub read_columns : ℕ → Text → Option (List Text × Text)
unfolding read_identifier
read_columns zero s = none
read_columns (suc n) s = and_then (read_identifier s) (λ (found : Text × Text).
    elim (expect (codes ", ") found.1) [
      | none ↦ some (found.0 ∷ [], found.1)
      | some rest ↦
          and_then (read_columns n rest)
            (λ (more : List Text × Text). some (found.0 ∷ more.0, more.1))
    ])

read_columns-quote_columns :
    (n : ℕ) (column : Text) (columns : List Text) (rest : Text)
    → length columns < n
    → read_columns n (quote_columns (column ∷ columns) ++ 41 ∷ rest)
      ≡ some (column ∷ columns, 41 ∷ rest)
unfolding read_columns quote_columns
read_columns-quote_columns zero column columns rest h = absurd (omega (arith, h))
read_columns-quote_columns (suc n) column [] rest h =
    rw (read_identifier-quoted column (41 ∷ rest) refl) refl
read_columns-quote_columns (suc n) column (next ∷ columns) rest h =
    ap (read_columns (suc n))
      (append_assoc (quoted column) (codes ", " ++ quote_columns (next ∷ columns)) (41 ∷ rest))
    ∙ rw
        (read_identifier-quoted column (codes ", " ++ (quote_columns (next ∷ columns) ++ 41 ∷ rest))
          refl)
        (rw (read_columns-quote_columns n next columns rest (omega (arith, h))) refl)

-- the columns of an INCLUDE, up to the end of the statement
unfoldable pub read_include : ℕ → Text → Option (List Text)
unfolding read_columns
read_include n [] = some []
read_include n (c ∷ s) = and_then (expect (codes " INCLUDE (") (c ∷ s)) (λ inner.
    and_then (read_columns n inner) (λ (found : List Text × Text). elim found.1 [
      | [] ↦ none
      | d ∷ rest ↦
          (if nat_beq d 41 then (elim rest [ [] ↦ some found.0 | e ∷ more ↦ none ]) else none)
    ]))

-- A reader of the statement CREATE INDEX, by T-SQL's rule for bracketed identifiers. The fuel bounds
-- the number of columns in a list.
unfoldable pub read_create : ℕ → Text → Option CreateIndex
unfolding read_identifier read_columns read_include
read_create n s = and_then (expect (codes "CREATE INDEX ") s) (λ s1.
    and_then (read_identifier s1) (λ (index : Text × Text).
      and_then (expect (codes " ON ") index.1) (λ s2.
        and_then (read_identifier s2) (λ (database : Text × Text).
          and_then (expect (codes ".") database.1) (λ s3.
            and_then (read_identifier s3) (λ (schema : Text × Text).
              and_then (expect (codes ".") schema.1) (λ s4.
                and_then (read_identifier s4) (λ (table : Text × Text).
                  and_then (expect (codes " (") table.1) (λ s5.
                    and_then (read_columns n s5) (λ (keys : List Text × Text).
                      and_then (expect (codes ")") keys.1) (λ s6.
                        and_then (read_include n s6) (λ includes. some (record {
                          database_name = database.0;
                          schema_name = schema.0;
                          table_name = table.0;
                          index_name = index.0;
                          key_columns = keys.0;
                          include_columns = includes;
                        })))))))))))))

read_include-include_clause :
    (n : ℕ) (columns : List Text)
    → length columns ≤ n
    → read_include n (include_clause columns) ≡ some columns
unfolding read_include include_clause
read_include-include_clause n [] h = refl
read_include-include_clause n (column ∷ columns) h =
    rw (read_columns-quote_columns n column columns [] (omega (arith, h))) refl

-- the statement that is built
statement : Text → Text → Text → Text → List Text → List Text → Text
unfolding quoted quote_columns include_clause
statement database schema table index key_list includes =
    codes "CREATE INDEX "
    ++ (quoted index
        ++ (codes " ON "
            ++ (quoted database
                ++ (codes "."
                    ++ (quoted schema
                        ++ (codes "."
                            ++ (quoted table
                                ++ (codes " ("
                                    ++ (quote_columns key_list
                                        ++ (codes ")" ++ include_clause includes))))))))))

read_create-statement :
    (n : ℕ) (database schema table index key : Text) (key_list includes : List Text)
    → length key_list < n
    → length includes ≤ n
    → read_create n (statement database schema table index (key ∷ key_list) includes)
      ≡ some (record {
        database_name = database;
        schema_name = schema;
        table_name = table;
        index_name = index;
        key_columns = key ∷ key_list;
        include_columns = includes;
      })
unfolding read_create statement
read_create-statement n database schema table index key key_list includes h k =
    let r5 =
      codes " (" ++ (quote_columns (key ∷ key_list) ++ (codes ")" ++ include_clause includes)) in
    let r4 = codes "." ++ (quoted table ++ r5) in
    let r3 = codes "." ++ (quoted schema ++ r4) in
    let r2 = codes " ON " ++ (quoted database ++ r3) in
    rw (read_identifier-quoted index r2 refl) (
      rw (read_identifier-quoted database r3 refl) (
        rw (read_identifier-quoted schema r4 refl) (
          rw (read_identifier-quoted table r5 refl) (
            rw (read_columns-quote_columns n key key_list (include_clause includes) h)
              (rw (read_include-include_clause n includes k) refl)))))

built :
    (n : ℕ) (database schema table index : Text) (key_list includes : List Text) (sql : Text)
    → build_create_index_sql (record {
      database_name = database;
      schema_name = schema;
      table_name = table;
      index_name = index;
      key_columns = key_list;
      include_columns = includes;
    })
      ≡ some sql
    → length key_list ≤ n
    → length includes ≤ n
    → read_create n sql
      ≡ some (record {
        database_name = database;
        schema_name = schema;
        table_name = table;
        index_name = index;
        key_columns = key_list;
        include_columns = includes;
      })
unfolding build_create_index_sql statement
built n database schema table index [] includes sql h k l = cc h
built n database schema table index (key ∷ key_list) includes sql h k l =
    elim (Bool-cases
      (all_valid (database ∷ schema ∷ table ∷ index ∷ ((key ∷ key_list) ++ includes)))) [
        | inr bad ↦ absurd (none≢some (rw (bad, build_create_index_sql) at h))
        | inl ok ↦
            let e : some (statement database schema table index (key ∷ key_list) includes)
                ≡ some sql =
              rw (ok, build_create_index_sql) at h in
            ap (read_create n) (
              sym (some-eq (statement database schema table index (key ∷ key_list) includes) sql e))
            ∙ read_create-statement n database schema table index key key_list includes
                (omega (arith, k)) l
      ]

-- A statement that `build_create_index_sql` builds reads back, by T-SQL's rule for bracketed
-- identifiers, as the creation of the very index that was asked for, on that table, schema and
-- database and with those columns in their order: no name can end its brackets and add to the
-- statement. The fuel of the reader covers the number of columns.
pub read_create-build_create_index_sql :
    (n : ℕ) (d : CreateIndex) (sql : Text)
    → build_create_index_sql d ≡ some sql
    → length d.key_columns ≤ n
    → length d.include_columns ≤ n
    → read_create n sql ≡ some d
read_create-build_create_index_sql n d sql h k l =
    built n d.database_name d.schema_name d.table_name d.index_name d.key_columns d.include_columns
      sql h k l
