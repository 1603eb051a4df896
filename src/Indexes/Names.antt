-- ===== src/Indexes/Names.antt =====
-- The names that backend/app/services/index_service.py gives to new indexes.
use sql_monitor.Base.{
  ℕ, zero, suc, ◌+◌, ◌-◌, ◌/◌, ◌%◌, ◌≤◌, ◌≡◌, subst, inl, inr, Bool, true, false, not, ◌&&◌, ◌||◌,
  List, [], ◌∷◌, ◌++◌, reverse, arith, leb, nat_beq, if◌then◌else◌, nat_eq, string_eq, pair_eq,
  Bool-cases, length, take, length-append, length-take, contains, int_eq, Text, codes, list_eq,
  text_or,
}
use sql_monitor.Indexes.{validate_identifier}

-- `[0-9A-Za-z_]`
abbrev pub is_word : ℕ → Bool
is_word c =
    (leb 48 c && leb c 57) || ((leb 65 c && leb c 90) || (nat_beq c 95 || (leb 97 c && leb c 122)))

-- `re.sub(r"[^0-9A-Za-z_]+", "_", value)`; the flag says that the run before is replaced already
unfoldable pub sub_runs : Bool → Text → Text
sub_runs replaced [] = []
sub_runs replaced (c ∷ s) =
    let kept = sub_runs false s in
    let skipped = sub_runs true s in
    if is_word c then c ∷ kept else if replaced then skipped else 95 ∷ skipped

abbrev pub lstrip_underscore : Text → Text
lstrip_underscore [] = []
lstrip_underscore (c ∷ s) = let rest = lstrip_underscore s in if nat_beq c 95 then rest else c ∷ s

-- `.strip("_")`
abbrev pub strip_underscore : Text → Text
strip_underscore s = reverse (lstrip_underscore (reverse (lstrip_underscore s)))

-- `_name_part`
unfoldable pub name_part : Text → Text
unfolding sub_runs
name_part value = text_or (strip_underscore (sub_runs false value)) (codes "col")

-- `_truncate_identifier`; a reserve is at most 128
unfoldable pub truncate_identifier : Text → ℕ → Text
truncate_identifier value reserve = take (128 - reserve) value

-- `"_".join([_name_part(table_name), *[_name_part(column) ...]])`
unfoldable pub join_parts : Text → List Text → Text
unfolding name_part
join_parts part [] = name_part part
join_parts part (next ∷ parts) = name_part part ++ (codes "_" ++ join_parts next parts)

unfoldable pub build_lightweight_index_name : Text → List Text → Text
unfolding truncate_identifier join_parts
build_lightweight_index_name table_name key_columns =
    truncate_identifier (codes "IX_" ++ join_parts table_name key_columns) 0

-- `f"{stem}_{sequence:03d}"` for a number below 1000
unfoldable pub numbered : Text → ℕ → Text
numbered stem sequence =
    stem
    ++ (95 ∷ (48 + sequence / 100 % 10) ∷ (48 + sequence / 10 % 10) ∷ (48 + sequence % 10) ∷ [])

-- How the search for a name ends: `ValueError` of an identifier, or `RuntimeError` of the sequence.
pub data Named : Type 0 where
  named : Text → Named
  invalid : Named
  exhausted : Named

-- the loop `while sequence < 1000`, by the number of rounds that are left
unfoldable pub next_free : List Text → Text → ℕ → ℕ → Named
unfolding numbered
next_free existing_names stem sequence zero = exhausted
next_free existing_names stem sequence (suc left) =
    let rest = next_free existing_names stem (suc sequence) left in
    if contains (numbered stem sequence) existing_names
    then rest
    else named (numbered stem sequence)

-- `build_default_index_name`; `existing_names` is what the server answers to `_existing_index_names`.
unfoldable pub build_default_index_name : List Text → Text → Text → Text → List Text → Named
unfolding next_free truncate_identifier join_parts
build_default_index_name existing_names database_name schema_name table_name key_columns =
    let base_name = truncate_identifier (codes "IX_" ++ join_parts table_name key_columns) 0 in
    if not (
      validate_identifier database_name
      && (validate_identifier schema_name && validate_identifier table_name))
    then invalid
    else if not (contains base_name existing_names)
    then named base_name
    else next_free existing_names (truncate_identifier base_name 4) 1 999

-- a name that the server takes, and that it does not have yet
pub record IsFree (existing_names : List Text) (name : Text) : Type 0 where
  pub short : length name ≤ 128
  pub fresh : contains name existing_names ≡ false

named-eq : (a b : Text) → named a ≡ named b → a ≡ b
named-eq a b h = cc h

next_free-IsFree :
    (existing_names : List Text) (stem : Text) (sequence left : ℕ) (name : Text)
    → length stem ≤ 124
    → next_free existing_names stem sequence left ≡ named name
    → IsFree existing_names name
unfolding next_free numbered
next_free-IsFree existing_names stem sequence zero name short h = cc h
next_free-IsFree existing_names stem sequence (suc left) name short h =
    elim (Bool-cases (contains (numbered stem sequence) existing_names)) [
      | inl taken ↦
          next_free-IsFree existing_names stem (suc sequence) left name short
            (rw (taken, next_free) at h)
      | inr fresh ↦
          let e = named-eq (numbered stem sequence) name (rw (fresh, next_free) at h) in
          subst (IsFree existing_names) e (record {
            short = omega (
              arith,
              length-append stem (
                  95
                  ∷ (48 + sequence / 100 % 10)
                  ∷ (48 + sequence / 10 % 10)
                  ∷ (48 + sequence % 10)
                  ∷ []),
              short,
            );
            fresh = fresh;
          })
    ]

-- A name that `build_default_index_name` returns has at most 128 characters and is not the name of
-- an index that the table has.
pub build_default_index_name-IsFree :
    (existing_names : List Text) (database_name schema_name table_name : Text)
    (key_columns : List Text) (name : Text)
    → build_default_index_name existing_names database_name schema_name table_name key_columns
      ≡ named name
    → IsFree existing_names name
unfolding build_default_index_name truncate_identifier
build_default_index_name-IsFree existing_names database_name schema_name table_name key_columns name
      h =
    let whole = codes "IX_" ++ join_parts table_name key_columns in
    let base_name = take 128 whole in
    let valid =
      validate_identifier database_name
      && (validate_identifier schema_name && validate_identifier table_name) in
    elim (Bool-cases valid) [
      | inr bad ↦ cc (rw (bad, build_default_index_name) at h)
      | inl ok ↦ elim (Bool-cases (contains base_name existing_names)) [
        | inr fresh ↦
            let e = named-eq base_name name (rw (ok, fresh, build_default_index_name) at h) in
            subst (IsFree existing_names) e
              (record { short = omega (arith, length-take 128 whole); fresh = fresh })
        | inl taken ↦
            next_free-IsFree existing_names (take 124 base_name) 1 999 name
              (omega (arith, length-take 124 base_name))
              (rw (ok, taken, build_default_index_name) at h)
      ]
    ]
