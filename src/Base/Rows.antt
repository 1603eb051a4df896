-- ===== src/Base/Rows.antt =====
-- Rows of a table with a key: the row of a key, a change of it, and the replacement of some rows.
use sql_monitor.Base.Tests.{Eq, ◌==◌, if◌then◌else◌, Bool-cases, or_else}
use sql_monitor.Base.Lists.{keep, find, All}
use mathlib.Core.Path.{◌≡◌, refl, ap}
use mathlib.Core.Logic.{inl, inr}
use mathlib.Core.Bool.{Bool, true, false, not}
use mathlib.Core.List.{List, [], ◌∷◌, ◌++◌}
use mathlib.Core.Option.{Option, some}
use native.Mathlib.Omega.{arith}

module _ {ℓ κ} {A : Type ℓ} {K : Type κ} ⦃e : Eq K⦄ (key_of : A → K) where
  -- `session.get(Table, key)`
  abbrev pub row_of : K → List A → Option A
  row_of key rows = find (λ a. key_of a == key) rows

  -- the row of a key is changed; if there is none, a new one is added and changed
  abbrev pub upsert : K → A → (A → A) → List A → List A
  upsert key new change [] = change new ∷ []
  upsert key new change (a ∷ rows) =
      let rest = upsert key new change rows in if key_of a == key then change a ∷ rows else a ∷ rest

  pub row_of-upsert :
      (key other : K) (new : A) (change : A → A)
      → ((a : A) → key_of (change a) ≡ key_of a)
      → key_of new ≡ key
      → (rows : List A)
      → row_of other (upsert key new change rows) ≡ (
          if key == other then some (change (or_else (row_of key rows) new)) else row_of other rows)
  row_of-upsert key other new change same q [] = rw (same new, q) refl
  row_of-upsert key other new change same q (a ∷ rows) = elim (Bool-cases (key_of a == key)) [
    | inl h ↦
        let p : key_of a ≡ key = (e.equal_iff (key_of a) key).0 h in
        rw (h, same a, p) (ground arith)
    | inr h ↦ rw h (
        ground (
          arith,
          row_of-upsert key other new change same q rows,
          e.equal_iff (key_of a) other,
          e.equal_iff key other,
          e.equal_iff (key_of a) key,
        ))
  ]

module _ {ℓ} {A : Type ℓ} where
  -- `delete(...).where(...)`, then the new rows
  abbrev pub replace : (A → Bool) → List A → List A → List A
  replace p rows table = keep (λ a. not (p a)) table ++ rows

  pub keep-append : (p : A → Bool) (xs ys : List A) → keep p (xs ++ ys) ≡ keep p xs ++ keep p ys
  keep-append p [] ys = refl
  keep-append p (x ∷ xs) ys = elim (Bool-cases (p x)) [
    | inl h ↦ rw h (ap (λ zs. x ∷ zs) (keep-append p xs ys))
    | inr h ↦ rw h (keep-append p xs ys)
  ]

  pub keep_all : (p : A → Bool) (xs : List A) → All (λ x. p x ≡ true) xs → keep p xs ≡ xs
  keep_all p [] h = refl
  keep_all p (x ∷ xs) h = rw h.0 (ap (λ zs. x ∷ zs) (keep_all p xs h.1))

  pub keep_nothing : (p : A → Bool) (xs : List A) → All (λ x. p x ≡ false) xs → keep p xs ≡ []
  keep_nothing p [] h = refl
  keep_nothing p (x ∷ xs) h = rw h.0 (keep_nothing p xs h.1)

  -- the rows of the test, after the replacement by rows of the test
  pub replace_own :
      (p : A → Bool) (rows table : List A)
      → All (λ x. p x ≡ true) rows
      → keep p (replace p rows table) ≡ rows
  replace_own p rows [] h = keep_all p rows h
  replace_own p rows (x ∷ table) h = elim (Bool-cases (p x)) [
    | inl q ↦ rw q (replace_own p rows table h)
    | inr q ↦ rw (q, q) (replace_own p rows table h)
  ]

  -- the rows of a test that no row of the first passes
  pub replace_other :
      (p q : A → Bool) (rows table : List A)
      → ((x : A) → p x ≡ true → q x ≡ false)
      → All (λ x. q x ≡ false) rows
      → keep q (replace p rows table) ≡ keep q table
  replace_other p q rows [] apart h = keep_nothing q rows h
  replace_other p q rows (x ∷ table) apart h =
      ground (arith, apart x, replace_other p q rows table apart h)
