-- ===== src/SqlTexts/Preview.antt =====
-- The shape of a preview: `preview_sql` of backend/app/collector/sql_text.py.
mod Tests
use sql_monitor.Base.{
  ℕ, ◌-◌, ◌≤◌, ◌≡◌, refl, ◌⊎◌, inl, inr, Bool, true, false, Option, none, some, [], ◌∷◌, reverse,
  reverse-cons, arith, leb, nat_eq, string_eq, pair_eq, Bool-cases, length, take, length-append,
  length-take, All-reverse, All, All-append, All-slice, int_eq, Text, codes, list_eq, Unicode,
  lstrip, rstrip, strip, length-lstrip,
}
use sql_monitor.SqlTexts.{sub_whitespace, collapse_whitespace, cut_preview, preview_sql}

-- a character that does not break the line: no whitespace, or a blank
abbrev pub IsInline : Unicode → ℕ → Type 0
IsInline u c = (u.is_space c ≡ false) ⊎ (c ≡ 32)

length-reverse : (s : Text) → length (reverse s) ≡ length s
length-reverse [] = refl
length-reverse (c ∷ s) =
    rw (reverse-cons, length-append (reverse s) (c ∷ [])) (omega (arith, length-reverse s))

module _ (u : Unicode) where
  length-rstrip : (s : Text) → length (rstrip u s) ≤ length s
  length-rstrip s =
      rw (length-reverse (lstrip u (reverse s)))
        (omega (arith, length-lstrip u (reverse s), length-reverse s))

  length-cut_preview : (s : Text) (n : ℕ) → length (cut_preview u s n) ≤ n
  unfolding cut_preview
  length-cut_preview s n = elim (Bool-cases (leb (length s) n)) [
    | inl h ↦ rw h (ground (arith, h))
    | inr h ↦ elim (Bool-cases (leb n 3)) [
      | inl k ↦ rw (h, k) (rw (length-take n (codes "...")) (ground (arith)))
      | inr k ↦
          rw (h, k, length-append (rstrip u (take (n - 3) s)) (codes "..."))
            (ground (arith, k, length-rstrip (take (n - 3) s), length-take (n - 3) s))
    ]
  ]

  sub_whitespace-Inline : (b : Bool) (s : Text) → All (IsInline u) (sub_whitespace u b s)
  unfolding sub_whitespace
  sub_whitespace-Inline b [] = tt
  sub_whitespace-Inline b (c ∷ s) = elim (Bool-cases (u.is_space c)) [
    | inl h ↦ elim (Bool-cases b) [
      | inl k ↦ rw (h, k) (sub_whitespace-Inline true s)
      | inr k ↦ rw (h, k) (inr refl, sub_whitespace-Inline true s)
    ]
    | inr h ↦ rw h (inl h, sub_whitespace-Inline false s)
  ]

  lstrip-Inline : (s : Text) → All (IsInline u) s → All (IsInline u) (lstrip u s)
  lstrip-Inline [] h = tt
  lstrip-Inline (c ∷ s) h = elim (Bool-cases (u.is_space c)) [
    | inl k ↦ rw k (lstrip-Inline s h.1)
    | inr k ↦ rw k h
  ]

  rstrip-Inline : (s : Text) → All (IsInline u) s → All (IsInline u) (rstrip u s)
  rstrip-Inline s h =
      All-reverse (IsInline u) (lstrip u (reverse s))
        (lstrip-Inline (reverse s) (All-reverse (IsInline u) s h))

  take-Inline : (n : ℕ) (s : Text) → All (IsInline u) s → All (IsInline u) (take n s)
  take-Inline n s h = All-slice (IsInline u) 0 n s h

  cut_preview-Inline :
      u.is_space 46 ≡ false
      → (s : Text) (n : ℕ) → All (IsInline u) s
      → All (IsInline u) (cut_preview u s n)
  unfolding cut_preview
  cut_preview-Inline dot s n h =
      let dots : All (IsInline u) (codes "...") = (inl dot, (inl dot, (inl dot, tt))) in
      elim (Bool-cases (leb (length s) n)) [
        | inl q ↦ rw q h
        | inr q ↦ elim (Bool-cases (leb n 3)) [
          | inl k ↦ rw (q, k) (take-Inline n (codes "...") dots)
          | inr k ↦
              rw (q, k)
                (All-append (IsInline u) (rstrip u (take (n - 3) s)) (codes "...")
                  (rstrip-Inline (take (n - 3) s) (take-Inline (n - 3) s h)) dots)
        ]
      ]

  -- A preview never has more characters than the bound, whatever the statement and the bound, and it
  -- stands on one line: its only whitespace is the blank, if a dot is not whitespace.
  pub preview_sql-IsInline :
      (dot : u.is_space 46 ≡ false) (s : Option Text) (n : ℕ)
      → (length (preview_sql u s n) ≤ n) × All (IsInline u) (preview_sql u s n)
  unfolding preview_sql collapse_whitespace
  preview_sql-IsInline dot none n = (omega arith, tt)
  preview_sql-IsInline dot (some []) n = (omega arith, tt)
  preview_sql-IsInline dot (some (c ∷ s)) n =
      let all = sub_whitespace u false (c ∷ s) in
      (
        length-cut_preview (strip u all) n,
        cut_preview-Inline dot (strip u all) n (
            rstrip-Inline (lstrip u all) (lstrip-Inline all (sub_whitespace-Inline false (c ∷ s)))),
      )
