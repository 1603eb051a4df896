-- ===== src/Base/Texts.antt =====
-- Text as Python's `str`: a list of code points. What Python reads from the Unicode database is a
-- parameter of the functions that use it.
use Prim.Native.Nat.{ℕ, ◌+◌, ◌-◌, ◌≤◌}
use Prim.Native.Char.{code}
use Prim.Native.String.{String}
use mathlib.Core.Path.{◌≡◌}
use mathlib.Core.Logic.{◌↔◌}
use mathlib.Core.Bool.{Bool, true, false, ◌&&◌, ◌||◌}
use mathlib.Core.List.{List, [], ◌∷◌, map, reverse}
use native.Mathlib.Omega.{arith}
use sql_monitor.Base.Tests.{Eq, ◌==◌, nat_beq, nat_eq, leb, if◌then◌else◌}
use sql_monitor.Base.Lists.{length}

abbrev pub Text : Type 0
Text = List ℕ

-- the code points of a literal; `String` has its own `[]` and `∷`
abbrev pub codes : String → Text
codes String.[] = []
codes (String.◌∷◌ c s) = code c ∷ codes s

abbrev pub list_beq {ℓ} : {A : Type ℓ} ⦃e : Eq A⦄ → List A → List A → Bool
list_beq [] [] = true
list_beq (x ∷ xs) (y ∷ ys) = x == y && list_beq xs ys
list_beq _ _ = false

pub list_beq_iff {ℓ} :
    {A : Type ℓ} ⦃e : Eq A⦄ (xs ys : List A) → (list_beq xs ys ≡ true) ↔ (xs ≡ ys)
list_beq_iff [] [] = ground arith
list_beq_iff [] (y ∷ ys) = ground arith
list_beq_iff (x ∷ xs) [] = ground arith
list_beq_iff ⦃e⦄ (x ∷ xs) (y ∷ ys) = ground (arith, e.equal_iff x y, list_beq_iff xs ys)

instance abbrev pub list_eq {ℓ} : {A : Type ℓ} ⦃e : Eq A⦄ → Eq (List A)
list_eq = record { equal_iff = list_beq_iff; equal = list_beq }

-- `str.isspace` and `str.isdigit` of one character, `str.lower` and `str.upper`
pub record Unicode : Type 0 where
  pub is_space : ℕ → Bool
  pub is_digit : ℕ → Bool
  pub lower : Text → Text
  pub upper : Text → Text

-- `s.startswith(p)`
abbrev pub starts_with : Text → Text → Bool
starts_with [] s = true
starts_with (c ∷ p) [] = false
starts_with (c ∷ p) (d ∷ s) = nat_beq c d && starts_with p s

-- `p in s`
abbrev pub is_infix : Text → Text → Bool
is_infix p [] = starts_with p []
is_infix p (d ∷ s) = starts_with p (d ∷ s) || is_infix p s

module _ (u : Unicode) where
  -- `s.lstrip()`, `s.rstrip()`, `s.strip()`
  abbrev pub lstrip : Text → Text
  lstrip [] = []
  lstrip (c ∷ s) = let rest = lstrip s in if u.is_space c then rest else c ∷ s

  abbrev pub rstrip : Text → Text
  rstrip s = reverse (lstrip (reverse s))

  abbrev pub strip : Text → Text
  strip s = rstrip (lstrip s)

  pub length-lstrip : (s : Text) → length (lstrip s) ≤ length s
  length-lstrip [] = omega arith
  length-lstrip (c ∷ s) = ground (arith, length-lstrip s)

-- `s1 or s2` for texts, where the empty text is falsy
abbrev pub text_or : Text → Text → Text
text_or [] d = d
text_or (c ∷ s) d = c ∷ s

-- The characters of ASCII, for tests.
abbrev ascii_lower : ℕ → ℕ
ascii_lower c = if leb 65 c && leb c 90 then c + 32 else c

abbrev ascii_upper : ℕ → ℕ
ascii_upper c = if leb 97 c && leb c 122 then c - 32 else c

abbrev pub ascii : Unicode
ascii = record {
  is_space = λ c. nat_beq c 32 || (leb 9 c && leb c 13);
  is_digit = λ c. leb 48 c && leb c 57;
  lower = map ascii_lower;
  upper = map ascii_upper;
}
