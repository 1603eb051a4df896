-- ===== src/Base/Lists.antt =====
-- Lists over the native numbers, `in`, comprehensions, and a predicate of all elements.
use Prim.Native.Nat.{ℕ, zero, suc, ◌+◌, ◌-◌, ◌≤◌, min, max}
use mathlib.Core.Path.{ap, ◌≡◌, refl, sym, subst}
use mathlib.Core.Logic.{◌⊎◌, inl, inr}
use mathlib.Core.Bool.{Bool, true, false, ◌||◌}
use mathlib.Core.List.{map, List, [], ◌∷◌, ◌++◌, reverse, reverse-cons}
use mathlib.Core.Option.{Option, none, some}
use native.Mathlib.Omega.{arith}
use sql_monitor.Base.Tests.{Eq, ◌==◌, if◌then◌else◌, Bool-cases, beq_refl}

module _ {ℓ} {A : Type ℓ} where
  abbrev pub length : List A → ℕ
  length [] = 0
  length (x ∷ xs) = suc (length xs)

  abbrev pub take : ℕ → List A → List A
  take zero xs = []
  take (suc n) [] = []
  take (suc n) (x ∷ xs) = x ∷ take n xs

  abbrev pub drop : ℕ → List A → List A
  drop zero xs = xs
  drop (suc n) [] = []
  drop (suc n) (x ∷ xs) = drop n xs

  -- `[x for x in xs if p(x)]`
  abbrev pub keep : (A → Bool) → List A → List A
  keep p [] = []
  keep p (x ∷ xs) = let rest = keep p xs in if p x then x ∷ rest else rest

  -- `next((x for x in xs if p(x)), None)`
  abbrev pub find : (A → Bool) → List A → Option A
  find p [] = none
  find p (x ∷ xs) = let rest = find p xs in if p x then some x else rest

  pub length-append : (xs ys : List A) → length (xs ++ ys) ≡ length xs + length ys
  length-append [] ys = omega arith
  length-append (x ∷ xs) ys = omega (arith, length-append xs ys)

  pub length-keep : (p : A → Bool) (xs : List A) → length (keep p xs) ≤ length xs
  length-keep p [] = omega arith
  length-keep p (x ∷ xs) = ground (arith, length-keep p xs)

  pub length-take : (n : ℕ) (xs : List A) → length (take n xs) ≡ min n (length xs)
  length-take zero xs = omega arith
  length-take (suc n) [] = omega arith
  length-take (suc n) (x ∷ xs) = omega (arith, length-take n xs)

  pub length-drop : (n : ℕ) (xs : List A) → length (drop n xs) ≡ length xs - n
  length-drop zero xs = omega arith
  length-drop (suc n) [] = omega arith
  length-drop (suc n) (x ∷ xs) = omega (arith, length-drop n xs)

  -- a page of a list: `xs[start : start + n]`
  abbrev pub slice : ℕ → ℕ → List A → List A
  slice start n xs = take n (drop start xs)

  take_none : (n : ℕ) → take n [] ≡ []
  take_none zero = refl
  take_none (suc n) = refl

  pub take-drop : (m n : ℕ) (xs : List A) → take m xs ++ take n (drop m xs) ≡ take (m + n) xs
  take-drop zero n xs = let e : n ≡ 0 + n = omega arith in ap (λ k. take k xs) e
  take-drop (suc m) n [] = rw (take_none n, take_none (suc m + n))
  take-drop (suc m) n (x ∷ xs) =
      let e : suc (m + n) ≡ suc m + n = omega arith in
      subst (λ k. x ∷ (take m xs ++ take n (drop m xs)) ≡ take k (x ∷ xs)) e
        (ap (λ ys. x ∷ ys) (take-drop m n xs))

  pub take_all : (n : ℕ) (xs : List A) → length xs ≤ n → take n xs ≡ xs
  take_all zero [] h = refl
  take_all zero (x ∷ xs) h = absurd (omega (arith, h))
  take_all (suc n) [] h = refl
  take_all (suc n) (x ∷ xs) h = ap (λ ys. x ∷ ys) (take_all n xs (omega (arith, h)))

-- `x in xs`
module _ {ℓ} {A : Type ℓ} ⦃e : Eq A⦄ where
  abbrev pub contains : A → List A → Bool
  contains a [] = false
  contains a (x ∷ xs) = a == x || contains a xs

  pub contains-append :
      (a : A) (xs ys : List A) → contains a (xs ++ ys) ≡ (contains a xs || contains a ys)
  contains-append a [] ys = refl
  contains-append a (x ∷ xs) ys = ground (arith, contains-append a xs ys)

  pub contains-append_last : (a : A) (xs : List A) → contains a (xs ++ a ∷ []) ≡ true
  contains-append_last a [] = rw beq_refl
  contains-append_last a (x ∷ xs) = ground (arith, contains-append_last a xs)

  pub contains-reverse : (a : A) (xs : List A) → contains a (reverse xs) ≡ contains a xs
  contains-reverse a [] = refl
  contains-reverse a (x ∷ xs) =
      rw (reverse-cons, contains-append) (ground (arith, contains-reverse a xs))

  -- no two elements are equal
  abbrev pub Distinct : List A → Type 0
  Distinct [] = Unit
  Distinct (x ∷ xs) = (contains x xs ≡ false) × Distinct xs

  pub Distinct-snoc :
      (a : A) (xs : List A) → Distinct xs → contains a xs ≡ false → Distinct (xs ++ a ∷ [])
  Distinct-snoc a [] h q = (refl, tt)
  Distinct-snoc a (x ∷ xs) h q = ground (
    arith,
    Distinct-snoc a xs h.1,
    contains-append x xs (a ∷ []),
    e.equal_iff a x,
    e.equal_iff x a,
  )

abbrev pub All {ℓ κ} : {A : Type ℓ} → (A → Type κ) → List A → Type κ
All P [] = Unit
All P (x ∷ xs) = P x × All P xs

module _ {ℓ} {A : Type ℓ} where
  -- what is kept passes the test
  pub keep-passes : (p : A → Bool) (xs : List A) → All (λ x. p x ≡ true) (keep p xs)
  keep-passes p [] = tt
  keep-passes p (x ∷ xs) = elim (Bool-cases (p x)) [
    | inl h ↦ rw h (h, keep-passes p xs)
    | inr h ↦ rw h (keep-passes p xs)
  ]

module _ {ℓ κ} {A : Type ℓ} (P : A → Type κ) where
  pub All-append : (xs ys : List A) → All P xs → All P ys → All P (xs ++ ys)
  All-append [] ys hx hy = hy
  All-append (x ∷ xs) ys hx hy = (hx.0, All-append xs ys hx.1 hy)

  pub All-left : (xs ys : List A) → All P (xs ++ ys) → All P xs
  All-left [] ys h = tt
  All-left (x ∷ xs) ys h = (h.0, All-left xs ys h.1)

  pub All-right : (xs ys : List A) → All P (xs ++ ys) → All P ys
  All-right [] ys h = h
  All-right (x ∷ xs) ys h = All-right xs ys h.1

  pub All-reverse : (xs : List A) → All P xs → All P (reverse xs)
  All-reverse [] h = tt
  All-reverse (x ∷ xs) h =
      rw reverse-cons (All-append (reverse xs) (x ∷ []) (All-reverse xs h.1) (h.0, tt))

  pub All-of_keep :
      (p : A → Bool) (xs : List A) → All P (keep p xs) → All (λ x. (p x ≡ false) ⊎ P x) xs
  All-of_keep p [] h = tt
  All-of_keep p (x ∷ xs) h = elim (Bool-cases (p x)) [
    | inl q ↦ let h' : All P (x ∷ keep p xs) = rw q at h in (inr h'.0, All-of_keep p xs h'.1)
    | inr q ↦ (inl q, All-of_keep p xs (rw q at h))
  ]

  pub All-keep : (p : A → Bool) (xs : List A) → All P xs → All P (keep p xs)
  All-keep p [] h = tt
  All-keep p (x ∷ xs) h = elim (p x) as (λ b. All P (if b then x ∷ keep p xs else keep p xs)) [
    | true ↦ (h.0, All-keep p xs h.1)
    | false ↦ All-keep p xs h.1
  ]

module _ {ℓ κ} {A : Type ℓ} (P : A → Type κ) where
  All-take : (n : ℕ) (xs : List A) → All P xs → All P (take n xs)
  All-take zero xs h = tt
  All-take (suc n) [] h = tt
  All-take (suc n) (x ∷ xs) h = (h.0, All-take n xs h.1)

  All-drop : (n : ℕ) (xs : List A) → All P xs → All P (drop n xs)
  All-drop zero xs h = h
  All-drop (suc n) [] h = tt
  All-drop (suc n) (x ∷ xs) h = All-drop n xs h.1

  pub All-slice : (start n : ℕ) (xs : List A) → All P xs → All P (slice start n xs)
  All-slice start n xs h = All-take n (drop start xs) (All-drop start xs h)

module _ {ℓ κ μ} {A : Type ℓ} {B : Type κ} (P : B → Type μ) (f : A → B) where
  pub All-of_map : (xs : List A) → All (λ x. P (f x)) xs → All P (map f xs)
  All-of_map [] h = tt
  All-of_map (x ∷ xs) h = (h.0, All-of_map xs h.1)

module _ {ℓ κ μ} {A : Type ℓ} {P : A → Type κ} {Q : A → Type μ} where
  pub All-map : ((a : A) → P a → Q a) → (xs : List A) → All P xs → All Q xs
  All-map f [] h = tt
  All-map f (x ∷ xs) h = (f x h.0, All-map f xs h.1)

-- `sum` and `max(xs or [0])`
abbrev pub sum : List ℕ → ℕ
sum [] = 0
sum (x ∷ xs) = x + sum xs

abbrev pub maximum : List ℕ → ℕ
maximum [] = 0
maximum (x ∷ xs) = max x (maximum xs)

pub sum-append : (xs ys : List ℕ) → sum (xs ++ ys) ≡ sum xs + sum ys
sum-append [] ys = omega arith
sum-append (x ∷ xs) ys = omega (arith, sum-append xs ys)

pub maximum-append : (xs ys : List ℕ) → maximum (xs ++ ys) ≡ max (maximum xs) (maximum ys)
maximum-append [] ys = omega arith
maximum-append (x ∷ xs) ys = omega (arith, maximum-append xs ys)

module _ {ℓ κ} {A : Type ℓ} ⦃e : Eq A⦄ (P : A → Type κ) where
  pub All-contains : (a : A) (xs : List A) → All P xs → contains a xs ≡ true → P a
  All-contains a [] h q = cc
  All-contains a (x ∷ xs) h q = elim (Bool-cases (a == x)) [
    | inl r ↦ subst P (sym ((e.equal_iff a x).0 r)) h.0
    | inr r ↦ All-contains a xs h.1 (rw r at q)
  ]
