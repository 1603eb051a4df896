-- ===== src/Base/Sort.antt =====
-- `sorted` and `list.sort`: a stable sort. `leq x y` says that `x` may stand before `y`.
use mathlib.Core.Path.{◌≡◌, refl, ap, ◌∙◌}
use mathlib.Core.Logic.{inl, inr}
use mathlib.Core.Bool.{Bool, true, false, ◌||◌}
use mathlib.Core.List.{List, [], ◌∷◌, Perm, map}
use Prim.Native.Nat.{ℕ, zero, suc}
use mathlib.Core.List.Perm
use native.Mathlib.Omega.{arith}
use sql_monitor.Base.Tests.{Eq, ◌==◌, if◌then◌else◌, Bool-cases}
use sql_monitor.Base.Lists.{
  take, drop, slice, All-slice, All-of_map, All-map, All, length, contains, Distinct,
}

module _ {ℓ} {A : Type ℓ} (leq : A → A → Bool) where
  pub insert_sorted : A → List A → List A
  insert_sorted x [] = x ∷ []
  insert_sorted x (y ∷ ys) =
      let rest = insert_sorted x ys in if leq x y then x ∷ y ∷ ys else y ∷ rest

  unfoldable pub sort : List A → List A
  unfolding insert_sorted
  sort [] = []
  sort (x ∷ xs) = insert_sorted x (sort xs)

  insert_sorted-perm : (x : A) (ys : List A) → Perm (insert_sorted x ys) (x ∷ ys)
  unfolding insert_sorted
  insert_sorted-perm x [] = Perm.refl (x ∷ [])
  insert_sorted-perm x (y ∷ ys) = elim (Bool-cases (leq x y)) [
    | inl h ↦ rw h (Perm.refl (x ∷ y ∷ ys))
    | inr h ↦ rw h (Perm.trans (Perm.cons y (insert_sorted-perm x ys)) (Perm.swap x y ys))
  ]

  pub sort-perm : (xs : List A) → Perm (sort xs) xs
  unfolding sort
  sort-perm [] = Perm.refl []
  sort-perm (x ∷ xs) = Perm.trans (insert_sorted-perm x (sort xs)) (Perm.cons x (sort-perm xs))

  pub length-insert_sorted : (x : A) (ys : List A) → length (insert_sorted x ys) ≡ length (x ∷ ys)
  unfolding insert_sorted
  length-insert_sorted x [] = refl
  length-insert_sorted x (y ∷ ys) = ground (arith, length-insert_sorted x ys)

  pub length-sort : (xs : List A) → length (sort xs) ≡ length xs
  unfolding sort
  length-sort [] = refl
  length-sort (x ∷ xs) = omega (arith, length-insert_sorted x (sort xs), length-sort xs)

  -- every element may stand before all that follow it
  abbrev pub IsSorted : List A → Type 0
  IsSorted [] = Unit
  IsSorted (x ∷ xs) = All (λ y. leq x y ≡ true) xs × IsSorted xs

  module _ (total : (x y : A) → leq x y ≡ false → leq y x ≡ true)
      (trans : (x y z : A) → leq x y ≡ true → leq y z ≡ true → leq x z ≡ true) where
    All-insert_sorted :
        (z x : A) (ys : List A)
        → leq z x ≡ true
        → All (λ y. leq z y ≡ true) ys
        → All (λ y. leq z y ≡ true) (insert_sorted x ys)
    unfolding insert_sorted
    All-insert_sorted z x [] p h = (p, tt)
    All-insert_sorted z x (y ∷ ys) p h = elim (Bool-cases (leq x y)) [
      | inl q ↦ rw q (p, h)
      | inr q ↦ rw q (h.0, All-insert_sorted z x ys p h.1)
    ]

    insert_sorted-IsSorted : (x : A) (ys : List A) → IsSorted ys → IsSorted (insert_sorted x ys)
    unfolding insert_sorted
    insert_sorted-IsSorted x [] h = (tt, tt)
    insert_sorted-IsSorted x (y ∷ ys) h = elim (Bool-cases (leq x y)) [
      | inl q ↦ rw q ((q, All-map (λ z r. trans x y z q r) ys h.0), h)
      | inr q ↦ rw q (All-insert_sorted y x ys (total x y q) h.0, insert_sorted-IsSorted x ys h.1)
    ]

    pub sort-IsSorted : (xs : List A) → IsSorted (sort xs)
    unfolding sort
    sort-IsSorted [] = tt
    sort-IsSorted (x ∷ xs) = insert_sorted-IsSorted x (sort xs) (sort-IsSorted xs)

module _ {ℓ κ} {A : Type ℓ} (leq : A → A → Bool) (P : A → Type κ) where
  All-of_insert : (x : A) (ys : List A) → All P (insert_sorted leq x ys) → All P (x ∷ ys)
  unfolding insert_sorted
  All-of_insert x [] h = h
  All-of_insert x (y ∷ ys) h = elim (Bool-cases (leq x y)) [
    | inl q ↦ rw q at h
    | inr q ↦
        let h' : All P (y ∷ insert_sorted leq x ys) = rw q at h in
        let (px, ps) = All-of_insert x ys h'.1 in (px, (h'.0, ps))
  ]

  All-insert : (x : A) (ys : List A) → All P (x ∷ ys) → All P (insert_sorted leq x ys)
  unfolding insert_sorted
  All-insert x [] h = h
  All-insert x (y ∷ ys) h = elim (Bool-cases (leq x y)) [
    | inl q ↦ rw q h
    | inr q ↦ rw q (h.1.0, All-insert x ys (h.0, h.1.1))
  ]

  -- what holds of all elements of the sorted list holds of all elements of the list, and back
  pub All-of_sort : (xs : List A) → All P (sort leq xs) → All P xs
  unfolding sort
  All-of_sort [] h = h
  All-of_sort (x ∷ xs) h = let (px, ps) = All-of_insert x (sort leq xs) h in (px, All-of_sort xs ps)

  pub All-sort : (xs : List A) → All P xs → All P (sort leq xs)
  unfolding sort
  All-sort [] h = h
  All-sort (x ∷ xs) h = All-insert x (sort leq xs) (h.0, All-sort xs h.1)

-- A sorted list is sorted for a coarser order, too.
module _ {ℓ} {A : Type ℓ} (leq coarse : A → A → Bool)
    (left : (x y : A) → leq x y ≡ true → coarse x y ≡ true)
    (right : (x y : A) → leq x y ≡ false → coarse y x ≡ true)
    (trans : (x y z : A) → coarse x y ≡ true → coarse y z ≡ true → coarse x z ≡ true) where
  coarse-insert_sorted :
      (x : A) (ys : List A) → IsSorted coarse ys → IsSorted coarse (insert_sorted leq x ys)
  unfolding insert_sorted
  coarse-insert_sorted x [] h = (tt, tt)
  coarse-insert_sorted x (y ∷ ys) h = elim (Bool-cases (leq x y)) [
    | inl q ↦ rw q ((left x y q, All-map (λ z r. trans x y z (left x y q) r) ys h.0), h)
    | inr q ↦ rw q (
      All-insert leq (λ z. coarse y z ≡ true) x ys (right x y q, h.0),
      coarse-insert_sorted x ys h.1,
    )
  ]

  pub sort-coarse : (xs : List A) → IsSorted coarse (sort leq xs)
  unfolding sort
  sort-coarse [] = tt
  sort-coarse (x ∷ xs) = coarse-insert_sorted x (sort leq xs) (sort-coarse xs)

-- A page of a sorted list is sorted, and so is its image under a function that keeps the order.
module _ {ℓ} {A : Type ℓ} (leq : A → A → Bool) where
  IsSorted-take : (n : ℕ) (xs : List A) → IsSorted leq xs → IsSorted leq (take n xs)
  IsSorted-take zero xs h = tt
  IsSorted-take (suc n) [] h = tt
  IsSorted-take (suc n) (x ∷ xs) h =
      (All-slice (λ y. leq x y ≡ true) 0 n xs h.0, IsSorted-take n xs h.1)

  IsSorted-drop : (n : ℕ) (xs : List A) → IsSorted leq xs → IsSorted leq (drop n xs)
  IsSorted-drop zero xs h = h
  IsSorted-drop (suc n) [] h = tt
  IsSorted-drop (suc n) (x ∷ xs) h = IsSorted-drop n xs h.1

  pub IsSorted-slice :
      (start n : ℕ) (xs : List A) → IsSorted leq xs → IsSorted leq (slice start n xs)
  IsSorted-slice start n xs h = IsSorted-take n (drop start xs) (IsSorted-drop start xs h)

module _ {ℓ κ} {A : Type ℓ} {B : Type κ} (leq : A → A → Bool) (leq' : B → B → Bool) (f : A → B)
    (same : (x y : A) → leq' (f x) (f y) ≡ leq x y) where
  pub IsSorted-map : (xs : List A) → IsSorted leq xs → IsSorted leq' (map f xs)
  IsSorted-map [] h = tt
  IsSorted-map (x ∷ xs) h = (
    All-of_map (λ z. leq' (f x) z ≡ true) f xs (All-map (λ y q. same x y ∙ q) xs h.0),
    IsSorted-map xs h.1,
  )

-- The images of a sorted list are those of the list: as members, and as distinct ones.
module _ {ℓ κ} {A : Type ℓ} {K : Type κ} ⦃e : Eq K⦄ (leq : A → A → Bool) (f : A → K) where
  contains-insert_sorted :
      (k : K) (x : A) (ys : List A)
      → contains k (map f (insert_sorted leq x ys)) ≡ contains k (map f (x ∷ ys))
  unfolding insert_sorted
  contains-insert_sorted k x [] = refl
  contains-insert_sorted k x (y ∷ ys) = ground (arith, contains-insert_sorted k x ys)

  pub contains-map-sort :
      (k : K) (xs : List A) → contains k (map f (sort leq xs)) ≡ contains k (map f xs)
  unfolding sort
  contains-map-sort k [] = refl
  contains-map-sort k (x ∷ xs) =
      contains-insert_sorted k x (sort leq xs) ∙ ap (λ b. k == f x || b) (contains-map-sort k xs)

  Distinct-insert_sorted :
      (x : A) (ys : List A) → Distinct (map f (x ∷ ys)) → Distinct (map f (insert_sorted leq x ys))
  unfolding insert_sorted
  Distinct-insert_sorted x [] h = h
  Distinct-insert_sorted x (y ∷ ys) h = ground (
    arith,
    h,
    Distinct-insert_sorted x ys,
    contains-insert_sorted (f y) x ys,
    e.equal_iff (f x) (f y),
    e.equal_iff (f y) (f x),
  )

  pub Distinct-map-sort : (xs : List A) → Distinct (map f xs) → Distinct (map f (sort leq xs))
  unfolding sort
  Distinct-map-sort [] h = tt
  Distinct-map-sort (x ∷ xs) h =
      Distinct-insert_sorted x (sort leq xs)
        (contains-map-sort (f x) xs ∙ h.0, Distinct-map-sort xs h.1)
