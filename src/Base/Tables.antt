-- ===== src/Base/Tables.antt =====
-- A Python dict: an association list in insertion order. A write to a known key keeps its place.
use mathlib.Core.Path.{◌≡◌, refl, sym, ap, ◌∙◌, subst, subst₂}
use mathlib.Core.Logic.{inl, inr}
use mathlib.Core.List.{List, [], ◌∷◌}
use mathlib.Core.Option.{Option, none, some}
use native.Mathlib.Omega.{arith}
use sql_monitor.Base.Tests.{Eq, ◌==◌, if◌then◌else◌, is_some, Bool-cases, beq_refl}
use sql_monitor.Base.Lists.{length, contains, All, Distinct}

abbrev pub Dict {ℓ κ} : Type ℓ → Type κ → Type (ℓ ⊔ κ)
Dict K V = List (K × V)

module _ {ℓ κ} {K : Type ℓ} {V : Type κ} ⦃e : Eq K⦄ where
  -- `d.get(k)`
  abbrev pub lookup : K → Dict K V → Option V
  lookup k [] = none
  lookup k ((j, v) ∷ d) = let rest = lookup k d in if j == k then some v else rest

  -- `d[k] = v`
  abbrev pub insert : K → V → Dict K V → Dict K V
  insert k v [] = (k, v) ∷ []
  insert k v ((j, w) ∷ d) = let rest = insert k v d in if j == k then (j, v) ∷ d else (j, w) ∷ rest

  -- `d.pop(k, None)`
  abbrev pub erase : K → Dict K V → Dict K V
  erase k [] = []
  erase k ((j, w) ∷ d) = let rest = erase k d in if j == k then rest else (j, w) ∷ rest

  pub lookup-insert :
      (k j : K) (v : V) (d : Dict K V)
      → lookup j (insert k v d) ≡ (if k == j then some v else lookup j d)
  lookup-insert k j v [] = refl
  lookup-insert k j v ((i, w) ∷ d) =
      ground (arith, e.equal_iff k j, e.equal_iff i k, e.equal_iff i j, lookup-insert k j v d)

  pub lookup-erase :
      (k j : K) (d : Dict K V) → lookup j (erase k d) ≡ (if k == j then none else lookup j d)
  lookup-erase k j [] = ground arith
  lookup-erase k j ((i, w) ∷ d) =
      ground (arith, e.equal_iff k j, e.equal_iff i k, e.equal_iff i j, lookup-erase k j d)

module _ {ℓ κ} {K : Type ℓ} {V : Type κ} where
  abbrev pub keys : Dict K V → List K
  keys [] = []
  keys ((k, v) ∷ d) = k ∷ keys d

  abbrev pub values : Dict K V → List V
  values [] = []
  values ((k, v) ∷ d) = v ∷ values d

  pub length-keys : (d : Dict K V) → length (keys d) ≡ length d
  length-keys [] = refl
  length-keys (x ∷ d) = omega (arith, length-keys d)

module _ {ℓ κ} {K : Type ℓ} {V : Type κ} ⦃e : Eq K⦄ where
  pub contains-keys : (k : K) (d : Dict K V) → contains k (keys d) ≡ is_some (lookup k d)
  contains-keys k [] = refl
  contains-keys k ((j, w) ∷ d) = ground (arith, e.equal_iff k j, e.equal_iff j k, contains-keys k d)

  -- no key stands twice
  abbrev pub IsDict : Dict K V → Type κ
  IsDict [] = Unit
  IsDict ((k, v) ∷ d) = (lookup k d ≡ none) × IsDict d

  pub insert-IsDict : (k : K) (v : V) (d : Dict K V) → IsDict d → IsDict (insert k v d)
  insert-IsDict k v [] h = (refl, tt)
  insert-IsDict k v ((j, w) ∷ d) h =
      ground
        (arith, insert-IsDict k v d h.1, lookup-insert k j v d, e.equal_iff j k, e.equal_iff k j)

pub some-eq {ℓ} : {A : Type ℓ} (a b : A) → some a ≡ some b → a ≡ b
some-eq a b h = cc

module _ {ℓ κ μ} {K : Type ℓ} {V : Type κ} ⦃e : Eq K⦄ (P : K → V → Type μ) where
  -- every entry satisfies `P`
  abbrev pub AllEntries : Dict K V → Type μ
  AllEntries [] = Unit
  AllEntries ((k, v) ∷ d) = P k v × AllEntries d

  pub AllEntries-insert :
      (k : K) (v : V) (d : Dict K V) → P k v → AllEntries d → AllEntries (insert k v d)
  AllEntries-insert k v [] p h = (p, tt)
  AllEntries-insert k v ((j, w) ∷ d) p h = elim (Bool-cases (j == k)) [
    | inl q ↦ rw q (subst (λ x. P x v) (sym ((e.equal_iff j k).0 q)) p, h.1)
    | inr q ↦ rw q (h.0, AllEntries-insert k v d p h.1)
  ]

  pub AllEntries-lookup :
      (k : K) (v : V) (d : Dict K V) → AllEntries d → lookup k d ≡ some v → P k v
  AllEntries-lookup k v [] h q = cc
  AllEntries-lookup k v ((j, w) ∷ d) h q = elim (Bool-cases (j == k)) [
    | inl r ↦ subst₂ P ((e.equal_iff j k).0 r) (some-eq w v (rw r at q)) h.0
    | inr r ↦ AllEntries-lookup k v d h.1 (rw r at q)
  ]

module _ {ℓ κ μ ν} {K : Type ℓ} {V : Type κ} ⦃e : Eq K⦄ {P : K → V → Type μ}
    {Q : K → V → Type ν} where
  pub AllEntries-map :
      ((k : K) (v : V) → P k v → Q k v) → (d : Dict K V) → AllEntries P d → AllEntries Q d
  AllEntries-map f [] h = tt
  AllEntries-map f ((k, v) ∷ d) h = (f k v h.0, AllEntries-map f d h.1)

module _ {ℓ κ μ} {K : Type ℓ} {V : Type κ} ⦃e : Eq K⦄ where
  pub AllEntries-values :
      (Q : V → Type μ) (d : Dict K V) → AllEntries (λ k v. Q v) d → All Q (values d)
  AllEntries-values Q [] h = tt
  AllEntries-values Q ((k, v) ∷ d) h = (h.0, AllEntries-values Q d h.1)

  pub All-values :
      (Q : V → Type μ) (k : K) (v : V) (d : Dict K V) → All Q (values d) → lookup k d ≡ some v → Q v
  All-values Q k v [] h q = cc
  All-values Q k v ((j, w) ∷ d) h q = elim (Bool-cases (j == k)) [
    | inl r ↦ subst Q (some-eq w v (rw r at q)) h.0
    | inr r ↦ All-values Q k v d h.1 (rw r at q)
  ]

module _ {ℓ κ} {K : Type ℓ} {V : Type κ} ⦃e : Eq K⦄ where
  lookup_behind :
      (j k : K) (w v : V) (d : Dict K V)
      → lookup j d ≡ none
      → lookup k d ≡ some v
      → lookup k ((j, w) ∷ d) ≡ some v
  lookup_behind j k w v d h q = ground (arith, e.equal_iff j k)

  -- in a dict every entry is the one that a lookup of its key finds
  pub IsDict-lookup : (d : Dict K V) → IsDict d → AllEntries (λ k v. lookup k d ≡ some v) d
  IsDict-lookup [] h = tt
  IsDict-lookup ((j, w) ∷ d) h =
      (rw beq_refl, AllEntries-map (λ k v q. lookup_behind j k w v d h.0 q) d (IsDict-lookup d h.1))

  -- the keys of a dict are distinct
  pub keys-Distinct : (d : Dict K V) → IsDict d → Distinct (keys d)
  keys-Distinct [] h = tt
  keys-Distinct ((k, v) ∷ d) h = (contains-keys k d ∙ ap is_some h.0, keys-Distinct d h.1)
