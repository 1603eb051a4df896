-- ===== src/BlockingGraph/Walk.antt =====
-- The rounds of the walk, and the rule by which every property of a chain is proved: the walk
-- ends, because each round visits one more key.
use sql_monitor.Base.{
  ℕ, zero, suc, ◌≤◌, ◌<◌, ◌≡◌, refl, inl, inr, true, false, false≢true, Option, none, some, List,
  [], ◌∷◌, ◌++◌, arith, if◌then◌else◌, nat_eq, string_eq, pair_eq, Bool-cases, Option-cases,
  is_some, length, contains, ℤ, int_eq, int_beq_iff, lookup, keys, length-keys, contains-keys,
}
use sql_monitor.BlockingGraph.{
  BlockingInput, RowMap, normalize_blocker, special_blockers, ChainEdge, Round, stop, climb,
  key_error, round, walk,
}
use sql_monitor.BlockingGraph.Relation.{IsBlockedBy}

-- the keys that the walk has not visited yet
abbrev unvisited : List ℤ → List ℤ → ℕ
unvisited visited [] = 0
unvisited visited (k ∷ ks) =
    let rest = unvisited visited ks in if contains k visited then rest else suc rest

unvisited-cons_le :
    (b : ℤ) (visited ks : List ℤ) → unvisited (b ∷ visited) ks ≤ unvisited visited ks
unvisited-cons_le b visited [] = omega arith
unvisited-cons_le b visited (k ∷ ks) = ground (arith, unvisited-cons_le b visited ks)

unvisited-cons_lt :
    (b : ℤ) (visited ks : List ℤ)
    → contains b ks ≡ true
    → contains b visited ≡ false
    → unvisited (b ∷ visited) ks < unvisited visited ks
unvisited-cons_lt b visited [] h new = cc
unvisited-cons_lt b visited (k ∷ ks) h new = ground (
  arith,
  unvisited-cons_le b visited ks,
  unvisited-cons_lt b visited ks,
  int_beq_iff b k,
  int_beq_iff k b,
)

module _ (m : RowMap) (current : ℤ) (visited : List ℤ) (edges : List ChainEdge) where
  -- The ways in which a round may go, each with what it has found out.
  pub data RoundOf (r : Round) : Type 0 where
    top :
        (row : BlockingInput)
        → lookup current m ≡ some row
        → normalize_blocker row.blocker_session_id ≡ none
        → r ≡ stop current edges
        → RoundOf r
    special :
        (b : ℤ)
        → IsBlockedBy m current b
        → contains b special_blockers ≡ true
        → r ≡ stop b (edges ++ (b, current, false) ∷ [])
        → RoundOf r
    cycle :
        (b : ℤ)
        → IsBlockedBy m current b
        → contains b visited ≡ true
        → r ≡ stop b (edges ++ (b, current, true) ∷ [])
        → RoundOf r
    unknown :
        (b : ℤ)
        → IsBlockedBy m current b
        → lookup b m ≡ none
        → r ≡ stop b (edges ++ (b, current, false) ∷ [])
        → RoundOf r
    onward :
        (b : ℤ)
        → IsBlockedBy m current b
        → contains b visited ≡ false
        → is_some (lookup b m) ≡ true
        → r ≡ climb b (b ∷ visited) (edges ++ (b, current, false) ∷ [])
        → RoundOf r

  blocked_round :
      (b : ℤ) (r : Round)
      → IsBlockedBy m current b
      → r ≡ (
          if contains b special_blockers
          then stop b (edges ++ (b, current, false) ∷ [])
          else if contains b visited
          then stop b (edges ++ (b, current, true) ∷ [])
          else if is_some (lookup b m)
          then climb b (b ∷ visited) (edges ++ (b, current, false) ∷ [])
          else stop b (edges ++ (b, current, false) ∷ []))
      → RoundOf r
  blocked_round b r k e = elim (Bool-cases (contains b special_blockers)) [
    | inl p ↦ special b k p (rw p at e)
    | inr p ↦ elim (Bool-cases (contains b visited)) [
      | inl q ↦ cycle b k q (rw (p, q) at e)
      | inr q ↦ elim (Option-cases (lookup b m)) [
        | inl s ↦ unknown b k s (rw (p, q, s) at e)
        | inr (row, s) ↦ onward b k q (rw s refl) (rw (p, q, s) at e)
      ]
    ]
  ]

  -- In a round that begins at a key of the map no `KeyError` is raised.
  pub round-RoundOf : is_some (lookup current m) ≡ true → RoundOf (round m current visited edges)
  unfolding round
  round-RoundOf known = elim (Option-cases (lookup current m)) [
    | inl s ↦ absurd (false≢true (rw s at known))
    | inr (row, s) ↦ elim (Option-cases (normalize_blocker row.blocker_session_id)) [
      | inl n ↦ top row s n (rw (s, n))
      | inr (b, n) ↦ blocked_round b _ (record { row = row; found = s; blocker = n }) (rw (s, n))
    ]
  ]

module _ (m : RowMap) (P : ℤ → List ℤ → List ChainEdge → Type 0)
    (Q : ℤ → List ChainEdge → Type 0) where
  -- `P` holds before each round, `Q` when the loop has ended.
  abbrev pub After : List ℤ → Round → Type 0
  After visited (stop root found) = Q root found
  After visited (climb next seen found) =
      P next seen found
      × (contains next visited ≡ false)
      × (is_some (lookup next m) ≡ true)
      × (seen ≡ next ∷ visited)
  After visited key_error = ⊥

  abbrev Ends : Option (ℤ × List ChainEdge) → Type 0
  Ends r = (root : ℤ) × (found : List ChainEdge) × (r ≡ some (root, found)) × Q root found

  module _
      (keeps : (current : ℤ) (visited : List ℤ) (edges : List ChainEdge)
        → P current visited edges
        → After visited (round m current visited edges)) where
    After-round :
        (fuel : ℕ) (r : Round) (visited : List ℤ)
        → unvisited visited (keys m) ≤ fuel
        → ((next : ℤ) (seen : List ℤ) (found : List ChainEdge)
            → unvisited seen (keys m) < fuel
            → P next seen found
            → Ends (walk m fuel next seen found))
        → After visited r
        → Ends (elim r [
          | stop root found ↦ some (root, found)
          | climb next seen found ↦ walk m fuel next seen found
          | key_error ↦ none
        ])
    After-round fuel (stop root found) visited enough again q = (root, found, refl, q)
    After-round fuel (climb next seen found) visited enough again (p, new, known, grown) =
        again next seen found
          (rw grown (
            omega (
              arith,
              unvisited-cons_lt next visited (keys m) (rw contains-keys known) new,
              enough,
            )))
          p
    After-round fuel key_error visited enough again q = absurd q

    pub walk_rule :
        (fuel : ℕ) (current : ℤ) (visited : List ℤ) (edges : List ChainEdge)
        → unvisited visited (keys m) < fuel
        → P current visited edges
        → Ends (walk m fuel current visited edges)
    unfolding walk
    walk_rule zero current visited edges enough p = absurd (omega arith)
    walk_rule (suc fuel) current visited edges enough p =
        After-round fuel (round m current visited edges) visited (omega arith)
          (λ next seen found. walk_rule fuel next seen found) (keeps current visited edges p)

unvisited-nil : (ks : List ℤ) → unvisited [] ks ≡ length ks
unvisited-nil [] = refl
unvisited-nil (k ∷ ks) = omega (arith, unvisited-nil ks)

-- The fuel that `build_chain` gives is enough.
pub fuel_enough :
    (m : RowMap) (s : ℤ) → is_some (lookup s m) ≡ true → unvisited (s ∷ []) (keys m) < length m
fuel_enough m s known = omega (
  arith,
  unvisited-cons_lt s [] (keys m) (rw contains-keys known) refl,
  unvisited-nil (keys m),
  length-keys m,
)
