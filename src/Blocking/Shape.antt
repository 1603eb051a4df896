-- ===== src/Blocking/Shape.antt =====
-- What one chain of `get_blocking_chains` of backend/app/services/blocking_service.py is.
use sql_monitor.Base.{
  ℕ, ◌≤◌, ◌<◌, ◌⊎◌, max, maximum, leb, Perm, sort, sort-perm, IsSorted-map, int_beq_iff, ◌≡◌, refl,
  inl, inr, Option, List, [], ◌∷◌, map, arith, ◌==◌, nat_eq, string_eq, pair_eq, Bool-cases,
  or_else, length, keep, contains, Distinct, All, ℤ, int_eq, list_eq, IsSorted, sort-IsSorted,
}
use mathlib.Core.List.Perm
use sql_monitor.Snapshots.{BlockingSnapshot}
use sql_monitor.Blocking.{
  RiskLevel, low, medium, high, BlockingNode, to_node, risk_level, distinct, blocked_ids,
  blocked_count, root_eq, BlockingChain, to_chain,
}

-- the rows with a root
abbrev pub with_root : Option ℤ → List BlockingSnapshot → List BlockingSnapshot
with_root root rows = keep (λ (r : BlockingSnapshot). r.root_session_id == root) rows

-- The nodes of a chain, of some rows: one for each row, the less deep first.
abbrev pub IsNodes : List BlockingSnapshot → List BlockingNode → Type 0
IsNodes rows nodes =
    Perm nodes (map to_node rows)
    × IsSorted (λ (m n : BlockingNode). leb m.chain_depth n.chain_depth) nodes

-- a list has each of some sessions once
abbrev pub IsSetOf : List ℤ → List ℤ → Type 0
IsSetOf sessions ids = Distinct ids × ((x : ℤ) → contains x ids ≡ contains x sessions)

-- The count of a chain: the number of sessions that are blocked, or what a row says, if that is more.
abbrev pub IsCount : List BlockingSnapshot → ℕ → Type 0
IsCount rows n =
    (ids : List ℤ) × IsSetOf (map (λ (r : BlockingSnapshot). r.blocked_session_id) rows) ids
    × (n ≡ max (length ids) (maximum (map (λ (r : BlockingSnapshot). r.blocked_count) rows)))

-- five blocked sessions are a high risk, two a medium one
abbrev pub IsRisk : ℕ → RiskLevel → Type 0
IsRisk n high = 5 ≤ n
IsRisk n medium = (2 ≤ n) × (n < 5)
IsRisk n low = n < 2

-- a chain of the rows with its root
abbrev pub IsChain : List BlockingSnapshot → BlockingChain → Type 0
IsChain rows c =
    IsNodes (with_root c.root_session_id rows) c.nodes
    × IsCount (with_root c.root_session_id rows) c.blocked_count
    × (c.max_wait_time_ms
        ≡ maximum (
            map (λ (r : BlockingSnapshot). or_else r.max_wait_time_ms 0)
              (with_root c.root_session_id rows)))
    × IsRisk c.blocked_count c.risk_level

-- more blocked sessions, or as many and a wait that is not shorter
abbrev pub ComesBefore : BlockingChain → BlockingChain → Type 0
ComesBefore a b =
    (b.blocked_count < a.blocked_count)
    ⊎ ((a.blocked_count ≡ b.blocked_count) × (b.max_wait_time_ms ≤ a.max_wait_time_ms))

abbrev pub IsRanked : List BlockingChain → Type 0
IsRanked [] = Unit
IsRanked (c ∷ chains) = All (ComesBefore c) chains × IsRanked chains

contains-distinct : (x : ℤ) (ids : List ℤ) → contains x (distinct ids) ≡ contains x ids
contains-distinct x [] = refl
contains-distinct x (y ∷ ids) =
    ground (arith, contains-distinct x ids, contains-distinct y ids, int_beq_iff x y)

distinct-Distinct : (ids : List ℤ) → Distinct (distinct ids)
distinct-Distinct [] = tt
distinct-Distinct (y ∷ ids) = elim (Bool-cases (contains y (distinct ids))) [
  | inl h ↦ rw h (distinct-Distinct ids)
  | inr h ↦ rw h (h, distinct-Distinct ids)
]

sorted-IsNodes :
    (rows : List BlockingSnapshot)
    → IsNodes rows
        (map to_node (sort (λ (a b : BlockingSnapshot). leb a.chain_depth b.chain_depth) rows))
unfolding to_node
sorted-IsNodes rows =
    let deeper = λ (a b : BlockingSnapshot). leb a.chain_depth b.chain_depth in
    (
      Perm.map to_node (sort-perm deeper rows),
      IsSorted-map deeper (λ (m n : BlockingNode). leb m.chain_depth n.chain_depth) to_node
          (λ x y. refl) (sort deeper rows)
          (sort-IsSorted deeper (λ x y h. ground (arith, h)) (λ x y z h k. ground (arith, h, k))
            rows),
    )

risk_level-IsRisk : (n : ℕ) → IsRisk n (risk_level n)
unfolding risk_level
risk_level-IsRisk n = elim (Bool-cases (leb 5 n)) [
  | inl h ↦ rw h (ground (arith, h))
  | inr h ↦ elim (Bool-cases (leb 2 n)) [
    | inl k ↦ rw (h, k) (ground (arith, h), ground (arith, k, h))
    | inr k ↦ rw (h, k) (ground (arith, k))
  ]
]

pub to_chain-IsChain :
    (root : Option ℤ) (rows group : List BlockingSnapshot)
    → group ≡ with_root root rows
    → IsChain rows (to_chain (root, group))
unfolding to_chain blocked_count
to_chain-IsChain root rows group e = rw (← e) (
  sorted-IsNodes group,
  (
    distinct (blocked_ids group),
    (distinct-Distinct (blocked_ids group), λ x. contains-distinct x (blocked_ids group)),
    refl,
  ),
  refl,
  risk_level-IsRisk (blocked_count group),
)
