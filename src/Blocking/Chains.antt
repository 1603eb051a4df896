-- ===== src/Blocking/Chains.antt =====
-- What the chains of `get_blocking_chains` of backend/app/services/blocking_service.py are.
use sql_monitor.Base.{
  sort, ◌≡◌, refl, ap, ◌∙◌, inl, inr, true, false, false≢true, Option, some, List, [], ◌∷◌, ◌++◌,
  map, append_assoc, append-nil, arith, ltb, if◌then◌else◌, ◌==◌, nat_eq, string_eq, pair_eq,
  beq_refl, Bool-cases, Option-cases, is_some, or_else, length, contains, Distinct, All, All-map, ℤ,
  int_eq, list_eq, lookup, insert, lookup-insert, keys, IsDict, insert-IsDict, AllEntries,
  AllEntries-map, IsDict-lookup, contains-keys, IsSorted, sort-IsSorted, All-sort, keys-Distinct,
  contains-map-sort, Distinct-map-sort,
}
use sql_monitor.Snapshots.{BlockingSnapshot}
use sql_monitor.Blocking.Shape.{with_root, IsChain, IsRanked, to_chain-IsChain}
use sql_monitor.Blocking.{
  root_eq, Grouped, group_rows, BlockingChain, to_chain, chain_order, chains_of,
}

abbrev group_of : Option ℤ → Grouped → List BlockingSnapshot
group_of root grouped = or_else (lookup root grouped) []

group_of-insert :
    (k j : Option ℤ) (v : List BlockingSnapshot) (d : Grouped)
    → group_of j (insert k v d) ≡ (if k == j then v else group_of j d)
group_of-insert k j v d = rw (lookup-insert k j v d) (ground arith)

group_of-group_rows :
    (root : Option ℤ) (rows : List BlockingSnapshot) (d : Grouped)
    → group_of root (group_rows rows d) ≡ group_of root d ++ with_root root rows
unfolding group_rows
group_of-group_rows root [] d = rw (append-nil) refl
group_of-group_rows root (r ∷ rows) d =
    let k = r.root_session_id in
    let v = group_of k d ++ r ∷ [] in
    let IH = group_of-group_rows root rows (insert k v d) in
    let step = group_of-insert k root v d in
    elim (Bool-cases (k == root)) [
      | inl h ↦
          let q : k ≡ root = (root_eq.equal_iff k root).0 h in
          let step' : group_of root (insert k v d) ≡ group_of root d ++ r ∷ [] =
            (rw h at step) ∙ ap (λ x. group_of x d ++ r ∷ []) q in
          rw h (
            IH
            ∙ (ap (λ xs. xs ++ with_root root rows) step'
                ∙ append_assoc (group_of root d) (r ∷ []) (with_root root rows)))
      | inr h ↦ rw h (IH ∙ ap (λ xs. xs ++ with_root root rows) (rw h at step))
    ]

group_rows-IsDict :
    (rows : List BlockingSnapshot) (d : Grouped) → IsDict d → IsDict (group_rows rows d)
unfolding group_rows
group_rows-IsDict [] d h = h
group_rows-IsDict (r ∷ rows) d h =
    group_rows-IsDict rows (insert r.root_session_id (group_of r.root_session_id d ++ r ∷ []) d)
      (insert-IsDict r.root_session_id (group_of r.root_session_id d ++ r ∷ []) d h)

chain_roots :
    (d : Grouped) → map (λ (c : BlockingChain). c.root_session_id) (map to_chain d) ≡ keys d
unfolding to_chain
chain_roots [] = refl
chain_roots ((k, v) ∷ d) = ap (λ ks. k ∷ ks) (chain_roots d)

chains-IsChain :
    (rows : List BlockingSnapshot) (d : Grouped)
    → AllEntries (λ k v. v ≡ with_root k rows) d
    → All (IsChain rows) (map to_chain d)
chains-IsChain rows [] h = tt
chains-IsChain rows ((k, v) ∷ d) h = (to_chain-IsChain k rows v h.0, chains-IsChain rows d h.1)

sorted-IsRanked : (chains : List BlockingChain) → IsSorted chain_order chains → IsRanked chains
sorted-IsRanked [] h = tt
sorted-IsRanked (c ∷ chains) h =
    (All-map (λ d k. ground (arith, k)) chains h.0, sorted-IsRanked chains h.1)

groups-own :
    (rows : List BlockingSnapshot) → AllEntries (λ k v. v ≡ with_root k rows) (group_rows rows [])
groups-own rows =
    let d = group_rows rows [] in
    AllEntries-map
      (λ k v (q : lookup k d ≡ some v).
        let own : group_of k d ≡ with_root k rows = group_of-group_rows k rows [] in rw q at own)
      d (IsDict-lookup d (group_rows-IsDict rows [] tt))

-- a row with a root makes its group not empty
grouped :
    (rows : List BlockingSnapshot)
    → All
        (λ (r : BlockingSnapshot). is_some (lookup r.root_session_id (group_rows rows [])) ≡ true)
        rows
grouped rows = All-map (λ r own. found r own) rows (own_rows rows)
  where
    found :
        (r : BlockingSnapshot)
        → ltb 0 (length (with_root r.root_session_id rows)) ≡ true
        → is_some (lookup r.root_session_id (group_rows rows [])) ≡ true
    found r own = elim (Option-cases (lookup r.root_session_id (group_rows rows []))) [
      | inl q ↦
          let e : group_of r.root_session_id (group_rows rows [])
              ≡ with_root r.root_session_id rows =
            group_of-group_rows r.root_session_id rows [] in
          let e' : [] ≡ with_root r.root_session_id rows = rw q at e in
          absurd (false≢true (rw (← e') at own))
      | inr (v, q) ↦ rw q refl
    ]

    longer :
        (a : BlockingSnapshot) (k : Option ℤ) (rs : List BlockingSnapshot)
        → ltb 0 (length (with_root k rs)) ≡ true
        → ltb 0 (length (with_root k (a ∷ rs))) ≡ true
    longer a k rs h = ground (arith, h)

    own_rows :
        (rs : List BlockingSnapshot)
        → All (λ (r : BlockingSnapshot). ltb 0 (length (with_root r.root_session_id rs)) ≡ true) rs
    own_rows [] = tt
    own_rows (r ∷ rs) = (
      rw (beq_refl r.root_session_id) (ground arith),
      All-map (λ x h. longer r x.root_session_id rs h) rs (own_rows rs),
    )

chain_order_total : (a b : BlockingChain) → chain_order a b ≡ false → chain_order b a ≡ true
chain_order_total a b h = ground arith

chain_order_trans :
    (a b c : BlockingChain)
    → chain_order a b ≡ true
    → chain_order b c ≡ true
    → chain_order a c ≡ true
chain_order_trans a b c h k = ground arith

-- The chains of a frame's rows: every chain has a node for exactly each of the rows with its root, the
-- less deep first, counts their distinct blocked sessions, or the greatest count of a row if that is
-- more, and has their longest wait and the risk of its count; no two chains have the same root, and
-- every row's root has a chain; and the chains stand with the greatest count first and, among equal
-- counts, the longest wait.
pub chains_of-IsChain :
    (rows : List BlockingSnapshot)
    → All (IsChain rows) (chains_of rows)
      × Distinct (map (λ (c : BlockingChain). c.root_session_id) (chains_of rows))
      × All
          (λ (r : BlockingSnapshot).
            contains r.root_session_id
              (map (λ (c : BlockingChain). c.root_session_id) (chains_of rows))
            ≡ true)
          rows
      × IsRanked (chains_of rows)
unfolding chains_of
chains_of-IsChain rows =
    let d = group_rows rows [] in
    let root = λ (c : BlockingChain). c.root_session_id in
    (
      All-sort chain_order (IsChain rows) (map to_chain d)
          (chains-IsChain rows d (groups-own rows)),
      Distinct-map-sort chain_order root (map to_chain d)
          (rw (chain_roots d) (keys-Distinct d (group_rows-IsDict rows [] tt))),
      All-map
          (λ r h.
            contains-map-sort chain_order root r.root_session_id (map to_chain d)
            ∙ (ap (contains r.root_session_id) (chain_roots d)
                ∙ (contains-keys r.root_session_id d ∙ h)))
          rows (grouped rows),
      sorted-IsRanked (sort chain_order (map to_chain d))
          (sort-IsSorted chain_order chain_order_total chain_order_trans (map to_chain d)),
    )
