-- ===== src/BlockingGraph/Growth.antt =====
-- The edges that the rows add, one after another.
use sql_monitor.Base.{
  ℕ, suc, ◌≤◌, ◌≡◌, refl, sym, ap, subst, ◌⊎◌, inl, inr, Bool, true, false, some, List, [], ◌∷◌,
  map, reverse, map-append, reverse-cons, arith, ◌==◌, nat_eq, string_eq, pair_eq, pair_beq_iff,
  Bool-cases, Option-cases, is_some, contains, contains-append, contains-append_last,
  contains-reverse, Distinct, Distinct-snoc, All-reverse, All, All-append, ℤ, int_eq, lookup,
}
use sql_monitor.BlockingGraph.{
  BlockingInput, BlockingEdge, RowMap, normalize_blocker, ChainEdge, DeepEdge, enumerate,
  build_chain, edge_of, Progress, add_edge, add_chain, add_row, add_rows,
}
use sql_monitor.BlockingGraph.Relation.{IsBlockedBy, Waits, IsRoot, Reaches-cons}
use sql_monitor.BlockingGraph.Chain.{link, EdgeTo, walk-IsChain}

-- What an edge of the result says is so in the rows of the frame.
pub record IsSound (m : RowMap) (e : BlockingEdge) : Type 0 where
  pub blocked : IsBlockedBy m e.blocked_session_id e.blocker_session_id
  pub wait_type : e.wait_type ≡ blocked.row.wait_type
  pub wait_duration_ms : e.wait_duration_ms ≡ blocked.row.wait_duration_ms
  pub resource_description : e.resource_description ≡ blocked.row.resource_description
  pub to_root : Waits m e.blocked_session_id e.root_session_id
  pub root : IsRoot m e.root_session_id
  pub depth : 1 ≤ e.chain_depth
  pub cycle : (e.cycle_detected ≡ false) ⊎ Waits m e.blocked_session_id e.blocked_session_id

abbrev pub edge_key : BlockingEdge → ℤ × ℤ
edge_key e = (e.blocker_session_id, e.blocked_session_id)

abbrev deep_link : DeepEdge → ℤ × ℤ
deep_link (blocker, blocked, depth, cycle) = (blocker, blocked)

map-deep_link :
    (n : ℕ) (edges : List ChainEdge) → map deep_link (enumerate n edges) ≡ map link edges
unfolding enumerate
map-deep_link n [] = refl
map-deep_link n ((b, s, c) ∷ edges) = ap (λ l. (b, s) ∷ l) (map-deep_link (suc n) edges)

map-link-reverse : (edges : List ChainEdge) → map link (reverse edges) ≡ reverse (map link edges)
map-link-reverse [] = refl
map-link-reverse (x ∷ edges) = rw (
  reverse-cons x edges,
  map-append,
  map-link-reverse edges,
  reverse-cons (link x) (map link edges),
)

module _ (m : RowMap) where
  abbrev DeepTo : ℤ → DeepEdge → Type 0
  DeepTo root (blocker, blocked, depth, cycle) =
      EdgeTo m root (blocker, blocked, cycle) × (1 ≤ depth)

  All-enumerate :
      (root : ℤ) (n : ℕ) (edges : List ChainEdge)
      → 1 ≤ n
      → All (EdgeTo m root) edges
      → All (DeepTo root) (enumerate n edges)
  unfolding enumerate
  All-enumerate root n [] p h = tt
  All-enumerate root n ((b, s, c) ∷ edges) p h =
      ((h.0, p), All-enumerate root (suc n) edges (omega arith) h.1)

  build_chain_lem :
      (s : ℤ)
      → is_some (lookup s m) ≡ true
      → (root : ℤ) × (chain : List DeepEdge) × (build_chain m s ≡ some (root, chain))
        × IsRoot m root
        × All (DeepTo root) chain
        × ((b : ℤ) → IsBlockedBy m s b → contains (b, s) (map deep_link chain) ≡ true)
  unfolding build_chain
  build_chain_lem s known =
      let (root, found, e, c) = walk-IsChain m s known in
      (
        root,
        enumerate 1 (reverse found),
        rw (e, build_chain),
        c.ending,
        All-enumerate root 1 (reverse found) (omega arith)
            (All-reverse (EdgeTo m root) found c.links),
        λ b k. rw (map-deep_link, map-link-reverse, contains-reverse) (c.first b k),
      )

  edge-IsSound :
      (row : BlockingInput) (root : ℤ) (d : DeepEdge)
      → IsRoot m root
      → DeepTo root d
      → IsSound m (edge_of m row root d)
  unfolding edge_of
  edge-IsSound row root (b, s, depth, cycle) end ((k, r, w), p) = record {
    blocked = k;
    wait_type = rw k.found;
    wait_duration_ms = rw k.found;
    resource_description = rw k.found;
    to_root = Reaches-cons s b root k r;
    root = end;
    depth = p;
    cycle = flag_cases cycle w;
  }
    where
      flag_cases : (c : Bool) → (c ≡ true → Waits m s s) → (c ≡ false) ⊎ Waits m s s
      flag_cases true f = inr (f refl)
      flag_cases false f = inl refl

  -- `seen_edges` holds the keys of `edges`, none of them twice.
  pub record IsProgress (p : Progress) : Type 0 where
    pub sound : All (IsSound m) p.edges
    pub distinct : Distinct (map edge_key p.edges)
    pub seen : (k : ℤ × ℤ) → contains k p.seen ≡ contains k (map edge_key p.edges)

  add_edge-IsProgress :
      (row : BlockingInput) (root : ℤ) (p : Progress) (d : DeepEdge)
      → IsRoot m root
      → DeepTo root d
      → IsProgress p
      → IsProgress (add_edge m row root p d)
  unfolding add_edge
  add_edge-IsProgress row root p (b, s, depth, cycle) end h i =
      elim (Bool-cases (contains (b, s) p.seen)) [
        | inl old ↦ rw old i
        | inr new ↦ rw new (record {
          sound =
              All-append (IsSound m) p.edges _ i.sound
                (edge-IsSound row root (b, s, depth, cycle) end h, tt);
          distinct =
              rw map-append
                (Distinct-snoc (b, s) (map edge_key p.edges) i.distinct (rw (← i.seen (b, s)) new));
          seen = λ k. rw (map-append, contains-append) (ground (arith, i.seen k));
        })
      ]

  -- `p'` has all the edges that `p` has.
  abbrev pub Extends : Progress → Progress → Type 0
  Extends p p' =
      (k : ℤ × ℤ)
      → contains k (map edge_key p.edges) ≡ true
      → contains k (map edge_key p'.edges) ≡ true

  add_edge-Extends :
      (row : BlockingInput) (root : ℤ) (p : Progress) (d : DeepEdge)
      → Extends p (add_edge m row root p d)
  unfolding add_edge
  add_edge-Extends row root p (b, s, depth, cycle) k h =
      elim (Bool-cases (contains (b, s) p.seen)) [
        | inl old ↦ rw old h
        | inr new ↦ rw (new, map-append, contains-append, h)
      ]

  add_edge-has :
      (row : BlockingInput) (root : ℤ) (p : Progress) (d : DeepEdge)
      → IsProgress p
      → contains (deep_link d) (map edge_key (add_edge m row root p d).edges) ≡ true
  unfolding add_edge
  add_edge-has row root p (b, s, depth, cycle) i = elim (Bool-cases (contains (b, s) p.seen)) [
    | inl old ↦ rw old (rw (← i.seen (b, s)) old)
    | inr new ↦ rw (new, map-append) (contains-append_last (b, s) (map edge_key p.edges))
  ]

  add_chain_lem :
      (row : BlockingInput) (root : ℤ) (p : Progress) (chain : List DeepEdge)
      → IsRoot m root
      → All (DeepTo root) chain
      → IsProgress p
      → IsProgress (add_chain m row root p chain)
        × Extends p (add_chain m row root p chain)
        × ((k : ℤ × ℤ)
            → contains k (map deep_link chain) ≡ true
            → contains k (map edge_key (add_chain m row root p chain).edges) ≡ true)
  unfolding add_chain
  add_chain_lem row root p [] end h i = (i, λ k q. q, λ k q. cc q)
  add_chain_lem row root p (d ∷ chain) end h i =
      let p' = add_edge m row root p d in
      let (valid, more, all) =
        add_chain_lem row root p' chain end h.1 (add_edge-IsProgress row root p d end h.0 i) in
      (
        valid,
        λ k q. more k (add_edge-Extends row root p d k q),
        λ k q. elim (Bool-cases (k == deep_link d)) [
          | inl same ↦ more k (
              subst (λ x. contains x (map edge_key p'.edges) ≡ true)
                (sym ((pair_beq_iff k (deep_link d)).0 same)) (add_edge-has row root p d i))
          | inr other ↦ all k (rw other at q)
        ],
      )

  -- the edge of a row that has a blocker
  abbrev pub HasEdge : Progress → BlockingInput → Type 0
  HasEdge p row =
      (b : ℤ)
      → normalize_blocker row.blocker_session_id ≡ some b
      → contains (b, row.session_id) (map edge_key p.edges) ≡ true

  add_row_lem :
      (p : Progress) (row : BlockingInput)
      → lookup row.session_id m ≡ some row
      → IsProgress p
      → (p' : Progress) × (add_row m p row ≡ some p')
        × IsProgress p'
        × Extends p p'
        × HasEdge p' row
  unfolding add_row
  add_row_lem p row found i = elim (Option-cases (normalize_blocker row.blocker_session_id)) [
    | inl idle ↦ (p, rw idle, i, λ k q. q, λ b q. cc (q, idle))
    | inr (b, waits) ↦
        let (root, chain, e, end, links, first) = build_chain_lem row.session_id (rw found refl) in
        let (valid, more, all) = add_chain_lem row root p chain end links i in
        (
          add_chain m row root p chain,
          rw (waits, e, add_row),
          valid,
          more,
          λ c q.
              all (c, row.session_id) (first c (record { row = row; found = found; blocker = q })),
        )
  ]

  pub add_rows_lem :
      (p : Progress) (rows : List BlockingInput)
      → All (λ (row : BlockingInput). lookup row.session_id m ≡ some row) rows
      → IsProgress p
      → (p' : Progress) × (add_rows m p rows ≡ some p')
        × IsProgress p'
        × Extends p p'
        × All (HasEdge p') rows
  unfolding add_rows
  add_rows_lem p [] h i = (p, refl, i, λ k q. q, tt)
  add_rows_lem p (row ∷ rows) h i =
      let (p₁, e, valid, more, here) = add_row_lem p row h.0 i in
      let (p₂, e', valid', more', there) = add_rows_lem p₁ rows h.1 valid in
      (
        p₂,
        rw (e, add_rows) e',
        valid',
        λ k q. more' k (more k q),
        (λ b q. more' (b, row.session_id) (here b q), there),
      )
