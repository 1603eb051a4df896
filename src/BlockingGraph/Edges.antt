-- ===== src/BlockingGraph/Edges.antt =====
-- The result: total, sound, and one edge for each session that has a blocker.
use sql_monitor.Base.{
  ◌≡◌, refl, sym, ◌∙◌, subst, inl, inr, Bool, true, false, ◌||◌, false≢true, some, List, [], ◌∷◌,
  map, arith, ◌==◌, nat_eq, string_eq, pair_eq, pair_beq_iff, Bool-cases, contains, Distinct, All,
  ℤ, int_eq, int_beq_iff, lookup, insert, values, IsDict, insert-IsDict, AllEntries,
  AllEntries-insert, AllEntries-lookup, AllEntries-values, All-values, IsDict-lookup,
}
use sql_monitor.BlockingGraph.{
  BlockingInput, BlockingEdge, RowMap, rows_from, row_map, Progress, build_blocking_edges,
}
use sql_monitor.BlockingGraph.Relation.{IsBlockedBy}
use sql_monitor.BlockingGraph.Growth.{IsSound, edge_key, HasEdge, add_rows_lem}

-- Every entry of the map stands under the session of its row.
abbrev IsKeyed : RowMap → Type 0
IsKeyed = AllEntries (λ k (row : BlockingInput). row.session_id ≡ k)

abbrev pub blocked : BlockingEdge → ℤ
blocked e = e.blocked_session_id

or_true : (b : Bool) → (b || true) ≡ true
or_true true = refl
or_true false = refl

head_contains : (k j : ℤ × ℤ) (l : List (ℤ × ℤ)) → k ≡ j → contains k (j ∷ l) ≡ true
head_contains k j l e = ground (arith, pair_beq_iff k j)

rows_from_lem :
    (m : RowMap) (rows : List BlockingInput)
    → IsDict m
    → IsKeyed m
    → IsDict (rows_from m rows) × IsKeyed (rows_from m rows)
unfolding rows_from
rows_from_lem m [] d k = (d, k)
rows_from_lem m (row ∷ rows) d k =
    rows_from_lem (insert row.session_id row m) rows (insert-IsDict row.session_id row m d)
      (AllEntries-insert (λ k (r : BlockingInput). r.session_id ≡ k) row.session_id row m refl k)

module _ (rows : List BlockingInput) where
  row_map-IsDict : IsDict (row_map rows)
  unfolding row_map
  row_map-IsDict = (rows_from_lem [] rows tt tt).0

  row_map-IsKeyed : IsKeyed (row_map rows)
  unfolding row_map
  row_map-IsKeyed = (rows_from_lem [] rows tt tt).1

  -- every row of the map is found under its own session
  All-found :
      All
        (λ (row : BlockingInput). lookup row.session_id (row_map rows) ≡ some row)
        (values (row_map rows))
  All-found =
      AllEntries-values (λ (row : BlockingInput). lookup row.session_id (row_map rows) ≡ some row)
        (row_map rows)
        (both (row_map rows) row_map-IsKeyed (IsDict-lookup (row_map rows) row_map-IsDict))
    where
      both :
          (d : RowMap)
          → IsKeyed d
          → AllEntries (λ k v. lookup k (row_map rows) ≡ some v) d
          → AllEntries (λ k (v : BlockingInput). lookup v.session_id (row_map rows) ≡ some v) d
      both [] k h = tt
      both ((s, row) ∷ d) k h =
          (subst (λ x. lookup x (row_map rows) ≡ some row) (sym k.0) h.0, both d k.1 h.1)

  edge_of_blocked :
      (p : Progress)
      → All (HasEdge (row_map rows) p) (values (row_map rows))
      → (s b : ℤ) → IsBlockedBy (row_map rows) s b
      → contains (b, s) (map edge_key p.edges) ≡ true
  edge_of_blocked p all s b k =
      let own : k.row.session_id ≡ s =
        AllEntries-lookup (λ x (r : BlockingInput). r.session_id ≡ x) s k.row (row_map rows)
          row_map-IsKeyed k.found in
      subst (λ x. contains (b, x) (map edge_key p.edges) ≡ true) own
        (All-values (HasEdge (row_map rows) p) s k.row (row_map rows) all k.found b k.blocker)

  record IsGraph (edges : List BlockingEdge) : Type 0 where
    sound : All (IsSound (row_map rows)) edges
    distinct : Distinct (map edge_key edges)
    complete :
        (s b : ℤ) → IsBlockedBy (row_map rows) s b → contains (b, s) (map edge_key edges) ≡ true

  build_blocking_edges-IsGraph :
      (edges : List BlockingEdge) × (build_blocking_edges rows ≡ some edges) × IsGraph edges
  unfolding build_blocking_edges
  build_blocking_edges-IsGraph =
      let m = row_map rows in
      let (p, e, valid, more, all) =
        add_rows_lem m (record { seen = []; edges = [] }) (values m) All-found
          (record { sound = tt; distinct = tt; seen = λ k. refl }) in
      (
        p.edges,
        rw (e, build_blocking_edges),
        record { sound = valid.sound; distinct = valid.distinct; complete = edge_of_blocked p all },
      )

  IsGraph-of : (edges : List BlockingEdge) → build_blocking_edges rows ≡ some edges → IsGraph edges
  IsGraph-of edges e =
      let (edges', e', g) = build_blocking_edges-IsGraph in
      let same : edges' ≡ edges = cc (e, e') in subst IsGraph same g

  same_blocker :
      (x y : BlockingEdge)
      → IsSound (row_map rows) x
      → IsSound (row_map rows) y
      → x.blocked_session_id ≡ y.blocked_session_id
      → edge_key x ≡ edge_key y
  same_blocker x y h k e =
      let rx = h.blocked.row in
      let ry = k.blocked.row in
      cc (h.blocked.found, k.blocked.found, h.blocked.blocker, k.blocked.blocker, e)

  key_of_blocked :
      (x : BlockingEdge) (edges : List BlockingEdge)
      → IsSound (row_map rows) x
      → All (IsSound (row_map rows)) edges
      → contains x.blocked_session_id (map blocked edges) ≡ true
      → contains (edge_key x) (map edge_key edges) ≡ true
  key_of_blocked x [] h k q = cc q
  key_of_blocked x (y ∷ edges) h k q =
      elim (Bool-cases (x.blocked_session_id == y.blocked_session_id)) [
        | inl r ↦
            let e : edge_key x ≡ edge_key y =
              same_blocker x y h k.0
                ((int_beq_iff x.blocked_session_id y.blocked_session_id).0 r) in
            head_contains (edge_key x) (edge_key y) (map edge_key edges) e
        | inr r ↦ rw (key_of_blocked x edges h k.1 (rw r at q)) (or_true (edge_key x == edge_key y))
      ]

  blocked-Distinct :
      (edges : List BlockingEdge)
      → All (IsSound (row_map rows)) edges
      → Distinct (map edge_key edges)
      → Distinct (map blocked edges)
  blocked-Distinct [] h d = tt
  blocked-Distinct (x ∷ edges) h d =
      elim (Bool-cases (contains x.blocked_session_id (map blocked edges))) [
        | inl q ↦ absurd (false≢true (sym d.0 ∙ key_of_blocked x edges h.0 h.1 q))
        | inr q ↦ (q, blocked-Distinct edges h.1 d.1)
      ]

-- Whatever the rows, `build_blocking_edges` ends without an exception, and each of its edges is
-- true of the rows: the row of the blocked session names the blocker, the edge has that row's wait
-- type, wait time and resource, the blocked session waits for the edge's root through one or more
-- blockers, the root ends the chain (a special blocker, a session without a row or without a
-- blocker, or a session that waits for itself), the depth is at least 1, and the cycle flag is down
-- unless the blocked session waits for itself.
pub build_blocking_edges-IsSound :
    (rows : List BlockingInput)
    → (edges : List BlockingEdge) × (build_blocking_edges rows ≡ some edges)
      × All (IsSound (row_map rows)) edges
build_blocking_edges-IsSound rows =
    let (edges, e, g) = build_blocking_edges-IsGraph rows in (edges, e, g.sound)

-- Every session whose row names a blocker has an edge from that blocker.
pub build_blocking_edges_complete :
    (rows : List BlockingInput) (edges : List BlockingEdge) (s b : ℤ)
    → build_blocking_edges rows ≡ some edges
    → IsBlockedBy (row_map rows) s b
    → contains (b, s) (map edge_key edges) ≡ true
build_blocking_edges_complete rows edges s b e k = (IsGraph-of rows edges e).complete s b k

-- No session is the blocked session of two edges, however many chains pass through it.
pub build_blocking_edges-Distinct :
    (rows : List BlockingInput) (edges : List BlockingEdge)
    → build_blocking_edges rows ≡ some edges
    → Distinct (map blocked edges)
build_blocking_edges-Distinct rows edges e =
    let g = IsGraph-of rows edges e in blocked-Distinct rows edges g.sound g.distinct
