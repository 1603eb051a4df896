-- ===== src/BlockingGraph/Tests.antt =====
-- A chain into a session without a row, a deadlock of two sessions, and a special blocker.
use sql_monitor.Base.{
  ℕ, ◌*◌, ◌≡◌, refl, Bool, true, false, none, some, List, [], ◌∷◌, map, nat_eq, string_eq, pair_eq,
  contains, Distinct, All, ℤ, pos, negsuc, int_eq, codes, list_eq,
}
use sql_monitor.BlockingGraph.{
  BlockingInput, BlockingEdge, normalize_blocker, row_map, build_blocking_edges,
}
use sql_monitor.BlockingGraph.Relation.{IsBlockedBy}
use sql_monitor.BlockingGraph.Growth.{IsSound, edge_key}
use sql_monitor.BlockingGraph.Edges.{
  blocked, build_blocking_edges-IsSound, build_blocking_edges_complete,
  build_blocking_edges-Distinct,
}

abbrev waits_for : ℕ → ℤ → BlockingInput
waits_for s b = record {
  session_id = pos s;
  blocker_session_id = some b;
  wait_type = some (codes "LCK_M_X");
  wait_duration_ms = some (100 * s);
  resource_description = none;
}

abbrev edge : ℤ → ℤ → ℕ → ℕ → Bool → BlockingEdge
edge root blocker s depth cycle = record {
  root_session_id = root;
  blocker_session_id = blocker;
  blocked_session_id = pos s;
  chain_depth = depth;
  wait_type = some (codes "LCK_M_X");
  wait_duration_ms = some (100 * s);
  resource_description = none;
  cycle_detected = cycle;
}

abbrev rows : List BlockingInput
rows =
    waits_for 53 (pos 52)
    ∷ waits_for 52 (pos 51)
    ∷ waits_for 60 (pos 61)
    ∷ waits_for 61 (pos 60)
    ∷ waits_for 70 (negsuc 1)
    ∷ waits_for 80 (pos 0)
    ∷ []

abbrev expected : List BlockingEdge
expected =
    edge (pos 51) (pos 51) 52 1 false
    ∷ edge (pos 51) (pos 52) 53 2 false
    ∷ edge (pos 60) (pos 60) 61 1 true
    ∷ edge (pos 60) (pos 61) 60 2 false
    ∷ edge (negsuc 1) (negsuc 1) 70 1 false
    ∷ []

build_rows : build_blocking_edges rows ≡ some expected
unfolding build_blocking_edges normalize_blocker sql_monitor.BlockingGraph.round
build_rows = refl

build_blocking_edges-IsSound_example :
    (edges : List BlockingEdge) × (build_blocking_edges rows ≡ some edges)
    × All (IsSound (row_map rows)) edges
build_blocking_edges-IsSound_example = build_blocking_edges-IsSound rows

blocked_52 : IsBlockedBy (row_map rows) (pos 52) (pos 51)
unfolding row_map normalize_blocker
blocked_52 = record { row = waits_for 52 (pos 51); found = refl; blocker = refl }

build_blocking_edges_complete_example : contains (pos 51, pos 52) (map edge_key expected) ≡ true
build_blocking_edges_complete_example =
    build_blocking_edges_complete rows expected (pos 52) (pos 51) build_rows blocked_52

build_blocking_edges-Distinct_example : Distinct (map blocked expected)
build_blocking_edges-Distinct_example = build_blocking_edges-Distinct rows expected build_rows
