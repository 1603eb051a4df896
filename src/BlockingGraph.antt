-- ===== src/BlockingGraph.antt =====
-- backend/app/collector/blocking_graph.py: from the blocked sessions of a frame to the edges of its
-- blocking graph.
pub mod Relation
mod Walk
mod Chain
mod Growth
pub mod Edges
mod Tests
use sql_monitor.Base.{
  ℕ, zero, suc, ◌*◌, Text, Bool, true, false, Option, none, some, List, [], ◌∷◌, ◌++◌, map, reverse,
  if◌then◌else◌, ◌==◌, nat_eq, string_eq, is_some, or_else, length, contains, ℤ, pos, negsuc,
  int_eq, pair_eq, Dict, lookup, insert, values,
}

-- `_SPECIAL_BLOCKERS`: an orphaned transaction, a deferred recovery transaction, a latch
abbrev pub special_blockers : List ℤ
special_blockers = negsuc 1 ∷ negsuc 2 ∷ negsuc 3 ∷ []

pub record BlockingInput : Type 0 where
  pub session_id : ℤ
  pub blocker_session_id : Option ℤ
  pub wait_type : Option Text
  pub wait_duration_ms : Option ℕ
  pub resource_description : Option Text

pub record BlockingEdge : Type 0 where
  pub root_session_id : ℤ
  pub blocker_session_id : ℤ
  pub blocked_session_id : ℤ
  pub chain_depth : ℕ
  pub wait_type : Option Text
  pub wait_duration_ms : Option ℕ
  pub resource_description : Option Text
  pub cycle_detected : Bool

-- `_normalize_blocker`
unfoldable pub normalize_blocker : Option ℤ → Option ℤ
normalize_blocker none = none
normalize_blocker (some b) =
    if contains b special_blockers then some b else if b == pos 0 then none else some b

abbrev pub RowMap : Type 0
RowMap = Dict ℤ BlockingInput

-- `{row.session_id: row for row in rows}`
insert_row : RowMap → BlockingInput → RowMap
insert_row m row = insert row.session_id row m

pub rows_from : RowMap → List BlockingInput → RowMap
unfolding insert_row
rows_from m [] = m
rows_from m (row ∷ rows) = rows_from (insert_row m row) rows

pub row_map : List BlockingInput → RowMap
unfolding rows_from
row_map rows = rows_from [] rows

-- an entry of `child_to_parent_edges`: blocker, blocked session, cycle flag
abbrev pub ChainEdge : Type 0
ChainEdge = ℤ × ℤ × Bool

-- How one round of the `while True` loop ends: with a root, with the next session, or by the
-- `KeyError` of `row_map[current_session_id]`.
pub data Round : Type 0 where
  stop : ℤ → List ChainEdge → Round
  climb : ℤ → List ℤ → List ChainEdge → Round
  key_error : Round

climb_to : RowMap → ℤ → List ℤ → List ChainEdge → ℤ → Round
climb_to m current visited edges b =
    if contains b special_blockers
    then stop b (edges ++ (b, current, false) ∷ [])
    else if contains b visited
    then stop b (edges ++ (b, current, true) ∷ [])
    else if is_some (lookup b m)
    then climb b (b ∷ visited) (edges ++ (b, current, false) ∷ [])
    else stop b (edges ++ (b, current, false) ∷ [])

from_blocker : RowMap → ℤ → List ℤ → List ChainEdge → Option ℤ → Round
unfolding climb_to
from_blocker m current visited edges none = stop current edges
from_blocker m current visited edges (some b) = climb_to m current visited edges b

from_row : RowMap → ℤ → List ℤ → List ChainEdge → Option BlockingInput → Round
unfolding from_blocker
from_row m current visited edges none = key_error
from_row m current visited edges (some row) =
    from_blocker m current visited edges (normalize_blocker row.blocker_session_id)

pub round : RowMap → ℤ → List ℤ → List ChainEdge → Round
unfolding from_row
round m current visited edges = from_row m current visited edges (lookup current m)

-- The loop, on fuel. `none` stands for a `KeyError` and for fuel that ran out.
pub walk : RowMap → ℕ → ℤ → List ℤ → List ChainEdge → Option (ℤ × List ChainEdge)
walk m zero current visited edges = none
walk m (suc fuel) current visited edges = elim (round m current visited edges) [
  | stop root found ↦ some (root, found)
  | climb next seen found ↦ walk m fuel next seen found
  | key_error ↦ none
]

-- `enumerate(reversed(child_to_parent_edges), start=1)`
abbrev pub DeepEdge : Type 0
DeepEdge = ℤ × ℤ × ℕ × Bool

pub enumerate : ℕ → List ChainEdge → List DeepEdge
enumerate depth [] = []
enumerate depth ((blocker, blocked, cycle) ∷ edges) =
    (blocker, blocked, depth, cycle) ∷ enumerate (suc depth) edges

-- Every round but the last visits one more key of the map, so the map's size is fuel enough.
pub build_chain : RowMap → ℤ → Option (ℤ × List DeepEdge)
unfolding walk enumerate
build_chain m session_id = elim (walk m (length m) session_id (session_id ∷ []) []) [
  | none ↦ none
  | some (root, edges) ↦ some (root, enumerate 1 (reverse edges))
]

-- `seen_edges` and `edges`
pub record Progress : Type 0 where
  pub seen : List (ℤ × ℤ)
  pub edges : List BlockingEdge

edge_of : RowMap → BlockingInput → ℤ → DeepEdge → BlockingEdge
edge_of m row root (blocker, blocked, depth, cycle) =
    let source = or_else (lookup blocked m) row in
    record {
      root_session_id = root;
      blocker_session_id = blocker;
      blocked_session_id = blocked;
      chain_depth = depth;
      wait_type = source.wait_type;
      wait_duration_ms = source.wait_duration_ms;
      resource_description = source.resource_description;
      cycle_detected = cycle;
    }

pub add_edge : RowMap → BlockingInput → ℤ → Progress → DeepEdge → Progress
unfolding edge_of
add_edge m row root p (blocker, blocked, depth, cycle) =
    if contains (blocker, blocked) p.seen then p else record {
      seen = (blocker, blocked) ∷ p.seen;
      edges = p.edges ++ edge_of m row root (blocker, blocked, depth, cycle) ∷ [];
    }

pub add_chain : RowMap → BlockingInput → ℤ → Progress → List DeepEdge → Progress
unfolding add_edge
add_chain m row root p [] = p
add_chain m row root p (edge ∷ chain) = add_chain m row root (add_edge m row root p edge) chain

pub add_row : RowMap → Progress → BlockingInput → Option Progress
unfolding build_chain add_chain
add_row m p row =
    if is_some (normalize_blocker row.blocker_session_id)
    then (elim (build_chain m row.session_id) [
      | none ↦ none
      | some (root, chain) ↦ some (add_chain m row root p chain)
    ])
    else some p

pub add_rows : RowMap → Progress → List BlockingInput → Option Progress
unfolding add_row
add_rows m p [] = some p
add_rows m p (row ∷ rows) = elim (add_row m p row) [ none ↦ none | some p' ↦ add_rows m p' rows ]

-- `none` would be an exception.
unfoldable pub build_blocking_edges : List BlockingInput → Option (List BlockingEdge)
unfolding row_map add_rows
build_blocking_edges rows =
    let m = row_map rows in
    elim (add_rows m (record { seen = []; edges = [] }) (values m)) [
      | none ↦ none
      | some p ↦ some p.edges
    ]
