-- ===== src/Blocking/Tests.antt =====
-- The chains of a small frame.
use sql_monitor.Base.{
  ℕ, ◌≡◌, refl, true, false, Option, none, some, List, [], ◌∷◌, map, nat_eq, string_eq, pair_eq,
  contains, Distinct, All, ℤ, pos, int_eq, list_eq,
}
use sql_monitor.Snapshots.{BlockingSnapshot}
use sql_monitor.Blocking.{root_eq, low, medium, BlockingChain, BlockingNode, chains_of}
use sql_monitor.Blocking.Chains.{chains_of-IsChain}
use sql_monitor.Blocking.Shape.{IsChain, IsRanked}

abbrev row : ℤ → ℤ → ℕ → Option ℕ → BlockingSnapshot
row root blocked depth wait = record {
  frame_id = 1;
  instance_id = 7;
  snapshot_time = 100;
  root_session_id = some root;
  blocking_session_id = some root;
  blocked_session_id = blocked;
  chain_depth = depth;
  blocked_count = 1;
  max_wait_time_ms = wait;
  wait_type = none;
  resource_description = none;
  cycle_detected = false;
  special_blocker_code = none;
}

abbrev rows : List BlockingSnapshot
rows =
    row (pos 50) (pos 51) 1 (some 900)
    ∷ row (pos 60) (pos 62) 2 none
    ∷ row (pos 60) (pos 61) 1 (some 5)
    ∷ []

-- the chain with two blocked sessions comes first, its nodes by depth
risks : map (λ (c : BlockingChain). c.risk_level) (chains_of rows) ≡ medium ∷ low ∷ []
unfolding chains_of
risks = refl

nodes :
    map
      (λ (c : BlockingChain). map (λ (n : BlockingNode). n.blocked_session_id) c.nodes)
      (chains_of rows)
    ≡ (pos 61 ∷ pos 62 ∷ []) ∷ (pos 51 ∷ []) ∷ []
unfolding chains_of
nodes = refl

chains_of-IsChain_example :
    All (IsChain rows) (chains_of rows)
    × Distinct (map (λ (c : BlockingChain). c.root_session_id) (chains_of rows))
    × All
        (λ (r : BlockingSnapshot).
          contains r.root_session_id
            (map (λ (c : BlockingChain). c.root_session_id) (chains_of rows))
          ≡ true)
        rows
    × IsRanked (chains_of rows)
chains_of-IsChain_example = chains_of-IsChain rows
