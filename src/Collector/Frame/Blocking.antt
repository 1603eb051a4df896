-- ===== src/Collector/Frame/Blocking.antt =====
-- The blocking rows of a frame, and how they count the sessions below a root.
use sql_monitor.Base.{
  ◌≡◌, refl, sym, ap, subst, Bool, false, none, some, List, [], ◌∷◌, map, arith, ◌==◌, nat_eq,
  string_eq, pair_eq, length, keep, Distinct, All, ℤ, int_eq, list_eq,
}
use sql_monitor.Auth.{Uuid, Time}
use sql_monitor.Snapshots.{BlockingSnapshot}
use sql_monitor.BlockingGraph.{BlockingEdge}
use sql_monitor.BlockingGraph.Edges.{build_blocking_edges-IsSound, build_blocking_edges-Distinct}
use sql_monitor.Collector.Frame.{
  WaitRow, SessionRow, resource_by_session, blocking_inputs, count_root, blocking_snapshot,
  build_blocking_snapshots,
}

-- a row below a root
abbrev pub has_root : ℤ → BlockingSnapshot → Bool
has_root root s = elim s.root_session_id [ none ↦ false | some r ↦ r == root ]

-- a row that counts the rows with its root
abbrev pub Counts : List BlockingSnapshot → BlockingSnapshot → Type 0
Counts rows s =
    (root : ℤ) × (s.root_session_id ≡ some root)
    × (s.blocked_count ≡ length (keep (has_root root) rows))

module _ (frame_id instance_id : Uuid) (snapshot_time : Time) where
  count_kept :
      (all edges : List BlockingEdge) (root : ℤ)
      → count_root root edges
        ≡ length (
            keep
              (has_root root)
              (map (blocking_snapshot frame_id instance_id snapshot_time all) edges))
  unfolding blocking_snapshot
  count_kept all [] root = refl
  count_kept all (e ∷ edges) root = ground (arith, count_kept all edges root)

  each-Counts :
      (all edges : List BlockingEdge)
      → All
          (Counts (map (blocking_snapshot frame_id instance_id snapshot_time all) all))
          (map (blocking_snapshot frame_id instance_id snapshot_time all) edges)
  unfolding blocking_snapshot
  each-Counts all [] = tt
  each-Counts all (e ∷ edges) =
      ((e.root_session_id, refl, count_kept all all e.root_session_id), each-Counts all edges)

  blocked_sessions :
      (all edges : List BlockingEdge)
      → map
          (λ (s : BlockingSnapshot). s.blocked_session_id)
          (map (blocking_snapshot frame_id instance_id snapshot_time all) edges)
        ≡ map (λ (e : BlockingEdge). e.blocked_session_id) edges
  unfolding blocking_snapshot
  blocked_sessions all [] = refl
  blocked_sessions all (e ∷ edges) =
      ap (λ xs. e.blocked_session_id ∷ xs) (blocked_sessions all edges)

  -- Whatever the rows, the blocking rows of a frame are built without an exception; each has a root
  -- and counts the rows with that root, and no session is blocked in two rows.
  pub build_blocking_snapshots-Counts :
      (rows : List SessionRow) (wait_rows : List WaitRow)
      → (built : List BlockingSnapshot) × (build_blocking_snapshots frame_id instance_id
            snapshot_time rows wait_rows
          ≡ some built)
        × All (Counts built) built
        × Distinct (map (λ (s : BlockingSnapshot). s.blocked_session_id) built)
  unfolding build_blocking_snapshots
  build_blocking_snapshots-Counts rows wait_rows =
      let inputs = blocking_inputs (resource_by_session wait_rows []) rows in
      let (edges, e, sound) = build_blocking_edges-IsSound inputs in
      (
        map (blocking_snapshot frame_id instance_id snapshot_time edges) edges,
        rw (e, build_blocking_snapshots) refl,
        each-Counts edges edges,
        subst Distinct (sym (blocked_sessions edges edges))
            (build_blocking_edges-Distinct inputs edges e),
      )
