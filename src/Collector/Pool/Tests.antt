-- ===== src/Collector/Pool/Tests.antt =====
-- Three databases on two threads, one of which never ends.
use sql_monitor.Base.{
  ℕ, zero, suc, ◌≤◌, ◌≡◌, refl, true, some, List, [], ◌∷◌, map, arith, ltb, nat_eq, string_eq,
  pair_eq, int_eq, Text, codes, list_eq,
}
use sql_monitor.Collector.Pool.{
  ok, raised, Source, Result, collect_one, Limits, collect_concurrently,
}
use sql_monitor.Collector.Pool.Invariant.{count, IsPool}
use sql_monitor.Collector.Pool.Ends.{
  workers, collect_concurrently-IsPool, collect_concurrently_ends,
}

abbrev source : Source
source = record {
  Missing = Text;
  Fragmentation = ℕ;
  Client = Text;
  action_enabled = λ n. ltb 5 n;
  client_factory = λ connection. ok connection;
  list_missing_indexes = λ client name. raised (codes "refused");
  list_index_fragmentation = λ client name. ok (3 ∷ 8 ∷ []);
  missing_due = true;
  fragmentation_due = true;
  timeout_message = codes "timeout";
}

-- the first round finishes the second future, and then the third; the first never ends
abbrev done_in : ℕ → List ℕ
done_in zero = 1 ∷ []
done_in (suc zero) = 3 ∷ []
done_in (suc (suc k)) = []

abbrev limits : Limits
limits = record { monotonic = λ n. n; done = done_in; timeout = 6 }

abbrev databases : List Text
databases = codes "a" ∷ codes "b" ∷ codes "c" ∷ []

steady : (n : ℕ) → limits.monotonic n ≤ limits.monotonic (suc n)
steady n = omega arith

in_order :
    map
      (λ (r : Result source). r.database_name)
      (collect_concurrently source (codes "dsn") limits 2 databases 20).yielded
    ≡ codes "b" ∷ codes "c" ∷ codes "a" ∷ []
unfolding collect_concurrently
in_order = refl

with_errors : (collect_one source (codes "dsn") (codes "a")).missing_error ≡ some (codes "refused")
unfolding collect_one
with_errors = refl

with_actions : (collect_one source (codes "dsn") (codes "a")).fragmentation_items ≡ some (8 ∷ [])
unfolding collect_one
with_actions = refl

collect_concurrently-IsPool_example :
    IsPool source
      (codes "dsn")
      limits
      databases
      (workers source (codes "dsn") limits 2 databases)
      (collect_concurrently source (codes "dsn") limits 2 databases 1)
collect_concurrently-IsPool_example =
    collect_concurrently-IsPool source (codes "dsn") limits 2 databases 1

collect_concurrently_ends_example :
    ((collect_concurrently source (codes "dsn") limits 2 databases 4004).active ≡ [])
    × ((d : Text)
        → count d (
            map
              (λ (r : Result source). r.database_name)
              (collect_concurrently source (codes "dsn") limits 2 databases 4004).yielded)
          ≡ count d databases)
collect_concurrently_ends_example =
    collect_concurrently_ends source (codes "dsn") limits steady 2 databases 4004 (omega arith)
