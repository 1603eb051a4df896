-- ===== src/Collector/Pool/Ends.antt =====
-- The concurrent collection waits for no more futures than it may, loses and repeats no database, and
-- ends.
use sql_monitor.Base.{
  ℕ, zero, suc, ◌*◌, ◌≤◌, min, max, ◌≡◌, refl, ap, ◌∙◌, inl, inr, true, false≢true, List, [], ◌∷◌,
  map, arith, nat_eq, string_eq, pair_eq, Bool-cases, length, int_eq, Text, list_eq,
}
use sql_monitor.Collector.Pool.{
  clock, timeout_of, Source, Result, Active, Pool, Limits, submit_next, submit_first, round,
  is_idle, run, collect_concurrently,
}
use sql_monitor.Collector.Pool.Invariant.{
  count, names, IsPool, HasRoom, run-IsPool, submit_first-IsPool,
}
use sql_monitor.Collector.Pool.Timed.{IsTimed, submit_next-IsTimed, round-IsTimed}
use sql_monitor.Collector.Pool.Progress.{
  outstanding, submit_next-outstanding, remaining_bound, measure, round-measure,
}

module _ (source : Source) (connection_string : Text) (limits : Limits) where
  abbrev pub workers : ℕ → List Text → ℕ
  workers concurrency databases = max 1 (min concurrency (length databases))

  abbrev initial : List Text → Pool (Result source)
  initial databases = record {
    pending = databases;
    active = [];
    yielded = [];
    readings = 0;
    waited = 0;
  }

  initial-HasRoom :
      (concurrency : ℕ) (databases : List Text)
      → HasRoom source connection_string limits databases
          (workers concurrency databases)
          (workers concurrency databases)
          (initial databases)
  initial-HasRoom concurrency databases = record {
    counted = λ d. omega arith;
    bounded = omega arith;
    busy = inr (omega arith);
    genuine = tt;
  }

  -- After any number of rounds, whatever the clock says and whichever futures are done: every database
  -- is waiting, active or has a result, and as often as it was asked for; the dict of
  -- active futures holds no more than the concurrency allows, and no fewer while a database waits; and
  -- every result is what the
  -- collection of its database gives, or the result of its timeout.
  pub collect_concurrently-IsPool :
      (concurrency : ℕ) (databases : List Text) (rounds : ℕ)
      → IsPool source connection_string limits databases
          (workers concurrency databases)
          (collect_concurrently source connection_string limits concurrency databases rounds)
  unfolding collect_concurrently
  collect_concurrently-IsPool concurrency databases rounds =
      let w = workers concurrency databases in
      run-IsPool source connection_string limits databases w rounds 0
        (submit_first source connection_string limits w (initial databases))
        (submit_first-IsPool source connection_string limits databases w w (initial databases)
          (initial-HasRoom concurrency databases))

  submit_first-outstanding :
      (n : ℕ) (p : Pool (Result source))
      → outstanding source connection_string limits
          (submit_first source connection_string limits n p)
        ≡ outstanding source connection_string limits p
  unfolding submit_first
  submit_first-outstanding zero p = refl
  submit_first-outstanding (suc n) p =
      submit_first-outstanding n (submit_next source connection_string limits p.pending p)
      ∙ submit_next-outstanding source connection_string limits p.pending p refl

  idle_none :
      (active : List Active) → is_idle source connection_string limits active ≡ true → active ≡ []
  idle_none [] h = refl
  idle_none (a ∷ active) h = absurd (false≢true h)

  module _ (steady : (n : ℕ) → limits.monotonic n ≤ limits.monotonic (suc n)) where
    submit_first-IsTimed :
        (n : ℕ) (p : Pool (Result source))
        → IsTimed source connection_string limits p
        → IsTimed source connection_string limits (submit_first source connection_string limits n p)
    unfolding submit_first
    submit_first-IsTimed zero p h = h
    submit_first-IsTimed (suc n) p h =
        submit_first-IsTimed n (submit_next source connection_string limits p.pending p)
          (submit_next-IsTimed source connection_string limits steady p.pending p h)

    run_idle :
        (n k : ℕ) (p : Pool (Result source))
        → IsTimed source connection_string limits p
        → measure source connection_string limits steady p ≤ n
        → (run source connection_string limits n k p).active ≡ []
    unfolding run
    run_idle zero k p timed enough =
        elim (Bool-cases (is_idle source connection_string limits p.active)) [
          | inl e ↦ idle_none p.active e
          | inr e ↦ absurd (
              omega
                (arith, round-measure source connection_string limits steady k p e timed, enough))
        ]
    run_idle (suc n) k p timed enough =
        elim (Bool-cases (is_idle source connection_string limits p.active)) [
          | inl e ↦ rw (e, run) (idle_none p.active e)
          | inr e ↦
              rw (e, run)
                (run_idle n (suc k) (round source connection_string limits k p)
                  (round-IsTimed source connection_string limits steady k p timed)
                  (omega (
                    arith,
                    round-measure source connection_string limits steady k p e timed,
                    enough,
                  )))
        ]

    -- If the clock never goes backwards, and a `wait` that finds nothing done takes its timeout, the
    -- collection ends after finitely many rounds, whichever futures are done: a timeout's worth of
    -- microseconds for every database and one more. Then every database has as many results as it was named, so exactly one if it was named once.
    pub collect_concurrently_ends :
        (concurrency : ℕ) (databases : List Text) (rounds : ℕ)
        → suc (length databases) * suc (timeout_of limits) ≤ rounds
        → ((collect_concurrently source connection_string limits concurrency databases
              rounds).active
            ≡ [])
          × ((d : Text)
              → count d (
                  map
                    (λ (r : Result source). r.database_name)
                    (collect_concurrently source connection_string limits concurrency databases
                      rounds).yielded)
                ≡ count d databases)
    collect_concurrently_ends concurrency databases rounds enough =
        let w = workers concurrency databases in
        let p = submit_first source connection_string limits w (initial databases) in
        let end =
          collect_concurrently source connection_string limits concurrency databases rounds in
        let pool = collect_concurrently-IsPool concurrency databases rounds in
        let left : outstanding source connection_string limits p ≡ length databases =
          omega (arith, submit_first-outstanding w (initial databases)) in
        let level : outstanding source connection_string limits p * suc (timeout_of limits)
            ≡ length databases * suc (timeout_of limits) =
          ap (λ n. n * suc (timeout_of limits)) left in
        let bound =
          remaining_bound source connection_string limits steady p.active (clock limits p) in
        let short : measure source connection_string limits steady p ≤ rounds =
          grind (arith, level, bound, enough) in
        let idle : end.active ≡ [] =
          unfold collect_concurrently in
          run_idle rounds 0 p (submit_first-IsTimed w (initial databases) tt) short in
        let none_left : end.pending ≡ [] = elim pool.busy [
          | inl e ↦ e
          | inr full ↦ absurd (omega (arith, ap length idle, full))
        ] in
        (
          idle,
          λ d.
              let stopped : count d (names end.active) ≡ 0 =
                ap (λ active. count d (names active)) idle in
              let served : count d end.pending ≡ 0 = ap (count d) none_left in
              omega (arith, pool.counted d, stopped, served),
        )
