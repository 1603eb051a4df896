-- ===== src/Collector/Frame/Tests.antt =====
-- The waits and the blocking of a small frame.
use sql_monitor.Base.{
  ℕ, ◌≡◌, refl, Option, none, some, List, [], ◌∷◌, map, nat_eq, string_eq, pair_eq, length, keep,
  Distinct, All, sum, ℤ, pos, int_eq, Text, codes, list_eq, ascii,
}
use sql_monitor.Snapshots.{WaitSnapshot, BlockingSnapshot}
use sql_monitor.Collector.Frame.{
  WaitRow, SessionRow, build_wait_snapshots, build_blocking_snapshots,
}
use sql_monitor.Collector.Frame.Waits.{has_type, duration, build_wait_snapshots_total}
use sql_monitor.Collector.Frame.Blocking.{Counts, build_blocking_snapshots-Counts}

abbrev wait_row : Option Text → Option ℕ → WaitRow
wait_row w d = record {
  session_id = some (pos 55);
  wait_type = w;
  wait_duration_ms = d;
  resource_description = none;
}

abbrev waits : List WaitRow
waits =
    wait_row (some (codes "LCK_M_X")) (some 40)
    ∷ wait_row none (some 9)
    ∷ wait_row (some (codes "WRITELOG")) none
    ∷ wait_row (some (codes "LCK_M_X")) (some 2)
    ∷ []

abbrev session_row : ℤ → Option ℤ → SessionRow
session_row id blocker = record {
  session_id = some id;
  blocking_session_id = blocker;
  wait_type = some (codes "LCK_M_X");
  wait_time_ms = some 40;
}

abbrev sessions : List SessionRow
sessions =
    session_row (pos 55) (some (pos 60))
    ∷ session_row (pos 56) (some (pos 55))
    ∷ session_row (pos 60) (some (pos 0))
    ∷ []

categories :
    map (λ (w : WaitSnapshot). w.wait_category) (build_wait_snapshots ascii 1 7 100 waits)
    ≡ "LOCK" ∷ "LOG" ∷ []
unfolding build_wait_snapshots
categories = refl

counted :
    map (λ (w : WaitSnapshot). w.total_wait_time_ms) (build_wait_snapshots ascii 1 7 100 waits)
    ≡ 42 ∷ 0 ∷ []
unfolding build_wait_snapshots
counted = refl

build_wait_snapshots_total_example :
    (sum (
        map
          (λ (w : WaitSnapshot). w.waiting_tasks_count)
          (build_wait_snapshots ascii 1 7 100 waits))
      ≡ length (keep has_type waits))
    × (sum (
          map
            (λ (w : WaitSnapshot). w.total_wait_time_ms)
            (build_wait_snapshots ascii 1 7 100 waits))
        ≡ sum (map duration (keep has_type waits)))
build_wait_snapshots_total_example = build_wait_snapshots_total ascii 1 7 100 waits

build_blocking_snapshots-Counts_example :
    (built : List BlockingSnapshot) × (build_blocking_snapshots 1 7 100 sessions waits ≡ some built)
    × All (Counts built) built
    × Distinct (map (λ (s : BlockingSnapshot). s.blocked_session_id) built)
build_blocking_snapshots-Counts_example = build_blocking_snapshots-Counts 1 7 100 sessions waits
