-- ===== src/Collector/Frame/Waits.antt =====
-- The waits of a frame account for every row.
use sql_monitor.Base.{
  ℕ, ◌+◌, ◌≤◌, ◌≡◌, refl, sym, ap, subst, inl, inr, Bool, true, false, Option, none, some, List, [],
  ◌∷◌, ◌++◌, map, arith, if◌then◌else◌, nat_eq, string_eq, pair_eq, Bool-cases, or_else, length,
  keep, length-append, Distinct, All, sum, maximum, sum-append, int_eq, Text, list_eq, Unicode,
  lookup, insert, keys, IsDict, insert-IsDict, keys-Distinct,
}
use sql_monitor.Auth.{Uuid, Time}
use sql_monitor.Snapshots.{WaitSnapshot}
use sql_monitor.Collector.Frame.{
  WaitRow, Grouped, append_to, group_row, group_waits, wait_snapshot, build_wait_snapshots,
}

abbrev pub is_named : Option Text → Bool
is_named none = false
is_named (some []) = false
is_named (some (c ∷ s)) = true

-- a row with a wait type, and its duration
abbrev pub has_type : WaitRow → Bool
has_type row = is_named row.wait_type

abbrev pub duration : WaitRow → ℕ
duration row = or_else row.wait_duration_ms 0

-- the sum of a measure of the groups
abbrev total : (List ℕ → ℕ) → Grouped → ℕ
total f [] = 0
total f ((k, v) ∷ d) = f v + total f d

module _ (f : List ℕ → ℕ) (step : ℕ → ℕ)
    (grows : (ds : List ℕ) (x : ℕ) → f (ds ++ x ∷ []) ≡ f ds + step x) (nothing : f [] ≡ 0) where
  total-insert :
      (k : Text) (v : List ℕ) (d : Grouped)
      → total f (insert k v d) + f (or_else (lookup k d) []) ≡ total f d + f v
  total-insert k v [] = omega (arith, nothing)
  total-insert k v ((j, w) ∷ d) = ground (arith, total-insert k v d)

  total-append_to :
      (k : Text) (x : ℕ) (d : Grouped) → total f (append_to k x d) ≡ total f d + step x
  unfolding append_to
  total-append_to k x d = omega (
    arith,
    total-insert k (or_else (lookup k d) [] ++ x ∷ []) d,
    grows (or_else (lookup k d) []) x,
  )

  total-group_row :
      (w : Option Text) (x : ℕ) (d : Grouped)
      → total f (group_row w x d) ≡ total f d + (if is_named w then step x else 0)
  unfolding group_row
  total-group_row none x d = omega arith
  total-group_row (some []) x d = omega arith
  total-group_row (some (c ∷ s)) x d = total-append_to (c ∷ s) x d

  abbrev measured : List WaitRow → List ℕ
  measured rows = map (λ (r : WaitRow). step (duration r)) (keep has_type rows)

  total-group_waits :
      (rows : List WaitRow) (d : Grouped)
      → total f (group_waits rows d) ≡ total f d + sum (measured rows)
  unfolding group_waits
  total-group_waits [] d = omega arith
  total-group_waits (row ∷ rows) d =
      let later = total-group_waits rows (group_row row.wait_type (duration row) d) in
      let now = total-group_row row.wait_type (duration row) d in
      elim (Bool-cases (is_named row.wait_type)) [
        | inl e ↦ rw e (omega (arith, later, rw e at now))
        | inr e ↦ rw e (omega (arith, later, rw e at now))
      ]

sum-ones : (xs : List WaitRow) → sum (map (λ (r : WaitRow). 1) xs) ≡ length xs
sum-ones [] = refl
sum-ones (x ∷ xs) = omega (arith, sum-ones xs)

length-snoc : (ds : List ℕ) (x : ℕ) → length (ds ++ x ∷ []) ≡ length ds + 1
length-snoc ds x = omega (arith, length-append ds (x ∷ []))

sum-snoc : (ds : List ℕ) (x : ℕ) → sum (ds ++ x ∷ []) ≡ sum ds + x
sum-snoc ds x = omega (arith, sum-append ds (x ∷ []))

maximum-sum : (ds : List ℕ) → maximum ds ≤ sum ds
maximum-sum [] = omega arith
maximum-sum (d ∷ ds) = omega (arith, maximum-sum ds)

module _ (u : Unicode) (frame_id instance_id : Uuid) (snapshot_time : Time) where
  abbrev snapshots : Grouped → List WaitSnapshot
  snapshots d = map (wait_snapshot u frame_id instance_id snapshot_time) d

  tasks_total :
      (d : Grouped)
      → sum (map (λ (w : WaitSnapshot). w.waiting_tasks_count) (snapshots d)) ≡ total length d
  tasks_total [] = refl
  tasks_total ((k, v) ∷ d) = ap (λ n. length v + n) (tasks_total d)

  time_total :
      (d : Grouped)
      → sum (map (λ (w : WaitSnapshot). w.total_wait_time_ms) (snapshots d)) ≡ total sum d
  time_total [] = refl
  time_total ((k, v) ∷ d) = ap (λ n. sum v + n) (time_total d)

  -- The waits of a frame lose nothing: their tasks are as many as the rows that name a wait type, and
  -- their time is all the time of those rows.
  pub build_wait_snapshots_total :
      (rows : List WaitRow)
      → (sum (
            map
              (λ (w : WaitSnapshot). w.waiting_tasks_count)
              (build_wait_snapshots u frame_id instance_id snapshot_time rows))
          ≡ length (keep has_type rows))
        × (sum (
              map
                (λ (w : WaitSnapshot). w.total_wait_time_ms)
                (build_wait_snapshots u frame_id instance_id snapshot_time rows))
            ≡ sum (map duration (keep has_type rows)))
  unfolding build_wait_snapshots
  build_wait_snapshots_total rows =
      let grouped = group_waits rows [] in
      let tasks : total length grouped ≡ 0 + sum (map (λ (r : WaitRow). 1) (keep has_type rows)) =
        total-group_waits length (λ x. 1) length-snoc refl rows [] in
      let time : total sum grouped ≡ 0 + sum (map duration (keep has_type rows)) =
        total-group_waits sum (λ x. x) sum-snoc refl rows [] in
      (
        omega (arith, tasks_total grouped, tasks, sum-ones (keep has_type rows)),
        omega (arith, time_total grouped, time),
      )

  group_waits-IsDict : (rows : List WaitRow) (d : Grouped) → IsDict d → IsDict (group_waits rows d)
  unfolding group_waits group_row append_to
  group_waits-IsDict [] d h = h
  group_waits-IsDict (row ∷ rows) d h =
      group_waits-IsDict rows (group_row row.wait_type (duration row) d)
        (kept row.wait_type (duration row))
    where
      kept : (w : Option Text) (x : ℕ) → IsDict (group_row w x d)
      kept none x = h
      kept (some []) x = h
      kept (some (c ∷ s)) x = insert-IsDict (c ∷ s) (or_else (lookup (c ∷ s) d) [] ++ x ∷ []) d h

  wait_types : (d : Grouped) → map (λ (w : WaitSnapshot). w.wait_type) (snapshots d) ≡ keys d
  wait_types [] = refl
  wait_types ((k, v) ∷ d) = ap (λ ks. k ∷ ks) (wait_types d)

  largest_small :
      (d : Grouped)
      → All (λ (w : WaitSnapshot). w.max_wait_time_ms ≤ w.total_wait_time_ms) (snapshots d)
  largest_small [] = tt
  largest_small ((k, v) ∷ d) = (maximum-sum v, largest_small d)

  -- A frame has one row for each wait type, and the longest wait of a row is not longer than its
  -- total.
  pub build_wait_snapshots-Distinct :
      (rows : List WaitRow)
      → Distinct (
          map
            (λ (w : WaitSnapshot). w.wait_type)
            (build_wait_snapshots u frame_id instance_id snapshot_time rows))
        × All
            (λ (w : WaitSnapshot). w.max_wait_time_ms ≤ w.total_wait_time_ms)
            (build_wait_snapshots u frame_id instance_id snapshot_time rows)
  unfolding build_wait_snapshots
  build_wait_snapshots-Distinct rows =
      let grouped = group_waits rows [] in
      (
        subst Distinct (sym (wait_types grouped))
            (keys-Distinct grouped (group_waits-IsDict rows [] tt)),
        largest_small grouped,
      )
