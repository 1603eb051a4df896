-- ===== src/Collector/IndexStore/Succeeded.antt =====
-- The status of a collection of indexes that succeeds, as
-- backend/app/collector/real_instance_collector.py stores it.
use sql_monitor.Base.{
  ℕ, String, ◌≡◌, refl, Bool, true, false, Option, none, some, [], ◌∷◌, arith, if◌then◌else◌,
  nat_eq, string_eq, pair_eq, beq_refl, or_else, length, int_eq, Text, list_eq, row_of-upsert,
}
use sql_monitor.Auth.{Uuid, Time}
use sql_monitor.Collector.IndexStore.{
  IndexCollectionStatus, IndexTables, Key, key_of, status_of, new_status, change_status, succeeded,
  failed, replace_missing_index_snapshots, replace_index_fragmentation_snapshots,
  mark_index_collection_success, mark_index_collection_failed, DatabaseResult, persist_missing,
  persist_fragmentation, persist_result,
}

-- the row says that the last collection succeeded, at that time
abbrev pub IsSucceeded : Time → Option IndexCollectionStatus → Type 0
IsSucceeded at none = ⊥
IsSucceeded at (some s) =
    (s.last_success_at ≡ some at) × ((s.status ≡ "success") × (s.error_message ≡ none))

marked :
    (at : Time) (key : Key) (n : ℕ) (t : IndexTables)
    → IsSucceeded at (status_of key (mark_index_collection_success key n at t).statuses)
unfolding mark_index_collection_success change_status
marked at key n t =
    rw
      (
        row_of-upsert key_of key key (new_status at key) (succeeded n at) (λ s. refl) refl
            t.statuses,
        beq_refl key,
      )
      (refl, (refl, refl))

abbrev pub of_kind : Uuid → DatabaseResult → String → Key
of_kind i result index_type = (i, (result.database_name, index_type))

-- the branch of one kind leaves the status of the other
fragmentation-other :
    (i : Uuid) (result : DatabaseResult) (e : Option Text) (at : Time) (t : IndexTables)
    → status_of (of_kind i result "missing") (persist_fragmentation i result e at t).statuses
      ≡ status_of (of_kind i result "missing") t.statuses
unfolding persist_fragmentation mark_index_collection_failed mark_index_collection_success
    replace_index_fragmentation_snapshots change_status
fragmentation-other i result none at t =
    let key = of_kind i result "fragmentation" in
    rw
      (row_of-upsert key_of key (of_kind i result "missing") (new_status at key)
        (succeeded (length (or_else result.fragmentation_items [])) at) (λ s. refl) refl t.statuses)
      (ground arith)
fragmentation-other i result (some []) at t =
    let key = of_kind i result "fragmentation" in
    rw
      (row_of-upsert key_of key (of_kind i result "missing") (new_status at key)
        (succeeded (length (or_else result.fragmentation_items [])) at) (λ s. refl) refl t.statuses)
      (ground arith)
fragmentation-other i result (some (c ∷ m)) at t =
    let key = of_kind i result "fragmentation" in
    rw
      (row_of-upsert key_of key (of_kind i result "missing") (new_status at key) (failed (c ∷ m) at)
        (λ s. refl) refl t.statuses)
      (ground arith)

pub missing-IsSucceeded :
    (i : Uuid) (result : DatabaseResult) (fragmentation_due : Bool) (at : Time) (t : IndexTables)
    → result.missing_error ≡ none
    → IsSucceeded at (
        status_of
          (of_kind i result "missing")
          (persist_result i result true fragmentation_due at t).statuses)
unfolding persist_result persist_missing replace_missing_index_snapshots
missing-IsSucceeded i result true at t h =
    rw (h, fragmentation-other i result result.fragmentation_error at _)
      (marked at (of_kind i result "missing") (length (or_else result.missing_items [])) (
        replace_missing_index_snapshots i result.database_name (or_else result.missing_items []) at
          t))
missing-IsSucceeded i result false at t h = rw h (
    marked at (of_kind i result "missing") (length (or_else result.missing_items [])) (
      replace_missing_index_snapshots i result.database_name (or_else result.missing_items []) at
        t))

pub fragmentation-IsSucceeded :
    (i : Uuid) (result : DatabaseResult) (missing_due : Bool) (at : Time) (t : IndexTables)
    → result.fragmentation_error ≡ none
    → IsSucceeded at (
        status_of
          (of_kind i result "fragmentation")
          (persist_result i result missing_due true at t).statuses)
unfolding persist_result persist_fragmentation replace_index_fragmentation_snapshots
fragmentation-IsSucceeded i result missing_due at t h =
    let items = or_else result.fragmentation_items [] in
    let t' = if missing_due then persist_missing i result result.missing_error at t else t in
    rw h (
      marked at (of_kind i result "fragmentation") (length items)
        (replace_index_fragmentation_snapshots i result.database_name items at t'))
