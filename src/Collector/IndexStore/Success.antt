-- ===== src/Collector/IndexStore/Success.antt =====
-- What a collection of indexes that succeeds stores, and until when it counts:
-- backend/app/collector/real_instance_collector.py.
use sql_monitor.Base.{
  ◌≡◌, refl, ap, Bool, true, false, Option, none, some, List, [], ◌∷◌, map, ◌==◌, nat_eq, string_eq,
  pair_eq, pair_beq_iff, or_else, keep, All, All-map, All-of_map, int_eq, Text, list_eq, replace,
  replace_own, replace_other,
}
use sql_monitor.Auth.{Uuid, Time}
use sql_monitor.Collector.IndexStore.{
  MissingIndexCandidate, MissingIndexSnapshot, IndexFragmentationItem, IndexFragmentationSnapshot,
  mark_index_collection_failed, IndexTables, missing_snapshot, fragmentation_of,
  fragmentation_snapshot, replace_missing_index_snapshots, replace_index_fragmentation_snapshots,
  mark_index_collection_success, DatabaseResult, persist_missing, persist_fragmentation,
  persist_result,
}

abbrev pub Place : Type 0
Place = Uuid × Text

-- The rows of one instance and database are the given ones, those of all others as they were.
abbrev pub IsReplaced : {A : Type 0} → (A → Place) → Place → List A → List A → List A → Type 0
IsReplaced place p rows old new =
    (keep (λ x. place x == p) new ≡ rows)
    × ((q : Place) → (p == q) ≡ false → keep (λ x. place x == q) new ≡ keep (λ x. place x == q) old)

abbrev pub missing_place : MissingIndexSnapshot → Place
missing_place r = (r.instance_id, r.database_name)

abbrev pub fragmentation_place : IndexFragmentationSnapshot → Place
fragmentation_place r = (r.instance_id, r.database_name)

module _ {A : Type 0} (place : A → Place) where
  is_apart :
      (p q : Place) (x : A) → (p == q) ≡ false → (place x == p) ≡ true → (place x == q) ≡ false
  is_apart p q x h k = let e : place x ≡ p = (pair_beq_iff (place x) p).0 k in rw e h

  replace-IsReplaced :
      (p : Place) (rows old : List A)
      → All (λ x. place x ≡ p) rows
      → IsReplaced place p rows old (replace (λ x. place x == p) rows old)
  replace-IsReplaced p rows old h = (
    replace_own (λ x. place x == p) rows old
        (All-map (λ x k. (pair_beq_iff (place x) p).1 k) rows h),
    λ q apart.
        replace_other (λ x. place x == p) (λ x. place x == q) rows old
          (λ x k. is_apart p q x apart k)
          (All-map (λ x k. is_apart p q x apart ((pair_beq_iff (place x) p).1 k)) rows h),
  )

-- a result's branch for one kind of indexes leaves the other's table alone
fragmentation-missing :
    (i : Uuid) (result : DatabaseResult) (e : Option Text) (at : Time) (t : IndexTables)
    → (persist_fragmentation i result e at t).missing ≡ t.missing
unfolding persist_fragmentation mark_index_collection_failed mark_index_collection_success
    replace_index_fragmentation_snapshots
fragmentation-missing i result none at t = refl
fragmentation-missing i result (some []) at t = refl
fragmentation-missing i result (some (c ∷ m)) at t = refl

missing-fragmentation :
    (i : Uuid) (result : DatabaseResult) (e : Option Text) (at : Time) (t : IndexTables)
    → (persist_missing i result e at t).fragmentation ≡ t.fragmentation
unfolding persist_missing mark_index_collection_failed mark_index_collection_success
    replace_missing_index_snapshots
missing-fragmentation i result none at t = refl
missing-fragmentation i result (some []) at t = refl
missing-fragmentation i result (some (c ∷ m)) at t = refl

result-missing :
    (i : Uuid) (result : DatabaseResult) (fragmentation_due : Bool) (at : Time) (t : IndexTables)
    → (persist_result i result true fragmentation_due at t).missing
      ≡ (persist_missing i result result.missing_error at t).missing
unfolding persist_result
result-missing i result true at t =
    fragmentation-missing i result result.fragmentation_error at
      (persist_missing i result result.missing_error at t)
result-missing i result false at t = refl

result-fragmentation :
    (i : Uuid) (result : DatabaseResult) (missing_due : Bool) (at : Time) (t : IndexTables)
    → result.fragmentation_error ≡ none
    → (persist_result i result missing_due true at t).fragmentation
      ≡ replace
          (fragmentation_of i result.database_name)
          (map (fragmentation_snapshot i at) (or_else result.fragmentation_items []))
          t.fragmentation
unfolding persist_result persist_fragmentation mark_index_collection_success
    replace_index_fragmentation_snapshots
result-fragmentation i result true at t h =
    rw (h, missing-fragmentation i result result.missing_error at t) refl
result-fragmentation i result false at t h = rw h refl

-- Where the missing indexes of a database are due and their result has no message, the stored
-- missing indexes of that instance and database become exactly the items of the result, and those of
-- any other stay; the same holds of the fragmentation, whichever else is due. The items are of the
-- result's database.
pub persist_result-IsReplaced :
    (i : Uuid) (result : DatabaseResult) (other_due : Bool) (at : Time) (t : IndexTables)
    → All
        (λ (m : MissingIndexCandidate). m.database_name ≡ result.database_name)
        (or_else result.missing_items [])
    → All
        (λ (m : IndexFragmentationItem). m.database_name ≡ result.database_name)
        (or_else result.fragmentation_items [])
    → (result.missing_error ≡ none
        → IsReplaced missing_place
            (i, result.database_name)
            (map (missing_snapshot i at) (or_else result.missing_items []))
            t.missing
            (persist_result i result true other_due at t).missing)
      × (result.fragmentation_error ≡ none
          → IsReplaced fragmentation_place
              (i, result.database_name)
              (map (fragmentation_snapshot i at) (or_else result.fragmentation_items []))
              t.fragmentation
              (persist_result i result other_due true at t).fragmentation)
unfolding persist_missing mark_index_collection_success replace_missing_index_snapshots
persist_result-IsReplaced i result other_due at t own own' = (
  λ h.
      rw (result-missing i result other_due at t, h)
        (replace-IsReplaced missing_place (i, result.database_name)
          (map (missing_snapshot i at) (or_else result.missing_items [])) t.missing
          (All-of_map (λ x. missing_place x ≡ (i, result.database_name)) (missing_snapshot i at)
            (or_else result.missing_items []) (All-map (λ m q. ap (λ d. (i, d)) q) _ own))),
  λ h. rw (result-fragmentation i result other_due at t h) (
      replace-IsReplaced fragmentation_place (i, result.database_name)
        (map (fragmentation_snapshot i at) (or_else result.fragmentation_items [])) t.fragmentation
        (All-of_map (λ x. fragmentation_place x ≡ (i, result.database_name))
          (fragmentation_snapshot i at) (or_else result.fragmentation_items [])
          (All-map (λ m q. ap (λ d. (i, d)) q) _ own'))),
)
