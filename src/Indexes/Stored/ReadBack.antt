-- ===== src/Indexes/Stored/ReadBack.antt =====
-- What a collection of indexes stores and the pages then show: the results of
-- backend/app/collector/real_instance_collector.py read back by
-- backend/app/services/index_service.py.
use sql_monitor.Base.{
  four_places, two_places, IsRounded, four_places-IsRounded, two_places-IsRounded, leb-four_places,
  leb-two_places, ℕ, ◌+◌, ◌≤◌, ◌≡◌, refl, Bool, true, false, none, some, List, [], ◌∷◌, nat_eq,
  string_eq, pair_eq, or_else, length, keep, contains, All, All-map, int_eq, Text, codes, list_eq,
  Unicode,
}
use sql_monitor.Auth.{Uuid, Time, seconds}
use sql_monitor.Instances.Records.{Instance, get_instance}
use sql_monitor.Collector.IndexStore.{
  MissingIndexCandidate, IndexFragmentationItem, MissingIndexSnapshot, IndexFragmentationSnapshot,
  IndexTables, status_of, missing_of, fragmentation_of, missing_snapshot, fragmentation_snapshot,
  DatabaseResult, persist_result,
}
use sql_monitor.Collector.IndexStore.Success.{persist_result-IsReplaced}
use sql_monitor.Collector.IndexStore.Succeeded.{missing-IsSucceeded, fragmentation-IsSucceeded}
use sql_monitor.Indexes.Stored.{
  page_of, is_system, missing_snapshot_item, fragmentation_snapshot_item, descending, snapshot_page,
  get_missing_indexes, get_index_fragmentation, action_or_none, or_one,
}
use sql_monitor.Indexes.Stored.Shown.{Shows, succeeded-Shows}

-- an item as it is read: open to creation, without an error
abbrev pub IsMissingItem : Text → MissingIndexCandidate → Type 0
IsMissingItem database_name m =
    (m.database_name ≡ database_name) × ((m.create_enabled ≡ true) × (m.error_message ≡ none))

-- an item as it is read: partitions count from 1, and an action other than "NONE" is enabled
abbrev pub IsFragmentationItem : Text → IndexFragmentationItem → Type 0
IsFragmentationItem database_name m =
    (m.database_name ≡ database_name)
    × ((or_one m.partition_number ≡ m.partition_number)
        × ((action_or_none m.recommended_action ≡ m.recommended_action)
            × ((m.action_enabled
                  ≡ contains m.recommended_action (codes "REORGANIZE" ∷ codes "REBUILD" ∷ []))
                × (m.error_message ≡ none))))

-- an item as it is shown: its cost and its impact are rounded to the places of their columns
abbrev pub IsMissingShown : MissingIndexCandidate → MissingIndexCandidate → Type 0
IsMissingShown m m' =
    (m' ≡ record m {
      avg_total_user_cost = m'.avg_total_user_cost;
      avg_user_impact = m'.avg_user_impact;
    })
    × IsRounded four_places m.avg_total_user_cost m'.avg_total_user_cost
    × IsRounded two_places m.avg_user_impact m'.avg_user_impact

abbrev pub IsFragmentationShown : IndexFragmentationItem → IndexFragmentationItem → Type 0
IsFragmentationShown m m' =
    (m' ≡ record m { avg_fragmentation_in_percent = m'.avg_fragmentation_in_percent })
    × IsRounded two_places m.avg_fragmentation_in_percent m'.avg_fragmentation_in_percent

missing_back :
    (i : Uuid) (at : Time) (d : Text) (m : MissingIndexCandidate)
    → IsMissingItem d m
    → IsMissingShown m (missing_snapshot_item (missing_snapshot i at m))
unfolding missing_snapshot_item
missing_back i at d m (_, (p, q)) = (
  rw (p, q) refl,
  four_places-IsRounded m.avg_total_user_cost,
  two_places-IsRounded m.avg_user_impact,
)

fragmentation_back :
    (i : Uuid) (at : Time) (d : Text) (m : IndexFragmentationItem)
    → IsFragmentationItem d m
    → IsFragmentationShown m (fragmentation_snapshot_item (fragmentation_snapshot i at m))
unfolding fragmentation_snapshot_item
fragmentation_back i at d m (_, (p, (q, (r, s)))) =
    (rw (p, q, r, s) refl, two_places-IsRounded m.avg_fragmentation_in_percent)

missing_page :
    (u : Unicode) (by_id : MissingIndexSnapshot → MissingIndexSnapshot → Bool)
    (instances : List Instance) (i : Instance) (id : Uuid) (d : Text) (t : IndexTables)
    (page page_size : ℕ) (now : Time)
    → get_instance id instances ≡ some i
    → is_system u d ≡ false
    → get_missing_indexes u by_id instances t id d page page_size now
      ≡ page_of (
          snapshot_page missing_snapshot_item
            (λ s. s.collected_at)
            (descending (λ s. s.avg_total_user_cost) by_id)
            (keep (missing_of id d) t.missing)
            (status_of (id, (d, "missing")) t.statuses)
            page
            page_size
            now
            i.missing_index_collect_interval_seconds)
unfolding get_missing_indexes
missing_page u by_id instances i id d t page page_size now found user =
    rw (get_missing_indexes, found, user)

missing_read :
    (u : Unicode) (by_id : MissingIndexSnapshot → MissingIndexSnapshot → Bool)
    (instances : List Instance) (i : Instance) (id : Uuid) (result : DatabaseResult)
    (other_due : Bool) (at now : Time) (page_size : ℕ) (t : IndexTables)
    → get_instance id instances ≡ some i
    → is_system u result.database_name ≡ false
    → All (IsMissingItem result.database_name) (or_else result.missing_items [])
    → All
        (λ (m : IndexFragmentationItem). m.database_name ≡ result.database_name)
        (or_else result.fragmentation_items [])
    → result.missing_error ≡ none
    → length (or_else result.missing_items []) ≤ page_size
    → now ≤ at + seconds i.missing_index_collect_interval_seconds
    → Shows IsMissingShown
        (λ m. m.avg_total_user_cost)
        (or_else result.missing_items [])
        at
        (get_missing_indexes u by_id instances
          (persist_result id result true other_due at t)
          id
          result.database_name
          1
          page_size
          now)
unfolding missing_snapshot_item
missing_read u by_id instances i id result other_due at now page_size t found user own own' no_error
      fits fresh =
    let d = result.database_name in
    let items = or_else result.missing_items [] in
    let stored = persist_result id result true other_due at t in
    rw (missing_page u by_id instances i id d stored 1 page_size now found user) (
      succeeded-Shows missing_snapshot_item (λ s. s.collected_at) (λ m. m.avg_total_user_cost)
        (λ s. s.avg_total_user_cost) by_id (missing_snapshot id at) IsMissingShown
        (λ x y. leb-four_places x.avg_total_user_cost y.avg_total_user_cost)
        (keep (missing_of id d) stored.missing) items
        (status_of (id, (d, "missing")) stored.statuses) page_size at now
        i.missing_index_collect_interval_seconds
        ((persist_result-IsReplaced id result other_due at t (All-map (λ m h. h.0) items own)
            own').0
          no_error).0
        (All-map (missing_back id at d) items own)
        (missing-IsSucceeded id result other_due at t no_error) fits fresh)

fragmentation_page :
    (u : Unicode) (by_id : IndexFragmentationSnapshot → IndexFragmentationSnapshot → Bool)
    (instances : List Instance) (i : Instance) (id : Uuid) (d : Text) (t : IndexTables)
    (page page_size : ℕ) (now : Time)
    → get_instance id instances ≡ some i
    → is_system u d ≡ false
    → get_index_fragmentation u by_id instances t id d page page_size now
      ≡ page_of (
          snapshot_page fragmentation_snapshot_item
            (λ s. s.collected_at)
            (descending (λ s. s.avg_fragmentation_in_percent) by_id)
            (keep (fragmentation_of id d) t.fragmentation)
            (status_of (id, (d, "fragmentation")) t.statuses)
            page
            page_size
            now
            i.index_fragmentation_collect_interval_seconds)
unfolding get_index_fragmentation
fragmentation_page u by_id instances i id d t page page_size now found user =
    rw (get_index_fragmentation, found, user)

fragmentation_read :
    (u : Unicode) (by_id : IndexFragmentationSnapshot → IndexFragmentationSnapshot → Bool)
    (instances : List Instance) (i : Instance) (id : Uuid) (result : DatabaseResult)
    (other_due : Bool) (at now : Time) (page_size : ℕ) (t : IndexTables)
    → get_instance id instances ≡ some i
    → is_system u result.database_name ≡ false
    → All
        (λ (m : MissingIndexCandidate). m.database_name ≡ result.database_name)
        (or_else result.missing_items [])
    → All (IsFragmentationItem result.database_name) (or_else result.fragmentation_items [])
    → result.fragmentation_error ≡ none
    → length (or_else result.fragmentation_items []) ≤ page_size
    → now ≤ at + seconds i.index_fragmentation_collect_interval_seconds
    → Shows IsFragmentationShown
        (λ m. m.avg_fragmentation_in_percent)
        (or_else result.fragmentation_items [])
        at
        (get_index_fragmentation u by_id instances
          (persist_result id result other_due true at t)
          id
          result.database_name
          1
          page_size
          now)
unfolding fragmentation_snapshot_item
fragmentation_read u by_id instances i id result other_due at now page_size t found user own own'
      no_error fits fresh =
    let d = result.database_name in
    let items = or_else result.fragmentation_items [] in
    let stored = persist_result id result other_due true at t in
    rw (fragmentation_page u by_id instances i id d stored 1 page_size now found user) (
      succeeded-Shows fragmentation_snapshot_item (λ s. s.collected_at)
        (λ m. m.avg_fragmentation_in_percent) (λ s. s.avg_fragmentation_in_percent) by_id
        (fragmentation_snapshot id at) IsFragmentationShown
        (λ x y. leb-two_places x.avg_fragmentation_in_percent y.avg_fragmentation_in_percent)
        (keep (fragmentation_of id d) stored.fragmentation) items
        (status_of (id, (d, "fragmentation")) stored.statuses) page_size at now
        i.index_fragmentation_collect_interval_seconds
        ((persist_result-IsReplaced id result other_due at t own
            (All-map (λ m h. h.0) items own')).1
          no_error).0
        (All-map (fragmentation_back id at d) items own')
        (fragmentation-IsSucceeded id result other_due at t no_error) fits fresh)

-- Where a result of a user database of an instance is stored for the kinds that are due, and has no
-- error for them, the first page of each kind then shows exactly the items of the result, their
-- costs, impacts and percentages rounded to the places of the columns, the greater rounded costs or
-- percentages first, with their number, the time of the collection, the status "success" and no error,
-- and not as stale until the interval of the kind has passed. The items are of the result's database,
-- with the fields that the readers set, and a page holds all of them.
pub get_indexes-persist_result :
    (u : Unicode) (by_id : MissingIndexSnapshot → MissingIndexSnapshot → Bool)
    (by_id' : IndexFragmentationSnapshot → IndexFragmentationSnapshot → Bool)
    (instances : List Instance) (i : Instance) (id : Uuid) (result : DatabaseResult)
    (other_due : Bool) (at now : Time) (page_size : ℕ) (t : IndexTables)
    → get_instance id instances ≡ some i
    → is_system u result.database_name ≡ false
    → All (IsMissingItem result.database_name) (or_else result.missing_items [])
    → All (IsFragmentationItem result.database_name) (or_else result.fragmentation_items [])
    → length (or_else result.missing_items []) ≤ page_size
    → length (or_else result.fragmentation_items []) ≤ page_size
    → (result.missing_error ≡ none
        → now ≤ at + seconds i.missing_index_collect_interval_seconds
        → Shows IsMissingShown
            (λ m. m.avg_total_user_cost)
            (or_else result.missing_items [])
            at
            (get_missing_indexes u by_id instances
              (persist_result id result true other_due at t)
              id
              result.database_name
              1
              page_size
              now))
      × (result.fragmentation_error ≡ none
          → now ≤ at + seconds i.index_fragmentation_collect_interval_seconds
          → Shows IsFragmentationShown
              (λ m. m.avg_fragmentation_in_percent)
              (or_else result.fragmentation_items [])
              at
              (get_index_fragmentation u by_id' instances
                (persist_result id result other_due true at t)
                id
                result.database_name
                1
                page_size
                now))
get_indexes-persist_result u by_id by_id' instances i id result other_due at now page_size t found
      user own own' fits fits' =
    (
      λ no_error fresh.
          missing_read u by_id instances i id result other_due at now page_size t found user own
            (All-map (λ m h. h.0) _ own') no_error fits fresh,
      λ no_error fresh.
          fragmentation_read u by_id' instances i id result other_due at now page_size t found user
            (All-map (λ m h. h.0) _ own) own' no_error fits' fresh,
    )
