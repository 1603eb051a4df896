-- ===== src/Collector/IndexStore/Interval.antt =====
-- A collection of indexes that succeeds is not due again before its interval is over:
-- `_index_collection_due` of backend/app/collector/real_instance_collector.py.
use sql_monitor.Base.{
  ℕ, ◌+◌, ◌≤◌, ◌<◌, String, ◌≡◌, ap, inl, inr, Bool, true, false, not, ◌&&◌, Option, none, some,
  List, [], ◌∷◌, arith, ◌==◌, nat_eq, string_eq, pair_eq, pair_beq_iff, beq_refl, Bool-cases,
  Option-cases, keep, int_eq, Text, codes, list_eq,
}
use sql_monitor.Auth.{Uuid, Time, seconds}
use sql_monitor.Collector.IndexStore.{
  IndexCollectionStatus, IndexTables, key_of, status_of, DatabaseResult, persist_result,
}
use sql_monitor.Collector.IndexStore.Succeeded.{
  IsSucceeded, missing-IsSucceeded, fragmentation-IsSucceeded,
}
use sql_monitor.Collector.IndexStore.Due.{
  StatusValue, status_values, load_index_collection_statuses, later, latest_success,
  index_collection_due,
}

-- a time that is there and not before another
abbrev pub IsSince : Time → Option Time → Type 0
IsSince at none = ⊥
IsSince at (some l) = at ≤ l

-- the last success of a row
abbrev pub success_at : Option IndexCollectionStatus → Option Time
success_at none = none
success_at (some s) = s.last_success_at

succeeded-IsSince :
    (at : Time) (row : Option IndexCollectionStatus)
    → IsSucceeded at row
    → IsSince at (success_at row)
succeeded-IsSince at none h = h
succeeded-IsSince at (some s) h = rw h.0 (omega arith)

later-left : (at : Time) (a b : Option Time) → IsSince at a → IsSince at (later a b)
later-left at none b h = absurd h
later-left at (some a) none h = h
later-left at (some a) (some b) h = omega (arith, h)

later-right : (at : Time) (a b : Option Time) → IsSince at b → IsSince at (later a b)
later-right at none b h = h
later-right at (some a) none h = absurd h
later-right at (some a) (some b) h = omega (arith, h)

module _ (i : Uuid) (d : Text) (index_type : String) (at : Time)
    (named : (d == codes "*") ≡ false) where
  latest_of : List IndexCollectionStatus → Option Time
  unfolding latest_success status_values
  latest_of statuses =
      latest_success index_type
        (status_values (keep (λ (s : IndexCollectionStatus). s.instance_id == i) statuses))

  step-IsSince :
      (x : IndexCollectionStatus) (statuses : List IndexCollectionStatus)
      → IsSince at (latest_of statuses)
      → IsSince at (latest_of (x ∷ statuses))
  unfolding latest_of
  step-IsSince x statuses h = elim (Bool-cases (x.instance_id == i)) [
    | inl k ↦ elim (Bool-cases (x.index_type == index_type && not (x.database_name == codes "*"))) [
      | inl l ↦ rw (k, l) (later-right at x.last_success_at (latest_of statuses) h)
      | inr l ↦ rw (k, l) h
    ]
    | inr k ↦ rw k h
  ]

  latest-IsSince :
      (statuses : List IndexCollectionStatus)
      → IsSince at (success_at (status_of (i, (d, index_type)) statuses))
      → IsSince at (latest_of statuses)
  unfolding latest_of
  latest-IsSince [] h = absurd h
  latest-IsSince (x ∷ statuses) h = elim (Bool-cases (key_of x == (i, (d, index_type)))) [
    | inl k ↦
        let q : key_of x ≡ (i, (d, index_type)) =
          (pair_beq_iff (key_of x) (i, (d, index_type))).0 k in
        let a : x.instance_id ≡ i = ap (λ p. p.0) q in
        let b : x.database_name ≡ d = ap (λ p. p.1.0) q in
        let c : x.index_type ≡ index_type = ap (λ p. p.1.1) q in
        rw (a, beq_refl i, b, named, c, beq_refl index_type)
          (later-left at x.last_success_at (latest_of statuses) (rw k at h))
    | inr k ↦ step-IsSince x statuses (latest-IsSince statuses (rw k at h))
  ]

due-false :
    (at now : Time) (interval : ℕ) (index_type : String) (statuses : List StatusValue)
    → IsSince at (latest_success index_type statuses)
    → now < at + seconds interval
    → index_collection_due statuses index_type now interval ≡ false
unfolding index_collection_due
due-false at now interval index_type statuses h k =
    elim (Option-cases (latest_success index_type statuses)) [
      | inl q ↦ absurd (rw q at h)
      | inr (l, q) ↦
          let r : at ≤ l = rw q at h in rw (index_collection_due, q) (ground (arith, r, k))
    ]

-- Once the missing indexes, or the fragmentation, of one database of an instance, not named `*`, are
-- stored with success, that kind is not due for the instance before its interval has passed since,
-- with the statuses as they are stored then.
pub persist_result_not_due :
    (i : Uuid) (result : DatabaseResult) (other_due : Bool) (at now : Time) (interval : ℕ)
    (t : IndexTables)
    → (result.database_name == codes "*") ≡ false
    → now < at + seconds interval
    → (result.missing_error ≡ none
        → index_collection_due
            (status_values
              (load_index_collection_statuses i (persist_result i result true other_due at t)))
            "missing"
            now
            interval
          ≡ false)
      × (result.fragmentation_error ≡ none
          → index_collection_due
              (status_values
                (load_index_collection_statuses i (persist_result i result other_due true at t)))
              "fragmentation"
              now
              interval
            ≡ false)
unfolding load_index_collection_statuses latest_of
persist_result_not_due i result other_due at now interval t named early =
    let d = result.database_name in
    let missing = (persist_result i result true other_due at t).statuses in
    let fragmentation = (persist_result i result other_due true at t).statuses in
    (
      λ h.
          due-false at now interval "missing" _
            (latest-IsSince i d "missing" at named missing
              (succeeded-IsSince at _ (missing-IsSucceeded i result other_due at t h)))
            early,
      λ h.
          due-false at now interval "fragmentation" _
            (latest-IsSince i d "fragmentation" at named fragmentation
              (succeeded-IsSince at _ (fragmentation-IsSucceeded i result other_due at t h)))
            early,
    )
