-- ===== src/Indexes/Stored/Shown.antt =====
-- The first page of stored indexes, backend/app/services/index_service.py, of rows that a collection
-- stored with success.
use sql_monitor.Base.{
  ℕ, ◌+◌, ◌-◌, ◌*◌, ◌≤◌, ◌≡◌, refl, sym, ap, subst, Bool, false, Option, none, some, List, [], ◌∷◌,
  map, Perm, arith, leb, nat_eq, string_eq, pair_eq, length, slice, take_all, All, int_eq, list_eq,
  sort, sort-perm, length-sort, IsSorted, IsSorted-map, sort-coarse,
}
use mathlib.Core.List.Perm
use sql_monitor.Auth.{Time, seconds}
use sql_monitor.Collector.IndexStore.{IndexCollectionStatus}
use sql_monitor.Collector.IndexStore.Succeeded.{IsSucceeded}
use sql_monitor.Indexes.Stored.{Paged, page_of, snapshot_stale, descending, snapshot_page}

-- the greater number first
abbrev pub falling : {A : Type 0} → (A → ℕ) → A → A → Bool
falling value a b = leb (value b) (value a)

-- two lists, element by element
abbrev pub Matches : {A : Type 0} → (A → A → Type 0) → List A → List A → Type 0
Matches R [] [] = Unit
Matches R (x ∷ xs) (y ∷ ys) = R x y × Matches R xs ys
Matches R _ _ = ⊥

-- The page shows the given items as the relation says, the greater numbers first, of a collection that
-- succeeded at the time and still counts.
abbrev pub Shows : {A : Type 0} → (A → A → Type 0) → (A → ℕ) → List A → Time → Paged A → Type 0
Shows {A} R value items at (page_of p) =
    ((shown : List A) × Perm p.items shown × Matches R items shown)
    × (IsSorted (falling value) p.items
        × ((p.total ≡ length items)
            × ((p.checked_at ≡ some at)
                × ((p.collection_status ≡ "success")
                    × ((p.collection_error ≡ none) × (p.stale ≡ false))))))
Shows R value items at _ = ⊥

module _ {A B : Type 0} (item : A → B) (collected_at : A → Time) (value : B → ℕ) (column : A → ℕ)
    (by_id : A → A → Bool) (store : B → A) (R : B → B → Type 0)
    (same : (x y : A) → leb (value (item x)) (value (item y)) ≡ leb (column x) (column y)) where
  abbrev before : A → A → Bool
  before = descending column by_id

  map-Matches :
      (items : List B)
      → All (λ b. R b (item (store b))) items
      → Matches R items (map item (map store items))
  map-Matches [] h = tt
  map-Matches (b ∷ items) h = (h.0, map-Matches items h.1)

  length-map : (items : List B) → length (map store items) ≡ length items
  length-map [] = refl
  length-map (b ∷ items) = omega (arith, length-map items)

  shown-IsSorted : (rows : List A) → IsSorted (falling value) (map item (sort before rows))
  shown-IsSorted rows =
      IsSorted-map (falling column) (falling value) item (λ x y. same y x) (sort before rows)
        (sort-coarse before (falling column) (λ x y h. ground (arith, h))
          (λ x y h. ground (arith, h)) (λ x y z h k. ground (arith, h, k)) rows)

  stale-false :
      (checked_at : Option Time) (at now : Time) (interval : ℕ)
      → checked_at ≡ some at
      → now ≤ at + seconds interval
      → snapshot_stale checked_at now interval ≡ false
  unfolding snapshot_stale
  stale-false checked_at at now interval h k = rw h (ground (arith, k))

  pub succeeded-Shows :
      (rows : List A) (items : List B) (status : Option IndexCollectionStatus) (page_size : ℕ)
      (at now : Time) (interval : ℕ)
      → rows ≡ map store items
      → All (λ b. R b (item (store b))) items
      → IsSucceeded at status
      → length items ≤ page_size
      → now ≤ at + seconds interval
      → Shows R value items at
          (page_of (snapshot_page item collected_at before rows status 1 page_size now interval))
  unfolding snapshot_page
  succeeded-Shows rows items none page_size at now interval stored back succeeded fits fresh =
      absurd succeeded
  succeeded-Shows rows items (some s) page_size at now interval stored back succeeded fits fresh =
      let n : length rows ≡ length items = rw stored (length-map items) in
      let start : 0 ≡ (1 - 1) * page_size = omega arith in
      let fits' : length (sort before rows) ≤ page_size =
        omega (arith, length-sort before rows, n, fits) in
      let all : slice ((1 - 1) * page_size) page_size (sort before rows) ≡ sort before rows =
        rw (sym start) (take_all page_size (sort before rows) fits') in
      (
        (
          map item (map store items),
          rw all (
              subst (λ ys. Perm (map item (sort before rows)) ys) (ap (map item) stored)
                (Perm.map item (sort-perm before rows))),
          map-Matches items back,
        ),
        (
          rw all (shown-IsSorted rows),
          (
            n,
            (
              succeeded.0,
              (
                succeeded.1.0,
                (succeeded.1.1, stale-false s.last_success_at at now interval succeeded.0 fresh),
              ),
            ),
          ),
        ),
      )
