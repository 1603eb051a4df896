-- ===== src/Sessions/Filters.antt =====
-- Which sessions a page of the session list holds, and in which order.
use sql_monitor.Base.{
  ℕ, ◌-◌, ◌*◌, ◌<◌, ◌≡◌, refl, sym, ap, subst, ◌≢◌, ◌⊎◌, inl, inr, Bool, true, false, false≢true,
  Option, none, some, none≢some, arith, nat_eq, string_eq, pair_eq, Option-cases, is_some, keep,
  slice, All, All-map, All-slice, All-of_map, keep-passes, ℤ, int_eq, leb_ℤ, Text, list_beq_iff,
  list_eq, Dict, some-eq, IsSorted, sort-IsSorted, IsSorted-slice, IsSorted-map, All-sort,
}
use sql_monitor.Auth.{Uuid, Time}
use sql_monitor.Snapshots.{SessionSnapshot, RequestSnapshot, Tables, FrameRef}
use sql_monitor.Sessions.{
  SessionQuery, SessionSortBy, SortOrder, asc, desc, by_session_id, by_cpu_time, by_reads,
  by_writes, by_logical_reads, SessionListItem, SessionListOut, listed, with_requests,
  list_sessions, given_frame, to_item, sql_preview_map, is_listed, status_is, before, sort_value,
  of_request, counter,
}
use sql_monitor.Snapshots.Repository as Repo

-- the conditions of a query, on an item
pub record IsListed (query : SessionQuery) (item : SessionListItem) : Type 0 where
  pub status : (query.status ≡ none) ⊎ (item.status ≡ query.status)
  pub blocked : (query.only_blocked ≡ false) ⊎ (item.blocking_session_id ≢ none)
  pub open_transaction : (query.only_open_transaction ≡ false) ⊎ (0 < item.open_transaction_count)

-- the column of an item that a query sorts by
abbrev pub item_value : SessionSortBy → SessionListItem → ℤ
item_value by_session_id s = s.session_id
item_value by_cpu_time s = counter s.cpu_time
item_value by_reads s = counter s.reads
item_value by_writes s = counter s.writes
item_value by_logical_reads s = counter s.logical_reads

abbrev pub item_before : SessionSortBy → SortOrder → SessionListItem → SessionListItem → Bool
item_before sort_by asc a b = leb_ℤ (item_value sort_by a) (item_value sort_by b)
item_before sort_by desc a b = leb_ℤ (item_value sort_by b) (item_value sort_by a)

abbrev Row : Type 0
Row = SessionSnapshot × Option RequestSnapshot

item_before-to_item :
    (sort_by : SessionSortBy) (order : SortOrder) (previews : Dict Text Text) (p q : Row)
    → item_before sort_by order (to_item p.0 p.1 previews) (to_item q.0 q.1 previews)
      ≡ before sort_by order p q
unfolding to_item before sort_value
item_before-to_item by_session_id asc previews p q = refl
item_before-to_item by_session_id desc previews p q = refl
item_before-to_item by_cpu_time asc previews p q = refl
item_before-to_item by_cpu_time desc previews p q = refl
item_before-to_item by_reads asc previews p q = refl
item_before-to_item by_reads desc previews p q = refl
item_before-to_item by_writes asc previews p q = refl
item_before-to_item by_writes desc previews p q = refl
item_before-to_item by_logical_reads asc previews p q = refl
item_before-to_item by_logical_reads desc previews p q = refl

before_total :
    (sort_by : SessionSortBy) (order : SortOrder) (p q : Row)
    → before sort_by order p q ≡ false
    → before sort_by order q p ≡ true
unfolding before
before_total sort_by asc p q h = ground arith
before_total sort_by desc p q h = ground arith

before_trans :
    (sort_by : SessionSortBy) (order : SortOrder) (p q r : Row)
    → before sort_by order p q ≡ true
    → before sort_by order q r ≡ true
    → before sort_by order p r ≡ true
unfolding before
before_trans sort_by asc p q r h k = ground arith
before_trans sort_by desc p q r h k = ground arith

status_asked :
    (wanted status : Option Text)
    → status_is wanted status ≡ true
    → (wanted ≡ none) ⊎ (status ≡ wanted)
status_asked none status h = inl refl
status_asked (some w) none h = absurd (false≢true h)
status_asked (some w) (some s) h = inr (ap some ((list_beq_iff s w).0 h))

some_given {ℓ} : {A : Type ℓ} (o : Option A) → is_some o ≡ true → o ≢ none
some_given none h q = false≢true h
some_given (some a) h q = none≢some (sym q)

to_item-IsListed :
    (query : SessionQuery) (previews : Dict Text Text) (p : Row)
    → is_listed query p ≡ true
    → IsListed query (to_item p.0 p.1 previews)
unfolding is_listed to_item
to_item-IsListed query previews (s, r) h =
    let status_ok : status_is query.status s.status ≡ true = ground arith in
    let blocker : Option ℤ = of_request r (λ q. q.blocking_session_id) in
    let blocked_ok : (query.only_blocked ≡ false) ⊎ (is_some blocker ≡ true) = ground arith in
    record {
      status = status_asked query.status s.status status_ok;
      blocked = elim blocked_ok [ inl off ↦ inl off | inr on ↦ inr (some_given blocker on) ];
      open_transaction = ground arith;
    }

module _ (t : Tables) (query : SessionQuery) (ref : FrameRef) where
  listed-IsSorted : IsSorted (before query.sort_by query.sort_order) (listed t ref query)
  unfolding listed
  listed-IsSorted =
      sort-IsSorted (before query.sort_by query.sort_order)
        (before_total query.sort_by query.sort_order) (before_trans query.sort_by query.sort_order)
        (keep (is_listed query) (with_requests t ref))

  listed-All : All (λ p. is_listed query p ≡ true) (listed t ref query)
  unfolding listed
  listed-All =
      All-sort (before query.sort_by query.sort_order) (λ p. is_listed query p ≡ true)
        (keep (is_listed query) (with_requests t ref))
        (keep-passes (is_listed query) (with_requests t ref))

module _ (t : Tables) (instance_id : Uuid) (query : SessionQuery) (frame : Option FrameRef)
    (now : Time) where
  -- Every item on a page of the session list meets the conditions of the query: the status asked
  -- for, a blocker, an open transaction, where they are asked; and the page is in the order of the
  -- column and the direction asked for, with a missing value as -1.
  pub list_sessions-IsListed :
      (page page_size : ℕ) (out : SessionListOut)
      → list_sessions t instance_id query page page_size frame now ≡ some out
      → All (IsListed query) out.items
        × IsSorted (item_before query.sort_by query.sort_order) out.items
  unfolding list_sessions
  list_sessions-IsListed page page_size out h =
      elim (Option-cases (given_frame t instance_id frame)) [
        | inl e ↦ absurd (none≢some (rw (e, list_sessions) at h))
        | inr (ref, e) ↦
            let same = some-eq _ out (rw (e, list_sessions) at h) in
            subst
              (λ (o : SessionListOut).
                All (IsListed query) o.items
                × IsSorted (item_before query.sort_by query.sort_order) o.items)
              same
              (let item =
                  λ (p : Row). to_item p.0 p.1 (sql_preview_map t (Repo.list_requests t ref)) in
                let start = (page - 1) * page_size in
                let rows = listed t ref query in
                (
                  All-of_map (IsListed query) item (slice start page_size rows) (
                      All-map
                        (λ p k.
                          to_item-IsListed query (sql_preview_map t (Repo.list_requests t ref)) p k)
                        (slice start page_size rows)
                        (All-slice (λ p. is_listed query p ≡ true) start page_size rows
                          (listed-All t query ref))),
                  IsSorted-map (before query.sort_by query.sort_order)
                      (item_before query.sort_by query.sort_order) item
                      (item_before-to_item query.sort_by query.sort_order
                        (sql_preview_map t (Repo.list_requests t ref)))
                      (slice start page_size rows)
                      (IsSorted-slice (before query.sort_by query.sort_order) start page_size rows
                        (listed-IsSorted t query ref)),
                ))
      ]
