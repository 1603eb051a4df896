-- ===== src/Sessions/Pages.antt =====
-- Reading the pages of the session list one after another.
use sql_monitor.Base.{
  ℕ, zero, suc, ◌+◌, ◌-◌, ◌*◌, ◌≤◌, ◌≡◌, refl, sym, ap, ◌∙◌, subst, Option, none, some, List, [],
  ◌++◌, map, map-append, arith, nat_eq, string_eq, pair_eq, length, take, slice, take-drop,
  take_all, int_eq, list_eq,
}
use sql_monitor.Auth.{Uuid, Time}
use sql_monitor.Snapshots.{SessionSnapshot, RequestSnapshot, Tables, FrameRef}
use sql_monitor.Sessions.{
  SessionQuery, SessionListItem, SessionListOut, listed, list_sessions, given_frame, to_item,
  sql_preview_map,
}
use sql_monitor.Snapshots.Repository as Repo

-- the items of an answer
abbrev pub items_of : Option SessionListOut → List SessionListItem
items_of none = []
items_of (some out) = out.items

abbrev pub total_of : Option SessionListOut → ℕ
total_of none = 0
total_of (some out) = out.total

module _ (t : Tables) (instance_id : Uuid) (query : SessionQuery) (frame : Option FrameRef)
    (now : Time) where
  -- the pages from the first to the n-th, put together
  unfoldable pub read_pages : ℕ → ℕ → List SessionListItem
  unfolding list_sessions
  read_pages page_size zero = []
  read_pages page_size (suc n) =
      read_pages page_size n
      ++ items_of (list_sessions t instance_id query (suc n) page_size frame now)

  module _ (ref : FrameRef) (found : given_frame t instance_id frame ≡ some ref) where
    abbrev item : SessionSnapshot × Option RequestSnapshot → SessionListItem
    item p = to_item p.0 p.1 (sql_preview_map t (Repo.list_requests t ref))

    page_items :
        (page page_size : ℕ)
        → items_of (list_sessions t instance_id query page page_size frame now)
          ≡ map item (slice ((page - 1) * page_size) page_size (listed t ref query))
    unfolding list_sessions
    page_items page page_size = rw (found, items_of, list_sessions)

    page_total :
        (page page_size : ℕ)
        → total_of (list_sessions t instance_id query page page_size frame now)
          ≡ length (listed t ref query)
    unfolding list_sessions
    page_total page page_size = rw (found, total_of, list_sessions)

    first_pages :
        (page_size n : ℕ)
        → read_pages page_size n ≡ map item (take (n * page_size) (listed t ref query))
    unfolding read_pages
    first_pages page_size zero =
        let e : 0 ≡ 0 * page_size = omega arith in
        subst (λ k. [] ≡ map item (take k (listed t ref query))) e refl
    first_pages page_size (suc n) =
        let filtered = listed t ref query in
        let one : suc n - 1 ≡ n = omega arith in
        let start : (suc n - 1) * page_size ≡ n * page_size = ap (λ k. k * page_size) one in
        let next : n * page_size + page_size ≡ suc n * page_size = omega arith in
        rw (
          first_pages page_size n,
          page_items (suc n) page_size,
          start,
          sym (
              map-append item (take (n * page_size) filtered)
                (slice (n * page_size) page_size filtered)),
          take-drop (n * page_size) page_size filtered,
          next,
        )

    all_pages :
        (page_size n : ℕ)
        → length (listed t ref query) ≤ n * page_size
        → read_pages page_size n ≡ map item (listed t ref query)
    all_pages page_size n h =
        rw (first_pages page_size n)
          (ap (map item) (take_all (n * page_size) (listed t ref query) h))

    one_page :
        (size : ℕ)
        → length (listed t ref query) ≤ size
        → items_of (list_sessions t instance_id query 1 size frame now)
          ≡ map item (listed t ref query)
    one_page size h =
        let start : 0 ≡ (1 - 1) * size = omega arith in
        rw (page_items 1 size, sym start, take_all size (listed t ref query) h)

    -- If a frame is found, reading the pages of a size one after another, as many as the total
    -- needs, gives the same items in the same order as one page that is large enough for all.
    pub list_sessions-read_pages :
        (page_size n size : ℕ)
        → total_of (list_sessions t instance_id query 1 page_size frame now) ≤ n * page_size
        → total_of (list_sessions t instance_id query 1 page_size frame now) ≤ size
        → read_pages page_size n ≡ items_of (list_sessions t instance_id query 1 size frame now)
    list_sessions-read_pages page_size n size enough fits =
        let total = page_total 1 page_size in
        all_pages page_size n (rw total at enough) ∙ sym (one_page size (rw total at fits))
