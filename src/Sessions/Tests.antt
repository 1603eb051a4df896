-- ===== src/Sessions/Tests.antt =====
-- The session list of the sample frame.
use sql_monitor.Base.{
  ◌≡◌, refl, true, false, Option, none, some, [], ◌∷◌, map, arith, nat_eq, string_eq, pair_eq, All,
  pos, int_eq, codes, list_eq, IsSorted,
}
use sql_monitor.Auth.{seconds}
use sql_monitor.Snapshots.{frame_ref}
use sql_monitor.Sessions.{
  SessionQuery, desc, by_cpu_time, SessionListItem, SessionListOut, list_sessions, given_frame,
  get_session_detail, to_item,
}
use sql_monitor.Sessions.Sample.{session, request, frame, tables}
use sql_monitor.Sessions.Pages.{items_of, total_of, read_pages, list_sessions-read_pages}
use sql_monitor.Sessions.Filters.{IsListed, item_before, list_sessions-IsListed}

abbrev all_sessions : SessionQuery
all_sessions = record {
  status = none;
  only_blocked = false;
  only_open_transaction = false;
  sort_by = by_cpu_time;
  sort_order = desc;
}

abbrev open_ones : SessionQuery
open_ones = record all_sessions { only_open_transaction = true }

found : given_frame tables 7 none ≡ some (frame_ref frame)
unfolding given_frame frame_ref
found = refl

order :
    map
      (λ (i : SessionListItem). i.session_id)
      (items_of (list_sessions tables 7 all_sessions 1 10 none (seconds 130)))
    ≡ pos 52 ∷ pos 60 ∷ pos 55 ∷ []
unfolding list_sessions
order = refl

second_page :
    map
      (λ (i : SessionListItem). i.session_id)
      (items_of (list_sessions tables 7 all_sessions 2 2 none (seconds 130)))
    ≡ pos 55 ∷ []
unfolding list_sessions
second_page = refl

three : total_of (list_sessions tables 7 all_sessions 1 2 none (seconds 130)) ≡ 3
unfolding list_sessions
three = refl

list_sessions-read_pages_example :
    read_pages tables 7 all_sessions none (seconds 130) 2 2
    ≡ items_of (list_sessions tables 7 all_sessions 1 10 none (seconds 130))
list_sessions-read_pages_example =
    list_sessions-read_pages tables 7 all_sessions none (seconds 130) (frame_ref frame) found 2 2 10
      (omega (arith, three)) (omega (arith, three))

abbrev answer_open : Option SessionListOut
answer_open = list_sessions tables 7 open_ones 1 10 none (seconds 130)

abbrev out_open : SessionListOut
out_open = record {
  instance_id = 7;
  frame_id = 1;
  snapshot_time = seconds 100;
  collect_delay_seconds = 30;
  page = 1;
  page_size = 10;
  total = 2;
  items =
      to_item (session (pos 52) 2 (some 9)) none []
      ∷ to_item (session (pos 55) 1 none) (some (request (pos 55) (some (pos 60))))
          ((codes "h", codes "select 1") ∷ [])
      ∷ [];
}

open_answered : list_sessions tables 7 open_ones 1 10 none (seconds 130) ≡ some out_open
unfolding list_sessions
open_answered = refl

list_sessions-IsListed_example :
    All (IsListed open_ones) (out_open.items)
    × IsSorted (item_before by_cpu_time desc) (out_open.items)
list_sessions-IsListed_example =
    list_sessions-IsListed tables 7 open_ones none (seconds 130) 1 10 out_open open_answered

detail_preview :
    map
      (λ (i : SessionListItem). i.current_sql_preview)
      (elim (get_session_detail tables 7 (pos 55) none) [ none ↦ [] | some i ↦ i ∷ [] ])
    ≡ some (codes "select 1") ∷ []
unfolding get_session_detail
detail_preview = refl
