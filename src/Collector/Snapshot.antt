-- ===== src/Collector/Snapshot.antt =====
-- The sessions, requests, texts and figures of a frame: the parts that
-- backend/app/collector/real_instance_collector.py builds from the rows of a server beside those of
-- Collector.Frame. The ids of the new rows are left out, as in the tables. A
-- percentage of a server's row is a float, in units of 10^-12.
pub mod Collect
pub mod Store
pub mod Belongs
pub mod ReadBack
pub mod Outcome
pub mod Counting
mod Tests
use sql_monitor.Base.{
  numeric, two_places, ℕ, Bool, true, false, Option, none, some, List, [], ◌∷◌, ◌++◌, nat_eq,
  string_eq, pair_eq, or_else, ℤ, int_eq, Text, list_eq, Unicode, Dict, insert, row_of, upsert,
}
use sql_monitor.Auth.{Uuid, Time, Crypto}
use sql_monitor.SqlTexts.{Literals, preview_sql, sql_hash, normalized_sql_hash}
use sql_monitor.Snapshots.{SessionSnapshot, RequestSnapshot, SqlText}
use sql_monitor.Collector.Frame.{SessionRow, normalize_row_blocker}

-- a row that SESSION_REQUEST_SQL answers
pub record ServerRow : Type 0 where
  pub session_id : Option ℤ
  pub login_name : Option Text
  pub host_name : Option Text
  pub program_name : Option Text
  pub database_name : Option Text
  pub session_status : Option Text
  pub open_transaction_count : Option ℕ
  pub login_time : Option Time
  pub last_request_start_time : Option Time
  pub last_request_end_time : Option Time
  pub session_cpu_time : Option ℕ
  pub session_reads : Option ℕ
  pub session_writes : Option ℕ
  pub session_logical_reads : Option ℕ
  pub request_id : Option ℕ
  pub request_status : Option Text
  pub command : Option Text
  pub start_time : Option Time
  pub request_cpu_time_ms : Option ℕ
  pub total_elapsed_time_ms : Option ℕ
  pub request_reads : Option ℕ
  pub request_writes : Option ℕ
  pub request_logical_reads : Option ℕ
  pub row_count : Option ℕ
  pub wait_type : Option Text
  pub wait_time_ms : Option ℕ
  pub blocking_session_id : Option ℤ
  pub percent_complete : Option ℕ
  pub plan_handle : Option Text
  pub statement_start_offset : Option ℤ
  pub statement_end_offset : Option ℤ
  pub sql_text : Option Text

-- what the blocking edges are built from
abbrev pub session_row : ServerRow → SessionRow
session_row row = record {
  session_id = row.session_id;
  blocking_session_id = row.blocking_session_id;
  wait_type = row.wait_type;
  wait_time_ms = row.wait_time_ms;
}

-- a text that is not empty
abbrev pub given_text : Option Text → Option Text
given_text none = none
given_text (some []) = none
given_text (some (c ∷ s)) = some (c ∷ s)

-- What the hashes are computed with.
pub record Hashing : Type 0 where
  pub unicode : Unicode
  pub literals : Literals
  pub crypto : Crypto

-- the sessions, the requests, and the texts by their hashes
abbrev pub Built : Type 0
Built = List SessionSnapshot × List RequestSnapshot × Dict Text SqlText

module _ (h : Hashing) where
  -- `sql_hash(row_sql_text) if row_sql_text else None`
  unfoldable pub row_sql_hash : Option Text → Option Text
  unfolding sql_hash
  row_sql_hash none = none
  row_sql_hash (some []) = none
  row_sql_hash (some (c ∷ s)) = some (sql_hash h.unicode h.literals h.crypto (some (c ∷ s)))

  -- where both the text and its hash are not empty
  unfoldable pub row_normalized_hash : Option Text → Option Text
  unfolding row_sql_hash normalized_sql_hash
  row_normalized_hash sql_text = elim (given_text (row_sql_hash sql_text)) [
    | none ↦ none
    | some s ↦ some (normalized_sql_hash h.unicode h.literals h.crypto sql_text)
  ]

  module _ (frame_id instance_id : Uuid) (snapshot_time : Time) where
    abbrev sql_text_of : Text → Text → SqlText
    sql_text_of row_sql_hash row_sql_text = record {
      sql_hash = row_sql_hash;
      normalized_sql_hash =
          some (normalized_sql_hash h.unicode h.literals h.crypto (some row_sql_text));
      sql_text = row_sql_text;
      sql_preview = some (preview_sql h.unicode (some row_sql_text) 512);
      first_seen_at = snapshot_time;
      last_seen_at = snapshot_time;
    }

    -- `sql_texts[row_sql_hash] = SqlText(...)`
    unfoldable pub add_sql_text : Option Text → Dict Text SqlText → Dict Text SqlText
    unfolding row_sql_hash normalized_sql_hash preview_sql
    add_sql_text sql_text sql_texts = elim (given_text (row_sql_hash sql_text)) [
      | none ↦ sql_texts
      | some s ↦ insert s (sql_text_of s (or_else sql_text [])) sql_texts
    ]

    unfoldable pub session_snapshot : ServerRow → ℤ → SessionSnapshot
    unfolding row_sql_hash
    session_snapshot row session_id = record {
      frame_id = frame_id;
      instance_id = instance_id;
      snapshot_time = snapshot_time;
      session_id = session_id;
      login_name = row.login_name;
      host_name = row.host_name;
      program_name = row.program_name;
      database_name = row.database_name;
      status = row.session_status;
      open_transaction_count = or_else row.open_transaction_count 0;
      login_time = row.login_time;
      last_request_start_time = row.last_request_start_time;
      last_request_end_time = row.last_request_end_time;
      cpu_time = row.session_cpu_time;
      reads = row.session_reads;
      writes = row.session_writes;
      logical_reads = row.session_logical_reads;
      current_sql_hash = row_sql_hash row.sql_text;
    }

    abbrev to_numeric : Option ℕ → Option ℕ
    to_numeric none = none
    to_numeric (some x) = some (numeric two_places x)

    unfoldable pub request_snapshot : ServerRow → ℤ → RequestSnapshot
    unfolding row_sql_hash row_normalized_hash normalize_row_blocker
    request_snapshot row session_id = record {
      frame_id = frame_id;
      instance_id = instance_id;
      snapshot_time = snapshot_time;
      session_id = session_id;
      request_id = row.request_id;
      database_name = row.database_name;
      status = row.request_status;
      command = row.command;
      start_time = row.start_time;
      duration_ms = row.total_elapsed_time_ms;
      cpu_time_ms = row.request_cpu_time_ms;
      total_elapsed_time_ms = row.total_elapsed_time_ms;
      reads = row.request_reads;
      writes = row.request_writes;
      logical_reads = row.request_logical_reads;
      row_count = row.row_count;
      wait_type = row.wait_type;
      wait_time_ms = row.wait_time_ms;
      blocking_session_id = normalize_row_blocker row.blocking_session_id;
      percent_complete = to_numeric row.percent_complete;
      sql_hash = row_sql_hash row.sql_text;
      normalized_sql_hash = row_normalized_hash row.sql_text;
      plan_handle = row.plan_handle;
      statement_start_offset = row.statement_start_offset;
      statement_end_offset = row.statement_end_offset;
    }

    -- one row: a session, and a request if it has a request's id
    unfoldable pub build_row : ServerRow → ℤ → Built → Built
    unfolding add_sql_text session_snapshot request_snapshot
    build_row row session_id (sessions, requests, sql_texts) = (
      sessions ++ session_snapshot row session_id ∷ [],
      elim row.request_id [
        | none ↦ requests
        | some request_id ↦ requests ++ request_snapshot row session_id ∷ []
      ],
      add_sql_text row.sql_text sql_texts,
    )

    -- The loop. A row without a session is a row that the tables refuse, so that nothing of the frame
    -- is stored: it is `none`.
    unfoldable pub build_rows : List ServerRow → Built → Option Built
    unfolding build_row
    build_rows [] built = some built
    build_rows (row ∷ rows) built = elim row.session_id [
      | none ↦ none
      | some session_id ↦ build_rows rows (build_row row session_id built)
    ]

    -- `_build_session_and_request_snapshots`
    unfoldable pub build_session_and_request_snapshots : List ServerRow → Option Built
    unfolding build_rows
    build_session_and_request_snapshots rows = build_rows rows ([], [], [])

-- a row that RESOURCE_SQL answers
pub record ResourceRow : Type 0 where
  pub cpu_load_percent : Option ℕ
  pub memory_usage_percent : Option ℕ
  pub network_bytes_sent_total : Option ℕ
  pub network_bytes_received_total : Option ℕ

-- `_resource_metrics`: the first row, or nothing of each
unfoldable pub resource_metrics : List ResourceRow → ResourceRow
resource_metrics [] = record {
  cpu_load_percent = none;
  memory_usage_percent = none;
  network_bytes_sent_total = none;
  network_bytes_received_total = none;
}
resource_metrics (row ∷ rows) = row

-- `_collect_resource_metrics`; `none` is a query that raises
unfoldable pub collect_resource_metrics : Option (List ResourceRow) → ResourceRow × Bool
unfolding resource_metrics
collect_resource_metrics none = (resource_metrics [], false)
collect_resource_metrics (some rows) = (resource_metrics rows, true)

-- `_persist_sql_texts`: a text that is known keeps when it was first seen
unfoldable pub persist_sql_texts : List SqlText → List SqlText → List SqlText
persist_sql_texts [] table = table
persist_sql_texts (t ∷ sql_texts) table =
    persist_sql_texts sql_texts (elim (row_of (λ (r : SqlText). r.sql_hash) t.sql_hash table) [
      | none ↦ table ++ t ∷ []
      | some known ↦
          upsert (λ (r : SqlText). r.sql_hash) t.sql_hash t
            (λ r. record t { first_seen_at = r.first_seen_at }) table
    ])
