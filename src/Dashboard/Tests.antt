-- ===== src/Dashboard/Tests.antt =====
-- The figures and the rates of small frames.
use sql_monitor.Base.{
  ℕ, ◌≡◌, refl, Option, none, some, [], nat_eq, string_eq, pair_eq, int_eq, list_eq,
}
use sql_monitor.Auth.{seconds}
use sql_monitor.Snapshots.{FrameRef}
use sql_monitor.Sessions.Sample.{tables}
use sql_monitor.Dashboard.{DashboardOut, Rate, network_rate, get_dashboard}

abbrev ref : ℕ → Option ℕ → FrameRef
ref at sent = record {
  frame_id = 1;
  instance_id = 7;
  snapshot_time = seconds at;
  collect_duration_ms = 0;
  status = [];
  cpu_load_percent = none;
  memory_usage_percent = none;
  network_bytes_sent_total = sent;
  network_bytes_received_total = none;
}

abbrev sent_rate : Option FrameRef → FrameRef → Option Rate
sent_rate previous current = network_rate previous current (λ f. f.network_bytes_sent_total)

grown : sent_rate (some (ref 10 (some 500))) (ref 15 (some 800)) ≡ some (300, 5000000)
unfolding network_rate
grown = refl

restarted : sent_rate (some (ref 10 (some 500))) (ref 15 (some 80)) ≡ some (0, 1)
unfolding network_rate
restarted = refl

no_time : sent_rate (some (ref 10 (some 500))) (ref 10 (some 800)) ≡ none
unfolding network_rate
no_time = refl

abbrev counts : Option DashboardOut → ℕ × ℕ
counts none = (0, 0)
counts (some d) = (d.metrics.session_count, d.metrics.waiting_request_count)

sample_counts : counts (get_dashboard tables 7 none 5 5 0) ≡ (3, 1)
unfolding get_dashboard
sample_counts = refl
