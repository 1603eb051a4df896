-- ===== src/Snapshots/Repository/Tests.antt =====
-- The lookups by time on three frames of two instances.
use sql_monitor.Base.{
  ℕ, ◌+◌, ◌≤◌, ◌≡◌, refl, ◌⊎◌, false, none, some, [], ◌∷◌, nat_eq, string_eq, pair_eq, All, int_eq,
  codes, list_eq,
}
use sql_monitor.Auth.{Uuid, seconds}
use sql_monitor.Snapshots.{SnapshotFrame, Tables, frame_ref}
use sql_monitor.Snapshots.Repository.{in_reach, get_frame_before, get_latest_frame}
use sql_monitor.Snapshots.Repository.Latest.{get_frame_before_latest}

abbrev frame : Uuid → Uuid → ℕ → SnapshotFrame
frame id instance_id at = record {
  id = id;
  instance_id = instance_id;
  snapshot_time = seconds at;
  collect_duration_ms = 12;
  status = codes "success";
  cpu_load_percent = some 1250;
  memory_usage_percent = none;
  network_bytes_sent_total = some 100;
  network_bytes_received_total = none;
}

abbrev tables : Tables
tables = record {
  frames = frame 1 7 100 ∷ frame 2 7 130 ∷ frame 3 8 135 ∷ [];
  sessions = [];
  requests = [];
  waits = [];
  blocking_rows = [];
  sql_texts = [];
}

frame_found : get_frame_before tables 7 (seconds 140) 60 ≡ some (frame_ref (frame 2 7 130))
unfolding get_frame_before frame_ref
frame_found = refl

get_frame_before_latest_example :
    ((frame_ref (frame 2 7 130)).instance_id ≡ 7)
    × ((frame_ref (frame 2 7 130)).snapshot_time ≤ seconds 140)
    × (seconds 140 ≤ (frame_ref (frame 2 7 130)).snapshot_time + seconds 60)
    × All
        (λ (g : SnapshotFrame).
          (in_reach 7 (seconds 140) 60 g ≡ false)
          ⊎ (g.snapshot_time ≤ (frame_ref (frame 2 7 130)).snapshot_time))
        (tables.frames)
get_frame_before_latest_example =
    get_frame_before_latest tables 7 (seconds 140) 60 (frame_ref (frame 2 7 130)) frame_found

no_frame : get_frame_before tables 7 (seconds 300) 60 ≡ none
unfolding get_frame_before frame_ref
no_frame = refl

latest_of_an_instance : get_latest_frame tables 7 ≡ some (frame_ref (frame 2 7 130))
unfolding get_latest_frame frame_ref
latest_of_an_instance = refl
