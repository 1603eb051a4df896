-- ===== src/Replay/Whole/Tests.antt =====
-- A replay of the sample's frame.
use sql_monitor.Base.{
  ℕ, ◌≡◌, refl, ◌⊎◌, false, Option, none, some, nat_eq, string_eq, pair_eq, length, All, int_eq,
  list_eq,
}
use sql_monitor.Auth.{Uuid, seconds}
use sql_monitor.Snapshots.{SnapshotFrame, FrameRef}
use sql_monitor.Snapshots.Repository.{in_reach, get_frame_before}
use sql_monitor.Sessions.Sample.{tables}
use sql_monitor.Replay.{ReplayFrameOut, get_replay_frame}
use sql_monitor.Replay.Whole.{IsReplay, get_replay_frame-IsReplay}

abbrev key : Option ReplayFrameOut → Option (Uuid × ℕ)
key none = none
key (some r) = some (r.frame_id, length r.sessions)

found : key (get_replay_frame tables 7 (seconds 105) 10 0) ≡ some (1, 3)
unfolding get_replay_frame
found = refl

too_late : key (get_replay_frame tables 7 (seconds 111) 10 0) ≡ none
unfolding get_replay_frame
too_late = refl

get_replay_frame-IsReplay_example :
    ((get_replay_frame tables 7 (seconds 105) 10 0 ≡ none)
      × All (λ (f : SnapshotFrame). in_reach 7 (seconds 105) 10 f ≡ false) tables.frames)
    ⊎ ((r : ReplayFrameOut) × (ref : FrameRef) × (get_frame_before tables 7 (seconds 105) 10
          ≡ some ref)
        × (get_replay_frame tables 7 (seconds 105) 10 0 ≡ some r)
        × IsReplay tables 7 (seconds 105) r ref)
get_replay_frame-IsReplay_example = get_replay_frame-IsReplay tables 7 (seconds 105) 10 0
