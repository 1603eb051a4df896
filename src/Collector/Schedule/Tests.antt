-- ===== src/Collector/Schedule/Tests.antt =====
-- A task ends, and a second one starts before the first one's callback comes.
use sql_monitor.Base.{◌≡◌, refl, false, [], ◌∷◌, nat_eq, string_eq, pair_eq, int_eq, list_eq}
use sql_monitor.Collector.Schedule.{
  Tasks, schedule, finish, complete, scheduled, completed, called_back, Steps, none_yet, then_step,
}
use sql_monitor.Collector.Schedule.Single.{IsSchedule, no_tasks, Steps-IsSchedule}

abbrev first_run : Tasks
first_run = record { by_instance = (7, 0) ∷ []; running = (7, 0) ∷ []; finished = []; next = 1 }

abbrev second_run : Tasks
second_run = record { by_instance = (7, 1) ∷ []; running = (7, 1) ∷ []; finished = []; next = 2 }

run : Steps no_tasks second_run
unfolding schedule complete finish
run =
    then_step
      (then_step (then_step (then_step none_yet (scheduled 7)) (completed (7, 0) refl))
        (scheduled 7))
      (called_back (7, 0) refl)

refused : (schedule 7 first_run).0 ≡ false
unfolding schedule
refused = refl

Steps-IsSchedule_example : IsSchedule second_run
Steps-IsSchedule_example = Steps-IsSchedule run
