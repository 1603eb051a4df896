-- ===== src/Collector/Schedule.antt =====
-- backend/app/collector/main.py: the background tasks of the index collection of each
-- instance. The event loop completes tasks and calls their callbacks later, in any order.
pub mod Single
mod Tests
use sql_monitor.Base.{
  ℕ, suc, ◌≡◌, Bool, true, false, Option, none, some, List, [], ◌∷◌, if◌then◌else◌, ◌==◌, nat_eq,
  string_eq, pair_eq, contains, int_eq, list_eq, Dict, lookup, insert, erase,
}
use sql_monitor.Auth.{Uuid}

-- a task of an instance, by its number
abbrev pub Task : Type 0
Task = Uuid × ℕ

-- `_index_collection_tasks`; the tasks that are not done, those that are done and whose callback is
-- still to come, and the number of the next task
pub record Tasks : Type 0 where
  pub by_instance : Dict Uuid ℕ
  pub running : List Task
  pub finished : List Task
  pub next : ℕ

abbrev pub remove_task : Task → List Task → List Task
remove_task t [] = []
remove_task t (u ∷ tasks) = let rest = remove_task t tasks in if t == u then tasks else u ∷ rest

abbrev pub is_running : Uuid → Option ℕ → List Task → Bool
is_running instance_id none running = false
is_running instance_id (some task) running = contains (instance_id, task) running

-- `schedule_index_collection_for_instance`
unfoldable pub schedule : Uuid → Tasks → Bool × Tasks
schedule instance_id s =
    if is_running instance_id (lookup instance_id s.by_instance) s.running then (false, s) else (
      true,
      record s {
        by_instance = insert instance_id s.next s.by_instance;
        running = (instance_id, s.next) ∷ s.running;
        next = suc s.next;
      },
    )

abbrev pub is_task : Option ℕ → ℕ → Bool
is_task none task = false
is_task (some t) task = t == task

-- `_finish_index_collection_task`, the callback
unfoldable pub finish : Task → Tasks → Tasks
finish (instance_id, task) s = record s {
  by_instance =
      if is_task (lookup instance_id s.by_instance) task
      then erase instance_id s.by_instance
      else s.by_instance;
  finished = remove_task (instance_id, task) s.finished;
}

-- A task ends: it is done, and its callback is to come.
unfoldable pub complete : Task → Tasks → Tasks
complete t s = record s { running = remove_task t s.running; finished = t ∷ s.finished }

-- what the collector and its event loop may do next
pub data Step (s : Tasks) : Tasks → Type 0 where
  scheduled : (instance_id : Uuid) → Step s (schedule instance_id s).1
  completed : (t : Task) → contains t s.running ≡ true → Step s (complete t s)
  called_back : (t : Task) → contains t s.finished ≡ true → Step s (finish t s)

pub data Steps : Tasks → Tasks → Type 0 where
  none_yet : {s : Tasks} → Steps s s
  then_step : {s t u : Tasks} → Steps s t → Step t u → Steps s u
