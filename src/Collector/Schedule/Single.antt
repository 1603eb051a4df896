-- ===== src/Collector/Schedule/Single.antt =====
-- No instance is ever collected by two tasks at a time.
use sql_monitor.Base.{
  ℕ, ◌<◌, ◌≡◌, refl, sym, ◌∙◌, subst, inl, inr, true, false, false≢true, some, List, [], ◌∷◌, map,
  arith, nat_beq, nat_beq_iff, ◌==◌, nat_eq, string_eq, pair_eq, pair_beq_iff, beq_refl, Bool-cases,
  contains, Distinct, All, All-map, All-contains, int_eq, list_eq, Dict, lookup, insert, erase,
  lookup-insert, lookup-erase,
}
use sql_monitor.Auth.{Uuid}
use sql_monitor.Collector.Schedule.{
  Task, Tasks, remove_task, is_running, is_task, schedule, finish, complete, Step, scheduled,
  completed, called_back, Steps, none_yet, then_step,
}

abbrev pub instances : List Task → List Uuid
instances tasks = map (λ (t : Task). t.0) tasks

-- A running task is the one of its instance's entry, and no task runs that is done; tasks are numbered
-- in the order of their start.
pub record IsSchedule (s : Tasks) : Type 0 where
  pub entered : All (λ (t : Task). lookup t.0 s.by_instance ≡ some t.1) s.running
  pub single : Distinct (instances s.running)
  pub over : All (λ (t : Task). contains t s.running ≡ false) s.finished
  pub numbered : All (λ (t : Task). t.1 < s.next) s.finished
  pub running_numbered : All (λ (t : Task). t.1 < s.next) s.running

All-remove_task :
    (P : Task → Type 0) (t : Task) (tasks : List Task) → All P tasks → All P (remove_task t tasks)
All-remove_task P t [] h = tt
All-remove_task P t (u ∷ tasks) h = elim (Bool-cases (t == u)) [
  | inl e ↦ rw e h.1
  | inr e ↦ rw e (h.0, All-remove_task P t tasks h.1)
]

contains-remove_task :
    (i : Uuid) (t : Task) (tasks : List Task)
    → contains i (instances tasks) ≡ false
    → contains i (instances (remove_task t tasks)) ≡ false
contains-remove_task i t [] h = refl
contains-remove_task i t (u ∷ tasks) h = elim (Bool-cases (t == u)) [
  | inl e ↦ rw e (ground arith)
  | inr e ↦ rw e (ground (arith, contains-remove_task i t tasks))
]

remove_task-Distinct :
    (t : Task) (tasks : List Task)
    → Distinct (instances tasks)
    → Distinct (instances (remove_task t tasks))
remove_task-Distinct t [] h = tt
remove_task-Distinct t (u ∷ tasks) h = elim (Bool-cases (t == u)) [
  | inl e ↦ rw e h.1
  | inr e ↦ rw e (contains-remove_task u.0 t tasks h.0, remove_task-Distinct t tasks h.1)
]

-- who is not in the list is not in it with a task less
contains-remove_other :
    (v t : Task) (tasks : List Task)
    → contains v tasks ≡ false
    → contains v (remove_task t tasks) ≡ false
contains-remove_other v t [] h = refl
contains-remove_other v t (u ∷ tasks) h = elim (Bool-cases (t == u)) [
  | inl e ↦ rw e (ground arith)
  | inr e ↦ rw e (ground (arith, contains-remove_other v t tasks))
]

not_instance :
    (t : Task) (tasks : List Task)
    → contains t.0 (instances tasks) ≡ false
    → contains t tasks ≡ false
not_instance t [] h = refl
not_instance (i, n) ((j, m) ∷ tasks) h = ground (arith, not_instance (i, n) tasks)

removed :
    (t : Task) (tasks : List Task)
    → Distinct (instances tasks)
    → contains t (remove_task t tasks) ≡ false
removed t [] h = refl
removed t (u ∷ tasks) h = elim (Bool-cases (t == u)) [
  | inl e ↦
      let same : t ≡ u = (pair_beq_iff t u).0 e in
      rw e (
        not_instance t tasks
          (subst (λ (x : Task). contains x.0 (instances tasks) ≡ false) (sym same) h.0))
  | inr e ↦ rw e (ground (arith, e, removed t tasks h.1))
]

-- an instance that is in the list has a task in it
task_of :
    (i : Uuid) (tasks : List Task)
    → contains i (instances tasks) ≡ true
    → (n : ℕ) × (contains (i, n) tasks ≡ true)
task_of i [] h = cc h
task_of i ((j, n) ∷ tasks) h = elim (Bool-cases (nat_beq i j)) [
  | inl e ↦ (n, ground arith)
  | inr e ↦ let (m, k) = task_of i tasks (ground arith) in (m, ground arith)
]

-- an instance whose entry is not a running task has no running task
idle_instance :
    (i : Uuid) (s : Tasks)
    → IsSchedule s
    → ((n : ℕ) → lookup i s.by_instance ≡ some n → contains (i, n) s.running ≡ false)
    → contains i (instances s.running) ≡ false
idle_instance i s h idle = elim (Bool-cases (contains i (instances s.running))) [
  | inr e ↦ e
  | inl e ↦
      let (n, k) = task_of i s.running e in
      let entry =
        All-contains (λ (t : Task). lookup t.0 s.by_instance ≡ some t.1) (i, n) s.running h.entered
          k in
      absurd (false≢true (sym (idle n entry) ∙ k))
]

entered-insert :
    (i : Uuid) (n : ℕ) (d : Dict Uuid ℕ) (tasks : List Task)
    → contains i (instances tasks) ≡ false
    → All (λ (t : Task). lookup t.0 d ≡ some t.1) tasks
    → All (λ (t : Task). lookup t.0 (insert i n d) ≡ some t.1) tasks
entered-insert i n d [] h k = tt
entered-insert i n d ((j, m) ∷ tasks) h k =
    (ground (arith, lookup-insert i j n d, k.0), entered-insert i n d tasks (ground arith) k.1)

entered-erase :
    (i : Uuid) (d : Dict Uuid ℕ) (tasks : List Task)
    → contains i (instances tasks) ≡ false
    → All (λ (t : Task). lookup t.0 d ≡ some t.1) tasks
    → All (λ (t : Task). lookup t.0 (erase i d) ≡ some t.1) tasks
entered-erase i d [] h k = tt
entered-erase i d ((j, m) ∷ tasks) h k =
    (ground (arith, lookup-erase i j d, k.0), entered-erase i d tasks (ground arith) k.1)

over_next :
    (i : Uuid) (n : ℕ) (running finished : List Task)
    → All (λ (t : Task). contains t running ≡ false) finished
    → All (λ (t : Task). t.1 < n) finished
    → All (λ (t : Task). contains t ((i, n) ∷ running) ≡ false) finished
over_next i n running [] h k = tt
over_next i n running ((j, m) ∷ finished) h k =
    (ground (arith, h.0, k.0), over_next i n running finished h.1 k.1)

schedule-IsSchedule : (i : Uuid) (s : Tasks) → IsSchedule s → IsSchedule (schedule i s).1
unfolding schedule
schedule-IsSchedule i s h = elim (Bool-cases (is_running i (lookup i s.by_instance) s.running)) [
  | inl busy ↦ rw (busy, schedule) h
  | inr idle ↦
      let free = idle_instance i s h (λ n e. rw e at idle) in
      rw (idle, schedule)
        (record {
          entered = (
            rw (lookup-insert i i s.next s.by_instance, beq_refl i) refl,
            entered-insert i s.next s.by_instance s.running free h.entered,
          );
          single = (free, h.single);
          over = over_next i s.next s.running s.finished h.over h.numbered;
          numbered = All-map (λ t le. omega (arith, le)) s.finished h.numbered;
          running_numbered =
              (omega arith, All-map (λ t le. omega (arith, le)) s.running h.running_numbered);
        })
]

complete-IsSchedule :
    (t : Task) (s : Tasks) → contains t s.running ≡ true → IsSchedule s → IsSchedule (complete t s)
unfolding complete
complete-IsSchedule t s runs h = record {
  entered =
      All-remove_task (λ (u : Task). lookup u.0 s.by_instance ≡ some u.1) t s.running h.entered;
  single = remove_task-Distinct t s.running h.single;
  over = (
    removed t s.running h.single,
    All-map (λ u k. contains-remove_other u t s.running k) s.finished h.over,
  );
  numbered =
      (All-contains (λ (u : Task). u.1 < s.next) t s.running h.running_numbered runs, h.numbered);
  running_numbered = All-remove_task (λ (u : Task). u.1 < s.next) t s.running h.running_numbered;
}

-- a callback takes only its own task out of the entries
finished_idle :
    (i : Uuid) (n : ℕ) (s : Tasks)
    → contains (i, n) s.finished ≡ true
    → IsSchedule s
    → is_task (lookup i s.by_instance) n ≡ true
    → contains i (instances s.running) ≡ false
finished_idle i n s done h own = idle_instance i s h (λ m e.
    let mine : is_task (some m) n ≡ true = subst (λ o. is_task o n ≡ true) e own in
    let same : m ≡ n = (nat_beq_iff m n).0 mine in
    subst (λ k. contains (i, k) s.running ≡ false) (sym same)
      (All-contains (λ (t : Task). contains t s.running ≡ false) (i, n) s.finished h.over done))

finish-IsSchedule :
    (t : Task) (s : Tasks) → contains t s.finished ≡ true → IsSchedule s → IsSchedule (finish t s)
unfolding finish
finish-IsSchedule (i, n) s done h = record {
  entered = elim (Bool-cases (is_task (lookup i s.by_instance) n)) [
    | inl own ↦
        rw own (entered-erase i s.by_instance s.running (finished_idle i n s done h own) h.entered)
    | inr other ↦ rw other h.entered
  ];
  single = h.single;
  over = All-remove_task (λ (t : Task). contains t s.running ≡ false) (i, n) s.finished h.over;
  numbered = All-remove_task (λ (t : Task). t.1 < s.next) (i, n) s.finished h.numbered;
  running_numbered = h.running_numbered;
}

Step-IsSchedule : {s t : Tasks} → IsSchedule s → Step s t → IsSchedule t
Step-IsSchedule {s} h (scheduled i) = schedule-IsSchedule i s h
Step-IsSchedule {s} h (completed t runs) = complete-IsSchedule t s runs h
Step-IsSchedule {s} h (called_back t done) = finish-IsSchedule t s done h

abbrev pub no_tasks : Tasks
no_tasks = record { by_instance = []; running = []; finished = []; next = 0 }

-- Whatever the order in which index collections are scheduled, end and have their callbacks called:
-- no two tasks run for one instance at a time, every task that runs is its instance's entry, and a
-- callback that comes late does not take out the entry of a task that runs.
pub Steps-IsSchedule : {s : Tasks} → Steps no_tasks s → IsSchedule s
Steps-IsSchedule none_yet = record {
  entered = tt;
  single = tt;
  over = tt;
  numbered = tt;
  running_numbered = tt;
}
Steps-IsSchedule (then_step steps step) = Step-IsSchedule (Steps-IsSchedule steps) step
