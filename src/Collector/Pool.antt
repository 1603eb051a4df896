-- ===== src/Collector/Pool.antt =====
-- `_collect_index_databases_concurrently` of backend/app/collector/real_instance_collector.py: the
-- databases of a server are read by threads, each with a deadline, of which at most so many are waited
-- for at a time. A thread's work is its result, whenever it ends; a thread that is given up may go on
-- without being counted, as in the code. The clock and what `wait` returns are arguments; times are in
-- microseconds.
pub mod Invariant
pub mod Timed
pub mod Progress
pub mod Ends
mod Tests
use sql_monitor.Base.{
  ◌+◌, is_some, ℕ, zero, suc, ◌-◌, min, max, Bool, true, false, Option, none, some, List, [], ◌∷◌,
  ◌++◌, map, leb, nat_beq, if◌then◌else◌, nat_eq, string_eq, pair_eq, length, keep, find, int_eq,
  Text, list_eq,
}

-- what a call returns, or the message that `_index_collection_error_message` makes of its exception
pub data Try {ℓ} (A : Type ℓ) : Type ℓ where
  ok : A → Try A
  raised : Text → Try A

pub record IndexDatabaseCollectionResult (Missing Fragmentation : Type 0) : Type 0 where
  pub database_name : Text
  pub missing_items : Option (List Missing)
  pub missing_error : Option Text
  pub fragmentation_items : Option (List Fragmentation)
  pub fragmentation_scanned : ℕ
  pub fragmentation_error : Option Text

-- What the collection is given: the two kinds of items and whether one has an action, the client,
-- the two listings, which of them are due, and the message of a timeout.
pub record Source : Type 1 where
  pub Missing : Type 0
  pub Fragmentation : Type 0
  pub Client : Type 0
  pub action_enabled : Fragmentation → Bool
  pub client_factory : Text → Try Client
  pub list_missing_indexes : Client → Text → Try (List Missing)
  pub list_index_fragmentation : Client → Text → Try (List Fragmentation)
  pub missing_due : Bool
  pub fragmentation_due : Bool
  pub timeout_message : Text

abbrev pub items_of {ℓ} : {A : Type ℓ} → Bool → Try A → Option A
items_of due (raised message) = none
items_of due (ok items) = if due then some items else none

abbrev pub error_of {ℓ} : {A : Type ℓ} → Bool → Try A → Option Text
error_of due (ok items) = none
error_of due (raised message) = if due then some message else none

-- `message if due else None`
abbrev pub if_due : Bool → Text → Option Text
if_due due message = if due then some message else none

abbrev pub count_of {ℓ} : {A : Type ℓ} → Option (List A) → ℕ
count_of none = 0
count_of (some xs) = length xs

module _ (source : Source) where
  abbrev pub Result : Type 0
  Result = IndexDatabaseCollectionResult source.Missing source.Fragmentation

  abbrev enabled_items : Option (List source.Fragmentation) → Option (List source.Fragmentation)
  enabled_items none = none
  enabled_items (some xs) = some (keep source.action_enabled xs)

  -- `_timed_out_index_database_result`
  unfoldable pub timed_out_result : Text → Result
  timed_out_result name = record {
    database_name = name;
    missing_items = none;
    missing_error = if_due source.missing_due source.timeout_message;
    fragmentation_items = none;
    fragmentation_scanned = 0;
    fragmentation_error = if_due source.fragmentation_due source.timeout_message;
  }

  -- `_collect_one_index_database` from the client on: a listing that is not due is not called
  unfoldable pub collect_with : Text → Try source.Client → Result
  collect_with name (raised message) = record {
    database_name = name;
    missing_items = none;
    missing_error = if_due source.missing_due message;
    fragmentation_items = none;
    fragmentation_scanned = 0;
    fragmentation_error = if_due source.fragmentation_due message;
  }
  collect_with name (ok client) =
      let missing = source.list_missing_indexes client name in
      let fragmentation = source.list_index_fragmentation client name in
      let all_items = items_of source.fragmentation_due fragmentation in
      record {
        database_name = name;
        missing_items = items_of source.missing_due missing;
        missing_error = error_of source.missing_due missing;
        fragmentation_items = enabled_items all_items;
        fragmentation_scanned = count_of all_items;
        fragmentation_error = error_of source.fragmentation_due fragmentation;
      }

  unfoldable pub collect_one : Text → Text → Result
  unfolding collect_with
  collect_one connection_string name = collect_with name (source.client_factory connection_string)

-- a future with its database, and when it was submitted
pub record Active : Type 0 where
  pub future : ℕ
  pub database_name : Text
  pub started_at : ℕ

-- The state of the loop: the databases that the iterator still holds, the dict of active futures,
-- what was yielded, how often the clock was read, which also numbers the futures, and how long `wait`
-- has waited in vain.
pub record Pool (R : Type 0) : Type 0 where
  pub pending : List Text
  pub active : List Active
  pub yielded : List R
  pub readings : ℕ
  pub waited : ℕ

-- Where the loop runs: the clock, reading by reading, less the time for which `wait` has waited in
-- vain; which futures `wait` finds done, round by round; the timeout that is asked for.
pub record Limits : Type 0 where
  pub monotonic : ℕ → ℕ
  pub done : ℕ → List ℕ
  pub timeout : ℕ

-- `time.monotonic()`, at its next reading
abbrev pub clock : {R : Type 0} → Limits → Pool R → ℕ
clock limits p = limits.monotonic p.readings + p.waited

-- `max(0.001, float(timeout_seconds))`
abbrev pub timeout_of : Limits → ℕ
timeout_of limits = max 1000 limits.timeout

-- the time until the first timeout
abbrev pub next_timeout : Limits → ℕ → List Active → ℕ
next_timeout limits now [] = timeout_of limits
next_timeout limits now (a ∷ active) =
    min (timeout_of limits - (now - a.started_at)) (next_timeout limits now active)

-- the timeout of `wait`
abbrev pub wait_timeout : Limits → ℕ → List Active → ℕ
wait_timeout limits now active = min 500000 (max 1000 (next_timeout limits now active))

abbrev pub is_active : List Active → ℕ → Bool
is_active active f = is_some (find (λ (a : Active). nat_beq f a.future) active)

abbrev pub remove : ℕ → List Active → List Active
remove f [] = []
remove f (a ∷ active) =
    let rest = remove f active in if nat_beq f a.future then active else a ∷ rest

module _ (source : Source) (connection_string : Text) (limits : Limits) where
  -- `submit_next_database`
  unfoldable pub submit_next : List Text → Pool (Result source) → Pool (Result source)
  submit_next [] p = p
  submit_next (name ∷ pending) p = record p {
    pending = pending;
    active =
        p.active
        ++ record { future = p.readings; database_name = name; started_at = clock limits p } ∷ [];
    readings = suc p.readings;
  }

  -- the first submissions, until there is no database left
  unfoldable pub submit_first : ℕ → Pool (Result source) → Pool (Result source)
  unfolding submit_next
  submit_first zero p = p
  submit_first (suc n) p = submit_first n (submit_next p.pending p)

  -- a future leaves the pool, its result is yielded, and the next database is submitted
  unfoldable pub settle_one :
      (Text → Result source) → ℕ → Pool (Result source) → Pool (Result source)
  unfolding submit_next
  settle_one result f p = elim (find (λ (a : Active). nat_beq f a.future) p.active) [
    | none ↦ p
    | some a ↦ submit_next p.pending (record p {
      active = remove f p.active;
      yielded = p.yielded ++ result a.database_name ∷ [];
    })
  ]

  unfoldable pub settle :
      (Text → Result source) → List ℕ → Pool (Result source) → Pool (Result source)
  unfolding settle_one
  settle result [] p = p
  settle result (f ∷ futures) p = settle result futures (settle_one result f p)

  -- the futures that have been active for the timeout
  unfoldable pub timed_out : ℕ → List Active → List ℕ
  timed_out now active =
      map (λ (a : Active). a.future)
        (keep (λ (a : Active). leb (timeout_of limits) (now - a.started_at)) active)

  -- What `wait` returns: the futures that are done, or nothing, after its timeout.
  abbrev pub await : ℕ → List ℕ → Pool (Result source) → Pool (Result source)
  await now [] p = record p { waited = p.waited + wait_timeout limits now p.active }
  await now (f ∷ futures) p = settle (collect_one source connection_string) (f ∷ futures) p

  abbrev pub choose : ℕ → ℕ → List ℕ → Pool (Result source) → Pool (Result source)
  choose k now [] p = await now (keep (is_active p.active) (limits.done k)) p
  choose k now (f ∷ futures) p = settle (timed_out_result source) (f ∷ futures) p

  -- one round of the `while`: those that are late, or else those that `wait` says are done
  unfoldable pub round : ℕ → Pool (Result source) → Pool (Result source)
  unfolding settle timed_out timed_out_result collect_one
  round k p =
      choose k (clock limits p) (timed_out (clock limits p) p.active)
        (record p { readings = suc p.readings })

  abbrev pub is_idle : List Active → Bool
  is_idle [] = true
  is_idle (a ∷ active) = false

  -- so many rounds of the loop from the k-th on, or fewer if it ends
  unfoldable pub run : ℕ → ℕ → Pool (Result source) → Pool (Result source)
  unfolding round
  run zero k p = p
  run (suc n) k p = let later = run n (suc k) (round k p) in if is_idle p.active then p else later

  -- the generator, for so many rounds
  unfoldable pub collect_concurrently : ℕ → List Text → ℕ → Pool (Result source)
  unfolding submit_first run
  collect_concurrently concurrency databases rounds = run rounds 0 (
      submit_first (max 1 (min concurrency (length databases)))
        (record { pending = databases; active = []; yielded = []; readings = 0; waited = 0 }))
