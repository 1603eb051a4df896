-- ===== src/Blocking.antt =====
-- backend/app/services/blocking_service.py and schemas/blocking.py: the chains of a frame, grouped by
-- their root. The service reads the tables through `SnapshotRepository`; the clock is an argument.
pub mod Shape
pub mod Chains
mod Tests
use sql_monitor.Base.{
  ℕ, zero, suc, max, ◌≡◌, ◌↔◌, Bool, true, false, Option, none, some, List, [], ◌∷◌, ◌++◌, map,
  arith, ltb, leb, nat_beq, if◌then◌else◌, Eq, ◌==◌, nat_eq, string_eq, pair_eq, or_else, length,
  contains, maximum, ℤ, int_eq, int_beq_iff, Text, list_eq, Dict, lookup, insert, sort,
}
use sql_monitor.Auth.{Uuid, Time}
use sql_monitor.Snapshots.{BlockingSnapshot, Tables, FrameRef}
use sql_monitor.Snapshots.Repository.{list_blocking_rows}
use sql_monitor.Sessions.{given_frame, collect_delay_seconds}

pub data RiskLevel : Type 0 where
  low medium high : RiskLevel

pub record BlockingNode : Type 0 where
  pub blocking_session_id : Option ℤ
  pub blocked_session_id : ℤ
  pub chain_depth : ℕ
  pub wait_type : Option Text
  pub wait_time_ms : Option ℕ
  pub resource_description : Option Text
  pub cycle_detected : Bool
  pub special_blocker_code : Option ℤ

pub record BlockingChain : Type 0 where
  pub root_session_id : Option ℤ
  pub blocked_count : ℕ
  pub max_wait_time_ms : ℕ
  pub risk_level : RiskLevel
  pub nodes : List BlockingNode

pub record BlockingOut : Type 0 where
  pub instance_id : Uuid
  pub frame_id : Uuid
  pub snapshot_time : Time
  pub collect_delay_seconds : ℕ
  pub chains : List BlockingChain

-- `a or None`: a zero is falsy, and a row of the table has no `wait_duration_ms`
abbrev pub truthy : Option ℕ → Option ℕ
truthy none = none
truthy (some zero) = none
truthy (some (suc n)) = some (suc n)

-- `_to_node`
unfoldable pub to_node : BlockingSnapshot → BlockingNode
to_node r = record {
  blocking_session_id = r.blocking_session_id;
  blocked_session_id = r.blocked_session_id;
  chain_depth = r.chain_depth;
  wait_type = r.wait_type;
  wait_time_ms = truthy r.max_wait_time_ms;
  resource_description = r.resource_description;
  cycle_detected = r.cycle_detected;
  special_blocker_code = r.special_blocker_code;
}

-- `_risk_level`
unfoldable pub risk_level : ℕ → RiskLevel
risk_level blocked_count =
    if leb 5 blocked_count then high else if leb 2 blocked_count then medium else low

abbrev pub root_beq : Option ℤ → Option ℤ → Bool
root_beq none none = true
root_beq (some a) (some b) = a == b
root_beq _ _ = false

pub root_beq_iff : (a b : Option ℤ) → (root_beq a b ≡ true) ↔ (a ≡ b)
root_beq_iff none none = ground arith
root_beq_iff none (some b) = ground arith
root_beq_iff (some a) none = ground arith
root_beq_iff (some a) (some b) = ground (arith, int_beq_iff a b)

instance abbrev pub root_eq : Eq (Option ℤ)
root_eq = record { equal_iff = root_beq_iff; equal = root_beq }

abbrev pub Grouped : Type 0
Grouped = Dict (Option ℤ) (List BlockingSnapshot)

-- `grouped[_get(row, "root_session_id")].append(row)`
unfoldable pub group_rows : List BlockingSnapshot → Grouped → Grouped
group_rows [] grouped = grouped
group_rows (r ∷ rows) grouped =
    group_rows rows
      (insert r.root_session_id (or_else (lookup r.root_session_id grouped) [] ++ r ∷ []) grouped)

-- the elements of a set of the list
abbrev pub distinct {ℓ} : {A : Type ℓ} ⦃e : Eq A⦄ → List A → List A
distinct [] = []
distinct (x ∷ xs) = let rest = distinct xs in if contains x rest then rest else x ∷ rest

abbrev pub blocked_ids : List BlockingSnapshot → List ℤ
blocked_ids rows = map (λ (r : BlockingSnapshot). r.blocked_session_id) rows

-- `blocked_count` of a group
unfoldable pub blocked_count : List BlockingSnapshot → ℕ
blocked_count rows =
    max (length (distinct (blocked_ids rows)))
      (maximum (map (λ (r : BlockingSnapshot). r.blocked_count) rows))

unfoldable pub to_chain : Option ℤ × List BlockingSnapshot → BlockingChain
unfolding to_node risk_level blocked_count sort
to_chain (root, rows) = record {
  root_session_id = root;
  blocked_count = blocked_count rows;
  max_wait_time_ms = maximum (map (λ (r : BlockingSnapshot). or_else r.max_wait_time_ms 0) rows);
  risk_level = risk_level (blocked_count rows);
  nodes = map to_node (sort (λ (a b : BlockingSnapshot). leb a.chain_depth b.chain_depth) rows);
}

-- which of two chains may come first: the greater pair of its count and its wait
abbrev pub chain_order : BlockingChain → BlockingChain → Bool
chain_order a b =
    if nat_beq a.blocked_count b.blocked_count
    then leb b.max_wait_time_ms a.max_wait_time_ms
    else ltb b.blocked_count a.blocked_count

unfoldable pub chains_of : List BlockingSnapshot → List BlockingChain
unfolding group_rows to_chain sort
chains_of rows = sort chain_order (map to_chain (group_rows rows []))

unfoldable pub get_blocking_chains : Tables → Uuid → Option FrameRef → Time → Option BlockingOut
unfolding given_frame list_blocking_rows chains_of
get_blocking_chains t instance_id frame now = elim (given_frame t instance_id frame) [
  | none ↦ none
  | some ref ↦ some (record {
    instance_id = instance_id;
    frame_id = ref.frame_id;
    snapshot_time = ref.snapshot_time;
    collect_delay_seconds = collect_delay_seconds now ref.snapshot_time;
    chains = chains_of (list_blocking_rows t ref);
  })
]
