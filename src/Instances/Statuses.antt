-- ===== src/Instances/Statuses.antt =====
-- The instances whatever the routes of backend/app/api/routes/instances.py and the collector of
-- backend/app/collector/real_instance_collector.py do.
use sql_monitor.Base.{
  String, ◌≡◌, refl, sym, ◌∙◌, subst, inl, inr, true, false, Option, none, some, none≢some, List,
  [], ◌∷◌, map, arith, nat_beq_iff, if◌then◌else◌, ◌==◌, nat_eq, string_eq, pair_eq, Bool-cases,
  is_some, contains, Distinct, All, All-map, All-of_map, int_eq, Text, list_eq, some-eq,
}
use sql_monitor.Auth.{Uuid}
use sql_monitor.Instances.Records.{Instance, get_instance}
use sql_monitor.Instances.Requests.{
  InstanceCreate, InstanceUpdate, Field, unset, given, if_given, instance_statuses, is_valid_create,
  is_valid_update, InstanceConnectionTestOut,
}
use sql_monitor.Instances.Service.{Means}
use sql_monitor.Instances.Change.{
  set_value, set_fields, updated, put_instance, tested, ◌>>=◌, set_kill_dsn, set_collect_dsn,
  new_collect_dsn,
}

-- what holds of the result, where there is one
abbrev pub IfSome {ℓ} : {A : Type ℓ} → (A → Type 0) → Option A → Type 0
IfSome P none = Unit
IfSome P (some a) = P a

IfSome-bind :
    {A B : Type 0} (P : B → Type 0) (o : Option A) (f : A → Option B)
    → ((a : A) → o ≡ some a → IfSome P (f a))
    → IfSome P (o >>= f)
IfSome-bind P none f h = tt
IfSome-bind P (some a) f h = h a refl

-- a row of an id with a status of the constraint
abbrev pub IsRow : Uuid → Instance → Type 0
IsRow id i = (i.id ≡ id) × (contains i.status instance_statuses ≡ true)

set_value-status :
    (f : Field String) (old new : String)
    → if_given (λ s. contains s instance_statuses) f ≡ true
    → contains old instance_statuses ≡ true
    → set_value f old ≡ some new
    → contains new instance_statuses ≡ true
set_value-status unset old new v h q =
    subst (λ s. contains s instance_statuses ≡ true) (some-eq old new q) h
set_value-status (given none) old new v h q = absurd (none≢some q)
set_value-status (given (some s)) old new v h q =
    subst (λ s. contains s instance_statuses ≡ true) (some-eq s new q) v

set_fields-IsRow :
    (id : Uuid) (d : InstanceUpdate) (i : Instance)
    → if_given (λ s. contains s instance_statuses) d.status ≡ true
    → IsRow id i
    → IfSome (IsRow id) (set_fields d i)
unfolding set_fields
set_fields-IsRow id d i v h = IfSome-bind (IsRow id) (set_value d.name i.name) _ (λ a1 q1.
    IfSome-bind (IsRow id) (set_value d.host i.host) _ (λ a2 q2.
      IfSome-bind (IsRow id) (set_value d.port i.port) _ (λ a3 q3.
        IfSome-bind (IsRow id) (set_value d.environment i.environment) _ (λ a4 q4.
          IfSome-bind (IsRow id) (set_value d.status i.status) _ (λ a5 q5.
            IfSome-bind (IsRow id) (set_value d.collect_interval_seconds i.collect_interval_seconds)
              _
              (λ a6 q6.
                IfSome-bind (IsRow id)
                  (set_value d.missing_index_collect_interval_seconds
                    i.missing_index_collect_interval_seconds)
                  _
                  (λ a7 q7.
                    IfSome-bind (IsRow id)
                      (set_value d.index_fragmentation_collect_interval_seconds
                        i.index_fragmentation_collect_interval_seconds)
                      _
                      (λ a8 q8.
                        IfSome-bind (IsRow id)
                          (set_value d.index_operation_timeout_seconds
                            i.index_operation_timeout_seconds)
                          _
                          (λ a9 q9.
                            IfSome-bind (IsRow id) (set_value d.retention_days i.retention_days) _
                              (λ a10 q10.
                                (h.0, set_value-status d.status i.status a5 v h.1 q5)))))))))))

pub valid_create-status :
    (d : InstanceCreate) → is_valid_create d ≡ true → contains d.status instance_statuses ≡ true
unfolding is_valid_create
valid_create-status d v = ground (arith, v)

module _ (m : Means) where
  set_dsns-IsRow :
      (id : Uuid) (kill : Field Text) (dsn : Option Text) (i : Instance)
      → IsRow id i
      → IsRow id (set_kill_dsn m kill (set_collect_dsn m dsn i))
  set_dsns-IsRow id unset none i h = h
  set_dsns-IsRow id unset (some s) i h = h
  set_dsns-IsRow id (given none) none i h = h
  set_dsns-IsRow id (given none) (some s) i h = h
  set_dsns-IsRow id (given (some k)) none i h = h
  set_dsns-IsRow id (given (some k)) (some s) i h = h

  valid-status :
      (d : InstanceUpdate)
      → is_valid_update d ≡ true
      → if_given (λ s. contains s instance_statuses) d.status ≡ true
  unfolding is_valid_update
  valid-status d v = ground (arith, v)

  pub updated-IsRow :
      (id : Uuid) (d : InstanceUpdate) (i : Instance)
      → is_valid_update d ≡ true
      → IsRow id i
      → IfSome (IsRow id) (updated m d i)
  unfolding updated
  updated-IsRow id d i v h = IfSome-bind (IsRow id) (set_fields d i) _ (λ j q.
      let k : IsRow id j = ifsome j q (set_fields-IsRow id d i (valid-status d v) h) in
      set_dsns-IsRow id d.kill_dsn (new_collect_dsn m d d.collect_dsn j) j k)
    where
      ifsome :
          (j : Instance) → set_fields d i ≡ some j → IfSome (IsRow id) (set_fields d i) → IsRow id j
      ifsome j q k = rw q at k

  pub tested-IsRow :
      (id : Uuid) (result : InstanceConnectionTestOut) (i : Instance)
      → IsRow id i
      → IsRow id (tested result i)
  unfolding tested
  tested-IsRow id result i h = elim (Bool-cases result.success) [
    | inl q ↦ rw q (h.0, refl)
    | inr q ↦ rw q (h.0, refl)
  ]

-- no id twice, and every status is one of the constraint
abbrev pub IsInstances : List Instance → Type 0
IsInstances xs =
    Distinct (map (λ (i : Instance). i.id) xs)
    × All (λ (i : Instance). contains i.status instance_statuses ≡ true) xs

-- a change of rows that keeps their ids
pub IsInstances-map :
    (f : Instance → Instance)
    → ((i : Instance) → (f i).id ≡ i.id)
    → ((i : Instance)
        → contains i.status instance_statuses ≡ true
        → contains (f i).status instance_statuses ≡ true)
    → (xs : List Instance) → IsInstances xs
    → IsInstances (map f xs)
IsInstances-map f same kept xs h = (
  subst (Distinct) (sym (ids xs)) h.0,
  All-of_map (λ (i : Instance). contains i.status instance_statuses ≡ true) f xs
      (All-map kept xs h.1),
)
  where
    ids :
        (xs : List Instance)
        → map (λ (i : Instance). i.id) (map f xs) ≡ map (λ (i : Instance). i.id) xs
    ids [] = refl
    ids (x ∷ xs) = rw (same x, ids xs) refl

pub get_instance-IsRow :
    (id : Uuid) (i : Instance) (xs : List Instance)
    → All (λ (i : Instance). contains i.status instance_statuses ≡ true) xs
    → get_instance id xs ≡ some i
    → IsRow id i
get_instance-IsRow id i [] h q = absurd (none≢some q)
get_instance-IsRow id i (x ∷ xs) h q = elim (Bool-cases (x.id == id)) [
  | inl k ↦
      let e : x ≡ i = some-eq x i (rw k at q) in subst (IsRow id) e ((nat_beq_iff x.id id).0 k, h.0)
  | inr k ↦ get_instance-IsRow id i xs h.1 (rw k at q)
]

pub put_instance-IsInstances :
    (id : Uuid) (j : Instance) (xs : List Instance)
    → IsRow id j
    → IsInstances xs
    → IsInstances (put_instance id j xs)
put_instance-IsInstances id j xs k h =
    IsInstances-map (λ (i : Instance). if i.id == id then j else i) same kept xs h
  where
    same : (i : Instance) → (if i.id == id then j else i).id ≡ i.id
    same i = elim (Bool-cases (i.id == id)) [
      | inl q ↦ rw q (k.0 ∙ sym ((nat_beq_iff i.id id).0 q))
      | inr q ↦ rw q refl
    ]

    kept :
        (i : Instance)
        → contains i.status instance_statuses ≡ true
        → contains (if i.id == id then j else i).status instance_statuses ≡ true
    kept i c = elim (Bool-cases (i.id == id)) [ inl q ↦ rw q k.1 | inr q ↦ rw q c ]

pub get_instance-none :
    (id : Uuid) (xs : List Instance)
    → is_some (get_instance id xs) ≡ false
    → contains id (map (λ (i : Instance). i.id) xs) ≡ false
get_instance-none id [] h = refl
get_instance-none id (x ∷ xs) h =
    ground (arith, h, get_instance-none id xs, nat_beq_iff x.id id, nat_beq_iff id x.id)
