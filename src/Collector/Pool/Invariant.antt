-- ===== src/Collector/Pool/Invariant.antt =====
-- What holds of the pool after every round.
use sql_monitor.Base.{
  ℕ, zero, suc, ◌+◌, ◌≤◌, ◌≡◌, refl, sym, ap, ◌∙◌, ◌⊎◌, inl, inr, some, List, [], ◌∷◌, ◌++◌, map,
  map-append, arith, nat_beq, if◌then◌else◌, ◌==◌, nat_eq, string_eq, pair_eq, Bool-cases,
  Option-cases, length, keep, find, length-append, All, All-append, int_eq, Text, list_eq,
}
use sql_monitor.Collector.Pool.{
  clock, is_active, await, Try, ok, raised, Source, Result, timed_out_result, collect_with,
  collect_one, Active, Pool, Limits, remove, submit_next, submit_first, settle_one, settle,
  timed_out, choose, round, is_idle, run,
}

-- how often a name is in a list
abbrev pub count : Text → List Text → ℕ
count d [] = 0
count d (x ∷ xs) = let rest = count d xs in if d == x then suc rest else rest

count-append : (d : Text) (xs ys : List Text) → count d (xs ++ ys) ≡ count d xs + count d ys
count-append d [] ys = omega arith
count-append d (x ∷ xs) ys = ground (arith, count-append d xs ys)

abbrev pub names : List Active → List Text
names active = map (λ (a : Active). a.database_name) active

count-remove :
    (d : Text) (f : ℕ) (active : List Active) (a : Active)
    → find (λ (b : Active). nat_beq f b.future) active ≡ some a
    → count d (names active) ≡ count d (a.database_name ∷ names (remove f active))
count-remove d f [] a h = cc h
count-remove d f (b ∷ active) a h = ground (arith, count-remove d f active a)

pub length-remove :
    (f : ℕ) (active : List Active) (a : Active)
    → find (λ (b : Active). nat_beq f b.future) active ≡ some a
    → length active ≡ suc (length (remove f active))
length-remove f [] a h = cc h
length-remove f (b ∷ active) a h = ground (arith, length-remove f active a)

module _ (source : Source) (connection_string : Text) (limits : Limits) (databases : List Text)
    (workers : ℕ) where
  -- the names of the results that were yielded
  abbrev pub finished : Pool (Result source) → List Text
  finished p = map (λ (r : Result source). r.database_name) p.yielded

  -- a result that is what a thread found, or what a timeout says
  abbrev pub IsGenuine : Result source → Type 0
  IsGenuine r =
      (r ≡ collect_one source connection_string r.database_name)
      ⊎ (r ≡ timed_out_result source r.database_name)

  -- Every database is pending, active or finished, and as often as it was asked for; there are at
  -- most so many active, and as many unless none is pending.
  pub record IsPool (p : Pool (Result source)) : Type 0 where
    pub counted :
        (d : Text)
        → count d (finished p) + (count d (names p.active) + count d p.pending) ≡ count d databases
    pub bounded : length p.active ≤ workers
    pub busy : (p.pending ≡ []) ⊎ (length p.active ≡ workers)
    pub genuine : All IsGenuine p.yielded

  collect_with-database_name :
      (name : Text) (client : Try source.Client)
      → (collect_with source name client).database_name ≡ name
  unfolding collect_with
  collect_with-database_name name (raised message) = refl
  collect_with-database_name name (ok client) = refl

  collect_one-database_name :
      (name : Text) → (collect_one source connection_string name).database_name ≡ name
  unfolding collect_one
  collect_one-database_name name =
      collect_with-database_name name (source.client_factory connection_string)

  -- With `n` threads less than may be active, `n` submissions restore the invariant.
  pub record HasRoom (n : ℕ) (p : Pool (Result source)) : Type 0 where
    pub counted :
        (d : Text)
        → count d (finished p) + (count d (names p.active) + count d p.pending) ≡ count d databases
    pub bounded : length p.active + n ≤ workers
    pub busy : (p.pending ≡ []) ⊎ (length p.active + n ≡ workers)
    pub genuine : All IsGenuine p.yielded

  HasRoom-IsPool : (p : Pool (Result source)) → HasRoom 0 p → IsPool p
  HasRoom-IsPool p h = record {
    counted = h.counted;
    bounded = omega (arith, h.bounded);
    busy = elim h.busy [ inl none_left ↦ inl none_left | inr full ↦ inr (omega (arith, full)) ];
    genuine = h.genuine;
  }

  submit_next-HasRoom :
      (n : ℕ) (p : Pool (Result source))
      → HasRoom (suc n) p
      → HasRoom n (submit_next source connection_string limits p.pending p)
  unfolding submit_next
  submit_next-HasRoom n p s = go p.pending refl
    where
      go :
          (pending : List Text)
          → p.pending ≡ pending
          → HasRoom n (submit_next source connection_string limits pending p)
      go [] e = record {
        counted = s.counted;
        bounded = omega (arith, s.bounded);
        busy = inl e;
        genuine = s.genuine;
      }
      go (name ∷ pending) e =
          let a : Active = record {
            future = p.readings;
            database_name = name;
            started_at = clock limits p;
          } in
          record {
            counted = λ d.
                let waits : count d p.pending ≡ count d (name ∷ pending) = ap (count d) e in
                let named : names (p.active ++ a ∷ []) ≡ names p.active ++ name ∷ [] =
                  map-append (λ (b : Active). b.database_name) p.active (a ∷ []) in
                rw (named, count-append d (names p.active) (name ∷ []))
                  (ground (arith, waits, s.counted d));
            bounded = omega (arith, length-append p.active (a ∷ []), s.bounded);
            busy = elim s.busy [
              | inl none_left ↦ cc (sym e ∙ none_left)
              | inr full ↦ inr (omega (arith, length-append p.active (a ∷ []), full))
            ];
            genuine = s.genuine;
          }

  -- A future that is settled yields a result of its own database, and makes room for the next one.
  module _ (result : Text → Result source)
      (own : (name : Text) → (result name).database_name ≡ name)
      (real : (name : Text) → IsGenuine (result name)) where
    settled-HasRoom :
        (f : ℕ) (p : Pool (Result source)) (a : Active)
        → IsPool p
        → find (λ (b : Active). nat_beq f b.future) p.active ≡ some a
        → HasRoom 1 (record p {
          active = remove f p.active;
          yielded = p.yielded ++ result a.database_name ∷ [];
        })
    settled-HasRoom f p a h e = record {
      counted = λ d.
          let done : finished (record p { yielded = p.yielded ++ result a.database_name ∷ [] })
              ≡ finished p ++ (result a.database_name).database_name ∷ [] =
            map-append (λ (r : Result source). r.database_name) p.yielded
              (result a.database_name ∷ []) in
          rw
            (
              done,
              count-append d (finished p) ((result a.database_name).database_name ∷ []),
              own a.database_name,
            )
            (ground (arith, count-remove d f p.active a e, h.counted d));
      bounded = omega (arith, length-remove f p.active a e, h.bounded);
      busy = elim h.busy [
        | inl none_left ↦ inl none_left
        | inr full ↦ inr (omega (arith, length-remove f p.active a e, full))
      ];
      genuine =
          All-append IsGenuine p.yielded (result a.database_name ∷ []) h.genuine
            (real a.database_name, tt);
    }

    settle_one-IsPool :
        (f : ℕ) (p : Pool (Result source))
        → IsPool p
        → IsPool (settle_one source connection_string limits result f p)
    unfolding settle_one
    settle_one-IsPool f p h =
        elim (Option-cases (find (λ (b : Active). nat_beq f b.future) p.active)) [
          | inl e ↦ rw (e, settle_one) h
          | inr (a, e) ↦
              let q = record p {
                active = remove f p.active;
                yielded = p.yielded ++ result a.database_name ∷ [];
              } in
              rw (e, settle_one)
                (HasRoom-IsPool (submit_next source connection_string limits q.pending q)
                  (submit_next-HasRoom 0 q (settled-HasRoom f p a h e)))
        ]

    settle-IsPool :
        (futures : List ℕ) (p : Pool (Result source))
        → IsPool p
        → IsPool (settle source connection_string limits result futures p)
    unfolding settle
    settle-IsPool [] p h = h
    settle-IsPool (f ∷ futures) p h =
        settle-IsPool futures (settle_one source connection_string limits result f p)
          (settle_one-IsPool f p h)

  await-IsPool :
      (now : ℕ) (futures : List ℕ) (p : Pool (Result source))
      → IsPool p
      → IsPool (await source connection_string limits now futures p)
  await-IsPool now [] p h = record {
    counted = h.counted;
    bounded = h.bounded;
    busy = h.busy;
    genuine = h.genuine;
  }
  await-IsPool now (f ∷ futures) p h =
      settle-IsPool (collect_one source connection_string) collect_one-database_name
        (λ name.
          inl (ap (collect_one source connection_string) (sym (collect_one-database_name name))))
        (f ∷ futures) p h

  choose-IsPool :
      (k now : ℕ) (late : List ℕ) (p : Pool (Result source))
      → IsPool p
      → IsPool (choose source connection_string limits k now late p)
  choose-IsPool k now [] p h = await-IsPool now (keep (is_active p.active) (limits.done k)) p h
  choose-IsPool k now (f ∷ futures) p h =
      settle-IsPool (timed_out_result source) (λ name. unfold timed_out_result in refl)
        (λ name. unfold timed_out_result in inr refl) (f ∷ futures) p h

  round-IsPool :
      (k : ℕ) (p : Pool (Result source))
      → IsPool p
      → IsPool (round source connection_string limits k p)
  unfolding round
  round-IsPool k p h =
      choose-IsPool k (clock limits p)
        (timed_out source connection_string limits (clock limits p) p.active)
        (record p { readings = suc p.readings })
        (record { counted = h.counted; bounded = h.bounded; busy = h.busy; genuine = h.genuine })

  pub run-IsPool :
      (n k : ℕ) (p : Pool (Result source))
      → IsPool p
      → IsPool (run source connection_string limits n k p)
  unfolding run
  run-IsPool zero k p h = h
  run-IsPool (suc n) k p h = elim (Bool-cases (is_idle source connection_string limits p.active)) [
    | inl e ↦ rw (e, run) h
    | inr e ↦
        rw (e, run)
          (run-IsPool n (suc k) (round source connection_string limits k p) (round-IsPool k p h))
  ]

  pub submit_first-IsPool :
      (n : ℕ) (p : Pool (Result source))
      → HasRoom n p
      → IsPool (submit_first source connection_string limits n p)
  unfolding submit_first
  submit_first-IsPool zero p h = HasRoom-IsPool p h
  submit_first-IsPool (suc n) p h =
      submit_first-IsPool n (submit_next source connection_string limits p.pending p)
        (submit_next-HasRoom n p h)
