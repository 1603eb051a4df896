-- ===== src/Collector/Pool/Timed.antt =====
-- In the concurrent collection no future was submitted later than the clock says.
use sql_monitor.Base.{
  ℕ, suc, ◌+◌, ◌≤◌, inl, inr, true, false, List, [], ◌∷◌, ◌++◌, arith, nat_beq, if◌then◌else◌,
  nat_eq, string_eq, pair_eq, Option-cases, keep, find, All, All-append, All-map, int_eq, Text,
  list_eq,
}
use sql_monitor.Collector.Pool.{
  clock, is_active, await, Source, Result, timed_out_result, collect_one, Active, Pool, Limits,
  remove, submit_next, settle_one, settle, timed_out, choose, round,
}

module _ (source : Source) (connection_string : Text) (limits : Limits) where
  -- no thread was started in the future
  abbrev pub IsTimed : Pool (Result source) → Type 0
  IsTimed p = All (λ (a : Active). a.started_at ≤ clock limits p) p.active

  All-remove :
      (P : Active → Type 0) (f : ℕ) (active : List Active) → All P active → All P (remove f active)
  All-remove P f [] h = tt
  All-remove P f (a ∷ active) h =
      elim (nat_beq f a.future) as (λ b. All P (if b then active else a ∷ remove f active)) [
        | true ↦ h.1
        | false ↦ (h.0, All-remove P f active h.1)
      ]

  module _ (steady : (n : ℕ) → limits.monotonic n ≤ limits.monotonic (suc n)) where
    IsTimed-later :
        (n waited : ℕ) (active : List Active)
        → All (λ (a : Active). a.started_at ≤ limits.monotonic n + waited) active
        → All (λ (a : Active). a.started_at ≤ limits.monotonic (suc n) + waited) active
    IsTimed-later n waited active h = All-map (λ a le. omega (arith, le, steady n)) active h

    pub submit_next-IsTimed :
        (pending : List Text) (p : Pool (Result source))
        → IsTimed p
        → IsTimed (submit_next source connection_string limits pending p)
    unfolding submit_next
    submit_next-IsTimed [] p h = h
    submit_next-IsTimed (name ∷ pending) p h =
        All-append (λ (a : Active). a.started_at ≤ limits.monotonic (suc p.readings) + p.waited)
          p.active _ (IsTimed-later p.readings p.waited p.active h)
          (omega (arith, steady p.readings), tt)

    settle_one-IsTimed :
        (result : Text → Result source) (f : ℕ) (p : Pool (Result source))
        → IsTimed p
        → IsTimed (settle_one source connection_string limits result f p)
    unfolding settle_one
    settle_one-IsTimed result f p h =
        elim (Option-cases (find (λ (b : Active). nat_beq f b.future) p.active)) [
          | inl e ↦ rw (e, settle_one) h
          | inr (a, e) ↦
              let q = record p {
                active = remove f p.active;
                yielded = p.yielded ++ result a.database_name ∷ [];
              } in
              rw (e, settle_one)
                (submit_next-IsTimed q.pending q
                  (All-remove (λ (b : Active). b.started_at ≤ clock limits p) f p.active h))
        ]

    settle-IsTimed :
        (result : Text → Result source) (futures : List ℕ) (p : Pool (Result source))
        → IsTimed p
        → IsTimed (settle source connection_string limits result futures p)
    unfolding settle
    settle-IsTimed result [] p h = h
    settle-IsTimed result (f ∷ futures) p h =
        settle-IsTimed result futures (settle_one source connection_string limits result f p)
          (settle_one-IsTimed result f p h)

    await-IsTimed :
        (now : ℕ) (futures : List ℕ) (q : Pool (Result source))
        → IsTimed q
        → IsTimed (await source connection_string limits now futures q)
    await-IsTimed now [] q h = All-map (λ a le. omega (arith, le)) q.active h
    await-IsTimed now (f ∷ futures) q h =
        settle-IsTimed (collect_one source connection_string) (f ∷ futures) q h

    choose-IsTimed :
        (k now : ℕ) (late : List ℕ) (q : Pool (Result source))
        → IsTimed q
        → IsTimed (choose source connection_string limits k now late q)
    choose-IsTimed k now [] q h = await-IsTimed now (keep (is_active q.active) (limits.done k)) q h
    choose-IsTimed k now (f ∷ futures) q h =
        settle-IsTimed (timed_out_result source) (f ∷ futures) q h

    pub round-IsTimed :
        (k : ℕ) (p : Pool (Result source))
        → IsTimed p
        → IsTimed (round source connection_string limits k p)
    unfolding round
    round-IsTimed k p h =
        choose-IsTimed k (clock limits p)
          (timed_out source connection_string limits (clock limits p) p.active)
          (record p { readings = suc p.readings }) (IsTimed-later p.readings p.waited p.active h)
