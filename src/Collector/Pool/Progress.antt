-- ===== src/Collector/Pool/Progress.antt =====
-- Every round of the concurrent collection brings it nearer to its end: a measure of the databases
-- that are left and of the time that the first thread still has.
use sql_monitor.Base.{
  ℕ, suc, ◌+◌, ◌-◌, ◌*◌, ◌≤◌, ◌<◌, ◌≡◌, refl, sym, ap, ◌∙◌, ◌⊎◌, inl, inr, Bool, true, false,
  false≢true, List, [], ◌∷◌, ◌++◌, map, arith, leb, nat_beq, nat_eq, string_eq, pair_eq, Bool-cases,
  Option-cases, is_some, length, keep, find, length-append, All, int_eq, Text, list_eq,
}
use sql_monitor.Collector.Pool.{
  clock, timeout_of, wait_timeout, is_active, await, Source, Result, timed_out_result, collect_one,
  Active, Pool, Limits, remove, submit_next, settle_one, settle, timed_out, choose, round, is_idle,
}
use sql_monitor.Collector.Pool.Timed.{IsTimed}
use sql_monitor.Collector.Pool.Invariant.{length-remove}

-- the first future that is late is active
first_late :
    (late : Active → Bool) (active : List Active) (f : ℕ) (futures : List ℕ)
    → map (λ (a : Active). a.future) (keep late active) ≡ f ∷ futures
    → is_some (find (λ (a : Active). nat_beq f a.future) active) ≡ true
first_late late [] f futures h = cc h
first_late late (a ∷ active) f futures h = elim (Bool-cases (late a)) [
  | inl e ↦ let same : a.future ≡ f = cc (rw e at h) in ground (arith, same)
  | inr e ↦ let later = first_late late active f futures (rw e at h) in ground (arith, later)
]

-- what is kept passes
first_kept :
    (p : ℕ → Bool) (xs : List ℕ) (f : ℕ) (futures : List ℕ) → keep p xs ≡ f ∷ futures → p f ≡ true
first_kept p [] f futures h = cc h
first_kept p (x ∷ xs) f futures h = elim (Bool-cases (p x)) [
  | inl e ↦ let same : x ≡ f = cc (rw e at h) in rw (← same) e
  | inr e ↦ first_kept p xs f futures (rw e at h)
]

smaller : (a b t r s : ℕ) → a < b → r ≤ t → a * suc t + r < b * suc t + s
smaller a b t r s h k = grind arith

module _ (source : Source) (connection_string : Text) (limits : Limits) where
  -- the databases without a result
  abbrev pub outstanding : Pool (Result source) → ℕ
  outstanding p = length p.active + length p.pending

  pub submit_next-outstanding :
      (pending : List Text) (p : Pool (Result source))
      → p.pending ≡ pending
      → outstanding (submit_next source connection_string limits pending p) ≡ outstanding p
  unfolding submit_next
  submit_next-outstanding [] p e = refl
  submit_next-outstanding (name ∷ pending) p e =
      let a : Active = record {
        future = p.readings;
        database_name = name;
        started_at = clock limits p;
      } in
      let l : length p.pending ≡ suc (length pending) = ap length e in
      omega (arith, length-append p.active (a ∷ []), l)

  -- A settled future leaves one database less; an unknown one changes nothing.
  settle_one-outstanding :
      (result : Text → Result source) (f : ℕ) (p : Pool (Result source))
      → ((settle_one source connection_string limits result f p ≡ p)
          × (is_some (find (λ (a : Active). nat_beq f a.future) p.active) ≡ false))
        ⊎ (outstanding (settle_one source connection_string limits result f p) < outstanding p)
  unfolding settle_one
  settle_one-outstanding result f p =
      elim (Option-cases (find (λ (b : Active). nat_beq f b.future) p.active)) [
        | inl e ↦ inl (rw (e, settle_one) (refl, refl))
        | inr (a, e) ↦
            let q = record p {
              active = remove f p.active;
              yielded = p.yielded ++ result a.database_name ∷ [];
            } in
            let next = submit_next source connection_string limits q.pending q in
            let kept : outstanding next ≡ outstanding q =
              submit_next-outstanding q.pending q refl in
            let fewer : length p.active ≡ suc (length q.active) = length-remove f p.active a e in
            let less : outstanding next < outstanding p = omega (arith, kept, fewer) in
            inr (rw (e, settle_one) less)
      ]

  settle-outstanding :
      (result : Text → Result source) (futures : List ℕ) (p : Pool (Result source))
      → (settle source connection_string limits result futures p ≡ p)
        ⊎ (outstanding (settle source connection_string limits result futures p) < outstanding p)
  unfolding settle
  settle-outstanding result [] p = inl refl
  settle-outstanding result (f ∷ futures) p =
      let p' = settle_one source connection_string limits result f p in
      elim (settle-outstanding result futures p') [
        | inl same ↦ elim (settle_one-outstanding result f p) [
          | inl (unchanged, unknown) ↦ inl (same ∙ unchanged)
          | inr less ↦ inr (omega (arith, ap outstanding same, less))
        ]
        | inr less ↦ elim (settle_one-outstanding result f p) [
          | inl (unchanged, unknown) ↦ inr (omega (arith, ap outstanding unchanged, less))
          | inr less' ↦ inr (omega (arith, less, less'))
        ]
      ]

  settle_known :
      (result : Text → Result source) (f : ℕ) (futures : List ℕ) (p : Pool (Result source))
      → is_some (find (λ (a : Active). nat_beq f a.future) p.active) ≡ true
      → outstanding (settle source connection_string limits result (f ∷ futures) p) < outstanding p
  unfolding settle
  settle_known result f futures p known = elim (settle_one-outstanding result f p) [
    | inl (unchanged, unknown) ↦ absurd (false≢true (sym unknown ∙ known))
    | inr less ↦
        let p' = settle_one source connection_string limits result f p in
        elim (settle-outstanding result futures p') [
          | inl same ↦ omega (arith, ap outstanding same, less)
          | inr less' ↦ omega (arith, less, less')
        ]
  ]

  -- `wait` waits in vain, or there are fewer databases left.
  await-outstanding :
      (now : ℕ) (futures : List ℕ) (q : Pool (Result source))
      → ((f : ℕ) (rest : List ℕ) → futures ≡ f ∷ rest → is_active q.active f ≡ true)
      → (await source connection_string limits now futures q
          ≡ record q { waited = q.waited + wait_timeout limits now q.active })
        ⊎ (outstanding (await source connection_string limits now futures q) < outstanding q)
  await-outstanding now [] q known = inl refl
  await-outstanding now (f ∷ futures) q known =
      inr (settle_known (collect_one source connection_string) f futures q (known f futures refl))

  choose-outstanding :
      (k now : ℕ) (late : List ℕ) (q : Pool (Result source))
      → ((f : ℕ) (futures : List ℕ)
          → late ≡ f ∷ futures
          → is_some (find (λ (a : Active). nat_beq f a.future) q.active) ≡ true)
      → ((late ≡ [])
          × (choose source connection_string limits k now late q
              ≡ record q { waited = q.waited + wait_timeout limits now q.active }))
        ⊎ (outstanding (choose source connection_string limits k now late q) < outstanding q)
  choose-outstanding k now [] q known =
      elim (await-outstanding now (keep (is_active q.active) (limits.done k)) q
        (λ f rest e. first_kept (is_active q.active) (limits.done k) f rest e)) [
          | inl same ↦ inl (refl, same)
          | inr less ↦ inr less
        ]
  choose-outstanding k now (f ∷ futures) q known =
      inr (settle_known (timed_out_result source) f futures q (known f futures refl))

  module _ (steady : (n : ℕ) → limits.monotonic n ≤ limits.monotonic (suc n)) where
    -- how long the first of the active futures may still take
    abbrev pub remaining : List Active → ℕ → ℕ
    remaining [] now = 0
    remaining (a ∷ active) now = timeout_of limits - (now - a.started_at)

    abbrev pub measure : Pool (Result source) → ℕ
    measure p = outstanding p * suc (timeout_of limits) + remaining p.active (clock limits p)

    pub remaining_bound :
        (active : List Active) (now : ℕ) → remaining active now ≤ timeout_of limits
    remaining_bound [] now = omega arith
    remaining_bound (a ∷ active) now = omega arith

    -- When nobody is late, time passes.
    remaining_passes :
        (active : List Active) (now later : ℕ)
        → is_idle source connection_string limits active ≡ false
        → timed_out source connection_string limits now active ≡ []
        → All (λ (a : Active). a.started_at ≤ now) active
        → now < later
        → remaining active later < remaining active now
    unfolding timed_out
    remaining_passes [] now later busy none_late timed passes = cc busy
    remaining_passes (a ∷ active) now later busy none_late timed passes =
        elim (Bool-cases (leb (timeout_of limits) (now - a.started_at))) [
          | inl late ↦ cc (rw late at none_late)
          | inr early ↦ ground (arith, timed.0)
        ]

    -- A round of a pool that is not idle leaves fewer databases, or it only passes time.
    pub round-measure :
        (k : ℕ) (p : Pool (Result source))
        → is_idle source connection_string limits p.active ≡ false
        → IsTimed source connection_string limits p
        → measure (round source connection_string limits k p) < measure p
    unfolding round timed_out
    round-measure k p busy timed =
        let now = clock limits p in
        let late = timed_out source connection_string limits now p.active in
        let q = record p { readings = suc p.readings } in
        let p' = choose source connection_string limits k now late q in
        let q' = record q { waited = q.waited + wait_timeout limits now q.active } in
        elim (choose-outstanding k now late q (λ f futures e.
          first_late (λ (a : Active). leb (timeout_of limits) (now - a.started_at)) p.active f
            futures e)) [
              | inl (none_late, same) ↦
                  let less =
                    remaining_passes p.active now (clock limits q') busy none_late timed
                      (omega (arith, steady p.readings)) in
                  let level : measure p' ≡ measure q' = ap measure same in
                  omega (arith, level, less)
              | inr fewer ↦
                  smaller (outstanding p') (outstanding p) (timeout_of limits)
                    (remaining p'.active (clock limits p')) (remaining p.active now) fewer
                    (remaining_bound p'.active (clock limits p'))
            ]
