-- ===== src/Kill/Target.antt =====
-- The target of a kill: what `build_kill_target` of backend/app/services/kill_service.py reads of the
-- latest frame.
use sql_monitor.Base.{
  ℕ, ◌≡◌, refl, sym, ap, ◌∙◌, subst, inl, inr, Bool, true, ◌&&◌, Option, none, some, none≢some,
  List, [], ◌∷◌, arith, ◌==◌, nat_eq, string_eq, pair_eq, Option-cases, length, keep, All,
  keep-passes, ℤ, int_eq, int_beq_iff, list_eq, some-eq,
}
use sql_monitor.Auth.{Uuid}
use sql_monitor.Snapshots.{SessionSnapshot, BlockingSnapshot, Tables, FrameRef}
use sql_monitor.Snapshots.Repository as Repo
use sql_monitor.Sessions.{SessionListItem, get_session_detail, given_frame, to_item}
use sql_monitor.Kill.{KillTarget}

-- `_blocking_impact_count`
unfoldable pub blocking_impact_count : Tables → FrameRef → ℤ → ℕ
unfolding Repo.list_blocking_rows
blocking_impact_count t frame session_id = length (
    keep (λ (r : BlockingSnapshot). Repo.sql_eq r.blocking_session_id session_id)
      (Repo.list_blocking_rows t frame))

unfoldable pub target_of : Uuid → SessionListItem → ℕ → KillTarget
target_of instance_id detail impact = record {
  instance_id = instance_id;
  session_id = detail.session_id;
  login_name = detail.login_name;
  status = detail.status;
  open_transaction_count = detail.open_transaction_count;
  blocking_impact_count = impact;
  host_name = detail.host_name;
  program_name = detail.program_name;
  database_name = detail.database_name;
  current_sql_hash = detail.current_sql_hash;
  current_sql_preview = detail.current_sql_preview;
  wait_type = detail.wait_type;
  wait_time_ms = detail.wait_time_ms;
  cpu_time = detail.cpu_time;
  reads = detail.reads;
  writes = detail.writes;
  logical_reads = detail.logical_reads;
}

unfoldable pub build_kill_target : Tables → Uuid → ℤ → Option KillTarget
unfolding Repo.get_latest_frame get_session_detail blocking_impact_count target_of
build_kill_target t instance_id session_id = elim (Repo.get_latest_frame t instance_id) [
  | none ↦ none
  | some frame ↦ elim (get_session_detail t instance_id session_id (some frame)) [
    | none ↦ none
    | some detail ↦ some (target_of instance_id detail (blocking_impact_count t frame session_id))
  ]
]

first_keep {ℓ} :
    {A : Type ℓ} (p : A → Bool) (xs : List A) (a : A) → Repo.first (keep p xs) ≡ some a → p a ≡ true
first_keep {A = A} p xs a h = head_passes (keep p xs) (keep-passes p xs) h
  where
    head_passes : (ys : List A) → All (λ y. p y ≡ true) ys → Repo.first ys ≡ some a → p a ≡ true
    head_passes [] k q = absurd (none≢some q)
    head_passes (y ∷ ys) k q = subst (λ z. p z ≡ true) (some-eq y a q) k.0

get_session-session_id :
    (t : Tables) (ref : FrameRef) (id : ℤ) (s : SessionSnapshot)
    → Repo.get_session t ref id ≡ some s
    → s.session_id ≡ id
unfolding Repo.get_session
get_session-session_id t ref id s h =
    let both =
      first_keep (λ (r : SessionSnapshot). Repo.sessions_of ref r && r.session_id == id) t.sessions
        s h in
    let same : (s.session_id == id) ≡ true = ground arith in (int_beq_iff s.session_id id).0 same

get_session_detail-session_id :
    (t : Tables) (instance_id : Uuid) (ref : FrameRef) (id : ℤ) (item : SessionListItem)
    → get_session_detail t instance_id id (some ref) ≡ some item
    → item.session_id ≡ id
unfolding get_session_detail to_item given_frame
get_session_detail-session_id t instance_id ref id item h =
    elim (Option-cases (Repo.get_session t ref id)) [
      | inl e ↦ absurd (none≢some (rw (e, get_session_detail) at h))
      | inr (s, e) ↦
          let same = some-eq _ item (rw (e, get_session_detail) at h) in
          ap (λ (i : SessionListItem). i.session_id) (sym same)
          ∙ get_session-session_id t ref id s e
    ]

-- the target is the session that was asked for
pub build_kill_target-session_id :
    (t : Tables) (instance_id : Uuid) (id : ℤ) (target : KillTarget)
    → build_kill_target t instance_id id ≡ some target
    → (target.instance_id ≡ instance_id) × (target.session_id ≡ id)
unfolding build_kill_target target_of
build_kill_target-session_id t instance_id id target h =
    elim (Option-cases (Repo.get_latest_frame t instance_id)) [
      | inl e ↦ absurd (none≢some (rw (e, build_kill_target) at h))
      | inr (ref, e) ↦ elim (Option-cases (get_session_detail t instance_id id (some ref))) [
        | inl f ↦ absurd (none≢some (rw (e, f, build_kill_target) at h))
        | inr (item, f) ↦
            let same = some-eq _ target (rw (e, f, build_kill_target) at h) in
            subst (λ (k : KillTarget). (k.instance_id ≡ instance_id) × (k.session_id ≡ id)) same
              (refl, get_session_detail-session_id t instance_id ref id item f)
      ]
    ]
