-- ===== src/Collector/Snapshot/Belongs.antt =====
-- What a frame that backend/app/collector/real_instance_collector.py builds is built of, and that its
-- rows bear the frame's key.
use sql_monitor.Base.{
  ◌≡◌, refl, sym, subst, inl, inr, true, none, some, none≢some, List, [], ◌∷◌, ◌++◌, map, nat_eq,
  string_eq, pair_eq, beq_refl, Bool-cases, Option-cases, All, All-append, All-of_map, ℤ, int_eq,
  Text, list_eq, some-eq,
}
use sql_monitor.Auth.{Uuid, Time}
use sql_monitor.Snapshots.{WaitSnapshot, BlockingSnapshot, FrameRef, frame_ref}
use sql_monitor.Snapshots.Repository.{of_frame, sessions_of, requests_of}
use sql_monitor.Instances.Records.{Instance, decrypt_connection_string}
use sql_monitor.BlockingGraph.{BlockingEdge, build_blocking_edges}
use sql_monitor.Collector.Frame.{
  WaitRow, Grouped, group_waits, SessionRow, build_wait_snapshots, build_blocking_snapshots,
  wait_snapshot, blocking_snapshot, resource_by_session, blocking_inputs,
}
use sql_monitor.Collector.Snapshot.{
  ServerRow, session_row, Hashing, Built, build_row, build_rows,
  build_session_and_request_snapshots, session_snapshot, request_snapshot, collect_resource_metrics,
}
use sql_monitor.Collector.Snapshot.Collect.{Surroundings, Answers, Frame, frame_of, build_frame}

-- the sessions and requests that are built so far are rows of the frame
abbrev IsOf : FrameRef → Built → Type 0
IsOf ref (sessions, requests, sql_texts) =
    All (λ r. sessions_of ref r ≡ true) sessions × All (λ r. requests_of ref r ≡ true) requests

module _ (h : Hashing) (frame_id instance_id : Uuid) (at : Time) (ref : FrameRef)
    (same : of_frame ref instance_id frame_id at ≡ true) where
  build_row-IsOf :
      (row : ServerRow) (session_id : ℤ) (built : Built)
      → IsOf ref built
      → IsOf ref (build_row h frame_id instance_id at row session_id built)
  unfolding build_row session_snapshot request_snapshot
  build_row-IsOf row session_id (sessions, requests, sql_texts) k =
      let s = session_snapshot h frame_id instance_id at row session_id in
      let q = request_snapshot h frame_id instance_id at row session_id in
      (
        All-append (λ r. sessions_of ref r ≡ true) sessions (s ∷ []) k.0 (same, tt),
        elim row.request_id
            as (λ o.
              All (λ r. requests_of ref r ≡ true)
                (elim o [ none ↦ requests | some request_id ↦ requests ++ q ∷ [] ])) [
                  | none ↦ k.1
                  | some id ↦
                      All-append (λ r. requests_of ref r ≡ true) requests (q ∷ []) k.1 (same, tt)
                ],
      )

  build_rows-IsOf :
      (rows : List ServerRow) (built result : Built)
      → IsOf ref built
      → build_rows h frame_id instance_id at rows built ≡ some result
      → IsOf ref result
  unfolding build_rows
  build_rows-IsOf [] built result k q = subst (IsOf ref) (some-eq built result q) k
  build_rows-IsOf (row ∷ rows) built result k q = elim (Option-cases row.session_id) [
    | inl e ↦ absurd (none≢some (rw (build_rows, e) at q))
    | inr (id, e) ↦
        build_rows-IsOf rows (build_row h frame_id instance_id at row id built) result
          (build_row-IsOf row id built k) (rw (build_rows, e) at q)
  ]

  waits-IsOf :
      (rows : List WaitRow)
      → All
          (λ (w : WaitSnapshot). of_frame ref w.instance_id w.frame_id w.snapshot_time ≡ true)
          (build_wait_snapshots h.unicode frame_id instance_id at rows)
  unfolding build_wait_snapshots
  waits-IsOf rows =
      All-of_map
        (λ (w : WaitSnapshot). of_frame ref w.instance_id w.frame_id w.snapshot_time ≡ true)
        (wait_snapshot h.unicode frame_id instance_id at) (group_waits rows [])
        (All_pairs (group_waits rows []))
    where
      All_pairs : (g : Grouped) → All (λ x. of_frame ref instance_id frame_id at ≡ true) g
      All_pairs [] = tt
      All_pairs (x ∷ g) = (same, All_pairs g)

  edges-IsOf :
      (all edges : List BlockingEdge)
      → All
          (λ (b : BlockingSnapshot). of_frame ref b.instance_id b.frame_id b.snapshot_time ≡ true)
          (map (blocking_snapshot frame_id instance_id at all) edges)
  unfolding blocking_snapshot
  edges-IsOf all [] = tt
  edges-IsOf all (x ∷ edges) = (same, edges-IsOf all edges)

  blocking-IsOf :
      (rows : List SessionRow) (wait_rows : List WaitRow) (result : List BlockingSnapshot)
      → build_blocking_snapshots frame_id instance_id at rows wait_rows ≡ some result
      → All
          (λ (b : BlockingSnapshot). of_frame ref b.instance_id b.frame_id b.snapshot_time ≡ true)
          result
  unfolding build_blocking_snapshots
  blocking-IsOf rows wait_rows result q =
      elim (Option-cases
        (build_blocking_edges (blocking_inputs (resource_by_session wait_rows []) rows))) [
          | inl e ↦ absurd (none≢some (rw (build_blocking_snapshots, e) at q))
          | inr (edges, e) ↦
              subst
                (All (λ (b : BlockingSnapshot).
                  of_frame ref b.instance_id b.frame_id b.snapshot_time ≡ true))
                (some-eq (map (blocking_snapshot frame_id instance_id at edges) edges) result
                  (rw (build_blocking_snapshots, e) at q))
                (edges-IsOf edges edges)
        ]

-- what the four lists of a frame hold
abbrev pub IsFrame : Frame → Type 0
IsFrame f =
    All (λ r. sessions_of (frame_ref f.frame) r ≡ true) f.sessions
    × All (λ r. requests_of (frame_ref f.frame) r ≡ true) f.requests
    × All
        (λ (w : WaitSnapshot).
          of_frame (frame_ref f.frame) w.instance_id w.frame_id w.snapshot_time ≡ true)
        f.waits
    × All
        (λ (b : BlockingSnapshot).
          of_frame (frame_ref f.frame) b.instance_id b.frame_id b.snapshot_time ≡ true)
        f.blocking_rows

module _ (e : Surroundings) (i : Instance) where
  -- what a frame is built of
  abbrev pub IsBuilt : Frame → Answers → List ServerRow → List WaitRow → Type 0
  IsBuilt f answers rows wait_rows =
      (answers.session_request_rows ≡ some rows)
      × (answers.wait_rows ≡ some wait_rows)
      × (built : Built) × (blocking : List BlockingSnapshot) × (build_session_and_request_snapshots
            e.hashing e.frame_id i.id e.started_at rows
          ≡ some built)
      × (build_blocking_snapshots e.frame_id i.id e.started_at (map session_row rows) wait_rows
          ≡ some blocking)
      × (f
          ≡ frame_of e i.id built
              (build_wait_snapshots e.hashing.unicode e.frame_id i.id e.started_at wait_rows)
              blocking (collect_resource_metrics answers.resource_rows))

  pub build_frame-IsBuilt :
      (f : Frame)
      → build_frame e i ≡ some f
      → (connection_string : Text) × (answers : Answers) × (rows : List ServerRow)
        × (wait_rows : List WaitRow) × (decrypt_connection_string e.base64 i.encrypted_collect_dsn
            ≡ some connection_string)
        × (e.connect connection_string ≡ some answers)
        × IsBuilt f answers rows wait_rows
  unfolding build_frame
  build_frame-IsBuilt f h =
      elim (Option-cases (decrypt_connection_string e.base64 i.encrypted_collect_dsn)) [
        | inl h1 ↦ absurd (none≢some (rw (build_frame, h1) at h))
        | inr (dsn, h1) ↦ elim (Option-cases (e.connect dsn)) [
          | inl h2 ↦ absurd (none≢some (rw (build_frame, h1, h2) at h))
          | inr (answers, h2) ↦ elim (Option-cases (answers.session_request_rows)) [
            | inl h3 ↦ absurd (none≢some (rw (build_frame, h1, h2, h3) at h))
            | inr (rows, h3) ↦ elim (Option-cases (answers.wait_rows)) [
              | inl h4 ↦ absurd (none≢some (rw (build_frame, h1, h2, h3, h4) at h))
              | inr (wait_rows, h4) ↦
                  elim (Option-cases (
                    build_session_and_request_snapshots e.hashing e.frame_id i.id e.started_at
                      rows)) [
                        | inl h5 ↦ absurd (none≢some (rw (build_frame, h1, h2, h3, h4, h5) at h))
                        | inr (built, h5) ↦
                            elim (Option-cases (
                              build_blocking_snapshots e.frame_id i.id e.started_at
                                (map session_row rows) wait_rows)) [
                                  | inl h6 ↦
                                      absurd
                                        (none≢some (rw (build_frame, h1, h2, h3, h4, h5, h6) at h))
                                  | inr (blocking, h6) ↦ elim (Bool-cases e.accepted) [
                                    | inl h7 ↦ (
                                      dsn,
                                      answers,
                                      rows,
                                      wait_rows,
                                      h1,
                                      h2,
                                      (
                                        h3,
                                        h4,
                                        built,
                                        blocking,
                                        h5,
                                        h6,
                                        sym (
                                            some-eq _ f
                                              (rw (build_frame, h1, h2, h3, h4, h5, h6, h7) at h)),
                                      ),
                                    )
                                    | inr h7 ↦ absurd (
                                        none≢some
                                          (rw (build_frame, h1, h2, h3, h4, h5, h6, h7) at h))
                                  ]
                                ]
                      ]
            ]
          ]
        ]
      ]

module _ (e : Surroundings) (i : Instance) where
  same_frame :
      (instance_id frame_id : Uuid) (at : Time)
      → (ref : FrameRef) → ref.instance_id ≡ instance_id
      → ref.frame_id ≡ frame_id
      → ref.snapshot_time ≡ at
      → of_frame ref instance_id frame_id at ≡ true
  same_frame instance_id frame_id at ref h k l =
      rw (h, k, l, beq_refl instance_id, beq_refl frame_id, beq_refl at) refl

  -- the rows of a frame that is built bear its key
  pub build_frame-IsFrame : (f : Frame) → build_frame e i ≡ some f → IsFrame f
  unfolding frame_of frame_ref build_session_and_request_snapshots
  build_frame-IsFrame f h =
      let (dsn, answers, rows, wait_rows, h1, h2, (h3, h4, built, blocking, h5, h6, h7)) =
        build_frame-IsBuilt e i f h in
      let waits = build_wait_snapshots e.hashing.unicode e.frame_id i.id e.started_at wait_rows in
      let g =
        frame_of e i.id built waits blocking (collect_resource_metrics answers.resource_rows) in
      let ref = frame_ref g.frame in
      let same : of_frame ref i.id e.frame_id e.started_at ≡ true =
        same_frame i.id e.frame_id e.started_at ref refl refl refl in
      let r =
        build_rows-IsOf e.hashing e.frame_id i.id e.started_at ref same rows ([], [], []) built
          (tt, tt) h5 in
      subst IsFrame (sym h7) (
        r.0,
        r.1,
        waits-IsOf e.hashing e.frame_id i.id e.started_at ref same wait_rows,
        blocking-IsOf e.hashing e.frame_id i.id e.started_at ref same (map session_row rows)
            wait_rows blocking h6,
      )
