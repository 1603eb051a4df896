-- ===== src/Snapshots/Repository/Latest.antt =====
-- Which frame the lookups by time find.
use sql_monitor.Base.{
  ℕ, ◌+◌, ◌≤◌, ◌≡◌, refl, sym, subst, ◌⊎◌, inl, inr, Bool, true, false, none, some, none≢some, List,
  [], ◌∷◌, arith, ◌==◌, nat_eq, string_eq, pair_eq, Option-cases, keep, All, All-map, All-of_keep,
  keep-passes, int_eq, list_eq, some-eq, sort, IsSorted, sort-IsSorted, All-of_sort, All-sort,
}
use sql_monitor.Auth.{Uuid, Time, seconds}
use sql_monitor.Snapshots.{SnapshotFrame, Tables, FrameRef, frame_ref}
use sql_monitor.Snapshots.Repository.{first, newer, in_reach, get_frame_before, get_latest_frame}

newer_total : (a b : SnapshotFrame) → newer a b ≡ false → newer b a ≡ true
newer_total a b h = ground arith

newer_trans : (a b c : SnapshotFrame) → newer a b ≡ true → newer b c ≡ true → newer a c ≡ true
newer_trans a b c h k = ground arith

-- the head of a sorted list comes before every element of the list
first_sorted :
    (f : SnapshotFrame) (frames : List SnapshotFrame)
    → first (sort newer frames) ≡ some f
    → All (λ g. newer f g ≡ true) frames
first_sorted f frames h =
    All-of_sort newer (λ g. newer f g ≡ true) frames
      (head_first (sort newer frames) (sort-IsSorted newer newer_total newer_trans frames) h)
  where
    head_first :
        (fs : List SnapshotFrame)
        → IsSorted newer fs
        → first fs ≡ some f
        → All (λ g. newer f g ≡ true) fs
    head_first [] s e = tt
    head_first (x ∷ fs) s e =
        let same : x ≡ f = some-eq x f e in
        (
          rw same (ground arith),
          subst (λ (y : SnapshotFrame). All (λ g. newer y g ≡ true) fs) same s.0,
        )

first_passes :
    (p : SnapshotFrame → Bool) (f : SnapshotFrame) (fs : List SnapshotFrame)
    → All (λ g. p g ≡ true) fs
    → first fs ≡ some f
    → p f ≡ true
first_passes p f [] h e = absurd (none≢some e)
first_passes p f (x ∷ fs) h e = subst (λ y. p y ≡ true) (some-eq x f e) h.0

none_first : (fs : List SnapshotFrame) → first fs ≡ none → fs ≡ []
none_first [] e = refl
none_first (x ∷ fs) e = absurd (none≢some (sym e))

-- where the newest of some frames is not there, there are none
first-none :
    (p : SnapshotFrame → Bool) (fs : List SnapshotFrame)
    → first (sort newer (keep p fs)) ≡ none
    → All (λ f. p f ≡ false) fs
first-none p fs e =
    All-map (λ g c. no_other g c) fs
      (All-of_keep (λ g. ⊥) p fs
        (All-of_sort newer (λ g. ⊥) (keep p fs)
          (subst (λ gs. All (λ g. ⊥) gs) (sym (none_first (sort newer (keep p fs)) e)) tt)))
  where
    no_other : (g : SnapshotFrame) → (p g ≡ false) ⊎ ⊥ → p g ≡ false
    no_other g (inl h) = h
    no_other g (inr x) = absurd x

time_order :
    (f g : SnapshotFrame) {A : Type 0}
    → A ⊎ (newer f g ≡ true)
    → A ⊎ (g.snapshot_time ≤ f.snapshot_time)
time_order f g (inl a) = inl a
time_order f g (inr h) = inr (ground arith)

module _ (t : Tables) (instance_id : Uuid) (target_time : Time) (max_delay_seconds : ℕ) where
  abbrev reachable : SnapshotFrame → Bool
  reachable = in_reach instance_id target_time max_delay_seconds

  abbrev found : List SnapshotFrame
  found = sort newer (keep reachable t.frames)

  -- A frame that is found for a time belongs to the instance, is not after that time and at most
  -- the allowed delay before it, and no frame of the instance within that reach is newer.
  pub get_frame_before_latest :
      (ref : FrameRef)
      → get_frame_before t instance_id target_time max_delay_seconds ≡ some ref
      → (ref.instance_id ≡ instance_id)
        × (ref.snapshot_time ≤ target_time)
        × (target_time ≤ ref.snapshot_time + seconds max_delay_seconds)
        × All
            (λ (f : SnapshotFrame).
              (in_reach instance_id target_time max_delay_seconds f ≡ false)
              ⊎ (f.snapshot_time ≤ ref.snapshot_time))
            t.frames
  unfolding get_frame_before
  get_frame_before_latest ref h = elim (Option-cases (first found)) [
    | inl e ↦ absurd (none≢some (rw (e, get_frame_before) at h))
    | inr (f, e) ↦
        let q : some (frame_ref f) ≡ some ref = rw (e, get_frame_before) at h in
        let same : frame_ref f ≡ ref = some-eq (frame_ref f) ref q in
        let near : reachable f ≡ true =
          first_passes reachable f found
            (All-sort newer (λ g. reachable g ≡ true) (keep reachable t.frames)
              (keep-passes reachable t.frames))
            e in
        let best : All (λ (g : SnapshotFrame). (reachable g ≡ false) ⊎ (newer f g ≡ true))
            t.frames =
          All-of_keep (λ g. newer f g ≡ true) reachable t.frames
            (first_sorted f (keep reachable t.frames) e) in
        subst
          (λ (r : FrameRef).
            (r.instance_id ≡ instance_id)
            × (r.snapshot_time ≤ target_time)
            × (target_time ≤ r.snapshot_time + seconds max_delay_seconds)
            × All
                (λ (g : SnapshotFrame). (reachable g ≡ false) ⊎ (g.snapshot_time ≤ r.snapshot_time))
                t.frames)
          same
          (unfold frame_ref in
            (
              ground arith,
              ground arith,
              ground arith,
              All-map (λ g c. time_order f g c) t.frames best,
            ))
  ]

  -- If no frame is found for a time, the instance has no frame within reach of it.
  pub get_frame_before-none :
      get_frame_before t instance_id target_time max_delay_seconds ≡ none
      → All
          (λ (f : SnapshotFrame). in_reach instance_id target_time max_delay_seconds f ≡ false)
          t.frames
  unfolding get_frame_before
  get_frame_before-none h = elim (Option-cases (first found)) [
    | inr (f, e) ↦ absurd (none≢some (sym (rw (e, get_frame_before) at h)))
    | inl e ↦ first-none reachable t.frames e
  ]

-- If an instance has no latest frame, it has no frame.
pub get_latest_frame-none :
    (t : Tables) (instance_id : Uuid)
    → get_latest_frame t instance_id ≡ none
    → All (λ (f : SnapshotFrame). (f.instance_id == instance_id) ≡ false) t.frames
unfolding get_latest_frame
get_latest_frame-none t instance_id h =
    let own = λ (f : SnapshotFrame). f.instance_id == instance_id in
    elim (Option-cases (first (sort newer (keep own t.frames)))) [
      | inr (f, e) ↦ absurd (none≢some (sym (rw (e, get_latest_frame) at h)))
      | inl e ↦ first-none own t.frames e
    ]
