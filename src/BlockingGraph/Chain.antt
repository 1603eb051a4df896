-- ===== src/BlockingGraph/Chain.antt =====
-- What the walk from one session finds: real edges, towards a root that ends the chain.
use sql_monitor.Base.{
  ◌≡◌, refl, subst, ◌⊎◌, inl, inr, Bool, true, false, none, some, List, [], ◌∷◌, ◌++◌, map,
  map-append, nat_eq, string_eq, pair_eq, is_some, length, contains, contains-append,
  contains-append_last, All, All-append, All-map, All-contains, ℤ, int_eq, lookup,
}
use sql_monitor.BlockingGraph.{
  BlockingInput, RowMap, normalize_blocker, ChainEdge, Round, round, walk,
}
use sql_monitor.BlockingGraph.Relation.{
  IsBlockedBy, Waits, IsRoot, Reaches, Reaches-snoc, Reaches-cons,
}
use sql_monitor.BlockingGraph.Walk.{RoundOf, round-RoundOf, After, walk_rule, fuel_enough}

-- blocker and blocked session of an edge
abbrev pub link : ChainEdge → ℤ × ℤ
link (blocker, blocked, flag) = (blocker, blocked)

blocker_unique : (m : RowMap) (s b c : ℤ) → IsBlockedBy m s b → IsBlockedBy m s c → b ≡ c
blocker_unique m s b c h k = cc (h.found, k.found, h.blocker, k.blocker)

module _ (m : RowMap) where
  -- The edge is a row of the frame, it leads to `target`, and a raised flag means a deadlock.
  abbrev pub EdgeTo : ℤ → ChainEdge → Type 0
  EdgeTo target (blocker, blocked, flag) =
      IsBlockedBy m blocked blocker
      × Reaches m blocker target
      × (flag ≡ true → Waits m blocked blocked)

  EdgeTo-climb :
      (current b : ℤ)
      → IsBlockedBy m current b
      → (edge : ChainEdge) → EdgeTo current edge
      → EdgeTo b edge
  EdgeTo-climb current b k (blocker, blocked, flag) h =
      (h.0, inr (Reaches-snoc blocker current b h.1 k), h.2)

  All-EdgeTo-climb :
      (current b : ℤ) (flag : Bool) (edges : List ChainEdge)
      → IsBlockedBy m current b
      → (flag ≡ true → Waits m current current)
      → All (EdgeTo current) edges
      → All (EdgeTo b) (edges ++ (b, current, flag) ∷ [])
  All-EdgeTo-climb current b flag edges k w h =
      All-append (EdgeTo b) edges ((b, current, flag) ∷ [])
        (All-map (EdgeTo-climb current b k) edges h) ((k, inl refl, w), tt)

  -- The first edge of the chain is the one of the session that it starts from.
  abbrev pub HasFirst : ℤ → List ChainEdge → Type 0
  HasFirst start edges =
      (b : ℤ) → IsBlockedBy m start b → contains (b, start) (map link edges) ≡ true

  -- What holds before each round.
  pub record IsClimbing (start current : ℤ) (visited : List ℤ) (edges : List ChainEdge)
      : Type 0 where
    pub known : is_some (lookup current m) ≡ true
    pub trail : All (λ v. Reaches m v current) visited
    pub links : All (EdgeTo current) edges
    pub first : HasFirst start edges ⊎ (start ≡ current)

  -- What holds at the end.
  pub record IsChain (start root : ℤ) (edges : List ChainEdge) : Type 0 where
    pub ending : IsRoot m root
    pub links : All (EdgeTo root) edges
    pub first : HasFirst start edges

  HasFirst-snoc :
      (start current b : ℤ) (flag : Bool) (edges : List ChainEdge)
      → IsBlockedBy m current b
      → HasFirst start edges ⊎ (start ≡ current)
      → HasFirst start (edges ++ (b, current, flag) ∷ [])
  HasFirst-snoc start current b flag edges k (inl h) c kc = rw (map-append, contains-append, h c kc)
  HasFirst-snoc start current b flag edges k (inr e) c kc =
      let same : c ≡ b = blocker_unique m current c b (subst (λ x. IsBlockedBy m x c) e kc) k in
      rw (map-append, same, e) (contains-append_last (b, current) (map link edges))

  first_at_top :
      (start current : ℤ) (edges : List ChainEdge) (row : BlockingInput)
      → lookup current m ≡ some row
      → normalize_blocker row.blocker_session_id ≡ none
      → HasFirst start edges ⊎ (start ≡ current)
      → HasFirst start edges
  first_at_top start current edges row s n (inl h) b k = h b k
  first_at_top start current edges row s n (inr e) b k = cc (k.found, k.blocker, s, n, e)

  stopped :
      (start current b : ℤ) (visited : List ℤ) (edges : List ChainEdge) (flag : Bool)
      → IsClimbing start current visited edges
      → IsBlockedBy m current b
      → (flag ≡ true → Waits m current current)
      → IsRoot m b
      → IsChain start b (edges ++ (b, current, flag) ∷ [])
  stopped start current b visited edges flag c k w root = record {
    ending = root;
    links = All-EdgeTo-climb current b flag edges k w c.links;
    first = HasFirst-snoc start current b flag edges k c.first;
  }

  round_keeps :
      (start current : ℤ) (visited : List ℤ) (edges : List ChainEdge)
      → IsClimbing start current visited edges
      → (r : Round) → RoundOf m current visited edges r
      → After m (IsClimbing start) (IsChain start) visited r
  round_keeps start current visited edges c r (RoundOf.top row s n e) = rw e (record {
    ending = IsRoot.idle row s n;
    links = c.links;
    first = first_at_top start current edges row s n c.first;
  })
  round_keeps start current visited edges c r (RoundOf.special b k p e) =
      rw e (stopped start current b visited edges false c k (λ q. cc q) (IsRoot.special p))
  round_keeps start current visited edges c r (RoundOf.unknown b k p e) =
      rw e (stopped start current b visited edges false c k (λ q. cc q) (IsRoot.unknown p))
  round_keeps start current visited edges c r (RoundOf.cycle b k p e) =
      let back : Reaches m b current =
        All-contains (λ v. Reaches m v current) b visited c.trail p in
      rw e (
        stopped start current b visited edges true c k (λ _. Reaches-cons current b current k back)
          (IsRoot.cyclic (Reaches-snoc b current b back k)))
  round_keeps start current visited edges c r (RoundOf.onward b k new known e) = rw e (
    record {
      known = known;
      trail = (inl refl, All-map (λ v h. inr (Reaches-snoc v current b h k)) visited c.trail);
      links = All-EdgeTo-climb current b false edges k (λ q. cc q) c.links;
      first = inl (HasFirst-snoc start current b false edges k c.first);
    },
    new,
    known,
    refl,
  )

  -- From a session of the map the walk ends, with the chain of that session.
  pub walk-IsChain :
      (s : ℤ)
      → is_some (lookup s m) ≡ true
      → (root : ℤ) × (found : List ChainEdge) × (walk m (length m) s (s ∷ []) []
          ≡ some (root, found))
        × IsChain s root found
  walk-IsChain s known =
      walk_rule m (IsClimbing s) (IsChain s)
        (λ current visited edges c.
          round_keeps s current visited edges c (round m current visited edges)
            (round-RoundOf m current visited edges c.known))
        (length m) s (s ∷ []) [] (fuel_enough m s known)
        (record { known = known; trail = (inl refl, tt); links = tt; first = inr refl })
