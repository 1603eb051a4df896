-- ===== src/BlockingGraph/Relation.antt =====
-- What the rows of a frame say about who waits for whom, independent of the code that walks it.
use sql_monitor.Base.{
  ◌≡◌, sym, subst, ◌⊎◌, inl, inr, true, none, some, nat_eq, string_eq, pair_eq, contains, ℤ, int_eq,
  lookup,
}
use sql_monitor.BlockingGraph.{BlockingInput, RowMap, normalize_blocker, special_blockers}

-- Session `s` has a row that names `b` as its blocker.
pub record IsBlockedBy (m : RowMap) (s b : ℤ) : Type 0 where
  pub row : BlockingInput
  pub found : lookup s m ≡ some row
  pub blocker : normalize_blocker row.blocker_session_id ≡ some b

-- One step or more along the blockers.
pub data Waits (m : RowMap) : ℤ → ℤ → Type 0 where
  direct : {s b : ℤ} → IsBlockedBy m s b → Waits m s b
  through : {s t b : ℤ} → IsBlockedBy m s t → Waits m t b → Waits m s b

-- Where a chain may end: at a special blocker, at a session with no row, at one that waits for
-- nobody, or on a cycle.
pub data IsRoot (m : RowMap) (root : ℤ) : Type 0 where
  special : contains root special_blockers ≡ true → IsRoot m root
  unknown : lookup root m ≡ none → IsRoot m root
  idle :
      (row : BlockingInput)
      → lookup root m ≡ some row
      → normalize_blocker row.blocker_session_id ≡ none
      → IsRoot m root
  cyclic : Waits m root root → IsRoot m root

-- zero steps or more
abbrev pub Reaches : RowMap → ℤ → ℤ → Type 0
Reaches m s b = (s ≡ b) ⊎ Waits m s b

module _ {m : RowMap} where
  pub Waits-snoc : {s t b : ℤ} → Waits m s t → IsBlockedBy m t b → Waits m s b
  Waits-snoc (direct h) k = through h (direct k)
  Waits-snoc (through h w) k = through h (Waits-snoc w k)

  pub Reaches-snoc : (s t b : ℤ) → Reaches m s t → IsBlockedBy m t b → Waits m s b
  Reaches-snoc s t b (inl e) k = direct (subst (λ x. IsBlockedBy m x b) (sym e) k)
  Reaches-snoc s t b (inr w) k = Waits-snoc w k

  pub Reaches-cons : (s t b : ℤ) → IsBlockedBy m s t → Reaches m t b → Waits m s b
  Reaches-cons s t b k (inl e) = direct (subst (λ x. IsBlockedBy m s x) e k)
  Reaches-cons s t b k (inr w) = through k w
