-- ===== src/Users/Invariant.antt =====
-- What no sequence of requests to the users router can do to the accounts.
use sql_monitor.Base.{
  ◌≡◌, sym, ap, ◌∙◌, subst, ◌⊎◌, inl, inr, true, some, none≢some, List, [], ◌∷◌, arith, nat_eq,
  string_eq, pair_eq, Bool-cases, Option-cases, int_eq, Text, codes, list_eq, lookup, some-eq,
}
use sql_monitor.Auth.{Uuid, Time, decode_access_token}
use sql_monitor.Users.{
  Role, admin, User, is_active, is_admin, get_user, Env, subject_id, active_only, current_user,
}
use sql_monitor.Users.Routes.{UserRequest, is_valid, handle, handle_all}
use sql_monitor.Users.Table.{IsTable, get_user-id}
use sql_monitor.Users.Change.{Change, run_request-Change, Stays, Change-Stays, Change-IsTable}

module _ (env : Env) where
  -- the table after a request is the table before, or one changed by the authenticated operator
  handle-Change :
      (token : Text) (now : Time) (request : UserRequest) (users : List User)
      → ((handle env token now request users).1 ≡ users)
        ⊎ ((op : User) × (current_user env token now users ≡ some op)
            × (op.role ≡ admin)
            × Change op users (handle env token now request users).1)
  unfolding handle
  handle-Change token now request users = elim (Option-cases (current_user env token now users)) [
    | inl e ↦ inl (rw (e, handle))
    | inr (op, e) ↦ elim (Bool-cases (is_admin op.role)) [
      | inl yes_admin ↦ elim (Bool-cases (is_valid request)) [
        | inl valid ↦ inr (
          op,
          e,
          role_of op.role yes_admin,
          rw (e, handle, yes_admin, valid) (run_request-Change env op users request),
        )
        | inr bad ↦ inl (rw (e, handle, yes_admin, bad))
      ]
      | inr no_admin ↦ inl (rw (e, handle, no_admin))
    ]
  ]
    where
      role_of : (r : Role) → is_admin r ≡ true → r ≡ admin
      role_of r h = ground arith

  -- A request to the users router leaves the table as it was, unless its token authenticates an
  -- account whose role is admin.
  pub handle_authorized :
      (token : Text) (now : Time) (request : UserRequest) (users : List User)
      → ((handle env token now request users).1 ≡ users)
        ⊎ ((op : User) × (current_user env token now users ≡ some op) × (op.role ≡ admin))
  handle_authorized token now request users = weaken (handle-Change token now request users)
    where
      weaken :
          ((handle env token now request users).1 ≡ users)
            ⊎ ((op : User) × (current_user env token now users ≡ some op)
                × (op.role ≡ admin)
                × Change op users (handle env token now request users).1)
          → ((handle env token now request users).1 ≡ users)
            ⊎ ((op : User) × (current_user env token now users ≡ some op) × (op.role ≡ admin))
      weaken (inl same) = inl same
      weaken (inr (op, e, r, c)) = inr (op, e, r)

  handle-IsTable :
      (token : Text) (now : Time) (request : UserRequest) (users : List User)
      → IsTable users
      → IsTable (handle env token now request users).1
  handle-IsTable token now request users t = elim (handle-Change token now request users) [
    | inl same ↦ subst IsTable (sym same) t
    | inr (op, e, r, c) ↦ Change-IsTable op users _ c t
  ]

  -- If no two accounts have the same id or the same username, then this stays so whatever
  -- requests are served, with whatever tokens.
  pub handle_all-IsTable :
      (requests : List (Text × Time × UserRequest)) (users : List User)
      → IsTable users
      → IsTable (handle_all env requests users)
  unfolding handle_all
  handle_all-IsTable [] users t = t
  handle_all-IsTable ((token, now, request) ∷ rest) users t =
      handle_all-IsTable rest (handle env token now request users).1
        (handle-IsTable token now request users t)

  -- Who a token stands for depends on the table only through one row.
  current_user-row :
      (token : Text) (now : Time) (users : List User) (op : User)
      → current_user env token now users ≡ some op
      → (id : Uuid) × (active_only env (get_user id users) ≡ some op)
        × ((us : List User) → current_user env token now us ≡ active_only env (get_user id us))
  unfolding current_user
  current_user-row token now users op h =
      elim (Option-cases (decode_access_token env.crypto token env.secret_key now)) [
        | inl e ↦ absurd (none≢some (rw (e, current_user) at h))
        | inr (payload, e) ↦ elim (Option-cases (subject_id env (lookup (codes "sub") payload))) [
          | inl f ↦ absurd (none≢some (rw (e, f, current_user) at h))
          | inr (id, f) ↦ (id, rw (e, f, current_user) at h, λ us. rw (e, f, current_user))
        ]
      ]

  active_row :
      (id : Uuid) (users : List User) (op : User)
      → active_only env (get_user id users) ≡ some op
      → (get_user id users ≡ some op) × (is_active op ≡ true)
  unfolding active_only
  active_row id users op h = elim (Option-cases (get_user id users)) [
    | inl e ↦ absurd (none≢some (rw (e, active_only) at h))
    | inr (u, e) ↦ elim (Bool-cases (is_active u)) [
      | inl on ↦
          let same : some u ≡ some op = rw (e, active_only, on) at h in
          (rw e same, subst (λ (v : User). is_active v ≡ true) (some-eq u op same) on)
      | inr off ↦ absurd (none≢some (rw (e, active_only, off) at h))
    ]
  ]

  Stays-current_user :
      (id : Uuid) (users : List User)
      → Stays id users
      → (op : User) × (active_only env (get_user id users) ≡ some op) × (op.id ≡ id)
  unfolding active_only
  Stays-current_user id users (u, found, on) =
      (u, rw (found, active_only, on), get_user-id id users u found)

  -- An operator does not lock itself out: if a token authenticates an account before a request of
  -- that token to the users router, then afterwards the token still authenticates the account with
  -- that id, whatever the request was and however it ended.
  pub handle_keeps_operator :
      (token : Text) (now : Time) (request : UserRequest) (users : List User) (op : User)
      → current_user env token now users ≡ some op
      → (op' : User) × (current_user env token now (handle env token now request users).1
          ≡ some op')
        × (op'.id ≡ op.id)
  handle_keeps_operator token now request users op h =
      let (id, row, again) = current_user-row token now users op h in
      let (found, on) = active_row id users op row in
      let own : op.id ≡ id = get_user-id id users op found in
      let users' = (handle env token now request users).1 in
      let stays : Stays id users' = elim (handle-Change token now request users) [
        | inl same ↦ subst (Stays id) (sym same) (op, found, on)
        | inr (op₂, e, r, c) ↦
            let who : op₂ ≡ op = some-eq op₂ op (sym e ∙ h) in
            subst (λ x. Stays x users') (ap (λ (v : User). v.id) who ∙ own)
              (Change-Stays op₂ users users' c (
                subst (λ x. Stays x users) (sym (ap (λ (v : User). v.id) who ∙ own))
                  (op, found, on)))
      ] in
      let (op', e, same_id) = Stays-current_user id users' stays in
      (op', again users' ∙ e, same_id ∙ sym own)
