-- ===== src/Users/Change.antt =====
-- How one request to the users router changes the table of accounts.
use sql_monitor.Base.{
  ℕ, ◌≡◌, refl, sym, ◌∙◌, subst, ◌≢◌, ◌⊎◌, inl, inr, true, false, ◌&&◌, Option, none, some, List,
  [], ◌∷◌, ◌++◌, arith, nat_beq_iff, ◌==◌, nat_eq, string_eq, pair_eq, Bool-cases, Option-cases,
  int_eq, Text, list_eq,
}
use sql_monitor.Auth.{Uuid}
use sql_monitor.Users.{
  Role, UserStatus, disabled, User, is_active, is_disabled, get_user, put_user, user_named, Env,
  insert_user, create_user, update_user, disable_user, reset_user_password,
}
use sql_monitor.Users.Routes.{
  UserRequest, list_users, create, update, disable, reset_password, on_created, run_request,
}
use sql_monitor.Users.Table.{
  IsTable, get_user-id, get_user-put_self, get_user-put_ne, get_user-append, put_user-IsTable,
  append-IsTable,
}

-- The ways in which a request of the operator `op` changes the table: not at all, by one row, which
-- keeps its name, and which is not the operator's or does not become inactive, or by a new row.
pub data Change (op : User) (users users' : List User) : Type 0 where
  unchanged : users' ≡ users → Change op users users'
  one_row :
      (v w : User)
      → get_user v.id users ≡ some w
      → v.username ≡ w.username
      → (v.id ≢ op.id) ⊎ (is_active v ≡ true) ⊎ (is_active v ≡ is_active w)
      → users' ≡ put_user v users
      → Change op users users'
  new_row :
      (v : User)
      → get_user v.id users ≡ none
      → user_named v.username users ≡ none
      → users' ≡ users ++ v ∷ []
      → Change op users users'

module _ (env : Env) (op : User) (users : List User) where
  insert_user-Change :
      (v : User) → Change op users (on_created env users (insert_user env v users)).1
  unfolding insert_user on_created
  insert_user-Change v = elim (Option-cases (user_named v.username users)) [
    | inr (w, named) ↦ rw named (unchanged refl)
    | inl free ↦ elim (Option-cases (get_user v.id users)) [
      | inr (w, found) ↦ rw (free, found) (unchanged refl)
      | inl fresh ↦ rw (free, fresh) (new_row v fresh free refl)
    ]
  ]

  create-Change :
      (id : Uuid) (salt : ℕ) (name password : Text) (display_name : Option Text) (role : Role)
      → Change op users
          (run_request env op (create id salt name password display_name role) users).1
  unfolding run_request
  create-Change id salt name password display_name role =
      elim (Option-cases (env.crypto.hashpw password salt)) [
        | inl e ↦ rw (e, create_user) (unchanged refl)
        | inr (h, e) ↦ rw (e, create_user) (insert_user-Change _)
      ]

  status_kept :
      (v : User) (id : Uuid)
      → v.id ≡ id
      → ((id == op.id) && is_disabled v.status) ≡ false
      → (v.id ≢ op.id) ⊎ (is_active v ≡ true)
  status_kept v id e h = elim (Bool-cases (id == op.id)) [
    | inl own ↦ inr (ground arith)
    | inr other ↦ inl (λ q. ground arith)
  ]

  -- the row that was found by its id is written back
  written :
      (id : Uuid) (v w : User)
      → get_user id users ≡ some w
      → v.id ≡ w.id
      → v.username ≡ w.username
      → (v.id ≢ op.id) ⊎ (is_active v ≡ true) ⊎ (is_active v ≡ is_active w)
      → Change op users (put_user v users)
  written id v w found e n h =
      one_row v w
        (subst (λ x. get_user x users ≡ some w) (sym (e ∙ get_user-id id users w found)) found) n h
        refl

  update-Change :
      (id : Uuid) (display_name : Option Text) (role : Role) (status : UserStatus)
      → Change op users (run_request env op (update id display_name role status) users).1
  unfolding run_request
  update-Change id display_name role status =
      elim (Bool-cases (id == op.id && is_disabled status)) [
        | inl own ↦ rw own (unchanged refl)
        | inr guarded ↦ elim (Option-cases (get_user id users)) [
          | inl e ↦ rw (guarded, e, update_user) (unchanged refl)
          | inr (w, e) ↦
              let v = record w { display_name = display_name; role = role; status = status } in
              rw (guarded, e, update_user)
                (written id v w e refl refl
                  (widen (status_kept v id (get_user-id id users w e) guarded)))
        ]
      ]
    where
      widen : {A B C : Type 0} → A ⊎ B → A ⊎ B ⊎ C
      widen (inl a) = inl a
      widen (inr b) = inr (inl b)

  disable-Change : (id : Uuid) → Change op users (run_request env op (disable id) users).1
  unfolding run_request
  disable-Change id = elim (Bool-cases (id == op.id)) [
    | inl own ↦ rw own (unchanged refl)
    | inr other ↦ elim (Option-cases (get_user id users)) [
      | inl e ↦ rw (other, e, disable_user) (unchanged refl)
      | inr (w, e) ↦
          let own : w.id ≡ id = get_user-id id users w e in
          let apart : w.id ≢ op.id = λ q. ground arith in
          let test : (w.id == op.id) ≡ false = ground arith in
          rw (other, e, disable_user, test)
            (written id (record w { status = disabled }) w e refl refl (inl apart))
    ]
  ]

  reset-Change :
      (id : Uuid) (password : Text) (salt : ℕ)
      → Change op users (run_request env op (reset_password id password salt) users).1
  unfolding run_request
  reset-Change id password salt = elim (Option-cases (get_user id users)) [
    | inl e ↦ rw (e, reset_user_password) (unchanged refl)
    | inr (w, e) ↦ elim (Option-cases (env.crypto.hashpw password salt)) [
      | inl h ↦ rw (e, h, reset_user_password) (unchanged refl)
      | inr (k, h) ↦
          rw (e, h, reset_user_password)
            (written id (record w { password_hash = k }) w e refl refl (inr (inr refl)))
    ]
  ]

  pub run_request-Change :
      (request : UserRequest) → Change op users (run_request env op request users).1
  run_request-Change list_users = unfold run_request in unchanged refl
  run_request-Change (create id salt name password display_name role) =
      create-Change id salt name password display_name role
  run_request-Change (update id display_name role status) =
      update-Change id display_name role status
  run_request-Change (disable id) = disable-Change id
  run_request-Change (reset_password id password salt) = reset-Change id password salt

-- The account `id` is there and active.
abbrev pub Stays : Uuid → List User → Type 0
Stays id users = (u : User) × (get_user id users ≡ some u) × (is_active u ≡ true)

pub Change-Stays :
    (op : User) (users users' : List User)
    → Change op users users'
    → Stays op.id users
    → Stays op.id users'
Change-Stays op users users' (unchanged e) h = rw e h
Change-Stays op users users' (new_row v fresh free e) (u, found, on) =
    rw e (u, get_user-append op.id users (v ∷ []) u found, on)
Change-Stays op users users' (one_row v w found named keeps e) (u, own, on) =
    elim (Bool-cases (v.id == op.id)) [
      | inl q ↦
          let s : v.id ≡ op.id = (nat_beq_iff v.id op.id).0 q in
          let f : get_user op.id users ≡ some w = subst (λ x. get_user x users ≡ some w) s found in
          rw e (
            v,
            subst (λ x. get_user x (put_user v users) ≡ some v) s
                (get_user-put_self v users w found),
            ground arith,
          )
      | inr q ↦ rw e (u, get_user-put_ne op.id v users (λ s. ground arith) ∙ own, on)
    ]

pub Change-IsTable :
    (op : User) (users users' : List User) → Change op users users' → IsTable users → IsTable users'
Change-IsTable op users users' (unchanged e) t = rw e t
Change-IsTable op users users' (new_row v fresh free e) t =
    rw e (append-IsTable v users fresh free t)
Change-IsTable op users users' (one_row v w found named keeps e) t =
    rw e (put_user-IsTable v w users found named t)
