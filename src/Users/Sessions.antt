-- ===== src/Users/Sessions.antt =====
-- Passwords and logins: what was set is accepted, and a login opens a session of that account.
use sql_monitor.Base.{
  ℕ, ◌+◌, ◌≤◌, ◌≡◌, refl, sym, ◌∙◌, subst, ◌≢◌, inl, inr, true, Option, none, some, none≢some, List,
  [], ◌∷◌, ◌++◌, arith, nat_eq, string_eq, pair_eq, Bool-cases, Option-cases, int_eq, Text, codes,
  list_eq, some-eq,
}
use sql_monitor.Auth.{
  Uuid, Time, seconds, text, Claims, create_access_token, verify_password, hash_password, lifetime,
}
use sql_monitor.Auth.Tokens.{decode-create_access_token}
use sql_monitor.Users.{
  Role, User, active, is_active, get_user, put_user, user_named, answer, Env, created, insert_user,
  create_user, reset_user_password, authenticate_user, subject_id, active_only, current_user,
}
use sql_monitor.Users.Table.{
  IsTable, get_user-id, get_user-of_named, get_user-put_self, user_named-append, user_named-name,
  user_named-of_get, put_user-IsTable,
}
use sql_monitor.Users.Login.{
  LoginRequest, LoginResponse, captcha_passes, open_session, role_name, login,
}

module _ (env : Env) where
  accepted :
      (user : User) (name password : Text) (salt : ℕ) (users : List User)
      → user_named name users ≡ some user
      → is_active user ≡ true
      → env.crypto.hashpw password salt ≡ some user.password_hash
      → authenticate_user env name password users ≡ some user
  unfolding authenticate_user verify_password
  accepted user name password salt users named on hashed = rw (
    named,
    authenticate_user,
    on,
    env.crypto.checkpw-hashpw password salt user.password_hash hashed,
    verify_password,
  )

  -- Whoever is created can log in: after `create_user` the new account authenticates with the name
  -- and the password that it was created with.
  pub authenticate-create_user :
      (id : Uuid) (salt : ℕ) (name password : Text) (display_name : Option Text) (role : Role)
      (users users' : List User) (user : User)
      → create_user env id salt name password display_name role users ≡ created user users'
      → authenticate_user env name password users' ≡ some user
  unfolding create_user insert_user hash_password
  authenticate-create_user id salt name password display_name role users users' user made =
      elim (Option-cases (env.crypto.hashpw password salt)) [
        | inl e ↦ cc (rw (e, create_user) at made)
        | inr (h, e) ↦ elim (Option-cases (user_named name users)) [
          | inr (u, f) ↦ cc (rw (e, create_user, f) at made)
          | inl f ↦ elim (Option-cases (get_user id users)) [
            | inr (u, g) ↦ cc (rw (e, create_user, f, g) at made)
            | inl g ↦
                let v : User = record {
                  id = id;
                  username = name;
                  password_hash = h;
                  display_name = display_name;
                  role = role;
                  status = active;
                } in
                let q : created v (users ++ v ∷ []) ≡ created user users' =
                  rw (e, create_user, f, g) at made in
                let same_user : user ≡ v = cc q in
                let same_table : users' ≡ users ++ v ∷ [] = cc q in
                rw (same_user, same_table)
                  (accepted v name password salt (users ++ v ∷ []) (user_named-append v users f)
                    refl e)
          ]
        ]
      ]

  -- In a table without two equal ids or usernames, after a password reset that succeeds, the
  -- account, if it is active, authenticates with its name and the new password.
  authenticate-reset_user_password :
      (id : Uuid) (password : Text) (salt : ℕ) (users : List User) (user : User)
      → IsTable users
      → (reset_user_password env id password salt users).0 ≡ some (some user)
      → is_active user ≡ true
      → authenticate_user env user.username password
          (reset_user_password env id password salt users).1
        ≡ some user
  unfolding reset_user_password hash_password
  authenticate-reset_user_password id password salt users user t h on =
      elim (Option-cases (get_user id users)) [
        | inl e ↦ cc (rw (e, reset_user_password) at h)
        | inr (w, e) ↦ elim (Option-cases (env.crypto.hashpw password salt)) [
          | inl f ↦ cc (rw (e, f, reset_user_password) at h)
          | inr (k, f) ↦
              let v = record w { password_hash = k } in
              let q : some (some v) ≡ some (some user) = rw (e, f, reset_user_password) at h in
              let same_user : user ≡ v = cc q in
              let own : w.id ≡ id = get_user-id id users w e in
              let found : get_user v.id users ≡ some w =
                subst (λ x. get_user x users ≡ some w) (sym own) e in
              let t' = put_user-IsTable v w users found refl t in
              let on' : is_active v ≡ true =
                subst (λ (x : User). is_active x ≡ true) same_user on in
              rw (e, f, reset_user_password, same_user)
                (accepted v w.username password salt (put_user v users)
                  (user_named-of_get v.id (put_user v users) v t'.names
                    (get_user-put_self v users w found))
                  on' f)
        ]
      ]

  authenticate_user-checks :
      (name password : Text) (users : List User) (user : User)
      → authenticate_user env name password users ≡ some user
      → (user_named name users ≡ some user)
        × (is_active user ≡ true)
        × (verify_password env.crypto password user.password_hash ≡ true)
  unfolding authenticate_user
  authenticate_user-checks name password users user h =
      elim (Option-cases (user_named name users)) [
        | inl e ↦ absurd (none≢some (rw (e, authenticate_user) at h))
        | inr (w, e) ↦ elim (Bool-cases (is_active w)) [
          | inr off ↦ absurd (none≢some (rw (e, authenticate_user, off) at h))
          | inl on ↦ elim (Bool-cases (verify_password env.crypto password w.password_hash)) [
            | inr bad ↦ absurd (none≢some (rw (e, authenticate_user, on, bad) at h))
            | inl good ↦
                let q : some w ≡ some user = rw (e, authenticate_user, on, good) at h in
                let same : w ≡ user = some-eq w user q in
                (
                  e ∙ q,
                  subst (λ (x : User). is_active x ≡ true) same on,
                  subst (λ (x : User). verify_password env.crypto password x.password_hash ≡ true)
                      same good,
                )
          ]
        ]
      ]

  -- a token for the text of an account's id
  token_stands_for :
      (user : User) (users : List User) (s token : Text) (now later : Time)
      → get_user user.id users ≡ some user
      → is_active user ≡ true
      → s ≢ []
      → env.parse_uuid s ≡ some user.id
      → create_access_token env.crypto s
          (role_name user.role)
          ((codes "username", text user.username) ∷ [])
          none
          env.secret_key
          now
        ≡ some token
      → later + seconds 1 ≤ now + seconds 3600
      → current_user env token later users ≡ some user
  unfolding current_user lifetime
  token_stands_for user users [] token now later found on ne parsed made fresh = absurd (ne refl)
  token_stands_for user users (c ∷ s) token now later found on ne parsed made fresh =
      let (payload, read, sub, _, _) =
        decode-create_access_token env.crypto c s (role_name user.role)
          ((codes "username", text user.username) ∷ []) none env.secret_key token now later made
          refl fresh in
      rw (read, current_user, sub, subject_id, parsed, found, active_only, on)

  -- the token of a session stands for its account
  session_of :
      (user : User) (users : List User) (now later : Time) (r : LoginResponse)
      → get_user user.id users ≡ some user
      → is_active user ≡ true
      → open_session env now user ≡ answer r
      → later + seconds 1 ≤ now + seconds 3600
      → (current_user env r.access_token later users ≡ some user)
        × (r.user_id ≡ env.uuid_str user.id)
  unfolding open_session
  session_of user users now later r found on opened fresh =
      let name_claim : Claims = (codes "username", text user.username) ∷ [] in
      elim (Option-cases (
        create_access_token env.crypto (env.uuid_str user.id) (role_name user.role) name_claim none
          env.secret_key now)) [
            | inl e ↦ cc (rw (e, open_session) at opened)
            | inr (token, e) ↦
                let q : answer (record {
                  access_token = token;
                  user_id = env.uuid_str user.id;
                  username = user.username;
                  display_name = user.display_name;
                  role = user.role;
                })
                    ≡ answer r =
                  rw (e, open_session) at opened in
                let same_token : r.access_token ≡ token = ground (arith, q) in
                let same_id : r.user_id ≡ env.uuid_str user.id = ground (arith, q) in
                (
                  rw same_token (
                      token_stands_for user users (env.uuid_str user.id) token now later found on
                        (env.str_not_empty user.id) (env.parse-str user.id) e fresh),
                  same_id,
                )
          ]

  -- In a table without two equal ids or usernames, what a login that succeeds has checked and
  -- given: the captcha was accepted, the account with that name is active and the password is its
  -- own, and until a second before the token expires after an hour it authenticates that account
  -- in the same table.
  pub login_opens_session :
      (request : LoginRequest) (now later : Time) (users : List User) (r : LoginResponse)
      → IsTable users
      → login env request now users ≡ answer r
      → later + seconds 1 ≤ now + seconds 3600
      → (user : User) × (captcha_passes env request now ≡ true)
        × (user.username ≡ request.username)
        × (is_active user ≡ true)
        × (verify_password env.crypto request.password user.password_hash ≡ true)
        × (r.user_id ≡ env.uuid_str user.id)
        × (current_user env r.access_token later users ≡ some user)
  unfolding login
  login_opens_session request now later users r t h fresh =
      elim (Bool-cases (captcha_passes env request now)) [
        | inr no_captcha ↦ cc (rw (login, no_captcha) at h)
        | inl captcha ↦
            elim (Option-cases (authenticate_user env request.username request.password users)) [
              | inl e ↦ cc (rw (login, captcha, e) at h)
              | inr (user, e) ↦
                  let opened : open_session env now user ≡ answer r = rw (login, captcha, e) at h in
                  let (named, on, good) =
                    authenticate_user-checks request.username request.password users user e in
                  let found = get_user-of_named request.username users user t.ids named in
                  let (current, id) = session_of user users now later r found on opened fresh in
                  (
                    user,
                    captcha,
                    user_named-name request.username users user named,
                    on,
                    good,
                    id,
                    current,
                  )
            ]
      ]
