-- ===== src/Users/Table.antt =====
-- The table of accounts under the writes of the services.
use sql_monitor.Base.{
  ◌≡◌, refl, ◌≢◌, none, some, none≢some, List, [], ◌∷◌, ◌++◌, map, map-append, arith, nat_eq,
  string_eq, pair_eq, beq_refl, is_some, contains, Distinct, Distinct-snoc, int_eq, Text,
  list_beq_iff, list_eq,
}
use sql_monitor.Auth.{Uuid}
use sql_monitor.Users.{User, get_user, put_user, user_named}

-- the primary key and the unique constraint on the name
pub record IsTable (users : List User) : Type 0 where
  pub ids : Distinct (map (λ (u : User). u.id) users)
  pub names : Distinct (map (λ (u : User). u.username) users)

pub get_user-id :
    (id : Uuid) (users : List User) (u : User) → get_user id users ≡ some u → u.id ≡ id
unfolding get_user
get_user-id id [] u h = absurd (none≢some h)
get_user-id id (v ∷ users) u h = ground (arith, get_user-id id users u)

pub get_user-put_self :
    (v : User) (users : List User) (w : User)
    → get_user v.id users ≡ some w
    → get_user v.id (put_user v users) ≡ some v
unfolding get_user put_user
get_user-put_self v [] w h = absurd (none≢some h)
get_user-put_self v (u ∷ users) w h = ground (arith, get_user-put_self v users w)

pub get_user-put_ne :
    (id : Uuid) (v : User) (users : List User)
    → v.id ≢ id
    → get_user id (put_user v users) ≡ get_user id users
unfolding get_user put_user
get_user-put_ne id v [] h = refl
get_user-put_ne id v (u ∷ users) h = ground (arith, get_user-put_ne id v users h)

pub get_user-append :
    (id : Uuid) (users more : List User) (u : User)
    → get_user id users ≡ some u
    → get_user id (users ++ more) ≡ some u
unfolding get_user
get_user-append id [] more u h = absurd (none≢some h)
get_user-append id (v ∷ users) more u h = ground (arith, get_user-append id users more u)

pub map-id_put_user :
    (v : User) (users : List User)
    → map (λ (u : User). u.id) (put_user v users) ≡ map (λ (u : User). u.id) users
unfolding put_user
map-id_put_user v [] = refl
map-id_put_user v (u ∷ users) = ground (arith, map-id_put_user v users)

pub map-username_put_user :
    (v w : User) (users : List User)
    → get_user v.id users ≡ some w
    → v.username ≡ w.username
    → map (λ (u : User). u.username) (put_user v users) ≡ map (λ (u : User). u.username) users
unfolding put_user get_user
map-username_put_user v w [] h e = absurd (none≢some h)
map-username_put_user v w (u ∷ users) h e = ground (arith, map-username_put_user v w users)

pub put_user-IsTable :
    (v w : User) (users : List User)
    → get_user v.id users ≡ some w
    → v.username ≡ w.username
    → IsTable users
    → IsTable (put_user v users)
put_user-IsTable v w users h e t = record {
  ids = rw (map-id_put_user v users) t.ids;
  names = rw (map-username_put_user v w users h e) t.names;
}

contains-ids :
    (id : Uuid) (users : List User)
    → contains id (map (λ (u : User). u.id) users) ≡ is_some (get_user id users)
unfolding get_user
contains-ids id [] = refl
contains-ids id (v ∷ users) = ground (arith, contains-ids id users)

contains-names :
    (name : Text) (users : List User)
    → contains name (map (λ (u : User). u.username) users) ≡ is_some (user_named name users)
unfolding user_named
contains-names name [] = refl
contains-names name (v ∷ users) =
    ground
      (arith, contains-names name users, list_beq_iff v.username name, list_beq_iff name v.username)

pub append-IsTable :
    (v : User) (users : List User)
    → get_user v.id users ≡ none
    → user_named v.username users ≡ none
    → IsTable users
    → IsTable (users ++ v ∷ [])
append-IsTable v users h k t = record {
  ids = rw map-append (Distinct-snoc v.id _ t.ids (rw (contains-ids v.id users, h)));
  names =
      rw map-append (Distinct-snoc v.username _ t.names (rw (contains-names v.username users, k)));
}

pub user_named-append :
    (v : User) (users : List User)
    → user_named v.username users ≡ none
    → user_named v.username (users ++ v ∷ []) ≡ some v
unfolding user_named
user_named-append v [] h = rw beq_refl
user_named-append v (u ∷ users) h = ground (arith, user_named-append v users)

pub user_named-name :
    (name : Text) (users : List User) (u : User)
    → user_named name users ≡ some u
    → u.username ≡ name
unfolding user_named
user_named-name name [] u h = absurd (none≢some h)
user_named-name name (v ∷ users) u h =
    ground (arith, user_named-name name users u, list_beq_iff v.username name)

-- A row that is found by its name is found by its id.
pub get_user-of_named :
    (name : Text) (users : List User) (u : User)
    → Distinct (map (λ (v : User). v.id) users)
    → user_named name users ≡ some u
    → get_user u.id users ≡ some u
unfolding user_named get_user
get_user-of_named name [] u d h = absurd (none≢some h)
get_user-of_named name (v ∷ users) u d h =
    ground
      (arith, get_user-of_named name users u d.1, contains-ids v.id users, get_user-id u.id users u)

-- And a row that is found by its id is found by its name.
pub user_named-of_get :
    (id : Uuid) (users : List User) (u : User)
    → Distinct (map (λ (v : User). v.username) users)
    → get_user id users ≡ some u
    → user_named u.username users ≡ some u
unfolding user_named get_user
user_named-of_get id [] u d h = absurd (none≢some h)
user_named-of_get id (v ∷ users) u d h = ground (
  arith,
  user_named-of_get id users u d.1,
  contains-names v.username users,
  list_beq_iff v.username u.username,
  list_beq_iff v.username v.username,
)
