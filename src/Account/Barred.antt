-- ===== src/Account/Barred.antt =====
-- A user that an administrator locks or suspends (`updateUserStatus` of
-- internal/api/rest/admin_routes.go) at the login of internal/api/rest/auth.go.
use auth.Base.{
  All, Bool, Bool-cases, List, Option, String, Uuid, [], any, ap, arith, codes, eq_iff, eq_refl,
  fail, false, inl, inr, map, none, not, ok, refl, some, str_eq, subst, sym, true, ℕ, ◌&&◌, ◌==◌,
  ◌||◌, ◌∙◌, ◌∷◌, ◌≡◌, ◌≢◌,
}
use auth.Text.{trim_space}
use auth.Strings.{same_codes}
use auth.Redis.{Redis}
use auth.Session.Data.{Env, Fresh, Key, Value}
use auth.Account.Data.{
  User, UserCredential, can_login, first_row, get_by_email, get_by_username, is_live,
  normalize_email,
}
use auth.Account.Tables.{Tables, get_user, set_user, update_user}
use auth.Account.Admin.{name_taken, rewritten, update_user_status, with_status, write_user}
use auth.Account.Login.{Accounts, LoginRequest, find_user, handle_login, not_available}

-- Every row of the user that is not deleted has the status.
abbrev has_status : Uuid → String → User → Bool
has_status id status u = not (u.id == id && is_live u.deleted_at) || str_eq u.status status

first_row-All :
    {A : Type 0} (p q : A → Bool) (xs : List A) {x : A}
    → All (λ y. q y ≡ true) xs
    → first_row p xs ≡ some x
    → (p x ≡ true) × (q x ≡ true)
first_row-All p q [] every found = absurd (ground (arith, found))
first_row-All p q (y ∷ ys) {x} (here, later) found = elim (Bool-cases (p y)) [
  | inl fits ↦
      let same : y ≡ x = ground (arith, found, fits) in
      (ap p (sym same) ∙ fits, ap q (sym same) ∙ here)
  | inr other ↦
      let rest : first_row p ys ≡ some x = ground (arith, found, other) in
      first_row-All p q ys later rest
]

set_user-has_status :
    (u : User) (rows : List User)
    → All (λ row. has_status u.id u.status row ≡ true) (map (set_user u) rows)
unfolding set_user
set_user-has_status u [] = tt
set_user-has_status u (row ∷ rows) = (ground (arith, eq_refl u.status), set_user-has_status u rows)

All-true : {A : Type 0} (xs : List A) → All (λ x. true ≡ true) xs
All-true [] = tt
All-true (x ∷ xs) = (refl, All-true xs)

get_user-id : (id : Uuid) (t : Tables) {u : User} → get_user id t ≡ some u → u.id ≡ id
unfolding get_user
get_user-id id t {u} found =
    let (fits, _) =
      first_row-All (λ u. u.id == id && is_live u.deleted_at) (λ u. true) t.users (All-true t.users)
        found in
    ground (arith, fits)

rewritten-users :
    (f : User → User) (o : Option User) (t : Tables) {u' : User}
    → (rewritten f o t).0 ≡ ok u'
    → (u : User) × (o ≡ some u)
      × (f u ≡ u')
      × ((rewritten f o t).1.users ≡ map (set_user (f u)) t.users)
unfolding write_user update_user
rewritten-users f none t done = absurd (ground (arith, done))
rewritten-users f (some u) t {u'} done =
    elim (Bool-cases
      (any (λ o. o.id == (f u).id && is_live o.deleted_at) t.users && name_taken (f u) t.users)) [
        | inl clash ↦ absurd (ground (arith, done, clash))
        | inr free ↦ (u, refl, ground (arith, done, free), rw free refl)
      ]

update_user_status-users :
    (now : ℕ) (id : Uuid) (status : String) (t : Tables) {u' : User}
    → (update_user_status now id status t).0 ≡ ok u'
    → All (λ row. has_status id status row ≡ true) (update_user_status now id status t).1.users
unfolding update_user_status with_status
update_user_status-users now id status t done =
    let (u, found, made, rows) = rewritten-users (with_status now status) (get_user id t) t done in
    let same = get_user-id id t found in
    rw rows (
      subst
        (λ i.
          All (λ row. has_status i status row ≡ true)
            (map (set_user (with_status now status u)) t.users))
        same (set_user-has_status (with_status now status u) t.users))

find_user-has_status :
    (lower : ℕ → ℕ) (username : String) (id : Uuid) (status : String) (users : List User) {u : User}
    → All (λ row. has_status id status row ≡ true) users
    → find_user lower username users ≡ some u
    → u.id ≡ id
    → u.status ≡ status
unfolding find_user get_by_username get_by_email
find_user-has_status lower username id status users {u} every found same =
    let name = trim_space (codes username) in
    let email = normalize_email lower name in
    elim (Bool-cases (any (λ c. c == b'@') name)) [
      | inl by_email ↦
          let read : get_by_email email users ≡ some u = ground (arith, found, by_email) in
          let (fits, has) =
            first_row-All (λ u. same_codes (codes u.email) email && is_live u.deleted_at)
              (has_status id status) users every read in
          ground (arith, fits, has, same, eq_iff u.status status)
      | inr by_name ↦
          let read : get_by_username name users ≡ some u = ground (arith, found, by_name) in
          let (fits, has) =
            first_row-All (λ u. same_codes (codes u.username) name && is_live u.deleted_at)
              (has_status id status) users every read in
          ground (arith, fits, has, same, eq_iff u.status status)
    ]

module _ (r : Redis Key Value) (e : Env) (ttl : ℕ) (x : Accounts) where
  -- Once the status of a user is set, without an error, to one that is not "active", a request with a
  -- username and a password that names the user is refused, and no session is changed.
  pub handle_login-update_user_status :
      (now at : ℕ) (id : Uuid) (status : String) (t : Tables) (credentials : List UserCredential)
      (fresh : Fresh) (ip user_agent : String) (req : LoginRequest) (s : r.State) {u u' : User}
      → (update_user_status now id status t).0 ≡ ok u'
      → status ≢ "active"
      → (str_eq req.username "" || str_eq req.password "") ≡ false
      → find_user x.lower req.username (update_user_status now id status t).1.users ≡ some u
      → u.id ≡ id
      → handle_login r e ttl x
          (update_user_status now id status t).1.users
          credentials
          at
          fresh
          ip
          user_agent
          (some req)
          s
        ≡ (fail not_available, s)
  unfolding handle_login can_login
  handle_login-update_user_status now at id status t credentials fresh ip user_agent req s {u} done
        barred typed found same =
      let every = update_user_status-users now id status t done in
      let has = find_user-has_status x.lower req.username id status _ every found same in
      let inactive : str_eq u.status "active" ≡ false =
        ground (arith, has, barred, eq_iff u.status "active") in
      rw (typed, found, inactive) refl
