-- ===== src/Users/Logins.antt =====
-- Who may log in.
use hy_panel.Base.{
  ℕ, String, ◌≡◌, refl, Bool, true, false, ◌&&◌, none, some, Option-cases, Bool-cases, List, [],
  ◌∷◌, ◌++◌, map, arith, ◌==◌, ==_refl, str_eq, eq_iff, eq_refl, if◌then◌else◌, first_of?, any_of,
  inl, inr,
}
use hy_panel.Base.Outcome.{ok}
use hy_panel.Database.{User}
use hy_panel.Database.Tx.{World, pure, fail, lift, ◌>>=◌, query, query->>=-ok, execute-ok, attempt}
use hy_panel.Users.{
  create_user, save_user, has_login, update_user, update_first_user, checked_user, check_user,
  name_of, login, change_user, change_pass,
}

-- Some user has this name and this password.
abbrev pub CanLogin : String → String → World → Type 0
CanLogin username password w = any_of (has_login username password) w.tables.users ≡ true

found_login :
    (username password : String) (users : List User) (u : User)
    → first_of? (has_login username password) users ≡ some u
    → (u.username ≡ username) × (any_of (has_login username password) users ≡ true)
unfolding has_login
found_login username password [] u e = cc
found_login username password (r ∷ rs) u e =
    ground (arith, found_login username password rs u, eq_iff r.username username)

missed_login :
    (username password : String) (users : List User)
    → first_of? (has_login username password) users ≡ none
    → any_of (has_login username password) users ≡ false
missed_login username password [] e = refl
missed_login username password (r ∷ rs) e = ground (arith, missed_login username password rs)

-- Whichever statements fail: Login returns a name only if a user has this name and this password,
-- and then it returns that name; where no statement fails, it returns it if there is one.
pub login_lem :
    (username password text : String) (w : World)
    → ((name : String)
        → (login username password text w).0 ≡ ok name
        → (name ≡ username) × CanLogin username password w)
      × (w.faults ≡ []
          → CanLogin username password w
          → (login username password text w).0 ≡ ok username)
unfolding login check_user checked_user name_of ◌>>=◌ query lift attempt pure
login_lem username password text w =
    elim (Option-cases (first_of? (has_login username password) w.tables.users)) [
      | inl e ↦ ground (arith, missed_login username password w.tables.users e)
      | inr (u, e) ↦ ground (arith, found_login username password w.tables.users u e)
    ]

any_of-saved :
    (p : User → Bool) (u v : User) (users : List User)
    → p v ≡ true
    → (q : User → Bool) → first_of? q users ≡ some u
    → any_of p (map (λ r. if r.id == u.id then v else r) users) ≡ true
any_of-saved p u v [] h q e = cc
any_of-saved p u v (r ∷ rs) h q e = ground (arith, any_of-saved p u v rs h q, ==_refl u.id)

any_of-last :
    (p : User → Bool) (v : User) (users : List User)
    → p v ≡ true
    → any_of p (users ++ v ∷ []) ≡ true
any_of-last p v [] h = ground arith
any_of-last p v (r ∷ rs) h = ground (arith, any_of-last p v rs h)

-- After ChangePass has returned nil, the new name and password are good for a login.
pub change_pass-CanLogin :
    (id : ℕ) (old_pass new_user new_pass : String) (w w' : World)
    → change_pass id old_pass new_user new_pass w ≡ (ok tt, w')
    → CanLogin new_user new_pass w'
unfolding change_pass change_user save_user has_login fail
change_pass-CanLogin id old_pass new_user new_pass w w' e =
    let (w₁, t₁, r) = query->>=-ok _ _ w w' tt e in
    elim (Option-cases (first_of? (λ u. u.id == id && str_eq u.password old_pass) w.tables.users)) [
      | inl q ↦ cc (rw q at r)
      | inr (u, q) ↦
          let t₂ = execute-ok _ w₁ w' (rw q at r) in
          rw (t₂, t₁)
            (any_of-saved (has_login new_user new_pass) u
              (record u { username = new_user; password = new_pass }) w.tables.users
              (ground (arith, eq_refl new_user, eq_refl new_pass)) _ q)
    ]

-- After UpdateFirstUser has returned nil, its name and password are good for a login, and neither
-- is empty.
pub update_first_user-CanLogin :
    (username password : String) (w w' : World)
    → update_first_user username password w ≡ (ok tt, w')
    → (str_eq username "" ≡ false) × (str_eq password "" ≡ false) × CanLogin username password w'
unfolding update_first_user update_user create_user save_user has_login fail
update_first_user-CanLogin username password w w' e = elim (Bool-cases (str_eq username "")) [
  | inl a ↦ cc (rw a at e)
  | inr a ↦ elim (Bool-cases (str_eq password "")) [
    | inl b ↦ cc (rw (a, b) at e)
    | inr b ↦ (a, b, go (rw (a, b) at e))
  ]
]
  where
    go :
        (query (λ t. first_of? (λ u. true) t.users) >>= update_user username password) w
          ≡ (ok tt, w')
        → CanLogin username password w'
    go f =
        let (w₁, t₁, r) =
          query->>=-ok (λ t. first_of? (λ u. true) t.users) (update_user username password) w w' tt
            f in
        elim (Option-cases (first_of? (λ u. true) w.tables.users)) [
          | inl q ↦
              let t₂ = execute-ok (create_user username password) w₁ w' (rw q at r) in
              rw (t₂, t₁)
                (any_of-last (has_login username password)
                  (record {
                    id = w.tables.next_user_id;
                    username = username;
                    password = password;
                    last_logins = "";
                  })
                  w.tables.users (ground (arith, eq_refl username, eq_refl password)))
          | inr (u, q) ↦
              let t₂ =
                execute-ok (save_user (record u { username = username; password = password })) w₁ w'
                  (rw q at r) in
              rw (t₂, t₁)
                (any_of-saved (has_login username password) u
                  (record u { username = username; password = password }) w.tables.users
                  (ground (arith, eq_refl username, eq_refl password)) (λ x. true) q)
        ]
