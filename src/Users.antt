-- ===== src/Users.antt =====
-- service/user.go: the panel's own users and their tokens. The rows of a table stand in the order of
-- their ids, so that First finds the first one. The time, its text and a random token are arguments.
pub mod Logins
pub mod Tokens
use hy_panel.Base.{
  ℕ, suc, String, Bool, true, false, ◌&&◌, ◌||◌, Option, none, some, List, [], ◌∷◌, ◌++◌, map, ◌==◌,
  str_eq, if◌then◌else◌, keep_if, first_of?,
}
use hy_panel.Base.Int64.{lt_int64, add_int64, mul_int64}
use hy_panel.Base.Outcome.{
  Outcome, ok, err, not_found, panicked, empty_name, empty_password, wrong_login,
}
use hy_panel.Database.{User, Token, Tables}
use hy_panel.Database.Tx.{World, Tx, pure, fail, lift, ◌>>=◌, ◌>>◌, query, execute, attempt}

unfoldable pub create_user : String → String → Tables → Tables
create_user username password t = record t {
  users =
      t.users
      ++ record { id = t.next_user_id; username = username; password = password; last_logins = "" }
        ∷ [];
  next_user_id = suc t.next_user_id;
}

-- Save of a user that was read before.
unfoldable pub save_user : User → Tables → Tables
save_user u t = record t { users = map (λ r. if r.id == u.id then u else r) t.users }

unfoldable pub has_login : String → String → User → Bool
has_login username password u = str_eq u.username username && str_eq u.password password

-- UpdateFirstUser, once the first user was looked for
unfoldable pub update_user : String → String → Option User → Tx (Unit {0})
unfolding create_user save_user
update_user username password none = execute (create_user username password)
update_user username password (some u) =
    execute (save_user (record u { username = username; password = password }))

-- UpdateFirstUser
unfoldable pub update_first_user : String → String → Tx (Unit {0})
unfolding update_user
update_first_user username password =
    if str_eq username ""
    then fail empty_name
    else if str_eq password ""
    then fail empty_password
    else query (λ t. first_of? (λ u. true) t.users) >>= update_user username password

unfoldable pub stamp_login : String → String → Tables → Tables
stamp_login username text t = record t {
  users =
      map (λ r. if str_eq r.username username then record r { last_logins = text } else r) t.users;
}

-- CheckUser, once the user was looked for: an error is a user who was not found.
unfoldable pub checked_user :
    String → String → Outcome (Option User) × World → Outcome (Option User) × World
unfolding stamp_login
checked_user username text (err e, w) = (ok none, w)
checked_user username text (ok none, w) = (ok none, w)
checked_user username text (ok (some u), w) =
    (attempt (execute (stamp_login username text)) >> pure (some u)) w

-- CheckUser
unfoldable pub check_user : String → String → String → Tx (Option User)
unfolding checked_user has_login
check_user username password text w =
    checked_user username text (query (λ t. first_of? (has_login username password) t.users) w)

unfoldable pub name_of : Option User → Outcome String
name_of none = err wrong_login
name_of (some u) = ok u.username

-- Login
unfoldable pub login : String → String → String → Tx String
unfolding check_user name_of
login username password text = do user ← check_user username password text; lift (name_of user)

-- ChangePass, once the user was looked for
unfoldable pub change_user : String → String → Option User → Tx (Unit {0})
unfolding save_user
change_user new_user new_pass none = fail not_found
change_user new_user new_pass (some u) =
    execute (save_user (record u { username = new_user; password = new_pass }))

-- ChangePass
unfoldable pub change_pass : ℕ → String → String → String → Tx (Unit {0})
unfolding change_user
change_pass id old_pass new_user new_pass =
    query (λ t. first_of? (λ u. u.id == id && str_eq u.password old_pass) t.users)
    >>= change_user new_user new_pass

-- Scan of an id into a number that stays 0 if there is no row.
unfoldable pub user_id_of : String → List User → ℕ
user_id_of username users = elim (first_of? (λ u. str_eq u.username username) users) [
  | none ↦ 0
  | some u ↦ u.id
]

unfoldable pub token_expiry : ℕ → ℕ → ℕ
token_expiry expiry now =
    if lt_int64 0 expiry then add_int64 (mul_int64 expiry 86400) now else expiry

unfoldable pub create_token : ℕ → ℕ → String → String → Tables → Tables
create_token user_id expiry desc token t = record t {
  tokens =
      t.tokens
      ++ record {
        id = t.next_token_id;
        desc = desc;
        token = token;
        expiry = expiry;
        user_id = user_id;
      }
        ∷ [];
  next_token_id = suc t.next_token_id;
}

-- AddToken
unfoldable pub add_token : String → ℕ → String → String → ℕ → Tx String
unfolding user_id_of token_expiry create_token
add_token username expiry desc random now = do
  user_id ← query (λ t. user_id_of username t.users)
  execute (create_token user_id (token_expiry expiry now) desc random)
  pure random

-- One item of the result of LoadTokens.
pub record LoadedToken : Type 0 where
  pub token : String
  pub expiry : ℕ
  pub username : String

unfoldable pub is_valid : ℕ → Token → Bool
is_valid now t = t.expiry == 0 || lt_int64 now t.expiry

-- The loop of LoadTokens, which panics at a token whose user is not there.
unfoldable pub load_rows : List User → List Token → Outcome (List LoadedToken)
load_rows users [] = ok []
load_rows users (t ∷ ts) =
    let rest = load_rows users ts in
    elim (first_of? (λ u. u.id == t.user_id) users) [
      | none ↦ err panicked
      | some u ↦ elim rest [
        | err e ↦ err e
        | ok l ↦ ok (record { token = t.token; expiry = t.expiry; username = u.username } ∷ l)
      ]
    ]

-- LoadTokens
unfoldable pub load_tokens : ℕ → Tx (List LoadedToken)
unfolding is_valid load_rows
load_tokens now = do
  tokens ← query (λ t. keep_if (is_valid now) t.tokens)
  users ← query (λ t. t.users)
  lift (load_rows users tokens)
