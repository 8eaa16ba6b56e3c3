-- ===== src/Examples/Accounts.antt =====
-- A panel with one user.
use hy_panel.Base.{◌≡◌, refl, String, [], ◌∷◌}
use hy_panel.Base.Outcome.{ok, err, panicked}
use hy_panel.Database.{User}
use hy_panel.Database.Tx.{World, ◌>>=◌, query, execute}
use hy_panel.Users.{
  change_pass, change_user, save_user, update_first_user, update_user, login, add_token,
  load_tokens, token_expiry,
}
use hy_panel.Users.Logins.{CanLogin, login_lem, change_pass-CanLogin}
use hy_panel.Users.Tokens.{load_tokens-add_token}
use hy_panel.Examples.Panel.{world}

abbrev root : User
root = record { id = 1; username = "root"; password = "old"; last_logins = "" }

abbrev panel : World
panel = record world { tables = record world.tables { users = root ∷ []; next_user_id = 2 } }

abbrev renamed : World
renamed = record panel {
  tables = record panel.tables {
    users = record root { username = "admin"; password = "new" } ∷ [];
  };
}

login_lem_example :
    ((name : String)
      → (login "root" "old" "now" panel).0 ≡ ok name
      → (name ≡ "root") × CanLogin "root" "old" panel)
    × (panel.faults ≡ []
        → CanLogin "root" "old" panel
        → (login "root" "old" "now" panel).0 ≡ ok "root")
login_lem_example = login_lem "root" "old" "now" panel

change_pass_lem : change_pass 1 "old" "admin" "new" panel ≡ (ok tt, renamed)
unfolding change_pass change_user save_user ◌>>=◌ query execute
change_pass_lem = refl

change_pass-CanLogin_example : CanLogin "admin" "new" renamed
change_pass-CanLogin_example =
    change_pass-CanLogin 1 "old" "admin" "new" panel renamed change_pass_lem

update_first_user_lem : update_first_user "admin" "new" panel ≡ (ok tt, renamed)
unfolding update_first_user update_user save_user ◌>>=◌ query execute
update_first_user_lem = refl

load_tokens-add_token_example :
    let (r, w) = add_token "gone" 0 "" "t" 9 panel in
    (r ≡ ok "t") × ((load_tokens 10 w).0 ≡ err panicked)
unfolding token_expiry
load_tokens-add_token_example =
    load_tokens-add_token "gone" 0 "" "t" 9 10 panel refl (refl, tt) refl refl
