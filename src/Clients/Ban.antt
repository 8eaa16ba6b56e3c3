-- ===== src/Clients/Ban.antt =====
-- ConfigService.BanClient of service/config.go: the ban of a client, and its end.
pub mod Persisted
pub mod Evicted
pub mod Unban
use hy_panel.Base.{
  ℕ, String, Bool, true, false, not, ◌&&◌, Option, none, some, List, [], ◌∷◌, ◌++◌, map, ◌==◌,
  if◌then◌else◌, first_of?,
}
use hy_panel.Base.Outcome.{Outcome, ok, err}
use hy_panel.Database.{Client, Changes, Tables}
use hy_panel.Database.Json.{Json}
use hy_panel.Database.Tx.{
  Tx, pure, fail, lift, ◌>>=◌, ◌>>◌, query, execute, set_last_update, attempt, checked_transaction,
}
use hy_panel.Database.Results.{found, parsed}
use hy_panel.Inbounds.{apply_user_changes}
use hy_panel.Clients.Limits.{over_quota, expired}

-- The updates, whose values are computed from the client that was read.
unfoldable pub ban_updates : ℕ → Bool → Client → Client → Client
ban_updates now true client r = record r { banned = true; enable = false; banned_at = now }
ban_updates now false client r = record r {
  banned = false;
  enable = not (over_quota client) && not (expired now client);
  banned_at = 0;
}

-- One row under UPDATE … WHERE id = ?
unfoldable pub ban_row : ℕ → ℕ → Bool → Client → Client → Client
unfolding ban_updates
ban_row id now banned client r = if r.id == id then ban_updates now banned client r else r

unfoldable pub update_banned : ℕ → ℕ → Bool → Client → Tables → Tables
unfolding ban_row
update_banned id now banned client t = record t {
  clients = map (ban_row id now banned client) t.clients;
}

module _ (json : Json) where
  unfoldable pub ban_change : ℕ → Bool → String → Client → Changes
  ban_change now banned login_user client = record {
    date_time = now;
    actor = login_user;
    key = "clients";
    action = if banned then "ban" else "unban";
    obj = json.show_string client.name;
  }

  unfoldable pub create_change : Changes → Tables → Tables
  create_change c t = record t { changes = t.changes ++ c ∷ [] }

  -- The transaction of BanClient, with the inbounds of the client as its result.
  unfoldable pub ban_body : ℕ → Bool → String → ℕ → Tx (List ℕ)
  unfolding update_banned found parsed ban_change create_change
  ban_body id banned login_user now = do
    row ← query (λ t. first_of? (λ c. c.id == id) t.clients)
    client ← lift (found row)
    ids ← lift (parsed (json.ids client.inbounds))
    execute (update_banned id now banned client)
    execute (create_change (ban_change now banned login_user client))
    pure ids

  -- BanClient. `live` is what GetHy2LiveUpdate returns, and `restart` stands for RestartInbounds.
  unfoldable pub ban_client :
      (List ℕ → Tx (Unit {0})) → Outcome Bool → ℕ → Bool → String → ℕ → Tx (Unit {0})
  unfolding ban_body
  ban_client restart live id banned login_user now = do
    ids ← checked_transaction (ban_body id banned login_user now)
    attempt (apply_user_changes json restart live ids)
    set_last_update now
