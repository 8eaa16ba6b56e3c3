-- ===== src/Clients/Deplete.antt =====
-- ClientService.DepleteClients of service/client.go. The checkpoint of the write-ahead log, whose error
-- is only logged, is left out.
pub mod Rowwise
pub mod Coverage
pub mod Outcomes
pub mod Beside
use hy_panel.Base.{ℕ, false, List, [], ◌∷◌, ◌++◌, map, if◌then◌else◌, keep_if}
use hy_panel.Arrays.{MapOrder, union_uint_array}
use hy_panel.Database.{Client, Changes, Tables}
use hy_panel.Database.Json.{Json}
use hy_panel.Database.Tx.{
  Tx, pure, ◌>>=◌, ◌>>◌, query, execute, set_last_update, unless_empty, transaction,
}
use hy_panel.Clients.Limits.{is_depleted}
use hy_panel.Clients.Reset.{quoted, create_changes, reset_clients}

pub deplete_change : ℕ → Client → Changes
unfolding quoted
deplete_change dt c = record {
  date_time = dt;
  actor = "DepleteJob";
  key = "clients";
  action = "disable";
  obj = quoted c.name;
}

-- One row under UPDATE … SET enable = false WHERE …
unfoldable pub disable_row : ℕ → Client → Client
disable_row dt c = if is_depleted dt c then record c { enable = false } else c

pub disable_depleted : ℕ → Tables → Tables
unfolding disable_row
disable_depleted dt t = record t { clients = map (disable_row dt) t.clients }

module _ (json : Json) (order : MapOrder) where
  -- The inbounds of the clients that are disabled; an error of Unmarshal is not looked at.
  pub depleted_inbounds : List Client → List ℕ → List ℕ
  depleted_inbounds [] ids = ids
  depleted_inbounds (c ∷ cs) ids =
      depleted_inbounds cs (union_uint_array order ids (json.ids c.inbounds).0)

  -- The end of DepleteClients: Update, and Create of the changes.
  pub write_depleted : ℕ → List ℕ → List Client → Tx (List ℕ)
  unfolding depleted_inbounds deplete_change disable_depleted create_changes
  write_depleted dt ids clients = do
    unless_empty clients (do
      execute (disable_depleted dt)
      execute (create_changes (map (deplete_change dt) clients))
      set_last_update dt)
    pure (depleted_inbounds clients ids)

  pub deplete_body : ℕ → Tx (List ℕ)
  unfolding write_depleted
  deplete_body dt = do
    ids ← reset_clients json order dt
    clients ← query (λ t. keep_if (is_depleted dt) t.clients)
    write_depleted dt ids clients

  -- DepleteClients
  pub deplete_clients : ℕ → Tx (List ℕ)
  unfolding deplete_body
  deplete_clients dt = transaction (deplete_body dt)
