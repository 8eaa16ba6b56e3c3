-- ===== src/Inbounds.antt =====
-- service/inbounds.go: who may use an inbound, and how a change of users reaches the running core.
pub mod Users
pub mod Apply
pub mod Config
pub mod Restart
pub mod Save
pub mod Types
use hy_panel.Base.{
  ℕ, String, Bool, true, false, not, ◌&&◌, Option, none, some, List, [], ◌∷◌, ◌++◌, map, ◌==◌,
  str_eq, if◌then◌else◌, keep_if, has, first_of?,
}
use hy_panel.Base.Outcome.{Outcome, ok, err}
use hy_panel.Core.{update_inbound_users}
use hy_panel.Database.{Client, Inbound, Tables}
use hy_panel.Database.Json.{Json}
use hy_panel.Database.Tx.{Tx, pure, ◌>>=◌, ◌>>◌, query, read_core, call_core, unless_empty}

-- One row of the query of hy2Users.
pub record Hy2Row : Type 0 where
  pub name : String
  pub password : String

module _ (json : Json) where
  -- The query of hy2Users: enabled clients that are not banned, have a password and are attached.
  hy2_row : ℕ → Client → Option Hy2Row
  hy2_row inbound_id c =
      if c.enable && (not c.banned && has inbound_id (json.json_each c.inbounds))
      then elim (json.hysteria2_password c.config) [
        | none ↦ none
        | some pw ↦ some (record { name = c.name; password = pw })
      ]
      else none

  pub hy2_rows : ℕ → List Client → List Hy2Row
  unfolding hy2_row
  hy2_rows inbound_id [] = []
  hy2_rows inbound_id (c ∷ cs) =
      let rest = hy2_rows inbound_id cs in
      elim (hy2_row inbound_id c) [ none ↦ rest | some r ↦ r ∷ rest ]

  -- hy2Users: the rows with a password that is not empty.
  unfoldable pub hy2_users : ℕ → List Client → List Hy2Row
  unfolding hy2_rows
  hy2_users inbound_id cs = keep_if (λ r. not (str_eq r.password "")) (hy2_rows inbound_id cs)

-- Scan of the tag into a string that stays empty if there is no row.
unfoldable pub tag_of : ℕ → List Inbound → String
tag_of id rows = elim (first_of? (λ i. i.id == id) rows) [ none ↦ "" | some i ↦ i.tag ]

-- The ids of the Hysteria2 inbounds among the given ones.
unfoldable pub hy2_ids : List ℕ → List Inbound → List ℕ
hy2_ids ids rows = map (λ i. i.id) (keep_if (λ i. has i.id ids && str_eq i.type "hysteria2") rows)

-- InboundService.UpdateInboundUsers, once the core is known to run
unfoldable pub update_running : Json → ℕ → String → Tx (Unit {0})
update_running json id tag = if str_eq tag "" then pure tt else (do
  users ← query (λ t. hy2_users json id t.clients)
  call_core (update_inbound_users tag (map (λ r. r.name) users) (map (λ r. r.password) users)))

-- InboundService.UpdateInboundUsers
unfoldable pub update_users_of : Json → ℕ → Tx (Unit {0})
unfolding update_running
update_users_of json id = do
  running ← read_core (λ c. c.is_running)
  if running
      then (do tag ← query (λ t. tag_of id t.inbounds); update_running json id tag)
      else pure tt

-- The loop of ApplyUserChanges over the Hysteria2 inbounds
unfoldable pub update_each : Json → List ℕ → Tx (Unit {0})
unfolding update_users_of
update_each json [] = pure tt
update_each json (id ∷ ids) = update_users_of json id >> update_each json ids

-- ApplyUserChanges in a running core. `live` is what GetHy2LiveUpdate returns, and `restart` stands for
-- RestartInbounds, which removes inbounds from sing-box and creates them anew.
unfoldable pub apply_running :
    Json → (List ℕ → Tx (Unit {0})) → Outcome Bool → List ℕ → Tx (Unit {0})
unfolding update_each
apply_running json restart (ok false) ids = unless_empty ids (restart ids)
apply_running json restart live ids = do
  set ← query (λ t. hy2_ids ids t.inbounds)
  update_each json (keep_if (λ id. has id set) ids)
  unless_empty (keep_if (λ id. not (has id set)) ids)
      (restart (keep_if (λ id. not (has id set)) ids))

-- ApplyUserChanges
unfoldable pub apply_user_changes :
    Json → (List ℕ → Tx (Unit {0})) → Outcome Bool → List ℕ → Tx (Unit {0})
unfolding apply_running
apply_user_changes json restart live ids = do
  running ← read_core (λ c. c.is_running)
  if running then unless_empty ids (apply_running json restart live ids) else pure tt
