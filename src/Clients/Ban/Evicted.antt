-- ===== src/Clients/Ban/Evicted.antt =====
-- What a ban does to the running core.
use hy_panel.Base.{
  ℕ, String, ◌≡◌, refl, ◌∙◌, ap, true, not, ◌&&◌, some, List, [], ◌∷◌, map, arith, ◌==◌, str_eq,
  keep_if, has, any_of, first_of?,
}
use hy_panel.Base.Assoc.{lookup, is_some}
use hy_panel.Base.Outcome.{ok}
use hy_panel.Hysteria.{Service}
use hy_panel.Hysteria.Eviction.{AllAuthorised}
use hy_panel.Database.{Client}
use hy_panel.Database.Json.{Json}
use hy_panel.Database.Results.{found, parsed}
use hy_panel.Database.Tx.{
  World, Tx, ◌>>=◌, query, execute, pure, lift, set_last_update, attempt, checked_transaction,
  checked_finish,
}
use hy_panel.Inbounds.{tag_of}
use hy_panel.Inbounds.Apply.{
  IsUp, IsApart, RestartKeeps, UniqueTags, AllLive, live_ids, apply_user_changes-Applied,
}
use hy_panel.Inbounds.Users.{may_use, has_string-live_passwords}
use hy_panel.Clients.Ban.{
  ban_row, ban_updates, ban_body, ban_client, ban_change, update_banned, create_change,
}

-- The clients but the one of an id.
abbrev pub other_clients : ℕ → List Client → List Client
other_clients id rows = keep_if (λ c. not (c.id == id)) rows

abbrev after_ban : Json → ℕ → String → ℕ → Client → World → World
after_ban json id login_user now client w = record w {
  tables =
      create_change json (ban_change json now true login_user client)
        (update_banned id now true client w.tables);
  faults = [];
}

ban_body-runs :
    (json : Json) (id : ℕ) (login_user : String) (now : ℕ) (w : World) (client : Client)
    (ids : List ℕ)
    → w.faults ≡ []
    → first_of? (λ c. c.id == id) w.tables.clients ≡ some client
    → json.ids client.inbounds ≡ (ids, true)
    → ban_body json id true login_user now w ≡ (ok ids, after_ban json id login_user now client w)
unfolding ban_body ◌>>=◌ query execute pure lift found parsed
ban_body-runs json id login_user now w client ids f there parses = rw (f, there, parses) refl

-- The live inbound of a tag lets in those who have a password of these clients for it, and nobody else
-- has a live session there.
abbrev pub Admits : Json → World → ℕ → String → List Client → Type 0
Admits json w inbound_id tag clients =
    (s : Service) × (lookup tag w.core.hysteria2 ≡ some s)
    × AllAuthorised s
    × ((pw : String)
        → is_some (lookup pw s.user_map)
          ≡ (not (str_eq pw "") && any_of (may_use json inbound_id pw) clients))

-- After a ban, who may use an inbound by a password are those of the other clients who could before.
pub any_of-ban_row :
    (json : Json) (inbound_id id now : ℕ) (pw : String) (client : Client) (rows : List Client)
    → any_of (may_use json inbound_id pw) (map (ban_row id now true client) rows)
      ≡ any_of (may_use json inbound_id pw) (other_clients id rows)
unfolding ban_row ban_updates may_use
any_of-ban_row json inbound_id id now pw client [] = refl
any_of-ban_row json inbound_id id now pw client (r ∷ rs) =
    ground (arith, any_of-ban_row json inbound_id id now pw client rs)

-- The hypotheses of a ban that reaches the core: nothing fails, the core runs, and the Hysteria2
-- inbounds of the client run there, and none under the tag of a row of another type.
pub record Reaches (json : Json) (id : ℕ) (w : World) (ids : List ℕ) : Type 0 where
  pub up : IsUp w
  pub client : Client
  pub there : first_of? (λ c. c.id == id) w.tables.clients ≡ some client
  pub parses : json.ids client.inbounds ≡ (ids, true)
  pub unique : UniqueTags w.tables.inbounds
  pub live : AllLive w (live_ids ids w.tables.inbounds)
  pub apart : IsApart w

-- Banning a client returns nil, and on each Hysteria2 inbound of the client exactly those passwords
-- are then accepted that some other client, enabled and not banned, has for it; a live session of
-- anyone else is closed. Conditions: there is such a client and its list of inbounds is read, no
-- statement fails, the core runs, live updates are on, inbound tags are unique, the Hysteria2
-- inbounds of the client have tags and run in the core and none runs there under the tag of a row
-- of another type; and RestartInbounds of inbounds of other types, whether it returns nil or an
-- error, leaves the tables and the live Hysteria2 inbounds as they are, where none of these runs
-- under such a tag.
pub ban_client-Admits :
    (json : Json) (restart : List ℕ → Tx (Unit {0})) (id : ℕ) (login_user : String) (now : ℕ)
    (w : World) (ids : List ℕ)
    → RestartKeeps restart
    → Reaches json id w ids
    → let (r, w') = ban_client json restart (ok true) id true login_user now w in
      (r ≡ ok tt)
      × ((i : ℕ)
          → has i (live_ids ids w.tables.inbounds) ≡ true
          → Admits json w' i (tag_of i w.tables.inbounds) (other_clients id w.tables.clients))
unfolding ban_client ◌>>=◌ checked_transaction checked_finish attempt set_last_update update_banned
    create_change
ban_client-Admits json restart id login_user now w ids k h =
    let w₁ = after_ban json id login_user now h.client w in
    let a =
      apply_user_changes-Applied json restart ids w₁ k
        (record { faultless = refl; running = h.up.running }) h.unique
        (λ i e.
          let l = h.live i e in record { has_tag = l.has_tag; service = l.service; runs = l.runs })
        h.apart in
    rw (ban_body-runs json id login_user now w h.client ids h.up.faultless h.there h.parses) (
      refl,
      λ i e.
          let (s, there, safe, known) = a.serves i e in
          (
            s,
            there,
            safe,
            λ pw.
                known pw
                ∙ has_string-live_passwords json i pw w₁.tables.clients
                ∙ ap (λ b. not (str_eq pw "") && b)
                    (any_of-ban_row json i id now pw h.client w.tables.clients),
          ),
    )
