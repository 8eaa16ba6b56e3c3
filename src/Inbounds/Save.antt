-- ===== src/Inbounds/Save.antt =====
-- service/inbounds.go: Save of InboundService.
pub mod Removed
use hy_panel.Base.{
  ℕ, suc, String, Bool, true, false, not, ◌&&◌, Option, none, some, List, [], ◌∷◌, ◌++◌, ◌==◌,
  str_eq, if◌then◌else◌, keep_if, any_of, first_of?, ltb,
}
use hy_panel.Base.Outcome.{Outcome, ok, err, unknown_action}
use hy_panel.Clients.Links.{
  Generator, update_clients_on_inbound_add, update_clients_on_inbound_delete,
  update_links_by_inbound_change,
}
use hy_panel.Core.{Core}
use hy_panel.Core.Inbounds.{InboundManager, add_inbound, remove_inbound}
use hy_panel.Database.{Inbound, Tables, TlsRow}
use hy_panel.Database.Json.{ClientJson}
use hy_panel.Database.Results.{decoded}
use hy_panel.Database.Tx.{
  Tx, pure, fail, lift, ◌>>=◌, ◌>>◌, query, execute, execute_if, read_core, call_core,
}
use hy_panel.Inbounds.{tag_of}
use hy_panel.Inbounds.Config.{InboundLib, add_users, init_users}
use hy_panel.Outbounds.{unless_invalid}
use hy_panel.Util.{marshal, unmarshal}
use hy_panel.Util.OutJson.{fill_out_json}

-- What Save uses besides: sing-box, the JSON of clients, the links, RandomInt, a text in JSON, and the ids
-- that a list of them names.
pub record SaveLib : Type 0 where
  pub inbounds : InboundLib
  pub clients : ClientJson
  pub manager : InboundManager
  pub generate : Generator
  pub random_int : ℕ → ℕ
  pub read_text : String → Option String
  pub client_ids : String → List ℕ

-- Find into the pointer Tls of an inbound leaves the zero row if there is none.
abbrev zero_row : TlsRow
zero_row = record { id = 0; name = ""; server = ""; client = "" }

unfoldable pub row_or_zero : ℕ → List TlsRow → TlsRow
row_or_zero id rows = elim (first_of? (λ r. r.id == id) rows) [ none ↦ zero_row | some r ↦ r ]

unfoldable pub find_tls : ℕ → Tx (Option TlsRow)
find_tls id =
    if ltb 0 id then (do row ← query (λ t. row_or_zero id t.tls); pure (some row)) else pure none

-- The tag of the row that is edited
unfoldable pub find_old_tag : Bool → ℕ → Tx String
find_old_tag true id = query (λ t. tag_of id t.inbounds)
find_old_tag false id = pure ""

unfoldable pub tag_is_free : Inbound → List Inbound → Bool
tag_is_free i rows = not (any_of (λ r. str_eq r.tag i.tag && not (r.id == i.id)) rows)

unfoldable pub upsert : Inbound → List Inbound → List Inbound
upsert i [] = i ∷ []
upsert i (r ∷ rs) = let rest = upsert i rs in if r.id == i.id then i ∷ rs else r ∷ rest

-- The inbound with the id that its row has, and the tables with this row
unfoldable pub identified : Inbound → Tables → Inbound
identified i t = if i.id == 0 then record i { id = t.next_inbound_id } else i

unfoldable pub write_inbound : Inbound → Tables → Tables
write_inbound i t =
    if i.id == 0
    then record t {
      inbounds = t.inbounds ++ record i { id = t.next_inbound_id } ∷ [];
      next_inbound_id = suc t.next_inbound_id;
    }
    else record t { inbounds = upsert i t.inbounds }

-- Save of the row; gorm writes the new id into the inbound. The row of `tls` is there already.
unfoldable pub save_row : Inbound → Tx Inbound
save_row i w =
    (execute_if (λ t. tag_is_free i t.inbounds) (write_inbound i) >>= λ u.
    pure (identified i w.tables))
      w

module _ (lib : SaveLib) (init_ids hostname : String) where
  unfoldable pub remove_live : Bool → String → Tx (Unit {0})
  remove_live true tag = call_core (λ c. unless_invalid (remove_inbound lib.manager tag c))
  remove_live false tag = pure tt

  -- The users of an inbound that is edited, or those that a new one begins with
  unfoldable pub config_users : Bool → Inbound → String → Tx String
  config_users true i config = add_users lib.inbounds i.id i.type config
  config_users false i config = init_users lib.inbounds init_ids i.type config

  -- What Save does with a running core before it writes the row
  unfoldable pub put_live : Bool → Bool → Inbound → Option TlsRow → String → Tx (Unit {0})
  put_live false edit i row old_tag = pure tt
  put_live true edit i row old_tag = do
    remove_live edit old_tag
    config ← lift (marshal lib.inbounds.go i (elim row [ none ↦ none | some r ↦ some r.server ]))
    full ← config_users edit i config
    call_core (add_inbound lib.manager full)

  -- The links of the clients behind the write
  unfoldable pub put_links : Bool → Inbound → String → Tx (Unit {0})
  put_links true i old_tag =
      update_links_by_inbound_change lib.clients lib.generate hostname old_tag (i ∷ [])
  put_links false i old_tag =
      update_clients_on_inbound_add lib.clients lib.generate hostname (lib.client_ids init_ids) i.id

  -- Save, "new" and "edit"
  unfoldable pub put : Bool → String → Tx (Unit {0})
  put edit data_text = do
    i ← lift (unmarshal lib.inbounds.go data_text)
    row ← find_tls i.tls_id
    old_tag ← find_old_tag edit i.id
    running ← read_core (λ c. c.is_running)
    put_live running edit i row old_tag
    filled ← lift (fill_out_json lib.random_int lib.inbounds.go i row hostname)
    saved ← save_row filled
    put_links edit saved old_tag

-- Scan of the id of a tag, which stays 0 if there is no row
unfoldable pub id_of : String → List Inbound → ℕ
id_of tag rows = elim (first_of? (λ i. str_eq i.tag tag) rows) [ none ↦ 0 | some i ↦ i.id ]

unfoldable pub drop_inbounds : String → Tables → Tables
drop_inbounds tag t = record t { inbounds = keep_if (λ i. not (str_eq i.tag tag)) t.inbounds }

module _ (lib : SaveLib) where
  -- Save, "del"
  unfoldable pub delete : String → Tx (Unit {0})
  delete data_text = do
    tag ← lift (decoded (lib.read_text data_text))
    running ← read_core (λ c. c.is_running)
    remove_live lib "" "" running tag
    id ← query (λ t. id_of tag t.inbounds)
    update_clients_on_inbound_delete lib.clients id tag
    execute (drop_inbounds tag)

  -- Save of InboundService
  unfoldable pub save : String → String → String → String → Tx (Unit {0})
  save act data_text init_ids hostname =
      if str_eq act "new"
      then put lib init_ids hostname false data_text
      else if str_eq act "edit"
      then put lib init_ids hostname true data_text
      else if str_eq act "del"
      then delete data_text
      else fail unknown_action
