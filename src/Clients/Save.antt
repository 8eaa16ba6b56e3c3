-- ===== src/Clients/Save.antt =====
-- ClientService.Save of service/client.go, with setConfigIdentity and findInboundsChanges.
pub mod Edited
pub mod Removed
use hy_panel.Base.{
  ℕ, String, Bool, true, false, not, ◌&&◌, ◌||◌, Option, none, some, List, [], ◌∷◌, ◌++◌, map, ◌==◌,
  ltb, str_eq, if◌then◌else◌, keep_if, has, first_of?,
}
use Prim.Native.String.{len}
use hy_panel.Base.Assoc.{Assoc, lookup, insert, is_some}
use hy_panel.Base.Outcome.{Outcome, ok, err, json_error, empty_slice, unknown_action}
use hy_panel.Arrays.{MapOrder, union_uint_array, diff_uint_array}
use hy_panel.Database.{Client, Tables}
use hy_panel.Database.Json.{ClientJson}
use hy_panel.Database.Tx.{Tx, pure, fail, lift, ◌>>=◌, ◌>>◌, query, execute}
use hy_panel.Database.Rows.{save_client, save_clients}
use hy_panel.Database.Results.{found, parsed, decoded}
use hy_panel.Clients.Links.{Generator, update_links}

-- Save of a slice, which gorm refuses if it is empty.
unfoldable pub save_slice : List Client → Tx (Unit {0})
save_slice [] = fail empty_slice
save_slice (c ∷ cs) = execute (save_clients (c ∷ cs))

unfoldable pub delete_clients : List ℕ → Tables → Tables
delete_clients ids t = record t { clients = keep_if (λ c. not (has c.id ids)) t.clients }

unfoldable pub fill_omitted : Bool → Client → Client → Client
fill_omitted true old c = record c { links = old.links; config = old.config }
fill_omitted false old c = c

-- The test of findInboundsChanges for a change that is no change of inbounds.
unfoldable pub differs : Client → Client → Bool
differs old c =
    not (str_eq old.config c.config)
    || (not (str_eq old.name c.name) || not (if old.enable then c.enable else not c.enable))

unfoldable pub changed_inbounds : MapOrder → Client → Client → List ℕ → List ℕ → List ℕ
unfolding differs
changed_inbounds order old c old_ids new_ids =
    if differs old c
    then union_uint_array order old_ids new_ids
    else diff_uint_array old_ids new_ids

module _ (j : ClientJson) where
  -- The loop of setConfigIdentity over the protocols of a config.
  unfoldable pub identify : String → Assoc String → Assoc String
  identify name cfg =
      if is_some (lookup "name" cfg)
      then insert "name" (j.base.show_string name) cfg
      else if is_some (lookup "username" cfg)
      then insert "username" (j.base.show_string name) cfg
      else cfg

  -- setConfigIdentity
  unfoldable pub set_config_identity : Client → Outcome Client
  unfolding identify
  set_config_identity c =
      if str_eq c.name "" || ltb (len c.config) 2 then ok c else elim (j.configs c.config) [
        | none ↦ err json_error
        | some configs ↦
            ok
              (record c { config = j.show_configs (map (λ e. (e.0, identify c.name e.1)) configs) })
      ]

  module _ (order : MapOrder) where
    -- findInboundsChanges, with the client as it leaves it
    unfoldable pub find_inbounds_changes : Bool → Client → Tx (Client × List ℕ)
    unfolding fill_omitted changed_inbounds
    find_inbounds_changes fill c = do
      row ← query (λ t. first_of? (λ r. r.id == c.id) t.clients)
      old ← lift (found row)
      old_ids ← lift (parsed (j.base.ids old.inbounds))
      new_ids ← lift (parsed (j.base.ids (fill_omitted fill old c).inbounds))
      pure (
        fill_omitted fill old c,
        changed_inbounds order old (fill_omitted fill old c) old_ids new_ids,
      )

    module _ (generate : Generator) (host : String) where
      -- updateLinksWithFixedInbounds of one client
      unfoldable pub link_one : Client → Tx Client
      link_one c = do
        cs ← update_links j generate host order (c ∷ [])
        lift (found (first_of? (λ x. true) cs))

      -- Save of a client, "edit"
      unfoldable pub save_edit : String → Tx (List ℕ)
      unfolding set_config_identity link_one find_inbounds_changes
      save_edit text = do
        read ← lift (decoded (j.client text))
        named ← lift (set_config_identity read)
        client ← link_one named
        changed ← find_inbounds_changes false client
        execute (save_client changed.0)
        pure changed.1

      -- Save of a client, "new"
      unfoldable pub save_new : String → Tx (List ℕ)
      unfolding set_config_identity link_one
      save_new text = do
        read ← lift (decoded (j.client text))
        named ← lift (set_config_identity read)
        client ← link_one named
        ids ← lift (parsed (j.base.ids client.inbounds))
        execute (save_client client)
        pure ids

      -- The loop of "addbulk"
      unfoldable pub name_each : List Client → List ℕ → Outcome (List Client × List ℕ)
      unfolding set_config_identity
      name_each [] ids = ok ([], ids)
      name_each (c ∷ cs) ids = elim (set_config_identity c) [
        | err e ↦ err e
        | ok c' ↦ elim (parsed (j.base.ids c'.inbounds)) [
          | err e ↦ err e
          | ok own ↦ elim (name_each cs (union_uint_array order ids own)) [
            | err e ↦ err e
            | ok (rest, all) ↦ ok (c' ∷ rest, all)
          ]
        ]
      ]

      -- Save, "addbulk"
      unfoldable pub save_addbulk : String → Tx (List ℕ)
      unfolding name_each save_slice
      save_addbulk text = do
        clients ← lift (decoded (j.clients text))
        named ← lift (name_each clients [])
        linked ← update_links j generate host order named.0
        save_slice linked
        pure named.1

      -- The loop of "editbulk"
      unfoldable pub change_each : List Client → List ℕ → Tx (List Client × List ℕ)
      unfolding find_inbounds_changes set_config_identity
      change_each [] ids = pure ([], ids)
      change_each (c ∷ cs) ids = do
        changed ← find_inbounds_changes true c
        named ← lift (set_config_identity changed.0)
        rest ←
            change_each cs
              (elim changed.1 [ [] ↦ ids | x ∷ xs ↦ union_uint_array order ids (x ∷ xs) ])
        pure (named ∷ rest.0, rest.1)

      unfoldable pub link_changed : List Client → List ℕ → Tx (List Client)
      link_changed clients [] = pure clients
      link_changed clients (x ∷ xs) = update_links j generate host order clients

      -- Save, "editbulk"
      unfoldable pub save_editbulk : String → Tx (List ℕ)
      unfolding change_each link_changed save_slice
      save_editbulk text = do
        clients ← lift (decoded (j.clients text))
        changed ← change_each clients []
        linked ← link_changed changed.0 changed.1
        save_slice linked
        pure changed.1

    -- The loop of "delbulk"
    unfoldable pub inbounds_of_each : List ℕ → List ℕ → Tx (List ℕ)
    inbounds_of_each [] all = pure all
    inbounds_of_each (id ∷ ids) all = do
      row ← query (λ t. first_of? (λ c. c.id == id) t.clients)
      client ← lift (found row)
      own ← lift (parsed (j.base.ids client.inbounds))
      inbounds_of_each ids (union_uint_array order all own)

    -- Save, "delbulk"
    unfoldable pub save_delbulk : String → Tx (List ℕ)
    unfolding inbounds_of_each delete_clients
    save_delbulk text = do
      ids ← lift (parsed (j.base.ids text))
      all ← inbounds_of_each ids []
      execute (delete_clients ids)
      pure all

  -- Save, "del"
  unfoldable pub save_del : String → Tx (List ℕ)
  unfolding delete_clients
  save_del text = do
    id ← lift (decoded (j.id text))
    row ← query (λ t. first_of? (λ c. c.id == id) t.clients)
    client ← lift (found row)
    ids ← lift (parsed (j.base.ids client.inbounds))
    execute (delete_clients (id ∷ []))
    pure ids

  -- ClientService.Save
  unfoldable pub save : MapOrder → Generator → String → String → String → Tx (List ℕ)
  unfolding save_new save_edit save_addbulk save_editbulk save_delbulk save_del
  save order generate host act text =
      if str_eq act "new"
      then save_new order generate host text
      else if str_eq act "edit"
      then save_edit order generate host text
      else if str_eq act "addbulk"
      then save_addbulk order generate host text
      else if str_eq act "editbulk"
      then save_editbulk order generate host text
      else if str_eq act "delbulk"
      then save_delbulk order text
      else if str_eq act "del"
      then save_del text
      else fail unknown_action
