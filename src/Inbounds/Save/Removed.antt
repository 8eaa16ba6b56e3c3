-- ===== src/Inbounds/Save/Removed.antt =====
-- The rows after Save of InboundService has deleted an inbound: no client is attached to it any more.
use hy_panel.Base.{
  ℕ, String, ◌≡◌, refl, sym, ap, ◌∙◌, subst, Bool, true, false, not, some, List, [], ◌∷◌, map, ◌==◌,
  str_eq, keep_if, All,
}
use hy_panel.Base.Outcome.{Outcome, ok}
use hy_panel.Clients.Links.{update_clients_on_inbound_delete}
use hy_panel.Clients.Links.Detached.{deleted-tables, update_clients_on_inbound_delete-without}
use hy_panel.Database.{Client, Tables}
use hy_panel.Database.Results.{decoded-ok}
use hy_panel.Database.Rows.{IsTable, inbounds-save_clients}
use hy_panel.Database.Tx.{World, >>=-ok, query->>=-ok, execute-ok, call_core, read_core, pure}
use hy_panel.Inbounds.Save.{SaveLib, delete, drop_inbounds, id_of, remove_live}

remove_live-tables :
    (lib : SaveLib) (init_ids hostname : String) (running : Bool) (tag : String) (w w' : World)
    → remove_live lib init_ids hostname running tag w ≡ (ok tt, w')
    → w'.tables ≡ w.tables
unfolding remove_live call_core pure
remove_live-tables lib init_ids hostname true tag w w' e =
    sym (ap (λ (z : Outcome (Unit {0}) × World). z.1.tables) e)
remove_live-tables lib init_ids hostname false tag w w' e =
    sym (ap (λ (z : Outcome (Unit {0}) × World). z.1.tables) e)

read_core-tables :
    (w w' : World) (b : Bool) → read_core (λ c. c.is_running) w ≡ (ok b, w') → w'.tables ≡ w.tables
unfolding read_core
read_core-tables w w' b e = sym (ap (λ (z : Outcome Bool × World). z.1.tables) e)

-- The tables behind a deletion that returns nil
deleted-as :
    (lib : SaveLib) (data_text : String) (w w' : World)
    → delete lib data_text w ≡ (ok tt, w')
    → (tag : String) × (w₁ w₂ : World) × (lib.read_text data_text ≡ some tag)
      × (w₁.tables ≡ w.tables)
      × (update_clients_on_inbound_delete lib.clients (id_of tag w.tables.inbounds) tag w₁
          ≡ (ok tt, w₂))
      × (w'.tables ≡ drop_inbounds tag w₂.tables)
unfolding delete
deleted-as lib data_text w w' e =
    let (tag, u₁, f₁, e₁) = >>=-ok _ _ w w' tt e in
    let (read, t₁) = decoded-ok (lib.read_text data_text) w u₁ tag f₁ in
    let (running, u₂, f₂, e₂) = >>=-ok _ _ u₁ w' tt e₁ in
    let t₂ = read_core-tables u₁ u₂ running f₂ in
    let (x, u₃, f₃, e₃) = >>=-ok _ _ u₂ w' tt e₂ in
    let t₃ = remove_live-tables lib "" "" running tag u₂ u₃ f₃ in
    let (u₄, t₄, e₄) = query->>=-ok _ _ u₃ w' tt e₃ in
    let (y, u₅, f₅, e₅) = >>=-ok _ _ u₄ w' tt e₄ in
    let same : u₃.tables ≡ w.tables = t₃ ∙ t₂ ∙ t₁ in
    (
      tag,
      u₄,
      u₅,
      read,
      t₄ ∙ same,
      subst
          (λ (t : Tables).
            update_clients_on_inbound_delete lib.clients (id_of tag t.inbounds) tag u₄
            ≡ (ok tt, u₅))
          same f₅,
      execute-ok (drop_inbounds tag) u₅ w' e₅,
    )

map_after :
    (g : List ℕ → List ℕ) (h : Client → List ℕ) (cs : List Client)
    → map (λ c. g (h c)) cs ≡ map g (map h cs)
map_after g h [] = refl
map_after g h (c ∷ cs) = ap (λ l. g (h c) ∷ l) (map_after g h cs)

-- The ids of the inbounds of each client, as SQLite reads them
abbrev pub attachments : SaveLib → List Client → List (List ℕ)
attachments lib cs = map (λ c. lib.clients.base.json_each c.inbounds) cs

-- Deleting an inbound that returns nil leaves the rows of inbounds whose tag is not that of the
-- request, and each client is attached to the inbounds that it was attached to, but for the id of
-- the row with this tag (0 if there is none). Conditions: the rows of the clients form a table, and
-- the list of inbounds of every client is read.
pub delete-attachments :
    (lib : SaveLib) (data_text : String) (w w' : World)
    → IsTable w.tables.clients
    → All (λ c. (lib.clients.base.ids c.inbounds).1 ≡ true) w.tables.clients
    → delete lib data_text w ≡ (ok tt, w')
    → (tag : String) × (lib.read_text data_text ≡ some tag)
      × (w'.tables.inbounds ≡ keep_if (λ i. not (str_eq i.tag tag)) w.tables.inbounds)
      × (attachments lib w'.tables.clients
          ≡ map
              (keep_if (λ n. not (n == id_of tag w.tables.inbounds)))
              (attachments lib w.tables.clients))
unfolding drop_inbounds
delete-attachments lib data_text w w' v reads e =
    let (tag, w₁, w₂, read, t, f, after) = deleted-as lib data_text w w' e in
    let id = id_of tag w.tables.inbounds in
    let clients : w₁.tables.clients ≡ w.tables.clients = ap (λ (z : Tables). z.clients) t in
    let (rows, each) =
      update_clients_on_inbound_delete-without lib.clients id tag w₁ w₂
        (subst IsTable (sym clients) v)
        (subst (All (λ c. (lib.clients.base.ids c.inbounds).1 ≡ true)) (sym clients) reads) f in
    (
      tag,
      read,
      ap (λ (z : Tables). z.inbounds) after
          ∙ ap (keep_if (λ i. not (str_eq i.tag tag))) (
              ap (λ (z : Tables). z.inbounds) (deleted-tables lib.clients id tag w₁ w₂ f)
              ∙ (inbounds-save_clients _ w₁.tables ∙ ap (λ (z : Tables). z.inbounds) t)),
      ap (λ (z : Tables). attachments lib z.clients) after
          ∙ (each
              ∙ (map_after (keep_if (λ n. not (n == id)))
                    (λ c. lib.clients.base.json_each c.inbounds) w₁.tables.clients
                  ∙ ap (λ l. map (keep_if (λ n. not (n == id))) (attachments lib l)) clients)),
    )
