-- ===== src/Examples/Editing.antt =====
-- Clients that are edited and removed. The JSON of a list of ids is a tally of each: "a,aa," for 1 and 2.
use Prim.Native.String.{String}
use Prim.Native.Char.{code}
use hy_panel.Base.{
  ℕ, zero, suc, ◌+◌, ◌≡◌, refl, ap, ◌∙◌, true, false, none, some, List, [], ◌∷◌, str_eq, ◌==◌,
  if◌then◌else◌, arith, any_of, has, map, not, keep_if,
}
use hy_panel.Base.Outcome.{ok}
use hy_panel.Arrays.{MapOrder, mark, absent, union_uint_array, diff_uint_array}
use hy_panel.Database.{Client}
use hy_panel.Database.Json.{ClientJson}
use hy_panel.Database.Tx.{World, ◌>>=◌, query, execute, lift, pure, read_core, call_core}
use hy_panel.Database.Rows.{IsTable}
use hy_panel.Database.Results.{found, parsed, decoded}
use hy_panel.Inbounds.Users.{may_use}
use hy_panel.Clients.Links.{Generator, update_links, update_clients_on_inbound_delete}
use hy_panel.Clients.Links.Detached.{without, update_clients_on_inbound_delete-without}
use hy_panel.Core.Inbounds.{remove_inbound}
use hy_panel.Outbounds.{unless_invalid}
use hy_panel.Inbounds.Restart.{find_inbounds, preload, update_each_out, update_out_jsons}
use hy_panel.Util.{read_object, marshal_full}
use hy_panel.Util.OutJson.{fill_out_json, is_local_type, filled, put_tls}
use hy_panel.Inbounds.Restart.Written.{without_out, update_out_jsons-all_else}
use hy_panel.Inbounds.Save.{SaveLib, delete, remove_live, id_of}
use hy_panel.Inbounds.Save.Removed.{attachments, delete-attachments}
use hy_panel.Examples.Linking.{vless_lib}
use hy_panel.Clients.Save.{save_edit, save_delbulk}
use hy_panel.Clients.Save.Edited.{save_edit-may_use}
use hy_panel.Clients.Save.Removed.{save_delbulk-may_use}
use hy_panel.Examples.Panel

put : ℕ → String → String
put zero s = String.◌∷◌ "," s
put (suc n) s = String.◌∷◌ "a" (put n s)

show : List ℕ → String
unfolding put
show [] = ""
show (n ∷ ns) = put n (show ns)

read : ℕ → String → List ℕ
read n String.[] = []
read n (String.◌∷◌ c s) = elim (code c == 97) [ true ↦ read (suc n) s | false ↦ n ∷ read 0 s ]

read-put : (n m : ℕ) (s : String) → read m (put n s) ≡ (m + n) ∷ read 0 s
unfolding read put
read-put zero m s = ground arith
read-put (suc n) m s = read-put n (suc m) s ∙ ground arith

read-show : (l : List ℕ) → read 0 (show l) ≡ l
unfolding read show
read-show [] = refl
read-show (n ∷ ns) =
    let left : 0 + n ≡ n = ground arith in
    read-put n 0 (show ns) ∙ (ap (λ k. k ∷ read 0 (show ns)) left ∙ ap (◌∷◌ n) (read-show ns))

-- Anna moves from the first inbound to the third one; Ben stays at the second.
abbrev anna : Client
anna = record Panel.anna { inbounds = "a," }

abbrev ben : Client
ben = record Panel.ben { inbounds = "aa," }

abbrev moved : Client
moved = record anna { inbounds = "aaa," }

-- Clients and configs are named by their texts.
abbrev json : ClientJson
json = record {
  base = record {
    ids = λ s. (read 0 s, true);
    show_string = λ s. s;
    json_each = read 0;
    hysteria2_password = λ s. some s;
  };
  id = λ s. none;
  client = λ s. if str_eq s "anna" then some moved else none;
  clients = λ s. none;
  show_ids = show;
  links = λ s. ([], true);
  show_links = λ links. "";
  configs = λ s. none;
  show_configs = λ configs. "";
  ids-show_ids = λ l. ap (λ r. (r, true)) (read-show l);
  json_each-ids = λ s l e. ap (λ r. r.0) e;
}

abbrev order : MapOrder
order = record { range = λ keys. keys; has-range = λ x keys. refl; range-distinct = λ keys h. h }

abbrev no_links : Generator
no_links config inbound host = []

abbrev panel : World
panel = record Panel.world { tables = record Panel.world.tables { clients = anna ∷ ben ∷ [] } }

clients-IsTable : IsTable panel.tables.clients
clients-IsTable = record { unique = refl; positive = (refl, (refl, tt)) }

abbrev edited : World
edited = (save_edit json order no_links "host" "anna" panel).1

abbrev removed : World
removed = (save_delbulk json order "a," panel).1

save_edit_lem : save_edit json order no_links "host" "anna" panel ≡ (ok (3 ∷ 1 ∷ []), edited)
unfolding read update_links mark absent union_uint_array diff_uint_array save_edit ◌>>=◌ query
    execute lift pure found parsed decoded
save_edit_lem = refl

save_edit-may_use_example :
    any_of (may_use json.base 2 "b") edited.tables.clients
    ≡ any_of (may_use json.base 2 "b") panel.tables.clients
save_edit-may_use_example =
    save_edit-may_use json order no_links "host" "anna" moved panel edited (3 ∷ 1 ∷ []) 2 "b"
      clients-IsTable refl ((λ h. refl), ((λ h. refl), tt)) save_edit_lem refl

save_delbulk_lem : save_delbulk json order "a," panel ≡ (ok (1 ∷ []), removed)
unfolding read mark union_uint_array save_delbulk ◌>>=◌ query execute lift pure found parsed decoded
save_delbulk_lem = refl

save_delbulk-may_use_example :
    (any_of (λ c. has c.id (1 ∷ [])) removed.tables.clients ≡ false)
    × (any_of (may_use json.base 2 "b") removed.tables.clients
        ≡ any_of (may_use json.base 2 "b") panel.tables.clients)
save_delbulk-may_use_example =
    save_delbulk-may_use json order "a," (1 ∷ []) (1 ∷ []) panel removed 2 "b" clients-IsTable
      (unfold read in refl) save_delbulk_lem refl

abbrev detached : World
detached = (update_clients_on_inbound_delete json 1 "hy2" panel).1

update_clients_on_inbound_delete_lem :
    update_clients_on_inbound_delete json 1 "hy2" panel ≡ (ok tt, detached)
unfolding read update_clients_on_inbound_delete ◌>>=◌ query execute pure
update_clients_on_inbound_delete_lem = refl

update_clients_on_inbound_delete-without_example :
    (detached.tables.clients ≡ map (without json 1 "hy2") (anna ∷ ben ∷ []))
    × (map (λ c. read 0 c.inbounds) detached.tables.clients ≡ [] ∷ (2 ∷ []) ∷ [])
unfolding read
update_clients_on_inbound_delete-without_example =
    update_clients_on_inbound_delete-without json 1 "hy2" panel detached clients-IsTable
      (refl, (refl, tt)) update_clients_on_inbound_delete_lem

-- The text of the request is the tag itself.
abbrev inbound_lib : SaveLib
inbound_lib = record {
  inbounds = record {
    go = vless_lib;
    json = json.base;
    extract = λ member config. some config;
    scan_texts = λ l. some [];
    ids_in = λ s. none;
  };
  clients = json;
  manager = record {
    reads = λ config. true;
    create = λ config c. (ok tt, c);
    remove = λ tag c. (ok tt, record c { hysteria2 = [] });
  };
  generate = no_links;
  random_int = λ n. 0;
  read_text = λ s. some s;
  client_ids = λ s. [];
}

abbrev deleted : World
deleted = (delete inbound_lib "hy2" panel).1

delete_lem : delete inbound_lib "hy2" panel ≡ (ok tt, deleted)
unfolding read delete ◌>>=◌ lift decoded read_core remove_live call_core unless_invalid
    remove_inbound query update_clients_on_inbound_delete id_of execute pure
delete_lem = refl

delete-attachments_example :
    (tag : String) × (some "hy2" ≡ some tag)
    × (deleted.tables.inbounds ≡ keep_if (λ i. not (str_eq i.tag tag)) panel.tables.inbounds)
    × (attachments inbound_lib deleted.tables.clients
        ≡ map
            (keep_if (λ n. not (n == id_of tag panel.tables.inbounds)))
            (attachments inbound_lib panel.tables.clients))
delete-attachments_example =
    delete-attachments inbound_lib "hy2" panel deleted clients-IsTable (refl, (refl, tt)) delete_lem

-- The inbound is read, and its `out_json` is written.
abbrev refilled : World
refilled = (update_out_jsons (λ n. 0) inbound_lib.inbounds "host" (1 ∷ []) panel).1

refilled_lem : (update_out_jsons (λ n. 0) inbound_lib.inbounds "host" (1 ∷ []) panel).0 ≡ ok tt
unfolding update_out_jsons ◌>>=◌ find_inbounds query preload pure update_each_out lift fill_out_json
    is_local_type read_object filled put_tls marshal_full execute
refilled_lem = refl

update_out_jsons-all_else_example :
    (without_out refilled.tables ≡ without_out panel.tables) × (refilled.core ≡ panel.core)
update_out_jsons-all_else_example =
    update_out_jsons-all_else (λ n. 0) inbound_lib.inbounds "host" (1 ∷ []) panel
