-- ===== src/Examples/Panel.antt =====
-- A panel with two clients, of whom one is over its quota.
use hy_panel.Base.{
  ℕ, ◌≡◌, refl, sym, ◌∙◌, Bool, true, false, none, some, List, [], ◌∷◌, ◌++◌, map, All, arith,
  any_of, str_eq, if◌then◌else◌, has, ◌==◌, not, keep_if, String,
}
use hy_panel.Base.Assoc.{Assoc, lookup, has_string, remove}
use hy_panel.Base.Outcome.{ok, err, invalid}
use hy_panel.Arrays.{MapOrder}
use hy_panel.Hysteria.{Service}
use hy_panel.Database.{Client, Inbound}
use hy_panel.Database.Json.{Json}
use hy_panel.Database.Tx.{World, Tx}
use hy_panel.Database.Rows.{IsTable}
use hy_panel.Inbounds.{tag_of, apply_user_changes}
use hy_panel.Core.Inbounds.{InboundManager}
use hy_panel.Inbounds.Config.{InboundLib}
use hy_panel.Inbounds.Restart.{restart_inbounds}
use hy_panel.Inbounds.Restart.Kept.{LeavesHysteria2, restart_inbounds-RestartKeeps}
use hy_panel.Examples.Linking.{vless_lib}
use hy_panel.Inbounds.Users.{may_use, live_passwords, has_string-live_passwords}
use hy_panel.Inbounds.Apply.{
  IsUp, IsApart, UniqueTags, AllLive, RestartKeeps, Applied, live_ids, apply_user_changes-Applied,
}
use hy_panel.Clients.Limits.{is_depleted}
use hy_panel.Clients.Reset.{reset_change}
use hy_panel.Clients.Reset.Rowwise.{started}
use hy_panel.Clients.Deplete.{deplete_clients, deplete_change}
use hy_panel.Clients.Deplete.Rowwise.{deplete_row, touched, disabled}
use hy_panel.Clients.Deplete.Outcomes.{Ended, deplete_clients-Ended, deplete_clients-returns}
use hy_panel.Clients.Ban.{ban_client}
use hy_panel.Clients.Ban.Persisted.{Keeps, Persisted, ban_client-Persisted}
use hy_panel.Clients.Ban.Evicted.{Reaches, Admits, other_clients, ban_client-Admits}

abbrev pub json : Json
json = record {
  ids = λ s. if str_eq s "[1]" then (1 ∷ [], true) else ([], false);
  show_string = λ s. s;
  json_each = λ s. if str_eq s "[1]" then 1 ∷ [] else [];
  hysteria2_password = λ s. some s;
}

abbrev pub order : MapOrder
order = record { range = λ keys. keys; has-range = λ x keys. refl; range-distinct = λ keys h. h }

-- The config of these clients is the password itself.
abbrev pub anna : Client
anna = record {
  id = 1;
  enable = true;
  name = "anna";
  config = "a";
  inbounds = "[1]";
  links = "";
  volume = 100;
  expiry = 0;
  down = 70;
  up = 50;
  desc = "";
  group = "";
  banned = false;
  banned_at = 0;
  delay_start = false;
  auto_reset = false;
  reset_days = 0;
  next_reset = 0;
  total_up = 5;
  total_down = 6;
}

abbrev pub ben : Client
ben = record anna {
  id = 2;
  name = "ben";
  config = "b";
  volume = 0;
  delay_start = true;
  reset_days = 30;
}

abbrev pub clients : List Client
clients = anna ∷ ben ∷ []

pub clients-IsTable : IsTable clients
clients-IsTable = record { unique = refl; positive = (refl, (refl, tt)) }

abbrev pub service : Service
service = record { user_map = []; sessions = [] }

abbrev pub inbound : Inbound
inbound = record {
  id = 1;
  type = "hysteria2";
  tag = "hy2";
  tls_id = 0;
  addrs = "null";
  out_json = "{}";
  options = some "{}";
}

abbrev pub world : World
world = record {
  tables = record {
    clients = clients;
    next_client_id = 3;
    inbounds = inbound ∷ [];
    changes = [];
    stats = [];
    users = [];
    next_user_id = 1;
    tokens = [];
    next_token_id = 1;
    settings = [];
    next_setting_id = 1;
    outbounds = [];
    next_outbound_id = 1;
    next_inbound_id = 2;
    tls = [];
    next_tls_id = 1;
  };
  core = record {
    is_running = true;
    hysteria2 = ("hy2", service) ∷ [];
    others = [];
    outbounds = [];
  };
  last_update = 0;
  faults = [];
}

abbrev no_restart : List ℕ → Tx (Unit {0})
no_restart ids w = (ok tt, w)

-- A manager of inbounds that takes configs of other protocols only
abbrev manager : InboundManager
manager = record {
  reads = λ config. true;
  create = λ config c. (ok tt, record c { others = config ∷ c.others });
  remove = λ tag c. (
    if has_string tag c.others then ok tt else err invalid,
    record c {
      hysteria2 = remove tag c.hysteria2;
      others = keep_if (λ t. not (str_eq t tag)) c.others;
    },
  );
}

abbrev inbound_lib : InboundLib
inbound_lib = record {
  go = vless_lib;
  json = json;
  extract = λ member config. some config;
  scan_texts = λ l. some [];
  ids_in = λ s. none;
}

abbrev pub restart : List ℕ → Tx (Unit {0})
restart = restart_inbounds manager (λ tag c. c) inbound_lib

remove-absent : (tag : String) (l : Assoc Service) → lookup tag l ≡ none → remove tag l ≡ l
unfolding remove lookup
remove-absent tag [] h = refl
remove-absent tag ((own, s) ∷ rest) h = ground (arith, remove-absent tag rest)

manager-LeavesHysteria2 : LeavesHysteria2 manager (λ tag c. c) inbound_lib
manager-LeavesHysteria2 = record {
  remove = λ tag c n. remove-absent tag c.hysteria2 n;
  create = λ i row w config c n e. refl;
  close = λ tag c. refl;
}

has_string-live_passwords_example :
    has_string "b" (live_passwords json 1 clients) ≡ any_of (may_use json 1 "b") clients
has_string-live_passwords_example = has_string-live_passwords json 1 "b" clients

deplete_clients-Ended_example :
    Ended json 10
      (record world { faults = false ∷ false ∷ true ∷ [] })
      (deplete_clients json order 10 (record world { faults = false ∷ false ∷ true ∷ [] }))
deplete_clients-Ended_example =
    deplete_clients-Ended json order 10 (record world { faults = false ∷ false ∷ true ∷ [] })
      clients-IsTable

deplete_clients-returns_example :
    ((deplete_clients json order 10 world).0 ≡ ok (touched json order 10 clients))
    × ((deplete_clients json order 10 world).1.tables.clients ≡ map (deplete_row 10) clients)
    × ((deplete_clients json order 10 world).1.tables.changes
        ≡ map (reset_change 10) (started clients) ++ map (deplete_change 10) (disabled 10 clients))
    × All (λ c. is_depleted 10 c ≡ false) (deplete_clients json order 10 world).1.tables.clients
deplete_clients-returns_example = deplete_clients-returns json order 10 world clients-IsTable refl

pub restart-RestartKeeps : RestartKeeps restart
restart-RestartKeeps =
    restart_inbounds-RestartKeeps manager (λ tag c. c) inbound_lib manager-LeavesHysteria2

no_restart-Keeps : (ids : List ℕ) → Keeps (no_restart ids)
no_restart-Keeps ids = record { at = λ w. refl }

ban_client-Persisted_example :
    Persisted json 1 true "admin" 10
      (record world { faults = false ∷ true ∷ [] })
      (ban_client json no_restart
        (ok true)
        1
        true
        "admin"
        10
        (record world { faults = false ∷ true ∷ [] }))
ban_client-Persisted_example =
    ban_client-Persisted json no_restart (ok true) 1 true "admin" 10
      (record world { faults = false ∷ true ∷ [] }) no_restart-Keeps

world-IsUp : IsUp world
world-IsUp = record { faultless = refl; running = refl }

world_only : (i : ℕ) → str_eq (tag_of i world.tables.inbounds) "" ≡ false → i ≡ 1
unfolding tag_of
world_only i n = go (1 == i) refl n
  where
    go :
        (b : Bool)
        → (1 == i) ≡ b
        → str_eq (elim (if b then some inbound else none) [ none ↦ "" | some r ↦ r.tag ]) "" ≡ false
        → i ≡ 1
    go true e h = ground arith
    go false e h = cc

pub world-UniqueTags : UniqueTags world.tables.inbounds
world-UniqueTags i j e n = world_only i n ∙ sym (world_only j (rw e at n))

world-AllLive : AllLive world (live_ids (1 ∷ []) world.tables.inbounds)
unfolding tag_of lookup
world-AllLive i h =
    let one : i ≡ 1 = ground arith in
    rw one (record { has_tag = refl; service = service; runs = refl })

world-IsApart : IsApart world
world-IsApart = ((λ h. cc h), tt)

apply_user_changes-Applied_example :
    Applied json (1 ∷ []) world (apply_user_changes json restart (ok true) (1 ∷ []) world)
apply_user_changes-Applied_example =
    apply_user_changes-Applied json restart (1 ∷ []) world restart-RestartKeeps world-IsUp
      world-UniqueTags world-AllLive world-IsApart

world-Reaches : Reaches json 1 world (1 ∷ [])
world-Reaches = record {
  up = world-IsUp;
  client = anna;
  there = refl;
  parses = refl;
  unique = world-UniqueTags;
  live = world-AllLive;
  apart = world-IsApart;
}

ban_client-Admits_example :
    let (r, w) = ban_client json restart (ok true) 1 true "admin" 10 world in
    (r ≡ ok tt)
    × ((i : ℕ)
        → has i (live_ids (1 ∷ []) world.tables.inbounds) ≡ true
        → Admits json w i (tag_of i world.tables.inbounds) (other_clients 1 clients))
ban_client-Admits_example =
    ban_client-Admits json restart 1 "admin" 10 world (1 ∷ []) restart-RestartKeeps world-Reaches
