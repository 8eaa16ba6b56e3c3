-- ===== src/Clients/Links.antt =====
-- The links that a client keeps, in service/client.go: updateLinksWithFixedInbounds,
-- UpdateClientsOnInboundAdd, UpdateClientsOnInboundDelete and UpdateLinksByInboundChange. `generate`
-- stands for util.LinkGenerator, of the config of a client, an inbound and the host.
pub mod Detached
use hy_panel.Base.{
  ℕ, String, Bool, true, false, not, ◌&&◌, ◌||◌, Option, none, some, List, [], ◌∷◌, ◌++◌, map, ◌==◌,
  str_eq, if◌then◌else◌, keep_if, any_of, has, first_of?,
}
use hy_panel.Base.Assoc.{Assoc, lookup, has_string}
use hy_panel.Base.Outcome.{Outcome, ok, err, json_error}
use hy_panel.Arrays.{MapOrder, union_uint_array}
use hy_panel.Database.{Client, Inbound, Tables}
use hy_panel.Database.Json.{ClientJson}
use hy_panel.Database.Tx.{Tx, pure, lift, ◌>>=◌, ◌>>◌, query, execute}
use hy_panel.Database.Rows.{save_client}
use hy_panel.Database.Results.{parsed}

abbrev pub Generator : Type 0
Generator = String → Inbound → String → List String

-- util.InboundTypeWithLink
unfoldable pub inbound_type_with_link : List String
inbound_type_with_link =
    "socks" ∷ "http" ∷ "mixed" ∷ "shadowsocks" ∷ "naive" ∷ "hysteria" ∷ "hysteria2" ∷ "anytls"
    ∷ "tuic" ∷ "vless" ∷ "trojan" ∷ "vmess" ∷ []

-- A key of a map of texts; one that is missing has the empty text.
unfoldable pub field : String → Assoc String → String
field key link = elim (lookup key link) [ none ↦ "" | some v ↦ v ]

unfoldable pub is_local : Assoc String → Bool
unfolding field
is_local link = str_eq (field "type" link) "local"

unfoldable pub local_link : String → String → Assoc String
local_link tag uri = ("remark", tag) ∷ ("type", "local") ∷ ("uri", uri) ∷ []

-- The links of a client at one inbound.
unfoldable pub new_links : Generator → String → String → Inbound → List (Assoc String)
unfolding local_link
new_links generate host config inbound = map (local_link inbound.tag) (generate config inbound host)

-- The links of a client at the inbounds of its ids, as far as they were found.
unfoldable pub links_at : Generator → String → String → List Inbound → List ℕ → List (Assoc String)
unfolding new_links
links_at generate host config inbounds [] = []
links_at generate host config inbounds (id ∷ ids) =
    let rest = links_at generate host config inbounds ids in
    elim (first_of? (λ i. i.id == id) inbounds) [
      | none ↦ rest
      | some i ↦ new_links generate host config i ++ rest
    ]

-- Find without a row leaves the zero value.
abbrev no_inbound_row : Inbound
no_inbound_row = record {
  id = 0;
  type = "";
  tag = "";
  tls_id = 0;
  addrs = "";
  out_json = "";
  options = none;
}

unfoldable pub inbound_or_zero : ℕ → List Inbound → Inbound
inbound_or_zero id rows = elim (first_of? (λ i. i.id == id) rows) [
  | none ↦ no_inbound_row
  | some i ↦ i
]

-- Save of one client after the other.
unfoldable pub save_each : List Client → Tx (Unit {0})
save_each [] = pure tt
save_each (c ∷ cs) = execute (save_client c) >> save_each cs

module _ (j : ClientJson) where
  -- The first loop of updateLinksWithFixedInbounds: the ids of each client.
  unfoldable pub read_inbounds : List Client → Outcome (List (Client × List ℕ))
  read_inbounds [] = ok []
  read_inbounds (c ∷ cs) =
      let rest = read_inbounds cs in
      elim (parsed (j.base.ids c.inbounds)) [
        | err e ↦ err e
        | ok ids ↦ elim rest [ err e ↦ err e | ok l ↦ ok ((c, ids) ∷ l) ]
      ]

  unfoldable pub all_inbounds : MapOrder → List (Client × List ℕ) → List ℕ → List ℕ
  all_inbounds order [] all = all
  all_inbounds order ((c, ids) ∷ rest) all =
      all_inbounds order rest (union_uint_array order all ids)

  -- The inbounds with links among the given ids; no query is made for none.
  unfoldable pub linked_inbounds : List ℕ → Tx (List Inbound)
  unfolding inbound_type_with_link
  linked_inbounds [] = pure []
  linked_inbounds (id ∷ ids) = query (λ t.
      keep_if (λ i. has i.id (id ∷ ids) && has_string i.type inbound_type_with_link) t.inbounds)

  module _ (generate : Generator) (host : String) where
    -- One turn of the second loop: the new local links, then the old ones that are not local.
    unfoldable pub relink : List Inbound → Client → List ℕ → Outcome Client
    unfolding links_at is_local
    relink inbounds c ids = elim (parsed (j.links c.links)) [
      | err e ↦ err e
      | ok old ↦ ok (record c {
        links =
            j.show_links
              (links_at generate host c.config inbounds ids ++ keep_if (λ l. not (is_local l)) old);
      })
    ]

    unfoldable pub relink_all : List Inbound → List (Client × List ℕ) → Outcome (List Client)
    unfolding relink
    relink_all inbounds [] = ok []
    relink_all inbounds ((c, ids) ∷ rest) =
        let later = relink_all inbounds rest in
        elim (relink inbounds c ids) [
          | err e ↦ err e
          | ok c' ↦ elim later [ err e ↦ err e | ok l ↦ ok (c' ∷ l) ]
        ]

    -- updateLinksWithFixedInbounds
    unfoldable pub update_links : MapOrder → List Client → Tx (List Client)
    unfolding read_inbounds all_inbounds linked_inbounds relink_all
    update_links order clients = do
      pairs ← lift (read_inbounds clients)
      inbounds ← linked_inbounds (all_inbounds order pairs [])
      lift (relink_all inbounds pairs)

    -- The loop of UpdateClientsOnInboundAdd; errors of Unmarshal are not looked at.
    unfoldable pub attach : ℕ → Inbound → Client → Client
    unfolding new_links field
    attach id inbound c = record c {
      inbounds = j.show_ids ((j.base.ids c.inbounds).0 ++ id ∷ []);
      links = j.show_links (
          new_links generate host c.config inbound
          ++ keep_if (λ l. not (str_eq (field "remark" l) inbound.tag)) (j.links c.links).0);
    }

    -- UpdateClientsOnInboundAdd, for the ids that the text `initIds` names
    unfoldable pub update_clients_on_inbound_add : List ℕ → ℕ → Tx (Unit {0})
    unfolding attach save_each inbound_or_zero
    update_clients_on_inbound_add client_ids id = do
      clients ← query (λ t. keep_if (λ c. has c.id client_ids) t.clients)
      inbound ← query (λ t. inbound_or_zero id t.inbounds)
      save_each (map (attach id inbound) clients)

    -- The links that UpdateLinksByInboundChange keeps.
    unfoldable pub is_other : String → String → Assoc String → Bool
    unfolding is_local field
    is_other tag old_tag l =
        not (is_local l)
        || (not (str_eq (field "remark" l) tag) && not (str_eq (field "remark" l) old_tag))

    unfoldable pub refresh : String → Inbound → Client → Client
    unfolding new_links is_other
    refresh old_tag inbound c = record c {
      links = j.show_links (
          new_links generate host c.config inbound
          ++ keep_if (is_other inbound.tag old_tag) (j.links c.links).0);
    }

  -- The ids of the clients that are attached to an inbound, as SQLite finds them.
  unfoldable pub attached_ids : ℕ → List Client → List ℕ
  attached_ids id cs = map (λ c. c.id) (keep_if (λ c. has id (j.base.json_each c.inbounds)) cs)

  -- The loop of UpdateClientsOnInboundDelete
  unfoldable pub detach : ℕ → String → Client → Client
  unfolding field
  detach id tag c = record c {
    inbounds = j.show_ids (keep_if (λ n. not (n == id)) (j.base.ids c.inbounds).0);
    links = j.show_links (keep_if (λ l. not (str_eq (field "remark" l) tag)) (j.links c.links).0);
  }

  unfoldable pub detach_found : ℕ → String → List ℕ → Tx (Unit {0})
  unfolding detach save_each
  detach_found id tag [] = pure tt
  detach_found id tag (n ∷ ns) = do
    clients ← query (λ t. keep_if (λ c. has c.id (n ∷ ns)) t.clients)
    save_each (map (detach id tag) clients)

  -- UpdateClientsOnInboundDelete
  unfoldable pub update_clients_on_inbound_delete : ℕ → String → Tx (Unit {0})
  unfolding attached_ids detach_found
  update_clients_on_inbound_delete id tag = do
    ids ← query (λ t. attached_ids id t.clients)
    detach_found id tag ids

  unfoldable pub refresh_found : Generator → String → String → Inbound → List ℕ → Tx (Unit {0})
  unfolding refresh save_each
  refresh_found generate host old_tag inbound [] = pure tt
  refresh_found generate host old_tag inbound (n ∷ ns) = do
    clients ← query (λ t. keep_if (λ c. has c.id (n ∷ ns)) t.clients)
    save_each (map (refresh generate host old_tag inbound) clients)

  -- UpdateLinksByInboundChange
  unfoldable pub update_links_by_inbound_change :
      Generator → String → String → List Inbound → Tx (Unit {0})
  unfolding attached_ids refresh_found
  update_links_by_inbound_change generate host old_tag [] = pure tt
  update_links_by_inbound_change generate host old_tag (i ∷ is) = do
    ids ← query (λ t. attached_ids i.id t.clients)
    refresh_found generate host old_tag i ids
    update_links_by_inbound_change generate host old_tag is
