-- ===== src/Util/Generator.antt =====
-- util/genLink.go: the TLS of an inbound as its clients see it, and the choice of the links.
use hy_panel.Base.{
  ℕ, zero, suc, String, ◌||◌, Option, none, some, List, [], ◌∷◌, ◌++◌, ◌<>◌, str_eq, if◌then◌else◌,
  ltb, length,
}
use hy_panel.Base.Assoc.{Assoc, lookup, insert, overlay}
use hy_panel.Base.Outcome.{Outcome, ok, err, panicked, ◌>>=◌}
use hy_panel.Base.Value.{
  Value, null, text, object, must, or_zero, at, as_object, as_array, text_at, object_at, array_at,
}
use hy_panel.Database.{Inbound, TlsRow}
use hy_panel.Util.{GoLib, read_object, read_map, marshal_full, value_at}
use hy_panel.Util.Gen.{
  socks_link, http_link, shadowsocks_link, naive_link, tuic_link, vless_link, anytls_link,
  trojan_link,
}
use hy_panel.Util.Rates.{hysteria_link, hysteria2_link}
use hy_panel.Util.Vmess.{vmess_link}

-- Writing into a map that may be nil
unfoldable pub put_into : String → Value → Option (Assoc Value) → Outcome (Option (Assoc Value))
put_into k v none = err panicked
put_into k v (some m) = ok (some (insert k v m))

-- The element of a slice at the place that RandomInt picks; Go panics behind the end.
unfoldable pub element_at : ℕ → List Value → Option Value
element_at n [] = none
element_at zero (v ∷ vs) = some v
element_at (suc n) (v ∷ vs) = element_at n vs

module _ (random_int : ℕ → ℕ) where
  -- The short id that is picked for a client, where the server has any
  unfoldable pub pick_short_id : Assoc Value → Assoc Value → Outcome (Assoc Value)
  unfolding at must element_at
  pick_short_id reality client = elim (array_at "short_id" reality) [
    | none ↦ ok client
    | some [] ↦ ok client
    | some (v ∷ vs) ↦ do
      id ← must (element_at (random_int (length (v ∷ vs))) (v ∷ vs))
      ok (insert "short_id" id client)
  ]

  -- The case of prepareTls for `reality`
  unfoldable pub prepare_reality : Value → Option (Assoc Value) → Outcome (Option (Assoc Value))
  unfolding must as_object at value_at pick_short_id put_into or_zero
  prepare_reality v client_tls = do
    reality ← must (as_object v)
    client ← must (object_at "reality" (or_zero [] client_tls))
    chosen ← pick_short_id reality (insert "enabled" (value_at "enabled" reality) client)
    put_into "reality" (object chosen) client_tls

  -- The loop of prepareTls over the fields of the server's TLS
  unfoldable pub prepare_fields :
      Assoc Value → Option (Assoc Value) → Outcome (Option (Assoc Value))
  unfolding put_into prepare_reality
  prepare_fields [] tls = ok tls
  prepare_fields ((k, v) ∷ rest) tls =
      (if str_eq k "enabled" || (str_eq k "server_name" || str_eq k "alpn")
        then put_into k v tls
        else if str_eq k "reality"
        then prepare_reality v tls
        else ok tls)
      >>= prepare_fields rest

  module _ (lib : GoLib) where
    -- prepareTls; where a part of the row cannot be read, it returns a nil map.
    unfoldable pub prepare_tls : TlsRow → Outcome (Assoc Value)
    unfolding read_map read_object or_zero prepare_fields
    prepare_tls row = elim (read_map lib row.client) [
      | none ↦ ok []
      | some tls ↦ elim (read_object lib row.server) [
        | none ↦ ok []
        | some server ↦ prepare_fields server tls >>= λ made. ok (or_zero [] made)
      ]
    ]

-- A map as json.Unmarshal stores it into a typed map; null leaves a nil map.
abbrev as_map : Value → Option (Option (Assoc Value))
as_map null = some none
as_map v = elim (as_object v) [ none ↦ none | some m ↦ some (some m) ]

abbrev maps : List Value → Option (List (Option (Assoc Value)))
maps [] = some []
maps (v ∷ vs) =
    let rest = maps vs in
    elim (as_map v) [ none ↦ none | some m ↦ elim rest [ none ↦ none | some l ↦ some (m ∷ l) ] ]

abbrev configs : Assoc Value → Option (Assoc (Assoc Value))
configs [] = some []
configs ((k, v) ∷ m) =
    let rest = configs m in
    elim (as_map v) [
      | none ↦ none
      | some own ↦ elim rest [ none ↦ none | some l ↦ some ((k, or_zero [] own) ∷ l) ]
    ]

module _ (lib : GoLib) where
  -- json.Unmarshal into []map[string]interface{} and into map[string]map[string]interface{}
  unfoldable pub read_maps : String → Option (List (Option (Assoc Value)))
  unfolding as_array as_object or_zero
  read_maps s = elim (lib.read s) [
    | none ↦ none
    | some null ↦ some []
    | some v ↦ elim (as_array v) [ none ↦ none | some vs ↦ maps vs ]
  ]

  unfoldable pub read_configs : String → Option (Assoc (Assoc Value))
  unfolding read_object as_object or_zero
  read_configs s = elim (read_object lib s) [ none ↦ none | some m ↦ configs m ]

-- The TLS of one address over that of the inbound
unfoldable pub tls_of_addr : Option (Assoc Value) → Assoc Value → Assoc Value
unfolding at overlay
tls_of_addr none addr = addr
tls_of_addr (some tls) addr =
    insert "tls" (object (overlay (or_zero [] (object_at "tls" addr)) (overlay tls []))) addr

-- The addresses of the row, with their remarks and their TLS
unfoldable pub named_addrs :
    String → Option (Assoc Value) → List (Option (Assoc Value)) → Outcome (List (Assoc Value))
unfolding at or_zero tls_of_addr
named_addrs tag tls [] = ok []
named_addrs tag tls (none ∷ addrs) = err panicked
named_addrs tag tls (some addr ∷ addrs) = do
  rest ← named_addrs tag tls addrs
  ok (
      tls_of_addr tls (insert "remark" (text (tag <> or_zero "" (text_at "remark" addr))) addr)
      ∷ rest)

-- The addresses of LinkGenerator: without any, the host of the panel and the port of the inbound.
unfoldable pub addrs_of :
    String
    → String
    → Value
    → Option (Assoc Value)
    → List (Option (Assoc Value))
    → Outcome (List (Assoc Value))
unfolding named_addrs
addrs_of tag hostname port tls (addr ∷ addrs) = named_addrs tag tls (addr ∷ addrs)
addrs_of tag hostname port none [] =
    ok ((("server", text hostname) ∷ ("server_port", port) ∷ ("remark", text tag) ∷ []) ∷ [])
addrs_of tag hostname port (some tls) [] = ok (
    (("server", text hostname)
      ∷ ("server_port", port)
      ∷ ("remark", text tag)
      ∷ ("tls", object tls)
      ∷ [])
    ∷ [])

module _ (random_int : ℕ → ℕ) (lib : GoLib) where
  -- prepareTls of the row that the inbound points to, if it has one
  unfoldable pub client_tls : Inbound → Option TlsRow → Outcome (Option (Assoc Value))
  unfolding must prepare_tls
  client_tls i row =
      if ltb 0 i.tls_id
      then (do r ← must row; tls ← prepare_tls random_int lib r; ok (some tls))
      else ok none

module _ (lib : GoLib) where
  -- The switch of LinkGenerator on the type of the inbound
  unfoldable pub links_of_type :
      String → Assoc (Assoc Value) → Assoc Value → List (Assoc Value) → Outcome (List String)
  unfolding socks_link http_link shadowsocks_link naive_link hysteria_link hysteria2_link tuic_link
      vless_link anytls_link trojan_link vmess_link or_zero
  links_of_type kind users inbound addrs =
      let user : String → Assoc Value = λ k. or_zero [] (lookup k users) in
      if str_eq kind "socks"
      then socks_link lib (user "socks") addrs
      else if str_eq kind "http"
      then http_link lib (user "http") addrs
      else if str_eq kind "mixed"
      then (do
        socks ← socks_link lib (user "socks") addrs
        http ← http_link lib (user "http") addrs
        ok (socks ++ http))
      else if str_eq kind "shadowsocks"
      then shadowsocks_link lib users inbound addrs
      else if str_eq kind "naive"
      then naive_link lib (user "naive") inbound addrs
      else if str_eq kind "hysteria"
      then hysteria_link lib (user "hysteria") inbound addrs
      else if str_eq kind "hysteria2"
      then hysteria2_link lib (user "hysteria2") inbound addrs
      else if str_eq kind "tuic"
      then tuic_link lib (user "tuic") inbound addrs
      else if str_eq kind "vless"
      then vless_link lib (user "vless") inbound addrs
      else if str_eq kind "anytls"
      then anytls_link lib (user "anytls") addrs
      else if str_eq kind "trojan"
      then trojan_link lib (user "trojan") inbound addrs
      else if str_eq kind "vmess"
      then vmess_link lib (user "vmess") inbound addrs
      else ok []

module _ (random_int : ℕ → ℕ) (lib : GoLib) where
  -- LinkGenerator, for a config of a client, an inbound and the row of `tls` that it points to
  unfoldable pub link_generator : String → Inbound → Option TlsRow → String → Outcome (List String)
  unfolding marshal_full client_tls read_configs read_maps addrs_of links_of_type value_at
  link_generator client_config i row hostname = elim (marshal_full lib i) [
    | err e ↦ ok []
    | ok inbound ↦ client_tls random_int lib i row >>= λ tls.
        elim (read_configs lib client_config) [
          | none ↦ ok []
          | some users ↦ elim (read_maps lib i.addrs) [
            | none ↦ ok []
            | some given ↦
                addrs_of i.tag hostname (value_at "listen_port" inbound) tls given
                >>= links_of_type lib i.type users inbound
          ]
        ]
  ]
