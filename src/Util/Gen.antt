-- ===== src/Util/Gen.antt =====
-- util/genLink.go: the links of a client to an inbound.
use hy_panel.Base.{
  String, Bool, true, false, ◌||◌, Option, none, some, List, [], ◌∷◌, ◌++◌, ◌<>◌, map, str_eq,
  starts_with, if◌then◌else◌,
}
use hy_panel.Base.Assoc.{Assoc, lookup}
use hy_panel.Base.Outcome.{Outcome, ok, err, panicked, ◌>>=◌}
use hy_panel.Base.Strings.{join}
use hy_panel.Base.Value.{Value, null, must, or_zero, at, as_raw, text_at, number_at, object_at}
use hy_panel.Util.{GoLib, read_object, shown, value_at}
use hy_panel.Util.Params.{
  LinkParam, param, param_of, is_on, get_transport_params, transport_of, naive_tls_params,
  fast_open, tls_params, enabled_tls_params, password_of, is_tcp, vless_tls,
}

-- A loop over the addresses that makes a link of each.
unfoldable pub each : (Assoc Value → Outcome String) → List (Assoc Value) → Outcome (List String)
each link [] = ok []
each link (addr ∷ addrs) = do uri ← link addr; rest ← each link addrs; ok (uri ∷ rest)

module _ (lib : GoLib) where
  -- The value of a parameter in the query of a link: lists go in as they are.
  unfoldable pub encoded : LinkParam → String
  encoded p = if str_eq p.key "mport" || str_eq p.key "alpn" then p.value else lib.escape p.value

  unfoldable pub written : LinkParam → String
  unfolding encoded
  written p = p.key <> ("=" <> encoded p)

  -- addParams
  unfoldable pub add_params : String → List LinkParam → String → Outcome String
  unfolding written join
  add_params uri params remark = elim (lib.parse_url uri) [
    | none ↦ err panicked
    | some u ↦
        ok
          (lib.show_url (record u { raw_query = join (map written params) "&"; fragment = remark }))
  ]

  unfoldable pub port_of : Assoc Value → String
  unfolding at or_zero
  port_of addr = lib.show_number (or_zero 0 (number_at "server_port" addr))

  -- A link with a query: the host and port of an address behind `base`, and its remark.
  unfoldable pub link_to : String → List LinkParam → Assoc Value → Outcome String
  unfolding must at port_of add_params
  link_to base params addr = do
    server ← must (text_at "server" addr)
    remark ← must (text_at "remark" addr)
    add_params (base <> (server <> (":" <> port_of addr))) params remark

  -- The tail of a proxy link, whose port has to be a number.
  unfoldable pub proxy_link : String → Assoc Value → Assoc Value → Outcome String
  unfolding must at shown
  proxy_link protocol user addr = do
    server ← must (text_at "server" addr)
    port ← must (number_at "server_port" addr)
    ok (
        protocol
        <> (shown lib "username" user
            <> (":"
                <> (shown lib "password" user
                    <> ("@" <> (server <> (":" <> lib.show_number port)))))))

  -- socksLink
  unfoldable pub socks_link : Assoc Value → List (Assoc Value) → Outcome (List String)
  unfolding proxy_link each
  socks_link user addrs = each (proxy_link "socks5://" user) addrs

  -- The loop of httpLink: `secure` says that the protocol is https by now.
  unfoldable pub http_links : Assoc Value → Bool → List (Assoc Value) → Outcome (List String)
  unfolding proxy_link value_at
  http_links user secure [] = ok []
  http_links user secure (addr ∷ addrs) =
      let now_secure = secure || elim (value_at "tls" addr) [ null ↦ false | _ ↦ true ] in
      (do
        uri ← proxy_link (if now_secure then "https://" else "http://") user addr
        rest ← http_links user now_secure addrs
        ok (uri ∷ rest))

  -- httpLink
  unfoldable pub http_link : Assoc Value → List (Assoc Value) → Outcome (List String)
  unfolding http_links
  http_link user addrs = http_links user false addrs

  -- The methods named 2022 have the password of the inbound in front.
  abbrev shadowsocks_passwords : Assoc (Assoc Value) → Assoc Value → List String
  shadowsocks_passwords users inbound =
      let method = or_zero "" (text_at "method" inbound) in
      let user = or_zero [] (
        lookup (if str_eq method "2022-blake3-aes-128-gcm" then "shadowsocks16" else "shadowsocks")
          users) in
      let own = or_zero "" (text_at "password" user) in
      if starts_with method "2022"
      then or_zero "" (text_at "password" inbound) ∷ (own ∷ [])
      else own ∷ []

  abbrev shadowsocks_base : Assoc (Assoc Value) → Assoc Value → String
  shadowsocks_base users inbound =
      "ss://"
      <> lib.to_base64 (
          or_zero "" (text_at "method" inbound)
          <> (":" <> join (shadowsocks_passwords users inbound) ":"))

  -- shadowsocksLink
  unfoldable pub shadowsocks_link :
      Assoc (Assoc Value) → Assoc Value → List (Assoc Value) → Outcome (List String)
  unfolding or_zero at must each join port_of
  shadowsocks_link users inbound addrs =
      each
        (λ addr. do
          server ← must (text_at "server" addr)
          remark ← must (text_at "remark" addr)
          ok (
              shadowsocks_base users inbound
              <> ("@" <> (server <> (":" <> (port_of addr <> ("#" <> remark)))))))
        addrs

  -- naiveLink
  unfoldable pub naive_link : Assoc Value → Assoc Value → List (Assoc Value) → Outcome (List String)
  unfolding or_zero at must each port_of add_params naive_tls_params is_on
  naive_link user inbound addrs =
      let name = or_zero "" (text_at "username" user) in
      let password = or_zero "" (text_at "password" user) in
      each
        (λ addr. do
          tls ← naive_tls_params (object_at "tls" addr)
          server ← must (text_at "server" addr)
          remark ← must (text_at "remark" addr)
          add_params
              ("http2://"
                <> lib.to_base64
                    (name <> (":" <> (password <> ("@" <> (server <> (":" <> port_of addr)))))))
              (param "padding" "1" ∷ (tls ++ fast_open "tfo" inbound ∷ [])) remark)
        addrs

  -- anytlsLink
  unfoldable pub anytls_link : Assoc Value → List (Assoc Value) → Outcome (List String)
  unfolding at or_zero tls_params link_to each
  anytls_link user = each (λ addr. do
    params ← tls_params "insecure" (object_at "tls" addr)
    link_to ("anytls://" <> (password_of user <> "@")) params addr)

  -- The relay mode of TUIC that `out_json` tells, if it can be read
  unfoldable pub udp_relay_mode : Assoc Value → Option String
  unfolding at read_object
  udp_relay_mode inbound = elim (at as_raw "out_json" inbound) [
    | none ↦ none
    | some s ↦ elim (read_object lib s) [
      | none ↦ none
      | some out ↦ elim (text_at "udp_relay_mode" out) [
        | none ↦ none
        | some mode ↦ if str_eq mode "" then none else some mode
      ]
    ]
  ]

  -- tuicLink
  unfoldable pub tuic_link : Assoc Value → Assoc Value → List (Assoc Value) → Outcome (List String)
  unfolding at or_zero param_of tls_params link_to each udp_relay_mode
  tuic_link user inbound = each (λ addr. do
    tls ← tls_params "insecure" (object_at "tls" addr)
    link_to ("tuic://" <> (or_zero "" (text_at "uuid" user) <> (":" <> (password_of user <> "@"))))
        (tls
          ++ (param_of "congestion_control" (text_at "congestion_control" inbound)
              ++ param_of "udp_relay_mode" (udp_relay_mode inbound)))
        addr)

  -- vlessLink
  unfoldable pub vless_link : Assoc Value → Assoc Value → List (Assoc Value) → Outcome (List String)
  unfolding at or_zero enabled_tls_params link_to each get_transport_params transport_of is_tcp
      vless_tls
  vless_link user inbound addrs = do
    base ← get_transport_params (transport_of inbound)
    each
        (λ addr. do
          tls ← enabled_tls_params (object_at "tls" addr)
          link_to ("vless://" <> (or_zero "" (text_at "uuid" user) <> "@"))
              (base ++ vless_tls (is_tcp base) user tls) addr)
        addrs

  -- trojanLink
  unfoldable pub trojan_link :
      Assoc Value → Assoc Value → List (Assoc Value) → Outcome (List String)
  unfolding at or_zero enabled_tls_params link_to each get_transport_params transport_of
  trojan_link user inbound addrs = do
    base ← get_transport_params (transport_of inbound)
    each
        (λ addr. do
          tls ← enabled_tls_params (object_at "tls" addr)
          link_to ("trojan://" <> (password_of user <> "@")) (base ++ or_zero [] tls) addr)
        addrs
