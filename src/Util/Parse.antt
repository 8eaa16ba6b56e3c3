-- ===== src/Util/Parse.antt =====
-- util/linkToJson.go: the outbound that a link describes. A map that is built field by field is written
-- out with its fields in that order.
use hy_panel.Base.{
  ℕ, String, true, ◌||◌, Option, none, some, [], ◌∷◌, ◌++◌, ◌<>◌, str_eq, if◌then◌else◌,
}
use hy_panel.Base.Assoc.{Assoc}
use hy_panel.Base.Int64.{lt_int64}
use hy_panel.Base.Outcome.{Outcome, ok}
use hy_panel.Base.Strings.{replace_char}
use hy_panel.Base.Value.{Value, flag, number, text, object, or_zero}
use hy_panel.Util.{GoLib, Url, UserInfo}
use hy_panel.Util.Query.{
  parse_query, get, is_yes, is_set, list_of, field_if, get_transport, get_tls,
}

-- What GetOutbound returns beside an error: the outbound and its tag.
abbrev pub Parsed : Type 0
Parsed = Outcome (Assoc Value × String)

-- Username and Password of a *url.Userinfo, which may be nil
unfoldable pub username_of : Option UserInfo → String
username_of none = ""
username_of (some u) = u.username

unfoldable pub password_of : Option UserInfo → Option String
password_of none = none
password_of (some u) = u.password

-- security, if the link names none
unfoldable pub or_tls : String → String
or_tls security = if str_eq security "" then "tls" else security

unfoldable pub default_port : String → ℕ
default_port security = if str_eq security "tls" || str_eq security "reality" then 443 else 80

module _ (lib : GoLib) where
  -- "%d.%s" of the index of a link and its name
  unfoldable pub numbered : ℕ → String → String
  numbered i s = if lt_int64 0 i then lib.show_number i <> ("." <> s) else s

  unfoldable pub port_or : ℕ → String → ℕ
  port_or default s = if str_eq s "" then default else lib.atoi s

  -- The fields of every link but vmess: type, tag, server and port.
  unfoldable pub head_fields : String → ℕ → ℕ → Url → Assoc Value
  unfolding numbered port_or
  head_fields kind default i u =
      let (host, port) = lib.split_host_port u.host in
      ("type", text kind)
      ∷ ("tag", text (numbered i u.fragment))
      ∷ ("server", text host)
      ∷ ("server_port", number (port_or default port))
      ∷ []

  unfoldable pub query_of : Url → Assoc String
  unfolding parse_query
  query_of u = parse_query lib u.raw_query

  -- A number of the query, if it is positive
  unfoldable pub positive_field : String → String → Assoc String → Assoc Value
  positive_field k key q =
      field_if (lt_int64 0 (lib.atoi (get key q))) k (number (lib.atoi (get key q)))

  -- vless
  unfoldable pub vless : Url → ℕ → Parsed
  vless u i =
      let q = query_of u in
      let security = get "security" q in
      ok (
        head_fields "vless" (default_port security) i u
            ++ ("uuid", text (username_of u.user))
              ∷ ("flow", text (get "flow" q))
              ∷ ("tls", object (get_tls security q))
              ∷ ("transport", object (get_transport (get "type" q) q))
              ∷ [],
        numbered i u.fragment,
      )

  -- trojan
  unfoldable pub trojan : Url → ℕ → Parsed
  trojan u i =
      let q = query_of u in
      let security = get "security" q in
      ok (
        head_fields "trojan" (default_port security) i u
            ++ ("password", text (username_of u.user))
              ∷ ("tls", object (get_tls security q))
              ∷ ("transport", object (get_transport (get "type" q) q))
              ∷ [],
        numbered i u.fragment,
      )

  -- hy
  unfoldable pub hy : Url → ℕ → Parsed
  hy u i =
      let q = query_of u in
      ok (
        head_fields "hysteria" 443 i u
            ++ ("obfs", text (get "obfsParam" q))
              ∷ ("auth_str", text (get "auth" q))
              ∷ ("tls", object (get_tls (or_tls (get "security" q)) q))
              ∷ (positive_field "down_mbps" "downmbps" q
                  ++ (positive_field "up_mbps" "upmbps" q
                      ++ (positive_field "recv_window_conn" "recv_window_conn" q
                          ++ positive_field "recv_window" "recv_window" q))),
        numbered i u.fragment,
      )

  -- The optional fields of hy2
  unfoldable pub hy2_options : Assoc String → Assoc Value
  hy2_options q =
      let ports = replace_char 45 ":" (get "mport" q) in
      positive_field "down_mbps" "downmbps" q
      ++ (positive_field "up_mbps" "upmbps" q
          ++ (field_if (str_eq (get "obfs" q) "salamander") "obfs" (
                object
                  (("type", text "salamander") ∷ ("password", text (get "obfs-password" q)) ∷ []))
              ++ (field_if (is_set ports) "server_ports" (list_of ports)
                  ++ field_if (is_yes (get "fastopen" q)) "fastopen" (flag true))))

  -- hy2
  unfoldable pub hy2 : Url → ℕ → Parsed
  hy2 u i =
      let q = query_of u in
      ok (
        head_fields "hysteria2" 443 i u
            ++ ("password", text (username_of u.user))
              ∷ ("tls", object (get_tls (or_tls (get "security" q)) q))
              ∷ hy2_options q,
        numbered i u.fragment,
      )

  -- anytls
  unfoldable pub anytls : Url → ℕ → Parsed
  anytls u i =
      let q = query_of u in
      ok (
        head_fields "anytls" 443 i u
            ++ ("password", text (username_of u.user))
              ∷ ("tls", object (get_tls (or_tls (get "security" q)) q))
              ∷ [],
        numbered i u.fragment,
      )

  -- tuic
  unfoldable pub tuic : Url → ℕ → Parsed
  tuic u i =
      let q = query_of u in
      ok (
        head_fields "tuic" 443 i u
            ++ ("uuid", text (username_of u.user))
              ∷ ("password", text (or_zero "" (password_of u.user)))
              ∷ ("congestion_control", text (get "congestion_control" q))
              ∷ ("udp_relay_mode", text (get "udp_relay_mode" q))
              ∷ ("tls", object (get_tls (or_tls (get "security" q)) q))
              ∷ [],
        numbered i u.fragment,
      )
