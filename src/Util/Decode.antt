-- ===== src/Util/Decode.antt =====
-- util/linkToJson.go: shadowsocks and naive, and GetOutbound over all links.
use hy_panel.Base.{
  ℕ, String, true, ◌||◌, Option, none, some, List, [], ◌∷◌, ◌++◌, ◌<>◌, str_eq, if◌then◌else◌,
}
use hy_panel.Base.Assoc.{Assoc}
use hy_panel.Base.Outcome.{Outcome, ok, err, invalid, ◌>>=◌}
use hy_panel.Base.Strings.{split, cut, join}
use hy_panel.Base.Value.{Value, flag, number, text, object, or_zero}
use hy_panel.Util.{GoLib, Url, UserInfo, str_or_base64_encoded}
use hy_panel.Util.Vmess.Decode.{vmess}
use hy_panel.Util.Query.{get, is_yes, is_set, list_of, field_if}
use hy_panel.Util.Parse.{
  Parsed, username_of, password_of, numbered, port_or, query_of, head_fields, vless, trojan, hy,
  hy2, anytls, tuic,
}

module _ (lib : GoLib) where
  -- The method and the password of a shadowsocks link, which base64 may hide
  unfoldable pub ss_user : Option UserInfo → Outcome (String × String)
  unfolding username_of password_of cut str_or_base64_encoded
  ss_user user = elim (password_of user) [
    | some password ↦ ok (username_of user, password)
    | none ↦ elim (cut 58 (str_or_base64_encoded lib (username_of user))) [
      | none ↦ err invalid
      | some parts ↦ ok parts
    ]
  ]

-- The v2ray plugin of a shadowsocks link
unfoldable pub ss_v2ray : Assoc String → Assoc Value
unfolding get join
ss_v2ray q =
    let kind = get "type" q in
    let tls : List String = if str_eq (get "security" q) "tls" then "tls" ∷ [] else [] in
    let mode : List String = if str_eq kind "quic" then "mode=quic" ∷ [] else [] in
    let host : List String = if is_set (get "host" q) then ("host=" <> get "host" q) ∷ [] else [] in
    if is_set kind
    then ("plugin", text "v2ray-plugin")
      ∷ ("plugin_opts", text (join (tls ++ (mode ++ host)) ";"))
      ∷ []
    else []

-- The plugin that a shadowsocks link names
unfoldable pub ss_plugin : Assoc String → Option (String × String)
unfolding get split join
ss_plugin q =
    if is_set (get "plugin" q)
    then elim (split (get "plugin" q) 59) [ [] ↦ none | name ∷ opts ↦ some (name, join opts ";") ]
    else none

-- The fields of a plugin, of which the second kind replaces the first
unfoldable pub ss_plugins : Assoc String → Assoc Value
unfolding ss_v2ray ss_plugin
ss_plugins q = elim (ss_plugin q) [
  | none ↦ ss_v2ray q
  | some (name, opts) ↦ ("plugin", text name) ∷ ("plugin_opts", text opts) ∷ []
]

-- Where a naive link leads: host, port, user and password.
pub record NaiveTarget : Type 0 where
  pub host : String
  pub port : ℕ
  pub username : String
  pub password : String

module _ (lib : GoLib) where
  -- ss
  unfoldable pub ss : Url → ℕ → Parsed
  unfolding head_fields ss_user ss_plugins query_of numbered
  ss u i = do
    (method, password) ← ss_user lib u.user
    ok (
      head_fields lib "shadowsocks" 443 i u
          ++ ("method", text method) ∷ ("password", text password) ∷ ss_plugins (query_of lib u),
      numbered lib i u.fragment,
    )

  abbrev pub target : String → String → String → NaiveTarget
  unfolding port_or
  target host_port name pw =
      let (host, port) = lib.split_host_port host_port in
      record { host = host; port = port_or lib 443 port; username = name; password = pw }

  -- The switch of parseNaiveLink on the scheme
  unfoldable pub naive_target : Url → Outcome NaiveTarget
  unfolding cut str_or_base64_encoded username_of password_of or_zero
  naive_target u =
      if str_eq u.scheme "http2"
      then elim (cut 64 (str_or_base64_encoded lib (lib.hostname u.host))) [
        | none ↦ err invalid
        | some (user_info, host_port) ↦ elim (cut 58 user_info) [
          | none ↦ ok (target host_port user_info "")
          | some (name, pw) ↦ ok (target host_port name pw)
        ]
      ]
      else ok (target u.host (username_of u.user) (or_zero "" (password_of u.user)))

  abbrev pub naive_tag : ℕ → String → String
  naive_tag i s = if str_eq s "" then "naive-" <> lib.show_number i else s

  -- parseNaiveLink, for the schemes that GetOutbound hands to it
  unfoldable pub parse_naive_link : Url → ℕ → Parsed
  unfolding naive_target query_of get is_yes field_if object numbered
  parse_naive_link u i = do
    t ← naive_target u
    let q = query_of lib u
    let tag = naive_tag i (numbered lib i u.fragment)
    ok (
      ("type", text "naive")
          ∷ ("tag", text tag)
          ∷ ("server", text t.host)
          ∷ ("server_port", number t.port)
          ∷ ("username", text t.username)
          ∷ ("password", text t.password)
          ∷ (
            "tls",
            object (
                ("enabled", flag true)
                ∷ (field_if (is_set (get "peer" q)) "server_name" (text (get "peer" q))
                    ++ (field_if (is_yes (get "insecure" q)) "insecure" (flag true)
                        ++ field_if (is_set (get "alpn" q)) "alpn" (list_of (get "alpn" q))))),
          )
          ∷ field_if (str_eq u.scheme "naive+quic") "quic" (flag true),
      tag,
    )

  -- The switch of GetOutbound on the scheme
  unfoldable pub outbound_of_url : Url → ℕ → Parsed
  outbound_of_url u i =
      let scheme = u.scheme in
      if str_eq scheme "vmess"
      then vmess lib u.host i
      else if str_eq scheme "vless"
      then vless lib u i
      else if str_eq scheme "trojan"
      then trojan lib u i
      else if str_eq scheme "hy" || str_eq scheme "hysteria"
      then hy lib u i
      else if str_eq scheme "hy2" || str_eq scheme "hysteria2"
      then hy2 lib u i
      else if str_eq scheme "anytls"
      then anytls lib u i
      else if str_eq scheme "tuic"
      then tuic lib u i
      else if str_eq scheme "ss" || str_eq scheme "shadowsocks"
      then ss u i
      else if str_eq scheme "naive+https" || (str_eq scheme "naive+quic" || str_eq scheme "http2")
      then parse_naive_link u i
      else err invalid

  -- GetOutbound
  unfoldable pub get_outbound : String → ℕ → Parsed
  get_outbound uri i = elim (lib.parse_url uri) [
    | none ↦ err invalid
    | some u ↦ outbound_of_url u i
  ]
