-- ===== src/Util/Back/Hysteria2/RoundTrip.antt =====
-- A link for Hysteria2, made by hysteria2Link and read by GetOutbound.
use hy_panel.Base.{ℕ, String, ◌≡◌, refl, ap, ◌∙◌, true, Option, none, some, List, [], ◌∷◌, ◌<>◌}
use hy_panel.Base.Assoc.{Assoc}
use hy_panel.Base.Outcome.{Outcome, ok, ◌>>=◌}
use hy_panel.Base.Value.{
  Value, text, number, object, or_zero, must, at, as_raw, text_at, number_at, object_at, array_at,
}
use hy_panel.Util.{GoLib, Url, UserInfo, read_object}
use hy_panel.Util.Back.{
  IsCarried, add_params-IsCarried, query_of-IsCarried, head_fields-IsCarried, with_query, bare,
  IsAddr, host_port, link_to-IsAddr, numbered-with_query, username-with_query,
}
use hy_panel.Util.Back.Hysteria2.{
  Sent, rates_list, tail_list, hysteria2_list, HasPorts, ports_text, list_param-ports,
  tls-hysteria2_list, security-hysteria2_list,
}
use hy_panel.Util.Back.Hysteria2.Options.{carried_options, ReadsRate, hy2_options-hysteria2_list}
use hy_panel.Util.Decode.{get_outbound, outbound_of_url}
use hy_panel.Util.Gen.{link_to}
use hy_panel.Util.Rates.{hysteria2_link, hysteria_params, rate_params, port_params, each_until}
use hy_panel.Util.Params.{
  LinkParam, param_of, is_on, enabled_map, tls_params, obfs_params, list_param,
}
use hy_panel.Util.Parse.{hy2, or_tls}
use hy_panel.Util.Query.{get}
use hy_panel.Util.Query.Carried.{carried_tls, security_name}
use hy_panel.Util.Query.Tls.{HasAlpn, sent, get_tls_params-ok}
use hy_panel.Util.Query.Written.{pairs}

-- What port_params makes of the map that it has read
abbrev ports_of :
    (Assoc Value → Option (List Value)) → Option (Assoc Value) → Outcome (Option (List LinkParam))
ports_of at_ports none = ok none
ports_of at_ports (some m) = list_param "mport" (at_ports m) >>= λ l. ok (some l)

-- An inbound, with the text and the map of its `out_json`, and an address that have these options
unfoldable pub IsSent : GoLib → Sent → Assoc Value → Assoc Value → String → Assoc Value → Type 0
IsSent lib s inbound addr out_text out =
    (number_at "up_mbps" inbound ≡ s.up)
    × (number_at "down_mbps" inbound ≡ s.down)
    × (object_at "obfs" inbound ≡ s.obfs)
    × (is_on "tcp_fast_open" inbound ≡ s.fast)
    × (at as_raw "out_json" inbound ≡ some out_text)
    × (read_object lib out_text ≡ some out)
    × HasPorts s.ports out
    × (object_at "tls" addr ≡ some s.tls)
    × (enabled_map (object_at "reality" s.tls) ≡ ok s.reality)
    × HasAlpn s.alpn s.tls

module _ (lib : GoLib) (s : Sent) (inbound addr : Assoc Value) (out_text : String)
    (out : Assoc Value) (h : IsSent lib s inbound addr out_text out) where
  tls_params-IsSent :
      tls_params "insecure" (object_at "tls" addr) ≡ ok (sent s.reality s.tls true s.alpn)
  unfolding IsSent tls_params
  tls_params-IsSent = rw h.7 (get_tls_params-ok s.reality s.tls "insecure" s.alpn h.8 h.9)

  port_params-IsSent : port_params lib inbound ≡ ok (some (param_of "mport" (ports_text s.ports)))
  unfolding IsSent port_params must
  port_params-IsSent = rw h.4 (
      ap (ports_of (array_at "server_ports")) h.5
      ∙ ap (λ r. r >>= λ l. ok (some l)) (list_param-ports s.ports out h.6))

  rate_params-IsSent : rate_params lib inbound ≡ rates_list lib s
  unfolding IsSent rate_params rates_list
  rate_params-IsSent = rw (h.0, h.1) refl

  hysteria_params-IsSent :
      hysteria_params lib [] (obfs_params (object_at "obfs" inbound)) inbound addr
      ≡ ok (some (hysteria2_list lib s))
  unfolding IsSent hysteria_params hysteria2_list tail_list
  hysteria_params-IsSent =
      rw (tls_params-IsSent, port_params-IsSent, rate_params-IsSent, h.2, h.3) refl

-- The outbound that the link describes
abbrev pub hysteria2_outbound : Sent → String → String → ℕ → String → Assoc Value
unfolding carried_options object
hysteria2_outbound s password server port remark =
    ("type", text "hysteria2")
    ∷ ("tag", text remark)
    ∷ ("server", text server)
    ∷ ("server_port", number port)
    ∷ ("password", text password)
    ∷ ("tls", object (carried_tls s.reality s.tls s.alpn))
    ∷ carried_options s

or_tls-security :
    (lib : GoLib) (s : Sent)
    → or_tls (get "security" (pairs (hysteria2_list lib s)))
      ≡ get "security" (pairs (hysteria2_list lib s))
unfolding or_tls
or_tls-security lib s = rw (security-hysteria2_list lib s) (named s.reality)
  where
    named : (r : Option (Assoc Value)) → or_tls (security_name r) ≡ security_name r
    named none = refl
    named (some m) = refl

module _ (lib : GoLib) (s : Sent) (user : Assoc Value) (password server : String) (port : ℕ)
    (remark host : String) where
  abbrev base : String
  base = ("hysteria2://" <> (password <> "@")) <> host_port lib server port

  abbrev bare_url : Url
  bare_url = bare "hysteria2" password host

  abbrev url : Url
  url = with_query lib (hysteria2_list lib s) remark bare_url

  abbrev Carried : Type 0
  Carried = IsCarried lib base bare_url server port (hysteria2_list lib s) remark

  made :
      (inbound addr : Assoc Value) (out_text : String) (out : Assoc Value)
      → IsSent lib s inbound addr out_text out
      → text_at "password" user ≡ some password
      → IsAddr addr server port remark
      → Carried
      → hysteria2_link lib user inbound (addr ∷ []) ≡ ok (lib.show_url url ∷ [])
  unfolding hysteria2_link each_until or_zero link_to with_query
  made inbound addr out_text out hs hp ha hc =
      rw
        (
          hysteria_params-IsSent lib s inbound addr out_text out hs,
          hp,
          link_to-IsAddr lib ("hysteria2://" <> (password <> "@")) (hysteria2_list lib s) addr
              server port remark ha,
          add_params-IsCarried lib base bare_url server port (hysteria2_list lib s) remark hc,
        )
        refl

  read_back :
      (out : Assoc Value)
      → HasPorts s.ports out
      → HasAlpn s.alpn s.tls
      → ReadsRate lib s.up
      → ReadsRate lib s.down
      → Carried
      → hy2 lib url 0 ≡ ok (hysteria2_outbound s password server port remark, remark)
  unfolding hy2 hysteria2_outbound hy_panel.Util.Parse.username_of
  read_back out hp ha hu hd hc =
      rw
        (
          query_of-IsCarried lib base bare_url server port (hysteria2_list lib s) remark hc,
          head_fields-IsCarried lib base bare_url server port (hysteria2_list lib s) "hysteria2" 443
              remark hc,
          numbered-with_query lib (hysteria2_list lib s) remark bare_url,
          username-with_query lib (hysteria2_list lib s) remark bare_url,
          or_tls-security lib s,
          tls-hysteria2_list lib s ha,
          hy2_options-hysteria2_list lib s out hu hd hp,
        )
        refl

  -- A Hysteria2 inbound with one address, whose TLS is a map, gives one link, and GetOutbound of
  -- that link is a hysteria2 outbound with the remark as its tag, the server, the port and the
  -- password of the user, the rates of the inbound the other way round, its salamander obfuscation,
  -- its ports and TCP fast open, and of the TLS of the address what a link carries: it is enabled,
  -- whether that of the address is or not, and has its server name, ALPN and fingerprint, and
  -- either its reality, if that is enabled, with the public key and the short id, or, without
  -- reality, its `insecure` and `disable_sni`; all other fields of the TLS are lost. Conditions:
  -- net/url, net and strconv read back what is written for this link, every parameter is escaped so
  -- that it stands a query, and lists have no commas inside of their texts and ports no hyphens.
  pub get_outbound-hysteria2_link :
      (inbound addr : Assoc Value) (out_text : String) (out : Assoc Value)
      → IsSent lib s inbound addr out_text out
      → text_at "password" user ≡ some password
      → IsAddr addr server port remark
      → ReadsRate lib s.up
      → ReadsRate lib s.down
      → Carried
      → (hysteria2_link lib user inbound (addr ∷ []) ≡ ok (lib.show_url url ∷ []))
        × (get_outbound lib (lib.show_url url) 0
            ≡ ok (hysteria2_outbound s password server port remark, remark))
  unfolding IsSent outbound_of_url IsCarried get_outbound hysteria2_outbound with_query hy2
  get_outbound-hysteria2_link inbound addr out_text out hs hp ha hu hd hc = (
    made inbound addr out_text out hs hp ha hc,
    rw (get_outbound, hc.1) (read_back out hs.6 hs.9 hu hd hc),
  )
