-- ===== src/Util/Back/Vless.antt =====
-- A link for vless, made by vlessLink and read by GetOutbound.
use hy_panel.Base.{
  ℕ, String, ◌≡◌, refl, ap, ◌∙◌, Bool, true, false, Option, none, some, List, [], ◌∷◌, ◌++◌, ◌<>◌,
  map, if◌then◌else◌, str_eq, All,
}
use hy_panel.Base.Assoc.{Assoc}
use hy_panel.Base.Outcome.{Outcome, ok}
use hy_panel.Base.Value.{Value, text, number, object, or_zero, must, text_at, flag_at, object_at}
use hy_panel.Util.{GoLib, Url}
use hy_panel.Util.Back.{
  IsCarried, add_params-IsCarried, query_of-IsCarried, head_fields-IsCarried, with_query, bare,
  IsAddr, numbered-with_query, username-with_query, host_port, link_to-IsAddr,
}
use hy_panel.Util.Decode.{get_outbound, outbound_of_url}
use hy_panel.Util.Gen.{each, vless_link}
use hy_panel.Util.Params.{
  LinkParam, param_of, enabled_map, enabled_tls_params, transport_of, is_tcp, vless_tls,
}
use hy_panel.Util.Parse.{vless, username_of}
use hy_panel.Util.Query.{get, get_tls, get_transport}
use hy_panel.Util.Query.Apart.{IsApart-append, IsApart-param_of, sent-IsApart}
use hy_panel.Util.Query.Carried.{tls_keys, carried_tls, get_tls-amid}
use hy_panel.Util.Query.Params.{
  value_of, get-pairs, value_of-append, value_of-param_of, value_of-IsApart, IsApart,
}
use hy_panel.Util.Query.Tls.{HasAlpn, sent, get_tls_params-ok}
use hy_panel.Util.Query.Transport.{
  Transport, tcp, quic, http, ws, grpc, httpupgrade, json_of, transport_list, transport_keys,
  IsPlain, get_transport_params-json_of, get_transport-told,
}
use hy_panel.Util.Query.Written.{pairs}

-- The flow of a user, which is sent over TCP only
abbrev pub flow_of : Transport → Assoc Value → Option String
flow_of tcp user = text_at "flow" user
flow_of t user = none

-- The parameters of the link
unfoldable pub vless_list :
    Transport → Assoc Value → Option (Assoc Value) → Assoc Value → List String → List LinkParam
unfolding param_of
vless_list t user reality tls alpn =
    transport_list t ++ (sent reality tls false alpn ++ param_of "flow" (flow_of t user))

transport_list-tls_keys : (t : Transport) → IsApart tls_keys (transport_list t)
unfolding transport_list
transport_list-tls_keys tcp = (refl, tt)
transport_list-tls_keys quic = (refl, tt)
transport_list-tls_keys (http [] path) = (refl, (refl, tt))
transport_list-tls_keys (http (h ∷ hs) path) = (refl, (refl, (refl, tt)))
transport_list-tls_keys (ws path none) = (refl, (refl, tt))
transport_list-tls_keys (ws path (some h)) = (refl, (refl, (refl, tt)))
transport_list-tls_keys (grpc service) = (refl, (refl, tt))
transport_list-tls_keys (httpupgrade host path) = (refl, (refl, (refl, tt)))

transport_list-flow : (t : Transport) → value_of "flow" (transport_list t) ≡ none
unfolding value_of transport_list
transport_list-flow tcp = refl
transport_list-flow quic = refl
transport_list-flow (http [] path) = refl
transport_list-flow (http (h ∷ hs) path) = refl
transport_list-flow (ws path none) = refl
transport_list-flow (ws path (some h)) = refl
transport_list-flow (grpc service) = refl
transport_list-flow (httpupgrade host path) = refl

vless_tls-flow :
    (t : Transport) (user : Assoc Value) (l : List LinkParam)
    → vless_tls (is_tcp (transport_list t)) user (some l) ≡ l ++ param_of "flow" (flow_of t user)
unfolding vless_tls hy_panel.Base.Assoc.lookup is_tcp transport_list
vless_tls-flow tcp user l = refl
vless_tls-flow quic user l = refl
vless_tls-flow (http [] path) user l = refl
vless_tls-flow (http (h ∷ hs) path) user l = refl
vless_tls-flow (ws path none) user l = refl
vless_tls-flow (ws path (some h)) user l = refl
vless_tls-flow (grpc service) user l = refl
vless_tls-flow (httpupgrade host path) user l = refl

pub each-one :
    (link : Assoc Value → Outcome String) (addr : Assoc Value) (uri : String)
    → link addr ≡ ok uri
    → each link (addr ∷ []) ≡ ok (uri ∷ [])
unfolding each
each-one link addr uri h = rw h refl

-- The TLS of an address, enabled, and what the link says of it
unfoldable pub HasTls : Assoc Value → Assoc Value → Option (Assoc Value) → List String → Type 0
HasTls addr tls reality alpn =
    (object_at "tls" addr ≡ some tls)
    × (flag_at "enabled" tls ≡ some true)
    × (enabled_map (object_at "reality" tls) ≡ ok reality)
    × HasAlpn alpn tls

pub enabled_tls_params-HasTls :
    (addr tls : Assoc Value) (reality : Option (Assoc Value)) (alpn : List String)
    → HasTls addr tls reality alpn
    → enabled_tls_params (object_at "tls" addr) ≡ ok (some (sent reality tls false alpn))
unfolding HasTls enabled_tls_params must
enabled_tls_params-HasTls addr tls reality alpn h =
    rw (h.0, h.1, get_tls_params-ok reality tls "allowInsecure" alpn h.2 h.3) refl

module _ (t : Transport) (user : Assoc Value) (reality : Option (Assoc Value)) (tls : Assoc Value)
    (alpn : List String) where
  flow-vless_list :
      get "flow" (pairs (vless_list t user reality tls alpn)) ≡ or_zero "" (flow_of t user)
  unfolding vless_list
  flow-vless_list =
      get-pairs "flow" (vless_list t user reality tls alpn)
      ∙ ap (or_zero "") (
          rw
            (
              value_of-append "flow" (transport_list t)
                  (sent reality tls false alpn ++ param_of "flow" (flow_of t user)),
              transport_list-flow t,
              value_of-append "flow" (sent reality tls false alpn)
                  (param_of "flow" (flow_of t user)),
              value_of-IsApart "flow" ("flow" ∷ []) (sent reality tls false alpn) refl (
                  sent-IsApart reality tls false alpn ("flow" ∷ [])
                    (refl, refl, refl, refl, refl, refl, refl, refl, refl)),
            )
            (value_of-param_of "flow" "flow" (flow_of t user)))

  tls-vless_list :
      HasAlpn alpn tls
      → get_tls
          (get "security" (pairs (vless_list t user reality tls alpn)))
          (pairs (vless_list t user reality tls alpn))
        ≡ carried_tls reality tls alpn
  unfolding vless_list
  tls-vless_list h =
      get_tls-amid reality tls false alpn (transport_list t) (param_of "flow" (flow_of t user)) h
        (transport_list-tls_keys t) (IsApart-param_of tls_keys "flow" (flow_of t user) refl)

  transport-vless_list :
      IsPlain t
      → get_transport
          (get "type" (pairs (vless_list t user reality tls alpn)))
          (pairs (vless_list t user reality tls alpn))
        ≡ json_of t
  unfolding vless_list
  transport-vless_list h =
      get_transport-told (sent reality tls false alpn ++ param_of "flow" (flow_of t user))
        (IsApart-append transport_keys (sent reality tls false alpn)
          (param_of "flow" (flow_of t user))
          (sent-IsApart reality tls false alpn transport_keys
            (refl, refl, refl, refl, refl, refl, refl, refl, refl))
          (IsApart-param_of transport_keys "flow" (flow_of t user) refl))
        t h

-- The outbound that the link describes
abbrev pub vless_outbound :
    Transport
    → Assoc Value
    → Option (Assoc Value)
    → Assoc Value
    → List String
    → String
    → String
    → ℕ
    → String
    → Assoc Value
vless_outbound t user reality tls alpn uuid server port remark =
    ("type", text "vless")
    ∷ ("tag", text remark)
    ∷ ("server", text server)
    ∷ ("server_port", number port)
    ∷ ("uuid", text uuid)
    ∷ ("flow", text (or_zero "" (flow_of t user)))
    ∷ ("tls", object (carried_tls reality tls alpn))
    ∷ ("transport", object (json_of t))
    ∷ []

module _ (lib : GoLib) (t : Transport) (user : Assoc Value) (reality : Option (Assoc Value))
    (tls : Assoc Value) (alpn : List String) (uuid server : String) (port : ℕ)
    (remark host : String) where
  abbrev base : String
  base = ("vless://" <> (uuid <> "@")) <> host_port lib server port

  abbrev sent_list : List LinkParam
  sent_list = vless_list t user reality tls alpn

  abbrev url : Url
  url = with_query lib (vless_list t user reality tls alpn) remark (bare "vless" uuid host)

  abbrev Carried : Type 0
  Carried =
      IsCarried lib base (bare "vless" uuid host) server port (vless_list t user reality tls alpn)
        remark

  made :
      (inbound addr : Assoc Value)
      → transport_of inbound ≡ json_of t
      → text_at "uuid" user ≡ some uuid
      → IsAddr addr server port remark
      → HasTls addr tls reality alpn
      → Carried
      → vless_link lib user inbound (addr ∷ []) ≡ ok (lib.show_url url ∷ [])
  unfolding vless_link or_zero vless_list
  made inbound addr ht hu ha hs hc =
      rw
        (
          ht,
          get_transport_params-json_of t,
          enabled_tls_params-HasTls addr tls reality alpn hs,
          hu,
          vless_tls-flow t user (sent reality tls false alpn),
          link_to-IsAddr lib ("vless://" <> (uuid <> "@")) sent_list addr server port remark ha,
          add_params-IsCarried lib base (bare "vless" uuid host) server port sent_list remark hc,
        )
        refl

  read_back :
      IsPlain t
      → HasAlpn alpn tls
      → Carried
      → vless lib url 0
        ≡ ok (vless_outbound t user reality tls alpn uuid server port remark, remark)
  unfolding vless username_of
  read_back hp ha hc =
      let u = bare "vless" uuid host in
      rw
        (
          query_of-IsCarried lib base u server port sent_list remark hc,
          head_fields-IsCarried lib base u server port sent_list "vless" _ remark hc,
          numbered-with_query lib sent_list remark u,
          username-with_query lib sent_list remark u,
          flow-vless_list t user reality tls alpn,
          tls-vless_list t user reality tls alpn ha,
          transport-vless_list t user reality tls alpn hp,
        )
        refl

  -- A VLESS inbound with one address, whose TLS is enabled, and whose transport is none, quic, http
  -- with an optional list of hosts and a path, a websocket with a path and at most the header Host,
  -- grpc with a service name, or httpupgrade with a path and a host, gives one link, and
  -- GetOutbound of that link is a vless outbound with the remark as its tag, the server, the port
  -- and the id of the user, the flow if the transport is TCP, the same transport, and of the TLS of
  -- the address what a link carries: it is enabled and has its server name, ALPN and fingerprint,
  -- and either its reality, if that is enabled, with the public key and the short id, or, without
  -- reality, its `insecure` and `disable_sni`; all other fields of the TLS are lost. Conditions:
  -- the transport has exactly the fields named, in the order in which the parser writes them,
  -- net/url, net and strconv read back what is written for this link, every parameter is escaped so
  -- that it stands a query, lists have no commas inside of their texts, and the host of a websocket
  -- is not empty.
  pub get_outbound-vless_link :
      (inbound addr : Assoc Value)
      → transport_of inbound ≡ json_of t
      → IsPlain t
      → text_at "uuid" user ≡ some uuid
      → IsAddr addr server port remark
      → HasTls addr tls reality alpn
      → Carried
      → (vless_link lib user inbound (addr ∷ []) ≡ ok (lib.show_url url ∷ []))
        × (get_outbound lib (lib.show_url url) 0
            ≡ ok (vless_outbound t user reality tls alpn uuid server port remark, remark))
  unfolding HasTls get_outbound outbound_of_url IsCarried with_query vless
  get_outbound-vless_link inbound addr ht hp hu ha hs hc =
      (made inbound addr ht hu ha hs hc, rw (get_outbound, hc.1) (read_back hp hs.3 hc))
