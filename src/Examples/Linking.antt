-- ===== src/Examples/Linking.antt =====
-- Links that are made and read back.
use hy_panel.Base.{
  ℕ, String, ◌≡◌, refl, Bool, true, false, Option, none, some, List, [], ◌∷◌, ◌<>◌, str_eq, ◌==◌,
  if◌then◌else◌, map, All,
}
use hy_panel.Base.Assoc.{Assoc, lookup}
use hy_panel.Base.Outcome.{ok}
use hy_panel.Base.Strings.{join, contains}
use hy_panel.Base.Value.{
  Value, flag, number, text, raw, fields, object, array, at, as_object, as_flag, as_number, as_text,
  as_array, as_raw, entries, of_entries, elements, of_elements, or_zero, null,
}
use hy_panel.Util.{GoLib, Url, UserInfo, read_object, read_map}
use hy_panel.Util.Back.{IsCarried, with_query, IsAddr, bare}
use hy_panel.Util.Back.Vless.{HasTls, vless_list, vless_outbound, get_outbound-vless_link}
use hy_panel.Util.Back.Hysteria2.{Sent, hysteria2_list, rates_list, tail_list, HasPorts, ports_text}
use hy_panel.Util.Back.Hysteria2.Options.{ReadsRate}
use hy_panel.Util.Back.Hysteria2.RoundTrip.{IsSent, hysteria2_outbound, get_outbound-hysteria2_link}
use hy_panel.Util.Rates.{hysteria2_link, shown_rate}
use hy_panel.Util.Params.{obfs_params}
use hy_panel.Util.OutJson.{filled}
use hy_panel.Util.OutJson.Refill.{filled-again}
use hy_panel.Database.{Inbound}
use hy_panel.Util.Decode.{get_outbound}
use hy_panel.Util.Gen.{written, encoded, vless_link}
use hy_panel.Util.Params.{
  param_of, param_if, fingerprint, is_on, security_params, enabled_map, transport_of,
}
use hy_panel.Util.Query.Written.{IsReadable}
use hy_panel.Util.Query.Tls.{HasAlpn, tls_list, alpn_text}
use hy_panel.Util.Query.Transport.{ws, IsPlain, json_of, transport_list}

-- A library that does what is needed for the links below. Numbers are 443 and 100.
abbrev pub lib : Url → String → Url → GoLib
lib begun first whole = record {
  parse_url = λ s. if str_eq s first then some begun else some whole;
  show_url = λ u. u.scheme <> ("?" <> (u.raw_query <> ("#" <> u.fragment)));
  hostname = λ s. s;
  escape = λ s. s;
  unescape = λ s. some s;
  split_host_port = λ s. ("example.org", "443");
  atoi = λ s. if str_eq s "443" then 443 else if str_eq s "100" then 100 else 0;
  show_number = λ n. if n == 443 then "443" else "100";
  show_other = λ v. "";
  to_base64 = λ s. s;
  from_base64 = λ s. some s;
  read = λ s. some (fields (of_entries []));
  show = λ v. "{}";
}

abbrev vless_query : String
vless_query =
    "type=ws&path=/ws&security=reality&pbk=key&sid=01&fp=chrome&sni=example.com&alpn=h2,h3"

abbrev vless_whole : Url
vless_whole = record {
  scheme = "vless";
  user = some (record { username = "id"; password = none });
  host = "example.org:443";
  raw_query = vless_query;
  fragment = "home";
}

abbrev pub vless_lib : GoLib
vless_lib = lib (bare "vless" "id" "example.org:443") "vless://id@example.org:443" vless_whole

abbrev reality : Assoc Value
reality = ("enabled", flag true) ∷ ("public_key", text "key") ∷ ("short_id", text "01") ∷ []

abbrev tls : Assoc Value
tls =
    ("enabled", flag true)
    ∷ ("server_name", text "example.com")
    ∷ ("alpn", array (text "h2" ∷ text "h3" ∷ []))
    ∷ ("reality", object reality)
    ∷ ("utls", object (("fingerprint", text "chrome") ∷ []))
    ∷ []

abbrev vless_inbound : Assoc Value
vless_inbound = ("transport", object (("type", text "ws") ∷ ("path", text "/ws") ∷ [])) ∷ []

abbrev vless_addr : Assoc Value
vless_addr =
    ("server", text "example.org")
    ∷ ("server_port", number 443)
    ∷ ("remark", text "home")
    ∷ ("tls", object tls)
    ∷ []

abbrev vless_user : Assoc Value
vless_user = ("uuid", text "id") ∷ []

vless-IsCarried :
    IsCarried vless_lib "vless://id@example.org:443"
      (bare "vless" "id" "example.org:443")
      "example.org"
      443
      (vless_list (ws "/ws" none) vless_user (some reality) tls ("h2" ∷ "h3" ∷ []))
      "home"
unfolding IsCarried with_query vless_list transport_list written tls_list lookup as_text as_object
    object alpn_text IsReadable contains
vless-IsCarried = (
  refl,
  refl,
  refl,
  refl,
  refl,
  (
    (refl, refl, refl, refl, refl),
    (
      (refl, refl, refl, refl, refl),
      (
        (refl, refl, refl, refl, refl),
        (
          (refl, refl, refl, refl, refl),
          (
            (refl, refl, refl, refl, refl),
            (
              (refl, refl, refl, refl, refl),
              ((refl, refl, refl, refl, refl), ((refl, refl, refl, refl, refl), tt)),
            ),
          ),
        ),
      ),
    ),
  ),
)

get_outbound-vless_link_example :
    (vless_link vless_lib vless_user vless_inbound (vless_addr ∷ [])
      ≡ ok (("vless?" <> (vless_query <> "#home")) ∷ []))
    × (get_outbound vless_lib ("vless?" <> (vless_query <> "#home")) 0
        ≡ ok (
          vless_outbound
              (ws "/ws" none)
              vless_user
              (some reality)
              tls
              ("h2" ∷ "h3" ∷ [])
              "id"
              "example.org"
              443
              "home",
          "home",
        ))
unfolding json_of transport_of lookup as_object IsPlain as_text IsAddr as_number with_query
    vless_list transport_list written tls_list alpn_text HasTls as_flag enabled_map HasAlpn as_array
    contains
get_outbound-vless_link_example =
    get_outbound-vless_link vless_lib (ws "/ws" none) vless_user (some reality) tls
      ("h2" ∷ "h3" ∷ []) "id" "example.org" 443 "home" "example.org:443" vless_inbound vless_addr
      refl tt refl (refl, refl, refl) (refl, refl, refl, (refl, (refl, (refl, tt)), refl))
      vless-IsCarried

abbrev sent : Sent
sent = record {
  up = some 100;
  down = none;
  obfs = some (("type", text "salamander") ∷ ("password", text "pw") ∷ []);
  fast = true;
  reality = none;
  tls = ("enabled", flag true) ∷ ("server_name", text "example.com") ∷ ("insecure", flag true) ∷ [];
  alpn = [];
  ports = "2000:3000" ∷ [];
}

abbrev hysteria2_query : String
hysteria2_query =
    "downmbps=100&security=tls&insecure=1&sni=example.com&obfs=salamander&obfs-password=pw&fastopen=1&mport=2000:3000"

abbrev hysteria2_lib : GoLib
hysteria2_lib =
    record (lib (bare "hysteria2" "secret" "example.org:443") "hysteria2://secret@example.org:443"
      (record {
        scheme = "hysteria2";
        user = some (record { username = "secret"; password = none });
        host = "example.org:443";
        raw_query = hysteria2_query;
        fragment = "home";
      })) {
        read =
            λ s. some (fields (of_entries (("server_ports", array (text "2000:3000" ∷ [])) ∷ [])));
      }

abbrev hysteria2_inbound : Assoc Value
hysteria2_inbound =
    ("up_mbps", number 100)
    ∷ ("obfs", object (("type", text "salamander") ∷ ("password", text "pw") ∷ []))
    ∷ ("tcp_fast_open", flag true)
    ∷ ("out_json", raw "{}")
    ∷ []

abbrev hysteria2_addr : Assoc Value
hysteria2_addr =
    ("server", text "example.org")
    ∷ ("server_port", number 443)
    ∷ ("remark", text "home")
    ∷ (
      "tls",
      object (
          ("enabled", flag true)
          ∷ ("server_name", text "example.com")
          ∷ ("insecure", flag true)
          ∷ []),
    )
    ∷ []

abbrev hysteria2_user : Assoc Value
hysteria2_user = ("password", text "secret") ∷ []

hysteria2-IsCarried :
    IsCarried hysteria2_lib "hysteria2://secret@example.org:443"
      (bare "hysteria2" "secret" "example.org:443")
      "example.org"
      443
      (hysteria2_list hysteria2_lib sent)
      "home"
unfolding IsCarried with_query hysteria2_list rates_list tls_list written lookup as_flag as_text
    alpn_text tail_list IsReadable contains
hysteria2-IsCarried = (
  refl,
  refl,
  refl,
  refl,
  refl,
  (
    (refl, refl, refl, refl, refl),
    (
      (refl, refl, refl, refl, refl),
      (
        (refl, refl, refl, refl, refl),
        (
          (refl, refl, refl, refl, refl),
          (
            (refl, refl, refl, refl, refl),
            (
              (refl, refl, refl, refl, refl),
              ((refl, refl, refl, refl, refl), ((refl, refl, refl, refl, refl), tt)),
            ),
          ),
        ),
      ),
    ),
  ),
)

hysteria2-IsSent :
    IsSent hysteria2_lib sent hysteria2_inbound hysteria2_addr "{}"
      (("server_ports", array (text "2000:3000" ∷ [])) ∷ [])
unfolding IsSent HasPorts lookup as_number as_object as_text as_flag as_raw as_array array object
    entries of_entries elements of_elements is_on or_zero read_object read_map enabled_map HasAlpn
    join contains at
hysteria2-IsSent =
    (refl, refl, refl, refl, refl, refl, (refl, (refl, tt), refl, refl), refl, refl, refl)

get_outbound-hysteria2_link_example :
    (hysteria2_link hysteria2_lib hysteria2_user hysteria2_inbound (hysteria2_addr ∷ [])
      ≡ ok (("hysteria2?" <> (hysteria2_query <> "#home")) ∷ []))
    × (get_outbound hysteria2_lib ("hysteria2?" <> (hysteria2_query <> "#home")) 0
        ≡ ok (hysteria2_outbound sent "secret" "example.org" 443 "home", "home"))
unfolding lookup as_text as_number IsAddr ReadsRate with_query hysteria2_list rates_list tail_list
    tls_list written encoded param_of shown_rate obfs_params ports_text alpn_text security_params
    param_if is_on or_zero as_flag as_object object at join entries of_entries fingerprint
get_outbound-hysteria2_link_example =
    get_outbound-hysteria2_link hysteria2_lib sent hysteria2_user "secret" "example.org" 443 "home"
      "example.org:443" hysteria2_inbound hysteria2_addr "{}"
      (("server_ports", array (text "2000:3000" ∷ [])) ∷ []) hysteria2-IsSent refl
      (refl, refl, refl) refl refl hysteria2-IsCarried

abbrev pub hysteria2_row : Inbound
hysteria2_row = record {
  id = 1;
  type = "hysteria2";
  tag = "hy2";
  tls_id = 0;
  addrs = "[]";
  out_json = "{}";
  options = none;
}

abbrev stale : Assoc Value
stale = ("up_mbps", number 100) ∷ ("tls", null) ∷ []

abbrev refilled : Assoc Value
refilled =
    ("type", text "hysteria2")
    ∷ ("tag", text "hy2")
    ∷ ("server", text "example.org")
    ∷ ("server_port", null)
    ∷ []

filled-again_example :
    (again : Assoc Value) × (filled (λ n. 0) vless_lib hysteria2_row none "example.org" refilled
      ≡ ok again)
    × ((k : String) → lookup k again ≡ lookup k refilled)
unfolding filled hy_panel.Util.OutJson.put_tls hy_panel.Util.marshal_full
    hy_panel.Util.OutJson.out_of_type hy_panel.Util.OutJson.hysteria2_out
    hy_panel.Util.OutJson.copy_field lookup hy_panel.Util.OutJson.rates_out
    hy_panel.Util.OutJson.remove_each hy_panel.Base.Assoc.remove hy_panel.Util.value_at
filled-again_example =
    filled-again (λ n. 0) vless_lib hysteria2_row none "example.org" stale refilled refl
