-- ===== src/Util/Back/Hysteria2.antt =====
-- A link for Hysteria2: the parameters that hysteria2Link makes and what the parser reads of TLS.
pub mod Options
pub mod RoundTrip
use hy_panel.Base.{
  ℕ, String, ◌≡◌, refl, ap, ◌∙◌, Bool, true, false, Option, none, some, List, [], ◌∷◌, ◌++◌, ◌<>◌,
  map, if◌then◌else◌, str_eq, All, arith,
}
use hy_panel.Base.Assoc.{Assoc}
use hy_panel.Base.Int64.{lt_int64}
use hy_panel.Base.Outcome.{Outcome, ok, ◌>>=◌}
use hy_panel.Base.Strings.{Lacks, join, split-join, replace_char, replace_char-Lacks}
use hy_panel.Base.Value.{
  Value, flag, text, number, object, array, or_zero, must, at, as_raw, text_at, number_at,
  object_at, array_at, texts-map,
}
use hy_panel.Util.{GoLib, Url, UserInfo, read_object}
use hy_panel.Util.Back.{
  IsCarried, add_params-IsCarried, query_of-IsCarried, head_fields-IsCarried, with_query, bare,
  IsAddr, host_port, link_to-IsAddr, numbered-with_query, username-with_query,
}
use hy_panel.Util.Decode.{get_outbound, outbound_of_url}
use hy_panel.Util.Gen.{link_to, add_params}
use hy_panel.Util.Rates.{
  hysteria2_link, hysteria_params, rate_params, shown_rate, port_params, each_until,
}
use hy_panel.Util.Params.{
  LinkParam, param, param_of, is_on, list_param, enabled_map, tls_params, fast_open, obfs_params,
  password_of,
}
use hy_panel.Util.Parse.{hy2, hy2_options, positive_field, or_tls}
use hy_panel.Util.Query.{get, get_tls, field_if, is_set, is_yes, list_of}
use hy_panel.Util.Query.Apart.{IsApart-append, IsApart-param_of, sent-IsApart}
use hy_panel.Util.Query.Carried.{tls_keys, carried_tls, get_tls-amid, security-amid, security_name}
use hy_panel.Util.Query.Params.{
  value_of, get-pairs, value_of-append, value_of-param_of, value_of-IsApart, IsApart, orelse,
  value_of-nil, value_of-cons,
}
use hy_panel.Util.Query.Tls.{HasAlpn, sent, tls_list, get_tls_params-ok, orelse-none, values}
use hy_panel.Util.Query.Written.{pairs}

-- The ports that `out_json` lists, which survive a list with commas and hyphens.
unfoldable pub HasPorts : List String → Assoc Value → Type 0
HasPorts [] out = array_at "server_ports" out ≡ none
HasPorts (p ∷ ps) out =
    (array_at "server_ports" out ≡ some (map text (p ∷ ps)))
    × All (Lacks 44) (p ∷ ps)
    × Lacks 45 (join (p ∷ ps) ",")
    × (str_eq (join (p ∷ ps) ",") "" ≡ false)

unfoldable pub ports_text : List String → Option String
unfolding join
ports_text [] = none
ports_text (p ∷ ps) = some (join (p ∷ ps) ",")

pub list_param-ports :
    (ports : List String) (out : Assoc Value)
    → HasPorts ports out
    → list_param "mport" (array_at "server_ports" out) ≡ ok (param_of "mport" (ports_text ports))
unfolding HasPorts list_param param_of ports_text
list_param-ports [] out h = rw h refl
list_param-ports (p ∷ ps) out h = rw (h.0, texts-map (p ∷ ps)) refl

-- What the link is made of: the rates, the obfuscation and TCP fast open of the inbound, its TLS and its ports.
pub record Sent : Type 0 where
  pub up : Option ℕ
  pub down : Option ℕ
  pub obfs : Option (Assoc Value)
  pub fast : Bool
  pub reality : Option (Assoc Value)
  pub tls : Assoc Value
  pub alpn : List String
  pub ports : List String

abbrev pub fast_text : Bool → String
fast_text fast = if fast then "1" else "0"

unfoldable pub rates_list : GoLib → Sent → List LinkParam
unfolding param_of shown_rate
rates_list lib s =
    param_of "downmbps" (shown_rate lib s.up) ++ param_of "upmbps" (shown_rate lib s.down)

unfoldable pub tail_list : Sent → List LinkParam
unfolding param_of obfs_params ports_text
tail_list s =
    obfs_params s.obfs
    ++ param "fastopen" (fast_text s.fast) ∷ param_of "mport" (ports_text s.ports)

unfoldable pub hysteria2_list : GoLib → Sent → List LinkParam
hysteria2_list lib s = rates_list lib s ++ (sent s.reality s.tls true s.alpn ++ tail_list s)

obfs_params-IsApart : (o : Option (Assoc Value)) → IsApart tls_keys (obfs_params o)
unfolding obfs_params
obfs_params-IsApart none = tt
obfs_params-IsApart (some m) =
    IsApart-append tls_keys (param_of "obfs" (text_at "type" m)) _
      (IsApart-param_of tls_keys "obfs" (text_at "type" m) refl)
      (IsApart-param_of tls_keys "obfs-password" (text_at "password" m) refl)

rates_list-IsApart : (lib : GoLib) (s : Sent) → IsApart tls_keys (rates_list lib s)
unfolding rates_list
rates_list-IsApart lib s =
    IsApart-append tls_keys (param_of "downmbps" (shown_rate lib s.up)) _
      (IsApart-param_of tls_keys "downmbps" (shown_rate lib s.up) refl)
      (IsApart-param_of tls_keys "upmbps" (shown_rate lib s.down) refl)

tail_list-IsApart : (s : Sent) → IsApart tls_keys (tail_list s)
unfolding tail_list
tail_list-IsApart s =
    IsApart-append tls_keys (obfs_params s.obfs) _ (obfs_params-IsApart s.obfs)
      (refl, IsApart-param_of tls_keys "mport" (ports_text s.ports) refl)

pub tls-hysteria2_list :
    (lib : GoLib) (s : Sent)
    → HasAlpn s.alpn s.tls
    → get_tls (get "security" (pairs (hysteria2_list lib s))) (pairs (hysteria2_list lib s))
      ≡ carried_tls s.reality s.tls s.alpn
unfolding hysteria2_list
tls-hysteria2_list lib s h =
    get_tls-amid s.reality s.tls true s.alpn (rates_list lib s) (tail_list s) h
      (rates_list-IsApart lib s) (tail_list-IsApart s)

pub security-hysteria2_list :
    (lib : GoLib) (s : Sent)
    → get "security" (pairs (hysteria2_list lib s)) ≡ security_name s.reality
unfolding hysteria2_list
security-hysteria2_list lib s =
    security-amid s.reality s.tls true s.alpn (rates_list lib s) (tail_list s)
      (rates_list-IsApart lib s) (tail_list-IsApart s)
