-- ===== src/Util/Params.antt =====
-- util/genLink.go: the parameters of links for the transport and for TLS. A type assertion that does not
-- hold panics.
use hy_panel.Base.{
  String, Bool, false, Option, none, some, List, [], ◌∷◌, ◌++◌, str_eq, if◌then◌else◌,
}
use hy_panel.Base.Assoc.{Assoc}
use hy_panel.Base.Outcome.{Outcome, ok, ◌>>=◌}
use hy_panel.Base.Strings.{join}
use hy_panel.Base.Value.{Value, texts, must, or_zero, at, text_at, flag_at, object_at, array_at}

-- LinkParam
pub record LinkParam : Type 0 where
  pub key : String
  pub value : String

abbrev pub param : String → String → LinkParam
param k v = record { key = k; value = v }

-- One parameter, if there is a value for it.
unfoldable pub param_of : String → Option String → List LinkParam
param_of k none = []
param_of k (some v) = param k v ∷ []

unfoldable pub param_if : Bool → String → String → List LinkParam
param_if b k v = if b then param k v ∷ [] else []

-- Whether a field is true.
unfoldable pub is_on : String → Assoc Value → Bool
unfolding at or_zero
is_on k m = or_zero false (flag_at k m)

-- The parameter that joins the texts of an array.
unfoldable pub list_param : String → Option (List Value) → Outcome (List LinkParam)
unfolding texts join
list_param k none = ok []
list_param k (some vs) = do ss ← texts vs; ok (param k (join ss ",") ∷ [])

-- Whether a map in a field is there and enabled: `ok && m["enabled"].(bool)`.
unfoldable pub enabled_map : Option (Assoc Value) → Outcome (Option (Assoc Value))
unfolding must at
enabled_map none = ok none
enabled_map (some m) = do
  enabled ← must (flag_at "enabled" m)
  ok (if enabled then some m else none)

unfoldable pub security_params : Option (Assoc Value) → Assoc Value → String → List LinkParam
unfolding at param_of param_if is_on
security_params (some reality) tls insecure_key =
    param "security" "reality"
    ∷ (param_of "pbk" (text_at "public_key" reality) ++ param_of "sid" (text_at "short_id" reality))
security_params none tls insecure_key =
    param "security" "tls"
    ∷ (param_if (is_on "insecure" tls) insecure_key "1"
        ++ param_if (is_on "disable_sni" tls) "disable_sni" "1")

unfoldable pub fingerprint : Assoc Value → Option String
unfolding at
fingerprint tls = elim (object_at "utls" tls) [
  | none ↦ none
  | some utls ↦ text_at "fingerprint" utls
]

-- getTlsParams: what it appends
unfoldable pub get_tls_params : Assoc Value → String → Outcome (List LinkParam)
unfolding at enabled_map list_param fingerprint param_of security_params
get_tls_params tls insecure_key = do
  reality ← enabled_map (object_at "reality" tls)
  alpn ← list_param "alpn" (array_at "alpn" tls)
  ok (
      security_params reality tls insecure_key
      ++ (param_of "fp" (fingerprint tls) ++ (param_of "sni" (text_at "server_name" tls) ++ alpn)))

unfoldable pub transport_type : Assoc Value → String
unfolding at or_zero
transport_type transport = or_zero "tcp" (text_at "type" transport)

-- The `Host` header of a websocket
unfoldable pub host_header : Assoc Value → Option String
unfolding at
host_header transport = elim (object_at "headers" transport) [
  | none ↦ none
  | some headers ↦ text_at "Host" headers
]

-- getTransportParams
unfoldable pub get_transport_params : Assoc Value → Outcome (List LinkParam)
unfolding at list_param param_of transport_type host_header
get_transport_params transport =
    let kind = transport_type transport in
    if str_eq kind "http"
    then (do
      host ← list_param "host" (array_at "host" transport)
      ok (param "type" kind ∷ (host ++ param_of "path" (text_at "path" transport))))
    else if str_eq kind "ws"
    then ok (
        param "type" kind
        ∷ (param_of "path" (text_at "path" transport) ++ param_of "host" (host_header transport)))
    else if str_eq kind "grpc"
    then ok (param "type" kind ∷ param_of "serviceName" (text_at "service_name" transport))
    else if str_eq kind "httpupgrade"
    then ok (
        param "type" kind
        ∷ (param_of "host" (text_at "host" transport)
            ++ param_of "path" (text_at "path" transport)))
    else ok (param "type" kind ∷ [])

-- The transport of an inbound: empty if it is none.
unfoldable pub transport_of : Assoc Value → Assoc Value
unfolding at or_zero
transport_of inbound = or_zero [] (object_at "transport" inbound)

-- The parameters of naiveLink for TLS
unfoldable pub naive_tls_params : Option (Assoc Value) → Outcome (List LinkParam)
unfolding at param_of list_param param_if is_on
naive_tls_params none = ok []
naive_tls_params (some tls) = do
  alpn ← list_param "alpn" (array_at "alpn" tls)
  ok (
      param_of "peer" (text_at "server_name" tls)
      ++ (alpn ++ param_if (is_on "insecure" tls) "insecure" "1"))

abbrev pub fast_open : String → Assoc Value → LinkParam
fast_open k inbound = param k (if is_on "tcp_fast_open" inbound then "1" else "0")

-- getTlsParams where an address has a map for TLS
unfoldable pub tls_params : String → Option (Assoc Value) → Outcome (List LinkParam)
unfolding get_tls_params
tls_params insecure_key none = ok []
tls_params insecure_key (some tls) = get_tls_params tls insecure_key

-- The same, where the TLS has to be enabled too.
unfoldable pub enabled_tls_params : Option (Assoc Value) → Outcome (Option (List LinkParam))
unfolding at must get_tls_params
enabled_tls_params none = ok none
enabled_tls_params (some tls) = do
  enabled ← must (flag_at "enabled" tls)
  if enabled then (do l ← get_tls_params tls "allowInsecure"; ok (some l)) else ok none

-- The obfuscation of a Hysteria2 inbound
unfoldable pub obfs_params : Option (Assoc Value) → List LinkParam
unfolding at param_of
obfs_params none = []
obfs_params (some obfs) =
    param_of "obfs" (text_at "type" obfs) ++ param_of "obfs-password" (text_at "password" obfs)

abbrev pub password_of : Assoc Value → String
unfolding at or_zero
password_of user = or_zero "" (text_at "password" user)

-- Whether the parameters of a transport are those of TCP: `len(baseParams) == 1 && ... == "tcp"`.
unfoldable pub is_tcp : List LinkParam → Bool
is_tcp (p ∷ []) = str_eq p.value "tcp"
is_tcp l = false

-- The parameters of vlessLink behind those of the transport
unfoldable pub vless_tls : Bool → Assoc Value → Option (List LinkParam) → List LinkParam
unfolding at param_of
vless_tls tcp user none = []
vless_tls tcp user (some tls) = tls ++ (if tcp then param_of "flow" (text_at "flow" user) else [])
