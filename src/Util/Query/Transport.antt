-- ===== src/Util/Query/Transport.antt =====
-- The transport of an inbound, written into the parameters of a link and read back.
use hy_panel.Base.{
  String, ◌≡◌, refl, ap, ◌∙◌, true, false, Option, none, some, List, [], ◌∷◌, ◌++◌, map, str_eq,
  All,
}
use hy_panel.Base.Assoc.{Assoc, lookup, has_string}
use hy_panel.Base.Outcome.{ok}
use hy_panel.Base.Strings.{Lacks, join, split-join}
use hy_panel.Base.Value.{
  Value, text, object, array, texts-map, or_zero, at, as_array-array, as_object, entries,
  of_entries, as_text,
}
use hy_panel.Util.Params.{
  LinkParam, param, param_of, get_transport_params, transport_type, list_param, host_header,
}
use hy_panel.Util.Query.{get, get_transport, field_if, list_of, fields_of_http}
use hy_panel.Util.Query.Written.{pairs}
use hy_panel.Util.Query.Params.{get-pairs, value_of-IsApart, IsApart}

-- The transports of sing-box, with the options that a link knows.
pub data Transport : Type 0 where
  tcp : Transport
  quic : Transport
  http : List String → String → Transport
  ws : String → Option String → Transport
  grpc : String → Transport
  httpupgrade : String → String → Transport

abbrev host_field : List String → Assoc Value
unfolding array
host_field [] = []
host_field (h ∷ hs) = ("host", array (map text (h ∷ hs))) ∷ []

abbrev headers_field : Option String → Assoc Value
unfolding object
headers_field none = []
headers_field (some h) = ("headers", object (("Host", text h) ∷ [])) ∷ []

-- The transport in the JSON of an inbound
unfoldable pub json_of : Transport → Assoc Value
unfolding host_field headers_field
json_of tcp = []
json_of quic = ("type", text "quic") ∷ []
json_of (http hosts path) = ("type", text "http") ∷ (host_field hosts ++ ("path", text path) ∷ [])
json_of (ws path host) = ("type", text "ws") ∷ ("path", text path) ∷ headers_field host
json_of (grpc service) = ("type", text "grpc") ∷ ("service_name", text service) ∷ []
json_of (httpupgrade host path) =
    ("type", text "httpupgrade") ∷ ("path", text path) ∷ ("host", text host) ∷ []

-- A list of hosts survives a list with commas; a host of a websocket is not empty.
unfoldable pub IsPlain : Transport → Type 0
IsPlain (http (h ∷ hs) path) = All (Lacks 44) (h ∷ hs) × (str_eq (join (h ∷ hs) ",") "" ≡ false)
IsPlain (ws path (some h)) = str_eq h "" ≡ false
IsPlain t = Unit

-- What getTransportParams makes of it
unfoldable pub transport_list : Transport → List LinkParam
unfolding join param_of
transport_list tcp = param "type" "tcp" ∷ []
transport_list quic = param "type" "quic" ∷ []
transport_list (http [] path) = param "type" "http" ∷ param "path" path ∷ []
transport_list (http (h ∷ hs) path) =
    param "type" "http" ∷ param "host" (join (h ∷ hs) ",") ∷ param "path" path ∷ []
transport_list (ws path host) = param "type" "ws" ∷ param "path" path ∷ param_of "host" host
transport_list (grpc service) = param "type" "grpc" ∷ param "serviceName" service ∷ []
transport_list (httpupgrade host path) =
    param "type" "httpupgrade" ∷ param "host" host ∷ param "path" path ∷ []

host_header-ws : (path h : String) → host_header (json_of (ws path (some h))) ≡ some h
unfolding host_header json_of headers_field lookup at as_object object entries of_entries as_text
host_header-ws path h = refl

pub get_transport_params-json_of :
    (t : Transport) → get_transport_params (json_of t) ≡ ok (transport_list t)
unfolding get_transport_params json_of host_field headers_field transport_list transport_type at
    or_zero lookup list_param
get_transport_params-json_of tcp = refl
get_transport_params-json_of quic = refl
get_transport_params-json_of (http [] path) = refl
get_transport_params-json_of (http (h ∷ hs) path) =
    rw (as_array-array (map text (h ∷ hs)), texts-map (h ∷ hs)) refl
get_transport_params-json_of (ws path none) = refl
get_transport_params-json_of (ws path (some h)) = rw (host_header-ws path h) refl
get_transport_params-json_of (grpc service) = refl
get_transport_params-json_of (httpupgrade host path) = refl

-- Keys that the parameters for a transport use
abbrev pub transport_keys : List String
transport_keys = "type" ∷ "host" ∷ "path" ∷ "serviceName" ∷ "headerType" ∷ []

module _ (rest : List LinkParam) (apart : IsApart transport_keys rest) where
  get-rest : (k : String) → has_string k transport_keys ≡ true → get k (pairs rest) ≡ ""
  unfolding or_zero
  get-rest k h = get-pairs k rest ∙ ap (or_zero "") (value_of-IsApart k transport_keys rest h apart)

  abbrev told : Transport → List (String × String)
  told t = pairs (transport_list t ++ rest)

  -- The parameters of a transport are read back, before any parameters with other keys.
  pub get_transport-told :
      (t : Transport) → IsPlain t → get_transport (get "type" (told t)) (told t) ≡ json_of t
  unfolding get_transport json_of host_field headers_field transport_list lookup pairs get or_zero
      param_of fields_of_http list_of field_if IsPlain
  get_transport-told tcp h = rw (get-rest "headerType" refl) refl
  get_transport-told quic h = refl
  get_transport-told (http [] path) h = rw (get-rest "host" refl) refl
  get_transport-told (http (h ∷ hs) path) p = rw p.1 (
      ap (λ l. ("type", text "http") ∷ ("host", array (map text l)) ∷ ("path", text path) ∷ [])
        (split-join "," h hs p.0))
  get_transport-told (ws path none) h = rw (get-rest "host" refl) refl
  get_transport-told (ws path (some h)) p = rw p refl
  get_transport-told (grpc service) h = refl
  get_transport-told (httpupgrade host path) h = refl
