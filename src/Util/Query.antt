-- ===== src/Util/Query.antt =====
-- url.ParseQuery and Get of url.Values, with what util/linkToJson.go makes of a query: transport and TLS.
pub mod Written
pub mod Params
pub mod Tls
pub mod Carried
pub mod Apart
pub mod Transport
use hy_panel.Base.{
  ℕ, String, Bool, true, false, not, ◌&&◌, ◌||◌, Option, none, some, List, [], ◌∷◌, ◌++◌, ◌<>◌, map,
  str_eq, if◌then◌else◌,
}
use hy_panel.Base.Assoc.{Assoc, lookup}
use hy_panel.Base.Strings.{split, cut, contains, lowers_to}
use hy_panel.Base.Value.{Value, flag, text, object, array, or_zero}
use hy_panel.Util.{GoLib}

-- The key and the value of a piece of a query, before they are unescaped.
unfoldable pub key_value : String → String × String
unfolding cut
key_value s = elim (cut 61 s) [ none ↦ (s, "") | some parts ↦ parts ]

module _ (lib : GoLib) where
  -- One iteration of url.ParseQuery: nothing for a piece that is empty, has a semicolon or is escaped badly
  unfoldable pub parse_piece : String → Assoc String
  unfolding contains key_value
  parse_piece s = if contains s 59 || str_eq s "" then [] else elim (lib.unescape (key_value s).0) [
    | none ↦ []
    | some k ↦ elim (lib.unescape (key_value s).1) [ none ↦ [] | some v ↦ (k, v) ∷ [] ]
  ]

  unfoldable pub parse_pieces : List String → Assoc String
  unfolding parse_piece
  parse_pieces [] = []
  parse_pieces (s ∷ ss) = parse_piece s ++ parse_pieces ss

  -- url.ParseQuery, whose error the code passes over
  unfoldable pub parse_query : String → Assoc String
  unfolding parse_pieces split
  parse_query s = parse_pieces (split s 38)

-- Get of url.Values
unfoldable pub get : String → Assoc String → String
unfolding or_zero
get k q = or_zero "" (lookup k q)

unfoldable pub is_yes : String → Bool
is_yes s = str_eq s "1" || str_eq s "true"

-- A field that is set if a condition holds.
unfoldable pub field_if : Bool → String → Value → Assoc Value
field_if b k v = if b then (k, v) ∷ [] else []

abbrev pub is_set : String → Bool
is_set s = not (str_eq s "")

-- The slice that strings.Split makes of a list with commas
unfoldable pub list_of : String → Value
list_of s = array (map text (split s 44))

abbrev pub fields_of_http : Assoc String → Assoc Value
unfolding field_if get
fields_of_http q =
    ("type", text "http")
    ∷ (field_if (is_set (get "host" q)) "host" (list_of (get "host" q))
        ++ ("path", text (get "path" q)) ∷ [])

-- getTransport
unfoldable pub get_transport : String → Assoc String → Assoc Value
unfolding lowers_to get field_if object array split
get_transport kind q =
    if lowers_to kind "tcp" || lowers_to kind ""
    then (if str_eq (get "headerType" q) "http" then fields_of_http q else [])
    else if lowers_to kind "http" || lowers_to kind "h2"
    then fields_of_http q
    else if lowers_to kind "ws"
    then ("type", text "ws")
      ∷ (("path", text (get "path" q))
          ∷ field_if (is_set (get "host" q)) "headers"
              (object (("Host", text (get "host" q)) ∷ [])))
    else if lowers_to kind "quic"
    then ("type", text "quic") ∷ []
    else if lowers_to kind "grpc"
    then ("type", text "grpc") ∷ ("service_name", text (get "serviceName" q)) ∷ []
    else if lowers_to kind "httpupgrade"
    then ("type", text "httpupgrade")
      ∷ ("path", text (get "path" q))
      ∷ ("host", text (get "host" q))
      ∷ []
    else []

abbrev pub enabled_with : String → String → Value
unfolding object
enabled_with k v = object (("enabled", flag true) ∷ (k, text v) ∷ [])

abbrev pub security_fields : String → Assoc String → Assoc Value
unfolding get object
security_fields security q =
    if str_eq security "tls"
    then ("enabled", flag true) ∷ []
    else if str_eq security "reality"
    then ("enabled", flag true)
      ∷ (
        "reality",
        object (
            ("enabled", flag true)
            ∷ ("public_key", text (get "pbk" q))
            ∷ ("short_id", text (get "sid" q))
            ∷ []),
      )
      ∷ []
    else []

-- getTls
unfoldable pub get_tls : String → Assoc String → Assoc Value
unfolding get is_yes field_if object array split
get_tls security q =
    security_fields security q
    ++ (field_if (is_set (get "sni" q)) "server_name" (text (get "sni" q))
        ++ (field_if (is_set (get "alpn" q)) "alpn" (list_of (get "alpn" q))
            ++ (field_if (is_yes (get "insecure" q) || is_yes (get "allowInsecure" q)) "insecure"
                  (flag true)
                ++ (field_if (is_set (get "fp" q)) "utls" (enabled_with "fingerprint" (get "fp" q))
                    ++ (field_if (is_set (get "ech" q)) "ech" (
                          object (
                            ("enabled", flag true)
                            ∷ ("config", array (text (get "ech" q) ∷ []))
                            ∷ []))
                        ++ field_if (is_yes (get "disable_sni" q)) "disable_sni" (flag true))))))
