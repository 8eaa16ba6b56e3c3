-- ===== src/Util/Vmess/Decode.antt =====
-- util/linkToJson.go: the outbound that a link for vmess describes.
use hy_panel.Base.{ℕ, String, true, ◌||◌, none, some, [], ◌∷◌, ◌++◌, str_eq, if◌then◌else◌}
use hy_panel.Base.Assoc.{Assoc, lookup, is_some}
use hy_panel.Base.Outcome.{Outcome, ok, err, invalid, json_error, ◌>>=◌}
use hy_panel.Base.Strings.{lowers_to}
use hy_panel.Base.Value.{Value, flag, number, text, object, or_zero, text_at, number_at, at}
use hy_panel.Util.{GoLib, read_object, value_at}
use hy_panel.Util.Query.{is_set, list_of, field_if}
use hy_panel.Util.Parse.{Parsed, numbered}

abbrev pub text_or_empty : String → Assoc Value → String
unfolding at or_zero
text_or_empty k m = or_zero "" (text_at k m)

abbrev pub http_transport : Assoc Value → Assoc Value
unfolding field_if
http_transport m =
    let host = text_or_empty "host" m in
    ("type", text "http")
    ∷ (field_if (is_set host) "host" (list_of host) ++ ("path", text (text_or_empty "path" m)) ∷ [])

-- The transport of vmess; `type` is the name as the link writes it.
unfoldable pub vmess_transport : Assoc Value → Outcome (Assoc Value)
unfolding lowers_to field_if object
vmess_transport m =
    let net = text_or_empty "net" m in
    let host = text_or_empty "host" m in
    let path = text_or_empty "path" m in
    if lowers_to net "tcp" || lowers_to net ""
    then ok (if str_eq (text_or_empty "type" m) "http" then http_transport m else [])
    else if lowers_to net "http" || lowers_to net "h2"
    then ok (http_transport m)
    else if lowers_to net "ws"
    then ok (
        ("type", text net)
        ∷ (("path", text path)
            ∷ (("early_data_header_name", text "Sec-WebSocket-Protocol")
                ∷ field_if (is_set host) "headers" (object (("Host", text host) ∷ [])))))
    else if lowers_to net "quic"
    then ok (("type", text net) ∷ [])
    else if lowers_to net "grpc"
    then ok (("type", text net) ∷ ("service_name", text path) ∷ [])
    else if lowers_to net "httpupgrade"
    then ok (("type", text net) ∷ ("path", text path) ∷ ("host", text host) ∷ [])
    else err invalid

-- The TLS of vmess
unfoldable pub vmess_get_tls : Assoc Value → Assoc Value
unfolding field_if object
vmess_get_tls m =
    let sni = text_or_empty "sni" m in
    let alpn = text_or_empty "alpn" m in
    let fp = text_or_empty "fp" m in
    if str_eq (text_or_empty "tls" m) "tls"
    then ("enabled", flag true)
      ∷ (field_if (is_set sni) "server_name" (text sni)
          ++ (field_if (is_set alpn) "alpn" (list_of alpn)
              ++ (field_if (is_some (lookup "allowInsecure" m)) "insecure" (flag true)
                  ++ field_if (is_set fp) "utls"
                      (object (("enabled", flag true) ∷ ("fingerprint", text fp) ∷ [])))))
    else []

module _ (lib : GoLib) where
  abbrev pub vmess_of : ℕ → Assoc Value → Parsed
  unfolding vmess_transport vmess_get_tls numbered object value_at at or_zero
  vmess_of i m = do
    transport ← vmess_transport m
    ok (
      ("type", text "vmess")
          ∷ ("tag", text (numbered lib i (text_or_empty "ps" m)))
          ∷ ("server", value_at "add" m)
          ∷ ("server_port", value_at "port" m)
          ∷ ("uuid", value_at "id" m)
          ∷ ("security", text "auto")
          ∷ ("alter_id", number (or_zero 0 (number_at "aid" m)))
          ∷ ("tls", object (vmess_get_tls m))
          ∷ ("transport", object transport)
          ∷ [],
      numbered lib i (text_or_empty "ps" m),
    )

  -- vmess
  unfoldable pub vmess : String → ℕ → Parsed
  unfolding read_object
  vmess data_text i = elim (lib.from_base64 data_text) [
    | none ↦ err invalid
    | some decoded ↦ elim (read_object lib decoded) [
      | none ↦ err json_error
      | some m ↦ vmess_of i m
    ]
  ]
