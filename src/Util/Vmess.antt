-- ===== src/Util/Vmess.antt =====
-- util/genLink.go: the links for vmess, which are JSON.
pub mod Decode
use hy_panel.Base.{
  ℕ, suc, String, Bool, true, false, ◌||◌, Option, none, some, List, [], ◌∷◌, ◌++◌, ◌<>◌, str_eq,
  if◌then◌else◌, ltb,
}
use hy_panel.Base.Assoc.{Assoc, lookup, insert, overlay}
use hy_panel.Base.Outcome.{Outcome, ok, err, panicked, ◌>>=◌}
use hy_panel.Base.Value.{
  Value, null, fields, items, entries, elements, number, text, object, must, or_zero, at, as_object,
  text_at, flag_at, number_at, object_at, array_at,
}
use hy_panel.Database.{Inbound, TlsRow}
use hy_panel.Util.{GoLib, read_object, read_map, marshal_full, value_at}
use hy_panel.Util.Params.{LinkParam, get_transport_params, transport_of, enabled_tls_params}
use hy_panel.Util.Gen.{each, port_of}

-- The last parameter with a key, as the loops over parameters leave it; the empty text without one.
unfoldable pub last_param : String → List LinkParam → String → String
last_param k [] found = found
last_param k (p ∷ ps) found = last_param k ps (if str_eq p.key k then p.value else found)

unfoldable pub insert_unless_empty : String → String → Assoc Value → Assoc Value
insert_unless_empty k v m = if str_eq v "" then m else insert k (text v) m

-- The loop of populateVmessTlsParams over the parameters of TLS
unfoldable pub vmess_tls : List LinkParam → Assoc Value → Assoc Value
vmess_tls [] m = m
vmess_tls (p ∷ ps) m = vmess_tls ps (
    if str_eq p.key "allowInsecure"
    then insert "allowInsecure" (number 1) m
    else if str_eq p.key "sni" || (str_eq p.key "fp" || str_eq p.key "alpn")
    then insert p.key (text p.value) m
    else m)

-- populateVmessTlsParams
unfoldable pub populate_vmess_tls_params :
    Assoc Value → Option (Assoc Value) → Outcome (Assoc Value)
unfolding enabled_tls_params vmess_tls
populate_vmess_tls_params m tls = do
  params ← enabled_tls_params tls
  ok (elim params [
    | none ↦ insert "tls" (text "none") m
    | some l ↦ vmess_tls l (insert "tls" (text "tls") m)
  ])

module _ (lib : GoLib) where
  -- What vmessLink writes for every address.
  unfoldable pub vmess_base : Assoc Value → String → Assoc Value
  unfolding at or_zero
  vmess_base user net =
      insert "net" (text (if str_eq net "http" then "tcp" else net))
        (("v", text "2") ∷ ("id", text (or_zero "" (text_at "uuid" user))) ∷ ("aid", number 0) ∷ [])

  -- One iteration of vmessLink, with the map that it marshals
  unfoldable pub vmess_object : Assoc Value → List LinkParam → Assoc Value → Outcome (Assoc Value)
  unfolding at or_zero port_of last_param insert_unless_empty populate_vmess_tls_params vmess_base
  vmess_object user transport addr =
      let net = last_param "type" transport "" in
      populate_vmess_tls_params
        (insert_unless_empty "path" (last_param "path" transport "") (
          insert_unless_empty "host" (last_param "host" transport "") (
            insert_unless_empty "type" (if str_eq net "http" then "http" else "") (
              insert "ps" (text (or_zero "" (text_at "remark" addr))) (
                insert "port" (text (port_of lib addr)) (
                  insert "add" (text (or_zero "" (text_at "server" addr)))
                    (vmess_base user net)))))))
        (object_at "tls" addr)

  -- vmessLink
  unfoldable pub vmess_link : Assoc Value → Assoc Value → List (Assoc Value) → Outcome (List String)
  unfolding vmess_object each get_transport_params transport_of
  vmess_link user inbound addrs = do
    transport ← get_transport_params (transport_of inbound)
    each
        (λ addr. do
          m ← vmess_object user transport addr
          ok ("vmess://" <> lib.to_base64 (lib.show (object m))))
        addrs
