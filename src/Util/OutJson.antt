-- ===== src/Util/OutJson.antt =====
-- util/outJson.go: FillOutJson, which keeps the outbound that clients are given for an inbound. Where the
-- code returns before the end, `out_json` stays as it is.
pub mod Writes
pub mod Kinds
pub mod Refill
use hy_panel.Base.{
  ℕ, zero, suc, String, Bool, true, false, ◌||◌, Option, none, some, List, [], ◌∷◌, ◌++◌, ◌<>◌,
  str_eq, if◌then◌else◌, ltb, ◌==◌,
}
use hy_panel.Base.Assoc.{Assoc, lookup, insert, remove}
use hy_panel.Base.Outcome.{Outcome, ok, err, panicked, json_error, ◌>>=◌}
use hy_panel.Base.Value.{
  Value, null, flag, number, text, object, must, or_zero, at, as_object, text_at, flag_at,
  number_at, object_at,
}
use hy_panel.Database.{Inbound, TlsRow}
use hy_panel.Util.{GoLib, read_object, read_map, marshal_full, value_at}
use hy_panel.Util.Params.{enabled_map}
use hy_panel.Util.Generator.{pick_short_id, put_into}

-- A field of one map that goes into another one, if it is there.
unfoldable pub copy_field : String → Assoc Value → String → Assoc Value → Assoc Value
copy_field k source k' target = elim (lookup k source) [
  | none ↦ target
  | some v ↦ insert k' v target
]

-- The same for a map that may be nil.
unfoldable pub copy_into :
    String → Assoc Value → Option (Assoc Value) → Outcome (Option (Assoc Value))
unfolding put_into
copy_into k source target = elim (lookup k source) [
  | none ↦ ok target
  | some v ↦ put_into k v target
]

abbrev copies : List String → Assoc Value → Option (Assoc Value) → Outcome (Option (Assoc Value))
unfolding copy_into
copies [] source target = ok target
copies (k ∷ ks) source target = copy_into k source target >>= copies ks source

unfoldable pub remove_each : List String → Assoc Value → Assoc Value
remove_each [] m = m
remove_each (k ∷ ks) m = remove_each ks (remove k m)

module _ (random_int : ℕ → ℕ) where
  -- addTls for an enabled reality
  unfoldable pub add_reality :
      Option (Assoc Value) → Option (Assoc Value) → Outcome (Option (Assoc Value))
  unfolding must at pick_short_id put_into or_zero
  add_reality none config = ok config
  add_reality (some reality) config = do
    own ← must (object_at "reality" (or_zero [] config))
    chosen ← pick_short_id random_int reality (insert "enabled" (flag true) own)
    put_into "reality" (object chosen) config

  -- addTls for an enabled ech
  unfoldable pub add_ech :
      Option (Assoc Value) → Option (Assoc Value) → Outcome (Option (Assoc Value))
  unfolding must at put_into or_zero value_at
  add_ech none config = ok config
  add_ech (some ech) config = do
    own ← must (object_at "ech" (or_zero [] config))
    put_into "ech"
        (object (
          insert "dynamic_record_sizing_disabled" (value_at "dynamic_record_sizing_disabled" ech) (
            insert "pq_signature_schemes_enabled" (value_at "pq_signature_schemes_enabled" ech)
              (insert "enabled" (flag true) own))))
        config

  -- addTls, of the server's and the client's part of a row
  unfoldable pub tls_config : Assoc Value → Option (Assoc Value) → Outcome (Option (Assoc Value))
  unfolding at enabled_map copies add_reality add_ech
  tls_config server config = do
    copied ←
        copies
          ("enabled" ∷ "server_name" ∷ "alpn" ∷ "min_version" ∷ "max_version" ∷ "certificate"
            ∷ "cipher_suites" ∷ [])
          server config
    reality ← enabled_map (object_at "reality" server)
    real ← add_reality reality copied
    ech ← enabled_map (object_at "ech" server)
    add_ech ech real

  -- addTls, which changes nothing where a part of the row cannot be read
  unfoldable pub add_tls : GoLib → TlsRow → Assoc Value → Outcome (Assoc Value)
  unfolding read_object read_map tls_config or_zero
  add_tls lib row out = elim (read_object lib row.server) [
    | none ↦ ok out
    | some server ↦ elim (read_map lib row.client) [
      | none ↦ ok out
      | some config ↦ tls_config server config >>= λ made.
          ok (insert "tls" (elim made [ none ↦ null | some m ↦ object m ]) out)
    ]
  ]

-- naiveOut
unfoldable pub naive_out : Assoc Value → Assoc Value → Assoc Value
naive_out inbound out = elim (text_at "quic_congestion_control" inbound) [
  | none ↦ out
  | some control ↦
      insert "quic_congestion_control"
        (text (
          if str_eq control "bbr_standard"
          then "bbr"
          else if str_eq control "bbr2_variant"
          then "bbr2"
          else control))
        (insert "quic" (flag true) out)
]

-- shadowsocksOut
unfoldable pub shadowsocks_out : Assoc Value → Assoc Value → Assoc Value
shadowsocks_out inbound out = elim (text_at "method" inbound) [
  | none ↦ out
  | some method ↦ insert "method" (text method) out
]

-- shadowTlsOut
unfoldable pub shadow_tls_out : Assoc Value → Assoc Value → Assoc Value
shadow_tls_out inbound out =
    insert "tls" (object (("enabled", flag true) ∷ []))
      (if or_zero 0 (number_at "version" inbound) == 3 then insert "version" (number 3) out else [])

-- The rates of an inbound are those of its clients the other way round.
unfoldable pub rates_out : Assoc Value → Assoc Value → Assoc Value
rates_out inbound out =
    copy_field "up_mbps" inbound "down_mbps" (copy_field "down_mbps" inbound "up_mbps" out)

-- hysteriaOut
unfoldable pub hysteria_out : Assoc Value → Assoc Value → Assoc Value
hysteria_out inbound out = copy_field "disable_mtu_discovery" inbound "disable_mtu_discovery" (
    copy_field "recv_window_conn" inbound "recv_window_conn" (
      copy_field "obfs" inbound "obfs" (
        rates_out inbound (
          remove_each
            ("down_mbps" ∷ "up_mbps" ∷ "obfs" ∷ "recv_window_conn" ∷ "disable_mtu_discovery" ∷ [])
            out))))

-- hysteria2Out
unfoldable pub hysteria2_out : Assoc Value → Assoc Value → Assoc Value
hysteria2_out inbound out =
    copy_field "obfs" inbound "obfs"
      (rates_out inbound (remove_each ("down_mbps" ∷ "up_mbps" ∷ "obfs" ∷ []) out))

unfoldable pub put_if_any : String → Option Bool → Assoc Value → Assoc Value
put_if_any k none m = m
put_if_any k (some b) m = insert k (flag b) m

-- tuicOut
unfoldable pub tuic_out : Assoc Value → Assoc Value → Assoc Value
tuic_out inbound out = copy_field "heartbeat" inbound "heartbeat" (
    put_if_any "zero_rtt_handshake" (flag_at "zero_rtt_handshake" inbound) (
      insert "congestion_control" (text (or_zero "cubic" (text_at "congestion_control" inbound)))
        (remove_each ("zero_rtt_handshake" ∷ "heartbeat" ∷ []) out)))

-- vlessOut and trojanOut, which are the same
unfoldable pub transport_out : Assoc Value → Assoc Value → Assoc Value
transport_out inbound out = copy_field "transport" inbound "transport" (remove "transport" out)

-- vmessOut
unfoldable pub vmess_out : Assoc Value → Assoc Value → Assoc Value
vmess_out inbound out = transport_out inbound (insert "alter_id" (number 0) out)

-- The second switch of FillOutJson on the type
unfoldable pub out_of_type : String → Assoc Value → Assoc Value → Assoc Value
out_of_type kind inbound out =
    if str_eq kind "http" || (str_eq kind "socks" || (str_eq kind "mixed" || str_eq kind "anytls"))
    then out
    else if str_eq kind "naive"
    then naive_out inbound out
    else if str_eq kind "shadowsocks"
    then shadowsocks_out inbound out
    else if str_eq kind "shadowtls"
    then shadow_tls_out inbound out
    else if str_eq kind "hysteria"
    then hysteria_out inbound out
    else if str_eq kind "hysteria2"
    then hysteria2_out inbound out
    else if str_eq kind "tuic"
    then tuic_out inbound out
    else if str_eq kind "vless" || str_eq kind "trojan"
    then transport_out inbound out
    else if str_eq kind "vmess"
    then vmess_out inbound out
    else []

-- The types for which FillOutJson does nothing
unfoldable pub is_local_type : String → Bool
is_local_type kind =
    str_eq kind "direct" || (str_eq kind "tun" || (str_eq kind "redirect" || str_eq kind "tproxy"))

module _ (random_int : ℕ → ℕ) (lib : GoLib) where
  -- The TLS of FillOutJson
  unfoldable pub put_tls : Inbound → Option TlsRow → Assoc Value → Outcome (Assoc Value)
  put_tls i row out =
      if ltb 0 i.tls_id
      then (must row >>= λ r. add_tls random_int lib r out)
      else ok (remove "tls" out)

  -- What FillOutJson makes of the map in `out_json`
  unfoldable pub filled : Inbound → Option TlsRow → String → Assoc Value → Outcome (Assoc Value)
  filled i row hostname out = do
    with_tls ← put_tls i row out
    inbound ← marshal_full lib i
    ok (
        out_of_type i.type inbound (
          insert "server_port" (value_at "listen_port" inbound) (
            insert "server" (text hostname)
              (insert "tag" (text i.tag) (insert "type" (text i.type) with_tls)))))

  -- FillOutJson: the inbound with its new `out_json`
  unfoldable pub fill_out_json : Inbound → Option TlsRow → String → Outcome Inbound
  fill_out_json i row hostname =
      if is_local_type i.type then ok i else elim (read_object lib i.out_json) [
        | none ↦ err json_error
        | some out ↦ do
          made ← filled i row hostname out
          ok (record i { out_json = lib.show (object made) })
      ]
