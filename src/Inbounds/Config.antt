-- ===== src/Inbounds/Config.antt =====
-- service/inbounds.go: the users in the config of an inbound, which is handed to sing-box.
use hy_panel.Base.{
  ℕ, zero, suc, String, Bool, true, false, ◌&&◌, ◌||◌, Option, none, some, List, [], ◌∷◌, map,
  str_eq, starts_with, if◌then◌else◌, keep_if, has, ltb,
}
use hy_panel.Base.Assoc.{Assoc, has_string}
use hy_panel.Base.Outcome.{ok, err, database_error}
use hy_panel.Base.Strings.{cons_char}
use hy_panel.Base.Value.{Value, null, raw, array, object, or_zero, text_at, number_at, object_at}
use hy_panel.Database.{Client, Inbound, TlsRow}
use hy_panel.Database.Json.{Json}
use hy_panel.Database.Tx.{Tx, pure, fail, lift, ◌>>=◌, query}
use hy_panel.Database.Results.{decoded}
use hy_panel.Util.{GoLib, read_map, value_at, marshal}
use hy_panel.Util.Generator.{put_into}

-- What the queries use of SQLite and of gorm: json_extract of a member of a config, the reading of a column
-- of such values into texts, and the ids of a list that is written into a condition.
pub record InboundLib : Type 0 where
  pub go : GoLib
  pub json : Json
  pub extract : String → String → Option String
  pub scan_texts : List (Option String) → Option (List String)
  pub ids_in : String → Option (List ℕ)

-- hasUser
unfoldable pub has_user : String → Bool
has_user kind = has_string kind (
    "mixed" ∷ "socks" ∷ "http" ∷ "shadowsocks" ∷ "vmess" ∷ "trojan" ∷ "naive" ∷ "hysteria"
    ∷ "shadowtls" ∷ "tuic" ∷ "hysteria2" ∷ "vless" ∷ "anytls" ∷ [])

-- strings.ReplaceAll(user, "xtls-rprx-vision", ""), with the number of characters still to leave out
unfoldable pub without_vision : ℕ → String → String
without_vision n String.[] = ""
without_vision zero (String.◌∷◌ c s) =
    let skipped = without_vision 15 s in
    let kept = without_vision 0 s in
    if starts_with (cons_char c s) "xtls-rprx-vision" then skipped else cons_char c kept
without_vision (suc n) (String.◌∷◌ c s) = without_vision n s

-- The member of a client's config that has its user for an inbound
unfoldable pub config_member : String → Assoc Value → String
config_member kind inbound =
    if str_eq kind "shadowsocks"
      && str_eq (or_zero "" (text_at "method" inbound)) "2022-blake3-aes-128-gcm"
    then "shadowsocks16"
    else kind

-- Whether vless has to do without its flow
unfoldable pub strips_vision : String → Assoc Value → Bool
strips_vision kind inbound =
    str_eq kind "vless"
    && (elim (or_zero [] (object_at "transport" inbound)) [ [] ↦ false | field ∷ rest ↦ true ]
        || elim (value_at "tls" inbound) [ null ↦ true | _ ↦ false ])

-- A slice of json.RawMessage; without users it stays nil.
unfoldable pub users_value : List String → Value
users_value [] = null
users_value (u ∷ us) = array (map raw (u ∷ us))

module _ (lib : InboundLib) where
  -- The query of fetchUsers: a condition on clients, or none where SQLite cannot read it
  unfoldable pub select_users : String → Option (Client → Bool) → Tx (List String)
  select_users member none = query (λ t. t.clients) >>= λ cs. fail database_error
  select_users member (some condition) = do
    column ← query (λ t.
        map (λ c. lib.extract c.config member) (keep_if (λ c. c.enable && condition c) t.clients))
    lift (elim (lib.scan_texts column) [ none ↦ err database_error | some users ↦ ok users ])

  -- fetchUsers
  unfoldable pub fetch_users : String → Option (Client → Bool) → Assoc Value → Tx Value
  fetch_users kind condition inbound =
      if str_eq kind "shadowtls" && ltb (or_zero 0 (number_at "version" inbound)) 3
      then pure null
      else (do
        users ← select_users (config_member kind inbound) condition
        pure (
            users_value
              (if strips_vision kind inbound then map (without_vision 0) users else users)))

  unfoldable pub with_users : String → Option (Client → Bool) → String → Tx String
  with_users kind condition config = do
    inbound ← lift (decoded (read_map lib.go config))
    users ← fetch_users kind condition (or_zero [] inbound)
    made ← lift (put_into "users" users inbound)
    pure (lib.go.show (object (or_zero [] made)))

  -- addUsers
  unfoldable pub add_users : ℕ → String → String → Tx String
  add_users id kind config =
      if has_user kind
      then with_users kind (some (λ c. has id (lib.json.json_each c.inbounds))) config
      else pure config

  -- initUsers
  unfoldable pub init_users : String → String → String → Tx String
  init_users client_ids kind config =
      if has_user kind
      then with_users kind
          (elim (lib.ids_in client_ids) [ none ↦ none | some ids ↦ some (λ c. has c.id ids) ])
          config
      else pure config

  -- The config of an inbound with its users, as GetAllConfig and RestartInbounds make it
  unfoldable pub config_of : Inbound → Option TlsRow → Tx String
  config_of i row = do
    config ← lift (marshal lib.go i (elim row [ none ↦ none | some r ↦ some r.server ]))
    add_users i.id i.type config
