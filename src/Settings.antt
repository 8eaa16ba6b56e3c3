-- ===== src/Settings.antt =====
-- service/setting.go: the settings of the panel, rows of a key and a value. Go ranges over a map of
-- settings in the order of the list that stands for it. strconv and the file system are parameters.
pub mod Stored
pub mod Paths
pub mod Uri
use hy_panel.Base.{
  ℕ, suc, String, ◌<>◌, Bool, true, false, not, ◌&&◌, ◌||◌, Option, none, some, List, [], ◌∷◌, ◌++◌,
  map, ◌==◌, str_eq, if◌then◌else◌, keep_if, first_of?, starts_slash, ends_slash,
}
use hy_panel.Base.Assoc.{Assoc, lookup, insert, remove, is_some}
use hy_panel.Base.Outcome.{Outcome, ok, err, no_default, bad_number, no_file, json_error}
use hy_panel.Database.{Setting, Tables}
use hy_panel.Database.Tx.{Tx, pure, fail, lift, ◌>>=◌, ◌>>◌, query, execute}

-- The defaults that are no constants: a random text, and the texts of defaultConfig and of the version.
pub record Constants : Type 0 where
  pub secret : String
  pub config : String
  pub version : String

-- strconv.ParseBool and strconv.Atoi, with their errors, and strconv.Itoa; an int is its bit pattern.
pub record Strconv : Type 0 where
  pub parse_bool : String → Option Bool
  pub atoi : String → Option ℕ
  pub itoa : ℕ → String

-- defaultValueMap
unfoldable pub default_values : Constants → Assoc String
default_values c =
    ("webListen", "")
    ∷ ("webDomain", "")
    ∷ ("webPort", "2095")
    ∷ ("secret", c.secret)
    ∷ ("webCertFile", "")
    ∷ ("webKeyFile", "")
    ∷ ("webPath", "/app/")
    ∷ ("webURI", "")
    ∷ ("sessionMaxAge", "0")
    ∷ ("trafficAge", "30")
    ∷ ("timeLocation", "Asia/Tehran")
    ∷ ("subListen", "")
    ∷ ("subPort", "2096")
    ∷ ("subPath", "/sub/")
    ∷ ("subDomain", "")
    ∷ ("subCertFile", "")
    ∷ ("subKeyFile", "")
    ∷ ("subUpdates", "12")
    ∷ ("subEncode", "true")
    ∷ ("subShowInfo", "false")
    ∷ ("subURI", "")
    ∷ ("subJsonExt", "")
    ∷ ("subClashExt", "")
    ∷ ("hy2LiveUpdate", "true")
    ∷ ("config", c.config)
    ∷ ("version", c.version)
    ∷ []

-- getSetting; `none` is the error of a row that is not there.
unfoldable pub get_setting : String → Tx (Option Setting)
get_setting key = query (λ t. first_of? (λ s. str_eq s.key key) t.settings)

unfoldable pub create_setting : String → String → Tables → Tables
create_setting key value t = record t {
  settings = t.settings ++ record { id = t.next_setting_id; key = key; value = value } ∷ [];
  next_setting_id = suc t.next_setting_id;
}

unfoldable pub update_setting : Setting → Tables → Tables
update_setting s t = record t { settings = map (λ r. if r.id == s.id then s else r) t.settings }

unfoldable pub store_setting : String → String → Option Setting → Tx (Unit {0})
unfolding create_setting update_setting
store_setting key value none = execute (create_setting key value)
store_setting key value (some s) = execute (update_setting (record s { key = key; value = value }))

-- saveSetting and setString
unfoldable pub save_setting : String → String → Tx (Unit {0})
unfolding get_setting store_setting
save_setting key value = get_setting key >>= store_setting key value

unfoldable pub defaulted : Option String → Outcome String
defaulted none = err no_default
defaulted (some v) = ok v

unfoldable pub value_or_default : Constants → String → Option Setting → Outcome String
unfolding defaulted default_values
value_or_default c key none = defaulted (lookup key (default_values c))
value_or_default c key (some s) = ok s.value

unfoldable pub number_or_error : {A : Type 0} → Option A → Outcome A
number_or_error none = err bad_number
number_or_error (some a) = ok a

-- The correction of a path: it starts and ends with a slash.
unfoldable pub correct_path : String → String
correct_path path =
    let rooted = if starts_slash path then path else "/" <> path in
    if ends_slash rooted then rooted else rooted <> "/"

module _ (c : Constants) where
  -- getString
  unfoldable pub get_string : String → Tx String
  unfolding get_setting value_or_default
  get_string key = do row ← get_setting key; lift (value_or_default c key row)

  -- getBool
  unfoldable pub get_bool : Strconv → String → Tx Bool
  unfolding get_string number_or_error
  get_bool conv key = do str ← get_string key; lift (number_or_error (conv.parse_bool str))

  -- getInt
  unfoldable pub get_int : Strconv → String → Tx ℕ
  unfolding get_string number_or_error
  get_int conv key = do str ← get_string key; lift (number_or_error (conv.atoi str))

  -- GetWebPath, GetSubPath
  unfoldable pub get_path : String → Tx String
  unfolding get_string correct_path
  get_path key = do path ← get_string key; pure (correct_path path)

  -- GetHy2LiveUpdate
  unfoldable pub get_hy2_live_update : Strconv → Tx Bool
  unfolding get_bool
  get_hy2_live_update conv = get_bool conv "hy2LiveUpdate"

  -- The loop of GetAllSetting over the defaults.
  unfoldable pub fill_defaults : Assoc String → Assoc String → Tx (Assoc String)
  unfolding save_setting
  fill_defaults [] all = pure all
  fill_defaults ((key, value) ∷ rest) all =
      if is_some (lookup key all)
      then fill_defaults rest all
      else save_setting key value >> fill_defaults rest (insert key value all)

  unfoldable pub collect : List Setting → Assoc String → Assoc String
  collect [] all = all
  collect (s ∷ rest) all = collect rest (insert s.key s.value all)

  -- GetAllSetting
  unfoldable pub get_all_setting : Tx (Assoc String)
  unfolding fill_defaults collect default_values
  get_all_setting = do
    settings ← query (λ t. t.settings)
    all ← fill_defaults (default_values c) (collect settings [])
    pure (remove "version" (remove "config" (remove "secret" all)))

-- setInt
unfoldable pub set_int : Strconv → String → ℕ → Tx (Unit {0})
unfolding save_setting
set_int conv key value = save_setting key (conv.itoa value)

-- SetWebPath, SetSubPath
unfoldable pub set_path : String → String → Tx (Unit {0})
unfolding save_setting correct_path
set_path key path = save_setting key (correct_path path)

unfoldable pub drop_settings : Tables → Tables
drop_settings t = record t { settings = [] }

-- ResetSettings
unfoldable pub reset_settings : Tx (Unit {0})
unfolding drop_settings
reset_settings = execute drop_settings

-- Update of the value of a key, which may have no row.
unfoldable pub update_value : String → String → Tables → Tables
update_value key value t = record t {
  settings = map (λ r. if str_eq r.key key then record r { value = value } else r) t.settings;
}

unfoldable pub drop_stats : Tables → Tables
drop_stats t = record t { stats = [] }

unfoldable pub is_file_key : String → Bool
is_file_key key =
    str_eq key "webCertFile"
    || (str_eq key "webKeyFile" || (str_eq key "subCertFile" || str_eq key "subKeyFile"))

unfoldable pub is_path_key : String → Bool
is_path_key key = str_eq key "webPath" || str_eq key "subPath"

-- What Save makes of a value before it is stored.
unfoldable pub corrected : String → String → String
unfolding is_path_key correct_path
corrected key value = if is_path_key key then correct_path value else value

-- One turn of the loop of Save. `exists` says which paths name a file.
unfoldable pub save_one : (String → Bool) → String → String → Tx (Unit {0})
unfolding is_file_key corrected drop_stats update_value
save_one exists key value =
    if not (str_eq value "") && (is_file_key key && not (exists value))
    then fail no_file
    else if str_eq key "trafficAge" && str_eq (corrected key value) "0"
    then execute drop_stats >> execute (update_value key (corrected key value))
    else execute (update_value key (corrected key value))

unfoldable pub save_all : (String → Bool) → Assoc String → Tx (Unit {0})
unfolding save_one
save_all exists [] = pure tt
save_all exists ((key, value) ∷ rest) = save_one exists key value >> save_all exists rest

-- Save. `read` is json.Unmarshal into a map of texts.
unfoldable pub save_settings :
    (String → Option (Assoc String)) → (String → Bool) → String → Tx (Unit {0})
unfolding save_all
save_settings read exists text = elim (read text) [
  | none ↦ fail json_error
  | some settings ↦ save_all exists settings
]

-- SaveConfig. `indent` is json.MarshalIndent of a raw message, which fails on a text that is no JSON.
unfoldable pub save_config : (String → Option String) → String → Tx (Unit {0})
unfolding update_value
save_config indent config = elim (indent config) [
  | none ↦ fail json_error
  | some text ↦ execute (update_value "config" text)
]

unfoldable pub value_of : String → Assoc String → String
value_of key all = elim (lookup key all) [ none ↦ "" | some v ↦ v ]

unfoldable pub protocol_of : Assoc String → String
unfolding value_of
protocol_of all =
    if not (str_eq (value_of "subKeyFile" all) "") && not (str_eq (value_of "subCertFile" all) "")
    then "https"
    else "http"

unfoldable pub host_of : Assoc String → String → String
unfolding value_of
host_of all host = if str_eq (value_of "subDomain" all) "" then host else value_of "subDomain" all

-- The port is left out where it is the protocol's own.
unfoldable pub shown_port : String → String → String
shown_port protocol port =
    if (str_eq port "80" && str_eq protocol "http")
      || (str_eq port "443" && str_eq protocol "https")
    then ""
    else port

-- The text of GetFinalSubURI, from all settings and the host of the request.
unfoldable pub final_uri : Assoc String → String → String
unfolding value_of protocol_of host_of shown_port
final_uri all host =
    if str_eq (value_of "subURI" all) ""
    then protocol_of all
      <> "://"
      <> host_of all host
      <> shown_port (protocol_of all) (":" <> value_of "subPort" all)
      <> value_of "subPath" all
    else value_of "subURI" all

-- GetFinalSubURI
unfoldable pub get_final_sub_uri : Constants → String → Tx String
unfolding get_all_setting final_uri
get_final_sub_uri c host = do all ← get_all_setting c; pure (final_uri all host)
