-- ===== src/Util.antt =====
-- The package util and the JSON of database/model/inbounds.go: what links are made of.
pub mod Params
pub mod Gen
pub mod Rates
pub mod Vmess
pub mod Generator
pub mod Query
pub mod Parse
pub mod Decode
pub mod OutJson
pub mod Back
use hy_panel.Base.{
  ℕ, String, Bool, true, false, not, Option, none, some, List, [], ◌∷◌, ◌<>◌, str_eq, if◌then◌else◌,
}
use hy_panel.Base.Assoc.{Assoc, lookup, remove, overlay}
use hy_panel.Base.Outcome.{Outcome, ok, err, json_error, ◌>>=◌}
use hy_panel.Base.Strings.{split, cut, contains}
use hy_panel.Base.Value.{
  Value, null, number, text, raw, object, text_at, number_at, as_object, or_zero,
}
use hy_panel.Database.{Inbound}

-- url.Userinfo and url.URL
pub record UserInfo : Type 0 where
  pub username : String
  pub password : Option String

pub record Url : Type 0 where
  pub scheme : String
  pub user : Option UserInfo
  pub host : String
  pub raw_query : String
  pub fragment : String

-- What the code uses of the packages net/url, net, strconv, base64 and json of Go.
pub record GoLib : Type 0 where
  -- url.Parse, and String and Hostname of a URL
  pub parse_url : String → Option Url
  pub show_url : Url → String
  pub hostname : String → String
  -- url.QueryEscape and url.QueryUnescape
  pub escape : String → String
  pub unescape : String → Option String
  -- net.SplitHostPort, with what it returns beside an error, and strconv.Atoi in the same way
  pub split_host_port : String → String × String
  pub atoi : String → ℕ
  -- a whole number as %d and %.0f write it, and another value than a text as %s writes it
  pub show_number : ℕ → String
  pub show_other : Option Value → String
  pub to_base64 : String → String
  pub from_base64 : String → Option String
  -- json.Unmarshal into interface{}, and json.MarshalIndent or json.Marshal
  pub read : String → Option Value
  pub show : Value → String

module _ (lib : GoLib) where
  -- json.Unmarshal into a map: null leaves a nil map.
  unfoldable pub read_map : String → Option (Option (Assoc Value))
  unfolding as_object
  read_map s = elim (lib.read s) [
    | none ↦ none
    | some null ↦ some none
    | some v ↦ elim (as_object v) [ none ↦ none | some m ↦ some (some m) ]
  ]

  -- StrOrBase64Encoded
  unfoldable pub str_or_base64_encoded : String → String
  unfolding or_zero
  str_or_base64_encoded s = or_zero s (lib.from_base64 s)

  -- json.Unmarshal into a map that is only read from: a nil map is an empty one.
  unfoldable pub read_object : String → Option (Assoc Value)
  unfolding read_map or_zero
  read_object s = elim (read_map s) [ none ↦ none | some m ↦ some (or_zero [] m) ]

  -- fmt.Sprintf("%s", m[k])
  unfoldable pub shown : String → Assoc Value → String
  shown k m = elim (text_at k m) [ none ↦ lib.show_other (lookup k m) | some s ↦ s ]

-- The value of a field that may be missing: nil.
unfoldable pub value_at : String → Assoc Value → Value
value_at k m = elim (lookup k m) [ none ↦ null | some v ↦ v ]

abbrev own_fields : Inbound → Assoc Value
own_fields i =
    ("id", number i.id)
    ∷ ("type", text i.type)
    ∷ ("tag", text i.tag)
    ∷ ("tls_id", number i.tls_id)
    ∷ ("addrs", raw i.addrs)
    ∷ ("out_json", raw i.out_json)
    ∷ []

module _ (lib : GoLib) where
  -- MarshalFull
  unfoldable pub marshal_full : Inbound → Outcome (Assoc Value)
  unfolding read_object overlay
  marshal_full i = elim i.options [
    | none ↦ ok (own_fields i)
    | some s ↦ elim (read_object lib s) [
      | none ↦ err json_error
      | some rest ↦ ok (overlay rest (own_fields i))
    ]
  ]

  abbrev short_fields : Inbound → Option String → Assoc Value
  short_fields i tls_server = elim tls_server [
    | none ↦ ("type", text i.type) ∷ ("tag", text i.tag) ∷ []
    | some s ↦ ("type", text i.type) ∷ ("tag", text i.tag) ∷ ("tls", raw s) ∷ []
  ]

  -- MarshalJSON of an inbound, with the server part of its row of `tls`
  unfoldable pub marshal : Inbound → Option String → Outcome String
  unfolding read_object overlay
  marshal i tls_server = elim i.options [
    | none ↦ ok (lib.show (object (short_fields i tls_server)))
    | some s ↦ elim (read_object lib s) [
      | none ↦ err json_error
      | some rest ↦ ok (lib.show (object (overlay rest (short_fields i tls_server))))
    ]
  ]

  -- What UnmarshalJSON of an inbound leaves for Options.
  unfoldable pub rest_of : Assoc Value → Assoc Value
  rest_of m = remove "out_json" (
      remove "addrs" (
        remove "users"
          (remove "tls" (remove "tls_id" (remove "tag" (remove "type" (remove "id" m)))))))

  -- UnmarshalJSON into an inbound without an id
  unfoldable pub unmarshal : String → Outcome Inbound
  unfolding read_object rest_of value_at or_zero
  unmarshal s = elim (read_map lib s) [
    | none ↦ err json_error
    | some read ↦
        let m : Assoc Value = or_zero [] read in
        ok (record {
          id = or_zero 0 (number_at "id" m);
          type = or_zero "" (text_at "type" m);
          tag = or_zero "" (text_at "tag" m);
          tls_id = or_zero 0 (number_at "tls_id" m);
          addrs = lib.show (value_at "addrs" m);
          out_json = lib.show (value_at "out_json" m);
          options = some (
              lib.show
                (elim read [ none ↦ null | some entries_read ↦ object (rest_of entries_read) ]));
        })
  ]
