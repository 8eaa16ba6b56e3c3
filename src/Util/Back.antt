-- ===== src/Util/Back.antt =====
-- A link with a query that addParams writes and GetOutbound reads: util/genLink.go and util/linkToJson.go.
pub mod Vless
pub mod Hysteria2
use hy_panel.Base.{
  ℕ, String, ◌≡◌, refl, ap, ◌∙◌, Bool, true, false, Option, none, some, List, [], ◌∷◌, ◌++◌, ◌<>◌,
  map, if◌then◌else◌, str_eq, All,
}
use hy_panel.Base.Assoc.{Assoc}
use hy_panel.Base.Outcome.{Outcome, ok, ◌>>=◌}
use hy_panel.Base.Strings.{join}
use hy_panel.Base.Value.{Value, text, number, or_zero, must, text_at, number_at}
use hy_panel.Util.{GoLib, Url, UserInfo}
use hy_panel.Util.Params.{LinkParam}
use hy_panel.Util.Gen.{written, add_params, link_to, port_of}
use hy_panel.Util.Query.Written.{pairs, IsReadable, parse_query-written}
use hy_panel.Util.Parse.{head_fields, query_of, numbered, port_or, username_of}

-- The URL of a link, with its user, before addParams and behind it.
abbrev pub bare : String → String → String → Url
bare scheme user host = record {
  scheme = scheme;
  user = some (record { username = user; password = none });
  host = host;
  raw_query = "";
  fragment = "";
}

unfoldable pub with_query : GoLib → List LinkParam → String → Url → Url
unfolding join
with_query lib l remark u = record u {
  raw_query = join (map (written lib) l) "&";
  fragment = remark;
}

pub numbered-with_query :
    (lib : GoLib) (l : List LinkParam) (remark : String) (u : Url)
    → numbered lib 0 (with_query lib l remark u).fragment ≡ remark
unfolding with_query numbered
numbered-with_query lib l remark u = refl

pub username-with_query :
    (lib : GoLib) (l : List LinkParam) (remark : String) (u : Url)
    → username_of (with_query lib l remark u).user ≡ username_of u.user
unfolding with_query
username-with_query lib l remark u = refl

-- What net/url, net and strconv have to do for a link: its beginning is read as the URL `u` and the whole
-- text as that URL with the query, the host is taken apart, the port is read back, and no parameter has a
-- separator in it.
unfoldable pub IsCarried : GoLib → String → Url → String → ℕ → List LinkParam → String → Type 0
IsCarried lib base u server port l remark =
    (lib.parse_url base ≡ some u)
    × (lib.parse_url (lib.show_url (with_query lib l remark u)) ≡ some (with_query lib l remark u))
    × (lib.split_host_port u.host ≡ (server, lib.show_number port))
    × (str_eq (lib.show_number port) "" ≡ false)
    × (lib.atoi (lib.show_number port) ≡ port)
    × All (IsReadable lib) l

module _ (lib : GoLib) (base : String) (u : Url) (server : String) (port : ℕ)
    (l : List LinkParam) where
  pub add_params-IsCarried :
      (remark : String)
      → IsCarried lib base u server port l remark
      → add_params lib base l remark ≡ ok (lib.show_url (with_query lib l remark u))
  unfolding add_params IsCarried with_query
  add_params-IsCarried remark h = rw (add_params, h.0) refl

  pub query_of-IsCarried :
      (remark : String)
      → IsCarried lib base u server port l remark
      → query_of lib (with_query lib l remark u) ≡ pairs l
  unfolding query_of IsCarried with_query
  query_of-IsCarried remark h = parse_query-written lib l h.5

  -- The fields that every outbound of a link begins with
  abbrev pub named : String → String → Assoc Value
  named kind remark =
      ("type", text kind)
      ∷ ("tag", text remark)
      ∷ ("server", text server)
      ∷ ("server_port", number port)
      ∷ []

  pub head_fields-IsCarried :
      (kind : String) (default : ℕ) (remark : String)
      → IsCarried lib base u server port l remark
      → head_fields lib kind default 0 (with_query lib l remark u) ≡ named kind remark
  unfolding head_fields numbered port_or IsCarried with_query
  head_fields-IsCarried kind default remark h = rw (h.2, h.3, h.4) refl

-- The fields of an address
unfoldable pub IsAddr : Assoc Value → String → ℕ → String → Type 0
IsAddr addr server port remark =
    (text_at "server" addr ≡ some server)
    × (number_at "server_port" addr ≡ some port)
    × (text_at "remark" addr ≡ some remark)

abbrev pub host_port : GoLib → String → ℕ → String
host_port lib server port = server <> (":" <> lib.show_number port)

port_of-number :
    (lib : GoLib) (addr : Assoc Value) (port : ℕ)
    → number_at "server_port" addr ≡ some port
    → port_of lib addr ≡ lib.show_number port
unfolding port_of or_zero
port_of-number lib addr port h = rw (port_of, h) refl

pub link_to-IsAddr :
    (lib : GoLib) (base : String) (l : List LinkParam) (addr : Assoc Value) (server : String)
    (port : ℕ) (remark : String)
    → IsAddr addr server port remark
    → link_to lib base l addr ≡ add_params lib (base <> host_port lib server port) l remark
unfolding link_to IsAddr must
link_to-IsAddr lib base l addr server port remark h =
    rw (h.0, h.2, port_of-number lib addr port h.1) refl
