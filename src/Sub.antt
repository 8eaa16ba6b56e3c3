-- ===== src/Sub.antt =====
-- sub/subService.go and sub/linkService.go: the subscription of a client. Formatting, base64, JSON and
-- the fetching of other subscriptions are parameters.
pub mod Unlimited
use hy_panel.Base.{
  ℕ, ◌+◌, ◌-◌, ◌%◌, String, ◌<>◌, Bool, true, false, ◌&&◌, Option, none, some, List, [], ◌∷◌, ◌++◌,
  str_eq, if◌then◌else◌, first_of?,
}
use hy_panel.Base.Assoc.{Assoc, lookup, insert}
use hy_panel.Base.Int64.{word, add_int64, lt_int64}
use hy_panel.Base.Outcome.{Outcome, ok, err, panicked}
use hy_panel.Database.{Client}
use hy_panel.Database.Results.{found}
use hy_panel.Database.Tx.{Tx, ◌>>=◌, query, lift}
use hy_panel.Base.Value.{Value, text, text_at}

-- Link
pub record Link : Type 0 where
  pub type : String
  pub remark : String
  pub uri : String

pub record Formats : Type 0 where
  -- strings.Split, of the text and the separator
  pub split : String → String → List String
  -- base64.StdEncoding
  pub decode : String → Option String
  pub encode : String → String
  -- json.Unmarshal and json.MarshalIndent of a map, and json.Unmarshal of the links
  pub read : String → Option (Assoc Value)
  pub show : Assoc Value → String
  pub links : String → Option (List Link)
  -- what util.GetExternalLink fetches
  pub fetch : String → String
  -- Sprintf of a number of bytes divided by a unit, and the unit's name
  pub traffic : ℕ → ℕ → String → String
  -- Sprintf of the days that are left, of the difference of two times in seconds
  pub days : ℕ → String

unfoldable pub sub_int64 : ℕ → ℕ → ℕ
sub_int64 a b = (a + (word - b)) % word

unfoldable pub join : String → List String → String
join sep [] = ""
join sep (x ∷ []) = x
join sep (x ∷ y ∷ rest) = x <> (sep <> join sep (y ∷ rest))

-- getClientBySubId
unfoldable pub get_client_by_sub_id : String → Tx Client
get_client_by_sub_id sub_id = do
  row ← query (λ t. first_of? (λ c. c.enable && str_eq c.name sub_id) t.clients)
  lift (found row)

module _ (f : Formats) where
  -- formatTraffic
  unfoldable pub format_traffic : ℕ → String
  format_traffic n =
      if lt_int64 n 1024
      then f.traffic n 1 "B"
      else if lt_int64 n 1048576
      then f.traffic n 1024 "KB"
      else if lt_int64 n 1073741824
      then f.traffic n 1048576 "MB"
      else if lt_int64 n 1099511627776
      then f.traffic n 1073741824 "GB"
      else if lt_int64 n 1125899906842624
      then f.traffic n 1099511627776 "TB"
      else f.traffic n 1125899906842624 "EB"

  -- The texts of getClientInfo: what is left of the volume, and of the time.
  unfoldable pub info_parts : ℕ → Client → List String
  unfolding sub_int64 format_traffic
  info_parts now c =
      let left = sub_int64 c.volume (add_int64 c.up c.down) in
      (if lt_int64 0 left then (format_traffic left <> "📊") ∷ [] else [])
      ++ (if lt_int64 0 c.expiry then f.days (sub_int64 c.expiry now) ∷ [] else [])

  -- getClientInfo
  unfoldable pub get_client_info : ℕ → Client → String
  unfolding info_parts join
  get_client_info now c = elim (info_parts now c) [ [] ↦ " ♾" | p ∷ ps ↦ " " <> join " " (p ∷ ps) ]

  unfoldable pub with_ps : String → Assoc Value → Outcome String
  with_ps info m = elim (text_at "ps" m) [
    | none ↦ err panicked
    | some ps ↦ ok ("vmess://" <> f.encode (f.show (insert "ps" (text (ps <> info)) m)))
  ]

  unfoldable pub vmess_info : String → String → String → Outcome String
  unfolding with_ps
  vmess_info uri content info = elim (f.decode content) [
    | none ↦ ok uri
    | some config ↦ elim (f.read config) [ none ↦ ok uri | some m ↦ with_ps info m ]
  ]

  unfoldable pub info_by_protocol : String → String → List String → Outcome String
  unfolding vmess_info
  info_by_protocol uri info [] = ok uri
  info_by_protocol uri info (p ∷ []) = ok uri
  info_by_protocol uri info (p ∷ content ∷ rest) =
      if str_eq p "vmess" then vmess_info uri content info else ok (uri <> info)

  -- addClientInfo
  unfoldable pub add_client_info : String → String → Outcome String
  unfolding info_by_protocol
  add_client_info uri info =
      if str_eq info "" then ok uri else info_by_protocol uri info (f.split uri "://")

  -- What one link adds to the result.
  unfoldable pub link_uris : String → String → Link → Outcome (List String)
  unfolding add_client_info
  link_uris types info l =
      if str_eq l.type "external"
      then ok (l.uri ∷ [])
      else if str_eq l.type "sub"
      then ok (f.split (f.fetch l.uri) "\n")
      else if str_eq l.type "local" && str_eq types "all"
      then elim (add_client_info l.uri info) [ err e ↦ err e | ok u ↦ ok (u ∷ []) ]
      else ok []

  unfoldable pub each_link : String → String → List Link → Outcome (List String)
  unfolding link_uris
  each_link types info [] = ok []
  each_link types info (l ∷ ls) =
      let rest = each_link types info ls in
      elim (link_uris types info l) [
        | err e ↦ err e
        | ok us ↦ elim rest [ err e ↦ err e | ok vs ↦ ok (us ++ vs) ]
      ]

  -- GetLinks
  unfoldable pub get_links : String → String → String → Outcome (List String)
  unfolding each_link
  get_links links types info = elim (f.links links) [
    | none ↦ ok []
    | some ls ↦ each_link types info ls
  ]

  unfoldable pub encoded : Bool → String → String
  encoded true result = f.encode result
  encoded false result = result

  -- GetSubs without its headers. `show_info` and `encode` are the values of GetSubShowInfo and
  -- GetSubEncode, whose errors are not looked at.
  unfoldable pub get_subs : Bool → Bool → ℕ → String → Tx String
  unfolding get_client_by_sub_id get_client_info get_links join encoded
  get_subs show_info encode now sub_id = do
    client ← get_client_by_sub_id sub_id
    uris ←
        lift (get_links client.links "all" (if show_info then get_client_info now client else ""))
    lift (ok (encoded encode (join "\n" uris)))
