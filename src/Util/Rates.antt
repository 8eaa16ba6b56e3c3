-- ===== src/Util/Rates.antt =====
-- util/genLink.go: the links of Hysteria and Hysteria2.
use hy_panel.Base.{ℕ, String, Option, none, some, List, [], ◌∷◌, ◌++◌, ◌<>◌}
use hy_panel.Base.Assoc.{Assoc}
use hy_panel.Base.Outcome.{Outcome, ok, ◌>>=◌}
use hy_panel.Base.Value.{Value, must, or_zero, at, as_raw, text_at, number_at, object_at, array_at}
use hy_panel.Util.{GoLib, read_object}
use hy_panel.Util.Gen.{link_to}
use hy_panel.Util.Params.{
  LinkParam, param_of, list_param, fast_open, tls_params, password_of, obfs_params,
}

-- A loop over the addresses, of which an iteration may return from the function with no links at all.
unfoldable pub each_until :
    (Assoc Value → Outcome (Option String)) → List (Assoc Value) → Outcome (Option (List String))
each_until link [] = ok (some [])
each_until link (addr ∷ addrs) = link addr >>= λ made. elim made [
  | none ↦ ok none
  | some uri ↦
      each_until link addrs >>= λ rest. ok (elim rest [ none ↦ none | some l ↦ some (uri ∷ l) ])
]

module _ (lib : GoLib) where
  unfoldable pub shown_rate : Option ℕ → Option String
  shown_rate none = none
  shown_rate (some n) = some (lib.show_number n)

  -- The rates, from the side of the client
  unfoldable pub rate_params : Assoc Value → List LinkParam
  rate_params inbound =
      param_of "downmbps" (shown_rate (number_at "up_mbps" inbound))
      ++ param_of "upmbps" (shown_rate (number_at "down_mbps" inbound))

  -- The ports of `out_json`, where it can be read; it has to be a json.RawMessage.
  unfoldable pub port_params : Assoc Value → Outcome (Option (List LinkParam))
  port_params inbound = do
    s ← must (at as_raw "out_json" inbound)
    elim (read_object lib s) [
      | none ↦ ok none
      | some out ↦ do l ← list_param "mport" (array_at "server_ports" out); ok (some l)
    ]

  -- The parameters of both Hysteria links, with those of the user and those of the obfuscation.
  unfoldable pub hysteria_params :
      List LinkParam
      → List LinkParam
      → Assoc Value
      → Assoc Value
      → Outcome (Option (List LinkParam))
  hysteria_params auth obfs inbound addr = do
    tls ← tls_params "insecure" (object_at "tls" addr)
    ports ← port_params inbound
    ok (elim ports [
      | none ↦ none
      | some l ↦
          some
            (rate_params inbound ++ (auth ++ (tls ++ (obfs ++ fast_open "fastopen" inbound ∷ l))))
    ])

  -- A link to an address, where its parameters do not end the function.
  abbrev link_with :
      String
      → (Assoc Value → Outcome (Option (List LinkParam)))
      → Assoc Value
      → Outcome (Option String)
  link_with base params addr = params addr >>= λ made. elim made [
    | none ↦ ok none
    | some l ↦ link_to lib base l addr >>= λ uri. ok (some uri)
  ]

  abbrev links_or_none : Option (List String) → List String
  links_or_none = or_zero []

  -- hysteriaLink
  unfoldable pub hysteria_link :
      Assoc Value → Assoc Value → List (Assoc Value) → Outcome (List String)
  hysteria_link user inbound addrs = do
    links ←
        each_until
          (link_with "hysteria://" (
            hysteria_params (param_of "auth" (text_at "auth_str" user))
              (param_of "obfs" (text_at "obfs" inbound)) inbound))
          addrs
    ok (links_or_none links)

  -- hysteria2Link
  unfoldable pub hysteria2_link :
      Assoc Value → Assoc Value → List (Assoc Value) → Outcome (List String)
  hysteria2_link user inbound addrs = do
    links ←
        each_until
          (link_with ("hysteria2://" <> (password_of user <> "@"))
            (hysteria_params [] (obfs_params (object_at "obfs" inbound)) inbound))
          addrs
    ok (links_or_none links)
