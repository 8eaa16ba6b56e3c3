-- ===== src/Util/Back/Hysteria2/Options.antt =====
-- The options of a link for Hysteria2 besides TLS, read by hy2.
use hy_panel.Base.{
  ℕ, String, ◌≡◌, refl, sym, ap, ◌∙◌, Bool, true, false, Option, none, some, List, [], ◌∷◌, ◌++◌,
  map, if◌then◌else◌, str_eq, arith,
}
use hy_panel.Base.Assoc.{Assoc, has_string}
use hy_panel.Base.Int64.{lt_int64}
use hy_panel.Base.Strings.{join, split-join, replace_char, replace_char-Lacks}
use hy_panel.Base.Value.{Value, flag, text, number, object, array, or_zero, text_at}
use hy_panel.Util.{GoLib}
use hy_panel.Util.Back.Hysteria2.{
  Sent, fast_text, rates_list, tail_list, hysteria2_list, HasPorts, ports_text,
}
use hy_panel.Util.Params.{LinkParam, obfs_params}
use hy_panel.Util.Parse.{hy2_options, positive_field}
use hy_panel.Util.Query.{get, field_if, is_set, is_yes, list_of}
use hy_panel.Util.Query.Apart.{IsForeign, sent-IsApart}
use hy_panel.Util.Query.Params.{
  value_of, get-pairs, value_of-append, value_of-IsApart, orelse, value_of-nil,
}
use hy_panel.Util.Query.Tls.{sent, values}
use hy_panel.Util.Rates.{shown_rate}
use hy_panel.Util.Query.Written.{pairs}

abbrev beside : GoLib → Sent → List LinkParam
beside lib s = rates_list lib s ++ tail_list s

value_of-beside :
    (k : String) (lib : GoLib) (s : Sent)
    → has_string k (k ∷ []) ≡ true
    → IsForeign (k ∷ [])
    → get k (pairs (hysteria2_list lib s)) ≡ or_zero "" (value_of k (beside lib s))
unfolding hysteria2_list
value_of-beside k lib s h f =
    get-pairs k (hysteria2_list lib s)
    ∙ ap (or_zero "") (
        rw
          (
            value_of-append k (rates_list lib s) (sent s.reality s.tls true s.alpn ++ tail_list s),
            value_of-append k (sent s.reality s.tls true s.alpn) (tail_list s),
            value_of-IsApart k (k ∷ []) (sent s.reality s.tls true s.alpn) h
                (sent-IsApart s.reality s.tls true s.alpn (k ∷ []) f),
          )
          (sym (value_of-append k (rates_list lib s) (tail_list s))))

-- The obfuscation of an inbound as a link carries it
abbrev pub obfs_type : Option (Assoc Value) → Option String
obfs_type none = none
obfs_type (some m) = text_at "type" m

abbrev pub obfs_password : Option (Assoc Value) → Option String
obfs_password none = none
obfs_password (some m) = text_at "password" m

value_of-obfs_params :
    (k : String) (o : Option (Assoc Value))
    → value_of k (obfs_params o)
      ≡ orelse
          (if str_eq "obfs" k then obfs_type o else none)
          (if str_eq "obfs-password" k then obfs_password o else none)
unfolding obfs_params
value_of-obfs_params k none = ground (arith, value_of-nil k)
value_of-obfs_params k (some m) = simp values

ruleset link_values = (values, value_of-obfs_params)

module _ (lib : GoLib) (s : Sent) where
  down-beside : value_of "downmbps" (beside lib s) ≡ shown_rate lib s.up
  unfolding rates_list tail_list
  down-beside = simp link_values

  up-beside : value_of "upmbps" (beside lib s) ≡ shown_rate lib s.down
  unfolding rates_list tail_list
  up-beside = simp link_values

  obfs-beside : value_of "obfs" (beside lib s) ≡ obfs_type s.obfs
  unfolding rates_list tail_list
  obfs-beside = simp link_values

  obfs_password-beside : value_of "obfs-password" (beside lib s) ≡ obfs_password s.obfs
  unfolding rates_list tail_list
  obfs_password-beside = simp link_values

  fast-beside : value_of "fastopen" (beside lib s) ≡ some (fast_text s.fast)
  unfolding rates_list tail_list
  fast-beside = simp link_values

  ports-beside : value_of "mport" (beside lib s) ≡ ports_text s.ports
  unfolding rates_list tail_list
  ports-beside = simp link_values

-- The options as the parser writes them
abbrev pub rate_field : String → Option ℕ → Assoc Value
unfolding field_if
rate_field k none = []
rate_field k (some n) = field_if (lt_int64 0 n) k (number n)

abbrev pub obfs_field : Option (Assoc Value) → Assoc Value
unfolding field_if object or_zero
obfs_field o =
    field_if (str_eq (or_zero "" (obfs_type o)) "salamander") "obfs" (
      object (("type", text "salamander") ∷ ("password", text (or_zero "" (obfs_password o))) ∷ []))

abbrev pub ports_field : List String → Assoc Value
unfolding array
ports_field [] = []
ports_field (p ∷ ps) = ("server_ports", array (map text (p ∷ ps))) ∷ []

-- The rates change sides: what the inbound receives its client sends.
unfoldable pub carried_options : Sent → Assoc Value
unfolding rate_field obfs_field ports_field field_if
carried_options s =
    rate_field "down_mbps" s.up
    ++ (rate_field "up_mbps" s.down
        ++ (obfs_field s.obfs ++ (ports_field s.ports ++ field_if s.fast "fastopen" (flag true))))

-- strconv.Atoi returns 0 for a text that is no number, and reads back the rates that are written.
unfoldable pub ReadsRate : GoLib → Option ℕ → Type 0
ReadsRate lib none = lib.atoi "" ≡ 0
ReadsRate lib (some n) = lib.atoi (lib.show_number n) ≡ n

positive_field-rate :
    (lib : GoLib) (k : String) (rate : Option ℕ)
    → ReadsRate lib rate
    → field_if
        (lt_int64 0 (lib.atoi (or_zero "" (shown_rate lib rate))))
        k
        (number (lib.atoi (or_zero "" (shown_rate lib rate))))
      ≡ rate_field k rate
unfolding ReadsRate rate_field shown_rate or_zero field_if
positive_field-rate lib k none h = rw h refl
positive_field-rate lib k (some n) h = rw h refl

is_yes-fast : (fast : Bool) → is_yes (fast_text fast) ≡ fast
unfolding is_yes
is_yes-fast true = refl
is_yes-fast false = refl

ports_field-text :
    (ports : List String) (out : Assoc Value)
    → HasPorts ports out
    → field_if
        (is_set (replace_char 45 ":" (or_zero "" (ports_text ports))))
        "server_ports"
        (list_of (replace_char 45 ":" (or_zero "" (ports_text ports))))
      ≡ ports_field ports
unfolding HasPorts ports_text ports_field or_zero field_if list_of replace_char
ports_field-text [] out h = refl
ports_field-text (p ∷ ps) out h =
    rw (replace_char-Lacks 45 ":" (join (p ∷ ps) ",") h.2, h.3)
      (ap (λ l. ("server_ports", array (map text l)) ∷ []) (split-join "," p ps h.1))

module _ (lib : GoLib) (s : Sent) (out : Assoc Value) where
  abbrev query : Assoc String
  query = pairs (hysteria2_list lib s)

  at_key :
      (k : String) (o : Option String)
      → has_string k (k ∷ []) ≡ true
      → IsForeign (k ∷ [])
      → value_of k (beside lib s) ≡ o
      → get k query ≡ or_zero "" o
  at_key k o h f e = value_of-beside k lib s h f ∙ ap (or_zero "") e

  pub hy2_options-hysteria2_list :
      ReadsRate lib s.up
      → ReadsRate lib s.down
      → HasPorts s.ports out
      → hy2_options lib query ≡ carried_options s
  unfolding hy2_options positive_field carried_options obfs_field
  hy2_options-hysteria2_list hu hd hp =
      let nine : IsForeign ("downmbps" ∷ []) =
        (refl, refl, refl, refl, refl, refl, refl, refl, refl) in
      rw
        (
          at_key "downmbps" _ refl nine (down-beside lib s),
          at_key "upmbps" _ refl nine (up-beside lib s),
          at_key "obfs" _ refl nine (obfs-beside lib s),
          at_key "obfs-password" _ refl nine (obfs_password-beside lib s),
          at_key "fastopen" _ refl nine (fast-beside lib s),
          at_key "mport" _ refl nine (ports-beside lib s),
          positive_field-rate lib "down_mbps" s.up hu,
          positive_field-rate lib "up_mbps" s.down hd,
          is_yes-fast s.fast,
          ports_field-text s.ports out hp,
        )
        refl
