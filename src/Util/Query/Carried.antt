-- ===== src/Util/Query/Carried.antt =====
-- The TLS of an address, written into the parameters of a link and read back.
use hy_panel.Base.{
  String, ◌≡◌, refl, ap, ◌∙◌, Bool, true, false, ◌||◌, Option, none, some, List, [], ◌∷◌, ◌++◌, map,
}
use hy_panel.Base.Assoc.{Assoc, has_string}
use hy_panel.Base.Strings.{split-join}
use hy_panel.Base.Value.{Value, flag, text, object, array, or_zero, text_at}
use hy_panel.Util.Params.{LinkParam, is_on, fingerprint}
use hy_panel.Util.Query.{
  get, get_tls, field_if, is_set, is_yes, list_of, enabled_with, security_fields,
}
use hy_panel.Util.Query.Written.{pairs}
use hy_panel.Util.Query.Params.{value_of, get-pairs, value_of-append, value_of-IsApart, IsApart}
use hy_panel.Util.Query.Tls.{
  HasAlpn, alpn_text, sent, orelse-none, security-sent, pbk-sent, sid-sent, sni-sent, alpn-sent,
  fp-sent, ech-sent, insecure-sent, disable_sni-sent,
}

abbrev pub text_field : String → Option String → Assoc Value
unfolding field_if
text_field k none = []
text_field k (some s) = field_if (is_set s) k (text s)

abbrev pub utls_field : Option String → Assoc Value
unfolding field_if object
utls_field none = []
utls_field (some s) =
    field_if (is_set s) "utls" (object (("enabled", flag true) ∷ ("fingerprint", text s) ∷ []))

abbrev pub security_of : Option (Assoc Value) → Assoc Value
unfolding object or_zero
security_of none = ("enabled", flag true) ∷ []
security_of (some m) =
    ("enabled", flag true)
    ∷ (
      "reality",
      object (
          ("enabled", flag true)
          ∷ ("public_key", text (or_zero "" (text_at "public_key" m)))
          ∷ ("short_id", text (or_zero "" (text_at "short_id" m)))
          ∷ []),
    )
    ∷ []

abbrev pub alpn_field : List String → Assoc Value
unfolding array
alpn_field [] = []
alpn_field (s ∷ ss) = ("alpn", array (map text (s ∷ ss))) ∷ []

-- A switch that a link carries only without reality
abbrev pub plain_flag : String → Option (Assoc Value) → Assoc Value → Bool
unfolding is_on
plain_flag k none tls = is_on k tls
plain_flag k (some m) tls = false

-- What is left of the TLS of an address in a link, as the parser writes it: `enabled` is true, under
-- reality `insecure` and `disable_sni` are not sent, and fields that are not named here are lost.
abbrev pub carried_tls : Option (Assoc Value) → Assoc Value → List String → Assoc Value
unfolding field_if fingerprint
carried_tls reality tls alpn =
    security_of reality
    ++ (text_field "server_name" (text_at "server_name" tls)
        ++ (alpn_field alpn
            ++ (field_if (plain_flag "insecure" reality tls) "insecure" (flag true)
                ++ (utls_field (fingerprint tls)
                    ++ field_if (plain_flag "disable_sni" reality tls) "disable_sni" (flag true)))))

-- Keys that the parameters for TLS use
abbrev pub tls_keys : List String
tls_keys =
    "security" ∷ "pbk" ∷ "sid" ∷ "insecure" ∷ "allowInsecure" ∷ "disable_sni" ∷ "fp" ∷ "sni"
    ∷ "alpn" ∷ "ech" ∷ []

text_field-or_zero :
    (k : String) (o : Option String)
    → field_if (is_set (or_zero "" o)) k (text (or_zero "" o)) ≡ text_field k o
unfolding field_if or_zero
text_field-or_zero k none = refl
text_field-or_zero k (some s) = refl

utls_field-or_zero :
    (o : Option String)
    → field_if (is_set (or_zero "" o)) "utls" (enabled_with "fingerprint" (or_zero "" o))
      ≡ utls_field o
unfolding field_if or_zero object
utls_field-or_zero none = refl
utls_field-or_zero (some s) = refl

alpn_field-or_zero :
    (alpn : List String) (tls : Assoc Value)
    → HasAlpn alpn tls
    → field_if (is_set (or_zero "" (alpn_text alpn))) "alpn" (list_of (or_zero "" (alpn_text alpn)))
      ≡ alpn_field alpn
unfolding field_if or_zero HasAlpn alpn_field alpn_text list_of
alpn_field-or_zero [] tls h = refl
alpn_field-or_zero (s ∷ ss) tls h =
    rw h.2 (ap (λ l. ("alpn", array (map text l)) ∷ []) (split-join "," s ss h.1))

-- What a query has to hold for the fields of TLS
unfoldable Tells : Option (Assoc Value) → Assoc Value → List String → Assoc String → Type 0
Tells reality tls alpn q =
    (get "security" q ≡ elim reality [ none ↦ "tls" | some m ↦ "reality" ])
    × (get "pbk" q ≡ or_zero "" (elim reality [ none ↦ none | some m ↦ text_at "public_key" m ]))
    × (get "sid" q ≡ or_zero "" (elim reality [ none ↦ none | some m ↦ text_at "short_id" m ]))
    × (get "sni" q ≡ or_zero "" (text_at "server_name" tls))
    × (get "alpn" q ≡ or_zero "" (alpn_text alpn))
    × (get "fp" q ≡ or_zero "" (fingerprint tls))
    × (get "ech" q ≡ "")
    × ((is_yes (get "insecure" q) || is_yes (get "allowInsecure" q))
        ≡ plain_flag "insecure" reality tls)
    × (is_yes (get "disable_sni" q) ≡ plain_flag "disable_sni" reality tls)

security_fields-of :
    (reality : Option (Assoc Value)) (q : Assoc String)
    → (get "pbk" q ≡ or_zero "" (elim reality [ none ↦ none | some m ↦ text_at "public_key" m ]))
    → (get "sid" q ≡ or_zero "" (elim reality [ none ↦ none | some m ↦ text_at "short_id" m ]))
    → security_fields (elim reality [ none ↦ "tls" | some m ↦ "reality" ]) q ≡ security_of reality
unfolding security_of security_fields
security_fields-of none q hp hs = refl
security_fields-of (some m) q hp hs = rw (hp, hs) refl

get_tls-carried :
    (reality : Option (Assoc Value)) (tls : Assoc Value) (alpn : List String) (q : Assoc String)
    → HasAlpn alpn tls
    → Tells reality tls alpn q
    → get_tls (get "security" q) q ≡ carried_tls reality tls alpn
unfolding get_tls Tells carried_tls
get_tls-carried reality tls alpn q ha (h, hp, hs, hn, hl, hf, he, hi, hd) =
    rw
      (
        h,
        security_fields-of reality q hp hs,
        hn,
        text_field-or_zero "server_name" (text_at "server_name" tls),
        hl,
        alpn_field-or_zero alpn tls ha,
        hf,
        utls_field-or_zero (fingerprint tls),
        he,
        hi,
        hd,
      )
      refl

plain_flag-elim :
    (k : String) (reality : Option (Assoc Value)) (tls : Assoc Value)
    → elim reality [ none ↦ is_on k tls | some m ↦ false ] ≡ plain_flag k reality tls
unfolding plain_flag is_on
plain_flag-elim k none tls = refl
plain_flag-elim k (some m) tls = refl

abbrev pub security_name : Option (Assoc Value) → String
security_name none = "tls"
security_name (some m) = "reality"

security_name-elim :
    (reality : Option (Assoc Value))
    → elim reality [ none ↦ "tls" | some m ↦ "reality" ] ≡ security_name reality
security_name-elim none = refl
security_name-elim (some m) = refl

value_of-amid :
    (k : String) (before l after : List LinkParam)
    → has_string k tls_keys ≡ true
    → IsApart tls_keys before
    → IsApart tls_keys after
    → value_of k (before ++ (l ++ after)) ≡ value_of k l
value_of-amid k before l after h hb ha =
    rw
      (
        value_of-append k before (l ++ after),
        value_of-append k l after,
        value_of-IsApart k tls_keys before h hb,
        value_of-IsApart k tls_keys after h ha,
      )
      (orelse-none (value_of k l))

module _ (reality : Option (Assoc Value)) (tls : Assoc Value) (strict : Bool)
    (alpn : List String) where
  pub get-amid :
      (k : String) (o : Option String) (before after : List LinkParam)
      → has_string k tls_keys ≡ true
      → IsApart tls_keys before
      → IsApart tls_keys after
      → value_of k (sent reality tls strict alpn) ≡ o
      → get k (pairs (before ++ (sent reality tls strict alpn ++ after))) ≡ or_zero "" o
  get-amid k o before after h hb ha e =
      get-pairs k (before ++ (sent reality tls strict alpn ++ after))
      ∙ ap (or_zero "") (value_of-amid k before (sent reality tls strict alpn) after h hb ha ∙ e)

  -- Between parameters with other keys, the parameters of getTlsParams are read back.
  pub get_tls-amid :
      (before after : List LinkParam)
      → HasAlpn alpn tls
      → IsApart tls_keys before
      → IsApart tls_keys after
      → get_tls
          (get "security" (pairs (before ++ (sent reality tls strict alpn ++ after))))
          (pairs (before ++ (sent reality tls strict alpn ++ after)))
        ≡ carried_tls reality tls alpn
  unfolding Tells or_zero
  get_tls-amid before after h hb ha =
      get_tls-carried reality tls alpn (pairs (before ++ (sent reality tls strict alpn ++ after))) h
        (
          get-amid "security" _ before after refl hb ha (security-sent reality tls strict alpn),
          get-amid "pbk" _ before after refl hb ha (pbk-sent reality tls strict alpn),
          get-amid "sid" _ before after refl hb ha (sid-sent reality tls strict alpn),
          get-amid "sni" _ before after refl hb ha (sni-sent reality tls strict alpn),
          get-amid "alpn" _ before after refl hb ha (alpn-sent reality tls strict alpn),
          get-amid "fp" _ before after refl hb ha (fp-sent reality tls strict alpn),
          get-amid "ech" _ before after refl hb ha (ech-sent reality tls strict alpn),
          rw
              (
                get-amid "insecure" _ before after refl hb ha refl,
                get-amid "allowInsecure" _ before after refl hb ha refl,
              )
              (insecure-sent reality tls strict alpn ∙ plain_flag-elim "insecure" reality tls),
          rw (get-amid "disable_sni" _ before after refl hb ha refl) (
              disable_sni-sent reality tls strict alpn ∙ plain_flag-elim "disable_sni" reality tls),
        )

  pub security-amid :
      (before after : List LinkParam)
      → IsApart tls_keys before
      → IsApart tls_keys after
      → get "security" (pairs (before ++ (sent reality tls strict alpn ++ after)))
        ≡ security_name reality
  unfolding or_zero
  security-amid before after hb ha =
      get-amid "security" _ before after refl hb ha (security-sent reality tls strict alpn)
      ∙ security_name-elim reality
