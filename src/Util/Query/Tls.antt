-- ===== src/Util/Query/Tls.antt =====
-- The TLS of an address, written into the parameters of a link: what each parameter then holds.
use hy_panel.Base.{
  String, ◌≡◌, refl, ◌∙◌, Bool, true, false, ◌||◌, Option, none, some, List, [], ◌∷◌, ◌++◌, map,
  str_eq, if◌then◌else◌, All,
}
use hy_panel.Base.Assoc.{Assoc, lookup}
use hy_panel.Base.Outcome.{ok}
use hy_panel.Base.Strings.{Lacks, join}
use hy_panel.Base.Value.{Value, text, or_zero, texts-map, text_at, object_at, array_at}
use hy_panel.Util.Params.{
  LinkParam, param_of, is_on, list_param, enabled_map, security_params, fingerprint, get_tls_params,
}
use hy_panel.Util.Query.{is_yes}
use hy_panel.Util.Query.Params.{
  value_of, get-pairs, value_of-nil, value_of-cons, value_of-append, value_of-param_of,
  value_of-param_if, value_of-IsApart, IsApart, orelse,
}

-- The ALPN names of the TLS of an address, which survive a list with commas: there are none, or none has a
-- comma and they are not one empty name.
unfoldable pub HasAlpn : List String → Assoc Value → Type 0
HasAlpn [] tls = array_at "alpn" tls ≡ none
HasAlpn (s ∷ ss) tls =
    (array_at "alpn" tls ≡ some (map text (s ∷ ss)))
    × All (Lacks 44) (s ∷ ss)
    × (str_eq (join (s ∷ ss) ",") "" ≡ false)

-- The parameter for them
unfoldable pub alpn_text : List String → Option String
unfolding join
alpn_text [] = none
alpn_text (s ∷ ss) = some (join (s ∷ ss) ",")

list_param-alpn :
    (ss : List String) (tls : Assoc Value)
    → HasAlpn ss tls
    → list_param "alpn" (array_at "alpn" tls) ≡ ok (param_of "alpn" (alpn_text ss))
unfolding HasAlpn list_param param_of alpn_text
list_param-alpn [] tls h = rw h refl
list_param-alpn (s ∷ ss) tls h = rw (h.0, texts-map (s ∷ ss)) refl

-- What getTlsParams appends
unfoldable pub tls_list : Option (Assoc Value) → Assoc Value → String → List String → List LinkParam
unfolding security_params param_of fingerprint
tls_list reality tls insecure_key alpn =
    security_params reality tls insecure_key
    ++ (param_of "fp" (fingerprint tls)
        ++ (param_of "sni" (text_at "server_name" tls) ++ param_of "alpn" (alpn_text alpn)))

pub get_tls_params-ok :
    (reality : Option (Assoc Value)) (tls : Assoc Value) (insecure_key : String)
    (alpn : List String)
    → enabled_map (object_at "reality" tls) ≡ ok reality
    → HasAlpn alpn tls
    → get_tls_params tls insecure_key ≡ ok (tls_list reality tls insecure_key alpn)
unfolding get_tls_params tls_list
get_tls_params-ok reality tls insecure_key alpn hr ha = rw (hr, list_param-alpn alpn tls ha) refl

abbrev pub insecure_name : Bool → String
insecure_name strict = if strict then "insecure" else "allowInsecure"

pub orelse-none {ℓ} : {A : Type ℓ} (o : Option A) → orelse o none ≡ o
orelse-none none = refl
orelse-none (some a) = refl

pub ruleset values = (
  value_of-nil, value_of-cons, value_of-append, value_of-param_of, value_of-param_if, orelse-none,
)

abbrev pub sent : Option (Assoc Value) → Assoc Value → Bool → List String → List LinkParam
sent reality tls strict alpn = tls_list reality tls (insecure_name strict) alpn

yes_if : (b : Bool) → is_yes (or_zero "" (if b then some "1" else none)) ≡ b
unfolding is_yes or_zero
yes_if true = refl
yes_if false = refl

or_false : (b : Bool) → (b || false) ≡ b
or_false true = refl
or_false false = refl

pub security-sent :
    (reality : Option (Assoc Value)) (tls : Assoc Value) (strict : Bool) (alpn : List String)
    → value_of "security" (sent reality tls strict alpn)
      ≡ some (elim reality [ none ↦ "tls" | some m ↦ "reality" ])
unfolding security_params tls_list value_of lookup
security-sent none tls true alpn = simp values
security-sent none tls false alpn = simp values
security-sent (some m) tls strict alpn = simp values

pub fp-sent :
    (reality : Option (Assoc Value)) (tls : Assoc Value) (strict : Bool) (alpn : List String)
    → value_of "fp" (sent reality tls strict alpn) ≡ fingerprint tls
unfolding security_params tls_list value_of lookup
fp-sent none tls true alpn = simp values
fp-sent none tls false alpn = simp values
fp-sent (some m) tls strict alpn = simp values

pub sni-sent :
    (reality : Option (Assoc Value)) (tls : Assoc Value) (strict : Bool) (alpn : List String)
    → value_of "sni" (sent reality tls strict alpn) ≡ text_at "server_name" tls
unfolding security_params tls_list value_of lookup
sni-sent none tls true alpn = simp values
sni-sent none tls false alpn = simp values
sni-sent (some m) tls strict alpn = simp values

pub alpn-sent :
    (reality : Option (Assoc Value)) (tls : Assoc Value) (strict : Bool) (alpn : List String)
    → value_of "alpn" (sent reality tls strict alpn) ≡ alpn_text alpn
unfolding security_params tls_list value_of lookup
alpn-sent none tls true alpn = simp values
alpn-sent none tls false alpn = simp values
alpn-sent (some m) tls strict alpn = simp values

pub ech-sent :
    (reality : Option (Assoc Value)) (tls : Assoc Value) (strict : Bool) (alpn : List String)
    → value_of "ech" (sent reality tls strict alpn) ≡ none
unfolding security_params tls_list value_of lookup
ech-sent none tls true alpn = simp values
ech-sent none tls false alpn = simp values
ech-sent (some m) tls strict alpn = simp values

pub pbk-sent :
    (reality : Option (Assoc Value)) (tls : Assoc Value) (strict : Bool) (alpn : List String)
    → value_of "pbk" (sent reality tls strict alpn)
      ≡ elim reality [ none ↦ none | some m ↦ text_at "public_key" m ]
unfolding security_params tls_list value_of lookup
pbk-sent none tls true alpn = simp values
pbk-sent none tls false alpn = simp values
pbk-sent (some m) tls strict alpn = simp values

pub sid-sent :
    (reality : Option (Assoc Value)) (tls : Assoc Value) (strict : Bool) (alpn : List String)
    → value_of "sid" (sent reality tls strict alpn)
      ≡ elim reality [ none ↦ none | some m ↦ text_at "short_id" m ]
unfolding security_params tls_list value_of lookup
sid-sent none tls true alpn = simp values
sid-sent none tls false alpn = simp values
sid-sent (some m) tls strict alpn = simp values

pub disable_sni-sent :
    (reality : Option (Assoc Value)) (tls : Assoc Value) (strict : Bool) (alpn : List String)
    → is_yes (or_zero "" (value_of "disable_sni" (sent reality tls strict alpn)))
      ≡ elim reality [ none ↦ is_on "disable_sni" tls | some m ↦ false ]
unfolding security_params tls_list value_of lookup is_yes or_zero
disable_sni-sent none tls true alpn = simp values (yes_if (is_on "disable_sni" tls))
disable_sni-sent none tls false alpn = simp values (yes_if (is_on "disable_sni" tls))
disable_sni-sent (some m) tls strict alpn = simp values

pub insecure-sent :
    (reality : Option (Assoc Value)) (tls : Assoc Value) (strict : Bool) (alpn : List String)
    → (is_yes (or_zero "" (value_of "insecure" (sent reality tls strict alpn)))
        || is_yes (or_zero "" (value_of "allowInsecure" (sent reality tls strict alpn))))
      ≡ elim reality [ none ↦ is_on "insecure" tls | some m ↦ false ]
unfolding security_params tls_list value_of lookup is_yes or_zero
insecure-sent none tls true alpn = simp values (or_false _ ∙ yes_if (is_on "insecure" tls))
insecure-sent none tls false alpn = simp values (yes_if (is_on "insecure" tls))
insecure-sent (some m) tls strict alpn = simp values
