-- ===== src/Util/Query/Apart.antt =====
-- Which keys the parameters for TLS do not have.
use hy_panel.Base.{String, ◌≡◌, Bool, true, false, Option, none, some, List, ◌++◌, All-append}
use hy_panel.Base.Assoc.{Assoc, has_string}
use hy_panel.Base.Value.{Value, text_at}
use hy_panel.Util.Params.{LinkParam, param_of, param_if, is_on, security_params, fingerprint}
use hy_panel.Util.Query.Params.{IsApart}
use hy_panel.Util.Query.Tls.{alpn_text, insecure_name, sent, tls_list}

abbrev pub ApartParam : List String → LinkParam → Type 0
ApartParam keys p = has_string p.key keys ≡ false

pub IsApart-append :
    (keys : List String) (l m : List LinkParam)
    → IsApart keys l
    → IsApart keys m
    → IsApart keys (l ++ m)
IsApart-append keys l m hl hm = All-append (ApartParam keys) l m hl hm

pub IsApart-param_of :
    (keys : List String) (k : String) (o : Option String)
    → has_string k keys ≡ false
    → IsApart keys (param_of k o)
unfolding param_of
IsApart-param_of keys k none h = tt
IsApart-param_of keys k (some v) h = (h, tt)

pub IsApart-param_if :
    (keys : List String) (b : Bool) (k v : String)
    → has_string k keys ≡ false
    → IsApart keys (param_if b k v)
unfolding param_if
IsApart-param_if keys true k v h = (h, tt)
IsApart-param_if keys false k v h = tt

-- A list of keys that the parameters of getTlsParams do not have
abbrev pub IsForeign : List String → Type 0
IsForeign keys =
    (has_string "security" keys ≡ false)
    × (has_string "pbk" keys ≡ false)
    × (has_string "sid" keys ≡ false)
    × (has_string "insecure" keys ≡ false)
    × (has_string "allowInsecure" keys ≡ false)
    × (has_string "disable_sni" keys ≡ false)
    × (has_string "fp" keys ≡ false)
    × (has_string "sni" keys ≡ false)
    × (has_string "alpn" keys ≡ false)

insecure_name-IsForeign :
    (strict : Bool) (keys : List String)
    → IsForeign keys
    → has_string (insecure_name strict) keys ≡ false
insecure_name-IsForeign true keys h = h.3
insecure_name-IsForeign false keys h = h.4

security_params-IsApart :
    (reality : Option (Assoc Value)) (tls : Assoc Value) (strict : Bool) (keys : List String)
    → IsForeign keys
    → IsApart keys (security_params reality tls (insecure_name strict))
unfolding security_params
security_params-IsApart none tls strict keys h = (
  h.0,
  IsApart-append keys (param_if (is_on "insecure" tls) (insecure_name strict) "1") _
      (IsApart-param_if keys (is_on "insecure" tls) (insecure_name strict) "1"
        (insecure_name-IsForeign strict keys h))
      (IsApart-param_if keys (is_on "disable_sni" tls) "disable_sni" "1" h.5),
)
security_params-IsApart (some m) tls strict keys h = (
  h.0,
  IsApart-append keys (param_of "pbk" (text_at "public_key" m)) _
      (IsApart-param_of keys "pbk" (text_at "public_key" m) h.1)
      (IsApart-param_of keys "sid" (text_at "short_id" m) h.2),
)

pub sent-IsApart :
    (reality : Option (Assoc Value)) (tls : Assoc Value) (strict : Bool) (alpn keys : List String)
    → IsForeign keys
    → IsApart keys (sent reality tls strict alpn)
unfolding tls_list
sent-IsApart reality tls strict alpn keys h =
    IsApart-append keys (security_params reality tls (insecure_name strict)) _
      (security_params-IsApart reality tls strict keys h)
      (IsApart-append keys (param_of "fp" (fingerprint tls)) _
        (IsApart-param_of keys "fp" (fingerprint tls) h.6)
        (IsApart-append keys (param_of "sni" (text_at "server_name" tls)) _
          (IsApart-param_of keys "sni" (text_at "server_name" tls) h.7)
          (IsApart-param_of keys "alpn" (alpn_text alpn) h.8)))
