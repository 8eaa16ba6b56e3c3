-- ===== src/Util/Query/Params.antt =====
-- What a query tells of the parameters that it was made of: lookups in lists of parameters.
use hy_panel.Base.{
  String, ◌≡◌, refl, ap, Bool, true, false, Option, none, some, List, [], ◌∷◌, ◌++◌, inl, inr,
  arith, str_eq, eq_iff, if◌then◌else◌, All, Bool-cases,
}
use hy_panel.Base.Assoc.{lookup, has_string}
use hy_panel.Base.Value.{or_zero}
use hy_panel.Util.Params.{LinkParam, param_of, param_if}
use hy_panel.Util.Query.{get}
use hy_panel.Util.Query.Written.{pairs}

abbrev pub orelse {ℓ} : {A : Type ℓ} → Option A → Option A → Option A
orelse none o = o
orelse (some a) o = some a

-- The value of a parameter.
unfoldable pub value_of : String → List LinkParam → Option String
unfolding lookup pairs
value_of k l = lookup k (pairs l)

pub get-pairs : (k : String) (l : List LinkParam) → get k (pairs l) ≡ or_zero "" (value_of k l)
unfolding get value_of
get-pairs k l = refl

pub value_of-nil : (k : String) → value_of k [] ≡ none
unfolding value_of
value_of-nil k = refl

pub value_of-cons :
    (k : String) (p : LinkParam) (l : List LinkParam)
    → value_of k (p ∷ l) ≡ (if str_eq p.key k then some p.value else value_of k l)
unfolding value_of
value_of-cons k p l = refl

pub value_of-append :
    (k : String) (l m : List LinkParam) → value_of k (l ++ m) ≡ orelse (value_of k l) (value_of k m)
unfolding value_of
value_of-append k [] m = refl
value_of-append k (p ∷ l) m = ground (arith, value_of-append k l m)

pub value_of-param_of :
    (k key : String) (o : Option String)
    → value_of k (param_of key o) ≡ (if str_eq key k then o else none)
unfolding value_of param_of
value_of-param_of k key none = ground arith
value_of-param_of k key (some v) = refl

pub value_of-param_if :
    (k : String) (b : Bool) (key v : String)
    → value_of k (param_if b key v) ≡ (if str_eq key k then (if b then some v else none) else none)
unfolding value_of param_if
value_of-param_if k true key v = refl
value_of-param_if k false key v = ground arith

-- Parameters none of which has one of these keys.
abbrev pub IsApart : List String → List LinkParam → Type 0
IsApart keys = All (λ p. has_string p.key keys ≡ false)

has_string-eq :
    (k j : String) (keys : List String)
    → has_string k keys ≡ true
    → has_string j keys ≡ false
    → str_eq j k ≡ false
has_string-eq k j keys h n = elim (Bool-cases (str_eq j k)) [
  | inl e ↦ cc (ap (λ x. has_string x keys) ((eq_iff j k).0 e))
  | inr e ↦ e
]

pub value_of-IsApart :
    (k : String) (keys : List String) (l : List LinkParam)
    → has_string k keys ≡ true
    → IsApart keys l
    → value_of k l ≡ none
unfolding value_of
value_of-IsApart k keys [] h a = refl
value_of-IsApart k keys (p ∷ l) h a =
    rw (has_string-eq k p.key keys h a.0) (value_of-IsApart k keys l h a.1)
