-- ===== src/Base/Value.antt =====
-- A JSON value as encoding/json decodes it into interface{}, and the values that the code puts in
-- place of one. Of the JSON numbers there are the whole ones that are not negative: ports, rates, ids.
use hy_panel.Base.Assoc.{Assoc, lookup}
use hy_panel.Base.Outcome.{Outcome, ok, err, panicked}
use Prim.Native.Nat.{ℕ}
use Prim.Native.String.{String}
use mathlib.Core.Path.{◌≡◌, refl, ap}
use mathlib.Core.Bool.{Bool}
use mathlib.Core.Option.{Option, none, some}
use mathlib.Core.List.{List, [], ◌∷◌}

mutual
  -- `raw` is a json.RawMessage.
  pub data Value : Type 0 where
    null : Value
    flag : Bool → Value
    number : ℕ → Value
    text : String → Value
    raw : String → Value
    items : Items → Value
    fields : Fields → Value

  pub data Items : Type 0 where
    nil : Items
    cons : Value → Items → Items

  pub data Fields : Type 0 where
    end : Fields
    field : String → Value → Fields → Fields

unfoldable pub entries : Fields → Assoc Value
entries end = []
entries (field k v fs) = (k, v) ∷ entries fs

unfoldable pub of_entries : Assoc Value → Fields
of_entries [] = end
of_entries ((k, v) ∷ m) = field k v (of_entries m)

unfoldable pub elements : Items → List Value
elements nil = []
elements (cons v vs) = v ∷ elements vs

unfoldable pub of_elements : List Value → Items
of_elements [] = nil
of_elements (v ∷ vs) = cons v (of_elements vs)

-- A map and a slice as values.
unfoldable pub object : Assoc Value → Value
unfolding of_entries
object m = fields (of_entries m)

unfoldable pub array : List Value → Value
unfolding of_elements
array vs = items (of_elements vs)

-- The type assertions with two results.
unfoldable pub as_text : Value → Option String
as_text (text s) = some s
as_text v = none

unfoldable pub as_flag : Value → Option Bool
as_flag (flag b) = some b
as_flag v = none

unfoldable pub as_number : Value → Option ℕ
as_number (number n) = some n
as_number v = none

unfoldable pub as_raw : Value → Option String
as_raw (raw s) = some s
as_raw v = none

unfoldable pub as_object : Value → Option (Assoc Value)
unfolding entries
as_object (fields fs) = some (entries fs)
as_object v = none

unfoldable pub as_array : Value → Option (List Value)
unfolding elements
as_array (items vs) = some (elements vs)
as_array v = none

-- An assertion on the value of a key; the value of a missing key is nil.
unfoldable pub at {ℓ} : {A : Type ℓ} → (Value → Option A) → String → Assoc Value → Option A
at f k m = elim (lookup k m) [ none ↦ none | some v ↦ f v ]

abbrev pub text_at : String → Assoc Value → Option String
unfolding at
text_at k m = at as_text k m

abbrev pub flag_at : String → Assoc Value → Option Bool
unfolding at
flag_at k m = at as_flag k m

abbrev pub number_at : String → Assoc Value → Option ℕ
unfolding at
number_at k m = at as_number k m

abbrev pub object_at : String → Assoc Value → Option (Assoc Value)
unfolding at
object_at k m = at as_object k m

abbrev pub array_at : String → Assoc Value → Option (List Value)
unfolding at
array_at k m = at as_array k m

-- The first result of an assertion: the zero value of the type if it does not hold.
unfoldable pub or_zero {ℓ} : {A : Type ℓ} → A → Option A → A
or_zero zero_value none = zero_value
or_zero zero_value (some a) = a

-- An assertion with one result.
unfoldable pub must {ℓ} : {A : Type ℓ} → Option A → Outcome A
must none = err panicked
must (some a) = ok a

-- The loop that asserts each element of a slice to be a text.
unfoldable pub texts : List Value → Outcome (List String)
unfolding must as_text
texts [] = ok []
texts (v ∷ vs) =
    let rest = texts vs in
    elim (must (as_text v)) [
      | err e ↦ err e
      | ok s ↦ elim rest [ err e ↦ err e | ok ss ↦ ok (s ∷ ss) ]
    ]

pub entries-of_entries : (m : Assoc Value) → entries (of_entries m) ≡ m
unfolding entries of_entries
entries-of_entries [] = refl
entries-of_entries ((k, v) ∷ m) = ap (λ t. (k, v) ∷ t) (entries-of_entries m)

pub elements-of_elements : (vs : List Value) → elements (of_elements vs) ≡ vs
unfolding elements of_elements
elements-of_elements [] = refl
elements-of_elements (v ∷ vs) = ap (λ t. v ∷ t) (elements-of_elements vs)

pub as_object-object : (m : Assoc Value) → as_object (object m) ≡ some m
unfolding as_object object
as_object-object m = ap some (entries-of_entries m)

pub as_array-array : (vs : List Value) → as_array (array vs) ≡ some vs
unfolding as_array array
as_array-array vs = ap some (elements-of_elements vs)

pub texts-map : (ss : List String) → texts (mathlib.Core.List.map text ss) ≡ ok ss
unfolding texts
texts-map [] = refl
texts-map (s ∷ ss) = rw (texts-map ss) refl
