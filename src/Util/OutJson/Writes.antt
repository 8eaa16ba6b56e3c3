-- ===== src/Util/OutJson/Writes.antt =====
-- Functions on maps that write some keys and leave the others, as the parts of FillOutJson do.
use hy_panel.Base.{
  String, ◌≡◌, refl, sym, ap, ◌∙◌, Bool, true, false, Option, none, some, List, [], ◌∷◌,
  if◌then◌else◌, str_eq,
}
use hy_panel.Base.Assoc.{Assoc, lookup, insert, remove, lookup-insert, lookup-remove}
use hy_panel.Base.Value.{Value, flag}
use hy_panel.Util.OutJson.{copy_field, remove_each, put_if_any}

-- What a function on maps does to a key: nothing, or it sets it or takes it away.
abbrev pub write : Option (Option Value) → Option Value → Option Value
write none old = old
write (some new) old = new

-- A function whose effect on a key does not depend on the map
abbrev pub IsWrite : (Assoc Value → Assoc Value) → Type 0
IsWrite f =
    (w : String → Option (Option Value)) × ((k : String) (m : Assoc Value)
      → lookup k (f m) ≡ write (w k) (lookup k m))

abbrev later : Option (Option Value) → Option (Option Value) → Option (Option Value)
later none first = first
later (some new) first = some new

write-later :
    (second first : Option (Option Value)) (old : Option Value)
    → write second (write first old) ≡ write (later second first) old
write-later none first old = refl
write-later (some new) first old = refl

pub IsWrite-id : IsWrite (λ m. m)
IsWrite-id = (λ k. none, λ k m. refl)

pub IsWrite-compose :
    (g f : Assoc Value → Assoc Value) → IsWrite g → IsWrite f → IsWrite (λ m. g (f m))
IsWrite-compose g f (v, hg) (w, hf) = (
  λ k. later (v k) (w k),
  λ k m. hg k (f m) ∙ (ap (write (v k)) (hf k m) ∙ write-later (v k) (w k) (lookup k m)),
)

pub IsWrite-insert : (key : String) (x : Value) → IsWrite (insert key x)
IsWrite-insert key x = (
  λ k. if str_eq key k then some (some x) else none,
  λ k m. lookup-insert key k x m ∙ split (str_eq key k) (lookup k m),
)
  where
    split :
        (b : Bool) (o : Option Value)
        → (if b then some x else o) ≡ write (if b then some (some x) else none) o
    split true o = refl
    split false o = refl

pub IsWrite-remove : (key : String) → IsWrite (remove key)
IsWrite-remove key = (
  λ k. if str_eq key k then some none else none,
  λ k m. lookup-remove key k m ∙ split (str_eq key k) (lookup k m),
)
  where
    split :
        (b : Bool) (o : Option Value)
        → (if b then none else o) ≡ write (if b then some none else none) o
    split true o = refl
    split false o = refl

pub IsWrite-constant : (c : Assoc Value) → IsWrite (λ m. c)
IsWrite-constant c = (λ k. some (lookup k c), λ k m. refl)

pub IsWrite-if :
    (b : Bool) (f g : Assoc Value → Assoc Value)
    → IsWrite f
    → IsWrite g
    → IsWrite (λ m. if b then f m else g m)
IsWrite-if true f g hf hg = hf
IsWrite-if false f g hf hg = hg

-- Done twice, such a function has done what it does once.
pub IsWrite-twice :
    (f : Assoc Value → Assoc Value)
    → IsWrite f
    → (k : String) (m : Assoc Value) → lookup k (f (f m)) ≡ lookup k (f m)
IsWrite-twice f (w, h) k m = h k (f m) ∙ (ap (write (w k)) (h k m) ∙ (again (w k) ∙ sym (h k m)))
  where
    again : (u : Option (Option Value)) → write u (write u (lookup k m)) ≡ write u (lookup k m)
    again none = refl
    again (some new) = refl

pub copy_field-IsWrite :
    (k : String) (source : Assoc Value) (key : String) → IsWrite (copy_field k source key)
unfolding copy_field lookup
copy_field-IsWrite k source key = go (lookup k source)
  where
    go : (o : Option Value) → IsWrite (λ m. elim o [ none ↦ m | some v ↦ insert key v m ])
    go none = IsWrite-id
    go (some v) = IsWrite-insert key v

pub remove_each-IsWrite : (ks : List String) → IsWrite (remove_each ks)
unfolding remove_each
remove_each-IsWrite [] = IsWrite-id
remove_each-IsWrite (k ∷ ks) =
    IsWrite-compose (remove_each ks) (remove k) (remove_each-IsWrite ks) (IsWrite-remove k)

pub put_if_any-IsWrite : (k : String) (o : Option Bool) → IsWrite (put_if_any k o)
unfolding put_if_any
put_if_any-IsWrite k none = IsWrite-id
put_if_any-IsWrite k (some b) = IsWrite-insert k (flag b)
