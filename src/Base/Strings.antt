-- ===== src/Base/Strings.antt =====
-- Go's package strings, where the separators are single characters, named by their codes.
use Prim.Native.Nat.{ℕ, ◌+◌}
use Prim.Native.Char.{Char, code}
use Prim.Native.String.{String, ◌++◌ as ◌<>◌}
use mathlib.Core.Path.{◌≡◌, refl, ap}
use mathlib.Core.Bool.{Bool, true, false, ◌&&◌, ◌||◌}
use mathlib.Core.Option.{Option, none, some}
use mathlib.Core.List.{List, [], ◌∷◌}
use native.Mathlib.Omega.{arith}
use text.Mathlib.TextLemmas.{cons-append, nil-append, append-nil}
use hy_panel.Base.Tests.{◌==◌, leb, if◌then◌else◌}
use hy_panel.Base.Lists.{All}

abbrev pub cons_char : Char → String → String
cons_char c s = String.◌∷◌ c s

-- The text before the first separator, and the pieces between the others.
unfoldable pub pieces : ℕ → String → String × List String
pieces sep String.[] = ("", [])
pieces sep (String.◌∷◌ c s) =
    let (p, ps) = pieces sep s in if code c == sep then ("", p ∷ ps) else (cons_char c p, ps)

-- strings.Split, which never returns an empty slice
unfoldable pub split : String → ℕ → List String
unfolding pieces
split s sep = let (p, ps) = pieces sep s in p ∷ ps

-- strings.Join
unfoldable pub join : List String → String → String
join [] sep = ""
join (p ∷ []) sep = p
join (p ∷ (q ∷ ps)) sep = p <> (sep <> join (q ∷ ps) sep)

-- strings.Cut: the texts before and behind the first separator, if there is one
unfoldable pub cut : ℕ → String → Option (String × String)
cut sep String.[] = none
cut sep (String.◌∷◌ c s) =
    let rest = cut sep s in
    if code c == sep
    then some ("", s)
    else elim rest [ none ↦ none | some (before, behind) ↦ some (cons_char c before, behind) ]

-- strings.Contains
unfoldable pub contains : String → ℕ → Bool
contains String.[] c = false
contains (String.◌∷◌ d s) c = code d == c || contains s c

-- The texts that do not contain a separator.
abbrev pub Lacks : ℕ → String → Type 0
Lacks sep s = contains s sep ≡ false

pub pieces-append :
    (sep : ℕ) (p s : String)
    → Lacks sep p
    → pieces sep (p <> s) ≡ (p <> (pieces sep s).0, (pieces sep s).1)
unfolding pieces contains
pieces-append sep String.[] s h = rw (nil-append s, nil-append (pieces sep s).0) refl
pieces-append sep (String.◌∷◌ c p) s h =
    rw (cons-append c p s, cons-append c p (pieces sep s).0) (ground (arith, pieces-append sep p s))

pub pieces-Lacks : (sep : ℕ) (p : String) → Lacks sep p → pieces sep p ≡ (p, [])
unfolding pieces contains
pieces-Lacks sep String.[] h = refl
pieces-Lacks sep (String.◌∷◌ c p) h = ground (arith, pieces-Lacks sep p)

pieces-sep : (c : Char) (s : String) → pieces (code c) (cons_char c s) ≡ ("", split s (code c))
unfolding split pieces
pieces-sep c s = ground arith

-- Splitting a join gives the pieces back, if there is one and none contains the separator.
pub split-join :
    (c : Char) (p : String) (ps : List String)
    → All (Lacks (code c)) (p ∷ ps)
    → split (join (p ∷ ps) (cons_char c "")) (code c) ≡ p ∷ ps
unfolding join split
split-join c p [] h = rw (pieces-Lacks (code c) p h.0) refl
split-join c p (q ∷ ps) h =
    rw
      (
        pieces-append (code c) p _ h.0,
        cons-append c "" (join (q ∷ ps) (cons_char c "")),
        nil-append (join (q ∷ ps) (cons_char c "")),
        pieces-sep c (join (q ∷ ps) (cons_char c "")),
        append-nil p,
      )
      (ap (λ l. p ∷ l) (split-join c q ps h.1))

pub cut-append :
    (c : Char) (key value : String)
    → Lacks (code c) key
    → cut (code c) (key <> cons_char c value) ≡ some (key, value)
unfolding cut contains
cut-append c String.[] value h = rw (nil-append (cons_char c value)) (ground arith)
cut-append c (String.◌∷◌ d key) value h =
    rw (cons-append d key (cons_char c value)) (ground (arith, cut-append c key value))

-- unicode.ToLower, by the codes of the characters of which ASCII letters come out
abbrev pub lower_code : ℕ → ℕ
lower_code n =
    if leb 65 n && leb n 90 then n + 32 else if n == 304 then 105 else if n == 8490 then 107 else n

-- strings.ToLower(s) == name, for a name in lower case
unfoldable pub lowers_to : String → String → Bool
lowers_to String.[] String.[] = true
lowers_to String.[] (String.◌∷◌ d t) = false
lowers_to (String.◌∷◌ c s) String.[] = false
lowers_to (String.◌∷◌ c s) (String.◌∷◌ d t) = lower_code (code c) == code d && lowers_to s t

-- strings.ReplaceAll of a character
unfoldable pub replace_char : ℕ → Char → String → String
replace_char old new String.[] = ""
replace_char old new (String.◌∷◌ c s) =
    cons_char (if code c == old then new else c) (replace_char old new s)

pub replace_char-Lacks :
    (old : ℕ) (new : Char) (s : String) → Lacks old s → replace_char old new s ≡ s
unfolding replace_char contains
replace_char-Lacks old new String.[] h = refl
replace_char-Lacks old new (String.◌∷◌ c s) h = ground (arith, replace_char-Lacks old new s)
