-- ===== src/Base/Slashes.antt =====
-- Texts that begin or end with a slash: strings.HasPrefix and strings.HasSuffix for "/".
use Prim.Native.Nat.{ℕ}
use Prim.Native.Char.{code}
use Prim.Native.String.{String, ◌++◌}
use mathlib.Core.Path.{◌≡◌, refl}
use mathlib.Core.Bool.{Bool, true}
use text.Mathlib.TextLemmas.{cons-append}
use hy_panel.Base.Tests.{◌==◌}

-- The code of the first character, or of the last one; 0 for the empty text.
unfoldable pub first_code : String → ℕ
first_code String.[] = 0
first_code (String.◌∷◌ c s) = code c

last_code : ℕ → String → ℕ
last_code n String.[] = n
last_code n (String.◌∷◌ c s) = last_code (code c) s

unfoldable pub starts_slash : String → Bool
unfolding first_code
starts_slash s = first_code s == 47

unfoldable pub ends_slash : String → Bool
unfolding last_code
ends_slash s = last_code 0 s == 47

last_code-append : (n : ℕ) (s : String) → last_code n (s ++ "/") ≡ 47
unfolding last_code
last_code-append n String.[] = refl
last_code-append n (String.◌∷◌ c s) = rw cons-append (last_code-append (code c) s)

pub ends_slash-append : (s : String) → ends_slash (s ++ "/") ≡ true
unfolding ends_slash
ends_slash-append s = rw (last_code-append 0 s) refl

pub starts_slash-append : (s t : String) → starts_slash s ≡ true → starts_slash (s ++ t) ≡ true
unfolding starts_slash first_code
starts_slash-append String.[] t h = cc
starts_slash-append (String.◌∷◌ c s) t h = rw cons-append h

pub slash-starts_slash : (s : String) → starts_slash ("/" ++ s) ≡ true
unfolding starts_slash first_code
slash-starts_slash s = rw cons-append refl

pub colon-first_code : (s : String) → first_code (":" ++ s) ≡ 58
unfolding first_code
colon-first_code s = rw cons-append refl
