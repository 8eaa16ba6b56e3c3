-- ===== src/Util/Query/Written.antt =====
-- The query that addParams writes, read by url.ParseQuery.
use hy_panel.Base.{
  String, ◌≡◌, refl, ap, ◌∙◌, false, some, List, [], ◌∷◌, map, str_eq, eq_iff, All, Bool-cases, inl,
  inr,
}
use text.Mathlib.TextLemmas.{cons-append, nil-append}
use hy_panel.Base.Assoc.{Assoc}
use hy_panel.Base.Strings.{Lacks, split, cut, cut-append, join, split-join}
use hy_panel.Util.{GoLib}
use hy_panel.Util.Params.{LinkParam}
use hy_panel.Util.Gen.{encoded, written}
use hy_panel.Util.Query.{key_value, parse_piece, parse_pieces, parse_query}

-- The parameters as url.Values holds them.
unfoldable pub pairs : List LinkParam → Assoc String
pairs l = map (λ p. (p.key, p.value)) l

-- A parameter that stands a query: its key needs no escape and what is written for it has no separator.
unfoldable pub IsReadable : GoLib → LinkParam → Type 0
IsReadable lib p =
    Lacks 61 p.key
    × Lacks 38 (written lib p)
    × Lacks 59 (written lib p)
    × (lib.unescape p.key ≡ some p.key)
    × (lib.unescape (encoded lib p) ≡ some p.value)

no_cut : (s : String) (r : String × String) → cut 61 s ≡ some r → str_eq s "" ≡ false
unfolding cut
no_cut s r h = elim (Bool-cases (str_eq s "")) [
  | inl e ↦ cc (ap (cut 61) ((eq_iff s "").0 e))
  | inr e ↦ e
]

cut-written :
    (lib : GoLib) (p : LinkParam)
    → Lacks 61 p.key
    → cut 61 (written lib p) ≡ some (p.key, encoded lib p)
unfolding written
cut-written lib p h =
    rw (cons-append "=" "" (encoded lib p), nil-append (encoded lib p))
      (cut-append "=" p.key (encoded lib p) h)

key_value-cut : (s : String) (r : String × String) → cut 61 s ≡ some r → key_value s ≡ r
unfolding key_value
key_value-cut s r h = rw (key_value, h) refl

parse_piece-read :
    (lib : GoLib) (s : String) (r : String × String) (k v : String)
    → cut 61 s ≡ some r
    → Lacks 59 s
    → lib.unescape r.0 ≡ some k
    → lib.unescape r.1 ≡ some v
    → parse_piece lib s ≡ (k, v) ∷ []
unfolding parse_piece
parse_piece-read lib s r k v c hs hk hv =
    let e = key_value-cut s r c in
    rw (hs, no_cut s r c, ap (λ x. lib.unescape x.0) e ∙ hk, ap (λ x. lib.unescape x.1) e ∙ hv) refl

parse_piece-written :
    (lib : GoLib) (p : LinkParam)
    → IsReadable lib p
    → parse_piece lib (written lib p) ≡ (p.key, p.value) ∷ []
unfolding IsReadable
parse_piece-written lib p (hk, ha, hs, hu, hv) =
    parse_piece-read lib (written lib p) (p.key, encoded lib p) p.key p.value (cut-written lib p hk)
      hs hu hv

parse_pieces-written :
    (lib : GoLib) (l : List LinkParam)
    → All (IsReadable lib) l
    → parse_pieces lib (map (written lib) l) ≡ pairs l
unfolding parse_pieces pairs
parse_pieces-written lib [] h = refl
parse_pieces-written lib (p ∷ l) h =
    rw (parse_piece-written lib p h.0, parse_pieces-written lib l h.1) refl

written-Lacks :
    (lib : GoLib) (l : List LinkParam)
    → All (IsReadable lib) l
    → All (Lacks 38) (map (written lib) l)
unfolding IsReadable
written-Lacks lib [] h = tt
written-Lacks lib (p ∷ l) h = (h.0.1, written-Lacks lib l h.1)

-- A query that is written parameter by parameter is read as these parameters, in their order.
pub parse_query-written :
    (lib : GoLib) (l : List LinkParam)
    → All (IsReadable lib) l
    → parse_query lib (join (map (written lib) l) "&") ≡ pairs l
unfolding parse_query
parse_query-written lib [] h = unfold join split parse_pieces parse_piece pairs in refl
parse_query-written lib (p ∷ l) h =
    ap (parse_pieces lib)
      (split-join "&" (written lib p) (map (written lib) l) (written-Lacks lib (p ∷ l) h))
    ∙ parse_pieces-written lib (p ∷ l) h
