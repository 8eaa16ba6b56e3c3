-- ===== src/Outbounds/Rows.antt =====
-- The rows of outbounds by their tags, before and after a row is written.
use hy_panel.Base.{
  String, ◌≡◌, refl, ◌∙◌, sym, ap, Bool, true, false, not, ◌&&◌, Option, none, some, List, [], ◌∷◌,
  ◌++◌, ◌==◌, str_eq, eq_iff, if◌then◌else◌, any_of, first_of?, arith, Bool-cases, inl, inr,
}
use hy_panel.Database.{Outbound}
use hy_panel.Outbounds.{tag_is_free, upsert}

abbrev pub row_at : String → List Outbound → Option Outbound
row_at t rows = first_of? (λ r. str_eq r.tag t) rows

abbrev pub has_tag : String → List Outbound → Bool
has_tag t rows = any_of (λ r. str_eq r.tag t) rows

-- The column `tag` is unique.
abbrev pub tags_differ : List Outbound → Bool
tags_differ [] = true
tags_differ (r ∷ rs) = not (has_tag r.tag rs) && tags_differ rs

not_found : (t : String) (rows : List Outbound) → has_tag t rows ≡ false → row_at t rows ≡ none
not_found t [] h = refl
not_found t (r ∷ rs) h = ground (arith, not_found t rs)

found_has :
    (p q : Outbound → Bool) (r : Outbound) (rows : List Outbound)
    → first_of? p rows ≡ some r
    → any_of q rows ≡ false
    → q r ≡ false
found_has p q r [] e h = cc
found_has p q r (x ∷ xs) e h = elim (Bool-cases (p x)) [
  | inl k ↦
      let same : x ≡ r = ground arith in
      let away : q x ≡ false = ground arith in ap q (sym same) ∙ away
  | inr k ↦ found_has p q r xs (ground arith) (ground arith)
]

abbrev pub replaced : String → String → Option Outbound → Option Outbound → String → Option Outbound
replaced new_tag old_tag new before t =
    if str_eq new_tag t then new else if str_eq old_tag t then none else before

-- The rows by tag after the row of an id was written.
pub row_at-upsert :
    (o old : Outbound) (t : String) (rows : List Outbound)
    → tags_differ rows ≡ true
    → tag_is_free o rows ≡ true
    → first_of? (λ r. r.id == o.id) rows ≡ some old
    → row_at t (upsert o rows) ≡ replaced o.tag old.tag (some o) (row_at t rows) t
unfolding upsert tag_is_free
row_at-upsert o old t [] u free e = cc
row_at-upsert o old t (r ∷ rs) u free e = elim (Bool-cases (r.id == o.id)) [
  | inl k ↦
      let same : r ≡ old = ground arith in
      let gone : row_at r.tag rs ≡ none = not_found r.tag rs (ground arith) in
      let tags : str_eq old.tag t ≡ str_eq r.tag t =
        ap (λ (z : Outbound). str_eq z.tag t) (sym same) in
      elim (Bool-cases (str_eq r.tag t)) [
        | inl q ↦
            let one : r.tag ≡ t = (eq_iff r.tag t).0 q in
            let none_left : row_at t rs ≡ none = ap (λ z. row_at z rs) (sym one) ∙ gone in
            rw k (ground (arith, none_left, tags))
        | inr q ↦ rw k (ground (arith, tags))
      ]
  | inr k ↦
      let ih = row_at-upsert o old t rs (ground arith) (ground arith) (ground arith) in
      let apart : str_eq old.tag r.tag ≡ false =
        found_has (λ x. x.id == o.id) (λ x. str_eq x.tag r.tag) old rs (ground arith)
          (ground arith) in
      let free_here : str_eq r.tag o.tag ≡ false = ground arith in
      elim (Bool-cases (str_eq r.tag t)) [
        | inl q ↦
            let one : r.tag ≡ t = (eq_iff r.tag t).0 q in
            let not_new : str_eq o.tag t ≡ false =
              ap (str_eq o.tag) (sym one)
              ∙ ground (arith, eq_iff o.tag r.tag, eq_iff r.tag o.tag) in
            let not_old : str_eq old.tag t ≡ false = ap (str_eq old.tag) (sym one) ∙ apart in
            rw k (ground arith)
        | inr q ↦ rw k (ground (arith, ih))
      ]
]

-- The rows by tag after a row was added.
pub row_at-append :
    (new : Outbound) (t : String) (rows : List Outbound)
    → has_tag new.tag rows ≡ false
    → row_at t (rows ++ new ∷ []) ≡ (if str_eq new.tag t then some new else row_at t rows)
row_at-append new t [] h = refl
row_at-append new t (r ∷ rs) h =
    let ih = row_at-append new t rs (ground arith) in
    ground (arith, ih, eq_iff r.tag t, eq_iff new.tag t, eq_iff r.tag new.tag)
