-- ===== src/Outbounds/Synced.antt =====
-- What Save of service/outbounds.go does with the core.
use hy_panel.Base.{
  ℕ, String, ◌≡◌, refl, ◌∙◌, sym, ap, subst, Bool, true, false, Option, none, some, List, ◌==◌,
  str_eq, eq_iff, if◌then◌else◌, first_of?, Bool-cases, inl, inr,
}
use hy_panel.Base.Assoc.{Assoc, lookup}
use hy_panel.Base.Outcome.{Outcome, ok, err, invalid, not_running, core_error}
use hy_panel.Core.{Core}
use hy_panel.Core.Managed.{Manager, add_outbound, remove_outbound, with_outbounds}
use hy_panel.Database.{Outbound}
use hy_panel.Database.Tx.{World, pure, lift, call_core, >>=-ok, query_untouched}
use hy_panel.Outbounds.{
  OutboundJson, marshal, put_live, take_down, take_down_old, tag_of_row, unless_invalid,
}

unheld :
    (tag t : String) (o : Option String)
    → (tag ≡ t → o ≡ none)
    → o ≡ (if str_eq tag t then none else o)
unheld tag t o h = elim (Bool-cases (str_eq tag t)) [
  | inl k ↦ rw k (h ((eq_iff tag t).0 k))
  | inr k ↦ rw k refl
]

unless_ok :
    (m : Manager) (tag t : String) (c c' : Core) (r : Outcome (Unit {0})) (held : Assoc String)
    → m.remove tag c.outbounds ≡ (r, held)
    → unless_invalid (with_outbounds (r, held) c) ≡ (ok tt, c')
    → (c'.is_running ≡ c.is_running)
      × (lookup t c'.outbounds ≡ (if str_eq tag t then none else lookup t c.outbounds))
unfolding unless_invalid with_outbounds
unless_ok m tag t c c' (ok u) held e f =
    let q : record c { outbounds = held } ≡ c' = ap (λ z. z.1) f in
    (
      ap (λ (z : Core). z.is_running) (sym q),
      ap (λ (z : Core). lookup t z.outbounds) (sym q) ∙ m.lookup-remove tag t c.outbounds held e,
    )
unless_ok m tag t c c' (err invalid) held e f =
    let q : record c { outbounds = held } ≡ c' = ap (λ z. z.1) f in
    let (absent, same) = m.remove-invalid tag c.outbounds held e in
    (
      ap (λ (z : Core). z.is_running) (sym q),
      ap (λ (z : Core). lookup t z.outbounds) (sym q)
          ∙ (ap (lookup t) same
              ∙ unheld tag t (lookup t c.outbounds)
                  (λ k. ap (λ z. lookup z c.outbounds) (sym k) ∙ absent)),
    )
unless_ok m tag t c c' (err e₁) held e f = cc f

-- What a step on the core leaves.
pub record Taken (tag : String) (w w' : World) : Type 0 where
  pub tables : w'.tables ≡ w.tables
  pub running : w'.core.is_running ≡ true
  pub held :
      (t : String)
      → lookup t w'.core.outbounds ≡ (if str_eq tag t then none else lookup t w.core.outbounds)

if_true : {A : Type 0} (b : Bool) (x y : A) → b ≡ true → (if b then x else y) ≡ x
if_true b x y h = rw h refl

call_core-ok :
    (f : Core → Outcome (Unit {0}) × Core) (w w' : World)
    → call_core f w ≡ (ok tt, w')
    → (f w.core ≡ (ok tt, w'.core)) × (w'.tables ≡ w.tables)
unfolding call_core
call_core-ok f w w' e =
    let p : (f w.core).0 ≡ ok tt = ap (λ z. z.0) e in
    let q : (f w.core).1 ≡ w'.core = ap (λ (z : Outcome (Unit {0}) × World). z.1.core) e in
    (cc (p, q), ap (λ (z : Outcome (Unit {0}) × World). z.1.tables) (sym e))

pub take_down-Taken :
    (m : Manager) (tag : String) (w w' : World)
    → w.core.is_running ≡ true
    → take_down m tag w ≡ (ok tt, w')
    → Taken tag w w'
unfolding take_down remove_outbound
take_down-Taken m tag w w' run e =
    let (f, t) = call_core-ok _ w w' e in
    let live =
      if_true w.core.is_running (with_outbounds (m.remove tag w.core.outbounds) w.core)
        (err not_running, w.core) run in
    let g = ap unless_invalid (sym live) ∙ f in
    let done = λ (s : String).
      unless_ok m tag s w.core w'.core (m.remove tag w.core.outbounds).0
        (m.remove tag w.core.outbounds).1 refl g in
    record { tables = t; running = (done "").0 ∙ run; held = λ s. (done s).1 }

record Added (m : Manager) (config : String) (w w' : World) : Type 0 where
  tag : String
  reads : m.read_tag config ≡ some tag
  tables : w'.tables ≡ w.tables
  held :
      (t : String)
      → lookup t w'.core.outbounds
        ≡ (if str_eq tag t then some config else lookup t w.core.outbounds)

created :
    (m : Manager) (config tag : String) (w w' : World)
    → m.read_tag config ≡ some tag
    → w'.tables ≡ w.tables
    → with_outbounds (m.create tag config w.core.outbounds) w.core ≡ (ok tt, w'.core)
    → Added m config w w'
unfolding with_outbounds
created m config tag w w' reads t e =
    let p : (m.create tag config w.core.outbounds).0 ≡ ok tt = ap (λ z. z.0) e in
    let q : (m.create tag config w.core.outbounds).1 ≡ w'.core.outbounds =
      ap (λ (z : Outcome (Unit {0}) × Core). z.1.outbounds) e in
    record {
      tag = tag;
      reads = reads;
      tables = t;
      held = λ s. m.lookup-create tag config s w.core.outbounds w'.core.outbounds (cc (p, q));
    }

add_outbound-Added :
    (m : Manager) (config : String) (w w' : World)
    → w.core.is_running ≡ true
    → call_core (add_outbound m config) w ≡ (ok tt, w')
    → Added m config w w'
unfolding add_outbound
add_outbound-Added m config w w' run e =
    let (f, t) = call_core-ok _ w w' e in
    let g = sym (if_true w.core.is_running _ (err not_running, w.core) run) ∙ f in
    go (m.read_tag config) refl g t
  where
    go :
        (o : Option String)
        → m.read_tag config ≡ o
        → elim o as (λ x. Outcome (Unit {0}) × Core) [
          | none ↦ (err core_error, w.core)
          | some tag ↦ with_outbounds (m.create tag config w.core.outbounds) w.core
        ]
          ≡ (ok tt, w'.core)
        → w'.tables ≡ w.tables
        → Added m config w w'
    go none q g t = cc (ap (λ z. z.0) g)
    go (some tag) q g t = created m config tag w w' q t g

-- The core after `put_live`: the config of the row, without the tags that are `gone`.
pub record Put (m : Manager) (j : OutboundJson) (o : Outbound) (gone : String → Bool) (w w' : World)
    : Type 0 where
  pub config : String
  pub tag : String
  pub shown : marshal j o ≡ ok config
  pub reads : m.read_tag config ≡ some tag
  pub tables : w'.tables ≡ w.tables
  pub held :
      (t : String)
      → lookup t w'.core.outbounds
        ≡ (if str_eq tag t then some config else if gone t then none else lookup t w.core.outbounds)

pub lift-is :
    {A : Type 0} (r : Outcome A) (w w' : World) (a : A)
    → lift r w ≡ (ok a, w')
    → (r ≡ ok a) × (w ≡ w')
unfolding lift
lift-is r w w' a e = (ap (λ z. z.0) e, ap (λ z. z.1) e)

tag_of_found :
    (id : ℕ) (old : Outbound) (rows : List Outbound)
    → first_of? (λ r. r.id == id) rows ≡ some old
    → tag_of_row id rows ≡ old.tag
unfolding tag_of_row
tag_of_found id old rows e = rw (e, tag_of_row) refl

pub put_live-new :
    (m : Manager) (j : OutboundJson) (o : Outbound) (w w' : World)
    → w.core.is_running ≡ true
    → put_live m j true false o w ≡ (ok tt, w')
    → Put m j o (λ t. false) w w'
unfolding put_live take_down_old
put_live-new m j o w w' run e =
    let (config, w₁, f₁, e₁) = >>=-ok _ _ w w' tt e in
    let (shown, s₁) = lift-is _ w w₁ config f₁ in
    let (u, w₂, f₂, e₂) = >>=-ok _ _ w₁ w' tt e₁ in
    let s₂ : w₁ ≡ w₂ = unfold pure in ap (λ (z : Outcome (Unit {0}) × World). z.1) f₂ in
    let same : w ≡ w₂ = s₁ ∙ s₂ in
    let a =
      add_outbound-Added m config w₂ w' (ap (λ (z : World). z.core.is_running) (sym same) ∙ run)
        e₂ in
    record {
      config = config;
      tag = a.tag;
      shown = shown;
      reads = a.reads;
      tables = a.tables ∙ ap (λ (z : World). z.tables) (sym same);
      held = λ t.
          a.held t
          ∙ ap (λ (z : World). if str_eq a.tag t then some config else lookup t z.core.outbounds)
              (sym same);
    }

pub put_live-edit :
    (m : Manager) (j : OutboundJson) (o old : Outbound) (w w' : World)
    → w.core.is_running ≡ true
    → first_of? (λ r. r.id == o.id) w.tables.outbounds ≡ some old
    → put_live m j true true o w ≡ (ok tt, w')
    → Put m j o (str_eq old.tag) w w'
unfolding put_live take_down_old tag_of_row
put_live-edit m j o old w w' run there e =
    let (config, w₁, f₁, e₁) = >>=-ok _ _ w w' tt e in
    let (shown, s₁) = lift-is _ w w₁ config f₁ in
    let (u, w₂, f₂, e₂) = >>=-ok _ _ w₁ w' tt e₁ in
    let (w₃, t₃, c₃, e₃) = query_untouched _ _ w₁ w₂ tt f₂ in
    let tables₃ : w₃.tables ≡ w.tables = t₃ ∙ ap (λ (z : World). z.tables) (sym s₁) in
    let core₃ : w₃.core ≡ w.core = c₃ ∙ ap (λ (z : World). z.core) (sym s₁) in
    let old_tag : tag_of_row o.id w₁.tables.outbounds ≡ old.tag =
      ap (λ (z : World). tag_of_row o.id z.tables.outbounds) (sym s₁)
      ∙ tag_of_found o.id old w.tables.outbounds there in
    let taken =
      take_down-Taken m old.tag w₃ w₂ (ap (λ (z : Core). z.is_running) core₃ ∙ run)
        (subst (λ z. take_down m z w₃ ≡ (ok tt, w₂)) old_tag e₃) in
    let a = add_outbound-Added m config w₂ w' taken.running e₂ in
    record {
      config = config;
      tag = a.tag;
      shown = shown;
      reads = a.reads;
      tables = a.tables ∙ taken.tables ∙ tables₃;
      held = λ t.
          a.held t
          ∙ ap (λ z. if str_eq a.tag t then some config else z)
              (taken.held t
                ∙ ap (λ (z : Core). if str_eq old.tag t then none else lookup t z.outbounds) core₃);
    }
