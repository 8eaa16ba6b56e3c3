-- ===== src/Outbounds/Saved.antt =====
-- The core holds the configs of the rows of outbounds, before and after they are saved.
use hy_panel.Base.{
  ℕ, String, ◌≡◌, refl, ◌∙◌, sym, ap, subst, Bool, true, false, not, ◌&&◌, Option, none, some, List,
  [], ◌∷◌, ◌++◌, ◌==◌, str_eq, ==_iff, if◌then◌else◌, first_of?, arith,
}
use hy_panel.Base.Assoc.{lookup}
use hy_panel.Base.Outcome.{Outcome, ok, err}
use hy_panel.Core.{Core}
use hy_panel.Core.Managed.{Manager}
use hy_panel.Database.{Outbound, Tables}
use hy_panel.Database.Tx.{World, read_core, execute_if, >>=-ok}
use hy_panel.Outbounds.{
  OutboundJson, unmarshal, marshal, put, put_live, save_row, write_outbound, tag_is_free, upsert,
}
use hy_panel.Outbounds.Rows.{row_at, has_tag, tags_differ, row_at-upsert, row_at-append}
use hy_panel.Outbounds.Synced.{lift-is, put_live-new, put_live-edit}

abbrev pub live_of : Option String → Option (Outcome String)
live_of none = none
live_of (some config) = some (ok config)

abbrev pub config_of : OutboundJson → Option Outbound → Option (Outcome String)
config_of j none = none
config_of j (some o) = some (marshal j o)

-- For every tag, the core holds the config of the row with this tag, or there is none of either.
pub record Agrees (j : OutboundJson) (w : World) : Type 0 where
  pub live :
      (t : String) → live_of (lookup t w.core.outbounds) ≡ config_of j (row_at t w.tables.outbounds)

save_row-ok :
    (o : Outbound) (w w' : World)
    → save_row o w ≡ (ok tt, w')
    → (tag_is_free o w.tables.outbounds ≡ true)
      × (w'.tables ≡ write_outbound o w.tables)
      × (w'.core ≡ w.core)
unfolding save_row execute_if
save_row-ok o w w' e = ground arith

abbrev bool_of : Outcome Bool → Bool
bool_of (ok b) = b
bool_of (err e) = false

pub read_core-is :
    (w w' : World) (b : Bool)
    → read_core (λ c. c.is_running) w ≡ (ok b, w')
    → (b ≡ w.core.is_running) × (w ≡ w')
unfolding read_core
read_core-is w w' b e = (ap bool_of (ap (λ z. z.0) (sym e)), ap (λ z. z.1) e)

one_ok : {A : Type 0} (r : Outcome A) (a b : A) → r ≡ ok a → r ≡ ok b → a ≡ b
one_ok (ok x) a b e f = ground arith
one_ok (err x) a b e f = cc

written :
    (o : Outbound) (t : Tables)
    → (o.id == 0) ≡ false
    → (write_outbound o t).outbounds ≡ upsert o t.outbounds
unfolding write_outbound
written o t h = rw h refl

appended :
    (o : Outbound) (t : Tables)
    → o.id ≡ 0
    → (write_outbound o t).outbounds ≡ t.outbounds ++ record o { id = t.next_outbound_id } ∷ []
unfolding write_outbound
appended o t h = let k : (o.id == 0) ≡ true = (==_iff o.id 0).1 h in rw k refl

-- No row has the id 0.
abbrev pub all_numbered : List Outbound → Bool
all_numbered [] = true
all_numbered (r ∷ rs) = not (r.id == 0) && all_numbered rs

free_tag :
    (o : Outbound) (rows : List Outbound)
    → o.id ≡ 0
    → all_numbered rows ≡ true
    → tag_is_free o rows ≡ true
    → has_tag o.tag rows ≡ false
unfolding tag_is_free
free_tag o [] z n h = refl
free_tag o (r ∷ rs) z n h =
    let ih = free_tag o rs z (ground arith) (ground arith) in ground (arith, ih)

marshal_numbered :
    (j : OutboundJson) (o : Outbound) (n : ℕ) → marshal j (record o { id = n }) ≡ marshal j o
unfolding marshal
marshal_numbered j o n = refl

-- The lookups of both sides, of which one tag was replaced and another one taken away.
both :
    (j : OutboundJson) (new gone : Bool) (config : String) (o : Outbound) (x : Option String)
    (y : Option Outbound)
    → marshal j o ≡ ok config
    → live_of x ≡ config_of j y
    → live_of (if new then some config else if gone then none else x)
      ≡ config_of j (if new then some o else if gone then none else y)
both j true gone config o x y h k = ap some (sym h)
both j false true config o x y h k = refl
both j false false config o x y h k = k

-- A put that returns nil, step by step.
put-ok :
    (m : Manager) (j : OutboundJson) (edit : Bool) (text : String) (o : Outbound) (w w' : World)
    → unmarshal j text ≡ ok o
    → w.core.is_running ≡ true
    → put m j edit text w ≡ (ok tt, w')
    → (w₁ : World) × (put_live m j true edit o w ≡ (ok tt, w₁))
      × (tag_is_free o w₁.tables.outbounds ≡ true)
      × (w'.tables ≡ write_outbound o w₁.tables)
      × (w'.core ≡ w₁.core)
unfolding put
put-ok m j edit text o w w' reads run e =
    let (o₁, w₁, f₁, e₁) = >>=-ok _ _ w w' tt e in
    let (q₁, s₁) = lift-is _ w w₁ o₁ f₁ in
    let (b, w₂, f₂, e₂) = >>=-ok _ _ w₁ w' tt e₁ in
    let (q₂, s₂) = read_core-is w₁ w₂ b f₂ in
    let (u, w₃, f₃, e₃) = >>=-ok _ _ w₂ w' tt e₂ in
    let (free, t₄, c₄) = save_row-ok o₁ w₃ w' e₃ in
    let same : o₁ ≡ o = one_ok (unmarshal j text) o₁ o q₁ reads in
    let back : w₂ ≡ w = sym (s₁ ∙ s₂) in
    let up : b ≡ true = q₂ ∙ ap (λ (z : World). z.core.is_running) (sym s₁) ∙ run in
    let put_o = subst (λ z. put_live m j z edit o₁ w₂ ≡ (ok tt, w₃)) up f₃ in
    let put_w = subst (λ z. put_live m j true edit z w₂ ≡ (ok tt, w₃)) same put_o in
    (
      w₃,
      subst (λ z. put_live m j true edit o z ≡ (ok tt, w₃)) back put_w,
      ap (λ z. tag_is_free z w₃.tables.outbounds) (sym same) ∙ free,
      t₄ ∙ ap (λ z. write_outbound z w₃.tables) same,
      c₄,
    )

-- While the core runs, the live outbounds are a refinement of the rows: if for every tag the core
-- holds the config of the row with that tag and nothing without one, this is so again after an edit
-- of an outbound that returns nil. Conditions: the tags of the rows differ, the id is not 0 and is
-- that of a row, and sing-box reads from the config of the outbound the tag that was written into
-- it.
pub put_edit-Agrees :
    (m : Manager) (j : OutboundJson) (text : String) (o old : Outbound) (w w' : World)
    → unmarshal j text ≡ ok o
    → ((config tag : String) → marshal j o ≡ ok config → m.read_tag config ≡ some tag → tag ≡ o.tag)
    → w.core.is_running ≡ true
    → tags_differ w.tables.outbounds ≡ true
    → (o.id == 0) ≡ false
    → first_of? (λ r. r.id == o.id) w.tables.outbounds ≡ some old
    → Agrees j w
    → put m j true text w ≡ (ok tt, w')
    → Agrees j w'
put_edit-Agrees m j text o old w w' reads tags run unique nonzero there agrees e =
    let (w₁, f, free, t, c) = put-ok m j true text o w w' reads run e in
    let p = put_live-edit m j o old w w₁ run there f in
    let own : p.tag ≡ o.tag = tags p.config p.tag p.shown p.reads in
    let rows : w'.tables.outbounds ≡ upsert o w.tables.outbounds =
      ap (λ (z : Tables). z.outbounds) t
      ∙ (written o w₁.tables nonzero ∙ ap (λ (z : Tables). upsert o z.outbounds) p.tables) in
    let free_here : tag_is_free o w.tables.outbounds ≡ true =
      ap (λ (z : Tables). tag_is_free o z.outbounds) (sym p.tables) ∙ free in
    record {
      live = λ s.
          ap (λ (z : Core). live_of (lookup s z.outbounds)) c
          ∙ ap live_of (p.held s)
          ∙ ap
              (λ z. live_of (
                if str_eq z s
                then some p.config
                else if str_eq old.tag s
                then none
                else lookup s w.core.outbounds))
              own
          ∙ both j (str_eq o.tag s) (str_eq old.tag s) p.config o _ _ p.shown (agrees.live s)
          ∙ ap (config_of j) (sym (row_at-upsert o old s w.tables.outbounds unique free_here there))
          ∙ ap (λ z. config_of j (row_at s z)) (sym rows);
    }

-- While the core runs, adding an outbound that returns nil keeps the core and the rows in
-- agreement: for every tag, the core holds the config of the row with that tag, and nothing without
-- one. Conditions: the outbound has no id yet, no row has the id 0, and sing-box reads from its
-- config the tag that was written into it.
pub put_new-Agrees :
    (m : Manager) (j : OutboundJson) (text : String) (o : Outbound) (w w' : World)
    → unmarshal j text ≡ ok o
    → ((config tag : String) → marshal j o ≡ ok config → m.read_tag config ≡ some tag → tag ≡ o.tag)
    → w.core.is_running ≡ true
    → o.id ≡ 0
    → all_numbered w.tables.outbounds ≡ true
    → Agrees j w
    → put m j false text w ≡ (ok tt, w')
    → Agrees j w'
put_new-Agrees m j text o w w' reads tags run zero_id numbered agrees e =
    let (w₁, f, free, t, c) = put-ok m j false text o w w' reads run e in
    let p = put_live-new m j o w w₁ run f in
    let own : p.tag ≡ o.tag = tags p.config p.tag p.shown p.reads in
    let rows : w'.tables.outbounds
        ≡ w.tables.outbounds ++ record o { id = w.tables.next_outbound_id } ∷ [] =
      ap (λ (z : Tables). z.outbounds) t
      ∙ (appended o w₁.tables zero_id
          ∙ ap (λ (z : Tables). z.outbounds ++ record o { id = z.next_outbound_id } ∷ [])
              p.tables) in
    let free_here : has_tag o.tag w.tables.outbounds ≡ false =
      free_tag o w.tables.outbounds zero_id numbered
        (ap (λ (z : Tables). tag_is_free o z.outbounds) (sym p.tables) ∙ free) in
    let new : Outbound = record o { id = w.tables.next_outbound_id } in
    record {
      live = λ s.
          ap (λ (z : Core). live_of (lookup s z.outbounds)) c
          ∙ ap live_of (p.held s)
          ∙ ap (λ z. live_of (if str_eq z s then some p.config else lookup s w.core.outbounds)) own
          ∙ both j (str_eq o.tag s) false p.config new _ _
              (marshal_numbered j o w.tables.next_outbound_id ∙ p.shown) (agrees.live s)
          ∙ ap (config_of j) (sym (row_at-append new s w.tables.outbounds free_here))
          ∙ ap (λ z. config_of j (row_at s z)) (sym rows);
    }
