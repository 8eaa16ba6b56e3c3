-- ===== src/Outbounds/Deleted.antt =====
-- The core holds the configs of the rows of outbounds, after one was deleted.
use hy_panel.Base.{
  String, ◌≡◌, refl, ◌∙◌, sym, ap, subst, Bool, true, false, not, Option, none, List, [], ◌∷◌,
  str_eq, eq_iff, if◌then◌else◌, keep_if, arith,
}
use hy_panel.Base.Assoc.{lookup}
use hy_panel.Base.Outcome.{ok}
use hy_panel.Core.{Core}
use hy_panel.Core.Managed.{Manager}
use hy_panel.Database.{Outbound, Tables}
use hy_panel.Database.Tx.{World, execute, >>=-ok}
use hy_panel.Outbounds.{OutboundJson, delete, drop_rows, take_down, take_down_live}
use hy_panel.Outbounds.Rows.{row_at}
use hy_panel.Outbounds.Synced.{lift-is, take_down-Taken}
use hy_panel.Outbounds.Saved.{Agrees, live_of, config_of, read_core-is}

row_at-drop :
    (tag t : String) (rows : List Outbound)
    → row_at t (keep_if (λ r. not (str_eq r.tag tag)) rows)
      ≡ (if str_eq tag t then none else row_at t rows)
row_at-drop tag t [] = ground arith
row_at-drop tag t (r ∷ rs) =
    ground (arith, row_at-drop tag t rs, eq_iff r.tag tag, eq_iff tag t, eq_iff r.tag t)

execute-is :
    (f : Tables → Tables) (w w' : World)
    → execute f w ≡ (ok tt, w')
    → (w'.tables ≡ f w.tables) × (w'.core ≡ w.core)
unfolding execute
execute-is f w w' e = ground arith

both_gone :
    (j : OutboundJson) (gone : Bool) (x : Option String) (y : Option Outbound)
    → live_of x ≡ config_of j y
    → live_of (if gone then none else x) ≡ config_of j (if gone then none else y)
both_gone j true x y h = refl
both_gone j false x y h = h

dropped :
    (m : Manager) (j : OutboundJson) (tag : String) (w w₁ w₂ w' : World)
    → w.core.is_running ≡ true
    → Agrees j w
    → w₁ ≡ w
    → take_down m tag w₁ ≡ (ok tt, w₂)
    → execute (drop_rows tag) w₂ ≡ (ok tt, w')
    → Agrees j w'
unfolding drop_rows
dropped m j tag w w₁ w₂ w' run agrees same f g =
    let taken =
      take_down-Taken m tag w w₂ run (subst (λ z. take_down m tag z ≡ (ok tt, w₂)) same f) in
    let (t, c) = execute-is (drop_rows tag) w₂ w' g in
    let rows : w'.tables.outbounds ≡ keep_if (λ r. not (str_eq r.tag tag)) w.tables.outbounds =
      ap (λ (z : Tables). z.outbounds) t
      ∙ ap (λ (z : Tables). keep_if (λ r. not (str_eq r.tag tag)) z.outbounds) taken.tables in
    record {
      live = λ s.
          ap (λ (z : Core). live_of (lookup s z.outbounds)) c
          ∙ ap live_of (taken.held s)
          ∙ both_gone j (str_eq tag s) _ _ (agrees.live s)
          ∙ ap (config_of j) (sym (row_at-drop tag s w.tables.outbounds))
          ∙ ap (λ z. config_of j (row_at s z)) (sym rows);
    }

-- While the core runs, deleting an outbound that returns nil keeps the core and the rows in
-- agreement: for every tag, the core holds the config of the row with that tag, and nothing without
-- one. Conditions: they agreed before, and the core runs.
pub delete-Agrees :
    (m : Manager) (j : OutboundJson) (data_text : String) (w w' : World)
    → w.core.is_running ≡ true
    → Agrees j w
    → delete m j data_text w ≡ (ok tt, w')
    → Agrees j w'
unfolding delete take_down_live
delete-Agrees m j data_text w w' run agrees e =
    let (tag, w₁, f₁, e₁) = >>=-ok _ _ w w' tt e in
    let (q₁, s₁) = lift-is _ w w₁ tag f₁ in
    let (b, w₂, f₂, e₂) = >>=-ok _ _ w₁ w' tt e₁ in
    let (q₂, s₂) = read_core-is w₁ w₂ b f₂ in
    let (u, w₃, f₃, e₃) = >>=-ok _ _ w₂ w' tt e₂ in
    let up : b ≡ true = q₂ ∙ ap (λ (z : World). z.core.is_running) (sym s₁) ∙ run in
    dropped m j tag w w₂ w₃ w' run agrees (sym (s₁ ∙ s₂))
      (subst (λ z. take_down_live m z tag w₂ ≡ (ok tt, w₃)) up f₃) e₃
