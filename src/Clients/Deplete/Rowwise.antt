-- ===== src/Clients/Deplete/Rowwise.antt =====
-- What DepleteClients makes of one client, and of the table.
use hy_panel.Base.{
  ℕ, ◌+◌, ◌%◌, ◌≡◌, refl, ◌∙◌, ap, sym, true, false, List, [], ◌∷◌, ◌++◌, map, arith, keep_if,
  Bool-cases, inl, inr,
}
use mathlib.Core.List.{append-nil}
use hy_panel.Base.Int64.{word}
use hy_panel.Base.Outcome.{ok}
use hy_panel.Arrays.{MapOrder}
use hy_panel.Database.{Client, Tables}
use hy_panel.Database.Json.{Json}
use hy_panel.Database.Tx.{
  World, pure, ◌>>=◌, ◌>>◌, execute, set_last_update, unless_empty, >>=-ok, query->>=-ok, pure-ok,
}
use hy_panel.Database.Rows.{IsTable}
use hy_panel.Clients.Limits.{is_depleted}
use hy_panel.Clients.Reset.{create_changes, is_due, enabled_inbounds, reset_change}
use hy_panel.Clients.Reset.Rowwise.{reset_row, reset_clients-ok, started}
use hy_panel.Clients.Deplete.{
  deplete_change, disable_row, disable_depleted, depleted_inbounds, write_depleted, deplete_body,
}

-- The reset and then the disabling of one client.
unfoldable pub deplete_row : ℕ → Client → Client
unfolding reset_row disable_row
deplete_row dt c = disable_row dt (reset_row dt c)

disable_row_done : (dt : ℕ) (c : Client) → is_depleted dt (disable_row dt c) ≡ false
unfolding disable_row
disable_row_done dt c = elim (Bool-cases (is_depleted dt c)) [
  | inl e ↦ rw e (unfold is_depleted in refl)
  | inr e ↦ rw e e
]

-- No client that is enabled afterwards is over its quota or expired.
pub deplete_row_done : (dt : ℕ) (c : Client) → is_depleted dt (deplete_row dt c) ≡ false
unfolding deplete_row
deplete_row_done dt c = disable_row_done dt (reset_row dt c)

-- A client that is banned and disabled stays so: a reset does not let it in again.
pub deplete_row-banned :
    (dt : ℕ) (c : Client)
    → c.banned ≡ true
    → c.enable ≡ false
    → ((deplete_row dt c).enable ≡ false) × ((deplete_row dt c).banned ≡ true)
unfolding deplete_row
deplete_row-banned dt c b e = ground arith

-- A reset moves traffic to the totals and loses none, up to the wrap-around of 64 bits.
pub deplete_row-total :
    (dt : ℕ) (c : Client)
    → (((deplete_row dt c).total_up + (deplete_row dt c).up) % word ≡ (c.total_up + c.up) % word)
      × (((deplete_row dt c).total_down + (deplete_row dt c).down) % word
          ≡ (c.total_down + c.down) % word)
unfolding deplete_row
deplete_row-total dt c = ground arith

disable_none :
    (dt : ℕ) (rows : List Client)
    → keep_if (is_depleted dt) rows ≡ []
    → map (disable_row dt) rows ≡ rows
unfolding disable_row
disable_none dt [] e = refl
disable_none dt (c ∷ cs) e = ground (arith, disable_none dt cs)

log_depleted-ok :
    (dt : ℕ) (clients : List Client) (w w' : World)
    → (clients ≡ keep_if (is_depleted dt) w.tables.clients)
    → unless_empty clients
        (do
          execute (disable_depleted dt)
          execute (create_changes (map (deplete_change dt) clients))
          set_last_update dt)
        w
      ≡ (ok tt, w')
    → (w'.tables.clients ≡ map (disable_row dt) w.tables.clients)
      × (w'.tables.changes ≡ w.tables.changes ++ map (deplete_change dt) clients)
unfolding create_changes disable_depleted unless_empty pure ◌>>=◌ execute set_last_update
log_depleted-ok dt [] w w' h e =
    let (_, q) = pure-ok tt tt w w' e in
    (
      ap (λ (t : Tables). t.clients) q ∙ sym (disable_none dt w.tables.clients (sym h)),
      ap (λ (t : Tables). t.changes) q ∙ sym (append-nil w.tables.changes),
    )
log_depleted-ok dt (x ∷ xs) w w' h e = ground arith

write_depleted-ok :
    (json : Json) (order : MapOrder) (dt : ℕ) (ids ids' : List ℕ) (clients : List Client)
    (w w' : World)
    → (clients ≡ keep_if (is_depleted dt) w.tables.clients)
    → write_depleted json order dt ids clients w ≡ (ok ids', w')
    → (w'.tables.clients ≡ map (disable_row dt) w.tables.clients)
      × (w'.tables.changes ≡ w.tables.changes ++ map (deplete_change dt) clients)
      × (ids' ≡ depleted_inbounds json order clients ids)
unfolding write_depleted
write_depleted-ok json order dt ids ids' clients w w' h e =
    let (_, w₁, e₁, r₁) = >>=-ok _ _ w w' ids' e in
    let (c, l) = log_depleted-ok dt clients w w₁ h e₁ in
    let (q, t) = pure-ok _ ids' w₁ w' r₁ in
    (ap (λ (t : Tables). t.clients) t ∙ c, ap (λ (t : Tables). t.changes) t ∙ l, q)

map-disable_row :
    (dt : ℕ) (rows : List Client)
    → map (disable_row dt) (map (reset_row dt) rows) ≡ map (deplete_row dt) rows
unfolding deplete_row
map-disable_row dt [] = refl
map-disable_row dt (c ∷ cs) = ap (◌∷◌ (disable_row dt (reset_row dt c))) (map-disable_row dt cs)

-- The clients that a run disables: those that are depleted once they are reset.
abbrev pub disabled : ℕ → List Client → List Client
disabled dt rows = keep_if (is_depleted dt) (map (reset_row dt) rows)

-- The inbounds that a run returns.
unfoldable pub touched : Json → MapOrder → ℕ → List Client → List ℕ
touched json order dt rows =
    depleted_inbounds json order (disabled dt rows)
      (enabled_inbounds json order (keep_if (is_due dt) rows) [])

-- What the body of DepleteClients has done when it returns.
pub deplete_body-ok :
    (json : Json) (order : MapOrder) (dt : ℕ) (w w' : World) (ids : List ℕ)
    → IsTable w.tables.clients
    → deplete_body json order dt w ≡ (ok ids, w')
    → (w'.tables.clients ≡ map (deplete_row dt) w.tables.clients)
      × (w'.tables.changes
          ≡ (w.tables.changes ++ map (reset_change dt) (started w.tables.clients))
            ++ map (deplete_change dt) (disabled dt w.tables.clients))
      × (ids ≡ touched json order dt w.tables.clients)
unfolding deplete_body touched
deplete_body-ok json order dt w w' ids v e =
    let (i, w₁, e₁, r₁) = >>=-ok _ _ w w' ids e in
    let (c₁, l₁, q₁) = reset_clients-ok json order dt w w₁ i v e₁ in
    let (w₂, t₂, r₂) = query->>=-ok _ _ w₁ w' ids r₁ in
    let now : w₂.tables.clients ≡ map (reset_row dt) w.tables.clients =
      ap (λ (t : Tables). t.clients) t₂ ∙ c₁ in
    let same : keep_if (is_depleted dt) w₁.tables.clients
        ≡ keep_if (is_depleted dt) w₂.tables.clients =
      rw t₂ in
    let (c₂, l₂, q₂) = write_depleted-ok json order dt i ids _ w₂ w' same r₂ in
    (
      c₂ ∙ ap (map (disable_row dt)) now ∙ map-disable_row dt w.tables.clients,
      rw (t₂, l₁, c₁) at l₂,
      rw (c₁, q₁) at q₂,
    )
