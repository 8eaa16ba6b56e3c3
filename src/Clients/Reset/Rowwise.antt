-- ===== src/Clients/Reset/Rowwise.antt =====
-- ResetClients changes each row of the table by itself.
use hy_panel.Base.{
  ℕ, ◌≡◌, refl, ◌∙◌, ap, sym, List, [], ◌∷◌, ◌++◌, map, arith, if◌then◌else◌, keep_if, fun_ext,
}
use mathlib.Core.List.{append-nil}
use hy_panel.Base.Outcome.{ok}
use hy_panel.Arrays.{MapOrder}
use hy_panel.Database.{Client, Changes, Tables}
use hy_panel.Database.Json.{Json}
use hy_panel.Database.Tx.{
  World, pure-ok, query->>=-ok, unless_empty->>-ok, pure, ◌>>=◌, ◌>>◌, execute, set_last_update,
  unless_empty, >>=-ok,
}
use hy_panel.Database.Rows.{IsTable, save_clients, clients-save_clients, map_identity}
use hy_panel.Clients.Reset.{
  starts_once, starts_periodic, is_due, start_once, start_periodic, renew, enabled_inbounds,
  reset_clients, write_resets, create_changes, reset_change,
}

-- What a reset at the time dt makes of one client.
unfoldable pub reset_row : ℕ → Client → Client
unfolding starts_once starts_periodic is_due start_once start_periodic renew
reset_row dt c =
    if starts_once c
    then start_once dt c
    else if starts_periodic c
    then start_periodic dt c
    else if is_due dt c
    then renew dt c
    else c

save_clients-append :
    (xs ys : List Client) (t : Tables)
    → save_clients (xs ++ ys) t ≡ save_clients ys (save_clients xs t)
unfolding save_clients
save_clients-append [] ys t = refl
save_clients-append (x ∷ xs) ys t = save_clients-append xs ys _

-- The rows that the three loops hand to Save.
abbrev pub changed_rows : ℕ → List Client → List Client
changed_rows dt rows =
    map (start_once dt) (keep_if starts_once rows)
    ++ map (start_periodic dt) (keep_if starts_periodic rows)
    ++ map (renew dt) (keep_if (is_due dt) rows)

-- The three selections are disjoint: in the end each row was changed by its own loop only.
staged_row :
    (dt : ℕ) (c : Client)
    → (if is_due dt c
        then renew dt c
        else if starts_periodic c
        then start_periodic dt c
        else if starts_once c
        then start_once dt c
        else c)
      ≡ reset_row dt c
unfolding reset_row
staged_row dt c = ground arith

id-start_once : (dt : ℕ) (x : Client) → (start_once dt x).id ≡ x.id
unfolding start_once
id-start_once dt x = refl

id-start_periodic : (dt : ℕ) (x : Client) → (start_periodic dt x).id ≡ x.id
unfolding start_periodic
id-start_periodic dt x = refl

id-renew : (dt : ℕ) (x : Client) → (renew dt x).id ≡ x.id
unfolding renew
id-renew dt x = refl

clients-changed_rows :
    (dt : ℕ) (t : Tables)
    → IsTable t.clients
    → (save_clients (changed_rows dt t.clients) t).clients ≡ map (reset_row dt) t.clients
clients-changed_rows dt t v =
    let rows = t.clients in
    let a = map (start_once dt) (keep_if starts_once rows) in
    let b = map (start_periodic dt) (keep_if starts_periodic rows) in
    let c = map (renew dt) (keep_if (is_due dt) rows) in
    let g₁ : Client → Client = λ x. if starts_once x then start_once dt x else x in
    let g₂ : Client → Client = λ x. if starts_periodic x then start_periodic dt x else g₁ x in
    let t₁ = save_clients a t in
    let t₂ = save_clients b t₁ in
    let e₁ : t₁.clients ≡ map g₁ rows =
      clients-save_clients (start_once dt) (λ x. x) starts_once (id-start_once dt) (λ x. refl) rows
        t v (sym (map_identity rows)) in
    let e₂ : t₂.clients ≡ map g₂ rows =
      clients-save_clients (start_periodic dt) g₁ starts_periodic (id-start_periodic dt)
        (λ x. ground (arith, id-start_once dt x)) rows t₁ v e₁ in
    ap (λ (u : Tables). u.clients)
      (save_clients-append (a ++ b) c t ∙ ap (save_clients c) (save_clients-append a b t))
    ∙ clients-save_clients (renew dt) g₂ (is_due dt) (id-renew dt)
        (λ x. ground (arith, id-start_once dt x, id-start_periodic dt x)) rows t₂ v e₂
    ∙ ap (λ (f : Client → Client). map f rows) (fun_ext (staged_row dt))

-- The names under which the resets are noted.
abbrev pub started : List Client → List Client
started rows = keep_if starts_once rows ++ keep_if starts_periodic rows

log_resets-ok :
    (dt : ℕ) (xs : List Client) (w w' : World)
    → unless_empty xs (do execute (create_changes (map (reset_change dt) xs)); set_last_update dt) w
      ≡ (ok tt, w')
    → w'.tables ≡ create_changes (map (reset_change dt) xs) w.tables
unfolding create_changes unless_empty pure ◌>>=◌ execute set_last_update
log_resets-ok dt [] w w' e = rw append-nil (ground arith)
log_resets-ok dt (x ∷ xs) w w' e = ground arith

save_clients-none :
    (dt : ℕ) (once periodic due : List Client) (t : Tables)
    → once ++ periodic ++ due ≡ []
    → save_clients
        (map (start_once dt) once ++ map (start_periodic dt) periodic ++ map (renew dt) due)
        t
      ≡ t
unfolding save_clients
save_clients-none dt [] [] [] t e = refl
save_clients-none dt [] [] (x ∷ xs) t e = cc
save_clients-none dt [] (x ∷ xs) due t e = cc
save_clients-none dt (x ∷ xs) periodic due t e = cc

write_resets-ok :
    (json : Json) (order : MapOrder) (dt : ℕ) (once periodic due : List Client) (w w' : World)
    (ids : List ℕ)
    → write_resets json order dt once periodic due w ≡ (ok ids, w')
    → (w'.tables
        ≡ create_changes (map (reset_change dt) (once ++ periodic)) (
            save_clients
              (map (start_once dt) once ++ map (start_periodic dt) periodic ++ map (renew dt) due)
              w.tables))
      × (ids ≡ enabled_inbounds json order due [])
unfolding write_resets
write_resets-ok json order dt once periodic due w w' ids e =
    let (w₁, t₁, r₁) =
      unless_empty->>-ok _ _ _ w w' ids (save_clients-none dt once periodic due w.tables) e in
    let (_, w₂, e₂, r₂) = >>=-ok _ _ w₁ w' ids r₁ in
    let t₂ = log_resets-ok dt (once ++ periodic) w₁ w₂ e₂ in
    let (q, t₃) = pure-ok _ ids w₂ w' r₂ in (t₃ ∙ t₂ ∙ ap (create_changes _) t₁, q)

changes-save_clients : (xs : List Client) (t : Tables) → (save_clients xs t).changes ≡ t.changes
unfolding save_clients
changes-save_clients [] t = refl
changes-save_clients (x ∷ xs) t = changes-save_clients xs _ ∙ ground arith

finish_reset :
    (json : Json) (order : MapOrder) (dt : ℕ) (t t₁ t₂ t₃ t' : Tables) (ids : List ℕ)
    → IsTable t.clients
    → t₁ ≡ t
    → t₂ ≡ t₁
    → t₃ ≡ t₂
    → t'
      ≡ create_changes
          (map
            (reset_change dt)
            (keep_if starts_once t.clients ++ keep_if starts_periodic t₁.clients))
          (save_clients
            (map (start_once dt) (keep_if starts_once t.clients)
              ++ map (start_periodic dt) (keep_if starts_periodic t₁.clients)
              ++ map (renew dt) (keep_if (is_due dt) t₂.clients))
            t₃)
    → ids ≡ enabled_inbounds json order (keep_if (is_due dt) t₂.clients) []
    → (t'.clients ≡ map (reset_row dt) t.clients)
      × (t'.changes ≡ t.changes ++ map (reset_change dt) (started t.clients))
      × (ids ≡ enabled_inbounds json order (keep_if (is_due dt) t.clients) [])
unfolding create_changes
finish_reset json order dt t t₁ t₂ t₃ t' ids v e₁ e₂ e₃ e q =
    let s₂ : t₂ ≡ t = e₂ ∙ e₁ in
    let s₃ : t₃ ≡ t = e₃ ∙ s₂ in
    let e' = rw (e₁, s₂, s₃) at e in
    (
      ap (λ (u : Tables). u.clients) e' ∙ clients-changed_rows dt t v,
      ap (λ (u : Tables). u.changes) e'
          ∙ ap (λ (l : List Changes). l ++ map (reset_change dt) (started t.clients))
              (changes-save_clients (changed_rows dt t.clients) t),
      rw s₂ at q,
    )

-- What a run of ResetClients that returns has done: each row of the table is changed by itself, a
-- change is noted for each client whose delayed start is over, and the inbounds are returned of the
-- clients that are due and were disabled without a ban.
pub reset_clients-ok :
    (json : Json) (order : MapOrder) (dt : ℕ) (w w' : World) (ids : List ℕ)
    → IsTable w.tables.clients
    → reset_clients json order dt w ≡ (ok ids, w')
    → (w'.tables.clients ≡ map (reset_row dt) w.tables.clients)
      × (w'.tables.changes ≡ w.tables.changes ++ map (reset_change dt) (started w.tables.clients))
      × (ids ≡ enabled_inbounds json order (keep_if (is_due dt) w.tables.clients) [])
unfolding reset_clients
reset_clients-ok json order dt w w' ids v e =
    let (w₁, t₁, r₁) = query->>=-ok _ _ w w' ids e in
    let (w₂, t₂, r₂) = query->>=-ok _ _ w₁ w' ids r₁ in
    let (w₃, t₃, r₃) = query->>=-ok _ _ w₂ w' ids r₂ in
    let (t₄, q) = write_resets-ok json order dt _ _ _ w₃ w' ids r₃ in
    finish_reset json order dt w.tables w₁.tables w₂.tables w₃.tables w'.tables ids v t₁ t₂ t₃ t₄ q
