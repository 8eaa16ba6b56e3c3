-- ===== src/Clients/Deplete/Outcomes.antt =====
-- How a run of DepleteClients may end.
use hy_panel.Base.{
  ℕ, ◌≡◌, ◌≢◌, ◌∙◌, ap, sym, subst, true, false, List, [], ◌∷◌, ◌++◌, map, has, All, ◌⊎◌, inl, inr,
}
use hy_panel.Base.Outcome.{Outcome, ok, err}
use hy_panel.Arrays.{MapOrder}
use hy_panel.Database.{Client, Tables}
use hy_panel.Database.Json.{Json}
use hy_panel.Database.Tx.{World, transaction, Ends, transaction-Ends}
use hy_panel.Database.Tx.Runs.{Runs, Runs-bind, Runs-query, run_rules, transaction-Runs}
use hy_panel.Database.Rows.{IsTable}
use hy_panel.Clients.Limits.{is_depleted}
use hy_panel.Clients.Reset.{reset_clients, write_resets, reset_change}
use hy_panel.Clients.Reset.Rowwise.{started}
use hy_panel.Clients.Deplete.{deplete_body, deplete_clients, write_depleted, deplete_change}
use hy_panel.Clients.Deplete.Rowwise.{
  deplete_row, deplete_body-ok, touched, disabled, deplete_row_done,
}
use hy_panel.Clients.Deplete.Coverage.{touched_covers}

-- What a run does to the table of clients, and what its ids cover.
pub record Done (json : Json) (dt : ℕ) (before after : List Client) (ids : List ℕ) : Type 0 where
  pub each : after ≡ map (deplete_row dt) before
  pub covers :
      (x : ℕ)
      → All
          (λ c.
            (deplete_row dt c).enable ≢ c.enable
            → has x (json.ids c.inbounds).0 ≡ true
            → has x ids ≡ true)
          before

-- An error leaves the tables as they were. A result comes with the changes made, or, where the commit
-- failed unnoticed, with the tables as they were.
abbrev pub Ended : Json → ℕ → World → Outcome (List ℕ) × World → Type 0
Ended json dt w (err e, u) = u.tables ≡ w.tables
Ended json dt w (ok ids, u) =
    Done json dt w.tables.clients u.tables.clients ids ⊎ (u.tables ≡ w.tables)

body-Done :
    (json : Json) (order : MapOrder) (dt : ℕ) (w w' : World) (ids : List ℕ)
    → IsTable w.tables.clients
    → deplete_body json order dt w ≡ (ok ids, w')
    → Done json dt w.tables.clients w'.tables.clients ids
body-Done json order dt w w' ids v e =
    let (c, l, q) = deplete_body-ok json order dt w w' ids v e in
    record { each = c; covers = λ x. rw q (touched_covers json order dt x w.tables.clients) }

-- Whichever statements fail, on a table whose ids are unique and not 0: DepleteClients returns an
-- error and leaves the tables as they were; or it returns ids, and either each client was reset and
-- disabled by itself and the ids hold every inbound of every client whose `enable` changed, or the
-- commit failed, unnoticed, and the tables are as they were.
pub deplete_clients-Ended :
    (json : Json) (order : MapOrder) (dt : ℕ) (w : World)
    → IsTable w.tables.clients
    → Ended json dt w (deplete_clients json order dt w)
unfolding deplete_clients
deplete_clients-Ended json order dt w v =
    go (transaction (deplete_body json order dt) w)
      (transaction-Ends (deplete_body json order dt) w)
  where
    go : (r : Outcome (List ℕ) × World) → Ends (deplete_body json order dt) w r → Ended json dt w r
    go (err e, u) h = h
    go (ok ids, u) (w', p, inl q) = inl (
        subst (λ (t : Tables). Done json dt w.tables.clients t.clients ids) (sym q)
          (body-Done json order dt w w' ids v p))
    go (ok ids, u) (w', p, inr q) = inr q

none_depleted :
    (dt : ℕ) (rows : List Client) → All (λ c. is_depleted dt c ≡ false) (map (deplete_row dt) rows)
none_depleted dt [] = tt
none_depleted dt (c ∷ cs) = (deplete_row_done dt c, none_depleted dt cs)

reset_clients-Runs : (json : Json) (order : MapOrder) (dt : ℕ) → Runs (reset_clients json order dt)
unfolding reset_clients write_resets
reset_clients-Runs json order dt = search run_rules depth 12

write_depleted-Runs :
    (json : Json) (order : MapOrder) (dt : ℕ) (ids : List ℕ) (clients : List Client)
    → Runs (write_depleted json order dt ids clients)
unfolding write_depleted
write_depleted-Runs json order dt ids clients = search run_rules depth 12

deplete_body-Runs : (json : Json) (order : MapOrder) (dt : ℕ) → Runs (deplete_body json order dt)
unfolding deplete_body
deplete_body-Runs json order dt =
    Runs-bind _ _ (reset_clients-Runs json order dt)
      λ ids. Runs-bind _ _ (Runs-query _) λ clients. write_depleted-Runs json order dt ids clients

-- Where no statement fails, on a table whose ids are unique and not 0, DepleteClients returns ids;
-- each client was reset and disabled by itself, a change is noted for each delayed start that is
-- over and then for each client that was disabled, and no client that is enabled is over its quota
-- or expired any more.
pub deplete_clients-returns :
    (json : Json) (order : MapOrder) (dt : ℕ) (w : World)
    → IsTable w.tables.clients
    → w.faults ≡ []
    → ((deplete_clients json order dt w).0 ≡ ok (touched json order dt w.tables.clients))
      × ((deplete_clients json order dt w).1.tables.clients ≡ map (deplete_row dt) w.tables.clients)
      × ((deplete_clients json order dt w).1.tables.changes
          ≡ (w.tables.changes ++ map (reset_change dt) (started w.tables.clients))
            ++ map (deplete_change dt) (disabled dt w.tables.clients))
      × All (λ c. is_depleted dt c ≡ false) (deplete_clients json order dt w).1.tables.clients
unfolding deplete_clients
deplete_clients-returns json order dt w v e =
    let (ids, w', p, r, t) =
      transaction-Runs (deplete_body json order dt) w (deplete_body-Runs json order dt) e in
    let (c, l, q) = deplete_body-ok json order dt w w' ids v p in
    let clients = ap (λ (u : Tables). u.clients) t ∙ c in
    (
      r ∙ ap ok q,
      clients,
      ap (λ (u : Tables). u.changes) t ∙ l,
      rw clients (none_depleted dt w.tables.clients),
    )
