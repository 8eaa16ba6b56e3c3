-- ===== src/Clients/Deplete/Beside.antt =====
-- What DepleteClients leaves alone: the core and the inbounds.
use hy_panel.Base.{ℕ, refl, List}
use hy_panel.Arrays.{MapOrder}
use hy_panel.Database.{Client, Changes}
use hy_panel.Database.Json.{Json}
use hy_panel.Database.Rows.{save_clients, inbounds-save_clients}
use hy_panel.Database.Tx.{execute}
use hy_panel.Database.Tx.Beside.{
  Beside, Beside-execute, Beside-transaction, Beside-bind, Beside-query, beside_rules,
}
use hy_panel.Clients.Reset.{create_changes, write_resets, reset_clients}
use hy_panel.Clients.Deplete.{disable_depleted, write_depleted, deplete_body, deplete_clients}

save_clients-Beside : (cs : List Client) → Beside (execute (save_clients cs))
save_clients-Beside cs = Beside-execute (save_clients cs) (inbounds-save_clients cs)

create_changes-Beside : (rows : List Changes) → Beside (execute (create_changes rows))
create_changes-Beside rows =
    Beside-execute (create_changes rows) (unfold create_changes in λ t. refl)

disable_depleted-Beside : (dt : ℕ) → Beside (execute (disable_depleted dt))
disable_depleted-Beside dt =
    Beside-execute (disable_depleted dt) (unfold disable_depleted in λ t. refl)

reset_clients-Beside :
    (json : Json) (order : MapOrder) (dt : ℕ) → Beside (reset_clients json order dt)
unfolding reset_clients write_resets
reset_clients-Beside json order dt =
    search (beside_rules, save_clients-Beside, create_changes-Beside) depth 14

write_depleted-Beside :
    (json : Json) (order : MapOrder) (dt : ℕ) (ids : List ℕ) (clients : List Client)
    → Beside (write_depleted json order dt ids clients)
unfolding write_depleted
write_depleted-Beside json order dt ids clients =
    search (beside_rules, disable_depleted-Beside, create_changes-Beside) depth 14

pub deplete_clients-Beside :
    (json : Json) (order : MapOrder) (dt : ℕ) → Beside (deplete_clients json order dt)
unfolding deplete_clients deplete_body
deplete_clients-Beside json order dt = Beside-transaction _ (
    Beside-bind _ _ (reset_clients-Beside json order dt) λ ids.
      Beside-bind _ _ (Beside-query _) λ clients. write_depleted-Beside json order dt ids clients)
