-- ===== src/Examples/Depleting.antt =====
-- The job of a panel whose Hysteria2 inbound lets its two clients in; one of them is over its quota.
use hy_panel.Base.{
  ℕ, String, ◌≡◌, refl, sym, subst, Bool-cases, inl, inr, true, false, not, ◌&&◌, ==_iff, List, [],
  ◌∷◌, map, All, arith, str_eq, eq_iff, has, any_of,
}
use hy_panel.Base.Assoc.{lookup, is_some}
use hy_panel.Base.Outcome.{ok}
use hy_panel.Hysteria.{Service}
use hy_panel.Database.Tx.{World}
use hy_panel.Inbounds.{tag_of, hy2_ids}
use hy_panel.Inbounds.Users.{may_use, has_password}
use hy_panel.Inbounds.Apply.{AllLive, live_ids}
use hy_panel.Clients.Limits.{is_depleted}
use hy_panel.Clients.Deplete.Rowwise.{deplete_row}
use hy_panel.Clients.Ban.Evicted.{Admits}
use hy_panel.Jobs.{deplete_job}
use hy_panel.Inbounds.Types.{has-hy2_ids, has-keep_if}
use hy_panel.Jobs.Depleted.{deplete_job-Admits}
use hy_panel.Examples.Panel.{
  world, json, order, clients, restart, restart-RestartKeeps, world-UniqueTags, clients-IsTable,
}

abbrev serving : Service
serving = record { user_map = ("a", "anna") ∷ ("b", "ben") ∷ []; sessions = [] }

abbrev panel : World
panel = record world { core = record world.core { hysteria2 = ("hy2", serving) ∷ [] } }

panel-AllLive : (ids : List ℕ) → AllLive panel (live_ids ids panel.tables.inbounds)
unfolding tag_of lookup
panel-AllLive ids i h =
    let one : i ≡ 1 = ground (
      arith,
      has-keep_if (λ n. has n (hy2_ids ids panel.tables.inbounds)) i ids,
      has-hy2_ids i ids panel.tables.inbounds,
      ==_iff 1 i,
    ) in
    rw one (record { has_tag = refl; service = serving; runs = refl })

known :
    (pw : String)
    → is_some (lookup pw serving.user_map)
      ≡ (not (str_eq pw "") && any_of (may_use json 1 pw) clients)
unfolding lookup may_use has_password
known pw = elim (Bool-cases (str_eq pw "")) [
  | inl e ↦
      subst
        (λ p.
          is_some (lookup p serving.user_map)
          ≡ (not (str_eq p "") && any_of (may_use json 1 p) clients))
        (sym ((eq_iff pw "").0 e)) refl
  | inr e ↦ ground (arith, e)
]

panel-Admits : Admits json panel 1 "hy2" clients
unfolding lookup
panel-Admits = (serving, refl, tt, known)

deplete_job-Admits_example :
    let w = (deplete_job json restart (ok true) order 10 panel).1 in
    (w.tables.clients ≡ map (deplete_row 10) clients)
    × All (λ c. is_depleted 10 c ≡ false) w.tables.clients
    × Admits json w 1 "hy2" w.tables.clients
unfolding tag_of
deplete_job-Admits_example =
    deplete_job-Admits json restart order 10 1 panel restart-RestartKeeps
      (record { faultless = refl; running = refl }) world-UniqueTags clients-IsTable
      (refl, (refl, tt)) (panel-AllLive _) ((λ h. cc h), tt) refl refl panel-Admits
