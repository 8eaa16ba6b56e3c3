-- ===== src/Jobs.antt =====
-- cronjob/depleteJob.go: the job that resets and disables clients and brings the core up to date. What
-- it logs is left out.
pub mod Depleted
use hy_panel.Base.{ℕ, Bool, List}
use hy_panel.Base.Outcome.{Outcome, ok, err}
use hy_panel.Arrays.{MapOrder}
use hy_panel.Database.Json.{Json}
use hy_panel.Database.Tx.{World, Tx, attempt, unless_empty}
use hy_panel.Inbounds.{apply_user_changes}
use hy_panel.Clients.Deplete.{deplete_clients}

module _ (json : Json) (restart : List ℕ → Tx (Unit {0})) (live : Outcome Bool) where
  -- The second half of Run.
  unfoldable pub bring_up_to_date : Outcome (List ℕ) → Tx (Unit {0})
  bring_up_to_date (err e) w = (ok tt, w)
  bring_up_to_date (ok ids) w =
      attempt (unless_empty ids (apply_user_changes json restart live ids)) w

  -- Run of DepleteJob
  unfoldable pub deplete_job : MapOrder → ℕ → Tx (Unit {0})
  unfolding bring_up_to_date
  deplete_job order dt w = let (r, w') = deplete_clients json order dt w in bring_up_to_date r w'
