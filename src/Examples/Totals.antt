-- ===== src/Examples/Totals.antt =====
-- SaveStats in a panel with two clients, of whom one has traffic.
use hy_panel.Base.{◌≡◌, refl, true, false, List, [], ◌∷◌, map, All, arith}
use hy_panel.Base.Outcome.{ok, err, database_error}
use hy_panel.Tracker.Stats.{Stats, user, get_stats}
use hy_panel.Database.Tx.{finish, execute}
use hy_panel.Stats.{Panel, save_stats, no_onlines}
use hy_panel.Base.Assoc.{lookup}
use hy_panel.Tracker.Stats.Drain.{pending}
use hy_panel.Stats.Credit.{IsSound, IsSettled, Fits, settle, save_stats-settle, save_stats-err}
use hy_panel.Examples.Traffic.{one_user, one_user-Inv}
use hy_panel.Examples.Panel.{world}

abbrev panel : Panel
panel = record { world = world; tracker = one_user; onlines = no_onlines }

abbrev failing : Panel
failing = record panel { world = record world { faults = true ∷ [] } }

one_user-IsSound : IsSound one_user
one_user-IsSound = record { inv = one_user-Inv; small = λ a. ground arith }

panel-Fits : All (Fits one_user) world.tables.clients
unfolding pending lookup
panel-Fits = ((ground arith, ground arith), ((ground arith, ground arith), tt))

save_stats-settle_example :
    let (r, q) = save_stats true 9 panel in
    (r ≡ ok tt)
    × (q.world.tables.clients ≡ map (settle one_user) world.tables.clients)
    × IsSettled q.tracker
save_stats-settle_example = save_stats-settle true 9 panel refl refl panel-Fits one_user-IsSound

failing_lem : save_stats true 9 failing ≡ (err database_error, (save_stats true 9 failing).1)
unfolding save_stats get_stats finish execute
failing_lem = refl

save_stats-err_example :
    ((save_stats true 9 failing).1.world.tables ≡ world.tables)
    × IsSettled (save_stats true 9 failing).1.tracker
save_stats-err_example =
    save_stats-err true 9 failing (save_stats true 9 failing).1 database_error refl one_user-IsSound
      failing_lem

abbrev rows : List Stats
rows =
    record { date_time = 5; resource = user; tag = "anna"; direction = true; traffic = 7 }
    ∷ record { date_time = 95; resource = user; tag = "anna"; direction = false; traffic = 8 }
    ∷ []
