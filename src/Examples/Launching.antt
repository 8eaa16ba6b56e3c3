-- ===== src/Examples/Launching.antt =====
-- Goroutines that start the core.
use hy_panel.Base.{ℕ, ◌≡◌, refl, true, Option, none, [], ◌∷◌}
use hy_panel.Launcher.{
  Answers, new_launcher, idle, start_core, started, start, look, enter_start, run_box, begin, move,
}
use hy_panel.Launcher.Lock.{Moves, LockRun, Shows, runs, new_machine, runs-Shows}
use hy_panel.Launcher.Boxes.{OneBox, history, history-OneBox}

abbrev answers : Answers
answers = record { now = 60000000000; config_ok = true; close_ok = true; box = started }

-- Two goroutines look at the core before either starts it.
abbrev racing : Moves
racing =
    (1, start_core, answers)
    ∷ (2, start_core, answers)
    ∷ (1, start_core, answers)
    ∷ (1, start_core, answers)
    ∷ (1, start_core, answers)
    ∷ (2, start_core, answers)
    ∷ (2, start_core, answers)
    ∷ []

-- The second of them starts a box over the first one, which stays open and is known to nobody.
two_boxes : (runs racing new_machine).launcher.engine.open_boxes ≡ 1 ∷ 0 ∷ []
unfolding runs move begin look enter_start run_box start new_machine new_launcher
two_boxes = refl

runs-Shows_example : (o : Option ℕ) × LockRun none o × Shows (runs racing new_machine) o
runs-Shows_example = runs-Shows racing

history-OneBox_example :
    OneBox
      (history
        ((start_core, answers) ∷ (start_core, answers) ∷ (start_core, answers) ∷ [])
        idle
        new_launcher).1.engine
history-OneBox_example =
    history-OneBox ((start_core, answers) ∷ (start_core, answers) ∷ (start_core, answers) ∷ [])
