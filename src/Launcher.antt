-- ===== src/Launcher.antt =====
-- Starting and stopping the core: StartCore, RestartCore, restartCoreWithConfig and StopCore of
-- service/config.go, with Start and Stop of core/main.go, cronjob/checkCoreJob.go being a caller of
-- StartCore. Several goroutines call them at once: a call is cut where it takes or leaves the mutex and
-- where it calls the core, and the steps of all calls interleave. What sing-box and the database
-- answer, and the clock, are given to each step. Times are nanoseconds since Go's zero time.
pub mod Lock
pub mod Boxes
use hy_panel.Base.{
  ℕ, suc, ◌-◌, Bool, true, false, not, Option, none, some, List, [], ◌∷◌, ◌==◌, ltb, if◌then◌else◌,
  keep_if,
}

-- What NewBox and the start of the new box answer.
pub data Started : Type 0 where
  not_built not_started started : Started

-- Core of core/main.go, with the boxes that were started and not closed.
pub record Engine : Type 0 where
  pub is_running : Bool
  pub instance : Option ℕ
  pub open_boxes : List ℕ
  pub next_box : ℕ

-- Start, and whether its error is nil
unfoldable pub start : Started → Engine → Bool × Engine
start not_built e = (false, record e { instance = none })
start not_started e = (false, record e { instance = none; next_box = suc e.next_box })
start started e = (
  true,
  record {
    is_running = true;
    instance = some e.next_box;
    open_boxes = e.next_box ∷ e.open_boxes;
    next_box = suc e.next_box;
  },
)

unfoldable pub close_box : Option ℕ → List ℕ → List ℕ
close_box none boxes = boxes
close_box (some b) boxes = keep_if (λ n. not (n == b)) boxes

-- Stop; its error is that of Close, where there is a box.
unfoldable pub stop : Engine → Engine
unfolding close_box
stop e = record e {
  is_running = false;
  instance = none;
  open_boxes = close_box e.instance e.open_boxes;
}

unfoldable pub stops_well : Bool → Engine → Bool
stops_well close_ok e = elim e.instance [ none ↦ true | some b ↦ close_ok ]

-- The globals of service/config.go.
pub record Launcher : Type 0 where
  pub engine : Engine
  pub in_progress : Bool
  pub last_fail : ℕ

unfoldable pub new_launcher : Launcher
new_launcher = record {
  engine = record { is_running = false; instance = none; open_boxes = []; next_box = 0 };
  in_progress = false;
  last_fail = 0;
}

-- What the surroundings answer to one step: the clock, whether GetConfig and Close return nil, and
-- what becomes of a new box.
pub record Answers : Type 0 where
  pub now : ℕ
  pub config_ok : Bool
  pub close_ok : Bool
  pub box : Started

pub data Call : Type 0 where
  start_core restart_core restart_core_with_config stop_core : Call

-- Where a goroutine is: in no call; in StartCore before its look at the core, before the mutex, past
-- it, and behind a start that failed; in restartCoreWithConfig past the mutex, and behind the stop; and
-- before the deferred function that gives the start up.
pub data Phase : Type 0 where
  idle wanted checked starting failed restarting stopped leaving : Phase

unfoldable pub look : Launcher → Phase × Launcher
look l = (if l.engine.is_running then idle else checked, l)

unfoldable pub enter_start : Answers → Launcher → Phase × Launcher
enter_start a l =
    if l.in_progress
    then (idle, l)
    else if ltb (a.now - l.last_fail) 15000000000
    then (idle, l)
    else (starting, record l { in_progress = true })

unfoldable pub enter_restart : Launcher → Phase × Launcher
enter_restart l = if l.in_progress then (idle, l) else (restarting, record l { in_progress = true })

unfoldable pub stop_first : Answers → Launcher → Phase × Launcher
unfolding stop stops_well
stop_first a l =
    if l.engine.is_running
    then (
      if stops_well a.close_ok l.engine then stopped else leaving,
      record l { engine = stop l.engine },
    )
    else (stopped, l)

-- GetConfig and Start; `after` is where a start that failed goes on.
unfoldable pub run_box : Phase → Answers → Launcher → Phase × Launcher
unfolding start
run_box after a l =
    let (fine, e) = start a.box l.engine in
    if a.config_ok then (if fine then leaving else after, record l { engine = e }) else (leaving, l)

unfoldable pub begin : Call → Answers → Launcher → Phase × Launcher
unfolding look enter_restart stop stops_well
begin start_core a l = look l
begin restart_core a l =
    (if stops_well a.close_ok l.engine then wanted else idle, record l { engine = stop l.engine })
begin restart_core_with_config a l = enter_restart l
begin stop_core a l = (idle, record l { engine = stop l.engine })

-- One step of a goroutine. One that is in no call makes the given one.
unfoldable pub step : Call → Answers → Phase → Launcher → Phase × Launcher
unfolding begin look enter_start stop_first run_box
step c a idle l = begin c a l
step c a wanted l = look l
step c a checked l = enter_start a l
step c a starting l = run_box failed a l
step c a failed l = (leaving, record l { last_fail = a.now })
step c a restarting l = stop_first a l
step c a stopped l = run_box leaving a l
step c a leaving l = (idle, record l { in_progress = false })

-- Any number of goroutines.
pub record Machine : Type 0 where
  pub phases : ℕ → Phase
  pub launcher : Launcher

unfoldable pub move : ℕ → Call → Answers → Machine → Machine
unfolding step
move t c a m =
    let (p, l) = step c a (m.phases t) m.launcher in
    record { phases = λ n. if n == t then p else m.phases n; launcher = l }
