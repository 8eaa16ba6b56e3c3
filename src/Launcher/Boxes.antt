-- ===== src/Launcher/Boxes.antt =====
-- The boxes of sing-box that calls leave open, if no two of them interleave.
use hy_panel.Base.{
  ℕ, ◌≡◌, refl, ap, sym, ◌∙◌, Bool, true, false, Option, none, some, List, [], ◌∷◌, ==_iff, ltb,
  ◌-◌, if◌then◌else◌, Bool-cases, inl, inr,
}
use hy_panel.Base.Assoc.{is_some}
use hy_panel.Launcher.{
  Started, Engine, Launcher, Answers, Call, Phase, new_launcher, step, idle, wanted, checked,
  starting, failed, restarting, stopped, leaving, start_core, restart_core,
  restart_core_with_config, stop_core, start, stop, close_box, stops_well, look, enter_start,
  enter_restart, stop_first, run_box, begin, not_built, not_started, started,
}

-- The steps of one goroutine, from call to call.
unfoldable pub history : List (Call × Answers) → Phase → Launcher → Phase × Launcher
unfolding step
history [] p l = (p, l)
history ((c, a) ∷ rest) p l = let (q, m) = step c a p l in history rest q m

-- The phases in which the core is known not to run.
abbrev pub before_start : Phase → Bool
before_start idle = false
before_start wanted = false
before_start checked = true
before_start starting = true
before_start failed = false
before_start restarting = false
before_start stopped = true
before_start leaving = false

abbrev pub boxes_of : Option ℕ → List ℕ
boxes_of none = []
boxes_of (some b) = b ∷ []

-- The core runs exactly if it has a box, and no other box is open.
pub record OneBox (e : Engine) : Type 0 where
  pub running : e.is_running ≡ is_some e.instance
  pub boxes : e.open_boxes ≡ boxes_of e.instance

record Fits (p : Phase) (l : Launcher) : Type 0 where
  one : OneBox l.engine
  down : before_start p ≡ true → l.engine.is_running ≡ false

close_own : (i : Option ℕ) → close_box i (boxes_of i) ≡ []
unfolding close_box
close_own none = refl
close_own (some b) = rw ((==_iff b b).1 refl) refl

no_boxes : (i : Option ℕ) → is_some i ≡ false → boxes_of i ≡ []
no_boxes none h = refl
no_boxes (some b) h = cc h

stop-OneBox : (e : Engine) → OneBox e → OneBox (stop e)
unfolding stop
stop-OneBox e v = record {
  running = refl;
  boxes = ap (close_box e.instance) v.boxes ∙ close_own e.instance;
}

start-OneBox : (s : Started) (e : Engine) → OneBox e → e.is_running ≡ false → OneBox (start s e).1
unfolding start
start-OneBox not_built e v d = record {
  running = d;
  boxes = v.boxes ∙ no_boxes e.instance (sym v.running ∙ d);
}
start-OneBox not_started e v d = record {
  running = d;
  boxes = v.boxes ∙ no_boxes e.instance (sym v.running ∙ d);
}
start-OneBox started e v d = record {
  running = refl;
  boxes = ap (◌∷◌ e.next_box) (v.boxes ∙ no_boxes e.instance (sym v.running ∙ d));
}

either_phase :
    (b : Bool) (p q : Phase) (l : Launcher)
    → OneBox l.engine
    → (b ≡ true → before_start p ≡ true → l.engine.is_running ≡ false)
    → (b ≡ false → before_start q ≡ true → l.engine.is_running ≡ false)
    → Fits (if b then p else q) l
either_phase true p q l v h k = record { one = v; down = h refl }
either_phase false p q l v h k = record { one = v; down = k refl }

abbrev FitsBoth : Phase × Launcher → Type 0
FitsBoth r = Fits r.0 r.1

branch :
    (b : Bool) (r s : Phase × Launcher)
    → (b ≡ true → FitsBoth r)
    → (b ≡ false → FitsBoth s)
    → FitsBoth (if b then r else s)
branch true r s h k = h refl
branch false r s h k = k refl

look-Fits : (l : Launcher) → OneBox l.engine → Fits (look l).0 (look l).1
unfolding look
look-Fits l v = either_phase l.engine.is_running idle checked l v (λ b h. cc h) (λ b h. b)

run_box-Fits :
    (after : Phase) (a : Answers) (l : Launcher)
    → before_start after ≡ false
    → OneBox l.engine
    → l.engine.is_running ≡ false
    → Fits (run_box after a l).0 (run_box after a l).1
unfolding run_box
run_box-Fits after a l h v d = elim (Bool-cases a.config_ok) [
  | inl r ↦ rw r (
      either_phase (start a.box l.engine).0 leaving after _ (start-OneBox a.box l.engine v d)
        (λ b k. cc k) (λ b k. cc (sym h ∙ k)))
  | inr r ↦ rw r (record { one = v; down = λ k. cc k })
]

stop_first-Fits : (a : Answers) (l : Launcher) → OneBox l.engine → FitsBoth (stop_first a l)
unfolding stop_first
stop_first-Fits a l v =
    branch l.engine.is_running _ _
      (λ r.
        either_phase (stops_well a.close_ok l.engine) stopped leaving _ (stop-OneBox l.engine v)
          (λ b h. refl) (λ b h. cc h))
      (λ r. record { one = v; down = λ h. r })

enter_restart-Fits : (l : Launcher) → OneBox l.engine → FitsBoth (enter_restart l)
unfolding enter_restart
enter_restart-Fits l v =
    branch l.in_progress _ _ (λ r. record { one = v; down = λ h. cc h })
      (λ r. record { one = v; down = λ h. cc h })

enter_start-Fits : (a : Answers) (l : Launcher) → Fits checked l → FitsBoth (enter_start a l)
unfolding enter_start
enter_start-Fits a l v =
    branch l.in_progress _ _ (λ r. record { one = v.one; down = λ h. cc h })
      (λ r.
        branch (ltb (a.now - l.last_fail) 15000000000) _ _
          (λ k. record { one = v.one; down = λ h. cc h })
          (λ k. record { one = v.one; down = λ h. v.down refl }))

step-Fits :
    (c : Call) (a : Answers) (p : Phase) (l : Launcher)
    → Fits p l
    → Fits (step c a p l).0 (step c a p l).1
unfolding step begin
step-Fits start_core a idle l v = look-Fits l v.one
step-Fits restart_core a idle l v =
    either_phase (stops_well a.close_ok l.engine) wanted idle _ (stop-OneBox l.engine v.one)
      (λ b h. refl) (λ b h. refl)
step-Fits restart_core_with_config a idle l v = enter_restart-Fits l v.one
step-Fits stop_core a idle l v = record { one = stop-OneBox l.engine v.one; down = λ k. cc k }
step-Fits c a wanted l v = look-Fits l v.one
step-Fits c a checked l v = enter_start-Fits a l v
step-Fits c a starting l v = run_box-Fits failed a l refl v.one (v.down refl)
step-Fits c a failed l v = record { one = v.one; down = λ k. cc k }
step-Fits c a restarting l v = stop_first-Fits a l v.one
step-Fits c a stopped l v = run_box-Fits leaving a l refl v.one (v.down refl)
step-Fits c a leaving l v = record { one = v.one; down = λ k. cc k }

history-Fits :
    (h : List (Call × Answers)) (p : Phase) (l : Launcher) → Fits p l → FitsBoth (history h p l)
unfolding history
history-Fits [] p l v = v
history-Fits ((c, a) ∷ rest) p l v = history-Fits rest _ _ (step-Fits c a p l v)

-- In every history of calls that do not interleave, whatever is answered: the core says that it
-- runs exactly if it has a box, and no box but that one is open.
pub history-OneBox : (h : List (Call × Answers)) → OneBox (history h idle new_launcher).1.engine
unfolding new_launcher
history-OneBox h =
    let start : Fits idle new_launcher = record {
      one = record { running = refl; boxes = refl };
      down = λ k. refl;
    } in
    (history-Fits h idle new_launcher start).one
