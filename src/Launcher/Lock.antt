-- ===== src/Launcher/Lock.antt =====
-- The flag startCoreInProgress of service/config.go as a lock.
use hy_panel.Base.{
  ℕ, ◌≡◌, refl, ap, sym, subst, ◌∙◌, Bool, true, false, Option, none, some, List, [], ◌∷◌, ◌==◌,
  ==_iff, arith, ltb, ◌-◌, if◌then◌else◌, Bool-cases, inl, inr,
}
use hy_panel.Launcher.{
  Launcher, Answers, Call, Phase, Machine, new_launcher, step, move, idle, wanted, checked,
  starting, failed, restarting, stopped, leaving, start_core, restart_core,
  restart_core_with_config, stop_core, start, look, enter_start, enter_restart, stop_first, run_box,
  begin, stops_well, stop,
}

-- Whether a goroutine is between the two uses of the mutex: the start in progress is its own.
unfoldable pub holds : Phase → Bool
holds idle = false
holds wanted = false
holds checked = false
holds starting = true
holds failed = true
holds restarting = true
holds stopped = true
holds leaving = true

-- A lock, by the goroutine that has it.
pub data LockStep : Option ℕ → Option ℕ → Type 0 where
  stays : {o : Option ℕ} → LockStep o o
  takes : (t : ℕ) → LockStep none (some t)
  gives : (t : ℕ) → LockStep (some t) none

abbrev pub is_owner : ℕ → Option ℕ → Bool
is_owner t none = false
is_owner t (some o) = t == o

abbrev pub is_taken : Option ℕ → Bool
is_taken none = false
is_taken (some o) = true

-- The goroutines and the flag show the lock with this owner.
pub record Shows (m : Machine) (o : Option ℕ) : Type 0 where
  pub flag : m.launcher.in_progress ≡ is_taken o
  pub owner : (t : ℕ) → holds (m.phases t) ≡ is_owner t o

-- What one step does to the flag.
data Turn (p q : Phase) (b b' : Bool) : Type 0 where
  keeps : holds q ≡ holds p → b' ≡ b → Turn p q b b'
  enters : holds p ≡ false → b ≡ false → holds q ≡ true → b' ≡ true → Turn p q b b'
  leaves : holds p ≡ true → holds q ≡ false → b' ≡ false → Turn p q b b'

abbrev Turns : Phase → Launcher → Phase × Launcher → Type 0
Turns p l r = Turn p r.0 l.in_progress r.1.in_progress

-- A step that only goes from phase to phase.
moves :
    (p one other : Phase) (b : Bool) (l l' : Launcher)
    → holds one ≡ holds p
    → holds other ≡ holds p
    → l'.in_progress ≡ l.in_progress
    → Turns p l (if b then one else other, l')
moves p one other true l l' h k e = keeps h e
moves p one other false l l' h k e = keeps k e

look-Turns : (p : Phase) (l : Launcher) → holds p ≡ false → Turns p l (look l)
unfolding look holds
look-Turns p l h = elim (Bool-cases l.engine.is_running) [
  | inl r ↦ rw r (keeps (sym h) refl)
  | inr r ↦ rw r (keeps (sym h) refl)
]

enter_restart-Turns : (p : Phase) (l : Launcher) → holds p ≡ false → Turns p l (enter_restart l)
unfolding enter_restart holds
enter_restart-Turns p l h = elim (Bool-cases l.in_progress) [
  | inl r ↦ rw r (keeps (sym h) refl)
  | inr r ↦ rw r (enters h refl refl refl)
]

enter_start-Turns :
    (p : Phase) (a : Answers) (l : Launcher) → holds p ≡ false → Turns p l (enter_start a l)
unfolding enter_start holds
enter_start-Turns p a l h = elim (Bool-cases l.in_progress) [
  | inl r ↦ rw r (keeps (sym h) refl)
  | inr r ↦ elim (Bool-cases (ltb (a.now - l.last_fail) 15000000000)) [
    | inl k ↦ rw (r, k) (keeps (sym h) refl)
    | inr k ↦ rw (r, k) (enters h refl refl refl)
  ]
]

run_box-Turns :
    (p after : Phase) (a : Answers) (l : Launcher)
    → holds p ≡ true
    → holds after ≡ true
    → Turns p l (run_box after a l)
unfolding run_box holds
run_box-Turns p after a l h k = elim (Bool-cases a.config_ok) [
  | inl r ↦ elim (Bool-cases (start a.box l.engine).0) [
    | inl f ↦ rw (r, f) (keeps (sym h) refl)
    | inr f ↦ rw (r, f) (keeps (k ∙ sym h) refl)
  ]
  | inr r ↦ rw r (keeps (sym h) refl)
]

stop_first-Turns : (a : Answers) (l : Launcher) → Turns restarting l (stop_first a l)
unfolding stop_first holds
stop_first-Turns a l = elim (Bool-cases l.engine.is_running) [
  | inl r ↦ rw r (
      moves restarting stopped leaving (stops_well a.close_ok l.engine) l
        (record l { engine = stop l.engine }) refl refl refl)
  | inr r ↦ rw r (keeps refl refl)
]

step-Turns : (c : Call) (a : Answers) (p : Phase) (l : Launcher) → Turns p l (step c a p l)
unfolding step holds
step-Turns start_core a idle l = look-Turns idle l refl
step-Turns restart_core a idle l =
    unfold begin in
    moves idle wanted idle (stops_well a.close_ok l.engine) l (record l { engine = stop l.engine })
      refl refl refl
step-Turns restart_core_with_config a idle l = enter_restart-Turns idle l refl
step-Turns stop_core a idle l = unfold begin in keeps refl refl
step-Turns c a wanted l = look-Turns wanted l refl
step-Turns c a checked l = enter_start-Turns checked a l refl
step-Turns c a starting l = run_box-Turns starting failed a l refl refl
step-Turns c a failed l = keeps refl refl
step-Turns c a restarting l = stop_first-Turns a l
step-Turns c a stopped l = run_box-Turns stopped leaving a l refl refl
step-Turns c a leaving l = leaves refl refl refl

-- A history: whose step it is, the call it makes if it is in none, and what it is answered.
abbrev pub Moves : Type 0
Moves = List (ℕ × Call × Answers)

unfoldable pub runs : Moves → Machine → Machine
unfolding move
runs [] m = m
runs ((t, c, a) ∷ ms) m = runs ms (move t c a m)

pub data LockRun : Option ℕ → Option ℕ → Type 0 where
  here : {o : Option ℕ} → LockRun o o
  next : {o p q : Option ℕ} → LockStep o p → LockRun p q → LockRun o q

owner_none : (t : ℕ) (b : Bool) (o : Option ℕ) → b ≡ is_taken o → b ≡ false → o ≡ none
owner_none t b none e f = refl
owner_none t b (some x) e f = cc

owner_some : (t : ℕ) (o : Option ℕ) → is_owner t o ≡ true → o ≡ some t
owner_some t none e = cc
owner_some t (some x) e = ap some (sym ((==_iff t x).0 e))

-- The phases, one of which was changed.
changed :
    (t : ℕ) (q : Phase) (phases : ℕ → Phase) (o : Option ℕ) (n : ℕ)
    → holds q ≡ is_owner t o
    → ((n == t) ≡ false → holds (phases n) ≡ is_owner n o)
    → holds (if n == t then q else phases n) ≡ is_owner n o
changed t q phases o n h k = elim (Bool-cases (n == t)) [
  | inl e ↦ let same : n ≡ t = (==_iff n t).0 e in rw e (h ∙ ap (λ z. is_owner z o) (sym same))
  | inr e ↦ rw e (k e)
]

-- Every step of a goroutine is a step of the lock.
pub move-Shows :
    (t : ℕ) (c : Call) (a : Answers) (m : Machine) (o : Option ℕ)
    → Shows m o
    → (o' : Option ℕ) × LockStep o o' × Shows (move t c a m) o'
unfolding move
move-Shows t c a m o v = go (step-Turns c a (m.phases t) m.launcher)
  where
    go :
        Turns (m.phases t) m.launcher (step c a (m.phases t) m.launcher)
        → (o' : Option ℕ) × LockStep o o' × Shows (move t c a m) o'
    go (keeps h b) = (
      o,
      stays,
      record {
        flag = b ∙ v.flag;
        owner = λ n. changed t _ m.phases o n (h ∙ v.owner t) (λ e. v.owner n);
      },
    )
    go (enters h b h' b') =
        let free : o ≡ none = owner_none t m.launcher.in_progress o v.flag b in
        (
          some t,
          subst (λ z. LockStep z (some t)) (sym free) (takes t),
          record {
            flag = b';
            owner = λ n.
                changed t _ m.phases (some t) n (h' ∙ sym ((==_iff t t).1 refl))
                  (λ e. v.owner n ∙ (ap (is_owner n) free ∙ sym e));
          },
        )
    go (leaves h h' b') =
        let own : o ≡ some t = owner_some t o (sym (v.owner t) ∙ h) in
        (
          none,
          subst (λ z. LockStep z none) (sym own) (gives t),
          record {
            flag = b';
            owner =
                λ n. changed t _ m.phases none n h' (λ e. v.owner n ∙ (ap (is_owner n) own ∙ e));
          },
        )

unfoldable pub new_machine : Machine
new_machine = record { phases = λ t. idle; launcher = new_launcher }

runs-Shows_from :
    (ms : Moves) (m : Machine) (o : Option ℕ)
    → Shows m o
    → (o' : Option ℕ) × LockRun o o' × Shows (runs ms m) o'
unfolding runs
runs-Shows_from [] m o v = (o, here, v)
runs-Shows_from ((t, c, a) ∷ ms) m o v =
    let (p, s, v') = move-Shows t c a m o v in
    let (q, r, v'') = runs-Shows_from ms (move t c a m) p v' in (q, next s r, v'')

-- However the calls of StartCore, RestartCore, restartCoreWithConfig and StopCore by any number of
-- goroutines interleave, and whatever the core, the database and the clock answer, the flag
-- startCoreInProgress is a lock: the history is one of a lock that is taken only when free and
-- given up only by its owner; the flag says whether it is taken, and a goroutine is past the mutex
-- and not yet out of the deferred function exactly if it is the owner.
pub runs-Shows : (ms : Moves) → (o : Option ℕ) × LockRun none o × Shows (runs ms new_machine) o
unfolding new_machine new_launcher holds
runs-Shows ms = runs-Shows_from ms new_machine none (record { flag = refl; owner = λ t. refl })

-- In every history, no two goroutines hold a start in progress at once.
one_holder :
    (ms : Moves) (t u : ℕ)
    → holds ((runs ms new_machine).phases t) ≡ true
    → holds ((runs ms new_machine).phases u) ≡ true
    → t ≡ u
one_holder ms t u h k =
    let (o, r, v) = runs-Shows ms in
    let own : some t ≡ some u =
      sym (owner_some t o (sym (v.owner t) ∙ h)) ∙ owner_some u o (sym (v.owner u) ∙ k) in
    ground arith
