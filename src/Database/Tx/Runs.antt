-- ===== src/Database/Tx/Runs.antt =====
-- Where no statement fails, a chain of statements returns a result.
use hy_panel.Base.{ℕ, ◌≡◌, refl, List, [], ◌∷◌}
use hy_panel.Base.Outcome.{ok}
use hy_panel.Database.{Tables}
use hy_panel.Database.Tx.{
  World, Tx, pure, ◌>>=◌, ◌>>◌, query, execute, set_last_update, unless_empty, transaction, finish,
}

pub record Runs {A : Type 0} (m : Tx A) : Type 0 where
  pub at :
      (w : World) → w.faults ≡ [] → (a : A) × (w' : World) × (m w ≡ (ok a, w')) × (w'.faults ≡ [])

module _ {A B : Type 0} where
  pub Runs-bind : (m : Tx A) (f : A → Tx B) → Runs m → ((a : A) → Runs (f a)) → Runs (m >>= f)
  unfolding ◌>>=◌
  Runs-bind m f h k = record {
    at = λ w e.
        let (a, w₁, p, q) = h.at w e in let (b, w₂, r, s) = (k a).at w₁ q in (b, w₂, rw p r, s);
  }

pub Runs-then : {B : Type 0} (m : Tx (Unit {0})) (n : Tx B) → Runs m → Runs n → Runs (m >> n)
Runs-then m n h k = Runs-bind m (λ _. n) h (λ _. k)

pub Runs-pure : {A : Type 0} (a : A) → Runs (pure a)
unfolding pure
Runs-pure a = record { at = λ w e. (a, w, refl, e) }

pub Runs-query : {A : Type 0} (f : Tables → A) → Runs (query f)
unfolding query
Runs-query f = record { at = λ w e. (f w.tables, record w { faults = [] }, rw e, refl) }

pub Runs-execute : (f : Tables → Tables) → Runs (execute f)
unfolding execute
Runs-execute f = record {
  at = λ w e. (tt, record w { tables = f w.tables; faults = [] }, rw e, refl);
}

pub Runs-set_last_update : (dt : ℕ) → Runs (set_last_update dt)
unfolding set_last_update
Runs-set_last_update dt = record { at = λ w e. (tt, record w { last_update = dt }, refl, e) }

pub Runs-unless_empty :
    {A : Type 0} (xs : List A) (m : Tx (Unit {0})) → Runs m → Runs (unless_empty xs m)
unfolding unless_empty
Runs-unless_empty [] m h = Runs-pure tt
Runs-unless_empty (x ∷ xs) m h = h

pub ruleset run_rules = (
  Runs-bind, Runs-then, Runs-pure, Runs-query, Runs-execute, Runs-set_last_update,
  Runs-unless_empty,
)

-- A transaction whose body runs, and whose commit does not fail either.
pub transaction-Runs :
    {A : Type 0} (m : Tx A) (w : World)
    → Runs m
    → w.faults ≡ []
    → (a : A) × (w' : World) × (m w ≡ (ok a, w'))
      × ((transaction m w).0 ≡ ok a)
      × ((transaction m w).1.tables ≡ w'.tables)
unfolding transaction finish
transaction-Runs m w h e = let (a, w', p, q) = h.at w e in (a, w', p, rw (p, q), rw (p, q))
