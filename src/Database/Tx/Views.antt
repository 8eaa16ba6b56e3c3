-- ===== src/Database/Tx/Views.antt =====
-- Statements behind which a view of the tables and the core is as before, also when they fail.
use hy_panel.Base.{◌≡◌, refl, ◌∙◌, Bool-cases, inl, inr}
use hy_panel.Base.Outcome.{Outcome, ok, err}
use hy_panel.Core.{Core}
use hy_panel.Database.{Tables}
use hy_panel.Database.Tx.{World, Tx, pure, lift, ◌>>=◌, continue, query, execute, next_fails}

module _ {V : Type 0} (view : Tables → Core → V) where
  pub record Shows {A : Type 0} (m : Tx A) : Type 0 where
    pub at : (w : World) → view (m w).1.tables (m w).1.core ≡ view w.tables w.core

  module _ {A B : Type 0} where
    continue-Shows :
        (f : A → Tx B) (r : Outcome A) (u : World)
        → ((a : A) → Shows (f a))
        → view (continue r f u).1.tables (continue r f u).1.core ≡ view u.tables u.core
    continue-Shows f (ok a) u h = (h a).at u
    continue-Shows f (err e) u h = refl

    pub Shows-bind : (m : Tx A) (f : A → Tx B) → Shows m → ((a : A) → Shows (f a)) → Shows (m >>= f)
    unfolding ◌>>=◌
    Shows-bind m f h k = record { at = λ w. continue-Shows f (m w).0 (m w).1 k ∙ h.at w }

  pub Shows-pure : {A : Type 0} (a : A) → Shows (pure a)
  unfolding pure
  Shows-pure a = record { at = λ w. refl }

  pub Shows-lift : {A : Type 0} (r : Outcome A) → Shows (lift r)
  unfolding lift
  Shows-lift r = record { at = λ w. refl }

  pub Shows-query : {A : Type 0} (f : Tables → A) → Shows (query f)
  unfolding query
  Shows-query f = record {
    at = λ w. elim (Bool-cases (next_fails w.faults)) [ inl k ↦ rw k refl | inr k ↦ rw k refl ];
  }

  pub Shows-execute :
      (f : Tables → Tables)
      → ((t : Tables) (c : Core) → view (f t) c ≡ view t c)
      → Shows (execute f)
  unfolding execute
  Shows-execute f h = record {
    at = λ w. elim (Bool-cases (next_fails w.faults)) [
      | inl k ↦ rw k refl
      | inr k ↦ rw k (h w.tables w.core)
    ];
  }
