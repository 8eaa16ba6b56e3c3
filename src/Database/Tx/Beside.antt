-- ===== src/Database/Tx/Beside.antt =====
-- Statements that write other tables than the inbounds, and nothing of the core.
use hy_panel.Base.{ℕ, ◌≡◌, refl, ◌∙◌, ap, List, [], ◌∷◌, Bool-cases, inl, inr}
use hy_panel.Base.Outcome.{Outcome, ok, err}
use hy_panel.Database.{Tables}
use hy_panel.Database.Tx.{
  World, Tx, pure, ◌>>=◌, ◌>>◌, continue, query, execute, set_last_update, unless_empty,
  transaction, finish, next_fails, later,
}

pub record Kept (w w' : World) : Type 0 where
  pub core : w'.core ≡ w.core
  pub inbounds : w'.tables.inbounds ≡ w.tables.inbounds
  pub faultless : w.faults ≡ [] → w'.faults ≡ []

pub record Beside {A : Type 0} (m : Tx A) : Type 0 where
  pub at : (w : World) → Kept w (m w).1

Kept-trans : (u v w : World) → Kept u v → Kept v w → Kept u w
Kept-trans u v w h k = record {
  core = k.core ∙ h.core;
  inbounds = k.inbounds ∙ h.inbounds;
  faultless = λ e. k.faultless (h.faultless e);
}

module _ {A B : Type 0} where
  continue-Kept :
      (f : A → Tx B) (r : Outcome A) (w u : World)
      → ((a : A) → Beside (f a))
      → Kept w u
      → Kept w (continue r f u).1
  continue-Kept f (ok a) w u h k = Kept-trans w u (f a u).1 k ((h a).at u)
  continue-Kept f (err e) w u h k = k

  pub Beside-bind :
      (m : Tx A) (f : A → Tx B) → Beside m → ((a : A) → Beside (f a)) → Beside (m >>= f)
  unfolding ◌>>=◌
  Beside-bind m f h k = record { at = λ w. continue-Kept f (m w).0 w (m w).1 k (h.at w) }

pub Beside-then :
    {B : Type 0} (m : Tx (Unit {0})) (n : Tx B) → Beside m → Beside n → Beside (m >> n)
Beside-then m n h k = Beside-bind m (λ _. n) h (λ _. k)

pub Beside-pure : {A : Type 0} (a : A) → Beside (pure a)
unfolding pure
Beside-pure a = record { at = λ w. record { core = refl; inbounds = refl; faultless = λ e. e } }

pub Beside-query : {A : Type 0} (f : Tables → A) → Beside (query f)
unfolding query
Beside-query f = record {
  at = λ w. elim (Bool-cases (next_fails w.faults)) [
    | inl k ↦ rw k (record { core = refl; inbounds = refl; faultless = λ e. ap later e })
    | inr k ↦ rw k (record { core = refl; inbounds = refl; faultless = λ e. ap later e })
  ];
}

pub Beside-execute :
    (f : Tables → Tables) → ((t : Tables) → (f t).inbounds ≡ t.inbounds) → Beside (execute f)
unfolding execute
Beside-execute f h = record {
  at = λ w. elim (Bool-cases (next_fails w.faults)) [
    | inl k ↦ rw k (record { core = refl; inbounds = refl; faultless = λ e. ap later e })
    | inr k ↦ rw k (record { core = refl; inbounds = h w.tables; faultless = λ e. ap later e })
  ];
}

pub Beside-set_last_update : (dt : ℕ) → Beside (set_last_update dt)
unfolding set_last_update
Beside-set_last_update dt = record {
  at = λ w. record { core = refl; inbounds = refl; faultless = λ e. e };
}

pub Beside-unless_empty :
    {A : Type 0} (xs : List A) (m : Tx (Unit {0})) → Beside m → Beside (unless_empty xs m)
unfolding unless_empty
Beside-unless_empty [] m h = Beside-pure tt
Beside-unless_empty (x ∷ xs) m h = h

finish-Kept : {A : Type 0} (r : Outcome A) (w u : World) → Kept w u → Kept w (finish w.tables r u).1
unfolding finish
finish-Kept (ok a) w u k = elim (Bool-cases (next_fails u.faults)) [
  | inl q ↦
      rw q (record { core = k.core; inbounds = refl; faultless = λ e. ap later (k.faultless e) })
  | inr q ↦
      rw q
        (record { core = k.core; inbounds = k.inbounds; faultless = λ e. ap later (k.faultless e) })
]
finish-Kept (err e) w u k = record { core = k.core; inbounds = refl; faultless = k.faultless }

pub Beside-transaction : {A : Type 0} (m : Tx A) → Beside m → Beside (transaction m)
unfolding transaction
Beside-transaction m h = record { at = λ w. finish-Kept (m w).0 w (m w).1 (h.at w) }

pub ruleset beside_rules = (
  Beside-bind, Beside-then, Beside-pure, Beside-query, Beside-set_last_update, Beside-unless_empty,
)
