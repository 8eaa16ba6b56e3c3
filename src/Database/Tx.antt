-- ===== src/Database/Tx.antt =====
-- Code that runs statements on the database. Each statement may fail, as the environment decides
-- beforehand: `faults` holds the outcomes of the statements to come, `true` for a failure, and none
-- fails behind its end. A statement that fails changes nothing.
pub mod Runs
pub mod Beside
pub mod Views
use hy_panel.Base.{
  ℕ, ◌≡◌, refl, ◌⊎◌, inl, inr, Bool-cases, Bool, true, false, not, ◌||◌, List, [], ◌∷◌,
  if◌then◌else◌, arith,
}
use hy_panel.Base.Outcome.{Outcome, ok, err, Error, database_error}
use hy_panel.Core.{Core}
use hy_panel.Database.{Tables}

-- What the services share: the tables, the panel's global LastUpdate, and the running core, which is
-- no part of a transaction.
pub record World : Type 0 where
  pub tables : Tables
  pub core : Core
  pub last_update : ℕ
  pub faults : List Bool

abbrev pub Tx : Type 0 → Type 0
Tx A = World → Outcome A × World

module _ {A : Type 0} where
  unfoldable pub pure : A → Tx A
  pure a w = (ok a, w)

  unfoldable pub fail : Error → Tx A
  fail e w = (err e, w)

  unfoldable pub lift : Outcome A → Tx A
  lift r w = (r, w)

module _ {A B : Type 0} where
  abbrev pub continue : Outcome A → (A → Tx B) → Tx B
  continue (ok a) f w = f a w
  continue (err e) f w = (err e, w)

  infixl 5 ◌>>=◌ ◌>>◌
  unfoldable pub ◌>>=◌ : Tx A → (A → Tx B) → Tx B
  ◌>>=◌ m f w = let (r, w') = m w in continue r f w'

  abbrev pub ◌>>◌ : Tx A → Tx B → Tx B
  m >> n = m >>= λ _. n

abbrev pub next_fails : List Bool → Bool
next_fails [] = false
next_fails (b ∷ bs) = b

abbrev pub later : List Bool → List Bool
later [] = []
later (b ∷ bs) = bs

-- A query.
unfoldable pub query : {A : Type 0} → (Tables → A) → Tx A
query f w =
    let w' : World = record w { faults = later w.faults } in
    if next_fails w.faults then (err database_error, w') else (ok (f w.tables), w')

-- A statement that writes.
unfoldable pub execute : (Tables → Tables) → Tx (Unit {0})
execute f w =
    if next_fails w.faults
    then (err database_error, record w { faults = later w.faults })
    else (ok tt, record w { tables = f w.tables; faults = later w.faults })

-- A statement that writes, and that a constraint of the table may refuse.
unfoldable pub execute_if : (Tables → Bool) → (Tables → Tables) → Tx (Unit {0})
execute_if fits f w =
    if next_fails w.faults || not (fits w.tables)
    then (err database_error, record w { faults = later w.faults })
    else (ok tt, record w { tables = f w.tables; faults = later w.faults })

-- LastUpdate = dt
unfoldable pub set_last_update : ℕ → Tx (Unit {0})
set_last_update dt w = (ok tt, record w { last_update = dt })

-- A look at the core.
unfoldable pub read_core : {A : Type 0} → (Core → A) → Tx A
read_core f w = (ok (f w.core), w)

-- A call of the core.
unfoldable pub call_core : (Core → Outcome (Unit {0}) × Core) → Tx (Unit {0})
call_core f w = let (r, c) = f w.core in (r, record w { core = c })

-- A call whose error is only logged.
unfoldable pub attempt : Tx (Unit {0}) → Tx (Unit {0})
attempt m w = (ok tt, (m w).1)

-- The deferred end of a transaction: a commit if the body's error is nil, and a rollback if not. The
-- error of the commit is not looked at: where it fails, the tables are what they were, and the body's
-- result is returned all the same. LastUpdate is no part of the transaction.
unfoldable pub finish : {A : Type 0} → Tables → Outcome A → World → Outcome A × World
finish before (ok a) w =
    if next_fails w.faults
    then (ok a, record w { tables = before; faults = later w.faults })
    else (ok a, record w { faults = later w.faults })
finish before (err e) w = (err e, record w { tables = before })

unfoldable pub transaction : {A : Type 0} → Tx A → Tx A
unfolding finish
transaction m w = let (r, w') = m w in finish w.tables r w'

-- The inversion of a chain that returns a result.
pub >>=-ok :
    {A B : Type 0} (m : Tx A) (f : A → Tx B) (w w'' : World) (b : B)
    → (m >>= f) w ≡ (ok b, w'')
    → (a : A) × (w' : World) × (m w ≡ (ok a, w')) × (f a w' ≡ (ok b, w''))
unfolding ◌>>=◌
>>=-ok {A} {B} m f w w'' b e = go (m w).0 (m w).1 refl e
  where
    go :
        (r : Outcome A) (w' : World)
        → m w ≡ (r, w')
        → continue r f w' ≡ (ok b, w'')
        → (a : A) × (w' : World) × (m w ≡ (ok a, w')) × (f a w' ≡ (ok b, w''))
    go (ok a) w' p q = (a, w', p, q)
    go (err x) w' p q = cc q

pub query-ok :
    {A : Type 0} (f : Tables → A) (w w' : World) (a : A)
    → query f w ≡ (ok a, w')
    → (a ≡ f w.tables) × (w'.tables ≡ w.tables)
unfolding query
query-ok f w w' a e = ground arith

pub execute-ok :
    (f : Tables → Tables) (w w' : World) → execute f w ≡ (ok tt, w') → w'.tables ≡ f w.tables
unfolding execute
execute-ok f w w' e = ground arith

-- A statement that runs only if a slice holds something: gorm refuses an empty one.
unfoldable pub unless_empty : {A : Type 0} → List A → Tx (Unit {0}) → Tx (Unit {0})
unless_empty [] m = pure tt
unless_empty (x ∷ xs) m = m

-- Commit where its error is returned.
unfoldable pub checked_finish : {A : Type 0} → Tables → Outcome A → World → Outcome A × World
checked_finish before (ok a) w =
    if next_fails w.faults
    then (err database_error, record w { tables = before; faults = later w.faults })
    else (ok a, record w { faults = later w.faults })
checked_finish before (err e) w = (err e, record w { tables = before })

-- How a transaction may end: with an error, and the tables of before; or with the result of its body,
-- and the tables of the body or, if the commit failed, those of before.
abbrev pub Ends : {A : Type 0} → Tx A → World → Outcome A × World → Type 0
Ends {A} m w (err e, u) = u.tables ≡ w.tables
Ends {A} m w (ok a, u) =
    (w' : World) × (m w ≡ (ok a, w')) × ((u.tables ≡ w'.tables) ⊎ (u.tables ≡ w.tables))

pub transaction-Ends : {A : Type 0} (m : Tx A) (w : World) → Ends m w (transaction m w)
unfolding transaction
transaction-Ends {A} m w = go (m w).0 (m w).1 refl
  where
    go : (r : Outcome A) (w' : World) → m w ≡ (r, w') → Ends m w (finish w.tables r w')
    go (err x) w' p = refl
    go (ok a) w' p = elim (Bool-cases (next_fails w'.faults)) [
      | inl q ↦ rw q (w', p, inr refl)
      | inr q ↦ rw q (w', p, inl refl)
    ]

-- The end of a transaction whose commit is looked at: its failure is an error.
unfoldable pub checked_transaction : {A : Type 0} → Tx A → Tx A
unfolding checked_finish
checked_transaction m w = let (r, w') = m w in checked_finish w.tables r w'

pub unless_empty-ok :
    {A : Type 0} (xs : List A) (f : Tables → Tables) (w w' : World)
    → (xs ≡ [] → f w.tables ≡ w.tables)
    → unless_empty xs (execute f) w ≡ (ok tt, w')
    → w'.tables ≡ f w.tables
unfolding unless_empty pure
unless_empty-ok [] f w w' h e = ground (arith, h refl)
unless_empty-ok (x ∷ xs) f w w' h e = execute-ok f w w' e

pub set_last_update-ok :
    (dt : ℕ) (w w' : World) → set_last_update dt w ≡ (ok tt, w') → w'.tables ≡ w.tables
unfolding set_last_update
set_last_update-ok dt w w' e = ground arith

pub pure-ok :
    {A : Type 0} (a b : A) (w w' : World) → pure a w ≡ (ok b, w') → (b ≡ a) × (w'.tables ≡ w.tables)
unfolding pure
pure-ok a b w w' e = ground arith

-- The same for a chain that begins with a query, or with a statement that writes.
pub query->>=-ok :
    {A B : Type 0} (f : Tables → A) (k : A → Tx B) (w w' : World) (b : B)
    → (query f >>= k) w ≡ (ok b, w')
    → (w₁ : World) × (w₁.tables ≡ w.tables) × (k (f w.tables) w₁ ≡ (ok b, w'))
unfolding query ◌>>=◌
query->>=-ok f k w w' b e = elim (Bool-cases (next_fails w.faults)) [
  | inl q ↦ cc (rw q at e)
  | inr q ↦ (record w { faults = later w.faults }, refl, rw q at e)
]

-- The same, with the core.
pub query_untouched :
    {A B : Type 0} (f : Tables → A) (k : A → Tx B) (w w' : World) (b : B)
    → (query f >>= k) w ≡ (ok b, w')
    → (w₁ : World) × (w₁.tables ≡ w.tables) × (w₁.core ≡ w.core) × (k (f w.tables) w₁ ≡ (ok b, w'))
unfolding query ◌>>=◌
query_untouched f k w w' b e = elim (Bool-cases (next_fails w.faults)) [
  | inl q ↦ cc (rw q at e)
  | inr q ↦ (record w { faults = later w.faults }, refl, refl, rw q at e)
]

pub unless_empty->>-ok :
    {A B : Type 0} (xs : List A) (f : Tables → Tables) (k : Tx B) (w w' : World) (b : B)
    → (xs ≡ [] → f w.tables ≡ w.tables)
    → (unless_empty xs (execute f) >> k) w ≡ (ok b, w')
    → (w₁ : World) × (w₁.tables ≡ f w.tables) × (k w₁ ≡ (ok b, w'))
unless_empty->>-ok xs f k w w' b h e =
    let (u, w₁, p, q) = >>=-ok (unless_empty xs (execute f)) (λ _. k) w w' b e in
    (w₁, unless_empty-ok xs f w w₁ h p, q)
