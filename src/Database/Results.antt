-- ===== src/Database/Results.antt =====
-- Values that a query or a parser may not give, as results of a transaction.
use hy_panel.Base.{◌≡◌, Bool, true, false, Option, none, some, arith}
use hy_panel.Base.Outcome.{Outcome, ok, err, not_found, json_error}
use hy_panel.Database.Tx.{World, lift}

-- First, whose error says that there is no row.
unfoldable pub found : {A : Type 0} → Option A → Outcome A
found none = err not_found
found (some a) = ok a

-- json.Unmarshal whose error is returned.
unfoldable pub parsed : {A : Type 0} → A × Bool → Outcome A
parsed (a, true) = ok a
parsed (a, false) = err json_error

unfoldable pub decoded : {A : Type 0} → Option A → Outcome A
decoded none = err json_error
decoded (some a) = ok a

pub found-ok :
    {A : Type 0} (x : Option A) (w w' : World) (a : A)
    → lift (found x) w ≡ (ok a, w')
    → (x ≡ some a) × (w'.tables ≡ w.tables)
unfolding lift found
found-ok none w w' a e = cc
found-ok (some x) w w' a e = ground arith

pub decoded-ok :
    {A : Type 0} (x : Option A) (w w' : World) (a : A)
    → lift (decoded x) w ≡ (ok a, w')
    → (x ≡ some a) × (w'.tables ≡ w.tables)
unfolding lift decoded
decoded-ok none w w' a e = cc
decoded-ok (some x) w w' a e = ground arith

pub parsed-ok :
    {A : Type 0} (x : A × Bool) (w w' : World) (a : A)
    → lift (parsed x) w ≡ (ok a, w')
    → (x ≡ (a, true)) × (w'.tables ≡ w.tables)
unfolding lift parsed
parsed-ok (x, true) w w' a e = ground arith
parsed-ok (x, false) w w' a e = cc
