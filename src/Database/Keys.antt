-- ===== src/Database/Keys.antt =====
-- Rows of clients that are found by their ids.
use hy_panel.Base.{
  ℕ, ◌≡◌, refl, ◌∙◌, sym, ap, Bool, true, false, some, List, [], ◌∷◌, map, arith, ◌==◌, ==_iff,
  if◌then◌else◌, any_of, has, first_of?, All, Bool-cases, inl, inr,
}
use hy_panel.Database.{Client}
use hy_panel.Database.Rows.{IsTable, ids_of}

only_one :
    (id : ℕ) (r : Client) (rows : List Client)
    → has id (ids_of rows) ≡ false
    → All (λ c. (c.id == id) ≡ true → c ≡ r) rows
only_one id r [] h = tt
only_one id r (c ∷ cs) h = ((λ e. ground arith), only_one id r cs (ground arith))

-- A row that was found by its id is the only one with it, and its id is not 0.
pub found_row :
    (id : ℕ) (rows : List Client) (r : Client)
    → IsTable rows
    → first_of? (λ c. c.id == id) rows ≡ some r
    → (r.id ≡ id)
      × ((id == 0) ≡ false)
      × (has id (ids_of rows) ≡ true)
      × All (λ c. (c.id == id) ≡ true → c ≡ r) rows
found_row id [] r v e = cc
found_row id (c ∷ cs) r v e = elim (Bool-cases (c.id == id)) [
  | inl h ↦
      let same : c ≡ r = ground arith in
      let one : c.id ≡ id = (==_iff c.id id).0 h in
      let absent : has id (ids_of cs) ≡ false = ground (arith, v.unique) in
      (
        ap (λ (x : Client). x.id) (sym same) ∙ one,
        ground (arith, v.positive.0),
        ground arith,
        ((λ k. same), only_one id r cs absent),
      )
  | inr h ↦
      let rest =
        found_row id cs r (record { unique = ground (arith, v.unique); positive = v.positive.1 })
          (ground arith) in
      (rest.0, rest.1, ground (arith, rest.2), ((λ k. ground arith), rest.3))
]

-- A test of rows that the new row passes exactly if the old one does.
pub any_of-replace :
    (p : Client → Bool) (id : ℕ) (new : Client) (rows : List Client)
    → All (λ r. (r.id == id) ≡ true → p r ≡ p new) rows
    → any_of p (map (λ r. if r.id == id then new else r) rows) ≡ any_of p rows
any_of-replace p id new [] h = refl
any_of-replace p id new (r ∷ rs) h =
    let head : p (if r.id == id then new else r) ≡ p r = ground (arith, h.0) in
    ground (arith, head, any_of-replace p id new rs h.1)
