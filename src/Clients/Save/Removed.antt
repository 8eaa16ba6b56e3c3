-- ===== src/Clients/Save/Removed.antt =====
-- What the removal of clients means for those who use the inbounds.
use hy_panel.Base.{
  ℕ, String, ◌≡◌, refl, ◌∙◌, sym, ap, true, false, not, ◌||◌, some, List, [], ◌∷◌, arith, ◌==◌,
  keep_if, any_of, has, first_of?, All, Bool-cases, inl, inr,
}
use hy_panel.Base.Outcome.{ok}
use hy_panel.Arrays.{MapOrder, union_uint_array, has-union_uint_array}
use hy_panel.Database.{Client, Tables}
use hy_panel.Database.Json.{ClientJson}
use hy_panel.Database.Tx.{World, pure-ok, >>=-ok, query->>=-ok, execute-ok}
use hy_panel.Database.Rows.{IsTable}
use hy_panel.Database.Keys.{found_row}
use hy_panel.Database.Results.{found-ok, parsed-ok}
use hy_panel.Inbounds.Users.{may_use}
use hy_panel.Clients.Save.{delete_clients, inbounds_of_each, save_delbulk}

module _ (j : ClientJson) (order : MapOrder) (rows : List Client) (x : ℕ) where
  -- Nobody with this id is attached to the inbound.
  abbrev Away : ℕ → Type 0
  Away id = All (λ r. (r.id == id) ≡ true → has x (j.base.json_each r.inbounds) ≡ false) rows

  away :
      (id : ℕ) (c : Client) (own : List ℕ)
      → IsTable rows
      → first_of? (λ r. r.id == id) rows ≡ some c
      → j.base.ids c.inbounds ≡ (own, true)
      → has x own ≡ false
      → Away id
  away id c own v e reads h =
      let (same, nonzero, there, only) = found_row id rows c v e in
      let none : has x (j.base.json_each c.inbounds) ≡ false =
        ap (has x) (j.json_each-ids c.inbounds own reads) ∙ h in
      go rows none only
    where
      go :
          (l : List Client)
          → has x (j.base.json_each c.inbounds) ≡ false
          → All (λ r. (r.id == id) ≡ true → r ≡ c) l
          → All (λ r. (r.id == id) ≡ true → has x (j.base.json_each r.inbounds) ≡ false) l
      go [] n a = tt
      go (r ∷ rs) n a =
          ((λ k. ap (λ z. has x (j.base.json_each z.inbounds)) (a.0 k) ∙ n), go rs n a.1)

  inbounds_of_each-Away :
      (ids all result : List ℕ) (w w' : World)
      → IsTable rows
      → w.tables.clients ≡ rows
      → inbounds_of_each j order ids all w ≡ (ok result, w')
      → has x result ≡ false
      → (w'.tables ≡ w.tables) × (has x all ≡ false) × All Away ids
  unfolding inbounds_of_each
  inbounds_of_each-Away [] all result w w' v s e h =
      let (q, t) = pure-ok all result w w' e in (t, ap (has x) (sym q) ∙ h, tt)
  inbounds_of_each-Away (id ∷ ids) all result w w' v s e h =
      let (w₁, t₁, e₁) = query->>=-ok _ _ w w' result e in
      let (c, w₂, f₂, e₂) = >>=-ok _ _ w₁ w' result e₁ in
      let (there, t₂) = found-ok _ w₁ w₂ c f₂ in
      let (own, w₃, f₃, e₃) = >>=-ok _ _ w₂ w' result e₂ in
      let (reads, t₃) = parsed-ok _ w₂ w₃ own f₃ in
      let before : w₃.tables ≡ w.tables = t₃ ∙ t₂ ∙ t₁ in
      let (after, left, rest) =
        inbounds_of_each-Away ids (union_uint_array order all own) result w₃ w' v
          (ap (λ t. t.clients) before ∙ s) e₃ h in
      let u = has-union_uint_array order x all own in
      let misses : has x own ≡ false = ground (arith, left, u) in
      (
        after ∙ before,
        ground (arith, left, u),
        (away id c own v (ap (first_of? (λ r. r.id == id)) (sym s) ∙ there) reads misses, rest),
      )

  none_named :
      (l : List Client)
      → All (λ r. has r.id [] ≡ true → has x (j.base.json_each r.inbounds) ≡ false) l
  none_named [] = tt
  none_named (r ∷ rs) = ((λ k. cc k), none_named rs)

  either_named :
      (id : ℕ) (ids : List ℕ) (l : List Client)
      → All (λ r. (r.id == id) ≡ true → has x (j.base.json_each r.inbounds) ≡ false) l
      → All (λ r. has r.id ids ≡ true → has x (j.base.json_each r.inbounds) ≡ false) l
      → All (λ r. has r.id (id ∷ ids) ≡ true → has x (j.base.json_each r.inbounds) ≡ false) l
  either_named id ids [] a b = tt
  either_named id ids (r ∷ rs) a b = (
    (λ k. elim (Bool-cases (r.id == id)) [ inl h ↦ a.0 h | inr h ↦ b.0 (ground arith) ]),
    either_named id ids rs a.1 b.1,
  )

  named :
      (ids : List ℕ)
      → All Away ids
      → All (λ r. has r.id ids ≡ true → has x (j.base.json_each r.inbounds) ≡ false) rows
  named [] a = none_named rows
  named (id ∷ ids) a = either_named id ids rows a.0 (named ids a.1)

module _ (j : ClientJson) (x : ℕ) (pw : String) where
  any_of-left :
      (ids : List ℕ) (l : List Client)
      → All (λ r. has r.id ids ≡ true → has x (j.base.json_each r.inbounds) ≡ false) l
      → any_of (may_use j.base x pw) (keep_if (λ c. not (has c.id ids)) l)
        ≡ any_of (may_use j.base x pw) l
  any_of-left ids [] a = refl
  any_of-left ids (r ∷ rs) a = elim (Bool-cases (has r.id ids)) [
    | inl h ↦
        let gone : may_use j.base x pw r ≡ false = unfold may_use in ground (arith, a.0 h) in
        rw h (any_of-left ids rs a.1 ∙ ground (arith, gone))
    | inr h ↦ rw h (ap (◌||◌ (may_use j.base x pw r)) (any_of-left ids rs a.1))
  ]

none_left :
    (ids : List ℕ) (l : List Client)
    → any_of (λ c. has c.id ids) (keep_if (λ c. not (has c.id ids)) l) ≡ false
none_left ids [] = refl
none_left ids (r ∷ rs) = ground (arith, none_left ids rs)

deleted :
    (j : ClientJson) (order : MapOrder) (ids each : List ℕ) (w₁ w₂ : World) (t : Tables) (x : ℕ)
    (pw : String)
    → IsTable t.clients
    → w₁.tables ≡ t
    → inbounds_of_each j order ids [] w₁ ≡ (ok each, w₂)
    → has x each ≡ false
    → (any_of (λ c. has c.id ids) (delete_clients ids w₂.tables).clients ≡ false)
      × (any_of (may_use j.base x pw) (delete_clients ids w₂.tables).clients
          ≡ any_of (may_use j.base x pw) t.clients)
unfolding delete_clients
deleted j order ids each w₁ w₂ t x pw v s e h =
    let (after, left, apart) =
      inbounds_of_each-Away j order t.clients x ids [] each w₁ w₂ v (ap (λ z. z.clients) s) e h in
    (
      none_left ids w₂.tables.clients,
      ap (λ z. any_of (may_use j.base x pw) (keep_if (λ c. not (has c.id ids)) z.clients))
            (after ∙ s)
          ∙ any_of-left j x pw ids t.clients (named j order t.clients x ids apart),
    )

-- On a table whose ids are unique and not 0, a removal of several clients that returns inbounds has
-- left no client of the given ids, and every inbound that is not among the returned ones has the
-- same passwords of clients that may use it.
pub save_delbulk-may_use :
    (j : ClientJson) (order : MapOrder) (text : String) (ids all : List ℕ) (w w' : World) (x : ℕ)
    (pw : String)
    → IsTable w.tables.clients
    → j.base.ids text ≡ (ids, true)
    → save_delbulk j order text w ≡ (ok all, w')
    → has x all ≡ false
    → (any_of (λ c. has c.id ids) w'.tables.clients ≡ false)
      × (any_of (may_use j.base x pw) w'.tables.clients
          ≡ any_of (may_use j.base x pw) w.tables.clients)
unfolding save_delbulk delete_clients
save_delbulk-may_use j order text ids all w w' x pw v reads e h =
    let (read, w₁, f₁, e₁) = >>=-ok _ _ w w' all e in
    let (q₁, t₁) = parsed-ok _ w w₁ read f₁ in
    let (each, w₂, f₂, e₂) = >>=-ok _ _ w₁ w' all e₁ in
    let (u, w₃, f₃, e₃) = >>=-ok _ _ w₂ w' all e₂ in
    let q₄ = pure-ok _ all w₃ w' e₃ in
    let same : read ≡ ids = sym (ap (λ z. z.0) q₁) ∙ ap (λ z. z.0) reads in
    let (gone, kept) =
      deleted j order read each w₁ w₂ w.tables x pw v t₁ f₂ (ap (has x) (sym q₄.0) ∙ h) in
    let after : w'.tables ≡ delete_clients read w₂.tables = q₄.1 ∙ execute-ok _ w₂ w₃ f₃ in
    (
      ap (λ z. any_of (λ c. has c.id z) w'.tables.clients) (sym same)
          ∙ ap (λ t. any_of (λ c. has c.id read) t.clients) after
          ∙ gone,
      ap (λ t. any_of (may_use j.base x pw) t.clients) after ∙ kept,
    )
