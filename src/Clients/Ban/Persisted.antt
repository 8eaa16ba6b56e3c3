-- ===== src/Clients/Ban/Persisted.antt =====
-- A ban is in the tables, whole, exactly if BanClient returns nil.
use hy_panel.Base.{
  ℕ, String, ◌≡◌, refl, ◌∙◌, ap, Bool, true, false, Bool-cases, some, List, [], ◌∷◌, ◌++◌, map,
  ◌==◌, if◌then◌else◌, first_of?, arith, inl, inr,
}
use hy_panel.Base.Outcome.{Outcome, ok, err}
use hy_panel.Core.{Core}
use hy_panel.Database.{Client, Tables}
use hy_panel.Database.Json.{Json}
use hy_panel.Database.Results.{found-ok, parsed-ok}
use hy_panel.Database.Tx.{
  World, Tx, pure, lift, continue, ◌>>=◌, ◌>>◌, query, query->>=-ok, execute, execute-ok, >>=-ok,
  pure-ok, read_core, call_core, set_last_update, attempt, unless_empty, next_fails, later,
  checked_transaction, checked_finish,
}
use hy_panel.Inbounds.{
  update_running, update_users_of, update_each, apply_running, apply_user_changes,
}
use hy_panel.Clients.Ban.{ban_row, ban_change, ban_body, ban_client, update_banned, create_change}

-- Code that leaves a part of the world as it is.
pub record Leaves {S A : Type 0} (see : World → S) (m : Tx A) : Type 0 where
  pub at : (w : World) → see (m w).1 ≡ see w

module _ {S A B : Type 0} (see : World → S) where
  Leaves-bind :
      (m : Tx A) (f : A → Tx B) → Leaves see m → ((a : A) → Leaves see (f a)) → Leaves see (m >>= f)
  unfolding ◌>>=◌
  Leaves-bind m f h k = record { at = λ w. go (m w).0 (m w).1 ∙ h.at w }
    where
      go : (r : Outcome A) (w' : World) → see (continue r f w').1 ≡ see w'
      go (ok a) w' = (k a).at w'
      go (err e) w' = refl

module _ {S A : Type 0} (see : World → S) where
  Leaves-lift : (r : Outcome A) → Leaves see (lift r)
  unfolding lift
  Leaves-lift r = record { at = λ w. refl }

  Leaves-pure : (a : A) → Leaves see (pure a)
  unfolding pure
  Leaves-pure a = record { at = λ w. refl }

  Leaves-read_core : (f : Core → A) → Leaves see (read_core f)
  unfolding read_core
  Leaves-read_core f = record { at = λ w. refl }

-- What a transaction does not touch.
abbrev beside : World → Core × ℕ
beside w = (w.core, w.last_update)

beside-query : {A : Type 0} (f : Tables → A) → Leaves beside (query f)
unfolding query
beside-query f = record { at = λ w. ground arith }

beside-execute : (f : Tables → Tables) → Leaves beside (execute f)
unfolding execute
beside-execute f = record { at = λ w. ground arith }

-- Code that writes no table.
abbrev pub Keeps : {A : Type 0} → Tx A → Type 0
Keeps = Leaves (λ w. w.tables)

Keeps-call_core : (f : Core → Outcome (Unit {0}) × Core) → Keeps (call_core f)
unfolding call_core
Keeps-call_core f = record { at = λ w. refl }

Keeps-query : {A : Type 0} (f : Tables → A) → Keeps (query f)
unfolding query
Keeps-query f = record { at = λ w. ground arith }

module _ {A : Type 0} where
  Keeps-if : (b : Bool) (m n : Tx A) → Keeps m → Keeps n → Keeps (if b then m else n)
  Keeps-if true m n h k = h
  Keeps-if false m n h k = k

  Keeps-unless_empty : (xs : List A) (m : Tx (Unit {0})) → Keeps m → Keeps (unless_empty xs m)
  unfolding unless_empty
  Keeps-unless_empty [] m h = Leaves-pure _ tt
  Keeps-unless_empty (x ∷ xs) m h = h

module _ (json : Json) (restart : List ℕ → Tx (Unit {0}))
    (kept : (ids : List ℕ) → Keeps (restart ids)) where
  update_users_of-Keeps : (id : ℕ) → Keeps (update_users_of json id)
  unfolding update_users_of update_running
  update_users_of-Keeps id = Leaves-bind _ _ _ (Leaves-read_core _ _) λ running.
      Keeps-if running _ _
        (Leaves-bind _ _ _ (Keeps-query _) λ tag.
          Keeps-if _ _ _ (Leaves-pure _ tt)
            (Leaves-bind _ _ _ (Keeps-query _) λ users. Keeps-call_core _))
        (Leaves-pure _ tt)

  update_each-Keeps : (ids : List ℕ) → Keeps (update_each json ids)
  unfolding update_each
  update_each-Keeps [] = Leaves-pure _ tt
  update_each-Keeps (id ∷ ids) =
      Leaves-bind _ _ _ (update_users_of-Keeps id) λ u. update_each-Keeps ids

  apply_live-Keeps : (ids : List ℕ) (b : Bool) → Keeps (apply_running json restart (ok b) ids)
  unfolding apply_running
  apply_live-Keeps ids false = Keeps-unless_empty _ _ (kept _)
  apply_live-Keeps ids true =
      Leaves-bind _ _ _ (Keeps-query _)
        λ set. Leaves-bind _ _ _ (update_each-Keeps _) λ u. Keeps-unless_empty _ _ (kept _)

  apply_running-Keeps :
      (live : Outcome Bool) (ids : List ℕ) → Keeps (apply_running json restart live ids)
  apply_running-Keeps (ok b) ids = apply_live-Keeps ids b
  apply_running-Keeps (err e) ids = unfold apply_running in apply_live-Keeps ids true

  pub apply_user_changes-Keeps :
      (live : Outcome Bool) (ids : List ℕ) → Keeps (apply_user_changes json restart live ids)
  unfolding apply_user_changes
  apply_user_changes-Keeps live ids = Leaves-bind _ _ _ (Leaves-read_core _ _) λ running.
      Keeps-if running _ _ (Keeps-unless_empty _ _ (apply_running-Keeps live ids))
        (Leaves-pure _ tt)

ban_body-beside :
    (json : Json) (id : ℕ) (banned : Bool) (login_user : String) (now : ℕ)
    → Leaves beside (ban_body json id banned login_user now)
unfolding ban_body
ban_body-beside json id banned login_user now = Leaves-bind _ _ _ (beside-query _) λ row.
    Leaves-bind _ _ _ (Leaves-lift _ _) λ client. Leaves-bind _ _ _ (Leaves-lift _ _) λ ids.
      Leaves-bind _ _ _ (beside-execute _)
        λ u. Leaves-bind _ _ _ (beside-execute _) λ v. Leaves-pure _ _

-- The tables after a ban, or the end of one.
pub record Recorded (json : Json) (id : ℕ) (banned : Bool) (login_user : String) (now : ℕ)
    (before after : Tables) (ids : List ℕ) : Type 0 where
  pub client : Client
  pub there : first_of? (λ c. c.id == id) before.clients ≡ some client
  pub parses : json.ids client.inbounds ≡ (ids, true)
  pub clients : after.clients ≡ map (ban_row id now banned client) before.clients
  pub changes : after.changes ≡ before.changes ++ ban_change json now banned login_user client ∷ []

pub ban_body-Recorded :
    (json : Json) (id : ℕ) (banned : Bool) (login_user : String) (now : ℕ) (w w' : World)
    (ids : List ℕ)
    → ban_body json id banned login_user now w ≡ (ok ids, w')
    → Recorded json id banned login_user now w.tables w'.tables ids
unfolding ban_body update_banned create_change
ban_body-Recorded json id banned login_user now w w' ids e =
    let (w₁, t₁, e₁) = query->>=-ok _ _ w w' ids e in
    let (client, w₂, f₂, e₂) = >>=-ok _ _ w₁ w' ids e₁ in
    let (there, t₂) = found-ok _ w₁ w₂ client f₂ in
    let (ids', w₃, f₃, e₃) = >>=-ok _ _ w₂ w' ids e₂ in
    let (parses, t₃) = parsed-ok _ w₂ w₃ ids' f₃ in
    let (u, w₄, f₄, e₄) = >>=-ok _ _ w₃ w' ids e₃ in
    let t₄ = execute-ok _ w₃ w₄ f₄ in
    let (v, w₅, f₅, e₅) = >>=-ok _ _ w₄ w' ids e₄ in
    let t₅ = execute-ok _ w₄ w₅ f₅ in
    let (same, t₆) = pure-ok ids' ids w₅ w' e₅ in
    let start : w₃.tables ≡ w.tables = t₃ ∙ t₂ ∙ t₁ in
    record {
      client = client;
      there = there;
      parses = rw same parses;
      clients = rw (t₆, t₅, t₄, start) refl;
      changes = rw (t₆, t₅, t₄, start) refl;
    }

-- What BanClient may return, and what it leaves.
abbrev pub Persisted : Json → ℕ → Bool → String → ℕ → World → Outcome (Unit {0}) × World → Type 0
Persisted json id banned login_user now w (err e, u) =
    (u.tables ≡ w.tables) × (u.core ≡ w.core) × (u.last_update ≡ w.last_update)
Persisted json id banned login_user now w (ok r, u) =
    (u.last_update ≡ now)
    × ((ids : List ℕ) × Recorded json id banned login_user now w.tables u.tables ids)

finish-Persisted :
    (json : Json) (restart : List ℕ → Tx (Unit {0})) (live : Outcome Bool) (id : ℕ) (banned : Bool)
    (login_user : String) (now : ℕ) (w : World)
    → ((ids : List ℕ) → Keeps (restart ids))
    → (r : Outcome (List ℕ)) (w' : World) → ban_body json id banned login_user now w ≡ (r, w')
    → beside w' ≡ beside w
    → let (s, u) = checked_finish w.tables r w' in
      Persisted json id banned login_user now w (
        continue s
          (λ ids. attempt (apply_user_changes json restart live ids) >> set_last_update now)
          u)
unfolding checked_finish ◌>>=◌ attempt set_last_update
finish-Persisted json restart live id banned login_user now w kept (err e) w' p q =
    (refl, ground arith, ground arith)
finish-Persisted json restart live id banned login_user now w kept (ok ids) w' p q =
    elim (Bool-cases (next_fails w'.faults)) [
      | inl f ↦ rw f (refl, ground arith, ground arith)
      | inr f ↦
          let d = ban_body-Recorded json id banned login_user now w w' ids p in
          let same =
            (apply_user_changes-Keeps json restart kept live ids).at
              (record w' { faults = later w'.faults }) in
          rw f (
            refl,
            (
              ids,
              record {
                client = d.client;
                there = d.there;
                parses = d.parses;
                clients = ap (λ (t : Tables). t.clients) same ∙ d.clients;
                changes = ap (λ (t : Tables). t.changes) same ∙ d.changes;
              },
            ),
          )
    ]

-- Whichever statements fail, whatever the core does with the change, and where a restart of
-- inbounds writes no table: BanClient returns an error and leaves the tables, the core and
-- LastUpdate as they were; or it returns nil, the client with this id was there, exactly its row
-- holds the ban (or its end) and what follows from it for `enable`, one change is noted, and
-- LastUpdate is now.
pub ban_client-Persisted :
    (json : Json) (restart : List ℕ → Tx (Unit {0})) (live : Outcome Bool) (id : ℕ) (banned : Bool)
    (login_user : String) (now : ℕ) (w : World)
    → ((ids : List ℕ) → Keeps (restart ids))
    → Persisted json id banned login_user now w
        (ban_client json restart live id banned login_user now w)
unfolding ban_client ◌>>=◌ checked_transaction
ban_client-Persisted json restart live id banned login_user now w kept =
    finish-Persisted json restart live id banned login_user now w kept
      (ban_body json id banned login_user now w).0 (ban_body json id banned login_user now w).1 refl
      ((ban_body-beside json id banned login_user now).at w)
