-- ===== src/Inbounds/Restart/Kept.antt =====
-- RestartInbounds of service/inbounds.go, for inbounds that are not Hysteria2 ones: the tables and the live
-- Hysteria2 inbounds behind it.
use hy_panel.Base.{
  ℕ, String, ◌≡◌, refl, sym, ap, ◌∙◌, Bool, true, false, not, ◌&&◌, Option, none, some, List, [],
  ◌∷◌, arith, str_eq, keep_if, has, any_of, All, Bool-cases, inl, inr, ◌==◌, if◌then◌else◌, ltb,
  map, ==_iff,
}
use hy_panel.Base.Assoc.{Assoc, lookup}
use hy_panel.Base.Outcome.{Outcome, ok, err, database_error}
use hy_panel.Base.Value.{Value}
use hy_panel.Core.{Core}
use hy_panel.Core.Inbounds.{InboundManager, add_inbound, remove_inbound}
use hy_panel.Hysteria.{Service}
use hy_panel.Database.{Client, Inbound, Tables, TlsRow}
use hy_panel.Database.Tx.{
  World, Tx, pure, fail, lift, ◌>>=◌, continue, query, read_core, call_core, next_fails,
  query->>=-ok, >>=-ok, pure-ok,
}
use hy_panel.Inbounds.{hy2_ids}
use hy_panel.Inbounds.Apply.{RestartKeeps, other_ids}
use hy_panel.Inbounds.Config.{
  InboundLib, select_users, fetch_users, with_users, add_users, config_of, has_user,
}
use hy_panel.Inbounds.Types.{is_hy2, has-hy2_ids, has-keep_if}
use hy_panel.Inbounds.Restart.{
  preload, find_inbounds, tls_row, restart_one, restart_each, restart_inbounds,
}
use hy_panel.Outbounds.{unless_invalid}

-- From a core with these live Hysteria2 inbounds, a transaction leaves them and the tables as they are.
record Steady (h : Assoc Service) {A : Type 0} (m : Tx A) : Type 0 where
  at :
      (w : World)
      → w.core.hysteria2 ≡ h
      → ((m w).1.tables ≡ w.tables) × ((m w).1.core.hysteria2 ≡ h)

module _ (h : Assoc Service) where
  module _ {A B : Type 0} where
    continue-Steady :
        (f : A → Tx B) (r : Outcome A) (u : World)
        → ((a : A) → r ≡ ok a → Steady h (f a))
        → u.core.hysteria2 ≡ h
        → ((continue r f u).1.tables ≡ u.tables) × ((continue r f u).1.core.hysteria2 ≡ h)
    continue-Steady f (ok a) u k e = (k a refl).at u e
    continue-Steady f (err x) u k e = (refl, e)

    -- What comes next may rely on where its argument is from.
    bound :
        (m : Tx A) (f : A → Tx B) (w : World)
        → Steady h m
        → ((a : A) → (m w).0 ≡ ok a → Steady h (f a))
        → w.core.hysteria2 ≡ h
        → (((m >>= f) w).1.tables ≡ w.tables) × (((m >>= f) w).1.core.hysteria2 ≡ h)
    unfolding ◌>>=◌
    bound m f w k l e =
        let (t, s) = k.at w e in
        let (t', s') = continue-Steady f (m w).0 (m w).1 l s in (t' ∙ t, s')

    Steady-bind :
        (m : Tx A) (f : A → Tx B) → Steady h m → ((a : A) → Steady h (f a)) → Steady h (m >>= f)
    Steady-bind m f k l = record { at = λ w e. bound m f w k (λ a q. l a) e }

  Steady-pure : {A : Type 0} (a : A) → Steady h (pure a)
  unfolding pure
  Steady-pure a = record { at = λ w e. (refl, e) }

  Steady-fail : {A : Type 0} (e : hy_panel.Base.Outcome.Error) → Steady h (fail {A = A} e)
  unfolding fail
  Steady-fail x = record { at = λ w e. (refl, e) }

  Steady-lift : {A : Type 0} (r : Outcome A) → Steady h (lift r)
  unfolding lift
  Steady-lift r = record { at = λ w e. (refl, e) }

  Steady-query : {A : Type 0} (f : Tables → A) → Steady h (query f)
  unfolding query
  Steady-query f = record {
    at = λ w e. elim (Bool-cases (next_fails w.faults)) [
      | inl k ↦ rw k (refl, e)
      | inr k ↦ rw k (refl, e)
    ];
  }

  Steady-read_core : {A : Type 0} (f : Core → A) → Steady h (read_core f)
  unfolding read_core
  Steady-read_core f = record { at = λ w e. (refl, e) }

  Steady-call_core :
      (f : Core → Outcome (Unit {0}) × Core)
      → ((c : Core) → c.hysteria2 ≡ h → (f c).1.hysteria2 ≡ h)
      → Steady h (call_core f)
  unfolding call_core
  Steady-call_core f k = record { at = λ w e. (refl, k w.core e) }

  either_at :
      {A : Type 0} (b : Bool) (m n : Tx A) (w : World)
      → ((m w).1.tables ≡ w.tables) × ((m w).1.core.hysteria2 ≡ h)
      → ((n w).1.tables ≡ w.tables) × ((n w).1.core.hysteria2 ≡ h)
      → let w' = ((if b then m else n) w).1 in (w'.tables ≡ w.tables) × (w'.core.hysteria2 ≡ h)
  either_at true m n w p q = p
  either_at false m n w p q = q

  Steady-if :
      {A : Type 0} (b : Bool) (m n : Tx A) → Steady h m → Steady h n → Steady h (if b then m else n)
  Steady-if b m n k l = record { at = λ w e. either_at b m n w (k.at w e) (l.at w e) }

  module _ (lib : InboundLib) where
    select_users-Steady :
        (member : String) (condition : Option (Client → Bool))
        → Steady h (select_users lib member condition)
    unfolding select_users
    select_users-Steady member none =
        Steady-bind _ _ (Steady-query _) (λ cs. Steady-fail database_error)
    select_users-Steady member (some p) = Steady-bind _ _ (Steady-query _) (λ column. Steady-lift _)

    fetch_users-Steady :
        (kind : String) (condition : Option (Client → Bool)) (inbound : Assoc Value)
        → Steady h (fetch_users lib kind condition inbound)
    unfolding fetch_users
    fetch_users-Steady kind condition inbound =
        Steady-if _ _ _ (Steady-pure _)
          (Steady-bind _ _ (select_users-Steady _ condition) (λ users. Steady-pure _))

    with_users-Steady :
        (kind : String) (condition : Option (Client → Bool)) (config : String)
        → Steady h (with_users lib kind condition config)
    unfolding with_users
    with_users-Steady kind condition config = Steady-bind _ _ (Steady-lift _) (λ inbound.
        Steady-bind _ _ (fetch_users-Steady kind condition _)
          (λ users. Steady-bind _ _ (Steady-lift _) (λ made. Steady-pure _)))

    config_of-Steady : (i : Inbound) (row : Option TlsRow) → Steady h (config_of lib i row)
    unfolding config_of add_users
    config_of-Steady i row = Steady-bind _ _ (Steady-lift _) (λ config.
        Steady-if (has_user i.type) _ _ (with_users-Steady i.type _ config) (Steady-pure config))

  find_inbounds-Steady : (p : Inbound → Bool) → Steady h (find_inbounds p)
  unfolding find_inbounds preload
  find_inbounds-Steady p = Steady-bind _ _ (Steady-query _) (λ is.
      Steady-bind _ _ (Steady-if _ _ _ (Steady-query _) (Steady-pure _))
        (λ rows. Steady-pure (is, rows)))

-- The manager of inbounds, and CloseConnByInbound, leave Hysteria2 inbounds alone that they are not asked for:
-- Remove of a tag under which none runs, and Create of an inbound of another type.
pub record LeavesHysteria2 (m : InboundManager) (close_connections : String → Core → Core)
    (lib : InboundLib) : Type 0 where
  pub remove :
      (tag : String) (c : Core)
      → lookup tag c.hysteria2 ≡ none
      → (m.remove tag c).1.hysteria2 ≡ c.hysteria2
  pub create :
      (i : Inbound) (row : Option TlsRow) (w : World) (config : String) (c : Core)
      → str_eq i.type "hysteria2" ≡ false
      → (config_of lib i row w).0 ≡ ok config
      → (m.create config c).1.hysteria2 ≡ c.hysteria2
  pub close : (tag : String) (c : Core) → (close_connections tag c).hysteria2 ≡ c.hysteria2

-- An inbound of another type, under whose tag none of these runs
abbrev Other : Assoc Service → Inbound → Type 0
Other h i = (str_eq i.type "hysteria2" ≡ false) × (lookup i.tag h ≡ none)

unless_invalid-core : (r : Outcome (Unit {0}) × Core) → (unless_invalid r).1 ≡ r.1
unfolding unless_invalid
unless_invalid-core (r, c) = ground arith

either_core :
    (h : Assoc Service) (b : Bool) (x y : Outcome (Unit {0}) × Core)
    → x.1.hysteria2 ≡ h
    → y.1.hysteria2 ≡ h
    → (if b then x else y).1.hysteria2 ≡ h
either_core h true x y p q = p
either_core h false x y p q = q

module _ (m : InboundManager) (close_connections : String → Core → Core) (lib : InboundLib)
    (k : LeavesHysteria2 m close_connections lib) (h : Assoc Service) where
  removed-same :
      (tag : String) (c : Core)
      → lookup tag h ≡ none
      → c.hysteria2 ≡ h
      → (unless_invalid (remove_inbound m tag c)).1.hysteria2 ≡ h
  unfolding remove_inbound
  removed-same tag c n e =
      ap (λ (z : Core). z.hysteria2) (unless_invalid-core _)
      ∙ either_core h c.is_running _ _ (k.remove tag c (ap (lookup tag) e ∙ n) ∙ e) e

  added-same :
      (config : String)
      → ((c : Core) → (m.create config c).1.hysteria2 ≡ c.hysteria2)
      → (c : Core) → c.hysteria2 ≡ h
      → (add_inbound m config c).1.hysteria2 ≡ h
  unfolding add_inbound
  added-same config made c e =
      either_core h c.is_running _ _ (either_core h (m.reads config) _ _ (made c ∙ e) e) e

  restart_one-Steady :
      (rows : List TlsRow) (i : Inbound)
      → Other h i
      → Steady h (restart_one m close_connections lib rows i)
  unfolding restart_one
  restart_one-Steady rows i o =
      Steady-bind h _ _ (Steady-call_core h _ (λ c e. removed-same i.tag c o.1 e)) (λ u.
        Steady-bind h _ _ (Steady-call_core h _ (λ c e. k.close i.tag c ∙ e)) (λ v. record {
          at = λ w e.
              bound h (config_of lib i (tls_row i.tls_id rows))
                (λ config. call_core (add_inbound m config)) w
                (config_of-Steady h lib i (tls_row i.tls_id rows))
                (λ config q.
                  Steady-call_core h _
                    (added-same config (λ c. k.create i (tls_row i.tls_id rows) w config c o.0 q)))
                e;
        }))

  restart_each-Steady :
      (rows : List TlsRow) (is : List Inbound)
      → All (Other h) is
      → Steady h (restart_each m close_connections lib rows is)
  unfolding restart_each
  restart_each-Steady rows [] o = Steady-pure h tt
  restart_each-Steady rows (i ∷ is) o =
      Steady-bind h _ _ (restart_one-Steady rows i o.0) (λ u. restart_each-Steady rows is o.1)

find_inbounds-from :
    (p : Inbound → Bool) (w : World) (found : List Inbound × List TlsRow)
    → (find_inbounds p w).0 ≡ ok found
    → found.0 ≡ keep_if p w.tables.inbounds
unfolding find_inbounds
find_inbounds-from p w found e =
    let (w₁, t₁, e₁) =
      query->>=-ok _ _ w (find_inbounds p w).1 found (ap (λ r. (r, (find_inbounds p w).1)) e) in
    let (rows, w₂, f, e₂) = >>=-ok _ _ w₁ (find_inbounds p w).1 found e₁ in
    ap (λ (z : List Inbound × List TlsRow). z.0) (pure-ok _ _ w₂ _ e₂).0

-- The rows with the ids that are restarted are none of Hysteria2 inbounds.
others_only :
    (o : List ℕ) (rows : List Inbound)
    → ((x : ℕ) → has x o ≡ true → is_hy2 x rows ≡ false)
    → All (λ i. has i.id o ≡ true → str_eq i.type "hysteria2" ≡ false) rows
others_only o [] h = tt
others_only o (r ∷ rs) h = (
  (λ k. ground (arith, h r.id k, ==_iff r.id r.id)),
  others_only o rs (λ x k. ground (arith, h x k)),
)

found_others :
    (h : Assoc Service) (o : List ℕ) (rows : List Inbound)
    → All (λ i. has i.id o ≡ true → str_eq i.type "hysteria2" ≡ false) rows
    → All (λ i. str_eq i.type "hysteria2" ≡ false → lookup i.tag h ≡ none) rows
    → All (Other h) (keep_if (λ i. has i.id o) rows)
found_others h o [] t a = tt
found_others h o (r ∷ rs) t a = elim (Bool-cases (has r.id o)) [
  | inl k ↦ rw k ((t.0 k, a.0 (t.0 k)), found_others h o rs t.1 a.1)
  | inr k ↦ rw k (found_others h o rs t.1 a.1)
]

not_hy2 :
    (ids : List ℕ) (rows : List Inbound) (x : ℕ)
    → has x (other_ids ids rows) ≡ true
    → is_hy2 x rows ≡ false
not_hy2 ids rows x k =
    ground
      (arith, k, has-keep_if (λ n. not (has n (hy2_ids ids rows))) x ids, has-hy2_ids x ids rows)

pub restart_inbounds-RestartKeeps :
    (m : InboundManager) (close_connections : String → Core → Core) (lib : InboundLib)
    → LeavesHysteria2 m close_connections lib
    → RestartKeeps (restart_inbounds m close_connections lib)
unfolding restart_inbounds ◌>>=◌ read_core
restart_inbounds-RestartKeeps m close_connections lib k = record {
  keeps = λ ids w u apart.
      let o = other_ids ids w.tables.inbounds in
      let h = w.core.hysteria2 in
      either_at h w.core.is_running _ _ w
        (bound h (find_inbounds (λ i. has i.id o)) _ w (find_inbounds-Steady h _)
          (λ found e. restart_each-Steady m close_connections lib k h found.1 found.0 (
            rw (find_inbounds-from (λ i. has i.id o) w found e) (
              found_others h o w.tables.inbounds
                (others_only o w.tables.inbounds (not_hy2 ids w.tables.inbounds)) apart)))
          refl)
        ((Steady-pure h tt).at w refl);
}
