-- ===== src/Clients/Deplete/Coverage.antt =====
-- Which inbounds DepleteClients names to its caller, which then brings their users up to date.
use hy_panel.Base.{
  ℕ, ◌≡◌, ◌≢◌, refl, ◌∙◌, Bool, true, not, ◌&&◌, ◌||◌, List, [], ◌∷◌, map, arith, keep_if, has,
  any_of, All,
}
use hy_panel.Arrays.{MapOrder, union_uint_array, has-union_uint_array}
use hy_panel.Database.{Client}
use hy_panel.Database.Json.{Json}
use hy_panel.Clients.Limits.{is_depleted}
use hy_panel.Clients.Reset.{is_due, enabled_inbounds}
use hy_panel.Clients.Reset.Rowwise.{reset_row}
use hy_panel.Clients.Deplete.{disable_row, depleted_inbounds}
use hy_panel.Clients.Deplete.Rowwise.{deplete_row, disabled, touched}

module _ (json : Json) (order : MapOrder) where
  abbrev attached : ℕ → Client → Bool
  attached x c = has x (json.ids c.inbounds).0

  has-depleted_inbounds :
      (x : ℕ) (cs : List Client) (ids : List ℕ)
      → has x (depleted_inbounds json order cs ids) ≡ (any_of (attached x) cs || has x ids)
  unfolding depleted_inbounds
  has-depleted_inbounds x [] ids = refl
  has-depleted_inbounds x (c ∷ cs) ids = ground (
    arith,
    has-depleted_inbounds x cs (union_uint_array order ids (json.ids c.inbounds).0),
    has-union_uint_array order x ids (json.ids c.inbounds).0,
  )

  has-enabled_inbounds :
      (x : ℕ) (cs : List Client) (ids : List ℕ)
      → has x (enabled_inbounds json order cs ids)
        ≡ (any_of (λ c. not c.enable && (not c.banned && attached x c)) cs || has x ids)
  unfolding enabled_inbounds
  has-enabled_inbounds x [] ids = refl
  has-enabled_inbounds x (c ∷ cs) ids = ground (
    arith,
    has-enabled_inbounds x cs ids,
    has-enabled_inbounds x cs (union_uint_array order ids (json.ids c.inbounds).0),
    has-union_uint_array order x ids (json.ids c.inbounds).0,
  )

any_of-keep_if :
    (p q : Client → Bool) (rows : List Client)
    → any_of p (keep_if q rows) ≡ any_of (λ c. q c && p c) rows
any_of-keep_if p q [] = refl
any_of-keep_if p q (c ∷ cs) = ground (arith, any_of-keep_if p q cs)

any_of-map :
    (p : Client → Bool) (f : Client → Client) (rows : List Client)
    → any_of p (map f rows) ≡ any_of (λ c. p (f c)) rows
any_of-map p f [] = refl
any_of-map p f (c ∷ cs) = ground (arith, any_of-map p f cs)

All-weaken :
    (P Q : Client → Type 0) (rows : List Client)
    → ((c : Client) → P c → Q c)
    → All P rows
    → All Q rows
All-weaken P Q [] h a = tt
All-weaken P Q (c ∷ cs) h a = (h c a.0, All-weaken P Q cs h a.1)

-- A test that a row passes is passed by some row.
All-any_of :
    (p : Client → Bool) (rows : List Client) → All (λ c. p c ≡ true → any_of p rows ≡ true) rows
All-any_of p [] = tt
All-any_of p (c ∷ cs) =
    ((λ h. ground arith), All-weaken _ _ cs (λ d k h. ground (arith, k h)) (All-any_of p cs))

reset_row-inbounds : (dt : ℕ) (c : Client) → (reset_row dt c).inbounds ≡ c.inbounds
unfolding reset_row
reset_row-inbounds dt c = ground arith

-- Why a client's `enable` has changed.
abbrev pub changes_row : ℕ → Client → Bool
changes_row dt c =
    is_depleted dt (reset_row dt c) || (is_due dt c && (not c.enable && not c.banned))

reset_row-enable :
    (dt : ℕ) (c : Client)
    → (reset_row dt c).enable ≢ c.enable
    → (is_due dt c && (not c.enable && not c.banned)) ≡ true
unfolding reset_row
reset_row-enable dt c h = ground arith

deplete_row-enable :
    (dt : ℕ) (c : Client) → (deplete_row dt c).enable ≢ c.enable → changes_row dt c ≡ true
unfolding deplete_row disable_row
deplete_row-enable dt c h = ground (arith, reset_row-enable dt c)

-- Two selections of rows, together.
any_of-or :
    (p q r : Client → Bool) (rows : List Client)
    → ((c : Client) → r c ≡ (p c || q c))
    → any_of r rows ≡ (any_of p rows || any_of q rows)
any_of-or p q r [] h = refl
any_of-or p q r (c ∷ cs) h = ground (arith, h c, any_of-or p q r cs h)

module _ (json : Json) (order : MapOrder) (dt : ℕ) where
  has-touched :
      (x : ℕ) (rows : List Client)
      → has x (touched json order dt rows)
        ≡ any_of (λ c. changes_row dt c && attached json order x c) rows
  unfolding touched
  has-touched x rows =
      let p : Client → Bool =
        λ c. is_depleted dt (reset_row dt c) && attached json order x (reset_row dt c) in
      let q : Client → Bool =
        λ c. is_due dt c && (not c.enable && (not c.banned && attached json order x c)) in
      let due = keep_if (is_due dt) rows in
      let both =
        any_of-or p q (λ c. changes_row dt c && attached json order x c) rows
          (λ c. ground (arith, reset_row-inbounds dt c)) in
      ground (
        arith,
        both,
        has-depleted_inbounds json order x (disabled dt rows) (enabled_inbounds json order due []),
        has-enabled_inbounds json order x due [],
        any_of-keep_if (λ c. not c.enable && (not c.banned && attached json order x c)) (is_due dt)
            rows,
        any_of-keep_if (attached json order x) (is_depleted dt) (map (reset_row dt) rows),
        any_of-map (λ c. is_depleted dt c && attached json order x c) (reset_row dt) rows,
      )

  -- Every inbound of a client whose `enable` changes is among the ids that DepleteClients returns.
  pub touched_covers :
      (x : ℕ) (rows : List Client)
      → All
          (λ c.
            (deplete_row dt c).enable ≢ c.enable
            → has x (json.ids c.inbounds).0 ≡ true
            → has x (touched json order dt rows) ≡ true)
          rows
  touched_covers x rows =
      All-weaken _ _ rows
        (λ c k changed own.
          has-touched x rows ∙ k (ground (arith, deplete_row-enable dt c changed)))
        (All-any_of (λ c. changes_row dt c && attached json order x c) rows)
