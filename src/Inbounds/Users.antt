-- ===== src/Inbounds/Users.antt =====
-- Who is in the live user set of a Hysteria2 inbound.
use hy_panel.Base.{
  ℕ, String, ◌≡◌, refl, Bool, false, not, ◌&&◌, none, some, List, [], ◌∷◌, map, arith, str_eq,
  eq_iff, has, any_of, length, Option-cases, inl, inr,
}
use hy_panel.Base.Assoc.{has_string}
use hy_panel.Database.{Client}
use hy_panel.Database.Json.{Json}
use hy_panel.Inbounds.{Hy2Row, hy2_users}

-- Whether the config of a client has this password for Hysteria2.
unfoldable pub has_password : Json → String → Client → Bool
has_password json pw c = elim (json.hysteria2_password c.config) [
  | none ↦ false
  | some p ↦ str_eq p pw
]

-- A client that may use a Hysteria2 inbound by a password: enabled, not banned, attached to it.
unfoldable pub may_use : Json → ℕ → String → Client → Bool
unfolding has_password
may_use json id pw c =
    c.enable && (not c.banned && (has id (json.json_each c.inbounds) && has_password json pw c))

abbrev pub live_names : Json → ℕ → List Client → List String
live_names json id cs = map (λ r. r.name) (hy2_users json id cs)

abbrev pub live_passwords : Json → ℕ → List Client → List String
live_passwords json id cs = map (λ r. r.password) (hy2_users json id cs)

pub length-live_names :
    (json : Json) (id : ℕ) (cs : List Client)
    → length (live_names json id cs) ≡ length (live_passwords json id cs)
length-live_names json id cs = go (hy2_users json id cs)
  where
    go :
        (rows : List Hy2Row) → length (map (λ r. r.name) rows) ≡ length (map (λ r. r.password) rows)
    go [] = refl
    go (r ∷ rs) = ground (arith, go rs)

-- A password is in the live user set of an inbound exactly if it is not empty and some client that
-- is enabled, not banned and attached to the inbound has it.
pub has_string-live_passwords :
    (json : Json) (id : ℕ) (pw : String) (cs : List Client)
    → has_string pw (live_passwords json id cs)
      ≡ (not (str_eq pw "") && any_of (may_use json id pw) cs)
unfolding hy2_users may_use
has_string-live_passwords json id pw [] = ground arith
has_string-live_passwords json id pw (c ∷ cs) =
    elim (Option-cases (json.hysteria2_password c.config)) [
      | inl e ↦ rw (e, has_password) (ground (arith, has_string-live_passwords json id pw cs))
      | inr (p, e) ↦
          rw (e, has_password)
            (ground (
              arith,
              has_string-live_passwords json id pw cs,
              eq_iff p pw,
              eq_iff p "",
              eq_iff pw "",
            ))
    ]
