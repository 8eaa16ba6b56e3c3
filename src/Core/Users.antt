-- ===== src/Core/Users.antt =====
-- A live change of the users of one inbound.
use hy_panel.Base.{String, ◌≡◌, ◌≢◌, refl, true, List, some, arith, length, eq_iff}
use hy_panel.Base.Assoc.{lookup, lookup-insert, has_string, is_some}
use hy_panel.Base.Outcome.{ok}
use hy_panel.Hysteria.{Service}
use hy_panel.Hysteria.Eviction.{AllAuthorised, replace_users-AllAuthorised}
use hy_panel.Core.{Core, update_inbound_users}

-- The live inbound of a tag knows exactly these passwords, and each of its live authenticated sessions
-- has one of them.
abbrev pub Serves : Core → String → List String → Type 0
Serves c tag passwords =
    (s : Service) × (lookup tag c.hysteria2 ≡ some s)
    × AllAuthorised s
    × ((k : String) → is_some (lookup k s.user_map) ≡ has_string k passwords)

-- A live change of the users of a Hysteria2 inbound that runs, with as many names as passwords,
-- succeeds; the inbound then serves the new users and has closed the sessions of all others, and
-- the other inbounds, of Hysteria2 or of another protocol, and the outbounds are what they were.
pub update_inbound_users-Serves :
    (tag : String) (names passwords : List String) (c : Core) (s : Service)
    → c.is_running ≡ true
    → lookup tag c.hysteria2 ≡ some s
    → length names ≡ length passwords
    → let (r, c') = update_inbound_users tag names passwords c in
      (r ≡ ok tt)
      × Serves c' tag passwords
      × ((tag' : String) → tag ≢ tag' → lookup tag' c'.hysteria2 ≡ lookup tag' c.hysteria2)
      × (c'.is_running ≡ true)
      × (c'.others ≡ c.others)
      × (c'.outbounds ≡ c.outbounds)
unfolding update_inbound_users
update_inbound_users-Serves tag names passwords c s up there len =
    let (t, e, a, k) = replace_users-AllAuthorised names passwords s len in
    rw (up, there, e)
      (
        refl,
        (t, ground (arith, lookup-insert tag tag t c.hysteria2, eq_iff tag tag), a, k),
        (λ tag' n. ground (arith, lookup-insert tag tag' t c.hysteria2, eq_iff tag tag')),
        refl,
        refl,
        refl,
      )
