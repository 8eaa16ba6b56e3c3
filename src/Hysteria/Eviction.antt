-- ===== src/Hysteria/Eviction.antt =====
-- What a change of the user set does to the sessions of a Hysteria2 server.
use hy_panel.Base.{
  ℕ, ◌<◌, String, ◌≡◌, refl, true, false, ◌||◌, Option, none, some, ◌==◌, List, [], ◌∷◌, arith,
  length, All, first_of?,
}
use hy_panel.Base.Assoc.{Assoc, lookup, insert, lookup-insert, has_string, is_some}
use hy_panel.Hysteria.{Session, Service, fill_users, evict, replace_users}

-- A live authenticated session has a password of the user map.
abbrev pub IsAuthorised : Assoc String → Session → Type 0
IsAuthorised m x =
    x.authenticated ≡ true → x.conn_done ≡ false → is_some (lookup x.auth_password m) ≡ true

abbrev pub AllAuthorised : Service → Type 0
AllAuthorised s = All (IsAuthorised s.user_map) s.sessions

abbrev pub find_session : ℕ → List Session → Option Session
find_session id = first_of? (λ x. x.id == id)

fill_users_total :
    (users pws : List String) (m : Assoc String)
    → length users ≡ length pws
    → (t : Assoc String) × (fill_users users pws m ≡ some t)
unfolding fill_users
fill_users_total [] pws m h = (m, refl)
fill_users_total (u ∷ us) [] m h = absurd (omega arith)
fill_users_total (u ∷ us) (p ∷ ps) m h = fill_users_total us ps (insert p u m) (omega arith)

-- The map knows exactly the passwords that were put into it.
lookup-fill_users :
    (k : String) (users pws : List String) (m t : Assoc String)
    → length users ≡ length pws
    → fill_users users pws m ≡ some t
    → is_some (lookup k t) ≡ (has_string k pws || is_some (lookup k m))
unfolding fill_users
lookup-fill_users k [] [] m t h e = ground arith
lookup-fill_users k [] (p ∷ ps) m t h e = absurd (omega arith)
lookup-fill_users k (u ∷ us) [] m t h e = absurd (omega arith)
lookup-fill_users k (u ∷ us) (p ∷ ps) m t h e =
    ground
      (arith, lookup-fill_users k us ps (insert p u m) t (omega arith) e, lookup-insert p k u m)

evict-AllAuthorised :
    (passwords : List String) (m : Assoc String) (xs : List Session)
    → ((k : String) → has_string k passwords ≡ true → is_some (lookup k m) ≡ true)
    → All (IsAuthorised m) (evict passwords xs)
unfolding evict
evict-AllAuthorised passwords m [] h = tt
evict-AllAuthorised passwords m (x ∷ xs) h =
    (ground (arith, h x.auth_password), evict-AllAuthorised passwords m xs h)

-- Replacing the user set by as many passwords as names succeeds; the new map knows exactly these
-- passwords, and every live session that is authenticated has one of them.
pub replace_users-AllAuthorised :
    (names passwords : List String) (s : Service)
    → length names ≡ length passwords
    → (t : Service) × (replace_users names passwords s ≡ some t)
      × AllAuthorised t
      × ((k : String) → is_some (lookup k t.user_map) ≡ has_string k passwords)
unfolding replace_users lookup
replace_users-AllAuthorised names passwords s h =
    let (m, e) = fill_users_total names passwords [] h in
    let known : (k : String) → is_some (lookup k m) ≡ has_string k passwords =
      λ k. ground (arith, lookup-fill_users k names passwords [] m h e) in
    (
      record { user_map = m; sessions = evict passwords s.sessions },
      ground arith,
      evict-AllAuthorised passwords m s.sessions (λ k p. ground (arith, known k)),
      known,
    )

fill_users_panic :
    (users pws : List String) (m : Assoc String)
    → length pws < length users
    → fill_users users pws m ≡ none
unfolding fill_users
fill_users_panic [] pws m h = absurd (omega arith)
fill_users_panic (u ∷ us) [] m h = refl
fill_users_panic (u ∷ us) (p ∷ ps) m h = fill_users_panic us ps (insert p u m) (omega arith)

find_session-evict :
    (id : ℕ) (passwords : List String) (xs : List Session) (x : Session)
    → find_session id xs ≡ some x
    → has_string x.auth_password passwords ≡ true
    → find_session id (evict passwords xs) ≡ some x
unfolding evict
find_session-evict id passwords [] x e h = cc
find_session-evict id passwords (y ∷ ys) x e h =
    ground (arith, find_session-evict id passwords ys x)

-- After a change of the user set that succeeds, a session whose password stays in the set is the
-- same, closed or not.
pub replace_users_undisturbed :
    (names passwords : List String) (s t : Service) (id : ℕ) (x : Session)
    → replace_users names passwords s ≡ some t
    → find_session id s.sessions ≡ some x
    → has_string x.auth_password passwords ≡ true
    → find_session id t.sessions ≡ some x
unfolding replace_users
replace_users_undisturbed names passwords s t id x e found kept =
    ground (arith, find_session-evict id passwords s.sessions x found kept)
