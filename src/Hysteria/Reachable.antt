-- ===== src/Hysteria/Reachable.antt =====
-- Histories of a Hysteria2 server, with handshakes that are taken in one step and with handshakes that
-- a change of the user set interrupts.
use hy_panel.Base.{
  ℕ, String, ◌≡◌, refl, subst, Bool, true, false, Option, none, some, List, [], ◌∷◌, arith, length,
  All, keep_if,
}
use hy_panel.Base.Assoc.{Assoc, lookup, has_string}
use hy_panel.Hysteria.{
  Session, Service, CloseReason, close_with_error, replace_users, add_session, remove_session,
  update_session, evict,
}
use hy_panel.Hysteria.Handshake.{Protocol, Options, Request, serve_http, admit}
use hy_panel.Hysteria.Eviction.{
  IsAuthorised, AllAuthorised, find_session, replace_users-AllAuthorised,
}

-- NewService
unfoldable pub new_service : Service
new_service = record { user_map = []; sessions = [] }

-- The context's goroutine of ServeHTTP closes a session when the server ends.
pub close_session : CloseReason → ℕ → Service → Service
close_session reason id s = record s {
  sessions = update_session id (close_with_error reason) s.sessions;
}

-- A whole run of ServeHTTP on a registered session.
unfoldable pub serve : Protocol → Options → ℕ → Request → Service → Service
serve p o id r s = record s {
  sessions = update_session id (λ x. (serve_http p o s.user_map r x).session) s.sessions;
}

-- The events of a server whose handshakes are not interrupted.
pub data Step (p : Protocol) (o : Options) (s : Service) : Service → Type 0 where
  connects : (id : ℕ) → Step p o s (add_session id s)
  serves : (id : ℕ) (r : Request) → Step p o s (serve p o id r s)
  ends : (id : ℕ) → Step p o s (remove_session id s)
  closes : (reason : CloseReason) (id : ℕ) → Step p o s (close_session reason id s)
  replaces :
      (names passwords : List String) (t : Service)
      → length names ≡ length passwords
      → replace_users names passwords s ≡ some t
      → Step p o s t

pub data Reach (p : Protocol) (o : Options) (s : Service) : Service → Type 0 where
  here : Reach p o s s
  next : {t u : Service} → Reach p o s t → Step p o t u → Reach p o s u

keep_if-AllAuthorised :
    (m : Assoc String) (q : Session → Bool) (xs : List Session)
    → All (IsAuthorised m) xs
    → All (IsAuthorised m) (keep_if q xs)
keep_if-AllAuthorised m q [] h = tt
keep_if-AllAuthorised m q (x ∷ xs) h =
    let rest = keep_if-AllAuthorised m q xs h.1 in ground (arith, h.0, rest)

update_session-AllAuthorised :
    (m : Assoc String) (id : ℕ) (f : Session → Session) (xs : List Session)
    → ((x : Session) → IsAuthorised m x → IsAuthorised m (f x))
    → All (IsAuthorised m) xs
    → All (IsAuthorised m) (update_session id f xs)
unfolding update_session
update_session-AllAuthorised m id f [] k h = tt
update_session-AllAuthorised m id f (x ∷ xs) k h =
    let rest = update_session-AllAuthorised m id f xs k h.1 in ground (arith, h.0, k x h.0, rest)

serve_http-IsAuthorised :
    (p : Protocol) (o : Options) (m : Assoc String) (r : Request) (x : Session)
    → IsAuthorised m x
    → IsAuthorised m (serve_http p o m r x).session
unfolding serve_http
serve_http-IsAuthorised p o m r x h = ground arith

close_with_error-IsAuthorised :
    (m : Assoc String) (reason : CloseReason) (x : Session)
    → IsAuthorised m x
    → IsAuthorised m (close_with_error reason x)
unfolding close_with_error
close_with_error-IsAuthorised m reason x h = ground arith

Step-AllAuthorised :
    {p : Protocol} {o : Options} {s t : Service} → Step p o s t → AllAuthorised s → AllAuthorised t
unfolding add_session remove_session serve close_session
Step-AllAuthorised (connects id) h = ((λ a. cc), h)
Step-AllAuthorised {p} {o} {s} (serves id r) h =
    update_session-AllAuthorised s.user_map id _ s.sessions
      (serve_http-IsAuthorised p o s.user_map r) h
Step-AllAuthorised {s = s} (ends id) h = keep_if-AllAuthorised s.user_map _ s.sessions h
Step-AllAuthorised {s = s} (closes reason id) h =
    update_session-AllAuthorised s.user_map id _ s.sessions
      (close_with_error-IsAuthorised s.user_map reason) h
Step-AllAuthorised {s = s} {t = t} (replaces names passwords t' len e) h =
    let (u, e', auth, _) = replace_users-AllAuthorised names passwords s len in
    let same : u ≡ t' = cc in subst AllAuthorised same auth

-- In every history of connections, whole handshakes, closings and changes of the user set, from a
-- new server on, each live authenticated session has a password of the current user map.
pub Reach-AllAuthorised :
    (p : Protocol) (o : Options) {s : Service} → Reach p o new_service s → AllAuthorised s
unfolding new_service
Reach-AllAuthorised p o here = tt
Reach-AllAuthorised p o (next r st) = Step-AllAuthorised st (Reach-AllAuthorised p o r)

find_session-update_session :
    (id : ℕ) (f : Session → Session) (xs : List Session) (x : Session)
    → ((y : Session) → (f y).id ≡ y.id)
    → find_session id xs ≡ some x
    → find_session id (update_session id f xs) ≡ some (f x)
unfolding update_session
find_session-update_session id f [] x k e = cc
find_session-update_session id f (y ∷ ys) x k e =
    ground (arith, k y, find_session-update_session id f ys x k)

find_session-evict_fresh :
    (id : ℕ) (passwords : List String) (xs : List Session) (x : Session)
    → find_session id xs ≡ some x
    → x.authenticated ≡ false
    → find_session id (evict passwords xs) ≡ some x
unfolding evict
find_session-evict_fresh id passwords [] x e h = cc
find_session-evict_fresh id passwords (y ∷ ys) x e h =
    ground (arith, find_session-evict_fresh id passwords ys x)

replace_users_misses :
    (names passwords : List String) (s t : Service) (id : ℕ) (x : Session)
    → replace_users names passwords s ≡ some t
    → find_session id s.sessions ≡ some x
    → x.authenticated ≡ false
    → find_session id t.sessions ≡ some x
unfolding replace_users
replace_users_misses names passwords s t id x e found fresh =
    ground (arith, find_session-evict_fresh id passwords s.sessions x found fresh)

replace_users_forgets :
    (names passwords : List String) (s t : Service) (auth : String) (y : Session)
    → length names ≡ length passwords
    → replace_users names passwords s ≡ some t
    → has_string auth passwords ≡ false
    → y.auth_password ≡ auth
    → lookup y.auth_password t.user_map ≡ none
replace_users_forgets names passwords s t auth y len e gone own =
    let (u, e', _, knows) = replace_users-AllAuthorised names passwords s len in
    ground (arith, knows auth)

-- The end of a run of ServeHTTP that read its answer from the user map before.
unfoldable pub finish : Options → ℕ → Request → Option String → Service → Service
finish o id r answer s = record s {
  sessions = update_session id (λ x. (admit o r x answer).session) s.sessions;
}

admit-id :
    (o : Options) (r : Request) (a : Option String) (x : Session)
    → (admit o r x a).session.id ≡ x.id
unfolding admit
admit-id o r none x = refl
admit-id o r (some u) x = ground arith

-- A handshake on a fresh live session that has read the user map, and writes the session only after
-- a change of the user set that takes its password away, leaves a live authenticated session whose
-- password the user map does not know.
pub finish_after_replace :
    (o : Options) (r : Request) (id : ℕ) (x : Session) (user : String)
    (names passwords : List String) (s t : Service)
    → find_session id s.sessions ≡ some x
    → x.authenticated ≡ false
    → x.conn_done ≡ false
    → lookup r.auth s.user_map ≡ some user
    → has_string r.auth passwords ≡ false
    → length names ≡ length passwords
    → replace_users names passwords s ≡ some t
    → (y : Session) × (find_session id (finish o id r (lookup r.auth s.user_map) t).sessions
        ≡ some y)
      × (y.authenticated ≡ true)
      × (y.conn_done ≡ false)
      × (lookup y.auth_password (finish o id r (lookup r.auth s.user_map) t).user_map ≡ none)
unfolding finish admit
finish_after_replace o r id x user names passwords s t found fresh live known gone len e =
    let x' = (admit o r x (lookup r.auth s.user_map)).session in
    let there : find_session id t.sessions ≡ some x =
      replace_users_misses names passwords s t id x e found fresh in
    (
      x',
      find_session-update_session id _ t.sessions x (admit-id o r (lookup r.auth s.user_map)) there,
      ground arith,
      ground arith,
      replace_users_forgets names passwords s t r.auth x' len e gone (ground arith),
    )
