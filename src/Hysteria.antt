-- ===== src/Hysteria.antt =====
-- forks/patched-files/sing-quic/hysteria2/service.go: the users and the sessions of a Hysteria2
-- server. A session is named by a number that stands for its pointer. Logging is left out.
pub mod Handshake
pub mod Eviction
pub mod Reachable
pub mod Stream
use hy_panel.Base.{
  ℕ, String, Bool, true, false, Option, none, some, List, [], ◌∷◌, ◌==◌, if◌then◌else◌, keep_if,
  not, ◌&&◌,
}
use hy_panel.Base.Assoc.{Assoc, insert, has_string}

-- Why a connection was closed: by the panel, or by the end of the server's context.
pub data CloseReason : Type 0 where
  user_removed : CloseReason
  context_done : CloseReason

-- serverSession: the fields that this development speaks of. `conn_done` is the closed channel.
pub record Session : Type 0 where
  pub id : ℕ
  pub authenticated : Bool
  pub auth_user : String
  pub auth_password : String
  pub conn_done : Bool
  pub conn_err : Option CloseReason

-- Service: the password map and the registry of live sessions.
pub record Service : Type 0 where
  pub user_map : Assoc String
  pub sessions : List Session

-- The loop of UpdateUsers; `none` is the panic of an index that is out of range.
unfoldable pub fill_users : List String → List String → Assoc String → Option (Assoc String)
fill_users [] passwords m = some m
fill_users (user ∷ users) [] m = none
fill_users (user ∷ users) (pw ∷ pws) m = fill_users users pws (insert pw user m)

-- UpdateUsers
unfoldable pub update_users : List String → List String → Service → Option Service
unfolding fill_users
update_users users passwords s = elim (fill_users users passwords []) [
  | none ↦ none
  | some m ↦ some (record s { user_map = m })
]

-- closeWithError: the first reason stays.
pub close_with_error : CloseReason → Session → Session
close_with_error reason x =
    if x.conn_done then x else record x { conn_done = true; conn_err = some reason }

-- The test by which RetainUsers chooses its victims.
unfoldable pub is_victim : List String → Session → Bool
is_victim passwords x =
    if not x.authenticated then false else not (has_string x.auth_password passwords)

evict : List String → List Session → List Session
unfolding is_victim close_with_error
evict passwords [] = []
evict passwords (x ∷ xs) =
    (if is_victim passwords x then close_with_error user_removed x else x) ∷ evict passwords xs

-- RetainUsers
unfoldable pub retain_users : List String → Service → Service
unfolding evict
retain_users passwords s = record s { sessions = evict passwords s.sessions }

-- Core.UpdateInboundUsers of core/endpoint.go, on the inbound that it found.
unfoldable pub replace_users : List String → List String → Service → Option Service
unfolding update_users retain_users
replace_users names passwords s = elim (update_users names passwords s) [
  | none ↦ none
  | some t ↦ some (retain_users passwords t)
]

-- handleConnection registers a new session, and addSession puts it into the registry.
unfoldable pub add_session : ℕ → Service → Service
add_session id s = record s {
  sessions =
      record {
        id = id;
        authenticated = false;
        auth_user = "";
        auth_password = "";
        conn_done = false;
        conn_err = none;
      }
      ∷ s.sessions;
}

-- removeSession
pub remove_session : ℕ → Service → Service
remove_session id s = record s { sessions = keep_if (λ x. not (x.id == id)) s.sessions }

-- A write to one session through its pointer.
pub update_session : ℕ → (Session → Session) → List Session → List Session
update_session id f [] = []
update_session id f (x ∷ xs) = (if x.id == id then f x else x) ∷ update_session id f xs
