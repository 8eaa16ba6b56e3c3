-- ===== src/Examples/Sessions.antt =====
-- A Hysteria2 server with two users, of whom one goes.
use hy_panel.Base.{
  ℕ, ◌≤◌, ◌<◌, ◌⊎◌, String, ◌≡◌, refl, true, false, none, some, List, [], ◌∷◌, arith,
}
use hy_panel.Base.Assoc.{lookup, insert, has_string, is_some}
use hy_panel.Base.Outcome.{ok}
use hy_panel.Hysteria.{Session, Service, replace_users, add_session}
use hy_panel.Hysteria.Handshake.{
  Protocol, Options, Request, StreamEvent, masquerade, auth_ok, proxied, serve_http,
  dispatch_stream, is_auth_request, serve_http-authenticated, dispatch_stream-serve_http,
  serve_http-brutal, serve_http_refused_twice,
}
use hy_panel.Hysteria.Eviction.{AllAuthorised, find_session, replace_users-AllAuthorised}
use hy_panel.Hysteria.Reachable.{
  here, next, connects, serves, replaces, new_service, serve, finish, Reach-AllAuthorised,
  finish_after_replace,
}
use hy_panel.Hysteria.Stream.{
  Call, WriteResult, fail, succeed, send, run, accepted, AnsweredOnce, run-AnsweredOnce,
}
use hy_panel.Core.{Core, update_inbound_users}
use hy_panel.Core.Users.{Serves, update_inbound_users-Serves}

abbrev protocol : Protocol
protocol = record { method_post = "POST"; url_host = "hysteria"; url_path = "/auth" }

abbrev limited : Options
limited = record {
  send_bps = 1000;
  receive_bps = 500;
  ignore_client_bandwidth = false;
  udp_disabled = false;
}

abbrev ignoring : Options
ignoring = record limited { ignore_client_bandwidth = true }

abbrev ask : String → ℕ → Request
ask auth rx = record { method = "POST"; host = "hysteria"; path = "/auth"; auth = auth; rx = rx }

abbrev fresh : Session
fresh = record {
  id = 1;
  authenticated = false;
  auth_user = "";
  auth_password = "";
  conn_done = false;
  conn_err = none;
}

abbrev alice : Session
alice = record fresh { id = 2; authenticated = true; auth_user = "alice"; auth_password = "a" }

abbrev server : Service
server = record { user_map = ("a", "alice") ∷ ("b", "bob") ∷ []; sessions = fresh ∷ alice ∷ [] }

abbrev alice_only : Service
alice_only = record server { user_map = ("a", "alice") ∷ [] }

alice_only_lem : replace_users ("alice" ∷ []) ("a" ∷ []) server ≡ some alice_only
unfolding replace_users insert
alice_only_lem = refl

serve_http-authenticated_example :
    (serve_http protocol limited server.user_map (ask "b" 200) fresh).session.authenticated ≡ true
unfolding is_auth_request lookup
serve_http-authenticated_example =
    serve_http-authenticated protocol limited server.user_map (ask "b" 200) fresh

abbrev request_stream : StreamEvent
request_stream = record { failed = false; is_tcp_request = true; seeks = true; reads = true }

dispatch_stream-serve_http_example :
    dispatch_stream
      (serve_http protocol limited server.user_map (ask "b" 200) fresh).session
      request_stream
    ≡ proxied "bob"
unfolding lookup is_auth_request
dispatch_stream-serve_http_example =
    dispatch_stream-serve_http protocol limited server.user_map (ask "b" 200) fresh request_stream
      "bob" refl refl refl

serve_http-brutal_example :
    (1000 ≤ 2000)
    × (0 < 1000)
    × ((◌≡◌ {A = ℕ} 1000 0) ⊎ (1000 ≤ 1000))
    × ((serve_http protocol limited server.user_map (ask "b" 2000) fresh).response
        ≡ auth_ok true 500 false)
unfolding lookup serve_http is_auth_request
serve_http-brutal_example =
    serve_http-brutal protocol limited server.user_map (ask "b" 2000) fresh 1000 refl

serve_http_refused_twice_example :
    ((serve_http protocol ignoring server.user_map (ask "b" 0) fresh).response ≡ masquerade)
    × ((serve_http protocol ignoring server.user_map
          (ask "b" 0)
          (serve_http protocol ignoring server.user_map (ask "b" 0) fresh).session).response
        ≡ auth_ok true 500 false)
unfolding lookup is_auth_request
serve_http_refused_twice_example =
    serve_http_refused_twice protocol ignoring server.user_map (ask "b" 0) fresh "bob" refl refl
      refl (ground arith) refl refl

replace_users-AllAuthorised_example :
    (t : Service) × (replace_users ("alice" ∷ []) ("a" ∷ []) server ≡ some t)
    × AllAuthorised t
    × ((k : String) → is_some (lookup k t.user_map) ≡ has_string k ("a" ∷ []))
replace_users-AllAuthorised_example =
    replace_users-AllAuthorised ("alice" ∷ []) ("a" ∷ []) server refl

-- A user set, a connection and its handshake.
abbrev opened : Service
opened = add_session 1 (record { user_map = ("a", "alice") ∷ []; sessions = [] })

opened_lem :
    replace_users ("alice" ∷ []) ("a" ∷ []) new_service
    ≡ some (record { user_map = ("a", "alice") ∷ []; sessions = [] })
unfolding replace_users new_service insert
opened_lem = refl

Reach-AllAuthorised_example : AllAuthorised (serve protocol limited 1 (ask "a" 200) opened)
Reach-AllAuthorised_example = Reach-AllAuthorised protocol limited (
    next (next (next here (replaces ("alice" ∷ []) ("a" ∷ []) _ refl opened_lem)) (connects 1))
      (serves 1 (ask "a" 200)))

-- The handshake of a user who is removed before its end.
finish_after_replace_example :
    (y : Session) × (find_session 1
        (finish limited 1 (ask "b" 200) (some "bob") alice_only).sessions
      ≡ some y)
    × (y.authenticated ≡ true)
    × (y.conn_done ≡ false)
    × (lookup y.auth_password (finish limited 1 (ask "b" 200) (some "bob") alice_only).user_map
        ≡ none)
unfolding lookup
finish_after_replace_example =
    finish_after_replace limited (ask "b" 200) 1 fresh "bob" ("alice" ∷ []) ("a" ∷ []) server
      alice_only refl refl refl refl refl refl alice_only_lem

abbrev calls : List (Call × WriteResult)
calls =
    (send (1 ∷ []), record { count = 1; failed = true })
    ∷ (succeed, record { count = 0; failed = false })
    ∷ (send (2 ∷ []), record { count = 1; failed = false })
    ∷ (fail "late", record { count = 0; failed = false })
    ∷ []

run-AnsweredOnce_example : AnsweredOnce (run accepted calls) (run accepted calls).sent
run-AnsweredOnce_example = run-AnsweredOnce calls

abbrev core : Core
core = record {
  is_running = true;
  hysteria2 = ("hy2", server) ∷ [];
  others = "vless" ∷ [];
  outbounds = [];
}

update_inbound_users-Serves_example :
    let (r, c) = update_inbound_users "hy2" ("alice" ∷ []) ("a" ∷ []) core in
    (r ≡ ok tt)
    × Serves c "hy2" ("a" ∷ [])
    × ((tag : String) → ("hy2" ≡ tag → ⊥) → lookup tag c.hysteria2 ≡ lookup tag core.hysteria2)
    × (c.is_running ≡ true)
    × (c.others ≡ "vless" ∷ [])
    × (c.outbounds ≡ [])
unfolding lookup
update_inbound_users-Serves_example =
    update_inbound_users-Serves "hy2" ("alice" ∷ []) ("a" ∷ []) core server refl refl refl
