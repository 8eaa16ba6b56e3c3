-- ===== src/Hysteria/Handshake.antt =====
-- serverSession.ServeHTTP and dispatchStream of service.go. The request is given as
-- protocol.AuthRequestFromHeader reads it; the masquerade handler and the congestion controllers are
-- named, not run.
use hy_panel.Base.{
  ℕ, ◌≤◌, ◌<◌, ◌⊎◌, String, ◌≡◌, Bool, true, false, not, ◌&&◌, ◌||◌, Option, none, some, ◌==◌, ltb,
  str_eq, if◌then◌else◌, arith,
}
use hy_panel.Base.Assoc.{Assoc, lookup, is_some}
use hy_panel.Hysteria.{Session}

pub record Request : Type 0 where
  pub method : String
  pub host : String
  pub path : String
  pub auth : String
  pub rx : ℕ

-- The options of the service that a handshake reads. Rates are in bytes per second.
pub record Options : Type 0 where
  pub send_bps : ℕ
  pub receive_bps : ℕ
  pub ignore_client_bandwidth : Bool
  pub udp_disabled : Bool

-- The constants of net/http and of the protocol package, which are not part of this repository.
pub record Protocol : Type 0 where
  pub method_post : String
  pub url_host : String
  pub url_path : String

pub data Response : Type 0 where
  masquerade : Response
  auth_ok : Bool → ℕ → Bool → Response

pub data Congestion : Type 0 where
  unchanged : Congestion
  brutal : ℕ → Congestion
  bbr : Congestion

pub record Served : Type 0 where
  pub session : Session
  pub response : Response
  pub congestion : Congestion

unfoldable pub is_auth_request : Protocol → Request → Bool
is_auth_request p r =
    str_eq r.method p.method_post && (str_eq r.host p.url_host && str_eq r.path p.url_path)

-- The guarded write of the authentication fields.
unfoldable pub authenticate : String → String → Session → Session
authenticate user auth x = record x { auth_user = user; auth_password = auth; authenticated = true }

-- The rate of the Brutal sender: the client's, cut to the server's limit if there is one.
unfoldable pub brutal_rate : Options → ℕ → ℕ
brutal_rate o rx = if ltb 0 o.send_bps && ltb o.send_bps rx then o.send_bps else rx

-- ServeHTTP behind the guarded write.
unfoldable pub negotiate : Options → Request → Session → Served
unfolding brutal_rate
negotiate o r x =
    if ltb 0 o.receive_bps && (o.ignore_client_bandwidth && r.rx == 0)
    then record { session = x; response = masquerade; congestion = unchanged }
    else if not (o.receive_bps == 0 && o.ignore_client_bandwidth) && ltb 0 r.rx
    then record {
      session = x;
      response = auth_ok (not o.udp_disabled) o.receive_bps false;
      congestion = brutal (brutal_rate o r.rx);
    }
    else record {
      session = x;
      response = auth_ok (not o.udp_disabled) o.receive_bps true;
      congestion = bbr;
    }

-- ServeHTTP behind the read of the user map.
unfoldable pub admit : Options → Request → Session → Option String → Served
unfolding negotiate authenticate
admit o r x none = record { session = x; response = masquerade; congestion = unchanged }
admit o r x (some user) = negotiate o r (authenticate user r.auth x)

-- ServeHTTP
unfoldable pub serve_http : Protocol → Options → Assoc String → Request → Session → Served
unfolding is_auth_request admit
serve_http p o users r x =
    if is_auth_request p r
    then if x.authenticated
      then record {
        session = x;
        response =
            auth_ok (not o.udp_disabled) o.receive_bps
              (o.receive_bps == 0 && o.ignore_client_bandwidth);
        congestion = unchanged;
      }
      else admit o r x (lookup r.auth users)
    else record { session = x; response = masquerade; congestion = unchanged }

-- What dispatchStream and handleStream do with a stream: leave it to HTTP/3, give it up, or hand it
-- to the inbound under the session's user.
pub data Dispatch : Type 0 where
  left_alone : Dispatch
  dropped : Dispatch
  proxied : String → Dispatch

-- What the environment says of a stream: whether an error came with it, whether its frame is a TCP
-- request, whether the frame type could be read and whether the request could.
pub record StreamEvent : Type 0 where
  pub failed : Bool
  pub is_tcp_request : Bool
  pub seeks : Bool
  pub reads : Bool

-- dispatchStream, and handleStream in its goroutine
unfoldable pub dispatch_stream : Session → StreamEvent → Dispatch
dispatch_stream x e =
    if not x.authenticated || e.failed
    then left_alone
    else if not e.is_tcp_request
    then left_alone
    else if not e.seeks
    then dropped
    else if not e.reads
    then dropped
    else proxied x.auth_user

-- A request authenticates a session exactly if it is a well-formed authentication request with a
-- password of the user map; a session that is authenticated stays so.
pub serve_http-authenticated :
    (p : Protocol) (o : Options) (users : Assoc String) (r : Request) (x : Session)
    → (serve_http p o users r x).session.authenticated
      ≡ (x.authenticated || (is_auth_request p r && is_some (lookup r.auth users)))
unfolding serve_http
serve_http-authenticated p o users r x = ground arith

-- The other fields of a session change only by the write that authenticates it.
pub serve_http-conn_done :
    (p : Protocol) (o : Options) (users : Assoc String) (r : Request) (x : Session)
    → ((serve_http p o users r x).session.conn_done ≡ x.conn_done)
      × ((serve_http p o users r x).session.id ≡ x.id)
unfolding serve_http
serve_http-conn_done p o users r x = ground arith

-- Whoever does not know a password of the user map, and is not authenticated yet, sees the
-- masquerade site only, and the session does not change at all.
pub serve_http_stranger :
    (p : Protocol) (o : Options) (users : Assoc String) (r : Request) (x : Session)
    → x.authenticated ≡ false
    → lookup r.auth users ≡ none
    → serve_http p o users r x
      ≡ record { session = x; response = masquerade; congestion = unchanged }
unfolding serve_http
serve_http_stranger p o users r x fresh unknown = ground arith

-- After a first handshake with a password of the user map, every TCP request on the session that
-- can be read is proxied under the name that the user map gives to this password; one that cannot
-- be read is dropped, and other streams are left to HTTP/3.
pub dispatch_stream-serve_http :
    (p : Protocol) (o : Options) (users : Assoc String) (r : Request) (x : Session)
    (e : StreamEvent) (user : String)
    → x.authenticated ≡ false
    → is_auth_request p r ≡ true
    → lookup r.auth users ≡ some user
    → dispatch_stream (serve_http p o users r x).session e ≡ (
        if e.failed || not e.is_tcp_request
        then left_alone
        else if e.seeks && e.reads
        then proxied user
        else dropped)
unfolding serve_http dispatch_stream
dispatch_stream-serve_http p o users r x e user fresh form known = ground arith

-- The server never lets the Brutal sender go faster than the client asked for, nor than its own
-- limit where it has one; and it answers `auth_ok` to the client whose sender it sets.
pub serve_http-brutal :
    (p : Protocol) (o : Options) (users : Assoc String) (r : Request) (x : Session) (rate : ℕ)
    → (serve_http p o users r x).congestion ≡ brutal rate
    → (rate ≤ r.rx)
      × (0 < rate)
      × ((o.send_bps ≡ 0) ⊎ (rate ≤ o.send_bps))
      × ((serve_http p o users r x).response ≡ auth_ok (not o.udp_disabled) o.receive_bps false)
unfolding serve_http
serve_http-brutal p o users r x rate h = ground arith

-- The handshake of a client that asks for no rate, at a server with a receive limit that ignores
-- the client's bandwidth, is answered by the masquerade site although the password is good; the
-- session is authenticated nevertheless, so that the next request is told `auth_ok`.
pub serve_http_refused_twice :
    (p : Protocol) (o : Options) (users : Assoc String) (r : Request) (x : Session) (user : String)
    → x.authenticated ≡ false
    → is_auth_request p r ≡ true
    → lookup r.auth users ≡ some user
    → 0 < o.receive_bps
    → o.ignore_client_bandwidth ≡ true
    → r.rx ≡ 0
    → ((serve_http p o users r x).response ≡ masquerade)
      × ((serve_http p o users r (serve_http p o users r x).session).response
          ≡ auth_ok (not o.udp_disabled) o.receive_bps false)
unfolding serve_http
serve_http_refused_twice p o users r x user fresh form known limit ignores rate = ground arith
