-- ===== src/Tracker/Conn.antt =====
-- core/tracker_conn.go. The mutex makes each operation on the map one step. A connection is named by a
-- number that stands for its net.Conn or PacketConn; a UUID is an argument.
pub mod Closing
pub mod History
use hy_panel.Base.{
  ℕ, suc, String, Bool, true, false, not, Option, none, some, List, [], ◌∷◌, ◌++◌, str_eq,
  if◌then◌else◌,
}
use hy_panel.Base.Assoc.{Assoc, insert, remove}

-- The two values of ConnectionInfo.Type.
pub data Kind : Type 0 where
  tcp : Kind
  udp : Kind

-- ConnectionInfo
pub record ConnectionInfo : Type 0 where
  pub id : String
  pub conn : Option ℕ
  pub packet_conn : Option ℕ
  pub inbound : String
  pub kind : Kind

-- ConnTracker, with the connections that were closed, the last first.
pub record ConnTracker : Type 0 where
  pub connections : Assoc ConnectionInfo
  pub closed : List ℕ

-- wrappedConn and wrappedPacketConn; `untracked` says that untrackOnce has run.
pub record WrappedConn : Type 0 where
  pub conn : ℕ
  pub conn_id : String
  pub untracked : Bool

-- NewConnTracker
unfoldable pub new_conn_tracker : ConnTracker
new_conn_tracker = record { connections = []; closed = [] }

-- The Close calls that an entry is given, in front of those made before.
close_handle : Option ℕ → List ℕ → List ℕ
close_handle none closed = closed
close_handle (some c) closed = c ∷ closed

close_info : ConnectionInfo → List ℕ → List ℕ
unfolding close_handle
close_info i closed = close_handle i.packet_conn (close_handle i.conn closed)

close_all : Assoc ConnectionInfo → List ℕ → List ℕ
unfolding close_info
close_all [] closed = closed
close_all ((k, i) ∷ m) closed = close_all m (close_info i closed)

-- Reset
pub reset : ConnTracker → ConnTracker
unfolding close_all
reset t = record { connections = []; closed = close_all t.connections t.closed }

pub track_connection : String → ConnectionInfo → ConnTracker → ConnTracker
track_connection id i t = record t { connections = insert id i t.connections }

pub untrack_connection : String → ConnTracker → ConnTracker
untrack_connection id t = record t { connections = remove id t.connections }

-- createWrappedConn, createWrappedPacketConn
create_wrapped_conn : ℕ → String → WrappedConn
create_wrapped_conn conn id = record { conn = conn; conn_id = id; untracked = false }

-- RoutedConnection, under the UUID that generateConnectionID makes
pub routed_connection : String → ℕ → String → ConnTracker → ConnTracker × WrappedConn
unfolding create_wrapped_conn track_connection
routed_connection id conn inbound t = (
  track_connection id
      (record { id = id; conn = some conn; packet_conn = none; inbound = inbound; kind = tcp }) t,
  create_wrapped_conn conn id,
)

-- RoutedPacketConnection
pub routed_packet_connection : String → ℕ → String → ConnTracker → ConnTracker × WrappedConn
unfolding create_wrapped_conn track_connection
routed_packet_connection id conn inbound t = (
  track_connection id
      (record { id = id; conn = none; packet_conn = some conn; inbound = inbound; kind = udp }) t,
  create_wrapped_conn conn id,
)

-- The loop of CloseConnByInbound: the entries that stay, the closed connections and the count.
pub record Sweep : Type 0 where
  pub left : Assoc ConnectionInfo
  pub closed : List ℕ
  pub count : ℕ

pub sweep : String → Assoc ConnectionInfo → List ℕ → Sweep
unfolding close_info
sweep inbound [] closed = record { left = []; closed = closed; count = 0 }
sweep inbound ((k, i) ∷ m) closed =
    let hit = str_eq i.inbound inbound in
    let rest = sweep inbound m (if hit then close_info i closed else closed) in
    if hit
    then record rest { count = suc rest.count }
    else record rest { left = (k, i) ∷ rest.left }

-- CloseConnByInbound
pub close_conn_by_inbound : String → ConnTracker → ConnTracker × ℕ
unfolding sweep
close_conn_by_inbound inbound t =
    let s = sweep inbound t.connections t.closed in
    (record { connections = s.left; closed = s.closed }, s.count)

-- What errors.Is and errors.As find in an error: io.EOF, and a net.Error with its Temporary().
pub record IoError : Type 0 where
  pub is_eof : Bool
  pub temporary : Option Bool

-- shouldUntrackIOErr
pub should_untrack_io_err : Option IoError → Bool
should_untrack_io_err none = false
should_untrack_io_err (some e) =
    if e.is_eof then true else elim e.temporary [ none ↦ true | some t ↦ not t ]

-- doUntrack, once for each wrapper
pub do_untrack : WrappedConn → ConnTracker → WrappedConn × ConnTracker
unfolding untrack_connection
do_untrack w t =
    if w.untracked then (w, t) else (record w { untracked = true }, untrack_connection w.conn_id t)

-- Read, Write, ReadPacket and WritePacket: what they do with the error of the wrapped call.
pub after_io : Option IoError → WrappedConn → ConnTracker → WrappedConn × ConnTracker
unfolding should_untrack_io_err do_untrack
after_io e w t = if should_untrack_io_err e then do_untrack w t else (w, t)

-- Close of a wrapper
pub close_wrapped : WrappedConn → ConnTracker → WrappedConn × ConnTracker
unfolding do_untrack
close_wrapped w t = let (w', t') = do_untrack w t in (w', record t' { closed = w.conn ∷ t'.closed })
