-- ===== src/Tracker/Conn/Closing.antt =====
-- What CloseConnByInbound and Reset close, and what they leave.
use hy_panel.Base.{
  ℕ, ◌+◌, String, ◌≡◌, refl, Bool, false, ◌||◌, Option, none, some, List, [], ◌∷◌, str_eq, eq_iff,
  arith, length, has, if◌then◌else◌, any_of, ◌&&◌, ◌==◌, inl, inr, Bool-cases,
}
use hy_panel.Base.Assoc.{Assoc, lookup, HasUniqueKeys}
use hy_panel.Tracker.Conn.{
  ConnectionInfo, ConnTracker, sweep, close_info, close_all, close_conn_by_inbound, reset,
}

-- The entry that stays of one that was looked up.
abbrev pub unless_inbound : String → Option ConnectionInfo → Option ConnectionInfo
unless_inbound inbound none = none
unless_inbound inbound (some i) = if str_eq i.inbound inbound then none else some i

pub lookup-sweep :
    (inbound k : String) (m : Assoc ConnectionInfo) (closed : List ℕ)
    → HasUniqueKeys m
    → lookup k (sweep inbound m closed).left ≡ unless_inbound inbound (lookup k m)
unfolding sweep lookup
lookup-sweep inbound k [] closed h = refl
lookup-sweep inbound k ((j, i) ∷ m) closed h = ground (
  arith,
  eq_iff j k,
  lookup-sweep inbound k m closed h.1,
  lookup-sweep inbound k m (close_info i closed) h.1,
)

length-sweep :
    (inbound : String) (m : Assoc ConnectionInfo) (closed : List ℕ)
    → length (sweep inbound m closed).left + (sweep inbound m closed).count ≡ length m
unfolding sweep
length-sweep inbound [] closed = refl
length-sweep inbound ((j, i) ∷ m) closed =
    ground (arith, length-sweep inbound m closed, length-sweep inbound m (close_info i closed))

is_handle : ℕ → Option ℕ → Bool
is_handle c none = false
is_handle c (some d) = c == d

-- Whether a connection, of either kind, belongs to an entry.
pub owns : ℕ → ConnectionInfo → Bool
unfolding is_handle
owns c i = is_handle c i.conn || is_handle c i.packet_conn

has-close_info :
    (c : ℕ) (i : ConnectionInfo) (closed : List ℕ)
    → has c (close_info i closed) ≡ (owns c i || has c closed)
unfolding close_info owns
has-close_info c i closed = ground arith

has-sweep :
    (c : ℕ) (inbound : String) (m : Assoc ConnectionInfo) (closed : List ℕ)
    → has c (sweep inbound m closed).closed
      ≡ (any_of (λ e. str_eq e.1.inbound inbound && owns c e.1) m || has c closed)
unfolding sweep
has-sweep c inbound [] closed = refl
has-sweep c inbound ((k, i) ∷ m) closed = ground (
  arith,
  has-close_info c i closed,
  has-sweep c inbound m closed,
  has-sweep c inbound m (close_info i closed),
)

has-close_all :
    (c : ℕ) (m : Assoc ConnectionInfo) (closed : List ℕ)
    → has c (close_all m closed) ≡ (any_of (λ e. owns c e.1) m || has c closed)
unfolding close_all
has-close_all c [] closed = refl
has-close_all c ((k, i) ∷ m) closed =
    ground (arith, has-close_info c i closed, has-close_all c m (close_info i closed))

-- On a map without double keys, CloseConnByInbound forgets the entries of the inbound and leaves
-- every other one, returns the number of entries that it forgot, and closes the connections of
-- these entries and no other.
pub close_conn_by_inbound_lem :
    (inbound : String) (t : ConnTracker)
    → HasUniqueKeys t.connections
    → let (u, n) = close_conn_by_inbound inbound t in
      ((k : String) → lookup k u.connections ≡ unless_inbound inbound (lookup k t.connections))
      × (length u.connections + n ≡ length t.connections)
      × ((c : ℕ)
          → has c u.closed ≡ (
              any_of (λ e. str_eq e.1.inbound inbound && owns c e.1) t.connections
              || has c t.closed))
unfolding close_conn_by_inbound
close_conn_by_inbound_lem inbound t h = (
  λ k. lookup-sweep inbound k t.connections t.closed h,
  length-sweep inbound t.connections t.closed,
  λ c. has-sweep c inbound t.connections t.closed,
)

-- Reset leaves no entry, and closes the connections of all entries and no other.
pub reset_lem :
    (t : ConnTracker)
    → ((reset t).connections ≡ [])
      × ((c : ℕ)
          → has c (reset t).closed ≡ (any_of (λ e. owns c e.1) t.connections || has c t.closed))
unfolding reset
reset_lem t = (refl, λ c. has-close_all c t.connections t.closed)

-- What CloseConnByInbound leaves still has no key twice.
lookup-sweep-none :
    (inbound k : String) (m : Assoc ConnectionInfo) (closed : List ℕ)
    → lookup k m ≡ none
    → lookup k (sweep inbound m closed).left ≡ none
unfolding sweep lookup
lookup-sweep-none inbound k [] closed h = refl
lookup-sweep-none inbound k ((j, i) ∷ m) closed h = ground (
  arith,
  lookup-sweep-none inbound k m closed,
  lookup-sweep-none inbound k m (close_info i closed),
)

pub sweep-HasUniqueKeys :
    (inbound : String) (m : Assoc ConnectionInfo) (closed : List ℕ)
    → HasUniqueKeys m
    → HasUniqueKeys (sweep inbound m closed).left
unfolding sweep
sweep-HasUniqueKeys inbound [] closed h = tt
sweep-HasUniqueKeys inbound ((j, i) ∷ m) closed h = elim (Bool-cases (str_eq i.inbound inbound)) [
  | inl e ↦ rw e (sweep-HasUniqueKeys inbound m (close_info i closed) h.1)
  | inr e ↦
      rw e (lookup-sweep-none inbound j m closed h.0, sweep-HasUniqueKeys inbound m closed h.1)
]
