-- ===== src/Tracker/Conn/History.antt =====
-- The tracker together with the wrappers that it has given out, over any history of its use.
use hy_panel.Base.{
  ℕ, zero, suc, String, ◌≡◌, refl, subst, true, false, Option, none, some, List, [], ◌∷◌, str_eq,
  eq_iff, arith, All, ◌⊎◌, inl, inr, Bool-cases,
}
use hy_panel.Base.Assoc.{
  Assoc, lookup, insert, remove, lookup-empty, lookup-insert, lookup-remove, HasUniqueKeys,
  insert-HasUniqueKeys, remove-HasUniqueKeys,
}
use hy_panel.Tracker.Conn.{
  Kind, tcp, udp, ConnectionInfo, ConnTracker, WrappedConn, IoError, new_conn_tracker, reset,
  routed_connection, routed_packet_connection, close_conn_by_inbound, after_io, close_wrapped,
  do_untrack, should_untrack_io_err, sweep,
}
use hy_panel.Tracker.Conn.Closing.{lookup-sweep, sweep-HasUniqueKeys}

pub record World : Type 0 where
  pub tracker : ConnTracker
  pub wrapped : List WrappedConn

-- A call of the n-th wrapper.
pub call_at :
    ℕ
    → (WrappedConn → ConnTracker → WrappedConn × ConnTracker)
    → List WrappedConn
    → ConnTracker
    → List WrappedConn × ConnTracker
call_at n f [] t = ([], t)
call_at zero f (w ∷ ws) t = let (w', t') = f w t in (w' ∷ ws, t')
call_at (suc n) f (w ∷ ws) t = let (ws', t') = call_at n f ws t in (w ∷ ws', t')

-- No entry and no wrapper has this id yet.
pub record IsFresh (id : String) (s : World) : Type 0 where
  pub unused : lookup id s.tracker.connections ≡ none
  pub not_given : All (λ w. str_eq id w.conn_id ≡ false) s.wrapped

abbrev pub call : ℕ → (WrappedConn → ConnTracker → WrappedConn × ConnTracker) → World → World
call n f s = let (ws, t) = call_at n f s.wrapped s.tracker in record { tracker = t; wrapped = ws }

abbrev pub give : ConnTracker × WrappedConn → World → World
give r s = record { tracker = r.0; wrapped = r.1 ∷ s.wrapped }

-- The uses of a tracker. UUIDs are taken to be fresh; I/O may end with any error or none.
pub data Step (s : World) : World → Type 0 where
  routes :
      (id inbound : String) (conn : ℕ)
      → IsFresh id s
      → Step s (give (routed_connection id conn inbound s.tracker) s)
  routes_packets :
      (id inbound : String) (conn : ℕ)
      → IsFresh id s
      → Step s (give (routed_packet_connection id conn inbound s.tracker) s)
  reads : (n : ℕ) (e : Option IoError) → Step s (call n (after_io e) s)
  closes : (n : ℕ) → Step s (call n close_wrapped s)
  closes_inbound :
      (inbound : String)
      → Step s (record s { tracker = (close_conn_by_inbound inbound s.tracker).0 })
  resets : Step s (record s { tracker = reset s.tracker })

pub data Reach (s : World) : World → Type 0 where
  here : Reach s s
  next : {t u : World} → Reach s t → Step t u → Reach s u

abbrev pub start : World
start = record { tracker = new_conn_tracker; wrapped = [] }

-- An entry stands under its own id and has the one connection of its kind.
abbrev pub FitsKind : Kind → ConnectionInfo → Type 0
FitsKind tcp i = ((c : ℕ) × (i.conn ≡ some c)) × (i.packet_conn ≡ none)
FitsKind udp i = (i.conn ≡ none) × ((c : ℕ) × (i.packet_conn ≡ some c))

pub record IsEntry (k : String) (i : ConnectionInfo) : Type 0 where
  pub own_id : i.id ≡ k
  pub own_kind : FitsKind i.kind i

-- A wrapper that has untracked itself is not in the map.
abbrev pub IsGone : Assoc ConnectionInfo → WrappedConn → Type 0
IsGone m w = w.untracked ≡ true → lookup w.conn_id m ≡ none

pub record Inv (s : World) : Type 0 where
  pub unique : HasUniqueKeys s.tracker.connections
  pub entries :
      (k : String) (i : ConnectionInfo) → lookup k s.tracker.connections ≡ some i → IsEntry k i
  pub gone : All (IsGone s.tracker.connections) s.wrapped

-- What a map may become: entries may go, and none comes or changes.
abbrev Shrinks : Assoc ConnectionInfo → Assoc ConnectionInfo → Type 0
Shrinks m m' = (k : String) → (lookup k m' ≡ none) ⊎ (lookup k m' ≡ lookup k m)

Shrinks-IsGone :
    (m m' : Assoc ConnectionInfo) (ws : List WrappedConn)
    → Shrinks m m'
    → All (IsGone m) ws
    → All (IsGone m') ws
Shrinks-IsGone m m' [] h g = tt
Shrinks-IsGone m m' (w ∷ ws) h g = (ground (arith, h w.conn_id, g.0), Shrinks-IsGone m m' ws h g.1)

Shrinks-entries :
    (m m' : Assoc ConnectionInfo)
    → Shrinks m m'
    → ((k : String) (i : ConnectionInfo) → lookup k m ≡ some i → IsEntry k i)
    → (k : String) (i : ConnectionInfo) → lookup k m' ≡ some i
    → IsEntry k i
Shrinks-entries m m' h g k i e = elim (h k) [ inl n ↦ cc | inr q ↦ g k i (cc) ]

Shrinks-remove : (id : String) (m : Assoc ConnectionInfo) → Shrinks m (remove id m)
Shrinks-remove id m k = ground (arith, lookup-remove id k m)

-- What one call on a wrapper does.
record Effect (w w' : WrappedConn) (t t' : ConnTracker) : Type 0 where
  shrinks : Shrinks t.connections t'.connections
  unique : HasUniqueKeys t.connections → HasUniqueKeys t'.connections
  gone : IsGone t.connections w → IsGone t'.connections w'

do_untrack-Effect :
    (w : WrappedConn) (t : ConnTracker) → Effect w (do_untrack w t).0 t (do_untrack w t).1
unfolding do_untrack
do_untrack-Effect w t = elim (Bool-cases w.untracked) [
  | inl e ↦ rw e (record { shrinks = λ k. inr refl; unique = λ h. h; gone = λ g. g })
  | inr e ↦ rw e (record {
    shrinks = Shrinks-remove w.conn_id t.connections;
    unique = remove-HasUniqueKeys w.conn_id t.connections;
    gone = λ g p.
        ground (arith, lookup-remove w.conn_id w.conn_id t.connections, eq_iff w.conn_id w.conn_id);
  })
]

after_io-Effect :
    (e : Option IoError) (w : WrappedConn) (t : ConnTracker)
    → Effect w (after_io e w t).0 t (after_io e w t).1
unfolding after_io
after_io-Effect e w t = elim (Bool-cases (should_untrack_io_err e)) [
  | inl q ↦ rw q (do_untrack-Effect w t)
  | inr q ↦ rw q (record { shrinks = λ k. inr refl; unique = λ h. h; gone = λ g. g })
]

close_wrapped-Effect :
    (w : WrappedConn) (t : ConnTracker) → Effect w (close_wrapped w t).0 t (close_wrapped w t).1
unfolding close_wrapped
close_wrapped-Effect w t =
    let e = do_untrack-Effect w t in
    record { shrinks = e.shrinks; unique = e.unique; gone = e.gone }

-- What a call of the n-th wrapper does to the map and to all the wrappers.
record Called (t t' : ConnTracker) (ws ws' : List WrappedConn) : Type 0 where
  shrinks : Shrinks t.connections t'.connections
  unique : HasUniqueKeys t.connections → HasUniqueKeys t'.connections
  gone : All (IsGone t.connections) ws → All (IsGone t'.connections) ws'

call_at-Called :
    (n : ℕ) (f : WrappedConn → ConnTracker → WrappedConn × ConnTracker) (ws : List WrappedConn)
    (t : ConnTracker)
    → ((w : WrappedConn) → Effect w (f w t).0 t (f w t).1)
    → Called t (call_at n f ws t).1 ws (call_at n f ws t).0
unfolding call_at
call_at-Called zero f [] t h = record { shrinks = λ k. inr refl; unique = λ u. u; gone = λ g. g }
call_at-Called (suc n) f [] t h = record { shrinks = λ k. inr refl; unique = λ u. u; gone = λ g. g }
call_at-Called zero f (w ∷ ws) t h =
    let e = h w in
    record {
      shrinks = e.shrinks;
      unique = e.unique;
      gone = λ g. (e.gone g.0, Shrinks-IsGone t.connections (f w t).1.connections ws e.shrinks g.1);
    }
call_at-Called (suc n) f (w ∷ ws) t h =
    let c = call_at-Called n f ws t h in
    record {
      shrinks = c.shrinks;
      unique = c.unique;
      gone = λ g. (ground (arith, c.shrinks w.conn_id, g.0), c.gone g.1);
    }

call-Inv :
    (n : ℕ) (f : WrappedConn → ConnTracker → WrappedConn × ConnTracker) (s : World)
    → ((w : WrappedConn) → Effect w (f w s.tracker).0 s.tracker (f w s.tracker).1)
    → Inv s
    → Inv (call n f s)
call-Inv n f s h v =
    let c = call_at-Called n f s.wrapped s.tracker h in
    record {
      unique = c.unique v.unique;
      entries =
          Shrinks-entries s.tracker.connections (call n f s).tracker.connections c.shrinks
            v.entries;
      gone = c.gone v.gone;
    }

track-IsGone :
    (id : String) (i : ConnectionInfo) (m : Assoc ConnectionInfo) (ws : List WrappedConn)
    → All (λ w. str_eq id w.conn_id ≡ false) ws
    → All (IsGone m) ws
    → All (IsGone (insert id i m)) ws
track-IsGone id i m [] fresh g = tt
track-IsGone id i m (w ∷ ws) fresh g = (
  ground (arith, lookup-insert id w.conn_id i m, fresh.0, g.0),
  track-IsGone id i m ws fresh.1 g.1,
)

track-entries :
    (id : String) (i : ConnectionInfo) (m : Assoc ConnectionInfo)
    → IsEntry id i
    → ((k : String) (j : ConnectionInfo) → lookup k m ≡ some j → IsEntry k j)
    → (k : String) (j : ConnectionInfo) → lookup k (insert id i m) ≡ some j
    → IsEntry k j
track-entries id i m own g k j e = elim (Bool-cases (str_eq id k)) [
  | inl q ↦
      let same : i ≡ j = ground (arith, lookup-insert id k i m) in
      let name : id ≡ k = (eq_iff id k).0 q in
      subst (λ x. IsEntry k x) same (subst (λ x. IsEntry x i) name own)
  | inr q ↦ g k j (ground (arith, lookup-insert id k i m))
]

Step-Inv : {s t : World} → Step s t → Inv s → Inv t
unfolding routed_connection routed_packet_connection close_conn_by_inbound reset
Step-Inv {s} (routes id inbound conn fresh) v = record {
  unique = insert-HasUniqueKeys id _ s.tracker.connections v.unique;
  entries =
      track-entries id _ s.tracker.connections
        (record { own_id = refl; own_kind = ((conn, refl), refl) }) v.entries;
  gone = ((λ e. cc), track-IsGone id _ s.tracker.connections s.wrapped fresh.not_given v.gone);
}
Step-Inv {s} (routes_packets id inbound conn fresh) v = record {
  unique = insert-HasUniqueKeys id _ s.tracker.connections v.unique;
  entries =
      track-entries id _ s.tracker.connections
        (record { own_id = refl; own_kind = (refl, (conn, refl)) }) v.entries;
  gone = ((λ e. cc), track-IsGone id _ s.tracker.connections s.wrapped fresh.not_given v.gone);
}
Step-Inv {s} (reads n e) v = call-Inv n (after_io e) s (λ w. after_io-Effect e w s.tracker) v
Step-Inv {s} (closes n) v = call-Inv n close_wrapped s (λ w. close_wrapped-Effect w s.tracker) v
Step-Inv {s} (closes_inbound inbound) v =
    let m = s.tracker.connections in
    let shrinks : Shrinks m (sweep inbound m s.tracker.closed).left =
      λ k. ground (arith, lookup-sweep inbound k m s.tracker.closed v.unique) in
    record {
      unique = sweep-HasUniqueKeys inbound m s.tracker.closed v.unique;
      entries = Shrinks-entries m (sweep inbound m s.tracker.closed).left shrinks v.entries;
      gone = Shrinks-IsGone m (sweep inbound m s.tracker.closed).left s.wrapped shrinks v.gone;
    }
Step-Inv {s} resets v =
    let shrinks : Shrinks s.tracker.connections [] = λ k. inl (lookup-empty k) in
    record {
      unique = tt;
      entries = Shrinks-entries s.tracker.connections [] shrinks v.entries;
      gone = Shrinks-IsGone s.tracker.connections [] s.wrapped shrinks v.gone;
    }

start-Inv : Inv start
unfolding new_conn_tracker lookup
start-Inv = record { unique = tt; entries = λ k i e. cc; gone = tt }

-- In every history of routing, I/O, closing and resets, from an empty tracker on, no id stands
-- twice, each entry stands under its own id with the one connection of its kind, and the id of a
-- wrapper that has once untracked itself is not in the map.
pub Reach-Inv : {s : World} → Reach start s → Inv s
Reach-Inv here = start-Inv
Reach-Inv (next r st) = Step-Inv st (Reach-Inv r)
