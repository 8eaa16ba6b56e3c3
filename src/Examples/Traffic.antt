-- ===== src/Examples/Traffic.antt =====
-- The trackers of a core with one user.
use hy_panel.Base.{
  ℕ, ◌≤◌, String, ◌≡◌, refl, true, none, some, List, [], ◌∷◌, arith, ltb, ◌==◌, if◌then◌else◌,
}
use hy_panel.Base.Assoc.{lookup}
use hy_panel.Base.Int64.{add_int64}
use hy_panel.Tracker.Stats.{Heap, StatsTracker, user, get_read_counters, get_stats, store}
use hy_panel.Tracker.Stats.Separation.{Inv, count}
use hy_panel.Tracker.Stats.Drain.{pending, reported, counters_of, get_stats_exact}
use hy_panel.Tracker.Stats.Routing.{occurs, pending-get_read_counters}
use hy_panel.Tracker.Conn.{
  ConnectionInfo, ConnTracker, tcp, new_conn_tracker, close_conn_by_inbound, reset,
  routed_connection,
}
use hy_panel.Tracker.Conn.History.{here, next, routes, closes, start, give, call, Reach-Inv}
use hy_panel.Tracker.Conn.History.{Inv as HistoryInv}

-- One user with 3 bytes up and 4 down, which are not reported yet.
abbrev pub one_user : StatsTracker
one_user = record {
  inbounds = [];
  outbounds = [];
  users = ("anna", record { read = 0; write = 1 }) ∷ [];
  heap = record { cell = λ a. if a == 0 then 3 else if a == 1 then 4 else 0; next = 2 };
}

pub one_user-Inv : Inv one_user
unfolding lookup count
one_user-Inv = record {
  unique_inbounds = tt;
  unique_outbounds = tt;
  unique_users = (refl, tt);
  apart = λ a. ground arith;
  free = λ a. ground arith;
}

get_stats_exact_example :
    (reported user "anna" true (get_stats 9 one_user).0
      ≡ pending (counters_of user one_user) one_user.heap.cell "anna" true)
    × (pending
          (counters_of user (get_stats 9 one_user).1)
          (get_stats 9 one_user).1.heap.cell
          "anna"
          true
        ≡ 0)
get_stats_exact_example =
    get_stats_exact 9 one_user one_user-Inv (λ a. ground arith) user "anna" true

-- A counter connection that does what is known of it.
count_bytes : ℕ → List ℕ → Heap → Heap
count_bytes n [] h = h
count_bytes n (a ∷ rest) h = count_bytes n rest (store a (add_int64 (h.cell a) n) h)

count_bytes-at :
    (n : ℕ) (slice : List ℕ) (h : Heap) (a : ℕ)
    → occurs a slice ≤ 1
    → (count_bytes n slice h).cell a
      ≡ (if ltb 0 (occurs a slice) then add_int64 (h.cell a) n else h.cell a)
unfolding count_bytes occurs
count_bytes-at n [] h a k = refl
count_bytes-at n (b ∷ bs) h a k =
    ground (arith, count_bytes-at n bs (store b (add_int64 (h.cell b) n) h) a)

pending-get_read_counters_example :
    let (s, t) = get_read_counters "in" "out" "anna" one_user in
    pending t.users (count_bytes 10 s.reads t.heap).cell "anna" true ≡ 13
unfolding pending lookup
pending-get_read_counters_example =
    let (s, t) = get_read_counters "in" "out" "anna" one_user in
    pending-get_read_counters "in" "out" "anna" one_user 10 (count_bytes 10 s.reads t.heap) "anna"
      one_user-Inv refl (record { at = count_bytes-at 10 s.reads t.heap })

abbrev entry : String → ℕ → String → ConnectionInfo
entry id conn inbound = record {
  id = id;
  conn = some conn;
  packet_conn = none;
  inbound = inbound;
  kind = tcp;
}

abbrev two_connections : ConnTracker
two_connections = record {
  connections = ("u1", entry "u1" 1 "in") ∷ ("u2", entry "u2" 2 "other") ∷ [];
  closed = [];
}

Reach-Inv_example : HistoryInv (
    call 0 hy_panel.Tracker.Conn.close_wrapped
      (give (routed_connection "u1" 1 "in" new_conn_tracker) start))
unfolding lookup new_conn_tracker
Reach-Inv_example =
    Reach-Inv
      (next (next here (routes "u1" "in" 1 (record { unused = refl; not_given = tt }))) (closes 0))
