-- ===== src/Tracker/Stats.antt =====
-- core/tracker_stats.go. An atomic counter is an address of a heap of int64 values: the tracker's maps
-- and the connections share it. The clock is an argument.
pub mod Separation
pub mod Drain
pub mod Routing
use hy_panel.Base.{
  ℕ, suc, ◌+◌, String, Bool, true, false, ◌||◌, Option, none, some, List, [], ◌∷◌, ◌++◌, ◌==◌,
  str_eq, if◌then◌else◌,
}
use hy_panel.Base.Assoc.{Assoc, lookup, insert}
use hy_panel.Base.Int64.{add_int64, lt_int64}

-- Counter: the addresses of its two atomic values.
pub record Counter : Type 0 where
  pub read : ℕ
  pub write : ℕ

-- The atomic values, and the first address that is free.
pub record Heap : Type 0 where
  pub cell : ℕ → ℕ
  pub next : ℕ

abbrev pub store : ℕ → ℕ → Heap → Heap
store a v h = record h { cell = λ b. if a == b then v else h.cell b }

-- The three maps of StatsTracker.
pub record StatsTracker : Type 0 where
  pub inbounds : Assoc Counter
  pub outbounds : Assoc Counter
  pub users : Assoc Counter
  pub heap : Heap

-- model.Stats
pub data Resource : Type 0 where
  inbound : Resource
  outbound : Resource
  user : Resource

pub record Stats : Type 0 where
  pub date_time : ℕ
  pub resource : Resource
  pub tag : String
  pub direction : Bool
  pub traffic : ℕ

pub new_stats_tracker : StatsTracker
new_stats_tracker = record {
  inbounds = [];
  outbounds = [];
  users = [];
  heap = record { cell = λ a. 0; next = 0 };
}

-- Reset drops the maps; the counters that connections hold live on.
pub reset : StatsTracker → StatsTracker
reset t = record t { inbounds = []; outbounds = []; users = [] }

-- What loadOrCreateCounter returns, with the map and the heap that it leaves.
pub record Loaded : Type 0 where
  pub counter : Counter
  pub counters : Assoc Counter
  pub heap : Heap

pub load_or_create_counter : String → Assoc Counter → Heap → Loaded
load_or_create_counter name m h = elim (lookup name m) [
  | some c ↦ record { counter = c; counters = m; heap = h }
  | none ↦
      let c : Counter = record { read = h.next; write = suc h.next } in
      record {
        counter = c;
        counters = insert name c m;
        heap = record (store (suc h.next) 0 (store h.next 0 h)) { next = suc (suc h.next) };
      }
]

-- The two slices that getReadCounters fills.
pub record Slices : Type 0 where
  pub reads : List ℕ
  pub writes : List ℕ

-- One of the three blocks of getReadCounters.
pub record Entered : Type 0 where
  pub counters : Assoc Counter
  pub heap : Heap
  pub slices : Slices

pub enter : String → Assoc Counter → Heap → Slices → Entered
unfolding load_or_create_counter
enter name m h s =
    if str_eq name ""
    then record { counters = m; heap = h; slices = s }
    else let l = load_or_create_counter name m h in
      record {
        counters = l.counters;
        heap = l.heap;
        slices = record {
          reads = s.reads ++ l.counter.read ∷ [];
          writes = s.writes ++ l.counter.write ∷ [];
        };
      }

abbrev no_slices : Slices
no_slices = record { reads = []; writes = [] }

-- getReadCounters, for the names of the inbound, the outbound and the user of a connection
pub get_read_counters : String → String → String → StatsTracker → Slices × StatsTracker
unfolding enter
get_read_counters i o u t =
    let a = enter i t.inbounds t.heap no_slices in
    let b = enter o t.outbounds a.heap a.slices in
    let c = enter u t.users b.heap b.slices in
    (
      c.slices,
      record { inbounds = a.counters; outbounds = b.counters; users = c.counters; heap = c.heap },
    )

-- One of the three loops of GetStats: the rows, and the heap after the swaps.
pub drain : ℕ → Resource → Assoc Counter → Heap → List Stats × Heap
drain dt r [] h = ([], h)
drain dt r ((tag, c) ∷ m) h =
    let down = h.cell c.write in
    let up = (store c.write 0 h).cell c.read in
    let (rows, h') = drain dt r m (store c.read 0 (store c.write 0 h)) in
    if lt_int64 0 down || lt_int64 0 up
    then (
      record { date_time = dt; resource = r; tag = tag; direction = false; traffic = down }
          ∷ record { date_time = dt; resource = r; tag = tag; direction = true; traffic = up }
          ∷ rows,
      h',
    )
    else (rows, h')

-- GetStats
unfoldable pub get_stats : ℕ → StatsTracker → List Stats × StatsTracker
unfolding drain
get_stats dt t =
    let (is, h₁) = drain dt inbound t.inbounds t.heap in
    let (os, h₂) = drain dt outbound t.outbounds h₁ in
    let (us, h₃) = drain dt user t.users h₂ in (is ++ os ++ us, record t { heap = h₃ })
