-- ===== src/Tracker/Stats/Separation.antt =====
-- No two counters of the maps share a value, so that the traffic of one name is not counted for another.
use hy_panel.Base.{
  ℕ, suc, ◌+◌, ◌≤◌, ◌<◌, String, ◌≡◌, refl, none, [], ◌∷◌, arith, ◌⊎◌, ◌==◌, str_eq, if◌then◌else◌,
  Option-cases, Bool-cases, inl, inr,
}
use hy_panel.Base.Assoc.{Assoc, lookup, insert, HasUniqueKeys, insert-HasUniqueKeys}
use hy_panel.Tracker.Stats.{
  Counter, Heap, StatsTracker, Slices, new_stats_tracker, load_or_create_counter, enter,
  get_read_counters, reset, no_slices,
}

abbrev pub same : ℕ → ℕ → ℕ
same a b = if a == b then 1 else 0

-- How often an address stands in a map.
unfoldable pub count : ℕ → Assoc Counter → ℕ
count a [] = 0
count a ((k, c) ∷ m) = same a c.read + same a c.write + count a m

pub record Inv (t : StatsTracker) : Type 0 where
  pub unique_inbounds : HasUniqueKeys t.inbounds
  pub unique_outbounds : HasUniqueKeys t.outbounds
  pub unique_users : HasUniqueKeys t.users
  pub apart : (a : ℕ) → count a t.inbounds + count a t.outbounds + count a t.users ≤ 1
  pub free :
      (a : ℕ) → (a < t.heap.next) ⊎ (count a t.inbounds + count a t.outbounds + count a t.users ≡ 0)

count-insert :
    (a : ℕ) (k : String) (c : Counter) (m : Assoc Counter)
    → lookup k m ≡ none
    → count a (insert k c m) ≡ count a m + same a c.read + same a c.write
unfolding count insert lookup
count-insert a k c [] h = omega arith
count-insert a k c ((j, d) ∷ m) h = ground (arith, count-insert a k c m)

-- What one block of getReadCounters does to a map and the heap.
record Grows (m m' : Assoc Counter) (h h' : Heap) : Type 0 where
  unique : HasUniqueKeys m → HasUniqueKeys m'
  apart :
      (a : ℕ)
      → (count a m' ≡ count a m) ⊎ ((h.next ≤ a) × (a < h'.next) × (count a m' ≤ count a m + 1))
  grows : h.next ≤ h'.next

load_or_create_counter-Grows :
    (name : String) (m : Assoc Counter) (h : Heap)
    → let l = load_or_create_counter name m h in Grows m l.counters h l.heap
unfolding load_or_create_counter
load_or_create_counter-Grows name m h = elim (Option-cases (lookup name m)) [
  | inl e ↦
      rw (e, load_or_create_counter)
        (record {
          unique = insert-HasUniqueKeys name _ m;
          apart = λ a.
              ground
                (arith, count-insert a name (record { read = h.next; write = suc h.next }) m e);
          grows = omega arith;
        })
  | inr (c, e) ↦
      rw (e, load_or_create_counter)
        (record { unique = λ u. u; apart = λ a. inl refl; grows = omega arith })
]

enter-Grows :
    (name : String) (m : Assoc Counter) (h : Heap) (s : Slices)
    → Grows m (enter name m h s).counters h (enter name m h s).heap
unfolding enter
enter-Grows name m h s = elim (Bool-cases (str_eq name "")) [
  | inl e ↦ rw e (record { unique = λ u. u; apart = λ a. inl refl; grows = omega arith })
  | inr e ↦ rw e (load_or_create_counter-Grows name m h)
]

-- Routing a connection keeps the maps free of double names and of shared counters.
pub get_read_counters-Inv :
    (i o u : String) (t : StatsTracker) → Inv t → Inv (get_read_counters i o u t).1
unfolding get_read_counters
get_read_counters-Inv i o u t v =
    let a = enter i t.inbounds t.heap no_slices in
    let b = enter o t.outbounds a.heap a.slices in
    let c = enter u t.users b.heap b.slices in
    let ga = enter-Grows i t.inbounds t.heap no_slices in
    let gb = enter-Grows o t.outbounds a.heap a.slices in
    let gc = enter-Grows u t.users b.heap b.slices in
    record {
      unique_inbounds = ga.unique v.unique_inbounds;
      unique_outbounds = gb.unique v.unique_outbounds;
      unique_users = gc.unique v.unique_users;
      apart = λ x. omega (
        arith,
        v.apart x,
        v.free x,
        ga.apart x,
        gb.apart x,
        gc.apart x,
        ga.grows,
        gb.grows,
        gc.grows,
      );
      free = λ x.
          omega (arith, v.free x, ga.apart x, gb.apart x, gc.apart x, ga.grows, gb.grows, gc.grows);
    }

pub new_stats_tracker-Inv : Inv new_stats_tracker
unfolding new_stats_tracker count
new_stats_tracker-Inv = record {
  unique_inbounds = tt;
  unique_outbounds = tt;
  unique_users = tt;
  apart = λ a. omega arith;
  free = λ a. omega arith;
}

pub reset-Inv : (t : StatsTracker) → Inv t → Inv (reset t)
unfolding reset count
reset-Inv t v = record {
  unique_inbounds = tt;
  unique_outbounds = tt;
  unique_users = tt;
  apart = λ a. omega arith;
  free = λ a. omega arith;
}
