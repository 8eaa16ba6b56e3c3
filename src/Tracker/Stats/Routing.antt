-- ===== src/Tracker/Stats/Routing.antt =====
-- To whom the bytes of a routed connection are counted.
use hy_panel.Base.{
  ℕ, suc, ◌+◌, ◌≤◌, ◌<◌, String, ◌≡◌, refl, ◌∙◌, Bool, true, false, none, some, List, [], ◌∷◌, ◌++◌,
  arith, str_eq, eq_iff, if◌then◌else◌, Bool-cases, Option-cases, inl, inr, ◌⊎◌, ltb,
}
use hy_panel.Base.Assoc.{Assoc, lookup, insert, lookup-insert}
use hy_panel.Base.Int64.{add_int64}
use hy_panel.Tracker.Stats.{
  Counter, Heap, StatsTracker, Slices, Entered, enter, get_read_counters, no_slices,
}
use hy_panel.Tracker.Stats.Separation.{Inv, same, count, get_read_counters-Inv}
use hy_panel.Tracker.Stats.Drain.{pending, pending-cong}

-- How often an address stands in a slice.
unfoldable pub occurs : ℕ → List ℕ → ℕ
occurs a [] = 0
occurs a (b ∷ bs) = same a b + occurs a bs

occurs-append : (a : ℕ) (xs ys : List ℕ) → occurs a (xs ++ ys) ≡ occurs a xs + occurs a ys
unfolding occurs
occurs-append a [] ys = omega arith
occurs-append a (x ∷ xs) ys = omega (arith, occurs-append a xs ys)

-- What is known of the counter connections of sing's bufio, which are not part of this repository: n
-- bytes read on one are added to each counter of the slice that it was made with.
pub record Counts (n : ℕ) (slice : List ℕ) (h h' : Heap) : Type 0 where
  pub at :
      (a : ℕ)
      → occurs a slice ≤ 1
      → h'.cell a ≡ (if ltb 0 (occurs a slice) then add_int64 (h.cell a) n else h.cell a)

-- A block that is skipped leaves everything; the other adds the counter that the map now has.
pub enter-cases :
    (name : String) (m : Assoc Counter) (h : Heap) (s : Slices)
    → ((str_eq name "" ≡ true) × (enter name m h s ≡ record { counters = m; heap = h; slices = s }))
      ⊎ ((str_eq name "" ≡ false)
          × ((c : Counter) × (lookup name (enter name m h s).counters ≡ some c)
              × ((enter name m h s).slices.reads ≡ s.reads ++ c.read ∷ [])
              × ((enter name m h s).slices.writes ≡ s.writes ++ c.write ∷ [])))
unfolding enter
enter-cases name m h s = elim (Bool-cases (str_eq name "")) [
  | inl e ↦ inl (e, ground arith)
  | inr e ↦ elim (Option-cases (lookup name m)) [
    | inl n ↦ inr (
      e,
      (
        record { read = h.next; write = suc h.next },
        ground (
          arith,
          lookup-insert name name (record { read = h.next; write = suc h.next }) m,
          eq_iff name name,
        ),
        ground arith,
        ground arith,
      ),
    )
    | inr (c, q) ↦ inr (e, (c, ground arith, ground arith, ground arith))
  ]
]

count-counter :
    (tag : String) (m : Assoc Counter) (c : Counter) (a : ℕ)
    → lookup tag m ≡ some c
    → same a c.read + same a c.write ≤ count a m
unfolding lookup count
count-counter tag [] c a e = cc
count-counter tag ((k, d) ∷ m) c a e = ground (arith, count-counter tag m c a)

count-counters :
    (u tag : String) (m : Assoc Counter) (c d : Counter) (a : ℕ)
    → str_eq u tag ≡ false
    → lookup u m ≡ some c
    → lookup tag m ≡ some d
    → same a c.read + same a d.read ≤ count a m
unfolding lookup count
count-counters u tag [] c d a n e f = cc
count-counters u tag ((k, x) ∷ m) c d a n e f = ground (
  arith,
  eq_iff k u,
  eq_iff k tag,
  eq_iff u tag,
  count-counters u tag m c d a n,
  count-counter u m c a,
  count-counter tag m d a,
)

occurs-enter :
    (name : String) (m : Assoc Counter) (h : Heap) (s : Slices) (a : ℕ)
    → occurs a (enter name m h s).slices.reads
      ≤ occurs a s.reads + count a (enter name m h s).counters
occurs-enter name m h s a = elim (enter-cases name m h s) [
  | inl (e, q) ↦ rw q (omega arith)
  | inr (e, (c, l, r, w)) ↦ rw r (
      unfold occurs in
      omega (
        arith,
        occurs-append a s.reads (c.read ∷ []),
        count-counter name (enter name m h s).counters c a l,
      ))
]

-- Every address of a map was given out.
abbrev IsGiven : Assoc Counter → Heap → Type 0
IsGiven m h = (a : ℕ) → (a < h.next) ⊎ (count a m ≡ 0)

cell-enter :
    (name : String) (m : Assoc Counter) (h : Heap) (s : Slices) (a : ℕ)
    → a < h.next
    → (enter name m h s).heap.cell a ≡ h.cell a
unfolding enter
cell-enter name m h s a k = ground arith

next-enter :
    (name : String) (m : Assoc Counter) (h : Heap) (s : Slices)
    → h.next ≤ (enter name m h s).heap.next
unfolding enter
next-enter name m h s = ground arith

pending-enter_other :
    (name : String) (m m' : Assoc Counter) (h : Heap) (s : Slices) (tag : String) (up : Bool)
    → IsGiven m' h
    → pending m' (enter name m h s).heap.cell tag up ≡ pending m' h.cell tag up
pending-enter_other name m m' h s tag up g =
    pending-cong m' h.cell (enter name m h s).heap.cell tag up
      λ a p. cell-enter name m h s a (omega (arith, g a))

-- The counter that a block makes for a new name, and the heap with its two zeros.
abbrev fresh_counter : Heap → Counter
fresh_counter h = record { read = h.next; write = suc h.next }

enter_new :
    (name : String) (m : Assoc Counter) (h : Heap) (s : Slices)
    → (((enter name m h s).counters ≡ m) × ((enter name m h s).heap ≡ h))
      ⊎ ((lookup name m ≡ none)
          × ((enter name m h s).counters ≡ insert name (fresh_counter h) m)
          × ((enter name m h s).heap.cell h.next ≡ 0)
          × ((enter name m h s).heap.cell (suc h.next) ≡ 0))
unfolding enter
enter_new name m h s = ground arith

pending-insert :
    (name : String) (m : Assoc Counter) (cell : ℕ → ℕ) (h : Heap) (tag : String) (up : Bool)
    → lookup name m ≡ none
    → cell h.next ≡ 0
    → cell (suc h.next) ≡ 0
    → pending (insert name (fresh_counter h) m) cell tag up ≡ pending m cell tag up
unfolding pending
pending-insert name m cell h tag up e r w =
    ground (arith, lookup-insert name tag (fresh_counter h) m, eq_iff name tag)

pending-enter :
    (name : String) (m : Assoc Counter) (h : Heap) (s : Slices) (tag : String) (up : Bool)
    → IsGiven m h
    → pending (enter name m h s).counters (enter name m h s).heap.cell tag up
      ≡ pending m h.cell tag up
pending-enter name m h s tag up g = elim (enter_new name m h s) [
  | inl (q, k) ↦ rw (q, k)
  | inr (e, q, r, w) ↦ rw q (
      pending-insert name m (enter name m h s).heap.cell h tag up e r w
      ∙ pending-enter_other name m m h s tag up g)
]

occurs-none : (a : ℕ) → occurs a [] ≡ 0
unfolding occurs
occurs-none a = refl

module _ (i o u : String) (t : StatsTracker) (v : Inv t) where
  first : Entered
  first = enter i t.inbounds t.heap no_slices

  second : Entered
  unfolding first
  second = enter o t.outbounds first.heap first.slices

  third : Entered
  unfolding second
  third = enter u t.users second.heap second.slices

  grown : (first.heap.next ≤ second.heap.next) × (t.heap.next ≤ first.heap.next)
  unfolding third
  grown =
      (next-enter o t.outbounds first.heap first.slices, next-enter i t.inbounds t.heap no_slices)

  -- Routing by itself changes no pending traffic.
  routed_pending :
      (tag : String) (up : Bool)
      → pending third.counters third.heap.cell tag up ≡ pending t.users t.heap.cell tag up
  unfolding third
  routed_pending tag up =
      pending-enter u t.users second.heap second.slices tag up (λ a. omega (arith, v.free a, grown))
      ∙ pending-enter_other o t.outbounds t.users first.heap first.slices tag up
          (λ a. omega (arith, v.free a, grown))
      ∙ pending-enter_other i t.inbounds t.users t.heap no_slices tag up
          (λ a. omega (arith, v.free a))

  apart : (a : ℕ) → count a first.counters + count a second.counters + count a third.counters ≤ 1
  unfolding third get_read_counters
  apart a = (get_read_counters-Inv i o u t v).apart a

  occurs-second :
      (a : ℕ) → occurs a second.slices.reads ≤ count a first.counters + count a second.counters
  unfolding third
  occurs-second a = omega (
    arith,
    occurs-enter i t.inbounds t.heap no_slices a,
    occurs-enter o t.outbounds first.heap first.slices a,
    occurs-none a,
  )

  occurs-third : (a : ℕ) → occurs a third.slices.reads ≤ 1
  unfolding third
  occurs-third a =
      omega (arith, occurs-second a, occurs-enter u t.users second.heap second.slices a, apart a)

  occurs-user :
      (tag : String) (d : Counter)
      → str_eq u "" ≡ false
      → lookup tag third.counters ≡ some d
      → occurs d.read third.slices.reads ≡ (if str_eq u tag then 1 else 0)
  unfolding third
  occurs-user tag d named e = elim (enter-cases u t.users second.heap second.slices) [
    | inl (q, _) ↦ cc
    | inr (q, (c, l, r, w)) ↦ rw r (
        unfold occurs in
        ground (
          arith,
          occurs-append d.read second.slices.reads (c.read ∷ []),
          occurs-second d.read,
          apart d.read,
          eq_iff u tag,
          count-counter tag third.counters d d.read e,
          count-counters u tag third.counters c d d.read,
        ))
  ]

  user_there : str_eq u "" ≡ false → (c : Counter) × (lookup u third.counters ≡ some c)
  unfolding third
  user_there named = elim (enter-cases u t.users second.heap second.slices) [
    | inl (q, _) ↦ cc
    | inr (q, (c, l, r, w)) ↦ (c, l)
  ]

  counted_pending :
      (n : ℕ) (tag : String) (h : Heap)
      → Counts n third.slices.reads third.heap h
      → str_eq u "" ≡ false
      → pending third.counters h.cell tag true ≡ (
          if str_eq u tag
          then add_int64 (pending third.counters third.heap.cell tag true) n
          else pending third.counters third.heap.cell tag true)
  unfolding pending
  counted_pending n tag h counts named = elim (Option-cases (lookup tag third.counters)) [
    | inl e ↦ let (c, l) = user_there named in rw (e, pending) (ground (arith, eq_iff u tag, l, e))
    | inr (d, e) ↦
        rw (e, pending)
          (ground (arith, occurs-user tag d named e, counts.at d.read (occurs-third d.read)))
  ]

-- After a connection of a user `u` with a name that is not empty is routed, by a tracker that
-- shares no counter, n bytes read on it are counted to `u` and to no other user: the pending upload
-- of `u` grows by n, and that of every other name is as it was; for counter connections that add
-- what they read to each of their counters.
pub pending-get_read_counters :
    (i o u : String) (t : StatsTracker) (n : ℕ) (h : Heap) (tag : String)
    → Inv t
    → str_eq u "" ≡ false
    → let (s, t') = get_read_counters i o u t in
      Counts n s.reads t'.heap h
      → pending t'.users h.cell tag true ≡ (
          if str_eq u tag
          then add_int64 (pending t.users t.heap.cell tag true) n
          else pending t.users t.heap.cell tag true)
unfolding get_read_counters third
pending-get_read_counters i o u t n h tag v named counts =
    cc (counted_pending i o u t v n tag h counts named, routed_pending i o u t v tag true)
