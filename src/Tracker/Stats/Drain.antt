-- ===== src/Tracker/Stats/Drain.antt =====
-- What GetStats reports and what it leaves.
use hy_panel.Base.{
  ℕ, ◌+◌, ◌≤◌, ◌<◌, String, ◌≡◌, ◌≢◌, refl, Bool, true, false, ◌&&◌, ◌||◌, none, some, List, [],
  ◌∷◌, ◌++◌, arith, str_eq, eq_iff, if◌then◌else◌, sum_of, sum_of-append, ltb, Option-cases, inl,
  inr,
}
use hy_panel.Base.Assoc.{Assoc, lookup, HasUniqueKeys}
use hy_panel.Base.Int64.{lt_int64, sign_bit}
use hy_panel.Tracker.Stats.{
  Counter, Heap, StatsTracker, Stats, Resource, inbound, outbound, user, store, drain, get_stats,
}
use hy_panel.Tracker.Stats.Separation.{Inv, same, count}

unfoldable pub same_resource : Resource → Resource → Bool
same_resource inbound inbound = true
same_resource outbound outbound = true
same_resource user user = true
same_resource _ _ = false

unfoldable pub same_direction : Bool → Bool → Bool
same_direction true d = d
same_direction false true = false
same_direction false false = true

-- The traffic that rows report for a name, in one direction (`true` is up).
unfoldable pub reported : Resource → String → Bool → List Stats → ℕ
unfolding same_resource same_direction
reported r tag up = sum_of λ s.
    if same_resource s.resource r && (str_eq s.tag tag && same_direction s.direction up)
    then s.traffic
    else 0

-- The value that a map has for a name, in one direction; 0 for a name that it does not have.
unfoldable pub pending : Assoc Counter → (ℕ → ℕ) → String → Bool → ℕ
pending m cell tag up = elim (lookup tag m) [
  | none ↦ 0
  | some c ↦ if up then cell c.read else cell c.write
]

-- The swaps reset the values of the map, and no other.
pub cell-drain :
    (dt : ℕ) (r : Resource) (m : Assoc Counter) (h : Heap) (a : ℕ)
    → (drain dt r m h).1.cell a ≡ (if ltb 0 (count a m) then 0 else h.cell a)
unfolding drain count
cell-drain dt r [] h a = refl
cell-drain dt r ((k, c) ∷ m) h a =
    ground (arith, cell-drain dt r m (store c.read 0 (store c.write 0 h)) a)

pub count-lookup :
    (tag : String) (m : Assoc Counter) (c : Counter)
    → lookup tag m ≡ some c
    → (0 < count c.read m) × (0 < count c.write m)
unfolding lookup count
count-lookup tag [] c e = cc
count-lookup tag ((k, d) ∷ m) c e = ground (arith, count-lookup tag m c)

-- Two heaps that agree on the values of a map have the same pending traffic for it.
pub pending-cong :
    (m : Assoc Counter) (cell cell' : ℕ → ℕ) (tag : String) (up : Bool)
    → ((a : ℕ) → 0 < count a m → cell' a ≡ cell a)
    → pending m cell' tag up ≡ pending m cell tag up
unfolding pending
pending-cong m cell cell' tag up h = elim (Option-cases (lookup tag m)) [
  | inl e ↦ rw (e, pending)
  | inr (c, e) ↦
      let (hr, hw) = count-lookup tag m c e in
      rw (e, pending) (ground (arith, h c.read hr, h c.write hw))
]

-- After the first entry is swapped, the values of the others are what they were.
pending-store :
    (c : Counter) (m : Assoc Counter) (h : Heap) (tag : String) (up : Bool)
    → ((a : ℕ) → same a c.read + same a c.write + count a m ≤ 1)
    → pending m (store c.read 0 (store c.write 0 h)).cell tag up ≡ pending m h.cell tag up
pending-store c m h tag up apart =
    pending-cong m h.cell (store c.read 0 (store c.write 0 h)).cell tag up
      λ a p. ground (arith, apart a)

same_resource_refl : (r : Resource) → same_resource r r ≡ true
unfolding same_resource
same_resource_refl inbound = refl
same_resource_refl outbound = refl
same_resource_refl user = refl

lt_int64-zero : (a : ℕ) → a < sign_bit → lt_int64 0 a ≡ ltb 0 a
lt_int64-zero a h = ground arith

-- The two rows of one entry, or none if nothing was counted.
rows_of : ℕ → Resource → String → ℕ → ℕ → List Stats → List Stats
rows_of dt r tag down up rows =
    if lt_int64 0 down || lt_int64 0 up
    then record { date_time = dt; resource = r; tag = tag; direction = false; traffic = down }
      ∷ record { date_time = dt; resource = r; tag = tag; direction = true; traffic = up }
      ∷ rows
    else rows

reported-rows_of :
    (dt : ℕ) (r : Resource) (k tag : String) (d : Bool) (down up : ℕ) (rows : List Stats)
    → down < sign_bit
    → up < sign_bit
    → reported r tag d (rows_of dt r k down up rows)
      ≡ (if str_eq k tag then (if d then up else down) else 0) + reported r tag d rows
unfolding rows_of reported
reported-rows_of dt r k tag d down up rows hd hu =
    ground (arith, same_resource_refl r, lt_int64-zero down hd, lt_int64-zero up hu)

drain_first :
    (dt : ℕ) (r : Resource) (k : String) (c : Counter) (m : Assoc Counter) (h : Heap)
    → c.write ≢ c.read
    → (drain dt r ((k, c) ∷ m) h).0
      ≡ rows_of dt r k
          (h.cell c.write)
          (h.cell c.read)
          (drain dt r m (store c.read 0 (store c.write 0 h))).0
unfolding drain rows_of
drain_first dt r k c m h apart = ground arith

reported-drain :
    (dt : ℕ) (r : Resource) (m : Assoc Counter) (h : Heap) (tag : String) (up : Bool)
    → HasUniqueKeys m
    → ((a : ℕ) → count a m ≤ 1)
    → ((a : ℕ) → h.cell a < sign_bit)
    → reported r tag up (drain dt r m h).0 ≡ pending m h.cell tag up
unfolding pending lookup count
reported-drain dt r [] h tag up u apart small = unfold drain reported in refl
reported-drain dt r ((k, c) ∷ m) h tag up u apart small =
    let h' = store c.read 0 (store c.write 0 h) in
    let rest =
      reported-drain dt r m h' tag up u.1 (λ a. omega (arith, apart a))
        (λ a. ground (arith, small a)) in
    let kept = pending-store c m h tag up apart in
    rw (drain_first dt r k c m h (ground (arith, apart c.read))) (
      ground (
        arith,
        rest,
        kept,
        u.0,
        eq_iff k tag,
        reported-rows_of dt r k tag up (h.cell c.write) (h.cell c.read) (drain dt r m h').0
            (small c.write) (small c.read),
      ))

reported-drain_other :
    (dt : ℕ) (r r' : Resource) (m : Assoc Counter) (h : Heap) (tag : String) (up : Bool)
    → same_resource r' r ≡ false
    → reported r tag up (drain dt r' m h).0 ≡ 0
unfolding drain reported
reported-drain_other dt r r' [] h tag up other = refl
reported-drain_other dt r r' ((k, c) ∷ m) h tag up other =
    ground (arith, reported-drain_other dt r r' m (store c.read 0 (store c.write 0 h)) tag up other)

-- Draining one map leaves what is pending in a map that shares no counter with it.
pending-drain :
    (dt : ℕ) (r : Resource) (m m' : Assoc Counter) (h : Heap) (tag : String) (up : Bool)
    → ((a : ℕ) → count a m + count a m' ≤ 1)
    → pending m' (drain dt r m h).1.cell tag up ≡ pending m' h.cell tag up
pending-drain dt r m m' h tag up apart =
    pending-cong m' h.cell (drain dt r m h).1.cell tag up
      λ a p. ground (arith, apart a, cell-drain dt r m h a)

pending-zero :
    (m : Assoc Counter) (cell : ℕ → ℕ) (tag : String) (up : Bool)
    → ((a : ℕ) → 0 < count a m → cell a ≡ 0)
    → pending m cell tag up ≡ 0
unfolding pending
pending-zero m cell tag up h = elim (Option-cases (lookup tag m)) [
  | inl e ↦ rw (e, pending)
  | inr (c, e) ↦
      let (hr, hw) = count-lookup tag m c e in
      rw (e, pending) (ground (arith, h c.read hr, h c.write hw))
]

drain-small :
    (dt : ℕ) (r : Resource) (m : Assoc Counter) (h : Heap)
    → ((a : ℕ) → h.cell a < sign_bit)
    → (a : ℕ) → (drain dt r m h).1.cell a < sign_bit
drain-small dt r m h small a = ground (arith, small a, cell-drain dt r m h a)

reported-append :
    (r : Resource) (tag : String) (up : Bool) (xs ys : List Stats)
    → reported r tag up (xs ++ ys) ≡ reported r tag up xs + reported r tag up ys
unfolding reported
reported-append r tag up xs ys = sum_of-append _ xs ys

-- The map of a resource.
unfoldable pub counters_of : Resource → StatsTracker → Assoc Counter
counters_of inbound t = t.inbounds
counters_of outbound t = t.outbounds
counters_of user t = t.users

module _ (dt : ℕ) (t : StatsTracker) (v : Inv t) (small : (a : ℕ) → t.heap.cell a < sign_bit) where
  h₁ : Heap
  h₁ = (drain dt inbound t.inbounds t.heap).1

  h₂ : Heap
  unfolding h₁
  h₂ = (drain dt outbound t.outbounds h₁).1

  h₁-small : (a : ℕ) → h₁.cell a < sign_bit
  unfolding h₁
  h₁-small = drain-small dt inbound t.inbounds t.heap small

  h₂-small : (a : ℕ) → h₂.cell a < sign_bit
  unfolding h₂
  h₂-small = drain-small dt outbound t.outbounds h₁ h₁-small

  reported-get_stats :
      (r : Resource) (tag : String) (up : Bool)
      → reported r tag up (get_stats dt t).0
        ≡ reported r tag up (drain dt inbound t.inbounds t.heap).0
          + reported r tag up (drain dt outbound t.outbounds h₁).0
          + reported r tag up (drain dt user t.users h₂).0
  unfolding get_stats h₁ h₂
  reported-get_stats r tag up = omega (
    arith,
    reported-append r tag up
        ((drain dt inbound t.inbounds t.heap).0 ++ (drain dt outbound t.outbounds h₁).0)
        (drain dt user t.users h₂).0,
    reported-append r tag up (drain dt inbound t.inbounds t.heap).0
        (drain dt outbound t.outbounds h₁).0,
  )

  reported_exact :
      (r : Resource) (tag : String) (up : Bool)
      → reported r tag up (get_stats dt t).0 ≡ pending (counters_of r t) t.heap.cell tag up
  unfolding counters_of same_resource
  reported_exact inbound tag up = omega (
    arith,
    reported-get_stats inbound tag up,
    reported-drain dt inbound t.inbounds t.heap tag up v.unique_inbounds
        (λ a. omega (arith, v.apart a)) small,
    reported-drain_other dt inbound outbound t.outbounds h₁ tag up refl,
    reported-drain_other dt inbound user t.users h₂ tag up refl,
  )
  reported_exact outbound tag up =
      unfold h₁ in
      omega (
        arith,
        reported-get_stats outbound tag up,
        reported-drain_other dt outbound inbound t.inbounds t.heap tag up refl,
        reported-drain dt outbound t.outbounds h₁ tag up v.unique_outbounds
            (λ a. omega (arith, v.apart a)) h₁-small,
        pending-drain dt inbound t.inbounds t.outbounds t.heap tag up
            (λ a. omega (arith, v.apart a)),
        reported-drain_other dt outbound user t.users h₂ tag up refl,
      )
  reported_exact user tag up =
      unfold h₁ h₂ in
      omega (
        arith,
        reported-get_stats user tag up,
        reported-drain_other dt user inbound t.inbounds t.heap tag up refl,
        reported-drain_other dt user outbound t.outbounds h₁ tag up refl,
        reported-drain dt user t.users h₂ tag up v.unique_users (λ a. omega (arith, v.apart a))
            h₂-small,
        pending-drain dt outbound t.outbounds t.users h₁ tag up (λ a. omega (arith, v.apart a)),
        pending-drain dt inbound t.inbounds t.users t.heap tag up (λ a. omega (arith, v.apart a)),
      )

  drained :
      (a : ℕ)
      → 0 < count a t.inbounds + count a t.outbounds + count a t.users
      → (get_stats dt t).1.heap.cell a ≡ 0
  unfolding get_stats
  drained a h = ground (
    arith,
    cell-drain dt inbound t.inbounds t.heap a,
    cell-drain dt outbound t.outbounds (drain dt inbound t.inbounds t.heap).1 a,
    cell-drain dt user t.users
        (drain dt outbound t.outbounds (drain dt inbound t.inbounds t.heap).1).1 a,
  )

  nothing_left :
      (r : Resource) (tag : String) (up : Bool)
      → pending (counters_of r (get_stats dt t).1) (get_stats dt t).1.heap.cell tag up ≡ 0
  unfolding counters_of get_stats
  nothing_left inbound tag up = pending-zero t.inbounds _ tag up λ a h. drained a (omega arith)
  nothing_left outbound tag up = pending-zero t.outbounds _ tag up λ a h. drained a (omega arith)
  nothing_left user tag up = pending-zero t.users _ tag up λ a h. drained a (omega arith)

-- While no counter has reached 2 ^ 63 and no counter is shared: for every name of every resource
-- and for both directions, GetStats reports exactly the traffic that was pending, and afterwards
-- none is.
pub get_stats_exact :
    (dt : ℕ) (t : StatsTracker)
    → Inv t
    → ((a : ℕ) → t.heap.cell a < sign_bit)
    → (r : Resource) (tag : String) (up : Bool)
    → (reported r tag up (get_stats dt t).0 ≡ pending (counters_of r t) t.heap.cell tag up)
      × (pending (counters_of r (get_stats dt t).1) (get_stats dt t).1.heap.cell tag up ≡ 0)
get_stats_exact dt t v small r tag up =
    (reported_exact dt t v small r tag up, nothing_left dt t v small r tag up)
