-- ===== src/Stats/Buckets.antt =====
-- downsampleStats of service/stats.go. Times are not negative, and the end is not before the start, as
-- GetStats makes them.
use hy_panel.Base.{
  ℕ, ◌+◌, ◌-◌, ◌/◌, ◌%◌, ◌<◌, ◌≡◌, Bool, true, false, List, [], ◌∷◌, arith, ◌==◌, ltb, leb,
  if◌then◌else◌, All, sum_of,
}
use hy_panel.Base.Int64.{word, add_int64}
use hy_panel.Tracker.Stats.{Stats}

-- One entry of the map: the two sums, up and down, under the number of a bucket.
pub record Bucket : Type 0 where
  pub index : ℕ
  pub up : ℕ
  pub down : ℕ

pub record Downsampled : Type 0 where
  pub stats : List Bucket
  pub start_time : ℕ
  pub bucket_span : ℕ

unfoldable pub span_of : ℕ → ℕ → ℕ → ℕ
span_of start_time end_time num_buckets =
    let span = (end_time - start_time) / num_buckets in if span == 0 then 1 else span

-- The bucket of a time; one before the start belongs to the first, one behind the end to the last.
unfoldable pub bucket_of : ℕ → ℕ → ℕ → ℕ → ℕ
bucket_of start_time span num_buckets time =
    if ltb time start_time
    then 0
    else if leb num_buckets ((time - start_time) / span)
    then num_buckets - 1
    else (time - start_time) / span

unfoldable pub add_traffic : Bool → ℕ → Bucket → Bucket
add_traffic true n b = record b { up = add_int64 b.up n }
add_traffic false n b = record b { down = add_int64 b.down n }

-- The entry is made where it is missing.
unfoldable pub add_to : ℕ → Bool → ℕ → List Bucket → List Bucket
unfolding add_traffic
add_to i up n [] = add_traffic up n (record { index = i; up = 0; down = 0 }) ∷ []
add_to i up n (b ∷ bs) =
    let rest = add_to i up n bs in if b.index == i then add_traffic up n b ∷ bs else b ∷ rest

unfoldable pub fill : ℕ → ℕ → ℕ → List Stats → List Bucket → List Bucket
unfolding bucket_of add_to
fill start_time span num_buckets [] bs = bs
fill start_time span num_buckets (s ∷ rest) bs =
    fill start_time span num_buckets rest
      (add_to (bucket_of start_time span num_buckets s.date_time) s.direction s.traffic bs)

-- downsampleStats
unfoldable pub downsample_stats : List Stats → ℕ → ℕ → ℕ → Downsampled
unfolding span_of fill
downsample_stats stats start_time end_time num_buckets =
    let span = span_of start_time end_time num_buckets in
    record {
      stats = fill start_time span num_buckets stats [];
      start_time = start_time;
      bucket_span = span;
    }

-- The traffic of a list of rows, or of buckets, in one direction.
unfoldable pub row_traffic : Bool → Stats → ℕ
row_traffic true s = if s.direction then s.traffic else 0
row_traffic false s = if s.direction then 0 else s.traffic

unfoldable pub bucket_traffic : Bool → Bucket → ℕ
bucket_traffic true b = b.up
bucket_traffic false b = b.down

bucket_of-bound : (start_time span n time : ℕ) → 0 < n → bucket_of start_time span n time < n
unfolding bucket_of
bucket_of-bound start_time span n time h = ground arith

add_to-bound :
    (n i : ℕ) (up : Bool) (k : ℕ) (bs : List Bucket)
    → i < n
    → All (λ b. b.index < n) bs
    → All (λ b. b.index < n) (add_to i up k bs)
unfolding add_to
add_to-bound n i true k [] h a = (h, tt)
add_to-bound n i false k [] h a = (h, tt)
add_to-bound n i true k (b ∷ bs) h a =
    let rest = add_to-bound n i true k bs h a.1 in ground (arith, a.0, a.1, rest)
add_to-bound n i false k (b ∷ bs) h a =
    let rest = add_to-bound n i false k bs h a.1 in ground (arith, a.0, a.1, rest)

fill-bound :
    (start_time span n : ℕ) (stats : List Stats) (bs : List Bucket)
    → 0 < n
    → All (λ b. b.index < n) bs
    → All (λ b. b.index < n) (fill start_time span n stats bs)
unfolding fill
fill-bound start_time span n [] bs h a = a
fill-bound start_time span n (s ∷ rest) bs h a =
    fill-bound start_time span n rest _ h (
      add_to-bound n _ s.direction s.traffic bs (bucket_of-bound start_time span n s.date_time h) a)

add_to-traffic :
    (d : Bool) (i : ℕ) (up : Bool) (k : ℕ) (bs : List Bucket)
    → sum_of (bucket_traffic d) (add_to i up k bs) % word
      ≡ (sum_of (bucket_traffic d) bs
          + (if d then (if up then k else 0) else (if up then 0 else k)))
        % word
unfolding add_to bucket_traffic
add_to-traffic true i true k [] = ground arith
add_to-traffic true i false k [] = ground arith
add_to-traffic false i true k [] = ground arith
add_to-traffic false i false k [] = ground arith
add_to-traffic true i true k (b ∷ bs) = ground (arith, add_to-traffic true i true k bs)
add_to-traffic true i false k (b ∷ bs) = ground (arith, add_to-traffic true i false k bs)
add_to-traffic false i true k (b ∷ bs) = ground (arith, add_to-traffic false i true k bs)
add_to-traffic false i false k (b ∷ bs) = ground (arith, add_to-traffic false i false k bs)

fill-traffic :
    (d : Bool) (start_time span n : ℕ) (stats : List Stats) (bs : List Bucket)
    → sum_of (bucket_traffic d) (fill start_time span n stats bs) % word
      ≡ (sum_of (bucket_traffic d) bs + sum_of (row_traffic d) stats) % word
unfolding fill row_traffic
fill-traffic d start_time span n [] bs = ground arith
fill-traffic true start_time span n (s ∷ rest) bs =
    let i = bucket_of start_time span n s.date_time in
    let ih = fill-traffic true start_time span n rest (add_to i s.direction s.traffic bs) in
    let step = add_to-traffic true i s.direction s.traffic bs in ground (arith, ih, step)
fill-traffic false start_time span n (s ∷ rest) bs =
    let i = bucket_of start_time span n s.date_time in
    let ih = fill-traffic false start_time span n rest (add_to i s.direction s.traffic bs) in
    let step = add_to-traffic false i s.direction s.traffic bs in ground (arith, ih, step)

-- For a number of buckets that is not 0: every bucket has a number below it, and for both
-- directions the buckets hold the traffic of all rows together, up to the wrap-around of 64 bits.
pub downsample_stats_lem :
    (stats : List Stats) (start_time end_time n : ℕ)
    → 0 < n
    → All (λ b. b.index < n) (downsample_stats stats start_time end_time n).stats
      × ((up : Bool)
          → sum_of (bucket_traffic up) (downsample_stats stats start_time end_time n).stats % word
            ≡ sum_of (row_traffic up) stats % word)
unfolding downsample_stats
downsample_stats_lem stats start_time end_time n h = (
  fill-bound start_time (span_of start_time end_time n) n stats [] h tt,
  λ up. omega (arith, fill-traffic up start_time (span_of start_time end_time n) n stats []),
)
