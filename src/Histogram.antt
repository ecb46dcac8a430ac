-- ===== src/Histogram.antt =====
-- crates/protocol/src/lib.rs: `Histogram`, its constructor, `record`, `total_count` and
-- `percentile_range`, and the latency histogram of the analysis engine.
pub mod Tally
pub mod Percentile
pub mod Buckets
mod Tests
use android_ebpf_studio.Prelude.{
  ℕ, zero, suc, ◌+◌, ◌*◌, ◌/◌, ◌%◌, ◌^◌, ◌||◌, Bool, true, false, Option, none, some, List, [], ◌∷◌,
  ltb, leb, eqb, if◌then◌else◌, length, get_elem?, get_or, set, replicate, saturating_add, map,
}

pub data HistogramMetric : Type 0 where
  total_latency queue_latency device_latency filesystem_latency : HistogramMetric
  scsi_latency ufs_latency io_size queue_depth : HistogramMetric

-- `boundaries` are inclusive upper bounds; `counts` has one overflow bucket more.
pub record Histogram : Type 0 where
  pub boundaries : List ℕ
  pub counts : List ℕ

pub data HistogramError : Type 0 where
  empty_boundaries non_increasing_boundaries : HistogramError

pub data NewResult : Type 0 where
  ok : Histogram → NewResult
  err : HistogramError → NewResult

-- `boundaries.windows(2).any(|window| window[0] >= window[1])`
pub any_window_not_increasing : List ℕ → Bool
any_window_not_increasing [] = false
any_window_not_increasing (a ∷ []) = false
any_window_not_increasing (a ∷ b ∷ bs) = leb b a || any_window_not_increasing (b ∷ bs)

pub new : List ℕ → NewResult
unfolding any_window_not_increasing
new [] = err empty_boundaries
new (b ∷ bs) =
    if any_window_not_increasing (b ∷ bs)
    then err non_increasing_boundaries
    else ok (record { counts = replicate (length (b ∷ bs) + 1) 0; boundaries = b ∷ bs })

-- `partition_point(|boundary| *boundary < value)`: the number of leading boundaries below the
-- value, which is what the binary search finds in an increasing list.
pub partition_point : List ℕ → ℕ → ℕ
partition_point [] value = 0
partition_point (b ∷ bs) value = if ltb b value then suc (partition_point bs value) else 0

pub record_value : Histogram → ℕ → Histogram
unfolding partition_point
record_value h value =
    let index = partition_point h.boundaries value in
    record h { counts = set h.counts index (saturating_add (get_or h.counts index 0) 1) }

abbrev pub u64_modulus : ℕ
u64_modulus = 18446744073709551616

abbrev pub sum : List ℕ → ℕ
sum [] = 0
sum (x ∷ xs) = x + sum xs

-- `.sum()` over `u64`, which wraps in a release build.
pub total_count : Histogram → ℕ
total_count h = sum h.counts % u64_modulus

-- The bounds of bucket `index`: the lower is one above the boundary before it.
abbrev pub bucket_range : List ℕ → ℕ → ℕ × Option ℕ
bucket_range boundaries zero = (0, get_elem? boundaries 0)
bucket_range boundaries (suc i) =
    (saturating_add (get_or boundaries i 0) 1, get_elem? boundaries (suc i))

-- The loop of `percentile_range`, from bucket `index` on with the count of the buckets before it.
pub scan : List ℕ → ℕ → ℕ → ℕ → List ℕ → Option (ℕ × Option ℕ)
scan boundaries rank index cumulative [] = none
scan boundaries rank index cumulative (count ∷ counts) =
    let cumulative' = saturating_add cumulative count in
    let rest = scan boundaries rank (suc index) cumulative' counts in
    if ltb cumulative' rank then rest else some (bucket_range boundaries index)

abbrev saturating_mul : ℕ → ℕ → ℕ
saturating_mul a b = if leb (a * b) 18446744073709551615 then a * b else 18446744073709551615

-- `(total.saturating_mul(percentile).saturating_add(99)) / 100`
abbrev pub percentile_rank : ℕ → ℕ → ℕ
percentile_rank total percentile = saturating_add (saturating_mul total percentile) 99 / 100

pub percentile_range : Histogram → ℕ → Option (ℕ × Option ℕ)
unfolding total_count scan
percentile_range h percentile =
    let total = total_count h in
    if eqb total 0 || eqb percentile 0 || ltb 100 percentile
    then none
    else scan h.boundaries (percentile_rank total percentile) 0 0 h.counts

-- `(0..32).map(|power| 1_000_u64 << power)`
pub latency_boundaries : ℕ → ℕ → List ℕ
latency_boundaries zero bound = []
latency_boundaries (suc n) bound = bound ∷ latency_boundaries n (bound * 2)

pub latency_histogram : Histogram
unfolding latency_boundaries
latency_histogram = record {
  counts = replicate (length (latency_boundaries 32 1000) + 1) 0;
  boundaries = latency_boundaries 32 1000;
}

abbrev pub upper_or_lower : Option (ℕ × Option ℕ) → Option ℕ
upper_or_lower none = none
upper_or_lower (some (lower, none)) = some lower
upper_or_lower (some (lower, some upper)) = some upper

unfoldable pub histogram_percentile_upper : Histogram → ℕ → Option ℕ
unfolding percentile_range
histogram_percentile_upper h percentile = upper_or_lower (percentile_range h percentile)
