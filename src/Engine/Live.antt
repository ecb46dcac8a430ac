-- ===== src/Engine/Live.antt =====
-- The live summary, which costs no more than the buckets, against the exact one
-- (`live_summary` and `summary`, crates/protocol/src/lib.rs).
use android_ebpf_studio.Prelude.{
  none, ℕ, suc, ◌+◌, ◌*◌, ◌≡◌, refl, sym, ap, ◌∙◌, ◌≤◌, ◌<◌, Option, some, List, [], ◌∷◌, arith,
  length, u64_max,
}
use android_ebpf_studio.Histogram.{Histogram, upper_or_lower, histogram_percentile_upper}
use android_ebpf_studio.Histogram.Tally.{Tallies, Tallies-alike, count_le}
use android_ebpf_studio.Histogram.Buckets.{IsBucketFrom, percentile_range-IsBucketFrom}
use android_ebpf_studio.Intervals.{Interval, union_duration, total_length}
use android_ebpf_studio.Intervals.Union.{AllEndBy, union_duration-count}
use android_ebpf_studio.Intervals.Merge.{AreSeparate}
use android_ebpf_studio.Intervals.Busy.{total_length-count}
use android_ebpf_studio.Stats.{percentile}
use android_ebpf_studio.Stats.Ranks.{AllFrom, IsSorted, IsBelow, percentile-within}
use android_ebpf_studio.Engine.State.{AnalysisEngine}
use android_ebpf_studio.Engine.Evidence.{sort, insert_sorted}
use android_ebpf_studio.Engine.Balance.{IsBalanced}
use android_ebpf_studio.Engine.Tallied.{IsTallied}
use android_ebpf_studio.Engine.Summary.{live_summary, exact_summary}

AllFrom-mono : (low low' : ℕ) (vs : List ℕ) → low' ≤ low → AllFrom low vs → AllFrom low' vs
AllFrom-mono low low' [] h a = tt
AllFrom-mono low low' (v ∷ vs) h a = (omega arith, AllFrom-mono low low' vs h a.1)

insert_sorted-AllFrom :
    (low v : ℕ) (vs : List ℕ) → low ≤ v → AllFrom low vs → AllFrom low (insert_sorted v vs)
unfolding insert_sorted
insert_sorted-AllFrom low v [] h a = (h, tt)
insert_sorted-AllFrom low v (w ∷ ws) h a = ground (arith, insert_sorted-AllFrom low v ws h a.1)

insert_sorted-IsSorted : (v : ℕ) (vs : List ℕ) → IsSorted vs → IsSorted (insert_sorted v vs)
unfolding insert_sorted
insert_sorted-IsSorted v [] s = (tt, tt)
insert_sorted-IsSorted v (w ∷ ws) s =
    ground
      (arith, insert_sorted-IsSorted v ws s.1, insert_sorted-AllFrom w v ws, AllFrom-mono w v ws)

pub sort-IsSorted : (vs : List ℕ) → IsSorted (sort vs)
unfolding sort
sort-IsSorted [] = tt
sort-IsSorted (v ∷ vs) = insert_sorted-IsSorted v (sort vs) (sort-IsSorted vs)

count_le-insert_sorted :
    (b v : ℕ) (vs : List ℕ) → count_le b (insert_sorted v vs) ≡ count_le b (v ∷ vs)
unfolding insert_sorted
count_le-insert_sorted b v [] = refl
count_le-insert_sorted b v (w ∷ ws) = ground (arith, count_le-insert_sorted b v ws)

pub count_le-sort : (b : ℕ) (vs : List ℕ) → count_le b (sort vs) ≡ count_le b vs
unfolding sort
count_le-sort b [] = refl
count_le-sort b (v ∷ vs) = omega (arith, count_le-insert_sorted b v (sort vs), count_le-sort b vs)

length-insert_sorted : (v : ℕ) (vs : List ℕ) → length (insert_sorted v vs) ≡ suc (length vs)
unfolding insert_sorted
length-insert_sorted v [] = refl
length-insert_sorted v (w ∷ ws) = ground (arith, length-insert_sorted v ws)

pub length-sort : (vs : List ℕ) → length (sort vs) ≡ length vs
unfolding sort
length-sort [] = refl
length-sort (v ∷ vs) = length-insert_sorted v (sort vs) ∙ ap suc (length-sort vs)

sort-Tallies : (h : Histogram) (vs : List ℕ) → Tallies h vs → Tallies h (sort vs)
sort-Tallies h vs t =
    Tallies-alike h vs (sort vs) (λ b. sym (count_le-sort b vs)) (sym (length-sort vs)) t

-- The upper bound of the bucket; the overflow bucket has none, and gives its lower bound.
abbrev LiveBound : ℕ × Option ℕ → Option ℕ → Type 0
LiveBound (lower, some upper) live = live ≡ some upper
LiveBound (lower, none) live = live ≡ some lower

upper_or_lower-LiveBound :
    (r : ℕ × Option ℕ) (live : Option ℕ) → live ≡ upper_or_lower (some r) → LiveBound r live
upper_or_lower-LiveBound (lower, some upper) live e = e
upper_or_lower-LiveBound (lower, none) live e = e

-- The exact percentile lies in a bucket of the histogram whose upper bound the live one is; of the
-- overflow bucket the live one is the lower bound.
abbrev pub Estimates : ℕ → Histogram → Option ℕ → Option ℕ → Type 0
Estimates p h exact live =
    (x : ℕ) × (r : ℕ × Option ℕ) × (exact ≡ some x)
    × IsBucketFrom 0 h.boundaries r
    × (r.0 ≤ x)
    × IsBelow x r.1
    × LiveBound r live

percentile-Estimates :
    (h : Histogram) (vs : List ℕ) (p : ℕ)
    → Tallies h vs
    → 0 < length vs
    → length vs * 100 + 99 ≤ u64_max
    → 1 ≤ p
    → p ≤ 100
    → Estimates p h (percentile (sort vs) p) (histogram_percentile_upper h p)
unfolding histogram_percentile_upper
percentile-Estimates h vs p t n l lo hi =
    let e = length-sort vs in
    let (x, r, exact, found, low, high) =
      percentile-within h (sort vs) p (sort-Tallies h vs t) (sort-IsSorted vs) (omega arith)
        (omega arith) lo hi in
    (
      x,
      r,
      exact,
      percentile_range-IsBucketFrom h vs p r t found,
      low,
      high,
      upper_or_lower-LiveBound r _ (ap upper_or_lower found),
    )

separate-busy :
    (is : List Interval)
    → AreSeparate 0 is
    → AllEndBy u64_max is
    → total_length is ≡ union_duration is
separate-busy is s a =
    total_length-count u64_max 0 is s a ∙ sym (union_duration-count u64_max is a (omega arith))

-- For an engine in balance whose histograms count its latencies, of at least one latency and so many
-- that 100 times their number plus 99 fits in 64 bits, and whose busy intervals end at 64-bit
-- instants: the live summary has the same logging, busy and idle time as the exact one, and each of
-- its three percentiles is the upper bound of the bucket that holds the exact percentile, or the
-- lower bound of the overflow bucket.
pub live_summary-refines :
    (e : AnalysisEngine)
    → IsBalanced e
    → IsTallied e
    → AllEndBy u64_max e.busy_intervals
    → 0 < length e.latencies_ns
    → length e.latencies_ns * 100 + 99 ≤ u64_max
    → let live = live_summary e in
      let exact = exact_summary e in
      (live.logging_ns ≡ exact.logging_ns)
      × (live.busy_ns ≡ exact.busy_ns)
      × (live.idle_ns ≡ exact.idle_ns)
      × Estimates 50 e.live_latency_histogram exact.p50_latency_ns live.p50_latency_ns
      × Estimates 95 e.live_latency_histogram exact.p95_latency_ns live.p95_latency_ns
      × Estimates 99 e.live_latency_histogram exact.p99_latency_ns live.p99_latency_ns
unfolding live_summary exact_summary
live_summary-refines e b t a n l =
    let same = separate-busy e.busy_intervals b.7 a in
    let estimate = λ (p : ℕ) (lo : 1 ≤ p) (hi : p ≤ 100).
      percentile-Estimates e.live_latency_histogram e.latencies_ns p t.0 n l lo hi in
    (
      refl,
      rw same refl,
      rw same refl,
      estimate 50 (omega arith) (omega arith),
      estimate 95 (omega arith) (omega arith),
      estimate 99 (omega arith) (omega arith),
    )
