-- ===== src/Engine/Balance.antt =====
-- The totals of the engine agree with each other whatever events come (crates/protocol/src/lib.rs).
use android_ebpf_studio.Prelude.{
  ℕ, ◌+◌, ◌/◌, ◌%◌, ◌≡◌, refl, Bool, Option, none, some, List, [], ◌∷◌, arith, length,
  length-append, u64_size, inl, inr,
}
use android_ebpf_studio.Events.Completed.{
  CompletedIo, completion_timestamp, issue_timestamp, start_timestamp,
}
use android_ebpf_studio.Intervals.{Interval}
use android_ebpf_studio.Intervals.Merge.{AreSeparate, merge_interval-AreSeparate}
use android_ebpf_studio.Wire.{StorageEvent}
use android_ebpf_studio.Engine.Ordered.{
  total, total-modify_entry, total-modify_entry_wrapping, AreOrdered, modify_entry,
  modify_entry-AreOrdered,
}
use android_ebpf_studio.Engine.Records.{
  MutableBucket, MutableCategory, no_bucket, no_category, second_ranked, category_ranked,
  CategoryKey,
}
use android_ebpf_studio.Stats.{second_ns}
use android_ebpf_studio.Engine.Ingest.{run}
use android_ebpf_studio.Engine.Kept.{Property, Of, IgnoresCounts, Deepened, run-Holds}
use android_ebpf_studio.Engine.State.{
  AnalysisEngine, with_windows, record_completed, record_counts, record_depth, record_latency,
  record_bucket, record_category, bucket_depth, add_to_bucket, add_to_category, raise_depth,
  merge_known, category_key, zip,
}

abbrev bucket_ios : MutableBucket → ℕ
bucket_ios b = b.completed_ios

abbrev category_ios : MutableCategory → ℕ
category_ios c = c.completed_ios

abbrev category_samples : MutableCategory → ℕ
category_samples c = length c.latencies

abbrev category_bytes : MutableCategory → ℕ
category_bytes c = c.bytes

-- Every completed request has a latency or is counted as unmeasured, stands in the bucket of a second
-- or is counted as unplaced, and stands in one category; the categories hold as many latencies as the
-- engine, and the bytes of the operations are those of the categories, modulo 2^64. Buckets and
-- categories stand in the order of their keys, none twice, and the busy intervals are separate.
abbrev Balanced : Property
Balanced s latencies histogram buckets categories busy =
    (s.completed_ios ≡ length latencies + s.unmeasured_latency_ios)
    × (total bucket_ios buckets + s.unplaced_time_ios ≡ s.completed_ios)
    × (total category_ios categories ≡ s.completed_ios)
    × (total category_samples categories ≡ length latencies)
    × ((s.read_bytes + s.write_bytes + s.other_bytes) % u64_size
        ≡ total category_bytes categories % u64_size)
    × AreOrdered buckets
    × AreOrdered categories
    × AreSeparate 0 busy

abbrev pub IsBalanced : AnalysisEngine → Type 0
IsBalanced = Of Balanced

-- An issue's depth leaves the counts of the buckets alone.
bucket_depth-total :
    (ts depth : ℕ) (m : List (ℕ × MutableBucket))
    → total bucket_ios (bucket_depth ts depth m) ≡ total bucket_ios m
unfolding bucket_depth
bucket_depth-total ts depth m = omega (
  arith,
  total-modify_entry bucket_ios 0 no_bucket (raise_depth depth) (ts / second_ns) m refl
      (λ v. omega arith),
)

bucket_depth-totals :
    (ts depth : ℕ) (m : List (ℕ × MutableBucket))
    → AreOrdered m
    → (total bucket_ios (bucket_depth ts depth m) ≡ total bucket_ios m)
      × AreOrdered (bucket_depth ts depth m)
unfolding bucket_depth
bucket_depth-totals ts depth m o = (
  bucket_depth-total ts depth m,
  modify_entry-AreOrdered no_bucket (raise_depth depth) (ts / second_ns) m o,
)

record_depth-buckets :
    (e : AnalysisEngine) (depth issued : Option ℕ)
    → AreOrdered e.buckets
    → (total bucket_ios (record_depth e depth issued).buckets ≡ total bucket_ios e.buckets)
      × AreOrdered (record_depth e depth issued).buckets
unfolding record_depth
record_depth-buckets e none issued o = (refl, o)
record_depth-buckets e (some depth) none o = (refl, o)
record_depth-buckets e (some depth) (some ts) o = bucket_depth-totals ts depth e.buckets o

-- The equations of a balanced engine, one request and its bytes short of the counts.
abbrev Owes : ℕ → AnalysisEngine → Type 0
Owes bytes e =
    (e.summary.completed_ios ≡ length e.latencies_ns + e.summary.unmeasured_latency_ios + 1)
    × (total bucket_ios e.buckets + e.summary.unplaced_time_ios + 1 ≡ e.summary.completed_ios)
    × (total category_ios e.categories + 1 ≡ e.summary.completed_ios)
    × (total category_samples e.categories ≡ length e.latencies_ns)
    × ((e.summary.read_bytes + e.summary.write_bytes + e.summary.other_bytes) % u64_size
        ≡ (total category_bytes e.categories + bytes) % u64_size)
    × AreOrdered e.buckets
    × AreOrdered e.categories
    × AreSeparate 0 e.busy_intervals

record_counts-summary :
    (e : AnalysisEngine) (io : CompletedIo)
    → let s = (record_counts e io).summary in
      (s.completed_ios ≡ e.summary.completed_ios + 1)
      × ((s.read_bytes + s.write_bytes + s.other_bytes) % u64_size
          ≡ (e.summary.read_bytes + e.summary.write_bytes + e.summary.other_bytes + io.issue.bytes)
            % u64_size)
      × (s.unmeasured_latency_ios ≡ e.summary.unmeasured_latency_ios)
      × (s.unplaced_time_ios ≡ e.summary.unplaced_time_ios)
unfolding record_counts record_depth
record_counts-summary e io = ground arith

pub record_counts-rest :
    (e : AnalysisEngine) (io : CompletedIo)
    → ((record_counts e io).latencies_ns ≡ e.latencies_ns)
      × ((record_counts e io).categories ≡ e.categories)
      × ((record_counts e io).busy_intervals ≡ e.busy_intervals)
      × ((record_counts e io).live_latency_histogram ≡ e.live_latency_histogram)
unfolding record_counts record_depth
record_counts-rest e io = ground arith

record_counts-buckets :
    (e : AnalysisEngine) (io : CompletedIo)
    → AreOrdered e.buckets
    → (total bucket_ios (record_counts e io).buckets ≡ total bucket_ios e.buckets)
      × AreOrdered (record_counts e io).buckets
unfolding record_counts
record_counts-buckets e io o =
    record_depth-buckets
      (record e { summary = record e.summary { completed_ios = e.summary.completed_ios + 1 } })
      io.queue_depth_at_issue (issue_timestamp io) o

record_counts-Owes :
    (e : AnalysisEngine) (io : CompletedIo)
    → IsBalanced e
    → Owes io.issue.bytes (record_counts e io)
record_counts-Owes e io b =
    let (completed, bytes, unmeasured, unplaced) = record_counts-summary e io in
    let (latencies, categories, busy, live) = record_counts-rest e io in
    let (same, ordered) = record_counts-buckets e io b.5 in
    rw (latencies, categories, busy)
      (omega arith, omega arith, omega arith, b.3, omega arith, ordered, b.6, b.7)

latency-Separate :
    (is : List Interval) (i : Option Interval) → AreSeparate 0 is → AreSeparate 0 (merge_known is i)
latency-Separate is none s = s
latency-Separate is (some i) s = (merge_interval-AreSeparate is i s).0

abbrev sample : Option ℕ → ℕ
sample none = 0
sample (some l) = 1

-- One request more in its category.
category_totals :
    (key : CategoryKey) (bytes : ℕ) (latency : Option ℕ) (m : List (CategoryKey × MutableCategory))
    → AreOrdered m
    → let m' = modify_entry no_category (add_to_category bytes latency) key m in
      (total category_ios m' ≡ total category_ios m + 1)
      × (total category_samples m' ≡ total category_samples m + sample latency)
      × (total category_bytes m' % u64_size ≡ (total category_bytes m + bytes) % u64_size)
      × AreOrdered m'
category_totals key bytes none m o =
    let add = add_to_category bytes none in
    (
      total-modify_entry category_ios 1 no_category add key m refl (λ v. refl),
      total-modify_entry category_samples 0 no_category add key m refl (λ v. omega arith),
      total-modify_entry_wrapping category_bytes bytes no_category add key m refl (λ v. refl),
      modify_entry-AreOrdered no_category add key m o,
    )
category_totals key bytes (some l) m o =
    let add = add_to_category bytes (some l) in
    (
      total-modify_entry category_ios 1 no_category add key m refl (λ v. refl),
      total-modify_entry category_samples 1 no_category add key m refl
          (λ v. length-append v.latencies (l ∷ [])),
      total-modify_entry_wrapping category_bytes bytes no_category add key m refl (λ v. refl),
      modify_entry-AreOrdered no_category add key m o,
    )

-- One request more in the bucket of its second.
bucket_totals :
    (ts bytes : ℕ) (latency : Option ℕ) (m : List (ℕ × MutableBucket))
    → AreOrdered m
    → let m' = modify_entry no_bucket (add_to_bucket bytes latency) (ts / second_ns) m in
      (total bucket_ios m' ≡ total bucket_ios m + 1) × AreOrdered m'
bucket_totals ts bytes none m o = (
  total-modify_entry bucket_ios 1 no_bucket (add_to_bucket bytes none) (ts / second_ns) m refl
      (λ v. refl),
  modify_entry-AreOrdered no_bucket (add_to_bucket bytes none) (ts / second_ns) m o,
)
bucket_totals ts bytes (some l) m o = (
  total-modify_entry bucket_ios 1 no_bucket (add_to_bucket bytes (some l)) (ts / second_ns) m refl
      (λ v. refl),
  modify_entry-AreOrdered no_bucket (add_to_bucket bytes (some l)) (ts / second_ns) m o,
)

settle :
    (e : AnalysisEngine) (key : CategoryKey) (bytes : ℕ) (latency : Option ℕ)
    (interval : Option Interval) (completion : Option ℕ)
    → Owes bytes e
    → IsBalanced (
        record_category
          (record_bucket (record_latency e latency interval) completion bytes latency)
          key
          bytes
          latency)
unfolding record_category record_bucket record_latency
settle e key bytes none interval none o =
    let (c, s, b, sorted) = category_totals key bytes none e.categories o.6 in
    (omega arith, omega arith, omega arith, omega arith, omega arith, o.5, sorted, o.7)
settle e key bytes none interval (some ts) o =
    let (c, s, b, sorted) = category_totals key bytes none e.categories o.6 in
    let (n, ordered) = bucket_totals ts bytes none e.buckets o.5 in
    (omega arith, omega arith, omega arith, omega arith, omega arith, ordered, sorted, o.7)
settle e key bytes (some l) interval none o =
    let (c, s, b, sorted) = category_totals key bytes (some l) e.categories o.6 in
    let more = length-append e.latencies_ns (l ∷ []) in
    (
      omega arith,
      omega arith,
      omega arith,
      omega arith,
      omega arith,
      o.5,
      sorted,
      latency-Separate e.busy_intervals interval o.7,
    )
settle e key bytes (some l) interval (some ts) o =
    let (c, s, b, sorted) = category_totals key bytes (some l) e.categories o.6 in
    let (n, ordered) = bucket_totals ts bytes (some l) e.buckets o.5 in
    let more = length-append e.latencies_ns (l ∷ []) in
    (
      omega arith,
      omega arith,
      omega arith,
      omega arith,
      omega arith,
      ordered,
      sorted,
      latency-Separate e.busy_intervals interval o.7,
    )

record_completed-IsBalanced :
    (e : AnalysisEngine) (io : CompletedIo) → IsBalanced e → IsBalanced (record_completed e io)
unfolding record_completed
record_completed-IsBalanced e io b =
    settle (record_counts e io) (category_key io) io.issue.bytes io.total_latency_ns
      (zip (start_timestamp io) (completion_timestamp io)) (completion_timestamp io)
      (record_counts-Owes e io b)

Balanced-counts : IgnoresCounts Balanced
Balanced-counts e s m a deepened b = (
  omega arith,
  omega (arith, (buckets deepened).0),
  omega arith,
  b.3,
  rw (a.3, a.4, a.5) b.4,
  (buckets deepened).1,
  b.6,
  b.7,
)
  where
    buckets :
        Deepened e.buckets m → (total bucket_ios m ≡ total bucket_ios e.buckets) × AreOrdered m
    buckets (inl same) = rw same (refl, b.5)
    buckets (inr (ts, depth, deeper)) = rw deeper (bucket_depth-totals ts depth e.buckets b.5)

-- After any events, in any order, within any completion window or none, with and without eviction:
-- every completed request has a latency or is counted as unmeasured, stands in the bucket of one
-- second or is counted as unplaced, and stands in one category; the categories hold as many latencies
-- as the engine; the bytes of reads, writes and other operations are together those of the
-- categories, modulo 2^64; buckets and categories stand in the order of their keys, none twice; and
-- the busy intervals are separate.
pub session-IsBalanced :
    (ttl_ns sequential_window_ns : ℕ) (window : Option (ℕ × ℕ)) (retain_all : Bool)
    (events : List StorageEvent)
    → IsBalanced (
        run
          (record (with_windows ttl_ns sequential_window_ns) {
            completion_window = window;
            retain_all_evidence = retain_all;
          })
          events)
session-IsBalanced ttl sequential window retain_all events =
    run-Holds (λ n. Balanced) (λ n. Balanced-counts) (λ n e b. b)
      (λ n e io b. record_completed-IsBalanced e io b) 0 _ events
      (refl, refl, refl, refl, refl, tt, tt, tt)
