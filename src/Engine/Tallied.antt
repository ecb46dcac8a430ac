-- ===== src/Engine/Tallied.antt =====
-- The histograms of the engine count exactly the latencies that it keeps (crates/protocol/src/lib.rs).
use android_ebpf_studio.Prelude.{
  ℕ, suc, ◌≤◌, ◌<◌, Bool, Option, none, some, List, [], ◌∷◌, arith, length, length-append, u64_max,
}
use android_ebpf_studio.Events.Completed.{CompletedIo, start_timestamp, completion_timestamp}
use android_ebpf_studio.Wire.{StorageEvent}
use android_ebpf_studio.Histogram.Tally.{
  Tallies, record_value-Tallies_last, latency_histogram-Tallies,
}
use android_ebpf_studio.Intervals.{Interval}
use android_ebpf_studio.Engine.Ordered.{
  modify_entry, AllEntries, AllEntries-mono, AllEntries-modify_entry,
}
use android_ebpf_studio.Engine.Records.{
  MutableCategory, no_category, CategoryKey, second_ranked, category_ranked,
}
use android_ebpf_studio.Engine.State.{
  AnalysisEngine, with_windows, record_completed, record_counts, record_latency, record_bucket,
  record_category, add_to_category, category_key, zip,
}
use android_ebpf_studio.Engine.Balance.{record_counts-rest}
use android_ebpf_studio.Engine.Ingest.{run}
use android_ebpf_studio.Engine.Kept.{Property, Of, run-Holds}

-- A category's histogram counts its latencies, of which there are at most `n`.
abbrev CategoryTallied : ℕ → CategoryKey → MutableCategory → Type 0
CategoryTallied n k c = (length c.latencies ≤ n) × Tallies c.histogram c.latencies

-- The same for the engine and each of its categories, for at most `n` events.
abbrev Tallied : ℕ → Property
Tallied n s latencies histogram buckets categories busy =
    n ≤ u64_max
    → (length latencies ≤ n)
      × Tallies histogram latencies
      × AllEntries (CategoryTallied n) categories

add_to_category-Tallied :
    (n : ℕ) (k : CategoryKey) (bytes : ℕ) (latency : Option ℕ) (c : MutableCategory)
    → n < u64_max
    → CategoryTallied n k c
    → CategoryTallied (suc n) k (add_to_category bytes latency c)
add_to_category-Tallied n k bytes none c l t = (omega arith, t.1)
add_to_category-Tallied n k bytes (some v) c l t = (
  omega (arith, length-append c.latencies (v ∷ [])),
  record_value-Tallies_last c.histogram v c.latencies t.1 (omega arith),
)

default-Tallied :
    (n : ℕ) (k : CategoryKey) (bytes : ℕ) (latency : Option ℕ)
    → n < u64_max
    → CategoryTallied (suc n) k (add_to_category bytes latency no_category)
default-Tallied n k bytes latency l =
    add_to_category-Tallied n k bytes latency no_category l (omega arith, latency_histogram-Tallies)

categories-Tallied :
    (n : ℕ) (key : CategoryKey) (bytes : ℕ) (latency : Option ℕ)
    (m : List (CategoryKey × MutableCategory))
    → n < u64_max
    → AllEntries (CategoryTallied n) m
    → AllEntries
        (CategoryTallied (suc n))
        (modify_entry no_category (add_to_category bytes latency) key m)
categories-Tallied n key bytes latency m l all =
    AllEntries-modify_entry (CategoryTallied n) (CategoryTallied (suc n)) no_category
      (add_to_category bytes latency) key m (λ j c h. (omega arith, h.1))
      (default-Tallied n key bytes latency l)
      (λ c h. add_to_category-Tallied n key bytes latency c l h) all

settle-Tallied :
    (n : ℕ) (e : AnalysisEngine) (key : CategoryKey) (bytes : ℕ) (latency : Option ℕ)
    (interval : Option Interval) (completion : Option ℕ)
    → Of (Tallied n) e
    → Of (Tallied (suc n)) (
        record_category
          (record_bucket (record_latency e latency interval) completion bytes latency)
          key
          bytes
          latency)
unfolding record_category record_bucket record_latency
settle-Tallied n e key bytes none interval none t small =
    let (short, tallies, all) = t (omega arith) in
    (omega arith, tallies, categories-Tallied n key bytes none e.categories small all)
settle-Tallied n e key bytes none interval (some ts) t small =
    let (short, tallies, all) = t (omega arith) in
    (omega arith, tallies, categories-Tallied n key bytes none e.categories small all)
settle-Tallied n e key bytes (some v) interval none t small =
    let (short, tallies, all) = t (omega arith) in
    (
      omega (arith, length-append e.latencies_ns (v ∷ [])),
      record_value-Tallies_last e.live_latency_histogram v e.latencies_ns tallies (omega arith),
      categories-Tallied n key bytes (some v) e.categories small all,
    )
settle-Tallied n e key bytes (some v) interval (some ts) t small =
    let (short, tallies, all) = t (omega arith) in
    (
      omega (arith, length-append e.latencies_ns (v ∷ [])),
      record_value-Tallies_last e.live_latency_histogram v e.latencies_ns tallies (omega arith),
      categories-Tallied n key bytes (some v) e.categories small all,
    )

record_completed-Tallied :
    (n : ℕ) (e : AnalysisEngine) (io : CompletedIo)
    → Of (Tallied n) e
    → Of (Tallied (suc n)) (record_completed e io)
unfolding record_completed
record_completed-Tallied n e io t =
    let (latencies, categories, busy, live) = record_counts-rest e io in
    settle-Tallied n (record_counts e io) (category_key io) io.issue.bytes io.total_latency_ns
      (zip (start_timestamp io) (completion_timestamp io)) (completion_timestamp io)
      (rw (latencies, categories, live) t)

weaker-Tallied : (n : ℕ) (e : AnalysisEngine) → Of (Tallied n) e → Of (Tallied (suc n)) e
weaker-Tallied n e t small =
    let (short, tallies, all) = t (omega arith) in
    (
      omega arith,
      tallies,
      AllEntries-mono (CategoryTallied n) (CategoryTallied (suc n)) e.categories
          (λ j c h. (omega arith, h.1)) all,
    )

-- The histograms of the engine and of each of its categories count exactly the latencies beside them.
abbrev pub IsTallied : AnalysisEngine → Type 0
IsTallied e =
    Tallies e.live_latency_histogram e.latencies_ns
    × AllEntries (λ (k : CategoryKey) c. Tallies c.histogram c.latencies) e.categories

-- After any events, up to 2^64 - 1 of them: the live histogram counts exactly the latencies that the
-- engine keeps for the exact summary, of which there are at most as many as events, and the
-- histogram of each category counts exactly the latencies of the category.
pub session-IsTallied :
    (ttl_ns sequential_window_ns : ℕ) (window : Option (ℕ × ℕ)) (retain_all : Bool)
    (events : List StorageEvent)
    → length events ≤ u64_max
    → let e =
        run
          (record (with_windows ttl_ns sequential_window_ns) {
            completion_window = window;
            retain_all_evidence = retain_all;
          })
          events in
      IsTallied e × (length e.latencies_ns ≤ length events)
session-IsTallied ttl sequential window retain_all events small =
    let (short, tallies, all) =
      run-Holds Tallied (λ n e s m a d t. t) weaker-Tallied record_completed-Tallied 0
        (record (with_windows ttl sequential) {
          completion_window = window;
          retain_all_evidence = retain_all;
        })
        events (λ h. (omega arith, latency_histogram-Tallies, tt)) (omega arith) in
    (
      (
        tallies,
        AllEntries-mono _ (λ (k : CategoryKey) c. Tallies c.histogram c.latencies) _ (λ j c h. h.1)
            all,
      ),
      omega arith,
    )
