-- ===== src/Engine/State.antt =====
-- `AnalysisEngine`: its state, how it is built, what may be asked of it, and the recording of times
-- and of a completed request (crates/protocol/src/lib.rs). Counters that grow by one an event are
-- unbounded; sums of bytes wrap at 64 bits.
use android_ebpf_studio.Prelude.{
  ℕ, ◌+◌, ◌-◌, ◌/◌, min, max, Bool, false, Option, none, some, List, [], ◌∷◌, ◌++◌, wrapping_add,
}
use android_ebpf_studio.Events.Block.{Text, IoOperation, SchedulerIoWait}
use android_ebpf_studio.Events.File.{FileIo}
use android_ebpf_studio.Events.Node.{IoNode, IoEdge}
use android_ebpf_studio.Events.Pipeline.{PipelineLayer, PipelineObservation, IoPipeline}
use android_ebpf_studio.Events.Completed.{
  CompletedIo, completion_timestamp, issue_timestamp, start_timestamp,
}
use android_ebpf_studio.Histogram.{Histogram, record_value, latency_histogram}
use android_ebpf_studio.Graph.{IoTransactionGraph}
use android_ebpf_studio.Intervals.{Interval, merge_interval}
use android_ebpf_studio.Correlator as Correlator
use android_ebpf_studio.Correlator.{RequestCorrelator}
use android_ebpf_studio.Classifier.{Streams}
use android_ebpf_studio.Stats.{second_ns}
use android_ebpf_studio.Engine.Ordered.{modify_entry}
use android_ebpf_studio.Engine.Records.{
  AnalysisSummary, no_summary, MutableBucket, no_bucket, MutableCategory, no_category, CategoryKey,
  second_ranked, category_ranked, AnalysisIndex, SlowReason,
}

-- The request id, the issue time and the completion time.
abbrev pub CacheKey : Type 0
CacheKey = (ℕ × ℕ) × ℕ

abbrev pub PairKey : Type 0
PairKey = (PipelineLayer × ℕ) × Text

pub record AnalysisEngine : Type 0 where
  pub retain_all_evidence : Bool
  pub correlator : RequestCorrelator
  pub classifier : Streams
  pub summary : AnalysisSummary
  pub latencies_ns : List ℕ
  pub live_latency_histogram : Histogram
  pub buckets : List (ℕ × MutableBucket)
  pub categories : List (CategoryKey × MutableCategory)
  pub busy_intervals : List Interval
  pub first_ts_ns : Option ℕ
  pub last_ts_ns : Option ℕ
  pub completed : List CompletedIo
  pub scheduler_waits : List SchedulerIoWait
  pub scheduler_waits_dropped : ℕ
  pub scheduler_start_ns : Option ℕ
  pub file_ios : List FileIo
  pub pipeline_observations : List PipelineObservation
  pub pending_pipeline : List (PairKey × PipelineObservation)
  pub ambiguous_pipeline : List (PairKey × ℕ)
  pub graph_nodes : List IoNode
  pub graph_edges : List IoEdge
  pub summary_cache : Option AnalysisSummary
  pub pipeline_cache : List (CacheKey × IoPipeline)
  pub transaction_cache : List (CacheKey × IoTransactionGraph)
  pub analysis_index : Option AnalysisIndex
  pub slow_reason_cache : List (ℕ × Option SlowReason)
  pub attribution_generation : ℕ
  pub completion_window : Option (ℕ × ℕ)
  pub last_request_completion : List (ℕ × ℕ)
  pub evidence_windows : List (CacheKey × (ℕ × ℕ))

abbrev pub with_windows : ℕ → ℕ → AnalysisEngine
with_windows correlation_ttl_ns sequential_window_ns = record {
  retain_all_evidence = false;
  correlator = Correlator.new correlation_ttl_ns;
  classifier = [];
  summary = no_summary;
  latencies_ns = [];
  live_latency_histogram = latency_histogram;
  buckets = [];
  categories = [];
  busy_intervals = [];
  first_ts_ns = none;
  last_ts_ns = none;
  completed = [];
  scheduler_waits = [];
  scheduler_waits_dropped = 0;
  scheduler_start_ns = none;
  file_ios = [];
  pipeline_observations = [];
  pending_pipeline = [];
  ambiguous_pipeline = [];
  graph_nodes = [];
  graph_edges = [];
  summary_cache = none;
  pipeline_cache = [];
  transaction_cache = [];
  analysis_index = none;
  slow_reason_cache = [];
  attribution_generation = 0;
  completion_window = none;
  last_request_completion = [];
  evidence_windows = [];
}

abbrev pub window_30s : ℕ
window_30s = 30000000000

abbrev pub new : AnalysisEngine
new = with_windows window_30s 0

abbrev set_completion_window : AnalysisEngine → ℕ → ℕ → AnalysisEngine
set_completion_window e start_ns end_ns = record e { completion_window = some (start_ns, end_ns) }

abbrev pub request_cache_key : CompletedIo → CacheKey
request_cache_key io = ((io.issue.request_id, io.issue.ts_ns), io.completion.ts_ns)

-- `map_or(ts, |value| value.min(ts))`
abbrev pub min_with : Option ℕ → ℕ → ℕ
min_with none ts = ts
min_with (some value) ts = min value ts

abbrev max_with : Option ℕ → ℕ → ℕ
max_with none ts = ts
max_with (some value) ts = max value ts

abbrev pub observe_ts : AnalysisEngine → ℕ → AnalysisEngine
observe_ts e ts_ns = record e {
  first_ts_ns = some (min_with e.first_ts_ns ts_ns);
  last_ts_ns = some (max_with e.last_ts_ns ts_ns);
}

abbrev pub zip : Option ℕ → Option ℕ → Option (ℕ × ℕ)
zip (some a) (some b) = some (a, b)
zip _ _ = none

abbrev pub observe_both : AnalysisEngine → Option (ℕ × ℕ) → AnalysisEngine
observe_both e none = e
observe_both e (some (start, end)) = observe_ts (observe_ts e start) end

unfoldable pub observe_request_time : AnalysisEngine → CompletedIo → AnalysisEngine
observe_request_time e io = observe_both e (zip (start_timestamp io) (completion_timestamp io))

abbrev pub span_of : Option (ℕ × ℕ) → Option ℕ
span_of none = none
span_of (some (first, last)) = some (last - first)

abbrev pub known_time_span_ns : AnalysisEngine → Option ℕ
known_time_span_ns e = span_of (zip e.first_ts_ns e.last_ts_ns)

abbrev session_start_ns : AnalysisEngine → Option ℕ
session_start_ns e = e.first_ts_ns

-- `Option::max(Some(depth))`, where `None` is below all.
abbrev pub max_depth : Option ℕ → ℕ → Option ℕ
max_depth none depth = some depth
max_depth (some d) depth = some (max d depth)

-- A depth at the issue time enters the bucket of its second.
abbrev pub raise_depth : ℕ → MutableBucket → MutableBucket
raise_depth depth b = record b { max_queue_depth = max_depth b.max_queue_depth depth }

unfoldable pub bucket_depth : ℕ → ℕ → List (ℕ × MutableBucket) → List (ℕ × MutableBucket)
bucket_depth ts_ns depth buckets =
    modify_entry no_bucket (raise_depth depth) (ts_ns / second_ns) buckets

abbrev bucket_issue_depth : Option ℕ → ℕ → List (ℕ × MutableBucket) → List (ℕ × MutableBucket)
bucket_issue_depth none depth buckets = buckets
bucket_issue_depth (some ts) depth buckets = bucket_depth ts depth buckets

-- The first `if let` of `record_completed`.
unfoldable pub record_depth : AnalysisEngine → Option ℕ → Option ℕ → AnalysisEngine
record_depth e none issued = e
record_depth e (some depth) issued = record e {
  summary = record e.summary {
    measured_queue_depth_ios = e.summary.measured_queue_depth_ios + 1;
    max_queue_depth = max_depth e.summary.max_queue_depth depth;
  };
  buckets = bucket_issue_depth issued depth e.buckets;
}

abbrev add_bytes : AnalysisSummary → IoOperation → ℕ → AnalysisSummary
add_bytes s IoOperation.read bytes = record s { read_bytes = wrapping_add s.read_bytes bytes }
add_bytes s IoOperation.write bytes = record s { write_bytes = wrapping_add s.write_bytes bytes }
add_bytes s _ bytes = record s { other_bytes = wrapping_add s.other_bytes bytes }

abbrev pub merge_known : List Interval → Option Interval → List Interval
merge_known intervals none = intervals
merge_known intervals (some i) = merge_interval intervals i

unfoldable pub record_latency : AnalysisEngine → Option ℕ → Option Interval → AnalysisEngine
record_latency e none interval = record e {
  summary = record e.summary { unmeasured_latency_ios = e.summary.unmeasured_latency_ios + 1 };
}
record_latency e (some latency) interval = record e {
  latencies_ns = e.latencies_ns ++ latency ∷ [];
  live_latency_histogram = record_value e.live_latency_histogram latency;
  busy_intervals = merge_known e.busy_intervals interval;
}

abbrev pub add_to_bucket : ℕ → Option ℕ → MutableBucket → MutableBucket
add_to_bucket bytes none b = record b {
  completed_ios = b.completed_ios + 1;
  bytes = wrapping_add b.bytes bytes;
}
add_to_bucket bytes (some latency) b = record b {
  completed_ios = b.completed_ios + 1;
  bytes = wrapping_add b.bytes bytes;
  latency_sum_ns = b.latency_sum_ns + latency;
  latency_samples = b.latency_samples + 1;
}

-- The bucket of the completion's second; without a time the request is counted as unplaced.
unfoldable pub record_bucket : AnalysisEngine → Option ℕ → ℕ → Option ℕ → AnalysisEngine
record_bucket e none bytes latency = record e {
  summary = record e.summary { unplaced_time_ios = e.summary.unplaced_time_ios + 1 };
}
record_bucket e (some ts) bytes latency = record e {
  buckets = modify_entry no_bucket (add_to_bucket bytes latency) (ts / second_ns) e.buckets;
}

abbrev pub add_to_category : ℕ → Option ℕ → MutableCategory → MutableCategory
add_to_category bytes none c = record c {
  completed_ios = c.completed_ios + 1;
  bytes = wrapping_add c.bytes bytes;
}
add_to_category bytes (some latency) c = record c {
  completed_ios = c.completed_ios + 1;
  bytes = wrapping_add c.bytes bytes;
  latencies = c.latencies ++ latency ∷ [];
  histogram = record_value c.histogram latency;
}

abbrev pub category_key : CompletedIo → CategoryKey
category_key io = record {
  operation = io.issue.operation;
  access_pattern = io.access_pattern;
  size_class = io.size_class;
}

unfoldable pub record_category : AnalysisEngine → CategoryKey → ℕ → Option ℕ → AnalysisEngine
record_category e key bytes latency = record e {
  categories = modify_entry no_category (add_to_category bytes latency) key e.categories;
}

-- The counts that come before the latency: the request itself, its depth and its bytes.
unfoldable pub record_counts : AnalysisEngine → CompletedIo → AnalysisEngine
record_counts e io =
    let counted = record e {
      summary = record e.summary { completed_ios = e.summary.completed_ios + 1 };
    } in
    let deep = record_depth counted io.queue_depth_at_issue (issue_timestamp io) in
    record deep { summary = add_bytes deep.summary io.issue.operation io.issue.bytes }

unfoldable pub record_completed : AnalysisEngine → CompletedIo → AnalysisEngine
record_completed e io =
    let counted = record_counts e io in
    let timed =
      record_latency counted io.total_latency_ns
        (zip (start_timestamp io) (completion_timestamp io)) in
    let placed = record_bucket timed (completion_timestamp io) io.issue.bytes io.total_latency_ns in
    record_category placed (category_key io) io.issue.bytes io.total_latency_ns
