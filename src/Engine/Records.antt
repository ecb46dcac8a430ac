-- ===== src/Engine/Records.antt =====
-- The records of the analysis engine: its summaries, its buckets and categories with the order of
-- their keys, and the index of its caches (crates/protocol/src/lib.rs).
use android_ebpf_studio.Prelude.{ℕ, ◌+◌, ◌*◌, ◌<◌, ◌≡◌, Option, none, List, [], arith}
use android_ebpf_studio.Events.Block.{Text, IoOperation, AccessPattern, IoSizeClass}
use android_ebpf_studio.Events.Node.{IoNodeKind, kind_rank, kind_rank_differ, EdgeConfidence}
use android_ebpf_studio.Histogram.{Histogram, latency_histogram}
use android_ebpf_studio.Engine.Ordered.{Ranked}

pub record AttributionSummary : Type 0 where
  pub exact : ℕ
  pub probable : ℕ
  pub probable_async : ℕ
  pub unattributed : ℕ
  pub multi_origin : ℕ

abbrev pub no_attribution : AttributionSummary
no_attribution = record {
  exact = 0;
  probable = 0;
  probable_async = 0;
  unattributed = 0;
  multi_origin = 0;
}

pub record SlowReason : Type 0 where
  pub node_kind : IoNodeKind
  pub stage : Text
  pub selected_ns : ℕ
  pub cohort_median_ns : ℕ
  pub delta_ns : ℕ
  pub confidence : EdgeConfidence
  pub cohort_samples : ℕ

pub record CategorySummary : Type 0 where
  pub operation : IoOperation
  pub access_pattern : AccessPattern
  pub size_class : IoSizeClass
  pub completed_ios : ℕ
  pub bytes : ℕ
  pub average_chunk_bytes : ℕ
  pub p50_latency_ns : Option ℕ
  pub p95_latency_ns : Option ℕ
  pub p99_latency_ns : Option ℕ

pub record AnalysisSummary : Type 0 where
  pub issued_ios : ℕ
  pub completed_ios : ℕ
  pub uncorrelated_completions : ℕ
  pub read_bytes : ℕ
  pub write_bytes : ℕ
  pub other_bytes : ℕ
  pub sequential_ios : ℕ
  pub random_ios : ℕ
  pub small_ios : ℕ
  pub large_ios : ℕ
  pub max_queue_depth : Option ℕ
  pub measured_queue_depth_ios : ℕ
  pub unmeasured_latency_ios : ℕ
  pub unplaced_time_ios : ℕ
  pub p50_latency_ns : Option ℕ
  pub p95_latency_ns : Option ℕ
  pub p99_latency_ns : Option ℕ
  pub logging_ns : Option ℕ
  pub busy_ns : Option ℕ
  pub idle_ns : Option ℕ
  pub file_ios : ℕ
  pub attributed_file_ios : ℕ
  pub attribution : AttributionSummary
  pub category_summaries : List CategorySummary

-- `AnalysisSummary::default()`
abbrev pub no_summary : AnalysisSummary
no_summary = record {
  issued_ios = 0;
  completed_ios = 0;
  uncorrelated_completions = 0;
  read_bytes = 0;
  write_bytes = 0;
  other_bytes = 0;
  sequential_ios = 0;
  random_ios = 0;
  small_ios = 0;
  large_ios = 0;
  max_queue_depth = none;
  measured_queue_depth_ios = 0;
  unmeasured_latency_ios = 0;
  unplaced_time_ios = 0;
  p50_latency_ns = none;
  p95_latency_ns = none;
  p99_latency_ns = none;
  logging_ns = none;
  busy_ns = none;
  idle_ns = none;
  file_ios = 0;
  attributed_file_ios = 0;
  attribution = no_attribution;
  category_summaries = [];
}

pub record MutableBucket : Type 0 where
  pub completed_ios : ℕ
  pub bytes : ℕ
  pub latency_sum_ns : ℕ
  pub latency_samples : ℕ
  pub max_queue_depth : Option ℕ

abbrev pub no_bucket : MutableBucket
no_bucket = record {
  completed_ios = 0;
  bytes = 0;
  latency_sum_ns = 0;
  latency_samples = 0;
  max_queue_depth = none;
}

pub record MutableCategory : Type 0 where
  pub completed_ios : ℕ
  pub bytes : ℕ
  pub latencies : List ℕ
  pub histogram : Histogram

abbrev pub no_category : MutableCategory
no_category = record { completed_ios = 0; bytes = 0; latencies = []; histogram = latency_histogram }

instance abbrev pub second_ranked : Ranked ℕ
second_ranked = record { key_rank = λ n. n; ranks_differ = λ j k h. h }

instance abbrev pub kind_ranked : Ranked IoNodeKind
kind_ranked = record { key_rank = kind_rank; ranks_differ = kind_rank_differ }

pub record CategoryKey : Type 0 where
  pub operation : IoOperation
  pub access_pattern : AccessPattern
  pub size_class : IoSizeClass

abbrev operation_rank : IoOperation → ℕ
operation_rank IoOperation.read = 0
operation_rank IoOperation.write = 1
operation_rank IoOperation.flush = 2
operation_rank IoOperation.discard = 3
operation_rank IoOperation.other = 4

abbrev pattern_rank : AccessPattern → ℕ
pattern_rank AccessPattern.unknown = 0
pattern_rank AccessPattern.sequential = 1
pattern_rank AccessPattern.random = 2

abbrev size_rank : IoSizeClass → ℕ
size_rank IoSizeClass.small = 0
size_rank IoSizeClass.large = 1

-- The derived order of the triples, in the order of the declarations.
abbrev category_rank : CategoryKey → ℕ
category_rank k =
    operation_rank k.operation * 6 + pattern_rank k.access_pattern * 2 + size_rank k.size_class

operation_rank_differ : (a b : IoOperation) → operation_rank a ≡ operation_rank b → a ≡ b
operation_rank_differ a b h = ground arith

pattern_rank_differ : (a b : AccessPattern) → pattern_rank a ≡ pattern_rank b → a ≡ b
pattern_rank_differ a b h = ground arith

size_rank_differ : (a b : IoSizeClass) → size_rank a ≡ size_rank b → a ≡ b
size_rank_differ a b h = ground arith

pattern_rank-lt : (a : AccessPattern) → pattern_rank a < 3
pattern_rank-lt a = ground arith

size_rank-lt : (a : IoSizeClass) → size_rank a < 2
size_rank-lt a = ground arith

pub category_rank_differ : (j k : CategoryKey) → category_rank j ≡ category_rank k → j ≡ k
category_rank_differ j k h =
    let p = pattern_rank-lt j.access_pattern in
    let q = pattern_rank-lt k.access_pattern in
    let s = size_rank-lt j.size_class in
    let t = size_rank-lt k.size_class in
    let a = operation_rank_differ j.operation k.operation (omega arith) in
    let b = pattern_rank_differ j.access_pattern k.access_pattern (omega arith) in
    let c = size_rank_differ j.size_class k.size_class (omega arith) in cc

instance abbrev pub category_ranked : Ranked CategoryKey
category_ranked = record { key_rank = category_rank; ranks_differ = category_rank_differ }

-- The positions of files, observations, nodes and edges under the keys that a lookup asks for.
pub record AnalysisIndex : Type 0 where
  pub files_by_pid_time : List ((ℕ × ℕ) × List ℕ)
  pub files_by_tid_time : List ((ℕ × ℕ) × List ℕ)
  pub files_by_identity : List (((ℕ × ℕ) × ℕ) × List ℕ)
  pub long_files : List ℕ
  pub observations_by_request : List (ℕ × List ℕ)
  pub observations_by_pid_time : List ((ℕ × ℕ) × List ℕ)
  pub observations_by_sector_time : List ((ℕ × ℕ) × List ℕ)
  pub context_observations_by_time : List (ℕ × List ℕ)
  pub long_observations : List ℕ
  pub nodes_by_transaction : List (ℕ × List ℕ)
  pub edges_by_transaction : List (ℕ × List ℕ)
