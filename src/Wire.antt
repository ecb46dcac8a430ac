-- ===== src/Wire.antt =====
-- crates/protocol/src/lib.rs: the records of a session file and the parts of them that no other
-- module declares. A `serde_json::Value` is its text.
pub mod Records
use android_ebpf_studio.Prelude.{ℕ, ℤ, Bool, Option, List}
use android_ebpf_studio.Events.Block.{Text, BlockInsert, BlockIssue, BlockComplete, SchedulerIoWait}
use android_ebpf_studio.Events.File.{FileIo}
use android_ebpf_studio.Events.Node.{IoNode, IoEdge, RequestOrigin, EdgeConfidence}
use android_ebpf_studio.Events.Pipeline.{PipelineLayer, PipelineObservation}
use android_ebpf_studio.Events.Completed.{CompletedIo}
use android_ebpf_studio.Histogram.{Histogram, HistogramMetric}
use android_ebpf_studio.Capture.{CaptureConfig, CaptureMode}

pub data StorageEvent : Type 0 where
  scheduler_io_wait : SchedulerIoWait → StorageEvent
  block_insert : BlockInsert → StorageEvent
  block_issue : BlockIssue → StorageEvent
  block_complete : BlockComplete → StorageEvent
  observed_block_completion : CompletedIo → StorageEvent
  file_io : FileIo → StorageEvent
  pipeline : PipelineObservation → StorageEvent
  request_origin : RequestOrigin → StorageEvent
  node : IoNode → StorageEvent
  edge : IoEdge → StorageEvent

pub data CapabilityState : Type 0 where
  measured derived context unavailable : CapabilityState

pub record ProbePlan : Type 0 where
  pub layer : PipelineLayer
  pub probe_kind : Text
  pub group : Text
  pub event_or_function : Text
  pub state : CapabilityState
  pub format_hash : Option Text
  pub reason : Option Text

pub record ProbeCapabilities : Type 0 where
  pub bpf_syscall : Bool
  pub btf : Bool
  pub ring_buffer : Bool
  pub block_insert : Bool
  pub block_issue : Bool
  pub block_complete : Bool
  pub file_io : Bool
  pub exact_request_correlation : Bool
  pub exact_file_attribution : Bool
  pub ufs_events : List Text
  pub fs_events : List Text
  pub scsi_events : List Text
  pub ext4_events : List Text
  pub vfs_probe_candidates : List Text
  pub pipeline_layers : List PipelineLayer
  pub attach_plan : List ProbePlan
  pub scheduler_context : Option CapabilityState
  pub stack_traces : Option CapabilityState

pub record ProbeHealth : Type 0 where
  pub recursion_misses : Option ℕ
  pub emitted : ℕ
  pub reserve_failures : ℕ
  pub paired : ℕ
  pub unpaired : ℕ

data CaptureControlCommand : Type 0 where
  apply_config : CaptureConfig → CaptureControlCommand
  set_mode : ℕ → CaptureMode → Text → CaptureControlCommand

pub data ControlOutcome : Type 0 where
  applied rejected : ControlOutcome

pub record CaptureControlAck : Type 0 where
  pub requested_generation : ℕ
  pub active_generation : ℕ
  pub outcome : ControlOutcome
  pub reason : Option Text

pub record AggregateCounters : Type 0 where
  pub observed : ℕ
  pub bytes : ℕ
  pub failed : ℕ
  pub filter_passed : ℕ
  pub filter_suppressed : ℕ
  pub detail_emitted : ℕ
  pub suppressed_fast : ℕ
  pub sampled : ℕ
  pub forced_error : ℕ
  pub ring_reserve_failures : ℕ
  pub map_insert_failures : ℕ
  pub expired : ℕ
  pub key_reused : ℕ

pub record AggregateSnapshot : Type 0 where
  pub session_id : Text
  pub epoch : ℕ
  pub config_generation : ℕ
  pub start_ts_ns : ℕ
  pub end_ts_ns : ℕ
  pub counters : AggregateCounters
  pub histograms : List (HistogramMetric × Histogram)

pub data HeavyHitterDimension : Type 0 where
  process user file device operation stage origin : HeavyHitterDimension

pub data HeavyHitterMetric : Type 0 where
  count bytes cumulative_latency maximum_latency p99_bucket : HeavyHitterMetric

pub record HeavyHitterEntry : Type 0 where
  pub key : Text
  pub count : ℕ
  pub bytes : ℕ
  pub cumulative_latency_ns : ℕ
  pub max_latency_ns : ℕ
  pub confidence : Option EdgeConfidence

pub record HeavyHitterSnapshot : Type 0 where
  pub epoch : ℕ
  pub dimension : HeavyHitterDimension
  pub metric : HeavyHitterMetric
  pub candidate_capacity : ℕ
  pub evicted_keys : ℕ
  pub covered_metric : ℕ
  pub total_metric : ℕ
  pub entries : List HeavyHitterEntry

pub record SegmentRecord : Type 0 where
  pub segment_id : ℕ
  pub trigger_ts_ns : ℕ
  pub requested_start_ts_ns : ℕ
  pub retained_start_ts_ns : ℕ
  pub end_ts_ns : ℕ
  pub retained_bytes : ℕ
  pub evicted_records : ℕ

pub data StackKind : Type 0 where
  user kernel : StackKind

pub record StackFingerprintRecord : Type 0 where
  pub ts_ns : ℕ
  pub transaction_id : Option ℕ
  pub kind : StackKind
  pub opaque_stack_id : ℕ
  pub frame_count : ℕ
  pub symbolized : Bool
  pub sample_count : ℕ
  pub tail_count : ℕ
  pub cumulative_latency_ns : ℕ
