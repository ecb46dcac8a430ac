-- ===== src/Events/Completed.antt =====
-- `CompletedIo` and its accessors (crates/protocol/src/lib.rs).
use android_ebpf_studio.Prelude.{ℕ, ℤ, Option, none, some, List, if◌then◌else◌, eqb}
use android_ebpf_studio.Rolling.{RollingRate}
use android_ebpf_studio.Events.Block.{
  Text, BlockInsert, BlockIssue, BlockComplete, AccessPattern, IoSizeClass,
}
use android_ebpf_studio.Events.Pipeline.{CorrelationConfidence}

pub record CompletionEvidence : Type 0 where
  pub source : Text
  pub record_id : ℕ
  pub issue_record_candidates : List ℕ
  pub issue_timestamp_ns : Option ℕ
  pub issuer_pid : Option ℕ
  pub issuer_tid : Option ℕ
  pub issuer_cpu : Option ℕ
  pub completion_status : Option ℤ
  pub process_name : Option Text
  pub timing_confidence : CorrelationConfidence
  pub reason : Text
  pub clock : ℕ

pub record DetailTiming : Type 0 where
  pub issue_depth : Option ℕ
  pub issue_gap_ns : Option ℕ
  pub completion_gap_ns : Option ℕ
  pub issue_bandwidth : Option RollingRate
  pub completion_bandwidth : Option RollingRate

pub record CompletedIo : Type 0 where
  pub insert : Option BlockInsert
  pub issue : BlockIssue
  pub completion : BlockComplete
  pub latency_ns : Option ℕ
  pub queue_latency_ns : Option ℕ
  pub device_latency_ns : Option ℕ
  pub total_latency_ns : Option ℕ
  pub queue_depth_at_issue : Option ℕ
  pub queue_depth_after : Option ℕ
  pub detail_timing : DetailTiming
  pub access_pattern : AccessPattern
  pub size_class : IoSizeClass
  pub evidence : Option CompletionEvidence

-- `evidence.is_none_or(|e| e.clock == 0).then_some(ts)`
abbrev pub on_session_clock : Option CompletionEvidence → ℕ → Option ℕ
on_session_clock none ts = some ts
on_session_clock (some e) ts = if eqb e.clock 0 then some ts else none

abbrev pub completion_timestamp : CompletedIo → Option ℕ
completion_timestamp io = on_session_clock io.evidence io.completion.ts_ns

-- `evidence.map_or(Some(value), field)`
abbrev evidence_or {ℓ} : {A : Type ℓ} → Option CompletionEvidence → A → (CompletionEvidence → A) → A
evidence_or none value field = value
evidence_or (some e) value field = field e

abbrev and_then_if_some {ℓ} : {A : Type ℓ} → Option ℕ → Option A → Option A
and_then_if_some none o = none
and_then_if_some (some n) o = o

abbrev pub issue_timestamp : CompletedIo → Option ℕ
issue_timestamp io =
    and_then_if_some (completion_timestamp io)
      (evidence_or io.evidence (some io.issue.ts_ns) (λ e. e.issue_timestamp_ns))

abbrev issuer_pid : CompletedIo → Option ℕ
issuer_pid io = evidence_or io.evidence (some io.issue.pid) (λ e. e.issuer_pid)

abbrev issuer_tid : CompletedIo → Option ℕ
issuer_tid io = evidence_or io.evidence (some io.issue.tid) (λ e. e.issuer_tid)

abbrev issuer_cpu : CompletedIo → Option ℕ
issuer_cpu io = evidence_or io.evidence (some io.issue.cpu) (λ e. e.issuer_cpu)

abbrev completion_status : CompletedIo → Option ℤ
completion_status io =
    evidence_or io.evidence (some io.completion.status) (λ e. e.completion_status)

abbrev insert_time : Option BlockInsert → Option ℕ
insert_time none = none
insert_time (some i) = some i.ts_ns

-- `insert.map(ts).or_else(issue_timestamp).unwrap_or(completion)`
abbrev first_known : Option ℕ → Option ℕ → ℕ → ℕ
first_known (some i) issued completed = i
first_known none (some t) completed = t
first_known none none completed = completed

abbrev start_before : Option ℕ → Option ℕ → Option ℕ → Option ℕ
start_before none inserted issued = none
start_before (some completed) inserted issued = some (first_known inserted issued completed)

abbrev pub start_timestamp : CompletedIo → Option ℕ
start_timestamp io =
    start_before (completion_timestamp io) (insert_time io.insert) (issue_timestamp io)

abbrev pub timing_confidence : CompletedIo → CorrelationConfidence
timing_confidence io =
    evidence_or io.evidence CorrelationConfidence.exact (λ e. e.timing_confidence)
