-- ===== src/Engine/Blocks.antt =====
-- `AnalysisEngine::ingest`: the handlers of scheduler waits, block events and completions that are
-- observed as such (crates/protocol/src/lib.rs).
use android_ebpf_studio.Prelude.{
  ℕ, ◌+◌, ◌-◌, ◌/◌, ◌&&◌, Bool, true, false, not, Option, none, some, List, [], ◌∷◌, ◌++◌, leb, eqb,
  if◌then◌else◌, length, take, drop, max, saturating_add, nat_eq, pair_eq, list_eq,
}
use android_ebpf_studio.Prelude.Dict.{lookup, insert, remove}
use android_ebpf_studio.Events.Block.{
  BlockInsert, BlockIssue, BlockComplete, SchedulerIoWait, AccessPattern, IoSizeClass,
  classify_size,
}
use android_ebpf_studio.Events.Node.{confidence_eq}
use android_ebpf_studio.Events.Pipeline.{layer_eq}
use android_ebpf_studio.Events.Completed.{CompletedIo, completion_timestamp, issue_timestamp}
use android_ebpf_studio.Correlator.{on_insert, on_issue_classified, on_complete, is_some}
use android_ebpf_studio.Classifier.{classify}
use android_ebpf_studio.Stats.{bounded_push, max_analysis_samples}
use android_ebpf_studio.Engine.Records.{AnalysisSummary}
use android_ebpf_studio.Engine.State.{
  AnalysisEngine, CacheKey, request_cache_key, window_30s, min_with, observe_ts,
  observe_request_time, max_depth, bucket_depth, record_completed,
}

-- `is_none_or(|(a, b)| ts >= a && ts <= b)`
abbrev pub in_window : Option (ℕ × ℕ) → ℕ → Bool
in_window none ts = true
in_window (some (start, end)) ts = leb start ts && leb ts end

unfoldable pub ingest_wait : AnalysisEngine → SchedulerIoWait → AnalysisEngine
ingest_wait e wait =
    let started = record e {
      scheduler_start_ns = some (min_with e.scheduler_start_ns wait.ts_ns);
    } in
    if in_window e.completion_window wait.ts_ns
    then if leb max_analysis_samples (length e.scheduler_waits)
      then record started {
        scheduler_waits = drop (max_analysis_samples / 10) e.scheduler_waits ++ wait ∷ [];
        scheduler_waits_dropped = e.scheduler_waits_dropped + max_analysis_samples / 10;
      }
      else record started { scheduler_waits = e.scheduler_waits ++ wait ∷ [] }
    else started

unfoldable pub ingest_insert : AnalysisEngine → BlockInsert → AnalysisEngine
ingest_insert e v =
    let seen = observe_ts e v.ts_ns in record seen { correlator = on_insert e.correlator v }

abbrev pub count_pattern : AnalysisSummary → AccessPattern → AnalysisSummary
count_pattern s AccessPattern.sequential = record s { sequential_ios = s.sequential_ios + 1 }
count_pattern s AccessPattern.random = record s { random_ios = s.random_ios + 1 }
count_pattern s AccessPattern.unknown = s

abbrev pub count_size : AnalysisSummary → IoSizeClass → AnalysisSummary
count_size s IoSizeClass.small = record s { small_ios = s.small_ios + 1 }
count_size s IoSizeClass.large = record s { large_ios = s.large_ios + 1 }

unfoldable pub ingest_issue : AnalysisEngine → BlockIssue → AnalysisEngine
ingest_issue e issue =
    let seen = observe_ts e issue.ts_ns in
    let (streams, pattern) = classify e.classifier issue in
    let issued = record e.summary { issued_ios = e.summary.issued_ios + 1 } in
    let counted = count_size (count_pattern issued pattern) (classify_size issue.bytes) in
    let (correlator, depth) = on_issue_classified e.correlator issue pattern in
    record seen {
      slow_reason_cache = remove issue.request_id e.slow_reason_cache;
      classifier = streams;
      correlator = correlator;
      summary = record counted { max_queue_depth = max_depth counted.max_queue_depth depth };
      buckets = bucket_depth issue.ts_ns depth e.buckets;
    }

-- The windows of the requests that are evicted go with them.
pub forget_windows : List CompletedIo → List (CacheKey × (ℕ × ℕ)) → List (CacheKey × (ℕ × ℕ))
forget_windows [] windows = windows
forget_windows (io ∷ ios) windows = forget_windows ios (remove (request_cache_key io) windows)

-- The first instant of evidence for a request: 30 s before its start, and after the completion
-- before it of the same id.
abbrev pub evidence_low : CompletedIo → Option ℕ → ℕ
evidence_low io previous = after (start io.insert - window_30s) previous
  where
    start : Option BlockInsert → ℕ
    start none = io.issue.ts_ns
    start (some v) = v.ts_ns

    after : ℕ → Option ℕ → ℕ
    after earliest none = earliest
    after earliest (some ts) = max earliest (saturating_add ts 1)

-- A request that the correlator completed, within the completion window.
unfoldable pub keep_completed : AnalysisEngine → CompletedIo → ℕ → AnalysisEngine
keep_completed e io low =
    let recorded = record_completed e io in
    let windows =
      insert (request_cache_key io) (low, io.completion.ts_ns) recorded.evidence_windows in
    if not e.retain_all_evidence && eqb (length e.completed) max_analysis_samples
    then record recorded {
      evidence_windows = forget_windows (take (max_analysis_samples / 10) e.completed) windows;
      completed = drop (max_analysis_samples / 10) e.completed ++ io ∷ [];
    }
    else record recorded { evidence_windows = windows; completed = e.completed ++ io ∷ [] }

-- From the answer of the correlator on.
unfoldable pub finish_complete : AnalysisEngine → Option CompletedIo → AnalysisEngine
finish_complete e none = record e {
  summary = record e.summary { uncorrelated_completions = e.summary.uncorrelated_completions + 1 };
}
finish_complete e (some io) =
    let previous = lookup io.issue.request_id e.last_request_completion in
    let noted = record e {
      last_request_completion =
          insert io.issue.request_id io.completion.ts_ns e.last_request_completion;
    } in
    if in_window e.completion_window io.completion.ts_ns
    then keep_completed noted io (evidence_low io previous)
    else noted

unfoldable pub ingest_complete :
    AnalysisEngine → BlockComplete → AnalysisEngine × Option CompletedIo
ingest_complete e v =
    let seen = observe_ts e v.ts_ns in
    let (correlator, answer) = on_complete e.correlator v in
    (finish_complete (record seen { correlator = correlator }) answer, answer)

-- `completion_window.is_some_and(..)` is false, so that the request is recorded.
abbrev pub placed_in_window : Option (ℕ × ℕ) → Option ℕ → Bool
placed_in_window none ts = true
placed_in_window (some w) none = false
placed_in_window (some w) (some ts) = in_window (some w) ts

-- The counts of a request that is not correlated here: `u64::from(issue_timestamp().is_some())`.
abbrev pub count_observed : AnalysisSummary → CompletedIo → AnalysisSummary
count_observed s io =
    let issued = record s {
      issued_ios = s.issued_ios + (if is_some (issue_timestamp io) then 1 else 0);
    } in
    count_size (count_pattern issued io.access_pattern) io.size_class

unfoldable pub ingest_observed : AnalysisEngine → CompletedIo → AnalysisEngine × Option CompletedIo
ingest_observed e io =
    let seen = observe_request_time e io in
    let counted = record seen { summary = count_observed seen.summary io } in
    if placed_in_window e.completion_window (completion_timestamp io)
    then (
      record (record_completed counted io) {
        completed = bounded_push max_analysis_samples e.retain_all_evidence e.completed io;
      },
      some io,
    )
    else (counted, some io)
