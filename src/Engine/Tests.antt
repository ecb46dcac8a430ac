-- ===== src/Engine/Tests.antt =====
-- The analysis engine at concrete inputs (crates/protocol/src/lib.rs).
use android_ebpf_studio.Prelude.{
  ◌≡◌, refl, ◌≤◌, false, none, List, [], ◌∷◌, length, arith, nat_eq, pair_eq, list_eq,
}
use android_ebpf_studio.Samples.{completed, observed, file_read, stage_begin, stage_end}
use android_ebpf_studio.Events.File.{FileIo}
use android_ebpf_studio.Events.Pipeline.{PipelineObservation, PipelineLayer}
use android_ebpf_studio.Stats.{max_analysis_samples}
use android_ebpf_studio.Intervals.{merge_interval}
use android_ebpf_studio.Pipeline.{build_io_pipeline, filter}
use android_ebpf_studio.Prelude.Dict.{lookup, insert}
use android_ebpf_studio.Engine.State.{
  record_completed, record_counts, record_latency, record_depth, record_bucket, record_category,
  observe_request_time, AnalysisEngine, PairKey, with_windows,
}
use android_ebpf_studio.Engine.Evidence.{is_evidence_for}
use android_ebpf_studio.Engine.Derived.{pipeline_for, why_slow}
use android_ebpf_studio.Events.Completed.{CompletedIo}
use android_ebpf_studio.Engine.Slow.{Selects, IsLike, IsAnswer, why_slow-Explains}
use android_ebpf_studio.Engine.Whole.{pipeline_for-whole}
use android_ebpf_studio.Engine.Pairing.{ingest_pipeline, stage, begin_stage, expire_stages}
use android_ebpf_studio.Stats.Samples.{Appends}
use android_ebpf_studio.Engine.Pairs.{IsFree, IsSpanOf, begin_end-span, begin_begin_end-unpaired}
use android_ebpf_studio.Engine.Growth.{file_events, files-observations}
use android_ebpf_studio.Wire.{StorageEvent}
use android_ebpf_studio.Engine.Ingest.{run, ingest, dispatch}
use android_ebpf_studio.Engine.Blocks.{ingest_observed}
use android_ebpf_studio.Engine.Summary.{live_summary, exact_summary}
use android_ebpf_studio.Engine.Balance.{IsBalanced, session-IsBalanced}
use android_ebpf_studio.Engine.Tallied.{IsTallied, session-IsTallied}
use android_ebpf_studio.Engine.Live.{Estimates, live_summary-refines}

abbrev engine : AnalysisEngine
engine = with_windows 1000000 1000000

abbrev observing : AnalysisEngine
observing = record engine { pipeline_observations = observed ∷ [] }

pipeline_for-whole_example :
    (pipeline_for observing completed).1
    ≡ build_io_pipeline completed (filter (is_evidence_for observing completed) (observed ∷ []))
unfolding lookup
pipeline_for-whole_example =
    pipeline_for-whole observing completed (omega arith) (omega arith) refl refl

abbrev key : PairKey
key = ((PipelineLayer.block_queue, 1), [])

begin_end-span_example :
    let after = ingest_pipeline (ingest_pipeline engine (stage_begin 90)) (stage_end 120) in
    (v : PipelineObservation) × IsSpanOf (stage_begin 90) (stage_end 120) v
    × Appends max_analysis_samples false [] v after.pipeline_observations
    × IsFree key after
unfolding lookup
begin_end-span_example =
    begin_end-span engine key (stage_begin 90) (stage_end 120) (refl, refl) (refl, refl)
      (refl, refl) (omega arith) (omega arith)

begin_begin_end-unpaired_example :
    let after =
      ingest_pipeline
        (ingest_pipeline (ingest_pipeline engine (stage_begin 90)) (stage_begin 95))
        (stage_end 120) in
    (after.pipeline_observations ≡ []) × IsFree key after
unfolding lookup ingest_pipeline stage begin_stage expire_stages insert
begin_begin_end-unpaired_example =
    begin_begin_end-unpaired engine key (stage_begin 90) (stage_begin 95) (stage_end 120)
      (refl, refl) (refl, refl) (refl, refl) (refl, refl) (omega arith) (omega arith)

abbrev reads : List FileIo
reads = file_read ∷ file_read ∷ []

files-observations_example :
    let after = run (with_windows 1000000 1000000) (file_events reads) in
    (length after.file_ios ≤ max_analysis_samples)
    × (length after.pipeline_observations ≡ length reads)
files-observations_example =
    files-observations 1000000 1000000 reads (omega arith, (omega arith, tt))

abbrev events : List StorageEvent
events = StorageEvent.observed_block_completion completed ∷ []

abbrev session : AnalysisEngine
session = run (with_windows 1000000 1000000) events

-- One request of 50 ns.
session_latencies : session.latencies_ns ≡ 50 ∷ []
unfolding run ingest dispatch ingest_observed record_completed record_counts record_latency
    record_depth record_bucket record_category observe_request_time
session_latencies = refl

session_busy : session.busy_intervals ≡ (100, 150) ∷ []
unfolding run ingest dispatch ingest_observed record_completed record_counts record_latency
    record_depth record_bucket record_category observe_request_time merge_interval
session_busy = refl

session-IsBalanced_example : IsBalanced session
session-IsBalanced_example = session-IsBalanced 1000000 1000000 none false events

session-IsTallied_example : IsTallied session × (length session.latencies_ns ≤ length events)
session-IsTallied_example = session-IsTallied 1000000 1000000 none false events (omega arith)

live_summary-refines_example :
    let live = live_summary session in
    let exact = exact_summary session in
    (live.logging_ns ≡ exact.logging_ns)
    × (live.busy_ns ≡ exact.busy_ns)
    × (live.idle_ns ≡ exact.idle_ns)
    × Estimates 50 session.live_latency_histogram exact.p50_latency_ns live.p50_latency_ns
    × Estimates 95 session.live_latency_histogram exact.p95_latency_ns live.p95_latency_ns
    × Estimates 99 session.live_latency_histogram exact.p99_latency_ns live.p99_latency_ns
live_summary-refines_example =
    live_summary-refines session (session-IsBalanced 1000000 1000000 none false events)
      (session-IsTallied 1000000 1000000 none false events (omega arith)).0
      (rw session_busy (omega arith, tt)) (rw session_latencies (omega arith))
      (rw session_latencies (omega arith))

-- Three requests to compare with.
abbrev compared : AnalysisEngine
compared = record engine { completed = completed ∷ completed ∷ completed ∷ [] }

why_slow-Explains_example :
    (cohort : List CompletedIo) × Selects (IsLike completed) compared.completed cohort
    × IsAnswer compared completed cohort (why_slow compared completed).1
why_slow-Explains_example = why_slow-Explains compared completed
