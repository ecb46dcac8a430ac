-- ===== src/Engine/Kept.antt =====
-- What every event keeps: a property of the totals that `record_completed`, the depth of an issue and
-- the counts beside them keep is kept by `ingest` (crates/protocol/src/lib.rs).
use android_ebpf_studio.Prelude.{
  ℕ, suc, ◌⊎◌, if◌then◌else◌, ◌+◌, ◌&&◌, ◌≡◌, refl, not, Option, none, some, List, [], ◌∷◌, arith,
  leb, eqb, length, inl, inr, Bool-cases, nat_eq, pair_eq, list_eq,
}
use android_ebpf_studio.Prelude.Dict.{lookup, insert, remove}
use android_ebpf_studio.Events.Block.{
  BlockIssue, SchedulerIoWait, AccessPattern, IoSizeClass, classify_size,
}
use android_ebpf_studio.Events.Pipeline.{
  layer_eq, PipelinePhase, PipelineObservation, begin, end, instant, span,
}
use android_ebpf_studio.Events.Completed.{CompletedIo, start_timestamp, completion_timestamp}
use android_ebpf_studio.Wire.{
  StorageEvent, scheduler_io_wait, block_insert, block_issue, block_complete,
  observed_block_completion, file_io, pipeline, request_origin, node, edge,
}
use android_ebpf_studio.Correlator.{on_issue_classified, on_complete, is_some}
use android_ebpf_studio.Classifier.{classify}
use android_ebpf_studio.Stats.{max_analysis_samples}
use android_ebpf_studio.Engine.Records.{
  AnalysisSummary, MutableBucket, MutableCategory, CategoryKey,
}
use android_ebpf_studio.Intervals.{Interval}
use android_ebpf_studio.Histogram.{Histogram}
use android_ebpf_studio.Engine.State.{
  AnalysisEngine, PairKey, record_completed, observe_request_time, observe_both, observe_ts, zip,
  max_depth, bucket_depth,
}
use android_ebpf_studio.Engine.Pairing.{
  ingest_pipeline, stage, begin_stage, end_stage, close_stage, expire_stages, observe_end, pair_key,
}
use android_ebpf_studio.Engine.Ingest.{
  is_attributed, ingest_file, ingest_node, ingest_origin, ingest_edge, clear_caches, dispatch,
  is_evidence, ingest, run,
}
use android_ebpf_studio.Engine.Blocks.{
  in_window, placed_in_window, count_pattern, count_size, count_observed, evidence_low, ingest_wait,
  ingest_insert, ingest_issue, ingest_complete, finish_complete, keep_completed, ingest_observed,
}

-- The counts that the balance reads are the same.
abbrev Agrees : AnalysisSummary → AnalysisSummary → Type 0
Agrees s t =
    (t.completed_ios ≡ s.completed_ios)
    × (t.unmeasured_latency_ios ≡ s.unmeasured_latency_ios)
    × (t.unplaced_time_ios ≡ s.unplaced_time_ios)
    × (t.read_bytes ≡ s.read_bytes)
    × (t.write_bytes ≡ s.write_bytes)
    × (t.other_bytes ≡ s.other_bytes)

add_zero : (n : ℕ) → n + 0 ≡ n
add_zero n = omega arith

add_suc : (n k : ℕ) → n + suc k ≡ suc n + k
add_suc n k = omega arith

counts-Agrees :
    (s : AnalysisSummary) (pattern : AccessPattern) (size : IoSizeClass)
    → Agrees s (count_size (count_pattern s pattern) size)
counts-Agrees s pattern size = ground arith

unchanged : (s : AnalysisSummary) → Agrees s s
unchanged s = (refl, refl, refl, refl, refl, refl)

-- A property of what is recorded of the requests.
abbrev pub Property : Type 1
Property =
    AnalysisSummary
    → List ℕ
    → Histogram
    → List (ℕ × MutableBucket)
    → List (CategoryKey × MutableCategory)
    → List Interval
    → Type 0

abbrev pub Of : Property → AnalysisEngine → Type 0
Of P e = P e.summary e.latencies_ns e.live_latency_histogram e.buckets e.categories e.busy_intervals

-- The buckets are the same, or one has a depth more.
abbrev pub Deepened : List (ℕ × MutableBucket) → List (ℕ × MutableBucket) → Type 0
Deepened m m' = (m' ≡ m) ⊎ ((ts : ℕ) × (depth : ℕ) × (m' ≡ bucket_depth ts depth m))

-- The counts beside the totals, and the depths of the buckets, do not matter.
abbrev pub IgnoresCounts : Property → Type 0
IgnoresCounts P =
    (e : AnalysisEngine) (s : AnalysisSummary) (m : List (ℕ × MutableBucket))
    → Agrees e.summary s
    → Deepened e.buckets m
    → Of P e
    → Of P (record e { summary = s; buckets = m })

module _ (P : Property) (counts : IgnoresCounts P) where
  ingest_wait-Holds : (e : AnalysisEngine) (v : SchedulerIoWait) → Of P e → Of P (ingest_wait e v)
  unfolding ingest_wait
  ingest_wait-Holds e v b = elim (Bool-cases (in_window e.completion_window v.ts_ns)) [
    | inr out ↦ rw out b
    | inl within ↦
        rw within (elim (Bool-cases (leb max_analysis_samples (length e.scheduler_waits))) [
          | inl full ↦ rw full b
          | inr room ↦ rw room b
        ])
  ]

  ingest_issue-Holds : (e : AnalysisEngine) (v : BlockIssue) → Of P e → Of P (ingest_issue e v)
  unfolding ingest_issue
  ingest_issue-Holds e v b =
      let pattern = (classify e.classifier v).1 in
      let depth = (on_issue_classified e.correlator v pattern).1 in
      let issued = record e.summary { issued_ios = e.summary.issued_ios + 1 } in
      let counted = count_size (count_pattern issued pattern) (classify_size v.bytes) in
      counts e (record counted { max_queue_depth = max_depth counted.max_queue_depth depth })
        (bucket_depth v.ts_ns depth e.buckets)
        (counts-Agrees issued pattern (classify_size v.bytes)) (inr (v.ts_ns, depth, refl)) b

  observe_both-Holds : (e : AnalysisEngine) (o : Option (ℕ × ℕ)) → Of P e → Of P (observe_both e o)
  observe_both-Holds e none b = b
  observe_both-Holds e (some w) b = b

  observe_request_time-Holds :
      (e : AnalysisEngine) (io : CompletedIo) → Of P e → Of P (observe_request_time e io)
  unfolding observe_request_time
  observe_request_time-Holds e io b =
      observe_both-Holds e (zip (start_timestamp io) (completion_timestamp io)) b

  close_stage-Holds :
      (e : AnalysisEngine) (begun : Option PipelineObservation) (o : PipelineObservation)
      → Of P e
      → Of P (close_stage e begun o)
  unfolding close_stage
  close_stage-Holds e none o b = b
  close_stage-Holds e (some v) o b = elim (Bool-cases (leb v.ts_ns o.ts_ns)) [
    | inl after ↦ rw after b
    | inr before ↦ rw before b
  ]

  begin_stage-Holds :
      (e : AnalysisEngine) (key : PairKey) (o : PipelineObservation)
      → Of P e
      → Of P (begin_stage e key o)
  unfolding begin_stage
  begin_stage-Holds e key o b = elim (Bool-cases (is_some (lookup key e.pending_pipeline))) [
    | inl open_ ↦ rw open_ b
    | inr shut ↦ rw shut (elim (Bool-cases (is_some (lookup key e.ambiguous_pipeline))) [
      | inl unsure ↦ rw unsure b
      | inr sure ↦ rw sure b
    ])
  ]

  end_stage-Holds :
      (e : AnalysisEngine) (key : PairKey) (o : PipelineObservation)
      → Of P e
      → Of P (end_stage e key o)
  unfolding end_stage expire_stages
  end_stage-Holds e key o b = elim (Bool-cases (is_some (lookup key e.ambiguous_pipeline))) [
    | inl unsure ↦ rw unsure b
    | inr sure ↦ rw sure (
        close_stage-Holds (record e { pending_pipeline = remove key e.pending_pipeline })
          (lookup key e.pending_pipeline) o b)
  ]

  stage-Holds :
      (e : AnalysisEngine) (phase : PipelinePhase) (key : Option PairKey) (o : PipelineObservation)
      → Of P e
      → Of P (stage e phase key o)
  unfolding stage expire_stages
  stage-Holds e begin (some key) o b = begin_stage-Holds e key o b
  stage-Holds e begin none o b = b
  stage-Holds e end (some key) o b = end_stage-Holds e key o b
  stage-Holds e end none o b = b
  stage-Holds e instant key o b = b
  stage-Holds e span key o b = b

  observe_end-Holds : (e : AnalysisEngine) (o : Option ℕ) → Of P e → Of P (observe_end e o)
  observe_end-Holds e none b = b
  observe_end-Holds e (some ts) b = b

  ingest_pipeline-Holds :
      (e : AnalysisEngine) (o : PipelineObservation) → Of P e → Of P (ingest_pipeline e o)
  unfolding ingest_pipeline
  ingest_pipeline-Holds e o b =
      stage-Holds _ o.phase (pair_key o) o (observe_end-Holds (observe_ts e o.ts_ns) o.end_ts_ns b)

  clear_caches-Holds :
      (e : AnalysisEngine) (event : StorageEvent) → Of P e → Of P (clear_caches e event)
  clear_caches-Holds e event b = elim (Bool-cases (is_evidence event)) [
    | inl stale ↦ rw stale b
    | inr fresh ↦ rw fresh b
  ]

module _ (P Q : Property) (counts : IgnoresCounts P)
    (weaker : (e : AnalysisEngine) → Of P e → Of Q e)
    (records : (e : AnalysisEngine) (io : CompletedIo)
      → Of P e
      → Of Q (record_completed e io)) where
  keep_completed-Holds :
      (e : AnalysisEngine) (io : CompletedIo) (low : ℕ) → Of P e → Of Q (keep_completed e io low)
  unfolding keep_completed
  keep_completed-Holds e io low b =
      let r = records e io b in
      elim (Bool-cases
        (not e.retain_all_evidence && eqb (length e.completed) max_analysis_samples)) [
          | inl full ↦ rw full r
          | inr room ↦ rw room r
        ]

  finish_complete-Holds :
      (e : AnalysisEngine) (o : Option CompletedIo) → Of P e → Of Q (finish_complete e o)
  unfolding finish_complete
  finish_complete-Holds e none b =
      let s = record e.summary {
        uncorrelated_completions = e.summary.uncorrelated_completions + 1;
      } in
      weaker (record e { summary = s }) (counts e s e.buckets (unchanged e.summary) (inl refl) b)
  finish_complete-Holds e (some io) b =
      elim (Bool-cases (in_window e.completion_window io.completion.ts_ns)) [
        | inl within ↦ rw within (
            keep_completed-Holds
              (record e {
                last_request_completion =
                    insert io.issue.request_id io.completion.ts_ns e.last_request_completion;
              })
              io (evidence_low io (lookup io.issue.request_id e.last_request_completion)) b)
        | inr out ↦ rw out (weaker e b)
      ]

  ingest_observed-Holds :
      (e : AnalysisEngine) (io : CompletedIo) → Of P e → Of Q (ingest_observed e io).0
  unfolding ingest_observed
  ingest_observed-Holds e io b =
      let seen = observe_request_time e io in
      let s = count_observed seen.summary io in
      let counted =
        counts seen s seen.buckets (counts-Agrees _ io.access_pattern io.size_class) (inl refl)
          (observe_request_time-Holds P counts e io b) in
      elim (Bool-cases (placed_in_window e.completion_window (completion_timestamp io))) [
        | inl within ↦ rw within (records (record seen { summary = s }) io counted)
        | inr out ↦ rw out (weaker (record seen { summary = s }) counted)
      ]

  dispatch-Holds : (e : AnalysisEngine) (event : StorageEvent) → Of P e → Of Q (dispatch e event).0
  unfolding dispatch ingest_insert ingest_complete ingest_file ingest_node ingest_origin ingest_edge
  dispatch-Holds e (scheduler_io_wait v) b =
      weaker (ingest_wait e v) (ingest_wait-Holds P counts e v b)
  dispatch-Holds e (block_insert v) b = weaker e b
  dispatch-Holds e (block_issue v) b = weaker (ingest_issue e v) (ingest_issue-Holds P counts e v b)
  dispatch-Holds e (block_complete v) b = finish_complete-Holds _ (on_complete e.correlator v).1 b
  dispatch-Holds e (observed_block_completion io) b = ingest_observed-Holds e io b
  dispatch-Holds e (file_io v) b =
      let s = record e.summary {
        file_ios = e.summary.file_ios + 1;
        attributed_file_ios =
            e.summary.attributed_file_ios + (if is_attributed v.confidence then 1 else 0);
      } in
      weaker (record e { summary = s }) (counts e s e.buckets (unchanged e.summary) (inl refl) b)
  dispatch-Holds e (pipeline v) b =
      weaker (ingest_pipeline e v) (ingest_pipeline-Holds P counts e v b)
  dispatch-Holds e (request_origin v) b = weaker e b
  dispatch-Holds e (node v) b = weaker e b
  dispatch-Holds e (edge v) b = weaker e b

  ingest-Holds : (e : AnalysisEngine) (event : StorageEvent) → Of P e → Of Q (ingest e event).0
  unfolding ingest
  ingest-Holds e event b =
      dispatch-Holds (clear_caches e event) event (clear_caches-Holds P counts e event b)

-- A property for each number of events, kept by one event more.
module _ (P : ℕ → Property) (counts : (n : ℕ) → IgnoresCounts (P n))
    (weaker : (n : ℕ) (e : AnalysisEngine) → Of (P n) e → Of (P (suc n)) e)
    (records : (n : ℕ) (e : AnalysisEngine) (io : CompletedIo)
      → Of (P n) e
      → Of (P (suc n)) (record_completed e io)) where
  pub run-Holds :
      (n : ℕ) (e : AnalysisEngine) (events : List StorageEvent)
      → Of (P n) e
      → Of (P (n + length events)) (run e events)
  unfolding run
  run-Holds n e [] b = rw (add_zero n) b
  run-Holds n e (event ∷ events) b = rw (add_suc n (length events)) (
      run-Holds (suc n) (ingest e event).0 events
        (ingest-Holds (P n) (P (suc n)) (counts n) (weaker n) (records n) e event b))
