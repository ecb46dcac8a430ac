-- ===== src/Engine/Summary.antt =====
-- The summaries of `AnalysisEngine`: `summary` with its cache, `live_summary`, `retained_summary` and
-- `select_completed` (crates/protocol/src/lib.rs).
use android_ebpf_studio.Prelude.{
  ℕ, ◌+◌, ◌-◌, ◌/◌, ◌&&◌, Bool, true, false, min, max, Option, none, some, List, [], ◌∷◌, ◌++◌, ltb,
  eqb, if◌then◌else◌, length, nat_eq, pair_eq,
}
use android_ebpf_studio.Prelude.Dict.{lookup, insert}
use android_ebpf_studio.Events.Node.{IoNode, IoNodeKind, EdgeConfidence, rank, FileOriginView}
use android_ebpf_studio.Events.Completed.{CompletedIo}
use android_ebpf_studio.Histogram.{histogram_percentile_upper}
use android_ebpf_studio.Graph.{IoTransactionGraph}
use android_ebpf_studio.Graph.Origins.{file_origins_for}
use android_ebpf_studio.Intervals.{union_duration, total_length}
use android_ebpf_studio.Stats.{percentile}
use android_ebpf_studio.Engine.Records.{
  AttributionSummary, no_attribution, CategorySummary, AnalysisSummary, MutableCategory,
  CategoryKey,
}
use android_ebpf_studio.Engine.State.{
  AnalysisEngine, new, CacheKey, request_cache_key, zip, known_time_span_ns, observe_request_time,
  record_completed,
}
use android_ebpf_studio.Engine.Blocks.{count_observed}
use android_ebpf_studio.Engine.Evidence.{sort}
use android_ebpf_studio.Engine.Derived.{transaction_for}

-- Everything between the first and the last event, if every request has a place in time.
abbrev logging_of : AnalysisEngine → Option ℕ
logging_of e = if eqb e.summary.unplaced_time_ios 0 then known_time_span_ns e else none

abbrev min_with_span : ℕ → Option ℕ → Option ℕ
min_with_span busy none = none
min_with_span busy (some span) = some (min busy span)

-- The busy time is known if every request has a latency and there is one.
abbrev busy_within : AnalysisEngine → ℕ → Option ℕ
busy_within e busy =
    if eqb e.summary.unmeasured_latency_ios 0 && ltb 0 e.summary.completed_ios
    then min_with_span busy (logging_of e)
    else none

abbrev idle_of : Option (ℕ × ℕ) → Option ℕ
idle_of none = none
idle_of (some (busy, span)) = some (span - busy)

abbrev category_summary :
    CategoryKey → MutableCategory → Option ℕ → Option ℕ → Option ℕ → CategorySummary
category_summary k c p50 p95 p99 = record {
  operation = k.operation;
  access_pattern = k.access_pattern;
  size_class = k.size_class;
  completed_ios = c.completed_ios;
  bytes = c.bytes;
  average_chunk_bytes = c.bytes / max c.completed_ios 1;
  p50_latency_ns = p50;
  p95_latency_ns = p95;
  p99_latency_ns = p99;
}

pub exact_categories : List (CategoryKey × MutableCategory) → List CategorySummary
exact_categories [] = []
exact_categories ((k, c) ∷ m) =
    let latencies = sort c.latencies in
    category_summary k c (percentile latencies 50) (percentile latencies 95)
      (percentile latencies 99)
    ∷ exact_categories m

pub live_categories : List (CategoryKey × MutableCategory) → List CategorySummary
live_categories [] = []
live_categories ((k, c) ∷ m) =
    category_summary k c (histogram_percentile_upper c.histogram 50)
      (histogram_percentile_upper c.histogram 95) (histogram_percentile_upper c.histogram 99)
    ∷ live_categories m

-- The sum of the separate busy intervals is below their last end, and so does not wrap.
unfoldable pub live_summary : AnalysisEngine → AnalysisSummary
live_summary e =
    let busy = busy_within e (total_length e.busy_intervals) in
    record e.summary {
      p50_latency_ns = histogram_percentile_upper e.live_latency_histogram 50;
      p95_latency_ns = histogram_percentile_upper e.live_latency_histogram 95;
      p99_latency_ns = histogram_percentile_upper e.live_latency_histogram 99;
      logging_ns = logging_of e;
      busy_ns = busy;
      idle_ns = idle_of (zip busy (logging_of e));
      category_summaries = live_categories e.categories;
    }

-- `nodes.iter().find(|node| node.kind == IoNodeKind::BlockRequest)`
abbrev is_block_request : IoNodeKind → Bool
is_block_request IoNodeKind.block_request = true
is_block_request _ = false

abbrev find_request : List IoNode → Option IoNode
find_request [] = none
find_request (n ∷ ns) = if is_block_request n.kind then some n else find_request ns

-- `max_by_key` of the rank: the last of the greatest.
abbrev better_of : EdgeConfidence → Option EdgeConfidence → Option EdgeConfidence
better_of c none = some c
better_of c (some best) = if ltb (rank best) (rank c) then some c else some best

best_confidence : List FileOriginView → Option EdgeConfidence
best_confidence [] = none
best_confidence (o ∷ os) = better_of o.confidence (best_confidence os)

abbrev count_best : AttributionSummary → Option EdgeConfidence → AttributionSummary
count_best a (some EdgeConfidence.exact) = record a { exact = a.exact + 1 }
count_best a (some EdgeConfidence.probable) = record a { probable = a.probable + 1 }
count_best a (some EdgeConfidence.probable_async) = record a {
  probable_async = a.probable_async + 1;
}
count_best a _ = record a { unattributed = a.unattributed + 1 }

abbrev count_origins : AttributionSummary → List FileOriginView → AttributionSummary
count_origins a origins =
    count_best
      (record a { multi_origin = a.multi_origin + (if ltb 1 (length origins) then 1 else 0) })
      (best_confidence origins)

abbrev count_request : AttributionSummary → IoTransactionGraph → Option IoNode → AttributionSummary
count_request a g none = record a { unattributed = a.unattributed + 1 }
count_request a g (some request) = count_origins a (file_origins_for g request.node_id)

-- The graphs are derived one after the other, each call with the caches that the one before left.
attribution_from :
    AnalysisEngine → AttributionSummary → List CompletedIo → AnalysisEngine × AttributionSummary
attribution_from e a [] = (e, a)
attribution_from e a (io ∷ ios) =
    let (e', graph) = transaction_for e io in
    attribution_from e' (count_request a graph (find_request graph.nodes)) ios

pub completed_attribution : AnalysisEngine → AnalysisEngine × AttributionSummary
completed_attribution e = attribution_from e no_attribution e.completed

-- What `summary` computes when its cache is empty, but for the attribution.
unfoldable pub exact_summary : AnalysisEngine → AnalysisSummary
exact_summary e =
    let values = sort e.latencies_ns in
    let busy = busy_within e (union_duration e.busy_intervals) in
    record e.summary {
      p50_latency_ns = percentile values 50;
      p95_latency_ns = percentile values 95;
      p99_latency_ns = percentile values 99;
      logging_ns = logging_of e;
      busy_ns = busy;
      idle_ns = idle_of (zip busy (logging_of e));
      category_summaries = exact_categories e.categories;
    }

abbrev cached_or_fresh : AnalysisEngine → Option AnalysisSummary → AnalysisEngine × AnalysisSummary
cached_or_fresh e (some s) = (e, s)
cached_or_fresh e none =
    let (e', attribution) = completed_attribution e in
    let s = record (exact_summary e) { attribution = attribution } in
    (record e' { summary_cache = some s }, s)

unfoldable pub summary : AnalysisEngine → AnalysisEngine × AnalysisSummary
summary e = cached_or_fresh e e.summary_cache

-- A request that is taken over into another engine as it stands.
observe_selected_request : AnalysisEngine → CompletedIo → AnalysisEngine
observe_selected_request e io =
    let recorded = record_completed (observe_request_time e io) io in
    record recorded { summary = count_observed recorded.summary io }

observe_selected : AnalysisEngine → List CompletedIo → AnalysisEngine
observe_selected e [] = e
observe_selected e (io ∷ ios) = observe_selected (observe_selected_request e io) ios

retained_summary : AnalysisEngine → AnalysisEngine × AnalysisSummary
retained_summary e =
    let projected = (summary (observe_selected new e.completed)).1 in
    let (e', attribution) = completed_attribution e in
    (
      e',
      record projected {
        attribution = attribution;
        file_ios = e.summary.file_ios;
        attributed_file_ios = e.summary.attributed_file_ios;
        uncorrelated_completions = e.summary.uncorrelated_completions;
      },
    )

abbrev copy_window : AnalysisEngine → CacheKey → Option (ℕ × ℕ) → AnalysisEngine
copy_window e key none = e
copy_window e key (some w) = record e { evidence_windows = insert key w e.evidence_windows }

-- One request that passes the predicate.
select_one : AnalysisEngine → AnalysisEngine → CompletedIo → AnalysisEngine
select_one source e io =
    let key = request_cache_key io in
    let observed =
      observe_selected_request (copy_window e key (lookup key source.evidence_windows)) io in
    record observed { completed = observed.completed ++ io ∷ [] }

select_from :
    AnalysisEngine → (CompletedIo → Bool) → AnalysisEngine → List CompletedIo → AnalysisEngine
select_from source predicate e [] = e
select_from source predicate e (io ∷ ios) =
    select_from source predicate (if predicate io then select_one source e io else e) ios

-- The new engine with the evidence of the source, before any request is selected.
abbrev with_evidence_of : AnalysisEngine → AnalysisEngine
with_evidence_of source = record new {
  file_ios = source.file_ios;
  scheduler_waits = source.scheduler_waits;
  scheduler_waits_dropped = source.scheduler_waits_dropped;
  scheduler_start_ns = source.scheduler_start_ns;
  pipeline_observations = source.pipeline_observations;
  graph_nodes = source.graph_nodes;
  graph_edges = source.graph_edges;
  attribution_generation = source.attribution_generation;
}

select_completed : AnalysisEngine → (CompletedIo → Bool) → AnalysisEngine
select_completed source predicate =
    select_from source predicate (with_evidence_of source) source.completed
