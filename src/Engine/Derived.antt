-- ===== src/Engine/Derived.antt =====
-- What the engine derives for a request on demand and keeps in its caches: `pipeline_for`,
-- `transaction_for`, `why_slow` and `cached_why_slow` (crates/protocol/src/lib.rs). Each gives the
-- engine with the caches that the call leaves behind.
use android_ebpf_studio.Prelude.{
  ℕ, ◌-◌, ◌&&◌, ◌||◌, Bool, false, Option, none, some, List, [], ◌∷◌, ltb, leb, eqb, if◌then◌else◌,
  length, ◌==◌, nat_eq, pair_eq,
}
use android_ebpf_studio.Prelude.Dict.{lookup, insert}
use android_ebpf_studio.Events.Block.{operation_eq, pattern_eq, size_eq}
use android_ebpf_studio.Events.Names.{debug_kind}
use android_ebpf_studio.Events.Node.{
  IoNode, IoNodeKind, kind_rank, IoEdge, EdgeConfidence, rank, end_or_start, additive,
}
use android_ebpf_studio.Events.Pipeline.{IoPipeline}
use android_ebpf_studio.Events.Completed.{CompletedIo}
use android_ebpf_studio.Graph.{IoTransactionGraph}
use android_ebpf_studio.Correlator.{is_some}
use android_ebpf_studio.Intervals.{Interval, union_duration}
use android_ebpf_studio.Stats.{percentile, evenly_sample_refs}
use android_ebpf_studio.Pipeline.{build_io_pipeline, filter}
use android_ebpf_studio.Transaction.{build_transaction_graph}
use android_ebpf_studio.Engine.Ordered.{modify_entry}
use android_ebpf_studio.Engine.Records.{SlowReason, kind_ranked}
use android_ebpf_studio.Engine.State.{AnalysisEngine, CacheKey, request_cache_key}
use android_ebpf_studio.Engine.Evidence.{
  index_of, observations_for, files_for, nodes_for, edges_for, sort,
}

abbrev max_derived_cache_entries : ℕ
max_derived_cache_entries = 4096

-- A full cache is emptied before the next entry.
abbrev remember {ℓ} : {A : Type ℓ} → CacheKey → A → List (CacheKey × A) → List (CacheKey × A)
remember key value cache =
    insert key value (if leb max_derived_cache_entries (length cache) then [] else cache)

abbrev pipeline_cached :
    AnalysisEngine → CompletedIo → Option IoPipeline → AnalysisEngine × IoPipeline
pipeline_cached e io (some p) = (e, p)
pipeline_cached e io none =
    let index = index_of e in
    let p = build_io_pipeline io (observations_for e index io) in
    (
      record e {
        analysis_index = some index;
        pipeline_cache = remember (request_cache_key io) p e.pipeline_cache;
      },
      p,
    )

unfoldable pub pipeline_for : AnalysisEngine → CompletedIo → AnalysisEngine × IoPipeline
pipeline_for e io =
    if is_some io.evidence
    then (e, build_io_pipeline io [])
    else pipeline_cached e io (lookup (request_cache_key io) e.pipeline_cache)

pipelines_from : AnalysisEngine → List CompletedIo → AnalysisEngine × List IoPipeline
pipelines_from e [] = (e, [])
pipelines_from e (io ∷ ios) =
    let (e', p) = pipeline_for e io in let (e'', ps) = pipelines_from e' ios in (e'', p ∷ ps)

pipelines : AnalysisEngine → AnalysisEngine × List IoPipeline
pipelines e = pipelines_from e e.completed

abbrev graph_cached :
    AnalysisEngine → CompletedIo → Option IoTransactionGraph → AnalysisEngine × IoTransactionGraph
graph_cached e io (some g) = (e, g)
graph_cached e io none =
    let index = index_of e in
    let g =
      build_transaction_graph io (files_for e index io) (observations_for e index io)
        (nodes_for e index io) (edges_for e index io) in
    (
      record e {
        analysis_index = some index;
        transaction_cache = remember (request_cache_key io) g e.transaction_cache;
      },
      g,
    )

unfoldable pub transaction_for : AnalysisEngine → CompletedIo → AnalysisEngine × IoTransactionGraph
transaction_for e io = graph_cached e io (lookup (request_cache_key io) e.transaction_cache)

unfoldable pub transactions_from :
    AnalysisEngine → List CompletedIo → AnalysisEngine × List IoTransactionGraph
transactions_from e [] = (e, [])
transactions_from e (io ∷ ios) =
    let (e', g) = transaction_for e io in let (e'', gs) = transactions_from e' ios in (e'', g ∷ gs)

transactions : AnalysisEngine → AnalysisEngine × List IoTransactionGraph
transactions e = transactions_from e e.completed

-- The intervals of the additive nodes of each kind, in the order of the kinds.
unfoldable pub intervals_by_kind : List IoNode → List (IoNodeKind × List Interval)
intervals_by_kind [] = []
intervals_by_kind (n ∷ ns) =
    let rest = intervals_by_kind ns in
    if additive n
    then modify_entry [] (λ is. (n.start_ts_ns, end_or_start n) ∷ is) n.kind rest
    else rest

unfoldable pub union_each : List (IoNodeKind × List Interval) → List (IoNodeKind × ℕ)
union_each [] = []
union_each ((kind, is) ∷ m) = (kind, union_duration is) ∷ union_each m

unfoldable pub durations_by_kind : IoTransactionGraph → List (IoNodeKind × ℕ)
durations_by_kind g = union_each (intervals_by_kind g.nodes)

-- The duration of a kind, 0 without an entry.
unfoldable pub duration_of : IoNodeKind → List (IoNodeKind × ℕ) → ℕ
duration_of kind [] = 0
duration_of kind ((k, n) ∷ m) = if eqb (kind_rank k) (kind_rank kind) then n else duration_of kind m

unfoldable pub durations_of_kind : IoNodeKind → List (List (IoNodeKind × ℕ)) → List ℕ
durations_of_kind kind [] = []
durations_of_kind kind (d ∷ ds) = duration_of kind d ∷ durations_of_kind kind ds

abbrev touches : IoNodeKind → IoEdge → List IoNode → Bool
touches kind e [] = false
touches kind e (n ∷ ns) =
    eqb (kind_rank n.kind) (kind_rank kind)
      && (eqb n.node_id e.from_node_id || eqb n.node_id e.to_node_id)
    || touches kind e ns

abbrev weaker_of : EdgeConfidence → Option EdgeConfidence → Option EdgeConfidence
weaker_of c none = some c
weaker_of c (some d) = if leb (rank c) (rank d) then some c else some d

-- `min_by_key` of the rank over the edges at nodes of the kind: the first of the least.
pub weakest_at : IoNodeKind → List IoNode → List IoEdge → Option EdgeConfidence
weakest_at kind nodes [] = none
weakest_at kind nodes (e ∷ es) =
    let rest = weakest_at kind nodes es in
    if touches kind e nodes then weaker_of e.confidence rest else rest

abbrev or_exact : Option EdgeConfidence → EdgeConfidence
or_exact none = EdgeConfidence.exact
or_exact (some c) = c

abbrev at_least : Option SlowReason → ℕ → Bool
at_least none delta = false
at_least (some best) delta = leb delta best.delta_ns

abbrev number_or_zero : Option ℕ → ℕ
number_or_zero none = 0
number_or_zero (some n) = n

abbrev pub median_of : IoNodeKind → List (List (IoNodeKind × ℕ)) → ℕ
median_of kind cohort = number_or_zero (percentile (sort (durations_of_kind kind cohort)) 50)

-- One round of the loop over the durations of the selected request.
unfoldable pub slower :
    IoTransactionGraph
    → List (List (IoNodeKind × ℕ))
    → Option SlowReason
    → IoNodeKind
    → ℕ
    → Option SlowReason
slower g cohort best kind selected_ns =
    let median = median_of kind cohort in
    let delta = selected_ns - median in
    if eqb delta 0 || at_least best delta
    then best
    else some (record {
      node_kind = kind;
      stage = debug_kind kind;
      selected_ns = selected_ns;
      cohort_median_ns = median;
      delta_ns = delta;
      confidence = or_exact (weakest_at kind g.nodes g.edges);
      cohort_samples = length cohort;
    })

unfoldable pub slowest :
    IoTransactionGraph
    → List (List (IoNodeKind × ℕ))
    → Option SlowReason
    → List (IoNodeKind × ℕ)
    → Option SlowReason
slowest g cohort best [] = best
slowest g cohort best ((kind, n) ∷ m) = slowest g cohort (slower g cohort best kind n) m

-- The requests of the same operation, pattern and size.
abbrev pub is_cohort : CompletedIo → CompletedIo → Bool
is_cohort selected io =
    io.issue.operation == selected.issue.operation
    && io.access_pattern == selected.access_pattern
    && io.size_class == selected.size_class

unfoldable pub durations_each : List IoTransactionGraph → List (List (IoNodeKind × ℕ))
durations_each [] = []
durations_each (g ∷ gs) = durations_by_kind g ∷ durations_each gs

abbrev max_rca_cohort_samples : ℕ
max_rca_cohort_samples = 512

-- Against fewer than three requests of the cohort nothing is explained.
unfoldable pub why_slow : AnalysisEngine → CompletedIo → AnalysisEngine × Option SlowReason
why_slow e selected =
    let (e', g) = transaction_for e selected in
    let cohort = filter (is_cohort selected) e'.completed in
    if ltb (length cohort) 3
    then (e', none)
    else let (e'', gs) = transactions_from e' (evenly_sample_refs cohort max_rca_cohort_samples) in
      (e'', slowest g (durations_each gs) none (durations_by_kind g))

abbrev reason_cached :
    AnalysisEngine → CompletedIo → Option (Option SlowReason) → AnalysisEngine × Option SlowReason
reason_cached e selected (some reason) = (e, reason)
reason_cached e selected none =
    let (e', reason) = why_slow e selected in
    (
      record e' {
        slow_reason_cache = insert selected.issue.request_id reason e'.slow_reason_cache;
      },
      reason,
    )

cached_why_slow : AnalysisEngine → CompletedIo → AnalysisEngine × Option SlowReason
cached_why_slow e selected =
    reason_cached e selected (lookup selected.issue.request_id e.slow_reason_cache)
