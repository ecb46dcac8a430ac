-- ===== src/Pipeline.antt =====
-- crates/protocol/src/lib.rs: `build_io_pipeline`, the spans of one request and how much of its time
-- they account for.

mod Tests
pub mod Account
pub mod Exclusive
use android_ebpf_studio.Prelude.{
  ℕ, ◌-◌, min, max, ◌&&◌, ◌||◌, Bool, true, false, not, Option, none, some, List, [], ◌∷◌, ◌++◌,
  ltb, leb, eqb, if◌then◌else◌, contains, saturating_add, ◌==◌, nat_eq, option_eq,
}
use android_ebpf_studio.Events.Block.{Text, IoOperation, operation_eq, BlockInsert, BlockIssue}
use android_ebpf_studio.Events.Text.{
  measured_span, paired_boundary, context_marker, block_queue_text, block_device_text, queue_source,
  device_source,
}
use android_ebpf_studio.Events.Pipeline.{
  PipelineLayer, layer_rank, layer_eq, PipelinePhase, CorrelationConfidence, PipelineObservation,
  PipelineSpan, IoPipeline,
}
use android_ebpf_studio.Events.Completed.{CompletedIo, timing_confidence}
use android_ebpf_studio.Correlator.{is_some}
use android_ebpf_studio.Intervals.{Interval, union_duration}

abbrev pub is_context : CorrelationConfidence → Bool
is_context CorrelationConfidence.context_only = true
is_context _ = false

abbrev is_exact : CorrelationConfidence → Bool
is_exact CorrelationConfidence.exact = true
is_exact _ = false

-- `PipelineSpan::additive`
abbrev pub additive : PipelineSpan → Bool
additive s = not (is_context s.confidence)

-- `PipelineSpan::duration_ns`
abbrev pub duration_ns : PipelineSpan → ℕ
duration_ns s = s.end_ts_ns - s.start_ts_ns

-- `IoPipeline::total_ns`
abbrev pub total_ns : IoPipeline → ℕ
total_ns p = p.end_ts_ns - p.start_ts_ns

-- `insert.map_or(issue.ts_ns, |value| value.ts_ns)`
abbrev inserted_at : Option BlockInsert → ℕ → ℕ
inserted_at none issued = issued
inserted_at (some v) issued = v.ts_ns

abbrev pub block_start : CompletedIo → ℕ
block_start io = inserted_at io.insert io.issue.ts_ns

abbrev value_or : Option ℕ → ℕ → ℕ
value_or none d = d
value_or (some n) d = n

abbrev pub end_of : PipelineObservation → ℕ
end_of v = value_or v.end_ts_ns v.ts_ns

abbrev is_other_operation : Option IoOperation → IoOperation → Bool
is_other_operation none operation = false
is_other_operation (some o) operation = not (o == operation)

abbrev is_other_id : Option ℕ → ℕ → Bool
is_other_id none id = false
is_other_id (some i) id = not (eqb i id)

abbrev pub names_request : CompletedIo → PipelineObservation → Bool
names_request io v = v.correlation_id == some io.issue.request_id

abbrev margin_ns : ℕ
margin_ns = 10000000

-- Context may lie 10 ms outside of the request.
abbrev pub overlaps : CompletedIo → PipelineObservation → Bool
overlaps io v =
    if is_context v.confidence
    then leb v.ts_ns (saturating_add io.completion.ts_ns margin_ns)
      && leb (block_start io - margin_ns) (end_of v)
    else leb v.ts_ns io.completion.ts_ns && leb (block_start io) (end_of v)

abbrev pub storage_match : BlockIssue → PipelineObservation → Bool
storage_match issue v = v.sector == some issue.sector && v.bytes == some issue.bytes

abbrev pub thread_match : BlockIssue → PipelineObservation → Bool
thread_match issue v = eqb v.pid issue.pid && (eqb v.tid 0 || eqb v.tid issue.tid)

-- The filter on the observations, for a request of this session.
unfoldable pub is_candidate : CompletedIo → PipelineObservation → Bool
is_candidate io v =
    if ltb (end_of v) v.ts_ns
    then false
    else if is_other_operation v.operation io.issue.operation
        || is_other_id v.correlation_id io.issue.request_id
    then false
    else if names_request io v
    then true
    else overlaps io v
      && (is_context v.confidence || storage_match io.issue v || thread_match io.issue v)

module _ {A : Type 0} where
  unfoldable pub filter : (A → Bool) → List A → List A
  filter test [] = []
  filter test (v ∷ vs) = if test v then v ∷ filter test vs else filter test vs

-- A request with evidence of its own takes no observation.
unfoldable pub candidates : CompletedIo → List PipelineObservation → List PipelineObservation
candidates io observations =
    if is_some io.evidence then [] else filter (is_candidate io) observations

unfoldable pub exact_layers : CompletedIo → List PipelineObservation → List PipelineLayer
exact_layers io [] = []
exact_layers io (v ∷ vs) =
    if names_request io v then v.layer ∷ exact_layers io vs else exact_layers io vs

-- The candidates without those of a layer that has an exact one.
unfoldable pub retained : CompletedIo → List PipelineObservation → List PipelineObservation
retained io vs =
    let layers = exact_layers io vs in
    filter (λ v. names_request io v || not (contains layers v.layer)) vs

abbrev is_instant : PipelinePhase → Bool
is_instant PipelinePhase.instant = true
is_instant _ = false

abbrev source_of : PipelinePhase → Text
source_of PipelinePhase.span = measured_span
source_of PipelinePhase.begin = paired_boundary
source_of PipelinePhase.end = paired_boundary
source_of PipelinePhase.instant = context_marker

-- A pair that is exact by a tag of its own is still only probable for this request.
abbrev span_confidence : CompletedIo → PipelineObservation → CorrelationConfidence
span_confidence io v =
    if names_request io v && not (is_context v.confidence)
    then CorrelationConfidence.exact
    else if is_exact v.confidence
    then CorrelationConfidence.probable
    else v.confidence

abbrev pub span_of : CompletedIo → PipelineObservation → PipelineSpan
span_of io v = record {
  layer = v.layer;
  operation = v.operation;
  bytes = v.bytes;
  pid = v.pid;
  tid = v.tid;
  start_ts_ns = v.ts_ns;
  end_ts_ns = end_of v;
  duration_observed = is_some v.end_ts_ns && not (is_instant v.phase);
  name = v.name;
  confidence = span_confidence io v;
  source = source_of v.phase;
  opcode = v.opcode;
  status = v.status;
}

unfoldable pub spans_of : CompletedIo → List PipelineObservation → List PipelineSpan
spans_of io [] = []
spans_of io (v ∷ vs) =
    if leb v.ts_ns (end_of v) then span_of io v ∷ spans_of io vs else spans_of io vs

abbrev queue_spans : CompletedIo → Option BlockInsert → List PipelineSpan
queue_spans io none = []
queue_spans io (some insert) =
    record {
      layer = PipelineLayer.block_queue;
      operation = some io.issue.operation;
      bytes = some io.issue.bytes;
      pid = io.issue.pid;
      tid = io.issue.tid;
      start_ts_ns = insert.ts_ns;
      end_ts_ns = io.issue.ts_ns;
      duration_observed = true;
      name = block_queue_text;
      confidence = timing_confidence io;
      source = queue_source;
      opcode = none;
      status = none;
    }
    ∷ []

abbrev device_span : CompletedIo → PipelineSpan
device_span io = record {
  layer = PipelineLayer.block_device;
  operation = some io.issue.operation;
  bytes = some io.issue.bytes;
  pid = io.issue.pid;
  tid = io.issue.tid;
  start_ts_ns = io.issue.ts_ns;
  end_ts_ns = io.completion.ts_ns;
  duration_observed = is_some io.device_latency_ns;
  name = block_device_text;
  confidence = timing_confidence io;
  source = device_source;
  opcode = none;
  status = some io.completion.status;
}

unfoldable pub all_spans : CompletedIo → List PipelineObservation → List PipelineSpan
all_spans io observations =
    spans_of io (retained io (candidates io observations))
    ++ (queue_spans io io.insert ++ device_span io ∷ [])

-- The least of the bound and of the starts of the exact spans.
unfoldable pub earliest : ℕ → List PipelineSpan → ℕ
earliest bound [] = bound
earliest bound (s ∷ ss) =
    if is_exact s.confidence then min s.start_ts_ns (earliest bound ss) else earliest bound ss

unfoldable pub latest : ℕ → List PipelineSpan → ℕ
latest bound [] = bound
latest bound (s ∷ ss) =
    if is_exact s.confidence then max s.end_ts_ns (latest bound ss) else latest bound ss

-- The order of (layer, start, end).
abbrev span_le : PipelineSpan → PipelineSpan → Bool
span_le a b =
    ltb (layer_rank a.layer) (layer_rank b.layer)
    || eqb (layer_rank a.layer) (layer_rank b.layer)
      && (ltb a.start_ts_ns b.start_ts_ns
          || eqb a.start_ts_ns b.start_ts_ns && leb a.end_ts_ns b.end_ts_ns)

-- `sort_by_key` is stable: an equal span stays in front of the later ones.
unfoldable pub insert_span : PipelineSpan → List PipelineSpan → List PipelineSpan
insert_span s [] = s ∷ []
insert_span s (t ∷ ts) = if span_le s t then s ∷ t ∷ ts else t ∷ insert_span s ts

unfoldable pub sort_spans : List PipelineSpan → List PipelineSpan
sort_spans [] = []
sort_spans (s ∷ ss) = insert_span s (sort_spans ss)

-- The additive spans, clipped to the bounds.
unfoldable pub clipped : ℕ → ℕ → List PipelineSpan → List Interval
clipped start end [] = []
clipped start end (s ∷ ss) =
    let rest = clipped start end ss in
    if additive s
    then if leb (max s.start_ts_ns start) (min s.end_ts_ns end)
      then (max s.start_ts_ns start, min s.end_ts_ns end) ∷ rest
      else rest
    else rest

unfoldable pub build_io_pipeline : CompletedIo → List PipelineObservation → IoPipeline
build_io_pipeline io observations =
    let spans = all_spans io observations in
    let start = earliest (block_start io) spans in
    let end = latest io.completion.ts_ns spans in
    let sorted = sort_spans spans in
    let accounted = min (union_duration (clipped start end sorted)) (end - start) in
    record {
      request_id = io.issue.request_id;
      start_ts_ns = start;
      end_ts_ns = end;
      accounted_ns = accounted;
      unaccounted_ns = end - start - accounted;
      spans = sorted;
    }
