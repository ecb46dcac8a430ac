-- ===== src/Engine/Ingest.antt =====
-- `AnalysisEngine::ingest`: one function for each kind of event, and the caches that an event clears
-- (crates/protocol/src/lib.rs).
use android_ebpf_studio.Prelude.{
  ℕ, ◌+◌, Bool, true, false, not, Option, none, some, List, [], ◌∷◌, ◌++◌, leb, eqb, if◌then◌else◌,
  saturating_add, ◌==◌, nat_eq, pair_eq, list_eq,
}
use android_ebpf_studio.Events.File.{AttributionConfidence, FileIo}
use android_ebpf_studio.Events.Node.{
  IoNode, IoEdge, IoNodeKind, IoRelation, EdgeConfidence, confidence_eq, RequestOrigin,
  end_or_start, weakest,
}
use android_ebpf_studio.Events.Pipeline.{
  PipelineLayer, layer_eq, PipelinePhase, CorrelationConfidence, PipelineObservation,
}
use android_ebpf_studio.Events.Completed.{CompletedIo}
use android_ebpf_studio.Wire.{
  StorageEvent, scheduler_io_wait, block_insert, block_issue, block_complete,
  observed_block_completion, file_io, pipeline, request_origin, node, edge,
}
use android_ebpf_studio.Correlator.{is_some}
use android_ebpf_studio.Stats.{bounded_push, max_analysis_samples}
use android_ebpf_studio.Engine.State.{AnalysisEngine, observe_ts}
use android_ebpf_studio.Engine.Pairing.{ingest_pipeline}
use android_ebpf_studio.Events.Text.{
  direct_origin_name, extent_origin_name, extent_match, incomplete_match, direct_match,
}
use android_ebpf_studio.Events.Names.{
  file_name, block_request_node_id, request_origin_node_id, request_origin_edge_id,
}
use android_ebpf_studio.Engine.Blocks.{
  ingest_wait, ingest_insert, ingest_issue, ingest_complete, ingest_observed,
}

abbrev pub is_attributed : AttributionConfidence → Bool
is_attributed AttributionConfidence.attributed = true
is_attributed AttributionConfidence.exact = true
is_attributed _ = false

-- `u32::try_from(..).ok()`
abbrev to_u32 : ℕ → Option ℕ
to_u32 n = if leb n 4294967295 then some n else none

abbrev pub file_span : FileIo → PipelineObservation
file_span file = record {
  ts_ns = file.start_ts_ns;
  operation = some file.operation;
  end_ts_ns = some file.end_ts_ns;
  phase = PipelinePhase.span;
  layer = PipelineLayer.syscall;
  correlation_id = none;
  stage_key = none;
  sector = none;
  bytes = to_u32 file.requested_bytes;
  opcode = none;
  status = none;
  pid = file.pid;
  tid = file.tid;
  name = file_name file.operation file.fd;
  confidence = CorrelationConfidence.probable;
}

abbrev next_generation : AnalysisEngine → ℕ
next_generation e = saturating_add e.attribution_generation 1

unfoldable pub ingest_file : AnalysisEngine → FileIo → AnalysisEngine
ingest_file e file =
    let seen = observe_ts (observe_ts e file.start_ts_ns) file.end_ts_ns in
    record seen {
      attribution_generation = next_generation e;
      summary = record e.summary {
        file_ios = e.summary.file_ios + 1;
        attributed_file_ios =
            e.summary.attributed_file_ios + (if is_attributed file.confidence then 1 else 0);
      };
      pipeline_observations =
          if leb file.start_ts_ns file.end_ts_ns
          then e.pipeline_observations ++ file_span file ∷ []
          else e.pipeline_observations;
      file_ios = bounded_push max_analysis_samples e.retain_all_evidence e.file_ios file;
    }

unfoldable pub ingest_node : AnalysisEngine → IoNode → AnalysisEngine
ingest_node e n =
    let seen = observe_ts (observe_ts e n.start_ts_ns) (end_or_start n) in
    record seen {
      attribution_generation = next_generation e;
      graph_nodes = bounded_push max_analysis_samples e.retain_all_evidence e.graph_nodes n;
    }

abbrev is_direct : RequestOrigin → Bool
is_direct o = o.request_lifetime_confidence == EdgeConfidence.exact

abbrev origin_node : RequestOrigin → IoNode
origin_node o = record {
  node_id = request_origin_node_id o.request_id o.origin_id;
  transaction_id = some o.request_id;
  kind = IoNodeKind.bio;
  start_ts_ns = o.ts_ns;
  end_ts_ns = some o.ts_ns;
  origin = o.origin;
  file = some o.file;
  path = o.path;
  operation = some o.operation;
  bytes = o.bytes;
  pid = o.pid;
  tid = o.tid;
  name = if is_direct o then direct_origin_name else extent_origin_name;
}

abbrev origin_edge : RequestOrigin → IoEdge
origin_edge o = record {
  edge_id = request_origin_edge_id o.request_id o.origin_id;
  transaction_id = some o.request_id;
  from_node_id = request_origin_node_id o.request_id o.origin_id;
  to_node_id = block_request_node_id o.request_id;
  relation = IoRelation.merged_into;
  confidence = weakest o.file_origin_confidence o.request_lifetime_confidence;
  evidence =
      record {
        match_type =
            if not (is_direct o)
            then extent_match
            else if o.incomplete
            then incomplete_match
            else direct_match;
        opaque_key = some o.origin_id;
        delta_ns = none;
        candidate_count = 1;
        sector_match = not (is_direct o);
        bytes_match = is_some o.bytes;
        task_match = not (eqb o.pid 0);
      }
      ∷ [];
}

unfoldable pub ingest_origin : AnalysisEngine → RequestOrigin → AnalysisEngine
ingest_origin e o =
    let seen = observe_ts e o.ts_ns in
    record seen {
      attribution_generation = next_generation e;
      graph_nodes =
          bounded_push max_analysis_samples e.retain_all_evidence e.graph_nodes (origin_node o);
      graph_edges =
          bounded_push max_analysis_samples e.retain_all_evidence e.graph_edges (origin_edge o);
    }

unfoldable pub ingest_edge : AnalysisEngine → IoEdge → AnalysisEngine
ingest_edge e v = record e {
  attribution_generation = next_generation e;
  graph_edges = bounded_push max_analysis_samples e.retain_all_evidence e.graph_edges v;
}

abbrev pub is_evidence : StorageEvent → Bool
is_evidence (file_io v) = true
is_evidence (pipeline v) = true
is_evidence (request_origin v) = true
is_evidence (node v) = true
is_evidence (edge v) = true
is_evidence _ = false

-- The caches that an event makes stale.
abbrev pub clear_caches : AnalysisEngine → StorageEvent → AnalysisEngine
clear_caches e event =
    if is_evidence event
    then record e {
      summary_cache = none;
      pipeline_cache = [];
      transaction_cache = [];
      analysis_index = none;
      slow_reason_cache = [];
    }
    else record e { summary_cache = none }

abbrev answer_nothing : AnalysisEngine → AnalysisEngine × Option CompletedIo
answer_nothing e = (e, none)

unfoldable pub dispatch : AnalysisEngine → StorageEvent → AnalysisEngine × Option CompletedIo
dispatch e (scheduler_io_wait v) = answer_nothing (ingest_wait e v)
dispatch e (block_insert v) = answer_nothing (ingest_insert e v)
dispatch e (block_issue v) = answer_nothing (ingest_issue e v)
dispatch e (block_complete v) = ingest_complete e v
dispatch e (observed_block_completion v) = ingest_observed e v
dispatch e (file_io v) = answer_nothing (ingest_file e v)
dispatch e (pipeline v) = answer_nothing (ingest_pipeline e v)
dispatch e (request_origin v) = answer_nothing (ingest_origin e v)
dispatch e (node v) = answer_nothing (ingest_node e v)
dispatch e (edge v) = answer_nothing (ingest_edge e v)

unfoldable pub ingest : AnalysisEngine → StorageEvent → AnalysisEngine × Option CompletedIo
ingest e event = dispatch (clear_caches e event) event

-- The engine after the events, in order.
unfoldable pub run : AnalysisEngine → List StorageEvent → AnalysisEngine
run e [] = e
run e (event ∷ events) = run (ingest e event).0 events
