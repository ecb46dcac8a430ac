-- ===== src/Transaction/Spans.antt =====
-- The second half of `build_transaction_graph` (crates/protocol/src/lib.rs): the chain of pipeline
-- spans above and below the request, and the raw nodes and edges of the request.
use android_ebpf_studio.Prelude.{
  ℕ, suc, ◌+◌, ◌%◌, min, ◌&&◌, Bool, true, false, Option, none, some, List, [], ◌∷◌, ◌++◌, leb,
  if◌then◌else◌, contains, ◌==◌, nat_eq, option_eq,
}
use android_ebpf_studio.Events.Text.{inferred_match}
use android_ebpf_studio.Events.Names.{synthetic_node_id, block_request_node_id}
use android_ebpf_studio.Events.File.{FileIo, PathSnapshot}
use android_ebpf_studio.Events.Node.{
  IoNode, IoOrigin, IoEdge, EdgeConfidence, IoRelation, CorrelationEvidence,
}
use android_ebpf_studio.Events.Pipeline.{
  PipelineLayer, layer_rank, CorrelationConfidence, PipelineSpan, pipeline_node_kind,
}
use android_ebpf_studio.Events.Completed.{CompletedIo}
use android_ebpf_studio.Graph.{IoTransactionGraph, GraphResult, add_node, has_node}
use android_ebpf_studio.Pipeline.{block_start}
use android_ebpf_studio.Transaction.Paths.{inferred_origin_path}
use android_ebpf_studio.Transaction.Request.{try_node, try_edge}

abbrev edge_confidence : CorrelationConfidence → EdgeConfidence
edge_confidence CorrelationConfidence.exact = EdgeConfidence.exact
edge_confidence CorrelationConfidence.probable = EdgeConfidence.probable
edge_confidence CorrelationConfidence.context_only = EdgeConfidence.context_only

-- `u8::saturating_add(index as u8)`
abbrev tag_at : ℕ → ℕ → ℕ
tag_at base index = min (base + index % 256) 255

abbrev observed_end : PipelineSpan → Option ℕ
observed_end s = if s.duration_observed then some s.end_ts_ns else none

abbrev pub span_node : ℕ → ℕ → PipelineSpan → IoNode
span_node request_id index s = record {
  node_id = synthetic_node_id (tag_at 32 index) request_id;
  transaction_id = some request_id;
  kind = pipeline_node_kind s.layer;
  start_ts_ns = s.start_ts_ns;
  end_ts_ns = observed_end s;
  origin = IoOrigin.unknown;
  file = none;
  path = none;
  operation = s.operation;
  bytes = s.bytes;
  pid = s.pid;
  tid = s.tid;
  name = s.name;
}

-- An edge between spans; one of context says so.
abbrev link_edge : ℕ → ℕ → ℕ → ℕ → IoRelation → EdgeConfidence → IoEdge
link_edge edge_id request_id from to relation confidence = record {
  edge_id = edge_id;
  transaction_id = some request_id;
  from_node_id = from;
  to_node_id = to;
  relation = relation;
  confidence = confidence;
  evidence = [];
}

abbrev context_or : EdgeConfidence → IoRelation → IoRelation
context_or EdgeConfidence.context_only relation = IoRelation.context_for
context_or _ relation = relation

-- The variables of the loop over the spans.
pub record Chain : Type 0 where
  pub graph : IoTransactionGraph
  pub upper_prior : Option ℕ
  pub upper_last : Option (ℕ × EdgeConfidence)
  pub lower_prior : Option ℕ
  pub lower_first : Option (ℕ × EdgeConfidence)

abbrev pub from_prior :
    IoTransactionGraph → ℕ → ℕ → ℕ → EdgeConfidence → Option ℕ → IoTransactionGraph
from_prior g request_id index id confidence none = g
from_prior g request_id index id confidence (some parent) = try_edge g (
    link_edge (synthetic_node_id (tag_at 64 index) request_id) request_id parent id
      (context_or confidence IoRelation.calls) confidence)

abbrev get_or_insert {ℓ} : {A : Type ℓ} → Option A → A → Option A
get_or_insert none a = some a
get_or_insert (some b) a = some b

-- Syscall to bio are above the block request.
abbrev pub is_upper : PipelineLayer → Bool
is_upper l = leb (layer_rank l) 5

-- After the node of a span was added to the graph.
abbrev chained : Chain → ℕ → ℕ → PipelineSpan → IoTransactionGraph → Chain
chained c request_id index s g =
    let confidence = edge_confidence s.confidence in
    let id = synthetic_node_id (tag_at 32 index) request_id in
    if is_upper s.layer
    then record c {
      graph = from_prior g request_id index id confidence c.upper_prior;
      upper_prior = some id;
      upper_last = some (id, confidence);
    }
    else record c {
      graph = from_prior g request_id index id confidence c.lower_prior;
      lower_first = get_or_insert c.lower_first (id, confidence);
      lower_prior = some id;
    }

abbrev pub after_node : Chain → ℕ → ℕ → PipelineSpan → GraphResult → Chain
after_node c request_id index s (GraphResult.err e) = c
after_node c request_id index s (GraphResult.ok g) = chained c request_id index s g

unfoldable pub chain_span : Chain → ℕ → ℕ → PipelineSpan → Chain
chain_span c request_id index s =
    after_node c request_id index s (add_node c.graph (span_node request_id index s))

unfoldable pub chain_spans : Chain → ℕ → ℕ → List PipelineSpan → Chain
chain_spans c request_id index [] = c
chain_spans c request_id index (s ∷ ss) =
    chain_spans (chain_span c request_id index s) request_id (suc index) ss

-- The spans that do not stand for the request and its queue.
abbrev pub is_chained : PipelineSpan → Bool
is_chained s = other_layer s.layer
  where
    other_layer : PipelineLayer → Bool
    other_layer PipelineLayer.block_queue = false
    other_layer PipelineLayer.block_device = false
    other_layer _ = true

-- The last span above leads to the queue or the request.
abbrev pub join_upper :
    IoTransactionGraph → ℕ → ℕ → Option (ℕ × EdgeConfidence) → IoTransactionGraph
join_upper g request_id to none = g
join_upper g request_id to (some (id, confidence)) =
    try_edge g
      (link_edge (synthetic_node_id 90 request_id) request_id id to IoRelation.submits confidence)

-- The request leads to the first span below.
abbrev pub join_lower : IoTransactionGraph → ℕ → Option (ℕ × EdgeConfidence) → IoTransactionGraph
join_lower g request_id none = g
join_lower g request_id (some (id, confidence)) = try_edge g (
    link_edge (synthetic_node_id 91 request_id) request_id (block_request_node_id request_id) id
      (context_or confidence IoRelation.dispatches) confidence)

unfoldable pub with_spans : IoTransactionGraph → ℕ → ℕ → List PipelineSpan → IoTransactionGraph
with_spans g request_id queue_or_request spans =
    let c =
      chain_spans
        (record {
          graph = g;
          upper_prior = none;
          upper_last = none;
          lower_prior = none;
          lower_first = none;
        })
        request_id 0 spans in
    join_lower (join_upper c.graph request_id queue_or_request c.upper_last) request_id
      c.lower_first

-- The graph and the ids of the nodes whose path was inferred.
pub record Enriched : Type 0 where
  pub graph : IoTransactionGraph
  pub inferred : List ℕ

abbrev pub with_path : Enriched → IoNode → Option PathSnapshot → Enriched
with_path e n none = record e { graph = try_node e.graph n }
with_path e n (some snapshot) = record {
  graph = try_node e.graph (record n { path = some snapshot });
  inferred = n.node_id ∷ e.inferred;
}

-- A node that has a path keeps it.
abbrev pub path_if_missing :
    CompletedIo → List FileIo → IoNode → Option PathSnapshot → Option PathSnapshot
path_if_missing io files n (some s) = none
path_if_missing io files n none = inferred_origin_path n files (block_start io) io.completion.ts_ns

unfoldable pub add_raw_nodes : CompletedIo → List FileIo → Enriched → List IoNode → Enriched
add_raw_nodes io files e [] = e
add_raw_nodes io files e (n ∷ ns) =
    add_raw_nodes io files
      (if n.transaction_id == some io.issue.request_id
        then with_path e n (path_if_missing io files n n.path)
        else e)
      ns

abbrev inferred_evidence : CorrelationEvidence
inferred_evidence = record {
  match_type = inferred_match;
  opaque_key = none;
  delta_ns = none;
  candidate_count = 1;
  sector_match = false;
  bytes_match = false;
  task_match = false;
}

-- The identity keeps its confidence; the evidence says that the path is only probable.
abbrev pub mark_inferred : List ℕ → IoEdge → IoEdge
mark_inferred inferred v =
    if contains inferred v.from_node_id
    then record v { evidence = v.evidence ++ inferred_evidence ∷ [] }
    else v

unfoldable pub add_raw_edges : ℕ → List ℕ → IoTransactionGraph → List IoEdge → IoTransactionGraph
add_raw_edges request_id inferred g [] = g
add_raw_edges request_id inferred g (v ∷ vs) =
    add_raw_edges request_id inferred
      (if v.transaction_id == some request_id
          && has_node v.from_node_id g.nodes
          && has_node v.to_node_id g.nodes
        then try_edge g (mark_inferred inferred v)
        else g)
      vs

unfoldable pub with_raw :
    IoTransactionGraph → CompletedIo → List FileIo → List IoNode → List IoEdge → IoTransactionGraph
with_raw g io files raw_nodes raw_edges =
    let e = add_raw_nodes io files (record { graph = g; inferred = [] }) raw_nodes in
    add_raw_edges io.issue.request_id e.inferred e.graph raw_edges
