-- ===== src/Transaction/Request.antt =====
-- The first half of `build_transaction_graph` (crates/protocol/src/lib.rs): the request, its queue and the
-- one file operation that may have caused it. A refused node or edge
-- leaves the graph as it is, as the source discards the error.
use android_ebpf_studio.Prelude.{
  ℕ, suc, ◌-◌, ◌&&◌, ◌||◌, Bool, true, false, not, ℤ, pos, negsuc, Option, none, some, List, [],
  ◌∷◌, ◌++◌, ltb, leb, eqb, if◌then◌else◌, saturating_add, ◌==◌, nat_eq, option_eq,
}
use android_ebpf_studio.Events.Block.{Text, operation_eq, BlockInsert}
use android_ebpf_studio.Events.Text.{
  block_queue_text, observation_text, dot_text, exact_text, probable_text, context_only_text,
  block_request_text, deleted_suffix, plain_fd_text, unique_match,
}
use android_ebpf_studio.Events.Names.{
  decimal, decimal_signed, synthetic_node_id, block_request_node_id,
}
use android_ebpf_studio.Events.File.{FileIo, FileIoMode, PathSnapshot, PathSource}
use android_ebpf_studio.Events.Node.{
  IoNode, IoNodeKind, IoOrigin, IoEdge, EdgeConfidence, confidence_eq, IoRelation, exact_edge,
}
use android_ebpf_studio.Events.Pipeline.{CorrelationConfidence}
use android_ebpf_studio.Events.Completed.{CompletedIo, CompletionEvidence}
use android_ebpf_studio.Graph.{IoTransactionGraph, add_node, add_edge, has_node}
use android_ebpf_studio.Graph as Graph
use android_ebpf_studio.Graph.Invariant.{after}
use android_ebpf_studio.Correlator.{is_some}
use android_ebpf_studio.Pipeline.{block_start, filter}
use android_ebpf_studio.Transaction.Paths.{ends_with}

-- `let _ = graph.add_node(..)`
abbrev pub try_node : IoTransactionGraph → IoNode → IoTransactionGraph
try_node g n = after g (add_node g n)

abbrev pub try_edge : IoTransactionGraph → IoEdge → IoTransactionGraph
try_edge g e = after g (add_edge g e)

abbrev debug_confidence : CorrelationConfidence → Text
debug_confidence CorrelationConfidence.exact = exact_text
debug_confidence CorrelationConfidence.probable = probable_text
debug_confidence CorrelationConfidence.context_only = context_only_text

-- `format!("{} observation {} · {:?}", ..)` or `format!("block request {request_id}")`
abbrev request_name : Option CompletionEvidence → ℕ → Text
request_name none request_id = block_request_text ++ decimal request_id
request_name (some e) request_id =
    e.source
    ++ (observation_text
        ++ (decimal e.record_id ++ (dot_text ++ debug_confidence e.timing_confidence)))

abbrev pub if_some {ℓ} : {A : Type ℓ} → Option A → ℕ → Option ℕ
if_some none n = none
if_some (some a) n = some n

abbrev pub request_node : CompletedIo → IoNode
request_node io = record {
  node_id = block_request_node_id io.issue.request_id;
  transaction_id = some io.issue.request_id;
  kind = IoNodeKind.block_request;
  start_ts_ns = io.issue.ts_ns;
  end_ts_ns = if_some io.device_latency_ns io.completion.ts_ns;
  origin = IoOrigin.unknown;
  file = none;
  path = none;
  operation = some io.issue.operation;
  bytes = some io.issue.bytes;
  pid = io.issue.pid;
  tid = io.issue.tid;
  name = request_name io.evidence io.issue.request_id;
}

abbrev pub queue_node : CompletedIo → BlockInsert → IoNode
queue_node io insert = record {
  node_id = synthetic_node_id 8 io.issue.request_id;
  transaction_id = some io.issue.request_id;
  kind = IoNodeKind.block_queue;
  start_ts_ns = insert.ts_ns;
  end_ts_ns = some io.issue.ts_ns;
  origin = IoOrigin.unknown;
  file = none;
  path = none;
  operation = some io.issue.operation;
  bytes = some io.issue.bytes;
  pid = io.issue.pid;
  tid = io.issue.tid;
  name = block_queue_text;
}

abbrev pub queue_edge : CompletedIo → IoEdge
queue_edge io =
    let edge =
      exact_edge (synthetic_node_id 18 io.issue.request_id)
        (synthetic_node_id 8 io.issue.request_id) (block_request_node_id io.issue.request_id)
        IoRelation.dispatches in
    if is_some io.evidence then record edge { confidence = EdgeConfidence.probable } else edge

abbrev pub with_queue : IoTransactionGraph → CompletedIo → Option BlockInsert → IoTransactionGraph
with_queue g io none = g
with_queue g io (some insert) = try_edge (try_node g (queue_node io insert)) (queue_edge io)

-- `queue_id.unwrap_or(request_node_id)`
abbrev pub queue_or_request : CompletedIo → Option BlockInsert → ℕ
queue_or_request io none = block_request_node_id io.issue.request_id
queue_or_request io (some insert) = synthetic_node_id 8 io.issue.request_id

-- The request and its queue, which is all that a request with evidence of its own gets.
unfoldable pub request_graph : CompletedIo → IoTransactionGraph
request_graph io =
    with_queue (try_node (Graph.new io.issue.request_id) (request_node io)) io io.insert

abbrev any_file_node : ℕ → ℕ → List IoNode → Bool
any_file_node id request_id [] = false
any_file_node id request_id (n ∷ ns) =
    eqb n.node_id id && n.transaction_id == some request_id && is_some n.file
    || any_file_node id request_id ns

-- A raw edge ties a node with a file to the request exactly.
unfoldable pub has_exact_file_origin : ℕ → List IoNode → List IoEdge → Bool
has_exact_file_origin request_id raw_nodes [] = false
has_exact_file_origin request_id raw_nodes (e ∷ es) =
    e.transaction_id == some request_id
      && eqb e.to_node_id (block_request_node_id request_id)
      && e.confidence == EdgeConfidence.exact
      && any_file_node e.from_node_id request_id raw_nodes
    || has_exact_file_origin request_id raw_nodes es

abbrev unsigned_abs : ℤ → ℕ
unsigned_abs (pos n) = n
unsigned_abs (negsuc n) = suc n

abbrev margin_ns : ℕ
margin_ns = 10000000

unfoldable pub is_file_candidate : CompletedIo → FileIo → Bool
is_file_candidate io file =
    file.operation == io.issue.operation
    && (leb file.start_ts_ns (saturating_add io.completion.ts_ns margin_ns)
        && leb (block_start io - margin_ns) file.end_ts_ns)
    && (leb io.issue.bytes file.requested_bytes
        || leb io.issue.bytes (unsigned_abs file.completed_bytes))
    && (eqb file.pid io.issue.pid || not (eqb file.tid 0) && eqb file.tid io.issue.tid)

abbrev is_buffered : FileIoMode → Bool
is_buffered FileIoMode.buffered = true
is_buffered _ = false

-- A buffered write that ended before the request began.
abbrev is_async : CompletedIo → FileIo → Bool
is_async io file = is_buffered file.io_mode && ltb file.end_ts_ns (block_start io)

abbrev id_or : Option ℕ → ℕ → ℕ
id_or none d = d
id_or (some n) d = n

abbrev snapshot_or : FileIo → Option PathSnapshot → Option Text → Option PathSnapshot
snapshot_or file (some s) path = some s
snapshot_or file none none = none
snapshot_or file none (some path) = some (record {
  path = some path;
  source = PathSource.proc_fd;
  captured_ts_ns = file.end_ts_ns;
  deleted = ends_with deleted_suffix path;
})

abbrev path_or_fd : FileIo → Option Text → Text
path_or_fd file none = plain_fd_text ++ decimal_signed file.fd
path_or_fd file (some path) = path

abbrev pub file_node : CompletedIo → FileIo → IoNode
file_node io file = record {
  node_id = id_or file.node_id (synthetic_node_id 1 io.issue.request_id);
  transaction_id = some io.issue.request_id;
  kind = IoNodeKind.file_operation;
  start_ts_ns = file.start_ts_ns;
  end_ts_ns = some file.end_ts_ns;
  origin = IoOrigin.file;
  file = file.file_identity;
  path = snapshot_or file file.path_snapshot file.path;
  operation = some file.operation;
  bytes = some file.requested_bytes;
  pid = file.pid;
  tid = file.tid;
  name = path_or_fd file file.path;
}

abbrev pub file_edge : CompletedIo → FileIo → IoEdge
file_edge io file = record {
  edge_id = synthetic_node_id 19 io.issue.request_id;
  transaction_id = some io.issue.request_id;
  from_node_id = id_or file.node_id (synthetic_node_id 1 io.issue.request_id);
  to_node_id = block_request_node_id io.issue.request_id;
  relation = if is_async io file then IoRelation.causes_async else IoRelation.submits;
  confidence = if is_async io file then EdgeConfidence.probable_async else EdgeConfidence.probable;
  evidence =
      record {
        match_type = unique_match;
        opaque_key = none;
        delta_ns = some (block_start io - file.start_ts_ns);
        candidate_count = 1;
        sector_match = false;
        bytes_match = eqb file.requested_bytes io.issue.bytes;
        task_match = true;
      }
      ∷ [];
}

-- The edge is added only if the node was.
abbrev pub edge_if_ok : IoTransactionGraph → Graph.GraphResult → IoEdge → IoTransactionGraph
edge_if_ok g (Graph.GraphResult.ok g') e = try_edge g' e
edge_if_ok g (Graph.GraphResult.err e') e = g

abbrev pub file_if_unique : IoTransactionGraph → CompletedIo → List FileIo → IoTransactionGraph
file_if_unique g io (file ∷ []) = edge_if_ok g (add_node g (file_node io file)) (file_edge io file)
file_if_unique g io _ = g

-- One candidate, and no exact origin: a guess is made only where it is the only one.
unfoldable pub with_file :
    IoTransactionGraph → CompletedIo → List FileIo → List IoNode → List IoEdge → IoTransactionGraph
with_file g io files raw_nodes raw_edges =
    if has_exact_file_origin io.issue.request_id raw_nodes raw_edges
    then g
    else file_if_unique g io (filter (is_file_candidate io) files)
