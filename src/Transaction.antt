-- ===== src/Transaction.antt =====
-- crates/protocol/src/lib.rs: `build_transaction_graph`, the graph of one completed request from the
-- file operations, the observations and the raw nodes and edges around it.
mod Tests
pub mod Paths
pub mod Request
pub mod Spans
pub mod Kept
pub mod Shape
pub mod Inferred
use android_ebpf_studio.Prelude.{List, if◌then◌else◌}
use android_ebpf_studio.Events.File.{FileIo}
use android_ebpf_studio.Events.Node.{IoNode, IoEdge}
use android_ebpf_studio.Events.Pipeline.{PipelineObservation}
use android_ebpf_studio.Events.Completed.{CompletedIo}
use android_ebpf_studio.Graph.{IoTransactionGraph}
use android_ebpf_studio.Correlator.{is_some}
use android_ebpf_studio.Pipeline.{build_io_pipeline, filter}
use android_ebpf_studio.Transaction.Request.{request_graph, with_file, queue_or_request}
use android_ebpf_studio.Transaction.Spans.{is_chained, with_spans, with_raw}

-- A request with evidence of its own joins nothing of this session.
unfoldable pub build_transaction_graph :
    CompletedIo
    → List FileIo
    → List PipelineObservation
    → List IoNode
    → List IoEdge
    → IoTransactionGraph
build_transaction_graph io files observations raw_nodes raw_edges =
    let g = request_graph io in
    if is_some io.evidence
    then g
    else with_raw
        (with_spans (with_file g io files raw_nodes raw_edges) io.issue.request_id
          (queue_or_request io io.insert)
          (filter is_chained (build_io_pipeline io observations).spans))
        io files raw_nodes raw_edges
