-- ===== src/Transaction/Tests.antt =====
-- The builder of a request's graph at concrete inputs (crates/protocol/src/lib.rs).
use android_ebpf_studio.Prelude.{refl, some, List, [], ◌∷◌}
use android_ebpf_studio.Samples.{completed, observed, file_read, node_at, edge_of, file}
use android_ebpf_studio.Events.File.{FileIo}
use android_ebpf_studio.Events.Node.{IoNode, IoEdge}
use android_ebpf_studio.Graph.Invariant.{IsWellFormed}
use android_ebpf_studio.Transaction.{build_transaction_graph}
use android_ebpf_studio.Transaction.Paths.{inferred_origin_path, eligible_files}
use android_ebpf_studio.Transaction.Shape.{
  AllHaveSource, build_transaction_graph-IsWellFormed, build_transaction_graph-AllHaveSource,
}
use android_ebpf_studio.Transaction.Inferred.{Inferred, inferred_origin_path-Inferred}

abbrev files : List FileIo
files = file_read ∷ []

abbrev raw_node : IoNode
raw_node = record (node_at 3 95) { file = some file; transaction_id = some 1 }

abbrev raw_nodes : List IoNode
raw_nodes = raw_node ∷ []

abbrev raw_edges : List IoEdge
raw_edges = edge_of 1 3 4 ∷ []

build_transaction_graph-IsWellFormed_example :
    IsWellFormed (build_transaction_graph completed files (observed ∷ []) raw_nodes raw_edges)
build_transaction_graph-IsWellFormed_example =
    build_transaction_graph-IsWellFormed completed files (observed ∷ []) raw_nodes raw_edges

build_transaction_graph-AllHaveSource_example :
    AllHaveSource completed files raw_nodes raw_edges
      (build_transaction_graph completed files (observed ∷ []) raw_nodes raw_edges).nodes
build_transaction_graph-AllHaveSource_example =
    build_transaction_graph-AllHaveSource completed files raw_nodes raw_edges (observed ∷ [])

inferred_origin_path-Inferred_example :
    Inferred
      (eligible_files raw_node file files 100 150)
      (inferred_origin_path raw_node files 100 150)
inferred_origin_path-Inferred_example =
    inferred_origin_path-Inferred raw_node file files 100 150 refl
