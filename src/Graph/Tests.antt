-- ===== src/Graph/Tests.antt =====
-- Runs of a transaction graph, and its theorems at concrete inputs (crates/protocol/src/lib.rs).
use android_ebpf_studio.Prelude.{
  ◌≡◌, refl, inl, inr, ◌↔◌, true, some, List, [], ◌∷◌, ◌+◌, ◌*◌, length, map, arith,
}
use android_ebpf_studio.Samples.{node_at, edge_of, file, named_path}
use android_ebpf_studio.Events.File.{FileIdentity}
use android_ebpf_studio.Events.Node.{EdgeConfidence, FileOriginView, weakest}
use android_ebpf_studio.Graph.Origins.{
  Walk, walk, start_walk, file_origins_for, visit_step, merge_origin,
}
use android_ebpf_studio.Graph.Origins.Total.{walk-total}
use android_ebpf_studio.Graph.Origins.Best.{AreBest, file_origins_for-best}
use android_ebpf_studio.Graph.{IoTransactionGraph, err, cycle, new, add_edge, search, reachable}
use android_ebpf_studio.Graph.Search.{Leads, reachable_iff}
use android_ebpf_studio.Graph.Build.{EdgeJudged, add_edge-Judged}
use android_ebpf_studio.Graph.Metrics.{time_metrics}
use android_ebpf_studio.Graph.Metrics.Accounted.{IsAccounted, time_metrics-IsAccounted}
use android_ebpf_studio.Graph.Invariant.{
  Call, adds_node, adds_edge, build, IsWellFormed, build-IsWellFormed,
}

abbrev calls : List Call
calls =
    adds_node (node_at 1 10)
    ∷ adds_node (node_at 2 20)
    ∷ adds_node (node_at 2 30)
    ∷ adds_edge (edge_of 1 1 2)
    ∷ []

-- Nodes 1, 2 and 3 at one time, with edges from 1 to 2 and from 2 to 3.
abbrev chain : IoTransactionGraph
chain = record {
  transaction_id = 7;
  nodes = node_at 1 10 ∷ node_at 2 10 ∷ node_at 3 10 ∷ [];
  edges = edge_of 1 1 2 ∷ edge_of 2 2 3 ∷ [];
}

-- An edge that closes a cycle is refused.
chain_cycle : add_edge chain (edge_of 3 3 1) ≡ err cycle
unfolding add_edge reachable search
chain_cycle = refl

build-IsWellFormed_example : IsWellFormed (build (new 7) calls)
build-IsWellFormed_example = build-IsWellFormed 7 calls

add_edge-Judged_example : EdgeJudged chain (edge_of 3 3 1) (add_edge chain (edge_of 3 3 1))
add_edge-Judged_example = add_edge-Judged chain (edge_of 3 3 1)

reachable_iff_example : (reachable chain 1 3 ≡ true) ↔ Leads chain.edges 1 3
reachable_iff_example = reachable_iff chain 1 3

-- Two nodes with ten instants between them.
abbrev apart : IoTransactionGraph
apart = record chain {
  nodes =
      record (node_at 1 10) { end_ts_ns = some 20 }
      ∷ record (node_at 2 30) { end_ts_ns = some 45 }
      ∷ [];
  edges = [];
}

time_metrics-IsAccounted_example : IsAccounted (time_metrics apart) apart.nodes
time_metrics-IsAccounted_example =
    time_metrics-IsAccounted apart (record (node_at 1 10) { end_ts_ns = some 20 })
      (record (node_at 2 30) { end_ts_ns = some 45 } ∷ []) refl
      (λ m i. elim i [
        | inl e ↦ rw (← e) (omega arith)
        | inr j ↦ elim j [ inl e ↦ rw (← e) (omega arith) | inr k ↦ absurd k ]
      ])

-- A file at node 1, whose edges lead to node 3.
abbrev origins_chain : IoTransactionGraph
origins_chain = record chain {
  nodes =
      record (node_at 1 10) { file = some file; path = some named_path }
      ∷ node_at 2 10
      ∷ node_at 3 10
      ∷ [];
}

-- The file reaches node 3 exactly.
origins_chain_found :
    map {B = FileIdentity × EdgeConfidence}
      (λ (v : FileOriginView). (v.file, v.confidence))
      (file_origins_for origins_chain 3)
    ≡ (file, EdgeConfidence.exact) ∷ []
unfolding file_origins_for walk visit_step merge_origin weakest
origins_chain_found = refl

file_origins_for-best_example : AreBest origins_chain 3 (file_origins_for origins_chain 3)
file_origins_for-best_example = file_origins_for-best origins_chain 3

walk-total_example :
    (r : Walk) × (walk
        (4 * length chain.edges + 2)
        chain
        ((3, EdgeConfidence.exact) ∷ [])
        (start_walk 3)
      ≡ some r)
walk-total_example = walk-total chain 3
