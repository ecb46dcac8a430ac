-- ===== src/Transaction/Shape.antt =====
-- The shape of the graph of a request, and where its files come from (`build_transaction_graph`).
use android_ebpf_studio.Prelude.{
  ℕ, ◌≡◌, refl, ◌∙◌, ap, subst, ◌≤◌, ◌⊎◌, inl, inr, false, Option, none, some, List, [], ◌∷◌, ◌++◌,
  arith, IsIn, IsIn-append_cases,
}
use android_ebpf_studio.Events.File.{FileIo}
use android_ebpf_studio.Events.Node.{IoNode, IoEdge, unwrap_or as value_or}
use android_ebpf_studio.Events.Pipeline.{PipelineObservation}
use android_ebpf_studio.Events.Completed.{CompletedIo}
use android_ebpf_studio.Graph as Graph
use android_ebpf_studio.Graph.{IoTransactionGraph, add_node, add_edge, has_node}
use android_ebpf_studio.Graph.Invariant.{
  IsWellFormed, add_node-IsWellFormed, add_edge-IsWellFormed, new-IsWellFormed, add_node-nodes,
  add_node-first, add_edge-nodes,
}
use android_ebpf_studio.Pipeline.{filter}
use android_ebpf_studio.Transaction.{build_transaction_graph}
use android_ebpf_studio.Transaction.Request.{
  if_some, try_node, try_edge, request_node, has_exact_file_origin, is_file_candidate, file_node,
}
use android_ebpf_studio.Transaction.Kept.{build_transaction_graph-Holds}

abbrev Anything : IoNode → Type 0
Anything n = Unit {0}

-- Whatever file operations, observations, nodes and edges come with a request, its graph is well
-- formed: distinct node ids and edge ids, no node that ends before it starts, both endpoints of every
-- edge with the source not after the target's end, and no cycle.
pub build_transaction_graph-IsWellFormed :
    (io : CompletedIo) (files : List FileIo) (observations : List PipelineObservation)
    (raw_nodes : List IoNode) (raw_edges : List IoEdge)
    → IsWellFormed (build_transaction_graph io files observations raw_nodes raw_edges)
build_transaction_graph-IsWellFormed io files observations raw_nodes raw_edges =
    build_transaction_graph-Holds io IsWellFormed Anything (λ g n o w. add_node-IsWellFormed g n w)
      add_edge-IsWellFormed files observations raw_nodes raw_edges (λ v. tt) (λ file x e. tt)
      (λ i s. tt) (λ n i e. (tt, λ m s. tt))
      (add_node-IsWellFormed (Graph.new io.issue.request_id) (request_node io)
        (new-IsWellFormed io.issue.request_id))

-- The nodes start with the node of the request.
abbrev Starts : CompletedIo → IoTransactionGraph → Type 0
Starts io g = (rest : List IoNode) × (g.nodes ≡ request_node io ∷ rest)

Starts-nodes :
    (io : CompletedIo) (g h : IoTransactionGraph) (n : IoNode)
    → (h.nodes ≡ g.nodes) ⊎ (h.nodes ≡ g.nodes ++ n ∷ [])
    → Starts io g
    → Starts io h
Starts-nodes io g h n (inl same) (rest, e) = (rest, same ∙ e)
Starts-nodes io g h n (inr more) (rest, e) = (rest ++ n ∷ [], more ∙ ap (λ ns. ns ++ n ∷ []) e)

-- The request of a graph that does not complete before it is issued is the first node of its graph.
build_transaction_graph-Starts :
    (io : CompletedIo) (files : List FileIo) (observations : List PipelineObservation)
    (raw_nodes : List IoNode) (raw_edges : List IoEdge)
    → io.issue.ts_ns ≤ io.completion.ts_ns
    → Starts io (build_transaction_graph io files observations raw_nodes raw_edges)
build_transaction_graph-Starts io files observations raw_nodes raw_edges h =
    build_transaction_graph-Holds io (Starts io) Anything
      (λ g n o s. Starts-nodes io g (try_node g n) n (add_node-nodes g n) s)
      (λ g e s. Starts-nodes io g (try_edge g e) (request_node io) (inl (add_edge-nodes g e)) s)
      files observations raw_nodes raw_edges (λ v. tt) (λ file x e. tt) (λ i s. tt)
      (λ n i e. (tt, λ m s. tt))
      ([], add_node-first io.issue.request_id (request_node io) (in_time io.device_latency_ns))
  where
    in_time :
        (o : Option ℕ) → io.issue.ts_ns ≤ value_or (if_some o io.completion.ts_ns) io.issue.ts_ns
    in_time none = omega arith
    in_time (some d) = h

module _ (io : CompletedIo) (files : List FileIo) (raw_nodes : List IoNode)
    (raw_edges : List IoEdge) where
  -- The node is that of the one file operation that may have caused the request, taken only where no
  -- raw edge ties a file to the request exactly.
  abbrev IsOnlyCandidate : IoNode → Type 0
  IsOnlyCandidate n =
      (file : FileIo) × (has_exact_file_origin io.issue.request_id raw_nodes raw_edges ≡ false)
      × (filter (is_file_candidate io) files ≡ file ∷ [])
      × (n ≡ file_node io file)

  -- The node is a raw node of the request, which keeps its id, its file and a path that it has.
  abbrev IsRaw : IoNode → Type 0
  IsRaw n =
      (raw : IoNode) × IsIn raw raw_nodes
      × (raw.transaction_id ≡ some io.issue.request_id)
      × (raw.node_id ≡ n.node_id)
      × (raw.file ≡ n.file)
      × ((raw.path ≡ n.path) ⊎ (raw.path ≡ none))

  abbrev HasSource : IoNode → Type 0
  HasSource n = (n.file ≡ none) ⊎ IsOnlyCandidate n ⊎ IsRaw n

  abbrev pub AllHaveSource : List IoNode → Type 0
  AllHaveSource ns = (n : IoNode) → IsIn n ns → HasSource n

  AllHaveSource-nodes :
      (ns ms : List IoNode) (n : IoNode)
      → (ms ≡ ns) ⊎ (ms ≡ ns ++ n ∷ [])
      → HasSource n
      → AllHaveSource ns
      → AllHaveSource ms
  AllHaveSource-nodes ns ms n (inl same) o a = λ m i. a m (subst (λ l. IsIn m l) same i)
  AllHaveSource-nodes ns ms n (inr more) o a = λ m i.
      elim (IsIn-append_cases m ns (n ∷ []) (subst (λ l. IsIn m l) more i)) [
        | inl old ↦ a m old
        | inr (inl e) ↦ subst HasSource e o
        | inr (inr f) ↦ absurd f
      ]

  -- Every node with a file in the graph of a request is the node of the only file operation that may
  -- have caused it, where no raw edge ties a file to it exactly, or a raw node of the request that
  -- has its own file and path, or that had no path.
  pub build_transaction_graph-AllHaveSource :
      (observations : List PipelineObservation)
      → AllHaveSource (build_transaction_graph io files observations raw_nodes raw_edges).nodes
  build_transaction_graph-AllHaveSource observations =
      build_transaction_graph-Holds io (λ g. AllHaveSource g.nodes) HasSource
        (λ g n o a. AllHaveSource-nodes g.nodes (try_node g n).nodes n (add_node-nodes g n) o a)
        (λ g e a m i. a m (subst (λ l. IsIn m l) (add_edge-nodes g e) i)) files observations
        raw_nodes raw_edges (λ v. inl refl) (λ file exact only. inr (inl (file, exact, only, refl)))
        (λ i s. inl refl)
        (λ n i e. (
          inr (inr (n, i, e, refl, refl, inl refl)),
          λ m s. inr (inr (n, i, e, refl, refl, inr m)),
        ))
        (AllHaveSource-nodes [] _ (request_node io)
          (add_node-nodes (Graph.new io.issue.request_id) (request_node io)) (inl refl)
          (λ m i. absurd i))
