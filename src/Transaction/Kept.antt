-- ===== src/Transaction/Kept.antt =====
-- What holds of the graph of a request and is kept by every node and edge that is offered to it holds
-- of the graph that `build_transaction_graph` returns (crates/protocol/src/lib.rs).
use android_ebpf_studio.Prelude.{
  ℕ, suc, ◌≡◌, refl, ◌&&◌, false, Option, none, some, List, [], ◌∷◌, inl, inr, IsIn, Bool-cases,
  ◌==◌, nat_eq, option_eq,
}
use android_ebpf_studio.Events.Block.{BlockInsert}
use android_ebpf_studio.Events.File.{FileIo, PathSnapshot}
use android_ebpf_studio.Events.Node.{IoNode, IoEdge, EdgeConfidence}
use android_ebpf_studio.Events.Pipeline.{PipelineObservation, PipelineSpan}
use android_ebpf_studio.Events.Completed.{CompletedIo}
use android_ebpf_studio.Graph as Graph
use android_ebpf_studio.Graph.{IoTransactionGraph, GraphResult, add_node, has_node}
use android_ebpf_studio.Graph.Invariant.{after}
use android_ebpf_studio.Correlator.{is_some}
use android_ebpf_studio.Pipeline.{filter}
use android_ebpf_studio.Transaction.{build_transaction_graph}
use android_ebpf_studio.Transaction.Request.{
  try_node, try_edge, request_node, queue_node, queue_edge, with_queue, request_graph,
  has_exact_file_origin, is_file_candidate, file_node, file_edge, edge_if_ok, file_if_unique,
  with_file,
}
use android_ebpf_studio.Transaction.Spans.{
  Chain, span_node, from_prior, after_node, chain_span, chain_spans, is_upper, join_upper,
  join_lower, with_spans, Enriched, with_path, path_if_missing, add_raw_nodes, mark_inferred,
  add_raw_edges, with_raw,
}

module _ (io : CompletedIo) (Holds : IoTransactionGraph → Type 0) (Offered : IoNode → Type 0)
    (keeps_node : (g : IoTransactionGraph) (n : IoNode)
      → Offered n
      → Holds g
      → Holds (try_node g n))
    (keeps_edge : (g : IoTransactionGraph) (e : IoEdge) → Holds g → Holds (try_edge g e)) where
  queue-Holds :
      (g : IoTransactionGraph) (insert : Option BlockInsert)
      → ((v : BlockInsert) → Offered (queue_node io v))
      → Holds g
      → Holds (with_queue g io insert)
  queue-Holds g none q h = h
  queue-Holds g (some v) q h = keeps_edge _ (queue_edge io) (keeps_node g (queue_node io v) (q v) h)

  edge_if_ok-Holds :
      (g : IoTransactionGraph) (r : GraphResult) (e : IoEdge)
      → Holds g
      → Holds (after g r)
      → Holds (edge_if_ok g r e)
  edge_if_ok-Holds g (GraphResult.ok g') e h h' = keeps_edge g' e h'
  edge_if_ok-Holds g (GraphResult.err x) e h h' = h

  file_if_unique-Holds :
      (g : IoTransactionGraph) (files : List FileIo)
      → ((file : FileIo) → files ≡ file ∷ [] → Offered (file_node io file))
      → Holds g
      → Holds (file_if_unique g io files)
  file_if_unique-Holds g [] q h = h
  file_if_unique-Holds g (file ∷ []) q h =
      edge_if_ok-Holds g (add_node g (file_node io file)) (file_edge io file) h
        (keeps_node g (file_node io file) (q file refl) h)
  file_if_unique-Holds g (a ∷ b ∷ files) q h = h

  with_file-Holds :
      (g : IoTransactionGraph) (files : List FileIo) (raw_nodes : List IoNode)
      (raw_edges : List IoEdge)
      → ((file : FileIo)
          → has_exact_file_origin io.issue.request_id raw_nodes raw_edges ≡ false
          → filter (is_file_candidate io) files ≡ file ∷ []
          → Offered (file_node io file))
      → Holds g
      → Holds (with_file g io files raw_nodes raw_edges)
  unfolding with_file
  with_file-Holds g files raw_nodes raw_edges q h =
      elim (Bool-cases (has_exact_file_origin io.issue.request_id raw_nodes raw_edges)) [
        | inl exact ↦ rw exact h
        | inr none_exact ↦ rw none_exact (
            file_if_unique-Holds g (filter (is_file_candidate io) files)
              (λ file e. q file none_exact e) h)
      ]

  from_prior-Holds :
      (g : IoTransactionGraph) (request_id index id : ℕ) (c : EdgeConfidence) (prior : Option ℕ)
      → Holds g
      → Holds (from_prior g request_id index id c prior)
  from_prior-Holds g request_id index id c none h = h
  from_prior-Holds g request_id index id c (some p) h = keeps_edge g _ h

  after_node-Holds :
      (c : Chain) (request_id index : ℕ) (s : PipelineSpan) (r : GraphResult)
      → Holds c.graph
      → Holds (after c.graph r)
      → Holds (after_node c request_id index s r).graph
  after_node-Holds c request_id index s (GraphResult.err x) h h' = h
  after_node-Holds c request_id index s (GraphResult.ok g) h h' =
      elim (Bool-cases (is_upper s.layer)) [
        | inl upper ↦ rw upper (from_prior-Holds g request_id index _ _ c.upper_prior h')
        | inr lower ↦ rw lower (from_prior-Holds g request_id index _ _ c.lower_prior h')
      ]

  chain_spans-Holds :
      (c : Chain) (request_id index : ℕ) (ss : List PipelineSpan)
      → ((i : ℕ) (s : PipelineSpan) → Offered (span_node request_id i s))
      → Holds c.graph
      → Holds (chain_spans c request_id index ss).graph
  unfolding chain_spans chain_span
  chain_spans-Holds c request_id index [] q h = h
  chain_spans-Holds c request_id index (s ∷ ss) q h =
      chain_spans-Holds (chain_span c request_id index s) request_id (suc index) ss q (
        after_node-Holds c request_id index s _ h
          (keeps_node c.graph (span_node request_id index s) (q index s) h))

  join_upper-Holds :
      (g : IoTransactionGraph) (request_id to : ℕ) (last : Option (ℕ × EdgeConfidence))
      → Holds g
      → Holds (join_upper g request_id to last)
  join_upper-Holds g request_id to none h = h
  join_upper-Holds g request_id to (some (id, c)) h = keeps_edge g _ h

  join_lower-Holds :
      (g : IoTransactionGraph) (request_id : ℕ) (first : Option (ℕ × EdgeConfidence))
      → Holds g
      → Holds (join_lower g request_id first)
  join_lower-Holds g request_id none h = h
  join_lower-Holds g request_id (some (id, c)) h = keeps_edge g _ h

  with_spans-Holds :
      (g : IoTransactionGraph) (request_id to : ℕ) (ss : List PipelineSpan)
      → ((i : ℕ) (s : PipelineSpan) → Offered (span_node request_id i s))
      → Holds g
      → Holds (with_spans g request_id to ss)
  unfolding with_spans
  with_spans-Holds g request_id to ss q h =
      join_lower-Holds _ request_id _
        (join_upper-Holds _ request_id to _ (chain_spans-Holds _ request_id 0 ss q h))

  with_path-Holds :
      (e : Enriched) (n : IoNode) (o : Option PathSnapshot)
      → Offered n
      → ((s : PathSnapshot) → Offered (record n { path = some s }))
      → Holds e.graph
      → Holds (with_path e n o).graph
  with_path-Holds e n none p q h = keeps_node e.graph n p h
  with_path-Holds e n (some s) p q h = keeps_node e.graph (record n { path = some s }) (q s) h

  missing-Holds :
      (files : List FileIo) (e : Enriched) (n : IoNode) (path : Option PathSnapshot)
      → n.path ≡ path
      → Offered n
      → (n.path ≡ none → (s : PathSnapshot) → Offered (record n { path = some s }))
      → Holds e.graph
      → Holds (with_path e n (path_if_missing io files n path)).graph
  missing-Holds files e n none m p q h = with_path-Holds e n _ p (q m) h
  missing-Holds files e n (some s) m p q h = keeps_node e.graph n p h

  -- A raw node is offered as it is, or with an inferred path where it had none.
  abbrev RawOffered : List IoNode → Type 0
  RawOffered raw_nodes =
      (n : IoNode)
      → IsIn n raw_nodes
      → n.transaction_id ≡ some io.issue.request_id
      → Offered n × (n.path ≡ none → (s : PathSnapshot) → Offered (record n { path = some s }))

  add_raw_nodes-Holds :
      (files : List FileIo) (e : Enriched) (raw_nodes : List IoNode)
      → RawOffered raw_nodes
      → Holds e.graph
      → Holds (add_raw_nodes io files e raw_nodes).graph
  unfolding add_raw_nodes
  add_raw_nodes-Holds files e [] q h = h
  add_raw_nodes-Holds files e (n ∷ ns) q h =
      elim (Bool-cases (n.transaction_id == some io.issue.request_id)) [
        | inr other ↦
            rw (other, add_raw_nodes) (add_raw_nodes-Holds files e ns (λ m i o. q m (inr i) o) h)
        | inl own ↦
            let (p, r) =
              q n (inl refl)
                ((option_eq.decides n.transaction_id (some io.issue.request_id)).0 own) in
            rw (own, add_raw_nodes)
              (add_raw_nodes-Holds files (with_path e n (path_if_missing io files n n.path)) ns
                (λ m i o. q m (inr i) o) (missing-Holds files e n n.path refl p r h))
      ]

  add_raw_edges-Holds :
      (request_id : ℕ) (inferred : List ℕ) (g : IoTransactionGraph) (raw_edges : List IoEdge)
      → Holds g
      → Holds (add_raw_edges request_id inferred g raw_edges)
  unfolding add_raw_edges
  add_raw_edges-Holds request_id inferred g [] h = h
  add_raw_edges-Holds request_id inferred g (v ∷ vs) h =
      elim (Bool-cases (
        v.transaction_id == some request_id
        && has_node v.from_node_id g.nodes
        && has_node v.to_node_id g.nodes)) [
          | inl joins ↦ rw joins (
              add_raw_edges-Holds request_id inferred (try_edge g (mark_inferred inferred v)) vs
                (keeps_edge g (mark_inferred inferred v) h))
          | inr apart ↦ rw apart (add_raw_edges-Holds request_id inferred g vs h)
        ]

  pub build_transaction_graph-Holds :
      (files : List FileIo) (observations : List PipelineObservation) (raw_nodes : List IoNode)
      (raw_edges : List IoEdge)
      → ((v : BlockInsert) → Offered (queue_node io v))
      → ((file : FileIo)
          → has_exact_file_origin io.issue.request_id raw_nodes raw_edges ≡ false
          → filter (is_file_candidate io) files ≡ file ∷ []
          → Offered (file_node io file))
      → ((i : ℕ) (s : PipelineSpan) → Offered (span_node io.issue.request_id i s))
      → RawOffered raw_nodes
      → Holds (try_node (Graph.new io.issue.request_id) (request_node io))
      → Holds (build_transaction_graph io files observations raw_nodes raw_edges)
  unfolding build_transaction_graph request_graph with_raw
  build_transaction_graph-Holds files observations raw_nodes raw_edges queue file span raw start =
      let g = queue-Holds _ io.insert queue start in
      elim (Bool-cases (is_some io.evidence)) [
        | inl foreign ↦ rw foreign g
        | inr own ↦ rw own (
            add_raw_edges-Holds io.issue.request_id _ _ raw_edges (
              add_raw_nodes-Holds files _ raw_nodes raw (
                with_spans-Holds _ io.issue.request_id _ _ span
                  (with_file-Holds _ files raw_nodes raw_edges file g))))
      ]
