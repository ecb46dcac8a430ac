-- ===== src/Graph/Build.antt =====
-- What `add_node` and `add_edge` refuse, and the graphs that they build
-- (crates/protocol/src/lib.rs).
use android_ebpf_studio.Prelude.{
  ◌≡◌, refl, sym, subst, ◌≤◌, ◌<◌, ◌↔◌, ◌⊎◌, inl, inr, true, false, ◌||◌, Option, none, some, [],
  ◌∷◌, ◌++◌, arith, ltb, eqb, eqb_iff, Bool-cases,
}
use android_ebpf_studio.Events.Node.{IoNode, IoEdge, end_or_start}
use android_ebpf_studio.Graph.{
  IoTransactionGraph, GraphResult, ok, err, duplicate_node, duplicate_edge, missing_node,
  invalid_time, reverse_time, cycle, find_node, has_edge, add_edge, link, reachable,
}
use android_ebpf_studio.Graph.Search.{Leads, here, reachable_iff}

-- The result of `add_edge`, for each outcome exactly when the checks before it passed.
abbrev pub EdgeJudged : IoTransactionGraph → IoEdge → GraphResult → Type 0
EdgeJudged g e (ok h) =
    (has_edge e.edge_id g.edges ≡ false)
    × (from : IoNode) × (to : IoNode) × (find_node e.from_node_id g.nodes ≡ some from)
    × (find_node e.to_node_id g.nodes ≡ some to)
    × (from.start_ts_ns ≤ end_or_start to)
    × ¬ Leads g.edges e.to_node_id e.from_node_id
    × (h ≡ record g { edges = g.edges ++ e ∷ [] })
EdgeJudged g e (err (duplicate_edge id)) = (has_edge e.edge_id g.edges ≡ true) × (id ≡ e.edge_id)
EdgeJudged g e (err (missing_node id)) =
    (has_edge e.edge_id g.edges ≡ false)
    × (((find_node e.from_node_id g.nodes ≡ none) × (id ≡ e.from_node_id))
        ⊎ ((from : IoNode) × (find_node e.from_node_id g.nodes ≡ some from)
            × (find_node e.to_node_id g.nodes ≡ none)
            × (id ≡ e.to_node_id)))
EdgeJudged g e (err (reverse_time id)) =
    (has_edge e.edge_id g.edges ≡ false)
    × (from : IoNode) × (to : IoNode) × (find_node e.from_node_id g.nodes ≡ some from)
    × (find_node e.to_node_id g.nodes ≡ some to)
    × (end_or_start to < from.start_ts_ns)
    × (id ≡ e.edge_id)
EdgeJudged g e (err cycle) =
    (has_edge e.edge_id g.edges ≡ false)
    × (from : IoNode) × (to : IoNode) × (find_node e.from_node_id g.nodes ≡ some from)
    × (find_node e.to_node_id g.nodes ≡ some to)
    × (from.start_ts_ns ≤ end_or_start to)
    × Leads g.edges e.to_node_id e.from_node_id
EdgeJudged g e (err (duplicate_node id)) = ⊥
EdgeJudged g e (err (invalid_time id)) = ⊥

self_or_reachable :
    (g : IoTransactionGraph) (e : IoEdge)
    → ((eqb e.from_node_id e.to_node_id || reachable g e.to_node_id e.from_node_id) ≡ true)
      ↔ Leads g.edges e.to_node_id e.from_node_id
self_or_reachable g e = (
  (λ h. elim (Bool-cases (eqb e.from_node_id e.to_node_id)) [
    | inl same ↦
        subst (λ x. Leads g.edges e.to_node_id x)
          (sym ((eqb_iff e.from_node_id e.to_node_id).0 same)) here
    | inr other ↦ (reachable_iff g e.to_node_id e.from_node_id).0 (ground arith)
  ]),
  λ p. let r = (reachable_iff g e.to_node_id e.from_node_id).1 p in ground arith,
)

link-Judged :
    (g : IoTransactionGraph) (e : IoEdge) (from to : Option IoNode)
    → has_edge e.edge_id g.edges ≡ false
    → find_node e.from_node_id g.nodes ≡ from
    → find_node e.to_node_id g.nodes ≡ to
    → EdgeJudged g e (link g e from to (reachable g e.to_node_id e.from_node_id))
link-Judged g e none to d f t = (d, inl (f, refl))
link-Judged g e (some a) none d f t = (d, inr (a, f, t, refl))
link-Judged g e (some a) (some b) d f t = elim (Bool-cases (ltb (end_or_start b) a.start_ts_ns)) [
  | inl late ↦ rw late (d, a, b, f, t, ground arith, refl)
  | inr ordered ↦
      elim (Bool-cases
        (eqb e.from_node_id e.to_node_id || reachable g e.to_node_id e.from_node_id)) [
          | inl closed ↦
              rw (ordered, closed) (d, a, b, f, t, ground arith, (self_or_reachable g e).0 closed)
          | inr open_ended ↦
              rw (ordered, open_ended)
                (d, a, b, f, t, ground arith, (λ p. cc ((self_or_reachable g e).1 p)), refl)
        ]
]

-- `add_edge` adds the edge, and nothing else, exactly when its id is new, both endpoints exist, the
-- source does not start after the target's end and the target does not lead to the source, and
-- otherwise reports the first of these checks that fails, in this order, with the id concerned.
pub add_edge-Judged : (g : IoTransactionGraph) (e : IoEdge) → EdgeJudged g e (add_edge g e)
unfolding add_edge
add_edge-Judged g e = elim (Bool-cases (has_edge e.edge_id g.edges)) [
  | inl dup ↦ rw dup (dup, refl)
  | inr fresh ↦ rw fresh (
      link-Judged g e (find_node e.from_node_id g.nodes) (find_node e.to_node_id g.nodes) fresh refl
        refl)
]
