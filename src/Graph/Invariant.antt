-- ===== src/Graph/Invariant.antt =====
-- The invariant of a transaction graph, kept by every sequence of `add_node` and `add_edge`.
use android_ebpf_studio.Prelude.{
  ℕ, ◌≡◌, refl, ◌≤◌, ◌⊎◌, inl, inr, false, some, List, [], ◌∷◌, ◌++◌, map, arith, ltb, eqb_iff,
  Bool-cases, IsIn, AllDistinct, append-AllDistinct,
}
use mathlib.Core.List.{map-append}
use android_ebpf_studio.Events.Node.{IoNode, IoEdge, end_or_start}
use android_ebpf_studio.Graph.{
  IoTransactionGraph, GraphResult, ok, err, new, find_node, has_node, has_edge, add_node, add_edge,
}
use android_ebpf_studio.Graph.Order.{IsAcyclic, append-IsAcyclic}
use android_ebpf_studio.Graph.Build.{EdgeJudged, add_edge-Judged}

abbrev node_ids : List IoNode → List ℕ
node_ids = map λ n. n.node_id

abbrev edge_ids : List IoEdge → List ℕ
edge_ids = map λ e. e.edge_id

abbrev AllInTime : List IoNode → Type 0
AllInTime [] = Unit {0}
AllInTime (n ∷ ns) = (n.start_ts_ns ≤ end_or_start n) × AllInTime ns

-- Both ends of every edge exist, and the source does not start after the target's end.
abbrev AllJoined : List IoNode → List IoEdge → Type 0
AllJoined ns [] = Unit {0}
AllJoined ns (e ∷ es) =
    ((from : IoNode) × (to : IoNode) × (find_node e.from_node_id ns ≡ some from)
      × (find_node e.to_node_id ns ≡ some to)
      × (from.start_ts_ns ≤ end_or_start to))
    × AllJoined ns es

pub record IsWellFormed (g : IoTransactionGraph) : Type 0 where
  pub distinct_nodes : AllDistinct (node_ids g.nodes)
  pub distinct_edges : AllDistinct (edge_ids g.edges)
  pub in_time : AllInTime g.nodes
  pub joined : AllJoined g.nodes g.edges
  pub acyclic : IsAcyclic g.edges

new_node_id : (id : ℕ) (ns : List IoNode) → has_node id ns ≡ false → ¬ IsIn id (node_ids ns)
new_node_id id [] h i = i
new_node_id id (n ∷ ns) h (inl e) = ground (arith, eqb_iff n.node_id id)
new_node_id id (n ∷ ns) h (inr i) = new_node_id id ns (ground arith) i

new_edge_id : (id : ℕ) (es : List IoEdge) → has_edge id es ≡ false → ¬ IsIn id (edge_ids es)
new_edge_id id [] h i = i
new_edge_id id (n ∷ ns) h (inl e) = ground (arith, eqb_iff n.edge_id id)
new_edge_id id (n ∷ ns) h (inr i) = new_edge_id id ns (ground arith) i

AllInTime-append :
    (ns : List IoNode) (n : IoNode)
    → AllInTime ns
    → n.start_ts_ns ≤ end_or_start n
    → AllInTime (ns ++ n ∷ [])
AllInTime-append [] n a h = (h, tt)
AllInTime-append (m ∷ ns) n a h = (a.0, AllInTime-append ns n a.1 h)

find_node-append :
    (id : ℕ) (ns ms : List IoNode) (n : IoNode)
    → find_node id ns ≡ some n
    → find_node id (ns ++ ms) ≡ some n
find_node-append id [] ms n e = cc
find_node-append id (m ∷ ns) ms n e = ground (arith, find_node-append id ns ms n)

AllJoined-node :
    (ns ms : List IoNode) (es : List IoEdge) → AllJoined ns es → AllJoined (ns ++ ms) es
AllJoined-node ns ms [] j = tt
AllJoined-node ns ms (e ∷ es) j =
    let (from, to, f, t, o) = j.0 in
    (
      (
        from,
        to,
        find_node-append e.from_node_id ns ms from f,
        find_node-append e.to_node_id ns ms to t,
        o,
      ),
      AllJoined-node ns ms es j.1,
    )

AllJoined-edge :
    (ns : List IoNode) (es : List IoEdge) (e : IoEdge) (from to : IoNode)
    → AllJoined ns es
    → find_node e.from_node_id ns ≡ some from
    → find_node e.to_node_id ns ≡ some to
    → from.start_ts_ns ≤ end_or_start to
    → AllJoined ns (es ++ e ∷ [])
AllJoined-edge ns [] e from to j f t o = ((from, to, f, t, o), tt)
AllJoined-edge ns (d ∷ es) e from to j f t o = (j.0, AllJoined-edge ns es e from to j.1 f t o)

-- One call, and the graph after it: a refused call leaves the graph as it was.
pub data Call : Type 0 where
  adds_node : IoNode → Call
  adds_edge : IoEdge → Call

abbrev pub after : IoTransactionGraph → GraphResult → IoTransactionGraph
after g (ok h) = h
after g (err e) = g

pub build : IoTransactionGraph → List Call → IoTransactionGraph
build g [] = g
build g (adds_node n ∷ cs) = build (after g (add_node g n)) cs
build g (adds_edge e ∷ cs) = build (after g (add_edge g e)) cs

pub add_node-IsWellFormed :
    (g : IoTransactionGraph) (n : IoNode) → IsWellFormed g → IsWellFormed (after g (add_node g n))
unfolding add_node
add_node-IsWellFormed g n w = elim (Bool-cases (ltb (end_or_start n) n.start_ts_ns)) [
  | inl late ↦ rw late w
  | inr in_time ↦ elim (Bool-cases (has_node n.node_id g.nodes)) [
    | inl dup ↦ rw (in_time, dup) w
    | inr fresh ↦
        rw (in_time, fresh)
          (record {
            distinct_nodes = rw (map-append (λ (m : IoNode). m.node_id) g.nodes (n ∷ [])) (
                append-AllDistinct (node_ids g.nodes) n.node_id w.distinct_nodes
                  (new_node_id n.node_id g.nodes fresh));
            distinct_edges = w.distinct_edges;
            in_time = AllInTime-append g.nodes n w.in_time (ground arith);
            joined = AllJoined-node g.nodes (n ∷ []) g.edges w.joined;
            acyclic = w.acyclic;
          })
  ]
]

judged-IsWellFormed :
    (g : IoTransactionGraph) (e : IoEdge) (r : GraphResult)
    → EdgeJudged g e r
    → IsWellFormed g
    → IsWellFormed (after g r)
judged-IsWellFormed g e (err x) j w = w
judged-IsWellFormed g e (ok h) (fresh, from, to, f, t, o, n, same) w = rw same (record {
  distinct_nodes = w.distinct_nodes;
  distinct_edges = rw (map-append (λ (d : IoEdge). d.edge_id) g.edges (e ∷ [])) (
      append-AllDistinct (edge_ids g.edges) e.edge_id w.distinct_edges
        (new_edge_id e.edge_id g.edges fresh));
  in_time = w.in_time;
  joined = AllJoined-edge g.nodes g.edges e from to w.joined f t o;
  acyclic = append-IsAcyclic g.edges e n w.acyclic;
})

build_keeps : (g : IoTransactionGraph) (cs : List Call) → IsWellFormed g → IsWellFormed (build g cs)
unfolding build
build_keeps g [] w = w
build_keeps g (adds_node n ∷ cs) w =
    build_keeps (after g (add_node g n)) cs (add_node-IsWellFormed g n w)
build_keeps g (adds_edge e ∷ cs) w =
    build_keeps (after g (add_edge g e)) cs
      (judged-IsWellFormed g e (add_edge g e) (add_edge-Judged g e) w)

pub add_edge-IsWellFormed :
    (g : IoTransactionGraph) (e : IoEdge) → IsWellFormed g → IsWellFormed (after g (add_edge g e))
add_edge-IsWellFormed g e w = judged-IsWellFormed g e (add_edge g e) (add_edge-Judged g e) w

pub new-IsWellFormed : (transaction_id : ℕ) → IsWellFormed (new transaction_id)
new-IsWellFormed transaction_id = record {
  distinct_nodes = tt;
  distinct_edges = tt;
  in_time = tt;
  joined = tt;
  acyclic = λ a b l p. l;
}

-- Whatever nodes and edges are offered to a new graph, in whatever order, the result has distinct
-- node ids and distinct edge ids, no node that ends before it starts, both endpoints of every edge
-- with the source not after the target's end, and no cycle.
pub build-IsWellFormed :
    (transaction_id : ℕ) (cs : List Call) → IsWellFormed (build (new transaction_id) cs)
build-IsWellFormed transaction_id cs =
    build_keeps (new transaction_id) cs (new-IsWellFormed transaction_id)

-- A node is appended or refused.
pub add_node-nodes :
    (g : IoTransactionGraph) (n : IoNode)
    → ((after g (add_node g n)).nodes ≡ g.nodes)
      ⊎ ((after g (add_node g n)).nodes ≡ g.nodes ++ n ∷ [])
unfolding add_node
add_node-nodes g n = elim (Bool-cases (ltb (end_or_start n) n.start_ts_ns)) [
  | inl late ↦ rw late (inl refl)
  | inr in_time ↦ elim (Bool-cases (has_node n.node_id g.nodes)) [
    | inl dup ↦ rw (in_time, dup) (inl refl)
    | inr fresh ↦ rw (in_time, fresh) (inr refl)
  ]
]

-- The first node is refused only if it ends before it starts.
pub add_node-first :
    (transaction_id : ℕ) (n : IoNode)
    → n.start_ts_ns ≤ end_or_start n
    → (after (new transaction_id) (add_node (new transaction_id) n)).nodes ≡ n ∷ []
unfolding add_node
add_node-first transaction_id n h =
    let in_time : ltb (end_or_start n) n.start_ts_ns ≡ false = ground arith in rw in_time refl

judged-nodes :
    (g : IoTransactionGraph) (e : IoEdge) (r : GraphResult)
    → EdgeJudged g e r
    → (after g r).nodes ≡ g.nodes
judged-nodes g e (err x) j = refl
judged-nodes g e (ok h) (fresh, from, to, f, t, o, n, same) = rw same refl

pub add_edge-nodes :
    (g : IoTransactionGraph) (e : IoEdge) → (after g (add_edge g e)).nodes ≡ g.nodes
add_edge-nodes g e = judged-nodes g e (add_edge g e) (add_edge-Judged g e)
