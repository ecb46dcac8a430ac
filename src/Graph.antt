-- ===== src/Graph.antt =====
-- crates/protocol/src/lib.rs: `IoTransactionGraph`, `add_node`, `add_edge` and `reachable`.
pub mod Search
pub mod Order
pub mod Build
pub mod Invariant
pub mod Metrics
pub mod Origins
mod Tests
use android_ebpf_studio.Prelude.{
  ℕ, zero, suc, ◌+◌, ◌||◌, Bool, true, false, Option, none, some, List, [], ◌∷◌, ◌++◌, ltb, eqb,
  if◌then◌else◌, length, contains, nat_eq,
}
use android_ebpf_studio.Events.Node.{IoNode, IoEdge, end_or_start}

pub data GraphError : Type 0 where
  duplicate_node duplicate_edge missing_node invalid_time reverse_time : ℕ → GraphError
  cycle : GraphError

pub record IoTransactionGraph : Type 0 where
  pub transaction_id : ℕ
  pub nodes : List IoNode
  pub edges : List IoEdge

pub data GraphResult : Type 0 where
  ok : IoTransactionGraph → GraphResult
  err : GraphError → GraphResult

abbrev pub new : ℕ → IoTransactionGraph
new transaction_id = record { transaction_id = transaction_id; nodes = []; edges = [] }

-- `nodes.iter().find(|value| value.node_id == id)`
abbrev pub find_node : ℕ → List IoNode → Option IoNode
find_node id [] = none
find_node id (n ∷ ns) = if eqb n.node_id id then some n else find_node id ns

-- `nodes.iter().any(|value| value.node_id == id)`
abbrev pub has_node : ℕ → List IoNode → Bool
has_node id [] = false
has_node id (n ∷ ns) = eqb n.node_id id || has_node id ns

abbrev pub has_edge : ℕ → List IoEdge → Bool
has_edge id [] = false
has_edge id (e ∷ es) = eqb e.edge_id id || has_edge id es

pub add_node : IoTransactionGraph → IoNode → GraphResult
add_node g node =
    if ltb (end_or_start node) node.start_ts_ns
    then err (invalid_time node.node_id)
    else if has_node node.node_id g.nodes
    then err (duplicate_node node.node_id)
    else ok (record g { nodes = g.nodes ++ node ∷ [] })

-- The targets of the edges that leave a node, in the order of the edges.
abbrev pub successors : List IoEdge → ℕ → List ℕ
successors [] node = []
successors (e ∷ es) node =
    if eqb e.from_node_id node then e.to_node_id ∷ successors es node else successors es node

-- Queue and set of seen nodes after one round: a node that was seen before adds nothing.
abbrev pub expand : List IoEdge → ℕ → List ℕ → List ℕ → List ℕ × List ℕ
expand edges node queue seen =
    if contains seen node then (queue, seen) else (queue ++ successors edges node, node ∷ seen)

-- The `while` loop of `reachable`; `none` means that the fuel ran out.
pub search : ℕ → List IoEdge → ℕ → List ℕ → List ℕ → Option Bool
search zero edges target queue seen = none
search (suc fuel) edges target [] seen = some false
search (suc fuel) edges target (node ∷ queue) seen =
    let next = expand edges node queue seen in
    let rest = search fuel edges target next.0 next.1 in if eqb node target then some true else rest

abbrev pub is_found : Option Bool → Bool
is_found none = false
is_found (some b) = b

-- Every edge enters the queue at most once: `Search.search-total` shows that the fuel suffices.
pub reachable : IoTransactionGraph → ℕ → ℕ → Bool
unfolding search
reachable g start target = is_found (search (length g.edges + 2) g.edges target (start ∷ []) [])

-- The checks of `add_edge` once both endpoints are found.
abbrev pub link : IoTransactionGraph → IoEdge → Option IoNode → Option IoNode → Bool → GraphResult
link g edge none to closes = err (missing_node edge.from_node_id)
link g edge (some from) none closes = err (missing_node edge.to_node_id)
link g edge (some from) (some to) closes =
    if ltb (end_or_start to) from.start_ts_ns
    then err (reverse_time edge.edge_id)
    else if eqb edge.from_node_id edge.to_node_id || closes
    then err cycle
    else ok (record g { edges = g.edges ++ edge ∷ [] })

-- A missing endpoint is reported before the other checks, the source first; the lookups that the
-- source repeats afterwards cannot fail.
pub add_edge : IoTransactionGraph → IoEdge → GraphResult
unfolding reachable
add_edge g edge =
    if has_edge edge.edge_id g.edges
    then err (duplicate_edge edge.edge_id)
    else link g edge (find_node edge.from_node_id g.nodes) (find_node edge.to_node_id g.nodes)
        (reachable g edge.to_node_id edge.from_node_id)
