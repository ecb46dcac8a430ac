-- ===== src/Graph/Origins.antt =====
-- `IoTransactionGraph::file_origins_for`: the files that a node goes back to, each with the best
-- confidence of a path (crates/protocol/src/lib.rs).
pub mod Total
pub mod Ways
pub mod Merged
pub mod Best
use android_ebpf_studio.Prelude.{
  ℕ, zero, suc, ◌+◌, ◌*◌, ◌&&◌, ◌||◌, Bool, true, false, Option, none, some, List, [], ◌∷◌, ◌++◌,
  ltb, eqb, if◌then◌else◌, length, contains, Eq, ◌==◌, nat_eq, pair_eq, list_eq, option_eq,
}
use android_ebpf_studio.Events.Block.{Text}
use android_ebpf_studio.Events.File.{FileIdentity, identity_eq}
use android_ebpf_studio.Events.Node.{
  IoNode, IoEdge, EdgeConfidence, confidence_eq, exact, probable, rank, weakest,
  CorrelationEvidence, FileOriginView,
}
use android_ebpf_studio.Events.Text.{incomplete_match, inferred_match}
use android_ebpf_studio.Graph.{IoTransactionGraph, find_node}

-- The derived order of optional numbers, `None` first.
abbrev option_lt : Option ℕ → Option ℕ → Bool
option_lt none none = false
option_lt none (some b) = true
option_lt (some a) none = false
option_lt (some a) (some b) = ltb a b

-- The derived order of file identities, field by field.
unfoldable pub identity_lt : FileIdentity → FileIdentity → Bool
identity_lt a b =
    ltb a.fs_device_major b.fs_device_major
    || a.fs_device_major == b.fs_device_major
      && (ltb a.fs_device_minor b.fs_device_minor
          || a.fs_device_minor == b.fs_device_minor
            && (ltb a.inode b.inode
                || a.inode == b.inode
                  && (option_lt a.inode_generation b.inode_generation
                      || a.inode_generation == b.inode_generation
                        && option_lt a.mount_id b.mount_id)))

-- `evidence.iter().any(|evidence| evidence.match_type == text)`
abbrev pub any_match : Text → List CorrelationEvidence → Bool
any_match text [] = false
any_match text (e ∷ es) = e.match_type == text || any_match text es

abbrev pub leaves_inferred : List IoEdge → ℕ → Bool
leaves_inferred [] id = false
leaves_inferred (e ∷ es) id =
    eqb e.from_node_id id && any_match inferred_match e.evidence || leaves_inferred es id

-- The confidence of a node's file: an inferred path makes it at most probable.
abbrev pub origin_confidence : List IoEdge → ℕ → EdgeConfidence → EdgeConfidence
origin_confidence edges id confidence =
    if leaves_inferred edges id then weakest confidence probable else confidence

abbrev pub candidate_view : List IoEdge → IoNode → FileIdentity → EdgeConfidence → FileOriginView
candidate_view edges node file confidence = record {
  file = file;
  path = node.path;
  confidence = origin_confidence edges node.node_id confidence;
  incomplete = false;
}

-- `entry(file).and_modify(..).or_insert(candidate)` on the map of origins, in the order of the files.
unfoldable pub merge_origin : FileOriginView → List FileOriginView → List FileOriginView
merge_origin candidate [] = candidate ∷ []
merge_origin candidate (o ∷ os) =
    if o.file == candidate.file
    then (if ltb (rank o.confidence) (rank candidate.confidence) then candidate else o) ∷ os
    else if identity_lt candidate.file o.file
    then candidate ∷ o ∷ os
    else o ∷ merge_origin candidate os

abbrev merge_file :
    List IoEdge
    → IoNode
    → Option FileIdentity
    → EdgeConfidence
    → List FileOriginView
    → List FileOriginView
merge_file edges node none confidence origins = origins
merge_file edges node (some file) confidence origins =
    merge_origin (candidate_view edges node file confidence) origins

-- The origins after the node `id` is reached.
abbrev pub merge_found :
    List IoEdge → Option IoNode → EdgeConfidence → List FileOriginView → List FileOriginView
merge_found edges none confidence origins = origins
merge_found edges (some node) confidence origins =
    merge_file edges node node.file confidence origins

abbrev pub Step : Type 0
Step = ℕ × EdgeConfidence

-- The sources of the edges into a node, each with the weakest confidence so far.
abbrev pub predecessors : List IoEdge → ℕ → EdgeConfidence → List Step
predecessors [] id confidence = []
predecessors (e ∷ es) id confidence =
    if eqb e.to_node_id id
    then (e.from_node_id, weakest confidence e.confidence) ∷ predecessors es id confidence
    else predecessors es id confidence

abbrev enters_incomplete : List IoEdge → ℕ → Bool
enters_incomplete [] id = false
enters_incomplete (e ∷ es) id =
    eqb e.to_node_id id && any_match incomplete_match e.evidence || enters_incomplete es id

-- The variables of the loop.
pub record Walk : Type 0 where
  pub queue : List Step
  pub incomplete : Bool
  pub seen : List Step
  pub origins : List FileOriginView

-- One round of the `while` loop, for the step that was taken from the queue.
unfoldable pub visit_step : IoTransactionGraph → Step → Walk → Walk
visit_step g at w = if contains w.seen at then w else record {
  queue = w.queue ++ predecessors g.edges at.0 at.1;
  incomplete = w.incomplete || enters_incomplete g.edges at.0;
  seen = at ∷ w.seen;
  origins = merge_found g.edges (find_node at.0 g.nodes) at.1 w.origins;
}

-- `none` means that the fuel ran out.
unfoldable pub walk : ℕ → IoTransactionGraph → List Step → Walk → Option Walk
walk zero g queue w = none
walk (suc fuel) g [] w = some w
walk (suc fuel) g (at ∷ queue) w =
    let next = visit_step g at (record w { queue = queue }) in walk fuel g next.queue next

abbrev pub mark : Bool → List FileOriginView → List FileOriginView
mark incomplete [] = []
mark incomplete (o ∷ os) = record o { incomplete = incomplete } ∷ mark incomplete os

abbrev origins_of : Option Walk → List FileOriginView
origins_of none = []
origins_of (some w) = mark w.incomplete w.origins

abbrev pub start_walk : ℕ → Walk
start_walk node_id = record {
  queue = (node_id, exact) ∷ [];
  incomplete = false;
  seen = [];
  origins = [];
}

-- Each edge enters the queue at most once for each of the four confidences:
-- `Origins.Total.walk-total` shows that the fuel suffices.
unfoldable pub file_origins_for : IoTransactionGraph → ℕ → List FileOriginView
file_origins_for g node_id =
    origins_of (walk (4 * length g.edges + 2) g ((node_id, exact) ∷ []) (start_walk node_id))
