-- ===== src/Graph/Origins/Total.antt =====
-- The fuel of `file_origins_for` suffices.
use android_ebpf_studio.Prelude.{
  ℕ, zero, suc, ◌+◌, ◌*◌, ◌≡◌, refl, ◌<◌, false, some, List, [], ◌∷◌, ◌++◌, arith, eqb,
  if◌then◌else◌, length, length-append, contains, nat_eq, pair_eq, inl, inr, Bool-cases,
}
use android_ebpf_studio.Events.Node.{
  IoEdge, EdgeConfidence, confidence_eq, exact, probable, probable_async, context_only,
}
use android_ebpf_studio.Graph.{IoTransactionGraph}
use android_ebpf_studio.Graph.Origins.{Step, predecessors, Walk, visit_step, walk, start_walk}

abbrev unseen : List Step → Step → ℕ
unseen seen at = if contains seen at then 0 else 1

-- In how many confidences a node is not seen yet.
abbrev open_at : List Step → ℕ → ℕ
open_at seen id =
    unseen seen (id, exact)
    + unseen seen (id, probable)
    + unseen seen (id, probable_async)
    + unseen seen (id, context_only)

-- How often edges may still enter the queue.
abbrev pending : List Step → List IoEdge → ℕ
pending seen [] = 0
pending seen (e ∷ es) = open_at seen e.to_node_id + pending seen es

pending-nil : (es : List IoEdge) → pending [] es ≡ 4 * length es
pending-nil [] = refl
pending-nil (e ∷ es) = omega (arith, pending-nil es)

open_at-cons :
    (seen : List Step) (id : ℕ) (c : EdgeConfidence) (to : ℕ)
    → contains seen (id, c) ≡ false
    → open_at ((id, c) ∷ seen) to + (if eqb to id then 1 else 0) ≡ open_at seen to
open_at-cons seen id exact to h = ground arith
open_at-cons seen id probable to h = ground arith
open_at-cons seen id probable_async to h = ground arith
open_at-cons seen id context_only to h = ground arith

pending-cons :
    (seen : List Step) (id : ℕ) (c : EdgeConfidence) (es : List IoEdge)
    → contains seen (id, c) ≡ false
    → pending ((id, c) ∷ seen) es + length (predecessors es id c) ≡ pending seen es
pending-cons seen id c [] h = refl
pending-cons seen id c (e ∷ es) h =
    let here = open_at-cons seen id c e.to_node_id h in
    let rest = pending-cons seen id c es h in
    elim (Bool-cases (eqb e.to_node_id id)) [
      | inl hit ↦ let one = rw hit at here in rw hit (omega arith)
      | inr miss ↦ let none_more = rw miss at here in rw miss (omega arith)
    ]

walk-some :
    (fuel : ℕ) (g : IoTransactionGraph) (queue : List Step) (w : Walk)
    → length queue + pending w.seen g.edges < fuel
    → (r : Walk) × (walk fuel g queue w ≡ some r)
unfolding walk visit_step
walk-some zero g queue w h = absurd (omega arith)
walk-some (suc fuel) g [] w h = (w, refl)
walk-some (suc fuel) g (at ∷ queue) w h = elim (Bool-cases (contains w.seen at)) [
  | inl old ↦ rw old (walk-some fuel g queue (record w { queue = queue }) (omega arith))
  | inr fresh ↦ rw fresh (
      walk-some fuel g (queue ++ predecessors g.edges at.0 at.1) _ (
        omega (
          arith,
          pending-cons w.seen at.0 at.1 g.edges fresh,
          length-append queue (predecessors g.edges at.0 at.1),
        )))
]

-- The walk from any node ends within the fuel that `file_origins_for` gives it.
pub walk-total :
    (g : IoTransactionGraph) (node_id : ℕ)
    → (r : Walk) × (walk (4 * length g.edges + 2) g ((node_id, exact) ∷ []) (start_walk node_id)
        ≡ some r)
walk-total g node_id =
    walk-some (4 * length g.edges + 2) g ((node_id, exact) ∷ []) (start_walk node_id)
      (omega (arith, pending-nil g.edges))
