-- ===== src/Graph/Origins/Ways.antt =====
-- The ways back from a node along edges, and the confidence that a way gives to a file: what
-- `file_origins_for` has to find (crates/protocol/src/lib.rs).
use android_ebpf_studio.Prelude.{
  ℕ, ◌≡◌, refl, sym, ◌∙◌, ap, subst, ◌⊎◌, ◌&&◌, inl, inr, min, true, List, [], ◌∷◌, arith, eqb,
  ◌==◌, nat_eq, list_eq, IsIn, Bool-cases, some,
}
use android_ebpf_studio.Events.Block.{Text}
use android_ebpf_studio.Events.File.{FileIdentity}
use android_ebpf_studio.Events.Node.{
  IoNode, IoEdge, EdgeConfidence, exact, probable, probable_async, context_only, rank, weakest,
  CorrelationEvidence,
}
use android_ebpf_studio.Events.Node.Weakest.{rank-weakest}
use android_ebpf_studio.Events.Text.{inferred_match}
use android_ebpf_studio.Graph.{IoTransactionGraph, find_node}
use android_ebpf_studio.Graph.Origins.{
  Step, predecessors, any_match, leaves_inferred, origin_confidence,
}

-- A step that goes back from `start` along edges, with the least confidence of the edges, from an
-- exact start.
pub data Traces (es : List IoEdge) (start : ℕ) : Step → Type 0 where
  at_start : {x : Step} → x ≡ (start, exact) → Traces es start x
  back :
      {x y : Step} (e : IoEdge)
      → Traces es start x
      → IsIn e es
      → e.to_node_id ≡ x.0
      → y.0 ≡ e.from_node_id
      → rank y.1 ≡ min (rank x.1) (rank e.confidence)
      → Traces es start y

-- An edge that leaves the node has the evidence of an inferred path.
abbrev IsInferred : List IoEdge → ℕ → Type 0
IsInferred es id =
    (e : IoEdge) × IsIn e es
    × (e.from_node_id ≡ id)
    × (v : CorrelationEvidence) × IsIn v e.evidence
    × (v.match_type ≡ inferred_match)

-- The confidence of a file at the end of a way: at most probable where its path was inferred.
abbrev LevelOf : List IoEdge → ℕ → EdgeConfidence → EdgeConfidence → Type 0
LevelOf es id along level =
    (IsInferred es id × (rank level ≡ min (rank along) (rank probable)))
    ⊎ (¬ IsInferred es id × (level ≡ along))

-- The step stands at a node with the file, whose origin has the confidence.
abbrev pub Shows : IoTransactionGraph → Step → FileIdentity → EdgeConfidence → Type 0
Shows g x file confidence =
    (n : IoNode) × (find_node x.0 g.nodes ≡ some n)
    × (n.file ≡ some file)
    × LevelOf g.edges n.node_id x.1 confidence

rank_differ : (a b : EdgeConfidence) → rank a ≡ rank b → a ≡ b
unfolding rank
rank_differ exact b e = ground arith
rank_differ probable b e = ground arith
rank_differ probable_async b e = ground arith
rank_differ context_only b e = ground arith

-- The steps before a step are those along the edges that lead to its node.
pub predecessors-edge :
    (es : List IoEdge) (id : ℕ) (c : EdgeConfidence) (y : Step)
    → IsIn y (predecessors es id c)
    → (e : IoEdge) × IsIn e es
      × (e.to_node_id ≡ id)
      × (y.0 ≡ e.from_node_id)
      × (rank y.1 ≡ min (rank c) (rank e.confidence))
predecessors-edge [] id c y i = absurd i
predecessors-edge (e ∷ es) id c y i = elim (Bool-cases (eqb e.to_node_id id)) [
  | inl into ↦ elim (rw into at i) [
    | inl here ↦ (
      e,
      inl refl,
      ground arith,
      ap (λ (x : Step). x.0) (sym here),
      ap (λ (x : Step). rank x.1) (sym here) ∙ rank-weakest c e.confidence,
    )
    | inr j ↦
        let (f, k, into_it, from, level) = predecessors-edge es id c y j in
        (f, inr k, into_it, from, level)
  ]
  | inr past ↦
      let (f, k, into_it, from, level) = predecessors-edge es id c y (rw past at i) in
      (f, inr k, into_it, from, level)
]

pub edge-predecessors :
    (es : List IoEdge) (id : ℕ) (c : EdgeConfidence) (e : IoEdge)
    → IsIn e es
    → e.to_node_id ≡ id
    → IsIn (e.from_node_id, weakest c e.confidence) (predecessors es id c)
edge-predecessors [] id c e i into = absurd i
edge-predecessors (f ∷ es) id c e (inl same) into =
    let here : eqb f.to_node_id id ≡ true =
      ground (arith, ap (λ (x : IoEdge). x.to_node_id) same) in
    rw here (inl (ap (λ (x : IoEdge). (x.from_node_id, weakest c x.confidence)) same))
edge-predecessors (f ∷ es) id c e (inr i) into =
    let rest = edge-predecessors es id c e i into in
    elim (Bool-cases (eqb f.to_node_id id)) [
      | inl here ↦ rw here (inr rest)
      | inr past ↦ rw past rest
    ]

pub step_along :
    (c : EdgeConfidence) (e : IoEdge) (y : Step)
    → y.0 ≡ e.from_node_id
    → rank y.1 ≡ min (rank c) (rank e.confidence)
    → (e.from_node_id, weakest c e.confidence) ≡ y
step_along c e (n, d) from level =
    let same : weakest c e.confidence ≡ d =
      rank_differ (weakest c e.confidence) d (rank-weakest c e.confidence ∙ sym level) in
    ap (λ (k : ℕ). (k, weakest c e.confidence)) (sym from)
    ∙ ap (λ (k : EdgeConfidence). (n, k)) same

any_match-IsIn :
    (text : Text) (vs : List CorrelationEvidence)
    → any_match text vs ≡ true
    → (v : CorrelationEvidence) × IsIn v vs × (v.match_type ≡ text)
any_match-IsIn text [] h = cc
any_match-IsIn text (w ∷ vs) h = elim (Bool-cases (w.match_type == text)) [
  | inl same ↦ (w, inl refl, (list_eq.decides w.match_type text).0 same)
  | inr other ↦ let (v, i, e) = any_match-IsIn text vs (rw other at h) in (v, inr i, e)
]

any_match-found :
    (text : Text) (vs : List CorrelationEvidence) (v : CorrelationEvidence)
    → IsIn v vs
    → v.match_type ≡ text
    → any_match text vs ≡ true
any_match-found text [] v i e = absurd i
any_match-found text (w ∷ vs) v (inl same) e =
    rw
      ((list_eq.decides w.match_type text).1
        (ap (λ (x : CorrelationEvidence). x.match_type) same ∙ e))
      refl
any_match-found text (w ∷ vs) v (inr i) e = let rest = any_match-found text vs v i e in ground arith

leaves_inferred-IsInferred :
    (es : List IoEdge) (id : ℕ) → leaves_inferred es id ≡ true → IsInferred es id
leaves_inferred-IsInferred [] id h = cc
leaves_inferred-IsInferred (e ∷ es) id h =
    elim (Bool-cases (eqb e.from_node_id id && any_match inferred_match e.evidence)) [
      | inl here ↦
          let (v, i, named) = any_match-IsIn inferred_match e.evidence (ground arith) in
          (e, inl refl, ground arith, v, i, named)
      | inr other ↦
          let (f, j, from, v, i, named) = leaves_inferred-IsInferred es id (rw other at h) in
          (f, inr j, from, v, i, named)
    ]

IsInferred-leaves_inferred :
    (es : List IoEdge) (id : ℕ) → IsInferred es id → leaves_inferred es id ≡ true
IsInferred-leaves_inferred [] id (f, j, from, v, i, named) = absurd j
IsInferred-leaves_inferred (e ∷ es) id (f, inl same, from, v, i, named) =
    let left : e.from_node_id ≡ id = ap (λ (x : IoEdge). x.from_node_id) same ∙ from in
    let found =
      any_match-found inferred_match e.evidence v
        (subst (λ (x : IoEdge). IsIn v x.evidence) (sym same) i) named in
    ground arith
IsInferred-leaves_inferred (e ∷ es) id (f, inr j, from, v, i, named) =
    let rest = IsInferred-leaves_inferred es id (f, j, from, v, i, named) in ground arith

pub origin_confidence-LevelOf :
    (es : List IoEdge) (id : ℕ) (c : EdgeConfidence) → LevelOf es id c (origin_confidence es id c)
origin_confidence-LevelOf es id c = elim (Bool-cases (leaves_inferred es id)) [
  | inl inferred ↦
      rw inferred (inl (leaves_inferred-IsInferred es id inferred, rank-weakest c probable))
  | inr known ↦ rw known (inr ((λ i. cc (IsInferred-leaves_inferred es id i)), refl))
]

pub LevelOf-unique :
    (es : List IoEdge) (id : ℕ) (c d : EdgeConfidence)
    → LevelOf es id c d
    → d ≡ origin_confidence es id c
LevelOf-unique es id c d (inl (i, e)) =
    rw (IsInferred-leaves_inferred es id i)
      (rank_differ d (weakest c probable) (e ∙ sym (rank-weakest c probable)))
LevelOf-unique es id c d (inr (n, e)) = elim (Bool-cases (leaves_inferred es id)) [
  | inl inferred ↦ absurd (n (leaves_inferred-IsInferred es id inferred))
  | inr known ↦ rw known e
]
