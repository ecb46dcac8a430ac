-- ===== src/Graph/Origins/Best.antt =====
-- `file_origins_for` finds, for each file, the best confidence of a path back to it.
use android_ebpf_studio.Prelude.{
  ℕ, zero, suc, ◌≡◌, refl, sym, ap, subst, ◌⊎◌, inl, inr, Bool, Option, none, some, List, [], ◌∷◌,
  ◌++◌, contains, contains-IsIn, nat_eq, pair_eq, IsIn, IsIn-append_left, IsIn-append_right,
  IsIn-append_cases, Bool-cases,
}
use android_ebpf_studio.Events.File.{FileIdentity, identity_eq}
use android_ebpf_studio.Events.Node.{IoNode, EdgeConfidence, confidence_eq, exact, FileOriginView}
use android_ebpf_studio.Graph.{IoTransactionGraph, find_node}
use android_ebpf_studio.Graph.Origins.{
  Step, predecessors, Walk, visit_step, walk, start_walk, merge_file, merge_found, candidate_view,
  mark, file_origins_for,
}
use android_ebpf_studio.Graph.Origins.Total.{walk-total}
use android_ebpf_studio.Graph.Origins.Ways.{
  Traces, at_start, back, Shows, predecessors-edge, edge-predecessors, step_along,
  origin_confidence-LevelOf, LevelOf-unique,
}
use android_ebpf_studio.Graph.Origins.Merged.{
  Covers, merge_origin-cases, merge_origin-new, merge_found-old,
}

module _ (g : IoTransactionGraph) where
  merge_found-new :
      (at : Step) (os : List FileOriginView) (file : FileIdentity) (k : EdgeConfidence)
      → Shows g at file k
      → Covers (merge_found g.edges (find_node at.0 g.nodes) at.1 os) file k
  merge_found-new at os file k (n, found, owns, level) =
      rw (found, owns, LevelOf-unique g.edges n.node_id at.1 k level)
        (merge_origin-new (candidate_view g.edges n file at.1) os)

  merge_found_sound :
      (at : Step) (o : Option IoNode) (os : List FileOriginView) (v : FileOriginView)
      → find_node at.0 g.nodes ≡ o
      → IsIn v (merge_found g.edges o at.1 os)
      → Shows g at v.file v.confidence ⊎ IsIn v os
  merge_found_sound at none os v e i = inr i
  merge_found_sound at (some n) os v e i = go n.file refl i
    where
      go :
          (f : Option FileIdentity)
          → n.file ≡ f
          → IsIn v (merge_file g.edges n f at.1 os)
          → Shows g at v.file v.confidence ⊎ IsIn v os
      go none owns j = inr j
      go (some f) owns j = elim (merge_origin-cases (candidate_view g.edges n f at.1) os v j) [
        | inl new ↦ inl (
            subst (λ (x : FileOriginView). Shows g at x.file x.confidence) new
              (n, e, owns, origin_confidence-LevelOf g.edges n.node_id at.1))
        | inr old ↦ inr old
      ]

  module _ (start : ℕ) where
    -- What holds between the rounds of the walk.
    record IsSound (queue seen : List Step) (origins : List FileOriginView) : Type 0 where
      traced : (x : Step) → IsIn x seen ⊎ IsIn x queue → Traces g.edges start x
      onward :
          (x y : Step)
          → IsIn x seen
          → IsIn y (predecessors g.edges x.0 x.1)
          → IsIn y seen ⊎ IsIn y queue
      begun : IsIn (start, exact) seen ⊎ IsIn (start, exact) queue
      sound :
          (v : FileOriginView)
          → IsIn v origins
          → (x : Step) × Traces g.edges start x × Shows g x v.file v.confidence
      complete :
          (x : Step) (file : FileIdentity) (c : EdgeConfidence)
          → IsIn x seen
          → Shows g x file c
          → Covers origins file c

    skip :
        (at x : Step) (queue seen : List Step)
        → IsIn at seen
        → IsIn x seen ⊎ IsIn x (at ∷ queue)
        → IsIn x seen ⊎ IsIn x queue
    skip at x queue seen s (inl i) = inl i
    skip at x queue seen s (inr (inl e)) = inl (subst (λ y. IsIn y seen) e s)
    skip at x queue seen s (inr (inr i)) = inr i

    skip-IsSound :
        (at : Step) (queue seen : List Step) (origins : List FileOriginView)
        → IsIn at seen
        → IsSound (at ∷ queue) seen origins
        → IsSound queue seen origins
    skip-IsSound at queue seen origins s v = record {
      traced = λ x i. v.traced x (widen x i);
      onward = λ x y i p. skip at y queue seen s (v.onward x y i p);
      begun = skip at (start, exact) queue seen s v.begun;
      sound = v.sound;
      complete = v.complete;
    }
      where
        widen : (x : Step) → IsIn x seen ⊎ IsIn x queue → IsIn x seen ⊎ IsIn x (at ∷ queue)
        widen x (inl i) = inl i
        widen x (inr i) = inr (inr i)

    visit-IsSound :
        (at : Step) (queue seen : List Step) (origins : List FileOriginView)
        → IsSound (at ∷ queue) seen origins
        → IsSound
            (queue ++ predecessors g.edges at.0 at.1)
            (at ∷ seen)
            (merge_found g.edges (find_node at.0 g.nodes) at.1 origins)
    visit-IsSound at queue seen origins v = record {
      traced = traced;
      onward = onward;
      begun = wait (start, exact) v.begun;
      sound = sound;
      complete = complete;
    }
      where
        found : List Step
        found = predecessors g.edges at.0 at.1

        wait :
            (x : Step)
            → IsIn x seen ⊎ IsIn x (at ∷ queue)
            → IsIn x (at ∷ seen) ⊎ IsIn x (queue ++ found)
        wait x (inl i) = inl (inr i)
        wait x (inr (inl e)) = inl (inl e)
        wait x (inr (inr i)) = inr (IsIn-append_left x queue found i)

        traced : (x : Step) → IsIn x (at ∷ seen) ⊎ IsIn x (queue ++ found) → Traces g.edges start x
        traced x (inl (inl e)) = v.traced x (inr (inl e))
        traced x (inl (inr i)) = v.traced x (inl i)
        traced x (inr i) = elim (IsIn-append_cases x queue found i) [
          | inl q ↦ v.traced x (inr (inr q))
          | inr p ↦
              let (f, j, into, from, level) = predecessors-edge g.edges at.0 at.1 x p in
              back f (v.traced at (inr (inl refl))) j into from level
        ]

        onward :
            (x y : Step)
            → IsIn x (at ∷ seen)
            → IsIn y (predecessors g.edges x.0 x.1)
            → IsIn y (at ∷ seen) ⊎ IsIn y (queue ++ found)
        onward x y (inl e) p = inr (
            IsIn-append_right y queue found
              (subst (λ (z : Step). IsIn y (predecessors g.edges z.0 z.1)) (sym e) p))
        onward x y (inr i) p = wait y (v.onward x y i p)

        sound :
            (w : FileOriginView)
            → IsIn w (merge_found g.edges (find_node at.0 g.nodes) at.1 origins)
            → (x : Step) × Traces g.edges start x × Shows g x w.file w.confidence
        sound w i = elim (merge_found_sound at (find_node at.0 g.nodes) origins w refl i) [
          | inl shows ↦ (at, v.traced at (inr (inl refl)), shows)
          | inr old ↦ v.sound w old
        ]

        complete :
            (x : Step) (file : FileIdentity) (c : EdgeConfidence)
            → IsIn x (at ∷ seen)
            → Shows g x file c
            → Covers (merge_found g.edges (find_node at.0 g.nodes) at.1 origins) file c
        complete x file c (inl e) shows =
            merge_found-new at origins file c (subst (λ z. Shows g z file c) (sym e) shows)
        complete x file c (inr i) shows =
            merge_found-old g.edges (find_node at.0 g.nodes) at.1 origins file c
              (v.complete x file c i shows)

    walk-IsSound :
        (fuel : ℕ) (queue : List Step) (w r : Walk)
        → IsSound queue w.seen w.origins
        → walk fuel g queue w ≡ some r
        → IsSound [] r.seen r.origins
    unfolding walk visit_step
    walk-IsSound zero queue w r v e = cc
    walk-IsSound (suc fuel) [] w r v e =
        let same : w ≡ r = cc in subst (λ (z : Walk). IsSound [] z.seen z.origins) same v
    walk-IsSound (suc fuel) (at ∷ queue) w r v e = elim (Bool-cases (contains w.seen at)) [
      | inl old ↦
          walk-IsSound fuel queue (record w { queue = queue }) r
            (skip-IsSound at queue w.seen w.origins (contains-IsIn w.seen at old) v) (rw old at e)
      | inr fresh ↦
          walk-IsSound fuel (queue ++ predecessors g.edges at.0 at.1) _ r
            (visit-IsSound at queue w.seen w.origins v) (rw fresh at e)
    ]

    start-IsSound : IsSound ((start, exact) ∷ []) [] []
    start-IsSound = record {
      traced = first;
      onward = λ x y i p. absurd i;
      begun = inr (inl refl);
      sound = λ v i. absurd i;
      complete = λ x file c i shows. absurd i;
    }
      where
        first : (x : Step) → IsIn x [] ⊎ IsIn x ((start, exact) ∷ []) → Traces g.edges start x
        first x (inl i) = absurd i
        first x (inr (inl e)) = at_start (sym e)
        first x (inr (inr i)) = absurd i

    Traces-IsIn :
        (seen : List Step) (origins : List FileOriginView)
        → IsSound [] seen origins
        → {x : Step} → Traces g.edges start x
        → IsIn x seen
    Traces-IsIn seen origins v (at_start e) = elim v.begun [
      | inl i ↦ subst (λ z. IsIn z seen) (sym e) i
      | inr i ↦ absurd i
    ]
    Traces-IsIn seen origins v (back {x = x} {y = y} f t j into from level) =
        let p =
          subst (λ (z : Step). IsIn z (predecessors g.edges x.0 x.1))
            (step_along x.1 f y from level) (edge-predecessors g.edges x.0 x.1 f j into) in
        elim (v.onward x y (Traces-IsIn seen origins v t) p) [ inl i ↦ i | inr i ↦ absurd i ]

mark-from :
    (b : Bool) (os : List FileOriginView) (v : FileOriginView)
    → IsIn v (mark b os)
    → (o : FileOriginView) × IsIn o os × (v.file ≡ o.file) × (v.confidence ≡ o.confidence)
mark-from b [] v i = absurd i
mark-from b (o ∷ os) v (inl e) = (
  o,
  inl refl,
  ap (λ (x : FileOriginView). x.file) (sym e),
  ap (λ (x : FileOriginView). x.confidence) (sym e),
)
mark-from b (o ∷ os) v (inr i) =
    let (w, j, file, level) = mark-from b os v i in (w, inr j, file, level)

mark-IsIn :
    (b : Bool) (os : List FileOriginView) (o : FileOriginView)
    → IsIn o os
    → IsIn (record o { incomplete = b }) (mark b os)
mark-IsIn b [] o i = absurd i
mark-IsIn b (w ∷ os) o (inl e) = inl (ap (λ (x : FileOriginView). record x { incomplete = b }) e)
mark-IsIn b (w ∷ os) o (inr i) = inr (mark-IsIn b os o i)

-- Each of the origins is the file of a node from which edges lead to the start, with the weakest
-- confidence of those edges; and each way back to a node with a file is covered by an origin.
abbrev pub AreBest : IoTransactionGraph → ℕ → List FileOriginView → Type 0
AreBest g start found =
    ((v : FileOriginView)
      → IsIn v found
      → (x : Step) × Traces g.edges start x × Shows g x v.file v.confidence)
    × ((x : Step) (file : FileIdentity) (c : EdgeConfidence)
        → Traces g.edges start x
        → Shows g x file c
        → Covers found file c)

-- Every origin that is found for a node is the file of a node from which edges lead to it, with the
-- weakest confidence of those edges, and at most probable where the path of the file was inferred;
-- and for every way back to a node with a file, that file is found with at least this confidence.
pub file_origins_for-best :
    (g : IoTransactionGraph) (start : ℕ) → AreBest g start (file_origins_for g start)
unfolding file_origins_for
file_origins_for-best g start =
    let (r, ends) = walk-total g start in
    let v =
      walk-IsSound g start _ ((start, exact) ∷ []) (start_walk start) r (start-IsSound g start)
        ends in
    rw ends (
      λ w i.
          let (o, j, file, level) = mark-from r.incomplete r.origins w i in
          let (x, t, shows) = v.sound o j in (x, t, rw (file, level) shows),
      λ x file c t shows.
          let (o, j, of_file, best) =
            v.complete x file c (Traces-IsIn g start r.seen r.origins v t) shows in
          (
            record o { incomplete = r.incomplete },
            mark-IsIn r.incomplete r.origins o j,
            of_file,
            best,
          ),
    )
