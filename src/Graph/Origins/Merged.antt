-- ===== src/Graph/Origins/Merged.antt =====
-- What `file_origins_for` looks for, and how an origin is merged into those that are there
-- (crates/protocol/src/lib.rs).
use android_ebpf_studio.Prelude.{
  ◌≡◌, refl, sym, ◌∙◌, ap, ◌≤◌, ◌⊎◌, inl, inr, Option, none, some, List, [], ◌∷◌, arith, ltb, ◌==◌,
  nat_eq, pair_eq, IsIn, Bool-cases,
}
use android_ebpf_studio.Events.File.{FileIdentity, identity_eq}
use android_ebpf_studio.Events.Node.{
  IoNode, IoEdge, EdgeConfidence, confidence_eq, rank, FileOriginView,
}
use android_ebpf_studio.Graph.Origins.{
  merge_origin, merge_file, merge_found, candidate_view, identity_lt,
}

-- A view of the file that is at least as good.
abbrev pub Covers : List FileOriginView → FileIdentity → EdgeConfidence → Type 0
Covers views file confidence =
    (v : FileOriginView) × IsIn v views × (v.file ≡ file) × (rank confidence ≤ rank v.confidence)

cons-Covers :
    (o : FileOriginView) (os : List FileOriginView) (file : FileIdentity) (c : EdgeConfidence)
    → Covers os file c
    → Covers (o ∷ os) file c
cons-Covers o os file c (v, i, same, best) = (v, inr i, same, best)

pub merge_origin-cases :
    (c : FileOriginView) (os : List FileOriginView) (v : FileOriginView)
    → IsIn v (merge_origin c os)
    → (c ≡ v) ⊎ IsIn v os
unfolding merge_origin
merge_origin-cases c [] v (inl e) = inl e
merge_origin-cases c [] v (inr i) = absurd i
merge_origin-cases c (o ∷ os) v i = ground (arith, merge_origin-cases c os v)

pub merge_origin-new :
    (c : FileOriginView) (os : List FileOriginView) → Covers (merge_origin c os) c.file c.confidence
unfolding merge_origin
merge_origin-new c [] = (c, inl refl, refl, omega arith)
merge_origin-new c (o ∷ os) = elim (Bool-cases (o.file == c.file)) [
  | inl same ↦ elim (Bool-cases (ltb (rank o.confidence) (rank c.confidence))) [
    | inl better ↦ rw (same, better) (c, inl refl, refl, omega arith)
    | inr worse ↦
        rw (same, worse) (o, inl refl, (identity_eq.decides o.file c.file).0 same, ground arith)
  ]
  | inr other ↦ elim (Bool-cases (identity_lt c.file o.file)) [
    | inl before ↦ rw (other, before) (c, inl refl, refl, omega arith)
    | inr after ↦
        rw (other, after)
          (cons-Covers o (merge_origin c os) c.file c.confidence (merge_origin-new c os))
  ]
]

merge_origin-old :
    (c : FileOriginView) (os : List FileOriginView) (file : FileIdentity) (k : EdgeConfidence)
    → Covers os file k
    → Covers (merge_origin c os) file k
unfolding merge_origin
merge_origin-old c [] file k (v, i, same, best) = absurd i
merge_origin-old c (o ∷ os) file k (v, i, of_file, best) = elim (Bool-cases (o.file == c.file)) [
  | inl same ↦ elim (Bool-cases (ltb (rank o.confidence) (rank c.confidence))) [
    | inl better ↦
        rw (same, better) (replaced ((identity_eq.decides o.file c.file).0 same) (ground arith) i)
    | inr worse ↦ rw (same, worse) (v, i, of_file, best)
  ]
  | inr other ↦ elim (Bool-cases (identity_lt c.file o.file)) [
    | inl before ↦ rw (other, before) (v, inr i, of_file, best)
    | inr after ↦ rw (other, after) (kept (merge_origin-old c os file k) i)
  ]
]
  where
    replaced :
        o.file ≡ c.file
        → rank o.confidence ≤ rank c.confidence
        → (o ≡ v) ⊎ IsIn v os
        → Covers (c ∷ os) file k
    replaced same better (inl e) =
        let level = ap (λ (x : FileOriginView). rank x.confidence) e in
        (c, inl refl, sym same ∙ ap (λ (x : FileOriginView). x.file) e ∙ of_file, omega arith)
    replaced same better (inr j) = (v, inr j, of_file, best)

    kept :
        (Covers os file k → Covers (merge_origin c os) file k)
        → (o ≡ v) ⊎ IsIn v os
        → Covers (o ∷ merge_origin c os) file k
    kept older (inl e) = (v, inl e, of_file, best)
    kept older (inr j) = cons-Covers o (merge_origin c os) file k (older (v, j, of_file, best))

pub merge_found-old :
    (es : List IoEdge) (o : Option IoNode) (c : EdgeConfidence) (os : List FileOriginView)
    (file : FileIdentity) (k : EdgeConfidence)
    → Covers os file k
    → Covers (merge_found es o c os) file k
merge_found-old es none c os file k h = h
merge_found-old es (some n) c os file k h = go n.file
  where
    go : (f : Option FileIdentity) → Covers (merge_file es n f c os) file k
    go none = h
    go (some f) = merge_origin-old (candidate_view es n f c) os file k h
