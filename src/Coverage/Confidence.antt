-- ===== src/Coverage/Confidence.antt =====
-- What the confidence of a set of origins says (`FilePathConfidence::from_origins`).
use android_ebpf_studio.Prelude.{
  ℕ, ◌≡◌, refl, ◌≢◌, ◌⊎◌, inl, inr, ◌↔◌, ◌||◌, true, false, List, [], ◌∷◌, ◌++◌, arith,
  if◌then◌else◌, Bool-cases, min,
}
use android_ebpf_studio.Events.Node.{FileOriginView, EdgeConfidence, confidence_eq}
use android_ebpf_studio.Coverage.{
  FilePathConfidence, probable, unresolved, is_weak, path_missing, any_origin, all_exact,
  from_origins,
}

abbrev AllOrigins : (FileOriginView → Type 0) → List FileOriginView → Type 0
AllOrigins P [] = Unit {0}
AllOrigins P (o ∷ os) = P o × AllOrigins P os

-- A complete origin with a path that is known and not empty, and causal evidence.
pub record IsResolved (o : FileOriginView) : Type 0 where
  pub complete : o.incomplete ≡ false
  pub named : path_missing o.path ≡ false
  pub causal : o.confidence ≢ EdgeConfidence.context_only

any_weak_iff :
    (os : List FileOriginView) → (any_origin is_weak os ≡ false) ↔ AllOrigins IsResolved os
any_weak_iff [] = ((λ _. tt), λ _. refl)
any_weak_iff (o ∷ os) =
    ground (arith, any_weak_iff os, confidence_eq.decides o.confidence EdgeConfidence.context_only)

all_exact_iff :
    (os : List FileOriginView)
    → (all_exact os ≡ true) ↔ AllOrigins (λ o. o.confidence ≡ EdgeConfidence.exact) os
all_exact_iff [] = ((λ _. tt), λ _. refl)
all_exact_iff (o ∷ os) =
    ground (arith, all_exact_iff os, confidence_eq.decides o.confidence EdgeConfidence.exact)

abbrev pub Classified : List FileOriginView → FilePathConfidence → Type 0
Classified os FilePathConfidence.exact =
    (os ≢ []) × AllOrigins IsResolved os × AllOrigins (λ o. o.confidence ≡ EdgeConfidence.exact) os
Classified os probable =
    (os ≢ [])
    × AllOrigins IsResolved os
    × ¬ AllOrigins (λ o. o.confidence ≡ EdgeConfidence.exact) os
Classified os unresolved = (os ≡ []) ⊎ ¬ AllOrigins IsResolved os

-- `from_origins` says exact when there are origins and all of them are complete, with a non-empty
-- path and exact confidence; probable when all are complete, with such a path and causal evidence,
-- but not all are exact; and unresolved when there is no origin or one that is not resolved.
pub from_origins-Classified : (os : List FileOriginView) → Classified os (from_origins os)
unfolding from_origins
from_origins-Classified [] = inl refl
from_origins-Classified (o ∷ os) = elim (Bool-cases (any_origin is_weak (o ∷ os))) [
  | inl weak ↦ rw weak (inr (λ a. cc ((any_weak_iff (o ∷ os)).1 a)))
  | inr strong ↦ elim (Bool-cases (all_exact (o ∷ os))) [
    | inl all ↦
        rw (strong, all) (λ e. cc, (any_weak_iff (o ∷ os)).0 strong, (all_exact_iff (o ∷ os)).0 all)
    | inr some_not ↦
        rw (strong, some_not)
          (λ e. cc, (any_weak_iff (o ∷ os)).0 strong, λ a. cc ((all_exact_iff (o ∷ os)).1 a))
  ]
]

any_weak-append :
    (os ps : List FileOriginView)
    → any_origin is_weak (os ++ ps) ≡ (any_origin is_weak os || any_origin is_weak ps)
any_weak-append [] ps = refl
any_weak-append (o ∷ os) ps = ground (arith, any_weak-append os ps)

all_exact-append :
    (os ps : List FileOriginView)
    → all_exact (os ++ ps) ≡ (if all_exact os then all_exact ps else false)
all_exact-append [] ps = refl
all_exact-append (o ∷ os) ps = ground (arith, all_exact-append os ps)

abbrev pub rank : FilePathConfidence → ℕ
rank FilePathConfidence.exact = 2
rank probable = 1
rank unresolved = 0

-- The confidence of two sets of origins together is the weaker of the two: one resolved candidate
-- conceals no missing one.
from_origins-append :
    (o : FileOriginView) (os : List FileOriginView) (p : FileOriginView) (ps : List FileOriginView)
    → rank (from_origins ((o ∷ os) ++ p ∷ ps))
      ≡ min (rank (from_origins (o ∷ os))) (rank (from_origins (p ∷ ps)))
unfolding from_origins
from_origins-append o os p ps =
    ground (arith, any_weak-append (o ∷ os) (p ∷ ps), all_exact-append (o ∷ os) (p ∷ ps))
