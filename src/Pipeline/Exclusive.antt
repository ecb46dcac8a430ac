-- ===== src/Pipeline/Exclusive.antt =====
-- Which observations a pipeline keeps (`build_io_pipeline`).
use android_ebpf_studio.Prelude.{
  ◌≡◌, ◌↔◌, ◌⊎◌, subst, refl, ◌≢◌, Bool, true, false, List, [], ◌∷◌, arith, inl, inr, IsIn,
  contains, not_contains, contains-false, Bool-cases, nat_eq, option_eq,
}
use android_ebpf_studio.Events.Pipeline.{PipelineLayer, layer_eq, PipelineObservation}
use android_ebpf_studio.Events.Completed.{CompletedIo}
use android_ebpf_studio.Correlator.{is_some}
use android_ebpf_studio.Pipeline.{
  names_request, is_candidate, filter, candidates, exact_layers, retained,
}

module _ {A : Type 0} where
  pub filter_sound :
      (test : A → Bool) (vs : List A) (v : A)
      → IsIn v (filter test vs)
      → IsIn v vs × (test v ≡ true)
  unfolding filter
  filter_sound test [] v i = absurd i
  filter_sound test (w ∷ vs) v i = ground (arith, filter_sound test vs v)

  filter_complete :
      (test : A → Bool) (vs : List A) (v : A) → IsIn v vs → test v ≡ true → IsIn v (filter test vs)
  unfolding filter
  filter_complete test [] v i h = absurd i
  filter_complete test (w ∷ vs) v (inl e) h = rw (e, h) (inl refl)
  filter_complete test (w ∷ vs) v (inr i) h = ground (arith, filter_complete test vs v i h)

-- Some member carries the request's id, in the layer.
abbrev Holder : CompletedIo → List PipelineObservation → PipelineLayer → Type 0
Holder io vs l = (w : PipelineObservation) × IsIn w vs × (names_request io w ≡ true) × (w.layer ≡ l)

later :
    (io : CompletedIo) (w : PipelineObservation) (vs : List PipelineObservation) (l : PipelineLayer)
    → Holder io vs l
    → Holder io (w ∷ vs) l
later io w vs l (v, i, named, e) = (v, inr i, named, e)

exact_layers-Holder :
    (io : CompletedIo) (vs : List PipelineObservation) (l : PipelineLayer)
    → IsIn l (exact_layers io vs)
    → Holder io vs l
unfolding exact_layers
exact_layers-Holder io [] l i = absurd i
exact_layers-Holder io (w ∷ vs) l i = elim (Bool-cases (names_request io w)) [
  | inl named ↦ elim (rw named at i) [
    | inl e ↦ (w, inl refl, named, e)
    | inr j ↦ later io w vs l (exact_layers-Holder io vs l j)
  ]
  | inr other ↦ later io w vs l (exact_layers-Holder io vs l (rw other at i))
]

exact_layers-IsIn :
    (io : CompletedIo) (vs : List PipelineObservation) (v : PipelineObservation)
    → IsIn v vs
    → names_request io v ≡ true
    → IsIn v.layer (exact_layers io vs)
unfolding exact_layers
exact_layers-IsIn io [] v i h = absurd i
exact_layers-IsIn io (w ∷ vs) v (inl e) h = rw (e, h) (inl refl)
exact_layers-IsIn io (w ∷ vs) v (inr i) h = ground (arith, exact_layers-IsIn io vs v i h)

-- The observation carries the id of the request, or none in its layer does.
abbrev pub IsAllowed : CompletedIo → List PipelineObservation → PipelineObservation → Type 0
IsAllowed io vs v =
    (names_request io v ≡ true)
    ⊎ ((w : PipelineObservation) → IsIn w vs → names_request io w ≡ true → w.layer ≢ v.layer)

retained_sound :
    (io : CompletedIo) (vs : List PipelineObservation) (v : PipelineObservation)
    → IsIn v (retained io vs)
    → IsIn v vs × IsAllowed io vs v
unfolding retained
retained_sound io vs v i =
    let (j, passes) = filter_sound _ vs v i in
    elim (Bool-cases (names_request io v)) [
      | inl named ↦ (j, inl named)
      | inr other ↦
          let apart : contains (exact_layers io vs) v.layer ≡ false = ground arith in
          (
            j,
            inr (λ w k named e.
                not_contains (exact_layers io vs) v.layer apart
                  (subst (λ l. IsIn l (exact_layers io vs)) e (exact_layers-IsIn io vs w k named))),
          )
    ]

retained_complete :
    (io : CompletedIo) (vs : List PipelineObservation) (v : PipelineObservation)
    → IsIn v vs
    → IsAllowed io vs v
    → IsIn v (retained io vs)
unfolding retained
retained_complete io vs v i (inl named) = filter_complete _ vs v i (rw named refl)
retained_complete io vs v i (inr apart) =
    let free =
      contains-false (exact_layers io vs) v.layer
        (λ j. let (w, k, named, e) = exact_layers-Holder io vs v.layer j in apart w k named e) in
    filter_complete _ vs v i (rw free (ground arith))

candidates_sound :
    (io : CompletedIo) (observations : List PipelineObservation) (v : PipelineObservation)
    → IsIn v (candidates io observations)
    → (is_some io.evidence ≡ false) × IsIn v observations × (is_candidate io v ≡ true)
unfolding candidates
candidates_sound io observations v i = elim (Bool-cases (is_some io.evidence)) [
  | inl foreign ↦ absurd (rw foreign at i)
  | inr own ↦
      let (j, passes) = filter_sound (is_candidate io) observations v (rw own at i) in
      (own, j, passes)
]

candidates_complete :
    (io : CompletedIo) (observations : List PipelineObservation) (v : PipelineObservation)
    → is_some io.evidence ≡ false
    → IsIn v observations
    → is_candidate io v ≡ true
    → IsIn v (candidates io observations)
unfolding candidates
candidates_complete io observations v own i passes =
    rw own (filter_complete (is_candidate io) observations v i passes)

-- A pipeline keeps exactly those observations that are candidates for the request and either carry
-- its id or stand in a layer in which no candidate carries it; a request with evidence of its own
-- keeps none.
pub retained_iff :
    (io : CompletedIo) (observations : List PipelineObservation) (v : PipelineObservation)
    → IsIn v (retained io (candidates io observations)) ↔ (
        (is_some io.evidence ≡ false)
        × IsIn v observations
        × (is_candidate io v ≡ true)
        × IsAllowed io (candidates io observations) v)
retained_iff io observations v = (
  λ i.
      let (j, allowed) = retained_sound io (candidates io observations) v i in
      let (own, k, passes) = candidates_sound io observations v j in (own, k, passes, allowed),
  λ h.
      retained_complete io (candidates io observations) v
        (candidates_complete io observations v h.0 h.1 h.2) h.3,
)
