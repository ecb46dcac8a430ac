-- ===== src/Engine/Slow.antt =====
-- Which stage `why_slow` names (crates/protocol/src/lib.rs).
use android_ebpf_studio.Prelude.{
  suc, sym, ap, Option-cases, nat_eq, pair_eq, true, ℕ, ◌-◌, ◌≡◌, refl, subst, ◌≤◌, ◌<◌, ◌⊎◌, inl,
  inr, ltb, Option, none, some, List, [], ◌∷◌, arith, leb, eqb, length, IsIn, Bool-cases,
}
use android_ebpf_studio.Events.Node.{IoNodeKind}
use android_ebpf_studio.Graph.{IoTransactionGraph}
use android_ebpf_studio.Engine.Records.{SlowReason}
use android_ebpf_studio.Engine.State.{AnalysisEngine}
use android_ebpf_studio.Events.Completed.{CompletedIo}
use android_ebpf_studio.Stats.{evenly_sample_refs}
use android_ebpf_studio.Pipeline.{filter}
use android_ebpf_studio.Engine.Derived.{
  median_of, slower, slowest, is_cohort, transaction_for, transactions_from, durations_each,
  durations_by_kind, why_slow,
}
use android_ebpf_studio.Prelude.Dict.{lookup}
use android_ebpf_studio.Events.Block.{operation_eq, pattern_eq, size_eq}
use android_ebpf_studio.Engine.State.{request_cache_key}
use android_ebpf_studio.Stats.Even.{length-evenly_sample_refs}
use android_ebpf_studio.Engine.Stages.{
  stage_ns, stage_times, durations_of_kind-stage_times, entry-stage_ns, stage_ns-cases,
}
use android_ebpf_studio.Engine.Medians.{IsMedian, percentile-IsMedian, IsMedian-unique}

abbrev Cohort : Type 0
Cohort = List (List (IoNodeKind × ℕ))

-- By how much the reason is slower, 0 without one.
abbrev delta_of : Option SlowReason → ℕ
delta_of none = 0
delta_of (some r) = r.delta_ns

-- The reason is one of the durations, and slower than the median of its cohort.
abbrev IsMeasured : Cohort → List (IoNodeKind × ℕ) → Option SlowReason → Type 0
IsMeasured cohort durations none = Unit {0}
IsMeasured cohort durations (some r) =
    IsIn (r.node_kind, r.selected_ns) durations
    × (r.cohort_median_ns ≡ median_of r.node_kind cohort)
    × (r.delta_ns ≡ r.selected_ns - r.cohort_median_ns)
    × (0 < r.delta_ns)

-- It is measured, and no duration exceeds the median of its cohort by more.
abbrev Explains : Cohort → List (IoNodeKind × ℕ) → Option SlowReason → Type 0
Explains cohort durations best =
    IsMeasured cohort durations best
    × ((kind : IoNodeKind) (n : ℕ)
        → IsIn (kind, n) durations
        → n - median_of kind cohort ≤ delta_of best)

slower-IsMeasured :
    (g : IoTransactionGraph) (cohort : Cohort) (all : List (IoNodeKind × ℕ))
    (best : Option SlowReason) (kind : IoNodeKind) (n : ℕ)
    → IsIn (kind, n) all
    → IsMeasured cohort all best
    → IsMeasured cohort all (slower g cohort best kind n)
      × (delta_of best ≤ delta_of (slower g cohort best kind n))
      × (n - median_of kind cohort ≤ delta_of (slower g cohort best kind n))
unfolding slower
slower-IsMeasured g cohort all none kind n i m =
    elim (Bool-cases (eqb (n - median_of kind cohort) 0)) [
      | inl zero_is ↦ rw zero_is (tt, omega arith, ground arith)
      | inr more ↦ rw more ((i, refl, refl, ground arith), omega arith, omega arith)
    ]
slower-IsMeasured g cohort all (some best) kind n i m =
    elim (Bool-cases (eqb (n - median_of kind cohort) 0)) [
      | inl zero_is ↦ rw zero_is (m, omega arith, ground arith)
      | inr more ↦ elim (Bool-cases (leb (n - median_of kind cohort) best.delta_ns)) [
        | inl less ↦ rw (more, less) (m, omega arith, ground arith)
        | inr above ↦ rw (more, above) ((i, refl, refl, ground arith), ground arith, omega arith)
      ]
    ]

slowest-grows :
    (g : IoTransactionGraph) (cohort : Cohort) (all : List (IoNodeKind × ℕ))
    (best : Option SlowReason) (rest : List (IoNodeKind × ℕ))
    → ((kind : IoNodeKind) (n : ℕ) → IsIn (kind, n) rest → IsIn (kind, n) all)
    → IsMeasured cohort all best
    → IsMeasured cohort all (slowest g cohort best rest)
      × (delta_of best ≤ delta_of (slowest g cohort best rest))
      × ((kind : IoNodeKind) (n : ℕ)
          → IsIn (kind, n) rest
          → n - median_of kind cohort ≤ delta_of (slowest g cohort best rest))
unfolding slowest
slowest-grows g cohort all best [] sub m = (m, omega arith, λ kind n i. absurd i)
slowest-grows g cohort all best ((k, d) ∷ rest) sub m =
    let (m1, more, here) = slower-IsMeasured g cohort all best k d (sub k d (inl refl)) m in
    let (m2, most, later) =
      slowest-grows g cohort all (slower g cohort best k d) rest (λ kind n i. sub kind n (inr i))
        m1 in
    (
      m2,
      omega (arith, more, most),
      λ kind n i. elim i [
        | inl e ↦
            subst
              (λ (x : IoNodeKind × ℕ).
                x.1 - median_of x.0 cohort
                ≤ delta_of (slowest g cohort (slower g cohort best k d) rest))
              e (omega (arith, here, most))
        | inr j ↦ later kind n j
      ],
    )

slowest-Explains :
    (g : IoTransactionGraph) (cohort : Cohort) (durations : List (IoNodeKind × ℕ))
    → Explains cohort durations (slowest g cohort none durations)
slowest-Explains g cohort durations =
    let (m, low, all) = slowest-grows g cohort durations none durations (λ kind n i. i) tt in
    (m, all)

-- The request has the operation, the pattern and the size class of the selected one.
abbrev pub IsLike : CompletedIo → CompletedIo → Type 0
IsLike selected io =
    (io.issue.operation ≡ selected.issue.operation)
    × (io.access_pattern ≡ selected.access_pattern)
    × (io.size_class ≡ selected.size_class)

-- The second list is the part of the first that has the property, in order.
pub data Selects (P : CompletedIo → Type 0) : List CompletedIo → List CompletedIo → Type 0 where
  nothing : Selects P [] []
  takes :
      {io : CompletedIo} {ios others : List CompletedIo}
      → P io
      → Selects P ios others
      → Selects P (io ∷ ios) (io ∷ others)
  leaves :
      {io : CompletedIo} {ios others : List CompletedIo}
      → ¬ P io
      → Selects P ios others
      → Selects P (io ∷ ios) others

is_cohort-IsLike : (selected io : CompletedIo) → is_cohort selected io ≡ true → IsLike selected io
is_cohort-IsLike selected io h = (
  (operation_eq.decides io.issue.operation selected.issue.operation).0 (ground arith),
  (pattern_eq.decides io.access_pattern selected.access_pattern).0 (ground arith),
  (size_eq.decides io.size_class selected.size_class).0 (ground arith),
)

IsLike-is_cohort : (selected io : CompletedIo) → IsLike selected io → is_cohort selected io ≡ true
IsLike-is_cohort selected io (operation, pattern, size) =
    rw
      (
        (operation_eq.decides io.issue.operation selected.issue.operation).1 operation,
        (pattern_eq.decides io.access_pattern selected.access_pattern).1 pattern,
        (size_eq.decides io.size_class selected.size_class).1 size,
      )
      refl

cohort-Selects :
    (selected : CompletedIo) (ios : List CompletedIo)
    → Selects (IsLike selected) ios (filter (is_cohort selected) ios)
unfolding filter
cohort-Selects selected [] = nothing
cohort-Selects selected (io ∷ ios) = elim (Bool-cases (is_cohort selected io)) [
  | inl like ↦ rw like (takes (is_cohort-IsLike selected io like) (cohort-Selects selected ios))
  | inr other ↦
      rw other (leaves (λ l. cc (IsLike-is_cohort selected io l)) (cohort-Selects selected ios))
]

transaction_for-completed :
    (e : AnalysisEngine) (io : CompletedIo) → (transaction_for e io).0.completed ≡ e.completed
unfolding transaction_for
transaction_for-completed e io =
    elim (Option-cases (lookup (request_cache_key io) e.transaction_cache)) [
      | inl missing ↦ rw missing refl
      | inr (g, cached) ↦ rw cached refl
    ]

length-transactions_from :
    (e : AnalysisEngine) (ios : List CompletedIo) → length (transactions_from e ios).1 ≡ length ios
unfolding transactions_from
length-transactions_from e [] = refl
length-transactions_from e (io ∷ ios) =
    ap suc (length-transactions_from (transaction_for e io).0 ios)

length-stage_times :
    (kind : IoNodeKind) (gs : List IoTransactionGraph) → length (stage_times kind gs) ≡ length gs
length-stage_times kind [] = refl
length-stage_times kind (g ∷ gs) = ap suc (length-stage_times kind gs)

-- The median that the code computes is that of the stage's times.
median_of-IsMedian :
    (kind : IoNodeKind) (gs : List IoTransactionGraph)
    → 0 < length gs
    → IsMedian (median_of kind (durations_each gs)) (stage_times kind gs)
median_of-IsMedian kind gs l =
    let times = durations_of_kind-stage_times kind gs in
    let (x, e, median) =
      percentile-IsMedian (stage_times kind gs) (omega (arith, length-stage_times kind gs)) in
    rw (times, e) median

-- The stage is slower than its median among the sample, and no stage exceeds its own median by more;
-- without a reason no stage exceeds its median.
abbrev IsSlowest : IoTransactionGraph → List IoTransactionGraph → Option SlowReason → Type 0
IsSlowest g sample none =
    (kind : IoNodeKind) (m : ℕ) → IsMedian m (stage_times kind sample) → stage_ns g kind ≤ m
IsSlowest g sample (some r) =
    (r.selected_ns ≡ stage_ns g r.node_kind)
    × IsMedian r.cohort_median_ns (stage_times r.node_kind sample)
    × (r.delta_ns ≡ r.selected_ns - r.cohort_median_ns)
    × (0 < r.delta_ns)
    × ((kind : IoNodeKind) (m : ℕ)
        → IsMedian m (stage_times kind sample)
        → stage_ns g kind - m ≤ r.delta_ns)

stage-le :
    (g : IoTransactionGraph) (sample : List IoTransactionGraph) (best : Option SlowReason)
    → 0 < length sample
    → Explains (durations_each sample) (durations_by_kind g) best
    → (kind : IoNodeKind) (m : ℕ) → IsMedian m (stage_times kind sample)
    → stage_ns g kind - m ≤ delta_of best
stage-le g sample best l (measured, all) kind m median =
    let same =
      IsMedian-unique m (median_of kind (durations_each sample)) (stage_times kind sample) median
        (median_of-IsMedian kind sample l) in
    elim (stage_ns-cases kind g) [
      | inl none_there ↦ omega (arith, none_there)
      | inr i ↦ omega (arith, all kind (stage_ns g kind) i, same)
    ]

Explains-IsSlowest :
    (g : IoTransactionGraph) (sample : List IoTransactionGraph) (best : Option SlowReason)
    → 0 < length sample
    → Explains (durations_each sample) (durations_by_kind g) best
    → IsSlowest g sample best
Explains-IsSlowest g sample none l x =
    λ kind m median. omega (arith, stage-le g sample none l x kind m median)
Explains-IsSlowest g sample (some r) l x =
    let (i, median, delta, positive) = x.0 in
    (
      entry-stage_ns r.node_kind r.selected_ns g i,
      subst (λ (m : ℕ). IsMedian m (stage_times r.node_kind sample)) (sym median)
          (median_of-IsMedian r.node_kind sample l),
      delta,
      positive,
      stage-le g sample (some r) l x,
    )

-- The graphs of the requests that are sampled evenly from a cohort, 512 of them at most, once the
-- graph of the selected request is derived.
abbrev pub sampled : AnalysisEngine → CompletedIo → List CompletedIo → List IoTransactionGraph
sampled e selected cohort =
    (transactions_from (transaction_for e selected).0 (evenly_sample_refs cohort 512)).1

-- What the answer is for the requests of the cohort.
abbrev pub IsAnswer : AnalysisEngine → CompletedIo → List CompletedIo → Option SlowReason → Type 0
IsAnswer e selected cohort answer =
    ((length cohort < 3) × (answer ≡ none))
    ⊎ ((3 ≤ length cohort)
        × IsSlowest (transaction_for e selected).1 (sampled e selected cohort) answer)

-- With the cohort of all completed requests of the same operation, access pattern and size class, in
-- order: if there are fewer than three, `why_slow` gives no reason. Otherwise a reason names a kind of
-- node in the request's graph with the time that the counted nodes of the kind cover, the median of
-- this time among the graphs of the sampled cohort, and the positive difference, and the time of no
-- kind exceeds the median of that kind by more; and without a reason the time of no kind exceeds its
-- median.
pub why_slow-Explains :
    (e : AnalysisEngine) (selected : CompletedIo)
    → (cohort : List CompletedIo) × Selects (IsLike selected) e.completed cohort
      × IsAnswer e selected cohort (why_slow e selected).1
unfolding why_slow
why_slow-Explains e selected =
    let kept = transaction_for-completed e selected in
    let cohort = filter (is_cohort selected) (transaction_for e selected).0.completed in
    (
      cohort,
      subst (λ (ios : List CompletedIo). Selects (IsLike selected) ios cohort) kept
          (cohort-Selects selected (transaction_for e selected).0.completed),
      elim (Bool-cases (ltb (length cohort) 3)) [
        | inl few ↦ rw few (inl (ground arith, refl))
        | inr enough ↦
            let sample = sampled e selected cohort in
            let some_sampled : 0 < length sample =
              let three : 3 ≤ length cohort = ground arith in
              omega (
                arith,
                three,
                length-transactions_from (transaction_for e selected).0
                    (evenly_sample_refs cohort 512),
                length-evenly_sample_refs cohort 512,
              ) in
            rw enough (
              inr (
                ground arith,
                Explains-IsSlowest (transaction_for e selected).1 sample _ some_sampled
                    (slowest-Explains _ _ _),
              ))
      ],
    )
