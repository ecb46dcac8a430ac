-- ===== src/Engine/Stages.antt =====
-- How long a request spends in the nodes of each kind (`durations_by_kind`,
-- crates/protocol/src/lib.rs).
use android_ebpf_studio.Prelude.{
  ℕ, ◌≡◌, refl, sym, ◌∙◌, ap, ◌≤◌, ◌<◌, ◌⊎◌, ◌&&◌, inl, inr, true, false, List, [], ◌∷◌, arith, eqb,
  if◌then◌else◌, IsIn, Bool-cases,
}
use android_ebpf_studio.Events.Node.{
  IoNode, IoNodeKind, kind_rank, kind_rank_differ, additive, end_or_start,
}
use android_ebpf_studio.Intervals.{Interval, union_duration}
use android_ebpf_studio.Intervals.Union.{union_duration-count}
use android_ebpf_studio.Graph.{IoTransactionGraph}
use android_ebpf_studio.Engine.Ordered.{
  modify_entry, AllKeysAbove, AreOrdered, modify_entry-AreOrdered,
}
use android_ebpf_studio.Engine.Records.{kind_ranked}
use android_ebpf_studio.Engine.Derived.{
  intervals_by_kind, union_each, durations_by_kind, duration_of, durations_of_kind, durations_each,
}

-- The intervals of the nodes of the kind that count.
abbrev kind_intervals : IoNodeKind → List IoNode → List Interval
kind_intervals kind [] = []
kind_intervals kind (n ∷ ns) =
    if additive n && eqb (kind_rank n.kind) (kind_rank kind)
    then (n.start_ts_ns, end_or_start n) ∷ kind_intervals kind ns
    else kind_intervals kind ns

-- The time that the nodes of the kind cover together.
abbrev pub stage_ns : IoTransactionGraph → IoNodeKind → ℕ
stage_ns g kind = union_duration (kind_intervals kind g.nodes)

abbrev pub stage_times : IoNodeKind → List IoTransactionGraph → List ℕ
stage_times kind [] = []
stage_times kind (g ∷ gs) = stage_ns g kind ∷ stage_times kind gs

abbrev entry_of : IoNodeKind → List (IoNodeKind × List Interval) → List Interval
entry_of kind [] = []
entry_of kind ((k, is) ∷ m) = if eqb (kind_rank k) (kind_rank kind) then is else entry_of kind m

entry_of-above :
    (kind : IoNodeKind) (low : ℕ) (m : List (IoNodeKind × List Interval))
    → kind_rank kind ≤ low
    → AllKeysAbove low m
    → entry_of kind m ≡ []
entry_of-above kind low [] h a = refl
entry_of-above kind low ((k, is) ∷ m) h a = ground (arith, entry_of-above kind low m h a.1)

entry_of-modify_entry :
    (kind k : IoNodeKind) (i : Interval) (m : List (IoNodeKind × List Interval))
    → AreOrdered m
    → entry_of kind (modify_entry [] (λ is. i ∷ is) k m)
      ≡ (if eqb (kind_rank k) (kind_rank kind) then i ∷ entry_of kind m else entry_of kind m)
unfolding modify_entry
entry_of-modify_entry kind k i [] a = refl
entry_of-modify_entry kind k i ((j, is) ∷ m) a =
    ground (arith, entry_of-modify_entry kind k i m a.1, entry_of-above kind (kind_rank j) m, a.0)

intervals_by_kind-AreOrdered : (ns : List IoNode) → AreOrdered (intervals_by_kind ns)
unfolding intervals_by_kind
intervals_by_kind-AreOrdered [] = tt
intervals_by_kind-AreOrdered (n ∷ ns) =
    let rest = intervals_by_kind-AreOrdered ns in
    elim (Bool-cases (additive n)) [
      | inl counts ↦ rw counts (
          modify_entry-AreOrdered [] (λ is. (n.start_ts_ns, end_or_start n) ∷ is) n.kind
            (intervals_by_kind ns) rest)
      | inr context ↦ rw context rest
    ]

entry_of-intervals_by_kind :
    (kind : IoNodeKind) (ns : List IoNode)
    → entry_of kind (intervals_by_kind ns) ≡ kind_intervals kind ns
unfolding intervals_by_kind
entry_of-intervals_by_kind kind [] = refl
entry_of-intervals_by_kind kind (n ∷ ns) =
    let rest = entry_of-intervals_by_kind kind ns in
    elim (Bool-cases (additive n)) [
      | inl counts ↦ rw counts (
          entry_of-modify_entry kind n.kind (n.start_ts_ns, end_or_start n) (intervals_by_kind ns)
            (intervals_by_kind-AreOrdered ns)
          ∙ rw rest refl)
      | inr context ↦ rw context rest
    ]

duration_of-union_each :
    (kind : IoNodeKind) (m : List (IoNodeKind × List Interval))
    → duration_of kind (union_each m) ≡ union_duration (entry_of kind m)
unfolding duration_of union_each
duration_of-union_each kind [] = sym (union_duration-count 0 [] tt (omega arith))
duration_of-union_each kind ((k, is) ∷ m) = elim (Bool-cases (eqb (kind_rank k) (kind_rank kind))) [
  | inl here ↦ rw here refl
  | inr other ↦ rw other (duration_of-union_each kind m)
]

duration_of-stage_ns :
    (kind : IoNodeKind) (g : IoTransactionGraph)
    → duration_of kind (durations_by_kind g) ≡ stage_ns g kind
unfolding durations_by_kind
duration_of-stage_ns kind g =
    duration_of-union_each kind (intervals_by_kind g.nodes)
    ∙ ap union_duration (entry_of-intervals_by_kind kind g.nodes)

pub durations_of_kind-stage_times :
    (kind : IoNodeKind) (gs : List IoTransactionGraph)
    → durations_of_kind kind (durations_each gs) ≡ stage_times kind gs
unfolding durations_of_kind durations_each
durations_of_kind-stage_times kind [] = refl
durations_of_kind-stage_times kind (g ∷ gs) =
    rw (duration_of-stage_ns kind g, durations_of_kind-stage_times kind gs) refl

union_each-AllKeysAbove :
    (low : ℕ) (m : List (IoNodeKind × List Interval))
    → AllKeysAbove low m
    → AllKeysAbove low (union_each m)
unfolding union_each
union_each-AllKeysAbove low [] a = tt
union_each-AllKeysAbove low ((k, is) ∷ m) a = (a.0, union_each-AllKeysAbove low m a.1)

union_each-AreOrdered :
    (m : List (IoNodeKind × List Interval)) → AreOrdered m → AreOrdered (union_each m)
unfolding union_each
union_each-AreOrdered [] a = tt
union_each-AreOrdered ((k, is) ∷ m) a =
    (union_each-AllKeysAbove (kind_rank k) m a.0, union_each-AreOrdered m a.1)

above_low :
    (low : ℕ) (kind : IoNodeKind) (n : ℕ) (m : List (IoNodeKind × ℕ))
    → AllKeysAbove low m
    → IsIn (kind, n) m
    → low < kind_rank kind
above_low low kind n [] a i = absurd i
above_low low kind n ((k, d) ∷ m) a (inl e) =
    omega (arith, a.0, ap (λ (x : IoNodeKind × ℕ). kind_rank x.0) e)
above_low low kind n ((k, d) ∷ m) a (inr i) = above_low low kind n m a.1 i

entry-duration_of :
    (kind : IoNodeKind) (n : ℕ) (m : List (IoNodeKind × ℕ))
    → AreOrdered m
    → IsIn (kind, n) m
    → n ≡ duration_of kind m
unfolding duration_of
entry-duration_of kind n [] a i = absurd i
entry-duration_of kind n ((k, d) ∷ m) a (inl e) =
    let same : eqb (kind_rank k) (kind_rank kind) ≡ true =
      ground (arith, ap (λ (x : IoNodeKind × ℕ). kind_rank x.0) e) in
    rw same (ap (λ (x : IoNodeKind × ℕ). x.1) (sym e))
entry-duration_of kind n ((k, d) ∷ m) a (inr i) =
    let apart : eqb (kind_rank k) (kind_rank kind) ≡ false =
      ground (arith, above_low (kind_rank k) kind n m a.0 i) in
    rw apart (entry-duration_of kind n m a.1 i)

-- An entry of the durations is the time of its stage.
pub entry-stage_ns :
    (kind : IoNodeKind) (n : ℕ) (g : IoTransactionGraph)
    → IsIn (kind, n) (durations_by_kind g)
    → n ≡ stage_ns g kind
unfolding durations_by_kind
entry-stage_ns kind n g i =
    entry-duration_of kind n (union_each (intervals_by_kind g.nodes))
      (union_each-AreOrdered (intervals_by_kind g.nodes) (intervals_by_kind-AreOrdered g.nodes)) i
    ∙ duration_of-stage_ns kind g

duration_of-cases :
    (kind : IoNodeKind) (n : ℕ) (m : List (IoNodeKind × ℕ))
    → duration_of kind m ≡ n
    → (n ≡ 0) ⊎ IsIn (kind, n) m
unfolding duration_of
duration_of-cases kind n [] e = inl (sym e)
duration_of-cases kind n ((k, d) ∷ m) e = elim (Bool-cases (eqb (kind_rank k) (kind_rank kind))) [
  | inl here ↦
      let same = kind_rank_differ k kind (ground arith) in
      let taken : d ≡ n = rw here at e in
      inr (inl (ap (λ (x : IoNodeKind). (x, d)) same ∙ ap (λ (x : ℕ). (kind, x)) taken))
  | inr other ↦ elim (duration_of-cases kind n m (rw other at e)) [
    | inl z ↦ inl z
    | inr i ↦ inr (inr i)
  ]
]

-- A stage takes no time or has an entry.
pub stage_ns-cases :
    (kind : IoNodeKind) (g : IoTransactionGraph)
    → (stage_ns g kind ≡ 0) ⊎ IsIn (kind, stage_ns g kind) (durations_by_kind g)
stage_ns-cases kind g =
    duration_of-cases kind (stage_ns g kind) (durations_by_kind g) (duration_of-stage_ns kind g)
