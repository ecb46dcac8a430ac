-- ===== src/Graph/Metrics/Accounted.antt =====
-- Accounted and unaccounted time make up the whole (`IoTransactionGraph::metrics`,
-- crates/protocol/src/lib.rs).
use android_ebpf_studio.Prelude.{
  ℕ, zero, suc, ◌+◌, ◌-◌, ◌≤◌, ◌<◌, ◌≡◌, ◌&&◌, not, Bool, false, List, [], ◌∷◌, arith, Bool-cases,
  inl, inr, u64_max, ◌⊎◌, ◌∙◌, ◌||◌, refl, ap, sym, subst, IsIn,
}
use android_ebpf_studio.Events.Node.{IoNode, end_or_start, additive}
use android_ebpf_studio.Intervals.{union_duration}
use android_ebpf_studio.Intervals.Cover.{
  within, covered, count_below, AllStartFrom, covered-AllStartFrom, count_below_ext,
}
use android_ebpf_studio.Intervals.Union.{AllEndBy, union_duration-count}
use android_ebpf_studio.Intervals.Gaps.{in_gap, uncovered_intervals-complement}
use android_ebpf_studio.Graph.{IoTransactionGraph}
use android_ebpf_studio.Graph.Metrics.{
  TimeMetrics, first_start, last_end, additive_intervals, time_metrics_of, time_metrics,
}

le_or_lt : (a b : ℕ) → (a ≤ b) ⊎ (b < a)
le_or_lt a b = grind arith

AllStartFrom-weaken :
    (low s : ℕ) (ns : List IoNode)
    → low ≤ s
    → AllStartFrom s (additive_intervals ns)
    → AllStartFrom low (additive_intervals ns)
AllStartFrom-weaken low s [] h a = tt
AllStartFrom-weaken low s (n ∷ ns) h a = ground (arith, AllStartFrom-weaken low s ns)

AllEndBy-weaken :
    (e high : ℕ) (ns : List IoNode)
    → e ≤ high
    → AllEndBy e (additive_intervals ns)
    → AllEndBy high (additive_intervals ns)
AllEndBy-weaken e high [] h a = tt
AllEndBy-weaken e high (n ∷ ns) h a = ground (arith, AllEndBy-weaken e high ns)

all_from_start :
    (n : IoNode) (ns : List IoNode) → AllStartFrom (first_start n ns) (additive_intervals (n ∷ ns))
all_from_start n [] = ground arith
all_from_start n (m ∷ ms) =
    let rest =
      AllStartFrom-weaken (first_start n (m ∷ ms)) (first_start m ms) (m ∷ ms) (omega arith)
        (all_from_start m ms) in
    let own : first_start n (m ∷ ms) ≤ n.start_ts_ns = omega arith in
    elim (Bool-cases (additive n)) [
      | inl counted ↦ rw counted (own, rest)
      | inr context ↦ rw context rest
    ]

all_by_end :
    (n : IoNode) (ns : List IoNode) → AllEndBy (last_end n ns) (additive_intervals (n ∷ ns))
all_by_end n [] = ground arith
all_by_end n (m ∷ ms) =
    let rest =
      AllEndBy-weaken (last_end m ms) (last_end n (m ∷ ms)) (m ∷ ms) (omega arith)
        (all_by_end m ms) in
    let own : end_or_start n ≤ last_end n (m ∷ ms) = omega arith in
    elim (Bool-cases (additive n)) [
      | inl counted ↦ rw counted (own, rest)
      | inr context ↦ rw context rest
    ]

count_below_from :
    (n s : ℕ) (p : ℕ → Bool) → ((t : ℕ) → t < s → p t ≡ false) → count_below n p ≤ n - s
count_below_from zero s p h = omega arith
count_below_from (suc n) s p h = ground (arith, count_below_from n s p h, h n)

-- The instant lies within some node of a kind that counts.
abbrev in_node : List IoNode → ℕ → Bool
in_node [] t = false
in_node (n ∷ ns) t = additive n && within n.start_ts_ns (end_or_start n) t || in_node ns t

covered-additive : (ns : List IoNode) (t : ℕ) → covered (additive_intervals ns) t ≡ in_node ns t
covered-additive [] t = refl
covered-additive (n ∷ ns) t = ground (arith, covered-additive ns t)

first_start-le :
    (n : IoNode) (ns : List IoNode) (m : IoNode)
    → IsIn m (n ∷ ns)
    → first_start n ns ≤ m.start_ts_ns
first_start-le n [] m (inl e) = rw (← e) (omega arith)
first_start-le n [] m (inr i) = absurd i
first_start-le n (o ∷ os) m (inl e) = rw (← e) (omega arith)
first_start-le n (o ∷ os) m (inr i) = omega (arith, first_start-le o os m i)

first_start_found :
    (n : IoNode) (ns : List IoNode)
    → (m : IoNode) × IsIn m (n ∷ ns) × (m.start_ts_ns ≡ first_start n ns)
first_start_found n [] = (n, inl refl, refl)
first_start_found n (o ∷ os) =
    let (m, i, e) = first_start_found o os in
    elim (le_or_lt n.start_ts_ns (first_start o os)) [
      | inl h ↦ (n, inl refl, omega arith)
      | inr h ↦ (m, inr i, omega arith)
    ]

last_end-le :
    (n : IoNode) (ns : List IoNode) (m : IoNode) → IsIn m (n ∷ ns) → end_or_start m ≤ last_end n ns
last_end-le n [] m (inl e) = rw (← e) (omega arith)
last_end-le n [] m (inr i) = absurd i
last_end-le n (o ∷ os) m (inl e) = rw (← e) (omega arith)
last_end-le n (o ∷ os) m (inr i) = omega (arith, last_end-le o os m i)

last_end_found :
    (n : IoNode) (ns : List IoNode)
    → (m : IoNode) × IsIn m (n ∷ ns) × (end_or_start m ≡ last_end n ns)
last_end_found n [] = (n, inl refl, refl)
last_end_found n (o ∷ os) =
    let (m, i, e) = last_end_found o os in
    elim (le_or_lt (last_end o os) (end_or_start n)) [
      | inl h ↦ (n, inl refl, omega arith)
      | inr h ↦ (m, inr i, omega arith)
    ]

-- How the time of a graph is made up.
pub record IsAccounted (m : TimeMetrics) (ns : List IoNode) : Type 0 where
  pub from_first : (n : IoNode) → IsIn n ns → m.start_ts_ns ≤ n.start_ts_ns
  pub first : (n : IoNode) × IsIn n ns × (n.start_ts_ns ≡ m.start_ts_ns)
  pub to_last : (n : IoNode) → IsIn n ns → end_or_start n ≤ m.end_ts_ns
  pub last : (n : IoNode) × IsIn n ns × (end_or_start n ≡ m.end_ts_ns)
  pub total : m.total_ns ≡ m.end_ts_ns - m.start_ts_ns
  pub whole : m.accounted_ns + m.unaccounted_ns ≡ m.total_ns
  pub accounted : m.accounted_ns ≡ count_below m.end_ts_ns (in_node ns)
  pub gaps :
      (t : ℕ) → in_gap m.unaccounted t ≡ (within m.start_ts_ns m.end_ts_ns t && not (in_node ns t))

of_nodes :
    (n : IoNode) (ns : List IoNode)
    → last_end n ns ≤ u64_max
    → IsAccounted (time_metrics_of (n ∷ ns)) (n ∷ ns)
unfolding time_metrics_of
of_nodes n ns l =
    let start = first_start n ns in
    let end = last_end n ns in
    let is = additive_intervals (n ∷ ns) in
    let counts : union_duration is ≡ count_below end (covered is) =
      union_duration-count end is (all_by_end n ns) l in
    let bounded : count_below end (covered is) ≤ end - start =
      count_below_from end start (covered is)
        (λ t h. covered-AllStartFrom start is t (all_from_start n ns) h) in
    record {
      from_first = first_start-le n ns;
      first = first_start_found n ns;
      to_last = last_end-le n ns;
      last = last_end_found n ns;
      total = refl;
      whole = omega arith;
      accounted = omega (
        arith,
        counts,
        bounded,
        count_below_ext end (covered is) (in_node (n ∷ ns)) (covered-additive (n ∷ ns)),
      );
      gaps = λ t.
          (uncovered_intervals-complement start end is).0 t
          ∙ ap (λ (b : Bool). within start end t && not b) (covered-additive (n ∷ ns) t);
    }

-- For a graph with nodes, each of which ends by a 64-bit instant: the start is the first start of a
-- node and the end the last end, each that of some node; the total is the time from start to end,
-- and accounted and unaccounted time make it up; the accounted time is the number of instants within
-- some node of a kind other than UIC context; and the unaccounted intervals hold exactly the other
-- instants between start and end.
pub time_metrics-IsAccounted :
    (g : IoTransactionGraph) (n : IoNode) (ns : List IoNode)
    → g.nodes ≡ n ∷ ns
    → ((m : IoNode) → IsIn m g.nodes → end_or_start m ≤ u64_max)
    → IsAccounted (time_metrics g) g.nodes
unfolding time_metrics
time_metrics-IsAccounted g n ns e l =
    let (m, i, latest) = last_end_found n ns in
    let within_size = l m (subst (IsIn m) (sym e) i) in
    rw e (of_nodes n ns (omega (arith, latest, within_size)))
