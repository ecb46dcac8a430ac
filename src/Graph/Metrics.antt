-- ===== src/Graph/Metrics.antt =====
-- The time fields of `IoTransactionGraph::metrics` (crates/protocol/src/lib.rs): bounds, total,
-- accounted and unaccounted time. The exclusive times and the critical path are not modelled.
pub mod Accounted
use android_ebpf_studio.Prelude.{ℕ, ◌-◌, min, max, true, false, List, [], ◌∷◌, if◌then◌else◌}
use android_ebpf_studio.Events.Node.{IoNode, end_or_start, additive}
use android_ebpf_studio.Intervals.{
  Interval, UnaccountedInterval, union_duration, uncovered_intervals,
}
use android_ebpf_studio.Graph.{IoTransactionGraph}

pub record TimeMetrics : Type 0 where
  pub start_ts_ns : ℕ
  pub end_ts_ns : ℕ
  pub total_ns : ℕ
  pub accounted_ns : ℕ
  pub unaccounted_ns : ℕ
  pub unaccounted : List UnaccountedInterval

-- `map(|node| node.start_ts_ns).min()` and `map(IoNode::end_or_start).max()` of a node and others.
abbrev pub first_start : IoNode → List IoNode → ℕ
first_start n [] = n.start_ts_ns
first_start n (m ∷ ms) = min n.start_ts_ns (first_start m ms)

abbrev pub last_end : IoNode → List IoNode → ℕ
last_end n [] = end_or_start n
last_end n (m ∷ ms) = max (end_or_start n) (last_end m ms)

abbrev pub additive_intervals : List IoNode → List Interval
additive_intervals [] = []
additive_intervals (n ∷ ns) =
    if additive n
    then (n.start_ts_ns, end_or_start n) ∷ additive_intervals ns
    else additive_intervals ns

time_metrics_of : List IoNode → TimeMetrics
time_metrics_of [] = record {
  start_ts_ns = 0;
  end_ts_ns = 0;
  total_ns = 0;
  accounted_ns = 0;
  unaccounted_ns = 0;
  unaccounted = [];
}
time_metrics_of (n ∷ ns) =
    let start = first_start n ns in
    let end = last_end n ns in
    let intervals = additive_intervals (n ∷ ns) in
    let accounted = union_duration intervals in
    let total = end - start in
    record {
      start_ts_ns = start;
      end_ts_ns = end;
      total_ns = total;
      accounted_ns = min accounted total;
      unaccounted_ns = total - min accounted total;
      unaccounted = uncovered_intervals start end intervals;
    }

pub time_metrics : IoTransactionGraph → TimeMetrics
unfolding time_metrics_of
time_metrics g = time_metrics_of g.nodes
