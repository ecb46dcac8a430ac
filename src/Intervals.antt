-- ===== src/Intervals.antt =====
-- crates/protocol/src/lib.rs: `union_duration`, `uncovered_intervals` and `merge_interval`, the time
-- accounting of graphs, pipelines and the busy time. An interval is its start and its end.
pub mod Cover
pub mod Union
pub mod Gaps
pub mod Merge
pub mod Busy
mod Tests
use android_ebpf_studio.Prelude.{
  ℕ, zero, suc, ◌+◌, ◌-◌, min, max, ◌&&◌, ◌||◌, Bool, true, false, List, [], ◌∷◌, ◌++◌, map, ltb,
  leb, eqb, if◌then◌else◌, take, drop, saturating_add,
}

abbrev pub Interval : Type 0
Interval = ℕ × ℕ

-- The derived order of pairs.
abbrev pair_le : Interval → Interval → Bool
pair_le a b = ltb a.0 b.0 || (eqb a.0 b.0 && leb a.1 b.1)

-- `sort_unstable`: equal pairs are the same, so the sorted list is determined.
pub insert_sorted : Interval → List Interval → List Interval
insert_sorted i [] = i ∷ []
insert_sorted i (j ∷ js) = if pair_le i j then i ∷ j ∷ js else j ∷ insert_sorted i js

pub sort : List Interval → List Interval
unfolding insert_sorted
sort [] = []
sort (i ∷ is) = insert_sorted i (sort is)

-- `filter(|(start, end)| end >= start)`
pub keep_valid : List Interval → List Interval
keep_valid [] = []
keep_valid (i ∷ is) = if leb i.0 i.1 then i ∷ keep_valid is else keep_valid is

-- The loop of `union_duration`, with the interval that is being extended.
pub sweep : ℕ → ℕ → ℕ → List Interval → ℕ
sweep total start end [] = saturating_add total (end - start)
sweep total start end ((next_start, next_end) ∷ rest) =
    let joined = sweep total start (max end next_end) rest in
    let apart = sweep (saturating_add total (end - start)) next_start next_end rest in
    if leb next_start end then joined else apart

sweep_all : List Interval → ℕ
unfolding sweep
sweep_all [] = 0
sweep_all ((start, end) ∷ rest) = sweep 0 start end rest

pub union_duration : List Interval → ℕ
unfolding sweep_all sort keep_valid
union_duration intervals = sweep_all (sort (keep_valid intervals))

pub data UnaccountedReason : Type 0 where
  probe_unavailable event_lost ambiguous clock_invalid vendor_internal unknown : UnaccountedReason

pub record UnaccountedInterval : Type 0 where
  pub start_ts_ns : ℕ
  pub end_ts_ns : ℕ
  pub reason : UnaccountedReason

abbrev pub gap : ℕ → ℕ → UnaccountedInterval
gap start end = record { start_ts_ns = start; end_ts_ns = end; reason = unknown }

-- `map` to the bounds, then `filter(|(start, end)| end > start)`.
pub clip : ℕ → ℕ → List Interval → List Interval
clip bounds_start bounds_end [] = []
clip bounds_start bounds_end (i ∷ is) =
    let start = max i.0 bounds_start in
    let end = min i.1 bounds_end in
    if ltb start end
    then (start, end) ∷ clip bounds_start bounds_end is
    else clip bounds_start bounds_end is

-- The loop of `uncovered_intervals` and the gap behind the last interval.
pub gaps_from : ℕ → ℕ → List Interval → List UnaccountedInterval
gaps_from cursor bounds_end [] = if ltb cursor bounds_end then gap cursor bounds_end ∷ [] else []
gaps_from cursor bounds_end ((start, end) ∷ rest) =
    let later = gaps_from (max cursor end) bounds_end rest in
    if ltb cursor start then gap cursor start ∷ later else later

pub uncovered_intervals : ℕ → ℕ → List Interval → List UnaccountedInterval
unfolding clip sort gaps_from
uncovered_intervals bounds_start bounds_end intervals =
    gaps_from bounds_start bounds_end (sort (clip bounds_start bounds_end intervals))

-- `partition_point(|(_, current_end)| *current_end < start)`
pub ends_before : ℕ → List Interval → ℕ
ends_before start [] = 0
ends_before start (i ∷ is) = if ltb i.1 start then suc (ends_before start is) else 0

-- The `while` loop of `merge_interval`: start, end and `last` after it.
pub absorb : List Interval → ℕ → ℕ → ℕ → ℕ × ℕ × ℕ
absorb [] start end last = (start, end, last)
absorb (i ∷ is) start end last =
    let rest = absorb is (min start i.0) (max end i.1) (suc last) in
    if leb i.0 end then rest else (start, end, last)

unfoldable pub merge_interval : List Interval → Interval → List Interval
unfolding ends_before absorb
merge_interval intervals i =
    if ltb i.1 i.0
    then intervals
    else let first = ends_before i.0 intervals in
      let (start, end, last) = absorb (drop first intervals) i.0 i.1 first in
      take first intervals ++ (start, end) ∷ drop last intervals

-- `live_summary`: `map(|(start, end)| end.saturating_sub(*start)).sum()`. The sum of separate
-- intervals is below their last end, so it does not wrap (`Busy.busy_agrees`).
abbrev pub total_length : List Interval → ℕ
total_length [] = 0
total_length (i ∷ is) = (i.1 - i.0) + total_length is
