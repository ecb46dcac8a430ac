-- ===== src/Intervals/Tests.antt =====
-- Runs of the time accounting, and its theorems at concrete inputs (crates/protocol/src/lib.rs).
use android_ebpf_studio.Prelude.{ℕ, ◌≡◌, refl, ◌&&◌, not, List, [], ◌∷◌, arith}
use android_ebpf_studio.Intervals.{
  Interval, union_duration, sort, keep_valid, sweep, sweep_all, insert_sorted, uncovered_intervals,
  clip, gaps_from, gap, merge_interval, ends_before, absorb,
}
use android_ebpf_studio.Intervals.Cover.{within, covered, count_below}
use android_ebpf_studio.Intervals.Union.{union_duration-count}
use android_ebpf_studio.Intervals.Gaps.{in_gap, AreApart, uncovered_intervals-complement}
use android_ebpf_studio.Intervals.Merge.{AreSeparate, merge_interval-AreSeparate}

abbrev busy : List Interval
busy = (5, 9) ∷ (0, 3) ∷ (2, 4) ∷ (8, 7) ∷ []

busy_union : union_duration busy ≡ 8
unfolding union_duration sort insert_sorted keep_valid sweep_all sweep
busy_union = refl

busy_gaps : uncovered_intervals 1 12 busy ≡ gap 4 5 ∷ gap 9 12 ∷ []
unfolding uncovered_intervals sort insert_sorted clip gaps_from
busy_gaps = refl

busy_merged : merge_interval ((0, 3) ∷ (5, 9) ∷ []) (3, 5) ≡ (0, 9) ∷ []
unfolding merge_interval ends_before absorb
busy_merged = refl

union_duration-count_example : union_duration busy ≡ count_below 9 (covered busy)
union_duration-count_example =
    union_duration-count 9 busy (omega arith, (omega arith, (omega arith, (omega arith, tt))))
      (omega arith)

uncovered_intervals-complement_example :
    ((t : ℕ) → in_gap (uncovered_intervals 1 12 busy) t ≡ (within 1 12 t && not (covered busy t)))
    × AreApart 1 12 (uncovered_intervals 1 12 busy)
uncovered_intervals-complement_example = uncovered_intervals-complement 1 12 busy

merge_interval-AreSeparate_example :
    AreSeparate 0 (merge_interval ((0, 3) ∷ (5, 9) ∷ []) (3, 4))
    × ((t : ℕ)
        → covered (merge_interval ((0, 3) ∷ (5, 9) ∷ []) (3, 4)) t
          ≡ covered ((3, 4) ∷ (0, 3) ∷ (5, 9) ∷ []) t)
merge_interval-AreSeparate_example =
    merge_interval-AreSeparate ((0, 3) ∷ (5, 9) ∷ []) (3, 4)
      (omega arith, omega arith, (omega arith, omega arith, tt))
