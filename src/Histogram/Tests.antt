-- ===== src/Histogram/Tests.antt =====
-- Runs of the histogram, and its theorems at concrete inputs (crates/protocol/src/lib.rs).
use android_ebpf_studio.Prelude.{
  ℕ, ◌+◌, ◌*◌, ◌/◌, ◌≡◌, refl, Option, some, List, [], ◌∷◌, length, arith,
}
use android_ebpf_studio.Histogram.{Histogram, record_value, partition_point, percentile_range}
use android_ebpf_studio.Histogram.Tally.{Tallies, record_all, record_all-Tallies}
use android_ebpf_studio.Histogram.Percentile.{Brackets, percentile_range-Brackets}

abbrev fresh : Histogram
fresh = record { boundaries = 10 ∷ 20 ∷ []; counts = 0 ∷ 0 ∷ 0 ∷ [] }

abbrev values : List ℕ
values = 30 ∷ 10 ∷ 11 ∷ 4 ∷ []

fresh-Tallies : Tallies fresh []
fresh-Tallies = record { increasing = (omega arith, tt); cumulative = (refl, (refl, refl)) }

recorded : record_all fresh values ≡ record { boundaries = 10 ∷ 20 ∷ []; counts = 2 ∷ 1 ∷ 1 ∷ [] }
unfolding record_all record_value partition_point
recorded = refl

abbrev bounds : List ℕ
bounds = 10 ∷ 20 ∷ []

record_all-Tallies_example : Tallies (record_all fresh values) values
record_all-Tallies_example = record_all-Tallies fresh values fresh-Tallies (omega arith)

percentile_range-Brackets_example :
    (r : ℕ × Option ℕ) × (percentile_range (record_all fresh values) 50 ≡ some r)
    × Brackets ((length values * 50 + 99) / 100) r values
percentile_range-Brackets_example =
    percentile_range-Brackets (record_all fresh values) values 50
      (record_all-Tallies fresh values fresh-Tallies (omega arith)) (omega arith) (omega arith)
      (omega arith) (omega arith)
