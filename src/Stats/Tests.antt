-- ===== src/Stats/Tests.antt =====
-- Runs of the sample helpers, and their theorems at concrete inputs (crates/protocol/src/lib.rs).
use android_ebpf_studio.Prelude.{ℕ, ◌≡◌, refl, ◌≤◌, false, Option, some, List, [], ◌∷◌, arith}
use android_ebpf_studio.Histogram.{Histogram, percentile_range}
use android_ebpf_studio.Histogram.Tally.{Tallies}
use android_ebpf_studio.Stats.{percentile, evenly_sample_refs, sample_from, max_analysis_samples}
use android_ebpf_studio.Stats.Ranks.{IsBelow, percentile-within}
use android_ebpf_studio.Stats.Samples.{Keeps, push_all, push_all-IsSuffix}

abbrev sorted : List ℕ
sorted = 4 ∷ 10 ∷ 11 ∷ 30 ∷ []

abbrev tallied : Histogram
tallied = record { boundaries = 10 ∷ 20 ∷ []; counts = 2 ∷ 1 ∷ 1 ∷ [] }

tallied-Tallies : Tallies tallied sorted
tallied-Tallies = record { increasing = (omega arith, tt); cumulative = (refl, (refl, refl)) }

sampled : evenly_sample_refs sorted 2 ≡ 4 ∷ 11 ∷ []
unfolding evenly_sample_refs sample_from
sampled = refl

percentile-within_example :
    (x : ℕ) × (r : ℕ × Option ℕ) × (percentile sorted 75 ≡ some x)
    × (percentile_range tallied 75 ≡ some r)
    × (r.0 ≤ x)
    × IsBelow x r.1
percentile-within_example =
    percentile-within tallied sorted 75 tallied-Tallies
      (
        (omega arith, (omega arith, (omega arith, tt))),
        ((omega arith, (omega arith, tt)), ((omega arith, tt), (tt, tt))),
      )
      (omega arith) (omega arith) (omega arith) (omega arith)

push_all-IsSuffix_example :
    Keeps max_analysis_samples false sorted (push_all max_analysis_samples false [] sorted)
push_all-IsSuffix_example = push_all-IsSuffix false sorted
