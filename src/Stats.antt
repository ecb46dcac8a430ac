-- ===== src/Stats.antt =====
-- crates/protocol/src/lib.rs: the helpers on samples of the analysis engine, `percentile`,
-- `evenly_sample_refs`, `bounded_push` and `time_buckets`.
pub mod Ranks
pub mod Samples
pub mod Even
mod Tests
use android_ebpf_studio.Prelude.{
  ℕ, zero, suc, ◌+◌, ◌-◌, ◌*◌, ◌/◌, min, max, ◌&&◌, Bool, true, false, not, Option, none, some,
  List, [], ◌∷◌, ◌++◌, ltb, leb, eqb, if◌then◌else◌, length, get_elem?, drop,
}

-- `(percentile * len).div_ceil(100).max(1)`
abbrev pub rank_of : ℕ → ℕ → ℕ
rank_of percentile count = max ((percentile * count + 99) / 100) 1

pub percentile : List ℕ → ℕ → Option ℕ
percentile [] p = none
percentile (v ∷ vs) p = get_elem? (v ∷ vs) (rank_of p (length (v ∷ vs)) - 1)

module _ {A : Type 0} where
  abbrev pub cons_some : Option A → List A → List A
  cons_some none vs = vs
  cons_some (some v) vs = v ∷ vs

  -- The samples number `index` and following, `n` of them. An index out of bounds, where the source
  -- would panic, gives no sample: `Even.length-evenly_sample_refs` shows that there is none.
  pub sample_from : List A → ℕ → ℕ → ℕ → List A
  sample_from values limit index zero = []
  sample_from values limit index (suc n) =
      cons_some (get_elem? values (index * length values / limit))
        (sample_from values limit (suc index) n)

  pub evenly_sample_refs : List A → ℕ → List A
  unfolding sample_from
  evenly_sample_refs values limit =
      if leb (length values) limit then values else sample_from values limit 0 limit

  -- `MAX_ANALYSIS_SAMPLES` is `limit`; at it, the oldest tenth is drained before the push.
  pub bounded_push : ℕ → Bool → List A → A → List A
  bounded_push limit retain_all values value =
      if not retain_all && eqb (length values) limit
      then drop (limit / 10) values ++ value ∷ []
      else values ++ value ∷ []

abbrev pub max_analysis_samples : ℕ
max_analysis_samples = 100000

pub range_from : ℕ → ℕ → List ℕ
range_from start zero = []
range_from start (suc n) = start ∷ range_from (start + 1) n

abbrev pub second_ns : ℕ
second_ns = 1000000000

pub time_buckets : ℕ → ℕ → List ℕ
unfolding range_from
time_buckets start_ts_ns end_ts_ns =
    if ltb end_ts_ns start_ts_ns
    then []
    else range_from (start_ts_ns / second_ns)
        (min (end_ts_ns / second_ns - start_ts_ns / second_ns + 1) 121)
