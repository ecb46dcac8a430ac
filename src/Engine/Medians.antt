-- ===== src/Engine/Medians.antt =====
-- The median of durations (`why_slow`, crates/protocol/src/lib.rs).
use android_ebpf_studio.Prelude.{
  ℕ, ◌*◌, ◌≡◌, refl, ◌≤◌, ◌<◌, ◌⊎◌, inl, inr, List, [], ◌∷◌, arith, length, some,
}
use android_ebpf_studio.Histogram.Tally.{count_le}
use android_ebpf_studio.Histogram.Percentile.{count_lt}
use android_ebpf_studio.Stats.{percentile}
use android_ebpf_studio.Stats.Ranks.{percentile-ranked, count_le-lt}
use android_ebpf_studio.Engine.Evidence.{insert_sorted, sort}
use android_ebpf_studio.Engine.Live.{sort-IsSorted, count_le-sort, length-sort}

-- Less than half of the values are below it, and half of them at least are not above it.
abbrev pub IsMedian : ℕ → List ℕ → Type 0
IsMedian m values =
    (count_lt m values * 2 < length values) × (length values ≤ count_le m values * 2)

count_lt-insert_sorted :
    (b v : ℕ) (vs : List ℕ) → count_lt b (insert_sorted v vs) ≡ count_lt b (v ∷ vs)
unfolding insert_sorted
count_lt-insert_sorted b v [] = refl
count_lt-insert_sorted b v (w ∷ ws) = ground (arith, count_lt-insert_sorted b v ws)

count_lt-sort : (b : ℕ) (vs : List ℕ) → count_lt b (sort vs) ≡ count_lt b vs
unfolding sort
count_lt-sort b [] = refl
count_lt-sort b (v ∷ vs) = omega (arith, count_lt-insert_sorted b v (sort vs), count_lt-sort b vs)

-- The exact 50th percentile of the sorted values is their median.
pub percentile-IsMedian :
    (vs : List ℕ) → 0 < length vs → (x : ℕ) × (percentile (sort vs) 50 ≡ some x) × IsMedian x vs
percentile-IsMedian vs l =
    let (x, e, below, upto) =
      percentile-ranked (sort vs) 50 (sort-IsSorted vs) (omega (arith, length-sort vs))
        (omega arith) in
    (
      x,
      e,
      (
        omega (arith, below, count_lt-sort x vs, length-sort vs),
        omega (arith, upto, count_le-sort x vs, length-sort vs),
      ),
    )

cmp : (a b : ℕ) → (a ≡ b) ⊎ (a < b) ⊎ (b < a)
cmp a b = grind arith

-- Values have one median at most.
pub IsMedian-unique : (a b : ℕ) (vs : List ℕ) → IsMedian a vs → IsMedian b vs → a ≡ b
IsMedian-unique a b vs p q = elim (cmp a b) [
  | inl e ↦ e
  | inr (inl h) ↦ absurd (omega (arith, count_le-lt a b vs h, p.1, q.0))
  | inr (inr h) ↦ absurd (omega (arith, count_le-lt b a vs h, q.1, p.0))
]
