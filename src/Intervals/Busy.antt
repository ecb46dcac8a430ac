-- ===== src/Intervals/Busy.antt =====
-- The busy time: `live_summary` adds up the merged intervals, `summary` takes their union
-- (crates/protocol/src/lib.rs).
use android_ebpf_studio.Prelude.{
  ℕ, ◌+◌, ◌≡◌, refl, sym, ap, ◌∙◌, ◌≤◌, min, max, ◌||◌, inl, inr, List, [], ◌∷◌, arith, ltb,
  Bool-cases, u64_max,
}
use android_ebpf_studio.Intervals.{Interval, merge_interval, union_duration, total_length}
use android_ebpf_studio.Intervals.Cover.{
  within, covered, count_below, count_below_ext, AllStartFrom,
}
use android_ebpf_studio.Intervals.Union.{
  AllEndBy, covered_apart, count_below_none, union_duration-count,
}
use android_ebpf_studio.Intervals.Merge.{
  AreSeparate, merged, absorbed, merge_interval-merged, merge_interval-AreSeparate,
}

-- The list after the intervals were merged into it, the last of the list first.
merge_all : List Interval → List Interval
merge_all [] = []
merge_all (i ∷ is) = merge_interval (merge_all is) i

separate-AllStartFrom :
    (low s : ℕ) (is : List Interval) → s ≤ low → AreSeparate low is → AllStartFrom s is
separate-AllStartFrom low s [] h a = tt
separate-AllStartFrom low s (i ∷ is) h a =
    (omega arith, separate-AllStartFrom (i.1 + 1) s is (omega arith) a.2)

pub total_length-count :
    (n low : ℕ) (is : List Interval)
    → AreSeparate low is
    → AllEndBy n is
    → total_length is ≡ count_below n (covered is)
total_length-count n low [] p a = sym (count_below_none n)
total_length-count n low (i ∷ is) p a = omega (
  arith,
  total_length-count n (i.1 + 1) is p.2 a.1,
  covered_apart n i.0 i.1 is p.1 a.0 (separate-AllStartFrom (i.1 + 1) i.1 is (omega arith) p.2),
)

absorbed-AllEndBy :
    (n : ℕ) (is : List Interval) (s e : ℕ) → e ≤ n → AllEndBy n is → AllEndBy n (absorbed is s e)
absorbed-AllEndBy n [] s e h a = (h, tt)
absorbed-AllEndBy n (i ∷ is) s e h a =
    ground (arith, absorbed-AllEndBy n is (min s i.0) (max e i.1) (omega arith) a.1)

merged-AllEndBy :
    (n : ℕ) (is : List Interval) (s e : ℕ) → e ≤ n → AllEndBy n is → AllEndBy n (merged is s e)
merged-AllEndBy n [] s e h a = (h, tt)
merged-AllEndBy n (i ∷ is) s e h a = elim (Bool-cases (ltb i.1 s)) [
  | inl before ↦ rw before (a.0, merged-AllEndBy n is s e h a.1)
  | inr reaches ↦ rw reaches (absorbed-AllEndBy n (i ∷ is) s e h a)
]

merge_interval-AllEndBy :
    (n : ℕ) (is : List Interval) (i : Interval)
    → i.1 ≤ n
    → AllEndBy n is
    → AllEndBy n (merge_interval is i)
merge_interval-AllEndBy n is i h a =
    rw (merge_interval-merged is i) (elim (Bool-cases (ltb i.1 i.0)) [
      | inl backward ↦ rw backward a
      | inr forward ↦ rw forward (merged-AllEndBy n is i.0 i.1 h a)
    ])

merge_all-keeps :
    (n : ℕ) (is : List Interval)
    → AllEndBy n is
    → AreSeparate 0 (merge_all is)
      × AllEndBy n (merge_all is)
      × ((t : ℕ) → covered (merge_all is) t ≡ covered is t)
unfolding merge_all
merge_all-keeps n [] a = (tt, tt, λ t. refl)
merge_all-keeps n (i ∷ is) a =
    let (apart, ends, same) = merge_all-keeps n is a.1 in
    let (apart', same') = merge_interval-AreSeparate (merge_all is) i apart in
    (
      apart',
      merge_interval-AllEndBy n (merge_all is) i a.0 ends,
      λ t. same' t ∙ ap (λ b. within i.0 i.1 t || b) (same t),
    )

-- For intervals that end by a 64-bit instant, merged one by one in any order: the sum that the live
-- summary takes over the merged list, the union that the full summary takes over it, and the union
-- of the original intervals are the same duration.
busy_agrees :
    (n : ℕ) (is : List Interval)
    → AllEndBy n is
    → n ≤ u64_max
    → (total_length (merge_all is) ≡ union_duration is)
      × (union_duration (merge_all is) ≡ union_duration is)
busy_agrees n is a l =
    let (apart, ends, same) = merge_all-keeps n is a in
    let counts = count_below_ext n (covered (merge_all is)) (covered is) same in
    let whole = union_duration-count n is a l in
    (
      total_length-count n 0 (merge_all is) apart ends ∙ counts ∙ sym whole,
      union_duration-count n (merge_all is) ends l ∙ counts ∙ sym whole,
    )
