-- ===== src/Intervals/Union.antt =====
-- `union_duration` is the number of covered instants (crates/protocol/src/lib.rs).
use android_ebpf_studio.Prelude.{
  ℕ, zero, suc, ◌+◌, ◌-◌, ◌≡◌, refl, sym, ◌∙◌, ◌≤◌, min, max, inl, inr, List, [], ◌∷◌, arith, leb,
  Bool-cases, u64_max,
}
use android_ebpf_studio.Intervals.{Interval, sort, keep_valid, sweep, sweep_all, union_duration}
use android_ebpf_studio.Intervals.Cover.{
  within, covered, count_below, count_below_ext, count_below-le, count_below-split,
  count_below-within, AllStartFrom, IsSorted, AllUpTo, sort-IsSorted, sort-AllUpTo, covered-sort,
  covered-keep_valid, covered-AllStartFrom,
}

-- An interval that starts within or right behind another extends it.
covered_joined :
    (s e a b : ℕ) (is : List Interval) (t : ℕ)
    → s ≤ a
    → a ≤ e
    → covered ((s, max e b) ∷ is) t ≡ covered ((s, e) ∷ (a, b) ∷ is) t
covered_joined s e a b is t h k = ground arith

pub covered_apart :
    (n s e : ℕ) (is : List Interval)
    → s ≤ e
    → e ≤ n
    → AllStartFrom e is
    → count_below n (covered ((s, e) ∷ is)) ≡ (e - s) + count_below n (covered is)
covered_apart n s e is v h a =
    let split =
      count_below-split n (within s e) (covered is)
        (λ t w. covered-AllStartFrom e is t a (ground arith)) in
    omega (arith, split, count_below-within n s e v)

AllStartFrom-weaken : (s r : ℕ) (is : List Interval) → r ≤ s → AllStartFrom s is → AllStartFrom r is
AllStartFrom-weaken s r [] h a = tt
AllStartFrom-weaken s r (i ∷ is) h a = (omega arith, AllStartFrom-weaken s r is h a.1)

pub count_below_none : (n : ℕ) → count_below n (covered []) ≡ 0
count_below_none zero = refl
count_below_none (suc n) = omega (arith, count_below_none n)

sweep-count :
    (n total s e : ℕ) (is : List Interval)
    → s ≤ e
    → e ≤ n
    → AllStartFrom s is
    → IsSorted is
    → AllUpTo n is
    → total + count_below n (covered ((s, e) ∷ is)) ≤ u64_max
    → sweep total s e is ≡ total + count_below n (covered ((s, e) ∷ is))
unfolding sweep
sweep-count n total s e [] v h a o u l =
    omega (arith, covered_apart n s e [] v h tt, count_below_none n)
sweep-count n total s e ((a, b) ∷ is) v h f o u l = elim (Bool-cases (leb a e)) [
  | inl near ↦
      let same =
        count_below_ext n (covered ((s, max e b) ∷ is)) (covered ((s, e) ∷ (a, b) ∷ is))
          (λ t. covered_joined s e a b is t f.0 (ground arith)) in
      rw (near, ← same)
        (sweep-count n total s (max e b) is (omega arith) (omega arith) f.1 o.1 u.2
          (omega (arith, same)))
  | inr far ↦
      let gone =
        covered_apart n s e ((a, b) ∷ is) v h
          (ground arith, AllStartFrom-weaken a e is (ground arith) o.0) in
      let fits : min (total + (e - s)) u64_max ≡ total + (e - s) = omega (arith, gone) in
      rw (far, fits)
        (sweep-count n (total + (e - s)) a b is u.0 u.1 o.0 o.1 u.2 (omega (arith, gone))
          ∙ omega (arith, gone))
]

sweep_all-count :
    (n : ℕ) (is : List Interval)
    → IsSorted is
    → AllUpTo n is
    → n ≤ u64_max
    → sweep_all is ≡ count_below n (covered is)
unfolding sweep_all
sweep_all-count n [] o u l = sym (count_below_none n)
sweep_all-count n ((s, e) ∷ is) o u l =
    let most = count_below-le n (covered ((s, e) ∷ is)) in
    sweep-count n 0 s e is u.0 u.1 o.0 o.1 u.2 (omega (arith, most)) ∙ omega arith

-- No interval ends after the bound.
abbrev pub AllEndBy : ℕ → List Interval → Type 0
AllEndBy n [] = Unit {0}
AllEndBy n (i ∷ is) = (i.1 ≤ n) × AllEndBy n is

keep_valid-AllUpTo : (n : ℕ) (is : List Interval) → AllEndBy n is → AllUpTo n (keep_valid is)
unfolding keep_valid
keep_valid-AllUpTo n [] a = tt
keep_valid-AllUpTo n (i ∷ is) a = ground (arith, keep_valid-AllUpTo n is a.1)

-- The union of any intervals that end by a 64-bit instant lasts as long as there are instants which
-- some interval holds, however the intervals overlap, nest or repeat; intervals that end before they
-- start hold none.
pub union_duration-count :
    (n : ℕ) (is : List Interval)
    → AllEndBy n is
    → n ≤ u64_max
    → union_duration is ≡ count_below n (covered is)
unfolding union_duration
union_duration-count n is a l =
    sweep_all-count n (sort (keep_valid is)) (sort-IsSorted (keep_valid is))
      (sort-AllUpTo n (keep_valid is) (keep_valid-AllUpTo n is a)) l
    ∙ count_below_ext n (covered (sort (keep_valid is))) (covered is)
        (λ t. covered-sort (keep_valid is) t ∙ covered-keep_valid is t)
