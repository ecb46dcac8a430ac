-- ===== src/Intervals/Cover.antt =====
-- The instants that a list of intervals covers, and how many there are.
use android_ebpf_studio.Prelude.{
  ℕ, zero, suc, ◌+◌, ◌-◌, ◌≡◌, refl, ◌≤◌, ◌<◌, min, ◌&&◌, ◌||◌, Bool, true, false, List, [], ◌∷◌,
  arith, ltb, leb, if◌then◌else◌,
}
use android_ebpf_studio.Intervals.{Interval, insert_sorted, sort, keep_valid}

abbrev pub within : ℕ → ℕ → ℕ → Bool
within start end t = leb start t && ltb t end

-- Some interval holds the instant.
abbrev pub covered : List Interval → ℕ → Bool
covered [] t = false
covered (i ∷ is) t = within i.0 i.1 t || covered is t

-- How many instants below the bound pass the test.
abbrev pub count_below : ℕ → (ℕ → Bool) → ℕ
count_below zero p = 0
count_below (suc n) p = (if p n then 1 else 0) + count_below n p

pub count_below_ext :
    (n : ℕ) (p q : ℕ → Bool) → ((t : ℕ) → p t ≡ q t) → count_below n p ≡ count_below n q
count_below_ext zero p q h = refl
count_below_ext (suc n) p q h = rw (h n, count_below_ext n p q h)

pub count_below-le : (n : ℕ) (p : ℕ → Bool) → count_below n p ≤ n
count_below-le zero p = omega arith
count_below-le (suc n) p = ground (arith, count_below-le n p)

pub count_below-split :
    (n : ℕ) (p q : ℕ → Bool)
    → ((t : ℕ) → p t ≡ true → q t ≡ false)
    → count_below n (λ t. p t || q t) ≡ count_below n p + count_below n q
count_below-split zero p q h = refl
count_below-split (suc n) p q h = ground (arith, count_below-split n p q h, h n)

pub count_below-within :
    (n start end : ℕ) → start ≤ end → count_below n (within start end) ≡ min end n - min start n
count_below-within zero start end h = omega arith
count_below-within (suc n) start end h = ground (arith, count_below-within n start end h)

abbrev pub AllStartFrom : ℕ → List Interval → Type 0
AllStartFrom s [] = Unit {0}
AllStartFrom s (i ∷ is) = (s ≤ i.0) × AllStartFrom s is

abbrev pub IsSorted : List Interval → Type 0
IsSorted [] = Unit {0}
IsSorted (i ∷ is) = AllStartFrom i.0 is × IsSorted is

-- Every interval ends after it starts, or as it starts, and not after the bound.
abbrev pub AllUpTo : ℕ → List Interval → Type 0
AllUpTo n [] = Unit {0}
AllUpTo n (i ∷ is) = (i.0 ≤ i.1) × (i.1 ≤ n) × AllUpTo n is

AllStartFrom-mono : (s r : ℕ) (is : List Interval) → r ≤ s → AllStartFrom s is → AllStartFrom r is
AllStartFrom-mono s r [] h a = tt
AllStartFrom-mono s r (i ∷ is) h a = (omega arith, AllStartFrom-mono s r is h a.1)

insert_sorted-AllStartFrom :
    (s : ℕ) (i : Interval) (is : List Interval)
    → s ≤ i.0
    → AllStartFrom s is
    → AllStartFrom s (insert_sorted i is)
unfolding insert_sorted
insert_sorted-AllStartFrom s i [] h a = (h, tt)
insert_sorted-AllStartFrom s i (j ∷ js) h a =
    ground (arith, insert_sorted-AllStartFrom s i js h a.1)

insert_sorted-IsSorted :
    (i : Interval) (is : List Interval) → IsSorted is → IsSorted (insert_sorted i is)
unfolding insert_sorted
insert_sorted-IsSorted i [] s = (tt, tt)
insert_sorted-IsSorted i (j ∷ js) s = ground (
  arith,
  insert_sorted-IsSorted i js s.1,
  insert_sorted-AllStartFrom j.0 i js,
  AllStartFrom-mono j.0 i.0 js,
)

pub sort-IsSorted : (is : List Interval) → IsSorted (sort is)
unfolding sort
sort-IsSorted [] = tt
sort-IsSorted (i ∷ is) = insert_sorted-IsSorted i (sort is) (sort-IsSorted is)

insert_sorted-AllUpTo :
    (n : ℕ) (i : Interval) (is : List Interval)
    → i.0 ≤ i.1
    → i.1 ≤ n
    → AllUpTo n is
    → AllUpTo n (insert_sorted i is)
unfolding insert_sorted
insert_sorted-AllUpTo n i [] v h a = (v, h, tt)
insert_sorted-AllUpTo n i (j ∷ js) v h a = ground (arith, insert_sorted-AllUpTo n i js v h a.2)

pub sort-AllUpTo : (n : ℕ) (is : List Interval) → AllUpTo n is → AllUpTo n (sort is)
unfolding sort
sort-AllUpTo n [] a = tt
sort-AllUpTo n (i ∷ is) a = insert_sorted-AllUpTo n i (sort is) a.0 a.1 (sort-AllUpTo n is a.2)

covered-insert_sorted :
    (i : Interval) (is : List Interval) (t : ℕ)
    → covered (insert_sorted i is) t ≡ covered (i ∷ is) t
unfolding insert_sorted
covered-insert_sorted i [] t = refl
covered-insert_sorted i (j ∷ js) t = ground (arith, covered-insert_sorted i js t)

pub covered-sort : (is : List Interval) (t : ℕ) → covered (sort is) t ≡ covered is t
unfolding sort
covered-sort [] t = refl
covered-sort (i ∷ is) t = ground (arith, covered-insert_sorted i (sort is) t, covered-sort is t)

pub covered-keep_valid : (is : List Interval) (t : ℕ) → covered (keep_valid is) t ≡ covered is t
unfolding keep_valid
covered-keep_valid [] t = refl
covered-keep_valid (i ∷ is) t = ground (arith, covered-keep_valid is t)

-- Before the first start nothing is covered.
pub covered-AllStartFrom :
    (s : ℕ) (is : List Interval) (t : ℕ) → AllStartFrom s is → t < s → covered is t ≡ false
covered-AllStartFrom s [] t a h = refl
covered-AllStartFrom s (i ∷ is) t a h = ground (arith, covered-AllStartFrom s is t a.1 h)
