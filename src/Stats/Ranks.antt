-- ===== src/Stats/Ranks.antt =====
-- The exact percentile of a sorted list, and the range that a histogram of the same values gives.
use android_ebpf_studio.Prelude.{
  ℕ, zero, suc, ◌+◌, ◌-◌, ◌*◌, ◌/◌, ◌≤◌, ◌<◌, ◌≡◌, refl, ◌⊎◌, inl, inr, Option, none, some, List,
  [], ◌∷◌, arith, length, get_elem?, u64_max,
}
use android_ebpf_studio.Histogram.{Histogram, percentile_range}
use android_ebpf_studio.Histogram.Tally.{Tallies, count_le}
use android_ebpf_studio.Histogram.Percentile.{count_lt, Reaches, percentile_range-Brackets}
use android_ebpf_studio.Stats.{rank_of, percentile}

abbrev pub AllFrom : ℕ → List ℕ → Type 0
AllFrom low [] = Unit {0}
AllFrom low (v ∷ vs) = (low ≤ v) × AllFrom low vs

abbrev pub IsSorted : List ℕ → Type 0
IsSorted [] = Unit {0}
IsSorted (v ∷ vs) = AllFrom v vs × IsSorted vs

count_le_below : (b low : ℕ) (vs : List ℕ) → AllFrom low vs → b < low → count_le b vs ≡ 0
count_le_below b low [] a l = refl
count_le_below b low (v ∷ vs) a l = ground (arith, count_le_below b low vs a.1 l)

count_lt_below : (b low : ℕ) (vs : List ℕ) → AllFrom low vs → b ≤ low → count_lt b vs ≡ 0
count_lt_below b low [] a l = refl
count_lt_below b low (v ∷ vs) a l = ground (arith, count_lt_below b low vs a.1 l)

AllFrom-get : (low : ℕ) (vs : List ℕ) (i x : ℕ) → AllFrom low vs → get_elem? vs i ≡ some x → low ≤ x
AllFrom-get low [] i x a e = cc
AllFrom-get low (v ∷ vs) zero x a e = ground arith
AllFrom-get low (v ∷ vs) (suc i) x a e = AllFrom-get low vs i x a.1 e

-- The value at index `i` has at most `i` values below it, and more than `i` not above it.
get_elem?-ranked :
    (vs : List ℕ) (i x : ℕ)
    → IsSorted vs
    → get_elem? vs i ≡ some x
    → (count_lt x vs ≤ i) × (i < count_le x vs)
get_elem?-ranked [] i x s e = cc
get_elem?-ranked (v ∷ vs) zero x s e = ground (arith, count_lt_below x v vs s.0)
get_elem?-ranked (v ∷ vs) (suc i) x s e =
    let (a, b) = get_elem?-ranked vs i x s.1 e in let c = AllFrom-get v vs i x s.0 e in ground arith

get_elem?-some : (vs : List ℕ) (i : ℕ) → i < length vs → (x : ℕ) × (get_elem? vs i ≡ some x)
get_elem?-some [] i h = absurd (omega arith)
get_elem?-some (v ∷ vs) zero h = (v, refl)
get_elem?-some (v ∷ vs) (suc i) h = get_elem?-some vs i (omega arith)

count_le_mono : (a b : ℕ) (vs : List ℕ) → a ≤ b → count_le a vs ≤ count_le b vs
count_le_mono a b [] h = omega arith
count_le_mono a b (v ∷ vs) h = ground (arith, count_le_mono a b vs h)

pub count_le-lt : (a b : ℕ) (vs : List ℕ) → a < b → count_le a vs ≤ count_lt b vs
count_le-lt a b [] h = omega arith
count_le-lt a b (v ∷ vs) h = ground (arith, count_le-lt a b vs h)

rank_of-bounds : (p n : ℕ) → 0 < n → p ≤ 100 → (1 ≤ rank_of p n) × (rank_of p n ≤ n)
rank_of-bounds p n l h = let all : p * n ≤ 100 * n = grind arith in (omega arith, omega arith)

-- The exact percentile, up to 100, of a sorted list of at least one value is a value of which fewer
-- than rank values are smaller and at least rank values are at most it, where the rank is
-- ceil(percentile * n / 100), and 1 for the percentile 0.
pub percentile-ranked :
    (vs : List ℕ) (p : ℕ)
    → IsSorted vs
    → 0 < length vs
    → p ≤ 100
    → (x : ℕ) × (percentile vs p ≡ some x)
      × (count_lt x vs < rank_of p (length vs))
      × (rank_of p (length vs) ≤ count_le x vs)
unfolding percentile
percentile-ranked [] p s l h = absurd (omega arith)
percentile-ranked (v ∷ vs) p s l h =
    let (low, high) = rank_of-bounds p (length (v ∷ vs)) l h in
    let (x, e) = get_elem?-some (v ∷ vs) (rank_of p (length (v ∷ vs)) - 1) (omega arith) in
    let (a, b) = get_elem?-ranked (v ∷ vs) (rank_of p (length (v ∷ vs)) - 1) x s e in
    (x, e, omega arith, omega arith)

abbrev pub IsBelow : ℕ → Option ℕ → Type 0
IsBelow x none = Unit {0}
IsBelow x (some upper) = x ≤ upper

le_or_lt : (a b : ℕ) → (a ≤ b) ⊎ (b < a)
le_or_lt a b = grind arith

IsBelow-upper :
    (x rank : ℕ) (upper : Option ℕ) (vs : List ℕ)
    → count_lt x vs < rank
    → Reaches rank upper vs
    → IsBelow x upper
IsBelow-upper x rank none vs a r = tt
IsBelow-upper x rank (some u) vs a r = elim (le_or_lt x u) [
  | inl h ↦ h
  | inr h ↦ absurd (omega (arith, count_le-lt u x vs h))
]

above_lower :
    (x rank lower : ℕ) (vs : List ℕ) → rank ≤ count_le x vs → count_lt lower vs < rank → lower ≤ x
above_lower x rank lower vs a r = elim (le_or_lt lower x) [
  | inl h ↦ h
  | inr h ↦ absurd (omega (arith, count_le-lt x lower vs h))
]

-- The live percentile and the exact one agree: for a histogram that counts the sorted values, of at
-- least one value and of so many that 100 times their number plus 99 fits in 64 bits, and a
-- percentile from 1 to 100, the exact percentile exists and lies in the range that the histogram
-- gives.
pub percentile-within :
    (h : Histogram) (vs : List ℕ) (p : ℕ)
    → Tallies h vs
    → IsSorted vs
    → 0 < length vs
    → length vs * 100 + 99 ≤ u64_max
    → 1 ≤ p
    → p ≤ 100
    → (x : ℕ) × (r : ℕ × Option ℕ) × (percentile vs p ≡ some x)
      × (percentile_range h p ≡ some r)
      × (r.0 ≤ x)
      × IsBelow x r.1
percentile-within h vs p t s n l lo hi =
    let (x, e, below, upto) = percentile-ranked vs p s n hi in
    let (r, found, (low, reach)) = percentile_range-Brackets h vs p t n l lo hi in
    let some_rank : 1 * length vs ≤ p * length vs = grind arith in
    let comm : p * length vs ≡ length vs * p = grind arith in
    let same : rank_of p (length vs) ≡ (length vs * p + 99) / 100 = omega arith in
    (
      x,
      r,
      e,
      found,
      above_lower x (rank_of p (length vs)) r.0 vs upto (rw same low),
      IsBelow-upper x (rank_of p (length vs)) r.1 vs below (rw same reach),
    )
