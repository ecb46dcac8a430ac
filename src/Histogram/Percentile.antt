-- ===== src/Histogram/Percentile.antt =====
-- The range of a percentile holds the value of that rank (`Histogram::percentile_range`).
use android_ebpf_studio.Prelude.{
  ℕ, zero, suc, ◌+◌, ◌*◌, ◌/◌, ◌%◌, ◌≤◌, ◌<◌, ◌≡◌, refl, inl, inr, true, false, Option, none, some,
  List, [], ◌∷◌, arith, ltb, leb, ltb→lt, if◌then◌else◌, length, get_or, get_elem?, drop,
  saturating_add, Bool-cases, u64_max, min,
}
use android_ebpf_studio.Histogram.{
  Histogram, sum, u64_modulus, total_count, bucket_range, scan, percentile_rank, percentile_range,
}
use android_ebpf_studio.Histogram.Tally.{Tallies, Cumulative, count_le, count_le-length}

-- How many values are below `b`.
abbrev pub count_lt : ℕ → List ℕ → ℕ
count_lt b [] = 0
count_lt b (v ∷ vs) = (if ltb v b then 1 else 0) + count_lt b vs

abbrev pub Reaches : ℕ → Option ℕ → List ℕ → Type 0
Reaches rank none vs = rank ≤ length vs
Reaches rank (some upper) vs = rank ≤ count_le upper vs

-- Counted from the smallest, the value number `rank` lies in the range: fewer than `rank` values
-- are below its lower bound, and at least `rank` are not above its upper bound.
abbrev pub Brackets : ℕ → ℕ × Option ℕ → List ℕ → Type 0
Brackets rank r vs = (count_lt r.0 vs < rank) × Reaches rank r.1 vs

count_lt_zero : (vs : List ℕ) → count_lt 0 vs ≡ 0
count_lt_zero [] = refl
count_lt_zero (v ∷ vs) = ground (arith, count_lt_zero vs)

count_lt-le : (b : ℕ) (vs : List ℕ) → count_lt (saturating_add b 1) vs ≤ count_le b vs
count_lt-le b [] = omega arith
count_lt-le b (v ∷ vs) = ground (arith, count_lt-le b vs)

pub drop-head :
    (bs : List ℕ) (i b : ℕ) (rest : List ℕ)
    → drop i bs ≡ b ∷ rest
    → (get_elem? bs i ≡ some b) × (get_or bs i 0 ≡ b) × (drop (suc i) bs ≡ rest)
drop-head [] zero b rest e = cc
drop-head [] (suc i) b rest e = cc
drop-head (c ∷ bs) zero b rest e = ground arith
drop-head (c ∷ bs) (suc i) b rest e = drop-head bs i b rest e

pub drop-none : (bs : List ℕ) (i : ℕ) → drop i bs ≡ [] → get_elem? bs i ≡ none
drop-none [] i e = refl
drop-none (c ∷ bs) zero e = cc
drop-none (c ∷ bs) (suc i) e = drop-none bs i e

pub range-upper : (bs : List ℕ) (i : ℕ) → (bucket_range bs i).1 ≡ get_elem? bs i
range-upper bs zero = refl
range-upper bs (suc i) = refl

Cumulative-sum :
    (base : ℕ) (bs cs vs : List ℕ) → Cumulative base bs cs vs → base + sum cs ≡ length vs
Cumulative-sum base [] [] vs h = absurd h
Cumulative-sum base [] (c ∷ []) vs h = omega arith
Cumulative-sum base [] (c ∷ d ∷ cs) vs h = absurd h
Cumulative-sum base (b ∷ bs) [] vs h = absurd h
Cumulative-sum base (b ∷ bs) (c ∷ cs) vs h = omega (arith, Cumulative-sum (base + c) bs cs vs h.1)

abbrev Found : ℕ → List ℕ → Option (ℕ × Option ℕ) → Type 0
Found rank vs none = ⊥
Found rank vs (some r) = Brackets rank r vs

scan-Found :
    (boundaries : List ℕ) (rank i cumulative : ℕ) (bs cs vs : List ℕ)
    → drop i boundaries ≡ bs
    → Cumulative cumulative bs cs vs
    → count_lt (bucket_range boundaries i).0 vs < rank
    → rank ≤ length vs
    → length vs ≤ u64_max
    → Found rank vs (scan boundaries rank i cumulative cs)
unfolding scan
scan-Found boundaries rank i k [] [] vs e h low r l = absurd h
scan-Found boundaries rank i k [] (c ∷ []) vs e h low r l =
    let all : min (k + c) u64_max ≡ length vs = omega arith in
    let stop : ltb (length vs) rank ≡ false = ground arith in
    rw (all, stop) (low, rw (range-upper boundaries i, drop-none boundaries i e) r)
scan-Found boundaries rank i k [] (c ∷ d ∷ cs) vs e h low r l = absurd h
scan-Found boundaries rank i k (b ∷ bs) [] vs e h low r l = absurd h
scan-Found boundaries rank i k (b ∷ bs) (c ∷ cs) vs e h low r l =
    let (here, value, rest) = drop-head boundaries i b bs e in
    let sat : min (k + c) u64_max ≡ k + c = omega (arith, h.0, count_le-length b vs) in
    elim (Bool-cases (ltb (k + c) rank)) [
      | inl more ↦
          rw (sat, more)
            (scan-Found boundaries rank (suc i) (k + c) bs cs vs rest h.1
              (rw value (omega (arith, count_lt-le b vs, h.0, ltb→lt (k + c) rank more))) r l)
      | inr stop ↦ rw (sat, stop) (low, rw (range-upper boundaries i, here) (ground arith))
    ]

total-length :
    (h : Histogram) (vs : List ℕ)
    → Tallies h vs
    → length vs ≤ u64_max
    → sum h.counts % u64_modulus ≡ length vs
total-length h vs t l = omega (arith, Cumulative-sum 0 h.boundaries h.counts vs t.cumulative)

rank_in_range :
    (n p : ℕ) → n * 100 + 99 ≤ u64_max → p ≤ 100 → percentile_rank n p ≡ (n * p + 99) / 100
rank_in_range n p l hi =
    let small : n * p ≤ n * 100 = grind arith in
    let product : leb (n * p) u64_max ≡ true = ground arith in
    let room : min (n * p + 99) u64_max ≡ n * p + 99 = omega arith in rw (product, room) refl

rank_pos : (n p : ℕ) → 0 < n → 1 ≤ p → 0 < (n * p + 99) / 100
rank_pos n p a b = let one : n * 1 ≤ n * p = grind arith in omega arith

rank_le : (n p : ℕ) → p ≤ 100 → (n * p + 99) / 100 ≤ n
rank_le n p hi = let all : n * p ≤ n * 100 = grind arith in omega arith

Found-range :
    (rank : ℕ) (vs : List ℕ) (o : Option (ℕ × Option ℕ))
    → Found rank vs o
    → (r : ℕ × Option ℕ) × (o ≡ some r) × Brackets rank r vs
Found-range rank vs none f = absurd f
Found-range rank vs (some r) f = (r, refl, f)

ranked :
    (h : Histogram) (vs : List ℕ) (p : ℕ)
    → Tallies h vs
    → 0 < length vs
    → length vs * 100 + 99 ≤ u64_max
    → 1 ≤ p
    → p ≤ 100
    → (r : ℕ × Option ℕ) × (scan h.boundaries ((length vs * p + 99) / 100) 0 0 h.counts ≡ some r)
      × Brackets ((length vs * p + 99) / 100) r vs
ranked h vs p t n l lo hi = Found-range _ vs _ (
    scan-Found h.boundaries ((length vs * p + 99) / 100) 0 0 h.boundaries h.counts vs refl
      t.cumulative (rw (count_lt_zero vs) (rank_pos (length vs) p n lo)) (rank_le (length vs) p hi)
      (omega arith))

-- For a histogram that counts `vs`, of at least one value and of so many that 100 times their
-- number plus 99 fits in 64 bits: a percentile from 1 to 100 has a range, and the value of rank
-- ceil(n * percentile / 100) lies in it, in that fewer than rank values are below the lower bound
-- and at least rank values are at most the upper one.
pub percentile_range-Brackets :
    (h : Histogram) (vs : List ℕ) (percentile : ℕ)
    → Tallies h vs
    → 0 < length vs
    → length vs * 100 + 99 ≤ u64_max
    → 1 ≤ percentile
    → percentile ≤ 100
    → (r : ℕ × Option ℕ) × (percentile_range h percentile ≡ some r)
      × Brackets ((length vs * percentile + 99) / 100) r vs
unfolding percentile_range total_count
percentile_range-Brackets h vs p t n l lo hi =
    let (r, found, within) = ranked h vs p t n l lo hi in
    (
      r,
      rw (total-length h vs t (omega arith), rank_in_range (length vs) p l hi)
          (ground (arith, found)),
      within,
    )
