-- ===== src/Intervals/Gaps.antt =====
-- `uncovered_intervals` covers exactly the rest of the bounds (crates/protocol/src/lib.rs).
use android_ebpf_studio.Prelude.{
  ℕ, ◌+◌, ◌≡◌, ◌≤◌, ◌<◌, max, ◌&&◌, ◌||◌, Bool, false, not, List, [], ◌∷◌, arith,
}
use android_ebpf_studio.Intervals.{
  Interval, UnaccountedInterval, sort, insert_sorted, clip, gaps_from, uncovered_intervals,
}
use android_ebpf_studio.Intervals.Cover.{
  within, covered, IsSorted, AllUpTo, sort-IsSorted, sort-AllUpTo, covered-sort,
  covered-AllStartFrom,
}

-- Some gap holds the instant.
abbrev pub in_gap : List UnaccountedInterval → ℕ → Bool
in_gap [] t = false
in_gap (g ∷ gs) t = within g.start_ts_ns g.end_ts_ns t || in_gap gs t

-- The gaps follow one another, none is empty and none touches the next, from the cursor to the end.
abbrev pub AreApart : ℕ → ℕ → List UnaccountedInterval → Type 0
AreApart cursor end [] = Unit {0}
AreApart cursor end (g ∷ gs) =
    (cursor ≤ g.start_ts_ns)
    × (g.start_ts_ns < g.end_ts_ns)
    × (g.end_ts_ns ≤ end)
    × AreApart (g.end_ts_ns + 1) end gs

clip-AllUpTo : (b e : ℕ) (is : List Interval) → AllUpTo e (clip b e is)
unfolding clip
clip-AllUpTo b e [] = tt
clip-AllUpTo b e (i ∷ is) = ground (arith, clip-AllUpTo b e is)

covered-clip :
    (b e : ℕ) (is : List Interval) (t : ℕ)
    → covered (clip b e is) t ≡ (within b e t && covered is t)
unfolding clip
covered-clip b e [] t = ground arith
covered-clip b e (i ∷ is) t = ground (arith, covered-clip b e is t)

gaps_from-covers :
    (cursor end : ℕ) (is : List Interval) (t : ℕ)
    → IsSorted is
    → AllUpTo end is
    → in_gap (gaps_from cursor end is) t ≡ (within cursor end t && not (covered is t))
unfolding gaps_from
gaps_from-covers c end [] t o u = ground arith
gaps_from-covers c end ((a, b) ∷ is) t o u =
    ground (arith, gaps_from-covers (max c b) end is t o.1 u.2, covered-AllStartFrom a is t o.0)

AreApart-mono :
    (low low' end : ℕ) (gs : List UnaccountedInterval)
    → low' ≤ low
    → AreApart low end gs
    → AreApart low' end gs
AreApart-mono low low' end [] h a = tt
AreApart-mono low low' end (g ∷ gs) h a = (omega arith, a.1, a.2, a.3)

abbrev AllLast : List Interval → Type 0
AllLast [] = Unit {0}
AllLast (i ∷ is) = (i.0 < i.1) × AllLast is

clip-AllLast : (b e : ℕ) (is : List Interval) → AllLast (clip b e is)
unfolding clip
clip-AllLast b e [] = tt
clip-AllLast b e (i ∷ is) = ground (arith, clip-AllLast b e is)

insert_sorted-AllLast :
    (i : Interval) (is : List Interval) → i.0 < i.1 → AllLast is → AllLast (insert_sorted i is)
unfolding insert_sorted
insert_sorted-AllLast i [] h a = (h, tt)
insert_sorted-AllLast i (j ∷ js) h a = ground (arith, insert_sorted-AllLast i js h a.1)

sort-AllLast : (is : List Interval) → AllLast is → AllLast (sort is)
unfolding sort
sort-AllLast [] a = tt
sort-AllLast (i ∷ is) a = insert_sorted-AllLast i (sort is) a.0 (sort-AllLast is a.1)

gaps_from-AreApart :
    (c end : ℕ) (is : List Interval)
    → AllLast is
    → AllUpTo end is
    → AreApart c end (gaps_from c end is)
unfolding gaps_from
gaps_from-AreApart c end [] l u = ground arith
gaps_from-AreApart c end ((a, b) ∷ is) l u =
    let later = gaps_from-AreApart (max c b) end is l.1 u.2 in
    let after_gap =
      AreApart-mono (max c b) (a + 1) end (gaps_from (max c b) end is) (omega arith) later in
    let after_none =
      AreApart-mono (max c b) c end (gaps_from (max c b) end is) (omega arith) later in
    ground (arith, after_gap, after_none)

-- Within the bounds the gaps hold exactly the instants that no interval holds, and outside of the
-- bounds none; they are in order, none is empty and no two of them touch.
pub uncovered_intervals-complement :
    (b e : ℕ) (is : List Interval)
    → ((t : ℕ) → in_gap (uncovered_intervals b e is) t ≡ (within b e t && not (covered is t)))
      × AreApart b e (uncovered_intervals b e is)
unfolding uncovered_intervals
uncovered_intervals-complement b e is =
    let clipped = clip b e is in
    (
      (λ t. ground (
        arith,
        gaps_from-covers b e (sort clipped) t (sort-IsSorted clipped)
            (sort-AllUpTo e clipped (clip-AllUpTo b e is)),
        covered-sort clipped t,
        covered-clip b e is t,
      )),
      gaps_from-AreApart b e (sort clipped) (sort-AllLast clipped (clip-AllLast b e is))
          (sort-AllUpTo e clipped (clip-AllUpTo b e is)),
    )
