-- ===== src/Intervals/Merge.antt =====
-- `merge_interval` keeps a list of separate intervals that covers what was merged.
use android_ebpf_studio.Prelude.{
  ℕ, suc, ◌+◌, ◌≡◌, refl, ap, ◌≤◌, min, max, ◌||◌, inl, inr, List, [], ◌∷◌, ◌++◌, take, drop, arith,
  ltb, leb, if◌then◌else◌, Bool-cases,
}
use android_ebpf_studio.Intervals.{Interval, ends_before, absorb, merge_interval}
use android_ebpf_studio.Intervals.Cover.{within, covered}

-- Each interval starts from the bound on and ends no earlier than it starts, and the next starts
-- behind its end.
abbrev pub AreSeparate : ℕ → List Interval → Type 0
AreSeparate low [] = Unit {0}
AreSeparate low (i ∷ is) = (low ≤ i.0) × (i.0 ≤ i.1) × AreSeparate (i.1 + 1) is

-- The same by recursion: intervals that end before the start stay in front, those that start up to
-- the end are absorbed.
abbrev pub absorbed : List Interval → ℕ → ℕ → List Interval
absorbed [] start end = (start, end) ∷ []
absorbed (i ∷ is) start end =
    if leb i.0 end then absorbed is (min start i.0) (max end i.1) else (start, end) ∷ i ∷ is

abbrev pub merged : List Interval → ℕ → ℕ → List Interval
merged [] start end = (start, end) ∷ []
merged (i ∷ is) start end =
    if ltb i.1 start then i ∷ merged is start end else absorbed (i ∷ is) start end

abbrev spliced : ℕ × ℕ × ℕ → List Interval → List Interval
spliced r is = (r.0, r.1) ∷ drop r.2 is

absorb_shift :
    (is : List Interval) (s e k : ℕ)
    → absorb is s e (suc k) ≡ ((absorb is s e k).0, (absorb is s e k).1, suc (absorb is s e k).2)
unfolding absorb
absorb_shift [] s e k = refl
absorb_shift (i ∷ is) s e k = ground (arith, absorb_shift is (min s i.0) (max e i.1) (suc k))

absorb-absorbed : (is : List Interval) (s e : ℕ) → spliced (absorb is s e 0) is ≡ absorbed is s e
unfolding absorb
absorb-absorbed [] s e = refl
absorb-absorbed (i ∷ is) s e = elim (Bool-cases (leb i.0 e)) [
  | inl in_reach ↦
      rw (in_reach, absorb_shift is (min s i.0) (max e i.1) 0)
        (absorb-absorbed is (min s i.0) (max e i.1))
  | inr beyond ↦ rw beyond refl
]

splice_merged :
    (is : List Interval) (s e : ℕ)
    → take (ends_before s is) is
        ++ spliced (absorb (drop (ends_before s is) is) s e (ends_before s is)) is
      ≡ merged is s e
unfolding ends_before absorb
splice_merged [] s e = refl
splice_merged (i ∷ is) s e = elim (Bool-cases (ltb i.1 s)) [
  | inl before ↦
      rw (before, absorb_shift (drop (ends_before s is) is) s e (ends_before s is))
        (ap (λ js. i ∷ js) (splice_merged is s e))
  | inr reaches ↦ rw reaches (absorb-absorbed (i ∷ is) s e)
]

pub merge_interval-merged :
    (is : List Interval) (i : Interval)
    → merge_interval is i ≡ (if ltb i.1 i.0 then is else merged is i.0 i.1)
unfolding merge_interval
merge_interval-merged is i = ap (λ js. if ltb i.1 i.0 then is else js) (splice_merged is i.0 i.1)

abbrev AllEndFrom : ℕ → List Interval → Type 0
AllEndFrom s [] = Unit {0}
AllEndFrom s (i ∷ is) = (s ≤ i.1) × AllEndFrom s is

AllEndFrom-mono : (s r : ℕ) (is : List Interval) → r ≤ s → AllEndFrom s is → AllEndFrom r is
AllEndFrom-mono s r [] h a = tt
AllEndFrom-mono s r (i ∷ is) h a = (omega arith, AllEndFrom-mono s r is h a.1)

separate-AllEndFrom :
    (low s : ℕ) (is : List Interval) → s ≤ low → AreSeparate low is → AllEndFrom s is
separate-AllEndFrom low s [] h a = tt
separate-AllEndFrom low s (i ∷ is) h a =
    (omega arith, separate-AllEndFrom (i.1 + 1) s is (omega arith) a.2)

AreSeparate-mono :
    (low low' : ℕ) (is : List Interval) → low' ≤ low → AreSeparate low is → AreSeparate low' is
AreSeparate-mono low low' [] h a = tt
AreSeparate-mono low low' (i ∷ is) h a = (omega arith, a.1, a.2)

covered-absorbed :
    (is : List Interval) (low s e t : ℕ)
    → s ≤ e
    → AllEndFrom s is
    → AreSeparate low is
    → covered (absorbed is s e) t ≡ (within s e t || covered is t)
covered-absorbed [] low s e t v a p = refl
covered-absorbed (i ∷ is) low s e t v a p = ground (
  arith,
  covered-absorbed is (i.1 + 1) (min s i.0) (max e i.1) t (omega arith)
      (AllEndFrom-mono s (min s i.0) is (omega arith) a.1) p.2,
)

covered-merged :
    (is : List Interval) (low s e t : ℕ)
    → s ≤ e
    → AreSeparate low is
    → covered (merged is s e) t ≡ (within s e t || covered is t)
covered-merged [] low s e t v p = refl
covered-merged (i ∷ is) low s e t v p = elim (Bool-cases (ltb i.1 s)) [
  | inl before ↦ rw before (ground (arith, covered-merged is (i.1 + 1) s e t v p.2))
  | inr reaches ↦ rw reaches (
      covered-absorbed (i ∷ is) low s e t v
        (ground arith, separate-AllEndFrom (i.1 + 1) s is (ground arith) p.2) p)
]

absorbed-AreSeparate :
    (is : List Interval) (low low' s e : ℕ)
    → s ≤ e
    → low ≤ s
    → low ≤ low'
    → AreSeparate low' is
    → AreSeparate low (absorbed is s e)
absorbed-AreSeparate [] low low' s e v h k p = (h, v, tt)
absorbed-AreSeparate (i ∷ is) low low' s e v h k p = ground (
  arith,
  absorbed-AreSeparate is low (i.1 + 1) (min s i.0) (max e i.1) (omega arith) (omega arith)
      (omega arith) p.2,
)

merged-AreSeparate :
    (is : List Interval) (low s e : ℕ)
    → s ≤ e
    → low ≤ s
    → AreSeparate low is
    → AreSeparate low (merged is s e)
merged-AreSeparate [] low s e v h p = (h, v, tt)
merged-AreSeparate (i ∷ is) low s e v h p = elim (Bool-cases (ltb i.1 s)) [
  | inl before ↦ rw before (p.0, p.1, merged-AreSeparate is (i.1 + 1) s e v (ground arith) p.2)
  | inr reaches ↦ rw reaches (absorbed-AreSeparate (i ∷ is) low low s e v h (omega arith) p)
]

-- Merging an interval into separate intervals in order gives separate intervals in order that hold
-- exactly the instants of the interval and of the list.
pub merge_interval-AreSeparate :
    (is : List Interval) (i : Interval)
    → AreSeparate 0 is
    → AreSeparate 0 (merge_interval is i)
      × ((t : ℕ) → covered (merge_interval is i) t ≡ covered (i ∷ is) t)
merge_interval-AreSeparate is i p =
    rw (merge_interval-merged is i) (elim (Bool-cases (ltb i.1 i.0)) [
      | inl backward ↦ rw backward (p, λ t. ground arith)
      | inr forward ↦ rw forward (
        merged-AreSeparate is 0 i.0 i.1 (ground arith) (omega arith) p,
        λ t. covered-merged is 0 i.0 i.1 t (ground arith) p,
      )
    ])
