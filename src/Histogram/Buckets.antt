-- ===== src/Histogram/Buckets.antt =====
-- The range of a percentile is the range of a bucket (`Histogram::percentile_range`).
use android_ebpf_studio.Prelude.{
  ℕ, suc, ◌+◌, ◌≡◌, refl, sym, ◌∙◌, ap, ◌⊎◌, inl, inr, Option, none, some, List, [], ◌∷◌, arith,
  ltb, eqb, ◌||◌, length, drop, saturating_add, Bool-cases,
}
use android_ebpf_studio.Histogram.{
  Histogram, total_count, bucket_range, scan, percentile_rank, percentile_range,
}
use android_ebpf_studio.Histogram.Tally.{Tallies, Cumulative}
use android_ebpf_studio.Histogram.Percentile.{drop-head, drop-none, range-upper}

-- The range is that of one of the buckets from `low` on: each ends at a boundary, and the next
-- starts one above it; the last has no end.
abbrev pub IsBucketFrom : ℕ → List ℕ → ℕ × Option ℕ → Type 0
IsBucketFrom low [] r = (r.0 ≡ low) × (r.1 ≡ none)
IsBucketFrom low (b ∷ bs) r =
    ((r.0 ≡ low) × (r.1 ≡ some b)) ⊎ IsBucketFrom (saturating_add b 1) bs r

Cumulative-longer :
    (base : ℕ) (bs cs vs : List ℕ) → Cumulative base bs cs vs → length cs ≡ suc (length bs)
Cumulative-longer base [] [] vs h = absurd h
Cumulative-longer base [] (c ∷ []) vs h = refl
Cumulative-longer base [] (c ∷ d ∷ cs) vs h = absurd h
Cumulative-longer base (b ∷ bs) [] vs h = absurd h
Cumulative-longer base (b ∷ bs) (c ∷ cs) vs h = ap suc (Cumulative-longer (base + c) bs cs vs h.1)

scan-IsBucketFrom :
    (boundaries : List ℕ) (rank i k : ℕ) (bs cs : List ℕ) (r : ℕ × Option ℕ)
    → drop i boundaries ≡ bs
    → length cs ≡ suc (length bs)
    → scan boundaries rank i k cs ≡ some r
    → IsBucketFrom (bucket_range boundaries i).0 bs r
unfolding scan
scan-IsBucketFrom boundaries rank i k bs [] r e l f = absurd (omega arith)
scan-IsBucketFrom boundaries rank i k [] (c ∷ d ∷ cs) r e l f = absurd (omega arith)
scan-IsBucketFrom boundaries rank i k [] (c ∷ []) r e l f =
    elim (Bool-cases (ltb (saturating_add k c) rank)) [
      | inl more ↦ let f' = rw more at f in cc
      | inr stop ↦
          let same : bucket_range boundaries i ≡ r = let f' = rw stop at f in cc in
          (
            ap (λ (x : ℕ × Option ℕ). x.0) (sym same),
            ap (λ (x : ℕ × Option ℕ). x.1) (sym same)
                ∙ range-upper boundaries i
                ∙ drop-none boundaries i e,
          )
    ]
scan-IsBucketFrom boundaries rank i k (b ∷ bs) (c ∷ cs) r e l f =
    let (here, value, rest) = drop-head boundaries i b bs e in
    elim (Bool-cases (ltb (saturating_add k c) rank)) [
      | inl more ↦
          let later =
            scan-IsBucketFrom boundaries rank (suc i) (saturating_add k c) bs cs r rest
              (omega arith) (rw more at f) in
          inr (rw value at later)
      | inr stop ↦
          let same : bucket_range boundaries i ≡ r = let f' = rw stop at f in cc in
          inl (
            ap (λ (x : ℕ × Option ℕ). x.0) (sym same),
            ap (λ (x : ℕ × Option ℕ). x.1) (sym same) ∙ range-upper boundaries i ∙ here,
          )
    ]

-- The range that a percentile gives is the range of a bucket of the histogram.
pub percentile_range-IsBucketFrom :
    (h : Histogram) (vs : List ℕ) (p : ℕ) (r : ℕ × Option ℕ)
    → Tallies h vs
    → percentile_range h p ≡ some r
    → IsBucketFrom 0 h.boundaries r
unfolding percentile_range
percentile_range-IsBucketFrom h vs p r t f =
    elim (Bool-cases (eqb (total_count h) 0 || eqb p 0 || ltb 100 p)) [
      | inl refused ↦ let f' = rw refused at f in cc
      | inr given ↦
          scan-IsBucketFrom h.boundaries (percentile_rank (total_count h) p) 0 0 h.boundaries
            h.counts r refl (Cumulative-longer 0 h.boundaries h.counts vs t.cumulative)
            (rw given at f)
    ]
