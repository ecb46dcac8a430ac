-- ===== src/Pipeline/Account.antt =====
-- The time that the spans of a pipeline account for (`build_io_pipeline`).
use android_ebpf_studio.Prelude.{
  ℕ, zero, suc, ◌+◌, ◌-◌, ◌≡◌, refl, ap, ◌∙◌, ◌≤◌, ◌&&◌, ◌||◌, Bool, false, List, [], ◌∷◌, arith,
  u64_max,
}
use android_ebpf_studio.Events.Pipeline.{PipelineObservation, PipelineSpan, IoPipeline}
use android_ebpf_studio.Events.Completed.{CompletedIo}
use android_ebpf_studio.Intervals.Cover.{within, covered, count_below, count_below_ext}
use android_ebpf_studio.Intervals.Union.{AllEndBy, union_duration-count}
use android_ebpf_studio.Pipeline.{
  additive, block_start, total_ns, all_spans, earliest, latest, insert_span, sort_spans, clipped,
  build_io_pipeline,
}

-- The instants of the spans that are more than context.
abbrev spanned : List PipelineSpan → ℕ → Bool
spanned [] t = false
spanned (s ∷ ss) t = additive s && within s.start_ts_ns s.end_ts_ns t || spanned ss t

clipped-AllEndBy : (low high : ℕ) (ss : List PipelineSpan) → AllEndBy high (clipped low high ss)
unfolding clipped
clipped-AllEndBy low high [] = tt
clipped-AllEndBy low high (s ∷ ss) = ground (arith, clipped-AllEndBy low high ss)

covered-clipped :
    (low high : ℕ) (ss : List PipelineSpan) (t : ℕ)
    → covered (clipped low high ss) t ≡ (within low high t && spanned ss t)
unfolding clipped
covered-clipped low high [] t = ground arith
covered-clipped low high (s ∷ ss) t = ground (arith, covered-clipped low high ss t)

spanned-insert_span :
    (s : PipelineSpan) (ss : List PipelineSpan) (t : ℕ)
    → spanned (insert_span s ss) t ≡ spanned (s ∷ ss) t
unfolding insert_span
spanned-insert_span s [] t = refl
spanned-insert_span s (r ∷ rs) t = ground (arith, spanned-insert_span s rs t)

spanned-sort_spans : (ss : List PipelineSpan) (t : ℕ) → spanned (sort_spans ss) t ≡ spanned ss t
unfolding sort_spans
spanned-sort_spans [] t = refl
spanned-sort_spans (s ∷ ss) t =
    spanned-insert_span s (sort_spans ss) t
    ∙ ap (λ b. additive s && within s.start_ts_ns s.end_ts_ns t || b) (spanned-sort_spans ss t)

earliest-le : (bound : ℕ) (ss : List PipelineSpan) → earliest bound ss ≤ bound
unfolding earliest
earliest-le bound [] = omega arith
earliest-le bound (s ∷ ss) = ground (arith, earliest-le bound ss)

latest-le : (bound : ℕ) (ss : List PipelineSpan) → bound ≤ latest bound ss
unfolding latest
latest-le bound [] = omega arith
latest-le bound (s ∷ ss) = ground (arith, latest-le bound ss)

count_below-within-le :
    (n low high : ℕ) (p : ℕ → Bool) → count_below n (λ t. within low high t && p t) ≤ n - low
count_below-within-le zero low high p = omega arith
count_below-within-le (suc n) low high p = ground (arith, count_below-within-le n low high p)

-- The bounds hold the block request, the accounted time is that of the spans of more than context,
-- and the rest is unaccounted.
abbrev pub Accounts : CompletedIo → IoPipeline → Type 0
Accounts io p =
    (p.start_ts_ns ≤ block_start io)
    × (io.completion.ts_ns ≤ p.end_ts_ns)
    × (p.accounted_ns
        ≡ count_below p.end_ts_ns (λ t. within p.start_ts_ns p.end_ts_ns t && spanned p.spans t))
    × (p.accounted_ns + p.unaccounted_ns ≡ total_ns p)

-- A pipeline's bounds hold the block request. Where its end fits in 64 bits, the accounted time is
-- the number of instants between the bounds that a span of more than context covers, and accounted
-- and unaccounted time add up to the total time between the bounds.
pub build_io_pipeline-accounted :
    (io : CompletedIo) (observations : List PipelineObservation)
    → (build_io_pipeline io observations).end_ts_ns ≤ u64_max
    → Accounts io (build_io_pipeline io observations)
unfolding build_io_pipeline
build_io_pipeline-accounted io observations small =
    let spans = all_spans io observations in
    let low = earliest (block_start io) spans in
    let high = latest io.completion.ts_ns spans in
    let sorted = sort_spans spans in
    let counted =
      union_duration-count high (clipped low high sorted) (clipped-AllEndBy low high sorted) small
      ∙ count_below_ext high (covered (clipped low high sorted))
          (λ t. within low high t && spanned sorted t) (λ t. covered-clipped low high sorted t) in
    let bound = count_below-within-le high low high (spanned sorted) in
    (
      earliest-le (block_start io) spans,
      latest-le io.completion.ts_ns spans,
      omega arith,
      omega arith,
    )
