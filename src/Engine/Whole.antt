-- ===== src/Engine/Whole.antt =====
-- `pipeline_for` gives the pipeline that all observations of the engine would give
-- (crates/protocol/src/lib.rs).
use android_ebpf_studio.Prelude.{
  ◌≡◌, refl, sym, ap, ◌∙◌, ◌≤◌, inl, inr, Bool, true, false, Option, none, List, [], ◌∷◌, u64_max,
  Bool-cases, nat_eq, pair_eq,
}
use android_ebpf_studio.Prelude.Dict.{lookup}
use android_ebpf_studio.Events.Pipeline.{PipelineObservation}
use android_ebpf_studio.Events.Completed.{CompletedIo}
use android_ebpf_studio.Correlator.{is_some}
use android_ebpf_studio.Pipeline.{
  is_candidate, block_start, filter, candidates, all_spans, build_io_pipeline,
}
use android_ebpf_studio.Engine.Records.{AnalysisIndex}
use android_ebpf_studio.Engine.State.{AnalysisEngine, request_cache_key}
use android_ebpf_studio.Engine.Index.{build_index}
use android_ebpf_studio.Engine.Evidence.{
  index_or_build, is_evidence_for, observation_positions, observations_for, at_positions,
}
use android_ebpf_studio.Engine.Positions.{filter-at_positions, distinct-IsStrict}
use android_ebpf_studio.Engine.Found.{IsFound-positions}
use android_ebpf_studio.Engine.Complete.{build_index-finds}
use android_ebpf_studio.Engine.Derived.{pipeline_for}

module _ {A : Type 0} (f g : A → Bool) where
  filter_step :
      (x : A) (xs : List A) (a b : Bool)
      → f x ≡ a
      → g x ≡ b
      → filter f (filter g xs) ≡ filter g (filter f xs)
      → filter f (filter g (x ∷ xs)) ≡ filter g (filter f (x ∷ xs))
  unfolding filter
  filter_step x xs true true p q r = simp (p, q, r)
  filter_step x xs true false p q r = simp (p, q, r)
  filter_step x xs false true p q r = simp (p, q, r)
  filter_step x xs false false p q r = simp (p, q, r)

  filter_twice : (xs : List A) → filter f (filter g xs) ≡ filter g (filter f xs)
  unfolding filter
  filter_twice [] = refl
  filter_twice (x ∷ xs) = filter_step x xs (f x) (g x) refl refl (filter_twice xs)

-- The pipeline depends on the observations through the candidates alone.
build_io_pipeline-candidates :
    (io : CompletedIo) (vs ws : List PipelineObservation)
    → candidates io vs ≡ candidates io ws
    → build_io_pipeline io vs ≡ build_io_pipeline io ws
unfolding build_io_pipeline all_spans
build_io_pipeline-candidates io vs ws h = rw h refl

build_io_pipeline-own :
    (io : CompletedIo) (vs ws : List PipelineObservation)
    → is_some io.evidence ≡ true
    → build_io_pipeline io vs ≡ build_io_pipeline io ws
unfolding candidates
build_io_pipeline-own io vs ws own = build_io_pipeline-candidates io vs ws same
  where
    same : candidates io vs ≡ candidates io ws
    same = rw own refl

found_candidates :
    (e : AnalysisEngine) (io : CompletedIo)
    → is_some io.evidence ≡ false
    → block_start io ≤ io.completion.ts_ns
    → io.completion.ts_ns ≤ u64_max
    → filter
        (is_candidate io)
        (at_positions e.pipeline_observations (observation_positions (build_index e) io))
      ≡ filter (is_candidate io) e.pipeline_observations
unfolding observation_positions
found_candidates e io own ordered small =
    filter-at_positions (is_candidate io) e.pipeline_observations _ (distinct-IsStrict _)
      (λ p v at h.
        IsFound-positions (build_index e) io p (build_index-finds e io p v own ordered small at h))

found_pipeline :
    (e : AnalysisEngine) (io : CompletedIo)
    → is_some io.evidence ≡ false
    → block_start io ≤ io.completion.ts_ns
    → io.completion.ts_ns ≤ u64_max
    → build_io_pipeline io (observations_for e (build_index e) io)
      ≡ build_io_pipeline io (filter (is_evidence_for e io) e.pipeline_observations)
unfolding candidates observations_for
found_pipeline e io own ordered small = build_io_pipeline-candidates io _ _ same
  where
    same :
        candidates io (observations_for e (build_index e) io)
        ≡ candidates io (filter (is_evidence_for e io) e.pipeline_observations)
    same = rw own (
        filter_twice (is_candidate io) (is_evidence_for e io) _
        ∙ ap (filter (is_evidence_for e io)) (found_candidates e io own ordered small)
        ∙ sym (filter_twice (is_candidate io) (is_evidence_for e io) e.pipeline_observations))

-- Before the engine has an index or a cached pipeline of the request, `pipeline_for` gives the
-- pipeline that `build_io_pipeline` gives for all observations of the engine that count as evidence
-- for the request: the lookup by second, process, sector and id loses none that the pipeline takes.
-- The request starts at or before its completion, whose time is a 64-bit number.
pub pipeline_for-whole :
    (e : AnalysisEngine) (io : CompletedIo)
    → block_start io ≤ io.completion.ts_ns
    → io.completion.ts_ns ≤ u64_max
    → e.analysis_index ≡ none
    → lookup (request_cache_key io) e.pipeline_cache ≡ none
    → (pipeline_for e io).1
      ≡ build_io_pipeline io (filter (is_evidence_for e io) e.pipeline_observations)
unfolding pipeline_for
pipeline_for-whole e io ordered small fresh missing = elim (Bool-cases (is_some io.evidence)) [
  | inl own ↦ rw own (build_io_pipeline-own io [] _ own)
  | inr without ↦ fresh_pipeline without
]
  where
    fresh_pipeline :
        is_some io.evidence ≡ false
        → (pipeline_for e io).1
          ≡ build_io_pipeline io (filter (is_evidence_for e io) e.pipeline_observations)
    fresh_pipeline without =
        rw (without, missing)
          (ap
              (λ (o : Option AnalysisIndex).
                build_io_pipeline io (observations_for e (index_or_build e o) io))
              fresh
            ∙ found_pipeline e io without ordered small)
