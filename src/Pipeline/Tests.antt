-- ===== src/Pipeline/Tests.antt =====
-- The pipeline builder at concrete inputs (crates/protocol/src/lib.rs).
use android_ebpf_studio.Prelude.{◌≡◌, refl, ◌↔◌, true, false, List, [], ◌∷◌, arith, IsIn}
use android_ebpf_studio.Samples.{completed, observed}
use android_ebpf_studio.Correlator.{is_some}
use android_ebpf_studio.Events.Pipeline.{PipelineObservation}
use android_ebpf_studio.Pipeline.{
  is_candidate, candidates, retained, all_spans, build_io_pipeline, filter, spans_of, earliest,
  latest, exact_layers,
}
use android_ebpf_studio.Pipeline.Account.{Accounts, build_io_pipeline-accounted}
use android_ebpf_studio.Pipeline.Exclusive.{IsAllowed, retained_iff}

abbrev observations : List PipelineObservation
observations = observed ∷ []

-- The request runs from 100 to 150, and the observation from 90 to 120.
pipeline_end : (build_io_pipeline completed observations).end_ts_ns ≡ 150
unfolding build_io_pipeline all_spans candidates retained filter spans_of earliest latest
    exact_layers is_candidate
pipeline_end = refl

build_io_pipeline-accounted_example : Accounts completed (build_io_pipeline completed observations)
build_io_pipeline-accounted_example =
    build_io_pipeline-accounted completed observations (omega (arith, pipeline_end))

retained_iff_example : IsIn observed (retained completed (candidates completed observations)) ↔ (
    (is_some completed.evidence ≡ false)
    × IsIn observed observations
    × (is_candidate completed observed ≡ true)
    × IsAllowed completed (candidates completed observations) observed)
retained_iff_example = retained_iff completed observations observed
