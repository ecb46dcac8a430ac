-- ===== src/Engine/Growth.antt =====
-- How the details that the engine retains grow with file operations (crates/protocol/src/lib.rs).
use android_ebpf_studio.Prelude.{
  ℕ, ◌+◌, ◌≡◌, refl, ◌∙◌, ◌≤◌, true, false, List, [], ◌∷◌, ◌++◌, arith, leb, length, length-append,
}
use android_ebpf_studio.Events.File.{FileIo}
use android_ebpf_studio.Wire.{StorageEvent, file_io}
use android_ebpf_studio.Stats.{max_analysis_samples}
use android_ebpf_studio.Stats.Samples.{length-bounded_push}
use android_ebpf_studio.Engine.State.{AnalysisEngine, with_windows}
use android_ebpf_studio.Engine.Ingest.{ingest_file, dispatch, ingest, run, file_span}

abbrev pub file_events : List FileIo → List StorageEvent
file_events [] = []
file_events (f ∷ fs) = file_io f ∷ file_events fs

-- Each operation ends no earlier than it starts.
abbrev AllForward : List FileIo → Type 0
AllForward [] = Unit {0}
AllForward (f ∷ fs) = (f.start_ts_ns ≤ f.end_ts_ns) × AllForward fs

file_pushes :
    (e : AnalysisEngine) (f : FileIo)
    → leb f.start_ts_ns f.end_ts_ns ≡ true
    → length (ingest e (file_io f)).0.pipeline_observations
      ≡ length (e.pipeline_observations ++ file_span f ∷ [])
unfolding ingest dispatch ingest_file
file_pushes e f forward = rw forward refl

run-files :
    (e : AnalysisEngine) (files : List FileIo)
    → e.retain_all_evidence ≡ false
    → length e.file_ios ≤ max_analysis_samples
    → AllForward files
    → let after = run e (file_events files) in
      (length after.file_ios ≤ max_analysis_samples)
      × (length after.pipeline_observations ≡ length e.pipeline_observations + length files)
unfolding run ingest dispatch ingest_file
run-files e [] r s a = (s, omega arith)
run-files e (f ∷ fs) r s a =
    let forward : leb f.start_ts_ns f.end_ts_ns ≡ true = ground arith in
    let kept = length-bounded_push e.file_ios f s in
    let (files, observations) = run-files (ingest e (file_io f)).0 fs r (rw r kept) a.1 in
    (
      files,
      observations
          ∙ omega (
            arith,
            file_pushes e f forward,
            length-append e.pipeline_observations (file_span f ∷ []),
          ),
    )

-- Without the retention of all evidence, file operations that end no earlier than they start keep the
-- file operations of the engine within 100000, and leave one pipeline observation each, however many
-- they are.
pub files-observations :
    (ttl_ns sequential_window_ns : ℕ) (files : List FileIo)
    → AllForward files
    → let after = run (with_windows ttl_ns sequential_window_ns) (file_events files) in
      (length after.file_ios ≤ max_analysis_samples)
      × (length after.pipeline_observations ≡ length files)
files-observations ttl sequential files a =
    let (kept, observations) = run-files (with_windows ttl sequential) files refl (omega arith) a in
    (kept, omega (arith, observations))
