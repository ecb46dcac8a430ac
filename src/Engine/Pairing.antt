-- ===== src/Engine/Pairing.antt =====
-- The boundaries of pipeline stages: how `ingest` pairs a begin with its end
-- (crates/protocol/src/lib.rs).
use android_ebpf_studio.Prelude.{
  ℕ, ◌-◌, Option, none, some, leb, saturating_add, if◌then◌else◌, nat_eq, pair_eq, list_eq,
}
use android_ebpf_studio.Prelude.Dict.{lookup, insert, remove, retain}
use android_ebpf_studio.Events.Pipeline.{
  layer_eq, PipelinePhase, PipelineObservation, begin, end, span,
}
use android_ebpf_studio.Correlator.{is_some}
use android_ebpf_studio.Stats.{bounded_push, max_analysis_samples}
use android_ebpf_studio.Engine.State.{AnalysisEngine, PairKey, window_30s, observe_ts}

-- `or`: the first that is present.
abbrev pub or_else {ℓ} : {A : Type ℓ} → Option A → Option A → Option A
or_else none b = b
or_else (some a) b = some a

abbrev key_with : PipelineObservation → Option ℕ → Option PairKey
key_with o none = none
key_with o (some id) = some ((o.layer, id), o.name)

-- `correlation_id.or(stage_key)` with the layer and the name.
abbrev pub pair_key : PipelineObservation → Option PairKey
pair_key o = key_with o (or_else o.correlation_id o.stage_key)

abbrev pub paired_span : PipelineObservation → PipelineObservation → PipelineObservation
paired_span begun ended = record {
  ts_ns = begun.ts_ns;
  operation = or_else begun.operation ended.operation;
  end_ts_ns = some ended.ts_ns;
  phase = span;
  layer = begun.layer;
  correlation_id = begun.correlation_id;
  stage_key = begun.stage_key;
  sector = or_else begun.sector ended.sector;
  bytes = or_else begun.bytes ended.bytes;
  opcode = or_else begun.opcode ended.opcode;
  status = or_else ended.status begun.status;
  pid = begun.pid;
  tid = begun.tid;
  name = begun.name;
  confidence = begun.confidence;
}

abbrev push_observation : AnalysisEngine → PipelineObservation → AnalysisEngine
push_observation e o = record e {
  pipeline_observations =
      bounded_push max_analysis_samples e.retain_all_evidence e.pipeline_observations o;
}

-- A second begin of a key that is open makes the key ambiguous; a begin of an ambiguous key is lost.
unfoldable pub begin_stage : AnalysisEngine → PairKey → PipelineObservation → AnalysisEngine
begin_stage e key o =
    if is_some (lookup key e.pending_pipeline)
    then record e {
      pending_pipeline = remove key e.pending_pipeline;
      ambiguous_pipeline = insert key o.ts_ns e.ambiguous_pipeline;
    }
    else if is_some (lookup key e.ambiguous_pipeline)
    then e
    else record e { pending_pipeline = insert key o e.pending_pipeline }

-- The span of the begin that was taken out, unless the end is before it.
unfoldable pub close_stage :
    AnalysisEngine → Option PipelineObservation → PipelineObservation → AnalysisEngine
close_stage e none o = e
close_stage e (some begun) o =
    if leb begun.ts_ns o.ts_ns then push_observation e (paired_span begun o) else e

-- `last_ts_ns.unwrap_or_default()`
abbrev pub newest_of : Option ℕ → ℕ
newest_of none = 0
newest_of (some ts) = ts

-- Entries that are more than 30 s behind the newest event go.
unfoldable pub expire_stages : AnalysisEngine → AnalysisEngine
expire_stages e =
    let newest = newest_of e.last_ts_ns in
    record e {
      pending_pipeline =
          retain (λ (v : PipelineObservation). leb (newest - v.ts_ns) window_30s)
            e.pending_pipeline;
      ambiguous_pipeline = retain (λ (ts : ℕ). leb (newest - ts) window_30s) e.ambiguous_pipeline;
    }

-- The end of an ambiguous key returns before the expiry.
unfoldable pub end_stage : AnalysisEngine → PairKey → PipelineObservation → AnalysisEngine
end_stage e key o =
    if is_some (lookup key e.ambiguous_pipeline)
    then record e {
      ambiguous_pipeline = remove key e.ambiguous_pipeline;
      pending_pipeline = remove key e.pending_pipeline;
    }
    else expire_stages (
        close_stage (record e { pending_pipeline = remove key e.pending_pipeline })
          (lookup key e.pending_pipeline) o)

-- The `match` on the phase and the key, and the expiry after it.
unfoldable pub stage :
    AnalysisEngine → PipelinePhase → Option PairKey → PipelineObservation → AnalysisEngine
stage e begin (some key) o = expire_stages (begin_stage e key o)
stage e end (some key) o = end_stage e key o
stage e _ _ o = expire_stages (push_observation e o)

abbrev pub observe_end : AnalysisEngine → Option ℕ → AnalysisEngine
observe_end e none = e
observe_end e (some end_ts_ns) = observe_ts e end_ts_ns

unfoldable pub ingest_pipeline : AnalysisEngine → PipelineObservation → AnalysisEngine
ingest_pipeline e o =
    let seen = observe_end (observe_ts e o.ts_ns) o.end_ts_ns in
    let counted = record seen {
      attribution_generation = saturating_add e.attribution_generation 1;
    } in
    stage counted o.phase (pair_key o) o
