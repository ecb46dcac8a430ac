-- ===== src/Engine/Pairs.antt =====
-- How the begin and the end of a pipeline stage meet (`ingest`, crates/protocol/src/lib.rs).
use android_ebpf_studio.Prelude.{
  ℕ, ◌-◌, ◌≡◌, refl, sym, ap, subst, saturating_add, ◌∙◌, ◌≤◌, Bool, true, Option, none, some, List,
  [], ◌∷◌, arith, leb, ==_refl, nat_eq, pair_eq, list_eq,
}
use android_ebpf_studio.Prelude.Dict.{
  lookup, insert, remove, retain, lookup-insert_self, lookup-remove, lookup-retain-none,
}
use android_ebpf_studio.Events.Pipeline.{layer_eq, PipelinePhase, PipelineObservation, begin, end}
use android_ebpf_studio.Correlator.{is_some}
use android_ebpf_studio.Stats.{bounded_push, max_analysis_samples}
use android_ebpf_studio.Stats.Samples.{Appends, bounded_push-Appends}
use android_ebpf_studio.Engine.State.{AnalysisEngine, PairKey, window_30s, observe_ts}
use android_ebpf_studio.Engine.Pairing.{
  pair_key, or_else, paired_span, begin_stage, close_stage, expire_stages, end_stage, stage,
  observe_end, ingest_pipeline, newest_of,
}

-- An entry that is kept is found.
lookup-retain-some :
    {V : Type 0} (keep : V → Bool) (k : PairKey) (v : V) (m : List (PairKey × V))
    → lookup k m ≡ some v
    → keep v ≡ true
    → lookup k (retain keep m) ≡ some v
unfolding lookup retain
lookup-retain-some keep k v [] e h = cc
lookup-retain-some keep k v ((j, w) ∷ m) e h = ground (arith, lookup-retain-some keep k v m)

-- The key is neither open nor ambiguous.
abbrev pub IsFree : PairKey → AnalysisEngine → Type 0
IsFree key e = (lookup key e.pending_pipeline ≡ none) × (lookup key e.ambiguous_pipeline ≡ none)

-- The key is open with this begin.
abbrev IsOpen : PairKey → PipelineObservation → AnalysisEngine → Type 0
IsOpen key o e = (lookup key e.pending_pipeline ≡ some o) × (lookup key e.ambiguous_pipeline ≡ none)

-- The engine once the times of an observation are seen.
abbrev seen_by : AnalysisEngine → PipelineObservation → AnalysisEngine
seen_by e o = observe_end (observe_ts e o.ts_ns) o.end_ts_ns

abbrev IsRecent : AnalysisEngine → ℕ → Type 0
IsRecent e ts = newest_of e.last_ts_ns - ts ≤ window_30s

recent-leb :
    (e : AnalysisEngine) (ts : ℕ)
    → IsRecent e ts
    → leb (newest_of e.last_ts_ns - ts) window_30s ≡ true
recent-leb e ts r = ground arith

begin_stage-IsOpen :
    (e : AnalysisEngine) (key : PairKey) (o : PipelineObservation)
    → IsFree key e
    → IsRecent e o.ts_ns
    → IsOpen key o (expire_stages (begin_stage e key o))
      × ((expire_stages (begin_stage e key o)).pipeline_observations ≡ e.pipeline_observations)
unfolding begin_stage expire_stages
begin_stage-IsOpen e key o f r =
    let near = λ (v : PipelineObservation). leb (newest_of e.last_ts_ns - v.ts_ns) window_30s in
    let fresh = λ (ts : ℕ). leb (newest_of e.last_ts_ns - ts) window_30s in
    let here : lookup key (insert key o e.pending_pipeline) ≡ some o =
      lookup-insert_self key o e.pending_pipeline in
    rw (f.0, f.1)
      (
        (
          lookup-retain-some near key o (insert key o e.pending_pipeline) here
              (recent-leb e o.ts_ns r),
          lookup-retain-none fresh key e.ambiguous_pipeline f.1,
        ),
        refl,
      )

end_stage-pairs :
    (e : AnalysisEngine) (key : PairKey) (begun o : PipelineObservation)
    → IsOpen key begun e
    → begun.ts_ns ≤ o.ts_ns
    → let after = end_stage e key o in
      (after.pipeline_observations
        ≡ bounded_push max_analysis_samples e.retain_all_evidence e.pipeline_observations
            (paired_span begun o))
      × IsFree key after
unfolding end_stage close_stage expire_stages
end_stage-pairs e key begun o f h =
    let near = λ (v : PipelineObservation). leb (newest_of e.last_ts_ns - v.ts_ns) window_30s in
    let fresh = λ (ts : ℕ). leb (newest_of e.last_ts_ns - ts) window_30s in
    let after : leb begun.ts_ns o.ts_ns ≡ true = ground arith in
    let gone : lookup key (remove key e.pending_pipeline) ≡ none =
      ground (arith, lookup-remove key key e.pending_pipeline, ==_refl key) in
    rw (f.0, f.1, after)
      (
        refl,
        (
          lookup-retain-none near key (remove key e.pending_pipeline) gone,
          lookup-retain-none fresh key e.ambiguous_pipeline f.1,
        ),
      )

-- A second begin of an open key makes it ambiguous, and its end then pairs with neither.
abbrev IsAmbiguous : PairKey → AnalysisEngine → Type 0
IsAmbiguous key e =
    (lookup key e.pending_pipeline ≡ none) × (is_some (lookup key e.ambiguous_pipeline) ≡ true)

begin_stage-IsAmbiguous :
    (e : AnalysisEngine) (key : PairKey) (begun o : PipelineObservation)
    → IsOpen key begun e
    → IsRecent e o.ts_ns
    → IsAmbiguous key (expire_stages (begin_stage e key o))
      × ((expire_stages (begin_stage e key o)).pipeline_observations ≡ e.pipeline_observations)
unfolding begin_stage expire_stages
begin_stage-IsAmbiguous e key begun o f r =
    let near = λ (v : PipelineObservation). leb (newest_of e.last_ts_ns - v.ts_ns) window_30s in
    let fresh = λ (ts : ℕ). leb (newest_of e.last_ts_ns - ts) window_30s in
    let gone : lookup key (remove key e.pending_pipeline) ≡ none =
      ground (arith, lookup-remove key key e.pending_pipeline, ==_refl key) in
    let marked =
      lookup-retain-some fresh key o.ts_ns (insert key o.ts_ns e.ambiguous_pipeline)
        (lookup-insert_self key o.ts_ns e.ambiguous_pipeline) (recent-leb e o.ts_ns r) in
    rw (f.0, marked)
      ((lookup-retain-none near key (remove key e.pending_pipeline) gone, refl), refl)

end_stage-ambiguous :
    (e : AnalysisEngine) (key : PairKey) (o : PipelineObservation)
    → IsAmbiguous key e
    → let after = end_stage e key o in
      (after.pipeline_observations ≡ e.pipeline_observations) × IsFree key after
unfolding end_stage
end_stage-ambiguous e key o a = rw a.1 (
  refl,
  (
    ground (arith, lookup-remove key key e.pending_pipeline, ==_refl key),
    ground (arith, lookup-remove key key e.ambiguous_pipeline, ==_refl key),
  ),
)

-- The observation is a begin, or an end, of the key.
abbrev Begins : PairKey → PipelineObservation → Type 0
Begins key o = (o.phase ≡ begin) × (pair_key o ≡ some key)

abbrev Ends : PairKey → PipelineObservation → Type 0
Ends key o = (o.phase ≡ end) × (pair_key o ≡ some key)

seen_by-keeps :
    (e : AnalysisEngine) (o : PipelineObservation)
    → ((seen_by e o).pending_pipeline ≡ e.pending_pipeline)
      × ((seen_by e o).ambiguous_pipeline ≡ e.ambiguous_pipeline)
      × ((seen_by e o).pipeline_observations ≡ e.pipeline_observations)
      × ((seen_by e o).retain_all_evidence ≡ e.retain_all_evidence)
seen_by-keeps e o = go o.end_ts_ns
  where
    go :
        (t : Option ℕ)
        → let s = observe_end (observe_ts e o.ts_ns) t in
          (s.pending_pipeline ≡ e.pending_pipeline)
          × (s.ambiguous_pipeline ≡ e.ambiguous_pipeline)
          × (s.pipeline_observations ≡ e.pipeline_observations)
          × (s.retain_all_evidence ≡ e.retain_all_evidence)
    go none = (refl, refl, refl, refl)
    go (some t) = (refl, refl, refl, refl)

-- The engine that the `match` on the phase sees.
abbrev counted : AnalysisEngine → PipelineObservation → AnalysisEngine
counted e o = record (seen_by e o) {
  attribution_generation = saturating_add e.attribution_generation 1;
}

ingest-begin :
    (e : AnalysisEngine) (key : PairKey) (o : PipelineObservation)
    → Begins key o
    → ingest_pipeline e o ≡ expire_stages (begin_stage (counted e o) key o)
unfolding ingest_pipeline stage
ingest-begin e key o b =
    ap (λ (p : PipelinePhase). stage (counted e o) p (pair_key o) o) b.0
    ∙ ap (λ (k : Option PairKey). stage (counted e o) begin k o) b.1

ingest-end :
    (e : AnalysisEngine) (key : PairKey) (o : PipelineObservation)
    → Ends key o
    → ingest_pipeline e o ≡ end_stage (counted e o) key o
unfolding ingest_pipeline stage
ingest-end e key o b =
    ap (λ (p : PipelinePhase). stage (counted e o) p (pair_key o) o) b.0
    ∙ ap (λ (k : Option PairKey). stage (counted e o) end k o) b.1

begin_stage-retains :
    (e : AnalysisEngine) (key : PairKey) (o : PipelineObservation)
    → (begin_stage e key o).retain_all_evidence ≡ e.retain_all_evidence
unfolding begin_stage
begin_stage-retains e key o = ground arith

ingest_pipeline-retains :
    (e : AnalysisEngine) (key : PairKey) (o : PipelineObservation)
    → Begins key o
    → (ingest_pipeline e o).retain_all_evidence ≡ e.retain_all_evidence
unfolding expire_stages
ingest_pipeline-retains e key o b =
    let (pending, ambiguous, observations, retains) = seen_by-keeps e o in
    ap (λ (x : AnalysisEngine). x.retain_all_evidence) (ingest-begin e key o b)
    ∙ begin_stage-retains (counted e o) key o
    ∙ retains

-- A begin of a free key opens it, and adds no observation.
ingest-opens :
    (e : AnalysisEngine) (key : PairKey) (o : PipelineObservation)
    → Begins key o
    → IsFree key e
    → IsRecent (seen_by e o) o.ts_ns
    → IsOpen key o (ingest_pipeline e o)
      × ((ingest_pipeline e o).pipeline_observations ≡ e.pipeline_observations)
ingest-opens e key o b f r =
    let (pending, ambiguous, observations, retains) = seen_by-keeps e o in
    let (open_now, same) = begin_stage-IsOpen (counted e o) key o (rw (pending, ambiguous) f) r in
    rw (ingest-begin e key o b) (open_now, same ∙ observations)

-- The value, or the other one where there is none.
abbrev FirstOf : {A : Type 0} → Option A → Option A → Option A → Type 0
FirstOf (some a) other result = result ≡ some a
FirstOf none other result = result ≡ other

or_else-FirstOf : {A : Type 0} (a other : Option A) → FirstOf a other (or_else a other)
or_else-FirstOf (some a) other = refl
or_else-FirstOf none other = refl

-- The span from the begin to the end of a stage: that of the begin, with what the end alone knows and
-- with the status of the end before that of the begin.
pub record IsSpanOf (begun ended v : PipelineObservation) : Type 0 where
  pub starts : v.ts_ns ≡ begun.ts_ns
  pub ends : v.end_ts_ns ≡ some ended.ts_ns
  pub spans : v.phase ≡ PipelinePhase.span
  pub at_layer : v.layer ≡ begun.layer
  pub of_request : v.correlation_id ≡ begun.correlation_id
  pub of_stage : v.stage_key ≡ begun.stage_key
  pub does : FirstOf begun.operation ended.operation v.operation
  pub at_sector : FirstOf begun.sector ended.sector v.sector
  pub of_bytes : FirstOf begun.bytes ended.bytes v.bytes
  pub of_opcode : FirstOf begun.opcode ended.opcode v.opcode
  pub ended_with : FirstOf ended.status begun.status v.status
  pub by_process : (v.pid ≡ begun.pid) × (v.tid ≡ begun.tid)
  pub named : v.name ≡ begun.name
  pub trusted : v.confidence ≡ begun.confidence

paired_span-IsSpanOf :
    (begun ended : PipelineObservation) → IsSpanOf begun ended (paired_span begun ended)
paired_span-IsSpanOf begun ended = record {
  starts = refl;
  ends = refl;
  spans = refl;
  at_layer = refl;
  of_request = refl;
  of_stage = refl;
  does = or_else-FirstOf begun.operation ended.operation;
  at_sector = or_else-FirstOf begun.sector ended.sector;
  of_bytes = or_else-FirstOf begun.bytes ended.bytes;
  of_opcode = or_else-FirstOf begun.opcode ended.opcode;
  ended_with = or_else-FirstOf ended.status begun.status;
  by_process = (refl, refl);
  named = refl;
  trusted = refl;
}

-- The begin and the end of a stage whose key was free, the begin within 30 s of the newest event and
-- not after the end, append one observation, after the oldest tenth is dropped where the list is full
-- and not all is to be retained: the span from the one to the other, with the fields of the begin,
-- those of the end where the begin has none, and the status of the end first. The key is free again.
pub begin_end-span :
    (e : AnalysisEngine) (key : PairKey) (begun ended : PipelineObservation)
    → Begins key begun
    → Ends key ended
    → IsFree key e
    → IsRecent (seen_by e begun) begun.ts_ns
    → begun.ts_ns ≤ ended.ts_ns
    → let after = ingest_pipeline (ingest_pipeline e begun) ended in
      (v : PipelineObservation) × IsSpanOf begun ended v
      × Appends max_analysis_samples e.retain_all_evidence e.pipeline_observations v
          after.pipeline_observations
      × IsFree key after
begin_end-span e key begun ended b c f r h =
    let (opened, same) = ingest-opens e key begun b f r in
    let e' = ingest_pipeline e begun in
    let (pending, ambiguous, observations, retains) = seen_by-keeps e' ended in
    let (spans, free) =
      end_stage-pairs (counted e' ended) key begun ended (rw (pending, ambiguous) opened) h in
    let pushed =
      spans
      ∙ ap
          (λ (os : List PipelineObservation).
            bounded_push max_analysis_samples (counted e' ended).retain_all_evidence os
              (paired_span begun ended))
          (observations ∙ same)
      ∙ ap
          (λ (b : Bool).
            bounded_push max_analysis_samples b e.pipeline_observations (paired_span begun ended))
          (retains ∙ ingest_pipeline-retains e key begun b) in
    rw (ingest-end e' key ended c) (
      paired_span begun ended,
      paired_span-IsSpanOf begun ended,
      subst
          (Appends max_analysis_samples e.retain_all_evidence e.pipeline_observations
            (paired_span begun ended))
          (sym pushed)
          (bounded_push-Appends max_analysis_samples e.retain_all_evidence e.pipeline_observations
            (paired_span begun ended)),
      free,
    )

-- Two begins of a free key, both within 30 s of the newest event, and an end of it leave no
-- observation: neither begin is paired. The key is free again.
pub begin_begin_end-unpaired :
    (e : AnalysisEngine) (key : PairKey) (first second ended : PipelineObservation)
    → Begins key first
    → Begins key second
    → Ends key ended
    → IsFree key e
    → IsRecent (seen_by e first) first.ts_ns
    → IsRecent (seen_by (ingest_pipeline e first) second) second.ts_ns
    → let after = ingest_pipeline (ingest_pipeline (ingest_pipeline e first) second) ended in
      (after.pipeline_observations ≡ e.pipeline_observations) × IsFree key after
begin_begin_end-unpaired e key first second ended a b c f r s =
    let (opened, same) = ingest-opens e key first a f r in
    let e1 = ingest_pipeline e first in
    let (pending1, ambiguous1, observations1, retains1) = seen_by-keeps e1 second in
    let (unsure, same2) =
      begin_stage-IsAmbiguous (counted e1 second) key first second
        (rw (pending1, ambiguous1) opened) s in
    let e2 = ingest_pipeline e1 second in
    let step2 = ingest-begin e1 key second b in
    let unsure2 = subst (IsAmbiguous key) (sym step2) unsure in
    let kept2 = ap (λ (x : AnalysisEngine). x.pipeline_observations) step2 ∙ same2 in
    let (pending2, ambiguous2, observations2, retains2) = seen_by-keeps e2 ended in
    let (same3, free) =
      end_stage-ambiguous (counted e2 ended) key ended (rw (pending2, ambiguous2) unsure2) in
    rw (ingest-end e2 key ended c) (same3 ∙ observations2 ∙ kept2 ∙ observations1 ∙ same, free)
