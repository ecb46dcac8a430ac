-- ===== src/Engine/Index.antt =====
-- `AnalysisIndex::build`: the positions of files, observations, nodes and edges under the keys that a
-- lookup for a request asks for (crates/protocol/src/lib.rs).
use android_ebpf_studio.Prelude.{
  ℕ, suc, ◌+◌, ◌-◌, ◌/◌, Option, none, some, List, [], ◌∷◌, ◌++◌, ltb, eqb, if◌then◌else◌, length,
  saturating_add, Eq, nat_eq, pair_eq,
}
use android_ebpf_studio.Prelude.Dict.{lookup, insert}
use android_ebpf_studio.Events.File.{FileIdentity, FileIo, file_identity_base_key}
use android_ebpf_studio.Events.Node.{IoNode, IoEdge}
use android_ebpf_studio.Events.Pipeline.{PipelineObservation, CorrelationConfidence}
use android_ebpf_studio.Events.Completed.{CompletedIo, completion_timestamp}
use android_ebpf_studio.Stats.{time_buckets, range_from, second_ns}
use android_ebpf_studio.Pipeline.{block_start, end_of, is_context}
use android_ebpf_studio.Engine.Records.{AnalysisIndex}
use android_ebpf_studio.Engine.State.{AnalysisEngine}

abbrev positions_or_none : Option (List ℕ) → List ℕ
positions_or_none none = []
positions_or_none (some ps) = ps

module _ {K : Type 0} ⦃e : Eq K⦄ where
  -- The positions under a key.
  abbrev pub at_key : K → List (K × List ℕ) → List ℕ
  at_key key m = positions_or_none (lookup key m)

  -- `.entry(key).or_default().push(position)`
  unfoldable pub push_at : K → ℕ → List (K × List ℕ) → List (K × List ℕ)
  push_at key position m = insert key (at_key key m ++ position ∷ []) m

  -- The same for an optional key.
  abbrev pub push_some : Option K → ℕ → List (K × List ℕ) → List (K × List ℕ)
  push_some none position m = m
  push_some (some key) position m = push_at key position m

  -- One push for each second, under the key of the second.
  unfoldable pub push_each : (ℕ → Option K) → List ℕ → ℕ → List (K × List ℕ) → List (K × List ℕ)
  push_each key [] position m = m
  push_each key (s ∷ ss) position m = push_each key ss position (push_some (key s) position m)

abbrev pub no_index : AnalysisIndex
no_index = record {
  files_by_pid_time = [];
  files_by_tid_time = [];
  files_by_identity = [];
  long_files = [];
  observations_by_request = [];
  observations_by_pid_time = [];
  observations_by_sector_time = [];
  context_observations_by_time = [];
  long_observations = [];
  nodes_by_transaction = [];
  edges_by_transaction = [];
}

abbrev pub base_key_of : Option FileIdentity → Option ((ℕ × ℕ) × ℕ)
base_key_of none = none
base_key_of (some identity) = some (file_identity_base_key identity)

-- `if file.tid != 0`
abbrev tid_key : ℕ → ℕ → Option (ℕ × ℕ)
tid_key tid second = if eqb tid 0 then none else some (tid, second)

pub index_file : AnalysisIndex → ℕ → FileIo → AnalysisIndex
index_file index position file =
    let named = record index {
      files_by_identity =
          push_some (base_key_of file.file_identity) position index.files_by_identity;
    } in
    let seconds = time_buckets file.start_ts_ns file.end_ts_ns in
    if ltb 120 (length seconds)
    then record named { long_files = index.long_files ++ position ∷ [] }
    else record named {
      files_by_pid_time =
          push_each (λ second. some (file.pid, second)) seconds position index.files_by_pid_time;
      files_by_tid_time = push_each (tid_key file.tid) seconds position index.files_by_tid_time;
    }

unfoldable pub index_files : AnalysisIndex → ℕ → List FileIo → AnalysisIndex
index_files index position [] = index
index_files index position (f ∷ fs) = index_files (index_file index position f) (suc position) fs

abbrev pub sector_key : Option ℕ → ℕ → Option (ℕ × ℕ)
sector_key none second = none
sector_key (some sector) second = some (sector, second)

abbrev pub context_key : CorrelationConfidence → ℕ → Option ℕ
context_key confidence second = if is_context confidence then some second else none

unfoldable pub index_observation : AnalysisIndex → ℕ → PipelineObservation → AnalysisIndex
index_observation index position v =
    let named = record index {
      observations_by_request = push_some v.correlation_id position index.observations_by_request;
    } in
    let seconds = time_buckets v.ts_ns (end_of v) in
    if ltb 120 (length seconds)
    then record named { long_observations = index.long_observations ++ position ∷ [] }
    else record named {
      observations_by_pid_time =
          push_each (λ second. some (v.pid, second)) seconds position
            index.observations_by_pid_time;
      observations_by_sector_time =
          push_each (sector_key v.sector) seconds position index.observations_by_sector_time;
      context_observations_by_time =
          push_each (context_key v.confidence) seconds position index.context_observations_by_time;
    }

unfoldable pub index_observations : AnalysisIndex → ℕ → List PipelineObservation → AnalysisIndex
index_observations index position [] = index
index_observations index position (v ∷ vs) =
    index_observations (index_observation index position v) (suc position) vs

unfoldable pub index_nodes : AnalysisIndex → ℕ → List IoNode → AnalysisIndex
index_nodes index position [] = index
index_nodes index position (n ∷ ns) =
    index_nodes
      (record index {
        nodes_by_transaction = push_some n.transaction_id position index.nodes_by_transaction;
      })
      (suc position) ns

unfoldable pub index_edges : AnalysisIndex → ℕ → List IoEdge → AnalysisIndex
index_edges index position [] = index
index_edges index position (e ∷ es) =
    index_edges
      (record index {
        edges_by_transaction = push_some e.transaction_id position index.edges_by_transaction;
      })
      (suc position) es

unfoldable pub build_index : AnalysisEngine → AnalysisIndex
build_index e =
    let files = index_files no_index 0 e.file_ios in
    let observations = index_observations files 0 e.pipeline_observations in
    let nodes = index_nodes observations 0 e.graph_nodes in index_edges nodes 0 e.graph_edges

-- `(start..=end).collect()`
abbrev inclusive : ℕ → ℕ → List ℕ
inclusive start last = if ltb last start then [] else range_from start (last - start + 1)

abbrev pub margin_ns : ℕ
margin_ns = 10000000

abbrev pub buckets_at : CompletedIo → Option ℕ → List ℕ
buckets_at io none = []
buckets_at io (some ts) =
    inclusive ((block_start io - margin_ns) / second_ns)
      (saturating_add io.completion.ts_ns margin_ns / second_ns)

-- The seconds from 10 ms before the request to 10 ms after it, if it has a place in time.
unfoldable pub request_time_buckets : CompletedIo → List ℕ
request_time_buckets io = buckets_at io (completion_timestamp io)
