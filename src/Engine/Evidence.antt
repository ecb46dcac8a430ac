-- ===== src/Engine/Evidence.antt =====
-- The evidence that the index finds for a request: the first half of `pipeline_for` and
-- `transaction_for`, and `evidence_time_matches` (crates/protocol/src/lib.rs).
use android_ebpf_studio.Prelude.{
  ℕ, ◌-◌, ◌||◌, Bool, not, Option, none, some, List, [], ◌∷◌, ◌++◌, leb, eqb, if◌then◌else◌,
  get_elem?, ◌==◌, nat_eq, pair_eq, option_eq, contains,
}
use android_ebpf_studio.Prelude.Dict.{lookup}
use android_ebpf_studio.Events.Block.{operation_eq}
use android_ebpf_studio.Events.File.{FileIo}
use android_ebpf_studio.Events.Node.{IoNode, IoEdge}
use android_ebpf_studio.Events.Pipeline.{PipelineObservation}
use android_ebpf_studio.Events.Completed.{CompletedIo}
use android_ebpf_studio.Stats.{cons_some}
use android_ebpf_studio.Pipeline.{filter}
use android_ebpf_studio.Engine.Records.{AnalysisIndex}
use android_ebpf_studio.Engine.State.{AnalysisEngine, request_cache_key, window_30s}
use android_ebpf_studio.Engine.Blocks.{in_window}
use android_ebpf_studio.Engine.Index.{at_key, base_key_of, build_index, request_time_buckets}

-- `sort_unstable` of numbers.
unfoldable pub insert_sorted : ℕ → List ℕ → List ℕ
insert_sorted v [] = v ∷ []
insert_sorted v (w ∷ ws) = if leb v w then v ∷ w ∷ ws else w ∷ insert_sorted v ws

unfoldable pub sort : List ℕ → List ℕ
sort [] = []
sort (v ∷ vs) = insert_sorted v (sort vs)

-- `dedup`: of equal neighbours one stays.
abbrev pub cons_distinct : ℕ → List ℕ → List ℕ
cons_distinct v [] = v ∷ []
cons_distinct v (w ∷ ws) = if eqb v w then w ∷ ws else v ∷ w ∷ ws

unfoldable pub dedup : List ℕ → List ℕ
dedup [] = []
dedup (v ∷ vs) = cons_distinct v (dedup vs)

module _ {A : Type 0} where
  -- The values at the positions. A position out of bounds, where the source would panic, gives none:
  -- the positions come from the index of the same list.
  unfoldable pub at_positions : List A → List ℕ → List A
  at_positions values [] = []
  at_positions values (p ∷ ps) = cons_some (get_elem? values p) (at_positions values ps)

abbrev pub index_or_build : AnalysisEngine → Option AnalysisIndex → AnalysisIndex
index_or_build e none = build_index e
index_or_build e (some index) = index

-- The index, built if there is none.
abbrev pub index_of : AnalysisEngine → AnalysisIndex
index_of e = index_or_build e e.analysis_index

abbrev window_or : CompletedIo → Option (ℕ × ℕ) → ℕ × ℕ
window_or io none = (io.issue.ts_ns - window_30s, io.completion.ts_ns)
window_or io (some w) = w

-- The instant lies in the evidence window of the request.
pub evidence_time_matches : AnalysisEngine → CompletedIo → ℕ → Bool
evidence_time_matches e io ts =
    in_window (some (window_or io (lookup (request_cache_key io) e.evidence_windows))) ts

-- An observation with the request's id counts only inside of the evidence window.
abbrev pub is_evidence_for : AnalysisEngine → CompletedIo → PipelineObservation → Bool
is_evidence_for e io v =
    not (v.correlation_id == some io.issue.request_id) || evidence_time_matches e io v.ts_ns

abbrev pub second_positions : AnalysisIndex → CompletedIo → ℕ → List ℕ
second_positions index io second =
    at_key (io.issue.pid, second) index.observations_by_pid_time
    ++ (at_key (io.issue.sector, second) index.observations_by_sector_time
        ++ at_key second index.context_observations_by_time)

unfoldable pub timed_positions : AnalysisIndex → CompletedIo → List ℕ → List ℕ
timed_positions index io [] = []
timed_positions index io (s ∷ ss) = second_positions index io s ++ timed_positions index io ss

unfoldable pub observation_positions : AnalysisIndex → CompletedIo → List ℕ
observation_positions index io = dedup (
    sort (
      index.long_observations
      ++ (at_key io.issue.request_id index.observations_by_request
          ++ timed_positions index io (request_time_buckets io))))

unfoldable pub observations_for :
    AnalysisEngine → AnalysisIndex → CompletedIo → List PipelineObservation
observations_for e index io =
    filter (is_evidence_for e io)
      (at_positions e.pipeline_observations (observation_positions index io))

pub file_seconds : AnalysisIndex → CompletedIo → List ℕ → List ℕ
file_seconds index io [] = []
file_seconds index io (s ∷ ss) =
    at_key (io.issue.pid, s) index.files_by_pid_time
    ++ (at_key (io.issue.tid, s) index.files_by_tid_time ++ file_seconds index io ss)

-- The base keys of the nodes' files, each once.
pub distinct_keys : List ((ℕ × ℕ) × ℕ) → List IoNode → List ((ℕ × ℕ) × ℕ)
distinct_keys seen [] = []
distinct_keys seen (n ∷ ns) = elim (base_key_of n.file) [
  | none ↦ distinct_keys seen ns
  | some key ↦
      if contains seen key then distinct_keys seen ns else key ∷ distinct_keys (key ∷ seen) ns
]

pub identity_positions : AnalysisIndex → List ((ℕ × ℕ) × ℕ) → List ℕ
identity_positions index [] = []
identity_positions index (key ∷ keys) =
    at_key key index.files_by_identity ++ identity_positions index keys

pub nodes_at : AnalysisEngine → AnalysisIndex → CompletedIo → List IoNode
nodes_at e index io =
    at_positions e.graph_nodes (at_key io.issue.request_id index.nodes_by_transaction)

unfoldable pub files_for : AnalysisEngine → AnalysisIndex → CompletedIo → List FileIo
files_for e index io = at_positions e.file_ios (
    dedup (
      sort (
        index.long_files
        ++ (file_seconds index io (request_time_buckets io)
            ++ identity_positions index (distinct_keys [] (nodes_at e index io))))))

unfoldable pub nodes_for : AnalysisEngine → AnalysisIndex → CompletedIo → List IoNode
nodes_for e index io =
    filter (λ (n : IoNode). evidence_time_matches e io n.start_ts_ns) (nodes_at e index io)

unfoldable pub edges_for : AnalysisEngine → AnalysisIndex → CompletedIo → List IoEdge
edges_for e index io =
    at_positions e.graph_edges (at_key io.issue.request_id index.edges_by_transaction)
