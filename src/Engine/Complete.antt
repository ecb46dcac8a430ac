-- ===== src/Engine/Complete.antt =====
-- The index finds every candidate of a request (`AnalysisIndex::build`, `pipeline_for` and
-- `build_io_pipeline`, crates/protocol/src/lib.rs).
use android_ebpf_studio.Prelude.{
  ℕ, zero, suc, ◌+◌, ◌≡◌, refl, sym, ap, subst, ◌≤◌, inl, inr, true, false, Option, some, List, [],
  ◌∷◌, ◌++◌, arith, ltb, length, get_elem?, u64_max, IsIn, IsIn-append_left, IsIn-append_right,
  IsIn-append_cases, Bool-cases, nat_eq, pair_eq, option_eq,
}
use android_ebpf_studio.Events.Node.{IoNode, IoEdge}
use android_ebpf_studio.Events.Pipeline.{PipelineObservation}
use android_ebpf_studio.Events.Completed.{CompletedIo}
use android_ebpf_studio.Correlator.{is_some}
use android_ebpf_studio.Stats.{time_buckets}
use android_ebpf_studio.Pipeline.{is_candidate, names_request, block_start, end_of}
use android_ebpf_studio.Engine.Records.{AnalysisIndex}
use android_ebpf_studio.Engine.State.{AnalysisEngine}
use android_ebpf_studio.Engine.Index.{
  at_key, no_index, index_files, push_some, push_each, index_observation, index_observations,
  index_nodes, index_edges, build_index, sector_key, context_key,
}
use android_ebpf_studio.Engine.Evidence.{second_positions}
use android_ebpf_studio.Engine.Found.{
  IsFound, push_some-old, push_some-new, push_each-old, push_each-new,
}
use android_ebpf_studio.Engine.Shared.{
  shared, overlaps-CloseTo, shared-observation, Belongs, candidate-forward, candidate-Belongs,
  shared-request,
}

-- The two indexes hold the same, or the second more, under the keys of a second.
second_positions_mono :
    (a b : AnalysisIndex) (io : CompletedIo) (s p : ℕ)
    → (IsIn p (at_key (io.issue.pid, s) a.observations_by_pid_time)
        → IsIn p (at_key (io.issue.pid, s) b.observations_by_pid_time))
    → (IsIn p (at_key (io.issue.sector, s) a.observations_by_sector_time)
        → IsIn p (at_key (io.issue.sector, s) b.observations_by_sector_time))
    → (IsIn p (at_key s a.context_observations_by_time)
        → IsIn p (at_key s b.context_observations_by_time))
    → IsIn p (second_positions a io s)
    → IsIn p (second_positions b io s)
second_positions_mono a b io s p f g h i =
    let pids = at_key (io.issue.pid, s) a.observations_by_pid_time in
    let sectors = at_key (io.issue.sector, s) a.observations_by_sector_time in
    let contexts = at_key s a.context_observations_by_time in
    elim (IsIn-append_cases p pids (sectors ++ contexts) i) [
      | inl j ↦ IsIn-append_left p _ _ (f j)
      | inr j ↦ elim (IsIn-append_cases p sectors contexts j) [
        | inl k ↦
            IsIn-append_right p (at_key (io.issue.pid, s) b.observations_by_pid_time) _
              (IsIn-append_left p _ _ (g k))
        | inr k ↦ IsIn-append_right p (at_key (io.issue.pid, s) b.observations_by_pid_time) _ (
            IsIn-append_right p (at_key (io.issue.sector, s) b.observations_by_sector_time) _ (h k))
      ]
    ]

-- The index after an observation that lies in at most 120 seconds.
abbrev near_index : AnalysisIndex → ℕ → PipelineObservation → AnalysisIndex
near_index index q v =
    let seconds = time_buckets v.ts_ns (end_of v) in
    record index {
      observations_by_request = push_some v.correlation_id q index.observations_by_request;
      observations_by_pid_time =
          push_each (λ second. some (v.pid, second)) seconds q index.observations_by_pid_time;
      observations_by_sector_time =
          push_each (sector_key v.sector) seconds q index.observations_by_sector_time;
      context_observations_by_time =
          push_each (context_key v.confidence) seconds q index.context_observations_by_time;
    }

-- One observation more loses no position.
index_observation-old :
    (index : AnalysisIndex) (q : ℕ) (v : PipelineObservation) (io : CompletedIo) (p : ℕ)
    → IsFound index io p
    → IsFound (index_observation index q v) io p
unfolding index_observation
index_observation-old index q v io p f =
    let seconds = time_buckets v.ts_ns (end_of v) in
    elim (Bool-cases (ltb 120 (length seconds))) [
      | inl long ↦ rw long (far f)
      | inr short ↦ rw short (near f)
    ]
  where
    named :
        IsIn p (at_key io.issue.request_id index.observations_by_request)
        → IsIn p (
            at_key io.issue.request_id (push_some v.correlation_id q index.observations_by_request))
    named i = push_some-old io.issue.request_id v.correlation_id q p index.observations_by_request i

    far :
        IsFound index io p
        → IsFound
            (record index {
              observations_by_request = push_some v.correlation_id q index.observations_by_request;
              long_observations = index.long_observations ++ q ∷ [];
            })
            io
            p
    far (inl i) = inl (IsIn-append_left p index.long_observations (q ∷ []) i)
    far (inr (inl i)) = inr (inl (named i))
    far (inr (inr (s, i, j))) = inr (inr (s, i, j))

    near : IsFound index io p → IsFound (near_index index q v) io p
    near (inl i) = inl i
    near (inr (inl i)) = inr (inl (named i))
    near (inr (inr (s, i, j))) = inr (
        inr (
          s,
          i,
          second_positions_mono index (near_index index q v) io s p
              (λ k. push_each-old _ (time_buckets v.ts_ns (end_of v)) (io.issue.pid, s) q p _ k)
              (λ k. push_each-old _ (time_buckets v.ts_ns (end_of v)) (io.issue.sector, s) q p _ k)
              (λ k. push_each-old _ (time_buckets v.ts_ns (end_of v)) s q p _ k) j,
        ))

near-Belongs :
    (index : AnalysisIndex) (p : ℕ) (io : CompletedIo) (v : PipelineObservation) (s : ℕ)
    → IsIn s (time_buckets v.ts_ns (end_of v))
    → Belongs io v
    → IsIn p (second_positions (near_index index p v) io s)
near-Belongs index p io v s i b = place b
  where
    near : AnalysisIndex
    near = near_index index p v

    pids : List ℕ
    pids = at_key (io.issue.pid, s) near.observations_by_pid_time

    sectors : List ℕ
    sectors = at_key (io.issue.sector, s) near.observations_by_sector_time

    contexts : List ℕ
    contexts = at_key s near.context_observations_by_time

    place : Belongs io v → IsIn p (pids ++ (sectors ++ contexts))
    place (inl context) = IsIn-append_right p pids (sectors ++ contexts) (
        IsIn-append_right p sectors contexts (
          push_each-new (context_key v.confidence) (time_buckets v.ts_ns (end_of v)) s s p
            index.context_observations_by_time i (rw context refl)))
    place (inr (inl at_sector)) = IsIn-append_right p pids (sectors ++ contexts) (
        IsIn-append_left p sectors contexts (
          push_each-new (sector_key v.sector) (time_buckets v.ts_ns (end_of v)) s
            (io.issue.sector, s) p index.observations_by_sector_time i
            (ap (λ (o : Option ℕ). sector_key o s) at_sector)))
    place (inr (inr on_process)) = IsIn-append_left p pids (sectors ++ contexts) (
        push_each-new (λ second. some (v.pid, second)) (time_buckets v.ts_ns (end_of v)) s
          (io.issue.pid, s) p index.observations_by_pid_time i
          (ap (λ (n : ℕ). some (n, s)) on_process))

-- The position of a candidate is found once it is in the index.
index_observation-new :
    (index : AnalysisIndex) (p : ℕ) (io : CompletedIo) (v : PipelineObservation)
    → is_some io.evidence ≡ false
    → block_start io ≤ io.completion.ts_ns
    → io.completion.ts_ns ≤ u64_max
    → is_candidate io v ≡ true
    → IsFound (index_observation index p v) io p
unfolding index_observation
index_observation-new index p io v own ordered small h =
    elim (Bool-cases (ltb 120 (length (time_buckets v.ts_ns (end_of v))))) [
      | inl long ↦ rw long (inl (IsIn-append_right p index.long_observations (p ∷ []) (inl refl)))
      | inr short ↦ rw short (near (not_above (length (time_buckets v.ts_ns (end_of v))) short))
    ]
  where
    not_above : (n : ℕ) → ltb 120 n ≡ false → n ≤ 120
    not_above n e = ground arith

    near : length (time_buckets v.ts_ns (end_of v)) ≤ 120 → IsFound (near_index index p v) io p
    near short = elim (Bool-cases (names_request io v)) [
      | inl named ↦ inr (
          inl (
            push_some-new v.correlation_id io.issue.request_id p index.observations_by_request
              ((option_eq.decides v.correlation_id (some io.issue.request_id)).0 named)))
      | inr other ↦
          let (overlapping, belongs) = candidate-Belongs io v h other in
          let close = overlaps-CloseTo io v small (candidate-forward io v h) overlapping in
          inr (
            inr (
              shared io v,
              shared-request io v own ordered small close,
              near-Belongs index p io v (shared io v) (shared-observation io v close short) belongs,
            ))
    ]

observations-old :
    (index : AnalysisIndex) (k : ℕ) (vs : List PipelineObservation) (io : CompletedIo) (p : ℕ)
    → IsFound index io p
    → IsFound (index_observations index k vs) io p
unfolding index_observations
observations-old index k [] io p f = f
observations-old index k (v ∷ vs) io p f =
    observations-old (index_observation index k v) (suc k) vs io p
      (index_observation-old index k v io p f)

observations-new :
    (index : AnalysisIndex) (k : ℕ) (vs : List PipelineObservation) (io : CompletedIo) (p : ℕ)
    (v : PipelineObservation)
    → is_some io.evidence ≡ false
    → block_start io ≤ io.completion.ts_ns
    → io.completion.ts_ns ≤ u64_max
    → get_elem? vs p ≡ some v
    → is_candidate io v ≡ true
    → IsFound (index_observations index k vs) io (k + p)
unfolding index_observations
observations-new index k [] io p v own ordered small e h = cc
observations-new index k (w ∷ vs) io zero v own ordered small e h =
    let same : w ≡ v = cc in
    let here : k + 0 ≡ k = omega arith in
    rw here (
      observations-old (index_observation index k w) (suc k) vs io k (
        index_observation-new index k io w own ordered small
          (subst (λ (x : PipelineObservation). is_candidate io x ≡ true) (sym same) h)))
observations-new index k (w ∷ vs) io (suc p) v own ordered small e h =
    let there : k + suc p ≡ suc k + p = omega arith in
    rw there
      (observations-new (index_observation index k w) (suc k) vs io p v own ordered small e h)

nodes-old :
    (index : AnalysisIndex) (k : ℕ) (ns : List IoNode) (io : CompletedIo) (p : ℕ)
    → IsFound index io p
    → IsFound (index_nodes index k ns) io p
unfolding index_nodes
nodes-old index k [] io p f = f
nodes-old index k (n ∷ ns) io p f =
    nodes-old
      (record index {
        nodes_by_transaction = push_some n.transaction_id k index.nodes_by_transaction;
      })
      (suc k) ns io p f

edges-old :
    (index : AnalysisIndex) (k : ℕ) (es : List IoEdge) (io : CompletedIo) (p : ℕ)
    → IsFound index io p
    → IsFound (index_edges index k es) io p
unfolding index_edges
edges-old index k [] io p f = f
edges-old index k (e ∷ es) io p f =
    edges-old
      (record index {
        edges_by_transaction = push_some e.transaction_id k index.edges_by_transaction;
      })
      (suc k) es io p f

-- Every candidate of a request has its position among those that the lookup gathers.
pub build_index-finds :
    (e : AnalysisEngine) (io : CompletedIo) (p : ℕ) (v : PipelineObservation)
    → is_some io.evidence ≡ false
    → block_start io ≤ io.completion.ts_ns
    → io.completion.ts_ns ≤ u64_max
    → get_elem? e.pipeline_observations p ≡ some v
    → is_candidate io v ≡ true
    → IsFound (build_index e) io p
unfolding build_index
build_index-finds e io p v own ordered small at h =
    let files = index_files no_index 0 e.file_ios in
    let found = observations-new files 0 e.pipeline_observations io p v own ordered small at h in
    let here : 0 + p ≡ p = omega arith in
    let found' =
      subst (λ (q : ℕ). IsFound (index_observations files 0 e.pipeline_observations) io q) here
        found in
    let observed = index_observations files 0 e.pipeline_observations in
    edges-old (index_nodes observed 0 e.graph_nodes) 0 e.graph_edges io p
      (nodes-old observed 0 e.graph_nodes io p found')
