-- ===== src/Engine/Shared.antt =====
-- A candidate of a request and the request share a second (`request_time_buckets`, `time_buckets` and
-- `build_io_pipeline`, crates/protocol/src/lib.rs).
use android_ebpf_studio.Prelude.{
  ℕ, ◌+◌, ◌-◌, ◌/◌, ◌≡◌, ◌≤◌, ◌⊎◌, inl, inr, max, ◌&&◌, ◌||◌, Bool, true, false, Option, none, some,
  arith, ltb, if◌then◌else◌, length, u64_max, saturating_add, IsIn, Bool-cases, nat_eq, pair_eq,
  option_eq,
}
use android_ebpf_studio.Events.Pipeline.{PipelineObservation}
use android_ebpf_studio.Events.Completed.{CompletedIo, CompletionEvidence, on_session_clock}
use android_ebpf_studio.Correlator.{is_some}
use android_ebpf_studio.Stats.{time_buckets, second_ns}
use android_ebpf_studio.Stats.Samples.{time_buckets-seconds, length-time_buckets, IsIn-range_from}
use android_ebpf_studio.Pipeline.{
  is_candidate, names_request, block_start, end_of, overlaps, storage_match, thread_match,
  is_context,
}
use android_ebpf_studio.Engine.Index.{request_time_buckets, buckets_at}

-- The second that an observation and its request share: that of the later of their starts.
abbrev pub shared : CompletedIo → PipelineObservation → ℕ
shared io v = max (v.ts_ns / second_ns) ((block_start io - 10000000) / second_ns)

abbrev CloseTo : CompletedIo → PipelineObservation → Type 0
CloseTo io v =
    (v.ts_ns ≤ end_of v)
    × (v.ts_ns ≤ saturating_add io.completion.ts_ns 10000000)
    × (block_start io - 10000000 ≤ end_of v)

pub overlaps-CloseTo :
    (io : CompletedIo) (v : PipelineObservation)
    → io.completion.ts_ns ≤ u64_max
    → v.ts_ns ≤ end_of v
    → overlaps io v ≡ true
    → CloseTo io v
overlaps-CloseTo io v small forward h = elim (Bool-cases (is_context v.confidence)) [
  | inl context ↦ let h' = rw context at h in ground arith
  | inr causal ↦ let h' = rw causal at h in ground arith
]

pub shared-observation :
    (io : CompletedIo) (v : PipelineObservation)
    → CloseTo io v
    → length (time_buckets v.ts_ns (end_of v)) ≤ 120
    → IsIn (shared io v) (time_buckets v.ts_ns (end_of v))
shared-observation io v c short =
    let (most, holds) = time_buckets-seconds v.ts_ns (end_of v) (shared io v) in
    let count = length-time_buckets v.ts_ns (end_of v) c.0 in
    holds.1 (c.0, omega arith, omega arith, omega arith)

-- How a candidate belongs to its request: by its id, or near it as context, at its sector or on its
-- process.
abbrev pub Belongs : CompletedIo → PipelineObservation → Type 0
Belongs io v =
    (is_context v.confidence ≡ true) ⊎ (v.sector ≡ some io.issue.sector) ⊎ (v.pid ≡ io.issue.pid)

pub candidate-forward :
    (io : CompletedIo) (v : PipelineObservation) → is_candidate io v ≡ true → v.ts_ns ≤ end_of v
unfolding is_candidate
candidate-forward io v h = elim (Bool-cases (ltb (end_of v) v.ts_ns)) [
  | inl backward ↦ let h' = rw backward at h in cc
  | inr forward ↦ ground arith
]

last_test :
    (a b c o x s t : Bool)
    → (if a then false else if b then false else if c then true else o && (x || s || t)) ≡ true
    → c ≡ false
    → (o ≡ true) × ((x ≡ true) ⊎ (s ≡ true) ⊎ (t ≡ true))
last_test a b c o x s t h e = ground arith

storage_match-sector :
    (io : CompletedIo) (v : PipelineObservation)
    → storage_match io.issue v ≡ true
    → v.sector ≡ some io.issue.sector
storage_match-sector io v h = ground (arith, option_eq.decides v.sector (some io.issue.sector))

thread_match-pid :
    (io : CompletedIo) (v : PipelineObservation)
    → thread_match io.issue v ≡ true
    → v.pid ≡ io.issue.pid
thread_match-pid io v h = ground arith

pub candidate-Belongs :
    (io : CompletedIo) (v : PipelineObservation)
    → is_candidate io v ≡ true
    → names_request io v ≡ false
    → (overlaps io v ≡ true) × Belongs io v
unfolding is_candidate
candidate-Belongs io v h other =
    let (near, ways) = last_test _ _ (names_request io v) (overlaps io v) _ _ _ h other in
    (
      near,
      elim ways [
        | inl context ↦ inl context
        | inr (inl storage) ↦ inr (inl (storage_match-sector io v storage))
        | inr (inr thread) ↦ inr (inr (thread_match-pid io v thread))
      ],
    )

not_ltb : (a b : ℕ) → a ≤ b → ltb b a ≡ false
not_ltb a b h = ground arith

pub shared-request :
    (io : CompletedIo) (v : PipelineObservation)
    → is_some io.evidence ≡ false
    → block_start io ≤ io.completion.ts_ns
    → io.completion.ts_ns ≤ u64_max
    → CloseTo io v
    → IsIn (shared io v) (request_time_buckets io)
unfolding request_time_buckets
shared-request io v own ordered small c = go io.evidence own
  where
    go :
        (e : Option CompletionEvidence)
        → is_some e ≡ false
        → IsIn (shared io v) (buckets_at io (on_session_clock e io.completion.ts_ns))
    go (some e) h = cc
    go none h =
        let first = (block_start io - 10000000) / second_ns in
        let last = saturating_add io.completion.ts_ns 10000000 / second_ns in
        let order : first ≤ last = omega arith in
        let forward = not_ltb first last order in
        rw forward
          ((IsIn-range_from first (last - first + 1) (shared io v)).1 (omega arith, omega arith))
