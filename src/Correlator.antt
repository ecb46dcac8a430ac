-- ===== src/Correlator.antt =====
-- crates/protocol/src/lib.rs: `RequestCorrelator`, its construction, `on_insert`,
-- `on_issue_classified`, `on_complete` and `expire_before`. The counters `expired` and `replaced`
-- grow by at most the number of entries a call, and are unbounded here.
pub mod Maps
pub mod Depth
pub mod Inserts
pub mod Match
pub mod Reuse
mod Tests
mod State
pub use State.*
use android_ebpf_studio.Prelude.{
  ℕ, suc, ◌+◌, ◌-◌, ◌≡◌, refl, ◌↔◌, ◌&&◌, ◌||◌, Bool, true, false, not, Option, none, some, List,
  [], ◌∷◌, arith, leb, if◌then◌else◌, length, checked_sub, Eq, ◌==◌, nat_eq, pair_eq,
}
use android_ebpf_studio.Prelude.Dict.{lookup, insert, remove, retain}
use android_ebpf_studio.Rolling.{RollingRate, RollingRateAccumulator}
use android_ebpf_studio.Rolling
use android_ebpf_studio.Events.Block.{
  IoOperation, BlockInsert, BlockIssue, BlockComplete, AccessPattern, classify_size,
}
use android_ebpf_studio.Events.Completed.{DetailTiming, CompletedIo}

abbrev pub is_some {ℓ} : {A : Type ℓ} → Option A → Bool
is_some none = false
is_some (some a) = true

-- The depth of a device, 0 without an entry.
abbrev pub depth_or_zero : Option ℕ → ℕ
depth_or_zero none = 0
depth_or_zero (some d) = d

-- `if let Some(depth) = device_pending.get_mut(&device) { *depth = depth.saturating_sub(1) }`
pub lower_depth : Device → List (Device × ℕ) → List (Device × ℕ)
lower_depth d [] = []
lower_depth d ((k, n) ∷ m) = if k == d then (k, n - 1) ∷ m else (k, n) ∷ lower_depth d m

abbrev pub issue_device : BlockIssue → Device
issue_device v = (v.device_major, v.device_minor)

abbrev pub keeps : ℕ → ℕ → ℕ → Bool
keeps ttl_ns now_ns ts_ns = leb (now_ns - ts_ns) ttl_ns

-- The pending requests that are dropped each lower the depth of their device.
pub expire_pending :
    ℕ → ℕ → List (RequestKey × PendingRequest) → List (Device × ℕ) → List (Device × ℕ)
unfolding lower_depth
expire_pending ttl now [] depths = depths
expire_pending ttl now ((k, p) ∷ m) depths =
    expire_pending ttl now m
      (if keeps ttl now p.issue.ts_ns then depths else lower_depth (issue_device p.issue) depths)

pub expire_before : RequestCorrelator → ℕ → RequestCorrelator
unfolding expire_pending
expire_before c now_ns =
    let inserted = retain (λ (v : BlockInsert). keeps c.ttl_ns now_ns v.ts_ns) c.inserted in
    let pending = retain (λ (v : PendingRequest). keeps c.ttl_ns now_ns v.issue.ts_ns) c.pending in
    let ambiguous = retain (λ (ts : ℕ). keeps c.ttl_ns now_ns ts) c.ambiguous in
    record c {
      inserted = inserted;
      pending = pending;
      ambiguous = ambiguous;
      device_pending = expire_pending c.ttl_ns now_ns c.pending c.device_pending;
      expired =
          c.expired
          + (length c.inserted - length inserted)
          + (length c.pending - length pending)
          + (length c.ambiguous - length ambiguous);
    }

pub on_insert : RequestCorrelator → BlockInsert → RequestCorrelator
unfolding expire_before
on_insert c0 v =
    let c = expire_before c0 v.ts_ns in
    let key = insert_key v in
    let stored = insert key v c.inserted in
    if is_some (lookup key c.inserted)
    then record c {
      inserted = stored;
      replaced = c.replaced + 1;
      ambiguous = insert key v.ts_ns c.ambiguous;
    }
    else record c { inserted = stored }

-- `.and_then(|t| now.checked_sub(t))`
abbrev gap_since : Option ℕ → ℕ → Option ℕ
gap_since none now = none
gap_since (some t) now = checked_sub now t

-- `matches!(operation, Read | Write)` picks the bytes, anything else carries no payload.
abbrev payload_of : BlockIssue → ℕ
payload_of v = payload v.operation v.bytes
  where
    payload : IoOperation → ℕ → ℕ
    payload IoOperation.read n = n
    payload IoOperation.write n = n
    payload _ n = 0

-- `.entry(device).or_default().observe(gap, payload)`
abbrev accumulator_or_empty : Option RollingRateAccumulator → RollingRateAccumulator
accumulator_or_empty none = Rolling.empty
accumulator_or_empty (some a) = a

pub on_issue_classified : RequestCorrelator → BlockIssue → AccessPattern → RequestCorrelator × ℕ
unfolding expire_before
on_issue_classified c0 issue access_pattern =
    let c = expire_before c0 issue.ts_ns in
    let key = issue_key issue in
    let device = issue_device issue in
    let issue_gap_ns = gap_since (lookup device c.last_issue) issue.ts_ns in
    let (bandwidth, rate) =
      Rolling.observe (accumulator_or_empty (lookup device c.issue_bandwidth)) issue_gap_ns
        (some (payload_of issue)) in
    let removed = is_some (lookup key c.pending) in
    let pending = remove key c.pending in
    let old_depth = depth_or_zero (lookup device c.device_pending) in
    let depth = if removed then old_depth - 1 else old_depth in
    let request : PendingRequest = record {
      issue = issue;
      insert = lookup key c.inserted;
      access_pattern = access_pattern;
      detail_timing = record {
        issue_depth = some (depth + 1);
        issue_gap_ns = issue_gap_ns;
        completion_gap_ns = none;
        issue_bandwidth = rate;
        completion_bandwidth = none;
      };
      queue_depth_at_issue = length pending + 1;
    } in
    let d = record c {
      inserted = remove key c.inserted;
      last_issue = insert device issue.ts_ns c.last_issue;
      issue_bandwidth = insert device bandwidth c.issue_bandwidth;
    } in
    let result =
      if is_some (lookup key c.ambiguous) || removed
      then record d {
        pending = pending;
        device_pending = insert device depth c.device_pending;
        replaced = c.replaced + 1;
        ambiguous = insert key issue.ts_ns c.ambiguous;
      }
      else record d {
        pending = insert key request pending;
        device_pending = insert device (depth + 1) c.device_pending;
      } in
    (result, length result.pending)

abbrev on_issue : RequestCorrelator → BlockIssue → RequestCorrelator × ℕ
on_issue c issue = on_issue_classified c issue AccessPattern.unknown

-- The payload of the pending request, unless it was issued after the completion.
abbrev completed_payload : Option PendingRequest → ℕ → Option ℕ
completed_payload none ts_ns = none
completed_payload (some p) ts_ns =
    if leb p.issue.ts_ns ts_ns then some (payload_of p.issue) else none

-- `insert.and_then(|insert| later.checked_sub(insert.ts_ns))`
abbrev since_insert : Option BlockInsert → ℕ → Option ℕ
since_insert none later = none
since_insert (some i) later = checked_sub later i.ts_ns

abbrev or_else_latency : Option ℕ → ℕ → Option ℕ
or_else_latency none d = some d
or_else_latency (some n) d = some n

-- What `on_complete` returns for the pending request that it took out, with the device latency
-- and with the number of requests that stay pending.
abbrev pub completed_io :
    PendingRequest
    → BlockComplete
    → Option ℕ
    → Option RollingRate
    → ℕ
    → Option ℕ
    → Option CompletedIo
completed_io p v gap rate remaining none = none
completed_io p v gap rate remaining (some latency) = some (record {
  insert = p.insert;
  issue = p.issue;
  completion = v;
  latency_ns = some latency;
  queue_latency_ns = since_insert p.insert p.issue.ts_ns;
  device_latency_ns = some latency;
  total_latency_ns = or_else_latency (since_insert p.insert v.ts_ns) latency;
  queue_depth_at_issue = some p.queue_depth_at_issue;
  queue_depth_after = some remaining;
  detail_timing = record p.detail_timing { completion_gap_ns = gap; completion_bandwidth = rate };
  access_pattern = p.access_pattern;
  size_class = classify_size p.issue.bytes;
  evidence = none;
})

-- From `self.pending.remove(&key)?` on.
take_pending :
    RequestCorrelator
    → BlockComplete
    → Option ℕ
    → Option RollingRate
    → Option PendingRequest
    → RequestCorrelator × Option CompletedIo
unfolding lower_depth
take_pending c v gap rate none = (c, none)
take_pending c v gap rate (some p) =
    let pending = remove (complete_key v) c.pending in
    (
      record c {
        pending = pending;
        device_pending = lower_depth (v.device_major, v.device_minor) c.device_pending;
      },
      completed_io p v gap rate (length pending) (checked_sub v.ts_ns p.issue.ts_ns),
    )

pub on_complete : RequestCorrelator → BlockComplete → RequestCorrelator × Option CompletedIo
unfolding expire_before take_pending
on_complete c0 v =
    let c = expire_before c0 v.ts_ns in
    let key = complete_key v in
    let device : Device = (v.device_major, v.device_minor) in
    let gap = gap_since (lookup device c.last_completion) v.ts_ns in
    let (bandwidth, rate) =
      Rolling.observe (accumulator_or_empty (lookup device c.completion_bandwidth)) gap
        (completed_payload (lookup key c.pending) v.ts_ns) in
    let d = record c {
      last_completion = insert device v.ts_ns c.last_completion;
      completion_bandwidth = insert device bandwidth c.completion_bandwidth;
      ambiguous = remove key c.ambiguous;
    } in
    if is_some (lookup key c.ambiguous)
    then (d, none)
    else take_pending d v gap rate (lookup key c.pending)

abbrev pub pending_len : RequestCorrelator → ℕ
pending_len c = length c.pending
