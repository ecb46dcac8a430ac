-- ===== src/Correlator/Match.antt =====
-- Which completion is paired with which issue, and what its latencies are
-- (`RequestCorrelator::on_complete`).
use android_ebpf_studio.Prelude.{
  ℕ, ◌+◌, ◌-◌, ◌≡◌, refl, sym, ap, ◌≤◌, ◌<◌, ◌⊎◌, Bool, true, false, inl, inr, Option, none, some,
  List, [], ◌∷◌, arith, leb, length, ==_refl, nat_eq, pair_eq, Bool-cases,
}
use android_ebpf_studio.Prelude.Dict.{lookup, remove, retain, lookup-remove}
use android_ebpf_studio.Rolling.{RollingRate}
use android_ebpf_studio.Events.Block.{BlockInsert, BlockIssue, BlockComplete}
use android_ebpf_studio.Events.Completed.{CompletedIo}
use android_ebpf_studio.Correlator.{
  RequestKey, key_eq, insert_key, complete_key, PendingRequest, RequestCorrelator, new, keeps,
  is_some, expire_before, on_complete, take_pending, completed_io,
}
use android_ebpf_studio.Correlator.Maps.{IsKeyed, lookup-IsKeyed, retain-IsKeyed}
use android_ebpf_studio.Correlator.Inserts.{pending-insert_key}
use android_ebpf_studio.Correlator.Depth.{BlockEvent, run, run-IsCounted}

module _ {V : Type 0} (keep : V → Bool) (k : RequestKey) where
  pub lookup-retain_kept :
      (m : List (RequestKey × V)) (v : V)
      → lookup k m ≡ some v
      → keep v ≡ true
      → lookup k (retain keep m) ≡ some v
  unfolding lookup retain
  lookup-retain_kept [] v e h = cc
  lookup-retain_kept ((j, w) ∷ m) v e h = ground (arith, lookup-retain_kept m v, key_eq.decides j k)

  retain-lookup_kept :
      (m : List (RequestKey × V)) (v : V) → lookup k (retain keep m) ≡ some v → keep v ≡ true
  unfolding lookup retain
  retain-lookup_kept [] v e = cc
  retain-lookup_kept ((j, w) ∷ m) v e = ground (arith, retain-lookup_kept m v)

-- The time from one instant to a later one, none if it is earlier.
abbrev Elapsed : ℕ → ℕ → Option ℕ → Type 0
Elapsed from to time = ((from ≤ to) × (time ≡ some (to - from))) ⊎ ((to < from) × (time ≡ none))

-- The latencies of a pair: from issue to completion, the time in the queue if there is an insert that
-- is not after the issue, and the total from an insert that is not after the completion on, or else
-- from the issue on.
abbrev HasLatencies : Option BlockInsert → BlockIssue → BlockComplete → CompletedIo → Type 0
HasLatencies none issue v io =
    (io.latency_ns ≡ some (v.ts_ns - issue.ts_ns))
    × (io.device_latency_ns ≡ some (v.ts_ns - issue.ts_ns))
    × (io.queue_latency_ns ≡ none)
    × (io.total_latency_ns ≡ some (v.ts_ns - issue.ts_ns))
HasLatencies (some i) issue v io =
    (io.latency_ns ≡ some (v.ts_ns - issue.ts_ns))
    × (io.device_latency_ns ≡ some (v.ts_ns - issue.ts_ns))
    × Elapsed i.ts_ns issue.ts_ns io.queue_latency_ns
    × (((i.ts_ns ≤ v.ts_ns) × (io.total_latency_ns ≡ some (v.ts_ns - i.ts_ns)))
        ⊎ ((v.ts_ns < i.ts_ns) × (io.total_latency_ns ≡ some (v.ts_ns - issue.ts_ns))))

-- An insert, if there is one, has the request id and the device of the completion.
abbrev IsInsertOf : Option BlockInsert → BlockComplete → Type 0
IsInsertOf none v = Unit {0}
IsInsertOf (some i) v =
    (i.request_id ≡ v.request_id)
    × (i.device_major ≡ v.device_major)
    × (i.device_minor ≡ v.device_minor)

-- What a completion answers, against the correlator `c` that is left after expiry.
abbrev pub CompleteJudged :
    RequestCorrelator → BlockComplete → RequestCorrelator × Option CompletedIo → Type 0
CompleteJudged c v (d, none) =
    (is_some (lookup (complete_key v) c.ambiguous) ≡ true)
    ⊎ (lookup (complete_key v) c.pending ≡ none)
    ⊎ ((p : PendingRequest) × (lookup (complete_key v) c.pending ≡ some p)
        × (v.ts_ns < p.issue.ts_ns))
CompleteJudged c v (d, some io) =
    (is_some (lookup (complete_key v) c.ambiguous) ≡ false)
    × (p : PendingRequest) × (lookup (complete_key v) c.pending ≡ some p)
    × (io.issue ≡ p.issue)
    × (io.insert ≡ p.insert)
    × (io.completion ≡ v)
    × (p.issue.request_id ≡ v.request_id)
    × (p.issue.device_major ≡ v.device_major)
    × (p.issue.device_minor ≡ v.device_minor)
    × IsInsertOf p.insert v
    × (p.issue.ts_ns ≤ v.ts_ns)
    × (v.ts_ns ≤ p.issue.ts_ns + c.ttl_ns)
    × HasLatencies p.insert p.issue v io
    × (io.queue_depth_at_issue ≡ some p.queue_depth_at_issue)
    × (io.queue_depth_after ≡ some (length d.pending))
    × (lookup (complete_key v) d.pending ≡ none)

latencies_of :
    (p : PendingRequest) (v : BlockComplete) (gap : Option ℕ) (rate : Option RollingRate)
    (n latency : ℕ) (io : CompletedIo)
    → p.issue.ts_ns ≤ v.ts_ns
    → latency ≡ v.ts_ns - p.issue.ts_ns
    → completed_io p v gap rate n (some latency) ≡ some io
    → (i : Option BlockInsert) → p.insert ≡ i
    → HasLatencies i p.issue v io
latencies_of p v gap rate n latency io o l e none i = ground arith
latencies_of p v gap rate n latency io o l e (some j) i =
    (ground arith, ground arith, ground arith, ground arith)

insert_of :
    (v : BlockComplete) (o : Option BlockInsert)
    → ((i : BlockInsert) → o ≡ some i → insert_key i ≡ complete_key v)
    → IsInsertOf o v
insert_of v none h = tt
insert_of v (some i) h =
    let same = h i refl in
    (
      ap (λ (k : RequestKey). k.request_id) same,
      ap (λ (k : RequestKey). k.device_major) same,
      ap (λ (k : RequestKey). k.device_minor) same,
    )

expired-IsKeyed :
    (c : RequestCorrelator) (now : ℕ) → IsKeyed c.pending → IsKeyed (expire_before c now).pending
unfolding expire_before
expired-IsKeyed c now k = retain-IsKeyed (λ p. keeps c.ttl_ns now p.issue.ts_ns) c.pending k

expired_recent :
    (c : RequestCorrelator) (v : BlockComplete) (k : RequestKey) (p : PendingRequest)
    → lookup k (expire_before c v.ts_ns).pending ≡ some p
    → v.ts_ns ≤ p.issue.ts_ns + (expire_before c v.ts_ns).ttl_ns
unfolding expire_before
expired_recent c v k p e =
    let kept =
      retain-lookup_kept (λ (q : PendingRequest). keeps c.ttl_ns v.ts_ns q.issue.ts_ns) k c.pending
        p e in
    ground (arith, kept)

-- The facts about the expired correlator that a pair rests on.
taken-Judged :
    (c d : RequestCorrelator) (v : BlockComplete) (gap : Option ℕ) (rate : Option RollingRate)
    (o : Option PendingRequest)
    → is_some (lookup (complete_key v) c.ambiguous) ≡ false
    → lookup (complete_key v) c.pending ≡ o
    → d.pending ≡ c.pending
    → IsKeyed c.pending
    → ((p : PendingRequest) → o ≡ some p → v.ts_ns ≤ p.issue.ts_ns + c.ttl_ns)
    → ((p : PendingRequest) (i : BlockInsert)
        → o ≡ some p
        → p.insert ≡ some i
        → insert_key i ≡ complete_key v)
    → CompleteJudged c v (take_pending d v gap rate o)
unfolding take_pending
taken-Judged c d v gap rate none a e s k f h = inr (inl e)
taken-Judged c d v gap rate (some p) a e s k f h = elim (Bool-cases (leb p.issue.ts_ns v.ts_ns)) [
  | inl ordered ↦ rw ordered (
    a,
    p,
    e,
    refl,
    refl,
    refl,
    ap (λ (i : RequestKey). i.request_id) (sym (lookup-IsKeyed (complete_key v) c.pending p k e)),
    ap (λ (i : RequestKey). i.device_major) (sym (lookup-IsKeyed (complete_key v) c.pending p k e)),
    ap (λ (i : RequestKey). i.device_minor) (sym (lookup-IsKeyed (complete_key v) c.pending p k e)),
    insert_of v p.insert (λ i. h p i refl),
    ground arith,
    f p refl,
    latencies_of p v gap rate (length (remove (complete_key v) d.pending)) (v.ts_ns - p.issue.ts_ns)
        _ (ground arith) refl refl p.insert refl,
    refl,
    refl,
    ground (
      arith,
      lookup-remove (complete_key v) (complete_key v) d.pending,
      ==_refl (complete_key v),
    ),
  )
  | inr late ↦ rw late (inr (inr (p, e, ground arith)))
]

-- After any run, and the expiry at the time of a completion, the completion is paired exactly when
-- its key is not ambiguous and has a pending request that was not issued later; otherwise there is no
-- pair and one of these three is the reason. A pair carries the pending request's issue, issued at
-- most the time to live before, and its insert, if there is one, both of the completion's request id
-- and device; its latency and device latency are the time from issue to completion, its queue latency
-- that from insert to issue, none without an insert or if it is after the issue, and its total latency
-- the time from the insert to the completion, or from the issue without an insert or if it is after
-- the completion. Its queue depths are the pending request's at the issue and the number of requests
-- that stay pending, and its request is pending no more.
pub on_complete-Judged :
    (ttl_ns : ℕ) (es : List BlockEvent) (v : BlockComplete)
    → CompleteJudged
        (expire_before (run (new ttl_ns) es) v.ts_ns)
        v
        (on_complete (run (new ttl_ns) es) v)
unfolding on_complete
on_complete-Judged ttl_ns es v =
    let c0 = run (new ttl_ns) es in
    let c = expire_before c0 v.ts_ns in
    elim (Bool-cases (is_some (lookup (complete_key v) c.ambiguous))) [
      | inl unsure ↦ rw unsure (inl unsure)
      | inr sure ↦ rw sure (
          taken-Judged c _ v _ _ (lookup (complete_key v) c.pending) sure refl refl
            (expired-IsKeyed c0 v.ts_ns (run-IsCounted ttl_ns es).keyed)
            (λ p e. expired_recent c0 v (complete_key v) p e) (pending-insert_key ttl_ns es v))
    ]
