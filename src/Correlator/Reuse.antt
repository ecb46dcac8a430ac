-- ===== src/Correlator/Reuse.antt =====
-- A request id that is issued again before it completes is never paired, and a clean life of a
-- request always is (`RequestCorrelator`).
use android_ebpf_studio.Prelude.{
  ℕ, ◌+◌, ◌-◌, ◌≡◌, refl, ap, ◌∙◌, ◌≤◌, ◌⊎◌, ◌||◌, true, false, inl, inr, none, some, arith, leb,
  ==_refl, nat_eq, pair_eq, Bool-cases,
}
use android_ebpf_studio.Prelude.Dict.{
  lookup, remove, lookup-insert, lookup-insert_self, lookup-retain-none,
}
use android_ebpf_studio.Events.Block.{BlockIssue, BlockComplete, AccessPattern}
use android_ebpf_studio.Events.Completed.{CompletedIo}
use android_ebpf_studio.Correlator.{
  RequestKey, key_eq, issue_key, complete_key, PendingRequest, RequestCorrelator, keeps, is_some,
  expire_before, on_issue_classified, on_complete, take_pending,
}
use android_ebpf_studio.Correlator.Match.{lookup-retain_kept}

-- The key is taken by an issue: it is marked ambiguous at that time, or the issue is pending.
abbrev IsTaken : RequestKey → BlockIssue → RequestCorrelator → Type 0
IsTaken k i c =
    (lookup k c.ambiguous ≡ some i.ts_ns)
    ⊎ ((p : PendingRequest) × (lookup k c.pending ≡ some p) × (p.issue ≡ i))

ttl_kept :
    (c : RequestCorrelator) (i : BlockIssue) (a : AccessPattern)
    → (on_issue_classified c i a).0.ttl_ns ≡ c.ttl_ns
unfolding on_issue_classified
ttl_kept c i a =
    elim (Bool-cases (
      is_some (lookup (issue_key i) (expire_before c i.ts_ns).ambiguous)
      || is_some (lookup (issue_key i) (expire_before c i.ts_ns).pending))) [
        | inl collides ↦ rw collides refl
        | inr unique ↦ rw unique refl
      ]

expire-IsTaken :
    (c : RequestCorrelator) (k : RequestKey) (i : BlockIssue) (now : ℕ)
    → now ≤ i.ts_ns + c.ttl_ns
    → IsTaken k i c
    → IsTaken k i (expire_before c now)
unfolding expire_before
expire-IsTaken c k i now h (inl a) =
    inl
      (lookup-retain_kept (λ (t : ℕ). keeps c.ttl_ns now t) k c.ambiguous i.ts_ns a (ground arith))
expire-IsTaken c k i now h (inr (p, e, s)) = inr (
  p,
  lookup-retain_kept (λ (q : PendingRequest). keeps c.ttl_ns now q.issue.ts_ns) k c.pending p e
      (let at : p.issue.ts_ns ≡ i.ts_ns = ap (λ (b : BlockIssue). b.ts_ns) s in ground arith),
  s,
)

issue-IsTaken :
    (c : RequestCorrelator) (i : BlockIssue) (a : AccessPattern)
    → IsTaken (issue_key i) i (on_issue_classified c i a).0
unfolding on_issue_classified
issue-IsTaken c0 i a =
    let c = expire_before c0 i.ts_ns in
    let key = issue_key i in
    elim (Bool-cases (is_some (lookup key c.ambiguous) || is_some (lookup key c.pending))) [
      | inl collides ↦
          rw collides (inl (ground (arith, lookup-insert key key i.ts_ns c.ambiguous, ==_refl key)))
      | inr unique ↦ rw unique (inr (_, lookup-insert_self key _ (remove key c.pending), refl))
    ]

taken_is_busy :
    (c : RequestCorrelator) (k : RequestKey) (i : BlockIssue)
    → IsTaken k i c
    → (is_some (lookup k c.ambiguous) || is_some (lookup k c.pending)) ≡ true
taken_is_busy c k i (inl a) = rw a refl
taken_is_busy c k i (inr (p, e, s)) = rw e (ground arith)

reissue_marks :
    (c : RequestCorrelator) (a b : BlockIssue) (q : AccessPattern)
    → b.ts_ns ≤ a.ts_ns + c.ttl_ns
    → IsTaken (issue_key b) a c
    → lookup (issue_key b) (on_issue_classified c b q).0.ambiguous ≡ some b.ts_ns
unfolding on_issue_classified
reissue_marks c0 a b q h t =
    let c = expire_before c0 b.ts_ns in
    rw (taken_is_busy c (issue_key b) a (expire-IsTaken c0 (issue_key b) a b.ts_ns h t)) (
      ground (
        arith,
        lookup-insert (issue_key b) (issue_key b) b.ts_ns c.ambiguous,
        ==_refl (issue_key b),
      ))

ambiguous_unpaired :
    (c : RequestCorrelator) (ts : ℕ) (v : BlockComplete)
    → v.ts_ns ≤ ts + c.ttl_ns
    → lookup (complete_key v) c.ambiguous ≡ some ts
    → (on_complete c v).1 ≡ none
unfolding on_complete expire_before
ambiguous_unpaired c ts v h a =
    let kept : lookup (complete_key v) (expire_before c v.ts_ns).ambiguous ≡ some ts =
      lookup-retain_kept (λ (t : ℕ). keeps c.ttl_ns v.ts_ns t) (complete_key v) c.ambiguous ts a
        (ground arith) in
    rw kept refl

-- Two issues of one request id on one device with no completion between them, and a completion of
-- that id, each at most the time to live after the one before: the completion is not paired,
-- whatever the correlator held before.
pub reuse-unpaired :
    (c : RequestCorrelator) (a b : BlockIssue) (p q : AccessPattern) (v : BlockComplete)
    → issue_key a ≡ issue_key b
    → complete_key v ≡ issue_key b
    → b.ts_ns ≤ a.ts_ns + c.ttl_ns
    → v.ts_ns ≤ b.ts_ns + c.ttl_ns
    → (on_complete (on_issue_classified (on_issue_classified c a p).0 b q).0 v).1 ≡ none
reuse-unpaired c a b p q v same ends h k =
    let c1 = (on_issue_classified c a p).0 in
    let c2 = (on_issue_classified c1 b q).0 in
    let marked : lookup (issue_key b) c2.ambiguous ≡ some b.ts_ns =
      reissue_marks c1 a b q (rw (ttl_kept c a p) h) (rw same at (issue-IsTaken c a p)) in
    ambiguous_unpaired c2 b.ts_ns v (rw (ttl_kept c1 b q, ttl_kept c a p) k) (rw ends marked)

fresh_issue :
    (c : RequestCorrelator) (i : BlockIssue) (a : AccessPattern)
    → lookup (issue_key i) (expire_before c i.ts_ns).pending ≡ none
    → lookup (issue_key i) (expire_before c i.ts_ns).ambiguous ≡ none
    → (lookup (issue_key i) (on_issue_classified c i a).0.ambiguous ≡ none)
      × (p : PendingRequest) × (lookup (issue_key i) (on_issue_classified c i a).0.pending ≡ some p)
      × (p.issue ≡ i)
unfolding on_issue_classified
fresh_issue c0 i a free clear =
    let c = expire_before c0 i.ts_ns in
    let key = issue_key i in
    let unique : (is_some (lookup key c.ambiguous) || is_some (lookup key c.pending)) ≡ false =
      rw (free, clear) refl in
    rw unique (clear, _, lookup-insert_self key _ (remove key c.pending), refl)

clear_complete :
    (c : RequestCorrelator) (v : BlockComplete) (p : PendingRequest)
    → lookup (complete_key v) c.ambiguous ≡ none
    → lookup (complete_key v) c.pending ≡ some p
    → p.issue.ts_ns ≤ v.ts_ns
    → v.ts_ns ≤ p.issue.ts_ns + c.ttl_ns
    → (io : CompletedIo) × ((on_complete c v).1 ≡ some io)
      × (io.issue ≡ p.issue)
      × (io.completion ≡ v)
      × (io.device_latency_ns ≡ some (v.ts_ns - p.issue.ts_ns))
unfolding on_complete expire_before take_pending
clear_complete c v p clear there o h =
    let sure : lookup (complete_key v) (expire_before c v.ts_ns).ambiguous ≡ none =
      lookup-retain-none (λ (t : ℕ). keeps c.ttl_ns v.ts_ns t) (complete_key v) c.ambiguous clear in
    let kept : lookup (complete_key v) (expire_before c v.ts_ns).pending ≡ some p =
      lookup-retain_kept (λ (q : PendingRequest). keeps c.ttl_ns v.ts_ns q.issue.ts_ns)
        (complete_key v) c.pending p there (ground arith) in
    let ordered : leb p.issue.ts_ns v.ts_ns ≡ true = ground arith in
    rw (sure, kept, ordered) (_, refl, refl, refl, refl)

-- Without a pending or ambiguous entry of its key, an issue followed by a completion of the same
-- request id and device, no earlier and at most the time to live later, is paired with that issue.
pub issue_complete :
    (c : RequestCorrelator) (i : BlockIssue) (p : AccessPattern) (v : BlockComplete)
    → lookup (issue_key i) (expire_before c i.ts_ns).pending ≡ none
    → lookup (issue_key i) (expire_before c i.ts_ns).ambiguous ≡ none
    → complete_key v ≡ issue_key i
    → i.ts_ns ≤ v.ts_ns
    → v.ts_ns ≤ i.ts_ns + c.ttl_ns
    → (io : CompletedIo) × ((on_complete (on_issue_classified c i p).0 v).1 ≡ some io)
      × (io.issue ≡ i)
      × (io.completion ≡ v)
      × (io.device_latency_ns ≡ some (v.ts_ns - i.ts_ns))
issue_complete c i a v free clear ends o h =
    let (calm, p, there, same) = fresh_issue c i a free clear in
    let at : p.issue.ts_ns ≡ i.ts_ns = ap (λ (b : BlockIssue). b.ts_ns) same in
    let (io, found, issue, completion, latency) =
      clear_complete (on_issue_classified c i a).0 v p (rw ends calm) (rw ends there) (rw at o)
        (rw (ttl_kept c i a, at) h) in
    (io, found, issue ∙ same, completion, rw at at latency)
