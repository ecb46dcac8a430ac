-- ===== src/Correlator/Inserts.antt =====
-- The insert that a pending request carries is one of its own request id and device
-- (`RequestCorrelator`, crates/protocol/src/lib.rs).
use android_ebpf_studio.Prelude.{
  ℕ, ◌≡◌, refl, subst, ◌||◌, inl, inr, Bool, Option, none, some, List, [], ◌∷◌, ◌==◌, nat_eq,
  pair_eq, Bool-cases,
}
use android_ebpf_studio.Prelude.Dict.{lookup, insert, remove, retain}
use android_ebpf_studio.Rolling.{RollingRate}
use android_ebpf_studio.Events.Block.{BlockInsert, BlockIssue, BlockComplete, AccessPattern}
use android_ebpf_studio.Correlator.{
  RequestKey, key_eq, issue_key, insert_key, complete_key, PendingRequest, RequestCorrelator, new,
  keeps, is_some, expire_before, on_insert, on_issue_classified, on_complete, take_pending,
}
use android_ebpf_studio.Correlator.Depth.{BlockEvent, inserts, issues, completes, run}

module _ {V : Type 0} (P : RequestKey → V → Type 0) where
  abbrev AllHold : List (RequestKey × V) → Type 0
  AllHold [] = Unit {0}
  AllHold ((k, v) ∷ m) = P k v × AllHold m

  retain-AllHold :
      (keep : V → Bool) (m : List (RequestKey × V)) → AllHold m → AllHold (retain keep m)
  unfolding retain
  retain-AllHold keep [] a = tt
  retain-AllHold keep ((k, v) ∷ m) a = elim (Bool-cases (keep v)) [
    | inl kept ↦ rw kept (a.0, retain-AllHold keep m a.1)
    | inr dropped ↦ rw dropped (retain-AllHold keep m a.1)
  ]

  remove-AllHold : (k : RequestKey) (m : List (RequestKey × V)) → AllHold m → AllHold (remove k m)
  unfolding remove
  remove-AllHold k [] a = tt
  remove-AllHold k ((j, v) ∷ m) a = elim (Bool-cases (j == k)) [
    | inl same ↦ rw same (remove-AllHold k m a.1)
    | inr other ↦ rw other (a.0, remove-AllHold k m a.1)
  ]

  insert-AllHold :
      (k : RequestKey) (v : V) (m : List (RequestKey × V))
      → P k v
      → AllHold m
      → AllHold (insert k v m)
  unfolding insert
  insert-AllHold k v [] p a = (p, tt)
  insert-AllHold k v ((j, w) ∷ m) p a = elim (Bool-cases (j == k)) [
    | inl same ↦ rw same (p, a.1)
    | inr other ↦ rw other (a.0, insert-AllHold k v m p a.1)
  ]

  lookup-AllHold :
      (k : RequestKey) (v : V) (m : List (RequestKey × V)) → AllHold m → lookup k m ≡ some v → P k v
  unfolding lookup
  lookup-AllHold k v [] a e = cc
  lookup-AllHold k v ((j, w) ∷ m) a e = elim (Bool-cases (j == k)) [
    | inl same ↦
        let here : w ≡ v = let e' = rw same at e in cc in
        subst (λ (x : V). P k x) here
          (subst (λ (i : RequestKey). P i w) ((key_eq.decides j k).0 same) a.0)
    | inr other ↦ lookup-AllHold k v m a.1 (rw other at e)
  ]

abbrev IsOwn : RequestKey → BlockInsert → Type 0
IsOwn k i = insert_key i ≡ k

abbrev CarriesOwn : RequestKey → PendingRequest → Type 0
CarriesOwn k p = (i : BlockInsert) → p.insert ≡ some i → IsOwn k i

-- Inserts stand under their own keys, also those of the pending requests.
record OwnInserts (c : RequestCorrelator) : Type 0 where
  waiting : AllHold IsOwn c.inserted
  carried : AllHold CarriesOwn c.pending

expire_before-OwnInserts :
    (c : RequestCorrelator) (now : ℕ) → OwnInserts c → OwnInserts (expire_before c now)
unfolding expire_before
expire_before-OwnInserts c now v = record {
  waiting = retain-AllHold IsOwn (λ i. keeps c.ttl_ns now i.ts_ns) c.inserted v.waiting;
  carried = retain-AllHold CarriesOwn (λ p. keeps c.ttl_ns now p.issue.ts_ns) c.pending v.carried;
}

on_insert-OwnInserts :
    (c : RequestCorrelator) (i : BlockInsert) → OwnInserts c → OwnInserts (on_insert c i)
unfolding on_insert
on_insert-OwnInserts c0 i v =
    let c = expire_before c0 i.ts_ns in
    let now = expire_before-OwnInserts c0 i.ts_ns v in
    let stored = insert-AllHold IsOwn (insert_key i) i c.inserted refl now.waiting in
    elim (Bool-cases (is_some (lookup (insert_key i) c.inserted))) [
      | inl again ↦ rw again (record { waiting = stored; carried = now.carried })
      | inr first ↦ rw first (record { waiting = stored; carried = now.carried })
    ]

on_issue-OwnInserts :
    (c : RequestCorrelator) (issue : BlockIssue) (pattern : AccessPattern)
    → OwnInserts c
    → OwnInserts (on_issue_classified c issue pattern).0
unfolding on_issue_classified
on_issue-OwnInserts c0 issue pattern v =
    let c = expire_before c0 issue.ts_ns in
    let key = issue_key issue in
    let now = expire_before-OwnInserts c0 issue.ts_ns v in
    let waiting = remove-AllHold IsOwn key c.inserted now.waiting in
    let others = remove-AllHold CarriesOwn key c.pending now.carried in
    elim (Bool-cases (is_some (lookup key c.ambiguous) || is_some (lookup key c.pending))) [
      | inl collides ↦ rw collides (record { waiting = waiting; carried = others })
      | inr unique ↦ rw unique (record {
        waiting = waiting;
        carried =
            insert-AllHold CarriesOwn key _ (remove key c.pending)
              (λ i e. lookup-AllHold IsOwn key i c.inserted now.waiting e) others;
      })
    ]

take_pending-OwnInserts :
    (c : RequestCorrelator) (v : BlockComplete) (gap : Option ℕ) (rate : Option RollingRate)
    (o : Option PendingRequest)
    → OwnInserts c
    → OwnInserts (take_pending c v gap rate o).0
unfolding take_pending
take_pending-OwnInserts c v gap rate none n = n
take_pending-OwnInserts c v gap rate (some p) n = record {
  waiting = n.waiting;
  carried = remove-AllHold CarriesOwn (complete_key v) c.pending n.carried;
}

on_complete-OwnInserts :
    (c : RequestCorrelator) (v : BlockComplete) → OwnInserts c → OwnInserts (on_complete c v).0
unfolding on_complete
on_complete-OwnInserts c0 v n =
    let c = expire_before c0 v.ts_ns in
    let now = expire_before-OwnInserts c0 v.ts_ns n in
    elim (Bool-cases (is_some (lookup (complete_key v) c.ambiguous))) [
      | inl unsure ↦ rw unsure (record { waiting = now.waiting; carried = now.carried })
      | inr sure ↦ rw sure (
          take_pending-OwnInserts _ v _ _ (lookup (complete_key v) c.pending)
            (record { waiting = now.waiting; carried = now.carried }))
    ]

run-OwnInserts :
    (c : RequestCorrelator) (es : List BlockEvent) → OwnInserts c → OwnInserts (run c es)
unfolding run
run-OwnInserts c [] v = v
run-OwnInserts c (inserts i ∷ es) v = run-OwnInserts (on_insert c i) es (on_insert-OwnInserts c i v)
run-OwnInserts c (issues i pattern ∷ es) v =
    run-OwnInserts (on_issue_classified c i pattern).0 es (on_issue-OwnInserts c i pattern v)
run-OwnInserts c (completes e ∷ es) v =
    run-OwnInserts (on_complete c e).0 es (on_complete-OwnInserts c e v)

-- A request that is pending for a completion carries only an insert of the same key.
pub pending-insert_key :
    (ttl_ns : ℕ) (es : List BlockEvent) (v : BlockComplete) (p : PendingRequest) (i : BlockInsert)
    → lookup (complete_key v) (expire_before (run (new ttl_ns) es) v.ts_ns).pending ≡ some p
    → p.insert ≡ some i
    → insert_key i ≡ complete_key v
pending-insert_key ttl_ns es v p i found e =
    let c = run (new ttl_ns) es in
    let own = run-OwnInserts (new ttl_ns) es (record { waiting = tt; carried = tt }) in
    lookup-AllHold CarriesOwn (complete_key v) p (expire_before c v.ts_ns).pending
      (expire_before-OwnInserts c v.ts_ns own).carried found i e
