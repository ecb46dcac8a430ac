-- ===== src/Correlator/Depth.antt =====
-- The per-device depth counters of the correlator always equal the numbers of pending requests.
use android_ebpf_studio.Prelude.{
  ℕ, ◌+◌, ◌-◌, ◌≡◌, refl, ◌||◌, inl, inr, Option, none, some, List, [], ◌∷◌, arith, if◌then◌else◌,
  ==_refl, nat_eq, pair_eq, Bool-cases, Option-cases,
}
use android_ebpf_studio.Prelude.Dict.{lookup, insert, remove, lookup-insert, lookup-remove}
use android_ebpf_studio.Rolling.{RollingRate}
use android_ebpf_studio.Events.Block.{BlockInsert, BlockIssue, BlockComplete, AccessPattern}
use android_ebpf_studio.Correlator.{
  Device, RequestKey, key_eq, issue_key, issue_device, insert_key, complete_key, PendingRequest,
  RequestCorrelator, new, depth_or_zero, keeps, is_some, expire_before, on_insert,
  on_issue_classified, on_complete, take_pending,
}
use android_ebpf_studio.Correlator.Maps.{
  Pending, count_device, IsKeyed, expire_pending-count, retain-IsKeyed, remove-IsKeyed,
  remove-count, insert-count, insert-IsKeyed, lookup-IsKeyed, lookup-lower_depth, remove_absent,
}

-- The pending requests and the depth counters agree.
pub record AreCounted (pending : Pending) (depths : List (Device × ℕ)) : Type 0 where
  pub keyed : IsKeyed pending
  pub counted : (d : Device) → depth_or_zero (lookup d depths) ≡ count_device d pending

abbrev pub IsCounted : RequestCorrelator → Type 0
IsCounted c = AreCounted c.pending c.device_pending

expire_before-IsCounted :
    (c : RequestCorrelator) (now : ℕ) → IsCounted c → IsCounted (expire_before c now)
unfolding expire_before
expire_before-IsCounted c now v = record {
  keyed = retain-IsKeyed (λ p. keeps c.ttl_ns now p.issue.ts_ns) c.pending v.keyed;
  counted = λ d. omega (
    arith,
    expire_pending-count c.ttl_ns now d c.pending c.device_pending 0 (omega (arith, v.counted d)),
  );
}

-- The depth of the device of a key once the key's request, if there is one, is taken out.
abbrev depth_without : RequestKey → Device → Pending → List (Device × ℕ) → ℕ
depth_without key device m depths =
    if is_some (lookup key m)
    then depth_or_zero (lookup device depths) - 1
    else depth_or_zero (lookup device depths)

taken_out :
    (key : RequestKey) (device : Device) (m : Pending) (depths : List (Device × ℕ))
    → device ≡ (key.device_major, key.device_minor)
    → AreCounted m depths
    → AreCounted (remove key m) (insert device (depth_without key device m depths) depths)
taken_out key device m depths own v = elim (Option-cases (lookup key m)) [
  | inl none_there ↦
      rw (none_there, remove_absent key m none_there)
        (record {
          keyed = v.keyed;
          counted = λ d. ground (
            arith,
            lookup-insert device d (depth_or_zero (lookup device depths)) depths,
            pair_eq.decides device d,
            v.counted d,
          );
        })
  | inr (p, there) ↦ rw there (record {
    keyed = remove-IsKeyed key m v.keyed;
    counted = λ d. ground (
      arith,
      lookup-insert device d (depth_or_zero (lookup device depths) - 1) depths,
      pair_eq.decides device d,
      pair_eq.decides (issue_device p.issue) d,
      v.counted d,
      remove-count d key m p v.keyed there,
      lookup-IsKeyed key m p v.keyed there,
      own,
    );
  })
]

put_in :
    (key : RequestKey) (device : Device) (m : Pending) (depths : List (Device × ℕ)) (n : ℕ)
    (p : PendingRequest)
    → device ≡ issue_device p.issue
    → key ≡ issue_key p.issue
    → AreCounted (remove key m) (insert device n depths)
    → AreCounted (insert key p (remove key m)) (insert device (n + 1) depths)
put_in key device m depths n p own named v =
    let gone : lookup key (remove key m) ≡ none =
      ground (arith, lookup-remove key key m, ==_refl key) in
    record {
      keyed = insert-IsKeyed key (remove key m) p gone named v.keyed;
      counted = λ d. ground (
        arith,
        lookup-insert device d n depths,
        lookup-insert device d (n + 1) depths,
        pair_eq.decides device d,
        pair_eq.decides (issue_device p.issue) d,
        v.counted d,
        insert-count d key (remove key m) p gone,
        own,
      );
    }

on_issue-IsCounted :
    (c : RequestCorrelator) (issue : BlockIssue) (pattern : AccessPattern)
    → IsCounted c
    → IsCounted (on_issue_classified c issue pattern).0
unfolding on_issue_classified
on_issue-IsCounted c0 issue pattern v =
    let c = expire_before c0 issue.ts_ns in
    let now = expire_before-IsCounted c0 issue.ts_ns v in
    let out =
      taken_out (issue_key issue) (issue_device issue) c.pending c.device_pending refl now in
    elim (Bool-cases (
      is_some (lookup (issue_key issue) c.ambiguous)
      || is_some (lookup (issue_key issue) c.pending))) [
        | inl collides ↦ rw collides out
        | inr unique ↦ rw unique (
            put_in (issue_key issue) (issue_device issue) c.pending c.device_pending _ _ refl refl
              out)
      ]

on_insert-IsCounted :
    (c : RequestCorrelator) (i : BlockInsert) → IsCounted c → IsCounted (on_insert c i)
unfolding on_insert
on_insert-IsCounted c i v =
    let now = expire_before-IsCounted c i.ts_ns v in
    elim (Bool-cases (is_some (lookup (insert_key i) (expire_before c i.ts_ns).inserted))) [
      | inl again ↦ rw again now
      | inr first ↦ rw first now
    ]

take_pending-IsCounted :
    (c : RequestCorrelator) (v : BlockComplete) (gap : Option ℕ) (rate : Option RollingRate)
    (o : Option PendingRequest)
    → lookup (complete_key v) c.pending ≡ o
    → IsCounted c
    → IsCounted (take_pending c v gap rate o).0
unfolding take_pending
take_pending-IsCounted c v gap rate none e n = n
take_pending-IsCounted c v gap rate (some p) e n = record {
  keyed = remove-IsKeyed (complete_key v) c.pending n.keyed;
  counted = λ d. ground (
    arith,
    lookup-lower_depth (v.device_major, v.device_minor) d c.device_pending,
    pair_eq.decides (v.device_major, v.device_minor) d,
    pair_eq.decides (issue_device p.issue) d,
    n.counted d,
    remove-count d (complete_key v) c.pending p n.keyed e,
    lookup-IsKeyed (complete_key v) c.pending p n.keyed e,
  );
}

on_complete-IsCounted :
    (c : RequestCorrelator) (v : BlockComplete) → IsCounted c → IsCounted (on_complete c v).0
unfolding on_complete
on_complete-IsCounted c0 v n =
    let c = expire_before c0 v.ts_ns in
    let now = expire_before-IsCounted c0 v.ts_ns n in
    elim (Bool-cases (is_some (lookup (complete_key v) c.ambiguous))) [
      | inl unsure ↦ rw unsure (record { keyed = now.keyed; counted = now.counted })
      | inr sure ↦ rw sure (
          take_pending-IsCounted _ v _ _ (lookup (complete_key v) c.pending) refl
            (record { keyed = now.keyed; counted = now.counted }))
    ]

-- One block event, as the engine hands it on.
pub data BlockEvent : Type 0 where
  inserts : BlockInsert → BlockEvent
  issues : BlockIssue → AccessPattern → BlockEvent
  completes : BlockComplete → BlockEvent

unfoldable pub step : RequestCorrelator → BlockEvent → RequestCorrelator
step c (inserts i) = on_insert c i
step c (issues i pattern) = (on_issue_classified c i pattern).0
step c (completes v) = (on_complete c v).0

unfoldable pub run : RequestCorrelator → List BlockEvent → RequestCorrelator
unfolding step
run c [] = c
run c (e ∷ es) = run (step c e) es

run_keeps : (c : RequestCorrelator) (es : List BlockEvent) → IsCounted c → IsCounted (run c es)
unfolding run
run_keeps c [] v = v
run_keeps c (inserts i ∷ es) v = run_keeps (on_insert c i) es (on_insert-IsCounted c i v)
run_keeps c (issues i pattern ∷ es) v =
    run_keeps (on_issue_classified c i pattern).0 es (on_issue-IsCounted c i pattern v)
run_keeps c (completes e ∷ es) v = run_keeps (on_complete c e).0 es (on_complete-IsCounted c e v)

-- After any inserts, issues and completions, with expiry, reused ids and events out of order: every
-- pending request stands under its own key, no key stands twice, and the depth counter of each
-- device is the number of its pending requests.
pub run-IsCounted : (ttl_ns : ℕ) (es : List BlockEvent) → IsCounted (run (new ttl_ns) es)
unfolding lookup
run-IsCounted ttl_ns es = run_keeps (new ttl_ns) es (record { keyed = tt; counted = λ d. refl })
