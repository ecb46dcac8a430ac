-- ===== src/Correlator/Maps.antt =====
-- The maps of the correlator: how an operation on one changes the number of pending requests of a
-- device (crates/protocol/src/lib.rs).
use android_ebpf_studio.Prelude.{
  ℕ, ◌+◌, ◌-◌, ◌≡◌, refl, Bool, inl, inr, none, some, List, [], ◌∷◌, arith, if◌then◌else◌, ◌==◌,
  nat_eq, pair_eq, Bool-cases,
}
use android_ebpf_studio.Prelude.Dict.{
  lookup, insert, remove, retain, lookup-insert, lookup-remove, lookup-retain-none,
}
use android_ebpf_studio.Correlator.{
  Device, RequestKey, key_eq, issue_key, issue_device, PendingRequest, depth_or_zero, lower_depth,
  expire_pending, keeps,
}

abbrev pub Pending : Type 0
Pending = List (RequestKey × PendingRequest)

-- How many pending requests a device has.
abbrev pub count_device : Device → Pending → ℕ
count_device d [] = 0
count_device d ((k, p) ∷ m) = (if issue_device p.issue == d then 1 else 0) + count_device d m

-- Every request stands under its own key, and no key stands twice.
abbrev pub IsKeyed : Pending → Type 0
IsKeyed [] = Unit {0}
IsKeyed ((k, p) ∷ m) = (k ≡ issue_key p.issue) × (lookup k m ≡ none) × IsKeyed m

pub lookup-lower_depth :
    (k d : Device) (m : List (Device × ℕ))
    → depth_or_zero (lookup d (lower_depth k m))
      ≡ (if k == d then depth_or_zero (lookup d m) - 1 else depth_or_zero (lookup d m))
unfolding lower_depth lookup
lookup-lower_depth k d [] = ground arith
lookup-lower_depth k d ((j, n) ∷ m) =
    ground (
      arith,
      pair_eq.decides j k,
      pair_eq.decides k d,
      pair_eq.decides j d,
      lookup-lower_depth k d m,
    )

-- Expiry lowers the depth of each device by the requests of that device that it drops.
pub expire_pending-count :
    (ttl now : ℕ) (d : Device) (m : Pending) (depths : List (Device × ℕ)) (others : ℕ)
    → depth_or_zero (lookup d depths) ≡ count_device d m + others
    → depth_or_zero (lookup d (expire_pending ttl now m depths))
      ≡ count_device d (retain (λ (v : PendingRequest). keeps ttl now v.issue.ts_ns) m) + others
unfolding expire_pending retain
expire_pending-count ttl now d [] depths others e = e
expire_pending-count ttl now d ((k, p) ∷ m) depths others e =
    elim (Bool-cases (keeps ttl now p.issue.ts_ns)) [
      | inl kept ↦
          let own : ℕ = if issue_device p.issue == d then 1 else 0 in
          rw kept (
            omega
              (arith, expire_pending-count ttl now d m depths (own + others) (omega (arith, e))))
      | inr dropped ↦ rw dropped (
          expire_pending-count ttl now d m (lower_depth (issue_device p.issue) depths) others
            (ground (arith, lookup-lower_depth (issue_device p.issue) d depths)))
    ]

pub retain-IsKeyed :
    (keep : PendingRequest → Bool) (m : Pending) → IsKeyed m → IsKeyed (retain keep m)
unfolding retain
retain-IsKeyed keep [] h = tt
retain-IsKeyed keep ((k, p) ∷ m) h =
    ground (arith, retain-IsKeyed keep m h.2, lookup-retain-none keep k m h.1)

pub remove_absent : (k : RequestKey) (m : Pending) → lookup k m ≡ none → remove k m ≡ m
unfolding lookup remove
remove_absent k [] e = refl
remove_absent k ((j, p) ∷ m) e = ground (arith, remove_absent k m)

lookup-remove-none :
    (j k : RequestKey) (m : Pending) → lookup j m ≡ none → lookup j (remove k m) ≡ none
lookup-remove-none j k m e = rw (lookup-remove k j m) (ground arith)

pub remove-IsKeyed : (k : RequestKey) (m : Pending) → IsKeyed m → IsKeyed (remove k m)
unfolding remove
remove-IsKeyed k [] h = tt
remove-IsKeyed k ((j, p) ∷ m) h =
    ground (arith, remove-IsKeyed k m h.2, lookup-remove-none j k m h.1)

-- Taking out the request of a key takes one from the count of its device.
pub remove-count :
    (d : Device) (k : RequestKey) (m : Pending) (p : PendingRequest)
    → IsKeyed m
    → lookup k m ≡ some p
    → count_device d (remove k m) + (if issue_device p.issue == d then 1 else 0) ≡ count_device d m
unfolding lookup remove
remove-count d k [] p h e = cc
remove-count d k ((j, q) ∷ m) p h e = elim (Bool-cases (j == k)) [
  | inl hit ↦
      let same = (key_eq.decides j k).0 hit in
      rw (hit, remove_absent k m (rw same at h.1)) (ground arith)
  | inr miss ↦ rw miss (ground (arith, remove-count d k m p h.2))
]

pub insert-count :
    (d : Device) (k : RequestKey) (m : Pending) (p : PendingRequest)
    → lookup k m ≡ none
    → count_device d (insert k p m)
      ≡ count_device d m + (if issue_device p.issue == d then 1 else 0)
unfolding lookup insert
insert-count d k [] p e = omega arith
insert-count d k ((j, q) ∷ m) p e = ground (arith, insert-count d k m p)

pub insert-IsKeyed :
    (k : RequestKey) (m : Pending) (p : PendingRequest)
    → lookup k m ≡ none
    → k ≡ issue_key p.issue
    → IsKeyed m
    → IsKeyed (insert k p m)
unfolding lookup insert
insert-IsKeyed k [] p e own h = (own, refl, tt)
insert-IsKeyed k ((j, q) ∷ m) p e own h =
    ground
      (arith, insert-IsKeyed k m p, lookup-insert k j p m, key_eq.decides k j, key_eq.decides j k)

pub lookup-IsKeyed :
    (k : RequestKey) (m : Pending) (p : PendingRequest)
    → IsKeyed m
    → lookup k m ≡ some p
    → k ≡ issue_key p.issue
unfolding lookup
lookup-IsKeyed k [] p h e = cc
lookup-IsKeyed k ((j, q) ∷ m) p h e = ground (arith, key_eq.decides j k, lookup-IsKeyed k m p h.2)
