-- ===== src/Engine/Ordered.antt =====
-- `BTreeMap` as an association list in the order of the keys, and its `entry(..).or_default()`.
use android_ebpf_studio.Prelude.{
  ℕ, ◌+◌, ◌%◌, ◌≡◌, ◌≤◌, ◌<◌, List, [], ◌∷◌, arith, ltb, if◌then◌else◌, Bool-cases, inl, inr,
  u64_size,
}

-- The order of keys is that of their ranks, which differ for different keys.
pub record Ranked (K : Type 0) : Type 0 where
  pub key_rank : K → ℕ
  pub ranks_differ : (j k : K) → key_rank j ≡ key_rank k → j ≡ k

module _ {K V : Type 0} ⦃r : Ranked K⦄ where
  -- The entry of the key, or the default, put through `change`.
  unfoldable pub modify_entry : V → (V → V) → K → List (K × V) → List (K × V)
  modify_entry default change k [] = (k, change default) ∷ []
  modify_entry default change k ((j, v) ∷ m) =
      if ltb (r.key_rank k) (r.key_rank j)
      then (k, change default) ∷ (j, v) ∷ m
      else if ltb (r.key_rank j) (r.key_rank k)
      then (j, v) ∷ modify_entry default change k m
      else (j, change v) ∷ m

  -- What the values add up to.
  abbrev pub total : (V → ℕ) → List (K × V) → ℕ
  total measure [] = 0
  total measure ((j, v) ∷ m) = measure v + total measure m

  abbrev pub AllEntries : (K → V → Type 0) → List (K × V) → Type 0
  AllEntries P [] = Unit {0}
  AllEntries P ((j, v) ∷ m) = P j v × AllEntries P m

  abbrev pub AllKeysAbove : ℕ → List (K × V) → Type 0
  AllKeysAbove low [] = Unit {0}
  AllKeysAbove low ((j, v) ∷ m) = (low < r.key_rank j) × AllKeysAbove low m

  -- The keys stand in order, none of them twice.
  abbrev pub AreOrdered : List (K × V) → Type 0
  AreOrdered [] = Unit {0}
  AreOrdered ((j, v) ∷ m) = AllKeysAbove (r.key_rank j) m × AreOrdered m

  -- Where the change adds `more` to the measure of every value, it adds it to the total.
  pub total-modify_entry :
      (measure : V → ℕ) (more : ℕ) (default : V) (change : V → V) (k : K) (m : List (K × V))
      → measure default ≡ 0
      → ((v : V) → measure (change v) ≡ measure v + more)
      → total measure (modify_entry default change k m) ≡ total measure m + more
  unfolding modify_entry
  total-modify_entry measure more default change k [] z h = omega (arith, h default, z)
  total-modify_entry measure more default change k ((j, v) ∷ m) z h =
      ground (arith, h default, h v, total-modify_entry measure more default change k m z h)

  -- The same for a measure that wraps at 64 bits.
  pub total-modify_entry_wrapping :
      (measure : V → ℕ) (more : ℕ) (default : V) (change : V → V) (k : K) (m : List (K × V))
      → measure default ≡ 0
      → ((v : V) → measure (change v) ≡ (measure v + more) % u64_size)
      → total measure (modify_entry default change k m) % u64_size
        ≡ (total measure m + more) % u64_size
  unfolding modify_entry
  total-modify_entry_wrapping measure more default change k [] z h = omega (arith, h default, z)
  total-modify_entry_wrapping measure more default change k ((j, v) ∷ m) z h =
      ground
        (arith, h default, h v, total-modify_entry_wrapping measure more default change k m z h)

  pub AllEntries-mono :
      (P Q : K → V → Type 0) (m : List (K × V))
      → ((j : K) (v : V) → P j v → Q j v)
      → AllEntries P m
      → AllEntries Q m
  AllEntries-mono P Q [] w a = tt
  AllEntries-mono P Q ((j, v) ∷ m) w a = (w j v a.0, AllEntries-mono P Q m w a.1)

  -- A property that the default entry has after the change, that the change makes of another, and
  -- that the other entries have by that one.
  pub AllEntries-modify_entry :
      (P Q : K → V → Type 0) (default : V) (change : V → V) (k : K) (m : List (K × V))
      → ((j : K) (v : V) → P j v → Q j v)
      → Q k (change default)
      → ((v : V) → P k v → Q k (change v))
      → AllEntries P m
      → AllEntries Q (modify_entry default change k m)
  unfolding modify_entry
  AllEntries-modify_entry P Q default change k [] w d h a = (d, tt)
  AllEntries-modify_entry P Q default change k ((j, v) ∷ m) w d h a =
      elim (Bool-cases (ltb (r.key_rank k) (r.key_rank j))) [
        | inl before ↦ rw before (d, AllEntries-mono P Q ((j, v) ∷ m) w a)
        | inr after ↦ rw after (elim (Bool-cases (ltb (r.key_rank j) (r.key_rank k))) [
          | inl later ↦
              rw later (w j v a.0, AllEntries-modify_entry P Q default change k m w d h a.1)
          | inr here ↦
              let same : j ≡ k = r.ranks_differ j k (ground arith) in
              rw (here, same) (h v (rw same at a.0), AllEntries-mono P Q m w a.1)
        ])
      ]

  modify_entry-AllKeysAbove :
      (low : ℕ) (default : V) (change : V → V) (k : K) (m : List (K × V))
      → low < r.key_rank k
      → AllKeysAbove low m
      → AllKeysAbove low (modify_entry default change k m)
  unfolding modify_entry
  modify_entry-AllKeysAbove low default change k [] h a = (h, tt)
  modify_entry-AllKeysAbove low default change k ((j, v) ∷ m) h a =
      ground (arith, modify_entry-AllKeysAbove low default change k m h a.1)

  AllKeysAbove-mono :
      (low high : ℕ) (m : List (K × V)) → low ≤ high → AllKeysAbove high m → AllKeysAbove low m
  AllKeysAbove-mono low high [] h a = tt
  AllKeysAbove-mono low high ((j, v) ∷ m) h a = (omega arith, AllKeysAbove-mono low high m h a.1)

  pub modify_entry-AreOrdered :
      (default : V) (change : V → V) (k : K) (m : List (K × V))
      → AreOrdered m
      → AreOrdered (modify_entry default change k m)
  unfolding modify_entry
  modify_entry-AreOrdered default change k [] a = (tt, tt)
  modify_entry-AreOrdered default change k ((j, v) ∷ m) a = ground (
    arith,
    modify_entry-AreOrdered default change k m a.1,
    modify_entry-AllKeysAbove (r.key_rank j) default change k m,
    AllKeysAbove-mono (r.key_rank k) (r.key_rank j) m,
  )
