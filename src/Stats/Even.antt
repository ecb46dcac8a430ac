-- ===== src/Stats/Even.antt =====
-- How many samples are taken evenly (`evenly_sample_refs`, crates/protocol/src/lib.rs).
use native.Mathlib.Nat.{div-lt_iff_lt-mul}
use android_ebpf_studio.Prelude.{
  ℕ, zero, suc, ◌+◌, ◌*◌, ◌/◌, min, ◌≤◌, ◌<◌, ◌≡◌, refl, some, List, [], ◌∷◌, arith, leb, length,
  get_elem?, Bool-cases, inl, inr,
}
use android_ebpf_studio.Stats.{sample_from, evenly_sample_refs}

index_within : (i n limit : ℕ) → i < limit → 0 < n → i * n / limit < n
index_within i n limit h p =
    let small : i * n < n * limit = grind arith in
    (div-lt_iff_lt-mul {k = limit} {x = i * n} {y = n} (omega arith)).1 small

module _ {A : Type 0} where
  get_elem?-within :
      (values : List A) (i : ℕ) → i < length values → (v : A) × (get_elem? values i ≡ some v)
  get_elem?-within [] i h = absurd (omega arith)
  get_elem?-within (v ∷ vs) zero h = (v, refl)
  get_elem?-within (v ∷ vs) (suc i) h = get_elem?-within vs i (omega arith)

  length-sample_from :
      (values : List A) (limit i n : ℕ)
      → i + n ≤ limit
      → 0 < length values
      → length (sample_from values limit i n) ≡ n
  unfolding sample_from
  length-sample_from values limit i zero h p = refl
  length-sample_from values limit i (suc n) h p =
      let (v, e) =
        get_elem?-within values (i * length values / limit)
          (index_within i (length values) limit (omega arith) p) in
      rw e (omega (arith, length-sample_from values limit (suc i) n (omega arith) p))

  -- Sampling evenly takes the limit's number of samples, or all values if there are no more: no index
  -- is out of bounds.
  pub length-evenly_sample_refs :
      (values : List A) (limit : ℕ)
      → length (evenly_sample_refs values limit) ≡ min (length values) limit
  unfolding evenly_sample_refs
  length-evenly_sample_refs values limit = elim (Bool-cases (leb (length values) limit)) [
    | inl few ↦ rw few (ground arith)
    | inr many ↦
        let some_value : limit < length values = ground arith in
        rw many (omega (arith, length-sample_from values limit 0 limit (omega arith) (omega arith)))
  ]
