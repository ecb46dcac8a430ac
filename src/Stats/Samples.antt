-- ===== src/Stats/Samples.antt =====
-- Bounded samples and time buckets.
use android_ebpf_studio.Prelude.{
  ℕ, zero, suc, ◌+◌, ◌-◌, ◌/◌, min, ◌≤◌, ◌<◌, ◌≡◌, refl, ap, inl, inr, ◌⊎◌, ◌↔◌, Bool, true, false,
  List, [], ◌∷◌, ◌++◌, arith, ltb, eqb, length, length-append, length-drop, length-take, ◌≢◌, take,
  drop, take-append-drop, append_assoc, append-nil, Bool-cases, IsIn,
}
use android_ebpf_studio.Stats.{
  bounded_push, max_analysis_samples, range_from, second_ns, time_buckets,
}

module _ {A : Type 0} where
  -- The values after pushes, the first of the list pushed first.
  pub push_all : ℕ → Bool → List A → List A → List A
  push_all limit retain_all kept [] = kept
  push_all limit retain_all kept (v ∷ vs) =
      push_all limit retain_all (bounded_push limit retain_all kept v) vs

  -- `kept` is the end of `pushed`.
  abbrev IsSuffix : List A → List A → Type 0
  IsSuffix kept pushed = (old : List A) × (old ++ kept ≡ pushed)

  bounded_push-keeps :
      (limit : ℕ) (pushed kept : List A) (v : A)
      → 10 ≤ limit
      → (length kept ≤ limit) × IsSuffix kept pushed
      → (length (bounded_push limit false kept v) ≤ limit)
        × IsSuffix (bounded_push limit false kept v) (pushed ++ v ∷ [])
  unfolding bounded_push
  bounded_push-keeps limit pushed kept v l h =
      let (few, (old, e)) = h in
      elim (Bool-cases (eqb (length kept) limit)) [
        | inl full ↦ rw full (
          omega (
            arith,
            length-append (drop (limit / 10) kept) (v ∷ []),
            length-drop (limit / 10) kept,
          ),
          (
            old ++ take (limit / 10) kept,
            cc (
              e,
              take-append-drop (limit / 10) kept,
              append_assoc old (take (limit / 10) kept) (drop (limit / 10) kept ++ v ∷ []),
              append_assoc (take (limit / 10) kept) (drop (limit / 10) kept) (v ∷ []),
              append_assoc old kept (v ∷ []),
            ),
          ),
        )
        | inr room ↦ rw room (
          ground (arith, length-append kept (v ∷ [])),
          (old, cc (e, append_assoc old kept (v ∷ []))),
        )
      ]

  -- What is kept of the values that were pushed: all if they are to be retained or fit, and
  -- otherwise an end of them of 9 tenths of the limit at least.
  abbrev pub Keeps : ℕ → Bool → List A → List A → Type 0
  Keeps limit true pushed kept = kept ≡ pushed
  Keeps limit false pushed kept =
      ((length kept ≤ limit) × IsSuffix kept pushed)
      × (min (length pushed) (limit - limit / 10) ≤ length kept)
      × ((kept ≡ pushed) ⊎ (limit < length pushed))

  bounded_push-recent :
      (limit : ℕ) (pushed kept : List A) (v : A)
      → Keeps limit false pushed kept
      → (min (length (pushed ++ v ∷ [])) (limit - limit / 10)
          ≤ length (bounded_push limit false kept v))
        × ((bounded_push limit false kept v ≡ pushed ++ v ∷ [])
            ⊎ (limit < length (pushed ++ v ∷ [])))
  unfolding bounded_push
  bounded_push-recent limit pushed kept v (bounded, most, all) =
      let more = length-append pushed (v ∷ []) in
      elim (Bool-cases (eqb (length kept) limit)) [
        | inl full ↦ rw full (
            let same : length kept ≡ limit = ground arith in
            (
              omega (
                arith,
                length-append (drop (limit / 10) kept) (v ∷ []),
                length-drop (limit / 10) kept,
              ),
              inr (elim all [
                | inl e ↦ omega (arith, more, ap length e)
                | inr h ↦ omega (arith, more)
              ]),
            ))
        | inr room ↦ rw room (
          omega (arith, more, length-append kept (v ∷ [])),
          elim all [
            | inl e ↦ inl (ap (λ (xs : List A). xs ++ v ∷ []) e)
            | inr h ↦ inr (omega (arith, more))
          ],
        )
      ]

  bounded_push-Keeps :
      (limit : ℕ) (retain_all : Bool) (pushed kept : List A) (v : A)
      → 10 ≤ limit
      → Keeps limit retain_all pushed kept
      → Keeps limit retain_all (pushed ++ v ∷ []) (bounded_push limit retain_all kept v)
  unfolding bounded_push
  bounded_push-Keeps limit true pushed kept v l h = ap (λ (xs : List A). xs ++ v ∷ []) h
  bounded_push-Keeps limit false pushed kept v l h =
      let (most, all) = bounded_push-recent limit pushed kept v h in
      (bounded_push-keeps limit pushed kept v l h.0, most, all)

  -- A push appends the value, after the oldest tenth is dropped where the list is full and not all
  -- is to be retained.
  abbrev pub Appends : ℕ → Bool → List A → A → List A → Type 0
  Appends limit retain_all values v result =
      (old : List A) × (kept : List A) × (old ++ kept ≡ values)
      × (result ≡ kept ++ v ∷ [])
      × ((((retain_all ≡ true) ⊎ (length values ≢ limit)) × (old ≡ []))
          ⊎ ((retain_all ≡ false) × (length values ≡ limit) × (length old ≡ limit / 10)))

  pub bounded_push-Appends :
      (limit : ℕ) (retain_all : Bool) (values : List A) (v : A)
      → Appends limit retain_all values v (bounded_push limit retain_all values v)
  unfolding bounded_push
  bounded_push-Appends limit true values v = ([], values, refl, refl, inl (inl refl, refl))
  bounded_push-Appends limit false values v = elim (Bool-cases (eqb (length values) limit)) [
    | inl full ↦
        let same : length values ≡ limit = ground arith in
        rw full (
          take (limit / 10) values,
          drop (limit / 10) values,
          take-append-drop (limit / 10) values,
          refl,
          inr (refl, same, omega (arith, length-take (limit / 10) values, same)),
        )
    | inr room ↦ rw room ([], values, refl, refl, inl (inr (ground arith), refl))
  ]

  push_all-Keeps :
      (limit : ℕ) (retain_all : Bool) (vs pushed kept : List A)
      → 10 ≤ limit
      → Keeps limit retain_all pushed kept
      → Keeps limit retain_all (pushed ++ vs) (push_all limit retain_all kept vs)
  unfolding push_all
  push_all-Keeps limit retain_all [] pushed kept l h = rw append-nil h
  push_all-Keeps limit retain_all (v ∷ vs) pushed kept l h =
      rw (← append_assoc pushed (v ∷ []) vs) (
        push_all-Keeps limit retain_all vs (pushed ++ v ∷ []) (bounded_push limit retain_all kept v)
          l (bounded_push-Keeps limit retain_all pushed kept v l h))

  -- However many values are pushed on an empty list: if all are to be retained, all are kept, in
  -- order. Otherwise at most 100000 are kept, which are the end of what was pushed, in order, at
  -- least 90000 values or as many as there are, and all of them unless more than 100000 were pushed.
  pub push_all-IsSuffix :
      (retain_all : Bool) (vs : List A)
      → Keeps max_analysis_samples retain_all vs (push_all max_analysis_samples retain_all [] vs)
  push_all-IsSuffix retain_all vs =
      push_all-Keeps max_analysis_samples retain_all vs [] [] (omega arith) (none_yet retain_all)
    where
      none_yet : (b : Bool) → Keeps max_analysis_samples b [] []
      none_yet true = refl
      none_yet false = ((omega arith, ([], refl)), omega arith, inl refl)

length-range_from : (start n : ℕ) → length (range_from start n) ≡ n
unfolding range_from
length-range_from start zero = refl
length-range_from start (suc n) = ap suc (length-range_from (start + 1) n)

pub IsIn-range_from :
    (start n x : ℕ) → IsIn x (range_from start n) ↔ ((start ≤ x) × (x < start + n))
unfolding range_from
IsIn-range_from start zero x = ground arith
IsIn-range_from start (suc n) x = ground (arith, IsIn-range_from (start + 1) n x)

-- The time buckets of a request are at most 121, and are exactly the seconds from its start on that
-- are not after its end and less than 121 after its start; none if it ends before it starts.
pub time_buckets-seconds :
    (start end x : ℕ)
    → (length (time_buckets start end) ≤ 121)
      × (IsIn x (time_buckets start end) ↔ (
          (start ≤ end)
          × (start / second_ns ≤ x)
          × (x ≤ end / second_ns)
          × (x < start / second_ns + 121)))
unfolding time_buckets
time_buckets-seconds start end x = elim (Bool-cases (ltb end start)) [
  | inl backward ↦ rw backward (ground arith, ground arith)
  | inr forward ↦
      let n = min (end / second_ns - start / second_ns + 1) 121 in
      let ordered : start ≤ end = ground arith in
      let seconds : start / second_ns ≤ end / second_ns = omega arith in
      rw forward (
        omega (arith, length-range_from (start / second_ns) n),
        ground (arith, IsIn-range_from (start / second_ns) n x),
      )
]

-- A push without `retain_all` keeps a list within the limit.
pub length-bounded_push :
    {A : Type 0} (values : List A) (value : A)
    → length values ≤ max_analysis_samples
    → length (bounded_push max_analysis_samples false values value) ≤ max_analysis_samples
unfolding bounded_push
length-bounded_push values value h = elim (Bool-cases (eqb (length values) max_analysis_samples)) [
  | inl full ↦ rw full (
      omega (
        arith,
        length-append (drop (max_analysis_samples / 10) values) (value ∷ []),
        length-drop (max_analysis_samples / 10) values,
      ))
  | inr room ↦
      rw room (omega (arith, length-append values (value ∷ []), below (length values) room h))
]
  where
    below :
        (n : ℕ)
        → eqb n max_analysis_samples ≡ false
        → n ≤ max_analysis_samples
        → n < max_analysis_samples
    below n room h = ground arith

pub length-time_buckets :
    (start end : ℕ)
    → start ≤ end
    → length (time_buckets start end) ≡ min (end / second_ns - start / second_ns + 1) 121
unfolding time_buckets
length-time_buckets start end h =
    let forward : ltb end start ≡ false = ground arith in
    rw forward
      (length-range_from (start / second_ns) (min (end / second_ns - start / second_ns + 1) 121))
