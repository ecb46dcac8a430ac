-- ===== src/Histogram/Tally.antt =====
-- `Histogram::new` and `record` against the multiset of the recorded values.
use android_ebpf_studio.Prelude.{
  ℕ, zero, suc, min, ◌+◌, ◌*◌, ◌≤◌, ◌<◌, ◌≡◌, refl, ◌⊎◌, inl, inr, ◌↔◌, ◌≢◌, false, List, [], ◌∷◌,
  ◌++◌, length-append, arith, ltb, leb, if◌then◌else◌, length, get_or, set, replicate,
  saturating_add, Bool-cases, u64_max,
}
use android_ebpf_studio.Histogram.{
  Histogram, latency_histogram, latency_boundaries, ok, err, empty_boundaries,
  non_increasing_boundaries, new, any_window_not_increasing, partition_point, record_value,
}

-- Each boundary is below the next.
abbrev IsIncreasing : List ℕ → Type 0
IsIncreasing [] = Unit {0}
IsIncreasing (a ∷ []) = Unit {0}
IsIncreasing (a ∷ b ∷ bs) = (a < b) × IsIncreasing (b ∷ bs)

-- How many values are at most `b`.
abbrev pub count_le : ℕ → List ℕ → ℕ
count_le b [] = 0
count_le b (v ∷ vs) = (if leb v b then 1 else 0) + count_le b vs

-- With `base` values below, the counts up to each boundary are the numbers of values up to it,
-- and the overflow bucket completes the total.
abbrev pub Cumulative : ℕ → List ℕ → List ℕ → List ℕ → Type 0
Cumulative base [] [] vs = ⊥
Cumulative base [] (c ∷ []) vs = base + c ≡ length vs
Cumulative base [] (c ∷ d ∷ cs) vs = ⊥
Cumulative base (b ∷ bs) [] vs = ⊥
Cumulative base (b ∷ bs) (c ∷ cs) vs = (base + c ≡ count_le b vs) × Cumulative (base + c) bs cs vs

-- The histogram counts exactly these values.
pub record Tallies (h : Histogram) (vs : List ℕ) : Type 0 where
  pub increasing : IsIncreasing h.boundaries
  pub cumulative : Cumulative 0 h.boundaries h.counts vs

-- The histogram after the values, the last of the list recorded first.
unfoldable pub record_all : Histogram → List ℕ → Histogram
record_all h [] = h
record_all h (v ∷ vs) = record_value (record_all h vs) v

abbrev AllFrom : ℕ → List ℕ → Type 0
AllFrom v [] = Unit {0}
AllFrom v (b ∷ bs) = (v ≤ b) × AllFrom v bs

increasing_from : (v b : ℕ) (bs : List ℕ) → v ≤ b → IsIncreasing (b ∷ bs) → AllFrom v (b ∷ bs)
increasing_from v b [] h s = (h, tt)
increasing_from v b (c ∷ bs) h s = (h, increasing_from v c bs (omega arith) s.1)

IsIncreasing-tail : (b : ℕ) (bs : List ℕ) → IsIncreasing (b ∷ bs) → IsIncreasing bs
IsIncreasing-tail b [] s = tt
IsIncreasing-tail b (c ∷ bs) s = s.1

-- A value below all boundaries shifts every count by one.
Cumulative-shift :
    (v base base' : ℕ) (bs cs vs : List ℕ)
    → base' ≡ base + 1
    → AllFrom v bs
    → Cumulative base bs cs vs
    → Cumulative base' bs cs (v ∷ vs)
Cumulative-shift v base base' [] [] vs e a h = h
Cumulative-shift v base base' [] (c ∷ []) vs e a h = omega arith
Cumulative-shift v base base' [] (c ∷ d ∷ cs) vs e a h = h
Cumulative-shift v base base' (b ∷ bs) [] vs e a h = h
Cumulative-shift v base base' (b ∷ bs) (c ∷ cs) vs e a h =
    (ground arith, Cumulative-shift v (base + c) (base' + c) bs cs vs (omega arith) a.1 h.1)

-- The bucket of the value counts one more.
abbrev bump : List ℕ → List ℕ → ℕ → List ℕ
bump bs cs v = set cs (partition_point bs v) (saturating_add (get_or cs (partition_point bs v) 0) 1)

pub count_le-length : (b : ℕ) (vs : List ℕ) → count_le b vs ≤ length vs
count_le-length b [] = omega arith
count_le-length b (v ∷ vs) = ground (arith, count_le-length b vs)

bump-Cumulative :
    (v base : ℕ) (bs cs vs : List ℕ)
    → length vs < u64_max
    → IsIncreasing bs
    → Cumulative base bs cs vs
    → Cumulative base bs (bump bs cs v) (v ∷ vs)
unfolding partition_point
bump-Cumulative v base [] [] vs l s h = h
bump-Cumulative v base [] (c ∷ []) vs l s h = omega arith
bump-Cumulative v base [] (c ∷ d ∷ cs) vs l s h = absurd h
bump-Cumulative v base (b ∷ bs) [] vs l s h = absurd h
bump-Cumulative v base (b ∷ bs) (c ∷ cs) vs l s h = elim (Bool-cases (ltb b v)) [
  | inl above ↦
      rw above
        (ground arith, bump-Cumulative v (base + c) bs cs vs l (IsIncreasing-tail b bs s) h.1)
  | inr within ↦
      let e : min (c + 1) u64_max ≡ c + 1 = omega (arith, count_le-length b vs, h.0) in
      rw (within, e)
        (
          ground arith,
          Cumulative-shift v (base + c) (base + (c + 1)) bs cs vs (omega arith)
              (increasing_from v b bs (ground arith) s).1 h.1,
        )
]

zeros-Cumulative : (bs : List ℕ) → Cumulative 0 bs (replicate (suc (length bs)) 0) []
zeros-Cumulative [] = refl
zeros-Cumulative (b ∷ bs) = (refl, zeros-Cumulative bs)

abbrev pub fresh : List ℕ → Histogram
fresh bs = record { boundaries = bs; counts = replicate (suc (length bs)) 0 }

windows-IsIncreasing : (bs : List ℕ) → (any_window_not_increasing bs ≡ false) ↔ IsIncreasing bs
unfolding any_window_not_increasing
windows-IsIncreasing [] = ((λ _. tt), λ _. refl)
windows-IsIncreasing (b ∷ []) = ((λ _. tt), λ _. refl)
windows-IsIncreasing (b ∷ c ∷ bs) = ground (arith, windows-IsIncreasing (c ∷ bs))

-- `new` refuses exactly the empty list and the lists that are not strictly increasing, each with
-- its own error, and otherwise builds a histogram of those boundaries that counts no value.
new_cases :
    (bs : List ℕ)
    → ((bs ≡ []) × (new bs ≡ err empty_boundaries))
      ⊎ ((bs ≢ []) × ¬ IsIncreasing bs × (new bs ≡ err non_increasing_boundaries))
      ⊎ ((bs ≢ []) × (h : Histogram) × (new bs ≡ ok h) × (h.boundaries ≡ bs) × Tallies h [])
unfolding new
new_cases [] = inl (refl, refl)
new_cases (b ∷ bs) = elim (Bool-cases (any_window_not_increasing (b ∷ bs))) [
  | inl bad ↦ inr (inl (λ e. cc, λ s. cc ((windows-IsIncreasing (b ∷ bs)).1 s), rw bad refl))
  | inr good ↦
      let width : suc (length bs) + 1 ≡ suc (length (b ∷ bs)) = omega arith in
      inr (
        inr (
          λ e. cc,
          fresh (b ∷ bs),
          rw (good, width) refl,
          refl,
          record {
            increasing = (windows-IsIncreasing (b ∷ bs)).0 good;
            cumulative = zeros-Cumulative (b ∷ bs);
          },
        ))
]

record_value-Tallies :
    (h : Histogram) (v : ℕ) (vs : List ℕ)
    → Tallies h vs
    → length vs < u64_max
    → Tallies (record_value h v) (v ∷ vs)
unfolding record_value
record_value-Tallies h v vs t l = record {
  increasing = t.increasing;
  cumulative = bump-Cumulative v 0 h.boundaries h.counts vs l t.increasing t.cumulative;
}

-- From a fresh histogram, whatever values are recorded, in whatever order, up to 2^64 - 1 of them:
-- the counts up to each boundary are the numbers of recorded values up to it, and all counts
-- together the number of values.
pub record_all-Tallies :
    (h : Histogram) (vs : List ℕ)
    → Tallies h []
    → length vs ≤ u64_max
    → Tallies (record_all h vs) vs
unfolding record_all
record_all-Tallies h [] t l = t
record_all-Tallies h (v ∷ vs) t l =
    record_value-Tallies (record_all h vs) v vs (record_all-Tallies h vs t (omega arith)) l

-- A histogram sees of the values only how many are at most each bound, and how many there are.
Cumulative-alike :
    (base : ℕ) (bs cs vs ws : List ℕ)
    → ((b : ℕ) → count_le b vs ≡ count_le b ws)
    → length vs ≡ length ws
    → Cumulative base bs cs vs
    → Cumulative base bs cs ws
Cumulative-alike base [] [] vs ws h l c = c
Cumulative-alike base [] (k ∷ []) vs ws h l c = omega arith
Cumulative-alike base [] (k ∷ j ∷ cs) vs ws h l c = c
Cumulative-alike base (b ∷ bs) [] vs ws h l c = c
Cumulative-alike base (b ∷ bs) (k ∷ cs) vs ws h l c =
    (omega (arith, h b), Cumulative-alike (base + k) bs cs vs ws h l c.1)

pub Tallies-alike :
    (h : Histogram) (vs ws : List ℕ)
    → ((b : ℕ) → count_le b vs ≡ count_le b ws)
    → length vs ≡ length ws
    → Tallies h vs
    → Tallies h ws
Tallies-alike h vs ws same l t = record {
  increasing = t.increasing;
  cumulative = Cumulative-alike 0 h.boundaries h.counts vs ws same l t.cumulative;
}

count_le-snoc : (b v : ℕ) (vs : List ℕ) → count_le b (v ∷ vs) ≡ count_le b (vs ++ v ∷ [])
count_le-snoc b v [] = refl
count_le-snoc b v (w ∷ vs) = omega (arith, count_le-snoc b v vs)

-- A value recorded behind the others.
pub record_value-Tallies_last :
    (h : Histogram) (v : ℕ) (vs : List ℕ)
    → Tallies h vs
    → length vs < u64_max
    → Tallies (record_value h v) (vs ++ v ∷ [])
record_value-Tallies_last h v vs t l =
    Tallies-alike (record_value h v) (v ∷ vs) (vs ++ v ∷ []) (λ b. count_le-snoc b v vs)
      (omega (arith, length-append vs (v ∷ []))) (record_value-Tallies h v vs t l)

latency_boundaries-IsIncreasing :
    (n bound : ℕ) → 0 < bound → IsIncreasing (latency_boundaries n bound)
unfolding latency_boundaries
latency_boundaries-IsIncreasing zero bound h = tt
latency_boundaries-IsIncreasing (suc zero) bound h = tt
latency_boundaries-IsIncreasing (suc (suc n)) bound h =
    (omega arith, latency_boundaries-IsIncreasing (suc n) (bound * 2) (omega arith))

-- The latency histogram of the engine starts with strictly increasing boundaries and no value.
pub latency_histogram-Tallies : Tallies latency_histogram []
unfolding latency_histogram
latency_histogram-Tallies = record {
  increasing = latency_boundaries-IsIncreasing 32 1000 (omega arith);
  cumulative = zeros-Cumulative (latency_boundaries 32 1000);
}
