-- ===== src/Rolling/Window.antt =====
-- The accumulator's running totals against the window of the last 64 observations (rolling.rs).
use android_ebpf_studio.Prelude.{
  ℕ, zero, suc, ◌+◌, ◌-◌, ◌≤◌, ◌<◌, ◌≡◌, refl, sym, ap, ◌∙◌, Bool, true, ◌&&◌, not, Option, none,
  some, List, [], ◌∷◌, ◌++◌, arith, ltb, leb, eqb, if◌then◌else◌, length, length-append, drop,
  length-drop, append-nil, append_assoc, u64_max, ◌⊎◌, inl, inr,
}
use android_ebpf_studio.Rolling.{
  RollingRate, RollingRateAccumulator, Sample, empty, observe, push_back, age_out, pop_front,
  measured_rate, mib_s, or_zero, is_none, missing_count,
}

abbrev sum_gaps : List Sample → ℕ
sum_gaps [] = 0
sum_gaps (s ∷ ss) = or_zero s.0 + sum_gaps ss

abbrev sum_payloads : List Sample → ℕ
sum_payloads [] = 0
sum_payloads (s ∷ ss) = or_zero s.1 + sum_payloads ss

abbrev all_measured : List Sample → Bool
all_measured [] = true
all_measured (s ∷ ss) = not (is_none s.0) && not (is_none s.1) && all_measured ss

abbrev count_missing : List Sample → ℕ
count_missing [] = 0
count_missing (s ∷ ss) = missing_count s + count_missing ss

-- The last 64 observations of a history, the oldest first.
abbrev pub recent : List Sample → List Sample
recent h = drop (length h - 64) h

-- The accumulator after a history of observations.
unfoldable pub after : RollingRateAccumulator → List Sample → RollingRateAccumulator
after a [] = a
after a (s ∷ ss) = after (observe a s.0 s.1).0 ss

-- What the last observation of a window answers, read off the window alone.
abbrev pub window_rate : List Sample → Option RollingRate
window_rate w =
    if eqb (length w) 64
      && all_measured w
      && leb (sum_payloads w) u64_max
      && leb (sum_gaps w) u64_max
      && ltb 0 (sum_gaps w)
    then some
        (record { payload_bytes = sum_payloads w; duration_ns = sum_gaps w; observations = 64 })
    else none

-- The accumulator holds a window and its totals.
pub record Holds (a : RollingRateAccumulator) (w : List Sample) : Type 0 where
  pub samples : a.samples ≡ w
  pub duration : a.duration ≡ sum_gaps w
  pub bytes : a.bytes ≡ sum_payloads w
  pub missing : a.missing ≡ count_missing w

sum_gaps-append :
    (xs : List Sample) (s : Sample) → sum_gaps (xs ++ s ∷ []) ≡ sum_gaps xs + or_zero s.0
sum_gaps-append [] s = omega arith
sum_gaps-append (x ∷ xs) s = omega (arith, sum_gaps-append xs s)

sum_payloads-append :
    (xs : List Sample) (s : Sample) → sum_payloads (xs ++ s ∷ []) ≡ sum_payloads xs + or_zero s.1
sum_payloads-append [] s = omega arith
sum_payloads-append (x ∷ xs) s = omega (arith, sum_payloads-append xs s)

count_missing-append :
    (xs : List Sample) (s : Sample)
    → count_missing (xs ++ s ∷ []) ≡ count_missing xs + missing_count s
count_missing-append [] s = omega arith
count_missing-append (x ∷ xs) s = omega (arith, count_missing-append xs s)

count_missing_zero : (w : List Sample) → ltb 0 (count_missing w) ≡ not (all_measured w)
count_missing_zero [] = refl
count_missing_zero ((none, p) ∷ w) = ground arith
count_missing_zero ((some g, none) ∷ w) = ground arith
count_missing_zero ((some g, some p) ∷ w) = ground (arith, count_missing_zero w)

-- A window and one more sample, with the oldest gone when that makes 65.
abbrev slide : List Sample → Sample → List Sample
slide w s = drop (length (w ++ s ∷ []) - 64) (w ++ s ∷ [])

drop-append : (n : ℕ) (xs ys : List Sample) → n ≤ length xs → drop n (xs ++ ys) ≡ drop n xs ++ ys
drop-append zero xs ys h = refl
drop-append (suc n) [] ys h = absurd (omega arith)
drop-append (suc n) (x ∷ xs) ys h = drop-append n xs ys (omega arith)

length-recent : (h : List Sample) → length (recent h) ≤ 64
length-recent h = omega (arith, length-drop (length h - 64) h)

lt_or_le : (a b : ℕ) → (a < b) ⊎ (b ≤ a)
lt_or_le a b = grind arith

drop-suc : (k : ℕ) (xs : List Sample) → drop (suc k) xs ≡ drop 1 (drop k xs)
drop-suc zero xs = refl
drop-suc (suc k) [] = refl
drop-suc (suc k) (x ∷ xs) = drop-suc k xs

-- One observation slides the window.
recent-append : (h : List Sample) (s : Sample) → recent (h ++ s ∷ []) ≡ slide (recent h) s
recent-append h s = elim (lt_or_le (length h) 64) [
  | inl few ↦ let e : length h - 64 ≡ 0 = omega arith in rw e refl
  | inr many ↦
      let grown : length (h ++ s ∷ []) - 64 ≡ suc (length h - 64) =
        omega (arith, length-append h (s ∷ [])) in
      let full : length (recent h ++ s ∷ []) - 64 ≡ 1 =
        omega (arith, length-append (recent h) (s ∷ []), length-drop (length h - 64) h) in
      rw (grown, full)
        (drop-suc (length h - 64) (h ++ s ∷ [])
          ∙ ap (drop 1) (drop-append (length h - 64) h (s ∷ []) (omega arith)))
]

push_back-Holds :
    (a : RollingRateAccumulator) (w : List Sample) (s : Sample)
    → Holds a w
    → Holds (push_back a s) (w ++ s ∷ [])
unfolding push_back
push_back-Holds a w s v = record {
  samples = ap (λ xs. xs ++ s ∷ []) v.samples;
  duration = omega (arith, sum_gaps-append w s, v.duration);
  bytes = omega (arith, sum_payloads-append w s, v.bytes);
  missing = omega (arith, count_missing-append w s, v.missing);
}

age_out-Holds :
    (a : RollingRateAccumulator) (w : List Sample)
    → length w ≤ 65
    → Holds a w
    → Holds (age_out a) (drop (length w - 64) w)
unfolding age_out pop_front
age_out-Holds a [] l v = ground (arith, ap length v.samples)
age_out-Holds a (s ∷ w) l v = elim (lt_or_le (length w) 64) [
  | inl few ↦ let e : suc (length w) - 64 ≡ 0 = omega arith in rw (e, v.samples) (ground arith)
  | inr many ↦ let e : suc (length w) - 64 ≡ 1 = omega arith in rw (e, v.samples) (ground arith)
]

observe-Holds :
    (a : RollingRateAccumulator) (w : List Sample) (s : Sample)
    → length w ≤ 64
    → Holds a w
    → Holds (observe a s.0 s.1).0 (slide w s)
unfolding observe
observe-Holds a w s l v =
    age_out-Holds (push_back a s) (w ++ s ∷ []) (omega (arith, length-append w (s ∷ [])))
      (push_back-Holds a w s v)

-- The rate is a function of the window.
measured_rate-window :
    (a : RollingRateAccumulator) (w : List Sample) → Holds a w → measured_rate a ≡ window_rate w
unfolding measured_rate mib_s
measured_rate-window a w v =
    rw (v.samples, v.duration, v.bytes, v.missing) (ground (arith, count_missing_zero w))

after-recent :
    (a : RollingRateAccumulator) (h ss : List Sample)
    → Holds a (recent h)
    → Holds (after a ss) (recent (h ++ ss))
unfolding after
after-recent a h [] v = rw append-nil v
after-recent a h (s ∷ ss) v = rw (← append_assoc h (s ∷ []) ss) (
    after-recent (observe a s.0 s.1).0 (h ++ s ∷ []) ss
      (rw (recent-append h s) (observe-Holds a (recent h) s (length-recent h) v)))

-- After any history the accumulator holds the last 64 observations and their exact totals.
after-Holds : (h : List Sample) → Holds (after empty h) (recent h)
after-Holds h =
    after-recent empty [] h
      (record { samples = refl; duration = refl; bytes = refl; missing = refl })

-- After any history an observation answers with the rate of the last 64 observations, that one
-- included: a rate if there are 64, each with time and payload, both totals fit in 64 bits and the
-- total time is positive, and no rate otherwise.
pub observe-window :
    (h : List Sample) (s : Sample)
    → (observe (after empty h) s.0 s.1).1 ≡ window_rate (recent (h ++ s ∷ []))
unfolding observe
observe-window h s = rw (recent-append h s) (
    measured_rate-window (observe (after empty h) s.0 s.1).0 (slide (recent h) s)
      (observe-Holds (after empty h) (recent h) s (length-recent h) (after-Holds h)))

-- Where an observation ages the oldest sample out, that sample's share is within each total, so
-- none of the three subtractions wraps.
totals-evicted :
    (h : List Sample) (s oldest : Sample) (rest : List Sample)
    → (push_back (after empty h) s).samples ≡ oldest ∷ rest
    → (or_zero oldest.0 ≤ (push_back (after empty h) s).duration)
      × (or_zero oldest.1 ≤ (push_back (after empty h) s).bytes)
      × (missing_count oldest ≤ (push_back (after empty h) s).missing)
totals-evicted h s oldest rest e =
    let v = push_back-Holds (after empty h) (recent h) s (after-Holds h) in
    let e' : recent h ++ s ∷ [] ≡ oldest ∷ rest = sym v.samples ∙ e in
    (
      omega (arith, v.duration, ap sum_gaps e'),
      omega (arith, v.bytes, ap sum_payloads e'),
      omega (arith, v.missing, ap count_missing e'),
    )
