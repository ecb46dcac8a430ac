-- ===== src/Adaptive/Burst.antt =====
-- A burst of observations above the threshold reaches deep capture (`AdaptiveController::observe`).
use android_ebpf_studio.Prelude.{
  ℕ, ◌+◌, ◌≡◌, sym, subst, ◌≤◌, ◌<◌, List, [], ◌∷◌, arith, length, max, leb, if◌then◌else◌, true,
  false,
}
use android_ebpf_studio.Adaptive.{
  AdaptiveController, TriggerPolicy, basic, armed, deep, Input, observes, ticks, step, observe, run,
  u32_max,
}

-- Observations only, each above the threshold.
abbrev AllAbove : ℕ → List Input → Type 0
AllAbove t [] = Unit {0}
AllAbove t (observes ts o g ∷ is) = (t < o) × AllAbove t is
AllAbove t (ticks ts g ∷ is) = ⊥

armed_above :
    (c : AdaptiveController) (ts o g : ℕ)
    → c.state ≡ armed
    → c.policy.threshold < o
    → c.consecutive < u32_max
    → ((step c (observes ts o g)).0.consecutive ≡ c.consecutive + 1)
      × ((step c (observes ts o g)).0.policy ≡ c.policy)
      × ((step c (observes ts o g)).0.state
          ≡ (if leb c.policy.consecutive_windows (c.consecutive + 1) then deep else armed))
unfolding step observe
armed_above c ts o g e a b = ground arith

basic_above :
    (c : AdaptiveController) (ts o g : ℕ)
    → c.state ≡ basic
    → c.policy.threshold < o
    → ((step c (observes ts o g)).0.consecutive ≡ 1)
      × ((step c (observes ts o g)).0.policy ≡ c.policy)
      × ((step c (observes ts o g)).0.state ≡ armed)
unfolding step observe
basic_above c ts o g e a = ground arith

armed_burst :
    (c : AdaptiveController) (is : List Input)
    → c.state ≡ armed
    → 1 ≤ c.consecutive
    → c.policy.consecutive_windows ≤ u32_max
    → AllAbove c.policy.threshold is
    → 0 < length is
    → c.consecutive + length is ≡ max 2 c.policy.consecutive_windows
    → (run c is).state ≡ deep
unfolding run
armed_burst c [] e one w a l n = absurd (omega arith)
armed_burst c (ticks ts g ∷ is) e one w a l n = absurd a
armed_burst c (observes ts o g ∷ []) e one w a l n =
    let (k, p, s) = armed_above c ts o g e a.0 (omega arith) in
    let reached : leb c.policy.consecutive_windows (c.consecutive + 1) ≡ true = ground arith in
    rw reached at s
armed_burst c (observes ts o g ∷ i ∷ is) e one w a l n =
    let (k, p, s) = armed_above c ts o g e a.0 (omega arith) in
    let below : leb c.policy.consecutive_windows (c.consecutive + 1) ≡ false = ground arith in
    armed_burst (step c (observes ts o g)).0 (i ∷ is) (rw below at s) (omega arith) (rw p w)
      (subst (λ (q : TriggerPolicy). AllAbove q.threshold (i ∷ is)) (sym p) a.1) (omega arith)
      (rw p (omega arith))

-- From basic capture, under a policy whose consecutive windows are a 32-bit number, a burst of as
-- many observations above the threshold as these windows, but of at least two, ends in deep
-- capture.
pub burst-deep :
    (c : AdaptiveController) (is : List Input)
    → c.state ≡ basic
    → c.policy.consecutive_windows ≤ u32_max
    → AllAbove c.policy.threshold is
    → length is ≡ max 2 c.policy.consecutive_windows
    → (run c is).state ≡ deep
unfolding run
burst-deep c [] e w a n = absurd (omega arith)
burst-deep c (ticks ts g ∷ is) e w a n = absurd a
burst-deep c (observes ts o g ∷ is) e w a n =
    let (k, p, s) = basic_above c ts o g e a.0 in
    armed_burst (step c (observes ts o g)).0 is s (omega arith) (rw p w)
      (subst (λ (q : TriggerPolicy). AllAbove q.threshold is) (sym p) a.1) (omega arith)
      (rw (p, k) (omega arith))
