-- ===== src/Adaptive/Streak.antt =====
-- Deep capture needs a run of observations above the threshold (`AdaptiveController::observe`).
use android_ebpf_studio.Prelude.{
  ℕ, ◌+◌, ◌≡◌, refl, ◌∙◌, ◌++◌, ◌≤◌, ◌<◌, ◌≢◌, List, [], ◌∷◌, arith, ltb, lt→ltb, if◌then◌else◌,
  max,
}
use android_ebpf_studio.Adaptive.{
  AdaptiveController, CaptureState, basic, armed, deep, cooldown, TriggerPolicy, Input, observes,
  ticks, step, observe, tick, tick_in, observe_in, run, new, ok,
}
use android_ebpf_studio.Adaptive.Moves.{input_ts, step-Follows, policy_kept}

-- How many observations in a row, up to and with the last, were above the threshold: ticks between
-- them neither count nor break the row.
abbrev streak_after : ℕ → ℕ → Input → ℕ
streak_after threshold n (ticks ts g) = n
streak_after threshold n (observes ts observed g) = if ltb threshold observed then n + 1 else 0

abbrev pub streak : ℕ → ℕ → List Input → ℕ
streak threshold n [] = n
streak threshold n (i ∷ is) = streak threshold (streak_after threshold n i) is

-- With a streak of `n` behind it: an armed controller has counted no more than the streak, and at
-- least one; it is below the limit unless it was armed just now.
pub record Counts (c : AdaptiveController) (n : ℕ) : Type 0 where
  pub armed_counted : c.state ≡ armed → (1 ≤ c.consecutive) × (c.consecutive ≤ n)

tick_in-Counts :
    (s : CaptureState) (c : AdaptiveController) (ts g n : ℕ)
    → c.state ≡ s
    → Counts c n
    → Counts (tick_in s c ts g).0 n
unfolding tick_in
tick_in-Counts basic c ts g n e v = ground arith
tick_in-Counts armed c ts g n e v = ground arith
tick_in-Counts deep c ts g n e v = ground arith
tick_in-Counts cooldown c ts g n e v = ground arith

observe_in-Counts :
    (s : CaptureState) (c : AdaptiveController) (ts o g n : ℕ)
    → c.state ≡ s
    → Counts c n
    → Counts (observe_in s c ts o g).0 (if ltb c.policy.threshold o then n + 1 else 0)
unfolding observe_in
observe_in-Counts basic c ts o g n e v = ground arith
observe_in-Counts armed c ts o g n e v = ground arith
observe_in-Counts deep c ts o g n e v = ground arith
observe_in-Counts cooldown c ts o g n e v = ground arith

-- The step into deep capture, on its own.
observe_in-deep :
    (s : CaptureState) (c : AdaptiveController) (ts o g n : ℕ)
    → c.state ≡ s
    → s ≢ deep
    → Counts c n
    → (observe_in s c ts o g).0.state ≡ deep
    → (c.policy.threshold < o) × (max 2 c.policy.consecutive_windows ≤ n + 1)
unfolding observe_in
observe_in-deep basic c ts o g n e f v d = ground arith
observe_in-deep armed c ts o g n e f v d = ground arith
observe_in-deep deep c ts o g n e f v d = ground arith
observe_in-deep cooldown c ts o g n e f v d = ground arith

new_lem :
    (policy : TriggerPolicy) (c : AdaptiveController)
    → new policy ≡ ok c
    → (c.state ≡ basic) × (c.policy ≡ policy)
unfolding new
new_lem policy c e = ground arith

streak-append :
    (t n : ℕ) (is : List Input) (i : Input)
    → streak t n (is ++ i ∷ []) ≡ streak_after t (streak t n is) i
streak-append t n [] i = refl
streak-append t n (j ∷ is) i = streak-append t (streak_after t n j) is i

step-policy : (c : AdaptiveController) (i : Input) → (step c i).0.policy ≡ c.policy
step-policy c i = policy_kept c (input_ts i) (step c i).0 (step c i).1 (step-Follows c i)

step-Counts :
    (c : AdaptiveController) (i : Input) (n : ℕ)
    → Counts c n
    → Counts (step c i).0 (streak_after c.policy.threshold n i)
unfolding step observe tick
step-Counts c (observes ts o g) n v =
    observe_in-Counts c.state (record c { last_observed = o }) ts o g n refl
      (record { armed_counted = v.armed_counted })
step-Counts c (ticks ts g) n v = tick_in-Counts c.state c ts g n refl v

run-Counts :
    (c : AdaptiveController) (is : List Input) (n : ℕ)
    → Counts c n
    → Counts (run c is) (streak c.policy.threshold n is) × ((run c is).policy ≡ c.policy)
unfolding run
run-Counts c [] n v = (v, refl)
run-Counts c (i ∷ is) n v =
    let same : (step c i).0.policy ≡ c.policy = step-policy c i in
    let (counts, kept) =
      run-Counts (step c i).0 is (streak_after c.policy.threshold n i) (step-Counts c i n v) in
    (rw same at counts, kept ∙ same)

-- From a new controller, after any inputs: if an observation puts a controller that was not in deep
-- capture into deep capture, then that observation ends a row of at least as many observations
-- above the threshold as the policy's consecutive windows, and of at least two.
pub deep-streak :
    (policy : TriggerPolicy) (c : AdaptiveController) (is : List Input) (ts o g : ℕ)
    → new policy ≡ ok c
    → (run c is).state ≢ deep
    → (step (run c is) (observes ts o g)).0.state ≡ deep
    → max 2 policy.consecutive_windows ≤ streak policy.threshold 0 (is ++ observes ts o g ∷ [])
unfolding step observe
deep-streak policy c is ts o g created calm entered =
    let (began, owned) = new_lem policy c created in
    let (counts, kept) = run-Counts c is 0 (record { armed_counted = λ e. cc (e, began) }) in
    let r = run c is in
    let same : r.policy ≡ policy = kept ∙ owned in
    let up =
      observe_in-deep r.state (record r { last_observed = o }) ts o g
        (streak c.policy.threshold 0 is) refl calm (record { armed_counted = counts.armed_counted })
        entered in
    rw
      (
        streak-append policy.threshold 0 is (observes ts o g),
        lt→ltb policy.threshold o (rw same at up.0),
      )
      (rw owned at (rw same at up.1))
