-- ===== src/Adaptive/Timing.antt =====
-- How long deep capture and cooldown last (`AdaptiveController::tick`).
use android_ebpf_studio.Prelude.{ℕ, ◌+◌, ◌≡◌, refl, ◌≤◌, ◌<◌, List, [], ◌∷◌, ◌∙◌, arith}
use android_ebpf_studio.Adaptive.{
  AdaptiveController, CaptureState, basic, armed, deep, cooldown, TriggerPolicy, Input, observes,
  ticks, step, observe, tick, tick_in, observe_in, run,
}
use android_ebpf_studio.Adaptive.Moves.{input_ts}

abbrev AllBefore : ℕ → List Input → Type 0
AllBefore deadline [] = Unit {0}
AllBefore deadline (i ∷ is) = (input_ts i < deadline) × AllBefore deadline is

-- How long a state with a budget lasts.
abbrev budget : TriggerPolicy → CaptureState → ℕ
budget p deep = p.deep_duration_ns
budget p _ = p.cooldown_ns

abbrev next_state : CaptureState → CaptureState
next_state deep = cooldown
next_state _ = basic

-- Deep capture and cooldown, the states that only time ends.
abbrev IsTimed : CaptureState → Type 0
IsTimed deep = Unit {0}
IsTimed cooldown = Unit {0}
IsTimed _ = ⊥

step_timed :
    (s : CaptureState) (c : AdaptiveController) (i : Input)
    → IsTimed s
    → c.state ≡ s
    → 0 < budget c.policy s
    → (input_ts i < c.entered_ts_ns + budget c.policy s
        → ((step c i).0.state ≡ s)
          × ((step c i).0.entered_ts_ns ≡ c.entered_ts_ns)
          × ((step c i).0.policy ≡ c.policy))
      × (c.entered_ts_ns + budget c.policy s ≤ input_ts i → (step c i).0.state ≡ next_state s)
unfolding step observe observe_in tick tick_in
step_timed basic c i t e b = absurd t
step_timed armed c i t e b = absurd t
step_timed deep c (observes ts o g) t e b = ground arith
step_timed deep c (ticks ts g) t e b = ground arith
step_timed cooldown c (observes ts o g) t e b = ground arith
step_timed cooldown c (ticks ts g) t e b = ground arith

run_timed :
    (s : CaptureState) (c : AdaptiveController) (is : List Input)
    → IsTimed s
    → c.state ≡ s
    → 0 < budget c.policy s
    → AllBefore (c.entered_ts_ns + budget c.policy s) is
    → ((run c is).state ≡ s)
      × ((run c is).entered_ts_ns ≡ c.entered_ts_ns)
      × ((run c is).policy ≡ c.policy)
unfolding run
run_timed s c [] t e b a = (e, refl, refl)
run_timed s c (i ∷ is) t e b a =
    let (here, entry, policy) = (step_timed s c i t e b).0 a.0 in
    let (later, entry', policy') =
      run_timed s (step c i).0 is t here (rw policy b) (rw (entry, policy) a.1) in
    (later, entry' ∙ entry, policy' ∙ policy)

-- Deep capture and cooldown end by time alone: a controller in one of them, with a positive budget
-- for it, stays there through any inputs whose times are before the entry time plus the budget, and
-- leaves it, for cooldown and basic capture respectively, at the first input that is not before.
run-budget :
    (s : CaptureState) (c : AdaptiveController) (is : List Input) (late : Input)
    → IsTimed s
    → c.state ≡ s
    → 0 < budget c.policy s
    → AllBefore (c.entered_ts_ns + budget c.policy s) is
    → c.entered_ts_ns + budget c.policy s ≤ input_ts late
    → ((run c is).state ≡ s) × ((step (run c is) late).0.state ≡ next_state s)
run-budget s c is late t e b a l =
    let (here, entry, policy) = run_timed s c is t e b a in
    (here, (step_timed s (run c is) late t here (rw policy b)).1 (rw (entry, policy) l))
