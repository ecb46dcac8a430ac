-- ===== src/Adaptive/Moves.antt =====
-- Which transitions the controller makes, and what their records say (`AdaptiveController`).
use android_ebpf_studio.Prelude.{ℕ, ◌≡◌, refl, Option, none, some, arith}
use android_ebpf_studio.Adaptive.{
  AdaptiveController, CaptureState, basic, armed, deep, cooldown, TriggerRecord, Reason,
  threshold_observed, signal_recovered, consecutive_threshold_exceeded, arming_timeout,
  deep_budget_elapsed, cooldown_elapsed, Input, observes, ticks, step, observe, tick, tick_in,
  observe_in,
}

abbrev pub input_ts : Input → ℕ
input_ts (observes ts observed generation) = ts
input_ts (ticks ts generation) = ts

-- The transition diagram: where the transition of each reason starts and ends.
abbrev arrow : Reason → CaptureState × CaptureState
arrow threshold_observed = (basic, armed)
arrow signal_recovered = (armed, basic)
arrow consecutive_threshold_exceeded = (armed, deep)
arrow arming_timeout = (armed, basic)
arrow deep_budget_elapsed = (deep, cooldown)
arrow cooldown_elapsed = (cooldown, basic)

-- What one input at a time may do: leave state and entry time alone and report nothing, or follow
-- an arrow of the diagram, enter the new state at that time and report just that.
abbrev pub Follows : AdaptiveController → ℕ → AdaptiveController → Option TriggerRecord → Type 0
Follows c ts d none =
    (d.state ≡ c.state) × (d.entered_ts_ns ≡ c.entered_ts_ns) × (d.policy ≡ c.policy)
Follows c ts d (some r) =
    ((r.from, r.to) ≡ arrow r.reason)
    × (r.from ≡ c.state)
    × (r.to ≡ d.state)
    × (r.ts_ns ≡ ts)
    × (d.entered_ts_ns ≡ ts)
    × (r.threshold ≡ c.policy.threshold)
    × (r.rule ≡ c.policy.rule)
    × (d.policy ≡ c.policy)

tick_in-Follows :
    (s : CaptureState) (c : AdaptiveController) (ts g : ℕ)
    → c.state ≡ s
    → Follows c ts (tick_in s c ts g).0 (tick_in s c ts g).1
unfolding tick_in
tick_in-Follows basic c ts g e = ground arith
tick_in-Follows armed c ts g e = ground arith
tick_in-Follows deep c ts g e = ground arith
tick_in-Follows cooldown c ts g e = ground arith

observe_in-Follows :
    (s : CaptureState) (c : AdaptiveController) (ts observed g : ℕ)
    → c.state ≡ s
    → Follows c ts (observe_in s c ts observed g).0 (observe_in s c ts observed g).1
unfolding observe_in
observe_in-Follows basic c ts o g e = ground arith
observe_in-Follows armed c ts o g e = ground arith
observe_in-Follows deep c ts o g e = ground arith
observe_in-Follows cooldown c ts o g e = ground arith

-- Every input makes at most one transition. With a record, the transition is the arrow of the
-- record's reason, from the state before to the state after, at the input's time; without one,
-- state and entry time are as before. The policy never changes.
pub step-Follows :
    (c : AdaptiveController) (i : Input) → Follows c (input_ts i) (step c i).0 (step c i).1
unfolding step observe tick
step-Follows c (observes ts o g) =
    observe_in-Follows c.state (record c { last_observed = o }) ts o g refl
step-Follows c (ticks ts g) = tick_in-Follows c.state c ts g refl

pub policy_kept :
    (c : AdaptiveController) (ts : ℕ) (d : AdaptiveController) (o : Option TriggerRecord)
    → Follows c ts d o
    → d.policy ≡ c.policy
policy_kept c ts d none f = f.2
policy_kept c ts d (some r) f = f.7
