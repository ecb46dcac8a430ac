-- ===== src/Adaptive.antt =====
-- crates/protocol/src/lib.rs: `TriggerPolicy`, `AdaptiveController::new`, `observe`, `tick` and
-- `transition`. A reason, which the source writes as a string literal, is a constructor.
pub mod Moves
pub mod Streak
pub mod Burst
pub mod Timing
mod Tests
use android_ebpf_studio.Prelude.{
  ℕ, ◌+◌, ◌-◌, ◌||◌, ◌&&◌, Bool, true, false, not, Option, none, some, List, [], ◌∷◌, ltb, leb, eqb,
  if◌then◌else◌, min,
}
use android_ebpf_studio.Events.Block.{Text}

pub data CaptureState : Type 0 where
  basic armed deep cooldown : CaptureState

pub data Reason : Type 0 where
  threshold_observed signal_recovered consecutive_threshold_exceeded : Reason
  arming_timeout deep_budget_elapsed cooldown_elapsed : Reason

pub record TriggerRecord : Type 0 where
  pub ts_ns : ℕ
  pub from : CaptureState
  pub to : CaptureState
  pub rule : Text
  pub observed : ℕ
  pub threshold : ℕ
  pub consecutive_windows : ℕ
  pub config_generation : ℕ
  pub reason : Reason

pub record TriggerPolicy : Type 0 where
  pub rule : Text
  pub threshold : ℕ
  pub consecutive_windows : ℕ
  pub deep_duration_ns : ℕ
  pub cooldown_ns : ℕ
  pub arming_timeout_ns : ℕ

pub data TriggerPolicyError : Type 0 where
  empty_rule zero_consecutive_windows zero_duration : TriggerPolicyError

pub record AdaptiveController : Type 0 where
  pub policy : TriggerPolicy
  pub state : CaptureState
  pub entered_ts_ns : ℕ
  pub consecutive : ℕ
  pub last_observed : ℕ

pub data NewResult : Type 0 where
  ok : AdaptiveController → NewResult
  err : TriggerPolicyError → NewResult

-- `char::is_whitespace`: the code points with the Unicode property White_Space.
pub is_whitespace : ℕ → Bool
is_whitespace c =
    (leb 9 c && leb c 13)
    || eqb c 32
    || eqb c 0x85
    || eqb c 0xa0
    || eqb c 0x1680
    || (leb 0x2000 c && leb c 0x200a)
    || eqb c 0x2028
    || eqb c 0x2029
    || eqb c 0x202f
    || eqb c 0x205f
    || eqb c 0x3000

-- `text.trim().is_empty()`: nothing is left exactly when every code point is white space.
pub trims_to_empty : Text → Bool
unfolding is_whitespace
trims_to_empty [] = true
trims_to_empty (c ∷ cs) = is_whitespace c && trims_to_empty cs

unfoldable pub new : TriggerPolicy → NewResult
unfolding trims_to_empty
new policy =
    if trims_to_empty policy.rule
    then err empty_rule
    else if eqb policy.consecutive_windows 0
    then err zero_consecutive_windows
    else if eqb policy.deep_duration_ns 0
        || eqb policy.cooldown_ns 0
        || eqb policy.arming_timeout_ns 0
    then err zero_duration
    else ok (record {
      policy = policy;
      state = basic;
      entered_ts_ns = 0;
      consecutive = 0;
      last_observed = 0;
    })

abbrev same_state : CaptureState → CaptureState → Bool
same_state basic basic = true
same_state armed armed = true
same_state deep deep = true
same_state cooldown cooldown = true
same_state _ _ = false

abbrev pub Outcome : Type 0
Outcome = AdaptiveController × Option TriggerRecord

pub transition : AdaptiveController → ℕ → CaptureState → ℕ → ℕ → Reason → Outcome
transition c ts_ns to observed config_generation reason =
    if same_state c.state to then (c, none) else (
      record c { state = to; entered_ts_ns = ts_ns },
      some (record {
        ts_ns = ts_ns;
        from = c.state;
        to = to;
        rule = c.policy.rule;
        observed = observed;
        threshold = c.policy.threshold;
        consecutive_windows = c.consecutive;
        config_generation = config_generation;
        reason = reason;
      }),
    )

tick_in : CaptureState → AdaptiveController → ℕ → ℕ → Outcome
unfolding transition
tick_in basic c ts_ns generation = (c, none)
tick_in armed c ts_ns generation =
    if leb c.policy.arming_timeout_ns (ts_ns - c.entered_ts_ns)
    then transition (record c { consecutive = 0 }) ts_ns basic c.last_observed generation
        arming_timeout
    else (c, none)
tick_in deep c ts_ns generation =
    if leb c.policy.deep_duration_ns (ts_ns - c.entered_ts_ns)
    then transition c ts_ns cooldown c.last_observed generation deep_budget_elapsed
    else (c, none)
tick_in cooldown c ts_ns generation =
    if leb c.policy.cooldown_ns (ts_ns - c.entered_ts_ns)
    then transition c ts_ns basic c.last_observed generation cooldown_elapsed
    else (c, none)

pub tick : AdaptiveController → ℕ → ℕ → Outcome
unfolding tick_in
tick c ts_ns generation = tick_in c.state c ts_ns generation

abbrev u32_max : ℕ
u32_max = 4294967295

-- The armed case above the threshold: one more consecutive window.
count_window : AdaptiveController → ℕ → ℕ → ℕ → Outcome
unfolding transition
count_window c ts_ns observed generation =
    let d = record c { consecutive = min (c.consecutive + 1) u32_max } in
    if leb d.policy.consecutive_windows d.consecutive
    then transition d ts_ns deep observed generation consecutive_threshold_exceeded
    else (d, none)

observe_in : CaptureState → AdaptiveController → ℕ → ℕ → ℕ → Outcome
unfolding transition tick count_window
observe_in basic c ts_ns observed generation =
    if ltb c.policy.threshold observed
    then transition (record c { consecutive = 1 }) ts_ns armed observed generation
        threshold_observed
    else tick c ts_ns generation
observe_in armed c ts_ns observed generation =
    if leb observed c.policy.threshold
    then transition (record c { consecutive = 0 }) ts_ns basic observed generation signal_recovered
    else count_window c ts_ns observed generation
observe_in deep c ts_ns observed generation = tick c ts_ns generation
observe_in cooldown c ts_ns observed generation = tick c ts_ns generation

pub observe : AdaptiveController → ℕ → ℕ → ℕ → Outcome
unfolding observe_in
observe c ts_ns observed generation =
    observe_in c.state (record c { last_observed = observed }) ts_ns observed generation

-- What the owner of the controller does with it.
pub data Input : Type 0 where
  observes : ℕ → ℕ → ℕ → Input
  ticks : ℕ → ℕ → Input

pub step : AdaptiveController → Input → Outcome
unfolding observe tick
step c (observes ts_ns observed generation) = observe c ts_ns observed generation
step c (ticks ts_ns generation) = tick c ts_ns generation

pub run : AdaptiveController → List Input → AdaptiveController
unfolding step
run c [] = c
run c (i ∷ is) = run (step c i).0 is
