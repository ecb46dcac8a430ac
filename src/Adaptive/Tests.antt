-- ===== src/Adaptive/Tests.antt =====
-- Runs of the adaptive controller, and its theorems at concrete inputs (crates/protocol/src/lib.rs).
use android_ebpf_studio.Prelude.{◌≡◌, refl, ◌≢◌, ◌≤◌, max, [], ◌∷◌, ◌++◌, arith}
use android_ebpf_studio.Adaptive.{
  basic, armed, deep, TriggerPolicy, AdaptiveController, ok, new, observes, step, run,
  trims_to_empty, is_whitespace, observe, observe_in, count_window, transition,
}
use android_ebpf_studio.Adaptive.Moves.{Follows, step-Follows}
use android_ebpf_studio.Adaptive.Streak.{streak, deep-streak}
use android_ebpf_studio.Adaptive.Burst.{burst-deep}

abbrev policy : TriggerPolicy
policy = record {
  rule = 113 ∷ [];
  threshold = 10;
  consecutive_windows = 1;
  deep_duration_ns = 100;
  cooldown_ns = 50;
  arming_timeout_ns = 200;
}

abbrev idle : AdaptiveController
idle = record {
  policy = policy;
  state = basic;
  entered_ts_ns = 0;
  consecutive = 0;
  last_observed = 0;
}

abbrev deep_at_zero : AdaptiveController
deep_at_zero = record idle { state = deep }

created : new policy ≡ ok idle
unfolding new trims_to_empty is_whitespace
created = refl

-- With one configured window, one observation above the threshold arms and the second goes deep.
two_observations : (run idle (observes 5 11 1 ∷ observes 6 11 1 ∷ [])).state ≡ deep
unfolding run step observe observe_in count_window transition
two_observations = refl

one_observation : (run idle (observes 5 11 1 ∷ [])).state ≡ armed
unfolding run step observe observe_in transition
one_observation = refl

armed_is_not_deep : (run idle (observes 5 11 1 ∷ [])).state ≢ deep
armed_is_not_deep = rw one_observation (λ e. cc)

second_goes_deep : (step (run idle (observes 5 11 1 ∷ [])) (observes 6 11 1)).0.state ≡ deep
unfolding run step observe observe_in count_window transition
second_goes_deep = refl

step-Follows_example :
    Follows idle 5 (step idle (observes 5 11 1)).0 (step idle (observes 5 11 1)).1
step-Follows_example = step-Follows idle (observes 5 11 1)

deep-streak_example :
    max 2 policy.consecutive_windows
    ≤ streak policy.threshold 0 ((observes 5 11 1 ∷ []) ++ observes 6 11 1 ∷ [])
deep-streak_example =
    deep-streak policy idle (observes 5 11 1 ∷ []) 6 11 1 created armed_is_not_deep second_goes_deep

burst-deep_example : (run idle (observes 5 11 1 ∷ observes 6 12 1 ∷ [])).state ≡ deep
burst-deep_example =
    burst-deep idle (observes 5 11 1 ∷ observes 6 12 1 ∷ []) refl (omega arith)
      (omega arith, (omega arith, tt)) refl
