-- ===== src/Capture/Validate.antt =====
-- `validate` against the rules that it enforces (crates/protocol/src/lib.rs).
use android_ebpf_studio.Prelude.{
  ℕ, ◌+◌, length, ◌≡◌, ◌≤◌, ◌<◌, ◌≢◌, ◌↔◌, ◌⊎◌, inl, inr, true, false, Option, none, some, arith,
  ltb, eqb, if◌then◌else◌, nat_eq, pair_eq, Bool-cases, AllDistinct,
}
use android_ebpf_studio.Events.Block.{operation_eq}
use android_ebpf_studio.Events.File.{identity_eq}
use android_ebpf_studio.Adaptive.{
  TriggerPolicy, TriggerPolicyError, empty_rule, zero_consecutive_windows, zero_duration,
  trims_to_empty,
}
use android_ebpf_studio.Adaptive
use android_ebpf_studio.Capture.Distinct.{has_duplicates_iff}
use android_ebpf_studio.Capture.{
  CaptureFilter, CaptureConfig, CaptureConfigError, zero_generation, too_many_keys, duplicate_key,
  invalid_byte_range, invalid_sample_rate, invalid_trigger, key_count, any_duplicates, is_inverted,
  check_trigger, validate, ok, err, Verdict,
}

-- A trigger policy that the controller accepts.
pub record IsUsable (p : TriggerPolicy) : Type 0 where
  pub named : trims_to_empty p.rule ≡ false
  pub windows : 0 < p.consecutive_windows
  pub deep : 0 < p.deep_duration_ns
  pub cooldown : 0 < p.cooldown_ns
  pub arming : 0 < p.arming_timeout_ns

abbrev TriggerIsUsable : Option TriggerPolicy → Type 0
TriggerIsUsable none = Unit {0}
TriggerIsUsable (some p) = IsUsable p

abbrev InOrder : Option ℕ → Option ℕ → Type 0
InOrder (some minimum) (some maximum) = minimum ≤ maximum
InOrder _ _ = Unit {0}

pub record HasDistinctKeys (f : CaptureFilter) : Type 0 where
  pub pids : AllDistinct f.pids
  pub tids : AllDistinct f.tids
  pub uids : AllDistinct f.uids
  pub devices : AllDistinct f.devices
  pub files : AllDistinct f.files
  pub operations : AllDistinct f.operations

-- The keys of all six kinds.
abbrev number_of_keys : CaptureFilter → ℕ
number_of_keys f =
    length f.pids
    + length f.tids
    + length f.uids
    + length f.devices
    + length f.files
    + length f.operations

-- The rules of a configuration, in the order in which they are enforced.
pub record IsAcceptable (c : CaptureConfig) (max_keys : ℕ) : Type 0 where
  pub generation : c.generation ≢ 0
  pub keys : number_of_keys c.filter ≤ max_keys
  pub distinct : HasDistinctKeys c.filter
  pub ordered : InOrder c.filter.min_bytes c.filter.max_bytes
  pub sampled : c.detail.sample_rate_permyriad ≤ 10000
  pub trigger : TriggerIsUsable c.trigger

-- What is wrong with a trigger policy, the first fault only.
abbrev PolicyFault : TriggerPolicy → TriggerPolicyError → Type 0
PolicyFault p empty_rule = trims_to_empty p.rule ≡ true
PolicyFault p zero_consecutive_windows =
    (trims_to_empty p.rule ≡ false) × (p.consecutive_windows ≡ 0)
PolicyFault p zero_duration =
    (trims_to_empty p.rule ≡ false)
    × (0 < p.consecutive_windows)
    × ((p.deep_duration_ns ≡ 0) ⊎ (p.cooldown_ns ≡ 0) ⊎ (p.arming_timeout_ns ≡ 0))

abbrev TriggerFault : Option TriggerPolicy → TriggerPolicyError → Type 0
TriggerFault none e = ⊥
TriggerFault (some p) e = PolicyFault p e

-- An error names the first rule that is broken: all rules before it hold.
abbrev FirstFault : CaptureConfig → ℕ → CaptureConfigError → Type 0
FirstFault c m zero_generation = c.generation ≡ 0
FirstFault c m (too_many_keys actual limit) =
    (c.generation ≢ 0) × (actual ≡ number_of_keys c.filter) × (limit ≡ m) × (m < actual)
FirstFault c m duplicate_key =
    (c.generation ≢ 0) × (number_of_keys c.filter ≤ m) × ¬ HasDistinctKeys c.filter
FirstFault c m invalid_byte_range =
    (c.generation ≢ 0)
    × (number_of_keys c.filter ≤ m)
    × HasDistinctKeys c.filter
    × ¬ InOrder c.filter.min_bytes c.filter.max_bytes
FirstFault c m invalid_sample_rate =
    (c.generation ≢ 0)
    × (number_of_keys c.filter ≤ m)
    × HasDistinctKeys c.filter
    × InOrder c.filter.min_bytes c.filter.max_bytes
    × (10000 < c.detail.sample_rate_permyriad)
FirstFault c m (invalid_trigger e) =
    (c.generation ≢ 0)
    × (number_of_keys c.filter ≤ m)
    × HasDistinctKeys c.filter
    × InOrder c.filter.min_bytes c.filter.max_bytes
    × (c.detail.sample_rate_permyriad ≤ 10000)
    × TriggerFault c.trigger e

abbrev pub Judged : CaptureConfig → ℕ → Verdict → Type 0
Judged c m ok = IsAcceptable c m
Judged c m (err e) = FirstFault c m e

any_duplicates_iff : (f : CaptureFilter) → (any_duplicates f ≡ false) ↔ HasDistinctKeys f
unfolding any_duplicates
any_duplicates_iff f = (
  (λ h. record {
    pids = (has_duplicates_iff f.pids).0 (ground arith);
    tids = (has_duplicates_iff f.tids).0 (ground arith);
    uids = (has_duplicates_iff f.uids).0 (ground arith);
    devices = (has_duplicates_iff f.devices).0 (ground arith);
    files = (has_duplicates_iff f.files).0 (ground arith);
    operations = (has_duplicates_iff f.operations).0 (ground arith);
  }),
  λ d. rw (
    (has_duplicates_iff f.pids).1 d.pids,
    (has_duplicates_iff f.tids).1 d.tids,
    (has_duplicates_iff f.uids).1 d.uids,
    (has_duplicates_iff f.devices).1 d.devices,
    (has_duplicates_iff f.files).1 d.files,
    (has_duplicates_iff f.operations).1 d.operations,
  ),
)

is_inverted_iff :
    (minimum maximum : Option ℕ) → (is_inverted minimum maximum ≡ false) ↔ InOrder minimum maximum
is_inverted_iff none none = ground arith
is_inverted_iff none (some b) = ground arith
is_inverted_iff (some a) none = ground arith
is_inverted_iff (some a) (some b) = ground arith

abbrev TriggerJudged : Option TriggerPolicy → Verdict → Type 0
TriggerJudged t ok = TriggerIsUsable t
TriggerJudged t (err (invalid_trigger e)) = TriggerFault t e
TriggerJudged t (err _) = ⊥

check_trigger-Judged : (t : Option TriggerPolicy) → TriggerJudged t (check_trigger t)
unfolding check_trigger Adaptive.new
check_trigger-Judged none = tt
check_trigger-Judged (some p) = ground arith

lift_trigger :
    (c : CaptureConfig) (m : ℕ) (v : Verdict)
    → c.generation ≢ 0
    → number_of_keys c.filter ≤ m
    → HasDistinctKeys c.filter
    → InOrder c.filter.min_bytes c.filter.max_bytes
    → c.detail.sample_rate_permyriad ≤ 10000
    → TriggerJudged c.trigger v
    → Judged c m v
lift_trigger c m ok g k d o s t = record {
  generation = g;
  keys = k;
  distinct = d;
  ordered = o;
  sampled = s;
  trigger = t;
}
lift_trigger c m (err (invalid_trigger e)) g k d o s t = (g, k, d, o, s, t)
lift_trigger c m (err _) g k d o s t = absurd t

-- The rules after the duplicates.
ranges_Judged :
    (c : CaptureConfig) (m : ℕ)
    → c.generation ≢ 0
    → number_of_keys c.filter ≤ m
    → HasDistinctKeys c.filter
    → Judged c m (
        if is_inverted c.filter.min_bytes c.filter.max_bytes
        then err invalid_byte_range
        else if ltb 10000 c.detail.sample_rate_permyriad
        then err invalid_sample_rate
        else check_trigger c.trigger)
ranges_Judged c m g k d = elim (Bool-cases (is_inverted c.filter.min_bytes c.filter.max_bytes)) [
  | inl o ↦ rw o (g, k, d, λ h. cc ((is_inverted_iff c.filter.min_bytes c.filter.max_bytes).1 h))
  | inr o ↦
      let order = (is_inverted_iff c.filter.min_bytes c.filter.max_bytes).0 o in
      elim (Bool-cases (ltb 10000 c.detail.sample_rate_permyriad)) [
        | inl s ↦ rw (o, s) (g, k, d, order, ground arith)
        | inr s ↦
            rw (o, s)
              (lift_trigger c m (check_trigger c.trigger) g k d order (ground arith)
                (check_trigger-Judged c.trigger))
      ]
]

-- `validate` accepts exactly the configurations that keep every rule, and answers any other with
-- the error of the first rule, in the order generation, key count, duplicates, byte range, sample
-- rate, trigger, that it breaks; the keys of all six kinds count, and the key-count error names their
-- number and the limit.
pub validate-Judged : (c : CaptureConfig) (m : ℕ) → Judged c m (validate c m)
unfolding validate key_count
validate-Judged c m = elim (Bool-cases (eqb c.generation 0)) [
  | inl g ↦ rw g (ground arith)
  | inr g ↦ elim (Bool-cases (ltb m (number_of_keys c.filter))) [
    | inl k ↦ rw (g, k) (ground arith)
    | inr k ↦ elim (Bool-cases (any_duplicates c.filter)) [
      | inl d ↦
          rw (g, k, d) (ground arith, ground arith, λ h. cc ((any_duplicates_iff c.filter).1 h))
      | inr d ↦
          rw (g, k, d)
            (ranges_Judged c m (ground arith) (ground arith) ((any_duplicates_iff c.filter).0 d))
    ]
  ]
]
