-- ===== src/Capture.antt =====
-- crates/protocol/src/lib.rs: `CaptureConfig`, its parts, `validate` and `has_duplicates`.
pub mod Distinct
pub mod Validate
mod Tests
use android_ebpf_studio.Prelude.{
  ℕ, ◌+◌, ◌||◌, Bool, true, false, not, Option, none, some, List, [], ◌∷◌, ltb, leb, eqb,
  if◌then◌else◌, length, Eq, contains, nat_eq, pair_eq,
}
use android_ebpf_studio.Events.Block.{IoOperation, operation_eq}
use android_ebpf_studio.Events.File.{FileIdentity, identity_eq}
use android_ebpf_studio.Adaptive.{TriggerPolicy, TriggerPolicyError, AdaptiveController}
use android_ebpf_studio.Adaptive

pub data CaptureMode : Type 0 where
  basic balanced deep raw_all : CaptureMode

pub record CaptureFilter : Type 0 where
  pub match_all : Bool
  pub pids : List ℕ
  pub tids : List ℕ
  pub uids : List ℕ
  pub devices : List (ℕ × ℕ)
  pub files : List FileIdentity
  pub operations : List IoOperation
  pub min_bytes : Option ℕ
  pub max_bytes : Option ℕ

pub record DetailPolicy : Type 0 where
  pub total_latency_ns : ℕ
  pub queue_latency_ns : ℕ
  pub device_latency_ns : ℕ
  pub sample_rate_permyriad : ℕ
  pub include_errors : Bool
  pub include_correlation_failures : Bool

abbrev pub default_detail : DetailPolicy
default_detail = record {
  total_latency_ns = 5000000;
  queue_latency_ns = 1000000;
  device_latency_ns = 3000000;
  sample_rate_permyriad = 100;
  include_errors = true;
  include_correlation_failures = true;
}

pub record CaptureConfig : Type 0 where
  pub generation : ℕ
  pub mode : CaptureMode
  pub filter : CaptureFilter
  pub detail : DetailPolicy
  pub trigger : Option TriggerPolicy

pub data CaptureConfigError : Type 0 where
  zero_generation : CaptureConfigError
  too_many_keys : ℕ → ℕ → CaptureConfigError
  duplicate_key invalid_byte_range invalid_sample_rate : CaptureConfigError
  invalid_trigger : TriggerPolicyError → CaptureConfigError

pub data Verdict : Type 0 where
  ok : Verdict
  err : CaptureConfigError → Verdict

module _ {A : Type 0} ⦃e : Eq A⦄ where
  -- `values.iter().any(|value| !seen.insert(value))`
  abbrev pub any_seen : List A → List A → Bool
  any_seen seen [] = false
  any_seen seen (v ∷ vs) = contains seen v || any_seen (v ∷ seen) vs

  abbrev pub has_duplicates : List A → Bool
  has_duplicates values = any_seen [] values

pub key_count : CaptureFilter → ℕ
key_count f =
    length f.pids
    + length f.tids
    + length f.uids
    + length f.devices
    + length f.files
    + length f.operations

pub any_duplicates : CaptureFilter → Bool
any_duplicates f =
    has_duplicates f.pids
    || has_duplicates f.tids
    || has_duplicates f.uids
    || has_duplicates f.devices
    || has_duplicates f.files
    || has_duplicates f.operations

-- `min.zip(max).is_some_and(|(minimum, maximum)| minimum > maximum)`
abbrev pub is_inverted : Option ℕ → Option ℕ → Bool
is_inverted (some minimum) (some maximum) = ltb maximum minimum
is_inverted _ _ = false

abbrev trigger_verdict : Adaptive.NewResult → Verdict
trigger_verdict (Adaptive.NewResult.ok c) = ok
trigger_verdict (Adaptive.NewResult.err e) = err (invalid_trigger e)

check_trigger : Option TriggerPolicy → Verdict
check_trigger none = ok
check_trigger (some policy) = trigger_verdict (Adaptive.new policy)

pub validate : CaptureConfig → ℕ → Verdict
unfolding key_count any_duplicates check_trigger
validate c max_keys =
    if eqb c.generation 0
    then err zero_generation
    else if ltb max_keys (key_count c.filter)
    then err (too_many_keys (key_count c.filter) max_keys)
    else if any_duplicates c.filter
    then err duplicate_key
    else if is_inverted c.filter.min_bytes c.filter.max_bytes
    then err invalid_byte_range
    else if ltb 10000 c.detail.sample_rate_permyriad
    then err invalid_sample_rate
    else check_trigger c.trigger
