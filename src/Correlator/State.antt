-- ===== src/Correlator/State.antt =====
-- crates/protocol/src/lib.rs: the state of `RequestCorrelator`, its keys and its pending requests.
use android_ebpf_studio.Prelude.{
  ℕ, ◌≡◌, ◌↔◌, ◌&&◌, Bool, true, Option, List, [], arith, Eq, ◌==◌, nat_eq, pair_eq,
}
use android_ebpf_studio.Rolling.{RollingRateAccumulator}
use android_ebpf_studio.Events.Block.{BlockInsert, BlockIssue, BlockComplete, AccessPattern}
use android_ebpf_studio.Events.Completed.{DetailTiming}

abbrev pub Device : Type 0
Device = ℕ × ℕ

pub record RequestKey : Type 0 where
  pub request_id : ℕ
  pub device_major : ℕ
  pub device_minor : ℕ

abbrev key_beq : RequestKey → RequestKey → Bool
key_beq a b =
    a.request_id == b.request_id
    && a.device_major == b.device_major
    && a.device_minor == b.device_minor

pub key_beq_iff : (a b : RequestKey) → (key_beq a b ≡ true) ↔ (a ≡ b)
key_beq_iff a b = ground arith

instance abbrev pub key_eq : Eq RequestKey
key_eq = record { test = key_beq; decides = key_beq_iff }

abbrev pub issue_key : BlockIssue → RequestKey
issue_key v = record {
  request_id = v.request_id;
  device_major = v.device_major;
  device_minor = v.device_minor;
}

abbrev pub insert_key : BlockInsert → RequestKey
insert_key v = record {
  request_id = v.request_id;
  device_major = v.device_major;
  device_minor = v.device_minor;
}

abbrev pub complete_key : BlockComplete → RequestKey
complete_key v = record {
  request_id = v.request_id;
  device_major = v.device_major;
  device_minor = v.device_minor;
}

pub record PendingRequest : Type 0 where
  pub issue : BlockIssue
  pub insert : Option BlockInsert
  pub access_pattern : AccessPattern
  pub detail_timing : DetailTiming
  pub queue_depth_at_issue : ℕ

pub record RequestCorrelator : Type 0 where
  pub ttl_ns : ℕ
  pub inserted : List (RequestKey × BlockInsert)
  pub pending : List (RequestKey × PendingRequest)
  pub device_pending : List (Device × ℕ)
  pub last_issue : List (Device × ℕ)
  pub last_completion : List (Device × ℕ)
  pub issue_bandwidth : List (Device × RollingRateAccumulator)
  pub completion_bandwidth : List (Device × RollingRateAccumulator)
  pub ambiguous : List (RequestKey × ℕ)
  pub expired : ℕ
  pub replaced : ℕ

-- The assertion `ttl_ns > 0` of the source is the caller's duty.
abbrev pub new : ℕ → RequestCorrelator
new ttl_ns = record {
  ttl_ns = ttl_ns;
  inserted = [];
  pending = [];
  device_pending = [];
  last_issue = [];
  last_completion = [];
  issue_bandwidth = [];
  completion_bandwidth = [];
  ambiguous = [];
  expired = 0;
  replaced = 0;
}
