-- ===== src/Wire/Records.antt =====
-- `WireRecord` and `SessionLoad` (crates/protocol/src/lib.rs): a record a line of a session file, and
-- what a reader keeps of them. The fields of a variant are a record of its own.
use android_ebpf_studio.Prelude.{ℕ, Bool, Option, none, List, []}
use android_ebpf_studio.Events.Block.{Text}
use android_ebpf_studio.Adaptive.{TriggerRecord}
use android_ebpf_studio.Wire.{
  StorageEvent, ProbeCapabilities, ProbeHealth, CaptureControlAck, AggregateSnapshot,
  HeavyHitterSnapshot, SegmentRecord, StackFingerprintRecord,
}

pub record SourceInfo : Type 0 where
  pub schema_version : ℕ
  pub source : Text
  pub status : Text
  pub metadata : Text

pub record DiskStats : Type 0 where
  pub schema_version : ℕ
  pub elapsed_ms : ℕ
  pub boot_id : Text
  pub raw : Text

pub record Hello : Type 0 where
  pub schema_version : ℕ
  pub agent_version : Text
  pub boot_id : Text
  pub kernel_release : Text

pub record Health : Type 0 where
  pub schema_version : ℕ
  pub emitted_events : ℕ
  pub kernel_drops : Option ℕ
  pub userspace_drops : ℕ
  pub probe_health : List (Text × ProbeHealth)
  pub correlation_ambiguous : ℕ
  pub correlation_expired : ℕ
  pub key_reused : ℕ

pub record Footer : Type 0 where
  pub schema_version : ℕ
  pub events_seen : ℕ
  pub events_persisted : ℕ
  pub events_dropped : ℕ
  pub events_rejected : ℕ
  pub graceful : Option Bool

-- The number is the schema version, and that of an event is followed by its sequence.
pub data WireRecord : Type 0 where
  source_info : SourceInfo → WireRecord
  disk_stats : DiskStats → WireRecord
  hello : Hello → WireRecord
  capabilities : ℕ → ProbeCapabilities → WireRecord
  event : ℕ → ℕ → StorageEvent → WireRecord
  health : Health → WireRecord
  control : ℕ → CaptureControlAck → WireRecord
  aggregate : ℕ → AggregateSnapshot → WireRecord
  heavy_hitters : ℕ → HeavyHitterSnapshot → WireRecord
  trigger : ℕ → TriggerRecord → WireRecord
  segment : ℕ → SegmentRecord → WireRecord
  stack_fingerprint : ℕ → StackFingerprintRecord → WireRecord
  footer : Footer → WireRecord

-- The three fields that hold one variant of a record hold its fields.
pub record SessionLoad : Type 0 where
  pub source_info : List SourceInfo
  pub hello : Option Hello
  pub disk_stats : List DiskStats
  pub capabilities : Option ProbeCapabilities
  pub events : List StorageEvent
  pub health : List Health
  pub controls : List CaptureControlAck
  pub aggregates : List AggregateSnapshot
  pub heavy_hitters : List HeavyHitterSnapshot
  pub triggers : List TriggerRecord
  pub segments : List SegmentRecord
  pub stack_fingerprints : List StackFingerprintRecord
  pub footer : Option Footer
  pub accepted_events : ℕ
  pub total_lines : ℕ
  pub rejected_lines : ℕ
  pub integrity_ok : Option Bool
  pub graceful : Option Bool

abbrev pub empty_load : SessionLoad
empty_load = record {
  source_info = [];
  hello = none;
  disk_stats = [];
  capabilities = none;
  events = [];
  health = [];
  controls = [];
  aggregates = [];
  heavy_hitters = [];
  triggers = [];
  segments = [];
  stack_fingerprints = [];
  footer = none;
  accepted_events = 0;
  total_lines = 0;
  rejected_lines = 0;
  integrity_ok = none;
  graceful = none;
}
