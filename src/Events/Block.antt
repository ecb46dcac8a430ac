-- ===== src/Events/Block.antt =====
-- Block-layer events (crates/protocol/src/lib.rs).
use android_ebpf_studio.Prelude.{
  ℕ, ℤ, ◌≡◌, ◌↔◌, Bool, true, false, Option, List, arith, leb, if◌then◌else◌, Eq,
}

abbrev pub Text : Type 0
Text = List ℕ

pub data IoOperation : Type 0 where
  read write flush discard other : IoOperation

abbrev operation_beq : IoOperation → IoOperation → Bool
operation_beq read read = true
operation_beq write write = true
operation_beq flush flush = true
operation_beq discard discard = true
operation_beq other other = true
operation_beq _ _ = false

pub operation_beq_iff : (a b : IoOperation) → (operation_beq a b ≡ true) ↔ (a ≡ b)
operation_beq_iff a b = ground arith

instance abbrev pub operation_eq : Eq IoOperation
operation_eq = record { test = operation_beq; decides = operation_beq_iff }

pub record BlockInsert : Type 0 where
  pub ts_ns : ℕ
  pub request_id : ℕ
  pub device_major : ℕ
  pub device_minor : ℕ
  pub sector : ℕ
  pub sectors : ℕ
  pub bytes : ℕ
  pub operation : IoOperation

pub record BlockIssue : Type 0 where
  pub ts_ns : ℕ
  pub request_id : ℕ
  pub device_major : ℕ
  pub device_minor : ℕ
  pub sector : ℕ
  pub sectors : ℕ
  pub bytes : ℕ
  pub operation : IoOperation
  pub pid : ℕ
  pub tid : ℕ
  pub cpu : ℕ
  pub comm : Text

pub record SchedulerIoWait : Type 0 where
  pub ts_ns : ℕ
  pub delay_ns : ℕ
  pub tid : ℕ
  pub pid : Option ℕ
  pub comm : Text
  pub cpu : Option ℕ
  pub source : Text

pub record BlockComplete : Type 0 where
  pub cpu : Option ℕ
  pub ts_ns : ℕ
  pub request_id : ℕ
  pub device_major : ℕ
  pub device_minor : ℕ
  pub status : ℤ

abbrev large_io_bytes : ℕ
large_io_bytes = 32768

pub data AccessPattern : Type 0 where
  unknown sequential random : AccessPattern

pub data IoSizeClass : Type 0 where
  small large : IoSizeClass

abbrev pattern_beq : AccessPattern → AccessPattern → Bool
pattern_beq unknown unknown = true
pattern_beq sequential sequential = true
pattern_beq random random = true
pattern_beq _ _ = false

pub pattern_beq_iff : (a b : AccessPattern) → (pattern_beq a b ≡ true) ↔ (a ≡ b)
pattern_beq_iff a b = ground arith

instance abbrev pub pattern_eq : Eq AccessPattern
pattern_eq = record { test = pattern_beq; decides = pattern_beq_iff }

abbrev size_beq : IoSizeClass → IoSizeClass → Bool
size_beq small small = true
size_beq large large = true
size_beq _ _ = false

pub size_beq_iff : (a b : IoSizeClass) → (size_beq a b ≡ true) ↔ (a ≡ b)
size_beq_iff a b = ground arith

instance abbrev pub size_eq : Eq IoSizeClass
size_eq = record { test = size_beq; decides = size_beq_iff }

unfoldable pub classify_size : ℕ → IoSizeClass
classify_size bytes = if leb large_io_bytes bytes then large else small
