-- ===== src/Classifier.antt =====
-- crates/protocol/src/lib.rs: `SequentialClassifier`.
mod Tests
pub mod History
use android_ebpf_studio.Prelude.{
  ℕ, ◌+◌, ◌≡◌, refl, ◌↔◌, ◌&&◌, Bool, true, false, Option, none, some, List, [], ◌∷◌, arith,
  if◌then◌else◌, Eq, ◌==◌, nat_eq, option_eq, checked_add,
}
use android_ebpf_studio.Prelude.Dict.{lookup, insert}
use android_ebpf_studio.Events.Block.{
  IoOperation, operation_eq, BlockIssue, AccessPattern, unknown, sequential, random,
}

pub record StreamKey : Type 0 where
  pub device_major : ℕ
  pub device_minor : ℕ
  pub operation : IoOperation

abbrev stream_beq : StreamKey → StreamKey → Bool
stream_beq a b =
    a.device_major == b.device_major
    && a.device_minor == b.device_minor
    && a.operation == b.operation

pub stream_beq_iff : (a b : StreamKey) → (stream_beq a b ≡ true) ↔ (a ≡ b)
stream_beq_iff a b = ground (arith, operation_eq.decides a.operation b.operation)

instance abbrev pub stream_eq : Eq StreamKey
stream_eq = record { test = stream_beq; decides = stream_beq_iff }

pub record LastAccess : Type 0 where
  pub sector : ℕ
  pub sectors : ℕ

abbrev pub Streams : Type 0
Streams = List (StreamKey × LastAccess)

abbrev pub stream_key : BlockIssue → StreamKey
stream_key v = record {
  device_major = v.device_major;
  device_minor = v.device_minor;
  operation = v.operation;
}

abbrev pub access_of : BlockIssue → LastAccess
access_of v = record { sector = v.sector; sectors = v.sectors }

-- The `match` on the access that the insertion replaced.
abbrev pub pattern_after : Option LastAccess → ℕ → AccessPattern
pattern_after none sector = unknown
pattern_after (some p) sector =
    if checked_add p.sector p.sectors == some sector then sequential else random

unfoldable pub classify : Streams → BlockIssue → Streams × AccessPattern
classify streams issue = (
  insert (stream_key issue) (access_of issue) streams,
  pattern_after (lookup (stream_key issue) streams) issue.sector,
)
