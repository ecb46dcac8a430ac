-- ===== src/Events/File.antt =====
-- File identities, paths and file I/O records (crates/protocol/src/lib.rs).
pub mod Compatible
use android_ebpf_studio.Prelude.{
  ℕ, ℤ, ◌≡◌, ◌↔◌, Bool, true, ◌&&◌, Option, some, arith, Eq, ◌==◌, nat_eq, pair_eq, option_eq,
}
use android_ebpf_studio.Events.Block.{Text, IoOperation}

pub data AttributionConfidence : Type 0 where
  unknown attributed exact system : AttributionConfidence

pub record FileIdentity : Type 0 where
  pub fs_device_major : ℕ
  pub fs_device_minor : ℕ
  pub inode : ℕ
  pub inode_generation : Option ℕ
  pub mount_id : Option ℕ

abbrev identity_beq : FileIdentity → FileIdentity → Bool
identity_beq a b =
    a.fs_device_major == b.fs_device_major
    && a.fs_device_minor == b.fs_device_minor
    && a.inode == b.inode
    && a.inode_generation == b.inode_generation
    && a.mount_id == b.mount_id

pub identity_beq_iff : (a b : FileIdentity) → (identity_beq a b ≡ true) ↔ (a ≡ b)
identity_beq_iff a b = ground (
  arith,
  option_eq.decides a.inode_generation b.inode_generation,
  option_eq.decides a.mount_id b.mount_id,
)

instance abbrev pub identity_eq : Eq FileIdentity
identity_eq = record { test = identity_beq; decides = identity_beq_iff }

pub data PathSource : Type 0 where
  bpf_d_path proc_fd inode_only unavailable : PathSource

pub record PathSnapshot : Type 0 where
  pub path : Option Text
  pub source : PathSource
  pub captured_ts_ns : ℕ
  pub deleted : Bool

pub data FileIoMode : Type 0 where
  unknown buffered direct sync : FileIoMode

pub record FileIo : Type 0 where
  pub start_ts_ns : ℕ
  pub end_ts_ns : ℕ
  pub operation : IoOperation
  pub fd : ℤ
  pub requested_bytes : ℕ
  pub completed_bytes : ℤ
  pub pid : ℕ
  pub tid : ℕ
  pub comm : Text
  pub path : Option Text
  pub confidence : AttributionConfidence
  pub file_identity : Option FileIdentity
  pub path_snapshot : Option PathSnapshot
  pub offset : Option ℕ
  pub io_mode : FileIoMode
  pub node_id : Option ℕ

abbrev pub file_identity_base_key : FileIdentity → (ℕ × ℕ) × ℕ
file_identity_base_key identity =
    ((identity.fs_device_major, identity.fs_device_minor), identity.inode)

-- Two optional values that are both present and differ are in conflict.
abbrev agree : Option ℕ → Option ℕ → Bool
agree (some left) (some right) = left == right
agree _ _ = true

pub file_identities_compatible : FileIdentity → FileIdentity → Bool
file_identities_compatible left right =
    file_identity_base_key left == file_identity_base_key right
    && agree left.inode_generation right.inode_generation
    && agree left.mount_id right.mount_id
