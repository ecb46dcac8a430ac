-- ===== src/Events/Names.antt =====
-- Names and synthetic ids of nodes and edges (crates/protocol/src/lib.rs).
use android_ebpf_studio.Prelude.{
  ℕ, zero, suc, ◌+◌, ◌-◌, ◌*◌, ◌/◌, ◌%◌, ◌^◌, ℤ, pos, negsuc, [], ◌∷◌, ◌++◌, ltb, if◌then◌else◌,
  u64_size,
}
use Prim.Native.Nat.{bit_xor}
use android_ebpf_studio.Events.Block.{Text, IoOperation}
use android_ebpf_studio.Events.Text.{
  fd_text, read_text, write_text, flush_text, discard_text, other_text, file_operation_text,
  syscall_text, vfs_text, filesystem_text, page_cache_text, writeback_text, bio_text,
  block_queue_kind_text, block_request_kind_text, scsi_command_text, ufs_command_text,
  scheduler_context_text, uic_context_text,
}
use android_ebpf_studio.Events.Node.{IoNodeKind}

-- `{:?}` of an operation.
abbrev debug_operation : IoOperation → Text
debug_operation IoOperation.read = read_text
debug_operation IoOperation.write = write_text
debug_operation IoOperation.flush = flush_text
debug_operation IoOperation.discard = discard_text
debug_operation IoOperation.other = other_text

-- The decimal digits of a number in front of `rest`; a number has at most as many digits as the fuel
-- that `decimal` gives.
digits_before : ℕ → ℕ → Text → Text
digits_before zero n rest = rest
digits_before (suc fuel) n rest =
    let digit = n % 10 + 48 in
    let more = digits_before fuel (n / 10) (digit ∷ rest) in if ltb n 10 then digit ∷ rest else more

pub decimal : ℕ → Text
unfolding digits_before
decimal n = digits_before (suc n) n []

abbrev pub decimal_signed : ℤ → Text
decimal_signed (pos n) = decimal n
decimal_signed (negsuc n) = 45 ∷ decimal (suc n)

-- `format!("{:?} fd {}", operation, fd)`
pub file_name : IoOperation → ℤ → Text
unfolding decimal
file_name operation fd = debug_operation operation ++ (fd_text ++ decimal_signed fd)

-- `rotate_left` of a `u64`, by less than 64.
abbrev rotate_left : ℕ → ℕ → ℕ
rotate_left n bits = n * 2 ^ bits % u64_size + n / 2 ^ (64 - bits)

pub synthetic_node_id : ℕ → ℕ → ℕ
synthetic_node_id tag request_id =
    bit_xor (bit_xor (rotate_left request_id 17) (tag * 2 ^ 56)) 0x9e3779b97f4a7c15

pub block_request_node_id : ℕ → ℕ
unfolding synthetic_node_id
block_request_node_id request_id = synthetic_node_id 9 request_id

pub request_origin_node_id : ℕ → ℕ → ℕ
unfolding synthetic_node_id
request_origin_node_id request_id origin_id =
    synthetic_node_id 10 (bit_xor request_id (rotate_left origin_id 7))

pub request_origin_edge_id : ℕ → ℕ → ℕ
unfolding synthetic_node_id
request_origin_edge_id request_id origin_id =
    synthetic_node_id 20 (bit_xor request_id (rotate_left origin_id 13))

-- `{:?}` of a kind of node.
abbrev pub debug_kind : IoNodeKind → Text
debug_kind IoNodeKind.file_operation = file_operation_text
debug_kind IoNodeKind.syscall = syscall_text
debug_kind IoNodeKind.vfs = vfs_text
debug_kind IoNodeKind.filesystem = filesystem_text
debug_kind IoNodeKind.page_cache = page_cache_text
debug_kind IoNodeKind.writeback = writeback_text
debug_kind IoNodeKind.bio = bio_text
debug_kind IoNodeKind.block_queue = block_queue_kind_text
debug_kind IoNodeKind.block_request = block_request_kind_text
debug_kind IoNodeKind.scsi_command = scsi_command_text
debug_kind IoNodeKind.ufs_command = ufs_command_text
debug_kind IoNodeKind.scheduler_context = scheduler_context_text
debug_kind IoNodeKind.uic_context = uic_context_text
