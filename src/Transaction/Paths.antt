-- ===== src/Transaction/Paths.antt =====
-- `recorded_file_path` and `inferred_origin_path`: the path that the file operations around a request
-- give to one of its nodes (crates/protocol/src/lib.rs).
use android_ebpf_studio.Prelude.{
  ℕ, ◌-◌, ◌&&◌, ◌||◌, Bool, true, false, not, Option, none, some, List, [], ◌∷◌, ltb, leb, eqb,
  if◌then◌else◌, length, drop, saturating_add, ◌==◌, nat_eq, option_eq, list_eq,
}
use android_ebpf_studio.Events.Block.{Text, IoOperation, operation_eq}
use android_ebpf_studio.Events.Text.{deleted_suffix}
use android_ebpf_studio.Events.File.{
  FileIdentity, FileIo, PathSnapshot, PathSource, file_identities_compatible,
}
use android_ebpf_studio.Events.Node.{IoNode}
use android_ebpf_studio.Correlator.{is_some}
use android_ebpf_studio.Pipeline.{filter}

-- `filter(|path| !path.is_empty())`
abbrev pub non_empty : Option Text → Option Text
non_empty (some []) = none
non_empty o = o

abbrev pub or_else {ℓ} : {A : Type ℓ} → Option A → Option A → Option A
or_else none b = b
or_else (some a) b = some a

abbrev pub snapshot_path : Option PathSnapshot → Option Text
snapshot_path none = none
snapshot_path (some s) = s.path

unfoldable pub recorded_file_path : FileIo → Option Text
recorded_file_path file =
    or_else (non_empty (snapshot_path file.path_snapshot)) (non_empty file.path)

-- `str::ends_with`
abbrev pub ends_with : Text → Text → Bool
ends_with suffix text =
    leb (length suffix) (length text) && drop (length text - length suffix) text == suffix

abbrev compatible_with : FileIdentity → Option FileIdentity → Bool
compatible_with identity none = false
compatible_with identity (some candidate) = file_identities_compatible candidate identity

abbrev margin_ns : ℕ
margin_ns = 30000000000

-- A file operation on the same file, within 30 s of the request, that has a path.
unfoldable pub is_path_candidate : FileIdentity → ℕ → ℕ → FileIo → Bool
is_path_candidate identity block_start block_end file =
    compatible_with identity file.file_identity
    && leb file.start_ts_ns (saturating_add block_end margin_ns)
    && leb block_start (saturating_add file.end_ts_ns margin_ns)
    && is_some (recorded_file_path file)

abbrev same_operation : Option IoOperation → IoOperation → Bool
same_operation none o = true
same_operation (some p) o = p == o

-- The operation spans the start of the node, on its thread.
unfoldable pub is_contemporaneous : IoNode → FileIo → Bool
is_contemporaneous node file =
    leb file.start_ts_ns node.start_ts_ns
    && leb node.start_ts_ns file.end_ts_ns
    && (eqb node.pid 0 || eqb node.pid file.pid)
    && (eqb node.tid 0 || eqb node.tid file.tid)
    && same_operation node.operation file.operation

-- `if contemporaneous.is_empty() { &candidates } else { &contemporaneous }`
abbrev pub prefer : List FileIo → List FileIo → List FileIo
prefer [] candidates = candidates
prefer (f ∷ fs) candidates = f ∷ fs

unfoldable pub eligible_files : IoNode → FileIdentity → List FileIo → ℕ → ℕ → List FileIo
eligible_files node identity files block_start block_end =
    let candidates = filter (is_path_candidate identity block_start block_end) files in
    prefer (filter (is_contemporaneous node) candidates) candidates

abbrev pub later_of : FileIo → Option FileIo → Option FileIo
later_of f none = some f
later_of f (some g) = if ltb g.end_ts_ns f.end_ts_ns then some f else some g

-- `max_by_key(end_ts_ns)`: the last of the greatest.
unfoldable pub latest_file : List FileIo → Option FileIo
latest_file [] = none
latest_file (f ∷ fs) = later_of f (latest_file fs)

-- `eligible.iter().any(|candidate| recorded_file_path(candidate) != Some(path))`
unfoldable pub any_other_path : Text → List FileIo → Bool
any_other_path path [] = false
any_other_path path (f ∷ fs) = not (recorded_file_path f == some path) || any_other_path path fs

-- The snapshot with a path that is not empty, or one of the path itself.
abbrev pub path_from : FileIo → Text → Option PathSnapshot → PathSnapshot
path_from file path none = record {
  path = some path;
  source = PathSource.proc_fd;
  captured_ts_ns = file.end_ts_ns;
  deleted = ends_with deleted_suffix path;
}
path_from file path (some s) = s

abbrev pub usable : Option PathSnapshot → Option PathSnapshot
usable none = none
usable (some s) = if is_some (non_empty s.path) then some s else none

abbrev pub unanimous : List FileIo → FileIo → Option Text → Option PathSnapshot
unanimous eligible file none = none
unanimous eligible file (some path) =
    if any_other_path path eligible
    then none
    else some (path_from file path (usable file.path_snapshot))

abbrev pub from_latest : List FileIo → Option FileIo → Option PathSnapshot
from_latest eligible none = none
from_latest eligible (some file) = unanimous eligible file (recorded_file_path file)

abbrev pub inferred_for : IoNode → Option FileIdentity → List FileIo → ℕ → ℕ → Option PathSnapshot
inferred_for node none files block_start block_end = none
inferred_for node (some identity) files block_start block_end =
    let eligible = eligible_files node identity files block_start block_end in
    from_latest eligible (latest_file eligible)

unfoldable pub inferred_origin_path : IoNode → List FileIo → ℕ → ℕ → Option PathSnapshot
inferred_origin_path node files block_start block_end =
    inferred_for node node.file files block_start block_end
