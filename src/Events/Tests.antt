-- ===== src/Events/Tests.antt =====
-- The theorems on wire data at concrete inputs (crates/protocol/src/lib.rs).
use android_ebpf_studio.Prelude.{some}
use android_ebpf_studio.Samples.{file}
use android_ebpf_studio.Events.File.{FileIdentity}

-- The file of the samples, seen with its mount.
abbrev mounted : FileIdentity
mounted = record file { mount_id = some 5 }
