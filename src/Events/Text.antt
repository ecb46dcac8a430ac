-- ===== src/Events/Text.antt =====
-- The text literals of crates/protocol/src/lib.rs that the models read or write, as lists of their
-- code points.
use android_ebpf_studio.Prelude.{[], ◌∷◌}
use android_ebpf_studio.Events.Block.{Text}

-- "direct bio file origin"
abbrev pub direct_origin_name : Text
direct_origin_name =
    100 ∷ 105 ∷ 114 ∷ 101 ∷ 99 ∷ 116 ∷ 32 ∷ 98 ∷ 105 ∷ 111 ∷ 32 ∷ 102 ∷ 105 ∷ 108 ∷ 101 ∷ 32 ∷ 111
    ∷ 114 ∷ 105 ∷ 103 ∷ 105 ∷ 110 ∷ []

-- "filesystem extent file origin"
abbrev pub extent_origin_name : Text
extent_origin_name =
    102 ∷ 105 ∷ 108 ∷ 101 ∷ 115 ∷ 121 ∷ 115 ∷ 116 ∷ 101 ∷ 109 ∷ 32 ∷ 101 ∷ 120 ∷ 116 ∷ 101 ∷ 110
    ∷ 116 ∷ 32 ∷ 102 ∷ 105 ∷ 108 ∷ 101 ∷ 32 ∷ 111 ∷ 114 ∷ 105 ∷ 103 ∷ 105 ∷ 110 ∷ []

-- "f2fs_extent_block_overlap"
abbrev pub extent_match : Text
extent_match =
    102 ∷ 50 ∷ 102 ∷ 115 ∷ 95 ∷ 101 ∷ 120 ∷ 116 ∷ 101 ∷ 110 ∷ 116 ∷ 95 ∷ 98 ∷ 108 ∷ 111 ∷ 99 ∷ 107
    ∷ 95 ∷ 111 ∷ 118 ∷ 101 ∷ 114 ∷ 108 ∷ 97 ∷ 112 ∷ []

-- "direct_bio_request_incomplete"
abbrev pub incomplete_match : Text
incomplete_match =
    100 ∷ 105 ∷ 114 ∷ 101 ∷ 99 ∷ 116 ∷ 95 ∷ 98 ∷ 105 ∷ 111 ∷ 95 ∷ 114 ∷ 101 ∷ 113 ∷ 117 ∷ 101 ∷ 115
    ∷ 116 ∷ 95 ∷ 105 ∷ 110 ∷ 99 ∷ 111 ∷ 109 ∷ 112 ∷ 108 ∷ 101 ∷ 116 ∷ 101 ∷ []

-- "direct_bio_request"
abbrev pub direct_match : Text
direct_match =
    100 ∷ 105 ∷ 114 ∷ 101 ∷ 99 ∷ 116 ∷ 95 ∷ 98 ∷ 105 ∷ 111 ∷ 95 ∷ 114 ∷ 101 ∷ 113 ∷ 117 ∷ 101 ∷ 115
    ∷ 116 ∷ []

-- "inferred_path_snapshot"
abbrev pub inferred_match : Text
inferred_match =
    105 ∷ 110 ∷ 102 ∷ 101 ∷ 114 ∷ 114 ∷ 101 ∷ 100 ∷ 95 ∷ 112 ∷ 97 ∷ 116 ∷ 104 ∷ 95 ∷ 115 ∷ 110 ∷ 97
    ∷ 112 ∷ 115 ∷ 104 ∷ 111 ∷ 116 ∷ []

-- " fd "
abbrev pub fd_text : Text
fd_text = 32 ∷ 102 ∷ 100 ∷ 32 ∷ []

-- "Read"
abbrev pub read_text : Text
read_text = 82 ∷ 101 ∷ 97 ∷ 100 ∷ []

-- "Write"
abbrev pub write_text : Text
write_text = 87 ∷ 114 ∷ 105 ∷ 116 ∷ 101 ∷ []

-- "Flush"
abbrev pub flush_text : Text
flush_text = 70 ∷ 108 ∷ 117 ∷ 115 ∷ 104 ∷ []

-- "Discard"
abbrev pub discard_text : Text
discard_text = 68 ∷ 105 ∷ 115 ∷ 99 ∷ 97 ∷ 114 ∷ 100 ∷ []

-- "Other"
abbrev pub other_text : Text
other_text = 79 ∷ 116 ∷ 104 ∷ 101 ∷ 114 ∷ []

-- "measured span"
abbrev pub measured_span : Text
measured_span = 109 ∷ 101 ∷ 97 ∷ 115 ∷ 117 ∷ 114 ∷ 101 ∷ 100 ∷ 32 ∷ 115 ∷ 112 ∷ 97 ∷ 110 ∷ []

-- "paired boundary"
abbrev pub paired_boundary : Text
paired_boundary =
    112 ∷ 97 ∷ 105 ∷ 114 ∷ 101 ∷ 100 ∷ 32 ∷ 98 ∷ 111 ∷ 117 ∷ 110 ∷ 100 ∷ 97 ∷ 114 ∷ 121 ∷ []

-- "context marker"
abbrev pub context_marker : Text
context_marker = 99 ∷ 111 ∷ 110 ∷ 116 ∷ 101 ∷ 120 ∷ 116 ∷ 32 ∷ 109 ∷ 97 ∷ 114 ∷ 107 ∷ 101 ∷ 114 ∷ []

-- "block queue"
abbrev pub block_queue_text : Text
block_queue_text = 98 ∷ 108 ∷ 111 ∷ 99 ∷ 107 ∷ 32 ∷ 113 ∷ 117 ∷ 101 ∷ 117 ∷ 101 ∷ []

-- "block device"
abbrev pub block_device_text : Text
block_device_text = 98 ∷ 108 ∷ 111 ∷ 99 ∷ 107 ∷ 32 ∷ 100 ∷ 101 ∷ 118 ∷ 105 ∷ 99 ∷ 101 ∷ []

-- "block_rq_insert → block_rq_issue"
abbrev pub queue_source : Text
queue_source =
    98 ∷ 108 ∷ 111 ∷ 99 ∷ 107 ∷ 95 ∷ 114 ∷ 113 ∷ 95 ∷ 105 ∷ 110 ∷ 115 ∷ 101 ∷ 114 ∷ 116 ∷ 32 ∷ 8594
    ∷ 32 ∷ 98 ∷ 108 ∷ 111 ∷ 99 ∷ 107 ∷ 95 ∷ 114 ∷ 113 ∷ 95 ∷ 105 ∷ 115 ∷ 115 ∷ 117 ∷ 101 ∷ []

-- "block_rq_issue → block_rq_complete"
abbrev pub device_source : Text
device_source =
    98 ∷ 108 ∷ 111 ∷ 99 ∷ 107 ∷ 95 ∷ 114 ∷ 113 ∷ 95 ∷ 105 ∷ 115 ∷ 115 ∷ 117 ∷ 101 ∷ 32 ∷ 8594 ∷ 32
    ∷ 98 ∷ 108 ∷ 111 ∷ 99 ∷ 107 ∷ 95 ∷ 114 ∷ 113 ∷ 95 ∷ 99 ∷ 111 ∷ 109 ∷ 112 ∷ 108 ∷ 101 ∷ 116 ∷ 101
    ∷ []

-- " observation "
abbrev pub observation_text : Text
observation_text = 32 ∷ 111 ∷ 98 ∷ 115 ∷ 101 ∷ 114 ∷ 118 ∷ 97 ∷ 116 ∷ 105 ∷ 111 ∷ 110 ∷ 32 ∷ []

-- " · "
abbrev pub dot_text : Text
dot_text = 32 ∷ 183 ∷ 32 ∷ []

-- "Exact"
abbrev pub exact_text : Text
exact_text = 69 ∷ 120 ∷ 97 ∷ 99 ∷ 116 ∷ []

-- "Probable"
abbrev pub probable_text : Text
probable_text = 80 ∷ 114 ∷ 111 ∷ 98 ∷ 97 ∷ 98 ∷ 108 ∷ 101 ∷ []

-- "ContextOnly"
abbrev pub context_only_text : Text
context_only_text = 67 ∷ 111 ∷ 110 ∷ 116 ∷ 101 ∷ 120 ∷ 116 ∷ 79 ∷ 110 ∷ 108 ∷ 121 ∷ []

-- "block request "
abbrev pub block_request_text : Text
block_request_text =
    98 ∷ 108 ∷ 111 ∷ 99 ∷ 107 ∷ 32 ∷ 114 ∷ 101 ∷ 113 ∷ 117 ∷ 101 ∷ 115 ∷ 116 ∷ 32 ∷ []

-- " (deleted)"
abbrev pub deleted_suffix : Text
deleted_suffix = 32 ∷ 40 ∷ 100 ∷ 101 ∷ 108 ∷ 101 ∷ 116 ∷ 101 ∷ 100 ∷ 41 ∷ []

-- "fd "
abbrev pub plain_fd_text : Text
plain_fd_text = 102 ∷ 100 ∷ 32 ∷ []

-- "unique_time_task_operation"
abbrev pub unique_match : Text
unique_match =
    117 ∷ 110 ∷ 105 ∷ 113 ∷ 117 ∷ 101 ∷ 95 ∷ 116 ∷ 105 ∷ 109 ∷ 101 ∷ 95 ∷ 116 ∷ 97 ∷ 115 ∷ 107 ∷ 95
    ∷ 111 ∷ 112 ∷ 101 ∷ 114 ∷ 97 ∷ 116 ∷ 105 ∷ 111 ∷ 110 ∷ []

-- "FileOperation"
abbrev pub file_operation_text : Text
file_operation_text = 70 ∷ 105 ∷ 108 ∷ 101 ∷ 79 ∷ 112 ∷ 101 ∷ 114 ∷ 97 ∷ 116 ∷ 105 ∷ 111 ∷ 110 ∷ []

-- "Syscall"
abbrev pub syscall_text : Text
syscall_text = 83 ∷ 121 ∷ 115 ∷ 99 ∷ 97 ∷ 108 ∷ 108 ∷ []

-- "Vfs"
abbrev pub vfs_text : Text
vfs_text = 86 ∷ 102 ∷ 115 ∷ []

-- "Filesystem"
abbrev pub filesystem_text : Text
filesystem_text = 70 ∷ 105 ∷ 108 ∷ 101 ∷ 115 ∷ 121 ∷ 115 ∷ 116 ∷ 101 ∷ 109 ∷ []

-- "PageCache"
abbrev pub page_cache_text : Text
page_cache_text = 80 ∷ 97 ∷ 103 ∷ 101 ∷ 67 ∷ 97 ∷ 99 ∷ 104 ∷ 101 ∷ []

-- "Writeback"
abbrev pub writeback_text : Text
writeback_text = 87 ∷ 114 ∷ 105 ∷ 116 ∷ 101 ∷ 98 ∷ 97 ∷ 99 ∷ 107 ∷ []

-- "Bio"
abbrev pub bio_text : Text
bio_text = 66 ∷ 105 ∷ 111 ∷ []

-- "BlockQueue"
abbrev pub block_queue_kind_text : Text
block_queue_kind_text = 66 ∷ 108 ∷ 111 ∷ 99 ∷ 107 ∷ 81 ∷ 117 ∷ 101 ∷ 117 ∷ 101 ∷ []

-- "BlockRequest"
abbrev pub block_request_kind_text : Text
block_request_kind_text = 66 ∷ 108 ∷ 111 ∷ 99 ∷ 107 ∷ 82 ∷ 101 ∷ 113 ∷ 117 ∷ 101 ∷ 115 ∷ 116 ∷ []

-- "ScsiCommand"
abbrev pub scsi_command_text : Text
scsi_command_text = 83 ∷ 99 ∷ 115 ∷ 105 ∷ 67 ∷ 111 ∷ 109 ∷ 109 ∷ 97 ∷ 110 ∷ 100 ∷ []

-- "UfsCommand"
abbrev pub ufs_command_text : Text
ufs_command_text = 85 ∷ 102 ∷ 115 ∷ 67 ∷ 111 ∷ 109 ∷ 109 ∷ 97 ∷ 110 ∷ 100 ∷ []

-- "SchedulerContext"
abbrev pub scheduler_context_text : Text
scheduler_context_text =
    83 ∷ 99 ∷ 104 ∷ 101 ∷ 100 ∷ 117 ∷ 108 ∷ 101 ∷ 114 ∷ 67 ∷ 111 ∷ 110 ∷ 116 ∷ 101 ∷ 120 ∷ 116 ∷ []

-- "UicContext"
abbrev pub uic_context_text : Text
uic_context_text = 85 ∷ 105 ∷ 99 ∷ 67 ∷ 111 ∷ 110 ∷ 116 ∷ 101 ∷ 120 ∷ 116 ∷ []
