-- ===== src/Samples.antt =====
-- Small events, nodes, edges and origins that the runs of several modules share.
use android_ebpf_studio.Prelude.{ℕ, false, Option, none, some, [], ◌∷◌, pos}
use android_ebpf_studio.Events.Block.{
  IoOperation, BlockInsert, BlockIssue, BlockComplete, AccessPattern, IoSizeClass,
}
use android_ebpf_studio.Events.File.{
  FileIdentity, PathSource, PathSnapshot, FileIo, FileIoMode, AttributionConfidence,
}
use android_ebpf_studio.Events.Node.{
  IoNodeKind, IoOrigin, EdgeConfidence, IoRelation, IoNode, IoEdge, exact_edge, FileOriginView,
}
use android_ebpf_studio.Events.Pipeline.{
  PipelineObservation, PipelinePhase, PipelineLayer, CorrelationConfidence,
}
use android_ebpf_studio.Events.Completed.{CompletedIo}

-- A read of 8 sectors at sector 64 of the device 8:0.
abbrev pub issue_at : ℕ → ℕ → BlockIssue
issue_at ts_ns request_id = record {
  ts_ns = ts_ns;
  request_id = request_id;
  device_major = 8;
  device_minor = 0;
  sector = 64;
  sectors = 8;
  bytes = 4096;
  operation = IoOperation.read;
  pid = 10;
  tid = 11;
  cpu = 0;
  comm = [];
}

abbrev pub insert_at : ℕ → ℕ → BlockInsert
insert_at ts_ns request_id = record {
  ts_ns = ts_ns;
  request_id = request_id;
  device_major = 8;
  device_minor = 0;
  sector = 64;
  sectors = 8;
  bytes = 4096;
  operation = IoOperation.read;
}

abbrev pub complete_at : ℕ → ℕ → BlockComplete
complete_at ts_ns request_id = record {
  cpu = none;
  ts_ns = ts_ns;
  request_id = request_id;
  device_major = 8;
  device_minor = 0;
  status = pos 0;
}

abbrev pub completed : CompletedIo
completed = record {
  insert = none;
  issue = issue_at 100 1;
  completion = complete_at 150 1;
  latency_ns = some 50;
  queue_latency_ns = none;
  device_latency_ns = some 50;
  total_latency_ns = some 50;
  queue_depth_at_issue = some 1;
  queue_depth_after = some 0;
  detail_timing = record {
    issue_depth = some 1;
    issue_gap_ns = none;
    completion_gap_ns = none;
    issue_bandwidth = none;
    completion_bandwidth = none;
  };
  access_pattern = AccessPattern.unknown;
  size_class = IoSizeClass.small;
  evidence = none;
}

abbrev pub file : FileIdentity
file = record {
  fs_device_major = 8;
  fs_device_minor = 1;
  inode = 77;
  inode_generation = none;
  mount_id = none;
}

abbrev pub named_path : PathSnapshot
named_path = record {
  path = some (47 ∷ 97 ∷ []);
  source = PathSource.proc_fd;
  captured_ts_ns = 90;
  deleted = false;
}

abbrev pub origin_with : EdgeConfidence → Option PathSnapshot → FileOriginView
origin_with confidence path = record {
  file = file;
  path = path;
  confidence = confidence;
  incomplete = false;
}

abbrev pub node_at : ℕ → ℕ → IoNode
node_at id start = record {
  node_id = id;
  transaction_id = none;
  kind = IoNodeKind.bio;
  start_ts_ns = start;
  end_ts_ns = none;
  origin = IoOrigin.file;
  file = none;
  path = none;
  operation = none;
  bytes = none;
  pid = 10;
  tid = 11;
  name = [];
}

abbrev pub edge_of : ℕ → ℕ → ℕ → IoEdge
edge_of id from to = exact_edge id from to IoRelation.submits

-- A block-layer observation of the request of `completed`, from its begin to its end.
abbrev pub observed : PipelineObservation
observed = record {
  ts_ns = 90;
  operation = some IoOperation.read;
  end_ts_ns = some 120;
  phase = PipelinePhase.span;
  layer = PipelineLayer.block_queue;
  correlation_id = some 1;
  stage_key = none;
  sector = some 64;
  bytes = some 4096;
  opcode = none;
  status = none;
  pid = 10;
  tid = 11;
  name = [];
  confidence = CorrelationConfidence.exact;
}

-- The begin and the end of one stage.
abbrev pub stage_begin : ℕ → PipelineObservation
stage_begin ts = record observed {
  ts_ns = ts;
  end_ts_ns = none;
  phase = PipelinePhase.begin;
  stage_key = some 5;
}

abbrev pub stage_end : ℕ → PipelineObservation
stage_end ts = record observed {
  ts_ns = ts;
  end_ts_ns = none;
  phase = PipelinePhase.end;
  stage_key = some 5;
}

-- A read of the file that contains the request of `completed`.
abbrev pub file_read : FileIo
file_read = record {
  start_ts_ns = 80;
  end_ts_ns = 160;
  operation = IoOperation.read;
  fd = pos 3;
  requested_bytes = 4096;
  completed_bytes = pos 4096;
  pid = 10;
  tid = 11;
  comm = [];
  path = none;
  confidence = AttributionConfidence.exact;
  file_identity = some file;
  path_snapshot = some named_path;
  offset = none;
  io_mode = FileIoMode.buffered;
  node_id = none;
}
