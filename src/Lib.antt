-- ===== src/Lib.antt =====
-- The storage-event protocol and analysis core of Android eBPF Studio, the crate crates/protocol.
--
-- An agent on the phone records block requests, file operations and pipeline stages, and writes them
-- as the lines of a session. The desktop reads the lines, pairs the events of each block request,
-- classifies and counts the completed requests, and joins them to graphs of nodes and edges, whose
-- time it accounts. This library models that core as executable functions, one module a component:
--
--   Events (crates/protocol/src/lib.rs): the wire data: block events (Block), files (File), nodes and
--     edges (Node), pipeline stages (Pipeline), CompletedIo with its accessors (Completed), the text
--     constants (Text), and names and synthetic ids (Names).
--   Wire, Session (crates/protocol/src/lib.rs): the records of a session, and SessionReader: visit, a
--     loop over the bytes of the input, and read_events and read, which sort the records.
--   Correlator (crates/protocol/src/lib.rs): RequestCorrelator, with on_insert, on_issue_classified,
--     on_complete and expire_before as functions from the state to the state and the answer.
--   Classifier (crates/protocol/src/lib.rs): SequentialClassifier::classify.
--   Rolling (crates/protocol/src/rolling.rs): RollingRateAccumulator::observe, which the correlator
--     keeps one of for each device and direction.
--   Histogram, Stats (crates/protocol/src/lib.rs): Histogram, and the helpers on exact samples:
--     percentile, evenly_sample_refs, bounded_push and time_buckets.
--   Adaptive, Capture (crates/protocol/src/lib.rs): AdaptiveController, and CaptureConfig::validate,
--     which asks the controller's constructor about the trigger policy.
--   Graph (crates/protocol/src/lib.rs): IoTransactionGraph: add_node, add_edge and reachable,
--     file_origins_for (Origins), and the time fields of its metrics (Metrics).
--   Pipeline (crates/protocol/src/lib.rs): build_io_pipeline, the spans of one request.
--   Transaction (crates/protocol/src/lib.rs): build_transaction_graph: the request and its file
--     (Request), the spans and the raw nodes and edges (Spans), and inferred_origin_path (Paths).
--   Engine (crates/protocol/src/lib.rs): AnalysisEngine. State holds the state and
--     record_completed, Blocks and Ingest the handlers of the events, with the pairing of stages
--     in Pairing; Index and Evidence hold AnalysisIndex::build and the lookups of evidence;
--     Derived holds pipeline_for, transaction_for and why_slow, and Summary the summaries and
--     select_completed. Ordered models the BTreeMaps. The engine calls the correlator, the
--     classifier, the histograms and both builders.
--   Intervals (crates/protocol/src/lib.rs): union_duration, uncovered_intervals and merge_interval.
--   Coverage (crates/protocol/src/filepath_coverage.rs): FilePathConfidence and FilePathCoverage.
--   Prelude holds what the modules share: Boolean tests on native numbers, lists, keys with an
--     equality test, membership, and association lists for the hash maps. Samples holds test data.
--
-- Conventions. A mutating method returns the new state beside its answer. Unsigned words are
-- natural numbers: saturating and checked operations keep their bounds, saturating_sub is the
-- truncated subtraction, and plain additions are unbounded where the source counts events (the
-- counters of the correlator, of the coverage and of the engine) or adds in 128 bits (the rolling
-- totals); the byte sums of the engine and of the coverage wrap at 2^64. Text is the list of its
-- code points. A reason that the source writes as a string is a constructor. HashMap is an association list; no
-- modelled function depends on its order. A rate in floating point is the pair of its operands,
-- since only its presence is observed. A cache behind a RefCell is a field of the engine, and a
-- method that fills it returns the engine beside its answer; the list of positions in an index
-- holds no position outside of its list, so that a position without a value gives none. Where the
-- source would panic on an index, in a Histogram whose counts do not fit its boundaries, the
-- model gives a default.
--
-- Fuel. IoTransactionGraph::reachable runs on two rounds more than the graph has edges,
-- SessionReader::visit on one round more than the input has bytes, and file_origins_for on four
-- rounds for each edge and two more, since a node is visited once with each of four confidences;
-- each is shown to suffice, and running out is a value of its own.
--
-- Parameters. serde_json is a function from the bytes of a line to an optional record; no
-- hypothesis on it is needed. The visitors of SessionReader, the predicate of select_completed,
-- and the origins that finish_with takes from the graphs of the analysis engine, are arguments.
--
-- Not modelled: buckets, whose averages are floating-point numbers, the graph's exclusive times
-- and longest_path, serialization, the agent, the eBPF programs and the desktop: the last are
-- input and output, kernel code and drawing.
mod Prelude
pub mod Events
pub mod Rolling
pub mod Histogram
pub mod Adaptive
pub mod Capture
pub mod Graph
pub mod Intervals
pub mod Correlator
pub mod Coverage
pub mod Classifier
pub mod Stats
pub mod Wire
pub mod Pipeline
pub mod Transaction
pub mod Engine
pub mod Session
mod Samples
