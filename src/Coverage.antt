-- ===== src/Coverage.antt =====
-- crates/protocol/src/filepath_coverage.rs: the classification of completions by the file paths
-- that they originate from.
pub mod Confidence
pub mod Counters
mod Tests
use android_ebpf_studio.Prelude.{
  ℕ, ◌+◌, ◌-◌, ◌||◌, Bool, true, false, Option, none, some, List, [], ◌∷◌, ltb, if◌then◌else◌,
  length, ◌==◌, wrapping_add,
}
use android_ebpf_studio.Events.Block.{Text}
use android_ebpf_studio.Events.File.{PathSnapshot}
use android_ebpf_studio.Events.Node.{FileOriginView, EdgeConfidence, confidence_eq}
use android_ebpf_studio.Events.Completed.{CompletedIo, CompletionEvidence}

pub data FilePathConfidence : Type 0 where
  exact probable unresolved : FilePathConfidence

abbrev is_empty : Text → Bool
is_empty [] = true
is_empty (c ∷ cs) = false

abbrev text_missing : Option Text → Bool
text_missing none = true
text_missing (some t) = is_empty t

-- `path.as_ref().and_then(|p| p.path.as_deref()).is_none_or(str::is_empty)`
abbrev pub path_missing : Option PathSnapshot → Bool
path_missing none = true
path_missing (some p) = text_missing p.path

abbrev pub is_weak : FileOriginView → Bool
is_weak o = o.incomplete || path_missing o.path || o.confidence == EdgeConfidence.context_only

abbrev pub any_origin : (FileOriginView → Bool) → List FileOriginView → Bool
any_origin p [] = false
any_origin p (o ∷ os) = p o || any_origin p os

abbrev pub all_exact : List FileOriginView → Bool
all_exact [] = true
all_exact (o ∷ os) = if o.confidence == EdgeConfidence.exact then all_exact os else false

abbrev no_origins : List FileOriginView → Bool
no_origins [] = true
no_origins (o ∷ os) = false

pub from_origins : List FileOriginView → FilePathConfidence
from_origins os =
    if no_origins os || any_origin is_weak os
    then unresolved
    else if all_exact os
    then FilePathConfidence.exact
    else probable

pub record CoverageVolume : Type 0 where
  pub count : ℕ
  pub known_bytes : ℕ

abbrev observe_volume : CoverageVolume → ℕ → CoverageVolume
observe_volume v bytes = record {
  count = v.count + 1;
  known_bytes = wrapping_add v.known_bytes bytes;
}

abbrev zero_volume : CoverageVolume
zero_volume = record { count = 0; known_bytes = 0 }

pub record FilePathCoverage : Type 0 where
  pub exact : CoverageVolume
  pub probable : CoverageVolume
  pub unresolved : CoverageVolume
  pub multi_origin : CoverageVolume
  pub unmatched_completions : ℕ
  pub issue_events_without_completion : ℕ
  pub no_origin : ℕ
  pub missing_path : ℕ
  pub context_only : ℕ
  pub incomplete_origin_set : ℕ
  pub observation_without_file_identity : ℕ

abbrev pub empty : FilePathCoverage
empty = record {
  exact = zero_volume;
  probable = zero_volume;
  unresolved = zero_volume;
  multi_origin = zero_volume;
  unmatched_completions = 0;
  issue_events_without_completion = 0;
  no_origin = 0;
  missing_path = 0;
  context_only = 0;
  incomplete_origin_set = 0;
  observation_without_file_identity = 0;
}

abbrev pub completion_records : FilePathCoverage → ℕ
completion_records c = c.exact.count + c.probable.count + c.unresolved.count

abbrev pub known_bytes : FilePathCoverage → ℕ
known_bytes c =
    wrapping_add (wrapping_add c.exact.known_bytes c.probable.known_bytes) c.unresolved.known_bytes

abbrev pub has_evidence : Option CompletionEvidence → Bool
has_evidence none = false
has_evidence (some e) = true

-- The reason of an unresolved completion, the first that applies.
count_reason : FilePathCoverage → Bool → List FileOriginView → FilePathCoverage
count_reason c evidence os =
    if evidence
    then record c { observation_without_file_identity = c.observation_without_file_identity + 1 }
    else if no_origins os
    then record c { no_origin = c.no_origin + 1 }
    else if any_origin (λ o. o.incomplete) os
    then record c { incomplete_origin_set = c.incomplete_origin_set + 1 }
    else if any_origin (λ o. path_missing o.path) os
    then record c { missing_path = c.missing_path + 1 }
    else record c { context_only = c.context_only + 1 }

count_confidence :
    FilePathConfidence → FilePathCoverage → ℕ → Bool → List FileOriginView → FilePathCoverage
unfolding count_reason
count_confidence FilePathConfidence.exact c bytes evidence os = record c {
  exact = observe_volume c.exact bytes;
}
count_confidence probable c bytes evidence os = record c {
  probable = observe_volume c.probable bytes;
}
count_confidence unresolved c bytes evidence os =
    count_reason (record c { unresolved = observe_volume c.unresolved bytes }) evidence os

pub observe : FilePathCoverage → CompletedIo → List FileOriginView → FilePathCoverage
unfolding from_origins count_confidence
observe c io os =
    let bytes = io.issue.bytes in
    let d =
      if ltb 1 (length os)
      then record c { multi_origin = observe_volume c.multi_origin bytes }
      else c in
    count_confidence (from_origins os) d bytes (has_evidence io.evidence) os

-- The loop of `finish_with` over the completed requests, each with the origins that the graph gives
-- for it, and a check before each that may stop with an error. The origins come from the caller.
pub data Finished (E : Type 0) : Type 0 where
  ok : FilePathCoverage → Finished E
  err : E → Finished E

module _ {E : Type 0} where
  pub observe_all :
      List (Option E × CompletedIo × List FileOriginView) → FilePathCoverage → Finished E
  observe_all [] c = ok c
  observe_all ((some e, io, os) ∷ rest) c = err e
  observe_all ((none, io, os) ∷ rest) c = observe_all rest (observe c io os)

  -- The two counters that are set at the end, from the engine's summary.
  close : ℕ → ℕ → ℕ → Finished E → Finished E
  close unmatched issued completed (err e) = err e
  close unmatched issued completed (ok c) = ok (record c {
    unmatched_completions = unmatched;
    unresolved = record c.unresolved { count = c.unresolved.count + unmatched };
    issue_events_without_completion = issued - completed;
  })

  pub finish_with :
      FilePathCoverage
      → List (Option E × CompletedIo × List FileOriginView)
      → ℕ
      → ℕ
      → ℕ
      → Finished E
  unfolding observe_all close
  finish_with c completed unmatched issued_ios completed_ios =
      close unmatched issued_ios completed_ios (observe_all completed c)
