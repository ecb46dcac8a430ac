-- ===== src/Classifier/Tests.antt =====
-- Runs of the classifier, and its theorem at a concrete input (crates/protocol/src/lib.rs).
use android_ebpf_studio.Prelude.{◌≡◌, refl, [], ◌∷◌}
use android_ebpf_studio.Prelude.Dict.{lookup, insert}
use android_ebpf_studio.Samples.{issue_at}
use android_ebpf_studio.Events.Block.{BlockIssue, sequential}
use android_ebpf_studio.Classifier.{stream_eq, stream_key, classify}
use android_ebpf_studio.Classifier.History.{after, last_of, Expected, classify-Expected}

-- The request behind that of `issue_at`.
abbrev next_issue : BlockIssue
next_issue = record (issue_at 200 2) { sector = 72 }

next_sequential : (classify (after (issue_at 100 1 ∷ [])) next_issue).1 ≡ sequential
unfolding classify after lookup insert
next_sequential = refl

classify-Expected_example :
    Expected
      (last_of (stream_key next_issue) (issue_at 100 1 ∷ []))
      next_issue
      (classify (after (issue_at 100 1 ∷ [])) next_issue).1
classify-Expected_example = classify-Expected (issue_at 100 1 ∷ []) next_issue
