-- ===== src/Correlator/Tests.antt =====
-- Runs of the correlator, and its theorems at concrete inputs (crates/protocol/src/lib.rs).
use android_ebpf_studio.Prelude.{◌≡◌, refl, ◌-◌, none, some, List, [], ◌∷◌, arith}
use android_ebpf_studio.Prelude.Dict.{lookup, insert, remove, retain}
use android_ebpf_studio.Samples.{issue_at, insert_at, complete_at}
use android_ebpf_studio.Events.Block.{AccessPattern}
use android_ebpf_studio.Events.Completed.{CompletedIo}
use android_ebpf_studio.Correlator.{
  new, key_eq, issue_key, on_insert, on_complete, on_issue_classified, expire_before, take_pending,
  pending_len,
}
use android_ebpf_studio.Correlator.Depth.{
  BlockEvent, inserts, issues, completes, step, run, IsCounted, run-IsCounted,
}
use android_ebpf_studio.Correlator.Match.{CompleteJudged, on_complete-Judged}
use android_ebpf_studio.Correlator.Reuse.{reuse-unpaired, issue_complete}

abbrev one_request : List BlockEvent
one_request = inserts (insert_at 80 1) ∷ issues (issue_at 100 1) AccessPattern.unknown ∷ []

on_complete-Judged_example :
    CompleteJudged
      (expire_before (run (new 1000) one_request) 150)
      (complete_at 150 1)
      (on_complete (run (new 1000) one_request) (complete_at 150 1))
on_complete-Judged_example = on_complete-Judged 1000 one_request (complete_at 150 1)

run-IsCounted_example : IsCounted (run (new 1000) one_request)
run-IsCounted_example = run-IsCounted 1000 one_request

abbrev a : AccessPattern
a = AccessPattern.unknown

reuse-unpaired_example :
    (on_complete
      (on_issue_classified
        (on_issue_classified (new 1000) (issue_at 100 1) a).0
        (issue_at 120 1)
        a).0
      (complete_at 150 1)).1
    ≡ none
reuse-unpaired_example =
    reuse-unpaired (new 1000) (issue_at 100 1) (issue_at 120 1) a a (complete_at 150 1) refl refl
      (omega arith) (omega arith)

no_pending : lookup (issue_key (issue_at 100 1)) (expire_before (new 1000) 100).pending ≡ none
unfolding expire_before retain lookup
no_pending = refl

no_ambiguous : lookup (issue_key (issue_at 100 1)) (expire_before (new 1000) 100).ambiguous ≡ none
unfolding expire_before retain lookup
no_ambiguous = refl

-- A clean request is taken, and its completion leaves nothing pending.
completes_pending :
    pending_len (step (run (new 1000) one_request) (completes (complete_at 150 1))) ≡ 0
unfolding run step on_insert on_issue_classified on_complete take_pending expire_before retain
    lookup insert remove
completes_pending = refl

issue_complete_example :
    (io : CompletedIo) × ((on_complete
        (on_issue_classified (new 1000) (issue_at 100 1) a).0
        (complete_at 150 1)).1
      ≡ some io)
    × (io.issue ≡ issue_at 100 1)
    × (io.completion ≡ complete_at 150 1)
    × (io.device_latency_ns ≡ some (150 - 100))
issue_complete_example =
    issue_complete (new 1000) (issue_at 100 1) a (complete_at 150 1) no_pending no_ambiguous refl
      (omega arith) (omega arith)
