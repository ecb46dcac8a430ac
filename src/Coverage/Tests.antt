-- ===== src/Coverage/Tests.antt =====
-- Runs of the coverage, and its theorems at concrete inputs
-- (crates/protocol/src/filepath_coverage.rs).
use android_ebpf_studio.Prelude.{arith, ℕ, ◌≡◌, refl, ◌-◌, none, some, List, [], ◌∷◌}
use android_ebpf_studio.Samples.{completed, origin_with, named_path}
use android_ebpf_studio.Events.Node.{FileOriginView, EdgeConfidence}
use android_ebpf_studio.Coverage.{probable, from_origins, empty, finish_with}
use android_ebpf_studio.Coverage.Confidence.{Classified, from_origins-Classified}
use android_ebpf_studio.Coverage.Counters.{Item, Outcome, finish_with-Outcome}

abbrev exact_origin : FileOriginView
exact_origin = origin_with EdgeConfidence.exact (some named_path)

abbrev probable_origin : FileOriginView
probable_origin = origin_with EdgeConfidence.probable (some named_path)

mixed_probable : from_origins (exact_origin ∷ probable_origin ∷ []) ≡ probable
unfolding from_origins
mixed_probable = refl

from_origins-Classified_example :
    Classified
      (exact_origin ∷ probable_origin ∷ [])
      (from_origins (exact_origin ∷ probable_origin ∷ []))
from_origins-Classified_example = from_origins-Classified (exact_origin ∷ probable_origin ∷ [])

-- A request with two origins, and one without.
abbrev requests : List (Item ℕ)
requests = (none, completed, exact_origin ∷ probable_origin ∷ []) ∷ (none, completed, []) ∷ []

finish_with-Outcome_example : Outcome 0 0 0 requests 3 (5 - 2) (finish_with empty requests 3 5 2)
finish_with-Outcome_example = finish_with-Outcome empty requests 0 0 0 3 5 2 (record {
  records = refl;
  words = (omega arith, omega arith, omega arith);
  volume = refl;
  explained = refl;
  shared = refl;
})
