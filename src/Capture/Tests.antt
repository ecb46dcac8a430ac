-- ===== src/Capture/Tests.antt =====
-- Runs of the validation, and its theorems at concrete inputs (crates/protocol/src/lib.rs).
use android_ebpf_studio.Prelude.{ℕ, ◌≡◌, refl, false, none, some, List, [], ◌∷◌, nat_eq}
use android_ebpf_studio.Capture.{
  CaptureMode, CaptureConfig, default_detail, err, duplicate_key, validate, key_count,
  any_duplicates,
}
use android_ebpf_studio.Capture.Validate.{Judged, validate-Judged}

-- A configuration that names one process twice.
abbrev doubled : CaptureConfig
doubled = record {
  generation = 1;
  mode = CaptureMode.balanced;
  filter = record {
    match_all = false;
    pids = 7 ∷ 7 ∷ [];
    tids = [];
    uids = [];
    devices = [];
    files = [];
    operations = [];
    min_bytes = none;
    max_bytes = some 4096;
  };
  detail = default_detail;
  trigger = none;
}

doubled_refused : validate doubled 16 ≡ err duplicate_key
unfolding validate key_count any_duplicates
doubled_refused = refl

validate-Judged_example : Judged doubled 16 (validate doubled 16)
validate-Judged_example = validate-Judged doubled 16

abbrev keys : List ℕ
keys = 7 ∷ 8 ∷ []
