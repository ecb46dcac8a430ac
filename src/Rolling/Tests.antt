-- ===== src/Rolling/Tests.antt =====
-- Runs of the rolling rate, and its theorems at concrete inputs (crates/protocol/src/rolling.rs).
use android_ebpf_studio.Prelude.{◌≡◌, refl, some, List, [], ◌∷◌, ◌++◌, replicate}
use android_ebpf_studio.Rolling.{
  Sample, empty, observe, push_back, age_out, pop_front, measured_rate, mib_s,
}
use android_ebpf_studio.Rolling.Window.{recent, after, window_rate, observe-window}

abbrev sample : Sample
sample = (some 10, some 4096)

abbrev warm : List Sample
warm = replicate 64 sample

-- 63 observations and one more give the first rate.
first_rate :
    (observe (after empty (replicate 63 sample)) (some 10) (some 4096)).1
    ≡ some (record { payload_bytes = 262144; duration_ns = 640; observations = 64 })
unfolding after observe push_back age_out pop_front measured_rate mib_s
first_rate = refl

observe-window_example :
    (observe (after empty warm) (some 20) (some 512)).1
    ≡ window_rate (recent (warm ++ (some 20, some 512) ∷ []))
observe-window_example = observe-window warm (some 20, some 512)

evicts : (push_back (after empty warm) sample).samples ≡ sample ∷ replicate 64 sample
unfolding after observe push_back age_out pop_front
evicts = refl
