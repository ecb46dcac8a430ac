-- ===== src/Rolling.antt =====
-- crates/protocol/src/rolling.rs: the rolling rate of the last 64 observations of a device.
pub mod Window
mod Tests
use android_ebpf_studio.Prelude.{
  ℕ, ◌+◌, ◌-◌, ◌*◌, ◌||◌, ◌&&◌, Bool, true, false, not, Option, none, some, List, [], ◌∷◌, ◌++◌,
  ltb, eqb, leb, if◌then◌else◌, length, to_u64,
}

abbrev rolling_observations : ℕ
rolling_observations = 64

pub record RollingRate : Type 0 where
  pub payload_bytes : ℕ
  pub duration_ns : ℕ
  pub observations : ℕ

-- The rate in MiB/s as an exact fraction, numerator and denominator: rounding to `f64` is left out.
pub mib_s : RollingRate → Option (ℕ × ℕ)
mib_s r =
    if ltb 0 r.duration_ns
    then some (r.payload_bytes * 1000000000, r.duration_ns * 1048576)
    else none

abbrev pub Sample : Type 0
Sample = Option ℕ × Option ℕ

-- The oldest sample stands first, as at the front of the `VecDeque`.
pub record RollingRateAccumulator : Type 0 where
  pub samples : List Sample
  pub duration : ℕ
  pub bytes : ℕ
  pub missing : ℕ

abbrev pub empty : RollingRateAccumulator
empty = record { samples = []; duration = 0; bytes = 0; missing = 0 }

abbrev pub or_zero : Option ℕ → ℕ
or_zero none = 0
or_zero (some n) = n

abbrev pub is_none : Option ℕ → Bool
is_none none = true
is_none (some n) = false

-- `usize::from(gap.is_none() || payload.is_none())`
abbrev pub missing_count : Sample → ℕ
missing_count s = if is_none s.0 || is_none s.1 then 1 else 0

pub push_back : RollingRateAccumulator → Sample → RollingRateAccumulator
push_back a s = record {
  samples = a.samples ++ s ∷ [];
  duration = a.duration + or_zero s.0;
  bytes = a.bytes + or_zero s.1;
  missing = a.missing + missing_count s;
}

-- `-=` on the unsigned totals: `Window.totals-evicted` shows that none of them wraps. The empty
-- case, where the source would panic on `unwrap`, is behind a length above 64.
pub pop_front : List Sample → RollingRateAccumulator → RollingRateAccumulator
pop_front [] a = a
pop_front (s ∷ rest) a = record {
  samples = rest;
  duration = a.duration - or_zero s.0;
  bytes = a.bytes - or_zero s.1;
  missing = a.missing - missing_count s;
}

pub age_out : RollingRateAccumulator → RollingRateAccumulator
unfolding pop_front
age_out a = if ltb rolling_observations (length a.samples) then pop_front a.samples a else a

-- `rate.mib_s().map(|_| rate)`
abbrev when_rated : RollingRate → Option (ℕ × ℕ) → Option RollingRate
when_rated r none = none
when_rated r (some f) = some r

abbrev with_totals : ℕ → Option ℕ → Option ℕ → Option RollingRate
with_totals n none duration = none
with_totals n (some bytes) none = none
with_totals n (some bytes) (some duration) =
    let r : RollingRate = record {
      payload_bytes = bytes;
      duration_ns = duration;
      observations = n;
    } in
    when_rated r (mib_s r)

pub measured_rate : RollingRateAccumulator → Option RollingRate
unfolding mib_s
measured_rate a =
    if not (eqb (length a.samples) rolling_observations) || ltb 0 a.missing
    then none
    else with_totals (length a.samples) (to_u64 a.bytes) (to_u64 a.duration)

pub observe :
    RollingRateAccumulator → Option ℕ → Option ℕ → RollingRateAccumulator × Option RollingRate
unfolding push_back age_out measured_rate
observe a gap payload = let b = age_out (push_back a (gap, payload)) in (b, measured_rate b)
