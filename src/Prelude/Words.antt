-- ===== src/Prelude/Words.antt =====
-- Unsigned machine words: `saturating_add`, `saturating_sub`, `checked_sub` and `checked_add` of
-- `u64`. `saturating_sub` is the truncated subtraction of ℕ, and is written `-`.
use Prim.Native.Nat.{ℕ, ◌+◌, ◌-◌, ◌%◌, min}
use mathlib.Core.Option.{Option, none, some}
use android_ebpf_studio.Prelude.Tests.{leb, if◌then◌else◌}

abbrev pub u64_max : ℕ
u64_max = 18446744073709551615

abbrev pub u64_size : ℕ
u64_size = 18446744073709551616

-- `+` on `u64` in a release build.
abbrev pub wrapping_add : ℕ → ℕ → ℕ
wrapping_add a b = (a + b) % u64_size

abbrev pub saturating_add : ℕ → ℕ → ℕ
saturating_add a b = min (a + b) u64_max

abbrev pub checked_sub : ℕ → ℕ → Option ℕ
checked_sub a b = if leb b a then some (a - b) else none

abbrev pub checked_add : ℕ → ℕ → Option ℕ
checked_add a b = if leb (a + b) u64_max then some (a + b) else none

-- `u64::try_from` of a wider number.
abbrev pub to_u64 : ℕ → Option ℕ
to_u64 a = if leb a u64_max then some a else none
