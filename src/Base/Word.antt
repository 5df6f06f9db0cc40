-- ===== src/Base/Word.antt =====
-- The fixed-width arithmetic that the code uses: Rust's `saturating_*` and `checked_*` on u64 and u32.
use Prim.Native.Nat.{ℕ, ◌+◌, ◌-◌, ◌*◌, ◌^◌, ◌≤◌, min}
use mathlib.Core.Option.{Option, none, some}
use zincha_sdk.Base.Tests.{leb, if◌then◌else◌}

-- u64::MAX
abbrev pub u64_max : ℕ
u64_max = 2 ^ 64 - 1

-- u32::MAX
abbrev pub u32_max : ℕ
u32_max = 2 ^ 32 - 1

abbrev pub IsU64 : ℕ → Type 0
IsU64 n = n ≤ u64_max

abbrev pub sat_add : ℕ → ℕ → ℕ
sat_add a b = min (a + b) u64_max

-- `-` stops at 0, as `saturating_sub` does.
abbrev pub sat_sub : ℕ → ℕ → ℕ
sat_sub a b = a - b

abbrev pub sat_mul : ℕ → ℕ → ℕ
sat_mul a b = min (a * b) u64_max

abbrev pub sat_add32 : ℕ → ℕ → ℕ
sat_add32 a b = min (a + b) u32_max

abbrev pub checked_add : ℕ → ℕ → Option ℕ
checked_add a b = if leb (a + b) u64_max then some (a + b) else none
