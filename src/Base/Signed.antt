-- ===== src/Base/Signed.antt =====
-- 32-bit signed integers as their bit patterns: the order of Rust's `i32`.
use Prim.Native.Nat.{ℕ, ◌+◌, ◌-◌, ◌%◌, ◌^◌}
use mathlib.Core.Bool.{Bool}
use oscortex.Base.Tests.{ltb, leb, if◌then◌else◌}

-- Moves the negative numbers below the others.
abbrev pub rank : ℕ → ℕ
rank a = (a + 2 ^ 31) % 2 ^ 32

abbrev pub slt : ℕ → ℕ → Bool
slt a b = ltb (rank a) (rank b)

abbrev pub sle : ℕ → ℕ → Bool
sle a b = leb (rank a) (rank b)

abbrev pub smax : ℕ → ℕ → ℕ
smax a b = if slt a b then b else a

abbrev pub smin : ℕ → ℕ → ℕ
smin a b = if slt b a then b else a

abbrev pub add32 : ℕ → ℕ → ℕ
add32 a b = (a + b) % 2 ^ 32

abbrev pub sub32 : ℕ → ℕ → ℕ
sub32 a b = (a + (2 ^ 32 - b)) % 2 ^ 32

-- `i32::MIN`.
abbrev pub i32_min : ℕ
i32_min = 2 ^ 31
