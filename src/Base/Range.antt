-- ===== src/Base/Range.antt =====
-- A test that holds of every number below a bound, found by evaluation.
use Prim.Native.Nat.{ℕ, zero, suc, ◌<◌}
use mathlib.Core.Path.{◌≡◌, ap, ◌∙◌}
use mathlib.Core.Bool.{Bool, true, false}
use native.Mathlib.Omega.{arith}
use native.Mathlib.Decide.{ℕ_discrete}
use oscortex.Base.Tests.{if◌then◌else◌}

unfoldable pub each_below : (ℕ → Bool) → ℕ → Bool
each_below test zero = true
each_below test (suc bound) = let rest = each_below test bound in if test bound then rest else false

both : (a b : Bool) → (if a then b else false) ≡ true → (a ≡ true) × (b ≡ true)
both true true e = (e, e)
both true false e = cc
both false b e = cc

pub each_below-at :
    (test : ℕ → Bool) (bound : ℕ)
    → each_below test bound ≡ true
    → (i : ℕ) → i < bound
    → test i ≡ true
unfolding each_below
each_below-at test zero e i h = absurd (omega arith)
each_below-at test (suc bound) e i h =
    let (last, rest) = both (test bound) (each_below test bound) e in
    elim (ℕ_discrete i bound) [
      | yes same ↦ ap test same ∙ last
      | no apart ↦ each_below-at test bound rest i (grind arith)
    ]
