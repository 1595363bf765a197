-- ===== src/Base/Floats.antt =====
-- The order of Go's `float64` on bit patterns.
use Prim.Native.Nat.{ℕ, ◌+◌, ◌%◌, ◌^◌}
use mathlib.Core.Bool.{Bool, true, not, ◌&&◌, ◌||◌}
use soul_room_edge_platform.Base.Tests.{ltb, leb, eqb, if◌then◌else◌}

-- A NaN is below nothing, and -0 is 0.
abbrev pub magnitude : ℕ → ℕ
magnitude x = x % 2 ^ 63

abbrev pub is_nan : ℕ → Bool
is_nan x = ltb 9218868437227405312 (magnitude x)

abbrev pub is_negative : ℕ → Bool
is_negative x = leb (2 ^ 63) x

unfoldable pub float_leb : ℕ → ℕ → Bool
float_leb a b =
    not (is_nan a || is_nan b)
    && (if is_negative a
        then (if is_negative b then leb (magnitude b) (magnitude a) else true)
        else if is_negative b
        then eqb (magnitude a + magnitude b) 0
        else leb (magnitude a) (magnitude b))

unfoldable pub float_ltb : ℕ → ℕ → Bool
float_ltb a b = not (is_nan a || is_nan b) && not (float_leb b a)
