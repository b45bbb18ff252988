-- ===== src/Prelude/Floats.antt =====
-- float64 as the program uses it: it orders values and takes the larger. A finite value is an
-- integer number of millionths, `pos n` or `negsuc n` for -(n + 1).
use Prim.Native.Nat.{ℕ}
use mathlib.Core.Bool.{Bool, true, false}
use submission_triage.Prelude.Tests.{ltb, if◌then◌else◌}

pub data ℤ : Type 0 where
  pos negsuc : ℕ → ℤ

abbrev pub ltb_ℤ : ℤ → ℤ → Bool
ltb_ℤ (pos a) (pos b) = ltb a b
ltb_ℤ (pos _) (negsuc _) = false
ltb_ℤ (negsuc _) (pos _) = true
ltb_ℤ (negsuc a) (negsuc b) = ltb b a

pub data Float : Type 0 where
  finite : ℤ → Float
  infinity neg_infinity nan : Float

abbrev pub float_zero : Float
float_zero = finite (pos 0)

-- `<`, false whenever one side is not a number.
abbrev pub float_lt : Float → Float → Bool
float_lt nan _ = false
float_lt _ nan = false
float_lt infinity _ = false
float_lt neg_infinity neg_infinity = false
float_lt neg_infinity _ = true
float_lt (finite _) infinity = true
float_lt (finite _) neg_infinity = false
float_lt (finite a) (finite b) = ltb_ℤ a b

-- math.Max: +Inf wins over everything, then NaN.
abbrev pub float_max : Float → Float → Float
float_max infinity _ = infinity
float_max _ infinity = infinity
float_max nan _ = nan
float_max _ nan = nan
float_max neg_infinity y = y
float_max (finite a) neg_infinity = finite a
float_max (finite a) (finite b) = if ltb_ℤ a b then finite b else finite a
