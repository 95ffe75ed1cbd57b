-- ===== src/Base/Floats.antt =====
-- float64 as far as whole numbers from uint64 go: a conversion keeps 53 bits and rounds to the nearest,
-- at a tie to the even one. `math.Max` and `math.Min` of such values are the larger and the smaller.
use Prim.Native.Nat.{ℕ, zero, suc, ◌+◌, ◌*◌, ◌/◌, ◌%◌, ◌<◌}
use mathlib.Core.Path.{◌≡◌}
use mathlib.Core.Bool.{true, false}
use native.Mathlib.Omega.{arith}
use atomix_go_raft.Base.Tests.{ltb, ◌==◌, if◌then◌else◌, lt→ltb}

abbrev pub f64_mod : ℕ
f64_mod = 9007199254740992

-- The multiple of the unit nearest to a number.
unfoldable pub round_to : ℕ → ℕ → ℕ
round_to unit n =
    let down = n / unit * unit in
    if ltb (n % unit * 2) unit
    then down
    else if ltb unit (n % unit * 2)
    then down + unit
    else if n / unit % 2 == 0
    then down
    else down + unit

-- The unit doubles until 53 bits are enough: for a uint64 that is after 11 times at most.
unfoldable pub float_from : ℕ → ℕ → ℕ → ℕ
unfolding round_to
float_from zero unit n = round_to unit n
float_from (suc fuel) unit n = elim (ltb (n / unit) f64_mod) [
  | true ↦ round_to unit n
  | false ↦ float_from fuel (unit * 2) n
]

unfoldable pub float64 : ℕ → ℕ
unfolding float_from
float64 n = float_from 11 1 n

-- Below 2^53 the conversion is exact.
pub float64-exact : (n : ℕ) → n < f64_mod → float64 n ≡ n
unfolding float64
float64-exact n h =
    let small : n / 1 < f64_mod = omega arith in
    rw (lt→ltb (n / 1) f64_mod small, float_from) (ground arith)
