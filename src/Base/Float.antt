-- ===== src/Base/Float.antt =====
-- float64. A finite value is a whole number of units of 2 ^ -1074, the smallest step of the type,
-- so comparison is exact; results that need rounding are rounded to 53 significant bits, ties to
-- even, as IEEE 754 does. The sign of zero is not kept, since no operation here reads it.
use Prim.Native.Nat.{ℕ, zero, suc, ◌+◌, ◌-◌, ◌*◌, ◌/◌, ◌%◌, ◌^◌}
use mathlib.Core.Path.{◌≡◌, refl}
use mathlib.Core.Bool.{Bool, true, false, not, ◌&&◌, ◌||◌}
use gpu_platform_control_pla.Base.Tests.{◌==◌, ltb, if◌then◌else◌}
use gpu_platform_control_pla.Base.Int.{ℤ, pos, negsuc, pos_part, ltb_ℤ}

pub data Float : Type 0 where
  nan : Float
  inf : Bool → Float  -- true is +Inf
  fin : ℤ → Float

-- Units in the value 1.
unfoldable pub unit : ℕ
unit = 2 ^ 1074

unfoldable pub one : Float
unfolding unit
one = fin (pos unit)

abbrev pub zero_f : Float
zero_f = fin (pos 0)

-- Go's `a < b`: false when either side is NaN.
abbrev pub ltb_f : Float → Float → Bool
ltb_f nan b = false
ltb_f (inf s) nan = false
ltb_f (inf s) (inf t) = not s && t
ltb_f (inf s) (fin b) = not s
ltb_f (fin a) nan = false
ltb_f (fin a) (inf t) = t
ltb_f (fin a) (fin b) = ltb_ℤ a b

-- math.IsNaN(v) || math.IsInf(v, 0).
abbrev pub is_finite : Float → Bool
is_finite nan = false
is_finite (inf s) = false
is_finite (fin z) = true

-- The number of binary digits, on fuel: a value below 2 ^ fuel is measured whole.
bit_length : ℕ → ℕ → ℕ
bit_length zero n = 0
bit_length (suc f) n = let rest = bit_length f (n / 2) in if n == 0 then 0 else suc rest

-- num / den rounded to 53 significant bits, ties to even. Values stay below 2 ^ 2099.
unfoldable pub round_ratio : ℕ → ℕ → ℕ
unfolding bit_length
round_ratio num den =
    let e = bit_length 2200 (num / den) - 53 in
    let step = den * 2 ^ e in
    let m = num / step in
    let twice = 2 * (num % step) in
    (if ltb step twice || (twice == step && m % 2 == 1) then m + 1 else m) * 2 ^ e

-- A magnitude that reaches 2 ^ 1024 is an infinity.
unfoldable pub of_magnitude : ℕ → Float
of_magnitude n = if ltb n (2 ^ 2098) then fin (pos n) else inf true

-- The sum of two values that are not negative.
unfoldable pub add_nonneg : Float → Float → Float
unfolding round_ratio of_magnitude
add_nonneg (fin a) (fin b) = of_magnitude (round_ratio (pos_part a + pos_part b) 1)
add_nonneg (inf s) (fin b) = inf s
add_nonneg (fin a) (inf t) = inf t
add_nonneg (inf s) (inf t) = inf true
add_nonneg nan b = nan
add_nonneg a nan = nan

-- float64(n) / d for whole numbers, 0 < d.
unfoldable pub div_whole : ℕ → ℕ → Float
unfolding unit round_ratio of_magnitude
div_whole n d = of_magnitude (round_ratio (n * unit) d)

-- float64(z) of an int.
unfoldable pub of_int : ℤ → Float
unfolding unit round_ratio
of_int (pos n) = fin (pos (round_ratio (n * unit) 1))
of_int (negsuc n) = fin (negsuc (round_ratio (suc n * unit) 1 - 1))

-- int(math.Round(v)) of a value that is not negative, on a 64-bit machine. The language leaves a
-- value that no int holds to the implementation: `wild` is what it gives.
unfoldable pub round_to_int : ℤ → Float → ℤ
unfolding unit
round_to_int wild (fin z) =
    let n = (pos_part z + unit / 2) / unit in if ltb n (2 ^ 63) then pos n else wild
round_to_int wild (inf s) = wild
round_to_int wild nan = wild

half_plus_half : add_nonneg (div_whole 1 2) (div_whole 1 2) ≡ one
unfolding add_nonneg div_whole one
half_plus_half = refl

rounded_up : round_to_int (pos 0) (div_whole 5 2) ≡ pos 3
unfolding round_to_int div_whole
rounded_up = refl

third_rounds : div_whole 1 3 ≡ fin (pos (6004799503160661 * 2 ^ 1020))
unfolding div_whole
third_rounds = refl
