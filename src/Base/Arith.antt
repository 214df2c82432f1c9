-- ===== src/Base/Arith.antt =====
-- float64 and int64 arithmetic on values of either sign.
use Prim.Native.Nat.{ℕ, suc, ◌+◌, ◌-◌, ◌*◌, ◌/◌, ◌^◌}
use mathlib.Core.Path.{◌≡◌, refl}
use mathlib.Core.Bool.{Bool, true, false, not}
use native.Mathlib.Omega.{arith}
use gpu_platform_control_pla.Base.Tests.{if◌then◌else◌, ltb, leb, ◌==◌}
use gpu_platform_control_pla.Base.Int.{ℤ, pos, negsuc, pos_part, neg_part, sub_ℕ, ◌≤ℤ◌}
use gpu_platform_control_pla.Base.Clock.{wrap_int64, max_duration}
use gpu_platform_control_pla.Base.Float.{
  Float, nan, inf, fin, unit, one, round_ratio, of_magnitude, div_whole, of_int,
}

-- a - b of two int64: the difference wraps round.
unfoldable pub sub64 : ℤ → ℤ → ℤ
sub64 a b = wrap_int64 (sub_ℕ (pos_part a + neg_part b) (pos_part b + neg_part a))

-- a + b of two int64.
unfoldable pub add64 : ℤ → ℤ → ℤ
add64 a b = wrap_int64 (sub_ℕ (pos_part a + pos_part b) (neg_part a + neg_part b))

negate : Float → Float
negate nan = nan
negate (inf s) = inf (not s)
negate (fin (pos n)) = fin (sub_ℕ 0 n)
negate (fin (negsuc n)) = fin (pos (suc n))

-- A whole number of units over `den`, rounded.
round_int : ℤ → ℕ → Float
unfolding negate round_ratio of_magnitude
round_int (pos n) den = of_magnitude (round_ratio n den)
round_int (negsuc n) den = negate (of_magnitude (round_ratio (suc n) den))

same_sign : Bool → Bool → Bool
same_sign true t = t
same_sign false t = not t

unfoldable pub add_f : Float → Float → Float
unfolding round_int same_sign
add_f nan b = nan
add_f (inf s) nan = nan
add_f (inf s) (inf t) = if same_sign s t then inf s else nan
add_f (inf s) (fin b) = inf s
add_f (fin a) nan = nan
add_f (fin a) (inf t) = inf t
add_f (fin a) (fin b) = round_int (sub_ℕ (pos_part a + pos_part b) (neg_part a + neg_part b)) 1

-- An infinity times a finite value.
scale_inf : Bool → ℤ → Float
unfolding same_sign
scale_inf s (pos n) = if n == 0 then nan else inf s
scale_inf s (negsuc n) = inf (not s)

unfoldable pub mul_f : Float → Float → Float
unfolding round_int same_sign scale_inf unit
mul_f nan b = nan
mul_f (inf s) nan = nan
mul_f (inf s) (inf t) = inf (same_sign s t)
mul_f (inf s) (fin b) = scale_inf s b
mul_f (fin a) nan = nan
mul_f (fin a) (inf t) = scale_inf t a
mul_f (fin a) (fin b) =
    round_int
      (sub_ℕ (pos_part a * pos_part b + neg_part a * neg_part b)
        (pos_part a * neg_part b + neg_part a * pos_part b))
      unit

-- a / d for a whole number d that a float64 holds, 0 < d.
unfoldable pub div_by_whole : Float → ℕ → Float
unfolding round_int
div_by_whole nan d = nan
div_by_whole (inf s) d = inf s
div_by_whole (fin a) d = round_int a d

-- int64(v), truncated towards zero. The language leaves a value that no int64 holds to the
-- implementation: `wild` is what it gives.
unfoldable pub trunc_to_int : ℤ → Float → ℤ
unfolding unit
trunc_to_int wild nan = wild
trunc_to_int wild (inf s) = wild
trunc_to_int wild (fin (pos n)) = if ltb (n / unit) (2 ^ 63) then pos (n / unit) else wild
trunc_to_int wild (fin (negsuc n)) =
    if leb (suc n / unit) (2 ^ 63) then sub_ℕ 0 (suc n / unit) else wild

pub sub64_lem :
    (a b : ℤ)
    → pos 0 ≤ℤ b
    → b ≤ℤ a
    → a ≤ℤ pos max_duration
    → sub64 a b ≡ pos (pos_part a - pos_part b)
unfolding sub64
sub64_lem (pos a) (pos b) h k l = ground arith
sub64_lem (pos a) (negsuc b) h k l = absurd (omega arith)
sub64_lem (negsuc a) (pos b) h k l = absurd (omega arith)
sub64_lem (negsuc a) (negsuc b) h k l = absurd (omega arith)

three_halves : add_f one (div_by_whole one 2) ≡ div_by_whole (mul_f (of_int (pos 3)) one) 2
unfolding add_f mul_f div_by_whole one of_int
three_halves = refl

minus_one : trunc_to_int (pos 0) (mul_f (of_int (negsuc 2)) (div_whole 1 2)) ≡ negsuc 0
unfolding trunc_to_int mul_f of_int div_whole
minus_one = refl

-- a * b of two int64.
unfoldable pub mul64 : ℤ → ℤ → ℤ
mul64 a b = wrap_int64 (
    sub_ℕ (pos_part a * pos_part b + neg_part a * neg_part b)
      (pos_part a * neg_part b + neg_part a * pos_part b))

-- Go's a / n on int64 for a constant n, 0 < n: truncated towards zero.
unfoldable pub quot64 : ℤ → ℕ → ℤ
quot64 (pos a) n = pos (a / n)
quot64 (negsuc a) n = sub_ℕ 0 (suc a / n)
