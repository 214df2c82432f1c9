-- ===== src/Base/Clock.antt =====
-- time.Time and time.Duration. A time is its nanoseconds since the zero time, and a duration is an
-- int64 number of nanoseconds.
use Prim.Native.Nat.{ℕ, ◌+◌, ◌-◌, ◌*◌, ◌%◌}
use mathlib.Core.Path.{◌≡◌, refl}
use mathlib.Core.Bool.{Bool}
use gpu_platform_control_pla.Base.Tests.{ltb, leb, ◌==◌, if◌then◌else◌}
use gpu_platform_control_pla.Base.Int.{ℤ, pos, negsuc, sub_ℕ}

abbrev pub Time : Type 0
Time = ℕ

abbrev pub Duration : Type 0
Duration = ℤ

-- t.IsZero().
abbrev pub is_zero_time : Time → Bool
is_zero_time t = t == 0

abbrev pub max_duration : ℕ
max_duration = 9223372036854775807

-- now.Sub(t): a result outside an int64 is the nearest int64.
abbrev pub saturate : ℤ → Duration
saturate (pos n) = if leb n max_duration then pos n else pos max_duration
saturate (negsuc n) = if leb n max_duration then negsuc n else negsuc max_duration

abbrev pub since : Time → Time → Duration
since now t = saturate (sub_ℕ now t)

-- An int64 product that may leave the range wraps round.
abbrev pub to_int64 : ℕ → ℤ
to_int64 r = if ltb r 9223372036854775808 then pos r else sub_ℕ r 18446744073709551616

abbrev pub wrap_int64 : ℤ → ℤ
wrap_int64 (pos n) = to_int64 (n % 18446744073709551616)
wrap_int64 (negsuc n) = to_int64 (18446744073709551615 - n % 18446744073709551616)

-- 10 * d.
abbrev pub times_ten : ℤ → ℤ
times_ten (pos n) = wrap_int64 (pos (10 * n))
times_ten (negsuc n) = wrap_int64 (negsuc (10 * n + 9))

wraps : times_ten (pos 922337203685477581) ≡ negsuc 9223372036854775805
wraps = refl
