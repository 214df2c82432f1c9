-- ===== src/Base/Strings.antt =====
-- The functions of strings and strconv that the code calls, on texts.
use Prim.Native.Nat.{ℕ, ◌+◌, ◌-◌, ◌*◌}
use mathlib.Core.Path.{◌≡◌, refl}
use mathlib.Core.Bool.{Bool, true, false, ◌&&◌, ◌||◌}
use mathlib.Core.Option.{Option, none, some}
use mathlib.Core.List.{List, [], ◌∷◌, ◌++◌}
use gpu_platform_control_pla.Base.Tests.{leb, ◌==◌, if◌then◌else◌}
use gpu_platform_control_pla.Base.Int.{ℤ, pos, negsuc, sub_ℕ}
use gpu_platform_control_pla.Base.Text.{Text, text}

-- unicode.IsSpace.
unfoldable pub is_space : ℕ → Bool
is_space c =
    (leb 9 c && leb c 13)
    || c == 32
    || c == 133
    || c == 160
    || c == 5760
    || (leb 8192 c && leb c 8202)
    || c == 8232
    || c == 8233
    || c == 8239
    || c == 8287
    || c == 12288

-- strings.HasPrefix.
unfoldable pub has_prefix : Text → Text → Bool
has_prefix s [] = true
has_prefix [] (p ∷ ps) = false
has_prefix (c ∷ cs) (p ∷ ps) = let rest = has_prefix cs ps in c == p && rest

drop_text : Text → Text → Text
drop_text [] s = s
drop_text (p ∷ ps) [] = []
drop_text (p ∷ ps) (c ∷ cs) = drop_text ps cs

-- strings.TrimPrefix.
unfoldable pub trim_prefix : Text → Text → Text
unfolding has_prefix drop_text
trim_prefix s p = if has_prefix s p then drop_text p s else s

-- A word that has ended, put before the later ones.
unfoldable pub put_word : Text → List Text → List Text
put_word [] words = words
put_word (c ∷ cs) words = (c ∷ cs) ∷ words

unfoldable pub words_from : Text → Text → List Text
unfolding put_word is_space
words_from word [] = put_word word []
words_from word (c ∷ cs) =
    let rest = words_from (if is_space c then [] else word ++ (c ∷ [])) cs in
    if is_space c then put_word word rest else rest

-- strings.Fields, which trims as it splits.
unfoldable pub fields : Text → List Text
unfolding words_from
fields s = words_from [] s

unfoldable pub digits_from : ℕ → Text → Option ℕ
digits_from n [] = some n
digits_from n (c ∷ cs) =
    let rest = digits_from (n * 10 + (c - 48)) cs in if leb 48 c && leb c 57 then rest else none

unfoldable pub digits : Text → Option ℕ
unfolding digits_from
digits [] = none
digits (c ∷ cs) = digits_from 0 (c ∷ cs)

abbrev at_most : ℕ → Option ℕ → Option ℕ
at_most limit none = none
at_most limit (some n) = if leb n limit then some n else none

abbrev as_int : (ℕ → ℤ) → Option ℕ → Option ℤ
as_int f none = none
as_int f (some n) = some (f n)

-- strconv.Atoi on a 64-bit machine; none is any error.
unfoldable pub atoi : Text → Option ℤ
unfolding digits
atoi [] = none
atoi (c ∷ cs) =
    if c == 45
    then as_int (sub_ℕ 0) (at_most 9223372036854775808 (digits cs))
    else as_int pos (at_most 9223372036854775807 (digits (if c == 43 then cs else c ∷ cs)))

two_words : fields (text " iters=4  kind=x ") ≡ text "iters=4" ∷ (text "kind=x" ∷ [])
unfolding fields
two_words = refl

minus_twelve : atoi (text "-12") ≡ some (negsuc 11)
unfolding atoi
minus_twelve = refl

trimmed : trim_prefix (text "dev=ok") (text "dev=") ≡ text "ok"
unfolding trim_prefix
trimmed = refl
