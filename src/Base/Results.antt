-- ===== src/Base/Results.antt =====
-- A value or an error, for code that returns (value, error).
use mathlib.Core.Bool.{Bool, true, false}
use gpu_platform_control_pla.Base.Tests.{if◌then◌else◌}
use mathlib.Core.Path.{◌≡◌}
use mathlib.Core.Logic.{◌⊎◌, inl, inr}

pub data Result {ℓ} (E : Type 0) (A : Type ℓ) : Type ℓ where
  ok : A → Result E A
  err : E → Result E A

-- What to do with the value; an error is passed on.
abbrev pub on_ok {ℓ κ} :
    {E : Type 0} {A : Type ℓ} {B : Type κ} → (A → Result E B) → Result E A → Result E B
on_ok next (err e) = err e
on_ok next (ok a) = next a

infixl 5 ◌>>=◌
abbrev pub ◌>>=◌ {ℓ κ} :
    {E : Type 0} {A : Type ℓ} {B : Type κ} → Result E A → (A → Result E B) → Result E B
m >>= next = on_ok next m

-- A chain that gives a value had one to go on from.
pub >>=-ok {ℓ κ} :
    {E : Type 0} {A : Type ℓ} {B : Type κ} (next : A → Result E B) (first : Result E A) (b : B)
    → on_ok next first ≡ ok b
    → (a : A) × (first ≡ ok a) × (next a ≡ ok b)
>>=-ok next (err e) b same = cc
>>=-ok next (ok a) b same = (a, (λ i. ok a), same)

-- A chain that fails failed at its first step or after it.
pub >>=-err {ℓ κ} :
    {E : Type 0} {A : Type ℓ} {B : Type κ} (next : A → Result E B) (first : Result E A) (e : E)
    → on_ok next first ≡ err e
    → (first ≡ err e) ⊎ ((a : A) × (first ≡ ok a) × (next a ≡ err e))
>>=-err next (err f) e same = inl (cc)
>>=-err next (ok a) e same = inr (a, (λ i. ok a), same)

-- A test, by a property of what it gives.
pub if_case :
    {A : Type 0} (P : A → Type 0) (b : Bool) {x y : A}
    → (b ≡ true → P x)
    → (b ≡ false → P y)
    → P (if b then x else y)
if_case P true f g = f (λ i. true)
if_case P false f g = g (λ i. false)
