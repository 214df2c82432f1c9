-- ===== src/Base/Maps.antt =====
-- Go's maps with text keys, as association lists. A lookup law in `if` form for each operation.
use mathlib.Core.Path.{◌≡◌, refl, sym, ◌∙◌, subst}
use mathlib.Core.Logic.{◌≢◌, inl, inr}
use mathlib.Core.Bool.{Bool, false, ◌||◌}
use mathlib.Core.Option.{Option, none, some}
use mathlib.Core.List.{List, [], ◌∷◌, ◌++◌}
use native.Mathlib.Omega.{arith}
use gpu_platform_control_pla.Base.Tests.{if◌then◌else◌, Bool-cases}
use gpu_platform_control_pla.Base.Lists.{All}
use gpu_platform_control_pla.Base.Text.{Text, text_eq, text_eq_iff}

abbrev pub Map {ℓ} : Type ℓ → Type ℓ
Map V = List (Text × V)

unfoldable pub has_key : Text → List Text → Bool
has_key k [] = false
has_key k (j ∷ js) = text_eq j k || has_key k js

module _ {ℓ} {V : Type ℓ} where
  unfoldable pub lookup : Text → Map V → Option V
  lookup k [] = none
  lookup k ((j, v) ∷ m) = if text_eq j k then some v else lookup k m

  unfoldable pub insert : Text → V → Map V → Map V
  insert k v [] = (k, v) ∷ []
  insert k v ((j, w) ∷ m) = if text_eq j k then (k, v) ∷ m else (j, w) ∷ insert k v m

  -- `delete(m, k)`.
  unfoldable pub erase : Text → Map V → Map V
  erase k [] = []
  erase k ((j, w) ∷ m) = let rest = erase k m in if text_eq j k then rest else (j, w) ∷ rest

  abbrev pub keys : Map V → List Text
  keys [] = []
  keys ((j, v) ∷ m) = j ∷ keys m

  -- A lookup finds nothing under a key that is not listed.
  pub lookup-has_key : (k : Text) (m : Map V) → has_key k (keys m) ≡ false → lookup k m ≡ none
  unfolding lookup has_key
  lookup-has_key k [] h = refl
  lookup-has_key k ((j, v) ∷ m) h = ground (arith, lookup-has_key k m)

  pub lookup-insert :
      (k j : Text) (v : V) (m : Map V)
      → lookup j (insert k v m) ≡ (if text_eq k j then some v else lookup j m)
  unfolding lookup insert
  lookup-insert k j v [] = refl
  lookup-insert k j v ((i, w) ∷ m) =
      ground (arith, text_eq_iff k j, text_eq_iff i k, text_eq_iff i j, lookup-insert k j v m)

  pub lookup-erase :
      (k j : Text) (m : Map V) → lookup j (erase k m) ≡ (if text_eq k j then none else lookup j m)
  unfolding lookup erase
  lookup-erase k j [] = ground arith
  lookup-erase k j ((i, w) ∷ m) =
      ground (arith, text_eq_iff k j, text_eq_iff i k, text_eq_iff i j, lookup-erase k j m)

-- The map has an entry under the key.
abbrev pub Holds {ℓ} : {V : Type ℓ} → Map V → Text → Type ℓ
Holds m k = lookup k m ≢ none

pub Holds-insert {ℓ} :
    {V : Type ℓ} (m : Map V) (k j : Text) (v : V) → Holds m j → Holds (insert k v m) j
Holds-insert m k j v h = elim (Bool-cases (text_eq k j)) [
  | inl e ↦ rw (lookup-insert k j v m, e) (λ bad. cc)
  | inr e ↦ rw (lookup-insert k j v m, e) h
]

pub Holds-insert_self {ℓ} : {V : Type ℓ} (m : Map V) (k : Text) (v : V) → Holds (insert k v m) k
Holds-insert_self m k v =
    let same = (text_eq_iff k k).1 refl in rw (lookup-insert k k v m, same) (λ bad. cc)

pub All-Holds-insert {ℓ} :
    {V : Type ℓ} (m : Map V) (k : Text) (v : V) (keys : List Text)
    → All (Holds m) keys
    → All (Holds (insert k v m)) keys
All-Holds-insert m k v [] h = tt
All-Holds-insert m k v (j ∷ js) h = (Holds-insert m k j v h.0, All-Holds-insert m k v js h.1)

pub All-append_one {ℓ κ} :
    {A : Type ℓ} (P : A → Type κ) (xs : List A) (x : A) → All P xs → P x → All P (xs ++ (x ∷ []))
All-append_one P [] x h p = (p, tt)
All-append_one P (y ∷ ys) x h p = (h.0, All-append_one P ys x h.1 p)

-- A property of all values survives an insertion that has it.
pub insert_keeps {ℓ κ} :
    {V : Type ℓ} (P : V → Type κ) (m : Map V) (k : Text) (v : V)
    → ((j : Text) (w : V) → lookup j m ≡ some w → P w)
    → P v
    → (j : Text) (w : V) → lookup j (insert k v m) ≡ some w
    → P w
insert_keeps P m k v all p j w found = elim (Bool-cases (text_eq k j)) [
  | inl e ↦
      let here : some v ≡ some w = sym (rw (lookup-insert k j v m, e) refl) ∙ found in
      subst P (cc) p
  | inr e ↦ all j w (sym (rw (lookup-insert k j v m, e) refl) ∙ found)
]
