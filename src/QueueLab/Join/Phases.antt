-- ===== src/QueueLab/Join/Phases.antt =====
-- The loops of ResolveTraceJobs as insertions: each object's name is written once and stays.
use mathlib.Core.List.{Memᴰ}
use gpu_platform_control_pla.Base.{
  ◌≡◌, refl, sym, ◌∙◌, ap, Bool, true, false, none, some, List, [], ◌∷◌, All, Bool-cases, inl, inr,
  subst,
}
use gpu_platform_control_pla.Base.Text.{Text, text_eq, text_eq_iff, text_eq_refl}
use gpu_platform_control_pla.Base.Maps.{Map, lookup, insert, lookup-insert}
use gpu_platform_control_pla.QueueLab.Join.{ObservedObject}

-- No later object has an earlier one's UID.
abbrev pub Distinct : List ObservedObject → Type 0
Distinct [] = Unit {0}
Distinct (o ∷ os) = All (λ r. text_eq o.uid r.uid ≡ false) os × Distinct os

-- The objects that a loop takes have no name yet.
abbrev pub IsFresh : (ObservedObject → Bool) → Map Text → List ObservedObject → Type 0
IsFresh takes names os = All (λ r. takes r ≡ true → lookup r.uid names ≡ none) os

abbrev pub Extends : Map Text → Map Text → Type 0
Extends old new = (k v : Text) → lookup k old ≡ some v → lookup k new ≡ some v

-- A loop that takes some objects and names each of them as `Names` says.
pub data Inserts (takes : ObservedObject → Bool) (Names : ObservedObject → Map Text → Text → Type 0)
    : List ObservedObject → Map Text → Map Text → Type 0 where
  finished : {m : Map Text} → Inserts takes Names [] m m
  passed :
      {o : ObservedObject} {os : List ObservedObject} {m m' : Map Text}
      → takes o ≡ false
      → Inserts takes Names os m m'
      → Inserts takes Names (o ∷ os) m m'
  named :
      {o : ObservedObject} {os : List ObservedObject} {m m' : Map Text} (v : Text)
      → takes o ≡ true
      → Names o m v
      → Inserts takes Names os (insert o.uid v m) m'
      → Inserts takes Names (o ∷ os) m m'

Extends-insert : (m : Map Text) (k v : Text) → lookup k m ≡ none → Extends m (insert k v m)
Extends-insert m k v fresh j w found = elim (Bool-cases (text_eq k j)) [
  | inl same ↦
      let e = (text_eq_iff k j).0 same in
      let clash : none ≡ some w = sym fresh ∙ rw e found in absurd (cc)
  | inr other ↦ rw (lookup-insert k j v m, other) found
]

IsFresh-insert :
    (takes : ObservedObject → Bool) (m : Map Text) (o : ObservedObject) (v : Text)
    (os : List ObservedObject)
    → All (λ r. text_eq o.uid r.uid ≡ false) os
    → IsFresh takes m os
    → IsFresh takes (insert o.uid v m) os
IsFresh-insert takes m o v [] apart fresh = tt
IsFresh-insert takes m o v (r ∷ rs) apart fresh = (
  (λ taken. rw (lookup-insert o.uid r.uid v m, apart.0) (fresh.0 taken)),
  IsFresh-insert takes m o v rs apart.1 fresh.1,
)

module _ {takes : ObservedObject → Bool} {Names : ObservedObject → Map Text → Text → Type 0} where
  pub Inserts-Extends :
      {os : List ObservedObject} {m m' : Map Text}
      → Inserts takes Names os m m'
      → Distinct os
      → IsFresh takes m os
      → Extends m m'
  Inserts-Extends finished apart fresh k v found = found
  Inserts-Extends (passed left rest) apart fresh k v found =
      Inserts-Extends rest apart.1 fresh.1 k v found
  Inserts-Extends (named {o} {os} {m} w taken names rest) apart fresh k v found =
      Inserts-Extends rest apart.1 (IsFresh-insert takes m o w os apart.0 fresh.1) k v
        (Extends-insert m o.uid w (fresh.0 taken) k v found)

  -- What was said of an object when it was named, and that it keeps its name.
  pub Inserts-named :
      {os : List ObservedObject} {m m' : Map Text} {r : ObservedObject}
      → Inserts takes Names os m m'
      → Distinct os
      → IsFresh takes m os
      → Memᴰ r os
      → takes r ≡ true
      → (old : Map Text) × (v : Text) × Names r old v
        × Extends m old
        × Extends old m'
        × (lookup r.uid m' ≡ some v)
  Inserts-named finished apart fresh here taken = elim here [ ]
  Inserts-named (passed left rest) apart fresh (Memᴰ.head e) taken =
      absurd (let same = ap takes e in cc)
  Inserts-named (passed left rest) apart fresh (Memᴰ.tail there) taken =
      Inserts-named rest apart.1 fresh.1 there taken
  Inserts-named (named {o} {os} {m} {m'} v at names rest) apart fresh (Memᴰ.head e) taken =
      let same = sym e in
      let put : lookup o.uid (insert o.uid v m) ≡ some v =
        rw (lookup-insert o.uid o.uid v m, text_eq_refl o.uid) refl in
      let step = Extends-insert m o.uid v (fresh.0 at) in
      let later = Inserts-Extends rest apart.1 (IsFresh-insert takes m o v os apart.0 fresh.1) in
      (
        m,
        v,
        subst (λ x. Names x m v) same names,
        (λ k w found. found),
        (λ k w found. later k w (step k w found)),
        subst (λ x. lookup x.uid m' ≡ some v) same (later o.uid v put),
      )
  Inserts-named (named {o} {os} {m} v at names rest) apart fresh (Memᴰ.tail there) taken =
      let step = Extends-insert m o.uid v (fresh.0 at) in
      let (old, w, said, before, after, found) =
        Inserts-named rest apart.1 (IsFresh-insert takes m o v os apart.0 fresh.1) there taken in
      (old, w, said, (λ k x here. before k x (step k x here)), after, found)

  -- A UID that no taken object has keeps what it had.
  pub Inserts-others :
      {os : List ObservedObject} {m m' : Map Text} (k : Text)
      → Inserts takes Names os m m'
      → All (λ o. takes o ≡ true → text_eq o.uid k ≡ false) os
      → lookup k m' ≡ lookup k m
  Inserts-others k finished others = refl
  Inserts-others k (passed left rest) others = Inserts-others k rest others.1
  Inserts-others k (named {o} {os} {m} v at names rest) others =
      Inserts-others k rest others.1 ∙ (rw (lookup-insert o.uid k v m, others.0 at) refl)
