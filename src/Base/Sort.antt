-- ===== src/Base/Sort.antt =====
-- slices.SortFunc by a strict order, as insertion sort. SortFunc leaves the order of items that
-- compare as equal open; where there are none, every sort gives the list below.
use mathlib.Core.List.{Permᴰ, Memᴰ}
use mathlib.Core.List.Permᴰ
use gpu_platform_control_pla.Base.{
  ◌≡◌, refl, sym, ◌∙◌, ap, subst, ◌⊎◌, inl, inr, Bool, true, false, List, [], ◌∷◌, if◌then◌else◌,
  All, Bool-cases,
}

module _ {ℓ} {A : Type ℓ} (before : A → A → Bool) where
  unfoldable pub insert_sorted : A → List A → List A
  insert_sorted x [] = x ∷ []
  insert_sorted x (y ∷ ys) =
      let rest = insert_sorted x ys in if before x y then x ∷ (y ∷ ys) else y ∷ rest

  unfoldable pub sort_func : List A → List A
  unfolding insert_sorted
  sort_func [] = []
  sort_func (x ∷ xs) = insert_sorted x (sort_func xs)

  -- The first item is before no later one, and so on.
  abbrev pub IsSorted : List A → Type 0
  IsSorted [] = Unit
  IsSorted (x ∷ xs) = All (λ y. before y x ≡ false) xs × IsSorted xs

  -- What the order is asked: strict, and deciding between any two different items of `Listed`.
  pub record IsStrict {κ} (Listed : A → Type κ) : Type (ℓ ⊔ κ) where
    pub irreflexive : (a : A) → before a a ≡ false
    pub transitive : (a b c : A) → before a b ≡ true → before b c ≡ true → before a c ≡ true
    pub decides :
        (a b : A) → Listed a → Listed b → (before a b ≡ true) ⊎ ((before b a ≡ true) ⊎ (a ≡ b))

pub All-insert_sorted {ℓ κ} :
    {A : Type ℓ} (P : A → Type κ) (before : A → A → Bool) (x : A) (ys : List A)
    → P x
    → All P ys
    → All P (insert_sorted before x ys)
unfolding insert_sorted
All-insert_sorted P before x [] p h = (p, h)
All-insert_sorted P before x (y ∷ ys) p h =
    let rest = All-insert_sorted P before x ys p h.1 in
    elim (Bool-cases (before x y)) [ inl e ↦ rw e (p, h) | inr e ↦ rw e (h.0, rest) ]

pub All-sort_func {ℓ κ} :
    {A : Type ℓ} (P : A → Type κ) (before : A → A → Bool) (xs : List A)
    → All P xs
    → All P (sort_func before xs)
unfolding sort_func
All-sort_func P before [] h = h
All-sort_func P before (x ∷ xs) h =
    All-insert_sorted P before x (sort_func before xs) h.0 (All-sort_func P before xs h.1)

pub All-perm {ℓ κ} :
    {A : Type ℓ} (P : A → Type κ) {xs ys : List A} → Permᴰ xs ys → All P xs → All P ys
All-perm P Permᴰ.nil h = h
All-perm P (Permᴰ.cons e p) h = (subst P e h.0, All-perm P p h.1)
All-perm P (Permᴰ.swap e f) h = (subst P f h.1.0, (subst P e h.0, h.1.1))
All-perm P (Permᴰ.trans p q) h = All-perm P q (All-perm P p h)

pub All-mem {ℓ κ} : {A : Type ℓ} (P : A → Type κ) {a : A} {xs : List A} → Memᴰ a xs → All P xs → P a
All-mem P (Memᴰ.head e) h = subst P (sym e) h.0
All-mem P (Memᴰ.tail m) h = All-mem P m h.1

pub All-self {ℓ κ} :
    {A : Type ℓ} (P : A → Type κ) (xs : List A) → ((a : A) → Memᴰ a xs → P a) → All P xs
All-self P [] h = tt
All-self P (x ∷ xs) h = (h x (Memᴰ.head refl), All-self P xs (λ a m. h a (Memᴰ.tail m)))

insert_sorted-perm {ℓ} :
    {A : Type ℓ} (before : A → A → Bool) (x : A) (ys : List A)
    → Permᴰ (x ∷ ys) (insert_sorted before x ys)
unfolding insert_sorted
insert_sorted-perm before x [] = Permᴰ.refl (x ∷ [])
insert_sorted-perm before x (y ∷ ys) =
    let rest = insert_sorted-perm before x ys in
    elim (Bool-cases (before x y)) [
      | inl e ↦ rw e (Permᴰ.refl (x ∷ (y ∷ ys)))
      | inr e ↦ rw e (Permᴰ.trans (Permᴰ.swap refl refl) (Permᴰ.cons refl rest))
    ]

-- Sorting only permutes.
pub perm-sort_func {ℓ} :
    {A : Type ℓ} (before : A → A → Bool) (xs : List A) → Permᴰ xs (sort_func before xs)
unfolding sort_func
perm-sort_func before [] = Permᴰ.nil
perm-sort_func before (x ∷ xs) =
    Permᴰ.trans (Permᴰ.cons refl (perm-sort_func before xs))
      (insert_sorted-perm before x (sort_func before xs))

module _ {ℓ κ} {A : Type ℓ} {before : A → A → Bool} {Listed : A → Type κ}
    (v : IsStrict before Listed) where
  pub asymmetric : (a b : A) → before a b ≡ true → before b a ≡ false
  asymmetric a b h = elim (Bool-cases (before b a)) [
    | inl e ↦ let loop = v.transitive a b a h e in let not_self = v.irreflexive a in absurd (cc)
    | inr e ↦ e
  ]

  insert_before :
      (x y : A) (l : List A)
      → before x y ≡ true
      → insert_sorted before x (insert_sorted before y l)
        ≡ insert_sorted before y (insert_sorted before x l)
  unfolding insert_sorted
  insert_before x y [] h = let back = asymmetric x y h in rw (h, back)
  insert_before x y (z ∷ zs) h =
      let back = asymmetric x y h in
      elim (Bool-cases (before y z)) [
        | inl yz ↦ let xz = v.transitive x y z h yz in rw (yz, xz, h, back, yz)
        | inr yz ↦ elim (Bool-cases (before x z)) [
          | inl xz ↦ rw (yz, xz, back, yz)
          | inr xz ↦ rw (yz, xz, yz) (ap (λ l. z ∷ l) (insert_before x y zs h))
        ]
      ]

  insert_comm :
      (x y : A) (l : List A)
      → Listed x
      → Listed y
      → insert_sorted before x (insert_sorted before y l)
        ≡ insert_sorted before y (insert_sorted before x l)
  insert_comm x y l p q = elim (v.decides x y p q) [
    | inl h ↦ insert_before x y l h
    | inr (inl h) ↦ sym (insert_before y x l h)
    | inr (inr e) ↦ rw e
  ]

  -- The order in which the items came does not show in the sorted list.
  pub sort_func-perm :
      {xs ys : List A} → Permᴰ xs ys → All Listed xs → sort_func before xs ≡ sort_func before ys
  unfolding sort_func
  sort_func-perm Permᴰ.nil h = refl
  sort_func-perm (Permᴰ.cons {l₂ = l} e p) h =
      ap (insert_sorted before _) (sort_func-perm p h.1)
      ∙ ap (λ a. insert_sorted before a (sort_func before l)) e
  sort_func-perm (Permᴰ.swap {a} {b} {l = l} e f) h =
      rw (← e, ← f) (insert_comm a b (sort_func before l) h.0 h.1.0)
  sort_func-perm (Permᴰ.trans p q) h = sort_func-perm p h ∙ sort_func-perm q (All-perm Listed p h)

  insert_sorted-IsSorted :
      (x : A) (ys : List A) → IsSorted before ys → IsSorted before (insert_sorted before x ys)
  unfolding insert_sorted
  insert_sorted-IsSorted x [] h = (tt, tt)
  insert_sorted-IsSorted x (y ∷ ys) h =
      let rest = insert_sorted-IsSorted x ys h.1 in
      elim (Bool-cases (before x y)) [
        | inl e ↦ rw e ((asymmetric x y e, All-later x y e ys h.0), h)
        | inr e ↦ rw e (All-insert_sorted (λ w. before w y ≡ false) before x ys e h.0, rest)
      ]
    where
      All-later :
          (x y : A)
          → before x y ≡ true
          → (ws : List A) → All (λ w. before w y ≡ false) ws
          → All (λ w. before w x ≡ false) ws
      All-later x y e [] h = tt
      All-later x y e (w ∷ ws) h = (
        elim (Bool-cases (before w x)) [
          | inl f ↦ let g = v.transitive w x y f e in absurd (let h' = h.0 in cc)
          | inr f ↦ f
        ],
        All-later x y e ws h.1,
      )

  pub sort_func-IsSorted : (xs : List A) → IsSorted before (sort_func before xs)
  unfolding sort_func
  sort_func-IsSorted [] = tt
  sort_func-IsSorted (x ∷ xs) =
      insert_sorted-IsSorted x (sort_func before xs) (sort_func-IsSorted xs)
