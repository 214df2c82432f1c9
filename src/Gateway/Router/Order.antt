-- ===== src/Gateway/Router/Order.antt =====
-- Routing is deterministic, oldest first, and stays within what was listed.
use mathlib.Core.List.{Permᴰ, Memᴰ}
use gpu_platform_control_pla.Base.{
  ◌≡◌, refl, ap, ◌⊎◌, ◌↔◌, inl, inr, true, false, List, [], ◌∷◌, map, some, arith,
}
use gpu_platform_control_pla.Base.Text.{Text, text_lt_irrefl, text_lt_trans, text_lt_total}
use gpu_platform_control_pla.Base.Sort.{
  IsStrict, IsSorted, sort_func, sort_func-perm, sort_func-IsSorted, All-self, perm-sort_func,
}
use gpu_platform_control_pla.Gateway.Types.{BackendRef}
use gpu_platform_control_pla.Gateway.Router.{
  InferenceDeployment, older_infd, backend_ref, backends_for, backends,
}

older_irrefl : (a : InferenceDeployment) → older_infd a a ≡ false
unfolding older_infd
older_irrefl a = ground (arith, text_lt_irrefl a.name)

older_trans :
    (a b c : InferenceDeployment)
    → older_infd a b ≡ true
    → older_infd b c ≡ true
    → older_infd a c ≡ true
unfolding older_infd
older_trans a b c h k = ground (arith, text_lt_trans a.name b.name c.name)

older_total :
    (a b : InferenceDeployment)
    → (older_infd a b ≡ true) ⊎ ((older_infd b a ≡ true) ⊎ (a.name ≡ b.name))
unfolding older_infd
older_total a b = ground (arith, text_lt_total a.name b.name)

-- Any two of the listed deployments with one name are one deployment.
abbrev pub NamesDiffer : List InferenceDeployment → Type 0
NamesDiffer xs = (a b : InferenceDeployment) → Memᴰ a xs → Memᴰ b xs → a.name ≡ b.name → a ≡ b

older-IsStrict :
    (xs : List InferenceDeployment) → NamesDiffer xs → IsStrict older_infd (λ a. Memᴰ a xs)
older-IsStrict xs unique = record {
  irreflexive = older_irrefl;
  transitive = older_trans;
  decides = λ a b p q. elim (older_total a b) [
    | inl h ↦ inl h
    | inr (inl h) ↦ inr (inl h)
    | inr (inr e) ↦ inr (inr (unique a b p q e))
  ];
}

-- A list with an item is not a permutation of the empty one.
perm_nil : {xs ys : List InferenceDeployment} → Permᴰ xs ys → (xs ≡ []) ↔ (ys ≡ [])
perm_nil Permᴰ.nil = (λ h. refl, λ h. refl)
perm_nil (Permᴰ.cons e p) = (λ h. absurd (cc), λ h. absurd (cc))
perm_nil (Permᴰ.swap e f) = (λ h. absurd (cc), λ h. absurd (cc))
perm_nil (Permᴰ.trans p q) =
    (λ h. (perm_nil q).0 ((perm_nil p).0 h), λ h. (perm_nil p).1 ((perm_nil q).1 h))

-- Two gateways that list the same deployments in different orders route a model alike: to the
-- same backends in the same order, where the names of the deployments differ.
pub routing_is_stable :
    (xs ys : List InferenceDeployment) (model : Text)
    → Permᴰ xs ys
    → NamesDiffer xs
    → backends_for (some xs) model ≡ backends_for (some ys) model
unfolding backends_for
routing_is_stable [] [] model p u = refl
routing_is_stable [] (y ∷ ys) model p u = let e = (perm_nil p).0 refl in absurd (cc)
routing_is_stable (x ∷ xs) [] model p u = let e = (perm_nil p).1 refl in absurd (cc)
routing_is_stable (x ∷ xs) (y ∷ ys) model p u =
    ap (λ ds. backends (map (backend_ref model) ds))
      (sort_func-perm (older-IsStrict (x ∷ xs) u) p
        (All-self (λ a. Memᴰ a (x ∷ xs)) (x ∷ xs) (λ a m. m)))

-- What a model routes to is the listed deployments, each once, no later one older than an earlier
-- one: the head is the oldest, and the rest are what a fallback walks.
routing_oldest_first :
    (xs : List InferenceDeployment) (model : Text) {refs : List BackendRef}
    → NamesDiffer xs
    → backends_for (some xs) model ≡ backends refs
    → (ds : List InferenceDeployment) × (refs ≡ map (backend_ref model) ds)
      × Permᴰ xs ds
      × IsSorted older_infd ds
unfolding backends_for
routing_oldest_first [] model u h = absurd (cc)
routing_oldest_first (x ∷ xs) model {refs} u h = (
  sort_func older_infd (x ∷ xs),
  (let e : refs ≡ map (backend_ref model) (sort_func older_infd (x ∷ xs)) = cc in e),
  perm-sort_func older_infd (x ∷ xs),
  sort_func-IsSorted (older-IsStrict (x ∷ xs) u) (x ∷ xs),
)
