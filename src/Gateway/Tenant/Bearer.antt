-- ===== src/Gateway/Tenant/Bearer.antt =====
-- Which headers name a key.
use gpu_platform_control_pla.Base.{ℕ, ◌≡◌, refl, true, false, [], ◌∷◌, ◌++◌, none, some, ◌==◌, All}
use gpu_platform_control_pla.Base.Text.{Text, text, text_eq, text_eq_iff}
use gpu_platform_control_pla.Base.Maps.{Map, lookup}
use gpu_platform_control_pla.Gateway.Tenant.{
  cut_space, fold_case, is_space, trim_left, trim_right, trim_space, look_up_key, resolve_tenant,
  key_store_unavailable, of_entry,
}

cut_space-append :
    (s rest : Text) → All (λ c. (c == 32) ≡ false) s → cut_space (s ++ (32 ∷ rest)) ≡ some (s, rest)
unfolding cut_space
cut_space-append [] rest h = refl
cut_space-append (c ∷ cs) rest (h, k) = rw (h, cut_space-append cs rest k) refl

trim_left-pad : (p s : Text) → All (λ c. is_space c ≡ true) p → trim_left (p ++ s) ≡ trim_left s
unfolding trim_left
trim_left-pad [] s h = refl
trim_left-pad (c ∷ cs) s (h, k) = rw (h, trim_left-pad cs s k) refl

trim_right-pad : (p : Text) → All (λ c. is_space c ≡ true) p → trim_right p ≡ []
unfolding trim_right
trim_right-pad [] h = refl
trim_right-pad (c ∷ cs) (h, k) = rw (trim_right, trim_right-pad cs k, h) refl

trim_right-key :
    (c : ℕ) (key p : Text)
    → All (λ c. is_space c ≡ false) (c ∷ key)
    → All (λ c. is_space c ≡ true) p
    → trim_right (c ∷ (key ++ p)) ≡ c ∷ key
unfolding trim_right
trim_right-key c [] p (h, t) k = rw (trim_right, trim_right-pad p k, h) refl
trim_right-key c (d ∷ ds) p (h, t) k = rw (trim_right, trim_right-key d ds p t k) refl

trim_left-key : (c : ℕ) (s : Text) → is_space c ≡ false → trim_left (c ∷ s) ≡ c ∷ s
unfolding trim_left
trim_left-key c s h = rw (h) refl

trim_space-key :
    (c : ℕ) (key p q : Text)
    → All (λ c. is_space c ≡ false) (c ∷ key)
    → All (λ c. is_space c ≡ true) p
    → All (λ c. is_space c ≡ true) q
    → trim_space (p ++ (c ∷ (key ++ q))) ≡ c ∷ key
unfolding trim_space
trim_space-key c key p q h hp hq =
    rw (trim_left-pad p (c ∷ (key ++ q)) hp, trim_left-key c (key ++ q) h.0)
      (trim_right-key c key q h hq)

-- A header of the scheme Bearer, in whatever case, one space and a key without white space, which
-- white space may surround, resolves to what the Secret holds of that key: its tenant, or
-- unauthorized where it has none or an empty one; and where the Secret cannot be read to an error
-- that is not unauthorized.
pub bearer_resolves :
    (data_ : Map Text) (scheme : Text) (c : ℕ) (key p q : Text)
    → fold_case scheme ≡ text "bearer"
    → All (λ c. (c == 32) ≡ false) scheme
    → All (λ c. is_space c ≡ false) (c ∷ key)
    → All (λ c. is_space c ≡ true) p
    → All (λ c. is_space c ≡ true) q
    → let header = scheme ++ (32 ∷ (p ++ (c ∷ (key ++ q)))) in
      (resolve_tenant (some data_) header ≡ of_entry (lookup (c ∷ key) data_))
      × (resolve_tenant none header ≡ key_store_unavailable)
unfolding resolve_tenant look_up_key
bearer_resolves data_ scheme c key p q hs hb hk hp hq =
    let same : text_eq (fold_case scheme) (text "bearer") ≡ true =
      (text_eq_iff (fold_case scheme) (text "bearer")).1 hs in
    rw
      (
        resolve_tenant,
        cut_space-append scheme (p ++ (c ∷ (key ++ q))) hb,
        same,
        trim_space-key c key p q hk hp hq,
      )
      (refl, refl)
