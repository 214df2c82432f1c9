-- ===== src/Gateway/Tenant.antt =====
-- The tenant of a request (internal/gateway/tenant.go).
pub mod Bearer
use gpu_platform_control_pla.Base.{
  ℕ, ◌-◌, ◌+◌, Bool, true, false, not, ◌&&◌, ◌||◌, List, [], ◌∷◌, Option, none, some, leb, ◌==◌,
  if◌then◌else◌,
}
use gpu_platform_control_pla.Base.Text.{Text, text, text_eq}
use gpu_platform_control_pla.Base.Maps.{Map, lookup}
unfoldable pub use gpu_platform_control_pla.Base.Strings.{is_space}

-- strings.Cut at the first space.
unfoldable pub cut_space : Text → Option (Text × Text)
cut_space [] = none
cut_space (c ∷ cs) =
    let rest = cut_space cs in
    if c == 32 then some ([], cs) else elim rest [ none ↦ none | some p ↦ some (c ∷ p.0, p.1) ]

-- The small letter of an ASCII capital. No letter of "Bearer" folds to one outside ASCII.
unfoldable pub lower : ℕ → ℕ
lower c = if leb 65 c && leb c 90 then c + 32 else c

unfoldable pub fold_case : Text → Text
unfolding lower
fold_case [] = []
fold_case (c ∷ cs) = lower c ∷ fold_case cs

unfoldable pub trim_left : Text → Text
trim_left [] = []
trim_left (c ∷ cs) = let rest = trim_left cs in if is_space c then rest else c ∷ cs

unfoldable pub trim_right : Text → Text
trim_right [] = []
trim_right (c ∷ cs) = elim (trim_right cs) [
  | [] ↦ if is_space c then [] else c ∷ []
  | d ∷ ds ↦ c ∷ (d ∷ ds)
]

unfoldable pub trim_space : Text → Text
unfolding trim_left trim_right
trim_space s = trim_right (trim_left s)

pub data TenantResult : Type 0 where
  tenant_is : Text → TenantResult
  unauthorized : TenantResult
  key_store_unavailable : TenantResult

-- A key's entry: a missing one and an empty one are both unknown.
abbrev pub of_entry : Option Text → TenantResult
of_entry none = unauthorized
of_entry (some []) = unauthorized
of_entry (some (c ∷ cs)) = tenant_is (c ∷ cs)

unfoldable pub look_up_key : Option (Map Text) → Text → TenantResult
look_up_key secret [] = unauthorized
look_up_key none (c ∷ cs) = key_store_unavailable
look_up_key (some data_) (c ∷ cs) = of_entry (lookup (c ∷ cs) data_)

-- `secret` is the data of the api-keys Secret, `none` where it cannot be read.
unfoldable pub resolve_tenant : Option (Map Text) → Text → TenantResult
unfolding cut_space fold_case trim_space look_up_key
resolve_tenant secret h = elim (cut_space h) [
  | none ↦ unauthorized
  | some (scheme, credential) ↦
      if text_eq (fold_case scheme) (text "bearer")
      then look_up_key secret (trim_space credential)
      else unauthorized
]
