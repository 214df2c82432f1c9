-- ===== src/Gateway/Router.antt =====
-- Model routing (internal/gateway/router.go).
pub mod Order
use gpu_platform_control_pla.Base.{
  ℕ, ◌≡◌, Bool, true, false, List, [], ◌∷◌, ◌++◌, map, Option, none, some, ltb, ◌==◌, if◌then◌else◌,
}
use gpu_platform_control_pla.Base.Text.{Text, text, text_lt, text_eq}
use gpu_platform_control_pla.Base.Clock.{Time}
use gpu_platform_control_pla.Base.Sort.{sort_func}
use gpu_platform_control_pla.Gateway.Types.{BackendRef}

pub record InferenceDeployment : Type 0 where
  pub namespace : Text
  pub name : Text
  pub created : Time
  pub port : ℕ
  pub model_name : Text

unfoldable pub serving_port : InferenceDeployment → ℕ
serving_port d = if d.port == 0 then 8080 else d.port

unfoldable pub older_infd : InferenceDeployment → InferenceDeployment → Bool
older_infd a b = if a.created == b.created then text_lt a.name b.name else ltb a.created b.created

pub data RouteError : Type 0 where
  list_failed no_route : RouteError

pub data RouteResult : Type 0 where
  backends : List BackendRef → RouteResult
  failed : RouteError → RouteResult

-- The controller's Service of the same name and namespace. Names are DNS labels, of which url.Parse
-- makes an address, so its error is not modelled.
unfoldable pub backend_ref : Text → InferenceDeployment → BackendRef
unfolding serving_port
backend_ref model d = record {
  namespace = d.namespace;
  name = d.name;
  port = serving_port d;
  url = record {
    host = d.name ++ (text "." ++ (d.namespace ++ text ".svc"));
    port = serving_port d;
  };
  model = model;
}

-- `listed` is what the client's List gave for the policy's target namespace and the model, `none`
-- where it failed.
unfoldable pub backends_for : Option (List InferenceDeployment) → Text → RouteResult
unfolding backend_ref sort_func
backends_for none model = failed list_failed
backends_for (some []) model = failed no_route
backends_for (some (d ∷ ds)) model =
    backends (map (backend_ref model) (sort_func older_infd (d ∷ ds)))
