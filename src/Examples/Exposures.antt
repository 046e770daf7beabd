-- ===== src/Examples/Exposures.antt =====
-- The theorems on the objects that expose a service, at work.
use logic_operator.Prelude.{ℕ, suc, ◌≡◌, refl, some, [], ◌∷◌, ok, err, inr, false, text_Eq}
use logic_operator.Prelude.Assoc.Entries.{entries_of}
use logic_operator.Api.Client.{not_found}
use logic_operator.Api.Conditions.Reference.{reference_api}
use logic_operator.Api.Service.{LogicFlowService}
use logic_operator.Controller.Ingress.Annotations.{canary_weight}
use logic_operator.Controller.Service.{ServiceServer, delete_stale_canary_ingresses}
use logic_operator.Controller.Networking.{
  Exposed, apply_networking, apply_default, apply_default_ingress, reconcile_service,
}
use logic_operator.Controller.Networking.Safe.{panicked, reconcile_service-safe}
use logic_operator.Controller.Networking.Refs.{IsSettled, apply_networking-IsSettled}
use logic_operator.Examples.Admissions.{runtime}
use logic_operator.Examples.Data.{def_of, service}

-- A service whose resource sets the weight itself
abbrev weighted : LogicFlowService
weighted = record service {
  spec = record service.spec {
    ingress = record service.spec.ingress { annotations = (canary_weight, "30") ∷ [] };
  };
}

-- A cluster that counts the Ingresses that it was given
abbrev server : ServiceServer ℕ
server = record {
  get_service = λ w namespace name. ok service;
  get_definition = λ w namespace name. ok (def_of name "1.0");
  get_runtime = λ w namespace name. ok runtime;
  get_route = λ w namespace name. err not_found;
  get_ingress = λ w namespace name. ok (record { rules = "shop.example.com" ∷ []; balancers = [] });
  get_http_route = λ w namespace name. err not_found;
  apply_ingress = λ w ingress. ok (suc w);
  apply_http_route = λ w route. ok w;
  patch_route = λ w route. ok w;
  delete_ingress = λ w namespace name. err (not_found, w);
  write_status = λ w svc. ok w;
}

reconcile_service-safe_example :
    panicked reference_api entries_of server false false
      (reconcile_service reference_api entries_of server false false "shop" "shop" 0)
    ≡ false
reconcile_service-safe_example =
    reconcile_service-safe reference_api entries_of server false false "shop" "shop" 0 service refl
      (inr refl)

abbrev exposed : Exposed
exposed = record {
  service = service;
  runtime = runtime;
  definitions = def_of "order-v1" "1.0" ∷ [];
  namespace = "shop";
  name = "order";
}

abbrev after : LogicFlowService
after = record service { status = record service.status { ingress_ref = some "shop" } }

networked : apply_networking reference_api entries_of server false false exposed 0 ≡ ok (1, after)
unfolding apply_networking apply_default apply_default_ingress delete_stale_canary_ingresses
networked = refl

apply_networking-IsSettled_example : IsSettled reference_api service after
apply_networking-IsSettled_example =
    apply_networking-IsSettled reference_api entries_of server false false exposed 0 1 after
      networked
