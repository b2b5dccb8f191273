-- ===== src/Operator/Tests.antt =====
-- An application, and a cluster that keeps what it is given, on which nothing is found.
use async_fastapi_template.Prelude.{◌≡◌, refl, false, Option, none, some, List, [], ◌∷◌}
use async_fastapi_template.Operator.{Fault, missing, invalid, Api, reconcile}
use async_fastapi_template.Operator.Objects.{
  Spec, Object, Deployment, meta_of, labels_of, build_deployment,
}
use async_fastapi_template.Operator.Reconcile.{reconcile_fails}
use async_fastapi_template.Operator.Wiring.{IsWired, build_deployment-IsWired}

abbrev create_in : Option Object → List Object → Option Fault × List Object
create_in none s = (some invalid, s)
create_in (some o) s = (none, o ∷ s)

abbrev cluster : Api
cluster = record {
  Store = List Object;
  read = λ k name ns s. some missing;
  create = λ k ns o s. create_in o s;
  patch = λ k name ns o s. create_in o s;
  remove = λ k name ns s. (some missing, s);
  create_none = λ k ns s. refl;
  patch_none = λ k name ns s. refl;
}

abbrev spec : Spec
spec = record {
  image = some "app:1";
  replicas = none;
  port = some 80;
  env = [];
  resources = none;
  autoscaling = record {
    is_enabled = false;
    min_replicas = none;
    max_replicas = none;
    cpu_percentage = none;
  };
  pdb = some none;
}

abbrev returns_none : Object → Option Object
returns_none o = none

reconcile_fails_example :
    (f : Fault) × (reconcile cluster returns_none spec "api" "prod" [] ≡ (some f, []))
reconcile_fails_example = reconcile_fails cluster returns_none spec "api" "prod" [] (λ o. refl)

abbrev wanted : Deployment
wanted = record {
  metadata = meta_of "api" "prod";
  replicas = 2;
  match_labels = ("app", "api") ∷ [];
  pod_labels = labels_of "api" "prod";
  container = record {
    image = "app:1";
    container_port = 80;
    env = [];
    resources = none;
    readiness_port = 80;
    liveness_port = 80;
  };
}

build_deployment-IsWired_example : IsWired "api" "prod" spec wanted
unfolding build_deployment labels_of
build_deployment-IsWired_example = build_deployment-IsWired "api" "prod" spec wanted refl
