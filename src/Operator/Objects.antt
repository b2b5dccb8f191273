-- ===== src/Operator/Objects.antt =====
-- The specification of a FastAPIApp in operator/handlers.py, and the objects that the builders
-- make of it. The values that it has for resources and the environment are texts; a key that
-- holds `null` counts as missing.
use async_fastapi_template.Prelude.{
  ℕ, String, Bool, not, Option, none, some, List, [], ◌∷◌, if◌then◌else◌,
}

abbrev pub Labels : Type 0
Labels = List (String × String)

-- The `spec` of a FastAPIApp; `pdb` is none if it is missing or empty.
pub record Autoscaling : Type 0 where
  pub is_enabled : Bool
  pub min_replicas : Option ℕ
  pub max_replicas : Option ℕ
  pub cpu_percentage : Option ℕ

pub record Resources : Type 0 where
  pub requests : Labels
  pub limits : Labels

pub record Spec : Type 0 where
  pub image : Option String
  pub replicas : Option ℕ
  pub port : Option ℕ
  pub env : Labels
  pub resources : Option Resources
  pub autoscaling : Autoscaling
  pub pdb : Option (Option ℕ)

abbrev pub or_default : {A : Type 0} → Option A → A → A
or_default none a = a
or_default (some b) a = b

-- The objects of the cluster, with the fields that the builders set
pub record Meta : Type 0 where
  pub name : String
  pub namespace : String
  pub labels : Labels

pub record Container : Type 0 where
  pub image : String
  pub container_port : ℕ
  pub env : Labels
  pub resources : Option Resources
  pub readiness_port : ℕ
  pub liveness_port : ℕ

pub record Deployment : Type 0 where
  pub metadata : Meta
  pub replicas : ℕ
  pub match_labels : Labels
  pub pod_labels : Labels
  pub container : Container

pub record Service : Type 0 where
  pub metadata : Meta
  pub selector : Labels
  pub port : ℕ
  pub target_port : ℕ

pub record Autoscaler : Type 0 where
  pub metadata : Meta
  pub min_replicas : ℕ
  pub max_replicas : ℕ
  pub target_name : String
  pub cpu_percentage : ℕ

pub record DisruptionBudget : Type 0 where
  pub metadata : Meta
  pub min_available : ℕ
  pub match_labels : Labels

pub data Object : Type 0 where
  deployment : Deployment → Object
  service : Service → Object
  autoscaler : Autoscaler → Object
  budget : DisruptionBudget → Object

-- `_labels`
unfoldable pub labels_of : String → String → Labels
labels_of name namespace =
    ("app", name)
    ∷ ("app.kubernetes.io/managed-by", "fastapi-operator")
    ∷ ("app.kubernetes.io/name", name)
    ∷ ("app.kubernetes.io/namespace", namespace)
    ∷ []

abbrev pub meta_of : String → String → Meta
meta_of name namespace = record {
  name = name;
  namespace = namespace;
  labels = labels_of name namespace;
}

-- `build_deployment`, which raises without an image
unfoldable pub build_deployment : String → String → Spec → Option Deployment
unfolding labels_of
build_deployment name namespace spec =
    let port = or_default spec.port 8000 in
    elim spec.image [
      | none ↦ none
      | some image ↦ some (record {
        metadata = meta_of name namespace;
        replicas = or_default spec.replicas 2;
        match_labels = ("app", name) ∷ [];
        pod_labels = labels_of name namespace;
        container = record {
          image = image;
          container_port = port;
          env = spec.env;
          resources = spec.resources;
          readiness_port = port;
          liveness_port = port;
        };
      })
    ]

-- `build_service`
unfoldable pub build_service : String → String → Spec → Service
unfolding labels_of
build_service name namespace spec =
    let port = or_default spec.port 8000 in
    record {
      metadata = meta_of name namespace;
      selector = ("app", name) ∷ [];
      port = port;
      target_port = port;
    }

-- `build_hpa`
unfoldable pub build_hpa : String → String → Spec → Option Autoscaler
unfolding labels_of
build_hpa name namespace spec =
    let scaling = spec.autoscaling in
    if not scaling.is_enabled
    then none
    else some (record {
      metadata = meta_of name namespace;
      min_replicas = or_default scaling.min_replicas 2;
      max_replicas = or_default scaling.max_replicas 10;
      target_name = name;
      cpu_percentage = or_default scaling.cpu_percentage 80;
    })

-- `build_pdb`
unfoldable pub build_pdb : String → String → Spec → Option DisruptionBudget
unfolding labels_of
build_pdb name namespace spec = elim spec.pdb [
  | none ↦ none
  | some min_available ↦ some (record {
    metadata = meta_of name namespace;
    min_available = or_default min_available 1;
    match_labels = ("app", name) ∷ [];
  })
]
