-- ===== src/Operator/Wiring.antt =====
-- The objects that the builders make fit each other.
use mathlib.Core.Path.{subst}
use text.Mathlib.Text.{◌==◌ as str_eq}
use text.Mathlib.TextPositions.{eq_refl}
use async_fastapi_template.Prelude.{
  String, ◌≡◌, ◌⊎◌, refl, Bool, true, ◌&&◌, none, some, some_injective, [], ◌∷◌, any, Option-cases,
  Bool-cases, inl, inr,
}
use async_fastapi_template.Operator.Objects.{
  Labels, Spec, Deployment, Autoscaler, DisruptionBudget, or_default, meta_of, labels_of,
  build_deployment, build_service, build_hpa, build_pdb,
}

-- A selector matches labels that have each of its pairs.
abbrev pub matches : Labels → Labels → Bool
matches [] labels = true
matches ((k, v) ∷ rest) labels =
    any (λ (l : String × String). str_eq k l.0 && str_eq v l.1) labels && matches rest labels

-- The service, and the autoscaler and the disruption budget if there are any, stand for the
-- deployment.
abbrev pub IsWired : String → String → Spec → Deployment → Type 0
IsWired name ns spec d =
    (matches d.match_labels d.pod_labels ≡ true)
    × (matches (build_service name ns spec).selector d.pod_labels ≡ true)
    × ((build_service name ns spec).target_port ≡ d.container.container_port)
    × (d.container.readiness_port ≡ d.container.container_port)
    × (d.container.liveness_port ≡ d.container.container_port)
    × ((build_hpa name ns spec ≡ none)
        ⊎ ((a : Autoscaler) × (build_hpa name ns spec ≡ some a)
            × (a.target_name ≡ d.metadata.name)
            × (a.metadata.namespace ≡ d.metadata.namespace)))
    × ((build_pdb name ns spec ≡ none)
        ⊎ ((b : DisruptionBudget) × (build_pdb name ns spec ≡ some b)
            × (matches b.match_labels d.pod_labels ≡ true)
            × (b.metadata.namespace ≡ d.metadata.namespace)))

app_label : (name ns : String) → matches (("app", name) ∷ []) (labels_of name ns) ≡ true
unfolding labels_of
app_label name ns = rw (eq_refl name) refl

scaled :
    (name ns : String) (spec : Spec)
    → (build_hpa name ns spec ≡ none)
      ⊎ ((a : Autoscaler) × (build_hpa name ns spec ≡ some a)
          × (a.target_name ≡ name)
          × (a.metadata.namespace ≡ ns))
unfolding build_hpa
scaled name ns spec = elim (Bool-cases spec.autoscaling.is_enabled) [
  | inl e ↦
      let scaling = spec.autoscaling in
      let a : Autoscaler = record {
        metadata = meta_of name ns;
        min_replicas = or_default scaling.min_replicas 2;
        max_replicas = or_default scaling.max_replicas 10;
        target_name = name;
        cpu_percentage = or_default scaling.cpu_percentage 80;
      } in
      inr (a, rw (build_hpa, e) refl, refl, refl)
  | inr e ↦ inl (rw (build_hpa, e) refl)
]

budgeted :
    (name ns : String) (spec : Spec)
    → (build_pdb name ns spec ≡ none)
      ⊎ ((b : DisruptionBudget) × (build_pdb name ns spec ≡ some b)
          × (matches b.match_labels (labels_of name ns) ≡ true)
          × (b.metadata.namespace ≡ ns))
unfolding build_pdb
budgeted name ns spec = elim (Option-cases spec.pdb) [
  | inl e ↦ inl (rw (build_pdb, e) refl)
  | inr (n, e) ↦
      let b : DisruptionBudget = record {
        metadata = meta_of name ns;
        min_available = or_default n 1;
        match_labels = ("app", name) ∷ [];
      } in
      inr (b, rw (build_pdb, e) refl, app_label name ns, refl)
]

-- The objects that are built of a specification with an image fit each other: the selectors of
-- the deployment, the service and the disruption budget, if there is one, match the labels of the
-- pods, the service and both probes go to the port of the container, and an autoscaler, if there
-- is one, targets the deployment, in its namespace.
pub build_deployment-IsWired :
    (name ns : String) (spec : Spec) (d : Deployment)
    → build_deployment name ns spec ≡ some d
    → IsWired name ns spec d
unfolding build_deployment build_service build_hpa build_pdb labels_of
build_deployment-IsWired name ns spec d b = elim (Option-cases spec.image) [
  | inl e ↦ absurd (cc (rw (build_deployment, e) at b))
  | inr (image, e) ↦
      let port = or_default spec.port 8000 in
      let built : Deployment = record {
        metadata = meta_of name ns;
        replicas = or_default spec.replicas 2;
        match_labels = ("app", name) ∷ [];
        pod_labels = labels_of name ns;
        container = record {
          image = image;
          container_port = port;
          env = spec.env;
          resources = spec.resources;
          readiness_port = port;
          liveness_port = port;
        };
      } in
      subst (IsWired name ns spec) (some_injective built d (rw (build_deployment, e) at b)) (
        app_label name ns,
        app_label name ns,
        refl,
        refl,
        refl,
        scaled name ns spec,
        budgeted name ns spec,
      )
]
