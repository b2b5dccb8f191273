-- ===== src/Operator.antt =====
-- operator/handlers.py: the Kubernetes operator, which makes and keeps the resources of an
-- application. The API of the cluster and `kopf.adopt` are parameters.
pub mod Objects
pub mod Reconcile
pub mod Wiring
mod Tests
use text.Mathlib.Text.{◌==◌ as str_eq}
use async_fastapi_template.Prelude.{
  ℕ, String, Bool, true, false, ◌≡◌, ◌⊎◌, not, Option, none, some, List, [], ◌∷◌, if◌then◌else◌,
}
use async_fastapi_template.Operator.Objects.{
  Spec, or_default, Object, deployment, service, autoscaler, budget, labels_of, meta_of,
  build_deployment, build_service, build_hpa, build_pdb,
}

pub data Kind : Type 0 where
  deployments services autoscalers budgets : Kind

-- `ApiException` with the status 404 or another, the ApiValueError of a call without a body, and
-- the error of a specification without an image
pub data Fault : Type 0 where
  missing refused invalid no_image : Fault

-- The client of the API, whose calls by name come before those by body. A body may be `None`: then
-- a call that needs one raises before anything is sent.
pub record Api : Type 1 where
  pub Store : Type 0
  pub read : Kind → String → String → Store → Option Fault
  pub create : Kind → String → Option Object → Store → Option Fault × Store
  pub patch : Kind → String → String → Option Object → Store → Option Fault × Store
  pub remove : Kind → String → String → Store → Option Fault × Store
  pub create_none : (k : Kind) (ns : String) (s : Store) → create k ns none s ≡ (some invalid, s)
  pub patch_none :
      (k : Kind) (name ns : String) (s : Store) → patch k name ns none s ≡ (some invalid, s)

-- `adopt` is `kopf.adopt`: what it returns, which may be `None`.
module _ (api : Api) (adopt : Object → Option Object) where
  open api use {Store, read, create, patch, remove}

  -- The `except` of `_create_or_patch`
  abbrev pub on_fault : Kind → String → Option Object → Fault → Store → Option Fault × Store
  on_fault k ns desired missing s = create k ns desired s
  on_fault k ns desired f s = (some f, s)

  -- `_create_or_patch`
  unfoldable pub create_or_patch :
      Kind → String → String → Option Object → Store → Option Fault × Store
  create_or_patch k name ns desired s = elim (read k name ns s) [
    | some f ↦ on_fault k ns desired f s
    | none ↦
        let (fault, s') = patch k name ns desired s in
        elim fault [ none ↦ (none, s') | some f ↦ on_fault k ns desired f s' ]
  ]

  -- `_delete_if_exists`
  unfoldable pub delete_if_exists : Kind → String → String → Store → Option Fault × Store
  delete_if_exists k name ns s =
      let (fault, s') = remove k name ns s in
      elim fault [ none ↦ (none, s') | some missing ↦ (none, s') | some f ↦ (some f, s') ]

  -- The rest of a call runs if nothing was raised.
  abbrev pub and_then : Option Fault × Store → (Store → Option Fault × Store) → Option Fault × Store
  and_then (none, s) k = k s
  and_then (some f, s) k = (some f, s)

  -- An object that is wanted or not
  abbrev pub keep : Kind → String → String → Option Object → Store → Option Fault × Store
  keep k name ns none s = delete_if_exists k name ns s
  keep k name ns (some o) s = create_or_patch k name ns (adopt o) s

  abbrev pub wrap : {A : Type 0} → (A → Object) → Option A → Option Object
  wrap f none = none
  wrap f (some a) = some (f a)

  -- `reconcile`
  unfoldable pub reconcile : Spec → String → String → Store → Option Fault × Store
  unfolding create_or_patch delete_if_exists build_deployment build_service build_hpa build_pdb
  reconcile spec name ns s = elim (build_deployment name ns spec) [
    | none ↦ (some no_image, s)
    | some d ↦ and_then (create_or_patch deployments name ns (adopt (deployment d)) s) (λ s1.
        and_then
          (create_or_patch services name ns (adopt (service (build_service name ns spec))) s1)
          (λ s2.
            and_then (keep autoscalers name ns (wrap autoscaler (build_hpa name ns spec)) s2)
              (λ s3. keep budgets name ns (wrap budget (build_pdb name ns spec)) s3)))
  ]
