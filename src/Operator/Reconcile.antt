-- ===== src/Operator/Reconcile.antt =====
-- What a reconciliation does with what `kopf.adopt` returns.
use async_fastapi_template.Prelude.{
  String, ◌≡◌, refl, ap, Option, none, some, Option-cases, inl, inr,
}
use async_fastapi_template.Operator.{
  Kind, deployments, Fault, missing, refused, invalid, no_image, Api, create_or_patch, reconcile,
}
use async_fastapi_template.Operator.Objects.{Spec, Object, deployment, build_deployment}

module _ (api : Api) (adopt : Object → Option Object) where
  open api use {Store}

  create_or_patch-none :
      (k : Kind) (name ns : String) (s : Store)
      → (f : Fault) × (create_or_patch api adopt k name ns none s ≡ (some f, s))
  unfolding create_or_patch
  create_or_patch-none k name ns s = elim (Option-cases (api.read k name ns s)) [
    | inl r ↦
        let p = api.patch_none k name ns s in
        (
          invalid,
          rw
              (
                create_or_patch,
                r,
                ap (λ (x : Option Fault × Store). x.0) p,
                ap (λ (x : Option Fault × Store). x.1) p,
              )
              refl,
        )
    | inr (missing, r) ↦ (invalid, rw (create_or_patch, r, api.create_none k ns s) refl)
    | inr (refused, r) ↦ (refused, rw (create_or_patch, r) refl)
    | inr (invalid, r) ↦ (invalid, rw (create_or_patch, r) refl)
    | inr (no_image, r) ↦ (no_image, rw (create_or_patch, r) refl)
  ]

  -- As `kopf.adopt` returns `None`, every reconciliation raises and leaves the cluster as it was.
  pub reconcile_fails :
      (spec : Spec) (name ns : String) (s : Store)
      → ((o : Object) → adopt o ≡ none)
      → (f : Fault) × (reconcile api adopt spec name ns s ≡ (some f, s))
  unfolding reconcile
  reconcile_fails spec name ns s returns = elim (Option-cases (build_deployment name ns spec)) [
    | inl b ↦ (no_image, rw (reconcile, b) refl)
    | inr (d, b) ↦
        let (f, e) = create_or_patch-none deployments name ns s in
        (f, rw (reconcile, b, returns (deployment d), e) refl)
  ]
