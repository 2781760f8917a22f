-- ===== src/App/Completing.antt =====
-- What CompleteAll leaves for the rest of RunE.
use gardener_resource_manage.Prelude.{String, ◌≡◌, refl, sym, ap, ◌∙◌, inl, inr}
use gardener_resource_manage.Prelude.Tests.{◌==◌, string_eq, if◌then◌else◌, Bool-cases}
use gardener_resource_manage.Errors.{ok}
use gardener_resource_manage.Exec.{Exec, pure, ◌>>=◌, ◌>>◌, bind_ok}
use gardener_resource_manage.Filter.{new_class_filter, default_class}
use gardener_resource_manage.Cmd.{complete_all}
use gardener_resource_manage.Cmd.Platform.{Platform}
use gardener_resource_manage.Cmd.Source
use gardener_resource_manage.Cmd.Target
use gardener_resource_manage.Controllers.Resource
use gardener_resource_manage.Controllers.Secret
use gardener_resource_manage.Controllers.Health
use gardener_resource_manage.App.{
  App, on_app, change, complete_source, complete_target, complete_resource, complete_secret,
  complete_health, completers,
}

module _ (p : Platform) where
  open p use {World, RestConfig, Scheme}

  pub on_app_ok :
      {A : Type 0} (f : App p → Exec World A) (w : World) (a : App p) (x : A) (w' : World)
      (a' : App p)
      → on_app p f (w, a) ≡ (ok x, (w', a'))
      → a' ≡ a
  on_app_ok f w a x w' a' eq = ap (λ r. r.1.1) (sym eq)

  -- What completes on the options alone leaves the rest of the state.
  completed_ok :
      {O : Type 0} (f : App p → Exec World O) (set : O → App p → App p) (w : World) (a : App p)
      (w' : World) (a' : App p)
      → (on_app p f >>= λ o. change p (set o)) (w, a) ≡ (ok tt, (w', a'))
      → (o : O) × (a' ≡ set o a) × (f a w ≡ (ok o, w'))
  completed_ok f set w a w' a' eq =
      let (o, s, first, last) =
        bind_ok (on_app p f) (λ o. change p (set o)) (w, a) tt (w', a') eq in
      (
        o,
        ap (λ r. r.1.1) (sym last) ∙ ap (set o) (on_app_ok f w a o s.0 s.1 first),
        (λ i. ((first i).0, (first i).1.0)) ∙ ap (λ r. (ok o, r.1.0)) last,
      )

  -- The class that a filter is made for, with the default in place of none.
  pub default_filter :
      (class : String)
      → new_class_filter (if class == "" then default_class else class) ≡ new_class_filter class
  unfolding new_class_filter
  default_filter class = elim (Bool-cases (class == "")) [
    | inl empty ↦ rw empty refl
    | inr given ↦
        let same : (if class == "" then default_class else class) ≡ class = rw given refl in
        ap new_class_filter same
  ]

  -- What CompleteAll leaves: the source and target options are completed ones.
  pub record IsCompleted (a a' : App p) : Type 0 where
    pub resource : a'.resource_config ≡ (Resource.complete p a.resource_options).1
    pub secret : a'.secret_config ≡ Secret.complete a.secret_options
    pub target :
        (w₁ : World) × (w₂ : World) × (Target.complete p a.target_options w₁
          ≡ (ok a'.target_options, w₂))
    pub health : a'.health_config ≡ Health.complete p a.health_options

  pub completers_ok :
      (w : World) (a : App p) (w' : World) (a' : App p)
      → complete_all (completers p) (w, a) ≡ (ok tt, (w', a'))
      → IsCompleted a a'
  unfolding complete_all
  completers_ok w a w' a' eq =
      let tail₂ = complete_resource p >> (complete_secret p >> (complete_health p >> pure tt)) in
      let tail = complete_target p >> tail₂ in
      let (u, s, first, rest) = bind_ok (complete_source p) (λ _. tail) (w, _) tt (w', a') eq in
      let (v, s₂, second, rest₂) = bind_ok (complete_target p) (λ _. tail₂) s tt (w', a') rest in
      let (o, same, completes) =
        completed_ok (λ a. Source.complete p a.source_options)
          (λ o a. record a { source_options = o }) w _ s.0 s.1 first in
      let (o₂, same₂, completes₂) =
        completed_ok (λ a. Target.complete p a.target_options)
          (λ o a. record a { target_options = o }) s.0 s.1 s₂.0 s₂.1 second in
      let last = ap (λ r. r.1.1) (sym rest₂) in
      let target_last = ap (λ x. x.target_options) last ∙ ap (λ x. x.target_options) same₂ in
      record {
        target = (
          s.0,
          s₂.0,
          ap (λ x. Target.complete p x.target_options s.0) (sym same)
              ∙ completes₂
              ∙ ap (λ x. (ok x, s₂.0)) (sym target_last),
        );
        resource =
            ap (λ x. x.resource_config) last
            ∙ ap (λ x. (Resource.complete p x.resource_options).1) same₂
            ∙ ap (λ x. (Resource.complete p x.resource_options).1) same;
        secret =
            ap (λ x. x.secret_config) last
            ∙ ap (λ x. Secret.complete x.secret_options) same₂
            ∙ ap (λ x. Secret.complete x.secret_options) same;
        health =
            ap (λ x. x.health_config) last
            ∙ ap (λ x. Health.complete p x.health_options) same₂
            ∙ ap (λ x. Health.complete p x.health_options) same;
      }
