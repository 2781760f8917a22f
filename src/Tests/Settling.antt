-- ===== src/Tests/Settling.antt =====
-- A deletion whose object is gone, and an update that is refused as invalid.
use gardener_resource_manage.Prelude.{ℕ, false, none, [], ◌∷◌, ◌≡◌, refl, inl, inr}
use gardener_resource_manage.Prelude.Lists.{contains}
use gardener_resource_manage.Prelude.Tests.{string_eq, Bool-cases}
use gardener_resource_manage.Errors.{Reason, Error, ok, err, is_not_found}
use gardener_resource_manage.Api.Types.{ManagedResource}
use gardener_resource_manage.Filter.{new_class_filter}
use gardener_resource_manage.Utils.Finalizers.{delete_finalizer, deleted}
use gardener_resource_manage.Utils.Update.{try_update, attempt}
use gardener_resource_manage.Utils.Backoff.{exponential_backoff, backoff_loop}
use gardener_resource_manage.Reconciler.Cleaning.{is_gone}
use gardener_resource_manage.Reconciler.Control.{done, try_update_conditions}
use gardener_resource_manage.Reconciler.Steps.{Reconciler, try_conditions}
use gardener_resource_manage.Reconciler.Run.{delete}
use gardener_resource_manage.Reconciler.Run.Settling.{IsResponsive, delete_settles}
use gardener_resource_manage.Reconciler.Applying.{apply_once}
use gardener_resource_manage.Reconciler.Applying.Deletions.{with_log, Justified, apply_once_writes}
use gardener_resource_manage.Tests.Data.{resource_of, config_ref}
use gardener_resource_manage.Tests.Reconciling.{target, reconciler, applier}
use gardener_resource_manage.Tests.Runs.{applied_object, current}

abbrev gone : Error
gone = record { reason = Reason.not_found; message = "gone" }

-- A target cluster without objects.
abbrev emptied : Reconciler ManagedResource ℕ ℕ ℕ
emptied = record reconciler { target = record target { get = λ ref w. (err gone, w) } }

emptied-IsResponsive : IsResponsive emptied
unfolding try_conditions try_update_conditions try_update exponential_backoff backoff_loop attempt
    delete_finalizer
emptied-IsResponsive = record {
  conditions = λ c s. refl;
  finalizer = λ s. elim (Bool-cases (contains (new_class_filter "").finalizer s.0.finalizers)) [
    | inl held ↦ rw (held, deleted) refl
    | inr free ↦ rw (free, deleted) refl
  ];
}

delete_settles_example :
    (delete emptied
      (resource_of none [] (config_ref ∷ []), resource_of none [] (config_ref ∷ []))).0
    ≡ ok done
unfolding is_gone is_not_found
delete_settles_example =
    delete_settles emptied emptied-IsResponsive (resource_of none [] (config_ref ∷ []))
      (resource_of none [] (config_ref ∷ [])) (λ w. inl (gone, refl, refl), tt)

apply_once_writes_example :
    Justified
      (apply_once
        (with_log applier (λ fn. fn))
        "origin"
        []
        applied_object
        false
        false
        ((resource_of none [] [], []), (current, current))).1.0.1
apply_once_writes_example =
    apply_once_writes applier (λ fn. fn) "origin" [] applied_object false false
      (resource_of none [] []) current current
