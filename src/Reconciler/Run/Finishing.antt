-- ===== src/Reconciler/Run/Finishing.antt =====
-- What is applied and recorded at the end of a run that succeeds.
use gardener_resource_manage.Prelude.{
  String, false, not, ◌||◌, ◌⊎◌, List, [], ◌∷◌, ◌≡◌, refl, sym, ◌∙◌, ap, inl, inr,
}
use gardener_resource_manage.Prelude.Tests.{if◌then◌else◌, string_eq, Bool-cases}
use gardener_resource_manage.Prelude.Lists.{is_empty}
use gardener_resource_manage.Sorting.{sort_object_references}
use gardener_resource_manage.ErrorLists.{new_error_format_func_with_prefix}
use gardener_resource_manage.Errors.{Error, ok, errorf, ok_injective, ◌+++◌}
use gardener_resource_manage.Exec.{
  pure, raise, bind_ok, wrap_ok, Fails, bind-Fails, raise-Fails, ◌>>=◌, ◌>>◌,
}
use mathlib.Core.Path.{subst}
use gardener_resource_manage.Api.Types.{
  resources_healthy, condition_unknown, health_checks_pending, condition_true, condition_false,
  condition_progressing, apply_succeeded, apply_failed, decoding_failed, resources_applied,
  ManagedResource, ManagedResourceCondition, ObjectReference,
}
use gardener_resource_manage.Api.Conditions.{get_or_init_condition, updated_condition}
use gardener_resource_manage.Equivalences.{Equivalences}
use gardener_resource_manage.Utils.Update.{IsServer, try_update_settles}
use gardener_resource_manage.Reconciler.Applying.{apply_new_resources}
use gardener_resource_manage.Reconciler.Decoding.{Decoded, DecodingError}
use gardener_resource_manage.Reconciler.Control.{
  Requeue, after, set_status, try_update_status, no_status,
}
use gardener_resource_manage.Reconciler.Steps.{
  kept_progress, Reconciler, status_of, progress, updated, try_conditions,
}
use gardener_resource_manage.Reconciler.Run.{finish, outcome, record_status, apply, apply_failure}
use gardener_resource_manage.Reconciler.Run.Laws.{IsRecorded}

module _ {W C T V : Type 0} (r : Reconciler W C T V) where
  apply_failure-Fails :
      (c : ManagedResourceCondition) (text : String) → Fails (apply_failure r c text)
  unfolding apply_failure
  apply_failure-Fails c text =
      bind-Fails (updated r c condition_false apply_failed text)
        (λ c'.
          try_conditions r (c' ∷ [])
          >> raise (errorf ("could not apply all new resources: " +++ text)))
        (λ c'.
          bind-Fails (try_conditions r (c' ∷ []))
            (λ _. raise (errorf ("could not apply all new resources: " +++ text)))
            (λ _. raise-Fails _))

  updated_type :
      (applied c : ManagedResourceCondition) (status reason message : String)
      (s s' : W × ManagedResource)
      → updated r applied status reason message s ≡ (ok c, s')
      → c.type ≡ applied.type
  unfolding updated updated_condition
  updated_type applied c status reason message s s' eq =
      ap (λ c. c.type) (ok_injective (ap (λ x. x.0) (sym eq)))

  written_type :
      (healthy applied c : ManagedResourceCondition) (s s' : W × ManagedResource)
      → (updated r applied condition_progressing
              (kept_progress r applied).0
              (kept_progress r applied).1
            >>= λ c. try_conditions r (healthy ∷ c ∷ []) >> pure c)
          s
        ≡ (ok c, s')
      → c.type ≡ applied.type
  written_type healthy applied c s s' eq =
      let (c', w', first, last) =
        bind_ok
          (updated r applied condition_progressing (kept_progress r applied).0
            (kept_progress r applied).1)
          (λ c. try_conditions r (healthy ∷ c ∷ []) >> pure c) s c s' eq in
      let (u, w'', tried, done) =
        bind_ok (try_conditions r (healthy ∷ c' ∷ [])) (λ _. pure c') w' c s' last in
      ap (λ c. c.type) (ok_injective (ap (λ x. x.0) (sym done)))
      ∙ updated_type applied c' condition_progressing _ _ s w' first

  pub progress_type :
      (references : List ObjectReference) (applied c : ManagedResourceCondition)
      (s s' : W × ManagedResource)
      → progress r references applied s ≡ (ok c, s')
      → c.type ≡ applied.type
  unfolding progress
  progress_type references applied c s s' eq =
      elim (Bool-cases (
        is_empty s.1.status.resources
        || not (r.references_equal s.1.status.resources references))) [
          | inr same ↦ ap (λ c. c.type) (ok_injective (ap (λ x. x.0) (sym (rw same at eq))))
          | inl changed ↦
              let (healthy, w, _, rest) =
                bind_ok
                  (updated r
                    (get_or_init_condition ((status_of r s.1).now s.0) s.1.status.conditions
                      resources_healthy)
                    condition_unknown health_checks_pending
                    "The health checks have not yet been executed for the current set of resources.")
                  (λ healthy.
                    updated r applied condition_progressing (kept_progress r applied).0
                      (kept_progress r applied).1
                    >>= λ c. try_conditions r (healthy ∷ c ∷ []) >> pure c)
                  s c s' (rw changed at eq) in
              written_type healthy applied c w s' rest
        ]

  module _ (held : W → ManagedResource)
      (server : (mr : ManagedResource) (references : List ObjectReference)
          (c : ManagedResourceCondition)
        → IsServer (status_of r mr).access held (IsRecorded r references c)) where
    -- The condition that a run with these decoding errors, and no others, reports.
    abbrev pub IsReported : List DecodingError → ManagedResourceCondition → Type 0
    IsReported errors c =
        (c.type ≡ resources_applied)
        × (((errors ≡ []) × (c.status ≡ condition_true) × (c.reason ≡ apply_succeeded))
            ⊎ ((is_empty errors ≡ false)
                × (c.status ≡ condition_false)
                × (c.reason ≡ decoding_failed)))

    outcome-IsReported :
        (errors : List DecodingError) (applied c : ManagedResourceCondition)
        (s w : W × ManagedResource)
        → applied.type ≡ resources_applied
        → outcome r errors applied s ≡ (ok c, w)
        → IsReported errors c
    unfolding outcome updated updated_condition is_empty
    outcome-IsReported [] applied c s w t eq =
        let is = ok_injective (ap (λ x. x.0) (sym eq)) in
        (ap (λ x. x.type) is ∙ t, inl (refl, ap (λ x. x.status) is, ap (λ x. x.reason) is))
    outcome-IsReported (e ∷ errors) applied c s w t eq =
        let is = ok_injective (ap (λ x. x.0) (sym eq)) in
        (ap (λ x. x.type) is ∙ t, inr (refl, ap (λ x. x.status) is, ap (λ x. x.reason) is))

    -- The condition of this run, and what it records, as the server holds it.
    abbrev pub Recorded : List ObjectReference → List DecodingError → W × ManagedResource → Type 0
    Recorded references errors s' =
        (c : ManagedResourceCondition) × IsReported errors c
        × (held s'.0 ≡ s'.1)
        × IsRecorded r references c s'.1

    finish_ok :
        (references : List ObjectReference) (errors : List DecodingError)
        (applied : ManagedResourceCondition) (s s' : W × ManagedResource) (q : Requeue)
        → applied.type ≡ resources_applied
        → finish r references errors applied s ≡ (ok q, s')
        → Recorded references errors s'
    unfolding finish try_update_status set_status
    finish_ok references errors applied s s' q t eq =
        let (c, w, decided, rest) =
          bind_ok (outcome r errors applied)
            (λ c. record_status r references (c ∷ []) >> pure (after r.sync_period)) s q s' eq in
        let (u, w', tried, last) =
          bind_ok (record_status r references (c ∷ [])) (λ _. pure (after r.sync_period)) w q s'
            rest in
        let client = status_of r w.1 in
        let (is_held, recorded) =
          subst (λ (x : W × ManagedResource). (held x.0 ≡ x.1) × IsRecorded r references c x.1)
            (ap (λ x. x.1) last)
            (try_update_settles ⦃e = client.equal⦄ client.access (set_status references (c ∷ []))
              held (IsRecorded r references c) (server w.1 references c)
              (λ obj _. (refl, refl, (obj.status.conditions, refl))) client.waiting
              client.default_backoff w w'
              (wrap_ok no_status (try_update_status client references (c ∷ [])) w u w' tried)) in
        (c, outcome-IsReported errors applied c s w t decided, is_held, recorded)

    -- The objects of a run, applied without an error from the given world on, and recorded in the
    -- status that the server holds.
    abbrev pub Completed :
        String → Equivalences → Decoded C → W × ManagedResource → W × ManagedResource → Type 0
    Completed owner equivalences s v s' =
        ((w : W) × (apply_new_resources r.applier owner v.1.spec.inject_labels s.objects
              equivalences v.0
            ≡ ([], w)))
        × Recorded (sort_object_references r.sort s.references) s.errors s'

    pub apply_ok :
        (owner : String) (equivalences : Equivalences) (s : Decoded C)
        (applied : ManagedResourceCondition) (st st' : W × ManagedResource) (q : Requeue)
        → applied.type ≡ resources_applied
        → apply r owner equivalences (sort_object_references r.sort s.references) s applied st
          ≡ (ok q, st')
        → Completed owner equivalences s st st'
    unfolding apply is_empty
    apply_ok owner equivalences s applied st st' q t eq =
        by_errors
          (apply_new_resources r.applier owner st.1.spec.inject_labels s.objects equivalences st.0)
          refl eq
      where
        by_errors :
            (out : List Error × W)
            → apply_new_resources r.applier owner st.1.spec.inject_labels s.objects equivalences
                st.0
              ≡ out
            → (if is_empty out.0
                  then finish r (sort_object_references r.sort s.references) s.errors applied
                  else apply_failure r applied
                      (new_error_format_func_with_prefix "Could not apply all new resources" out.0))
                (out.1, st.1)
              ≡ (ok q, st')
            → Completed owner equivalences s st st'
        by_errors ([], w) is_out e = (
          (w, is_out),
          finish_ok (sort_object_references r.sort s.references) s.errors applied (w, st.1) st' q t
              e,
        )
        by_errors (x ∷ xs, w) is_out e = absurd (apply_failure-Fails applied _ (w, st.1) st' q e)
