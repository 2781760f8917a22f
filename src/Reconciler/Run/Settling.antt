-- ===== src/Reconciler/Run/Settling.antt =====
-- That a deletion comes to its end.
use gardener_resource_manage.Prelude.{
  String, Bool, false, List, [], ◌∷◌, ◌≡◌, refl, ap, ◌∙◌, inl, inr, arith,
}
use gardener_resource_manage.Prelude.Tests.{◌==◌, string_eq, if◌then◌else◌, Bool-cases}
use gardener_resource_manage.Prelude.Lists.{All, All-mono, is_empty}
use gardener_resource_manage.Prelude.Dict.{Dict, insert}
use gardener_resource_manage.ErrorLists.{new_error_format_func_with_prefix}
use gardener_resource_manage.Errors.{Error, ok}
use gardener_resource_manage.Exec.{pure, wrap, bind_of_ok, wrap_of_ok}
use gardener_resource_manage.Api.Types.{
  ManagedResource, ManagedResourceCondition, ObjectReference, resources_applied,
  condition_progressing, deletion_pending,
}
use gardener_resource_manage.Api.Conditions.{get_or_init_condition, updated_condition}
use gardener_resource_manage.Equivalences.{no_equivalences}
use gardener_resource_manage.ObjectIndex.{ObjectIndex, index_all, new_object_index}
use gardener_resource_manage.Utils.Finalizers.{delete_finalizer}
use gardener_resource_manage.Reconciler.Cleaning.{clean_old_resources}
use gardener_resource_manage.Reconciler.Cleaning.Gone.{Absent, clean_old_resources_settled}
use gardener_resource_manage.Reconciler.Control.{Requeue, done, Run}
use gardener_resource_manage.Reconciler.Steps.{Reconciler, flag, status_of, updated, try_conditions}
use gardener_resource_manage.Reconciler.Run.{
  cleared, kept_deletion, remove_finalizers, cleaned, clean_failed, delete, not_removed,
}

module _ (P : ObjectReference → Type 0) where
  All-insert :
      (key : String) (ref : ObjectReference) (d : Dict String ObjectReference)
      → P ref
      → All (λ x. P x.1) d
      → All (λ x. P x.1) (insert key ref d)
  unfolding insert
  All-insert key ref [] h hs = (h, tt)
  All-insert key ref ((k, r) ∷ d) h (g, gs) = elim (Bool-cases (k == key)) [
    | inl same ↦ rw same (h, gs)
    | inr other ↦ rw other (g, All-insert key ref d h gs)
  ]

  All-index_all :
      (refs : List ObjectReference) (d : Dict String ObjectReference)
      → All P refs
      → All (λ x. P x.1) d
      → All (λ x. P x.1) (index_all refs d)
  unfolding index_all
  All-index_all [] d h hs = hs
  All-index_all (r ∷ refs) d (h, hs) gs = All-index_all refs _ hs (All-insert _ r d h gs)

module _ {W C T V : Type 0} (r : Reconciler W C T V) where
  -- The calls for the status and for the finalizer succeed.
  pub record IsResponsive : Type 0 where
    pub conditions :
        (c : ManagedResourceCondition) (s : W × ManagedResource)
        → (try_conditions r (c ∷ []) s).0 ≡ ok tt
    pub finalizer :
        (s : W × ManagedResource) → (delete_finalizer r.finalizing r.class.finalizer s).0 ≡ ok tt

  module _ (responsive : IsResponsive) where
    remove_finalizers_done : (s : W × ManagedResource) → (remove_finalizers r s).0 ≡ ok done
    unfolding remove_finalizers
    remove_finalizers_done s =
        ap (λ x. x.0)
          (bind_of_ok (wrap (not_removed r) (delete_finalizer r.finalizing r.class.finalizer))
            (λ _. pure done) s tt
            (wrap_of_ok (not_removed r) (delete_finalizer r.finalizing r.class.finalizer) s tt
              (responsive.finalizer s)))

    cleaned_settled :
        (index : ObjectIndex) (c : ManagedResourceCondition) (rest : Run W Requeue)
        (s : W × ManagedResource)
        → (clean_old_resources r.target index s.1 s.0).0 ≡ (false, [])
        → (s' : W × ManagedResource) × (cleaned r index c rest s ≡ rest s')
    unfolding cleaned is_empty
    cleaned_settled index c rest s e = by_errors (clean_old_resources r.target index s.1 s.0) e
      where
        by_errors :
            (out : (Bool × List Error) × W)
            → out.0 ≡ (false, [])
            → (s' : W × ManagedResource) × ((if is_empty out.0.1
                    then rest
                    else clean_failed r c out.0.0 (
                        new_error_format_func_with_prefix "Could not clean all old resources"
                          out.0.1))
                  (out.1, s.1)
                ≡ rest s')
        by_errors ((pending, []), w) h = ((w, s.1), refl)
        by_errors ((pending, x ∷ xs), w) h = ground (arith, ap (λ p. p.1) h)

    cleared_settled :
        (applied : ManagedResourceCondition) (resources : List ObjectReference)
        (s : W × ManagedResource)
        → All (Absent r.target) resources
        → (cleared r applied resources s).0 ≡ ok done
    unfolding cleared updated new_object_index
    cleared_settled applied resources s absent =
        let index = new_object_index resources no_equivalences in
        let c =
          updated_condition ((status_of r s.1).now s.0) applied condition_progressing
            deletion_pending (kept_deletion r applied) in
        let rest = remove_finalizers r in
        let tried =
          bind_of_ok (try_conditions r (c ∷ [])) (λ _. cleaned r index c rest) s tt
            (responsive.conditions c s) in
        let s' = (try_conditions r (c ∷ []) s).1 in
        let gone = All-index_all (Absent r.target) resources [] absent tt in
        let (s'', same) = cleaned_settled index c rest s' (
          clean_old_resources_settled r.target index s'.1 s'.0
            (All-mono (λ x h. inr h) index.index gone)) in
        ap (λ x. x.0) tried ∙ ap (λ x. x.0) same ∙ remove_finalizers_done s''

    -- When the objects that the status lists are gone, or ask to be kept, and the calls for the
    -- status and the finalizer succeed, then a deletion ends at once, and asks for no other run.
    pub delete_settles :
        (w : W) (mr : ManagedResource)
        → All (Absent r.target) mr.status.resources
        → (delete r (w, mr)).0 ≡ ok done
    unfolding delete
    delete_settles w mr absent = elim (Bool-cases (flag mr.spec.keep_objects)) [
      | inl kept ↦ rw (kept, delete) (remove_finalizers_done (w, mr))
      | inr removed ↦
          rw (removed, delete)
            (cleared_settled
              (get_or_init_condition ((status_of r mr).now w) mr.status.conditions
                resources_applied)
              mr.status.resources (w, mr) absent)
    ]
