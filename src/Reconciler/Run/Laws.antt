-- ===== src/Reconciler/Run/Laws.antt =====
-- What a run of the reconciler has done when it succeeds.
use gardener_resource_manage.Prelude.{
  String, Bool, true, false, List, [], ◌∷◌, ◌≡◌, refl, sym, ◌∙◌, ap, inl, inr, ◌⊎◌, ◌≢◌, arith,
}
use gardener_resource_manage.Prelude.Tests.{if◌then◌else◌, Bool-cases, string_eq}
use gardener_resource_manage.Prelude.Lists.{is_empty, contains}
use gardener_resource_manage.ErrorLists.{new_error_format_func_with_prefix}
use gardener_resource_manage.Errors.{Error, ok, ok_injective}
use gardener_resource_manage.Exec.{pure, wrap, bind_ok, wrap_ok, ◌>>◌}
use mathlib.Core.Path.{subst}
use gardener_resource_manage.Api.Types.{
  condition_progressing, deletion_pending, resources_applied, ManagedResource,
  ManagedResourceCondition, ObjectReference,
}
use gardener_resource_manage.Api.Conditions.{get_or_init_condition, merge_conditions}
use gardener_resource_manage.ObjectIndex.{ObjectIndex, new_object_index}
use gardener_resource_manage.Equivalences.{no_equivalences}
use gardener_resource_manage.Utils.Finalizers.{IsFinalizing, delete_finalizer, delete_finalizer_lem}
use gardener_resource_manage.Reconciler.Cleaning.{clean_old_resources}
use gardener_resource_manage.Reconciler.Control.{Requeue, done, after, Run}
use gardener_resource_manage.Reconciler.Steps.{Reconciler, flag, status_of, updated, try_conditions}
use gardener_resource_manage.Reconciler.Run.{
  cleared, kept_deletion, remove_finalizers, cleaned, clean_failed, delete, not_removed, verdict,
  clean_status, clean_reason,
}

module _ {W C T V : Type 0} (r : Reconciler W C T V) where
  -- The status that a complete run leaves; the condition is merged into those that were there.
  abbrev pub IsRecorded : List ObjectReference → ManagedResourceCondition → ManagedResource → Type 0
  IsRecorded references c mr =
      (mr.status.resources ≡ references)
      × (mr.status.observed_generation ≡ mr.generation)
      × ((old : List ManagedResourceCondition) × (mr.status.conditions
            ≡ merge_conditions old (c ∷ [])))

  remove_finalizers_lem :
      (laws : IsFinalizing r.finalizing) (s s' : W × ManagedResource) (q : Requeue)
      → remove_finalizers r s ≡ (ok q, s')
      → (q ≡ done)
        × (contains r.class.finalizer (r.finalizing.finalizers s'.1) ≡ false)
        × (delete_finalizer r.finalizing r.class.finalizer s ≡ (ok tt, s'))
  unfolding remove_finalizers
  remove_finalizers_lem laws s s' q eq =
      let (a, w, first, rest) =
        bind_ok (wrap (not_removed r) (delete_finalizer r.finalizing r.class.finalizer))
          (λ _. pure done) s q s' eq in
      let removed =
        wrap_ok (not_removed r) (delete_finalizer r.finalizing r.class.finalizer) s a w first in
      let absent =
        delete_finalizer_lem r.finalizing laws r.class.finalizer s (ap (λ x. x.0) removed) in
      (
        ok_injective (sym (ap (λ x. x.0) rest)),
        subst (λ x. contains r.class.finalizer (r.finalizing.finalizers x.1) ≡ false)
            (ap (λ x. x.1) rest)
            (subst (λ x. contains r.class.finalizer (r.finalizing.finalizers x.1) ≡ false)
              (ap (λ x. x.1) removed) absent),
        removed ∙ ap (λ x. (ok tt, x.1)) rest,
      )

  verdict-after :
      (pending : Bool) (text : String) (s s' : W × ManagedResource) (q : Requeue)
      → verdict r pending text s ≡ (ok q, s')
      → q ≡ after 5
  verdict-after true text s s' q eq = ok_injective (sym (ap (λ x. x.0) eq))
  verdict-after false text s s' q eq = ground arith

  clean_failed-after :
      (applied : ManagedResourceCondition) (pending : Bool) (text : String)
      (s s' : W × ManagedResource) (q : Requeue)
      → clean_failed r applied pending text s ≡ (ok q, s')
      → q ≡ after 5
  unfolding clean_failed
  clean_failed-after applied pending text s s' q eq =
      let (c, w, first, rest) =
        bind_ok (updated r applied (clean_status r pending) (clean_reason r pending) text)
          (λ c. try_conditions r (c ∷ []) >> verdict r pending text) s q s' eq in
      let (u, w', tried, last) =
        bind_ok (try_conditions r (c ∷ [])) (λ _. verdict r pending text) w q s' rest in
      verdict-after pending text w' s' q last

  -- The code behind cleanOldResources runs only if that has reported no error.
  pub cleaned_ok :
      (index : ObjectIndex) (applied : ManagedResourceCondition) (rest : Run W Requeue)
      (s s' : W × ManagedResource) (q : Requeue)
      → cleaned r index applied rest s ≡ (ok q, s')
      → ((w : W) × (pending : Bool) × (clean_old_resources r.target index s.1 s.0
            ≡ ((pending, []), w))
          × (rest (w, s.1) ≡ (ok q, s')))
        ⊎ (q ≡ after 5)
  unfolding cleaned is_empty
  cleaned_ok index applied rest s s' q eq =
      by_errors (clean_old_resources r.target index s.1 s.0) refl eq
    where
      by_errors :
          (out : (Bool × List Error) × W)
          → clean_old_resources r.target index s.1 s.0 ≡ out
          → (if is_empty out.0.1
                then rest
                else clean_failed r applied out.0.0
                    (new_error_format_func_with_prefix "Could not clean all old resources" out.0.1))
              (out.1, s.1)
            ≡ (ok q, s')
          → ((w : W) × (pending : Bool) × (clean_old_resources r.target index s.1 s.0
                ≡ ((pending, []), w))
              × (rest (w, s.1) ≡ (ok q, s')))
            ⊎ (q ≡ after 5)
      by_errors ((pending, []), w) is_out e = inl (w, pending, is_out, e)
      by_errors ((pending, x ∷ xs), w) is_out e =
          inr (clean_failed-after applied pending _ (w, s.1) s' q e)

  -- The course of a deletion that does not keep the objects: the condition is written, the old
  -- objects of the status are cleaned without an error, by what the ManagedResource asks for after
  -- that write, and behind that the finalizer is removed.
  pub record Cleared (applied : ManagedResourceCondition) (resources : List ObjectReference)
      (s s' : W × ManagedResource) : Type 0 where
    pub condition : ManagedResourceCondition
    pub after_write : W × ManagedResource
    pub after_clean : W
    pub pending : Bool
    pub updates :
        updated r applied condition_progressing deletion_pending (kept_deletion r applied) s
        ≡ (ok condition, s)
    pub writes : try_conditions r (condition ∷ []) s ≡ (ok tt, after_write)
    pub cleans :
        clean_old_resources r.target
          (new_object_index resources no_equivalences)
          after_write.1
          after_write.0
        ≡ ((pending, []), after_clean)
    pub removes :
        delete_finalizer r.finalizing r.class.finalizer (after_clean, after_write.1) ≡ (ok tt, s')

  cleared_done :
      (laws : IsFinalizing r.finalizing) (applied : ManagedResourceCondition)
      (resources : List ObjectReference) (s s' : W × ManagedResource) (q : Requeue)
      → cleared r applied resources s ≡ (ok q, s')
      → q ≢ after 5
      → (q ≡ done)
        × (contains r.class.finalizer (r.finalizing.finalizers s'.1) ≡ false)
        × Cleared applied resources s s'
  unfolding cleared updated
  cleared_done laws applied resources s s' q eq other =
      let index = new_object_index resources no_equivalences in
      let (c, w, first, rest) =
        bind_ok (updated r applied condition_progressing deletion_pending (kept_deletion r applied))
          (λ c. try_conditions r (c ∷ []) >> cleaned r index c (remove_finalizers r)) s q s' eq in
      let (u, w', tried, last) =
        bind_ok (try_conditions r (c ∷ [])) (λ _. cleaned r index c (remove_finalizers r)) w q s'
          rest in
      let same : w ≡ s = ap (λ x. x.1) (sym first) in
      elim (cleaned_ok index c (remove_finalizers r) w' s' q last) [
        | inr late ↦ absurd (other late)
        | inl (v, pending, clean, removed) ↦
            let (is_done, absent, removes) = remove_finalizers_lem laws (v, w'.1) s' q removed in
            (
              is_done,
              absent,
              record {
                condition = c;
                after_write = w';
                after_clean = v;
                pending = pending;
                updates = first ∙ ap (λ x. (ok c, x)) same;
                writes = ap (try_conditions r (c ∷ [])) (sym same) ∙ tried;
                cleans = clean;
                removes = removes;
              },
            )
      ]

  -- A deletion that does not ask to be run again in five seconds has removed the finalizer. Either
  -- the objects are to be kept, and it has done only that; or it has written the condition, cleaned
  -- the old objects of the status without an error, as the ManagedResource then asks for, and
  -- removed the finalizer behind that. For a patch that keeps the finalizers it is given, and a
  -- retry whose result is that of one of its attempts.
  pub delete_done :
      (laws : IsFinalizing r.finalizing) (s s' : W × ManagedResource) (q : Requeue)
      → delete r s ≡ (ok q, s')
      → q ≢ after 5
      → (q ≡ done)
        × (contains r.class.finalizer (r.finalizing.finalizers s'.1) ≡ false)
        × (((flag s.1.spec.keep_objects ≡ true)
              × (delete_finalizer r.finalizing r.class.finalizer s ≡ (ok tt, s')))
            ⊎ Cleared
                (get_or_init_condition
                  ((status_of r s.1).now s.0)
                  s.1.status.conditions
                  resources_applied)
                s.1.status.resources
                s
                s')
  unfolding delete
  delete_done laws s s' q eq other = elim (Bool-cases (flag s.1.spec.keep_objects)) [
    | inl keep ↦
        let (is_done, absent, removes) = remove_finalizers_lem laws s s' q (rw keep at eq) in
        (is_done, absent, inl (keep, removes))
    | inr clears ↦
        let (is_done, absent, cleaned_old) =
          cleared_done laws _ s.1.status.resources s s' q (rw clears at eq) other in
        (is_done, absent, inr cleaned_old)
  ]
