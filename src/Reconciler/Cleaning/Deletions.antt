-- ===== src/Reconciler/Cleaning/Deletions.antt =====
-- Which objects cleanOldResources deletes: a log beside the world takes every object that a Delete
-- is called with.
use gardener_resource_manage.Prelude.{
  ℕ, zero, suc, String, Bool, true, false, ◌||◌, List, [], ◌∷◌, ◌≡◌, refl, ◌∙◌, inl, inr,
}
use gardener_resource_manage.Prelude.Tests.{◌==◌, string_eq, Bool-cases}
use gardener_resource_manage.Prelude.Lists.{contains, All, Any, All-own}
use gardener_resource_manage.Prelude.Dict.{Dict}
use gardener_resource_manage.Errors.{Error, Result, ok, err}
use gardener_resource_manage.Exec.{Exec, ◌>>=◌, follow, wrap, rewrapped}
use gardener_resource_manage.Api.Types.{ObjectReference, ManagedResource, group_kind_eq}
use gardener_resource_manage.Objects.{Unstructured, StatefulSet, group_kind}
use gardener_resource_manage.Merge.{gk}
use gardener_resource_manage.ObjectIndex.{ObjectIndex, is_found}
use gardener_resource_manage.Reconciler.Annotations.{keep_object}
use gardener_resource_manage.Reconciler.Cleaner.{
  TargetClient, cleanup, cleanup_stateful_set, cleanup_claims, cleanup_converted, delete_listed,
  prefixed,
}
use gardener_resource_manage.Reconciler.Cleaning.{
  after_delete, after_cleanup, after_get, clean_one, clean_all, clean_old_resources, deletes_claims,
  resource_text,
}

abbrev pub with_log : {W A L : Type 0} → L → Result A × W → Result A × (W × L)
with_log log (r, w) = (r, (w, log))

abbrev pub logged : {W C : Type 0} → TargetClient W C → TargetClient (W × List (Unstructured C)) C
logged client = record {
  get = λ ref s. with_log s.1 (client.get ref s.0);
  delete = λ foreground o s. with_log (o ∷ s.1) (client.delete foreground o s.0);
  list_claims = λ namespace labels s. with_log s.1 (client.list_claims namespace labels s.0);
  delete_claims = λ namespace labels s. with_log s.1 (client.delete_claims namespace labels s.0);
  to_stateful_set = client.to_stateful_set;
}

module _ {W C : Type 0} (client : TargetClient W C) (index : ObjectIndex) where
  -- The reference is one of the index of old objects.
  abbrev pub IsOld : ObjectReference → Type 0
  IsOld ref = Any (λ x. x.1 ≡ ref) index.index

  -- The object was read for an old reference that was not found again, and does not ask to be kept.
  abbrev pub Deletable : Unstructured C → Type 0
  Deletable o =
      (keep_object o ≡ false)
      × ((ref : ObjectReference) × (w : W) × IsOld ref
          × (is_found index ref ≡ false)
          × ((client.get ref w).0 ≡ ok o))

  abbrev Keeps : {A : Type 0} → Exec (W × List (Unstructured C)) A → Type 0
  Keeps m = (w : W) (log : List (Unstructured C)) → (m (w, log)).1.1 ≡ log

  wrap-Keeps :
      {A : Type 0} (f : Error → Error) (m : Exec W A) → Keeps (wrap f (λ s. with_log s.1 (m s.0)))
  wrap-Keeps {A} f m w log = by_result (m w)
    where
      by_result : (r : Result A × W) → (rewrapped f (with_log log r)).1.1 ≡ log
      by_result (ok a, w) = refl
      by_result (err e, w) = refl

  bind-Keeps :
      {A B : Type 0} (m : Exec (W × List (Unstructured C)) A)
      (n : A → Exec (W × List (Unstructured C)) B)
      → Keeps m
      → ((a : A) → Keeps (n a))
      → Keeps (m >>= n)
  bind-Keeps {A} m n keeps after w log = by_result (m (w, log)) (keeps w log)
    where
      by_result :
          (r : Result A × (W × List (Unstructured C))) → r.1.1 ≡ log → (follow r n).1.1 ≡ log
      by_result (ok a, (w', log')) e = after a w' log' ∙ e
      by_result (err x, (w', log')) e = e

  delete_listed-Keeps : (s : StatefulSet C) (n : ℕ) → Keeps (delete_listed (logged client) s n)
  delete_listed-Keeps s zero w log = refl
  delete_listed-Keeps s (suc n) w log =
      wrap-Keeps (prefixed ": ") (client.delete_claims s.namespace s.match_labels) w log

  cleanup_claims-Keeps :
      (templates : List C) (s : StatefulSet C) → Keeps (cleanup_claims (logged client) templates s)
  cleanup_claims-Keeps [] s w log = refl
  cleanup_claims-Keeps (c ∷ cs) s w log =
      bind-Keeps
        (wrap (prefixed ": could not list PVCs of StatefulSet: ")
          ((logged client).list_claims s.namespace s.match_labels))
        (delete_listed (logged client) s)
        (wrap-Keeps (prefixed ": could not list PVCs of StatefulSet: ")
          (client.list_claims s.namespace s.match_labels))
        (delete_listed-Keeps s) w log

  cleanup_converted-Keeps :
      (r : Result (StatefulSet C)) → Keeps (cleanup_converted (logged client) r)
  cleanup_converted-Keeps (ok s) w log = cleanup_claims-Keeps s.volume_claim_templates s w log
  cleanup_converted-Keeps (err e) w log = refl

  module _ (delete_pvcs : Bool) where
    cleanup_stateful_set-Keeps :
        (o : Unstructured C) (b : Bool) → Keeps (cleanup_stateful_set (logged client) o b)
    unfolding cleanup_stateful_set
    cleanup_stateful_set-Keeps o true w log =
        cleanup_converted-Keeps (client.to_stateful_set o) w log
    cleanup_stateful_set-Keeps o false w log = refl

    cleanup_log :
        (o : Unstructured C) (w : W) (log : List (Unstructured C))
        → (cleanup (logged client) o delete_pvcs (w, log)).1.1 ≡ log
    unfolding cleanup
    cleanup_log o w log =
        elim (Bool-cases (
          group_kind o == gk "apps" "StatefulSet"
          || group_kind o == gk "extensions" "StatefulSet")) [
            | inl set ↦ rw set (cleanup_stateful_set-Keeps o delete_pvcs w log)
            | inr other ↦ rw other refl
          ]

    after_cleanup_log :
        (resource : String) (o : Unstructured C)
        (r : Result (Unit {0}) × (W × List (Unstructured C)))
        → Deletable o
        → All Deletable r.1.1
        → All Deletable (after_cleanup (logged client) delete_pvcs resource o r).1.1
    after_cleanup_log resource o (err e, (w, log)) d ds = ds
    after_cleanup_log resource o (ok _, (w, log)) d ds =
        after_delete_log (client.delete (contains o.gvk.group _) o w)
      where
        after_delete_log :
            (r : Result (Unit {0}) × W)
            → All Deletable
                (after_delete (logged client) delete_pvcs resource (with_log (o ∷ log) r)).1.1
        after_delete_log (err e, w) = (d, ds)
        after_delete_log (ok _, w) = (d, ds)

    after_get_log :
        (ref : ObjectReference) (w₀ : W) (r : Result (Unstructured C) × W)
        (log : List (Unstructured C))
        → IsOld ref
        → is_found index ref ≡ false
        → (client.get ref w₀).0 ≡ r.0
        → All Deletable log
        → All Deletable
            (after_get (logged client) delete_pvcs (resource_text ref) (with_log log r)).1.1
    after_get_log ref w₀ (err e, w) log old lost read ds = ds
    after_get_log ref w₀ (ok o, w) log old lost read ds = elim (Bool-cases (keep_object o)) [
      | inl kept ↦ rw (kept, after_get) ds
      | inr other ↦
          rw (other, after_get)
            (after_cleanup_log (resource_text ref) o
              (cleanup (logged client) o delete_pvcs (w, log)) (other, (ref, w₀, old, lost, read))
              (rw (cleanup_log o w log) ds))
    ]

    clean_all_log :
        (objects : Dict String ObjectReference) (w : W) (log : List (Unstructured C))
        → All (λ x. IsOld x.1) objects
        → All Deletable log
        → All Deletable (clean_all (logged client) delete_pvcs index objects (w, log)).1.1
    unfolding clean_all clean_one
    clean_all_log [] w log olds ds = ds
    clean_all_log ((key, ref) ∷ objects) w log (old, olds) ds =
        elim (Bool-cases (is_found index ref)) [
          | inl found ↦ rw (found, clean_all) (clean_all_log objects w log olds ds)
          | inr lost ↦
              rw (lost, clean_all)
                (clean_all_log objects _ _ olds
                  (after_get_log ref w (client.get ref w) log old lost refl ds))
        ]

  -- Delete is called only with objects that were read for an old reference that was not looked up
  -- in this run and that do not have the annotation to be kept.
  pub clean_old_resources_deletes :
      (mr : ManagedResource) (w : W)
      → All Deletable (clean_old_resources (logged client) index mr (w, [])).1.1
  unfolding clean_old_resources
  clean_old_resources_deletes mr w =
      clean_all_log (deletes_claims mr) index.index w [] (All-own (λ x. x.1) index.index) tt
