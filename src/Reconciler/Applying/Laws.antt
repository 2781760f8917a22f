-- ===== src/Reconciler/Applying/Laws.antt =====
-- What applyNewResources does to ignored objects, and what the absence of errors means.
use gardener_resource_manage.Prelude.{
  String, Bool, true, none, List, [], ◌∷◌, ◌++◌, ◌≡◌, refl, sym, ◌∙◌, ap, inl, inr, arith,
}
use gardener_resource_manage.Prelude.Tests.{if◌then◌else◌, string_eq, Option-cases, ◌==◌}
use gardener_resource_manage.Prelude.Lists.{All}
use gardener_resource_manage.Prelude.Dict.{lookup, lookup-delete}
use gardener_resource_manage.Errors.{Error, Result, ok, err, Result-cases}
use gardener_resource_manage.Exec.{Exec}
use gardener_resource_manage.Api.Types.{StringMap}
use gardener_resource_manage.Objects.{
  Unstructured, get_annotations, get_labels, get_name, get_namespace, metadata_of, entries,
}
use gardener_resource_manage.Merge.{description_annotation}
use gardener_resource_manage.Equivalences.{Equivalences}
use gardener_resource_manage.Reconciler.Annotations.{ignore}
use gardener_resource_manage.Reconciler.Scaling.{
  ScaledObjects, is_scaled, compute_all_scaled_object_keys,
}
use gardener_resource_manage.Reconciler.Applying.{
  Object, Applier, without_description, mutate, apply_once, apply_object, apply_objects,
  apply_new_resources, error_of,
}

nil_deleted :
    (k : String)
    → lookup {V = String} k [] ≡ (if description_annotation == k then none else lookup k [])
unfolding lookup
nil_deleted k = ground arith

module _ {W C T V : Type 0} (a : Applier W C T V) (origin : String) (labels : StringMap) where
  -- An object that asks to be ignored is left as it is in the cluster, whatever is desired, but for
  -- the description annotation, which it loses; the desired object stays as it is, too.
  pub mutate_ignored :
      (o : Object C) (h v : Bool) (desired current : Unstructured C) (k : String)
      → ignore desired ≡ true
      → (let s = mutate a origin labels o h v (desired, current) in
          (s.0 ≡ ok tt)
          × (s.1.0 ≡ desired)
          × (s.1.1.content ≡ current.content)
          × (s.1.1.gvk ≡ current.gvk)
          × (s.1.1.status ≡ current.status)
          × (get_name s.1.1 ≡ get_name current)
          × (get_namespace s.1.1 ≡ get_namespace current)
          × ((metadata_of s.1.1).rest ≡ (metadata_of current).rest)
          × (get_labels s.1.1 ≡ get_labels current)
          × (lookup k (entries (get_annotations s.1.1)) ≡ (
              if description_annotation == k
              then none
              else lookup k (entries (get_annotations current)))))
  unfolding mutate without_description
  mutate_ignored o h v desired current k ignored =
      rw ignored (elim (Option-cases (get_annotations current)) [
        | inl p ↦
            rw (p, without_description)
              (refl, refl, refl, refl, refl, refl, refl, refl, refl, rw p (nil_deleted k))
        | inr (m, p) ↦
            rw (p, without_description)
              (
                refl,
                refl,
                refl,
                refl,
                refl,
                ground arith,
                ground arith,
                refl,
                ground arith,
                lookup-delete description_annotation k m,
              )
      ])

  -- The error list is empty only if each object had an attempt that came to its end.
  abbrev pub Applied : ScaledObjects → Equivalences → Object C → Type 0
  Applied scaled equivalences o =
      (s : W × (Unstructured C × Unstructured C)) × ((apply_once a origin labels o
          (is_scaled o.obj scaled.horizontally equivalences)
          (is_scaled o.obj scaled.vertically equivalences) s).0
        ≡ ok tt)

  module _
      (retried : (fn : Exec (W × (Unstructured C × Unstructured C)) (Unit {0}))
          (s : W × (Unstructured C × Unstructured C))
        → (s' : W × (Unstructured C × Unstructured C)) × (a.retry_on_conflict fn s ≡ fn s')) where
    no_error :
        (r : Result (Unit {0})) (es : List Error)
        → (error_of a origin labels r ++ es) ≡ []
        → (r ≡ ok tt) × (es ≡ [])
    no_error (ok _) es eq = (refl, eq)
    no_error (err e) es eq = ground arith

    apply_object-Applied :
        (scaled : ScaledObjects) (equivalences : Equivalences) (o : Object C) (w : W)
        → (apply_object a origin labels o scaled equivalences w).0 ≡ ok tt
        → Applied scaled equivalences o
    unfolding apply_object
    apply_object-Applied scaled equivalences o w eq =
        let (s', run) =
          retried
            (apply_once a origin labels o (is_scaled o.obj scaled.horizontally equivalences)
              (is_scaled o.obj scaled.vertically equivalences))
            (w, (o.obj, o.obj)) in
        (s', ap (λ x. x.0) (sym run) ∙ eq)

    apply_objects-Applied :
        (scaled : ScaledObjects) (equivalences : Equivalences) (os : List (Object C)) (w : W)
        → (apply_objects a origin labels scaled equivalences os w).0 ≡ []
        → All (Applied scaled equivalences) os
    unfolding apply_objects
    apply_objects-Applied scaled equivalences [] w eq = tt
    apply_objects-Applied scaled equivalences (o ∷ os) w eq =
        let first = apply_object a origin labels o scaled equivalences w in
        let both =
          no_error first.0 (apply_objects a origin labels scaled equivalences os first.1).0 eq in
        (
          apply_object-Applied scaled equivalences o w both.0,
          apply_objects-Applied scaled equivalences os first.1 both.1,
        )

    -- When applyNewResources gives no error, the scaled objects were computed, and each object had
    -- an attempt that succeeded; for a retry whose result is that of one of its attempts.
    pub apply_new_resources-Applied :
        (os : List (Object C)) (equivalences : Equivalences) (w : W)
        → (apply_new_resources a origin labels os equivalences w).0 ≡ []
        → (scaled : ScaledObjects) × (compute_all_scaled_object_keys (a.autoscalers w) ≡ ok scaled)
          × All (Applied scaled equivalences) os
    unfolding apply_new_resources
    apply_new_resources-Applied os equivalences w eq =
        elim (Result-cases (compute_all_scaled_object_keys (a.autoscalers w))) [
          | inl (scaled, is_scaled) ↦ (
            scaled,
            is_scaled,
            apply_objects-Applied scaled equivalences os w (rw is_scaled at eq),
          )
          | inr (e, fails) ↦ ground (arith, rw fails at eq)
        ]
