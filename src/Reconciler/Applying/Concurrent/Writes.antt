-- ===== src/Reconciler/Applying/Concurrent/Writes.antt =====
-- Which writes an object of applyNewResources asks for.
use gardener_resource_manage.Prelude.{String, Bool, true, ◌≡◌, ◌⊎◌}
use gardener_resource_manage.Errors.{ok}
use gardener_resource_manage.Api.Types.{StringMap}
use gardener_resource_manage.Objects.{Unstructured}
use gardener_resource_manage.Equivalences.{Equivalences}
use gardener_resource_manage.Utils.CreateOrUpdate.{present, absent, read_current}
use gardener_resource_manage.Utils.CreateOrUpdate.Writes.{
  Call, created_with, updated_with, deleted_with,
}
use gardener_resource_manage.Reconciler.Annotations.{delete_on_invalid_update}
use gardener_resource_manage.Reconciler.Scaling.{ScaledObjects, is_scaled}
use gardener_resource_manage.Reconciler.Applying.{Object, Applier, mutate}

-- The desired and the current object that the goroutine of an object can hold: at first both are the
-- object; a mutation works on the desired one and on what was read of the current one, or on the
-- current one itself where nothing was there; and the answer to a write replaces the current one.
pub data Held {W C T V : Type 0} (a : Applier W C T V) (origin : String) (labels : StringMap)
    (o : Object C) (h v : Bool) : Unstructured C × Unstructured C → Type 0 where
  begun : Held a origin labels o h v (o.obj, o.obj)
  missing_mutated :
      (d c : Unstructured C) (w : W)
      → Held a origin labels o h v (d, c)
      → (read_current a.client c w).0 ≡ absent
      → Held a origin labels o h v (mutate a origin labels o h v (d, c)).1
  present_mutated :
      (d c existing : Unstructured C) (w : W)
      → Held a origin labels o h v (d, c)
      → (read_current a.client c w).0 ≡ present existing
      → Held a origin labels o h v (mutate a origin labels o h v (d, existing)).1
  answered :
      (d x answer : Unstructured C) (w : W)
      → Held a origin labels o h v (d, x)
      → ((a.client.create x w).0 ≡ ok answer) ⊎ ((a.client.update x w).0 ≡ ok answer)
      → Held a origin labels o h v (d, answer)

module _ {W C T V : Type 0} (a : Applier W C T V) (origin : String) (labels : StringMap)
    (scaled : ScaledObjects) (equivalences : Equivalences) where
  abbrev pub HeldBy : Object C → Unstructured C × Unstructured C → Type 0
  HeldBy o s =
      Held a origin labels o (is_scaled o.obj scaled.horizontally equivalences)
        (is_scaled o.obj scaled.vertically equivalences) s

  -- The mutation of the object has made the one from the other two.
  abbrev pub Makes : Object C → Unstructured C → Unstructured C → Unstructured C → Type 0
  Makes o d c x =
      (d' : Unstructured C) × (mutate a origin labels o
          (is_scaled o.obj scaled.horizontally equivalences)
          (is_scaled o.obj scaled.vertically equivalences) (d, c)
        ≡ (ok tt, (d', x)))

  -- A write that the object asks for: a creation where nothing was read, of what the mutation makes
  -- of the held objects; an update with what it makes of the desired object and the one that was
  -- read; or the deletion of a held object with the annotation for it.
  abbrev pub IsFor : Call C → Object C → Type 0
  IsFor (deleted_with x) o =
      (delete_on_invalid_update x ≡ true) × ((d : Unstructured C) × HeldBy o (d, x))
  IsFor (created_with x) o =
      (d : Unstructured C) × (c : Unstructured C) × (w : W) × HeldBy o (d, c)
      × ((read_current a.client c w).0 ≡ absent)
      × Makes o d c x
  IsFor (updated_with x) o =
      (d : Unstructured C) × (c : Unstructured C) × (existing : Unstructured C) × (w : W) × HeldBy o
        (d, c)
      × ((read_current a.client c w).0 ≡ present existing)
      × Makes o d existing x
