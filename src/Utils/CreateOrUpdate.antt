-- ===== src/Utils/CreateOrUpdate.antt =====
-- TypedCreateOrUpdate. `C` is the content of unstructured objects, `T` the typed objects of the
-- scheme, `M` what the mutating function has captured beside the object.
use gardener_resource_manage.Prelude.{
  String, Bool, true, false, not, ◌&&◌, ◌||◌, List, [], ◌∷◌, ◌≡◌, refl, sym, ◌∙◌, inl, inr, arith,
}
use gardener_resource_manage.Prelude.Tests.{if◌then◌else◌, Bool-cases}
use gardener_resource_manage.Errors.{Error, Result, ok, err, errorf, is_not_found, quoted, ◌+++◌}
use gardener_resource_manage.Exec.{Exec}
use gardener_resource_manage.Api.Types.{GroupVersionKind}
use gardener_resource_manage.Objects.{Unstructured}
pub mod Writes

-- controllerutil.OperationResult
pub data OperationResult : Type 0 where
  unchanged created updated : OperationResult

-- What scheme.New has for a kind: a typed client.Object, another type, or an error.
pub data Registration : Type 0 where
  registered unsupported unregistered : Registration

-- What the read of the current state comes to.
pub data Reading (C : Type 0) : Type 0 where
  present : Unstructured C → Reading C
  absent : Reading C
  failed : Error → Reading C

pub record ObjectClient (W C T : Type 0) : Type 0 where
  pub registration : GroupVersionKind → Registration
  pub get_typed : Unstructured C → Exec W T
  pub get : Unstructured C → Exec W (Unstructured C)
  pub convert : T → Result (Unstructured C)
  pub create : Unstructured C → Exec W (Unstructured C)
  pub update : Unstructured C → Exec W (Unstructured C)
  pub delete : Unstructured C → Exec W (Unit {0})
  pub deep_equal : Unstructured C → Unstructured C → Bool

-- GroupVersionKind.String()
abbrev pub gvk_text : GroupVersionKind → String
gvk_text k = k.group +++ ("/" +++ (k.version +++ (", Kind=" +++ k.kind)))

abbrev pub unsupported_type : {C : Type 0} → Unstructured C → Error
unsupported_type o = errorf ("object type " +++ (quoted (gvk_text o.gvk) +++ " is unsupported"))

module _ {W C T : Type 0} (client : ObjectClient W C T) where
  abbrev pub missing : Error → Reading C
  missing e = if is_not_found e then absent else failed e

  abbrev pub converted : Result (Unstructured C) → Reading C
  converted (ok o) = present o
  converted (err e) = failed e

  abbrev pub read_typed : Result T × W → Reading C × W
  read_typed (ok t, w) = (converted (client.convert t), w)
  read_typed (err e, w) = (missing e, w)

  abbrev pub read_untyped : Result (Unstructured C) × W → Reading C × W
  read_untyped (ok o, w) = (present o, w)
  read_untyped (err e, w) = (missing e, w)

  unfoldable pub read_current : Unstructured C → W → Reading C × W
  read_current o w = elim (client.registration o.gvk) [
    | registered ↦ read_typed (client.get_typed o w)
    | unsupported ↦ (failed (unsupported_type o), w)
    | unregistered ↦ read_untyped (client.get o w)
  ]

-- The result beside the state: the world, and the captured values beside the object.
abbrev pub Written : Type 0 → Type 0 → Type 0 → Type 0
Written W C M = (OperationResult × Result (Unit {0})) × (W × (M × Unstructured C))

module _ {W C M : Type 0} (create update : Unstructured C → Exec W (Unstructured C))
    (deep_equal : Unstructured C → Unstructured C → Bool) (always_update : Bool)
    (mutate : Exec (M × Unstructured C) (Unit {0})) where
  abbrev pub after_write :
      OperationResult → M → Unstructured C → Result (Unstructured C) × W → Written W C M
  after_write op m o (ok answer, w) = ((op, ok tt), (w, (m, answer)))
  after_write op m o (err e, w) = ((op, err e), (w, (m, o)))

  abbrev pub create_mutated : W → Result (Unit {0}) × (M × Unstructured C) → Written W C M
  create_mutated w (err e, s) = ((OperationResult.unchanged, err e), (w, s))
  create_mutated w (ok _, (m, o)) = after_write OperationResult.created m o (create o w)

  abbrev pub update_mutated :
      Unstructured C → W → Result (Unit {0}) × (M × Unstructured C) → Written W C M
  update_mutated existing w (err e, s) = ((OperationResult.unchanged, err e), (w, s))
  update_mutated existing w (ok _, (m, o)) =
      if not always_update && deep_equal existing o
      then ((OperationResult.unchanged, ok tt), (w, (m, o)))
      else after_write OperationResult.updated m o (update o w)

  abbrev pub after_reading : M → Unstructured C → Reading C × W → Written W C M
  after_reading m o (failed e, w) = ((OperationResult.unchanged, err e), (w, (m, o)))
  after_reading m o (absent, w) = create_mutated w (mutate (m, o))
  after_reading m o (present existing, w) = update_mutated existing w (mutate (m, existing))

unfoldable pub typed_create_or_update :
    {W C T M : Type 0}
    → ObjectClient W C T
    → Bool
    → Exec (M × Unstructured C) (Unit {0})
    → W × (M × Unstructured C)
    → Written W C M
unfolding read_current
typed_create_or_update client always_update mutate (w, (m, o)) =
    after_reading client.create client.update client.deep_equal always_update mutate m o
      (read_current client o w)
