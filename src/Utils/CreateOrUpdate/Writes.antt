-- ===== src/Utils/CreateOrUpdate/Writes.antt =====
-- Which writes TypedCreateOrUpdate makes: a log beside the world takes every object that Create or
-- Update is called with.
use gardener_resource_manage.Prelude.{
  Bool, true, not, ◌&&◌, ◌||◌, List, [], ◌∷◌, ◌≡◌, refl, inl, inr, arith,
}
use gardener_resource_manage.Prelude.Tests.{Bool-cases}
use gardener_resource_manage.Errors.{Result, ok, err}
use gardener_resource_manage.Exec.{Exec}
use gardener_resource_manage.Objects.{Unstructured}
use gardener_resource_manage.Utils.CreateOrUpdate.{
  OperationResult, Registration, Reading, present, absent, failed, ObjectClient, Written,
  after_write, create_mutated, update_mutated, after_reading, read_current, read_typed,
  read_untyped, typed_create_or_update,
}

pub data Call (C : Type 0) : Type 0 where
  created_with updated_with deleted_with : Unstructured C → Call C

abbrev pub with_log : {W A L : Type 0} → L → Result A × W → Result A × (W × L)
with_log log (r, w) = (r, (w, log))

abbrev pub logged : {W C T : Type 0} → ObjectClient W C T → ObjectClient (W × List (Call C)) C T
logged client = record {
  registration = client.registration;
  get_typed = λ o s. with_log s.1 (client.get_typed o s.0);
  get = λ o s. with_log s.1 (client.get o s.0);
  convert = client.convert;
  create = λ o s. with_log (created_with o ∷ s.1) (client.create o s.0);
  update = λ o s. with_log (updated_with o ∷ s.1) (client.update o s.0);
  delete = λ o s. with_log (deleted_with o ∷ s.1) (client.delete o s.0);
  deep_equal = client.deep_equal;
}

module _ {W C T M : Type 0} (client : ObjectClient W C T) (always_update : Bool)
    (mutate : Exec (M × Unstructured C) (Unit {0})) (m : M) (o : Unstructured C) where
  -- What was read, the operation that is reported, and the calls that it takes.
  abbrev pub Allowed : Reading C → OperationResult → List (Call C) → Type 0
  Allowed r OperationResult.unchanged [] = Unit
  Allowed absent OperationResult.created (created_with o' ∷ []) =
      (m' : M) × (mutate (m, o) ≡ (ok tt, (m', o')))
  Allowed (present existing) OperationResult.updated (updated_with o' ∷ []) =
      (m' : M) × (mutate (m, existing) ≡ (ok tt, (m', o')))
      × ((always_update || not (client.deep_equal existing o')) ≡ true)
  Allowed _ _ _ = ⊥

  abbrev AllowedRun : Reading C → Written (W × List (Call C)) C M → Type 0
  AllowedRun r s = Allowed r s.0.0 s.1.0.1

  create_allowed :
      (w : W) (r : Result (Unit {0}) × (M × Unstructured C))
      → mutate (m, o) ≡ r
      → AllowedRun absent (
          create_mutated
            (logged client).create
            (logged client).update
            client.deep_equal
            always_update
            mutate
            (w, [])
            r)
  create_allowed w (err e, s) eq = tt
  create_allowed w (ok _, (m', o')) eq = by_answer (client.create o' w)
    where
      by_answer :
          (a : Result (Unstructured C) × W)
          → AllowedRun absent (
              after_write
                (logged client).create
                (logged client).update
                client.deep_equal
                always_update
                mutate
                OperationResult.created
                m'
                o'
                (with_log (created_with o' ∷ []) a))
      by_answer (ok answer, w') = (m', eq)
      by_answer (err e, w') = (m', eq)

  update_allowed :
      (existing : Unstructured C) (w : W) (r : Result (Unit {0}) × (M × Unstructured C))
      → mutate (m, existing) ≡ r
      → AllowedRun (present existing) (
          update_mutated
            (logged client).create
            (logged client).update
            client.deep_equal
            always_update
            mutate
            existing
            (w, [])
            r)
  update_allowed existing w (err e, s) eq = tt
  update_allowed existing w (ok _, (m', o')) eq =
      elim (Bool-cases (not always_update && client.deep_equal existing o')) [
        | inl same ↦ rw (same, update_mutated) tt
        | inr differs ↦ rw (differs, update_mutated) (by_answer (ground arith) (client.update o' w))
      ]
    where
      by_answer :
          ((always_update || not (client.deep_equal existing o')) ≡ true)
          → (a : Result (Unstructured C) × W)
          → AllowedRun (present existing) (
              after_write
                (logged client).create
                (logged client).update
                client.deep_equal
                always_update
                mutate
                OperationResult.updated
                m'
                o'
                (with_log (updated_with o' ∷ []) a))
      by_answer due (ok answer, w') = (m', eq, due)
      by_answer due (err e, w') = (m', eq, due)

  after_reading_allowed :
      (r : Reading C) (w : W)
      → AllowedRun r (
          after_reading
            (logged client).create
            (logged client).update
            client.deep_equal
            always_update
            mutate
            m
            o
            (r, (w, [])))
  after_reading_allowed (present existing) w = update_allowed existing w (mutate (m, existing)) refl
  after_reading_allowed absent w = create_allowed w (mutate (m, o)) refl
  after_reading_allowed (failed e) w = tt

  read_logged :
      (w : W) (log : List (Call C))
      → read_current (logged client) o (w, log)
        ≡ ((read_current client o w).0, ((read_current client o w).1, log))
  unfolding read_current
  read_logged w log = by_registration (client.registration o.gvk) refl
    where
      by_typed :
          (a : Result T × W)
          → read_typed (logged client) (with_log log a)
            ≡ ((read_typed client a).0, ((read_typed client a).1, log))
      by_typed (ok t, w') = refl
      by_typed (err e, w') = refl

      by_untyped :
          (a : Result (Unstructured C) × W)
          → read_untyped (logged client) (with_log log a)
            ≡ ((read_untyped client a).0, ((read_untyped client a).1, log))
      by_untyped (ok t, w') = refl
      by_untyped (err e, w') = refl

      by_registration :
          (g : Registration)
          → client.registration o.gvk ≡ g
          → read_current (logged client) o (w, log)
            ≡ ((read_current client o w).0, ((read_current client o w).1, log))
      by_registration Registration.registered e =
          rw (e, read_current) (by_typed (client.get_typed o w))
      by_registration Registration.unsupported e = rw (e, read_current) refl
      by_registration Registration.unregistered e =
          rw (e, read_current) (by_untyped (client.get o w))

  -- At most one write is made, and the reported operation names it: a create only if the object was
  -- read as absent, with what the mutation makes of the given object; an update only with what it
  -- makes of the object that was read, and only if that differs or updates are always wanted.
  pub typed_create_or_update_writes :
      (w : W)
      → Allowed
          (read_current client o w).0
          (typed_create_or_update (logged client) always_update mutate ((w, []), (m, o))).0.0
          (typed_create_or_update (logged client) always_update mutate ((w, []), (m, o))).1.0.1
  unfolding typed_create_or_update
  typed_create_or_update_writes w =
      rw (read_logged w [])
        (after_reading_allowed (read_current client o w).0 (read_current client o w).1)
