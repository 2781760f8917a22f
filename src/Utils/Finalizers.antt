-- ===== src/Utils/Finalizers.antt =====
-- EnsureFinalizer and DeleteFinalizer: read, compare, patch with an optimistic lock, under
-- retry.RetryOnConflict.
use gardener_resource_manage.Prelude.{
  String, Bool, true, false, ◌||◌, inl, inr, ◌≡◌, refl, sym, ap, ◌∙◌, arith, List, [], ◌∷◌, ◌++◌,
}
use gardener_resource_manage.Prelude.Tests.{string_eq, if◌then◌else◌, Bool-cases, beq_self}
use gardener_resource_manage.Prelude.Lists.{contains, remove, contains-append, contains-remove}
use gardener_resource_manage.Errors.{Result, ok, err, is_not_found}
use gardener_resource_manage.Exec.{Exec}

-- Objects with a list of finalizers, a client for them, and the retry of client-go.
pub record Finalizing (W O : Type 0) : Type 0 where
  pub finalizers : O → List String
  pub set_finalizers : List String → O → O
  pub get : O → Exec W O
  pub patch : O → O → Exec W O
  pub retry_on_conflict : Exec (W × O) (Unit {0}) → Exec (W × O) (Unit {0})

-- What the code relies on: a setter, a patch that leaves the finalizers it is given, and a retry
-- whose result is that of one of its calls.
pub record IsFinalizing {W O : Type 0} (c : Finalizing W O) : Type 0 where
  pub finalizers-set_finalizers :
      (fs : List String) (o : O) → c.finalizers (c.set_finalizers fs o) ≡ fs
  pub patched :
      (before o answer : O) (w : W)
      → (c.patch before o w).0 ≡ ok answer
      → c.finalizers answer ≡ c.finalizers o
  pub retried :
      (fn : Exec (W × O) (Unit {0})) (s : W × O) → (s' : W × O) × (c.retry_on_conflict fn s ≡ fn s')

module _ {W O : Type 0} (c : Finalizing W O) where
  abbrev pub patched_object : O → Result O × W → Result (Unit {0}) × (W × O)
  patched_object o (ok answer, w) = (ok tt, (w, answer))
  patched_object o (err e, w) = (err e, (w, o))

  -- controllerutil.AddFinalizer
  unfoldable pub add_finalizer : String → O → O
  add_finalizer name o =
      if contains name (c.finalizers o)
      then o
      else c.set_finalizers (c.finalizers o ++ (name ∷ [])) o

  -- controllerutil.RemoveFinalizer
  unfoldable pub remove_finalizer : String → O → O
  remove_finalizer name o = c.set_finalizers (remove name (c.finalizers o)) o

  abbrev pub ensured : String → O → W → Result (Unit {0}) × (W × O)
  ensured name o w =
      if contains name (c.finalizers o)
      then (ok tt, (w, o))
      else patched_object (add_finalizer name o) (c.patch o (add_finalizer name o) w)

  abbrev pub ensured_after_get : String → O → Result O × W → Result (Unit {0}) × (W × O)
  ensured_after_get name o (err e, w) = (err e, (w, o))
  ensured_after_get name o (ok read, w) = ensured name read w

  unfoldable pub ensure_finalizer : String → Exec (W × O) (Unit {0})
  ensure_finalizer name = c.retry_on_conflict (λ s. ensured_after_get name s.1 (c.get s.1 s.0))

  abbrev pub deleted : String → O → W → Result (Unit {0}) × (W × O)
  deleted name o w =
      if contains name (c.finalizers o)
      then patched_object (remove_finalizer name o) (c.patch o (remove_finalizer name o) w)
      else (ok tt, (w, o))

  -- An object that is gone is worked on as it is at hand.
  abbrev pub deleted_after_get : String → O → Result O × W → Result (Unit {0}) × (W × O)
  deleted_after_get name o (err e, w) = if is_not_found e then deleted name o w else (err e, (w, o))
  deleted_after_get name o (ok read, w) = deleted name read w

  unfoldable pub delete_finalizer : String → Exec (W × O) (Unit {0})
  delete_finalizer name = c.retry_on_conflict (λ s. deleted_after_get name s.1 (c.get s.1 s.0))

module _ {W O : Type 0} (c : Finalizing W O) (laws : IsFinalizing c) (name : String) where
  patched_finalizers :
      (o : O) (r : Result O × W)
      → ((answer : O) → r.0 ≡ ok answer → c.finalizers answer ≡ c.finalizers o)
      → (patched_object c o r).0 ≡ ok tt
      → c.finalizers (patched_object c o r).1.1 ≡ c.finalizers o
  patched_finalizers o (ok answer, w) law eq = law answer refl
  patched_finalizers o (err e, w) law eq = refl

  at_end : (b : Bool) → (b || contains name (name ∷ [])) ≡ true
  unfolding contains
  at_end true = refl
  at_end false = ground (arith, beq_self name)

  contains-add_finalizer : (o : O) → contains name (c.finalizers (add_finalizer c name o)) ≡ true
  unfolding add_finalizer
  contains-add_finalizer o = elim (Bool-cases (contains name (c.finalizers o))) [
    | inl has ↦ rw (has, add_finalizer) has
    | inr lacks ↦
        rw (lacks, add_finalizer)
          (rw (laws.finalizers-set_finalizers (c.finalizers o ++ (name ∷ [])) o) (
            rw (contains-append name (c.finalizers o) (name ∷ []))
              (at_end (contains name (c.finalizers o)))))
  ]

  contains-remove_finalizer :
      (o : O) → contains name (c.finalizers (remove_finalizer c name o)) ≡ false
  unfolding remove_finalizer
  contains-remove_finalizer o =
      rw (laws.finalizers-set_finalizers (remove name (c.finalizers o)) o)
        (rw (contains-remove name name (c.finalizers o)) (ground (arith, beq_self name)))

  ensured-contains :
      (o : O) (w : W)
      → (ensured c name o w).0 ≡ ok tt
      → contains name (c.finalizers (ensured c name o w).1.1) ≡ true
  ensured-contains o w eq = elim (Bool-cases (contains name (c.finalizers o))) [
    | inl has ↦ rw (has, ensured) has
    | inr lacks ↦
        rw (lacks, ensured)
          (rw
            (patched_finalizers (add_finalizer c name o) (c.patch o (add_finalizer c name o) w)
              (λ answer. laws.patched o _ answer w) (rw (lacks, ensured) at eq))
            (contains-add_finalizer o))
  ]

  deleted-contains :
      (o : O) (w : W)
      → (deleted c name o w).0 ≡ ok tt
      → contains name (c.finalizers (deleted c name o w).1.1) ≡ false
  deleted-contains o w eq = elim (Bool-cases (contains name (c.finalizers o))) [
    | inl has ↦
        rw (has, deleted)
          (rw
            (patched_finalizers (remove_finalizer c name o)
              (c.patch o (remove_finalizer c name o) w) (λ answer. laws.patched o _ answer w)
              (rw (has, deleted) at eq))
            (contains-remove_finalizer o))
    | inr lacks ↦ rw (lacks, deleted) lacks
  ]

  ensured_after_get-contains :
      (o : O) (r : Result O × W)
      → (ensured_after_get c name o r).0 ≡ ok tt
      → contains name (c.finalizers (ensured_after_get c name o r).1.1) ≡ true
  ensured_after_get-contains o (err e, w) eq = ground arith
  ensured_after_get-contains o (ok read, w) eq = ensured-contains read w eq

  deleted_after_get-contains :
      (o : O) (r : Result O × W)
      → (deleted_after_get c name o r).0 ≡ ok tt
      → contains name (c.finalizers (deleted_after_get c name o r).1.1) ≡ false
  deleted_after_get-contains o (err e, w) eq = elim (Bool-cases (is_not_found e)) [
    | inl gone ↦
        rw (gone, deleted_after_get) (deleted-contains o w (rw (gone, deleted_after_get) at eq))
    | inr fails ↦ ground (arith, rw (fails, deleted_after_get) at eq)
  ]
  deleted_after_get-contains o (ok read, w) eq = deleted-contains read w eq

  -- When EnsureFinalizer succeeds, the object that it leaves has the finalizer.
  pub ensure_finalizer_lem :
      (s : W × O)
      → (ensure_finalizer c name s).0 ≡ ok tt
      → contains name (c.finalizers (ensure_finalizer c name s).1.1) ≡ true
  unfolding ensure_finalizer
  ensure_finalizer_lem s eq =
      let (s', run) = laws.retried (λ t. ensured_after_get c name t.1 (c.get t.1 t.0)) s in
      rw run (ensured_after_get-contains s'.1 (c.get s'.1 s'.0) (ap (λ x. x.0) (sym run) ∙ eq))

  -- When DeleteFinalizer succeeds, the object that it leaves does not have the finalizer, also
  -- where the object is gone; for a patch that keeps the finalizers it is given, and a retry whose
  -- result is that of one of its attempts.
  pub delete_finalizer_lem :
      (s : W × O)
      → (delete_finalizer c name s).0 ≡ ok tt
      → contains name (c.finalizers (delete_finalizer c name s).1.1) ≡ false
  unfolding delete_finalizer
  delete_finalizer_lem s eq =
      let (s', run) = laws.retried (λ t. deleted_after_get c name t.1 (c.get t.1 t.0)) s in
      rw run (deleted_after_get-contains s'.1 (c.get s'.1 s'.0) (ap (λ x. x.0) (sym run) ∙ eq))
