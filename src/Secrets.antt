-- ===== src/Secrets.antt =====
-- pkg/controller/secret/reconciler.go: a secret has the finalizer of the class as long as a
-- ManagedResource of the class refers to it.
use gardener_resource_manage.Prelude.{
  String, Bool, true, false, not, ◌&&◌, ◌||◌, List, [], ◌∷◌, ◌++◌, ◌≡◌, refl, sym, ◌∙◌, ap, inl,
  inr, arith, ◌↔◌,
}
use gardener_resource_manage.Prelude.Tests.{
  Same, ◌==◌, string_eq, if◌then◌else◌, Bool-cases, beq_self,
}
use gardener_resource_manage.Prelude.Lists.{
  contains, remove, any, contains-append, contains-remove, Any, any-Any, Any-any, Any-mono,
}
use gardener_resource_manage.Errors.{Result, ok, err, errorf, is_not_found, ◌+++◌}
use gardener_resource_manage.Exec.{Exec}
use mathlib.Core.Path.{subst}
use gardener_resource_manage.Api.Types.{ManagedResource}
use gardener_resource_manage.Filter.{ClassFilter, responsible}
use gardener_resource_manage.Utils.Backoff.{Backoff, Waiting}
use gardener_resource_manage.Utils.Update.{Access, IsServer, try_update, try_update_settles}
use gardener_resource_manage.Reconciler.Control.{Requeue, done, after}

pub record Secret : Type 0 where
  pub namespace : String
  pub name : String
  pub finalizers : List String

pub record SecretReconciler (W : Type 0) : Type 0 where
  pub class_filter : ClassFilter
  pub get : String → String → Exec W Secret
  pub list : String → Exec W (List ManagedResource)
  pub access : String → String → Access W Secret
  pub equal : Same Secret
  pub waiting : Waiting (W × Secret)
  pub default_backoff : Backoff

-- The nested loops over the ManagedResources and their references.
unfoldable pub secret_is_referenced : ClassFilter → String → List ManagedResource → Bool
unfolding any
secret_is_referenced f name resources =
    any (λ mr. any (λ ref. ref == name && responsible f mr) mr.spec.secret_refs) resources

-- sets.NewString(…).UnsortedList(): each finalizer once, in an order of the model's.
unfoldable pub unique : List String → List String
unique [] = []
unique (x ∷ xs) = x ∷ remove x (unique xs)

-- The transformation; the flag is `addFinalizer`, and a removal is wanted otherwise.
unfoldable pub changed_finalizers : Bool → String → List String → List String
unfolding unique
changed_finalizers true f finalizers = remove f (unique finalizers) ++ (f ∷ [])
changed_finalizers false f finalizers = remove f (unique finalizers)

unfoldable pub change_finalizers : Bool → String → Exec Secret (Unit {0})
unfolding changed_finalizers
change_finalizers add f secret =
    (ok tt, record secret { finalizers = changed_finalizers add f secret.finalizers })

module _ {W : Type 0} (r : SecretReconciler W) where
  -- The update, where the finalizer is not as it should be. The first flag is `secretIsReferenced`.
  unfoldable pub settle : Bool → Exec (W × Secret) (Unit {0})
  unfolding change_finalizers
  settle referenced (w, secret) =
      let f = r.class_filter.finalizer in
      let has = contains f secret.finalizers in
      let access = r.access secret.namespace secret.name in
      if (referenced && not has) || (not referenced && has)
      then try_update ⦃e = r.equal⦄ access (change_finalizers (referenced && not has) f) r.waiting
          r.default_backoff (w, secret)
      else (ok tt, (w, secret))

  abbrev pub settled : Result (Unit {0}) × (W × Secret) → Result Requeue × W
  settled (ok _, s) = (ok done, s.0)
  settled (err e, s) = if is_not_found e then (ok done, s.0) else (ok (after 5), s.0)

  abbrev pub listed : Secret → Result (List ManagedResource) × W → Result Requeue × W
  listed secret (err e, w) =
      (err (errorf ("could not fetch ManagedResources in namespace of Secret: " +++ e.message)), w)
  listed secret (ok resources, w) =
      settled (settle (secret_is_referenced r.class_filter secret.name resources) (w, secret))

  abbrev pub fetched : Result Secret × W → Result Requeue × W
  fetched (err e, w) =
      if is_not_found e
      then (ok done, w)
      else (err (errorf ("could not fetch Secret: " +++ e.message)), w)
  fetched (ok secret, w) = listed secret (r.list secret.namespace w)

  -- Reconcile, for a request with a namespace and a name.
  unfoldable pub reconcile_secret : String → String → Exec W Requeue
  unfolding settle secret_is_referenced
  reconcile_secret namespace name w = fetched (r.get namespace name w)

contains-changed_finalizers :
    (add : Bool) (f : String) (finalizers : List String)
    → contains f (changed_finalizers add f finalizers) ≡ add
unfolding changed_finalizers contains
contains-changed_finalizers true f fs =
    rw (contains-append f (remove f (unique fs)) (f ∷ []))
      (rw (contains-remove f f (unique fs)) (ground (arith, beq_self f)))
contains-changed_finalizers false f fs = ground (arith, contains-remove f f (unique fs), beq_self f)

module _ {W : Type 0} (r : SecretReconciler W) (held : W → Secret)
    (server : (secret : Secret) (b : Bool)
      → IsServer
          (r.access secret.namespace secret.name)
          held
          (λ o. contains r.class_filter.finalizer o.finalizers ≡ b)) where
  updated_lem :
      (b : Bool) (s s' : W × Secret)
      → try_update ⦃e = r.equal⦄
          (r.access s.1.namespace s.1.name)
          (change_finalizers b r.class_filter.finalizer)
          r.waiting
          r.default_backoff
          s
        ≡ (ok tt, s')
      → contains r.class_filter.finalizer s'.1.finalizers ≡ b
  unfolding change_finalizers
  updated_lem b s s' eq =
      (try_update_settles ⦃e = r.equal⦄ (r.access s.1.namespace s.1.name)
        (change_finalizers b r.class_filter.finalizer) held
        (λ o. contains r.class_filter.finalizer o.finalizers ≡ b) (server s.1 b)
        (λ o _. contains-changed_finalizers b r.class_filter.finalizer o.finalizers) r.waiting
        r.default_backoff s s' eq).1

  unchanged_lem :
      (b : Bool) (s s' : W × Secret)
      → contains r.class_filter.finalizer s.1.finalizers ≡ b
      → ◌≡◌ {A = Result (Unit {0}) × (W × Secret)} (ok tt, s) (ok tt, s')
      → contains r.class_filter.finalizer s'.1.finalizers ≡ b
  unchanged_lem b s s' has eq =
      subst (λ (x : W × Secret). contains r.class_filter.finalizer x.1.finalizers ≡ b)
        (ap (λ x. x.1) eq) has

  -- For a server that keeps the finalizers of an update: when the finalizers are settled without an
  -- error, the secret has the finalizer of the class exactly if a ManagedResource of the class
  -- refers to it, also where the secret was read again on the way.
  pub settle_lem :
      (referenced : Bool) (s s' : W × Secret)
      → settle r referenced s ≡ (ok tt, s')
      → contains r.class_filter.finalizer s'.1.finalizers ≡ referenced
  unfolding settle
  settle_lem true s s' eq = elim (Bool-cases (contains r.class_filter.finalizer s.1.finalizers)) [
    | inl has ↦ unchanged_lem true s s' has (rw has at eq)
    | inr lacks ↦ updated_lem true s s' (rw lacks at eq)
  ]
  settle_lem false s s' eq = elim (Bool-cases (contains r.class_filter.finalizer s.1.finalizers)) [
    | inl has ↦ updated_lem false s s' (rw has at eq)
    | inr lacks ↦ unchanged_lem false s s' lacks (rw lacks at eq)
  ]

  -- Some ManagedResource that the class is responsible for refers to the name.
  abbrev pub IsReferenced : String → List ManagedResource → Type 0
  IsReferenced name resources =
      Any
        (λ mr. (responsible r.class_filter mr ≡ true) × Any (λ ref. ref ≡ name) mr.spec.secret_refs)
        resources

  references_of_class :
      (name : String) (mr : ManagedResource) (refs : List String)
      → any (λ ref. ref == name && responsible r.class_filter mr) refs ≡ true
      → (responsible r.class_filter mr ≡ true) × Any (λ ref. ref ≡ name) refs
  unfolding any
  references_of_class name mr [] h = ground arith
  references_of_class name mr (ref ∷ refs) h =
      elim (Bool-cases (ref == name && responsible r.class_filter mr)) [
        | inl both ↦ (ground arith, inl ((string_eq.beq_iff ref name).0 (ground arith)))
        | inr other ↦
            let (class, later) = references_of_class name mr refs (rw other at h) in
            (class, inr later)
      ]

  secret_is_referenced_iff :
      (name : String) (resources : List ManagedResource)
      → (secret_is_referenced r.class_filter name resources ≡ true) ↔ IsReferenced name resources
  unfolding secret_is_referenced
  secret_is_referenced_iff name resources = (
    λ h.
        Any-mono (λ mr. references_of_class name mr mr.spec.secret_refs) resources
          (any-Any _ resources h),
    λ h. Any-any _ resources (
        Any-mono
          (λ mr (class, refs).
            Any-any (λ ref. ref == name && responsible r.class_filter mr) mr.spec.secret_refs
              (Any-mono {Q = λ ref. (ref == name && responsible r.class_filter mr) ≡ true}
                (λ ref same. rw (class, (string_eq.beq_iff ref name).1 same) refl)
                mr.spec.secret_refs refs))
          resources h),
  )

  -- When the secret and the ManagedResources of its namespace are read, and its finalizers are then
  -- settled without an error, Reconcile is done, and the secret has the finalizer of the class
  -- exactly if one of these ManagedResources that the class is responsible for refers to it by its
  -- name. For a server that keeps the finalizers of an update.
  pub reconcile_secret_lem :
      (namespace name : String) (w w₁ w₂ : W) (secret : Secret) (resources : List ManagedResource)
      (s' : W × Secret)
      → r.get namespace name w ≡ (ok secret, w₁)
      → r.list secret.namespace w₁ ≡ (ok resources, w₂)
      → settle r (secret_is_referenced r.class_filter secret.name resources) (w₂, secret)
        ≡ (ok tt, s')
      → (reconcile_secret r namespace name w ≡ (ok done, s'.0))
        × ((contains r.class_filter.finalizer s'.1.finalizers ≡ true)
            ↔ IsReferenced secret.name resources)
  unfolding reconcile_secret
  reconcile_secret_lem namespace name w w₁ w₂ secret resources s' got found settles =
      let same =
        settle_lem (secret_is_referenced r.class_filter secret.name resources) (w₂, secret) s'
          settles in
      let iff = secret_is_referenced_iff secret.name resources in
      (
        ap (fetched r) got ∙ ap (listed r secret) found ∙ ap (settled r) settles,
        (λ h. iff.0 (sym same ∙ h), λ h. same ∙ iff.1 h),
      )
