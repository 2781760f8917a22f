-- ===== src/Builders/Laws.antt =====
-- What is read back of what was built.
use gardener_resource_manage.Prelude.{
  String, true, Option, some, List, [], ◌∷◌, ◌≡◌, ◌≢◌, ◌↔◌, refl, sym, ap, ◌∙◌, inl, inr,
}
use gardener_resource_manage.Prelude.Tests.{◌==◌, string_eq, Bool-cases, eq_of_beq}
use gardener_resource_manage.Prelude.Lists.{All}
use gardener_resource_manage.Errors.{ok}
use gardener_resource_manage.Exec.{bind_ok}
use gardener_resource_manage.Api.Types.{ManagedResource}
use gardener_resource_manage.Filter.{new_class_filter, responsible, class_of}
use gardener_resource_manage.Filter.Laws.{responsible_iff}
use gardener_resource_manage.Builders.Storage.{Storage, IsStorage, Key}
use gardener_resource_manage.Builders.Resources
use gardener_resource_manage.Builders.Secrets
use gardener_resource_manage.Builders.Secrets.{Secret}

-- An instance of a class is responsible for what is built with the name of a class exactly if its
-- class is that one, where no name stands for the default.
pub responsible-with_class :
    (class name : String) (m : ManagedResource)
    → (responsible (new_class_filter class) (Resources.with_class name m) ≡ true)
      ↔ ((new_class_filter class).resource_class ≡ (new_class_filter name).resource_class)
unfolding Resources.with_class
responsible-with_class class name m =
    responsible_iff class name (Resources.with_class name m) (elim (Bool-cases (name == "")) [
      | inl empty ↦ rw empty (sym (eq_of_beq name "" empty))
      | inr given ↦ rw (given, class_of, given) refl
    ])

module _ {W : Type 0} (s : Storage W ManagedResource) (stored : W → Key → Option ManagedResource)
    (laws : IsStorage s stored) where
  -- When Reconcile of a ManagedResource succeeds, the server holds the labels, the annotations and
  -- the spec that were built; for a CreateOrUpdate that stores what its function makes.
  pub reconcile_stores :
      (m : ManagedResource) (w w' : W)
      → Resources.reconcile s m w ≡ (ok tt, w')
      → (o : ManagedResource) × (stored w' (s.key (Resources.named m.namespace m.name)) ≡ some o)
        × (o.labels ≡ m.labels)
        × (o.annotations ≡ m.annotations)
        × (o.spec ≡ m.spec)
  unfolding Resources.reconcile
  reconcile_stores m w w' eq =
      let (before, after, key, made, holds) =
        laws.written (Resources.built m) (Resources.named m.namespace m.name) w w' eq in
      let same = ap (λ r. r.1) (sym made) in
      (after, holds, ap (λ o. o.labels) same, ap (λ o. o.annotations) same, ap (λ o. o.spec) same)

module _ {W : Type 0} (s : Storage W Secret) (stored : W → Key → Option Secret)
    (laws : IsStorage s stored) where
  abbrev key_of : Secret → Key
  key_of x = s.key (Secrets.named x.namespace x.name)

  -- The server holds the secret as it was built.
  abbrev pub Holds : W → Secret → Type 0
  Holds w x =
      (o : Secret) × (stored w (key_of x) ≡ some o)
      × (o.labels ≡ x.labels)
      × (o.annotations ≡ x.annotations)
      × (o.type ≡ Secrets.opaque)
      × (o.content ≡ x.content)

  -- No two of the secrets have one key.
  abbrev pub Distinct : List Secret → Type 0
  Distinct [] = Unit
  Distinct (x ∷ xs) = All (λ y. key_of x ≢ key_of y) xs × Distinct xs

  kept :
      (x : Secret) (xs : List Secret) (w w' : W)
      → All (λ y. key_of x ≢ key_of y) xs
      → Secrets.reconcile_all s xs w ≡ (ok tt, w')
      → stored w' (key_of x) ≡ stored w (key_of x)
  unfolding Secrets.reconcile_all
  kept x [] w w' h eq = ap (λ r. stored r.1 (key_of x)) (sym eq)
  kept x (y ∷ ys) w w' (h, hs) eq =
      let (u, w₂, first, rest) =
        bind_ok (Secrets.reconcile s y) (λ _. Secrets.reconcile_all s ys) w tt w' eq in
      kept x ys w₂ w' hs rest
      ∙ ap (λ r. stored r.1 (key_of x)) (sym first)
      ∙ laws.others_kept (Secrets.built y) (Secrets.named y.namespace y.name) w (key_of x) h

  -- When Reconcile of a list of secrets with different keys succeeds, the server holds each of them
  -- as it was built; for a CreateOrUpdate that stores what its function makes under its key alone.
  pub reconcile_all_stores :
      (xs : List Secret) (w w' : W)
      → Distinct xs
      → Secrets.reconcile_all s xs w ≡ (ok tt, w')
      → All (Holds w') xs
  unfolding Secrets.reconcile_all Secrets.reconcile
  reconcile_all_stores [] w w' h eq = tt
  reconcile_all_stores (x ∷ xs) w w' (h, hs) eq =
      let (u, w₂, first, rest) =
        bind_ok (Secrets.reconcile s x) (λ _. Secrets.reconcile_all s xs) w tt w' eq in
      let (before, after, key, made, holds) =
        laws.written (Secrets.built x) (Secrets.named x.namespace x.name) w w₂ first in
      let same = ap (λ r. r.1) (sym made) in
      (
        (
          after,
          kept x xs w₂ w' h rest ∙ holds,
          ap (λ o. o.labels) same,
          ap (λ o. o.annotations) same,
          ap (λ o. o.type) same,
          ap (λ o. o.content) same,
        ),
        reconcile_all_stores xs w₂ w' hs rest,
      )
