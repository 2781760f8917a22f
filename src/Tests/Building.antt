-- ===== src/Tests/Building.antt =====
-- A ManagedResource and a secret that are built and stored; the world is what the server holds.
use gardener_resource_manage.Prelude.{
  true, ◌&&◌, Option, none, some, List, [], ◌∷◌, ◌≡◌, ◌≢◌, refl, sym, ap, ◌∙◌, inl, inr, arith,
}
use gardener_resource_manage.Prelude.Lists.{All}
use gardener_resource_manage.Prelude.Tests.{
  ◌==◌, string_eq, if◌then◌else◌, Bool-cases, ne_of_beq, beq_self,
}
use gardener_resource_manage.Errors.{Result, ok, err}
use gardener_resource_manage.Api.Types.{ManagedResource}
use gardener_resource_manage.Builders.Storage.{Storage, IsStorage, Key}
use gardener_resource_manage.Builders.Resources
use gardener_resource_manage.Builders.Secrets
use gardener_resource_manage.Builders.Secrets.{Secret}
use gardener_resource_manage.Builders.Laws.{reconcile_stores, reconcile_all_stores, Holds}

both_parts : (j k : Key) → (j.0 == k.0 && j.1 == k.1) ≡ true → j ≡ k
both_parts j k h =
    let first : j.0 ≡ k.0 = ground (arith, string_eq.beq_iff j.0 k.0, h) in
    let second : j.1 ≡ k.1 =
      ground (arith, string_eq.beq_iff j.0 k.0, string_eq.beq_iff j.1 k.1, h) in
    λ i. (first i, second i)

module _ {O : Type 0} (key : O → Key) where
  -- A store with one place for each name; namespaces are not told apart.
  abbrev Store : Type 0
  Store = Key → Option O

  abbrev put : Key → O → Store → Store
  put k o store j = if j.0 == k.0 && j.1 == k.1 then some o else store j

  abbrev stored_with : Key → Result (Unit {0}) × O → Store → Result (Unit {0}) × Store
  stored_with k (ok _, o) store = (ok tt, put k o store)
  stored_with k (err e, o) store = (err e, store)

  abbrev storage : Storage Store O
  storage = record {
    key = key;
    create_or_update = λ mutate o store. stored_with (key o) (mutate o) store;
    delete = λ o store. (ok tt, store);
  }

  put_self : (k : Key) (o : O) (store : Store) → put k o store k ≡ some o
  put_self k o store = rw (beq_self k.0, beq_self k.1) refl

  put_other : (k j : Key) (o : O) (store : Store) → j ≢ k → put k o store j ≡ store j
  put_other k j o store h = elim (Bool-cases (j.0 == k.0 && j.1 == k.1)) [
    | inl same ↦ absurd (h (both_parts j k same))
    | inr other ↦ rw other refl
  ]

  written_lem :
      (k : Key) (o : O) (r : Result (Unit {0}) × O) (store store' : Store)
      → stored_with k r store ≡ (ok tt, store')
      → (after : O) × (r ≡ (ok tt, after)) × (store' k ≡ some after)
  written_lem k o (ok _, after) store store' eq =
      (after, refl, ap (λ x. x.1 k) (sym eq) ∙ put_self k after store)
  written_lem k o (err e, after) store store' eq = ground arith

  kept_lem :
      (k j : Key) (r : Result (Unit {0}) × O) (store : Store)
      → j ≢ k
      → (stored_with k r store).1 j ≡ store j
  kept_lem k j (ok _, o) store h = put_other k j o store h
  kept_lem k j (err e, o) store h = refl

  storage-IsStorage : IsStorage storage (λ store k. store k)
  storage-IsStorage = record {
    written = λ mutate o w w' eq.
        let (after, made, holds) = written_lem (key o) o (mutate o) w w' eq in
        (o, after, refl, made, holds);
    others_kept = λ mutate o w k h. kept_lem (key o) k (mutate o) w h;
  }

abbrev resource_key : ManagedResource → Key
resource_key m = (m.namespace, m.name)

abbrev secret_key : Secret → Key
secret_key s = (s.namespace, s.name)

abbrev nothing : {O : Type 0} → Key → Option O
nothing k = none

abbrev built : ManagedResource
built = Resources.with_secret_ref "secret" (
    Resources.with_class "seed"
      (Resources.with_namespaced_name "garden" "mr" Resources.new_managed_resource))

abbrev after : Store resource_key
after = (Resources.reconcile (storage resource_key) built nothing).1

reconcile_stores_example :
    (o : ManagedResource) × (after ("garden", "mr") ≡ some o)
    × (o.labels ≡ built.labels)
    × (o.annotations ≡ built.annotations)
    × (o.spec ≡ built.spec)
unfolding Resources.reconcile Resources.with_secret_ref Resources.with_class
    Resources.with_namespaced_name
reconcile_stores_example =
    reconcile_stores (storage resource_key) (λ store k. store k) (storage-IsStorage resource_key)
      built nothing after refl

abbrev secret : Secret
secret =
    Secrets.with_key_values (("key", "value") ∷ [])
      (Secrets.with_namespaced_name "garden" "secret" Secrets.new_secret)

abbrev other_secret : Secret
other_secret = Secrets.with_namespaced_name "garden" "other" Secrets.new_secret

abbrev secrets : List Secret
secrets = secret ∷ (other_secret ∷ [])

abbrev after_all : Store secret_key
after_all = (Secrets.reconcile_all (storage secret_key) secrets nothing).1

reconcile_all_stores_example :
    All
      (Holds (storage secret_key) (λ store k. store k) (storage-IsStorage secret_key) after_all)
      secrets
unfolding Secrets.reconcile_all Secrets.with_key_values Secrets.with_namespaced_name
reconcile_all_stores_example =
    reconcile_all_stores (storage secret_key) (λ store k. store k) (storage-IsStorage secret_key)
      secrets nothing after_all
      (((λ e. ne_of_beq "secret" "other" refl (ap (λ k. k.1) e)), tt), (tt, tt)) refl
