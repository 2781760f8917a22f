-- ===== src/Reconciler/Labels/Laws.antt =====
-- Where the injected labels stand.
use gardener_resource_manage.Prelude.{
  String, Bool, true, false, Option, none, some, List, [], ◌∷◌, ◌≡◌, refl, sym, ◌∙◌, inl, inr,
  arith,
}
use gardener_resource_manage.Prelude.Tests.{string_eq, Bool-cases}
use gardener_resource_manage.Prelude.Lists.{All}
use gardener_resource_manage.Prelude.Dict.{lookup, insert_all, lookup-insert_all}
use gardener_resource_manage.Errors.{Result, ok, Result-cases, ok_injective}
use mathlib.Core.Path.{subst}
use gardener_resource_manage.Api.Types.{StringMap}
use gardener_resource_manage.Objects.{Unstructured, get_labels, entries}
use gardener_resource_manage.Merge.{merge_maps, lookup-merge_maps}
use gardener_resource_manage.Reconciler.Labels.{
  Nested, merge_labels, inject_into_template, inject_labels_into_pod_template, inject_into_claim,
  inject_into_claims, inject_into_found, inject_labels_into_volume_claim_template, inject_labels,
}

-- What a nested write leaves to be read.
pub record IsNested {C V : Type 0} (n : Nested C V) : Type 0 where
  pub template_written :
      (l : StringMap) (c c' : C)
      → n.set_template_labels l c ≡ ok c'
      → (n.template_labels c' ≡ ok (some l)) × (n.claim_templates c' ≡ n.claim_templates c)
  pub claim_written :
      (l : StringMap) (v v' : V) → n.set_claim_labels l v ≡ ok v' → n.claim_labels v' ≡ ok (some l)
  pub claims_written :
      (vs : List V) (c c' : C)
      → n.set_claim_templates vs c ≡ ok c'
      → (n.claim_templates c' ≡ ok (some vs)) × (n.template_labels c' ≡ n.template_labels c)

lookup-merge_labels :
    (k val : String) (old : Option StringMap) (labels : StringMap)
    → lookup k labels ≡ some val
    → lookup k (merge_labels old labels) ≡ some val
unfolding merge_labels
lookup-merge_labels k val none labels h = h
lookup-merge_labels k val (some m) labels h =
    ground (arith, h, lookup-insert_all k labels (insert_all m []))

-- The labels that were read have the value at the key.
abbrev pub HasLabel : String → String → Result (Option StringMap) → Type 0
HasLabel k val r = (l : StringMap) × (r ≡ ok (some l)) × (lookup k l ≡ some val)

module _ {C V : Type 0} (n : Nested C V) (laws : IsNested n) (k val : String) (labels : StringMap)
    (wanted : lookup k labels ≡ some val) where
  inject_into_claim_label :
      (v v' : V) → inject_into_claim n labels v ≡ ok v' → HasLabel k val (n.claim_labels v')
  unfolding inject_into_claim
  inject_into_claim_label v v' eq = elim (Bool-cases (n.is_map v)) [
    | inr no_map ↦ ground (arith, rw no_map at eq)
    | inl map ↦ elim (Result-cases (n.claim_labels v)) [
      | inl (old, is_old) ↦ (
        merge_labels old labels,
        laws.claim_written (merge_labels old labels) v v' (rw is_old at (rw map at eq)),
        lookup-merge_labels k val old labels wanted,
      )
      | inr (e, fails) ↦ ground (arith, rw fails at (rw map at eq))
    ]
  ]

  -- When the labels are injected into the claim templates, each template of the result has them.
  inject_into_claims_labels :
      (vs vs' : List V)
      → inject_into_claims n labels vs ≡ ok vs'
      → All (λ v. HasLabel k val (n.claim_labels v)) vs'
  unfolding inject_into_claims
  inject_into_claims_labels [] vs' eq = subst (All _) (ok_injective eq) tt
  inject_into_claims_labels (v ∷ vs) vs' eq = elim (Result-cases (inject_into_claim n labels v)) [
    | inr (e, fails) ↦ ground (arith, rw fails at eq)
    | inl (w, first) ↦ elim (Result-cases (inject_into_claims n labels vs)) [
      | inr (e, fails) ↦ ground (arith, rw fails at (rw first at eq))
      | inl (ws, rest) ↦
          subst (All _) (ok_injective (rw rest at (rw first at eq)))
            (inject_into_claim_label v w first, inject_into_claims_labels vs ws rest)
    ]
  ]

  -- The claim templates that were found have the label afterwards.
  abbrev Claims : Option (List V) → C → Type 0
  Claims none c' = Unit
  Claims (some vs) c' =
      (vs' : List V) × (n.claim_templates c' ≡ ok (some vs'))
      × All (λ v. HasLabel k val (n.claim_labels v)) vs'

  found_injected :
      (found : Option (List V)) (c c' : C)
      → inject_into_found n labels c found ≡ ok c'
      → (n.template_labels c' ≡ n.template_labels c) × Claims found c'
  found_injected none c c' eq = (rw (ok_injective eq) refl, tt)
  found_injected (some vs) c c' eq = elim (Result-cases (inject_into_claims n labels vs)) [
    | inr (e, fails) ↦ ground (arith, rw fails at eq)
    | inl (ws, injected) ↦
        let laws_of = laws.claims_written ws c c' (rw injected at eq) in
        (laws_of.1, (ws, laws_of.0, inject_into_claims_labels vs ws injected))
  ]

  template_injected :
      (found : Bool) (c c' : C)
      → inject_into_template n labels c found ≡ ok c'
      → (n.claim_templates c' ≡ n.claim_templates c)
        × (found ≡ true → HasLabel k val (n.template_labels c'))
  template_injected false c c' eq = (rw (ok_injective eq) refl, λ h. ground (arith, h))
  template_injected true c c' eq = elim (Result-cases (n.template_labels c)) [
    | inr (e, fails) ↦ ground (arith, rw fails at eq)
    | inl (old, is_old) ↦
        let laws_of = laws.template_written (merge_labels old labels) c c' (rw is_old at eq) in
        (
          laws_of.1,
          λ h. (merge_labels old labels, laws_of.0, lookup-merge_labels k val old labels wanted),
        )
  ]

  content_injected :
      (c c₁ c₂ : C)
      → inject_labels_into_pod_template n labels c ≡ ok c₁
      → inject_labels_into_volume_claim_template n labels c₁ ≡ ok c₂
      → (n.has_template c ≡ ok true → HasLabel k val (n.template_labels c₂))
        × ((vs : List V) → n.claim_templates c ≡ ok (some vs) → Claims (some vs) c₂)
  unfolding inject_labels_into_pod_template inject_labels_into_volume_claim_template
  content_injected c c₁ c₂ one two = elim (Result-cases (n.has_template c)) [
    | inr (e, fails) ↦ ground (arith, rw fails at one)
    | inl (has, is_has) ↦ elim (Result-cases (n.claim_templates c₁)) [
      | inr (e, fails) ↦ ground (arith, rw fails at two)
      | inl (found, is_found) ↦
          let t = template_injected has c c₁ (rw is_has at one) in
          let f = found_injected found c₁ c₂ (rw is_found at two) in
          (
            λ h. rw f.0 (t.1 (ok_injective (sym is_has ∙ h))),
            λ vs h. subst (λ x. Claims x c₂) (ok_injective (sym is_found ∙ (t.0 ∙ h))) f.1,
          )
    ]
  ]

-- Where the label stands in an object that has been given it.
abbrev pub Injected :
    {C V : Type 0} → Nested C V → String → String → Unstructured C → Unstructured C → Type 0
Injected {C} {V} n k val o o' =
    (lookup k (entries (get_labels o')) ≡ some val)
    × (n.has_template o.content ≡ ok true → HasLabel k val (n.template_labels o'.content))
    × ((vs : List V)
        → n.claim_templates o.content ≡ ok (some vs)
        → (vs' : List V) × (n.claim_templates o'.content ≡ ok (some vs'))
          × All (λ v. HasLabel k val (n.claim_labels v)) vs')
    × (o'.gvk ≡ o.gvk)

lookup-merge_maps-wanted :
    (k val : String) (one two : StringMap)
    → lookup k two ≡ some val
    → lookup k (merge_maps one two) ≡ some val
lookup-merge_maps-wanted k val one two h = ground (arith, h, lookup-merge_maps k one two)

none-missing : (k val : String) → lookup k [] ≡ some val → ⊥
unfolding lookup
none-missing k val h = ground arith

-- When the labels are injected, each of them stands in the object's own labels, in those of its pod
-- template if there is one, and in those of every volume claim template; the object's kind stays. The
-- accessors of the content read what was written (IsNested).
pub inject_labels_everywhere :
    {C V : Type 0} (n : Nested C V) (laws : IsNested n) (k val : String) (labels : StringMap)
    (o o' : Unstructured C)
    → lookup k labels ≡ some val
    → inject_labels n o labels ≡ ok o'
    → Injected n k val o o'
unfolding inject_labels
inject_labels_everywhere n laws k val [] o o' wanted eq = absurd (none-missing k val wanted)
inject_labels_everywhere n laws k val (kv ∷ kvs) o o' wanted eq =
    elim (Result-cases (inject_labels_into_pod_template n (kv ∷ kvs) o.content)) [
      | inr (e, fails) ↦ ground (arith, rw fails at eq)
      | inl (c₁, one) ↦
          elim (Result-cases (inject_labels_into_volume_claim_template n (kv ∷ kvs) c₁)) [
            | inr (e, fails) ↦ ground (arith, rw fails at (rw one at eq))
            | inl (c₂, two) ↦
                let found =
                  content_injected n laws k val (kv ∷ kvs) wanted o.content c₁ c₂ one two in
                subst (Injected n k val o) (ok_injective (rw two at (rw one at eq))) (
                  lookup-merge_maps-wanted k val (entries (get_labels o)) (kv ∷ kvs) wanted,
                  found.0,
                  found.1,
                  refl,
                )
          ]
    ]
