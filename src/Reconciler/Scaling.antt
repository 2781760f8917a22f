-- ===== src/Reconciler/Scaling.antt =====
-- pkg/controller/managedresource/reconciler.go: the objects that a HorizontalPodAutoscaler or an
-- Hvpa scales, as a set of keys, and the test whether an object is one of them.
use gardener_resource_manage.Prelude.{
  String, Bool, false, ◌&&◌, ◌||◌, List, [], ◌∷◌, ◌≡◌, inl, inr, arith,
}
use gardener_resource_manage.Prelude.Tests.{◌==◌, string_eq, if◌then◌else◌}
use gardener_resource_manage.Prelude.Lists.{contains, any}
use gardener_resource_manage.Errors.{
  Result, ok, err, errorf, ◌>>=◌, is_no_match, ◌+++◌, Result-cases,
}
use gardener_resource_manage.Objects.{Unstructured, group_kind, get_name, get_namespace}
use gardener_resource_manage.Keys.{object_key}
use gardener_resource_manage.Equivalences.{Equivalences, get_equivalences_for}

-- The target reference of an autoscaler beside the autoscaler's own name.
pub record ScaleTarget : Type 0 where
  pub namespace : String
  pub name : String
  pub target_api_version : String
  pub target_kind : String
  pub target_name : String

pub record Hvpa : Type 0 where
  pub target : ScaleTarget
  pub hpa_deploy : Bool
  pub vpa_deploy : Bool

-- The result of schema.ParseGroupVersion that the code uses is the group.
pub record Autoscalers : Type 0 where
  pub parse_group : String → Result String
  pub list_hpas : Result (List ScaleTarget)
  pub list_hvpas : Result (List Hvpa)

pub record ScaledObjects : Type 0 where
  pub horizontally : List String
  pub vertically : List String

unfoldable pub target_object_key : (String → Result String) → ScaleTarget → Result String
target_object_key parse_group t = elim (parse_group t.target_api_version) [
  | ok group ↦ ok (object_key group t.target_kind t.namespace t.target_name)
  | err e ↦ err (
      errorf (
        "invalid API version in scaleTargetReference of HorizontalPodAutoscaler '"
        +++ (t.namespace +++ ("/" +++ (t.name +++ ("': " +++ e.message))))))
]

-- A kind that the cluster does not have has no objects.
abbrev pub listed : {A : Type 0} → String → Result (List A) → Result (List A)
listed text (ok items) = ok items
listed text (err e) = if is_no_match e then ok [] else err (errorf (text +++ e.message))

abbrev insert_hpa : ScaledObjects → Result String → Result ScaledObjects
insert_hpa s (ok key) = ok (record s { horizontally = key ∷ s.horizontally })
insert_hpa s (err e) = err e

unfoldable pub add_hpas :
    (String → Result String) → ScaledObjects → List ScaleTarget → Result ScaledObjects
unfolding target_object_key
add_hpas parse_group s [] = ok s
add_hpas parse_group s (t ∷ ts) =
    insert_hpa s (target_object_key parse_group t) >>= λ s'. add_hpas parse_group s' ts

unfoldable pub insert_hvpa : Hvpa → ScaledObjects → Result String → Result ScaledObjects
insert_hvpa h s (ok key) = ok (record {
  horizontally = if h.hpa_deploy then key ∷ s.horizontally else s.horizontally;
  vertically = if h.vpa_deploy then key ∷ s.vertically else s.vertically;
})
insert_hvpa h s (err e) = err e

unfoldable pub add_hvpas :
    (String → Result String) → ScaledObjects → List Hvpa → Result ScaledObjects
unfolding target_object_key insert_hvpa
add_hvpas parse_group s [] = ok s
add_hvpas parse_group s (h ∷ hs) =
    insert_hvpa h s (target_object_key parse_group h.target) >>= λ s'. add_hvpas parse_group s' hs

unfoldable pub compute_all_scaled_object_keys : Autoscalers → Result ScaledObjects
unfolding add_hpas add_hvpas
compute_all_scaled_object_keys a = listed "failed to list all HPAs: " a.list_hpas >>= λ hpas.
    add_hpas a.parse_group (record { horizontally = []; vertically = [] }) hpas >>= λ s.
    listed "failed to list all HVPAs: " a.list_hvpas >>= λ hvpas. add_hvpas a.parse_group s hvpas

unfoldable pub object_key_from_unstructured : {C : Type 0} → Unstructured C → String
object_key_from_unstructured o = object_key o.gvk.group o.gvk.kind (get_namespace o) (get_name o)

unfoldable pub is_scaled : {C : Type 0} → Unstructured C → List String → Equivalences → Bool
unfolding object_key_from_unstructured
is_scaled o scaled_object_keys equivalences =
    contains (object_key_from_unstructured o) scaled_object_keys
    || any
        (λ gk.
          contains (object_key gk.group gk.kind (get_namespace o) (get_name o)) scaled_object_keys)
        (get_equivalences_for equivalences (group_kind o))

-- An autoscaler's target has the key.
abbrev pub targets : (String → Result String) → String → ScaleTarget → Bool
targets parse_group key t = elim (target_object_key parse_group t) [
  | ok k ↦ k == key
  | err e ↦ false
]

add_hpas-contains :
    (parse_group : String → Result String) (key : String) (ts : List ScaleTarget)
    (s s' : ScaledObjects)
    → add_hpas parse_group s ts ≡ ok s'
    → (contains key s'.horizontally
        ≡ (any (targets parse_group key) ts || contains key s.horizontally))
      × (contains key s'.vertically ≡ contains key s.vertically)
unfolding add_hpas contains any
add_hpas-contains p key [] s s' eq = ground arith
add_hpas-contains p key (t ∷ ts) s s' eq = elim (Result-cases (target_object_key p t)) [
  | inl (k, is_key) ↦
      let ih =
        add_hpas-contains p key ts (record s { horizontally = k ∷ s.horizontally }) s'
          (rw is_key at eq) in
      ground (arith, ih, is_key)
  | inr (e, fails) ↦ ground (arith, rw fails at eq)
]

add_hvpas-contains :
    (parse_group : String → Result String) (key : String) (hs : List Hvpa) (s s' : ScaledObjects)
    → add_hvpas parse_group s hs ≡ ok s'
    → (contains key s'.horizontally ≡ (
        any (λ h. h.hpa_deploy && targets parse_group key h.target) hs
        || contains key s.horizontally))
      × (contains key s'.vertically ≡ (
          any (λ h. h.vpa_deploy && targets parse_group key h.target) hs
          || contains key s.vertically))
unfolding add_hvpas contains any insert_hvpa
add_hvpas-contains p key [] s s' eq = ground arith
add_hvpas-contains p key (h ∷ hs) s s' eq = elim (Result-cases (target_object_key p h.target)) [
  | inl (k, is_key) ↦
      let ih =
        add_hvpas-contains p key hs
          (record {
            horizontally = if h.hpa_deploy then k ∷ s.horizontally else s.horizontally;
            vertically = if h.vpa_deploy then k ∷ s.vertically else s.vertically;
          })
          s' (rw is_key at eq) in
      ground (arith, ih, is_key)
  | inr (e, fails) ↦ ground (arith, rw fails at eq)
]

-- When all autoscalers can be listed and read, an object is scaled horizontally by the HPAs and by
-- the Hvpas that deploy an HPA, and vertically by the Hvpas that deploy a VPA, and by nothing else.
pub compute_all_scaled_object_keys-contains :
    (a : Autoscalers) (hpas : List ScaleTarget) (hvpas : List Hvpa) (s : ScaledObjects)
    (key : String)
    → a.list_hpas ≡ ok hpas
    → a.list_hvpas ≡ ok hvpas
    → compute_all_scaled_object_keys a ≡ ok s
    → (contains key s.horizontally ≡ (
        any (λ h. h.hpa_deploy && targets a.parse_group key h.target) hvpas
        || any (targets a.parse_group key) hpas))
      × (contains key s.vertically
          ≡ any (λ h. h.vpa_deploy && targets a.parse_group key h.target) hvpas)
unfolding compute_all_scaled_object_keys contains
compute_all_scaled_object_keys-contains a hpas hvpas s key p q eq =
    elim (Result-cases
      (add_hpas a.parse_group (record { horizontally = []; vertically = [] }) hpas)) [
        | inl (s₁, first) ↦
            let one =
              add_hpas-contains a.parse_group key hpas
                (record { horizontally = []; vertically = [] }) s₁ first in
            let two =
              add_hvpas-contains a.parse_group key hvpas s₁ s
                (rw q at (rw first at (rw p at eq))) in
            ground (arith, one, two)
        | inr (e, fails) ↦ ground (arith, rw fails at (rw p at eq))
      ]
