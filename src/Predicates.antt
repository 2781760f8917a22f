-- ===== src/Predicates.antt =====
-- pkg/predicate: the events that the controllers let pass. The nil checks and type assertions of
-- the objects of an event hold by the types.
use gardener_resource_manage.Prelude.{
  String, Bool, true, false, not, ◌&&◌, Option, none, some, List, ◌≡◌, refl, sym, ◌∙◌, inl, inr,
  arith,
}
use gardener_resource_manage.Prelude.Tests.{
  ◌==◌, string_eq, Bool-cases, beq_of_ne, ne_of_beq, eq_of_beq,
}
use gardener_resource_manage.Prelude.Lists.{contains}
use gardener_resource_manage.Api.Types.{
  ManagedResource, ManagedResourceCondition, ConditionType, condition_true, condition_false,
}
use gardener_resource_manage.Api.Conditions.{get_condition}

-- predicate.Funcs; a function that is not given lets every event pass.
pub record Funcs (O : Type 0) : Type 0 where
  pub create : O → Bool
  pub update : O → O → Bool
  pub delete : O → Bool
  pub generic : O → Bool

-- HasFinalizer, on the finalizers of an object.
unfoldable pub has_finalizer : String → Funcs (List String)
has_finalizer finalizer = record {
  create = λ o. contains finalizer o;
  update = λ old new. contains finalizer new;
  delete = λ o. false;
  generic = λ o. false;
}

abbrev same_class : Option String → Option String → Bool
same_class none none = true
same_class (some c) (some d) = c == d
same_class _ _ = false

unfoldable pub class_changed : Funcs ManagedResource
class_changed = record {
  create = λ o. true;
  update = λ old new. not (same_class old.spec.class new.spec.class);
  delete = λ o. true;
  generic = λ o. true;
}

abbrev pub ConditionChangeFn : Type 0
ConditionChangeFn = Option ManagedResourceCondition → Option ManagedResourceCondition → Bool

unfoldable pub default_condition_change : ConditionChangeFn
default_condition_change none none = false
default_condition_change none (some con2) = true
default_condition_change (some con1) none = true
default_condition_change (some con1) (some con2) = not (con1.status == con2.status)

abbrev is_true_or_nil : Option ManagedResourceCondition → Bool
is_true_or_nil none = true
is_true_or_nil (some con1) = con1.status == condition_true

abbrev is_false : Option ManagedResourceCondition → Bool
is_false none = false
is_false (some con2) = con2.status == condition_false

unfoldable pub condition_changed_to_unhealthy : ConditionChangeFn
condition_changed_to_unhealthy con1 con2 = is_true_or_nil con1 && is_false con2

unfoldable pub condition_status_changed : ConditionType → ConditionChangeFn → Funcs ManagedResource
condition_status_changed condition_type change = record {
  create = λ o. true;
  update = λ old new.
      change (get_condition old.status.conditions condition_type)
        (get_condition new.status.conditions condition_type);
  delete = λ o. true;
  generic = λ o. true;
}

-- The two statuses differ.
statuses_differ :
    (c d : String) → (c == condition_true && d == condition_false) ≡ true → (c == d) ≡ false
statuses_differ c d h = elim (Bool-cases (c == condition_true)) [
  | inr p ↦ ground (arith, rw p at h)
  | inl p ↦ beq_of_ne c d (λ e.
      ne_of_beq condition_true condition_false refl
        (sym (eq_of_beq c condition_true p) ∙ (e ∙ eq_of_beq d condition_false (rw p at h))))
]

unhealthy-changed :
    (c d : Option ManagedResourceCondition)
    → condition_changed_to_unhealthy c d ≡ true
    → default_condition_change c d ≡ true
unfolding condition_changed_to_unhealthy default_condition_change
unhealthy-changed none none h = ground (arith, h)
unhealthy-changed none (some d) h = refl
unhealthy-changed (some c) none h = refl
unhealthy-changed (some c) (some d) h = rw (statuses_differ c.status d.status h) refl

-- Every update that turns a condition unhealthy is one that changes its status.
pub condition_status_changed-unhealthy :
    (t : ConditionType) (old new : ManagedResource)
    → (condition_status_changed t condition_changed_to_unhealthy).update old new ≡ true
    → (condition_status_changed t default_condition_change).update old new ≡ true
unfolding condition_status_changed
condition_status_changed-unhealthy t old new h = unhealthy-changed _ _ h
