-- ===== src/Health/Checks/Loops.antt =====
-- The loops over condition types, as one condition each.
use gardener_resource_manage.Prelude.{
  String, Option, none, some, List, [], ◌∷◌, ◌≡◌, ◌↔◌, refl, arith,
}
use gardener_resource_manage.Prelude.Tests.{string_eq}
use gardener_resource_manage.Prelude.Lists.{All}
use gardener_resource_manage.Health.Types.{Check, Condition}
use gardener_resource_manage.Health.Checks.{
  ◌and_then◌, get_condition, check_condition_state, required_state, optional_state, check_required,
  check_optional,
}

-- A sequence of checks passes if each one does.
pub and_then_iff : (a b : Check) → ((a and_then b) ≡ none) ↔ ((a ≡ none) × (b ≡ none))
and_then_iff none b = (λ h. (refl, h), λ h. h.1)
and_then_iff (some e) b = (λ h. cc, λ h. cc h.0)

pub required_state_iff :
    (expected t : String) (o : Option Condition)
    → (required_state expected t o ≡ none)
      ↔ ((c : Condition) × (o ≡ some c) × (c.status ≡ expected))
unfolding required_state check_condition_state
required_state_iff expected t none = (λ h. cc, λ h. cc h.1)
required_state_iff expected t (some c) = (
  λ h. (c, refl, ground (arith, string_eq.beq_iff expected c.status)),
  λ (d, p, q). ground (arith, string_eq.beq_iff expected c.status),
)

pub optional_state_iff :
    (expected t : String) (o : Option Condition)
    → (optional_state expected t o ≡ none) ↔ ((c : Condition) → o ≡ some c → c.status ≡ expected)
unfolding optional_state check_condition_state
optional_state_iff expected t none = (λ h c p. cc, λ h. refl)
optional_state_iff expected t (some c) = (
  λ h d p. ground (arith, string_eq.beq_iff expected c.status),
  λ h. let p = h c refl in ground (arith, string_eq.beq_iff expected c.status),
)

-- The first condition of the type is there and has the status.
abbrev pub Has : List Condition → String → String → Type 0
Has conditions status t =
    (c : Condition) × (get_condition conditions t ≡ some c) × (c.status ≡ status)

-- The first condition of the type has the status, if there is one.
abbrev pub HasIfAny : List Condition → String → String → Type 0
HasIfAny conditions status t =
    (c : Condition) → get_condition conditions t ≡ some c → c.status ≡ status

step_required :
    (status : String) (conditions : List Condition) (t : String) (types : List String)
    → check_required status conditions (t ∷ types) ≡ (
        required_state status t (get_condition conditions t)
        and_then check_required status conditions types)
unfolding check_required
step_required status conditions t types = refl

step_optional :
    (status : String) (conditions : List Condition) (t : String) (types : List String)
    → check_optional status conditions (t ∷ types) ≡ (
        optional_state status t (get_condition conditions t)
        and_then check_optional status conditions types)
unfolding check_optional
step_optional status conditions t types = refl

nothing_required :
    (status : String) (conditions : List Condition) → check_required status conditions [] ≡ none
unfolding check_required
nothing_required status conditions = refl

nothing_optional :
    (status : String) (conditions : List Condition) → check_optional status conditions [] ≡ none
unfolding check_optional
nothing_optional status conditions = refl

pub check_required_iff :
    (status : String) (conditions : List Condition) (types : List String)
    → (check_required status conditions types ≡ none) ↔ All (Has conditions status) types
check_required_iff status conditions [] = (λ h. tt, λ h. nothing_required status conditions)
check_required_iff status conditions (t ∷ types) =
    let one = required_state_iff status t (get_condition conditions t) in
    let rest = check_required_iff status conditions types in
    let both =
      and_then_iff (required_state status t (get_condition conditions t))
        (check_required status conditions types) in
    rw (step_required status conditions t types)
      (λ h. (one.0 (both.0 h).0, rest.0 (both.0 h).1), λ h. both.1 (one.1 h.0, rest.1 h.1))

pub check_optional_iff :
    (status : String) (conditions : List Condition) (types : List String)
    → (check_optional status conditions types ≡ none) ↔ All (HasIfAny conditions status) types
check_optional_iff status conditions [] = (λ h. tt, λ h. nothing_optional status conditions)
check_optional_iff status conditions (t ∷ types) =
    let one = optional_state_iff status t (get_condition conditions t) in
    let rest = check_optional_iff status conditions types in
    let both =
      and_then_iff (optional_state status t (get_condition conditions t))
        (check_optional status conditions types) in
    rw (step_optional status conditions t types)
      (λ h. (one.0 (both.0 h).0, rest.0 (both.0 h).1), λ h. both.1 (one.1 h.0, rest.1 h.1))
