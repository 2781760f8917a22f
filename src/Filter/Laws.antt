-- ===== src/Filter/Laws.antt =====
-- What the class filter decides: which classes share objects, and when a controller may act.
use text.Mathlib.Text.{starts_with}
use text.Mathlib.TextPositions.{starts_with-append}
use text.Mathlib.TextLemmas.{append_cancel_left, append-nil, cons-append, cons-ne-nil}
use gardener_resource_manage.Prelude.{
  String, Bool, true, false, ◌&&◌, ◌||◌, not, List, [], ◌∷◌, ◌≡◌, ◌≢◌, ◌↔◌, arith, refl, inl, inr,
  ap, ◌⊎◌, ◌∙◌, sym,
}
use gardener_resource_manage.Prelude.Tests.{Bool-cases, ◌==◌, string_eq, if◌then◌else◌}
use gardener_resource_manage.Prelude.Lists.{contains, any}
use gardener_resource_manage.Errors.{◌+++◌}
use gardener_resource_manage.Api.Types.{ManagedResource}
use gardener_resource_manage.Filter.{
  ClassFilter, default_class, base_finalizer, new_class_filter, responsible, scan, active, relevant,
  class_of,
}

-- A finalizer of some instance of the resource manager.
abbrev pub has_base : String → Bool
has_base finalizer = starts_with finalizer base_finalizer

-- The class of a filter that was made for a class.
abbrev chosen : String → String
chosen class = if class == "" then default_class else class

has_base-base_finalizer : has_base base_finalizer ≡ true
has_base-base_finalizer = refl

scan_lem :
    (f : ClassFilter) (busy : Bool) (fs : List String)
    → starts_with f.finalizer base_finalizer ≡ true
    → ((scan f busy fs).0 ≡ contains f.finalizer fs)
      × ((scan f busy fs).1 ≡ (busy || any has_base fs))
unfolding contains any
scan_lem f busy [] h = ground arith
scan_lem f busy (x ∷ xs) h =
    ground (arith, string_eq.beq_iff x f.finalizer, scan_lem f busy xs h, scan_lem f true xs h)

pub finalizer-has_base : (class : String) → has_base (new_class_filter class).finalizer ≡ true
unfolding new_class_filter
finalizer-has_base class = elim (Bool-cases (chosen class == default_class)) [
  | inl e ↦ rw e has_base-base_finalizer
  | inr e ↦ rw e (starts_with-append base_finalizer ("-" +++ chosen class))
]

-- An instance acts on an object (its reconciler works on it) exactly if the object carries the
-- instance's own finalizer, or if it carries no finalizer of any instance and the instance is
-- responsible for its class.
pub active_iff :
    (class : String) (mr : ManagedResource)
    → (active (new_class_filter class) mr).0 ≡ (
        contains (new_class_filter class).finalizer mr.finalizers
        || (not (any has_base mr.finalizers) && responsible (new_class_filter class) mr))
unfolding active
active_iff class mr =
    ground (arith, scan_lem (new_class_filter class) false mr.finalizers (finalizer-has_base class))

-- An event is let pass if the instance acts on the object or is responsible for it.
pub relevant_lem :
    (f : ClassFilter) (mr : ManagedResource) → relevant f mr ≡ ((active f mr).0 || (active f mr).1)
unfolding relevant
relevant_lem f mr = refl

dash_ne_nil : (s : String) → ("-" +++ s) ≢ ""
dash_ne_nil s e = cons-ne-nil "-" ("" +++ s) (sym (cons-append "-" "" s) ∙ e)

base_ne_dashed : (c : String) → base_finalizer ≢ (base_finalizer +++ ("-" +++ c))
base_ne_dashed c e =
    dash_ne_nil c
      (sym (append_cancel_left base_finalizer "" ("-" +++ c) (append-nil base_finalizer ∙ e)))

-- What is known of a filter that was made for a class.
abbrev MadeFor : ClassFilter → Type 0
MadeFor f =
    ((f.resource_class ≡ default_class) × (f.finalizer ≡ base_finalizer))
    ⊎ ((f.resource_class ≢ default_class)
        × (f.finalizer ≡ (base_finalizer +++ ("-" +++ f.resource_class))))

new_class_filter-MadeFor : (class : String) → MadeFor (new_class_filter class)
unfolding new_class_filter
new_class_filter-MadeFor class = ground (arith, string_eq.beq_iff (chosen class) default_class)

same_class :
    {f g : ClassFilter}
    → MadeFor f
    → MadeFor g
    → f.finalizer ≡ g.finalizer
    → f.resource_class ≡ g.resource_class
same_class (inl p) (inl q) e = p.0 ∙ sym q.0
same_class (inl p) (inr q) e = absurd (base_ne_dashed _ (sym p.1 ∙ e ∙ q.1))
same_class (inr p) (inl q) e = absurd (base_ne_dashed _ (sym q.1 ∙ sym e ∙ p.1))
same_class (inr p) (inr q) e =
    append_cancel_left "-" _ _ (append_cancel_left base_finalizer _ _ (sym p.1 ∙ e ∙ q.1))

same_finalizer :
    {f g : ClassFilter}
    → MadeFor f
    → MadeFor g
    → f.resource_class ≡ g.resource_class
    → f.finalizer ≡ g.finalizer
same_finalizer (inl p) (inl q) e = p.1 ∙ sym q.1
same_finalizer (inl p) (inr q) e = absurd (q.0 (sym e ∙ p.0))
same_finalizer (inr p) (inl q) e = absurd (p.0 (e ∙ q.0))
same_finalizer (inr p) (inr q) e = p.1 ∙ ap (λ c. base_finalizer +++ ("-" +++ c)) e ∙ sym q.1

-- Two instances have one finalizer exactly if they have one class: no class can be chosen that
-- takes over the finalizer of another.
pub finalizer_injective :
    (c d : String)
    → ((new_class_filter c).finalizer ≡ (new_class_filter d).finalizer)
      ↔ ((new_class_filter c).resource_class ≡ (new_class_filter d).resource_class)
finalizer_injective c d = (
  same_class (new_class_filter-MadeFor c) (new_class_filter-MadeFor d),
  same_finalizer (new_class_filter-MadeFor c) (new_class_filter-MadeFor d),
)

responsible_class :
    (c : String) (mr : ManagedResource)
    → responsible (new_class_filter c) mr ≡ true
    → (new_class_filter c).resource_class ≡ chosen (class_of mr.spec.class)
unfolding responsible new_class_filter
responsible_class c mr h =
    let k = class_of mr.spec.class in
    ground (
      arith,
      string_eq.beq_iff c "",
      string_eq.beq_iff k "",
      string_eq.beq_iff k c,
      string_eq.beq_iff k default_class,
      string_eq.beq_iff c default_class,
    )

matches_chosen : (k f : String) → f ≡ chosen k → (k == f || (k == "" && f == default_class)) ≡ true
matches_chosen k f h =
    ground (arith, string_eq.beq_iff k f, string_eq.beq_iff k "", string_eq.beq_iff f default_class)

responsible_of_class :
    (c : String) (mr : ManagedResource)
    → (new_class_filter c).resource_class ≡ chosen (class_of mr.spec.class)
    → responsible (new_class_filter c) mr ≡ true
unfolding responsible
responsible_of_class c mr h =
    matches_chosen (class_of mr.spec.class) (new_class_filter c).resource_class h

-- An instance is responsible for the objects of its class, where none is the default one.
pub responsible_iff :
    (c d : String) (mr : ManagedResource)
    → class_of mr.spec.class ≡ d
    → (responsible (new_class_filter c) mr ≡ true)
      ↔ ((new_class_filter c).resource_class ≡ (new_class_filter d).resource_class)
unfolding new_class_filter
responsible_iff c d mr e = (
  λ h. responsible_class c mr h ∙ ap chosen e,
  λ h. responsible_of_class c mr (h ∙ ap chosen (sym e)),
)

-- Two instances that are responsible for one object have one class.
pub responsible_unique :
    (c d : String) (mr : ManagedResource)
    → responsible (new_class_filter c) mr ≡ true
    → responsible (new_class_filter d) mr ≡ true
    → (new_class_filter c).resource_class ≡ (new_class_filter d).resource_class
responsible_unique c d mr p q = responsible_class c mr p ∙ sym (responsible_class d mr q)

any_of_contains :
    (x : String) (xs : List String)
    → has_base x ≡ true
    → contains x xs ≡ true
    → any has_base xs ≡ true
unfolding any contains
any_of_contains x [] b h = cc
any_of_contains x (y ∷ ys) b h = ground (arith, string_eq.beq_iff y x, any_of_contains x ys b)

-- If two instances of different classes both act on an object, then it carries the finalizers of
-- both: an object that one of them has claimed alone is left alone by every other.
pub active_exclusive :
    (c d : String) (mr : ManagedResource)
    → (new_class_filter c).resource_class ≢ (new_class_filter d).resource_class
    → (active (new_class_filter c) mr).0 ≡ true
    → (active (new_class_filter d) mr).0 ≡ true
    → (contains (new_class_filter c).finalizer mr.finalizers ≡ true)
      × (contains (new_class_filter d).finalizer mr.finalizers ≡ true)
active_exclusive c d mr h p q = ground (
  arith,
  active_iff c mr,
  active_iff d mr,
  responsible_unique c d mr,
  any_of_contains (new_class_filter c).finalizer mr.finalizers (finalizer-has_base c),
  any_of_contains (new_class_filter d).finalizer mr.finalizers (finalizer-has_base d),
)
