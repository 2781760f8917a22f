-- ===== src/Tests/Sorts.antt =====
-- Two references in their two orders, and texts of errors.
use mathlib.Core.List.{Perm, Mem, Memᴰ}
use mathlib.Core.Logic.{∥∥₁_elim}
use mathlib.Core.HLevel.{hedberg}
use mathlib.Core.List.Perm
use gardener_resource_manage.Prelude.{zero, suc, List, [], ◌∷◌, ◌≡◌, ◌≢◌, refl, sym, ◌∙◌, arith}
use gardener_resource_manage.Prelude.Tests.{string_eq, ne_of_beq}
use gardener_resource_manage.Errors.{Error, errorf}
use gardener_resource_manage.Api.Types.{ObjectReference}
use gardener_resource_manage.Keys.{object_key_by_reference}
use gardener_resource_manage.Sorting.{
  ReferenceSorter, new_reference_sorter, len, less, swap, Sorting, start, step, IsOrdered, below,
}
use gardener_resource_manage.Sorting.Order.{String-discrete}
use gardener_resource_manage.Sorting.Outcome.{sorting_canonical}
use gardener_resource_manage.ErrorLists.{new_error_format_func_with_prefix}
use gardener_resource_manage.Tests.Data.{config_ref, deployment_ref}

-- The ConfigMap comes first, since its group is empty.
abbrev ordered : List ObjectReference
ordered = config_ref ∷ (deployment_ref ∷ [])

abbrev reversed : List ObjectReference
reversed = deployment_ref ∷ (config_ref ∷ [])

abbrev sorter : ReferenceSorter
sorter = record {
  keys = "/ConfigMap/shop/conf" ∷ ("apps/Deployment/shop/web" ∷ []);
  refs = ordered;
}

ordered-run : Sorting (new_reference_sorter ordered) sorter
unfolding new_reference_sorter object_key_by_reference
ordered-run = start

reversed-run : Sorting (new_reference_sorter reversed) sorter
unfolding new_reference_sorter object_key_by_reference swap
reversed-run = step 1 0 start refl

sorter-IsOrdered : IsOrdered sorter
unfolding len less below
sorter-IsOrdered zero h = refl
sorter-IsOrdered (suc i) h = absurd (omega arith)

same : Perm reversed ordered
same = Perm.swap config_ref deployment_ref []

ObjectReference-set : IsSet ObjectReference
ObjectReference-set = hlevel (hedberg String-discrete)

differ : object_key_by_reference deployment_ref ≢ object_key_by_reference config_ref
unfolding object_key_by_reference
differ = ne_of_beq "apps/Deployment/shop/web" "/ConfigMap/shop/conf" refl

unique_at :
    (a b : ObjectReference)
    → Memᴰ a reversed
    → Memᴰ b reversed
    → object_key_by_reference a ≡ object_key_by_reference b
    → a ≡ b
unique_at a b (Memᴰ.head p) (Memᴰ.head q) e = p ∙ sym q
unique_at a b (Memᴰ.head p) (Memᴰ.tail (Memᴰ.head q)) e = absurd (differ (rw (p, q) at e))
unique_at a b (Memᴰ.head p) (Memᴰ.tail (Memᴰ.tail m)) e = elim m [ ]
unique_at a b (Memᴰ.tail (Memᴰ.head p)) (Memᴰ.head q) e = absurd (differ (sym (rw (p, q) at e)))
unique_at a b (Memᴰ.tail (Memᴰ.head p)) (Memᴰ.tail (Memᴰ.head q)) e = p ∙ sym q
unique_at a b (Memᴰ.tail (Memᴰ.head p)) (Memᴰ.tail (Memᴰ.tail m)) e = elim m [ ]
unique_at a b (Memᴰ.tail (Memᴰ.tail m)) n e = elim m [ ]

-- The two keys differ.
unique :
    (a b : ObjectReference)
    → Mem a reversed
    → Mem b reversed
    → object_key_by_reference a ≡ object_key_by_reference b
    → a ≡ b
unique a b m n e =
    ∥∥₁_elim m (ObjectReference-set a b)
      (λ d. ∥∥₁_elim n (ObjectReference-set a b) (λ d'. unique_at a b d d' e))

sorting_canonical_example : ◌≡◌ {A = List ObjectReference} ordered ordered
sorting_canonical_example =
    sorting_canonical same reversed-run ordered-run sorter-IsOrdered sorter-IsOrdered unique

abbrev errors : List Error
errors = errorf "one" ∷ (errorf "two" ∷ [])

-- The text that is printed.
two_errors :
    new_error_format_func_with_prefix "Could not" errors
    ≡ "Could not: 2 errors occurred: [one, two]"
unfolding new_error_format_func_with_prefix
two_errors = refl
