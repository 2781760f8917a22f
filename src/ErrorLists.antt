-- ===== src/ErrorLists.antt =====
-- pkg/controller/utils/multierror.go: the text of a list of errors; and of decodingError in
-- pkg/controller/managedresource/reconciler.go.
use gardener_resource_manage.Prelude.{
  ℕ, zero, suc, ◌<◌, ◌+◌, String, Bool, true, false, List, [], ◌∷◌, map, ◌≡◌, refl, sym, ap, ◌∙◌,
  arith,
}
use gardener_resource_manage.Prelude.Tests.{ltb, if◌then◌else◌}
use gardener_resource_manage.Prelude.Lists.{length}
use gardener_resource_manage.Prelude.Decimals.{decimal}
use gardener_resource_manage.Errors.{Error, ◌+++◌}
pub mod Laws

-- The loop: `i` is the position, `combined` is combinedMsg.
unfoldable pub combine : ℕ → String → List Error → String
combine i combined [] = combined
combine i combined (e ∷ es) =
    combine (suc i) ((if ltb 0 i then combined +++ ", " else combined) +++ e.message) es

abbrev listed : String → List Error → String
listed prefix es =
    prefix
    +++ (": " +++ (decimal (length es) +++ (" errors occurred: [" +++ (combine 0 "" es +++ "]"))))

-- NewErrorFormatFuncWithPrefix
unfoldable pub new_error_format_func_with_prefix : String → List Error → String
unfolding combine decimal
new_error_format_func_with_prefix prefix (e ∷ []) =
    prefix +++ (": 1 error occurred: " +++ e.message)
new_error_format_func_with_prefix prefix es = listed prefix es
