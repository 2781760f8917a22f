-- ===== src/ErrorLists/Laws.antt =====
-- What the text of a list of errors holds.
use text.Mathlib.TextLemmas.{nil-append, append-nil, append_assoc}
use gardener_resource_manage.Prelude.{
  ℕ, suc, String, true, List, [], ◌∷◌, map, ◌≡◌, ◌≢◌, refl, sym, ap, ◌∙◌, arith,
}
use gardener_resource_manage.Prelude.Tests.{ltb}
use gardener_resource_manage.Prelude.Lists.{length}
use gardener_resource_manage.Prelude.Decimals.{decimal}
use gardener_resource_manage.Errors.{Error, ◌+++◌}
use gardener_resource_manage.ErrorLists.{combine, new_error_format_func_with_prefix}

-- Texts in a row, with another between each two of them.
abbrev pub preceded : String → List String → String
preceded separator [] = ""
preceded separator (t ∷ ts) = separator +++ (t +++ preceded separator ts)

abbrev pub join : String → List String → String
join separator [] = ""
join separator (t ∷ ts) = t +++ preceded separator ts

combine_later :
    (i : ℕ) (combined : String) (es : List Error)
    → combine (suc i) combined es ≡ combined +++ preceded ", " (map (λ e. e.message) es)
unfolding combine
combine_later i combined [] = sym (append-nil combined)
combine_later i combined (e ∷ es) =
    let later : ltb 0 (suc i) ≡ true = ground arith in
    rw (later, combine)
      (combine_later (suc i) ((combined +++ ", ") +++ e.message) es
        ∙ append_assoc (combined +++ ", ") e.message (preceded ", " (map (λ e. e.message) es))
        ∙ append_assoc combined ", " (e.message +++ preceded ", " (map (λ e. e.message) es)))

combine-eq-join : (es : List Error) → combine 0 "" es ≡ join ", " (map (λ e. e.message) es)
unfolding combine
combine-eq-join [] = refl
combine-eq-join (e ∷ es) = rw nil-append (combine_later 0 e.message es)

-- Any number of errors but one is told with the messages joined by commas.
pub new_error_format_func_with_prefix-join :
    (prefix : String) (es : List Error)
    → length es ≢ 1
    → new_error_format_func_with_prefix prefix es
      ≡ prefix
        +++ (": "
            +++ (decimal (length es)
                +++ (" errors occurred: [" +++ (join ", " (map (λ e. e.message) es) +++ "]"))))
unfolding new_error_format_func_with_prefix
new_error_format_func_with_prefix-join prefix [] h = refl
new_error_format_func_with_prefix-join prefix (e ∷ []) h = absurd (h refl)
new_error_format_func_with_prefix-join prefix (e ∷ (f ∷ es)) h =
    ap
      (λ t.
        prefix
        +++ (": "
            +++ (decimal (length (e ∷ (f ∷ es))) +++ (" errors occurred: [" +++ (t +++ "]")))))
      (combine-eq-join (e ∷ (f ∷ es)))
