-- ===== src/Prelude/Decimals.antt =====
-- Go's %d for a number that is not negative.
use Prim.Native.Nat.{ℕ, zero, suc, ◌+◌, ◌*◌, ◌/◌, ◌%◌, ◌<◌}
use Prim.Native.String.{String, ◌++◌ as append}
use mathlib.Core.Path.{◌≡◌, ap, ◌∙◌}
use mathlib.Core.Logic.{inl, inr}
use mathlib.Core.Option.{some, none}
use mathlib.Core.List.{List, [], ◌∷◌}
use native.Mathlib.Omega.{arith}
use gardener_resource_manage.Prelude.Tests.{ltb, if◌then◌else◌, Bool-cases}
use gardener_resource_manage.Prelude.Lists.{get_elem?}

-- The digits before those at hand; the first argument is fuel.
unfoldable pub digits : ℕ → ℕ → List ℕ → List ℕ
digits zero n ds = ds
digits (suc fuel) n ds =
    let rest = digits fuel (n / 10) ((n % 10) ∷ ds) in if ltb n 10 then n ∷ ds else rest

-- What digits stand for.
abbrev pub number_from : ℕ → List ℕ → ℕ
number_from n [] = n
number_from n (d ∷ ds) = number_from (n * 10 + d) ds

-- One more unit of fuel than the number is enough.
number-digits :
    (fuel n : ℕ) (ds : List ℕ) → n < fuel → number_from 0 (digits fuel n ds) ≡ number_from n ds
unfolding digits
number-digits zero n ds h = elim h [ ]
number-digits (suc fuel) n ds h = elim (Bool-cases (ltb n 10)) [
  | inl one ↦ rw one (ap (λ x. number_from x ds) (omega arith))
  | inr more ↦ rw more (
      number-digits fuel (n / 10) ((n % 10) ∷ ds) (ground arith)
      ∙ ap (λ x. number_from x ds) (omega arith))
]

abbrev digit_texts : List String
digit_texts = "0" ∷ "1" ∷ "2" ∷ "3" ∷ "4" ∷ "5" ∷ "6" ∷ "7" ∷ "8" ∷ "9" ∷ []

abbrev digit_text : ℕ → String
digit_text d = elim (get_elem? digit_texts d) [ some text ↦ text | none ↦ "" ]

unfoldable pub text_of : List ℕ → String
text_of [] = ""
text_of (d ∷ ds) = append (digit_text d) (text_of ds)

unfoldable pub decimal : ℕ → String
unfolding digits text_of
decimal n = text_of (digits (suc n) n [])

-- The digits of a number stand for it.
number-decimal : (n : ℕ) → number_from 0 (digits (suc n) n []) ≡ n
number-decimal n = number-digits (suc n) n [] (omega arith)
