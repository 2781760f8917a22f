-- ===== src/Errors.antt =====
-- Errors as values: an error of the API machinery has a reason, by which the code tells errors
-- apart (apierrors.IsNotFound and the like); an error of fmt.Errorf has none of these.
use Prim.Native.String.{◌++◌ as append}
use gardener_resource_manage.Prelude.{String, Bool, true, false, ◌≡◌, refl, ap, ◌⊎◌, inl, inr}

pub data Reason : Type 0 where
  not_found conflict invalid no_match unknown : Reason

pub record Error : Type 0 where
  pub reason : Reason
  pub message : String

pub data Result {ℓ} (A : Type ℓ) : Type ℓ where
  ok : A → Result A
  err : Error → Result A

infixl 10 ◌>>=◌ ◌>>◌
-- `x, err := r; if err != nil { return err }` and the code behind it.
abbrev pub ◌>>=◌ {ℓ κ} : {A : Type ℓ} {B : Type κ} → Result A → (A → Result B) → Result B
err failure >>= next = err failure
ok value >>= next = next value

-- The same for a call that has no value beside its error.
abbrev pub ◌>>◌ {ℓ} : {C : Type ℓ} → Result (Unit {0}) → Result C → Result C
first >> second = first >>= λ _. second

-- fmt.Errorf and errors.New
abbrev pub errorf : String → Error
errorf text = record { reason = Reason.unknown; message = text }

unfoldable pub is_conflict : Error → Bool
is_conflict e = elim e.reason [ Reason.conflict ↦ true | _ ↦ false ]

unfoldable pub is_not_found : Error → Bool
is_not_found e = elim e.reason [ Reason.not_found ↦ true | _ ↦ false ]

unfoldable pub is_no_match : Error → Bool
is_no_match e = elim e.reason [ Reason.no_match ↦ true | _ ↦ false ]

unfoldable pub is_invalid : Error → Bool
is_invalid e = elim e.reason [ Reason.invalid ↦ true | _ ↦ false ]

-- Texts are joined with this operator of their own, beside that of lists.
infixr 65 ◌+++◌
abbrev pub ◌+++◌ : String → String → String
s +++ t = append s t

-- %q of a text in which nothing is escaped.
abbrev pub quoted : String → String
quoted s = "\"" +++ (s +++ "\"")

pub Result-cases :
    {A : Type 0} (r : Result A) → ((a : A) × (r ≡ ok a)) ⊎ ((e : Error) × (r ≡ err e))
Result-cases (ok a) = inl (a, refl)
Result-cases (err e) = inr (e, refl)

pub ok_injective : {A : Type 0} {a b : A} → ok a ≡ ok b → a ≡ b
ok_injective {A} {a} e = ap (λ r. elim r [ ok x ↦ x | err _ ↦ a ]) e
