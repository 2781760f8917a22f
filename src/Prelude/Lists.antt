-- ===== src/Prelude/Lists.antt =====
-- Lists measured by native numbers, and the searches that the code writes as loops.
use Prim.Native.Nat.{ℕ, zero, suc, ◌+◌}
use mathlib.Core.Path.{◌≡◌, refl}
use mathlib.Core.Logic.{◌⊎◌, inl, inr}
use mathlib.Core.Bool.{Bool, true, false, ◌||◌}
use mathlib.Core.Option.{Option, none, some}
use mathlib.Core.List.{List, [], ◌∷◌, ◌++◌}
use native.Mathlib.Omega.{arith}
use gardener_resource_manage.Prelude.Tests.{if◌then◌else◌, Eq, ◌==◌, Bool-cases}

module _ {ℓ} {A : Type ℓ} where
  abbrev pub length : List A → ℕ
  length [] = 0
  length (x ∷ xs) = suc (length xs)

  -- A write out of bounds changes nothing.
  abbrev pub set : List A → ℕ → A → List A
  set [] i v = []
  set (x ∷ xs) zero v = v ∷ xs
  set (x ∷ xs) (suc i) v = x ∷ set xs i v

  abbrev pub get_elem? : List A → ℕ → Option A
  get_elem? [] i = none
  get_elem? (x ∷ xs) zero = some x
  get_elem? (x ∷ xs) (suc i) = get_elem? xs i

  pub length-append : (xs ys : List A) → length (xs ++ ys) ≡ length xs + length ys
  length-append [] ys = omega arith
  length-append (x ∷ xs) ys = omega (arith, length-append xs ys)

  unfoldable pub is_empty : List A → Bool
  is_empty [] = true
  is_empty (x ∷ xs) = false

  -- The first element that passes the test.
  unfoldable pub find_first : (A → Bool) → List A → Option A
  find_first p [] = none
  find_first p (x ∷ xs) = if p x then some x else find_first p xs

  unfoldable pub any : (A → Bool) → List A → Bool
  any p [] = false
  any p (x ∷ xs) = p x || any p xs

  abbrev pub All {κ} : (A → Type κ) → List A → Type κ
  All P [] = Unit
  All P (x ∷ xs) = P x × All P xs

  pub All-mono {κ} :
      {P Q : A → Type κ} (sub : (a : A) → P a → Q a) (xs : List A) → All P xs → All Q xs
  All-mono sub [] h = tt
  All-mono sub (x ∷ xs) (h, hs) = (sub x h, All-mono sub xs hs)

module _ {ℓ} {A : Type ℓ} ⦃e : Eq A⦄ where
  unfoldable pub contains : A → List A → Bool
  contains a [] = false
  contains a (x ∷ xs) = x == a || contains a xs

  -- Every occurrence is dropped.
  unfoldable pub remove : A → List A → List A
  remove a [] = []
  remove a (x ∷ xs) = let rest = remove a xs in if x == a then rest else x ∷ rest

  pub contains-append :
      (a : A) (xs ys : List A) → contains a (xs ++ ys) ≡ (contains a xs || contains a ys)
  unfolding contains
  contains-append a [] ys = refl
  contains-append a (x ∷ xs) ys = ground (arith, contains-append a xs ys)

  pub contains-remove :
      (a b : A) (xs : List A) → contains b (remove a xs) ≡ (if a == b then false else contains b xs)
  unfolding contains remove
  contains-remove a b [] = ground arith
  contains-remove a b (x ∷ xs) =
      ground (arith, contains-remove a b xs, e.beq_iff x a, e.beq_iff x b, e.beq_iff a b)

  pub remove_absent : (a : A) (xs : List A) → contains a xs ≡ false → remove a xs ≡ xs
  unfolding contains remove
  remove_absent a [] h = refl
  remove_absent a (x ∷ xs) h = ground (arith, remove_absent a xs)

-- Some element has the property; the position is kept.
abbrev pub Any : {A : Type 0} → (A → Type 0) → List A → Type 0
Any P [] = ⊥
Any P (x ∷ xs) = P x ⊎ Any P xs

-- Two lists of one length, with the relation at each position.
abbrev pub Forall₂ : {A B : Type 0} → (A → B → Type 0) → List A → List B → Type 0
Forall₂ P [] [] = Unit
Forall₂ P (x ∷ xs) (y ∷ ys) = P x y × Forall₂ P xs ys
Forall₂ P _ _ = ⊥

-- Each member of a list is one of its members.
pub All-own : {A B : Type 0} (f : A → B) (xs : List A) → All (λ x. Any (λ y. f y ≡ f x) xs) xs
All-own f [] = tt
All-own f (x ∷ xs) = (inl refl, All-mono (λ y h. inr h) xs (All-own f xs))

-- The test of a list against its members.
pub any-Any : {A : Type 0} (p : A → Bool) (xs : List A) → any p xs ≡ true → Any (λ x. p x ≡ true) xs
unfolding any
any-Any p [] h = ground arith
any-Any p (x ∷ xs) h = elim (Bool-cases (p x)) [
  | inl here ↦ inl here
  | inr other ↦ inr (any-Any p xs (rw other at h))
]

pub Any-any : {A : Type 0} (p : A → Bool) (xs : List A) → Any (λ x. p x ≡ true) xs → any p xs ≡ true
unfolding any
Any-any p [] h = elim h [ ]
Any-any p (x ∷ xs) (inl here) = rw here refl
Any-any p (x ∷ xs) (inr later) = ground (arith, Any-any p xs later)

pub Any-mono :
    {A : Type 0} {P Q : A → Type 0} → ((x : A) → P x → Q x) → (xs : List A) → Any P xs → Any Q xs
Any-mono f [] h = elim h [ ]
Any-mono f (x ∷ xs) (inl h) = inl (f x h)
Any-mono f (x ∷ xs) (inr h) = inr (Any-mono f xs h)
