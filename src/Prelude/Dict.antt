-- ===== src/Prelude/Dict.antt =====
-- Go maps as association lists. A loop over a map visits the entries in an order that Go leaves
-- open; the loops here visit the last entry first.
use mathlib.Core.Path.{◌≡◌, refl}
use mathlib.Core.Bool.{Bool, true, false}
use mathlib.Core.Option.{Option, none, some}
use mathlib.Core.List.{List, [], ◌∷◌}
use native.Mathlib.Omega.{arith}
use gardener_resource_manage.Prelude.Tests.{if◌then◌else◌, Eq, ◌==◌}

abbrev pub Dict {ℓ} : Type ℓ → Type ℓ → Type ℓ
Dict K V = List (K × V)

-- A value if there is one, and otherwise the second one.
abbrev pub or_else {ℓ} : {A : Type ℓ} → Option A → Option A → Option A
or_else (some a) o = some a
or_else none o = o

abbrev pub is_some {ℓ} : {A : Type ℓ} → Option A → Bool
is_some (some a) = true
is_some none = false

module _ {ℓ} {K V : Type ℓ} ⦃e : Eq K⦄ where
  unfoldable pub lookup : K → Dict K V → Option V
  lookup k [] = none
  lookup k ((j, v) ∷ m) = if j == k then some v else lookup k m

  -- m[k] = v
  unfoldable pub insert : K → V → Dict K V → Dict K V
  insert key val [] = (key, val) ∷ []
  insert key val ((j, w) ∷ m) = if j == key then (key, val) ∷ m else (j, w) ∷ insert key val m

  -- delete(m, k)
  unfoldable pub delete : K → Dict K V → Dict K V
  delete k [] = []
  delete k ((j, w) ∷ m) = let rest = delete k m in if j == k then rest else (j, w) ∷ rest

  -- for k, v := range m { out[k] = v }
  unfoldable pub insert_all : Dict K V → Dict K V → Dict K V
  insert_all [] out = out
  insert_all ((k, v) ∷ m) out = insert k v (insert_all m out)

  pub lookup-insert :
      (k j : K) (val : V) (d : Dict K V)
      → lookup j (insert k val d) ≡ (if k == j then some val else lookup j d)
  unfolding lookup insert
  lookup-insert k j val [] = refl
  lookup-insert k j val ((i, old) ∷ rest) =
      ground (arith, lookup-insert k j val rest, e.beq_iff k j, e.beq_iff i k, e.beq_iff i j)

  pub lookup-delete :
      (k j : K) (m : Dict K V) → lookup j (delete k m) ≡ (if k == j then none else lookup j m)
  unfolding lookup delete
  lookup-delete k j [] = ground arith
  lookup-delete k j ((i, w) ∷ m) =
      ground (arith, e.beq_iff k j, e.beq_iff i k, e.beq_iff i j, lookup-delete k j m)

  pub lookup-insert_all :
      (j : K) (m out : Dict K V) → lookup j (insert_all m out) ≡ or_else (lookup j m) (lookup j out)
  unfolding lookup insert_all
  lookup-insert_all j [] out = refl
  lookup-insert_all j ((k, v) ∷ m) out =
      ground (arith, lookup-insert k j v (insert_all m out), lookup-insert_all j m out)
