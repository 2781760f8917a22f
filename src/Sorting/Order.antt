-- ===== src/Sorting/Order.antt =====
-- The order of texts: of two lists of keys in this order with the same keys, there is one.
use mathlib.Core.HLevel.{hedberg}
use mathlib.Core.List
use mathlib.Core.Logic.{∥∥₁_elim}
use mathlib.Core.List.{Perm, Permᴰ}
use text.Mathlib.TextEquality.{Char-path}
use gardener_resource_manage.Prelude.{
  ℕ, String, true, false, List, [], ◌∷◌, ◌≡◌, refl, sym, ◌∙◌, inl, inr, arith,
}
use gardener_resource_manage.Prelude.Tests.{
  ◌==◌, string_eq, if◌then◌else◌, Bool-cases, eq_of_beq, ne_of_beq,
}
use gardener_resource_manage.Prelude.Lists.{All}
use gardener_resource_manage.Sorting.{codes, codes_below, below}

codes_below_asym : (xs ys : List ℕ) → codes_below xs ys ≡ true → codes_below ys xs ≡ false
unfolding codes_below
codes_below_asym xs [] h = ground arith
codes_below_asym [] (y ∷ ys) h = refl
codes_below_asym (x ∷ xs) (y ∷ ys) h = ground (arith, codes_below_asym xs ys)

codes_below_trans :
    (xs ys zs : List ℕ)
    → codes_below ys xs ≡ false
    → codes_below zs ys ≡ false
    → codes_below zs xs ≡ false
unfolding codes_below
codes_below_trans [] ys [] h k = refl
codes_below_trans [] [] (z ∷ zs) h k = refl
codes_below_trans [] (y ∷ ys) (z ∷ zs) h k = refl
codes_below_trans (x ∷ xs) [] zs h k = ground arith
codes_below_trans (x ∷ xs) (y ∷ ys) [] h k = ground arith
codes_below_trans (x ∷ xs) (y ∷ ys) (z ∷ zs) h k = ground (arith, codes_below_trans xs ys zs)

codes_below_total :
    (xs ys : List ℕ) → codes_below xs ys ≡ false → codes_below ys xs ≡ false → xs ≡ ys
unfolding codes_below
codes_below_total [] [] h k = refl
codes_below_total [] (y ∷ ys) h k = ground arith
codes_below_total (x ∷ xs) [] h k = ground arith
codes_below_total (x ∷ xs) (y ∷ ys) h k = ground (arith, codes_below_total xs ys)

codes_injective : (s t : String) → codes s ≡ codes t → s ≡ t
codes_injective String.[] String.[] h = refl
codes_injective String.[] (String.◌∷◌ d t) h = cc
codes_injective (String.◌∷◌ c s) String.[] h = cc
codes_injective (String.◌∷◌ c s) (String.◌∷◌ d t) h =
    let head = Char-path c d (cc) in
    let tail = codes_injective s t (cc) in λ i. String.◌∷◌ (head i) (tail i)

pub below_asym : (s t : String) → below s t ≡ true → below t s ≡ false
unfolding below
below_asym s t h = codes_below_asym (codes s) (codes t) h

pub below_trans : (s t u : String) → below t s ≡ false → below u t ≡ false → below u s ≡ false
unfolding below
below_trans s t u h k = codes_below_trans (codes s) (codes t) (codes u) h k

pub below_total : (s t : String) → below s t ≡ false → below t s ≡ false → s ≡ t
unfolding below
below_total s t h k = codes_injective s t (codes_below_total (codes s) (codes t) h k)

-- No later key is below an earlier one.
abbrev pub IsSorted : List String → Type 0
IsSorted [] = Unit
IsSorted (k ∷ ks) = All (λ j. below j k ≡ false) ks × IsSorted ks

place : String → List String → List String
place k [] = k ∷ []
place k (j ∷ js) = if below j k then j ∷ place k js else k ∷ (j ∷ js)

canonical : List String → List String
canonical [] = []
canonical (k ∷ ks) = place k (canonical ks)

place_comm : (k j : String) (ks : List String) → place k (place j ks) ≡ place j (place k ks)
unfolding place
place_comm k j [] = ground (arith, below_asym k j, below_total k j)
place_comm k j (i ∷ is) = ground (
  arith,
  place_comm k j is,
  below_asym k j,
  below_asym j k,
  below_total k j,
  below_trans k j i,
  below_trans j k i,
  below_trans i k j,
  below_trans i j k,
  below_trans k i j,
  below_trans j i k,
)

canonical-perm : {ks js : List String} → Permᴰ ks js → canonical ks ≡ canonical js
unfolding canonical
canonical-perm Permᴰ.nil = refl
canonical-perm (Permᴰ.cons e p) = λ i. place (e i) (canonical-perm p i)
canonical-perm (Permᴰ.swap {l = l} e f) =
    place_comm _ _ (canonical l) ∙ λ i. place (f i) (place (e i) (canonical l))
canonical-perm (Permᴰ.trans p q) = canonical-perm p ∙ canonical-perm q

place_least :
    (k : String) (ks : List String) → All (λ j. below j k ≡ false) ks → place k ks ≡ k ∷ ks
unfolding place
place_least k [] h = refl
place_least k (j ∷ js) h = rw h.0 refl

canonical_sorted : (ks : List String) → IsSorted ks → canonical ks ≡ ks
unfolding canonical
canonical_sorted [] h = refl
canonical_sorted (k ∷ ks) (h, hs) = rw (canonical_sorted ks hs) (place_least k ks h)

pub String-discrete : Discrete String
String-discrete s t = elim (Bool-cases (s == t)) [
  | inl same ↦ yes (eq_of_beq s t same)
  | inr other ↦ no (ne_of_beq s t other)
]

-- Sorted lists with the same keys are equal.
pub sorted_unique : (ks js : List String) → Perm ks js → IsSorted ks → IsSorted js → ks ≡ js
sorted_unique ks js p h k =
    sym (canonical_sorted ks h)
    ∙ ∥∥₁_elim p (List.is_set (hedberg String-discrete) _ _) canonical-perm
    ∙ canonical_sorted js k
