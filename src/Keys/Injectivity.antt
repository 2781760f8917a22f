-- ===== src/Keys/Injectivity.antt =====
-- Two objects with one key are one object, up to the defaulted namespace.
use Prim.Native.Char.{Char, code}
use text.Mathlib.TextLemmas.{
  nil-append, cons-append, head-eq_of_cons-eq, tail-eq_of_cons-eq, append_cancel_left,
}
use gardener_resource_manage.Prelude.{
  String, Bool, true, false, not, ◌&&◌, ◌≡◌, ◌∙◌, sym, ap, refl, arith,
}
use gardener_resource_manage.Prelude.Tests.{nat_beq, if◌then◌else◌}
use gardener_resource_manage.Errors.{◌+++◌}
use gardener_resource_manage.Keys.{default_namespace, key_namespace, object_key}

-- No character of the text is a slash.
unfoldable pub no_slash : String → Bool
no_slash String.[] = true
no_slash (String.◌∷◌ c s) = not (nat_beq (code c) b'/') && no_slash s

slash_ne : (c : Char) (s : String) → no_slash (String.◌∷◌ c s) ≡ true → ◌≡◌ {A = Char} "/" c → ⊥
unfolding no_slash
slash_ne c s h e = ground (arith, ap code e)

no_slash-tail : (c : Char) (s : String) → no_slash (String.◌∷◌ c s) ≡ true → no_slash s ≡ true
unfolding no_slash
no_slash-tail c s h = ground arith

slash_cons : (x : String) → ("/" +++ x) ≡ String.◌∷◌ "/" x
slash_cons x = cons-append "/" "" x ∙ ap (String.◌∷◌ "/") (nil-append x)

-- The text before the first slash and the text behind it are determined.
split :
    (a b x y : String)
    → no_slash a ≡ true
    → no_slash b ≡ true
    → (a +++ ("/" +++ x)) ≡ (b +++ ("/" +++ y))
    → (a ≡ b) × (x ≡ y)
split String.[] String.[] x y ha hb e =
    (refl, append_cancel_left "/" x y (append_cancel_left "" _ _ e))
split String.[] (String.◌∷◌ c s) x y ha hb e = absurd (
    slash_ne c s hb
      (head-eq_of_cons-eq (sym (slash_cons x) ∙ sym (nil-append _) ∙ e ∙ cons-append c s _)))
split (String.◌∷◌ c s) String.[] x y ha hb e = absurd (
    slash_ne c s ha
      (head-eq_of_cons-eq (sym (slash_cons y) ∙ sym (nil-append _) ∙ sym e ∙ cons-append c s _)))
split (String.◌∷◌ c s) (String.◌∷◌ d t) x y ha hb e =
    let e' = sym (cons-append c s ("/" +++ x)) ∙ e ∙ cons-append d t ("/" +++ y) in
    let (p, q) =
      split s t x y (no_slash-tail c s ha) (no_slash-tail d t hb) (tail-eq_of_cons-eq e') in
    (cons_path (head-eq_of_cons-eq e') p, q)
  where
    cons_path : {c d : Char} {s t : String} → c ≡ d → s ≡ t → String.◌∷◌ c s ≡ String.◌∷◌ d t
    cons_path p q = λ i. String.◌∷◌ (p i) (q i)

no_slash_if :
    (b : Bool) (s t : String)
    → no_slash s ≡ true
    → no_slash t ≡ true
    → no_slash (if b then s else t) ≡ true
no_slash_if true s t p q = p
no_slash_if false s t p q = q

key_namespace-no_slash : (k ns : String) → no_slash ns ≡ true → no_slash (key_namespace k ns) ≡ true
unfolding key_namespace no_slash
key_namespace-no_slash k ns h = no_slash_if _ default_namespace ns refl h

-- Keys of objects whose group, kind and namespace hold no slash are equal only if the groups, the
-- kinds, the names and the namespaces with their default are.
pub object_key_injective :
    (g k ns n g' k' ns' n' : String)
    → no_slash g ≡ true
    → no_slash g' ≡ true
    → no_slash k ≡ true
    → no_slash k' ≡ true
    → no_slash ns ≡ true
    → no_slash ns' ≡ true
    → object_key g k ns n ≡ object_key g' k' ns' n'
    → (g ≡ g') × (k ≡ k') × (key_namespace k ns ≡ key_namespace k' ns') × (n ≡ n')
unfolding object_key
object_key_injective g k ns n g' k' ns' n' hg hg' hk hk' hn hn' e =
    let (p, e₁) = split g g' _ _ hg hg' e in
    let (q, e₂) = split k k' _ _ hk hk' e₁ in
    let (r, s) =
      split (key_namespace k ns) (key_namespace k' ns') _ _ (key_namespace-no_slash k ns hn)
        (key_namespace-no_slash k' ns' hn') e₂ in
    (p, q, r, s)
