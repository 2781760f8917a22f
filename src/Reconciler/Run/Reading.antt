-- ===== src/Reconciler/Run/Reading.antt =====
-- What the loop over the secrets of the spec has read.
use gardener_resource_manage.Prelude.{String, List, [], ◌∷◌, ◌≡◌, refl, sym, ap}
use gardener_resource_manage.Prelude.Tests.{string_eq}
use gardener_resource_manage.Prelude.Dict.{Dict}
use gardener_resource_manage.Errors.{Error, Result, ok, err, errorf, ok_injective, ◌+++◌}
use gardener_resource_manage.Exec.{raise, Fails, bind-Fails, raise-Fails, ◌>>◌}
use mathlib.Core.Path.{subst}
use gardener_resource_manage.Api.Types.{condition_false, ManagedResource, ManagedResourceCondition}
use gardener_resource_manage.ObjectIndex.{ObjectIndex}
use gardener_resource_manage.Reconciler.Decoding.{Decoding, Decoded, add_secret}
use gardener_resource_manage.Reconciler.Decoding.Laws.{IsMatched, add_secret-IsMatched}
use gardener_resource_manage.Reconciler.Control.{Run}
use gardener_resource_manage.Reconciler.Steps.{
  Reconciler, read_secrets, unreadable, updated, try_conditions,
}

module _ {W C T V : Type 0} (r : Reconciler W C T V) where
  unreadable-Fails : (c : ManagedResourceCondition) (e : Error) → Fails (unreadable r c e)
  unfolding unreadable
  unreadable-Fails c e =
      bind-Fails (updated r c condition_false "CannotReadSecret" e.message)
        (λ c'.
          try_conditions r (c' ∷ []) >> raise (errorf ("could not read secret '': " +++ e.message)))
        (λ c'.
          bind-Fails (try_conditions r (c' ∷ []))
            (λ _. raise (errorf ("could not read secret '': " +++ e.message))) (λ _. raise-Fails _))

  -- The secrets of the names are read in turn, from the world on, and what each one holds is added.
  abbrev pub Read :
      Decoding C → ManagedResource → List String → W → Decoded C → Decoded C → W → Type 0
  Read d mr [] w start s w' = (start ≡ s) × (w ≡ w')
  Read d mr (name ∷ names) w start s w' =
      (content : Dict String String) × (w₁ : W) × (r.get_secret mr.namespace name w
        ≡ (ok content, w₁))
      × Read d mr names w₁ (add_secret d (mr.namespace +++ ("/" +++ name)) content start) s w'

  pub Read-IsMatched :
      (d : Decoding C) (mr : ManagedResource) (i : ObjectIndex) (names : List String) (w : W)
      (start s : Decoded C) (w' : W)
      → Read d mr names w start s w'
      → IsMatched d i start
      → IsMatched d i s
  Read-IsMatched d mr i [] w start s w' (same, _) h = subst (IsMatched d i) same h
  Read-IsMatched d mr i (name ∷ names) w start s w' (content, w₁, _, rest) h =
      Read-IsMatched d mr i names w₁ _ s w' rest (add_secret-IsMatched d i _ content start h)

  pub read_secrets-Read :
      (d : Decoding C) (c : ManagedResourceCondition) (mr : ManagedResource) (names : List String)
      (start s : Decoded C) (w : W) (st' : W × ManagedResource)
      → read_secrets r d c names start (w, mr) ≡ (ok s, st')
      → Read d mr names w start s st'.0 × (st'.1 ≡ mr)
  unfolding read_secrets
  read_secrets-Read d c mr [] start s w st' eq =
      ((ok_injective (ap (λ x. x.0) eq), ap (λ x. x.1.0) eq), ap (λ x. x.1.1) (sym eq))
  read_secrets-Read d c mr (name ∷ names) start s w st' eq =
      by_secret (λ content v. read_secrets-Read d c mr names _ s v st')
        (r.get_secret mr.namespace name w) refl eq
    where
      text : String
      text = mr.namespace +++ ("/" +++ name)

      after_read : Result (Dict String String) → Run W (Decoded C)
      after_read secret = elim secret [
        | ok content ↦ read_secrets r d c names (add_secret d text content start)
        | err e ↦ unreadable r c e
      ]

      by_secret :
          (ih : (content : Dict String String) (v : W)
            → read_secrets r d c names (add_secret d text content start) (v, mr) ≡ (ok s, st')
            → Read d mr names v (add_secret d text content start) s st'.0 × (st'.1 ≡ mr))
          (x : Result (Dict String String) × W)
          → r.get_secret mr.namespace name w ≡ x
          → after_read x.0 (x.1, mr) ≡ (ok s, st')
          → Read d mr (name ∷ names) w start s st'.0 × (st'.1 ≡ mr)
      by_secret ih (ok content, v) got e =
          let (rest, same) = ih content v e in ((content, v, got, rest), same)
      by_secret ih (err x, v) got e = absurd (unreadable-Fails c x (v, mr) st' s e)
