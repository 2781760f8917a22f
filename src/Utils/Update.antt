-- ===== src/Utils/Update.antt =====
-- tryUpdate: read the object, transform it, write it back where that changed it; a conflict is
-- answered by another attempt.
use gardener_resource_manage.Prelude.{Bool, true, false, inl, inr, ◌≡◌, refl, sym, ◌∙◌, arith}
use gardener_resource_manage.Prelude.Tests.{Same, if◌then◌else◌, Bool-cases}
use gardener_resource_manage.Errors.{Result, ok, err, is_conflict}
use gardener_resource_manage.Exec.{Exec}
use gardener_resource_manage.Utils.Backoff.{
  Backoff, Waiting, exponential_backoff, exponential_backoff_ok,
}

-- The client's Get of the object's key and its Update (or the Update of the status client), whose
-- answer overwrites the object.
pub record Access (W O : Type 0) : Type 0 where
  pub get : Exec W O
  pub update : O → Exec W O

module _ {W O : Type 0} ⦃e : Same O⦄ (access : Access W O) (transform : Exec O (Unit {0})) where
  abbrev pub after_update : O → Result O × W → Result Bool × (W × O)
  after_update obj (ok answer, w) = (ok true, (w, answer))
  after_update obj (err e, w) = if is_conflict e then (ok false, (w, obj)) else (err e, (w, obj))

  abbrev pub after_transform : O → W → Result (Unit {0}) × O → Result Bool × (W × O)
  after_transform before w (err e, obj) = (err e, (w, obj))
  after_transform before w (ok _, obj) =
      if e.same obj before then (ok true, (w, obj)) else after_update obj (access.update obj w)

  abbrev pub after_get : O → Result O × W → Result Bool × (W × O)
  after_get obj (err e, w) = (err e, (w, obj))
  after_get obj (ok read, w) = after_transform read w (transform read)

  -- One attempt; the state holds the object beside the world, as the caller's pointer does.
  unfoldable pub attempt : Exec (W × O) Bool
  attempt (w, obj) = after_get obj (access.get w)

  unfoldable pub try_update : Waiting (W × O) → Backoff → Exec (W × O) (Unit {0})
  try_update waiting backoff = exponential_backoff waiting backoff attempt

-- What a server keeps to: what a read or a write answers is what it holds then, and a write
-- does not undo what is wanted of the object.
pub record IsServer {W O : Type 0} (access : Access W O) (held : W → O) (Wanted : O → Type 0)
    : Type 0 where
  pub get_held : (w : W) (obj : O) → (access.get w).0 ≡ ok obj → held (access.get w).1 ≡ obj
  pub update_held :
      (w : W) (obj answer : O)
      → (access.update obj w).0 ≡ ok answer
      → (held (access.update obj w).1 ≡ answer) × (Wanted obj → Wanted answer)

module _ {W O : Type 0} ⦃e : Same O⦄ (access : Access W O) (transform : Exec O (Unit {0}))
    (held : W → O) (Wanted : O → Type 0) (server : IsServer access held Wanted)
    (wanted : (obj : O) → (transform obj).0 ≡ ok tt → Wanted (transform obj).1) where
  abbrev Settled : W × O → Type 0
  Settled s = (held s.0 ≡ s.1) × Wanted s.1

  after_update-Settled :
      (obj : O) (r : Result O × W)
      → Wanted obj
      → ((answer : O) → r.0 ≡ ok answer → (held r.1 ≡ answer) × (Wanted obj → Wanted answer))
      → (after_update access transform obj r).0 ≡ ok true
      → Settled (after_update access transform obj r).1
  after_update-Settled obj (ok answer, w) is_wanted law eq =
      ((law answer refl).0, (law answer refl).1 is_wanted)
  after_update-Settled obj (err e, w) is_wanted law eq = elim (Bool-cases (is_conflict e)) [
    | inl c ↦ ground (arith, c)
    | inr c ↦ ground (arith, c)
  ]

  after_transform-Settled :
      (before : O) (w : W) (r : Result (Unit {0}) × O)
      → held w ≡ before
      → (r.0 ≡ ok tt → Wanted r.1)
      → (after_transform access transform before w r).0 ≡ ok true
      → Settled (after_transform access transform before w r).1
  after_transform-Settled before w (err e, obj) is_held is_wanted eq = ground arith
  after_transform-Settled before w (ok _, obj) is_held is_wanted eq =
      elim (Bool-cases (e.same obj before)) [
        | inl same ↦
            (rw (same, after_transform)
              (is_held ∙ sym (e.same_sound obj before same), is_wanted refl))
        | inr differs ↦
            rw (differs, after_transform)
              (after_update-Settled obj (access.update obj w) (is_wanted refl)
                (server.update_held w obj) (rw (differs, after_transform) at eq))
      ]

  after_get-Settled :
      (obj : O) (r : Result O × W)
      → ((read : O) → r.0 ≡ ok read → held r.1 ≡ read)
      → (after_get access transform obj r).0 ≡ ok true
      → Settled (after_get access transform obj r).1
  after_get-Settled obj (err e, w) is_held eq = ground arith
  after_get-Settled obj (ok read, w) is_held eq =
      after_transform-Settled read w (transform read) (is_held read refl) (wanted read) eq

  attempt-Settled :
      (s : W × O)
      → (attempt access transform s).0 ≡ ok true
      → Settled (attempt access transform s).1
  unfolding attempt
  attempt-Settled (w, obj) eq = after_get-Settled obj (access.get w) (server.get_held w) eq

  -- When tryUpdate succeeds, the object is as the transformation makes it, and the server holds it
  -- so; for a server that answers with what it holds and keeps what is wanted of an update.
  pub try_update_settles :
      (waiting : Waiting (W × O)) (backoff : Backoff) (s s' : W × O)
      → try_update access transform waiting backoff s ≡ (ok tt, s')
      → (held s'.0 ≡ s'.1) × Wanted s'.1
  unfolding try_update
  try_update_settles waiting backoff s s' eq =
      exponential_backoff_ok waiting backoff (attempt access transform) Settled s s' attempt-Settled
        eq
