-- ===== src/Exec.antt =====
-- Code that talks to an API server: it takes the world, which the server and all other clients
-- may change between two calls, and gives the world back beside its result. What was written
-- before an error stays written.
use gardener_resource_manage.Prelude.{◌≡◌, refl, ap, arith}
use gardener_resource_manage.Errors.{Error, Result, ok, err}

abbrev pub Exec : Type 0 → Type 0 → Type 0
Exec W A = W → Result A × W

module _ {W A : Type 0} where
  abbrev pub pure : A → Exec W A
  pure a w = (ok a, w)

  abbrev pub raise : Error → Exec W A
  raise e w = (err e, w)

  abbrev pub lift : Result A → Exec W A
  lift r w = (r, w)

  -- A read of the world that cannot fail.
  abbrev pub gets : (W → A) → Exec W A
  gets f w = (ok (f w), w)

module _ {W A B : Type 0} where
  abbrev pub follow : Result A × W → (A → Exec W B) → Result B × W
  follow (ok a, w) f = f a w
  follow (err e, w) f = (err e, w)

  infixl 10 ◌>>=◌ ◌>>◌
  abbrev pub ◌>>=◌ : Exec W A → (A → Exec W B) → Exec W B
  ◌>>=◌ m f w = follow (m w) f

  abbrev pub ◌>>◌ : Exec W A → Exec W B → Exec W B
  m >> n = m >>= λ _. n

module _ {W A : Type 0} where
  -- `if err := m(); err != nil { … }`: the call's error is a value for the code behind it.
  abbrev caught : Result A × W → Result (Result A) × W
  caught (r, w) = (ok r, w)

  abbrev pub catch : Exec W A → Exec W (Result A)
  catch m w = caught (m w)

  -- An error is replaced by another that is made of it.
  abbrev pub rewrapped : (Error → Error) → Result A × W → Result A × W
  rewrapped f (ok a, w) = (ok a, w)
  rewrapped f (err e, w) = (err (f e), w)

  abbrev pub wrap : (Error → Error) → Exec W A → Exec W A
  wrap f m w = rewrapped f (m w)

-- A chain that succeeds has succeeded at each step.
module _ {W A B : Type 0} where
  follow_ok :
      (x : Result A × W) (f : A → Exec W B) (b : B) (w' : W)
      → follow x f ≡ (ok b, w')
      → (a : A) × (w : W) × (x ≡ (ok a, w)) × (f a w ≡ (ok b, w'))
  follow_ok (ok a, w) f b w' eq = (a, w, refl, eq)
  follow_ok (err e, w) f b w' eq = ground arith

  pub bind_ok :
      (m : Exec W A) (f : A → Exec W B) (s : W) (b : B) (s' : W)
      → (m >>= f) s ≡ (ok b, s')
      → (a : A) × (w : W) × (m s ≡ (ok a, w)) × (f a w ≡ (ok b, s'))
  bind_ok m f s b s' eq = follow_ok (m s) f b s' eq

pub bind_of_ok :
    {W A B : Type 0} (m : Exec W A) (f : A → Exec W B) (w : W) (a : A)
    → (m w).0 ≡ ok a
    → (m >>= f) w ≡ f a (m w).1
bind_of_ok {W} {A} {B} m f w a e = by_result (m w) e
  where
    by_result : (x : Result A × W) → x.0 ≡ ok a → follow x f ≡ f a x.1
    by_result (ok b, v) h = ap (λ r. follow (r, v) f) h
    by_result (err x, v) h = ground arith

pub wrap_of_ok :
    {W A : Type 0} (f : Error → Error) (m : Exec W A) (w : W) (a : A)
    → (m w).0 ≡ ok a
    → (wrap f m w).0 ≡ ok a
wrap_of_ok {W} {A} f m w a e = by_result (m w) e
  where
    by_result : (x : Result A × W) → x.0 ≡ ok a → (rewrapped f x).0 ≡ ok a
    by_result (ok b, v) h = h
    by_result (err x, v) h = ground arith

pub wrap_ok :
    {W A : Type 0} (f : Error → Error) (m : Exec W A) (s : W) (a : A) (s' : W)
    → wrap f m s ≡ (ok a, s')
    → m s ≡ (ok a, s')
wrap_ok {W} {A} f m s a s' eq = by_result (m s) eq
  where
    by_result : (x : Result A × W) → rewrapped f x ≡ (ok a, s') → x ≡ (ok a, s')
    by_result (ok a', w) e = e
    by_result (err x, w) e = ground arith

-- A chain never succeeds if what it ends in never does.
abbrev pub Fails : {W A : Type 0} → Exec W A → Type 0
Fails {W} {A} m = (s s' : W) (a : A) → m s ≡ (ok a, s') → ⊥

pub bind-Fails :
    {W A B : Type 0} (m : Exec W A) (f : A → Exec W B) → ((a : A) → Fails (f a)) → Fails (m >>= f)
bind-Fails m f fails s s' b eq =
    let (a, w, first, rest) = bind_ok m f s b s' eq in fails a w s' b rest

pub raise-Fails : {W A : Type 0} (e : Error) → Fails {W = W} {A = A} (raise e)
raise-Fails e s s' a eq = ground arith
