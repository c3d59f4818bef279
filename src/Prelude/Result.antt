-- ===== src/Prelude/Result.antt =====
-- Outcomes of fallible code, and actions that change a state and may fail. What was written before
-- a failure stays written, so the state comes back beside the error too.
use mathlib.Core.Path.{◌≡◌, refl}
use mathlib.Core.Option.{Option, none, some}

-- `panic` is a Rust panic; `out_of_fuel` belongs to the model alone.
pub data Res {ℓ} (E : Type 0) (A : Type ℓ) : Type ℓ where
  ok : A → Res E A
  err : E → Res E A
  panic : Res E A
  out_of_fuel : Res E A

pub ok-injective {ℓ} : {E : Type 0} {A : Type ℓ} {a b : A} → ◌≡◌ {A = Res E A} (ok a) (ok b) → a ≡ b
ok-injective e = cc

abbrev pub and_then {ℓ κ} :
    {E : Type 0} {A : Type ℓ} {B : Type κ} → Res E A → (A → Res E B) → Res E B
and_then (ok a) f = f a
and_then (err e) f = err e
and_then panic f = panic
and_then out_of_fuel f = out_of_fuel

abbrev pub or_panic {ℓ} : {E : Type 0} {A : Type ℓ} → Option A → Res E A
or_panic none = panic
or_panic (some a) = ok a

abbrev pub Exec : Type 0 → Type 0 → Type 0 → Type 0
Exec S E A = S → Res E A × S

module _ {S E A : Type 0} where
  abbrev pub pure : A → Exec S E A
  pure a s = (ok a, s)

  abbrev pub lift : Res E A → Exec S E A
  lift r s = (r, s)

  abbrev pub gets : (S → A) → Exec S E A
  gets f s = (ok (f s), s)

module _ {S E : Type 0} where
  abbrev pub modify : (S → S) → Exec S E (Unit {0})
  modify f s = (ok tt, f s)

module _ {S E A B : Type 0} where
  abbrev pub continue : Res E A → (A → Exec S E B) → Exec S E B
  continue (ok a) f s = f a s
  continue (err e) f s = (err e, s)
  continue panic f s = (panic, s)
  continue out_of_fuel f s = (out_of_fuel, s)

  infixl 5 ◌>>=◌ ◌>>◌
  unfoldable pub ◌>>=◌ : Exec S E A → (A → Exec S E B) → Exec S E B
  ◌>>=◌ m f s = let (r, s') = m s in continue r f s'

  abbrev pub ◌>>◌ : Exec S E A → Exec S E B → Exec S E B
  m >> n = m >>= λ _. n

-- What holds at the end: `Q` of the result, or `R` where the code has stopped.
abbrev pub Ends : {S E A : Type 0} → (A → S → Type 0) → (S → Type 0) → Res E A → S → Type 0
Ends Q R (ok a) s = Q a s
Ends Q R (err e) s = R s
Ends Q R panic s = R s
Ends Q R out_of_fuel s = R s

-- From a state with `P`, the action ends as `Q` or `R` says.
pub record Triple {S E A : Type 0} (P : S → Type 0) (m : Exec S E A) (Q : A → S → Type 0)
    (R : S → Type 0) : Type 0 where
  pub run : {s : S} → P s → Ends Q R (m s).0 (m s).1

module _ {S E A B : Type 0} {Q : A → S → Type 0} {Q' : B → S → Type 0} {R : S → Type 0} where
  Ends-continue :
      (r : Res E A) (s : S) (f : A → Exec S E B)
      → ((a : A) → Triple (Q a) (f a) Q' R)
      → Ends Q R r s
      → Ends Q' R (continue r f s).0 (continue r f s).1
  Ends-continue (ok a) s f t h = (t a).run h
  Ends-continue (err e) s f t h = h
  Ends-continue panic s f t h = h
  Ends-continue out_of_fuel s f t h = h

  pub Triple-bind :
      {P : S → Type 0} (m : Exec S E A) (f : A → Exec S E B)
      → Triple P m Q R
      → ((a : A) → Triple (Q a) (f a) Q' R)
      → Triple P (m >>= f) Q' R
  unfolding ◌>>=◌
  Triple-bind m f first then = record {
    run = λ h. Ends-continue (m _).0 (m _).1 f then (first.run h);
  }

module _ {S E A : Type 0} (Q : A → S → Type 0) (R : S → Type 0) where
  Ends-lift : (r : Res E A) (s : S) → ((a : A) → r ≡ ok a → Q a s) → R s → Ends Q R r s
  Ends-lift (ok a) s q h = q a refl
  Ends-lift (err e) s q h = h
  Ends-lift panic s q h = h
  Ends-lift out_of_fuel s q h = h

  pub Triple-lift :
      {P : S → Type 0} (r : Res E A)
      → ((s : S) (a : A) → r ≡ ok a → P s → Q a s)
      → ((s : S) → P s → R s)
      → Triple P (lift r) Q R
  Triple-lift r q stop = record { run = λ {s} h. Ends-lift r s (λ a e. q s a e h) (stop s h) }

  -- The action reads the state only.
  pub Triple-gets :
      {P : S → Type 0} (f : S → A) → ((s : S) → P s → Q (f s) s) → Triple P (gets {E = E} f) Q R
  Triple-gets f q = record { run = λ {s} h. q s h }

pub or_panic-some :
    {E A : Type 0} (o : Option A) (a : A) → ◌≡◌ {A = Res E A} (or_panic o) (ok a) → o ≡ some a
or_panic-some none a e = cc
or_panic-some (some b) a e = cc

module _ {S T E A : Type 0} (Q : A → S → Type 0) (R : S → Type 0) (Q' : A → T → Type 0)
    (R' : T → Type 0) where
  pub Ends-map :
      (r : Res E A) (s : S) (t : T)
      → ((a : A) → Q a s → Q' a t)
      → (R s → R' t)
      → Ends Q R r s
      → Ends Q' R' r t
  Ends-map (ok a) s t q f h = q a h
  Ends-map (err e) s t q f h = f h
  Ends-map panic s t q f h = f h
  Ends-map out_of_fuel s t q f h = f h

pub Ends-always :
    {S E A : Type 0} (P : S → Type 0) (r : Res E A) (s : S) → Ends (λ a. P) P r s → P s
Ends-always P (ok a) s h = h
Ends-always P (err e) s h = h
Ends-always P panic s h = h
Ends-always P out_of_fuel s h = h

-- Where stopping is impossible, there is a result.
pub Ends-ok :
    {S E A : Type 0} (Q : A → S → Type 0) (r : Res E A) (s : S)
    → Ends Q (λ t. ⊥) r s
    → (a : A) × (r ≡ ok a) × Q a s
Ends-ok Q (ok a) s h = (a, refl, h)
Ends-ok Q (err e) s h = elim h [ ]
Ends-ok Q panic s h = elim h [ ]
Ends-ok Q out_of_fuel s h = elim h [ ]

-- A chain that gives a result has given one at each step.
pub and_then-result {ℓ κ} :
    {E : Type 0} {A : Type ℓ} {B : Type κ} (r : Res E A) (f : A → Res E B) (b : B)
    → and_then r f ≡ ok b
    → (a : A) × (r ≡ ok a) × (f a ≡ ok b)
and_then-result (ok a) f b e = (a, refl, e)
and_then-result (err e') f b e = cc
and_then-result panic f b e = cc
and_then-result out_of_fuel f b e = cc
