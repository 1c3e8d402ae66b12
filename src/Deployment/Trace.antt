-- ===== src/Deployment/Trace.antt =====
-- Code that calls injected ports and may raise: a result beside the calls made so far, which stay
-- made whatever is raised after them.
use kosa_aws.Base.{All, Bool, List, false, refl, true, ◌∷◌, ◌≡◌}
use kosa_aws.Errors.{Error, Result, err, ok, require}
use kosa_aws.Jobs.Lifecycle.{allowed}

-- The calls, the last one first.
abbrev pub Exec {ℓ} : Type 0 → Type ℓ → Type ℓ
Exec E A = List E → Result A × List E

module _ {E : Type 0} where
  unfoldable pub pure {ℓ} : {A : Type ℓ} → A → Exec E A
  pure a trace = (ok a, trace)

  unfoldable pub raise {ℓ} : {A : Type ℓ} → Error → Exec E A
  raise e trace = (err e, trace)

  -- `if not condition: raise error`
  unfoldable pub check : Bool → Error → Exec E (Unit {0})
  check c e trace = (require c e, trace)

  -- A call of a port, with what it returns or raises.
  unfoldable pub perform {ℓ} : {A : Type ℓ} → E → Result A → Exec E A
  perform effect result trace = (result, effect ∷ trace)

  -- A value that a read returns; reads of stored facts are not recorded.
  unfoldable pub lift {ℓ} : {A : Type ℓ} → Result A → Exec E A
  lift result trace = (result, trace)

  abbrev pub continue {ℓ κ} : {A : Type ℓ} {B : Type κ} → Result A → (A → Exec E B) → Exec E B
  continue (ok a) f trace = f a trace
  continue (err e) f trace = (err e, trace)

  infixl 5 ◌>>=◌ ◌>>◌
  unfoldable pub ◌>>=◌ {ℓ κ} : {A : Type ℓ} {B : Type κ} → Exec E A → (A → Exec E B) → Exec E B
  ◌>>=◌ m f trace = let (result, trace') = m trace in continue result f trace'

  abbrev pub ◌>>◌ {ℓ} : {B : Type ℓ} → Exec E (Unit {0}) → Exec E B → Exec E B
  m >> k = m >>= λ _. k

  -- `m` makes only calls that `Q` allows.
  pub record Safe {ℓ κ} {A : Type ℓ} (Q : E → Type κ) (m : Exec E A) : Type (ℓ ⊔ κ) where
    pub at : (trace : List E) → All Q trace → All Q (m trace).1

module _ {κ} {E : Type 0} {Q : E → Type κ} where
  pub Safe-pure {ℓ} : {A : Type ℓ} (a : A) → Safe Q (pure a)
  unfolding pure
  Safe-pure a = record { at = λ _ h. h }

  pub Safe-raise {ℓ} : {A : Type ℓ} (e : Error) → Safe {A = A} Q (raise e)
  unfolding raise
  Safe-raise e = record { at = λ _ h. h }

  pub Safe-continue {ℓ μ} :
      {A : Type ℓ} {B : Type μ} (r : Result A) (f : A → Exec E B)
      → ((a : A) → r ≡ ok a → Safe Q (f a))
      → (trace : List E) → All Q trace
      → All Q (continue r f trace).1
  Safe-continue (ok a) f h trace q = (h a refl).at trace q
  Safe-continue (err e) f h trace q = q

  pub Safe-lift {ℓ μ} :
      {A : Type ℓ} {B : Type μ} (r : Result A) (f : A → Exec E B)
      → ((a : A) → r ≡ ok a → Safe Q (f a))
      → Safe Q (lift r >>= f)
  unfolding ◌>>=◌ lift
  Safe-lift r f h = record { at = Safe-continue r f h }

  pub Safe-check {ℓ} :
      {B : Type ℓ} (c : Bool) (e : Error) (m : Exec E B)
      → (c ≡ true → Safe Q m)
      → Safe Q (check c e >> m)
  unfolding ◌>>=◌ check
  Safe-check true e m h = record { at = (h refl).at }
  Safe-check false e m h = record { at = λ _ q. q }

  pub Safe-perform {ℓ μ} :
      {A : Type ℓ} {B : Type μ} (effect : E) (r : Result A) (f : A → Exec E B)
      → Q effect
      → ((a : A) → r ≡ ok a → Safe Q (f a))
      → Safe Q (perform effect r >>= f)
  unfolding ◌>>=◌ perform
  Safe-perform effect r f allowed h = record {
    at = λ trace q. Safe-continue r f h (effect ∷ trace) (allowed, q);
  }
