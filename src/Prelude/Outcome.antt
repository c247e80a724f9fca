-- ===== src/Prelude/Outcome.antt =====
-- Results of code that throws, and the binding that `do` blocks use.
use mathlib.Core.Path.{◌≡◌, refl}
use mathlib.Core.Bool.{Bool, true, false}
use parly_relayer.Prelude.Tests.{if◌then◌else◌}

pub data Result {ℓ κ} (E : Type ℓ) (A : Type κ) : Type (ℓ ⊔ κ) where
  err : E → Result E A
  ok : A → Result E A

module _ {ℓ} {E : Type ℓ} where
  -- `if (!test) throw thrown`.
  abbrev pub guard : (test : Bool) (thrown : E) → Result E (Unit {0})
  guard test thrown = if test then ok tt else err thrown

  pub guard-eq-ok : (b : Bool) (e : E) {u : Unit {0}} → guard b e ≡ ok u → b ≡ true
  guard-eq-ok true e h = refl
  guard-eq-ok false e h = cc

  module _ {ι} {B : Type ι} where
    infixl 5 ◌>>=◌ ◌>>◌
    abbrev pub ◌>>=◌ {κ} : {A : Type κ} (first : Result E A) (next : A → Result E B) → Result E B
    err thrown >>= next = err thrown
    ok value >>= next = next value

    abbrev pub ◌>>◌ : (test : Result E (Unit {0})) (next : Result E B) → Result E B
    test >> next = test >>= (λ (passed : Unit {0}). next)

    -- Where a chain succeeds, so does its first part.
    pub >>=-eq-ok {κ} :
        {A : Type κ} (m : Result E A) (f : A → Result E B) {b : B}
        → (m >>= f) ≡ ok b
        → (a : A) × (m ≡ ok a) × (f a ≡ ok b)
    >>=-eq-ok (err e) f h = cc
    >>=-eq-ok (ok a) f h = (a, refl, h)
