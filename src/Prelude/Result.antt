-- ===== src/Prelude/Result.antt =====
-- Code that may raise: a value or the exception.
use mathlib.Core.Bool.{Bool, true, false}
use mathlib.Core.Logic.{◌⊎◌, inl, inr}
use mathlib.Core.Path.{◌≡◌, refl}

pub data Result {ℓ} (E A : Type ℓ) : Type ℓ where
  ok : A → Result E A
  raise : E → Result E A

infixl 5 ◌>>=◌ ◌>>◌
abbrev pub ◌>>=◌ {ℓ} : {E A B : Type ℓ} → Result E A → (A → Result E B) → Result E B
raise e >>= next = raise e
ok a >>= next = next a

abbrev pub ◌>>◌ {ℓ} : {E : Type ℓ} {B : Type ℓ} → Result E (Unit {ℓ}) → Result E B → Result E B
m >> k = m >>= λ _. k

-- `if test: raise e`
abbrev pub raise_if {ℓ} : {E : Type ℓ} → Bool → E → Result E (Unit {ℓ})
raise_if true e = raise e
raise_if false e = ok tt

-- A chain that succeeds has succeeded at each step.
pub >>=-eq-ok {ℓ} :
    {E A B : Type ℓ} (first : Result E A) (next : A → Result E B) {result : B}
    → (first >>= next) ≡ ok result
    → (value : A) × (first ≡ ok value) × (next value ≡ ok result)
>>=-eq-ok (raise e) next h = cc
>>=-eq-ok (ok value) next h = (value, refl, h)

pub ok-injective {ℓ} : {E A : Type ℓ} {a b : A} → ◌≡◌ {A = Result E A} (ok a) (ok b) → a ≡ b
ok-injective h = cc

pub Result-cases {ℓ} :
    {E A : Type ℓ} (m : Result E A) → ((e : E) × (m ≡ raise e)) ⊎ ((a : A) × (m ≡ ok a))
Result-cases (ok a) = inr (a, refl)
Result-cases (raise e) = inl (e, refl)

-- A check that lets the code go on found nothing.
pub raise_if-eq-ok {ℓ} :
    {E A : Type ℓ} (b : Bool) (e : E) {a r : A}
    → (raise_if b e >> ok a) ≡ ok r
    → (b ≡ false) × (a ≡ r)
raise_if-eq-ok true e h = cc
raise_if-eq-ok false e h = (refl, ok-injective h)

pub raise_if-passes {ℓ} :
    {E : Type ℓ} (b : Bool) (e : E) {u : Unit {ℓ}} → raise_if b e ≡ ok u → b ≡ false
raise_if-passes true e h = cc
raise_if-passes false e h = refl

pub >>=-cong {ℓ} :
    {E A B : Type ℓ} (m : Result E A) (f g : A → Result E B)
    → ((a : A) → m ≡ ok a → f a ≡ g a)
    → (m >>= f) ≡ (m >>= g)
>>=-cong (raise e) f g h = refl
>>=-cong (ok a) f g h = h a refl
