-- ===== src/Prelude/Throws.antt =====
-- A computation that returns or throws, and its `do` notation.
use mathlib.Core.Path.{◌≡◌, refl}
use mathlib.Core.Bool.{Bool, true, false}
use mathlib.Core.Option.{Option, none, some}
use mathlib.Core.Logic.{◌⊎◌, inl, inr}

pub data Result (E A : Type 0) : Type 0 where
  ok : A → Result E A
  err : E → Result E A

infixl 5 ◌>>=◌ ◌>>◌
unfoldable pub ◌>>=◌ : {E A B : Type 0} → Result E A → (A → Result E B) → Result E B
ok a >>= f = f a
err e >>= f = err e

abbrev pub ◌>>◌ : {E B : Type 0} → Result E (Unit {0}) → Result E B → Result E B
m >> k = m >>= λ _. k

-- `if (test) throw new Error(e)`.
abbrev pub throw_if : {E : Type 0} → Bool → E → Result E (Unit {0})
throw_if true e = err e
throw_if false e = ok tt

abbrev pub or_throw : {E A : Type 0} → Option A → E → Result E A
or_throw none e = err e
or_throw (some a) e = ok a

-- Inversion of a bind that returns, in a form that chains: each step's value is a variable.
pub by_steps :
    {E A B C : Type 0} (m : Result E A) (f : A → Result E B) {b : B}
    → (m >>= f) ≡ ok b
    → ((a : A) → m ≡ ok a → f a ≡ ok b → C)
    → C
unfolding ◌>>=◌
by_steps (ok a) f h k = k a refl h
by_steps (err e) f h k = absurd (cc)

-- The same, as a value.
pub >>=-eq-ok :
    {E A B : Type 0} (first : Result E A) (next : A → Result E B) {b : B}
    → ◌≡◌ {A = Result E B} (first >>= next) (ok b)
    → (a : A) × (first ≡ ok a) × (next a ≡ ok b)
>>=-eq-ok first next h = by_steps first next h λ a e k. (a, e, k)

-- A bind whose first part returns goes on with what it returns.
pub >>=-ok :
    {E A B : Type 0} {first : Result E A} {a : A} (next : A → Result E B) {r : Result E B}
    → first ≡ ok a
    → next a ≡ r
    → (first >>= next) ≡ r
unfolding ◌>>=◌
>>=-ok next h k = rw h k

-- Inversion of a bind that throws.
pub >>=-eq-err :
    {E A B : Type 0} (m : Result E A) (f : A → Result E B) {e : E}
    → (m >>= f) ≡ err e
    → (m ≡ err e) ⊎ ((a : A) × (m ≡ ok a) × (f a ≡ err e))
unfolding ◌>>=◌
>>=-eq-err (ok a) f h = inr (a, refl, h)
>>=-eq-err (err e) f h = inl (cc)

pub throw_if-eq-ok :
    {E : Type 0} (b : Bool) (e : E) {u : Unit {0}} → throw_if b e ≡ ok u → b ≡ false
throw_if-eq-ok true e h = cc
throw_if-eq-ok false e h = refl

pub or_throw-eq-ok :
    {E A : Type 0} (o : Option A) (e : E) {a : A} → or_throw o e ≡ ok a → o ≡ some a
or_throw-eq-ok none e h = cc
or_throw-eq-ok (some b) e h = cc

pub Result-cases :
    {E A : Type 0} (m : Result E A) → ((a : A) × (m ≡ ok a)) ⊎ ((e : E) × (m ≡ err e))
Result-cases (ok a) = inl (a, refl)
Result-cases (err e) = inr (e, refl)

pub ok_injective : {E A : Type 0} {a b : A} → ◌≡◌ {A = Result E A} (ok a) (ok b) → a ≡ b
ok_injective h = cc

pub some_injective : {A : Type 0} {a b : A} → ◌≡◌ {A = Option A} (some a) (some b) → a ≡ b
some_injective h = cc
