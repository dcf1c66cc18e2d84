-- ===== src/Base/Result.antt =====
-- Fallible code: an answer or an error, with early returns.
use mathlib.Core.Path.{◌≡◌, refl, subst}
use mathlib.Core.Bool.{Bool, true, false}
use mathlib.Core.Option.{Option, none, some}

pub data Result (E A : Type 0) : Type 0 where
  ok : A → Result E A
  err : E → Result E A

infixl 5 ◌>>=◌ ◌>>◌
abbrev pub ◌>>=◌ : {E A B : Type 0} → Result E A → (A → Result E B) → Result E B
ok a >>= f = f a
err e >>= f = err e

abbrev pub ◌>>◌ : {E B : Type 0} → Result E (Unit {0}) → Result E B → Result E B
m >> k = m >>= λ _. k

-- An early return of the error where the test passes.
abbrev pub fail_if : {E : Type 0} → Bool → E → Result E (Unit {0})
fail_if true e = err e
fail_if false e = ok tt

-- `ok_or(e)?`
abbrev pub ok_or : {E A : Type 0} → E → Option A → Result E A
ok_or e none = err e
ok_or e (some a) = ok a

-- What holds of the answer where the code returns one.
abbrev pub Returns : {E A : Type 0} → (A → Type 0) → Result E A → Type 0
Returns P (ok a) = P a
Returns P (err e) = Unit

pub Returns-bind :
    {E A B : Type 0} (P : A → Type 0) (Q : B → Type 0) (m : Result E A) (f : A → Result E B)
    → Returns P m
    → ((a : A) → m ≡ ok a → P a → Returns Q (f a))
    → Returns Q (m >>= f)
Returns-bind P Q (ok a) f h k = k a refl h
Returns-bind P Q (err e) f h k = tt

pub Returns-any : {E A : Type 0} (m : Result E A) → Returns (λ a. Unit {0}) m
Returns-any (ok a) = tt
Returns-any (err e) = tt

-- After a guard its test is known to have failed.
pub Returns-guard :
    {E B : Type 0} (Q : B → Type 0) (b : Bool) (e : E) (m : Result E B)
    → (b ≡ false → Returns Q m)
    → Returns Q (fail_if b e >> m)
Returns-guard Q true e m h = tt
Returns-guard Q false e m h = h refl

pub bind-ok :
    {E A B : Type 0} (m : Result E A) (f : A → Result E B) (b : B)
    → (m >>= f) ≡ ok b
    → (a : A) × (m ≡ ok a) × (f a ≡ ok b)
bind-ok (ok a) f b h = (a, refl, h)
bind-ok (err e) f b h = cc

pub guard-ok :
    {E B : Type 0} (t : Bool) (e : E) (m : Result E B) (b : B)
    → (fail_if t e >> m) ≡ ok b
    → (t ≡ false) × (m ≡ ok b)
guard-ok true e m b h = cc
guard-ok false e m b h = (refl, h)

pub ok_injective : {E A : Type 0} (a b : A) → ◌≡◌ {A = Result E A} (ok a) (ok b) → a ≡ b
ok_injective a b h = cc

-- A postcondition at the answer that the code gives.
pub Returns-ok :
    {E A : Type 0} (P : A → Type 0) (m : Result E A) (a : A) → m ≡ ok a → Returns P m → P a
Returns-ok P m a e h = subst (Returns P) e h

pub ok_or-some : {E A : Type 0} (e : E) (o : Option A) (a : A) → ok_or e o ≡ ok a → o ≡ some a
ok_or-some e none a h = cc
ok_or-some e (some b) a h = cc
