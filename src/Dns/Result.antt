-- ===== src/Dns/Result.antt =====
-- Results of lib/dns, with its errors, and that a computation does not run out of fuel.
use share.Base.{◌≡◌, ◌≢◌, refl, Option, none, some}

-- The errors of lib/dns, a panic by an index out of range, and the end of the fuel of the model.
pub data Error : Type 0 where
  label_size_limit ipv4_length ipv6_length invalid_question missing_question opt_range : Error

pub data Result (A : Type 0) : Type 0 where
  ok : A → Result A
  fail : Error → Result A
  panic : Result A
  no_fuel : Result A

infixl 5 ◌>>>◌
abbrev pub ◌>>>◌ : {A B : Type 0} → Result A → (A → Result B) → Result B
ok a >>> f = f a
fail e >>> f = fail e
panic >>> f = panic
no_fuel >>> f = no_fuel

abbrev pub or_panic : {A : Type 0} → Option A → Result A
or_panic none = panic
or_panic (some a) = ok a

abbrev pub or_fail : {A : Type 0} → Option A → Error → Result A
or_fail none e = fail e
or_fail (some a) e = ok a

-- The fuel is enough.
abbrev pub Finishes : {A : Type 0} → Result A → Type 0
Finishes r = r ≢ no_fuel

pub Finishes-ok : {A : Type 0} (a : A) → Finishes (ok a)
Finishes-ok a e = cc e

pub Finishes-fail : {A : Type 0} (x : Error) → Finishes {A = A} (fail x)
Finishes-fail x e = cc e

pub Finishes-panic : {A : Type 0} → Finishes {A = A} panic
Finishes-panic e = cc e

pub Finishes-then :
    {A B : Type 0} (r : Result A) (f : A → Result B)
    → Finishes r
    → ((a : A) → r ≡ ok a → Finishes (f a))
    → Finishes (r >>> f)
Finishes-then (ok a) f h k = k a refl
Finishes-then (fail x) f h k = Finishes-fail x
Finishes-then panic f h k = Finishes-panic
Finishes-then no_fuel f h k = absurd (h refl)
