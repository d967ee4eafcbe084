-- ===== src/Completion/Program.antt =====
-- A program on the variables of the route: it ends with a value or an exception, and leaves the
-- variables as they are then. What holds at its end is proved step by step.
use eiraos_chat_backend.Prelude.{Bool, true, false}
use eiraos_chat_backend.Prelude.Result.{Result, ok, err}
use eiraos_chat_backend.Completion.Raised.{Raised}

abbrev pub Program : Type 0 → Type 0 → Type 0
Program S A = S → Result Raised A × S

abbrev pub after : {S A B : Type 0} → Result Raised A × S → (A → Program S B) → Result Raised B × S
after (ok a, s) k = k a s
after (err e, s) k = (err e, s)

infixl 5 ◌>>=◌ ◌>>◌
abbrev pub ◌>>=◌ : {S A B : Type 0} → Program S A → (A → Program S B) → Program S B
(m >>= k) s = after (m s) k

abbrev pub ◌>>◌ : {S B : Type 0} → Program S (Unit {0}) → Program S B → Program S B
m >> k = m >>= λ _. k

abbrev pub give : {S A : Type 0} → A → Program S A
give a s = (ok a, s)

abbrev pub raise : {S A : Type 0} → Raised → Program S A
raise e s = (err e, s)

abbrev pub raise_when : {S : Type 0} → Bool → Raised → Program S (Unit {0})
raise_when true e = raise e
raise_when false e = give tt

abbrev pub lift : {S A : Type 0} → Result Raised A → Program S A
lift r s = (r, s)

abbrev pub change : {S : Type 0} → (S → S) → Program S (Unit {0})
change f s = (ok tt, f s)

-- `Q` of the value, or `E` of the exception
abbrev pub Ends :
    {S A : Type 0} → (A → S → Type 0) → (Raised → S → Type 0) → Result Raised A × S → Type 0
Ends Q E (ok a, s) = Q a s
Ends Q E (err e, s) = E e s

pub Ends-after :
    {S A B : Type 0} (Q : A → S → Type 0) (R : B → S → Type 0) (E : Raised → S → Type 0)
    (r : Result Raised A × S) (k : A → Program S B)
    → Ends Q E r
    → ((a : A) (s : S) → Q a s → Ends R E (k a s))
    → Ends R E (after r k)
Ends-after Q R E (ok a, s) k h next = next a s h
Ends-after Q R E (err e, s) k h next = h

pub Ends-weaken :
    {S A : Type 0} (Q R : A → S → Type 0) (E F : Raised → S → Type 0) (r : Result Raised A × S)
    → Ends Q E r
    → ((a : A) (s : S) → Q a s → R a s)
    → ((e : Raised) (s : S) → E e s → F e s)
    → Ends R F r
Ends-weaken Q R E F (ok a, s) h q e = q a s h
Ends-weaken Q R E F (err x, s) h q e = e x s h

-- a program that keeps `P`, with `E` where it raises
abbrev pub Keeps : {S A : Type 0} → (S → Type 0) → (Raised → S → Type 0) → Program S A → Type 0
Keeps {S} P E m = (s : S) → P s → Ends (λ a. P) E (m s)

module _ {S : Type 0} (P : S → Type 0) (E : Raised → S → Type 0) where
  pub Keeps-bind :
      {A B : Type 0} (m : Program S A) (k : A → Program S B)
      → Keeps P E m
      → ((a : A) → Keeps P E (k a))
      → Keeps P E (m >>= k)
  Keeps-bind m k first rest s h =
      Ends-after (λ a. P) (λ b. P) E (m s) k (first s h) (λ a t g. rest a t g)

  pub Keeps-then :
      {B : Type 0} (m : Program S (Unit {0})) (k : Program S B)
      → Keeps P E m
      → Keeps P E k
      → Keeps P E (m >> k)
  Keeps-then m k first rest = Keeps-bind m (λ _. k) first (λ _. rest)

  module _ (stops : (e : Raised) (s : S) → P s → E e s) where
    pub Keeps-lift : {A : Type 0} (r : Result Raised A) → Keeps P E (lift r)
    Keeps-lift (ok a) s h = h
    Keeps-lift (err e) s h = stops e s h

    pub Keeps-raise_when : (b : Bool) (e : Raised) → Keeps P E (raise_when b e)
    Keeps-raise_when true e s h = stops e s h
    Keeps-raise_when false e s h = h
