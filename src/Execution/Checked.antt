-- ===== src/Execution/Checked.antt =====
-- Functions of execution_results.py that return or raise and touch no table: `do` on `Result`.
use leetcode_platform.Prelude.{Bool, true, false, Option, none, some, ◌≡◌, ◌≢◌, refl, ◌⊎◌, inl, inr}
use leetcode_platform.Execution.Status.{Error, trusted_result_error}
use leetcode_platform.Execution.Action.{Result, ok, err}

abbrev pub continue : {A B : Type 0} → Result A → (A → Result B) → Result B
continue (ok a) f = f a
continue (err e) f = err e

infixl 5 ◌>>=◌ ◌>>◌
abbrev pub ◌>>=◌ : {A B : Type 0} → Result A → (A → Result B) → Result B
m >>= f = continue m f

abbrev pub ◌>>◌ : {B : Type 0} → Result (Unit {0}) → Result B → Result B
m >> k = m >>= λ _. k

abbrev pub or_raise : {A : Type 0} → Option A → Result A → Result A
or_raise none e = e
or_raise (some a) _ = ok a

-- `if c: raise TrustedResultError(…)`
abbrev pub refuse_if : Bool → Result (Unit {0})
refuse_if true = err trusted_result_error
refuse_if false = ok tt

-- If a chain returned, so did its parts.
pub continue-ok :
    {A B : Type 0} (r : Result A) (f : A → Result B) (b : B)
    → continue r f ≡ ok b
    → (a : A) × (r ≡ ok a) × (f a ≡ ok b)
continue-ok (ok a) f b h = (a, refl, h)
continue-ok (err e) f b h = cc

pub refuse_if-ok :
    {B : Type 0} (c : Bool) (m : Result B) (b : B)
    → (refuse_if c >> m) ≡ ok b
    → (c ≡ false) × (m ≡ ok b)
refuse_if-ok true m b h = cc
refuse_if-ok false m b h = (refl, h)

pub or_raise-ok :
    {A : Type 0} (o : Option A) (e : Error) (a : A) → or_raise o (err e) ≡ ok a → o ≡ some a
or_raise-ok none e a h = cc
or_raise-ok (some x) e a h = cc

pub Result-cases :
    {A : Type 0} (r : Result A) → ((e : Error) × (r ≡ err e)) ⊎ ((a : A) × (r ≡ ok a))
Result-cases (err e) = inl (e, refl)
Result-cases (ok a) = inr (a, refl)

-- A value is no error, and two values that are returned are one.
pub ok-ne-err : {A : Type 0} (a : A) (e : Error) → ok a ≢ err e
ok-ne-err a e h = cc

pub ok-inj : {A : Type 0} (a b : A) → ok a ≡ ok b → a ≡ b
ok-inj a b h = cc
