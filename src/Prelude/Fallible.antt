-- ===== src/Prelude/Fallible.antt =====
-- The vocabulary of fallible calls.
--
-- `absl::Status` and `absl::StatusOr<T>` are values: success, or an error with a code and a
-- message. `Crashes A` is the result of code that may end the process on the spot: a failed
-- RTC_CHECK, a null pointer that is dereferenced, or an exception that nothing catches.
use Prim.Native.String.{String}
use mathlib.Core.Path.{◌≡◌, refl, subst}
use mathlib.Core.Logic.{◌⊎◌, inl, inr}
use mathlib.Core.Option.{Option, none, some}

pub data StatusCode : Type 0 where
  invalid_argument not_found internal failed_precondition : StatusCode
  deadline_exceeded cancelled unimplemented : StatusCode

pub record Error : Type 0 where
  pub code : StatusCode
  pub message : String

pub data Result {ℓ} (A : Type ℓ) : Type ℓ where
  ok : A → Result A
  err : Error → Result A

abbrev pub Status : Type 0
Status = Result (Unit {0})

abbrev pub ok_status : Status
ok_status = ok tt

abbrev pub fail {ℓ} : {A : Type ℓ} → StatusCode → String → Result A
fail c m = err (record { code = c; message = m })

-- `none` is the crash.
abbrev pub Crashes {ℓ} : Type ℓ → Type ℓ
Crashes A = Option A

infixl 5 ◌>>=◌
abbrev pub ◌>>=◌ {ℓ κ} : {A : Type ℓ} {B : Type κ} → Crashes A → (A → Crashes B) → Crashes B
none >>= f = none
some a >>= f = f a

-- To go on with the value of a call that may have failed.
infixl 5 ◌>>?◌
abbrev pub ◌>>?◌ {ℓ κ} : {A : Type ℓ} {B : Type κ} → Result A → (A → Result B) → Result B
ok a >>? f = f a
err e >>? f = err e

pub Result-cases {ℓ} :
    {A : Type ℓ} (r : Result A) → ((a : A) × (r ≡ ok a)) ⊎ ((e : Error) × (r ≡ err e))
Result-cases (ok a) = inl (a, refl)
Result-cases (err e) = inr (e, refl)

-- Inversion of a chain that did not crash.
pub >>=-eq-some {ℓ κ} :
    {A : Type ℓ} {B : Type κ} (m : Crashes A) (f : A → Crashes B) {b : B}
    → (m >>= f) ≡ some b
    → (a : A) × (m ≡ some a) × (f a ≡ some b)
>>=-eq-some (some a) f h = (a, refl, h)
>>=-eq-some none f h = cc

-- `P` holds of the result, unless there is a crash.
abbrev pub Keeps {ℓ κ} : {A : Type ℓ} → (A → Type κ) → Crashes A → Type κ
Keeps P none = Unit
Keeps P (some a) = P a

pub >>=-Keeps {ℓ κ ι} :
    {A : Type ℓ} {B : Type κ} (P : B → Type ι) (m : Crashes A) (f : A → Crashes B)
    → ((a : A) → Keeps P (f a))
    → Keeps P (m >>= f)
>>=-Keeps P none f h = tt
>>=-Keeps P (some a) f h = h a

-- A chain of two steps that each keep what they are to keep.
pub >>=-Keeps_both {ℓ κ ι υ} :
    {A : Type ℓ} {B : Type κ} (P : A → Type ι) (Q : B → Type υ) (m : Crashes A) (f : A → Crashes B)
    → Keeps P m
    → ((a : A) → P a → Keeps Q (f a))
    → Keeps Q (m >>= f)
>>=-Keeps_both P Q none f hm h = tt
>>=-Keeps_both P Q (some a) f hm h = h a hm

pub Keeps-some {ℓ κ} :
    {A : Type ℓ} (P : A → Type κ) (m : Crashes A) {a : A} → Keeps P m → m ≡ some a → P a
Keeps-some P m h e = subst (Keeps P) e h

pub Keeps-pair {ℓ κ ι} :
    {A : Type ℓ} (P : A → Type κ) (Q : A → Type ι) (m : Crashes A)
    → Keeps P m
    → Keeps Q m
    → Keeps (λ a. P a × Q a) m
Keeps-pair P Q none h k = tt
Keeps-pair P Q (some a) h k = (h, k)

pub Keeps-imp {ℓ κ} :
    {A : Type ℓ} (P Q : A → Type κ) (m : Crashes A) → ((a : A) → P a → Q a) → Keeps P m → Keeps Q m
Keeps-imp P Q none h k = tt
Keeps-imp P Q (some a) h k = h a k

-- There is no crash, and `P` holds of the result.
abbrev pub Returns {ℓ} : {A : Type ℓ} → (A → Type 0) → Crashes A → Type 0
Returns P none = ⊥
Returns P (some a) = P a

pub >>=-Returns {ℓ κ} :
    {A : Type ℓ} {B : Type κ} (P : A → Type 0) (Q : B → Type 0) (m : Crashes A) (f : A → Crashes B)
    → Returns P m
    → ((a : A) → P a → Returns Q (f a))
    → Returns Q (m >>= f)
>>=-Returns P Q none f hm h = absurd hm
>>=-Returns P Q (some a) f hm h = h a hm

pub Returns-imp {ℓ} :
    {A : Type ℓ} (P Q : A → Type 0) (m : Crashes A)
    → ((a : A) → P a → Q a)
    → Returns P m
    → Returns Q m
Returns-imp P Q none h r = absurd r
Returns-imp P Q (some a) h r = h a r

pub Returns-some {ℓ} :
    {A : Type ℓ} (P : A → Type 0) (m : Crashes A) → Returns P m → (a : A) × (m ≡ some a) × P a
Returns-some P none h = absurd h
Returns-some P (some a) h = (a, refl, h)

-- The rule for a call of which an equation is known.
pub Returns-eq {ℓ κ} :
    {A : Type ℓ} {B : Type κ} (Q : B → Type 0) {m : Crashes A} (f : A → Crashes B) {a : A}
    → m ≡ some a
    → Returns Q (f a)
    → Returns Q (m >>= f)
Returns-eq Q f e h = rw e h

pub Returns-Keeps {ℓ} :
    {A : Type ℓ} (P Q : A → Type 0) (m : Crashes A)
    → Keeps P m
    → Returns Q m
    → Returns (λ a. P a × Q a) m
Returns-Keeps P Q none k r = absurd r
Returns-Keeps P Q (some a) k r = (k, r)
