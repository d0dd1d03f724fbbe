-- ===== src/Outcome.antt =====
-- How a call ends: with a value, by exit(0), by a failed assert, by an exception, or in undefined
-- behaviour. `no_fuel` says that a loop of the model was given too few rounds.
use libasynckafkaclient.Prelude.{Bool, true, false, if◌then◌else◌, ◌≡◌, refl}

pub data Outcome {ℓ} (A : Type ℓ) : Type ℓ where
  ok : A → Outcome A
  exited : Outcome A
  aborted : Outcome A
  thrown : Outcome A
  undefined : Outcome A
  no_fuel : Outcome A

infixl 5 ◌>>=◌
abbrev pub ◌>>=◌ {ℓ κ} : {A : Type ℓ} {B : Type κ} → Outcome A → (A → Outcome B) → Outcome B
ok a >>= f = f a
exited >>= f = exited
aborted >>= f = aborted
thrown >>= f = thrown
undefined >>= f = undefined
no_fuel >>= f = no_fuel

pub ok_inj {ℓ} : {A : Type ℓ} {a b : A} → ok a ≡ ok b → a ≡ b
ok_inj e = cc

pub >>=-ok {ℓ} : {A : Type ℓ} (m : Outcome A) → (m >>= ok) ≡ m
>>=-ok (ok a) = refl
>>=-ok exited = refl
>>=-ok aborted = refl
>>=-ok thrown = refl
>>=-ok undefined = refl
>>=-ok no_fuel = refl

pub >>=_assoc {ℓ κ μ} :
    {A : Type ℓ} {B : Type κ} {C : Type μ} (m : Outcome A) (f : A → Outcome B) (g : B → Outcome C)
    → ((m >>= f) >>= g) ≡ (m >>= λ a. f a >>= g)
>>=_assoc (ok a) f g = refl
>>=_assoc exited f g = refl
>>=_assoc aborted f g = refl
>>=_assoc thrown f g = refl
>>=_assoc undefined f g = refl
>>=_assoc no_fuel f g = refl

-- A call that ends with a value ends with one of which Q holds.
abbrev pub Keeps {ℓ} : {A : Type ℓ} → (A → Type 0) → Outcome A → Type 0
Keeps Q (ok x) = Q x
Keeps Q exited = Unit {0}
Keeps Q aborted = Unit {0}
Keeps Q thrown = Unit {0}
Keeps Q undefined = Unit {0}
Keeps Q no_fuel = Unit {0}

pub Keeps-bind {ℓ κ} :
    {A : Type ℓ} {B : Type κ} (P : A → Type 0) (Q : B → Type 0) (m : Outcome A) (f : A → Outcome B)
    → Keeps P m
    → ((x : A) → P x → Keeps Q (f x))
    → Keeps Q (m >>= f)
Keeps-bind P Q (ok x) f h k = k x h
Keeps-bind P Q exited f h k = tt
Keeps-bind P Q aborted f h k = tt
Keeps-bind P Q thrown f h k = tt
Keeps-bind P Q undefined f h k = tt
Keeps-bind P Q no_fuel f h k = tt

-- What follows a call of which nothing is known.
pub after-Keeps {ℓ κ} :
    {A : Type ℓ} {B : Type κ} (Q : B → Type 0) (m : Outcome A) (f : A → Outcome B)
    → ((x : A) → Keeps Q (f x))
    → Keeps Q (m >>= f)
after-Keeps Q (ok x) f k = k x
after-Keeps Q exited f k = tt
after-Keeps Q aborted f k = tt
after-Keeps Q thrown f k = tt
after-Keeps Q undefined f k = tt
after-Keeps Q no_fuel f k = tt

-- A value that a call gives back, put to use.
pub call-Keeps {ℓ κ} :
    {A : Type ℓ} {B : Type κ} (Q : B → Type 0) (m : Outcome A) (f : A → B)
    → ((x : A) → Q (f x))
    → Keeps Q (m >>= λ x. ok (f x))
call-Keeps Q (ok x) f h = h x
call-Keeps Q exited f h = tt
call-Keeps Q aborted f h = tt
call-Keeps Q thrown f h = tt
call-Keeps Q undefined f h = tt
call-Keeps Q no_fuel f h = tt

pub if-Keeps {ℓ} :
    {A : Type ℓ} (Q : A → Type 0) (b : Bool) (x y : Outcome A)
    → Keeps Q x
    → Keeps Q y
    → Keeps Q (if b then x else y)
if-Keeps Q true x y hx hy = hx
if-Keeps Q false x y hx hy = hy

pub if-Keeps_true {ℓ} :
    {A : Type ℓ} (Q : A → Type 0) (b : Bool) (x y : Outcome A)
    → b ≡ true
    → Keeps Q x
    → Keeps Q (if b then x else y)
if-Keeps_true Q b x y e h = rw e h

pub if-Keeps_false {ℓ} :
    {A : Type ℓ} (Q : A → Type 0) (b : Bool) (x y : Outcome A)
    → b ≡ false
    → Keeps Q y
    → Keeps Q (if b then x else y)
if-Keeps_false Q b x y e h = rw e h

pub if-holds {ℓ} :
    {A : Type ℓ} (Q : A → Type 0) (b : Bool) (x y : A) → Q x → Q y → Q (if b then x else y)
if-holds Q true x y hx hy = hx
if-holds Q false x y hx hy = hy

pub both-Keeps {ℓ} :
    {A : Type ℓ} (P Q : A → Type 0) (m : Outcome A)
    → Keeps P m
    → Keeps Q m
    → Keeps (λ x. P x × Q x) m
both-Keeps P Q (ok x) p q = (p, q)
both-Keeps P Q exited p q = tt
both-Keeps P Q aborted p q = tt
both-Keeps P Q thrown p q = tt
both-Keeps P Q undefined p q = tt
both-Keeps P Q no_fuel p q = tt

pub any-Keeps {ℓ} : {A : Type ℓ} (m : Outcome A) → Keeps (λ x. Unit {0}) m
any-Keeps (ok x) = tt
any-Keeps exited = tt
any-Keeps aborted = tt
any-Keeps thrown = tt
any-Keeps undefined = tt
any-Keeps no_fuel = tt

pub Keeps-mono {ℓ} :
    {A : Type ℓ} (P Q : A → Type 0) (m : Outcome A) → ((x : A) → P x → Q x) → Keeps P m → Keeps Q m
Keeps-mono P Q (ok x) f h = f x h
Keeps-mono P Q exited f h = tt
Keeps-mono P Q aborted f h = tt
Keeps-mono P Q thrown f h = tt
Keeps-mono P Q undefined f h = tt
Keeps-mono P Q no_fuel f h = tt
