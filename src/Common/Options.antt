-- ===== src/Common/Options.antt =====
-- Chains of calls that may fail or throw: `none` ends the chain.
use mathlib.Core.Path.{◌≡◌, refl}
use mathlib.Core.Option.{Option, none, some}

infixl 5 ◌>>=◌
abbrev pub ◌>>=◌ {ℓ κ} : {A : Type ℓ} {B : Type κ} → Option A → (A → Option B) → Option B
none >>= f = none
some a >>= f = f a

pub bind_assoc {ℓ κ μ} :
    {A : Type ℓ} {B : Type κ} {C : Type μ} (o : Option A) (f : A → Option B) (g : B → Option C)
    → (o >>= f) >>= g ≡ o >>= (λ a. f a >>= g)
bind_assoc none f g = refl
bind_assoc (some a) f g = refl

-- What holds of a result, if there is one.
abbrev pub Holds {ℓ κ} : {A : Type ℓ} → (A → Type κ) → Option A → Type κ
Holds P none = Unit
Holds P (some a) = P a

pub bind-Holds {ℓ κ μ} :
    {A : Type ℓ} {B : Type κ} (P : B → Type μ) (o : Option A) (f : A → Option B)
    → ((a : A) → Holds P (f a))
    → Holds P (o >>= f)
bind-Holds P none f h = tt
bind-Holds P (some a) f h = h a

pub Holds-bind {ℓ κ μ ν} :
    {A : Type ℓ} {B : Type κ} (P : A → Type μ) (Q : B → Type ν) (o : Option A) (f : A → Option B)
    → Holds P o
    → ((a : A) → P a → Holds Q (f a))
    → Holds Q (o >>= f)
Holds-bind P Q none f p h = tt
Holds-bind P Q (some a) f p h = h a p

pub Holds-map {ℓ κ μ} :
    {A : Type ℓ} (P : A → Type κ) (Q : A → Type μ) (o : Option A)
    → Holds P o
    → ((a : A) → P a → Q a)
    → Holds Q o
Holds-map P Q none p h = tt
Holds-map P Q (some a) p h = h a p

-- There is a result, and this holds of it.
abbrev pub HasResult {ℓ} : {A : Type ℓ} → (A → Type 0) → Option A → Type 0
HasResult P none = ⊥
HasResult P (some a) = P a

pub HasResult-bind {ℓ κ} :
    {A : Type ℓ} {B : Type κ} (P : A → Type 0) (Q : B → Type 0) (o : Option A) (f : A → Option B)
    → HasResult P o
    → ((a : A) → P a → HasResult Q (f a))
    → HasResult Q (o >>= f)
HasResult-bind P Q none f p h = absurd p
HasResult-bind P Q (some a) f p h = h a p

pub HasResult-map {ℓ} :
    {A : Type ℓ} (P Q : A → Type 0) (o : Option A)
    → HasResult P o
    → ((a : A) → P a → Q a)
    → HasResult Q o
HasResult-map P Q none p h = p
HasResult-map P Q (some a) p h = h a p

pub HasResult-Holds {ℓ} :
    {A : Type ℓ} (P Q R : A → Type 0) (o : Option A)
    → Holds P o
    → HasResult Q o
    → ((a : A) → P a → Q a → R a)
    → HasResult R o
HasResult-Holds P Q R none p q h = absurd q
HasResult-Holds P Q R (some a) p q h = h a p q
