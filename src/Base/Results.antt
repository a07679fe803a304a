-- ===== src/Base/Results.antt =====
-- The outcome of code that can return an error and can panic. `Option`-returning code that can
-- panic has the error type `Unit`. A panic unwinds past every `?`, so both stop a `do` block.
-- `hang` is a `while` loop whose fuel ran out.
use mathlib.Core.Path.{◌≡◌, refl}
use mathlib.Core.Logic.{◌⊎◌, inl, inr, ◌≢◌}
use mathlib.Core.Bool.{Bool, true, false}
use mathlib.Core.Option.{none, some}
use mathlib.Core.List.{List}
use Prim.Native.Nat.{ℕ, ◌-◌}
use native.Mathlib.Omega.{arith}
use pqcscan.Base.Lists.{length, take, drop, get_elem?}
use pqcscan.Base.Tests.{Option-cases, ltb, if◌then◌else◌}

pub data Outcome {ℓ} (E : Type 0) (A : Type ℓ) : Type ℓ where
  ok : A → Outcome E A
  err : E → Outcome E A
  panic : Outcome E A
  hang : Outcome E A

infixl 5 ◌>>=◌ ◌>>◌
abbrev pub ◌>>=◌ {ℓ κ} :
    {E : Type 0} {A : Type ℓ} {B : Type κ} → Outcome E A → (A → Outcome E B) → Outcome E B
ok a >>= f = f a
err e >>= f = err e
panic >>= f = panic
hang >>= f = hang

abbrev pub ◌>>◌ {ℓ} : {E : Type 0} {B : Type ℓ} → Outcome E (Unit {0}) → Outcome E B → Outcome E B
m >> k = m >>= λ _. k

-- `if bad { return Err(e) }`
abbrev pub refuse : {E : Type 0} → Bool → E → Outcome E (Unit {0})
refuse true e = err e
refuse false e = ok tt

-- `buf[i]`, with Rust's bounds check
unfoldable pub index {ℓ} : {E : Type 0} {A : Type ℓ} → List A → ℕ → Outcome E A
index buf i = elim (get_elem? buf i) [ none ↦ panic | some b ↦ ok b ]

-- `&buf[from..to]`, with Rust's bounds checks
unfoldable pub slice {ℓ} : {E : Type 0} {A : Type ℓ} → List A → ℕ → ℕ → Outcome E (List A)
slice buf from to =
    if ltb to from
    then panic
    else if ltb (length buf) to
    then panic
    else ok (take (to - from) (drop from buf))

pub bind-eq-ok {ℓ κ} :
    {E : Type 0} {A : Type ℓ} {B : Type κ} (first : Outcome E A) (next : A → Outcome E B) {last : B}
    → first >>= next ≡ ok last
    → (value : A) × (first ≡ ok value) × (next value ≡ ok last)
bind-eq-ok panic next h = cc
bind-eq-ok hang next h = cc
bind-eq-ok (err e) next h = cc
bind-eq-ok (ok value) next h = (value, refl, h)

pub refuse-next {ℓ} :
    {E : Type 0} {A : Type ℓ} (b : Bool) (e : E) (next : Outcome E A) {last : A}
    → refuse b e >> next ≡ ok last
    → (b ≡ false) × (next ≡ ok last)
refuse-next true e next h = absurd (cc)
refuse-next false e next h = (refl, h)

-- A block does not panic if none of its steps does.
pub bind-ne-panic {ℓ κ} :
    {E : Type 0} {A : Type ℓ} {B : Type κ} (m : Outcome E A) (f : A → Outcome E B)
    → m ≢ panic
    → ((a : A) → m ≡ ok a → f a ≢ panic)
    → m >>= f ≢ panic
bind-ne-panic (ok a) f h k = k a refl
bind-ne-panic (err _) f h k = λ e. cc
bind-ne-panic panic f h k = absurd (h refl)
bind-ne-panic hang f h k = λ e. cc

pub bind-ne-hang {ℓ κ} :
    {E : Type 0} {A : Type ℓ} {B : Type κ} (m : Outcome E A) (f : A → Outcome E B)
    → m ≢ hang
    → ((a : A) → m ≡ ok a → f a ≢ hang)
    → m >>= f ≢ hang
bind-ne-hang (ok a) f h k = k a refl
bind-ne-hang (err _) f h k = λ e. cc
bind-ne-hang panic f h k = λ e. cc
bind-ne-hang hang f h k = absurd (h refl)

pub refuse-ne-hang : {E : Type 0} (b : Bool) (e : E) → refuse b e ≢ hang
refuse-ne-hang true e = λ h. cc
refuse-ne-hang false e = λ h. cc

pub index-ne-hang {ℓ} :
    {E : Type 0} {A : Type ℓ} (buf : List A) (i : ℕ) → index {E = E} buf i ≢ hang
unfolding index
index-ne-hang buf i h = ground arith

pub refuse-ne-panic : {E : Type 0} (b : Bool) (e : E) → refuse b e ≢ panic
refuse-ne-panic true e = λ h. cc
refuse-ne-panic false e = λ h. cc

pub refuse-ok : {E : Type 0} (b : Bool) (e : E) {u : Unit {0}} → refuse b e ≡ ok u → b ≡ false
refuse-ok true e h = cc
refuse-ok false e h = refl

pub bind-eq-panic {ℓ κ} :
    {E : Type 0} {A : Type ℓ} {B : Type κ} (m : Outcome E A) (f : A → Outcome E B)
    → m >>= f ≡ panic
    → (m ≡ panic) ⊎ ((a : A) × (m ≡ ok a) × (f a ≡ panic))
bind-eq-panic (ok a) f h = inr (a, refl, h)
bind-eq-panic (err _) f h = absurd (cc)
bind-eq-panic panic f h = inl refl
bind-eq-panic hang f h = absurd (cc)

-- What holds of the value, if there is one.
abbrev pub Ensures {ℓ κ} : {E : Type 0} {A : Type ℓ} → (A → Type κ) → Outcome E A → Type κ
Ensures P (ok a) = P a
Ensures P (err _) = Unit
Ensures P panic = Unit
Ensures P hang = Unit

pub Ensures-bind {ℓ κ μ ν} :
    {E : Type 0} {A : Type ℓ} {B : Type κ} (P : A → Type μ) (Q : B → Type ν) (m : Outcome E A)
    (f : A → Outcome E B)
    → Ensures P m
    → ((a : A) → P a → Ensures Q (f a))
    → Ensures Q (m >>= f)
Ensures-bind P Q (ok a) f h k = k a h
Ensures-bind P Q (err _) f h k = tt
Ensures-bind P Q panic f h k = tt
Ensures-bind P Q hang f h k = tt

-- The outcome is a value or an error.
abbrev pub Returns {ℓ} : {E : Type 0} {A : Type ℓ} → Outcome E A → Type 0
Returns (ok _) = Unit
Returns (err _) = Unit
Returns panic = ⊥
Returns hang = ⊥

pub Returns-bind {ℓ κ} :
    {E : Type 0} {A : Type ℓ} {B : Type κ} (m : Outcome E A) (f : A → Outcome E B)
    → Returns m
    → ((a : A) → Returns (f a))
    → Returns (m >>= f)
Returns-bind (ok a) f h k = k a
Returns-bind (err e) f h k = tt
Returns-bind panic f h k = h
Returns-bind hang f h k = h

pub Returns-cases {ℓ} :
    {E : Type 0} {A : Type ℓ} (m : Outcome E A)
    → Returns m
    → ((a : A) × (m ≡ ok a)) ⊎ ((e : E) × (m ≡ err e))
Returns-cases (ok a) h = inl (a, refl)
Returns-cases (err e) h = inr (e, refl)
Returns-cases panic h = absurd h
Returns-cases hang h = absurd h

-- The outcome is a value with a property, or a panic.
abbrev pub Holds {ℓ} : {E : Type 0} {A : Type ℓ} → (A → Type 0) → Outcome E A → Type 0
Holds P (ok a) = P a
Holds P (err _) = ⊥
Holds P panic = Unit
Holds P hang = ⊥

pub Holds-bind {ℓ κ} :
    {E : Type 0} {A : Type ℓ} {B : Type κ} (P : A → Type 0) (Q : B → Type 0) (m : Outcome E A)
    (f : A → Outcome E B)
    → Holds P m
    → ((a : A) → P a → Holds Q (f a))
    → Holds Q (m >>= f)
Holds-bind P Q (ok a) f h k = k a h
Holds-bind P Q (err _) f h k = elim h [ ]
Holds-bind P Q panic f h k = tt
Holds-bind P Q hang f h k = elim h [ ]

pub Holds-map {ℓ} :
    {E : Type 0} {A : Type ℓ} (P Q : A → Type 0) (m : Outcome E A)
    → Holds P m
    → ((a : A) → P a → Q a)
    → Holds Q m
Holds-map P Q (ok a) h k = k a h
Holds-map P Q (err _) h k = elim h [ ]
Holds-map P Q panic h k = tt
Holds-map P Q hang h k = elim h [ ]

-- What panics behind every value panics.
pub Holds-panic {ℓ κ} :
    {E : Type 0} {A : Type ℓ} {B : Type κ} (P : A → Type 0) (m : Outcome E A) (f : A → Outcome E B)
    → Holds P m
    → ((a : A) → f a ≡ panic)
    → (m >>= f) ≡ panic
Holds-panic P (ok a) f h k = k a
Holds-panic P (err _) f h k = elim h [ ]
Holds-panic P panic f h k = refl
Holds-panic P hang f h k = elim h [ ]

pub index-Holds {ℓ} :
    {A : Type ℓ} (buf : List A) (i : ℕ) → Holds (λ b. Unit {0}) (index {E = Unit {0}} buf i)
unfolding index
index-Holds buf i = elim (Option-cases (get_elem? buf i)) [
  | inl e ↦ rw (e, index) tt
  | inr (b, e) ↦ rw (e, index) tt
]

pub Ensures-ok {ℓ κ} :
    {E : Type 0} {A : Type ℓ} (P : A → Type κ) (m : Outcome E A) {a : A}
    → Ensures P m
    → m ≡ ok a
    → P a
Ensures-ok P m h e = rw e at h

pub data Case {ℓ} {E : Type 0} {A : Type ℓ} (m : Outcome E A) : Type ℓ where
  is_ok : (a : A) → m ≡ ok a → Case m
  is_err : (e : E) → m ≡ err e → Case m
  is_panic : m ≡ panic → Case m
  is_hang : m ≡ hang → Case m

-- To split on a computed outcome and keep the equation.
pub Outcome-cases {ℓ} : {E : Type 0} {A : Type ℓ} (m : Outcome E A) → Case m
Outcome-cases (ok a) = is_ok a refl
Outcome-cases (err e) = is_err e refl
Outcome-cases panic = is_panic refl
Outcome-cases hang = is_hang refl

pub Returns-ne-panic {ℓ} : {E : Type 0} {A : Type ℓ} (m : Outcome E A) → Returns m → m ≢ panic
Returns-ne-panic m h e = rw e at h

pub Returns-ne-hang {ℓ} : {E : Type 0} {A : Type ℓ} (m : Outcome E A) → Returns m → m ≢ hang
Returns-ne-hang m h e = rw e at h
