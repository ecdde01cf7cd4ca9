-- ===== src/Prelude/Outcome.antt =====
-- Runs of C code. `crash` is a failed assertion or undefined behaviour: a read or write outside
-- an array, a signed overflow.
use Prim.Native.Nat.{ℕ, ◌+◌, ◌^◌, ◌<◌}
use mathlib.Core.Path.{◌≡◌, refl}
use mathlib.Core.Bool.{Bool, true, false}
use mathlib.Core.Option.{Option, none, some}
use native.Mathlib.Omega.{arith}
use atophttpd.Prelude.Tests.{ltb, if◌then◌else◌}

pub data Run {ℓ} (A : Type ℓ) : Type ℓ where
  done : A → Run A
  crash : Run A

infixl 5 ◌>>=◌ ◌>>◌
abbrev pub ◌>>=◌ {ℓ κ} : {A : Type ℓ} {B : Type κ} → Run A → (A → Run B) → Run B
done a >>= f = f a
crash >>= f = crash

abbrev pub ◌>>◌ {ℓ} : {B : Type ℓ} → Run (Unit {0}) → Run B → Run B
m >> k = m >>= λ _. k

-- `assert(b)`
abbrev pub assert : Bool → Run (Unit {0})
assert true = done tt
assert false = crash

-- The cell that an array read finds.
abbrev pub cell {ℓ} : {A : Type ℓ} → Option A → Run A
cell none = crash
cell (some a) = done a

-- The run ends, with a result that meets the predicate.
abbrev pub Returns {ℓ} : {A : Type ℓ} → Run A → (A → Type 0) → Type 0
Returns (done a) P = P a
Returns crash P = ⊥

-- The result meets the predicate, if the run ends.
abbrev pub IfReturns {ℓ} : {A : Type ℓ} → Run A → (A → Type 0) → Type 0
IfReturns (done a) P = P a
IfReturns crash P = Unit

pub IfReturns-bind {ℓ κ} :
    {A : Type ℓ} {B : Type κ} (P : A → Type 0) (Q : B → Type 0) (m : Run A) (k : A → Run B)
    → IfReturns m P
    → ((a : A) → P a → IfReturns (k a) Q)
    → IfReturns (m >>= k) Q
IfReturns-bind P Q (done a) k h f = f a h
IfReturns-bind P Q crash k h f = tt

pub IfReturns-any {ℓ} : {A : Type ℓ} (m : Run A) → IfReturns m (λ _. Unit)
IfReturns-any (done a) = tt
IfReturns-any crash = tt

pub Returns-map {ℓ} :
    {A : Type ℓ} (P Q : A → Type 0) (m : Run A) → ((a : A) → P a → Q a) → Returns m P → Returns m Q
Returns-map P Q (done a) f h = f a h
Returns-map P Q crash f h = h

pub Returns-and {ℓ} :
    {A : Type ℓ} (P Q : A → Type 0) (m : Run A)
    → Returns m P
    → Returns m Q
    → Returns m (λ a. P a × Q a)
Returns-and P Q (done a) p q = (p, q)
Returns-and P Q crash p q = p

-- A second result, under an assumption.
pub Returns-given {ℓ} :
    {A : Type ℓ} (P : A → Type 0) (H : Type 0) (Q : A → Type 0) (m : Run A)
    → Returns m P
    → (H → Returns m Q)
    → Returns m (λ a. P a × (H → Q a))
Returns-given P H Q (done a) p q = (p, q)
Returns-given P H Q crash p q = p

pub Returns-bind {ℓ κ} :
    {A : Type ℓ} {B : Type κ} (P : A → Type 0) (Q : B → Type 0) (m : Run A) (k : A → Run B)
    → Returns m P
    → ((a : A) → P a → Returns (k a) Q)
    → Returns (m >>= k) Q
Returns-bind P Q (done a) k h f = f a h
Returns-bind P Q crash k h f = h

pub Returns-bind_eq {ℓ κ} :
    {A : Type ℓ} {B : Type κ} (P : A → Type 0) (Q : B → Type 0) (m : Run A) (k : A → Run B)
    → Returns m P
    → ((a : A) → m ≡ done a → P a → Returns (k a) Q)
    → Returns (m >>= k) Q
Returns-bind_eq P Q (done a) k h f = f a refl h
Returns-bind_eq P Q crash k h f = h

pub Returns-if {ℓ} :
    {A : Type ℓ} (P : A → Type 0) (b : Bool) (m k : Run A)
    → Returns m P
    → Returns k P
    → Returns (if b then m else k) P
Returns-if P true m k h h' = h
Returns-if P false m k h h' = h'

pub Returns-cases {ℓ κ} :
    {A : Type ℓ} {B : Type κ} (P : B → Type 0) (m : Run (Option A)) (k : Option A → Run B)
    → Returns m (λ _. Unit)
    → Returns (k none) P
    → ((a : A) → Returns (k (some a)) P)
    → Returns (m >>= k) P
Returns-cases P (done none) k h l r = l
Returns-cases P (done (some a)) k h l r = r a
Returns-cases P crash k h l r = h

abbrev pub int_limit : ℕ
int_limit = 2 ^ 31

-- A sum of two `int`s that are not negative; an overflow is undefined.
unfoldable pub int_add : ℕ → ℕ → Run ℕ
int_add a b = if ltb (a + b) int_limit then done (a + b) else crash

pub int_add_lem : (a b : ℕ) → a + b < int_limit → int_add a b ≡ done (a + b)
unfolding int_add
int_add_lem a b h = ground arith

pub >>=-eq-done {ℓ κ} :
    {A : Type ℓ} {B : Type κ} (m : Run A) (f : A → Run B) {b : B}
    → (m >>= f) ≡ done b
    → (a : A) × (m ≡ done a) × (f a ≡ done b)
>>=-eq-done (done a) f h = (a, refl, h)
>>=-eq-done crash f h = cc

pub >>=-cong {ℓ κ} :
    {A : Type ℓ} {B : Type κ} (m : Run A) (f g : A → Run B)
    → ((a : A) → f a ≡ g a)
    → (m >>= f) ≡ (m >>= g)
>>=-cong (done a) f g h = h a
>>=-cong crash f g h = refl
